-- ===== src/Request/Asserts.antt =====
-- The assertion of `on_message_begin` of bjoern/request.c, in the callbacks of one request.
use bjoern.Common.{
  ℕ, ◌≡◌, refl, ◌∙◌, ap, subst, Bool, true, false, Option, none, List, [], ◌∷◌, ◌++◌, map, Bytes,
  All, ◌&&◌, ◌||◌,
}
use bjoern.Python.{Dict}
use bjoern.Request.{Request}
use bjoern.Request.Parse.{
  HttpParser, Event, message_begin, path, query_string, header_field, header_value, body,
  message_complete, callback, field_is_null, callback_asserts, run_asserts, run_callbacks,
}
use bjoern.Request.Body.{body_events}
use bjoern.Request.Events.{Runs, Runs-whole}
use bjoern.Request.Message.{HeaderPieces, Message, header_events, headers_events, message_events}
use bjoern.Request.Prefix.{All-append, All-map, All-before}

-- Only the beginning of a request asserts something.
abbrev IsLater : Event → Type 0
IsLater message_begin = ⊥
IsLater _ = Unit

later-callback_asserts : (e : Event) (r : Request) → IsLater e → callback_asserts e r ≡ true
later-callback_asserts message_begin r h = absurd h
later-callback_asserts (path s) r h = refl
later-callback_asserts (query_string s) r h = refl
later-callback_asserts (header_field s) r h = refl
later-callback_asserts (header_value http s) r h = refl
later-callback_asserts (body http s) r h = refl
later-callback_asserts (message_complete http) r h = refl

or_true : (b c : Bool) → c ≡ true → (b || c) ≡ true
or_true true c h = refl
or_true false c h = h

later-run_asserts :
    (base : Dict) (es : List Event) (r : Request) → All IsLater es → run_asserts base es r ≡ true
unfolding run_asserts
later-run_asserts base [] r h = refl
later-run_asserts base (e ∷ es) r h =
    ap (λ b. b && ((callback base e r).1 || run_asserts base es (callback base e r).0))
      (later-callback_asserts e r h.0)
    ∙ or_true (callback base e r).1 _ (later-run_asserts base es (callback base e r).0 h.1)

first-run_asserts :
    (base : Dict) (es : List Event) (r : Request)
    → r.parser.field ≡ none
    → All IsLater es
    → run_asserts base (message_begin ∷ es) r ≡ true
unfolding run_asserts
first-run_asserts base es r null h =
    let (r', failed) = callback base message_begin r in
    ap (λ f. field_is_null f && (failed || run_asserts base es r')) null
    ∙ or_true failed _ (later-run_asserts base es r' h)

headers_events-IsLater :
    (http : HttpParser) (hs : List HeaderPieces) → All IsLater (headers_events http hs)
headers_events-IsLater http [] = tt
headers_events-IsLater http (h ∷ hs) =
    All-append IsLater (header_events http h) (headers_events http hs)
      (All-append IsLater (map header_field (h.name ∷ h.names))
        (map (header_value http) (h.value ∷ h.values))
        (All-map IsLater header_field (h.name ∷ h.names) (λ s. tt))
        (All-map IsLater (header_value http) (h.value ∷ h.values) (λ s. tt)))
      (headers_events-IsLater http hs)

end_events-IsLater :
    (http : HttpParser) (pieces : List (HttpParser × Bytes))
    → All IsLater (body_events pieces ++ message_complete http ∷ [])
end_events-IsLater http [] = (tt, tt)
end_events-IsLater http ((h, piece) ∷ pieces) = (tt, end_events-IsLater http pieces)

-- All callbacks of a request but the first.
later_events : Message → List Event
later_events m =
    map path m.paths
    ++ (map query_string m.queries
        ++ (headers_events m.http m.headers
            ++ (body_events m.bodies ++ message_complete m.http ∷ [])))

later_events-IsLater : (m : Message) → All IsLater (later_events m)
unfolding later_events
later_events-IsLater m =
    All-append IsLater (map path m.paths) _ (All-map IsLater path m.paths (λ s. tt)) (
      All-append IsLater (map query_string m.queries) _
        (All-map IsLater query_string m.queries (λ s. tt))
        (All-append IsLater (headers_events m.http m.headers) _
          (headers_events-IsLater m.http m.headers) (end_events-IsLater m.http m.bodies)))

-- A whole request, where no name of a header is left over.
pub message-run_asserts :
    (base : Dict) (m : Message) (r : Request)
    → r.parser.field ≡ none
    → run_asserts base (message_events m) r ≡ true
unfolding later_events
message-run_asserts base m r null =
    first-run_asserts base (later_events m) r null (later_events-IsLater m)

All-middle : {A : Type 0} (P : A → Type 0) (xs ys zs : List A) → All P (xs ++ (ys ++ zs)) → All P ys
All-middle P [] ys zs h = All-before P ys zs h
All-middle P (x ∷ xs) ys zs h = All-middle P xs ys zs h.1

-- Some of the callbacks of a request, behind those before.
pub part-run_asserts :
    (base : Dict) (m : Message) (es now fs : List Event) (r r' : Request)
    → r.parser.field ≡ none
    → es ++ (now ++ fs) ≡ message_events m
    → Runs base es r r'
    → run_asserts base now r' ≡ true
unfolding run_asserts run_callbacks later_events
part-run_asserts base m [] [] fs r r' null e runs = refl
part-run_asserts base m [] (x ∷ now) fs r r' null e runs =
    let first : message_begin ≡ x = cc in
    let rest : later_events m ≡ now ++ fs = cc in
    let same : r ≡ r' = ap (λ (p : Request × Option ℕ). p.0) (Runs-whole base [] r r' runs) in
    subst (λ y. run_asserts base (y ∷ now) r' ≡ true) first
      (first-run_asserts base now r' (subst (λ (q : Request). q.parser.field ≡ none) same null)
        (All-before IsLater now fs (subst (All IsLater) rest (later_events-IsLater m))))
part-run_asserts base m (x ∷ es) now fs r r' null e runs =
    let rest : later_events m ≡ es ++ (now ++ fs) = cc in
    later-run_asserts base now r'
      (All-middle IsLater es now fs (subst (All IsLater) rest (later_events-IsLater m)))
