-- ===== src/Request/Quiet.antt =====
-- The beginnings of a request without an `Expect` header in bjoern/request.c: none of them leaves a
-- wait for `100 Continue`.
use bjoern.Common.{
  ℕ, ◌+◌, ◌≡◌, ◌⊎◌, refl, sym, ◌∙◌, ap, subst, Bool, true, false, Option, none, some, List, [], ◌∷◌,
  ◌++◌, map, Bytes, length, arith, All, ◌==◌, Bool-cases, inl, inr,
}
use bjoern.Python.{Dict, Value}
use bjoern.Url.{unquote_url_inplace}
use bjoern.Request.{Request, RequestState}
use bjoern.Request.Parse.{
  HttpParser, Event, message_begin, path, query_string, header_field, header_value, body,
  message_complete, callback, run_callbacks, on_message_begin, on_path, on_query_string,
  on_header_field, on_header_value, on_body, on_message_complete, store_body, value_of_field,
}
use bjoern.Request.Events.{Runs, Runs-rest, Runs-whole, Decodes}
use bjoern.Request.Message.{
  either, HeaderPieces, Message, header_events, headers_events, message_events,
}
use bjoern.Request.Body.{body_events}
use bjoern.Request.Prefix.{All-append, All-map, All-before}
use bjoern.Request.Whole.{
  before_body_events, end_events, message_events_lem, before_body, before_body-Runs,
  before_body_quiet,
}
use bjoern.Request.Parts.{IsQuiet}

-- A callback for the body or the end.
abbrev IsBehindHeaders : Event → Type 0
IsBehindHeaders (body http s) = Unit
IsBehindHeaders (message_complete http) = Unit
IsBehindHeaders _ = ⊥

abbrev IsBeforeBody : Event → Type 0
IsBeforeBody (body http s) = ⊥
IsBeforeBody _ = Unit

-- A wait ends only with the body.
value_waits :
    (http : HttpParser) (s : Bytes) (field : Option Bytes) (r : Request)
    → r.state.expect_continue ≡ true
    → (value_of_field http s field r).state.expect_continue ≡ true
value_waits http s none r h = h
value_waits http s (some field) r h = ground arith

callback_waits :
    (base : Dict) (e : Event) (r : Request)
    → IsBeforeBody e
    → r.state.expect_continue ≡ true
    → (callback base e r).0.state.expect_continue ≡ true
unfolding callback on_message_begin on_path on_query_string on_header_field on_header_value on_body
    on_message_complete
callback_waits base message_begin r k h = h
callback_waits base (path s) r k h =
    either (λ (p : Request × Bool). p.0.state.expect_continue ≡ true)
      ((unquote_url_inplace s).0 == 0) _ _ h h
callback_waits base (query_string s) r k h = h
callback_waits base (header_field s) r k h = h
callback_waits base (header_value http s) r k h =
    let r' = record r { parser = record (r.parser) { last_call_was_header_value = true } } in
    either (λ (s : Request). s.state.expect_continue ≡ true) r.parser.invalid_header r'
      (value_of_field http s r.parser.field r') h (value_waits http s r.parser.field r' h)
callback_waits base (body http s) r k h = absurd k
callback_waits base (message_complete http) r k h = h

run_waits :
    (base : Dict) (es : List Event) (made : ℕ) (r : Request)
    → All IsBeforeBody es
    → r.state.expect_continue ≡ true
    → (run_callbacks base es made r).0.state.expect_continue ≡ true
unfolding run_callbacks
run_waits base [] made r k h = h
run_waits base (e ∷ es) made r k h =
    let step = callback_waits base e r k.0 h in
    either (λ (p : Request × Option ℕ). p.0.state.expect_continue ≡ true) (callback base e r).1 _ _
      step (run_waits base es (made + 1) (callback base e r).0 k.1 step)

-- The body and the end start none.
store_quiet :
    (http : HttpParser) (s : Bytes) (v : Option Value) (r : Request)
    → r.state.expect_continue ≡ false
    → (store_body http s v r).0.state.expect_continue ≡ false
store_quiet http s none r h =
    either (λ (p : Request × Bool). p.0.state.expect_continue ≡ false) (http.content_length == 0) _
      _ h h
store_quiet http s (some v) r h = h

callback_quiet :
    (base : Dict) (e : Event) (r : Request)
    → IsBehindHeaders e
    → r.state.expect_continue ≡ false
    → (callback base e r).0.state.expect_continue ≡ false
unfolding callback on_body on_message_complete
callback_quiet base (body http s) r k h = store_quiet http s _ _ refl
callback_quiet base (message_complete http) r k h = h
callback_quiet base message_begin r k h = absurd k
callback_quiet base (path s) r k h = absurd k
callback_quiet base (query_string s) r k h = absurd k
callback_quiet base (header_field s) r k h = absurd k
callback_quiet base (header_value http s) r k h = absurd k

run_quiet :
    (base : Dict) (es : List Event) (made : ℕ) (r : Request)
    → All IsBehindHeaders es
    → r.state.expect_continue ≡ false
    → (run_callbacks base es made r).0.state.expect_continue ≡ false
unfolding run_callbacks
run_quiet base [] made r k h = h
run_quiet base (e ∷ es) made r k h =
    let step = callback_quiet base e r k.0 h in
    either (λ (p : Request × Option ℕ). p.0.state.expect_continue ≡ false) (callback base e r).1 _ _
      step (run_quiet base es (made + 1) (callback base e r).0 k.1 step)

-- A beginning of two lists ends in the first or in the second.
append_cases :
    {A : Type 0} (es fs xs ys : List A)
    → es ++ fs ≡ xs ++ ys
    → ((k : List A) × (xs ≡ es ++ k)) ⊎ ((k : List A) × (es ≡ xs ++ k) × (k ++ fs ≡ ys))
append_cases [] fs xs ys e = inl (xs, refl)
append_cases (x ∷ es) fs [] ys e = inr (x ∷ es, refl, e)
append_cases (x ∷ es) fs (y ∷ xs) ys e =
    let same : x ≡ y = cc in
    let rest : es ++ fs ≡ xs ++ ys = cc in
    elim (append_cases es fs xs ys rest) [
      | inl (k, p) ↦ inl (k, cc)
      | inr (k, p, q) ↦ inr (k, cc, q)
    ]

headers_events-IsBeforeBody :
    (http : HttpParser) (hs : List HeaderPieces) → All IsBeforeBody (headers_events http hs)
headers_events-IsBeforeBody http [] = tt
headers_events-IsBeforeBody http (h ∷ hs) =
    All-append IsBeforeBody (header_events http h) (headers_events http hs)
      (All-append IsBeforeBody (map header_field (h.name ∷ h.names))
        (map (header_value http) (h.value ∷ h.values))
        (All-map IsBeforeBody header_field (h.name ∷ h.names) (λ s. tt))
        (All-map IsBeforeBody (header_value http) (h.value ∷ h.values) (λ s. tt)))
      (headers_events-IsBeforeBody http hs)

before_body_events-IsBeforeBody : (m : Message) → All IsBeforeBody (before_body_events m)
before_body_events-IsBeforeBody m = (
  tt,
  All-append IsBeforeBody (map path m.paths) _ (All-map IsBeforeBody path m.paths (λ s. tt)) (
      All-append IsBeforeBody (map query_string m.queries) _
        (All-map IsBeforeBody query_string m.queries (λ s. tt))
        (headers_events-IsBeforeBody m.http m.headers)),
)

end_events-IsBehindHeaders :
    (http : HttpParser) (pieces : List (HttpParser × Bytes))
    → All IsBehindHeaders (body_events pieces ++ message_complete http ∷ [])
end_events-IsBehindHeaders http [] = (tt, tt)
end_events-IsBehindHeaders http ((h, piece) ∷ pieces) = (tt, end_events-IsBehindHeaders http pieces)

All-behind : {A : Type 0} (P : A → Type 0) (xs ys : List A) → All P (xs ++ ys) → All P ys
All-behind P [] ys h = h
All-behind P (x ∷ xs) ys h = All-behind P xs ys h.1

-- Reads that end inside the headers, or behind them.
quiet_inside :
    (base : Dict) (es k : List Event) (r r' r3 : Request)
    → All IsBeforeBody k
    → Runs base es r r'
    → Runs base (es ++ k) r r3
    → r3.state.expect_continue ≡ false
    → r'.state.expect_continue ≡ false
quiet_inside base es k r r' r3 before some_of all waits =
    elim (Bool-cases r'.state.expect_continue) [
      | inr e ↦ e
      | inl e ↦
          let still = run_waits base k (0 + length es) r' before e in
          let same : (run_callbacks base k (0 + length es) r').0 ≡ r3 =
            ap (λ (p : Request × Option ℕ). p.0)
              (sym (Runs-rest base es k r r' 0 some_of) ∙ Runs-whole base (es ++ k) r r3 all) in
          absurd (
            let bad : true ≡ false =
              sym still ∙ ap (λ (p : Request). p.state.expect_continue) same ∙ waits in
            cc)
    ]

quiet_behind :
    (base : Dict) (es k : List Event) (r r' r3 : Request)
    → All IsBehindHeaders k
    → Runs base es r r3
    → Runs base (es ++ k) r r'
    → r3.state.expect_continue ≡ false
    → r'.state.expect_continue ≡ false
quiet_behind base es k r r' r3 behind some_of all waits =
    ap (λ (p : Request × Option ℕ). p.0.state.expect_continue)
      (sym (Runs-whole base (es ++ k) r r' all) ∙ Runs-rest base es k r r3 0 some_of)
    ∙ run_quiet base k (0 + length es) r3 behind waits

-- What any beginning of a request without an `Expect` header leaves of the wait.
pub beginning_quiet :
    (base : Dict) (m : Message) (outs : List Bytes) (es fs : List Event) (r r' : Request)
    → r.parser.last_call_was_header_value ≡ true
    → r.state.expect_continue ≡ false
    → Decodes m.paths outs
    → All IsQuiet m.headers
    → es ++ fs ≡ message_events m
    → Runs base es r r'
    → r'.state.expect_continue ≡ false
beginning_quiet base m outs es fs r r' first waits decodes quiet e runs =
    let head = before_body_events m in
    let r3 = before_body m outs r in
    let to_body = before_body-Runs base m outs r decodes in
    let still =
      ap (λ (s : RequestState). s.expect_continue) (before_body_quiet m outs r first quiet)
      ∙ waits in
    elim (append_cases es fs head (end_events m) (e ∙ sym (message_events_lem m))) [
      | inl (k, p) ↦
          quiet_inside base es k r r' r3
            (All-behind IsBeforeBody es k
              (subst (All IsBeforeBody) p (before_body_events-IsBeforeBody m)))
            runs (subst (λ l. Runs base l r r3) p to_body) still
      | inr (k, p, q) ↦
          quiet_behind base head k r r' r3
            (All-before IsBehindHeaders k fs
              (subst (All IsBehindHeaders) (sym q) (end_events-IsBehindHeaders m.http m.bodies)))
            to_body (subst (λ l. Runs base l r r') p runs) still
    ]
