-- ===== src/Request/Prefix.antt =====
-- The beginning of a sequence of callbacks of bjoern/request.c of which none fails.
use bjoern.Common.{
  ℕ, ◌+◌, ◌≡◌, ◌≢◌, refl, sym, ◌∙◌, ap, subst, Bool, true, false, Option, none, some, List, [], ◌∷◌,
  ◌++◌, map, Bytes, ==_iff, length, arith, length-append, append_assoc, All, ◌==◌, if◌then◌else◌,
  Bool-cases, inl, inr,
}
use bjoern.Python.{Dict, Value}
use bjoern.Url.{unquote_url_inplace}
use bjoern.Request.{Request}
use bjoern.Request.Parse.{
  HttpParser, Event, message_begin, path, query_string, header_field, header_value, body,
  message_complete, callback, run_callbacks, on_message_begin, on_path, on_query_string,
  on_header_field, on_header_value, on_body, on_message_complete, store_body, value_of_field,
}
use bjoern.Request.Events.{Runs-whole, Runs-rest, Runs, Runs-nil, Runs-cons}
use bjoern.Request.Body.{body_events}
use bjoern.Request.Message.{
  either, HeaderPieces, Message, header_events, headers_events, message_events,
}

-- Where no callback fails at all, none fails at the beginning.
pub prefix-Runs :
    (base : Dict) (es fs : List Event) (made : ℕ) (r : Request)
    → (run_callbacks base (es ++ fs) made r).1 ≡ none
    → (r' : Request) × Runs base es r r'
unfolding run_callbacks
prefix-Runs base [] fs made r went = (r, Runs-nil base r)
prefix-Runs base (e ∷ es) fs made r went = elim (Bool-cases (callback base e r).1) [
  | inl failed ↦ absurd (let bad : some made ≡ none = ground arith in cc)
  | inr fine ↦
      let rest : (run_callbacks base (es ++ fs) (made + 1) (callback base e r).0).1 ≡ none =
        ground arith in
      let (r', more) = prefix-Runs base es fs (made + 1) (callback base e r).0 rest in
      (
        r',
        Runs-cons base e es r (callback base e r).0 r' (ap (λ b. ((callback base e r).0, b)) fine)
            more,
      )
]

-- Only the end of the message finishes a request.
abbrev pub IsInside : Event → Type 0
IsInside (message_complete http) = ⊥
IsInside _ = Unit

either-SameFinished :
    {A : Type 0} (b : Bool) (r : Request) (s t : Request × A)
    → s.0.state.parse_finished ≡ r.state.parse_finished
    → t.0.state.parse_finished ≡ r.state.parse_finished
    → (if b then s else t).0.state.parse_finished ≡ r.state.parse_finished
either-SameFinished true r s t p q = p
either-SameFinished false r s t p q = q

value_finished :
    (http : HttpParser) (s : Bytes) (field : Option Bytes) (r : Request)
    → (value_of_field http s field r).state.parse_finished ≡ r.state.parse_finished
value_finished http s none r = refl
value_finished http s (some field) r = ground arith

store_finished :
    (http : HttpParser) (s : Bytes) (v : Option Value) (r : Request)
    → (store_body http s v r).0.state.parse_finished ≡ r.state.parse_finished
store_finished http s none r = either-SameFinished (http.content_length == 0) r _ _ refl refl
store_finished http s (some v) r = refl

callback_finished :
    (base : Dict) (e : Event) (r : Request)
    → IsInside e
    → (callback base e r).0.state.parse_finished ≡ r.state.parse_finished
unfolding callback on_message_begin on_path on_query_string on_header_field on_header_value on_body
callback_finished base message_begin r h = refl
callback_finished base (path s) r h = either-SameFinished _ r _ _ refl refl
callback_finished base (query_string s) r h = refl
callback_finished base (header_field s) r h = refl
callback_finished base (header_value http s) r h =
    let r' = record r { parser = record (r.parser) { last_call_was_header_value = true } } in
    either (λ (s : Request). s.state.parse_finished ≡ r.state.parse_finished)
      r.parser.invalid_header r' (value_of_field http s r.parser.field r') refl
      (value_finished http s r.parser.field r')
callback_finished base (body http s) r h = store_finished http s _ _
callback_finished base (message_complete http) r h = absurd h

pub run_finished :
    (base : Dict) (es : List Event) (made : ℕ) (r : Request)
    → All IsInside es
    → (run_callbacks base es made r).0.state.parse_finished ≡ r.state.parse_finished
unfolding run_callbacks
run_finished base [] made r h = refl
run_finished base (e ∷ es) made r h =
    either-SameFinished (callback base e r).1 r _ _ (callback_finished base e r h.0)
      (run_finished base es (made + 1) (callback base e r).0 h.1 ∙ callback_finished base e r h.0)

-- An error stays.
value_error :
    (http : HttpParser) (s : Bytes) (field : Option Bytes) (r : Request)
    → r.state.error_code ≢ 0
    → (value_of_field http s field r).state.error_code ≢ 0
value_error http s none r h = h
value_error http s (some field) r h = ground arith

store_error :
    (http : HttpParser) (s : Bytes) (v : Option Value) (r : Request)
    → r.state.error_code ≢ 0
    → (store_body http s v r).0.state.error_code ≢ 0
store_error http s none r h = elim (Bool-cases (http.content_length == 0)) [
  | inl e ↦ rw e (λ bad. omega arith)
  | inr e ↦ rw e h
]
store_error http s (some v) r h = h

callback_error :
    (base : Dict) (e : Event) (r : Request)
    → r.state.error_code ≢ 0
    → (callback base e r).0.state.error_code ≢ 0
unfolding callback on_message_begin on_path on_query_string on_header_field on_header_value on_body
    on_message_complete
callback_error base message_begin r h = h
callback_error base (path s) r h = elim (Bool-cases ((unquote_url_inplace s).0 == 0)) [
  | inl e ↦ rw e h
  | inr e ↦ rw e h
]
callback_error base (query_string s) r h = h
callback_error base (header_field s) r h = h
callback_error base (header_value http s) r h =
    let r' = record r { parser = record (r.parser) { last_call_was_header_value = true } } in
    either (λ (s : Request). s.state.error_code ≢ 0) r.parser.invalid_header r'
      (value_of_field http s r.parser.field r') h (value_error http s r.parser.field r' h)
callback_error base (body http s) r h =
    store_error http s _ (record r { state = record (r.state) { expect_continue = false } }) h
callback_error base (message_complete http) r h = h

pub run_error :
    (base : Dict) (es : List Event) (made : ℕ) (r : Request)
    → r.state.error_code ≢ 0
    → (run_callbacks base es made r).0.state.error_code ≢ 0
unfolding run_callbacks
run_error base [] made r h = h
run_error base (e ∷ es) made r h = elim (Bool-cases (callback base e r).1) [
  | inl failed ↦ rw failed (callback_error base e r h)
  | inr fine ↦
      rw fine (run_error base es (made + 1) (callback base e r).0 (callback_error base e r h))
]

-- What comes before the last of a list.
before_end :
    {A : Type 0} (P : A → Type 0) (ins es : List A) (f last : A) (fs : List A)
    → es ++ f ∷ fs ≡ ins ++ last ∷ []
    → All P ins
    → All P es
before_end P ins [] f last fs e h = tt
before_end P [] (x ∷ es) f last fs e h =
    let rest : es ++ f ∷ fs ≡ [] = cc in
    let n : length (es ++ f ∷ fs) ≡ 0 = ap length rest in
    absurd (omega (arith, length-append es (f ∷ fs)))
before_end P (i ∷ ins) (x ∷ es) f last fs e h =
    let same : i ≡ x = cc in
    let rest : es ++ f ∷ fs ≡ ins ++ last ∷ [] = cc in
    (subst P same h.0, before_end P ins es f last fs rest h.1)

pub All-append :
    {A : Type 0} (P : A → Type 0) (xs ys : List A) → All P xs → All P ys → All P (xs ++ ys)
All-append P [] ys h k = k
All-append P (x ∷ xs) ys h k = (h.0, All-append P xs ys h.1 k)

pub All-map :
    {A B : Type 0} (P : B → Type 0) (f : A → B) (xs : List A)
    → ((x : A) → P (f x))
    → All P (map f xs)
All-map P f [] h = tt
All-map P f (x ∷ xs) h = (h x, All-map P f xs h)

headers_events-IsInside :
    (http : HttpParser) (hs : List HeaderPieces) → All IsInside (headers_events http hs)
headers_events-IsInside http [] = tt
headers_events-IsInside http (h ∷ hs) =
    All-append IsInside (header_events http h) (headers_events http hs)
      (All-append IsInside (map header_field (h.name ∷ h.names))
        (map (header_value http) (h.value ∷ h.values))
        (All-map IsInside header_field (h.name ∷ h.names) (λ s. tt))
        (All-map IsInside (header_value http) (h.value ∷ h.values) (λ s. tt)))
      (headers_events-IsInside http hs)

body_events-IsInside : (pieces : List (HttpParser × Bytes)) → All IsInside (body_events pieces)
body_events-IsInside [] = tt
body_events-IsInside ((http, piece) ∷ pieces) = (tt, body_events-IsInside pieces)

-- The callbacks of a request before its end.
inside_events : Message → List Event
inside_events m =
    message_begin
    ∷ (map path m.paths
        ++ (map query_string m.queries
            ++ (headers_events m.http m.headers ++ body_events m.bodies)))

inside_events-IsInside : (m : Message) → All IsInside (inside_events m)
unfolding inside_events
inside_events-IsInside m = (
  tt,
  All-append IsInside (map path m.paths) _ (All-map IsInside path m.paths (λ s. tt)) (
      All-append IsInside (map query_string m.queries) _
        (All-map IsInside query_string m.queries (λ s. tt))
        (All-append IsInside (headers_events m.http m.headers) _
          (headers_events-IsInside m.http m.headers) (body_events-IsInside m.bodies))),
)

inside_events_lem :
    (m : Message) → message_events m ≡ inside_events m ++ message_complete m.http ∷ []
unfolding inside_events
inside_events_lem m = simp append_assoc refl

-- What reads have made of a request that is not at its end is inside it.
pub message-IsInside :
    (m : Message) (es fs : List Event) → es ++ fs ≡ message_events m → fs ≢ [] → All IsInside es
message-IsInside m es [] e some_left = absurd (some_left refl)
message-IsInside m es (f ∷ fs) e some_left =
    before_end IsInside (inside_events m) es f (message_complete m.http) fs
      (e ∙ inside_events_lem m) (inside_events-IsInside m)

pub All-before : {A : Type 0} (P : A → Type 0) (xs ys : List A) → All P (xs ++ ys) → All P xs
All-before P [] ys h = tt
All-before P (x ∷ xs) ys h = (h.0, All-before P xs ys h.1)

-- Where no callback fails at all, the callbacks go on from where the first of them ended.
pub Runs-then :
    (base : Dict) (es fs gs : List Event) (r r' : Request)
    → Runs base es r r'
    → (run_callbacks base ((es ++ fs) ++ gs) 0 r).1 ≡ none
    → (r'' : Request) × Runs base fs r' r''
Runs-then base es fs gs r r' runs went = prefix-Runs base fs gs (0 + length es) r' (
    ap (λ (p : Request × Option ℕ). p.1) (sym (Runs-rest base es (fs ++ gs) r r' 0 runs))
    ∙ ap (λ l. (run_callbacks base l 0 r).1) (sym (append_assoc es fs gs))
    ∙ went)

-- Where a request is finished or faulty at no later time, it is not at the time between.
pub not_finished_yet :
    (base : Dict) (es : List Event) (r r' : Request)
    → All IsInside es
    → Runs base es r r'
    → r'.state.parse_finished ≡ r.state.parse_finished
not_finished_yet base es r r' inside runs =
    ap (λ (p : Request × Option ℕ). p.0.state.parse_finished) (sym (Runs-whole base es r r' runs))
    ∙ run_finished base es 0 r inside

pub no_error_yet :
    (base : Dict) (es fs : List Event) (r r' : Request)
    → Runs base es r r'
    → (run_callbacks base (es ++ fs) 0 r).0.state.error_code ≡ 0
    → r'.state.error_code ≡ 0
no_error_yet base es fs r r' runs ok = elim (Bool-cases (r'.state.error_code == 0)) [
  | inl e ↦ (==_iff _ 0).0 e
  | inr e ↦
      let bad = run_error base fs (0 + length es) r' (λ z. let t = (==_iff _ 0).1 z in cc) in
      absurd (
        bad (
          ap (λ (p : Request × Option ℕ). p.0.state.error_code)
            (sym (Runs-rest base es fs r r' 0 runs))
          ∙ ok))
]
