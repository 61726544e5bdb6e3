-- ===== src/Request/Body.antt =====
-- The body of a request in bjoern/request.c, which the parser delivers in pieces.
use mathlib.Core.List.{flatten}
use bjoern.Common.{
  ℕ, zero, suc, subst₂, ◌+◌, ◌≤◌, ◌≡◌, ◌≢◌, refl, sym, ◌∙◌, ap, subst, Bool, true, false, Option,
  none, some, List, [], ◌∷◌, ◌++◌, Bytes, length, arith, take, drop, append-nil, append_assoc,
  length-append, if◌then◌else◌,
}
use bjoern.Python.{Dict, stream, write_stream, get_item, set_item}
use bjoern.Request.{Request, environ}
use bjoern.Request.Parse.{
  HttpParser, Event, body, message_complete, wsgi_input, on_body, on_message_complete, callback,
  run_callbacks, complete_environ, store_body, with_environ, environ_of,
}
use bjoern.Request.Header.{set_item-set_item}
use bjoern.Request.Environ.{set_same, wsgi_base_dict, complete_environ-body}

-- The dictionary with a body, written so far to its end.
abbrev pub with_body : Bytes → Dict → Dict
with_body s d = set_item wsgi_input (stream s (length s)) d

abbrev pub body_stored : Bytes → Dict → Request → Request
body_stored s d r = record r {
  headers = environ (with_body s d);
  state = record (r.state) { expect_continue = false };
}

-- The pieces that the parser delivers, each with the parser's fields at that time: the length that
-- is left may go down from one to the next.
abbrev pub body_events : List (HttpParser × Bytes) → List Event
body_events [] = []
body_events ((http, piece) ∷ pieces) = body http piece ∷ body_events pieces

abbrev pub bytes_of : List (HttpParser × Bytes) → List Bytes
bytes_of [] = []
bytes_of ((http, piece) ∷ pieces) = piece ∷ bytes_of pieces

take_whole : (s : Bytes) → take (length s) s ≡ s
take_whole [] = refl
take_whole (c ∷ s) = ap (λ t. c ∷ t) (take_whole s)

drop_past : (n : ℕ) (s : Bytes) → length s ≤ n → drop n s ≡ []
drop_past zero [] h = refl
drop_past (suc n) [] h = refl
drop_past zero (c ∷ s) h = absurd (omega arith)
drop_past (suc n) (c ∷ s) h = drop_past n s (omega arith)

stream_eq : {s t : Bytes} {m n : ℕ} → s ≡ t → m ≡ n → stream s m ≡ stream t n
stream_eq p q = cc

write_stream_end :
    (old new : Bytes)
    → write_stream new (stream old (length old)) ≡ stream (old ++ new) (length (old ++ new))
unfolding write_stream
write_stream_end old new =
    stream_eq
      (ap (λ t. t ++ (new ++ drop (length old + length new) old)) (take_whole old)
        ∙ ap (λ t. old ++ (new ++ t)) (drop_past (length old + length new) old (omega arith))
        ∙ ap (λ t. old ++ t) (append-nil new))
      (sym (length-append old new))

pub next_piece :
    (http : HttpParser) (old new : Bytes) (d : Dict) (r : Request)
    → on_body http new (body_stored old d r) ≡ (body_stored (old ++ new) d r, false)
unfolding on_body
next_piece http old new d r =
    let r' = body_stored old d r in
    ap (λ v. store_body http new v r') (set_same wsgi_input (stream old (length old)) d)
    ∙ ap (λ h. (record r' { headers = environ h }, false))
        (ap (λ v. set_item wsgi_input v (with_body old d)) (write_stream_end old new)
          ∙ set_item-set_item wsgi_input _ _ d)

known_length :
    (http : HttpParser) (new : Bytes) (d : Dict) (r : Request)
    → http.content_length ≢ 0
    → store_body http new none r
      ≡ (with_environ (set_item wsgi_input (write_stream new (stream [] 0))) r, false)
known_length http new d r known = ground arith

pub first_piece :
    (http : HttpParser) (new : Bytes) (d : Dict) (r : Request)
    → get_item wsgi_input d ≡ none
    → http.content_length ≢ 0
    → on_body http new (record r { headers = environ d }) ≡ (body_stored new d r, false)
unfolding on_body
first_piece http new d r absent known =
    let r' = record r {
      headers = environ d;
      state = record (r.state) { expect_continue = false };
    } in
    ap (λ v. store_body http new v r') absent
    ∙ known_length http new d r' known
    ∙ ap (λ v. (record r' { headers = environ (set_item wsgi_input v d) }, false))
        (write_stream_end [] new)

-- All pieces but the first, and whatever the parser delivers behind them.
more_pieces :
    (base : Dict) (pieces : List (HttpParser × Bytes)) (rest : List Event) (made : ℕ) (old : Bytes)
    (d : Dict) (r : Request)
    → run_callbacks base (body_events pieces ++ rest) made (body_stored old d r)
      ≡ run_callbacks base rest
          (made + length pieces)
          (body_stored (old ++ flatten (bytes_of pieces)) d r)
unfolding run_callbacks callback flatten
more_pieces base [] rest made old d r =
    subst₂
      (λ m t.
        run_callbacks base rest made (body_stored old d r)
        ≡ run_callbacks base rest m (body_stored t d r))
      (omega arith) (sym (append-nil old)) refl
more_pieces base ((http, piece) ∷ pieces) rest made old d r =
    let go_on = more_pieces base pieces rest (made + 1) (old ++ piece) d r in
    ap
      (λ (p : Request × Bool).
        if p.1
        then (p.0, some made)
        else run_callbacks base (body_events pieces ++ rest) (made + 1) p.0)
      (next_piece http old piece d r)
    ∙ go_on
    ∙ subst₂
        (λ m t.
          run_callbacks base rest (made + 1 + length pieces)
            (body_stored ((old ++ piece) ++ flatten (bytes_of pieces)) d r)
          ≡ run_callbacks base rest m (body_stored t d r))
        (omega arith) (append_assoc old piece (flatten (bytes_of pieces))) refl

completed : HttpParser → Dict → Bytes → Dict → Request → Request
completed http base s d r = record r {
  headers = environ (complete_environ http r.client_addr base (with_body s d));
  state = record (r.state) { expect_continue = false; parse_finished = true };
}

body_callbacks :
    (base : Dict) (http ended : HttpParser) (piece : Bytes) (pieces : List (HttpParser × Bytes))
    (d : Dict) (r : Request)
    → r.headers ≡ environ d
    → get_item wsgi_input d ≡ none
    → http.content_length ≢ 0
    → run_callbacks base (body_events ((http, piece) ∷ pieces) ++ message_complete ended ∷ []) 0 r
      ≡ (completed ended base (piece ++ flatten (bytes_of pieces)) d r, none)
unfolding run_callbacks callback on_message_complete completed
body_callbacks base http ended piece pieces d r here absent known =
    let all = body_events pieces ++ message_complete ended ∷ [] in
    ap
      (λ h.
        let p = on_body http piece (record r { headers = h }) in
        if p.1 then (p.0, some 0) else run_callbacks base all 1 p.0)
      here
    ∙ ap (λ (p : Request × Bool). if p.1 then (p.0, some 0) else run_callbacks base all 1 p.0)
        (first_piece http piece d r absent known)
    ∙ more_pieces base pieces (message_complete ended ∷ []) 1 piece d r

-- A body whose length the parser has at the first of the pieces that it delivers, one at least,
-- behind headers without a body so far, and followed by the end of the message: no callback fails;
-- the request is complete, with the error code that it had, and no longer waits for `100 Continue`;
-- and in the dictionary that the application gets, whatever else it holds, the body is the pieces
-- put together, to be read from its beginning.
pub body_received :
    (http ended : HttpParser) (piece : Bytes) (pieces : List (HttpParser × Bytes))
    (address : Option (Bytes × Option Bytes)) (d : Dict) (r : Request)
    → r.headers ≡ environ d
    → get_item wsgi_input d ≡ none
    → http.content_length ≢ 0
    → let base = wsgi_base_dict address in
      let (r', failed) =
        run_callbacks base
          (body_events ((http, piece) ∷ pieces) ++ message_complete ended ∷ [])
          0
          r in
      (failed ≡ none)
      × (r'.state.parse_finished ≡ true)
      × (r'.state.expect_continue ≡ false)
      × (r'.state.error_code ≡ r.state.error_code)
      × (get_item wsgi_input (environ_of r'.headers)
          ≡ some (stream (flatten (piece ∷ bytes_of pieces)) 0))
unfolding flatten completed
body_received http ended piece pieces address d r here absent known =
    let base = wsgi_base_dict address in
    let whole = piece ++ flatten (bytes_of pieces) in
    let done = body_callbacks base http ended piece pieces d r here absent known in
    let body_there =
      complete_environ-body ended r.client_addr address (with_body whole d) whole (length whole)
        (set_same wsgi_input _ d) in
    subst
      (λ (p : Request × Option ℕ).
        (p.1 ≡ none)
        × (p.0.state.parse_finished ≡ true)
        × (p.0.state.expect_continue ≡ false)
        × (p.0.state.error_code ≡ r.state.error_code)
        × (get_item wsgi_input (environ_of p.0.headers) ≡ some (stream whole 0)))
      (sym done) (refl, refl, refl, refl, body_there)
