-- ===== src/Request/Parts.antt =====
-- The headers and the body of a whole request in bjoern/request.c, as callbacks.
use mathlib.Core.List.{flatten}
use bjoern.Common.{
  append-nil, append_assoc, ◌≡◌, ◌≢◌, refl, sym, ◌∙◌, ap, subst, true, none, List, [], ◌∷◌, ◌++◌,
  map, Bytes, All,
}
use bjoern.Python.{Dict, get_item}
use bjoern.Request.{Request, environ}
use bjoern.Request.Parse.{HttpParser, body, callback, field_processed, wsgi_input}
use bjoern.Request.Events.{Runs, Runs-nil, Runs-cons, Runs-append}
use bjoern.Request.Lookup.{stored_headers}
use bjoern.Request.Body.{body_events, bytes_of, body_stored, first_piece, next_piece}
use bjoern.Request.Message.{
  HeaderPieces, whole_header, header_events, headers_events, deliver, header-Runs, SameClient-trans,
  IsQuietName, IsBehind, deliver-IsBehind, deliver_quiet,
}

abbrev whole_headers : List HeaderPieces → List (Bytes × Bytes)
whole_headers = map whole_header

abbrev pub deliver_all : HttpParser → List HeaderPieces → Request → Request
deliver_all http [] r = r
deliver_all http (h ∷ hs) r = deliver_all http hs (deliver http h r)

pub headers-Runs :
    (base : Dict) (http : HttpParser) (hs : List HeaderPieces) (r : Request)
    → Runs base (headers_events http hs) r (deliver_all http hs r)
headers-Runs base http [] r = Runs-nil base r
headers-Runs base http (h ∷ hs) r =
    Runs-append base (header_events http h) (headers_events http hs) r (deliver http h r) _
      (header-Runs base http h r) (headers-Runs base http hs (deliver http h r))

pub headers-IsBehind :
    (http : HttpParser) (hs : List HeaderPieces) (d : Dict) (r : Request)
    → r.parser.last_call_was_header_value ≡ true
    → r.headers ≡ environ d
    → IsBehind (stored_headers (map whole_header hs) d) r (deliver_all http hs r)
headers-IsBehind http [] d r first here = record {
  holds = here;
  next_starts = first;
  client = record { same_addr = refl; same_finished = refl };
}
headers-IsBehind http (h ∷ hs) d r first here =
    let one = deliver-IsBehind http h d r first here in
    let r1 = deliver http h r in
    let more = headers-IsBehind http hs _ r1 one.next_starts one.holds in
    record {
      holds = more.holds;
      next_starts = more.next_starts;
      client = SameClient-trans r r1 (deliver_all http hs r1) one.client more.client;
    }

-- No header is `Expect`.
abbrev pub IsQuiet : HeaderPieces → Type 0
IsQuiet h = IsQuietName (field_processed (whole_header h).0)

pub headers_quiet :
    (http : HttpParser) (hs : List HeaderPieces) (d : Dict) (r : Request)
    → r.parser.last_call_was_header_value ≡ true
    → r.headers ≡ environ d
    → All IsQuiet hs
    → (deliver_all http hs r).state ≡ r.state
headers_quiet http [] d r first here quiet = refl
headers_quiet http (h ∷ hs) d r first here quiet =
    let one = deliver-IsBehind http h d r first here in
    headers_quiet http hs _ (deliver http h r) one.next_starts one.holds quiet.1
    ∙ deliver_quiet http h d r first here quiet.0

-- The request and the dictionary behind the body.
abbrev pub after_body : List (HttpParser × Bytes) → Dict → Request → Request
after_body [] d r = r
after_body ((http, piece) ∷ pieces) d r = body_stored (flatten (piece ∷ bytes_of pieces)) d r

pieces-Runs :
    (base : Dict) (old : Bytes) (pieces : List (HttpParser × Bytes)) (d : Dict) (r : Request)
    → Runs base
        (body_events pieces)
        (body_stored old d r)
        (body_stored (old ++ flatten (bytes_of pieces)) d r)
unfolding callback flatten
pieces-Runs base old [] d r =
    subst (λ s. Runs base [] (body_stored old d r) (body_stored s d r)) (sym (append-nil old))
      (Runs-nil base (body_stored old d r))
pieces-Runs base old ((http, piece) ∷ pieces) d r =
    let all = body_events ((http, piece) ∷ pieces) in
    subst (λ s. Runs base all (body_stored old d r) (body_stored s d r))
      (append_assoc old piece (flatten (bytes_of pieces)))
      (Runs-cons base (body http piece) (body_events pieces) (body_stored old d r)
        (body_stored (old ++ piece) d r) _ (next_piece http old piece d r)
        (pieces-Runs base (old ++ piece) pieces d r))

-- A body is delivered only with a length, which the parser has at the first piece.
abbrev pub HasLength : List (HttpParser × Bytes) → Type 0
HasLength [] = Unit
HasLength ((http, piece) ∷ pieces) = http.content_length ≢ 0

pub body-Runs :
    (base : Dict) (pieces : List (HttpParser × Bytes)) (d : Dict) (r : Request)
    → r.headers ≡ environ d
    → get_item wsgi_input d ≡ none
    → HasLength pieces
    → Runs base (body_events pieces) r (after_body pieces d r)
unfolding callback flatten
body-Runs base [] d r here absent known = Runs-nil base r
body-Runs base ((http, piece) ∷ pieces) d r here absent known =
    let all = (http, piece) ∷ pieces in
    subst (λ x. Runs base (body_events all) x (after_body all d r))
      (ap (λ h. record r { headers = h }) (sym here))
      (Runs-cons base (body http piece) (body_events pieces) (record r { headers = environ d })
        (body_stored piece d r) _ (first_piece http piece d r absent known)
        (pieces-Runs base piece pieces d r))
