-- ===== src/Request/Whole.antt =====
-- A whole request of bjoern/request.c: what the application gets for it.
use mathlib.Core.List.{flatten}
use bjoern.Common.{
  ℕ, append_assoc, ◌≡◌, refl, sym, ◌∙◌, ap, subst, true, false, Option, none, some, List, [], ◌∷◌,
  ◌++◌, map, Bytes, codes, All,
}
use bjoern.Python.{Dict}
use bjoern.Request.{Request, RequestState, environ}
use bjoern.Request.Asserts.{message-run_asserts}
use bjoern.Request.Parse.{
  run_asserts, Event, with_environ, HttpParser, message_begin, path, query_string, message_complete,
  callback, run_callbacks, on_message_begin, on_message_complete, complete_environ, environ_of,
}
use bjoern.Request.Events.{
  Runs, Runs-nil, Runs-cons, Runs-append, Runs-whole, with_dict, Decodes, no_piece, piece_then,
  path-Runs, query-Runs, store_pieces,
}
use bjoern.Request.Lookup.{stored_headers}
use bjoern.Request.Received.{no_body_yet, HasMessage, complete_environ-HasMessage}
use bjoern.Request.Keys.{url_dict, body_dict}
use bjoern.Request.Environ.{wsgi_base_dict}
use bjoern.Url.Decode.{decode, decode-append}
use bjoern.Request.Body.{body_events, bytes_of}
use bjoern.Request.Message.{Message, whole_header, headers_events, message_events, IsBehind}
use bjoern.Request.Parts.{
  deliver_all, headers-Runs, headers-IsBehind, IsQuiet, headers_quiet, after_body, HasLength,
  body-Runs,
}

-- The request that all callbacks make.
abbrev before_headers : Message → List Bytes → Request → Request
before_headers m outs r = with_dict (url_dict outs m.queries) r

abbrev pub before_body : Message → List Bytes → Request → Request
before_body m outs r = deliver_all m.http m.headers (before_headers m outs r)

abbrev headers_dict : Message → List Bytes → Dict
headers_dict m outs = stored_headers (map whole_header m.headers) (url_dict outs m.queries)

abbrev completed : Dict → Message → List Bytes → Request → Request
completed base m outs r =
    (on_message_complete base m.http
      (after_body m.bodies (headers_dict m outs) (before_body m outs r))).0

before_body-IsBehind :
    (m : Message) (outs : List Bytes) (r : Request)
    → r.parser.last_call_was_header_value ≡ true
    → IsBehind (headers_dict m outs) (before_headers m outs r) (before_body m outs r)
before_body-IsBehind m outs r first =
    headers-IsBehind m.http m.headers (url_dict outs m.queries) (before_headers m outs r) first refl

-- The callbacks in front of the body.
abbrev pub before_body_events : Message → List Event
before_body_events m =
    message_begin
    ∷ (map path m.paths ++ (map query_string m.queries ++ headers_events m.http m.headers))

abbrev pub end_events : Message → List Event
end_events m = body_events m.bodies ++ message_complete m.http ∷ []

pub message_events_lem : (m : Message) → before_body_events m ++ end_events m ≡ message_events m
message_events_lem m = simp append_assoc refl

pub before_body-Runs :
    (base : Dict) (m : Message) (outs : List Bytes) (r : Request)
    → Decodes m.paths outs
    → Runs base (before_body_events m) r (before_body m outs r)
unfolding callback on_message_begin
before_body-Runs base m outs r decodes =
    let d1 = store_pieces (codes "PATH_INFO") outs [] in
    let r2 = before_headers m outs r in
    let r3 = before_body m outs r in
    let queries =
      Runs-append base (map query_string m.queries) (headers_events m.http m.headers)
        (with_dict d1 r) r2 r3 (query-Runs base m.queries d1 r)
        (headers-Runs base m.http m.headers r2) in
    Runs-cons base message_begin _ r (with_dict [] r) _ refl (
      Runs-append base (map path m.paths) _ (with_dict [] r) (with_dict d1 r) _
        (path-Runs base m.paths outs [] r decodes) queries)

message-Runs :
    (base : Dict) (m : Message) (outs : List Bytes) (r : Request)
    → r.parser.last_call_was_header_value ≡ true
    → Decodes m.paths outs
    → HasLength m.bodies
    → Runs base (message_events m) r (completed base m outs r)
unfolding callback on_message_complete
message-Runs base m outs r first decodes known =
    let r3 = before_body m outs r in
    let d3 = headers_dict m outs in
    let behind = before_body-IsBehind m outs r first in
    let r4 = after_body m.bodies d3 r3 in
    let last : Runs base (message_complete m.http ∷ []) r4 (completed base m outs r) =
      Runs-cons base (message_complete m.http) [] r4 _ _ refl (Runs-nil base _) in
    let bodies =
      Runs-append base (body_events m.bodies) _ r3 r4 _
        (body-Runs base m.bodies d3 r3 behind.holds
          (no_body_yet outs m.queries (map whole_header m.headers)) known)
        last in
    subst (λ es. Runs base es r (completed base m outs r)) (message_events_lem m)
      (Runs-append base (before_body_events m) (end_events m) r r3 _
        (before_body-Runs base m outs r decodes) bodies)

pub before_body_quiet :
    (m : Message) (outs : List Bytes) (r : Request)
    → r.parser.last_call_was_header_value ≡ true
    → All IsQuiet m.headers
    → (before_body m outs r).state ≡ r.state
before_body_quiet m outs r first quiet =
    headers_quiet m.http m.headers (url_dict outs m.queries) (before_headers m outs r) first refl
      quiet

after_body-holds :
    (bodies : List (HttpParser × Bytes)) (d : Dict) (r : Request)
    → r.headers ≡ environ d
    → ((after_body bodies d r).headers ≡ environ (body_dict (bytes_of bodies) d))
      × ((after_body bodies d r).client_addr ≡ r.client_addr)
after_body-holds [] d r here = (here, refl)
after_body-holds ((http, piece) ∷ pieces) d r here = (refl, refl)

completed-holds :
    (base : Dict) (m : Message) (outs : List Bytes) (r : Request)
    → r.parser.last_call_was_header_value ≡ true
    → environ_of (completed base m outs r).headers
      ≡ complete_environ m.http r.client_addr base
          (body_dict (bytes_of m.bodies) (headers_dict m outs))
unfolding on_message_complete
completed-holds base m outs r first =
    let behind = before_body-IsBehind m outs r first in
    let (here, addr) =
      after_body-holds m.bodies (headers_dict m outs) (before_body m outs r) behind.holds in
    ap
      (λ h.
        environ_of
          (with_environ
            (complete_environ m.http
              (after_body m.bodies (headers_dict m outs) (before_body m outs r)).client_addr base)
            (record (after_body m.bodies (headers_dict m outs) (before_body m outs r)) {
              headers = h;
            })).headers)
      here
    ∙ ap (λ a. complete_environ m.http a base (body_dict (bytes_of m.bodies) (headers_dict m outs)))
        (addr ∙ behind.client.same_addr)

after_body_quiet :
    (bodies : List (HttpParser × Bytes)) (d : Dict) (r : Request) (code : ℕ)
    → r.state.error_code ≡ code
    → r.state.expect_continue ≡ false
    → ((after_body bodies d r).state.error_code ≡ code)
      × ((after_body bodies d r).state.expect_continue ≡ false)
after_body_quiet [] d r code same waits = (same, waits)
after_body_quiet ((http, piece) ∷ pieces) d r code same waits = (same, refl)

decode-Decodes :
    (pieces outs : List Bytes) → Decodes pieces outs → decode (flatten pieces) ≡ some (flatten outs)
unfolding flatten decode
decode-Decodes _ _ no_piece = refl
decode-Decodes _ _ (piece_then piece out pieces outs e pos more) =
    decode-append piece (flatten pieces) out (flatten outs) e (decode-Decodes pieces outs more)

-- A whole request, delivered in any pieces - of its path, each of which decodes to a text that is
-- not empty, its query, the name and the value of each header, and its body, which wants a length -
-- at the start of a request, or anew on a connection that is kept, with no name of a header left
-- over: no assertion and no callback fails and the request is complete; the pieces of the path
-- decode, put together, to one text; and the application finds in its environment: that text as
-- `PATH_INFO`, the whole query as `QUERY_STRING`, the whole body as `wsgi.input`, to be read from
-- its beginning, the values of the headers for the length and the type of the body as
-- `CONTENT_LENGTH` and `CONTENT_TYPE`, the client's address, the method, the protocol, and the
-- values of the headers of each other name, put together in their order, under `HTTP_` and that
-- name; nothing stands for a path, a query or a header that there is not.
pub message_received :
    (m : Message) (outs : List Bytes) (address : Option (Bytes × Option Bytes)) (r : Request)
    → r.parser.last_call_was_header_value ≡ true
    → r.parser.field ≡ none
    → Decodes m.paths outs
    → HasLength m.bodies
    → let (r', failed) = run_callbacks (wsgi_base_dict address) (message_events m) 0 r in
      (run_asserts (wsgi_base_dict address) (message_events m) r ≡ true)
      × (failed ≡ none)
      × (r'.state.parse_finished ≡ true)
      × (decode (flatten m.paths) ≡ some (flatten outs))
      × HasMessage outs m.queries
          (bytes_of m.bodies)
          (map whole_header m.headers)
          m.http
          r.client_addr
          (environ_of r'.headers)
message_received m outs address r first null decodes known =
    let base = wsgi_base_dict address in
    let runs =
      Runs-whole base (message_events m) r _ (message-Runs base m outs r first decodes known) in
    subst
      (λ (p : Request × Option ℕ).
        (run_asserts base (message_events m) r ≡ true)
        × (p.1 ≡ none)
        × (p.0.state.parse_finished ≡ true)
        × (decode (flatten m.paths) ≡ some (flatten outs))
        × HasMessage outs m.queries (bytes_of m.bodies) (map whole_header m.headers) m.http
            r.client_addr (environ_of p.0.headers))
      (sym runs)
      (
        message-run_asserts base m r null,
        refl,
        (unfold on_message_complete in refl),
        decode-Decodes m.paths outs decodes,
        subst
            (HasMessage outs m.queries (bytes_of m.bodies) (map whole_header m.headers) m.http
              r.client_addr)
            (sym (completed-holds base m outs r first))
            (complete_environ-HasMessage outs m.queries (bytes_of m.bodies)
              (map whole_header m.headers) m.http r.client_addr address),
      )

-- What a whole request without an `Expect` header leaves of the state.
pub message_quiet :
    (base : Dict) (m : Message) (outs : List Bytes) (r : Request)
    → r.parser.last_call_was_header_value ≡ true
    → Decodes m.paths outs
    → HasLength m.bodies
    → All IsQuiet m.headers
    → r.state.expect_continue ≡ false
    → let r' = (run_callbacks base (message_events m) 0 r).0 in
      (r'.state.error_code ≡ r.state.error_code) × (r'.state.expect_continue ≡ false)
unfolding on_message_complete
message_quiet base m outs r first decodes known quiet waits =
    let runs =
      Runs-whole base (message_events m) r _ (message-Runs base m outs r first decodes known) in
    let same =
      headers_quiet m.http m.headers (url_dict outs m.queries) (before_headers m outs r) first refl
        quiet in
    subst
      (λ (p : Request × Option ℕ).
        (p.0.state.error_code ≡ r.state.error_code) × (p.0.state.expect_continue ≡ false))
      (sym runs)
      (after_body_quiet m.bodies (headers_dict m outs) (before_body m outs r) r.state.error_code
        (ap (λ (s : RequestState). s.error_code) same)
        (ap (λ (s : RequestState). s.expect_continue) same ∙ waits))
