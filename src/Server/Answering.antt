-- ===== src/Server/Answering.antt =====
-- A complete request of bjoern/server.c, and the response that is written for it.
use bjoern.Common.{
  subst₂, ◌&&◌, All, ℕ, ◌<◌, ◌≤◌, ◌≡◌, refl, sym, ◌∙◌, ap, subst, Bool, true, false, Option, none,
  some, List, ◌++◌, Bytes, length, arith, All, inr, append_assoc, length-append,
}
use bjoern.Python.{Iter, Retval}
use bjoern.Request.{Request, Iterable, no_iterable, wrapper, other_iterable, chunk}
use bjoern.Request.Parse.{environ_of, HttpParser, Execution, request_parse}
use bjoern.Response.{Fields, First, response_head, with_first, wsgi_call_application}
use bjoern.Response.Body.{keeps_alive, is_chunked, answered, wsgi_call_application-answered}
use bjoern.Response.Carrying.{responder, Carries, filled, Splits, IsNoFile}
use bjoern.Server.{Connection, writing, done}
use bjoern.Server.Read.{
  call_asserts, after_parse_asserts, Surroundings, received, ev_io_on_read, after_parse,
  call_result,
}
use bjoern.Server.Between.{IsStreaming, IsPlain}
use bjoern.Server.Fresh.{IsFresh, IsParsedFrom-IsFresh}
use bjoern.Request.Frame.{request_parse-IsParsedFrom}
use bjoern.Server.Answer.{after_parse_complete}
use bjoern.Server.Stream.{is_kept, encode_rest, unsent, pending, pending_of}
use bjoern.Server.Client.{IsShort}
use bjoern.Server.Delivery.{run_writes}
use bjoern.Server.Ending.{Finishes, chances, delivery_ends}
use bjoern.Server.Reply.{Splits-completes, encode-Splits, sent_body, ReadsBody, sent_body-ReadsBody}

IsNoFile-IsPlain : (it : Iterable) → IsNoFile it → IsPlain it
IsNoFile-IsPlain no_iterable h = h
IsNoFile-IsPlain (wrapper none) h = h
IsNoFile-IsPlain (wrapper (some fd)) h = h
IsNoFile-IsPlain (other_iterable has_close) h = h

subst₃ :
    {A B C : Type 0} (P : A → B → C → Type 0) {a a' : A} {b b' : B} {c c' : C}
    → a ≡ a'
    → b ≡ b'
    → c ≡ c'
    → P a b c
    → P a' b' c'
subst₃ P {a} {a'} {b} {b'} {c} {c'} p q r h = subst (P a' b') r (subst₂ (λ x y. P x y c) p q h)

-- How this response is sent.
abbrev pub head_of : HttpParser → Bool → Bytes → Fields → Bytes
head_of http keeps status fields =
    response_head status fields (keeps_alive http keeps status fields)
      (is_chunked http keeps status fields)

abbrev pub response_of : HttpParser → Bool → Bytes → Fields → List Bytes → Bytes
response_of http keeps status fields cs =
    head_of http keeps status fields ++ sent_body (is_chunked http keeps status fields) cs

head_pos :
    (status : Bytes) (fields : Fields) (keep chunked : Bool)
    → 0 < length (response_head status fields keep chunked)
unfolding response_head
head_pos status fields keep chunked = omega arith

answered-pending :
    (http : HttpParser) (keeps : Bool) (status : Bytes) (fields : Fields) (cs : List Bytes)
    (it : Iterable) (left : Option Iter) (first : First) (r : Request)
    → Splits (filled cs) first left
    → pending (answered http keeps status fields it left first r)
      ≡ response_of http keeps status fields cs
unfolding unsent
answered-pending http keeps status fields cs it left first r splits =
    let chunked = is_chunked http keeps status fields in
    let head = head_of http keeps status fields in
    pending_of (answered http keeps status fields it left first r)
      (chunk (head ++ with_first chunked first)) 0 chunked left refl refl refl refl
    ∙ append_assoc head (with_first chunked first) (encode_rest chunked left)
    ∙ ap (λ t. head ++ t) (encode-Splits chunked (filled cs) first left splits)

answered_kept :
    (http : HttpParser) (keeps : Bool) (status : Bytes) (fields : Fields) (cs : List Bytes)
    (it : Iterable) (left : Option Iter) (first : First) (r : Request)
    → Splits (filled cs) first left
    → is_kept (answered http keeps status fields it left first r)
      ≡ keeps_alive http keeps status fields
answered_kept http keeps status fields cs it left first r splits =
    ap (λ b. b && keeps_alive http keeps status fields)
      (Splits-completes (filled cs) first left splits)

answered-IsStreaming :
    (http : HttpParser) (keeps : Bool) (status : Bytes) (fields : Fields) (it : Iterable)
    (left : Option Iter) (first : First) (r : Request)
    → IsNoFile it
    → r.state.expect_continue ≡ false
    → IsStreaming (answered http keeps status fields it left first r)
answered-IsStreaming http keeps status fields it left first r no_file quiet = record {
  current = omega (
    arith,
    length-append (head_of http keeps status fields)
        (with_first (is_chunked http keeps status fields) first),
    head_pos status fields (keeps_alive http keeps status fields)
        (is_chunked http keeps status fields),
  );
  plain = IsNoFile-IsPlain it no_file;
  no_expect = quiet;
  live = inr (record { called = refl; answered = refl });
}

complete-after_parse_asserts :
    (env : Surroundings) (r : Request)
    → r.state.error_code ≡ 0
    → r.state.parse_finished ≡ true
    → after_parse_asserts env r
      ≡ call_asserts
          (wsgi_call_application env.http env.keeps (env.application (environ_of r.headers)) r)
unfolding after_parse_asserts
complete-after_parse_asserts env r ok complete = ground arith

-- No assertion fails behind the parser where such an application is called.
pub answered_asserts :
    (env : Surroundings) (r : Request) (status : Bytes) (fields : Fields) (v : Retval)
    (cs : List Bytes)
    → IsFresh r
    → r.state.error_code ≡ 0
    → r.state.parse_finished ≡ true
    → env.application (environ_of r.headers) ≡ responder status fields v
    → 3 ≤ length status
    → Carries v cs
    → after_parse_asserts env r ≡ true
answered_asserts env r status fields v cs h ok complete app long carries =
    let (it, left, first, called, no_file, splits) =
      wsgi_call_application-answered env.http env.keeps status fields v cs r h.not_called
        h.unchunked long carries in
    complete-after_parse_asserts env r ok complete
    ∙ ap (λ a. call_asserts (wsgi_call_application env.http env.keeps a r)) app
    ∙ ap call_asserts called

-- The connection that a complete request leaves.
record Answers (env : Surroundings) (status : Bytes) (fields : Fields) (cs : List Bytes)
    (c c' : Connection) : Type 0 where
  writes : c'.watcher ≡ writing
  streaming : IsStreaming c'.request
  response : pending c'.request ≡ response_of env.http env.keeps status fields cs
  kept : is_kept c'.request ≡ keeps_alive env.http env.keeps status fields
  wire : c'.wire ≡ c.wire
  closed : c'.fd_closed ≡ c.fd_closed

read-Answers :
    (env : Surroundings) (n : ℕ) (x : Execution) (c : Connection) (status : Bytes) (fields : Fields)
    (v : Retval) (cs : List Bytes)
    → IsFresh c.request
    → (request_parse env.base x n c.request).state.error_code ≡ 0
    → (request_parse env.base x n c.request).state.parse_finished ≡ true
    → (request_parse env.base x n c.request).state.expect_continue ≡ false
    → env.application (environ_of (request_parse env.base x n c.request).headers)
      ≡ responder status fields v
    → 3 ≤ length status
    → Carries v cs
    → Answers env status fields cs c (ev_io_on_read env (received n x) c)
unfolding ev_io_on_read
read-Answers env n x c status fields v cs fresh ok complete quiet app long carries =
    let r = request_parse env.base x n c.request in
    let h =
      IsParsedFrom-IsFresh c.request r (request_parse-IsParsedFrom env.base x n c.request) fresh in
    let (it, left, first, called, no_file, splits) =
      wsgi_call_application-answered env.http env.keeps status fields v cs r h.not_called
        h.unchunked long carries in
    let r' = answered env.http env.keeps status fields it left first r in
    let e : after_parse env r ≡ (r', done) =
      after_parse_complete env r ok complete
      ∙ ap (λ a. (call_result (wsgi_call_application env.http env.keeps a r), done)) app
      ∙ ap (λ p. (call_result p, done)) called in
    rw e (record {
      writes = refl;
      streaming =
          answered-IsStreaming env.http env.keeps status fields it left first r no_file quiet;
      response = answered-pending env.http env.keeps status fields cs it left first r splits;
      kept = answered_kept env.http env.keeps status fields cs it left first r splits;
      wire = refl;
      closed = refl;
    })

-- The bytes of a whole request arrive on a connection that nothing is sent for.
pub request_answered :
    (env : Surroundings) (n : ℕ) (x : Execution) (c : Connection) (status : Bytes) (fields : Fields)
    (v : Retval) (cs : List Bytes) (rooms : List ℕ) (next : Bytes)
    → IsFresh c.request
    → (request_parse env.base x n c.request).state.error_code ≡ 0
    → (request_parse env.base x n c.request).state.parse_finished ≡ true
    → (request_parse env.base x n c.request).state.expect_continue ≡ false
    → env.application (environ_of (request_parse env.base x n c.request).headers)
      ≡ responder status fields v
    → 3 ≤ length status
    → Carries v cs
    → All IsShort cs
    → length (response_of env.http env.keeps status fields cs) < chances rooms
    → Finishes
        (keeps_alive env.http env.keeps status fields)
        (c.wire ++ response_of env.http env.keeps status fields cs)
        c.fd_closed
        (run_writes rooms (ev_io_on_read env (received n x) c))
      × ReadsBody (is_chunked env.http env.keeps status fields) cs next
request_answered env n x c status fields v cs rooms next fresh ok complete quiet app long carries
      short enough =
    let c' = ev_io_on_read env (received n x) c in
    let a = read-Answers env n x c status fields v cs fresh ok complete quiet app long carries in
    let ended =
      delivery_ends rooms c' a.writes a.streaming
        (subst (λ t. length t < chances rooms) (sym a.response) enough) in
    let stream : c'.wire ++ pending c'.request
        ≡ c.wire ++ response_of env.http env.keeps status fields cs =
      ap (λ t. t ++ pending c'.request) a.wire ∙ ap (λ t. c.wire ++ t) a.response in
    (
      subst₃ (λ k t n. Finishes k t n (run_writes rooms c')) a.kept stream a.closed ended,
      sent_body-ReadsBody (is_chunked env.http env.keeps status fields) cs next short,
    )
