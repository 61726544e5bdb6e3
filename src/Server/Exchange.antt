-- ===== src/Server/Exchange.antt =====
-- A whole exchange on a connection of bjoern/server.c: a request in, its response out.
mod Tests
use bjoern.Common.{
  subst₂, ◌&&◌, [], if◌then◌else◌, ==_iff, All, ◌==◌, ◌≢◌, map, ==_iff, codes, ℕ, ◌<◌, ◌≤◌, ◌≡◌,
  refl, sym, ◌∙◌, ap, subst, Bool, true, false, Option, none, some, List, ◌++◌, Bytes, length,
  arith, All, inr, append_assoc, length-append,
}
use bjoern.Python.{Dict, Iter, Retval}
use bjoern.Request.Message.{Message, message_events, whole_header}
use bjoern.Request.Events.{Decodes}
use bjoern.Request.Whole.{message_quiet, message_received}
use bjoern.Request.Parts.{HasLength, IsQuiet}
use bjoern.Request.Environ.{wsgi_base_dict}
use bjoern.Request.Received.{HasMessage}
use bjoern.Request.{
  Request, request_new, request_reset, two_bits, bad_request, Iterable, no_iterable, wrapper,
  other_iterable, chunk,
}
use bjoern.Request.Parse.{
  Event, environ_of, HttpParser, Execution, request_parse, run_callbacks, nparsed,
}
use bjoern.Response.{Fields, First, response_head, with_first, wsgi_call_application}
use bjoern.Response.Body.{keeps_alive, is_chunked, answered, wsgi_call_application-answered}
use bjoern.Response.Carrying.{responder, Carries, filled, Splits, IsNoFile}
use bjoern.Server.{Connection, writing, done}
use bjoern.Server.Read.{Surroundings, received, ev_io_on_read, after_parse, call_result}
use bjoern.Server.Between.{IsStreaming, IsPlain}
use bjoern.Server.Fresh.{
  IsReady, request_new-IsFresh, request_reset-IsFresh, IsFresh, IsParsedFrom-IsFresh,
}
use bjoern.Request.Frame.{request_parse-IsParsedFrom}
use bjoern.Server.Answer.{after_parse_complete}
use bjoern.Server.Stream.{is_kept, encode_rest, unsent, pending, pending_of}
use bjoern.Server.Client.{IsShort}
use bjoern.Server.Delivery.{run_writes}
use bjoern.Server.Ending.{Finishes, chances, delivery_ends}
use bjoern.Server.Arrival.{IsSmooth, Arrives, last_read}
use bjoern.Request.Body.{bytes_of}
use bjoern.Request.Prefix.{message-IsInside}
use bjoern.Request.Asserts.{part-run_asserts}
use bjoern.Request.Quiet.{beginning_quiet}
use bjoern.Server.Reply.{Splits-completes, encode-Splits, sent_body, ReadsBody, sent_body-ReadsBody}
use bjoern.Server.Answering.{response_of, request_answered}

-- What the application finds in its environment for a request from this address.
abbrev pub Presents : Message → List Bytes → Bytes → Dict → Type 0
Presents m outs addr =
    HasMessage outs m.queries (bytes_of m.bodies) (map whole_header m.headers) m.http addr

-- A complete request, for which the application is called.
pub record IsAsked (m : Message) (outs : List Bytes) (c d : Connection) (r : Request) : Type 0 where
  pub same_connection : d ≡ record c { request = d.request }
  pub fresh : IsFresh d.request
  pub ok : r.state.error_code ≡ 0
  pub complete : r.state.parse_finished ≡ true
  pub quiet : r.state.expect_continue ≡ false
  pub presents : Presents m outs c.request.client_addr (environ_of r.headers)

-- The callbacks of a whole request without an `Expect` header.
pub message-IsSmooth :
    (base : Dict) (address : Option (Bytes × Option Bytes)) (m : Message) (outs : List Bytes)
    (r : Request)
    → IsReady r
    → base ≡ wsgi_base_dict address
    → Decodes m.paths outs
    → HasLength m.bodies
    → All IsQuiet m.headers
    → IsSmooth base (message_events m) r
message-IsSmooth base address m outs r ready here decodes known quiet =
    let (asserts, went, complete, whole, environment) =
      message_received m outs address r ready.first ready.no_field decodes known in
    let (code, waits) =
      message_quiet (wsgi_base_dict address) m outs r ready.first decodes known quiet
        ready.no_wait in
    let same : run_callbacks base (message_events m) 0 r
        ≡ run_callbacks (wsgi_base_dict address) (message_events m) 0 r =
      ap (λ b. run_callbacks b (message_events m) 0 r) here in
    record {
      went = ap (λ (p : Request × Option ℕ). p.1) same ∙ went;
      ok = ap (λ (p : Request × Option ℕ). p.0.state.error_code) same ∙ code ∙ ready.no_error;
      quiet = λ es fs r' e runs.
          beginning_quiet base m outs es fs r r' ready.first ready.no_wait decodes quiet e runs;
      asserts = λ es now fs r' e runs. part-run_asserts base m es now fs r r' ready.no_field e runs;
    }

-- A request without an `Expect` header that arrives in any number of reads.
pub request_arrived :
    (env : Surroundings) (address : Option (Bytes × Option Bytes)) (m : Message) (outs : List Bytes)
    (es : List Event) (n : ℕ) (x : Execution) (c d : Connection)
    → IsReady c.request
    → env.base ≡ wsgi_base_dict address
    → Arrives env c es d
    → es ++ x.events ≡ message_events m
    → x.events ≢ []
    → x.parsed ≡ n
    → Decodes m.paths outs
    → HasLength m.bodies
    → All IsQuiet m.headers
    → IsAsked m outs c d (request_parse env.base x n d.request)
request_arrived env address m outs es n x c d ready base before all some_left parsed decodes known
      quiet =
    let r = c.request in
    let (asserts, went, complete, whole, environment) =
      message_received m outs address r ready.first ready.no_field decodes known in
    let (code, waits) =
      message_quiet (wsgi_base_dict address) m outs r ready.first decodes known quiet
        ready.no_wait in
    let same : run_callbacks env.base (message_events m) 0 r
        ≡ run_callbacks (wsgi_base_dict address) (message_events m) 0 r =
      ap (λ b. run_callbacks b (message_events m) 0 r) base in
    let smooth = message-IsSmooth env.base address m outs r ready base decodes known quiet in
    let (arriving, e) =
      last_read env c (message_events m) ready smooth es n x d before
        (message-IsInside m es x.events all some_left) parsed all in
    let e' = e ∙ ap (λ (p : Request × Option ℕ). p.0) same in
    record {
      same_connection = arriving.same_connection;
      fresh = arriving.fresh;
      ok = ap (λ (p : Request). p.state.error_code) e' ∙ code ∙ ready.no_error;
      complete = ap (λ (p : Request). p.state.parse_finished) e' ∙ complete;
      quiet = ap (λ (p : Request). p.state.expect_continue) e' ∙ waits;
      presents =
          subst (λ (p : Request). Presents m outs r.client_addr (environ_of p.headers)) (sym e')
            environment;
    }

-- The bytes of a whole request without an `Expect` header arrive in any number of reads, on a
-- connection that has nothing to send and has read nothing of a request yet, and in any pieces that
-- the parser makes of it: of its path, each of which decodes to a text that is not empty, its
-- query, its headers and its body, which wants a length. The application is one that answers every
-- environment that presents this request - its decoded path, its query, its body, its headers, and
-- what else `message_received` says - by one call of `start_response`, with a status of three bytes
-- or more and a list of pairs of texts, and a bytestring, a list, an iterable, or a `FileWrapper`
-- without a descriptor, whose chunks are shorter than 4 GiB. Then a schedule with more calls of the
-- write handler that have room in the socket than the response has bytes writes the response and
-- nothing else: a head with the status and the fields, and behind it the chunks, with chunked
-- framing just where the connection is to be kept, the length is not known and the client speaks
-- HTTP/1.1; the connection reads again, with nothing of a request read yet, if it is to be kept,
-- and is closed once if not; and a client that undoes the framing gets the chunks put together, and
-- stops at the next response.
pub exchange :
    (env : Surroundings) (address : Option (Bytes × Option Bytes)) (m : Message) (outs : List Bytes)
    (es : List Event) (n : ℕ) (x : Execution) (c d : Connection) (status : Bytes) (fields : Fields)
    (v : Retval) (cs : List Bytes) (rooms : List ℕ) (next : Bytes)
    → IsReady c.request
    → env.base ≡ wsgi_base_dict address
    → Arrives env c es d
    → es ++ x.events ≡ message_events m
    → x.events ≢ []
    → x.parsed ≡ n
    → Decodes m.paths outs
    → HasLength m.bodies
    → All IsQuiet m.headers
    → ((e : Dict)
        → Presents m outs c.request.client_addr e
        → env.application e ≡ responder status fields v)
    → 3 ≤ length status
    → Carries v cs
    → All IsShort cs
    → length (response_of env.http env.keeps status fields cs) < chances rooms
    → Finishes
        (keeps_alive env.http env.keeps status fields)
        (c.wire ++ response_of env.http env.keeps status fields cs)
        c.fd_closed
        (run_writes rooms (ev_io_on_read env (received n x) d))
      × ReadsBody (is_chunked env.http env.keeps status fields) cs next
exchange env address m outs es n x c d status fields v cs rooms next ready base before all some_left
      parsed decodes known quiet app long carries short enough =
    let asked =
      request_arrived env address m outs es n x c d ready base before all some_left parsed decodes
        known quiet in
    let (finishes, reads) =
      request_answered env n x d status fields v cs rooms next asked.fresh asked.ok asked.complete
        asked.quiet (app _ asked.presents) long carries short enough in
    (
      subst
          (λ (b : Connection).
            Finishes (keeps_alive env.http env.keeps status fields)
              (b.wire ++ response_of env.http env.keeps status fields cs) b.fd_closed
              (run_writes rooms (ev_io_on_read env (received n x) d)))
          asked.same_connection finishes,
      reads,
    )
