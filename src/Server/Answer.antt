-- ===== src/Server/Answer.antt =====
-- `ev_io_on_read` of bjoern/server.c: what the connection is left to send when the handler has an
-- answer, be it an error message or the application's.
use bjoern.Common.{
  ℕ, zero, suc, ◌≤◌, ◌<◌, ◌≡◌, ◌≢◌, ◌⊎◌, inl, inr, refl, ◌∙◌, Bool, true, false, none, Bytes,
  length, arith, append-nil, some,
}
use bjoern.Server.Fresh.{IsFresh, IsFresh-IsPlain, IsParsedFrom-IsFresh}
use bjoern.Request.Frame.{request_parse-IsParsedFrom}
use bjoern.Response.{First, wsgi_call_application, response_head}
use bjoern.Response.Framing.{
  Sends, Fails, opened_by, Sends-BeginsWithHead, BeginsWithHead, IsResult,
  wsgi_call_application-IsResult,
}
use bjoern.Request.{no_chunk, dangling, Request, Chunk, chunk, server_error}
use bjoern.Request.Parse.{environ_of, HttpParser, Execution, request_parse}
use bjoern.Server.{done, writing, Connection, http_error_message}
use bjoern.Server.Read.{Surroundings, received, after_parse, call_result, ev_io_on_read}
use bjoern.Server.Stream.{pending, pending_of, unsent, encode_rest, encode}
use bjoern.Server.File.{IsSendingFile, HeadRest}
use bjoern.Request.{wrapper}
use bjoern.Server.Between.{HasRest, IsPlain, IsStreaming}

message_pos : (code : ℕ) → 0 < code → code ≤ 4 → 0 < length (http_error_message code)
unfolding http_error_message
message_pos zero h l = elim h [ ]
message_pos (suc zero) h l = omega arith
message_pos (suc (suc zero)) h l = omega arith
message_pos (suc (suc (suc zero))) h l = omega arith
message_pos (suc (suc (suc (suc zero)))) h l = omega arith
message_pos (suc (suc (suc (suc (suc n))))) h l = absurd (omega arith)

-- A message alone is left to send.
message-IsStreaming :
    (r : Request) (s : Bytes)
    → r.current_chunk_p ≡ 0
    → IsPlain r.iterable
    → r.state.expect_continue ≡ false
    → r.state.chunked_response ≡ false
    → r.iterator ≡ none
    → 0 < length s
    → let r' = record r { current_chunk = chunk s } in IsStreaming r' × (pending r' ≡ s)
message-IsStreaming r s start plain quiet off last pos = (
  record { current = rw start pos; plain = plain; no_expect = quiet; live = inl last },
  pending_of (record r { current_chunk = chunk s }) (chunk s) 0 false none refl start off last
      ∙ (unfold unsent encode_rest encode in append-nil s),
)

-- An error of the parser is answered by its message alone.
after_parse_rejected :
    (env : Surroundings) (r : Request)
    → r.state.error_code ≢ 0
    → after_parse env r
      ≡ (record r { current_chunk = chunk (http_error_message r.state.error_code) }, done)
unfolding after_parse
after_parse_rejected env r bad = ground arith

-- The bytes that arrive make a request with an error, on a connection that nothing is sent for, and
-- no `100 Continue` is awaited: the connection waits to write, in a state from which the write
-- handler can go on, and what is left to send is that error's message and nothing else. The
-- descriptor is not closed.
pub rejected_request_answered :
    (env : Surroundings) (n : ℕ) (x : Execution) (c : Connection)
    → IsFresh c.request
    → (request_parse env.base x n c.request).state.error_code ≢ 0
    → (request_parse env.base x n c.request).state.expect_continue ≡ false
    → let c' = ev_io_on_read env (received n x) c in
      let code = (request_parse env.base x n c.request).state.error_code in
      (c'.watcher ≡ writing)
      × IsStreaming c'.request
      × (pending c'.request ≡ http_error_message code)
      × (c'.fd_closed ≡ c.fd_closed)
unfolding ev_io_on_read
rejected_request_answered env n x c fresh bad quiet =
    let r = request_parse env.base x n c.request in
    let h =
      IsParsedFrom-IsFresh c.request r (request_parse-IsParsedFrom env.base x n c.request) fresh in
    let small : r.state.error_code ≤ 4 = (let l = h.two_bit in omega arith) in
    let m =
      message-IsStreaming r (http_error_message r.state.error_code) h.at_start (IsFresh-IsPlain r h)
        quiet h.unchunked h.no_iterator (message_pos _ (omega arith) small) in
    rw (after_parse_rejected env r bad) (refl, m.0, m.1, refl)

-- The response to a request: the application's, behind a head, or the message for its failure.
abbrev pub IsResponse : Request × First → Request → Type 0
IsResponse o r = Sends o r ⊎ (Fails o × (pending r ≡ http_error_message server_error))

pub after_parse_complete :
    (env : Surroundings) (r : Request)
    → r.state.error_code ≡ 0
    → r.state.parse_finished ≡ true
    → after_parse env r ≡ (
      call_result
          (wsgi_call_application env.http env.keeps (env.application (environ_of r.headers)) r),
      done,
    )
unfolding after_parse
after_parse_complete env r ok complete = ground arith

BeginsWithHead-HasRest :
    (c : Chunk) (keep_alive chunked : Bool) (p : ℕ)
    → p ≡ 0
    → BeginsWithHead c keep_alive chunked
    → HasRest c p
unfolding response_head
BeginsWithHead-HasRest (chunk s) keep_alive chunked p e (status, fields, rest, same, l) =
    rw e (rw same (omega arith))
BeginsWithHead-HasRest no_chunk keep_alive chunked p e h = h
BeginsWithHead-HasRest dangling keep_alive chunked p e h = h

call_result-IsStreaming :
    (http : HttpParser) (keeps : Bool) (o : Request × First) (res : Request × Bool)
    → IsResult http keeps o res
    → IsPlain (call_result res).iterable
    → IsStreaming (call_result res) × IsResponse o (call_result res)
call_result-IsStreaming http keeps o (r, true) h plain = (
  record {
    current =
        BeginsWithHead-HasRest r.current_chunk _ _ r.current_chunk_p h.at_start
          (Sends-BeginsWithHead o r h.sends);
    plain = plain;
    no_expect = h.silent;
    live = inr h.live;
  },
  inl h.sends,
)
call_result-IsStreaming http keeps o (r, false) h plain =
    let m =
      message-IsStreaming (record r { iterator = none }) (http_error_message server_error) h.3 plain
        h.2 h.1 refl (message_pos 4 (omega arith) (omega arith)) in
    (m.0, inr (h.0, m.1))

BeginsWithHead-HeadRest :
    (c : Chunk) (keep_alive chunked : Bool) (p : ℕ)
    → p ≡ 0
    → BeginsWithHead c keep_alive chunked
    → HeadRest c p
BeginsWithHead-HeadRest (chunk s) keep_alive chunked p e h =
    BeginsWithHead-HasRest (chunk s) keep_alive chunked p e h
BeginsWithHead-HeadRest no_chunk keep_alive chunked p e h = tt
BeginsWithHead-HeadRest dangling keep_alive chunked p e h = h

call_result-IsSendingFile :
    (http : HttpParser) (keeps : Bool) (o : Request × First) (res : Request × Bool) (fd : ℕ)
    → IsResult http keeps o res
    → (call_result res).iterable ≡ wrapper (some fd)
    → IsSendingFile (call_result res)
call_result-IsSendingFile http keeps o (r, true) fd h e = record {
  descriptor = (fd, e);
  head_rest =
      BeginsWithHead-HeadRest r.current_chunk _ _ r.current_chunk_p h.at_start
        (Sends-BeginsWithHead o r h.sends);
  no_expect = h.silent;
}
call_result-IsSendingFile http keeps o (r, false) fd h e = record {
  descriptor = (fd, e);
  head_rest = rw (h.3) (message_pos 4 (omega arith) (omega arith));
  no_expect = h.2;
}

-- As `complete_request_answered`, where the application leaves a file with a descriptor.
pub complete_request_file :
    (env : Surroundings) (n : ℕ) (x : Execution) (c : Connection) (fd : ℕ)
    → IsFresh c.request
    → (request_parse env.base x n c.request).state.error_code ≡ 0
    → (request_parse env.base x n c.request).state.parse_finished ≡ true
    → (request_parse env.base x n c.request).state.expect_continue ≡ false
    → (ev_io_on_read env (received n x) c).request.iterable ≡ wrapper (some fd)
    → let c' = ev_io_on_read env (received n x) c in
      (c'.watcher ≡ writing) × IsSendingFile c'.request × (c'.fd_closed ≡ c.fd_closed)
unfolding ev_io_on_read
complete_request_file env n x c fd fresh ok complete quiet file =
    let r = request_parse env.base x n c.request in
    let h =
      IsParsedFrom-IsFresh c.request r (request_parse-IsParsedFrom env.base x n c.request) fresh in
    let result =
      wsgi_call_application-IsResult env.http env.keeps (env.application (environ_of r.headers)) r
        h.unchunked h.not_done quiet h.at_start in
    let e = after_parse_complete env r ok complete in
    rw e (refl, call_result-IsSendingFile env.http env.keeps _ _ fd result (rw e at file), refl)

pub complete_request_answered :
    (env : Surroundings) (n : ℕ) (x : Execution) (c : Connection)
    → IsFresh c.request
    → (request_parse env.base x n c.request).state.error_code ≡ 0
    → (request_parse env.base x n c.request).state.parse_finished ≡ true
    → (request_parse env.base x n c.request).state.expect_continue ≡ false
    → IsPlain (ev_io_on_read env (received n x) c).request.iterable
    → let c' = ev_io_on_read env (received n x) c in
      let r = request_parse env.base x n c.request in
      (c'.watcher ≡ writing)
      × IsStreaming c'.request
      × IsResponse (opened_by (env.application (environ_of r.headers)) r) c'.request
      × (c'.fd_closed ≡ c.fd_closed)
unfolding ev_io_on_read
complete_request_answered env n x c fresh ok complete quiet plain =
    let r = request_parse env.base x n c.request in
    let h =
      IsParsedFrom-IsFresh c.request r (request_parse-IsParsedFrom env.base x n c.request) fresh in
    let result =
      wsgi_call_application-IsResult env.http env.keeps (env.application (environ_of r.headers)) r
        h.unchunked h.not_done quiet h.at_start in
    let e = after_parse_complete env r ok complete in
    let m = call_result-IsStreaming env.http env.keeps _ _ result (rw e at plain) in
    rw e (refl, m.0, m.1, refl)
