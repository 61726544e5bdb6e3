-- ===== src/Server/Continue.antt =====
-- `Expect: 100-continue` in bjoern/server.c: the message that asks for the body, and the way back
-- to reading.
use bjoern.Common.{
  if◌then◌else◌, ℕ, zero, suc, ◌≤◌, ◌≡◌, refl, ◌∙◌, ap, true, false, some, ◌++◌, Bytes, length,
  arith, take, drop,
}
use bjoern.Request.{Request, no_chunk, chunk}
use bjoern.Request.Frame.{request_parse-IsParsedFrom}
use bjoern.Request.Parse.{Execution, request_parse}
use bjoern.Server.{done, expect_continue, Connection, reading, writing, continue_message, sent}
use bjoern.Server.Write.{
  emit, following_chunk, write_switch, write_done, on_write_chunk, ev_io_on_write,
}
use bjoern.Server.Read.{Surroundings, after_parse, received, ev_io_on_read}
use bjoern.Server.Between.{terminator_spared, has_rest_lt}
use bjoern.Server.Progress.{offer, wrote_whole}
use bjoern.Server.Stream.{unsent}
use bjoern.Server.Delivery.{write_response_plain}
use bjoern.Server.File.{file_io}
use bjoern.Server.Fresh.{IsFresh, IsFresh-IsPlain, IsParsedFrom-IsFresh}

-- The message is to be sent, and nothing else.
pub record IsContinuing (r : Request) : Type 0 where
  pub fresh : IsFresh r
  pub message : r.current_chunk ≡ chunk continue_message
  pub waits : r.state.expect_continue ≡ true

abbrev sent_whole : Request → Request
sent_whole r = record r { current_chunk = no_chunk; current_chunk_p = 0 }

-- The request behind the message.
abbrev pub continued : Request → Request
continued r = record r {
  current_chunk = no_chunk;
  current_chunk_p = 0;
  state = record (r.state) { expect_continue = false };
}

pub continued-IsFresh : (r : Request) → IsFresh r → IsFresh (continued r)
continued-IsFresh r h = record {
  no_iterator = h.no_iterator;
  at_start = refl;
  unanswered = h.unanswered;
  unchunked = h.unchunked;
  not_done = h.not_done;
  not_called = h.not_called;
  two_bit = h.two_bit;
}

offer_enough :
    (room : ℕ) (r : Request)
    → r.current_chunk ≡ chunk continue_message
    → r.current_chunk_p ≡ 0
    → length continue_message ≤ room
    → offer room r ≡ sent (length continue_message)
unfolding offer unsent
offer_enough zero r e p h = absurd (omega arith)
offer_enough (suc k) r e p h =
    let size : length (unsent r.current_chunk r.current_chunk_p) ≡ length continue_message =
      ap (λ c. length (unsent c r.current_chunk_p)) e
      ∙ ap (λ q. length (drop q continue_message)) p in
    ap sent (omega arith)

message_sent :
    (room : ℕ) (r : Request)
    → IsContinuing r
    → length continue_message ≤ room
    → on_write_chunk (offer room r) r
      ≡ some (record r { current_chunk = no_chunk; current_chunk_p = 0 }, continue_message, done)
unfolding on_write_chunk
message_sent room r h enough =
    let p = h.fresh.at_start in
    let n = length continue_message in
    rw (offer_enough room r h.message p enough) (
      wrote_whole n r continue_message h.message
        (has_rest_lt r.current_chunk_p continue_message (rw p (omega arith))) (rw p refl)
      ∙ ap
          (λ q. emit (take n (drop q continue_message)) (following_chunk r.iterator (sent_whole r)))
          p
      ∙ ap (λ it. emit continue_message (following_chunk it (sent_whole r))) h.fresh.no_iterator
      ∙ ap (emit continue_message) (terminator_spared (sent_whole r) h.fresh.unchunked))

-- The whole message is written, and the connection reads again.
pub continue_written :
    (room : ℕ) (file : Bytes) (offset : ℕ) (c : Connection)
    → IsContinuing c.request
    → length continue_message ≤ room
    → ev_io_on_write (file_io room file offset c.request) c
      ≡ some (record c {
        request = continued c.request;
        watcher = reading;
        wire = c.wire ++ continue_message;
      })
unfolding ev_io_on_write file_io
continue_written room file offset c h enough =
    let r = c.request in
    ap (write_done c) (
      write_response_plain (file_io room file offset r) r.iterable r (IsFresh-IsPlain r h.fresh)
      ∙ message_sent room r h enough)
    ∙ ap
        (λ b. some (
          write_switch (if b then expect_continue else done)
            (record c { request = sent_whole r; wire = c.wire ++ continue_message })))
        h.waits

after_parse_waiting :
    (env : Surroundings) (r : Request)
    → r.state.error_code ≡ 0
    → r.state.parse_finished ≡ false
    → r.state.expect_continue ≡ true
    → after_parse env r ≡ (r, expect_continue)
unfolding after_parse
after_parse_waiting env r ok incomplete waits = ground arith

asked-IsFresh :
    (r : Request) → IsFresh r → IsFresh (record r { current_chunk = chunk continue_message })
asked-IsFresh r h = record {
  no_iterator = h.no_iterator;
  at_start = h.at_start;
  unanswered = h.unanswered;
  unchunked = h.unchunked;
  not_done = h.not_done;
  not_called = h.not_called;
  two_bit = h.two_bit;
}

-- A read that leaves a wait for the body: the message is to be sent.
pub continue_asked :
    (env : Surroundings) (n : ℕ) (x : Execution) (c : Connection)
    → let r = request_parse env.base x n c.request in
      IsFresh c.request
      → r.state.error_code ≡ 0
      → r.state.parse_finished ≡ false
      → r.state.expect_continue ≡ true
      → let c' = ev_io_on_read env (received n x) c in
        (c'.watcher ≡ writing)
        × IsContinuing c'.request
        × (c'.fd_closed ≡ c.fd_closed)
        × (c'.wire ≡ c.wire)
unfolding ev_io_on_read
continue_asked env n x c fresh ok incomplete waits =
    let r = request_parse env.base x n c.request in
    let h =
      IsParsedFrom-IsFresh c.request r (request_parse-IsParsedFrom env.base x n c.request) fresh in
    rw (after_parse_waiting env r ok incomplete waits)
      (refl, record { fresh = asked-IsFresh r h; message = refl; waits = waits }, refl, refl)

-- The bytes that arrive leave a request without an error that is not complete and waits for `100
-- Continue`, on a connection that nothing is sent for. If the next call of the write handler has
-- room for this message, it is written, whole and once, and the connection reads again with what
-- was parsed so far, no longer waiting, and with its descriptor not closed.
pub expect_answered :
    (env : Surroundings) (n : ℕ) (x : Execution) (c : Connection) (room : ℕ) (file : Bytes)
    (offset : ℕ)
    → let r = request_parse env.base x n c.request in
      IsFresh c.request
      → r.state.error_code ≡ 0
      → r.state.parse_finished ≡ false
      → r.state.expect_continue ≡ true
      → length continue_message ≤ room
      → let d = ev_io_on_read env (received n x) c in
        (e : Connection) × (ev_io_on_write (file_io room file offset d.request) d ≡ some e)
        × (e.watcher ≡ reading)
        × (e.request ≡ continued d.request)
        × (e.wire ≡ c.wire ++ continue_message)
        × (e.fd_closed ≡ c.fd_closed)
        × IsFresh e.request
expect_answered env n x c room file offset fresh ok incomplete waits enough =
    let d = ev_io_on_read env (received n x) c in
    let (w, continuing, fd, wire) = continue_asked env n x c fresh ok incomplete waits in
    (
      record d {
        request = continued d.request;
        watcher = reading;
        wire = d.wire ++ continue_message;
      },
      continue_written room file offset d continuing enough,
      refl,
      refl,
      ap (λ t. t ++ continue_message) wire,
      fd,
      continued-IsFresh d.request continuing.fresh,
    )
