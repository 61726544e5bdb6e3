-- ===== src/Server/Faults.antt =====
-- The error paths of bjoern/server.c, and the paths on which its handlers leave a response unsent
-- or badly framed.
use bjoern.Common.{
  ℕ, ◌+◌, ◌<◌, ◌≡◌, refl, ap, ◌∙◌, true, false, none, some, [], ◌++◌, Bytes, length, arith, take,
  drop, append-nil,
}
use bjoern.Request.{Request, chunk}
use bjoern.Server.{
  not_yet_done, done, stopped, reading, Connection, sent, io_failed, close_connection,
}
use bjoern.Server.Write.{
  Io, on_write_chunk, ev_io_on_write, send_terminator_chunk, hang_up, emit, write_done,
}
use bjoern.Server.Between.{IsPlain}
use bjoern.Server.Delivery.{write_response_plain}

error_ends_chunks :
    (r : Request) (s : Bytes)
    → r.current_chunk ≡ chunk s
    → r.current_chunk_p < length s
    → on_write_chunk io_failed r ≡ emit [] (send_terminator_chunk (hang_up r))
unfolding on_write_chunk hang_up
error_ends_chunks r s e h = ground arith

pub error_step :
    (io : Io) (c : Connection) (s : Bytes)
    → c.request.current_chunk ≡ chunk s
    → c.request.current_chunk_p < length s
    → io.written ≡ io_failed
    → IsPlain c.request.iterable
    → ev_io_on_write io c ≡ write_done c (emit [] (send_terminator_chunk (hang_up c.request)))
unfolding ev_io_on_write
error_step io c s e h failed plain = ap (write_done c) (
    write_response_plain io c.request.iterable c.request plain
    ∙ ap (λ w. on_write_chunk w c.request) failed
    ∙ error_ends_chunks c.request s e h)

hung_up_unchunked :
    (r : Request)
    → r.state.chunked_response ≡ false
    → send_terminator_chunk (hang_up r) ≡ some (hang_up r, done)
unfolding send_terminator_chunk hang_up
hung_up_unchunked r off = ground arith

hung_up_chunked :
    (r : Request)
    → r.state.chunked_response ≡ true
    → 0 < r.current_chunk_p
    → send_terminator_chunk (hang_up r) ≡ none
unfolding send_terminator_chunk hang_up
hung_up_chunked r on pos = ground arith

pub hung_up_closes :
    (c : Connection) (r : Request)
    → r.state.expect_continue ≡ false
    → write_done c (some (hang_up r, [], done))
      ≡ some (close_connection (record c { request = hang_up r; wire = c.wire ++ [] }))
unfolding ev_io_on_write hang_up
hung_up_closes c r quiet = ground arith

part_sent :
    (r : Request) (s : Bytes) (n : ℕ)
    → r.current_chunk ≡ chunk s
    → r.current_chunk_p + n < length s
    → on_write_chunk (sent n) r
      ≡ some (
        record r { current_chunk_p = r.current_chunk_p + n },
        take n (drop r.current_chunk_p s),
        not_yet_done,
      )
unfolding on_write_chunk
part_sent r s n e h = ground arith

expecting_reads :
    (c : Connection) (r : Request) (out : Bytes)
    → r.state.expect_continue ≡ true
    → write_done c (some (r, out, not_yet_done))
      ≡ some (record c {
        request = record r { state = record (r.state) { expect_continue = false } };
        watcher = reading;
        wire = c.wire ++ out;
      })
unfolding ev_io_on_write
expecting_reads c r out e = ground arith

pub write_failed_closes :
    (io : Io) (c : Connection) (s : Bytes)
    → c.request.current_chunk ≡ chunk s
    → c.request.current_chunk_p < length s
    → io.written ≡ io_failed
    → IsPlain c.request.iterable
    → c.request.state.chunked_response ≡ false
    → c.request.state.expect_continue ≡ false
    → (c' : Connection) × (ev_io_on_write io c ≡ some c')
      × (c'.watcher ≡ stopped)
      × (c'.fd_closed ≡ c.fd_closed + 1)
      × (c'.wire ≡ c.wire)
unfolding close_connection
write_failed_closes io c s e h failed plain off quiet = (
  close_connection (record c { request = hang_up c.request; wire = c.wire ++ [] }),
  error_step io c s e h failed plain
      ∙ ap (λ t. write_done c (emit [] t)) (hung_up_unchunked c.request off)
      ∙ hung_up_closes c c.request quiet,
  refl,
  refl,
  append-nil c.wire,
)

-- An error of `write` other than `EAGAIN` in the middle of a chunk of a chunked response that is
-- not a file with a descriptor: the call of the write handler faults.
pub write_failed_chunked :
    (io : Io) (c : Connection) (s : Bytes)
    → c.request.current_chunk ≡ chunk s
    → c.request.current_chunk_p < length s
    → io.written ≡ io_failed
    → IsPlain c.request.iterable
    → c.request.state.chunked_response ≡ true
    → 0 < c.request.current_chunk_p
    → ev_io_on_write io c ≡ none
unfolding ev_io_on_write
write_failed_chunked io c s e h failed plain on pos =
    error_step io c s e h failed plain
    ∙ ap (λ t. write_done c (emit [] t)) (hung_up_chunked c.request on pos)

-- A response that is not a file with a descriptor, with `expect_continue` still set: a call of the
-- write handler whose `write` takes less than the rest of the current chunk goes back to reading.
-- What was taken is on the wire, the position has moved by it, the chunk is as it was, the request
-- is as finished as it was, and the descriptor is not closed.
pub expect_continue_stops_writing :
    (io : Io) (c : Connection) (s : Bytes) (n : ℕ)
    → c.request.current_chunk ≡ chunk s
    → c.request.current_chunk_p + n < length s
    → io.written ≡ sent n
    → IsPlain c.request.iterable
    → c.request.state.expect_continue ≡ true
    → (c' : Connection) × (ev_io_on_write io c ≡ some c')
      × (c'.watcher ≡ reading)
      × (c'.fd_closed ≡ c.fd_closed)
      × (c'.wire ≡ c.wire ++ take n (drop c.request.current_chunk_p s))
      × (c'.request.current_chunk ≡ chunk s)
      × (c'.request.current_chunk_p ≡ c.request.current_chunk_p + n)
      × (c'.request.state.parse_finished ≡ c.request.state.parse_finished)
unfolding ev_io_on_write
expect_continue_stops_writing io c s n e h room plain expecting =
    let r = c.request in
    let r' = record r { current_chunk_p = r.current_chunk_p + n } in
    let out = take n (drop r.current_chunk_p s) in
    (
      record c {
        request = record r {
          current_chunk_p = r.current_chunk_p + n;
          state = record (r.state) { expect_continue = false };
        };
        watcher = reading;
        wire = c.wire ++ out;
      },
      ap (write_done c) (
            write_response_plain io r.iterable r plain
            ∙ ap (λ w. on_write_chunk w r) room
            ∙ part_sent r s n e h)
          ∙ expecting_reads c r' out expecting,
      refl,
      refl,
      refl,
      e,
      refl,
      refl,
    )
