-- ===== src/Server/Write.antt =====
-- The writing half of bjoern/server.c: `ev_io_on_write` and what it calls.
use bjoern.Common.{
  ℕ, ◌+◌, Bool, true, false, ◌&&◌, ◌||◌, Option, none, some, [], ◌++◌, Bytes, ltb, ◌==◌,
  if◌then◌else◌, length, take, drop,
}
use bjoern.Request.{
  Request, Chunk, no_chunk, chunk, dangling, Iterable, wrapper, request_clean, request_reset,
}
use bjoern.Python.{Iter}
use bjoern.Response.{Next, next_chunk, ended, failed, get_next_chunk}
use bjoern.Chunk.{wrap_http_chunk_cruft_around, terminator}
use bjoern.Server.{
  RwState, not_yet_done, done, aborted, expect_continue, Connection, IoResult, sent, would_block,
  io_failed, start_reading, close_connection,
}

-- The state after a part of a handler, what it wrote, and its result.
abbrev pub Out : Type 0 → Type 0
Out A = Request × Bytes × A

-- `handle_nonzero_errno` on an error other than `EAGAIN`: the chunk is released, and the pointer to
-- it is left as it is.
unfoldable pub hang_up : Request → Request
hang_up r = record r {
  current_chunk = elim (r.current_chunk) [ no_chunk ↦ no_chunk | _ ↦ dangling ];
  iterator = none;
  state = record (r.state) { keep_alive = false };
}

abbrev pub advance : Bytes → ℕ → Request → Option (Out Bool)
advance s n r =
    let p = r.current_chunk_p + n in
    let out = take n (drop r.current_chunk_p s) in
    if p == length s
    then some (record r { current_chunk = no_chunk; current_chunk_p = 0 }, out, false)
    else some (record r { current_chunk_p = p }, out, true)

abbrev pub write_result : Bytes → Request → IoResult → Option (Out Bool)
write_result s r (sent n) = advance s n r
write_result s r would_block = some (r, [], true)
write_result s r io_failed = some (hang_up r, [], false)

-- The chunk is there, and there is something left of it unless it is empty.
abbrev pub has_rest : Bytes → ℕ → Bool
has_rest s p = ltb p (length s) || (p == 0 && length s == 0)

abbrev pub send_chunk : IoResult → Chunk → Request → Option (Out Bool)
send_chunk io (chunk s) r = if has_rest s r.current_chunk_p then write_result s r io else none
send_chunk io _ r = none

-- True if there is data left to send in the chunk.
unfoldable pub do_send_chunk : IoResult → Request → Option (Out Bool)
unfolding hang_up
do_send_chunk io r = send_chunk io r.current_chunk r

-- `send_terminator_chunk`
unfoldable pub send_terminator_chunk : Request → Option (Request × RwState)
send_terminator_chunk r =
    if r.state.chunked_response
    then if r.current_chunk_p == 0
      then some (
        record r {
          current_chunk = chunk terminator;
          state = record (r.state) { chunked_response = false };
        },
        not_yet_done,
      )
      else none
    else some (r, done)

abbrev pub store_chunk : Bytes → Request → Option (Request × RwState)
store_chunk c r =
    if r.current_chunk_p == 0
    then some (
      record r {
        current_chunk =
            chunk (if r.state.chunked_response then wrap_http_chunk_cruft_around c else c);
      },
      not_yet_done,
    )
    else none

abbrev pub after_next : Request × Next → Option (Request × RwState)
after_next (r, next_chunk c) = store_chunk c r
after_next (r, failed) = some (r, aborted)
after_next (r, ended) = send_terminator_chunk (record r { iterator = none })

-- `on_write_chunk` from where the current chunk is sent.
abbrev pub following_chunk : Option Iter → Request → Option (Request × RwState)
following_chunk (some it) r = after_next (get_next_chunk it r)
following_chunk none r = send_terminator_chunk r

abbrev pub emit : Bytes → Option (Request × RwState) → Option (Out RwState)
emit out none = none
emit out (some (r, state)) = some (r, out, state)

abbrev pub chunk_sent : Option (Out Bool) → Option (Out RwState)
chunk_sent none = none
chunk_sent (some (r, out, true)) = some (r, out, not_yet_done)
chunk_sent (some (r, out, false)) = emit out (following_chunk r.iterator r)

unfoldable pub on_write_chunk : IoResult → Request → Option (Out RwState)
unfolding do_send_chunk send_terminator_chunk get_next_chunk
on_write_chunk io r = chunk_sent (do_send_chunk io r)

-- `do_sendfile`: the file's bytes are those that the kernel reads.
unfoldable pub do_sendfile : Bytes → IoResult → Request → Out Bool
unfolding hang_up
do_sendfile file (sent n) r = if n == 0 then (r, [], false) else (
  record r { current_chunk_p = r.current_chunk_p + n },
  take n (drop r.current_chunk_p file),
  true,
)
do_sendfile file would_block r = (r, [], true)
do_sendfile file io_failed r = (hang_up r, [], false)

-- Behind the head: `lseek`, which fails with `none`. (The code stores -1 then; the request is freed
-- before that is read.)
abbrev pub head_sent : Option ℕ → Option (Out Bool) → Option (Out RwState)
head_sent offset none = none
head_sent offset (some (r, out, true)) = some (r, out, not_yet_done)
head_sent none (some (r, out, false)) = some (r, out, aborted)
head_sent (some offset) (some (r, out, false)) =
    some (record r { current_chunk_p = offset }, out, not_yet_done)

abbrev pub file_sent : Out Bool → Option (Out RwState)
file_sent (r, out, true) = some (r, out, not_yet_done)
file_sent (r, out, false) = some (r, out, done)

-- What a call of the write handler meets: the results of `write`, `lseek` and `sendfile`, and the
-- file.
pub record Io : Type 0 where
  pub written : IoResult
  pub seek : Option ℕ
  pub file_io : IoResult
  pub file : Bytes

abbrev pub sendfile_phase : Io → Chunk → Request → Option (Out RwState)
sendfile_phase io no_chunk r = file_sent (do_sendfile io.file io.file_io r)
sendfile_phase io _ r = head_sent io.seek (do_send_chunk io.written r)

unfoldable pub on_write_sendfile : Io → Request → Option (Out RwState)
unfolding do_send_chunk do_sendfile
on_write_sendfile io r = sendfile_phase io r.current_chunk r

-- The first branch of `ev_io_on_write`.
abbrev pub write_response : Io → Iterable → Request → Option (Out RwState)
write_response io (wrapper (some fd)) r = on_write_sendfile io r
write_response io _ r = on_write_chunk io.written r

-- Its switch, with the request already in the connection.
abbrev pub write_switch : RwState → Connection → Connection
write_switch not_yet_done c = c
write_switch done c =
    if c.request.state.keep_alive
    then start_reading (record c {
      request = request_reset c.request;
      iterables_closed = c.iterables_closed + request_clean c.request;
    })
    else close_connection c
write_switch expect_continue c = start_reading (record c {
  request = record (c.request) { state = record (c.request.state) { expect_continue = false } };
})
write_switch aborted c = close_connection c

abbrev pub overridden : Request → RwState → RwState
overridden r state = if r.state.expect_continue then expect_continue else state

abbrev pub write_done : Connection → Option (Out RwState) → Option Connection
write_done c none = none
write_done c (some (r, out, state)) =
    some (write_switch (overridden r state) (record c { request = r; wire = c.wire ++ out }))

unfoldable pub ev_io_on_write : Io → Connection → Option Connection
unfolding on_write_sendfile on_write_chunk request_reset request_clean close_connection
ev_io_on_write io c = write_done c (write_response io c.request.iterable c.request)
