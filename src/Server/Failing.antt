-- ===== src/Server/Failing.antt =====
-- Calls of the write handler of bjoern/server.c in which the system call fails, where that does not
-- fault.
use bjoern.Common.{
  true, [], true, [], none, ◌⊎◌, ◌+◌, ap, ◌++◌, ℕ, ◌+◌, ◌≡◌, inl, inr, refl, sym, subst, ap, ◌∙◌,
  false, some, arith, Bool-cases,
}
use bjoern.Server.{
  io_failed, done, not_yet_done, close_connection, not_yet_done, done, Connection, reading, writing,
  stopped,
}
use bjoern.Server.Write.{
  Io, write_switch, write_response, hang_up, send_terminator_chunk, on_write_sendfile, do_sendfile,
  sendfile_phase, emit, write_done, ev_io_on_write,
}
use bjoern.Request.{
  Request, chunk, no_chunk, Request, chunk, Iterable, no_iterable, wrapper, other_iterable,
}
use bjoern.Server.File.{IsSendingFile}
use bjoern.Server.Between.{IsPlain, IsStreaming}
use bjoern.Chunk.{terminator}
use bjoern.Server.Faults.{error_step, hung_up_closes, write_failed_closes}
use bjoern.Server.Progress.{HasRest-chunk}
use bjoern.Server.Delivery.{overridden_lem}
use bjoern.Server.Valid.{
  IsValid, is_reading, is_writing, is_sending_file, is_continuing, is_stopped,
}

-- `write` and `sendfile` fail with an error other than `EAGAIN`.
abbrev pub failed_write : ℕ → Io
failed_write offset = record {
  written = io_failed;
  seek = some offset;
  file_io = io_failed;
  file = [];
}

-- The request is not in the middle of a chunk of a chunked response, nor in the head before a file.
abbrev pub MayFailAt : Iterable → Request → Type 0
MayFailAt (wrapper (some fd)) r = r.current_chunk ≡ no_chunk
MayFailAt _ r = (r.state.chunked_response ≡ false) ⊎ (r.current_chunk_p ≡ 0)

pub record MayFail (r : Request) : Type 0 where
  pub place : MayFailAt r.iterable r
  pub quiet : r.state.expect_continue ≡ false

-- What an error in front of a chunk of a chunked response leaves: the terminating chunk is to be
-- sent.
abbrev cut_short : Request → Request
cut_short r = record r {
  current_chunk = chunk terminator;
  iterator = none;
  state = record (r.state) { keep_alive = false; chunked_response = false };
}

hung_up_at_start :
    (r : Request)
    → r.state.chunked_response ≡ true
    → r.current_chunk_p ≡ 0
    → send_terminator_chunk (hang_up r) ≡ some (cut_short r, not_yet_done)
unfolding send_terminator_chunk hang_up
hung_up_at_start r on p = ground arith

cut_short-IsStreaming :
    (r : Request)
    → r.current_chunk_p ≡ 0
    → IsPlain r.iterable
    → r.state.expect_continue ≡ false
    → IsStreaming (cut_short r)
cut_short-IsStreaming r p plain quiet = record {
  current = rw p (omega arith);
  plain = plain;
  no_expect = quiet;
  live = inl refl;
}

file_failed :
    (offset : ℕ) (r : Request)
    → r.current_chunk ≡ no_chunk
    → on_write_sendfile (failed_write offset) r ≡ some (hang_up r, [], done)
unfolding on_write_sendfile do_sendfile
file_failed offset r e = ap (λ c. sendfile_phase (failed_write offset) c r) e

plain_place :
    (it : Iterable) (r : Request)
    → IsPlain it
    → MayFailAt it r
    → (r.state.chunked_response ≡ false) ⊎ (r.current_chunk_p ≡ 0)
plain_place no_iterable r plain may = may
plain_place (wrapper none) r plain may = may
plain_place (wrapper (some fd)) r plain may = absurd plain
plain_place (other_iterable has_close) r plain may = may

-- The connection is closed where no chunked response is under way.
unchunked_failing :
    (offset : ℕ) (c : Connection)
    → IsStreaming c.request
    → c.fd_closed ≡ 0
    → c.request.state.chunked_response ≡ false
    → (c' : Connection) × (ev_io_on_write (failed_write offset) c ≡ some c') × IsValid c'
unchunked_failing offset c streaming fd off =
    let r = c.request in
    let (s, e, h) = HasRest-chunk r.current_chunk r.current_chunk_p streaming.current in
    let (c', step, w, closed, wire) =
      write_failed_closes (failed_write offset) c s e h refl streaming.plain off
        streaming.no_expect in
    (c', step, is_stopped w (closed ∙ ap (λ (k : ℕ). k + 1) fd))

chunked_failing :
    (offset : ℕ) (c : Connection)
    → c.watcher ≡ writing
    → IsStreaming c.request
    → c.fd_closed ≡ 0
    → c.request.state.chunked_response ≡ true
    → c.request.current_chunk_p ≡ 0
    → (c' : Connection) × (ev_io_on_write (failed_write offset) c ≡ some c') × IsValid c'
unfolding ev_io_on_write
chunked_failing offset c w streaming fd on p =
    let r = c.request in
    let (s, e, h) = HasRest-chunk r.current_chunk r.current_chunk_p streaming.current in
    (
      record c { request = cut_short r; wire = c.wire ++ [] },
      error_step (failed_write offset) c s e h refl streaming.plain
          ∙ ap (λ t. write_done c (emit [] t)) (hung_up_at_start r on p)
          ∙ ap
              (λ st.
                some (write_switch st (record c { request = cut_short r; wire = c.wire ++ [] })))
              (overridden_lem (cut_short r) not_yet_done streaming.no_expect),
      is_writing w (cut_short-IsStreaming r p streaming.plain streaming.no_expect) fd,
    )

file_failing :
    (offset : ℕ) (c : Connection)
    → IsSendingFile c.request
    → c.fd_closed ≡ 0
    → MayFail c.request
    → (c' : Connection) × (ev_io_on_write (failed_write offset) c ≡ some c') × IsValid c'
unfolding ev_io_on_write close_connection
file_failing offset c sending fd may =
    let r = c.request in
    let io = failed_write offset in
    let (d, e) = sending.descriptor in
    let here : r.current_chunk ≡ no_chunk = subst (λ it. MayFailAt it r) e may.place in
    (
      close_connection (record c { request = hang_up r; wire = c.wire ++ [] }),
      ap (write_done c) (ap (λ it. write_response io it r) e ∙ file_failed offset r here)
          ∙ hung_up_closes c r may.quiet,
      is_stopped refl (ap (λ (k : ℕ). k + 1) fd),
    )

pub write_failing :
    (offset : ℕ) (c : Connection)
    → c.watcher ≡ writing
    → MayFail c.request
    → IsValid c
    → (c' : Connection) × (ev_io_on_write (failed_write offset) c ≡ some c') × IsValid c'
write_failing offset c w may (is_reading w' fresh fd) =
    absurd (let e : reading ≡ writing = sym w' ∙ w in cc)
write_failing offset c w may (is_stopped w' fd) =
    absurd (let e : stopped ≡ writing = sym w' ∙ w in cc)
write_failing offset c w may (is_continuing w' h fd) =
    absurd (let e : true ≡ false = sym h.waits ∙ may.quiet in cc)
write_failing offset c w may (is_writing w' streaming fd) =
    elim (Bool-cases c.request.state.chunked_response) [
      | inr off ↦ unchunked_failing offset c streaming fd off
      | inl on ↦ elim (plain_place c.request.iterable c.request streaming.plain may.place) [
        | inl off ↦ absurd (let bad : true ≡ false = sym on ∙ off in cc)
        | inr p ↦ chunked_failing offset c w streaming fd on p
      ]
    ]
write_failing offset c w may (is_sending_file w' sending fd) = file_failing offset c sending fd may
