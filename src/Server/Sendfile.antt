-- ===== src/Server/Sendfile.antt =====
-- `portable_sendfile` of bjoern/portable_sendfile.c, on each system, over the system call.
use bjoern.Common.{
  ==_iff, subst, ℕ, [], ◌+◌, ◌≡◌, ◌∙◌, ◌≢◌, refl, sym, ap, Bool, true, false, Option, none, some,
  Bytes, take, drop, arith, ltb, ◌&&◌, ◌==◌, if◌then◌else◌, Bool-cases, inl, inr,
}
use bjoern.Request.{Request}
use bjoern.Server.{IoResult, sent, would_block, io_failed}
use bjoern.Server.Write.{Out, do_sendfile}

-- Which branch of the file is compiled.
pub data Platform : Type 0 where
  darwin : Platform
  freebsd : Platform
  linux : Platform

-- `errno`: `EAGAIN`, `EINTR` or another error.
pub data Errno : Type 0 where
  eagain : Errno
  eintr : Errno
  other_errno : Errno

abbrev pub is_transient : Errno → Bool
is_transient eagain = true
is_transient eintr = true
is_transient other_errno = false

-- What `sendfile` of the system does: how many bytes it has sent, and the error that it returns -1
-- for, if it does. Where it returns -1 on Linux it tells of no bytes; on the other two systems
-- `len` is the number of bytes.
pub record Sendfile : Type 0 where
  pub moved : ℕ
  pub errno : Option Errno

-- `SENDFILE_CHUNK_SIZE`
abbrev pub sendfile_chunk_size : ℕ
sendfile_chunk_size = 16384

-- The result of `portable_sendfile`: a number of bytes, or -1 with `errno`.
pub data SendfileResult : Type 0 where
  moved_bytes : ℕ → SendfileResult
  minus_one : Errno → SendfileResult

abbrev pub with_len : Sendfile → Option Errno → SendfileResult
with_len s none = moved_bytes s.moved
with_len s (some e) = if is_transient e && ltb 0 s.moved then moved_bytes s.moved else minus_one e

abbrev pub without_len : Sendfile → Option Errno → SendfileResult
without_len s none = moved_bytes s.moved
without_len s (some e) = minus_one e

unfoldable pub portable_sendfile : Platform → Sendfile → SendfileResult
portable_sendfile darwin s = with_len s s.errno
portable_sendfile freebsd s = with_len s s.errno
portable_sendfile linux s = without_len s s.errno

-- What `do_sendfile` makes of it, by `handle_nonzero_errno`.
abbrev pub io_result : SendfileResult → IoResult
io_result (moved_bytes n) = sent n
io_result (minus_one eagain) = would_block
io_result (minus_one eintr) = io_failed
io_result (minus_one other_errno) = io_failed

-- How `sendfile` is documented: on Linux nothing is sent where it returns -1.
abbrev pub IsDocumented : Platform → Sendfile → Type 0
IsDocumented linux s = s.errno ≢ none → s.moved ≡ 0
IsDocumented _ s = Unit

-- A system call behind which there is nothing more to send: it sent nothing and met no error, as at
-- the end of the file, or nothing before a signal came, or it failed.
abbrev pub IsLast : ℕ → Option Errno → Type 0
IsLast moved none = moved ≡ 0
IsLast moved (some eintr) = moved ≡ 0
IsLast moved (some eagain) = ⊥
IsLast moved (some other_errno) = Unit

-- A call of `do_sendfile` that writes `out`: where it asks for another call, the position in the
-- file has moved on by what the system has sent, and that stands there in the file; where it does
-- not, nothing is written, and that is for the system call to say.
abbrev pub MovesOn : Sendfile → Bytes → Request → Out Bool → Type 0
MovesOn s file r (r', out, false) = (out ≡ []) × IsLast s.moved s.errno
MovesOn s file r (r', out, true) =
    (r'.current_chunk_p ≡ r.current_chunk_p + s.moved)
    × (out ≡ take s.moved (drop r.current_chunk_p file))

-- A number of bytes that were sent.
sent-MovesOn :
    (s : Sendfile) (file : Bytes) (r : Request)
    → (s.moved ≡ 0 → IsLast s.moved s.errno)
    → MovesOn s file r (do_sendfile file (sent s.moved) r)
unfolding do_sendfile
sent-MovesOn s file r last = elim (Bool-cases (s.moved == 0)) [
  | inl z ↦ rw z (refl, last ((==_iff s.moved 0).0 z))
  | inr z ↦ rw z (refl, refl)
]

blocked-MovesOn :
    (s : Sendfile) (file : Bytes) (r : Request)
    → s.moved ≡ 0
    → MovesOn s file r (do_sendfile file would_block r)
unfolding do_sendfile
blocked-MovesOn s file r nothing =
    (omega arith, ap (λ k. take k (drop r.current_chunk_p file)) (sym nothing))

failed-MovesOn :
    (s : Sendfile) (file : Bytes) (r : Request)
    → IsLast s.moved s.errno
    → MovesOn s file r (do_sendfile file io_failed r)
unfolding do_sendfile
failed-MovesOn s file r last = (refl, last)

-- The systems that tell of the bytes that they sent before an error.
with_len-MovesOn :
    (s : Sendfile) (e : Option Errno) (file : Bytes) (r : Request)
    → s.errno ≡ e
    → MovesOn s file r (do_sendfile file (io_result (with_len s e)) r)
with_len-MovesOn s none file r here =
    sent-MovesOn s file r (λ z. subst (IsLast s.moved) (sym here) z)
with_len-MovesOn s (some eagain) file r here = elim (Bool-cases (ltb 0 s.moved)) [
  | inl some_sent ↦ rw some_sent (sent-MovesOn s file r (λ z. absurd (ground arith)))
  | inr none_sent ↦ rw none_sent (blocked-MovesOn s file r (ground arith))
]
with_len-MovesOn s (some eintr) file r here = elim (Bool-cases (ltb 0 s.moved)) [
  | inl some_sent ↦ rw some_sent (sent-MovesOn s file r (λ z. absurd (ground arith)))
  | inr none_sent ↦
      rw none_sent (failed-MovesOn s file r (subst (IsLast s.moved) (sym here) (ground arith)))
]
with_len-MovesOn s (some other_errno) file r here =
    failed-MovesOn s file r (subst (IsLast s.moved) (sym here) tt)

without_len-MovesOn :
    (s : Sendfile) (e : Option Errno) (file : Bytes) (r : Request)
    → s.errno ≡ e
    → (s.errno ≢ none → s.moved ≡ 0)
    → MovesOn s file r (do_sendfile file (io_result (without_len s e)) r)
without_len-MovesOn s none file r here nothing =
    sent-MovesOn s file r (λ z. subst (IsLast s.moved) (sym here) z)
without_len-MovesOn s (some eagain) file r here nothing = blocked-MovesOn s file r (
    nothing
      (λ bad. absurd (let e : ◌≡◌ {A = Option Errno} (some eagain) none = sym here ∙ bad in cc)))
without_len-MovesOn s (some eintr) file r here nothing = failed-MovesOn s file r (
    subst (IsLast s.moved) (sym here) (
      nothing
        (λ bad. absurd (let e : ◌≡◌ {A = Option Errno} (some eintr) none = sym here ∙ bad in cc))))
without_len-MovesOn s (some other_errno) file r here nothing =
    failed-MovesOn s file r (subst (IsLast s.moved) (sym here) tt)

-- On every system, where on Linux nothing is sent by a `sendfile` that returns -1: a call of
-- `do_sendfile` asks for another just after the position in the file has moved by the bytes that
-- the system has sent, and these are the file's from that position, also where the call was
-- interrupted or the socket was full; and it asks for none only where the system has sent nothing
-- and met no error, or a signal before anything was sent, or failed - never because the socket was
-- full.
pub do_sendfile_exact :
    (p : Platform) (s : Sendfile) (file : Bytes) (r : Request)
    → IsDocumented p s
    → MovesOn s file r (do_sendfile file (io_result (portable_sendfile p s)) r)
unfolding portable_sendfile
do_sendfile_exact darwin s file r h = with_len-MovesOn s s.errno file r refl
do_sendfile_exact freebsd s file r h = with_len-MovesOn s s.errno file r refl
do_sendfile_exact linux s file r h = without_len-MovesOn s s.errno file r refl h
