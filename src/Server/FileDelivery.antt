-- ===== src/Server/FileDelivery.antt =====
-- A whole response of bjoern/server.c that is sent as a file: `ev_io_on_write` called by the event
-- loop as long as the connection waits to write.
use bjoern.Common.{
  Bool, ℕ, zero, suc, ◌+◌, ◌≤◌, ◌<◌, ◌≡◌, ◌⊎◌, inl, inr, refl, sym, ◌∙◌, ap, subst, subst₂, Option,
  none, some, List, [], ◌∷◌, ◌++◌, Bytes, length, arith, min, append_assoc, length-append,
  Option-cases,
}
use bjoern.Request.{Request, Chunk, no_chunk, chunk, dangling}
use bjoern.Server.{RwState, not_yet_done, done, aborted, expect_continue, Connection, writing}
use bjoern.Server.Write.{Out, write_response, on_write_sendfile, write_done, ev_io_on_write}
use bjoern.Server.Delivery.{IsFinished, switch_done, overridden_lem}
use bjoern.Server.Ending.{Finishes, chances, chances-cons}
use bjoern.Server.File.{
  left_of_file, HeadRest, IsSendingFile, SendsFile, file_io, file_phase, head_phase,
}

-- The event loop, with a call for each entry of the schedule.
unfoldable pub run_file : Bytes → ℕ → List ℕ → Connection → Option Connection
unfolding file_io ev_io_on_write
run_file file offset [] c = some c
run_file file offset (room ∷ rooms) c = elim (c.watcher) [
  | writing ↦ elim (ev_io_on_write (file_io room file offset c.request) c) [
    | none ↦ none
    | some c' ↦ run_file file offset rooms c'
  ]
  | _ ↦ some c
]

on_write_sendfile-SendsFile :
    (room : ℕ) (file : Bytes) (offset : ℕ) (r : Request)
    → IsSendingFile r
    → SendsFile room file offset r.state.keep_alive
        (left_of_file file offset r.current_chunk r.current_chunk_p)
        (on_write_sendfile (file_io room file offset r) r)
on_write_sendfile-SendsFile room file offset r sending = go r.current_chunk refl sending.head_rest
  where
    go :
        (ch : Chunk)
        → r.current_chunk ≡ ch
        → HeadRest ch r.current_chunk_p
        → SendsFile room file offset r.state.keep_alive
            (left_of_file file offset r.current_chunk r.current_chunk_p)
            (on_write_sendfile (file_io room file offset r) r)
    go (chunk s) e h =
        subst
          (λ c.
            SendsFile room file offset r.state.keep_alive
              (left_of_file file offset c r.current_chunk_p)
              (on_write_sendfile (file_io room file offset r) r))
          (sym e) (head_phase room file offset r s sending e h)
    go no_chunk e h =
        subst
          (λ c.
            SendsFile room file offset r.state.keep_alive
              (left_of_file file offset c r.current_chunk_p)
              (on_write_sendfile (file_io room file offset r) r))
          (sym e) (file_phase room file offset r sending e)
    go dangling e h = absurd h

-- The connection is still writing, with at least `written` bytes on the wire, and these and what is
-- left make up `stream`.
abbrev pub IsSendingOn : Bytes → ℕ → Bool → Bytes → ℕ → ℕ → Connection → Type 0
IsSendingOn file offset kept stream closed written c =
    (c.watcher ≡ writing)
    × IsSendingFile c.request
    × (c.wire ++ left_of_file file offset c.request.current_chunk c.request.current_chunk_p
        ≡ stream)
    × (c.fd_closed ≡ closed)
    × (written ≤ length c.wire)
    × (c.request.state.keep_alive ≡ kept)

abbrev pub SendsOn : Bytes → ℕ → Bool → Bytes → ℕ → ℕ → Option Connection → Type 0
SendsOn file offset kept stream closed written none = ⊥
SendsOn file offset kept stream closed written (some c) =
    IsSendingOn file offset kept stream closed written c ⊎ IsFinished kept stream closed c

SendsOn-write_done :
    (room : ℕ) (file : Bytes) (offset : ℕ) (c : Connection) (kept : Bool) (stream : Bytes)
    (res : Option (Out RwState))
    → c.watcher ≡ writing
    → SendsFile room file offset kept stream res
    → SendsOn file offset kept
        (c.wire ++ stream)
        c.fd_closed
        (length c.wire + min room 1)
        (write_done c res)
SendsOn-write_done room file offset c kept stream none w h = h
SendsOn-write_done room file offset c kept stream (some (r, out, not_yet_done)) w h =
    rw (overridden_lem r not_yet_done h.0.no_expect) (
      inl (
        w,
        h.0,
        append_assoc c.wire out _ ∙ ap (λ t. c.wire ++ t) h.1,
        refl,
        (let l = h.2 in omega (arith, length-append c.wire out)),
        h.3,
      ))
SendsOn-write_done room file offset c kept stream (some (r, out, done)) w h =
    rw (overridden_lem r done h.2, sym h.0, sym h.1)
      (inr (switch_done (record c { request = r; wire = c.wire ++ out })))
SendsOn-write_done room file offset c kept stream (some (r, out, aborted)) w h = absurd h
SendsOn-write_done room file offset c kept stream (some (r, out, expect_continue)) w h = absurd h

pub SendsOn-ev_io_on_write :
    (room : ℕ) (file : Bytes) (offset : ℕ) (c : Connection)
    → c.watcher ≡ writing
    → IsSendingFile c.request
    → SendsOn file offset c.request.state.keep_alive
        (c.wire ++ left_of_file file offset c.request.current_chunk c.request.current_chunk_p)
        c.fd_closed
        (length c.wire + min room 1)
        (ev_io_on_write (file_io room file offset c.request) c)
unfolding ev_io_on_write
SendsOn-ev_io_on_write room file offset c w sending =
    let r = c.request in
    let io = file_io room file offset r in
    let to_file : write_response io r.iterable r ≡ on_write_sendfile io r =
      ap (λ it. write_response io it r) sending.descriptor.1 in
    rw to_file (
      SendsOn-write_done room file offset c r.state.keep_alive _ _ w
        (on_write_sendfile-SendsFile room file offset r sending))

pub run_file_step :
    (file : Bytes) (offset : ℕ) (room : ℕ) (rooms : List ℕ) (c c' : Connection)
    → c.watcher ≡ writing
    → ev_io_on_write (file_io room file offset c.request) c ≡ some c'
    → run_file file offset (room ∷ rooms) c ≡ run_file file offset rooms c'
unfolding run_file
run_file_step file offset room rooms c c' w e = rw (w, e, run_file) refl

run_file_finished :
    (file : Bytes) (offset : ℕ) (rooms : List ℕ) (c : Connection) {kept : Bool} {stream : Bytes}
    {closed : ℕ}
    → IsFinished kept stream closed c
    → run_file file offset rooms c ≡ some c
unfolding run_file
run_file_finished file offset [] c h = refl
run_file_finished file offset (room ∷ rooms) c h = ground arith

chances_one : (room : ℕ) → chances (room ∷ []) ≡ min room 1
unfolding chances
chances_one zero = refl
chances_one (suc k) = omega arith

run_file-Finishes :
    (file : Bytes) (offset : ℕ) (rooms : List ℕ) (c : Connection) (kept : Bool) (stream : Bytes)
    (closed written : ℕ)
    → IsSendingOn file offset kept stream closed written c
    → length stream < written + chances rooms
    → Finishes kept stream closed (run_file file offset rooms c)
run_file-Finishes file offset [] c kept stream closed written h lt =
    let size = ap (λ (t : Bytes). length t) h.2 in
    let grown = h.4 in
    absurd (
      unfold chances in
      omega (
        arith,
        size,
        grown,
        length-append c.wire
            (left_of_file file offset c.request.current_chunk c.request.current_chunk_p),
      ))
run_file-Finishes file offset (room ∷ rooms) c kept stream closed written h lt =
    let on_from = length c.wire + min room 1 in
    let step =
      subst
        (λ k.
          SendsOn file offset k stream closed on_from
            (ev_io_on_write (file_io room file offset c.request) c))
        h.5
        (subst₂
          (λ t u.
            SendsOn file offset c.request.state.keep_alive t u on_from
              (ev_io_on_write (file_io room file offset c.request) c))
          h.2 h.3 (SendsOn-ev_io_on_write room file offset c h.0 h.1)) in
    let grown = h.4 in
    elim (Option-cases (ev_io_on_write (file_io room file offset c.request) c)) [
      | inl e ↦ absurd (subst (SendsOn file offset kept stream closed on_from) e step)
      | inr (c', e) ↦
          rw (run_file_step file offset room rooms c c' h.0 e)
            (elim (subst (SendsOn file offset kept stream closed on_from) e step) [
              | inl going ↦
                  run_file-Finishes file offset rooms c' kept stream closed on_from going
                    (omega (arith, grown, chances-cons room rooms, chances_one room))
              | inr over ↦ rw (run_file_finished file offset rooms c' over) over
            ])
    ]

-- A response that is sent as a file, on a connection that waits to write, where `lseek` finds the
-- file at an offset and no system call fails, and a schedule with more calls of the write handler
-- that have room in the socket than there are bytes left to send: at the end the rest of the head
-- and the file from that offset, or the rest of the file where the head is sent, are written behind
-- what was there; and the connection reads again, with a request that nothing has come in for and
-- its descriptor not closed, if it is kept alive, and else is stopped with its descriptor closed
-- once.
pub file_delivery_ends :
    (file : Bytes) (offset : ℕ) (rooms : List ℕ) (c : Connection)
    → c.watcher ≡ writing
    → IsSendingFile c.request
    → length (left_of_file file offset c.request.current_chunk c.request.current_chunk_p)
      < chances rooms
    → Finishes c.request.state.keep_alive
        (c.wire ++ left_of_file file offset c.request.current_chunk c.request.current_chunk_p)
        c.fd_closed
        (run_file file offset rooms c)
file_delivery_ends file offset rooms c w sending lt =
    let left = left_of_file file offset c.request.current_chunk c.request.current_chunk_p in
    run_file-Finishes file offset rooms c c.request.state.keep_alive (c.wire ++ left) c.fd_closed
      (length c.wire) (w, sending, refl, refl, omega arith, refl)
      (omega (arith, length-append c.wire left))
