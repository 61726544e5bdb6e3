-- ===== src/Server/Life.antt =====
-- The whole life of a connection of bjoern/server.c: its log is what was written and is left to
-- send.
use bjoern.Common.{
  Bool-cases, ◌==◌, inl, inr, ℕ, suc, ◌≡◌, refl, sym, ◌∙◌, ap, subst, some, List, [], ◌++◌, Bytes,
  length, arith, append-nil,
}
use bjoern.Request.{request_new, Request}
use bjoern.Request.Parse.{Execution, request_parse}
use bjoern.Server.{
  RwState, not_yet_done, done, aborted, expect_continue, stopped, reading, writing, Connection,
  close_connection,
}
use bjoern.Server.Write.{ev_io_on_write}
use bjoern.Server.Read.{
  Surroundings, ReadResult, received, disconnected, read_would_block, read_failed, after_parse,
  read_switch, ev_io_on_read,
}
use bjoern.Server.Accept.{accepted}
use bjoern.Server.File.{file_io}
use bjoern.Server.Fresh.{IsFresh, request_new-IsFresh}
use bjoern.Server.Valid.{
  IsOrdinary, IsValid, is_reading, is_writing, is_sending_file, is_continuing, is_stopped,
  read_step-IsValid,
}
use bjoern.Server.Left.{left_reading, HasRoom, left_to_send, write_ready, ev_io_on_read-wire}
use bjoern.Server.Closing.{
  request_clean_lem, closes_due, clean_unanswered, open_while, open_iterables,
  ev_io_on_write_closing,
}
use bjoern.Server.Log.{
  Reply, all_bytes, all_closes, Files, logged_while, Serves, opened, reads, writes, IsServed,
}

-- A connection that nothing is sent for has no iterable.
fresh-open : (c : Connection) → c.watcher ≡ reading → IsFresh c.request → open_iterables c ≡ 0
unfolding open_iterables
fresh-open c w h = ap (λ v. open_while v c.request) w ∙ clean_unanswered c.request h.unanswered

writing-open :
    (c : Connection) → c.watcher ≡ writing → open_iterables c ≡ closes_due c.request.iterable
unfolding open_iterables
writing-open c w = ap (λ v. open_while v c.request) w

opened-IsServed : (files : Files) (addr : Bytes) → IsServed files [] (accepted addr)
unfolding left_to_send open_iterables
opened-IsServed files addr = record {
  valid = is_reading refl (request_new-IsFresh addr) refl;
  in_order = refl;
  closed =
      let e = clean_unanswered (request_new addr) (request_new-IsFresh addr).unanswered in
      omega arith;
}

-- A read of bytes does not end the connection.
abbrev GoesOn : RwState → Type 0
GoesOn aborted = ⊥
GoesOn _ = Unit

after_parse-GoesOn : (env : Surroundings) (r : Request) → GoesOn (after_parse env r).1
unfolding after_parse
after_parse-GoesOn env r = elim (Bool-cases (r.state.error_code == 0)) [
  | inr bad ↦ rw bad tt
  | inl ok ↦ elim (Bool-cases r.state.parse_finished) [
    | inl complete ↦ rw (ok, complete) tt
    | inr incomplete ↦ elim (Bool-cases r.state.expect_continue) [
      | inl waits ↦ rw (ok, incomplete, waits) tt
      | inr quiet ↦ rw (ok, incomplete, quiet) tt
    ]
  ]
]

switch-GoesOn :
    (state : RwState) (c : Connection)
    → GoesOn state
    → ((read_switch state c).iterables_closed ≡ c.iterables_closed)
      × ((read_switch state c).fd_closed ≡ c.fd_closed)
switch-GoesOn not_yet_done c h = (refl, refl)
switch-GoesOn done c h = (refl, refl)
switch-GoesOn expect_continue c h = (refl, refl)
switch-GoesOn aborted c h = absurd h

received_same :
    (env : Surroundings) (n : ℕ) (x : Execution) (c : Connection)
    → let c' = ev_io_on_read env (received n x) c in
      (c'.iterables_closed ≡ c.iterables_closed) × (c'.fd_closed ≡ c.fd_closed)
unfolding ev_io_on_read
received_same env n x c =
    let r = request_parse env.base x n c.request in
    switch-GoesOn (after_parse env r).1 (record c { request = (after_parse env r).0 })
      (after_parse-GoesOn env r)

writing-IsServed :
    (files : Files) (log : List Reply) (d : Connection)
    → IsValid d
    → d.watcher ≡ writing
    → d.wire ≡ all_bytes log
    → d.iterables_closed ≡ all_closes log
    → IsServed files (logged_while writing files log d) d
writing-IsServed files log d valid w wire calls = record {
  valid = valid;
  in_order =
      ap (λ t. t ++ left_to_send (files (suc (length log))).0 (files (suc (length log))).1 d) wire;
  closed = (let e = writing-open d w in omega arith);
}

-- The log of a connection that a read leaves.
logged-IsServed :
    (files : Files) (log : List Reply) (d : Connection)
    → IsValid d
    → d.wire ≡ all_bytes log
    → d.iterables_closed ≡ all_closes log
    → d.fd_closed ≡ 0
    → IsServed files (logged_while d.watcher files log d) d
logged-IsServed files log d (is_stopped w fd) wire calls open_fd =
    absurd (let e : ◌≡◌ {A = ℕ} 1 0 = sym fd ∙ open_fd in omega arith)
logged-IsServed files log d (is_reading w fresh fd) wire calls open_fd =
    subst (λ v. IsServed files (logged_while v files log d) d) (sym w)
      (record {
        valid = is_reading w fresh fd;
        in_order =
            ap (λ t. d.wire ++ t) (left_reading (files (length log)).0 (files (length log)).1 d w)
            ∙ append-nil d.wire
            ∙ wire;
        closed = (let e = fresh-open d w fresh in omega arith);
      })
logged-IsServed files log d (is_writing w streaming fd) wire calls open_fd =
    subst (λ v. IsServed files (logged_while v files log d) d) (sym w)
      (writing-IsServed files log d (is_writing w streaming fd) w wire calls)
logged-IsServed files log d (is_sending_file w sending fd) wire calls open_fd =
    subst (λ v. IsServed files (logged_while v files log d) d) (sym w)
      (writing-IsServed files log d (is_sending_file w sending fd) w wire calls)
logged-IsServed files log d (is_continuing w continuing fd) wire calls open_fd =
    subst (λ v. IsServed files (logged_while v files log d) d) (sym w)
      (writing-IsServed files log d (is_continuing w continuing fd) w wire calls)

received-IsServed :
    (files : Files) (log : List Reply) (env : Surroundings) (n : ℕ) (x : Execution) (c : Connection)
    → c.watcher ≡ reading
    → IsFresh c.request
    → c.fd_closed ≡ 0
    → IsOrdinary env (received n x) c
    → c.wire ≡ all_bytes log
    → c.iterables_closed ≡ all_closes log
    → let d = ev_io_on_read env (received n x) c in
      IsServed files (logged_while d.watcher files log d) d
received-IsServed files log env n x c w fresh fd ordinary wire calls =
    let same = received_same env n x c in
    logged-IsServed files log (ev_io_on_read env (received n x) c)
      (read_step-IsValid env (received n x) c w fresh fd ordinary)
      (ev_io_on_read-wire env (received n x) c ∙ wire) (same.0 ∙ calls) (same.1 ∙ fd)

stopped-IsServed :
    (files : Files) (log : List Reply) (c : Connection)
    → IsFresh c.request
    → c.fd_closed ≡ 0
    → c.wire ≡ all_bytes log
    → c.iterables_closed ≡ all_closes log
    → IsServed files log (close_connection c)
unfolding close_connection left_to_send open_iterables
stopped-IsServed files log c fresh fd wire calls = record {
  valid = is_stopped refl (omega arith);
  in_order = append-nil c.wire ∙ wire;
  closed =
      (let e = clean_unanswered c.request fresh.unanswered in
        omega (arith, request_clean_lem c.request));
}

read-IsServed :
    (files : Files) (log : List Reply) (env : Surroundings) (result : ReadResult) (c : Connection)
    → c.watcher ≡ reading
    → IsFresh c.request
    → c.fd_closed ≡ 0
    → IsOrdinary env result c
    → c.wire ≡ all_bytes log
    → c.iterables_closed ≡ all_closes log
    → let d = ev_io_on_read env result c in IsServed files (logged_while d.watcher files log d) d
unfolding ev_io_on_read
read-IsServed files log env (received n x) c w fresh fd ordinary wire calls =
    received-IsServed files log env n x c w fresh fd ordinary wire calls
read-IsServed files log env disconnected c w fresh fd ordinary wire calls =
    stopped-IsServed files log c fresh fd wire calls
read-IsServed files log env read_failed c w fresh fd ordinary wire calls =
    stopped-IsServed files log c fresh fd wire calls
read-IsServed files log env read_would_block c w fresh fd ordinary wire calls =
    logged-IsServed files log c (is_reading w fresh fd) wire calls fd

-- A connection that reads has nothing left to send and owes no call.
idle :
    (files : Files) (log : List Reply) (c : Connection)
    → c.watcher ≡ reading
    → IsFresh c.request
    → IsServed files log c
    → (c.wire ≡ all_bytes log) × (c.iterables_closed ≡ all_closes log)
idle files log c w fresh h = (
  sym (append-nil c.wire)
      ∙ ap (λ t. c.wire ++ t) (sym (left_reading (files (length log)).0 (files (length log)).1 c w))
      ∙ h.in_order,
  (let e = fresh-open c w fresh in let k = h.closed in omega arith),
)

reads-IsServed :
    (files : Files) (log : List Reply) (env : Surroundings) (result : ReadResult) (c : Connection)
    → c.watcher ≡ reading
    → IsOrdinary env result c
    → IsServed files log c
    → IsValid c
    → let d = ev_io_on_read env result c in IsServed files (logged_while d.watcher files log d) d
reads-IsServed files log env result c w ordinary h (is_reading w' fresh fd) =
    let (wire, calls) = idle files log c w fresh h in
    read-IsServed files log env result c w fresh fd ordinary wire calls
reads-IsServed files log env result c w ordinary h (is_writing w' streaming fd) =
    absurd (let e : writing ≡ reading = sym w' ∙ w in cc)
reads-IsServed files log env result c w ordinary h (is_sending_file w' sending fd) =
    absurd (let e : writing ≡ reading = sym w' ∙ w in cc)
reads-IsServed files log env result c w ordinary h (is_continuing w' continuing fd) =
    absurd (let e : writing ≡ reading = sym w' ∙ w in cc)
reads-IsServed files log env result c w ordinary h (is_stopped w' fd) =
    absurd (let e : stopped ≡ reading = sym w' ∙ w in cc)

writes-IsServed :
    (files : Files) (log : List Reply) (room : ℕ) (c c' : Connection)
    → c.watcher ≡ writing
    → HasRoom room c.request
    → ev_io_on_write (file_io room (files (length log)).0 (files (length log)).1 c.request) c
      ≡ some c'
    → IsServed files log c
    → IsServed files log c'
writes-IsServed files log room c c' w has_room e h =
    let file = (files (length log)).0 in
    let offset = (files (length log)).1 in
    let (d, e', valid, same) = write_ready room file offset c w has_room h.valid in
    let one : d ≡ c' = (let bad : some d ≡ some c' = sym e' ∙ e in cc) in
    record {
      valid = subst IsValid one valid;
      in_order =
          subst (λ x. x.wire ++ left_to_send file offset x ≡ c.wire ++ left_to_send file offset c)
            one same
          ∙ h.in_order;
      closed = ev_io_on_write_closing (file_io room file offset c.request) c c' w e ∙ h.closed;
    }

-- From the time a connection is accepted, after any calls of the two handlers, each made when its
-- watcher waits for it, with any bytes, applications, files and room in the socket, as long as no
-- `write`, `lseek` or `sendfile` fails, no read leaves a complete or a faulty request with a wait
-- for `100 Continue`, and that message is written in one piece: the bytes on the wire, followed by
-- those left to send, are all replies that reads have made, whole and in the order of the requests;
-- and the calls of `close` are one for each of them whose iterable has that method, but for the one
-- that is still being sent.
pub Serves-IsServed :
    (files : Files) (log : List Reply) (c : Connection) → Serves files log c → IsServed files log c
Serves-IsServed files _ _ (opened addr) = opened-IsServed files addr
Serves-IsServed files _ _ (reads env result log c before w ordinary) =
    let h = Serves-IsServed files log c before in
    reads-IsServed files log env result c w ordinary h h.valid
Serves-IsServed files _ _ (writes room log c c' before w has_room e) =
    writes-IsServed files log room c c' w has_room e (Serves-IsServed files log c before)
