-- ===== src/Server/LastResponse.antt =====
-- The last response of a connection of bjoern/server.c: behind it no request is read.
use bjoern.Common.{
  subst, ℕ, ◌+◌, ◌≡◌, ◌⊎◌, refl, sym, ◌∙◌, ap, false, Option, none, some, List, [], ◌∷◌, ◌++◌,
  Bytes, if◌then◌else◌, inl, inr, Option-cases,
}
use bjoern.Request.{
  Request, Chunk, no_chunk, chunk, dangling, Iterable, no_iterable, wrapper, other_iterable,
  request_reset, request_clean,
}
use bjoern.Server.{
  RwState, not_yet_done, done, aborted, expect_continue, stopped, writing, Connection,
  start_reading, IoResult, io_failed, close_connection,
}
use bjoern.Server.Write.{
  Out, Io, do_send_chunk, send_chunk, has_rest, hang_up, on_write_chunk, do_sendfile, file_sent,
  on_write_sendfile, sendfile_phase, write_response, overridden, write_done, write_switch,
  ev_io_on_write,
}
use bjoern.Server.Parting.{
  IsParting, Parts, either-Parts, IsSettled, Settles, chunk_sent-Settles, head_sent-Settles,
  write_response-Settles,
}

-- Calls of the write handler, as long as the connection waits for them.
unfoldable pub run_ios : List Io → Connection → Option Connection
unfolding ev_io_on_write
run_ios [] c = some c
run_ios (io ∷ ios) c = elim (c.watcher) [
  | writing ↦ elim (ev_io_on_write io c) [ none ↦ none | some c' ↦ run_ios ios c' ]
  | _ ↦ some c
]

run_ios-writing :
    (io : Io) (ios : List Io) (c d : Connection)
    → c.watcher ≡ writing
    → ev_io_on_write io c ≡ some d
    → run_ios (io ∷ ios) c ≡ run_ios ios d
unfolding run_ios
run_ios-writing io ios c d w e = rw (w, e, run_ios) refl

run_ios_fault :
    (io : Io) (ios : List Io) (c : Connection)
    → c.watcher ≡ writing
    → ev_io_on_write io c ≡ none
    → run_ios (io ∷ ios) c ≡ none
unfolding run_ios
run_ios_fault io ios c w e = rw (w, e, run_ios) refl

run_ios_stopped : (ios : List Io) (c : Connection) → c.watcher ≡ stopped → run_ios ios c ≡ some c
unfolding run_ios
run_ios_stopped [] c w = refl
run_ios_stopped (io ∷ ios) c w =
    ap
      (λ v. elim v as (λ _. Option Connection) [
        | writing ↦ elim (ev_io_on_write io c) [ none ↦ none | some c' ↦ run_ios ios c' ]
        | _ ↦ some c
      ])
      w

-- The connection still writes its last response, or is closed, its descriptor once more than
-- before.
abbrev pub IsLeaving : ℕ → Connection → Type 0
IsLeaving closed c =
    ((c.watcher ≡ writing) × (c.fd_closed ≡ closed))
    ⊎ ((c.watcher ≡ stopped) × (c.fd_closed ≡ closed + 1))

-- The same, with what the next call wants.
abbrev Leaves : ℕ → Connection → Type 0
Leaves closed c =
    ((c.watcher ≡ writing) × (c.fd_closed ≡ closed) × IsParting c.request)
    ⊎ ((c.watcher ≡ stopped) × (c.fd_closed ≡ closed + 1))

switch-Leaves :
    (state : RwState) (c : Connection)
    → c.watcher ≡ writing
    → IsParting c.request
    → IsSettled state
    → Leaves c.fd_closed (write_switch state c)
unfolding close_connection
switch-Leaves not_yet_done c w h settled = inl (w, refl, h)
switch-Leaves done c w h settled =
    subst
      (λ b. Leaves c.fd_closed (
        if b
        then start_reading (record c {
          request = request_reset c.request;
          iterables_closed = c.iterables_closed + request_clean c.request;
        })
        else close_connection c))
      (sym h.0) (inr (refl, refl))
switch-Leaves expect_continue c w h settled = absurd settled
switch-Leaves aborted c w h settled = inr (refl, refl)

not_overridden :
    (r : Request) (state : RwState) → r.state.expect_continue ≡ false → overridden r state ≡ state
not_overridden r state quiet = ap (λ b. if b then expect_continue else state) quiet

write_done-Leaves :
    (c c' : Connection) (res : Option (Out RwState))
    → c.watcher ≡ writing
    → Settles res
    → write_done c res ≡ some c'
    → Leaves c.fd_closed c'
write_done-Leaves c c' none w h e =
    absurd (let bad : ◌≡◌ {A = Option Connection} none (some c') = e in cc)
write_done-Leaves c c' (some (r, out, state)) w h e =
    let d = record c { request = r; wire = c.wire ++ out } in
    let q : some (write_switch (overridden r state) d) ≡ some c' = e in
    let same : write_switch (overridden r state) d ≡ c' = cc in
    let settled = switch-Leaves state d w h.0 h.1 in
    subst (Leaves c.fd_closed) same (
      subst (λ st. Leaves c.fd_closed (write_switch st d)) (sym (not_overridden r state h.0.1))
        settled)

ev_io_on_write-Leaves :
    (io : Io) (c c' : Connection)
    → c.watcher ≡ writing
    → IsParting c.request
    → ev_io_on_write io c ≡ some c'
    → Leaves c.fd_closed c'
unfolding ev_io_on_write
ev_io_on_write-Leaves io c c' w h e =
    write_done-Leaves c c' (write_response io c.request.iterable c.request) w
      (write_response-Settles io c.request.iterable c.request h) e

run_ios-Leaves :
    (ios : List Io) (closed : ℕ) (c c' : Connection)
    → Leaves closed c
    → run_ios ios c ≡ some c'
    → IsLeaving closed c'
unfolding run_ios
run_ios-Leaves [] closed c c' h e =
    let same : c ≡ c' = (let q : some c ≡ some c' = e in cc) in
    subst (IsLeaving closed) same (elim h [ inl on ↦ inl (on.0, on.1) | inr over ↦ inr over ])
run_ios-Leaves (io ∷ ios) closed c c' h e = elim h [
  | inr over ↦
      let q : some c ≡ some c' = sym (run_ios_stopped (io ∷ ios) c over.0) ∙ e in
      let same : c ≡ c' = cc in subst (IsLeaving closed) same (inr over)
  | inl (w, fd, parting) ↦ elim (Option-cases (ev_io_on_write io c)) [
    | inl fault ↦ absurd (let bad : none ≡ some c' = sym (run_ios_fault io ios c w fault) ∙ e in cc)
    | inr (d, step) ↦
        let leaves = ev_io_on_write-Leaves io c d w parting step in
        run_ios-Leaves ios closed d c' (subst (λ n. Leaves n d) fd leaves)
          (sym (run_ios-writing io ios c d w step) ∙ e)
  ]
]

-- An error of `write` or `sendfile` makes a response the last.
send_failed-Parts :
    (ch : Chunk) (r : Request) → r.state.expect_continue ≡ false → Parts (send_chunk io_failed ch r)
unfolding hang_up
send_failed-Parts (chunk s) r quiet =
    either-Parts (has_rest s r.current_chunk_p) _ none (refl, quiet) tt
send_failed-Parts no_chunk r quiet = tt
send_failed-Parts dangling r quiet = tt

do_send_failed-Parts :
    (io : IoResult) (r : Request)
    → io ≡ io_failed
    → r.state.expect_continue ≡ false
    → Parts (do_send_chunk io r)
unfolding do_send_chunk
do_send_failed-Parts io r failed quiet =
    subst (λ i. Parts (send_chunk i r.current_chunk r)) (sym failed)
      (send_failed-Parts r.current_chunk r quiet)

do_sendfile_failed-Settles :
    (file : Bytes) (io : IoResult) (r : Request)
    → io ≡ io_failed
    → r.state.expect_continue ≡ false
    → Settles (file_sent (do_sendfile file io r))
unfolding do_sendfile hang_up
do_sendfile_failed-Settles file io r failed quiet =
    subst (λ i. Settles (file_sent (do_sendfile file i r))) (sym failed) ((refl, quiet), tt)

write_response_failed-Settles :
    (io : Io) (it : Iterable) (r : Request)
    → io.written ≡ io_failed
    → io.file_io ≡ io_failed
    → r.state.expect_continue ≡ false
    → Settles (write_response io it r)
unfolding on_write_chunk on_write_sendfile
write_response_failed-Settles io (wrapper (some fd)) r failed file_failed quiet = go r.current_chunk
  where
    go : (ch : Chunk) → Settles (sendfile_phase io ch r)
    go no_chunk = do_sendfile_failed-Settles io.file io.file_io r file_failed quiet
    go (chunk s) = head_sent-Settles io.seek _ (do_send_failed-Parts io.written r failed quiet)
    go dangling = head_sent-Settles io.seek _ (do_send_failed-Parts io.written r failed quiet)
write_response_failed-Settles io (wrapper none) r failed file_failed quiet =
    chunk_sent-Settles _ (do_send_failed-Parts io.written r failed quiet)
write_response_failed-Settles io no_iterable r failed file_failed quiet =
    chunk_sent-Settles _ (do_send_failed-Parts io.written r failed quiet)
write_response_failed-Settles io (other_iterable has_close) r failed file_failed quiet =
    chunk_sent-Settles _ (do_send_failed-Parts io.written r failed quiet)

first_failed-Leaves :
    (io : Io) (c c' : Connection)
    → c.watcher ≡ writing
    → io.written ≡ io_failed
    → io.file_io ≡ io_failed
    → c.request.state.expect_continue ≡ false
    → ev_io_on_write io c ≡ some c'
    → Leaves c.fd_closed c'
unfolding ev_io_on_write
first_failed-Leaves io c c' w failed file_failed quiet e =
    write_done-Leaves c c' (write_response io c.request.iterable c.request) w
      (write_response_failed-Settles io c.request.iterable c.request failed file_failed quiet) e

-- A connection that is not kept alive, or whose `write` and `sendfile` fail at once with an error
-- other than `EAGAIN`, waits to write, with no wait for `100 Continue`: whatever the system calls
-- return in the calls of the write handler that follow, unless one of them faults, no further
-- request is read on it; it waits to write with its descriptor not closed, or is stopped with its
-- descriptor closed once.
pub last_response :
    (io : Io) (ios : List Io) (c c' : Connection)
    → c.watcher ≡ writing
    → c.request.state.expect_continue ≡ false
    → (c.request.state.keep_alive ≡ false) ⊎ ((io.written ≡ io_failed) × (io.file_io ≡ io_failed))
    → run_ios (io ∷ ios) c ≡ some c'
    → IsLeaving c.fd_closed c'
last_response io ios c c' w quiet why e = elim (Option-cases (ev_io_on_write io c)) [
  | inl fault ↦ absurd (let bad : none ≡ some c' = sym (run_ios_fault io ios c w fault) ∙ e in cc)
  | inr (d, step) ↦
      let leaves : Leaves c.fd_closed d = (elim why [
        | inl close ↦ ev_io_on_write-Leaves io c d w (close, quiet) step
        | inr (failed, file_failed) ↦ first_failed-Leaves io c d w failed file_failed quiet step
      ]) in
      run_ios-Leaves ios c.fd_closed d c' leaves (sym (run_ios-writing io ios c d w step) ∙ e)
]
