-- ===== src/Server/Delivery.antt =====
-- A whole response of bjoern/server.c: `ev_io_on_write` called by the event loop as long as the
-- connection waits to write, with any room in the socket at each call.
use bjoern.Common.{
  ℕ, ◌+◌, ◌≡◌, ◌⊎◌, inl, inr, refl, sym, ◌∙◌, ap, subst, subst₂, Bool, true, false, Option, none,
  some, List, [], ◌∷◌, ◌++◌, Bytes, arith, append_assoc, Option-cases, Bool-cases,
}
use bjoern.Request.{Request, Iterable, no_iterable, wrapper, other_iterable}
use bjoern.Server.{
  RwState, not_yet_done, done, aborted, expect_continue, stopped, reading, writing, Connection,
  would_block,
}
use bjoern.Server.Write.{
  Out, Io, write_response, write_done, write_switch, overridden, on_write_chunk, ev_io_on_write,
}
use bjoern.Server.Stream.{pending, is_kept}
use bjoern.Server.Fresh.{IsReady, request_reset-IsReady}
use bjoern.Server.Between.{IsPlain, IsStreaming, Sends}
use bjoern.Server.Progress.{offer, on_write_chunk-pending}

-- What a call of the handler meets when the socket has room for `room` bytes. (A response that is
-- sent in chunks makes no other system call.)
unfoldable pub chunk_io : ℕ → Request → Io
unfolding offer
chunk_io room r = record { written = offer room r; seek = none; file_io = would_block; file = [] }

-- The event loop, on a connection that waits to write: a call for each entry of the schedule.
unfoldable pub run_writes : List ℕ → Connection → Option Connection
unfolding chunk_io ev_io_on_write
run_writes [] c = some c
run_writes (room ∷ rooms) c = elim (c.watcher) [
  | writing ↦ elim (ev_io_on_write (chunk_io room c.request) c) [
    | none ↦ none
    | some c' ↦ run_writes rooms c'
  ]
  | _ ↦ some c
]

-- The connection has written the whole of `stream`; it is open for the next request if it is kept,
-- and closed if not.
abbrev pub IsFinished : Bool → Bytes → ℕ → Connection → Type 0
IsFinished kept stream closed c =
    (c.wire ≡ stream)
    × (((kept ≡ true) × (c.watcher ≡ reading) × (c.fd_closed ≡ closed) × IsReady c.request)
        ⊎ ((kept ≡ false) × (c.watcher ≡ stopped) × (c.fd_closed ≡ closed + 1)))

-- The connection is still writing, and what it has written and what is left make up `stream`.
abbrev pub IsUnderWay : Bool → Bytes → ℕ → Connection → Type 0
IsUnderWay kept stream closed c =
    (c.watcher ≡ writing)
    × IsStreaming c.request
    × (c.wire ++ pending c.request ≡ stream)
    × (c.fd_closed ≡ closed)
    × (is_kept c.request ≡ kept)

abbrev pub Delivers : Bool → Bytes → ℕ → Option Connection → Type 0
Delivers kept stream closed none = ⊥
Delivers kept stream closed (some c) =
    IsUnderWay kept stream closed c ⊎ IsFinished kept stream closed c

pub write_response_plain :
    (io : Io) (it : Iterable) (r : Request)
    → IsPlain it
    → write_response io it r ≡ on_write_chunk io.written r
write_response_plain io no_iterable r h = refl
write_response_plain io (wrapper none) r h = refl
write_response_plain io (wrapper (some fd)) r h = absurd h
write_response_plain io (other_iterable has_close) r h = refl

pub overridden_lem :
    (r : Request) (state : RwState) → r.state.expect_continue ≡ false → overridden r state ≡ state
overridden_lem r state e = ground arith

pub switch_done :
    (c : Connection)
    → IsFinished c.request.state.keep_alive c.wire c.fd_closed (write_switch done c)
unfolding ev_io_on_write
switch_done c = elim (Bool-cases c.request.state.keep_alive) [
  | inl e ↦ rw e (refl, inl (refl, refl, refl, request_reset-IsReady c.request))
  | inr e ↦ rw e (refl, inr (refl, refl, refl))
]

switch_aborted : (c : Connection) → IsFinished false c.wire c.fd_closed (write_switch aborted c)
unfolding ev_io_on_write
switch_aborted c = (refl, inr (refl, refl, refl))

-- The switch of the handler, on what a call has done with the stream.
Delivers-write_done :
    (c : Connection) (stream : Bytes) (keep : Bool) (res : Option (Out RwState))
    → c.watcher ≡ writing
    → Sends stream keep res
    → Delivers keep (c.wire ++ stream) c.fd_closed (write_done c res)
Delivers-write_done c stream keep none w h = h
Delivers-write_done c stream keep (some (r, out, not_yet_done)) w h =
    rw (overridden_lem r not_yet_done h.0.no_expect)
      (inl (w, h.0, append_assoc c.wire out (pending r) ∙ ap (λ t. c.wire ++ t) h.1, refl, h.2))
Delivers-write_done c stream keep (some (r, out, done)) w h =
    rw (overridden_lem r done h.2, sym h.0, sym h.1)
      (inr (switch_done (record c { request = r; wire = c.wire ++ out })))
Delivers-write_done c stream keep (some (r, out, aborted)) w h =
    rw (overridden_lem r aborted h.2, sym h.0, h.1)
      (inr (switch_aborted (record c { request = r; wire = c.wire ++ out })))
Delivers-write_done c stream keep (some (r, out, expect_continue)) w h = absurd h

pub Delivers-ev_io_on_write :
    (room : ℕ) (c : Connection)
    → c.watcher ≡ writing
    → IsStreaming c.request
    → Delivers
        (is_kept c.request)
        (c.wire ++ pending c.request)
        c.fd_closed
        (ev_io_on_write (chunk_io room c.request) c)
unfolding ev_io_on_write chunk_io
Delivers-ev_io_on_write room c w streaming =
    rw (write_response_plain (chunk_io room c.request) c.request.iterable c.request streaming.plain)
      (Delivers-write_done c (pending c.request) (is_kept c.request) _ w
        (on_write_chunk-pending room c.request streaming))

pub run_writes_step :
    (room : ℕ) (rooms : List ℕ) (c c' : Connection)
    → c.watcher ≡ writing
    → ev_io_on_write (chunk_io room c.request) c ≡ some c'
    → run_writes (room ∷ rooms) c ≡ run_writes rooms c'
unfolding run_writes
run_writes_step room rooms c c' w e = rw (w, e, run_writes) refl

pub run_writes_finished :
    (rooms : List ℕ) (c : Connection) {kept : Bool} {stream : Bytes} {closed : ℕ}
    → IsFinished kept stream closed c
    → run_writes rooms c ≡ some c
unfolding run_writes
run_writes_finished [] c h = refl
run_writes_finished (room ∷ rooms) c h = ground arith

pub Delivers-under_way :
    (room : ℕ) (c : Connection) (kept : Bool) (stream : Bytes) (closed : ℕ)
    → IsUnderWay kept stream closed c
    → Delivers kept stream closed (ev_io_on_write (chunk_io room c.request) c)
Delivers-under_way room c kept stream closed h =
    subst (λ k. Delivers k stream closed (ev_io_on_write (chunk_io room c.request) c)) h.4
      (subst₂ (λ t u. Delivers (is_kept c.request) t u (ev_io_on_write (chunk_io room c.request) c))
        h.2 h.3 (Delivers-ev_io_on_write room c h.0 h.1))

-- Every schedule of a response that is under way leaves it under way or finished, without a fault.
run_writes-Delivers :
    (rooms : List ℕ) (c : Connection) (kept : Bool) (stream : Bytes) (closed : ℕ)
    → IsUnderWay kept stream closed c
    → Delivers kept stream closed (run_writes rooms c)
run_writes-Delivers [] c kept stream closed h = unfold run_writes in inl h
run_writes-Delivers (room ∷ rooms) c kept stream closed h =
    let step = Delivers-under_way room c kept stream closed h in
    elim (Option-cases (ev_io_on_write (chunk_io room c.request) c)) [
      | inl e ↦ absurd (subst (Delivers kept stream closed) e step)
      | inr (c', e) ↦
          rw (run_writes_step room rooms c c' h.0 e)
            (elim (subst (Delivers kept stream closed) e step) [
              | inl going ↦ run_writes-Delivers rooms c' kept stream closed going
              | inr over ↦ rw (run_writes_finished rooms c' over) (inr over)
            ])
    ]

-- A response that is sent in chunks, on a connection that waits to write: whatever the room in the
-- socket at each call of the write handler, no call faults, and either the connection still waits
-- to write and the bytes written so far followed by those left to send are the bytes written before
-- followed by those left to send then; or all of these are written, and the connection reads again,
-- with a request that nothing has come in for and its descriptor not closed, if it is kept alive
-- and the iterator ends without an error, and else is stopped with its descriptor closed once.
pub delivery_safe :
    (rooms : List ℕ) (c : Connection)
    → c.watcher ≡ writing
    → IsStreaming c.request
    → Delivers (is_kept c.request) (c.wire ++ pending c.request) c.fd_closed (run_writes rooms c)
delivery_safe rooms c w streaming =
    run_writes-Delivers rooms c (is_kept c.request) (c.wire ++ pending c.request) c.fd_closed
      (w, streaming, refl, refl, refl)
