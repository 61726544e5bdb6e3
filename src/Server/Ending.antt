-- ===== src/Server/Ending.antt =====
-- A whole response of bjoern/server.c that is sent in chunks is finished after enough calls of the
-- write handler.
use bjoern.Common.{
  Bool, ℕ, zero, suc, ◌+◌, ◌≤◌, ◌<◌, ◌≡◌, inl, inr, refl, sym, ◌∙◌, ap, subst, Option, none, some,
  List, [], ◌∷◌, ◌++◌, Bytes, length, arith, length-append, Option-cases,
}
use bjoern.Request.{Request}
use bjoern.Server.{RwState, writing, Connection}
use bjoern.Server.Write.{write_done, on_write_chunk, ev_io_on_write}
use bjoern.Server.Stream.{pending, is_kept}
use bjoern.Server.Between.{IsStreaming}
use bjoern.Server.Progress.{offer, on_write_chunk_writes}
use bjoern.Server.Delivery.{
  chunk_io, run_writes, IsFinished, IsUnderWay, Delivers, write_response_plain, Delivers-under_way,
  run_writes_step, run_writes_finished,
}

-- The rooms of a schedule that are not 0.
unfoldable pub chances : List ℕ → ℕ
chances [] = 0
chances (zero ∷ rooms) = chances rooms
chances (suc k ∷ rooms) = suc (chances rooms)

pub write_done-wire :
    (c : Connection) (r : Request) (out : Bytes) (state : RwState) {c' : Connection}
    → write_done c (some (r, out, state)) ≡ some c'
    → c'.wire ≡ c.wire ++ out
unfolding ev_io_on_write
write_done-wire c r out state h = ground arith

ev_io_on_write-wire :
    (room : ℕ) (c c' : Connection)
    → IsStreaming c.request
    → ev_io_on_write (chunk_io room c.request) c ≡ some c'
    → (out : Bytes) × (r : Request) × (state : RwState) × (on_write_chunk
          (offer room c.request)
          c.request
        ≡ some (r, out, state))
      × (c'.wire ≡ c.wire ++ out)
unfolding ev_io_on_write chunk_io
ev_io_on_write-wire room c c' streaming e =
    let plain =
      write_response_plain (chunk_io room c.request) c.request.iterable c.request streaming.plain in
    let e' = ap (write_done c) (sym plain) ∙ e in
    elim (Option-cases (on_write_chunk (offer room c.request) c.request)) [
      | inl f ↦
          (let bad : ◌≡◌ {A = Option Connection} none (some c') = ap (write_done c) (sym f) ∙ e' in
            cc)
      | inr ((r, out, state), f) ↦
          (out, r, state, f, write_done-wire c r out state (ap (write_done c) (sym f) ∙ e'))
    ]

-- A call makes the wire longer if there is room, and never shorter.
wire_grows :
    (room : ℕ) (c c' : Connection)
    → IsStreaming c.request
    → ev_io_on_write (chunk_io room c.request) c ≡ some c'
    → length c.wire + chances (room ∷ []) ≤ length c'.wire
unfolding chances
wire_grows zero c c' streaming e =
    let (out, r, state, f, w) = ev_io_on_write-wire zero c c' streaming e in
    rw w (omega (arith, length-append c.wire out))
wire_grows (suc k) c c' streaming e =
    let (out, r, state, f, w) = ev_io_on_write-wire (suc k) c c' streaming e in
    rw w (omega (arith, length-append c.wire out, on_write_chunk_writes k c.request streaming f))

-- More chances to write than bytes left finish the response.
abbrev pub Finishes : Bool → Bytes → ℕ → Option Connection → Type 0
Finishes kept stream closed none = ⊥
Finishes kept stream closed (some c) = IsFinished kept stream closed c

pub chances-cons :
    (room : ℕ) (rooms : List ℕ) → chances (room ∷ rooms) ≡ chances (room ∷ []) + chances rooms
unfolding chances
chances-cons zero rooms = omega arith
chances-cons (suc k) rooms = omega arith

run_writes-Finishes :
    (rooms : List ℕ) (c : Connection) (kept : Bool) (stream : Bytes) (closed : ℕ)
    → IsUnderWay kept stream closed c
    → length stream < length c.wire + chances rooms
    → Finishes kept stream closed (run_writes rooms c)
run_writes-Finishes [] c kept stream closed h lt =
    let size = ap (λ (t : Bytes). length t) h.2 in
    absurd (unfold chances in omega (arith, size, length-append c.wire (pending c.request)))
run_writes-Finishes (room ∷ rooms) c kept stream closed h lt =
    let step = Delivers-under_way room c kept stream closed h in
    elim (Option-cases (ev_io_on_write (chunk_io room c.request) c)) [
      | inl e ↦ absurd (subst (Delivers kept stream closed) e step)
      | inr (c', e) ↦
          rw (run_writes_step room rooms c c' h.0 e)
            (elim (subst (Delivers kept stream closed) e step) [
              | inl going ↦
                  run_writes-Finishes rooms c' kept stream closed going
                    (omega (arith, wire_grows room c c' h.1 e, chances-cons room rooms))
              | inr over ↦ rw (run_writes_finished rooms c' over) over
            ])
    ]

-- A response that is sent in chunks, on a connection that waits to write, and a schedule with more
-- calls of the write handler that have room in the socket than there are bytes left to send: at the
-- end all bytes are written, in order, and the connection reads again, with a request that nothing
-- has come in for and its descriptor not closed, if it is kept alive and the iterator ends without
-- an error, and else is stopped with its descriptor closed once.
pub delivery_ends :
    (rooms : List ℕ) (c : Connection)
    → c.watcher ≡ writing
    → IsStreaming c.request
    → length (pending c.request) < chances rooms
    → Finishes (is_kept c.request) (c.wire ++ pending c.request) c.fd_closed (run_writes rooms c)
delivery_ends rooms c w streaming lt =
    run_writes-Finishes rooms c (is_kept c.request) (c.wire ++ pending c.request) c.fd_closed
      (w, streaming, refl, refl, refl) (omega (arith, length-append c.wire (pending c.request)))
