-- ===== src/Server/Loop/Ending.antt =====
-- How the event loop of bjoern/server.c comes to its end after an interrupt: events after which a
-- connection is gone.
use bjoern.Common.{
  Bool, ℕ, ◌≡◌, ◌⊎◌, ◌∙◌, refl, ap, subst, true, inl, inr, Option, none, some, List, [], ◌∷◌, ◌++◌,
  Bytes, arith, ◌==◌, Option-cases,
}
use bjoern.Server.{Watcher, reading, writing, stopped, Connection, close_connection}
use bjoern.Server.Read.{Surroundings, disconnected, ev_io_on_read, checked_read, read_asserts}
use bjoern.Server.Write.{Io, ev_io_on_write}
use bjoern.Server.File.{file_io}
use bjoern.Server.Delivery.{chunk_io, run_writes, run_writes_step, IsFinished}
use bjoern.Server.FileDelivery.{run_file, run_file_step}
use bjoern.Server.Ending.{Finishes}
use bjoern.Server.Loop.{
  Loop, Event, readable, writable, run_loop, loop_step, on_connection, with_connections, put,
  write_one,
}
use bjoern.Server.Loop.Calls.{hit_put}
use bjoern.Server.Loop.Steps.{write_one-writing}

disconnect_first :
    (env : Surroundings) (fd : ℕ) (c : Connection) (cs : List (ℕ × Connection)) (l : Loop)
    → l.connections ≡ (fd, c) ∷ cs
    → c.watcher ≡ reading
    → loop_step (readable fd env disconnected) l ≡ some (record l { connections = cs })
unfolding loop_step on_connection checked_read read_asserts ev_io_on_read close_connection
disconnect_first env fd c cs l here w =
    let self : (fd == fd) ≡ true = ground arith in rw (here, self, w) refl

write_first :
    (io : Io) (fd : ℕ) (c c' : Connection) (cs : List (ℕ × Connection)) (l : Loop)
    → l.connections ≡ (fd, c) ∷ cs
    → c.watcher ≡ writing
    → ev_io_on_write io c ≡ some c'
    → loop_step (writable fd io) l ≡ some (record l { connections = put fd c' cs })
unfolding loop_step
write_first io fd c c' cs l here w e =
    let self : (fd == fd) ≡ true = ground arith in
    let called = hit_put fd fd (write_one io) c c' cs self (write_one-writing io c w ∙ e) in
    ap (λ x. with_connections l (on_connection fd (write_one io) x)) here
    ∙ ap (with_connections l) called

pub run_loop-cons :
    (e : Event) (es : List Event) (l m : Loop) {res : Option Loop}
    → loop_step e l ≡ some m
    → run_loop es m ≡ res
    → run_loop (e ∷ es) l ≡ res
unfolding run_loop
run_loop-cons e es l m step rest = ground arith

pub run_loop-append :
    (es fs : List Event) (l m n : Loop)
    → run_loop es l ≡ some m
    → run_loop fs m ≡ some n
    → run_loop (es ++ fs) l ≡ some n
unfolding run_loop
run_loop-append [] fs l m n e rest = let same : l ≡ m = cc in ap (run_loop fs) same ∙ rest
run_loop-append (x ∷ es) fs l m n e rest = elim (Option-cases (loop_step x l)) [
  | inl fault ↦ absurd (let bad : none ≡ some m = ground arith in cc)
  | inr (k, step) ↦
      let on : run_loop es k ≡ some m = ground arith in
      run_loop-cons x (es ++ fs) l k step (run_loop-append es fs k m n on rest)
]

pub Watcher-cases : (w : Watcher) → (w ≡ writing) ⊎ ((w ≡ reading) ⊎ (w ≡ stopped))
Watcher-cases writing = inl refl
Watcher-cases reading = inr (inl refl)
Watcher-cases stopped = inr (inr refl)

-- Wherever this connection comes first in a loop, there are events after which it is gone.
unfoldable pub Ends : ℕ → Connection → Type 0
Ends fd c =
    (l : Loop) (cs : List (ℕ × Connection))
    → l.connections ≡ put fd c cs
    → (es : List Event) × (run_loop es l ≡ some (record l { connections = cs }))

pub stopped-Ends : (fd : ℕ) (c : Connection) → c.watcher ≡ stopped → Ends fd c
unfolding Ends run_loop
stopped-Ends fd c w l cs here =
    let gone : put fd c cs ≡ cs = rw w refl in
    ([], ap (λ x. some (record l { connections = x })) (here ∙ gone))

pub reading-Ends : (env : Surroundings) (fd : ℕ) (c : Connection) → c.watcher ≡ reading → Ends fd c
unfolding Ends run_loop
reading-Ends env fd c w l cs here =
    let first : put fd c cs ≡ (fd, c) ∷ cs = rw w refl in
    let m = record l { connections = cs } in
    (
      readable fd env disconnected ∷ [],
      run_loop-cons (readable fd env disconnected) [] l m
          (disconnect_first env fd c cs l (here ∙ first) w) refl,
    )

pub writing-Ends :
    (io : Io) (fd : ℕ) (c c' : Connection)
    → c.watcher ≡ writing
    → ev_io_on_write io c ≡ some c'
    → Ends fd c'
    → Ends fd c
unfolding Ends
writing-Ends io fd c c' w e ends l cs here =
    let first : put fd c cs ≡ (fd, c) ∷ cs = rw w refl in
    let m = record l { connections = put fd c' cs } in
    let (es, rest) = ends m cs refl in
    (
      writable fd io ∷ es,
      run_loop-cons (writable fd io) es l m (write_first io fd c c' cs l (here ∙ first) w e) rest,
    )

finished-Ends :
    (env : Surroundings) (fd : ℕ) (kept : Bool) (stream : Bytes) (closed : ℕ) (c : Connection)
    → IsFinished kept stream closed c
    → Ends fd c
finished-Ends env fd kept stream closed c (same, over) = elim over [
  | inl again ↦ reading-Ends env fd c again.1
  | inr gone ↦ stopped-Ends fd c gone.1
]

run_writes_fault :
    (room : ℕ) (rooms : List ℕ) (c : Connection)
    → c.watcher ≡ writing
    → ev_io_on_write (chunk_io room c.request) c ≡ none
    → run_writes (room ∷ rooms) c ≡ none
unfolding run_writes
run_writes_fault room rooms c w e = rw (w, e, run_writes) refl

run_file_fault :
    (file : Bytes) (offset room : ℕ) (rooms : List ℕ) (c : Connection)
    → c.watcher ≡ writing
    → ev_io_on_write (file_io room file offset c.request) c ≡ none
    → run_file file offset (room ∷ rooms) c ≡ none
unfolding run_file
run_file_fault file offset room rooms c w e = rw (w, e, run_file) refl

pub run_writes-Ends :
    (env : Surroundings) (fd : ℕ) (kept : Bool) (stream : Bytes) (closed : ℕ) (rooms : List ℕ)
    (c : Connection)
    → Finishes kept stream closed (run_writes rooms c)
    → Ends fd c
unfolding run_writes
run_writes-Ends env fd kept stream closed [] c h = finished-Ends env fd kept stream closed c h
run_writes-Ends env fd kept stream closed (room ∷ rooms) c h = elim (Watcher-cases c.watcher) [
  | inl w ↦ elim (Option-cases (ev_io_on_write (chunk_io room c.request) c)) [
    | inl fault ↦
        absurd (subst (Finishes kept stream closed) (run_writes_fault room rooms c w fault) h)
    | inr (c', e) ↦ writing-Ends (chunk_io room c.request) fd c c' w e (
        run_writes-Ends env fd kept stream closed rooms c'
          (subst (Finishes kept stream closed) (run_writes_step room rooms c c' w e) h))
  ]
  | inr (inl w) ↦ reading-Ends env fd c w
  | inr (inr w) ↦ stopped-Ends fd c w
]

pub run_file-Ends :
    (env : Surroundings) (fd : ℕ) (file : Bytes) (offset : ℕ) (kept : Bool) (stream : Bytes)
    (closed : ℕ) (rooms : List ℕ) (c : Connection)
    → Finishes kept stream closed (run_file file offset rooms c)
    → Ends fd c
unfolding run_file
run_file-Ends env fd file offset kept stream closed [] c h =
    finished-Ends env fd kept stream closed c h
run_file-Ends env fd file offset kept stream closed (room ∷ rooms) c h =
    let io = file_io room file offset c.request in
    elim (Watcher-cases c.watcher) [
      | inl w ↦ elim (Option-cases (ev_io_on_write io c)) [
        | inl fault ↦ absurd (
            subst (Finishes kept stream closed) (run_file_fault file offset room rooms c w fault) h)
        | inr (c', e) ↦ writing-Ends io fd c c' w e (
            run_file-Ends env fd file offset kept stream closed rooms c' (
              subst (Finishes kept stream closed) (run_file_step file offset room rooms c c' w e)
                h))
      ]
      | inr (inl w) ↦ reading-Ends env fd c w
      | inr (inr w) ↦ stopped-Ends fd c w
    ]
