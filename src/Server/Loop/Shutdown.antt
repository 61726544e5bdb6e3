-- ===== src/Server/Loop/Shutdown.antt =====
-- The end of the event loop of bjoern/server.c: what an interrupt stops, and when `ev_run` returns.
use bjoern.Common.{
  ℕ, suc, ◌+◌, ◌≤◌, ◌≡◌, ◌∙◌, refl, sym, ap, subst, true, false, Bool-cases, inl, inr, Option, none,
  some, List, [], ◌∷◌, length, arith, ◌==◌, Option-cases,
}
use bjoern.Server.{reading, writing, stopped, Connection, Watcher}
use bjoern.Server.Loop.{
  Loop, Event, client, readable, writable, interrupt, tick, run_loop, loop_step, on_connection,
  with_connections, put, read_one, write_one, ev_signal_on_sigint,
}
use bjoern.Server.Loop.Calls.{hit_put, hit_fault, miss}

-- Nothing is accepted and no interrupt is raised any more.
abbrev pub IsStopping : Loop → Type 0
IsStopping l = (l.accepting ≡ false) × (l.sigint ≡ false) × (l.timer ≡ false)

put_count :
    (i : ℕ) (d : Connection) (cs : List (ℕ × Connection)) → length (put i d cs) ≤ suc (length cs)
put_count i d cs = go d.watcher
  where
    go : (w : Watcher) → length (elim w [ stopped ↦ cs | _ ↦ (i, d) ∷ cs ]) ≤ suc (length cs)
    go stopped = omega arith
    go reading = omega arith
    go writing = omega arith

on_connection_count :
    (fd : ℕ) (f : Connection → Option Connection) (cs cs' : List (ℕ × Connection))
    → on_connection fd f cs ≡ some cs'
    → length cs' ≤ length cs
unfolding on_connection
on_connection_count fd f [] cs' e =
    let q : some [] ≡ some cs' = e in
    let same : [] ≡ cs' = cc in subst (λ x. length x ≤ 0) same (omega arith)
on_connection_count fd f ((i, c) ∷ cs) cs' e = elim (Bool-cases (i == fd)) [
  | inl hit ↦ elim (Option-cases (f c)) [
    | inl fault ↦
        absurd (let bad : none ≡ some cs' = sym (hit_fault fd i f c cs hit fault) ∙ e in cc)
    | inr (d, step) ↦
        let q : some (put i d cs) ≡ some cs' = sym (hit_put fd i f c d cs hit step) ∙ e in
        let same : put i d cs ≡ cs' = cc in
        subst (λ x. length x ≤ suc (length cs)) same (put_count i d cs)
  ]
  | inr other ↦ elim (Option-cases (on_connection fd f cs)) [
    | inl fault ↦ absurd (let bad : none ≡ some cs' = sym (miss fd i f c cs other fault) ∙ e in cc)
    | inr (rest, step) ↦
        let q : some ((i, c) ∷ rest) ≡ some cs' = sym (miss fd i f c cs other step) ∙ e in
        let same : (i, c) ∷ rest ≡ cs' = cc in
        let fewer = on_connection_count fd f cs rest step in
        subst (λ x. length x ≤ suc (length cs)) same (omega arith)
  ]
]

-- What an event leaves of a loop that is stopping.
abbrev pub Follows : Loop → Loop → Type 0
Follows l l' =
    IsStopping l' × (l'.interrupts ≡ l.interrupts) × (length l'.connections ≤ length l.connections)

called-Follows :
    (fd : ℕ) (f : Connection → Option Connection) (l l' : Loop)
    → IsStopping l
    → with_connections l (on_connection fd f l.connections) ≡ some l'
    → Follows l l'
called-Follows fd f l l' stopping e = elim (Option-cases (on_connection fd f l.connections)) [
  | inl fault ↦ absurd (let bad : none ≡ some l' = sym (ap (with_connections l) fault) ∙ e in cc)
  | inr (cs, step) ↦
      let q : some (record l { connections = cs }) ≡ some l' =
        sym (ap (with_connections l) step) ∙ e in
      let same : record l { connections = cs } ≡ l' = cc in
      subst (Follows l) same (stopping, refl, on_connection_count fd f l.connections cs step)
]

unchanged-Follows : (l l' : Loop) → IsStopping l → some l ≡ some l' → Follows l l'
unchanged-Follows l l' stopping e =
    let same : l ≡ l' = cc in subst (Follows l) same (stopping, refl, omega arith)

loop_step-Follows :
    (e : Event) (l l' : Loop) → IsStopping l → loop_step e l ≡ some l' → Follows l l'
unfolding loop_step
loop_step-Follows (client request nonblocking) l l' stopping e =
    let off = stopping.0 in
    unchanged-Follows l l' stopping (let q : some l ≡ some l' = ground arith in q)
loop_step-Follows (readable fd env result) l l' stopping e =
    called-Follows fd (read_one env result) l l' stopping e
loop_step-Follows (writable fd io) l l' stopping e =
    called-Follows fd (write_one io) l l' stopping e
loop_step-Follows interrupt l l' stopping e =
    let off = stopping.1 in
    unchanged-Follows l l' stopping (let q : some l ≡ some l' = ground arith in q)
loop_step-Follows tick l l' stopping e = unchanged-Follows l l' stopping e

run_loop-Follows :
    (es : List Event) (l l' : Loop) → IsStopping l → run_loop es l ≡ some l' → Follows l l'
unfolding run_loop
run_loop-Follows [] l l' stopping e = unchanged-Follows l l' stopping e
run_loop-Follows (x ∷ es) l l' stopping e = elim (Option-cases (loop_step x l)) [
  | inl fault ↦ absurd (let bad : none ≡ some l' = ground arith in cc)
  | inr (m, step) ↦
      let (stopping', same, fewer) = loop_step-Follows x l m stopping step in
      let rest : run_loop es m ≡ some l' = ground arith in
      let (stopping'', same', fewer') = run_loop-Follows es m l' stopping' rest in
      (stopping'', same' ∙ same, omega arith)
]

pub interrupted :
    (l : Loop) → l.sigint ≡ true → loop_step interrupt l ≡ some (ev_signal_on_sigint l)
unfolding loop_step
interrupted l watched = rw watched refl

-- Once an interrupt has reached a loop that watches for it, whatever events follow and whatever the
-- system calls return, as long as no handler faults: exactly one more interrupt is raised at the
-- end, no client is accepted and neither a second interrupt nor the timer is watched, and there are
-- never more connections than there were.
pub interrupt_once :
    (es : List Event) (l l' : Loop)
    → l.sigint ≡ true
    → run_loop (interrupt ∷ es) l ≡ some l'
    → IsStopping l'
      × (l'.interrupts ≡ l.interrupts + 1)
      × (length l'.connections ≤ length l.connections)
unfolding run_loop
interrupt_once es l l' watched e =
    let step = interrupted l watched in
    let rest : run_loop es (ev_signal_on_sigint l) ≡ some l' = ground arith in
    run_loop-Follows es (ev_signal_on_sigint l) l' (refl, refl, refl) rest
