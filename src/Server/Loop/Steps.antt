-- ===== src/Server/Loop/Steps.antt =====
-- What the event loop of bjoern/server.c reaches: calls of the handlers of any of its connections,
-- in any order.
use bjoern.Common.{
  ◌⊎◌, if◌then◌else◌, ℕ, ◌≡◌, ◌≢◌, ◌∙◌, refl, sym, ap, subst, Bool, true, false, Bool-cases, inl,
  inr, Option, none, some, List, Bytes, arith,
}
use bjoern.Server.{reading, writing, stopped, Connection}
use bjoern.Server.Accept.{ev_io_on_request}
use bjoern.Server.Read.{checked_read, read_asserts, Surroundings, ReadResult, ev_io_on_read}
use bjoern.Server.Write.{Io, ev_io_on_write}
use bjoern.Server.File.{file_io}
use bjoern.Server.Fresh.{request_new-IsFresh}
use bjoern.Server.Valid.{IsOrdinary, IsValid, is_reading}
use bjoern.Server.Steps.{read_step, Step-IsValid}
use bjoern.Server.Left.{HasRoom, write_ready}
use bjoern.Server.Failing.{MayFail, failed_write, write_failing}
use bjoern.Server.Loop.{
  Loop, loop_step, interrupt, client, read_one, tick, write_one, readable, writable,
  ev_signal_on_sigint, server_run, with_connections, on_connection,
}
use bjoern.Server.Loop.Calls.{on_connection_fault, AllOf, find, find-AllOf, on_connection-AllOf}

-- A turn of the loop. What is read on a connection is ordinary; a write on it has room or may fail.
pub data Turn : Loop → Loop → Type 0 where
  accept_turn :
      (request : Option (ℕ × Bytes)) (nonblocking : Bool) (l l' : Loop)
      → loop_step (client request nonblocking) l ≡ some l'
      → Turn l l'
  read_turn :
      (fd : ℕ) (env : Surroundings) (result : ReadResult) (c : Connection) (l l' : Loop)
      → find fd l.connections ≡ some c
      → c.watcher ≡ reading
      → IsOrdinary env result c
      → loop_step (readable fd env result) l ≡ some l'
      → Turn l l'
  write_turn :
      (fd room : ℕ) (file : Bytes) (offset : ℕ) (c : Connection) (l l' : Loop)
      → find fd l.connections ≡ some c
      → c.watcher ≡ writing
      → HasRoom room c.request
      → loop_step (writable fd (file_io room file offset c.request)) l ≡ some l'
      → Turn l l'
  failing_turn :
      (fd offset : ℕ) (c : Connection) (l l' : Loop)
      → find fd l.connections ≡ some c
      → c.watcher ≡ writing
      → MayFail c.request
      → loop_step (writable fd (failed_write offset)) l ≡ some l'
      → Turn l l'
  interrupt_turn : (l l' : Loop) → loop_step interrupt l ≡ some l' → Turn l l'
  tick_turn : (l l' : Loop) → loop_step tick l ≡ some l' → Turn l l'

pub data Turns : Loop → Loop → Type 0 where
  no_turn : (l : Loop) → Turns l l
  turn_then : (l m n : Loop) → Turn l m → Turns m n → Turns l n

-- A connection of the loop is one that is not closed.
abbrev pub IsOpen : Connection → Type 0
IsOpen c = IsValid c × (c.watcher ≢ stopped)

abbrev pub IsServing : Loop → Type 0
IsServing l = AllOf IsOpen l.connections

read_one-reading :
    (env : Surroundings) (result : ReadResult) (c : Connection)
    → c.watcher ≡ reading
    → read_one env result c ≡ checked_read env result c
read_one-reading env result c w = rw (w) refl

pub write_one-writing :
    (io : Io) (c : Connection) → c.watcher ≡ writing → write_one io c ≡ ev_io_on_write io c
write_one-writing io c w = rw (w) refl

checked_read-cases :
    (env : Surroundings) (result : ReadResult) (c : Connection)
    → (checked_read env result c ≡ none)
      ⊎ (checked_read env result c ≡ some (ev_io_on_read env result c))
unfolding checked_read
checked_read-cases env result c = elim (Bool-cases (read_asserts env result c)) [
  | inl hold ↦ inr (ap (λ b. if b then some (ev_io_on_read env result c) else none) hold)
  | inr fail ↦ inl (ap (λ b. if b then some (ev_io_on_read env result c) else none) fail)
]

-- A call on one connection, as the loop makes it.
called-IsServing :
    (fd : ℕ) (f : Connection → Option Connection) (c c' : Connection) (l l' : Loop)
    → find fd l.connections ≡ some c
    → f c ≡ some c'
    → IsValid c'
    → IsServing l
    → with_connections l (on_connection fd f l.connections) ≡ some l'
    → IsServing l'
called-IsServing fd f c c' l l' here step valid serving e =
    let (cs, called, all) =
      on_connection-AllOf IsOpen fd f c c' l.connections here step (λ alive. (valid, alive))
        serving in
    let q : some (record l { connections = cs }) ≡ some l' =
      sym (ap (with_connections l) called) ∙ e in
    let same : record l { connections = cs } ≡ l' = cc in subst IsServing same all

accept-IsServing :
    (request : Option (ℕ × Bytes)) (nonblocking : Bool) (cs : List (ℕ × Connection))
    → AllOf IsOpen cs
    → AllOf IsOpen (ev_io_on_request request nonblocking cs)
unfolding ev_io_on_request
accept-IsServing none nonblocking cs all = all
accept-IsServing (some (fd, addr)) false cs all = all
accept-IsServing (some (fd, addr)) true cs all =
    ((is_reading refl (request_new-IsFresh addr) refl, λ bad. absurd cc), all)

client-IsServing :
    (request : Option (ℕ × Bytes)) (nonblocking : Bool) (l l' : Loop)
    → loop_step (client request nonblocking) l ≡ some l'
    → IsServing l
    → IsServing l'
unfolding loop_step
client-IsServing request nonblocking l l' e serving = elim (Bool-cases l.accepting) [
  | inl active ↦
      let q : some (record l { connections = ev_io_on_request request nonblocking l.connections })
          ≡ some l' =
        ground arith in
      let same : record l { connections = ev_io_on_request request nonblocking l.connections }
          ≡ l' =
        cc in
      subst IsServing same (accept-IsServing request nonblocking l.connections serving)
  | inr idle ↦
      let q : some l ≡ some l' = ground arith in
      let same : l ≡ l' = cc in subst IsServing same serving
]

pub interrupt-connections :
    (l l' : Loop) → loop_step interrupt l ≡ some l' → l'.connections ≡ l.connections
unfolding loop_step
interrupt-connections l l' e = elim (Bool-cases l.sigint) [
  | inl active ↦
      let q : some (ev_signal_on_sigint l) ≡ some l' = ground arith in
      let same : ev_signal_on_sigint l ≡ l' = cc in ap (λ (x : Loop). x.connections) (sym same)
  | inr idle ↦
      let q : some l ≡ some l' = ground arith in
      let same : l ≡ l' = cc in ap (λ (x : Loop). x.connections) (sym same)
]

loop_step-readable :
    (fd : ℕ) (env : Surroundings) (result : ReadResult) (l : Loop)
    → loop_step (readable fd env result) l
      ≡ with_connections l (on_connection fd (read_one env result) l.connections)
unfolding loop_step
loop_step-readable fd env result l = refl

loop_step-writable :
    (fd : ℕ) (io : Io) (l : Loop)
    → loop_step (writable fd io) l
      ≡ with_connections l (on_connection fd (write_one io) l.connections)
unfolding loop_step
loop_step-writable fd io l = refl

loop_step-tick : (l : Loop) → loop_step tick l ≡ some l
unfolding loop_step
loop_step-tick l = refl

Turn-IsServing : (l l' : Loop) → Turn l l' → IsServing l → IsServing l'
Turn-IsServing _ _ (accept_turn request nonblocking l l' e) serving =
    client-IsServing request nonblocking l l' e serving
Turn-IsServing _ _ (read_turn fd env result c l l' here w ordinary e) serving =
    let valid = (find-AllOf IsOpen fd c l.connections here serving).0 in
    let valid' = Step-IsValid c _ (read_step env result c w ordinary) valid in
    let same = read_one-reading env result c w in
    let looped = sym (loop_step-readable fd env result l) ∙ e in
    elim (checked_read-cases env result c) [
      | inl fault ↦ absurd (
          let bad : none ≡ some l' =
            ap (with_connections l) (
              sym
                (on_connection_fault fd (read_one env result) c l.connections here (same ∙ fault)))
            ∙ looped in
          cc)
      | inr step ↦
          called-IsServing fd (read_one env result) c _ l l' here (same ∙ step) valid' serving
            looped
    ]
Turn-IsServing _ _ (write_turn fd room file offset c l l' here w has_room e) serving =
    let valid = (find-AllOf IsOpen fd c l.connections here serving).0 in
    let io = file_io room file offset c.request in
    let (c', step, valid', same) = write_ready room file offset c w has_room valid in
    called-IsServing fd (write_one io) c c' l l' here (write_one-writing io c w ∙ step) valid'
      serving (sym (loop_step-writable fd io l) ∙ e)
Turn-IsServing _ _ (failing_turn fd offset c l l' here w may e) serving =
    let valid = (find-AllOf IsOpen fd c l.connections here serving).0 in
    let io = failed_write offset in
    let (c', step, valid') = write_failing offset c w may valid in
    called-IsServing fd (write_one io) c c' l l' here (write_one-writing io c w ∙ step) valid'
      serving (sym (loop_step-writable fd io l) ∙ e)
Turn-IsServing _ _ (interrupt_turn l l' e) serving =
    subst (AllOf IsOpen) (sym (interrupt-connections l l' e)) serving
Turn-IsServing _ _ (tick_turn l l' e) serving =
    subst IsServing
      (let q : some l ≡ some l' = sym (loop_step-tick l) ∙ e in (let r : l ≡ l' = cc in r)) serving

Turns-IsServing : (l l' : Loop) → Turns l l' → IsServing l → IsServing l'
Turns-IsServing _ _ (no_turn l) serving = serving
Turns-IsServing _ _ (turn_then l m n turn turns) serving =
    Turns-IsServing m n turns (Turn-IsServing l m turn serving)

server_run-IsServing : (signals sigint : Bool) → IsServing (server_run signals sigint)
unfolding server_run
server_run-IsServing signals sigint = tt

-- In the event loop, from its start on, after calls for any of its connections in any order -
-- clients accepted or not, reads and writes that the watcher of the connection waits for,
-- interrupts and ticks - every connection that is there is not closed, and reads a request that
-- nothing is sent for, or writes a response that the write handler can send, or writes `100
-- Continue`. This wants of each call what it wants on a connection alone: no assertion of a read
-- fails, no read leaves a complete or a faulty request with a wait for `100 Continue`, that message
-- is written in one piece, and a failure of `write` or `sendfile` comes neither under such a wait
-- nor in the middle of a chunk of a chunked response nor in the head before a file.
pub loop-IsServing :
    (signals sigint : Bool) (l : Loop) → Turns (server_run signals sigint) l → IsServing l
loop-IsServing signals sigint l turns =
    Turns-IsServing (server_run signals sigint) l turns (server_run-IsServing signals sigint)
