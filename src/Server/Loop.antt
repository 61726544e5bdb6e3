-- ===== src/Server/Loop.antt =====
-- The event loop of bjoern/server.c over all its connections: `server_run`, the accept watcher and
-- the watchers of SIGINT and of the timer, as libev calls them one after the other.
pub mod Calls
pub mod Completion
pub mod Ending
pub mod Shutdown
pub mod Steps
pub mod Tests
use bjoern.Common.{
  ℕ, zero, suc, ◌+◌, Bool, true, false, ◌||◌, Option, none, some, List, [], ◌∷◌, Bytes, ◌==◌,
  if◌then◌else◌,
}
use bjoern.Server.{Watcher, stopped, reading, writing, Connection}
use bjoern.Server.Accept.{ev_io_on_request, accepted}
use bjoern.Server.Read.{Surroundings, ReadResult, checked_read}
use bjoern.Server.Write.{Io, ev_io_on_write}

-- A thread's loop: which of its own watchers are active, the connections by their descriptors, and
-- how many interrupts are to be raised when it is destroyed.
pub record Loop : Type 0 where
  pub accepting : Bool
  pub sigint : Bool
  pub timer : Bool
  pub connections : List (ℕ × Connection)
  pub interrupts : ℕ

-- `server_run` up to `ev_run`, for a build with signal handling and SIGINT handling or without.
unfoldable pub server_run : Bool → Bool → Loop
server_run want_signal want_sigint = record {
  accepting = true;
  sigint = want_sigint;
  timer = want_signal;
  connections = [];
  interrupts = 0;
}

-- What libev reports: a client to accept, with the results of `accept` and `fcntl`; a connection
-- that can be read or written, with what the system calls return; SIGINT; a tick of the timer.
pub data Event : Type 0 where
  client : Option (ℕ × Bytes) → Bool → Event
  readable : ℕ → Surroundings → ReadResult → Event
  writable : ℕ → Io → Event
  interrupt : Event
  tick : Event

-- A handler's result for one connection: a closed one is freed with its request.
abbrev pub put : ℕ → Connection → List (ℕ × Connection) → List (ℕ × Connection)
put fd c cs = elim (c.watcher) [ stopped ↦ cs | _ ↦ (fd, c) ∷ cs ]

-- The connection of a descriptor takes a call; no other does. A descriptor that is not there, or
-- whose watcher waits for something else, is not reported.
abbrev pub read_one : Surroundings → ReadResult → Connection → Option Connection
read_one env result c = elim (c.watcher) [ reading ↦ checked_read env result c | _ ↦ some c ]

abbrev pub write_one : Io → Connection → Option Connection
write_one io c = elim (c.watcher) [ writing ↦ ev_io_on_write io c | _ ↦ some c ]

abbrev pub taken : ℕ → List (ℕ × Connection) → Option Connection → Option (List (ℕ × Connection))
taken i cs none = none
taken i cs (some c) = some (put i c cs)

abbrev pub kept : ℕ → Connection → Option (List (ℕ × Connection)) → Option (List (ℕ × Connection))
kept i c none = none
kept i c (some cs) = some ((i, c) ∷ cs)

unfoldable pub on_connection :
    ℕ → (Connection → Option Connection) → List (ℕ × Connection) → Option (List (ℕ × Connection))
on_connection fd f [] = some []
on_connection fd f ((i, c) ∷ cs) =
    let rest = on_connection fd f cs in if i == fd then taken i cs (f c) else kept i c rest

abbrev pub with_connections : Loop → Option (List (ℕ × Connection)) → Option Loop
with_connections l none = none
with_connections l (some cs) = some (record l { connections = cs })

-- `ev_signal_on_sigint`, for a build with signal handling or without.
abbrev pub ev_signal_on_sigint : Loop → Loop
ev_signal_on_sigint l = record l {
  accepting = false;
  sigint = false;
  timer = false;
  interrupts = l.interrupts + 1;
}

-- One call; `none` is a fault. A watcher that is not active is not called.
unfoldable pub loop_step : Event → Loop → Option Loop
unfolding on_connection ev_io_on_request checked_read ev_io_on_write
loop_step (client request nonblocking) l =
    if l.accepting
    then some (record l { connections = ev_io_on_request request nonblocking l.connections })
    else some l
loop_step (readable fd env result) l =
    with_connections l (on_connection fd (read_one env result) l.connections)
loop_step (writable fd io) l = with_connections l (on_connection fd (write_one io) l.connections)
loop_step interrupt l = if l.sigint then some (ev_signal_on_sigint l) else some l
loop_step tick l = some l

-- `ev_run` returns when no watcher is active; a connection that is not closed has one.
unfoldable pub has_ended : Loop → Bool
has_ended l = elim (l.accepting || (l.sigint || l.timer)) [
  | true ↦ false
  | false ↦ elim (l.connections) [ [] ↦ true | _ ∷ _ ↦ false ]
]

unfoldable pub run_loop : List Event → Loop → Option Loop
unfolding loop_step
run_loop [] l = some l
run_loop (e ∷ es) l = elim (loop_step e l) [ none ↦ none | some l' ↦ run_loop es l' ]
