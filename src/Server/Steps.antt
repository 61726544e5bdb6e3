-- ===== src/Server/Steps.antt =====
-- The event loop of bjoern/server.c on one connection: which calls of the handlers follow each
-- other, and what holds between them.
use bjoern.Common.{Bytes, ◌++◌, ℕ, ◌≡◌, refl, sym, subst, ◌∙◌, some}
use bjoern.Server.{Connection, reading, writing, stopped}
use bjoern.Server.Write.{ev_io_on_write}
use bjoern.Server.Read.{Surroundings, ReadResult, ev_io_on_read}
use bjoern.Server.Accept.{accepted}
use bjoern.Server.File.{file_io}
use bjoern.Server.Fresh.{request_new-IsFresh}
use bjoern.Server.Valid.{
  IsOrdinary, IsValid, is_reading, is_writing, is_sending_file, is_continuing, is_stopped,
  read_step-IsValid,
}
use bjoern.Server.Left.{HasRoom, left_to_send, write_ready}
use bjoern.Server.Failing.{MayFail, failed_write, write_failing}

-- A call of a handler that the watcher waits for.
pub data Step : Connection → Connection → Type 0 where
  read_step :
      (env : Surroundings) (result : ReadResult) (c : Connection)
      → c.watcher ≡ reading
      → IsOrdinary env result c
      → Step c (ev_io_on_read env result c)
  write_step :
      (room : ℕ) (file : Bytes) (offset : ℕ) (c c' : Connection)
      → c.watcher ≡ writing
      → HasRoom room c.request
      → ev_io_on_write (file_io room file offset c.request) c ≡ some c'
      → Step c c'
  failing_step :
      (offset : ℕ) (c c' : Connection)
      → c.watcher ≡ writing
      → MayFail c.request
      → ev_io_on_write (failed_write offset) c ≡ some c'
      → Step c c'

pub data Steps : Connection → Connection → Type 0 where
  no_step : (c : Connection) → Steps c c
  step_then : (c d e : Connection) → Step c d → Steps d e → Steps c e

pub Step-IsValid : (c d : Connection) → Step c d → IsValid c → IsValid d
Step-IsValid _ _ (read_step env result c w ordinary) (is_reading w' fresh fd) =
    read_step-IsValid env result c w fresh fd ordinary
Step-IsValid _ _ (read_step env result c w ordinary) (is_writing w' streaming fd) =
    absurd (let e : writing ≡ reading = sym w' ∙ w in cc)
Step-IsValid _ _ (read_step env result c w ordinary) (is_sending_file w' sending fd) =
    absurd (let e : writing ≡ reading = sym w' ∙ w in cc)
Step-IsValid _ _ (read_step env result c w ordinary) (is_continuing w' continuing fd) =
    absurd (let e : writing ≡ reading = sym w' ∙ w in cc)
Step-IsValid _ _ (read_step env result c w ordinary) (is_stopped w' fd) =
    absurd (let e : stopped ≡ reading = sym w' ∙ w in cc)
Step-IsValid _ _ (write_step room file offset c d w has_room e) valid =
    let (c', e', valid', same) = write_ready room file offset c w has_room valid in
    subst IsValid (let one : some c' ≡ some d = sym e' ∙ e in cc) valid'
Step-IsValid _ _ (failing_step offset c d w may e) valid =
    let (c', e', valid') = write_failing offset c w may valid in
    subst IsValid (let one : some c' ≡ some d = sym e' ∙ e in cc) valid'

Steps-IsValid : (c d : Connection) → Steps c d → IsValid c → IsValid d
Steps-IsValid _ _ (no_step c) valid = valid
Steps-IsValid _ _ (step_then c m e s rest) valid = Steps-IsValid m e rest (Step-IsValid c m s valid)

-- From the time a connection is accepted, after any calls of the two handlers, each made when its
-- watcher waits for it, in any order that this allows, with any bytes, applications, files and room
-- in the socket: the connection reads a request that nothing is sent for, or writes a response, in
-- chunks or as a file, that the write handler can send, or writes `100 Continue`, or is stopped;
-- and its descriptor was closed once if it is stopped, and not otherwise. This wants that no read
-- leaves a complete or a faulty request with a wait for `100 Continue`, that this message is
-- written in one piece, and that `write` and `sendfile` fail only where no wait is left, and
-- neither in the middle of a chunk of a chunked response nor in the head before a file.
pub accepted-IsValid : (addr : Bytes) (c : Connection) → Steps (accepted addr) c → IsValid c
accepted-IsValid addr c steps =
    Steps-IsValid (accepted addr) c steps (is_reading refl (request_new-IsFresh addr) refl)

-- After such calls, where the connection waits to write, a call of the write handler in which no
-- system call fails, and which has room for the whole of a `100 Continue`, or for any part or
-- nothing of anything else, does not fault; what it leaves is such a connection, and what is
-- written and what is left to send make up the same bytes as before.
pub accepted_write_ready :
    (addr : Bytes) (c : Connection) (room : ℕ) (file : Bytes) (offset : ℕ)
    → Steps (accepted addr) c
    → c.watcher ≡ writing
    → HasRoom room c.request
    → (c' : Connection) × (ev_io_on_write (file_io room file offset c.request) c ≡ some c')
      × IsValid c'
      × (c'.wire ++ left_to_send file offset c' ≡ c.wire ++ left_to_send file offset c)
accepted_write_ready addr c room file offset steps w has_room =
    write_ready room file offset c w has_room (accepted-IsValid addr c steps)
