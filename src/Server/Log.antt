-- ===== src/Server/Log.antt =====
-- The whole life of one connection of bjoern/server.c, with a log of the replies that it was given
-- to send: the view of a client that reads all replies as one stream.
use bjoern.Common.{ℕ, suc, ◌+◌, ◌≡◌, some, List, [], ◌∷◌, ◌++◌, Bytes, length}
use bjoern.Server.{Watcher, reading, writing, Connection}
use bjoern.Server.Write.{ev_io_on_write}
use bjoern.Server.Read.{Surroundings, ReadResult, ev_io_on_read}
use bjoern.Server.Accept.{accepted}
use bjoern.Server.File.{file_io}
use bjoern.Server.Valid.{IsOrdinary, IsValid}
use bjoern.Server.Left.{HasRoom, left_to_send}
use bjoern.Server.Closing.{closes_due, open_iterables}

-- A reply: its bytes, and how many `close` calls its iterable is to get: one if it has that method.
pub record Reply : Type 0 where
  pub bytes : Bytes
  pub closes : ℕ

-- A log, with the last reply first: all bytes in order, and all calls.
abbrev pub all_bytes : List Reply → Bytes
all_bytes [] = []
all_bytes (reply ∷ log) = all_bytes log ++ reply.bytes

abbrev pub all_closes : List Reply → ℕ
all_closes [] = 0
all_closes (reply ∷ log) = all_closes log + reply.closes

-- For each reply by its number, the file that it would be read from, and its offset.
abbrev pub Files : Type 0
Files = ℕ → Bytes × ℕ

-- A read that leaves the connection waiting to write has made a reply.
abbrev pub logged_while : Watcher → Files → List Reply → Connection → List Reply
logged_while writing files log c =
    record {
      bytes = left_to_send (files (suc (length log))).0 (files (suc (length log))).1 c;
      closes = closes_due c.request.iterable;
    }
    ∷ log
logged_while _ files log c = log

-- A connection that was reached by calls of the two handlers, and its log.
pub data Serves (files : Files) : List Reply → Connection → Type 0 where
  opened : (addr : Bytes) → Serves files [] (accepted addr)
  reads :
      (env : Surroundings) (result : ReadResult) (log : List Reply) (c : Connection)
      → Serves files log c
      → c.watcher ≡ reading
      → IsOrdinary env result c
      → Serves files
          (logged_while (ev_io_on_read env result c).watcher files log (ev_io_on_read env result c))
          (ev_io_on_read env result c)
  writes :
      (room : ℕ) (log : List Reply) (c c' : Connection)
      → Serves files log c
      → c.watcher ≡ writing
      → HasRoom room c.request
      → ev_io_on_write (file_io room (files (length log)).0 (files (length log)).1 c.request) c
        ≡ some c'
      → Serves files log c'

-- What is written and what is left to send are the replies in order; and `close` was called on, or
-- is owed to, the iterable of each reply.
pub record IsServed (files : Files) (log : List Reply) (c : Connection) : Type 0 where
  pub valid : IsValid c
  pub in_order :
      c.wire ++ left_to_send (files (length log)).0 (files (length log)).1 c ≡ all_bytes log
  pub closed : c.iterables_closed + open_iterables c ≡ all_closes log
