-- ===== src/Server/Accept.antt =====
-- `ev_io_on_request` of bjoern/server.c: a connection is accepted.
use bjoern.Common.{ℕ, Bool, true, false, Option, none, some, List, [], ◌∷◌, Bytes}
use bjoern.Request.{request_new}
use bjoern.Server.{Connection, reading}

-- The connection of a new request: its watcher waits for the client.
abbrev pub accepted : Bytes → Connection
accepted addr = record {
  request = request_new addr;
  watcher = reading;
  wire = [];
  fd_closed = 0;
  iterables_closed = 0;
}

-- The results of `accept` and of the `fcntl` that sets `O_NONBLOCK`: a descriptor with the client's
-- address, or none; and whether it succeeded.
unfoldable pub ev_io_on_request :
    Option (ℕ × Bytes) → Bool → List (ℕ × Connection) → List (ℕ × Connection)
unfolding request_new
ev_io_on_request none nonblocking cs = cs
ev_io_on_request (some (fd, addr)) false cs = cs
ev_io_on_request (some (fd, addr)) true cs = (fd, accepted addr) ∷ cs
