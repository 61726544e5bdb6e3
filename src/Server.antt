-- ===== src/Server.antt =====
-- bjoern/server.c: one connection of the event loop. A system call's result is an argument of the
-- handler that makes it. What the code must not do (a failed `assert`, or a use of memory that was
-- released) is `none`.
pub mod Write
pub mod Read
pub mod Stream
pub mod Delivery
pub mod Ending
pub mod Client
pub mod Answer
pub mod Accept
pub mod Between
pub mod Arrival
pub mod Exchange
pub mod Answering
pub mod Fresh
pub mod Parting
pub mod Progress
pub mod Faults
pub mod Continue
pub mod Valid
pub mod LastResponse
pub mod Left
pub mod Failing
pub mod Reply
pub mod Sendfile
pub mod Session
pub mod Steps
pub mod Closing
pub mod Log
pub mod Life
pub mod File
pub mod FileDelivery
pub mod Loop
mod Tests
use bjoern.Common.{ℕ, zero, suc, ◌+◌, Option, none, some, Bytes, codes}
use bjoern.Request.{Request, request_clean}

-- `enum _rw_state`
pub data RwState : Type 0 where
  not_yet_done : RwState
  done : RwState
  aborted : RwState
  expect_continue : RwState

-- Which callback the connection's watcher waits for.
pub data Watcher : Type 0 where
  stopped : Watcher
  reading : Watcher
  writing : Watcher

-- A connection: the request, its watcher, what was written to the socket since it was accepted, how
-- often the descriptor was closed, and how often `close` was called on a response's iterable.
pub record Connection : Type 0 where
  pub request : Request
  pub watcher : Watcher
  pub wire : Bytes
  pub fd_closed : ℕ
  pub iterables_closed : ℕ

-- The result of `write` or `sendfile`: a number of bytes, `EAGAIN`, or another error.
pub data IoResult : Type 0 where
  sent : ℕ → IoResult
  would_block : IoResult
  io_failed : IoResult

-- `http_error_messages`: no message at 0 and above the last code.
unfoldable pub http_error_message : ℕ → Bytes
http_error_message (suc zero) = codes "HTTP/1.1 400 Bad Request\r\n\r\n"
http_error_message (suc (suc zero)) = codes "HTTP/1.1 406 Length Required\r\n\r\n"
http_error_message (suc (suc (suc zero))) = codes "HTTP/1.1 417 Expectation Failed\r\n\r\n"
http_error_message (suc (suc (suc (suc zero)))) = codes "HTTP/1.1 500 Internal Server Error\r\n\r\n"
http_error_message _ = codes ""

-- `CONTINUE`
abbrev pub continue_message : Bytes
continue_message = codes "HTTP/1.1 100 Continue\r\n\r\n"

-- `start_reading` and `start_writing`
abbrev pub start_reading : Connection → Connection
start_reading c = record c { watcher = reading }

abbrev pub start_writing : Connection → Connection
start_writing c = record c { watcher = writing }

abbrev pub stop_watcher : Connection → Connection
stop_watcher c = record c { watcher = stopped }

-- `close_connection`; the request is freed, so it is cleaned for the last time.
unfoldable pub close_connection : Connection → Connection
close_connection c = record c {
  watcher = stopped;
  fd_closed = c.fd_closed + 1;
  iterables_closed = c.iterables_closed + request_clean c.request;
}
