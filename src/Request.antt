-- ===== src/Request.antt =====
-- bjoern/request.h and the life cycle of bjoern/request.c: the state of a connection's request. A
-- pointer that may be NULL is an `Option`, or has a constructor for NULL; a bit field is a `Bool`,
-- and `error_code`, of two bits, is a number taken modulo 4 where it is stored. Reference counts
-- are not modelled: a value that the code releases is gone.
pub mod Parse
pub mod Header
pub mod Environ
pub mod Events
pub mod Frame
pub mod Lookup
pub mod Body
pub mod Message
pub mod Received
pub mod Keys
pub mod Whole
pub mod Parts
pub mod Prefix
pub mod Asserts
pub mod Quiet
mod Tests
use bjoern.Common.{if◌then◌else◌, ℕ, ◌%◌, Bool, true, false, Option, none, some, List, [], Bytes}
use bjoern.Python.{Dict, Iter}

-- `bj_parser`, without the parser of the library
pub record Parser : Type 0 where
  pub field : Option Bytes
  pub last_call_was_header_value : Bool
  pub invalid_header : Bool

-- `request_state`
pub record RequestState : Type 0 where
  pub error_code : ℕ
  pub parse_finished : Bool
  pub start_response_called : Bool
  pub wsgi_call_done : Bool
  pub keep_alive : Bool
  pub response_length_unknown : Bool
  pub chunked_response : Bool
  pub expect_continue : Bool

-- `headers` holds the request's headers until the application is called, and then the response's.
pub data Headers : Type 0 where
  null : Headers
  environ : Dict → Headers
  response : List (Bytes × Bytes) → Headers

-- `current_chunk`: `dangling` is a pointer to an object that was released.
pub data Chunk : Type 0 where
  no_chunk : Chunk
  chunk : Bytes → Chunk
  dangling : Chunk

-- `iterable`: only whether it is a `FileWrapper`, and its descriptor, matter once it is stored.
pub data Iterable : Type 0 where
  no_iterable : Iterable
  wrapper : Option ℕ → Iterable
  other_iterable : Bool → Iterable

pub record Request : Type 0 where
  pub parser : Parser
  pub client_addr : Bytes
  pub state : RequestState
  pub status : Option Bytes
  pub headers : Headers
  pub current_chunk : Chunk
  pub current_chunk_p : ℕ
  pub iterable : Iterable
  pub iterator : Option Iter

-- `enum http_status`, and what a field of two bits keeps of it
abbrev pub bad_request : ℕ
bad_request = 1

abbrev pub length_required : ℕ
length_required = 2

abbrev pub expectation_failed : ℕ
expectation_failed = 3

abbrev pub server_error : ℕ
server_error = 4

abbrev pub two_bits : ℕ → ℕ
two_bits n = n % 4

abbrev pub initial_state : RequestState
initial_state = record {
  error_code = 0;
  parse_finished = false;
  start_response_called = false;
  wsgi_call_done = false;
  keep_alive = false;
  response_length_unknown = true;
  chunked_response = false;
  expect_continue = false;
}

abbrev pub initial_parser : Parser
initial_parser = record { field = none; last_call_was_header_value = true; invalid_header = false }

-- `Request_reset`: everything from `state` on is zeroed; the client's address stays.
unfoldable pub request_reset : Request → Request
request_reset r = record r {
  parser = initial_parser;
  state = initial_state;
  status = none;
  headers = null;
  current_chunk = no_chunk;
  current_chunk_p = 0;
  iterable = no_iterable;
  iterator = none;
}

-- `Request_new`
unfoldable pub request_new : Bytes → Request
request_new client_addr = record {
  parser = initial_parser;
  client_addr = client_addr;
  state = initial_state;
  status = none;
  headers = null;
  current_chunk = no_chunk;
  current_chunk_p = 0;
  iterable = no_iterable;
  iterator = none;
}

-- `Request_clean`: how often `close` is called on the response's iterable: once if it has such a
-- method, which a `FileWrapper` has. (What is released is
-- not looked at again before `Request_reset` or the end of the connection.)
unfoldable pub request_clean : Request → ℕ
request_clean r = closes r.iterable
  where
    closes : Iterable → ℕ
    closes no_iterable = 0
    closes (wrapper _) = 1
    closes (other_iterable has_close) = if has_close then 1 else 0
