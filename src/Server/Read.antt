-- ===== src/Server/Read.antt =====
-- The reading half of bjoern/server.c: `ev_io_on_read`.
use bjoern.Common.{not, ◌&&◌, Option, some, ℕ, Bool, true, false, none, ◌==◌, if◌then◌else◌}
use bjoern.Python.{Iter, Application, Dict}
use bjoern.Request.{Request, chunk, server_error}
use bjoern.Request.Parse.{parse_asserts, environ_of, HttpParser, Execution, request_parse}
use bjoern.Response.{wsgi_call_application}
use bjoern.Server.{
  RwState, not_yet_done, done, aborted, expect_continue, Connection, http_error_message,
  continue_message, start_writing, close_connection,
}

-- The result of `read`: a number of bytes with what the parser makes of them, the end of the
-- stream, `EAGAIN`, or another error.
pub data ReadResult : Type 0 where
  received : ℕ → Execution → ReadResult
  disconnected : ReadResult
  read_would_block : ReadResult
  read_failed : ReadResult

-- What stands outside this code: the dictionary `wsgi_base_dict`, the application as what it does
-- for an environment, the parser's fields when the message is complete, and the result of
-- `http_should_keep_alive`.
pub record Surroundings : Type 0 where
  pub base : Dict
  pub application : Dict → Application
  pub http : HttpParser
  pub keeps : Bool

abbrev pub call_result : Request × Bool → Request
call_result (r, true) = r
call_result (r, false) = record r {
  iterator = none;
  current_chunk = chunk (http_error_message server_error);
}

-- The request once it is parsed: an error, a complete message, a wait for the body, or more to
-- read.
unfoldable pub after_parse : Surroundings → Request → Request × RwState
unfolding http_error_message
after_parse env r =
    if r.state.error_code == 0
    then if r.state.parse_finished
      then (
        call_result
            (wsgi_call_application env.http env.keeps (env.application (environ_of r.headers)) r),
        done,
      )
      else if r.state.expect_continue
      then (r, expect_continue)
      else (r, not_yet_done)
    else (record r { current_chunk = chunk (http_error_message r.state.error_code) }, done)

abbrev pub read_data : Surroundings → Request → ReadResult → Request × RwState
read_data env r disconnected = (r, aborted)
read_data env r read_would_block = (r, not_yet_done)
read_data env r read_failed = (r, aborted)
read_data env r (received n x) = after_parse env (request_parse env.base x n r)

abbrev pub read_switch : RwState → Connection → Connection
read_switch not_yet_done c = c
read_switch expect_continue c =
    start_writing
      (record c { request = record (c.request) { current_chunk = chunk continue_message } })
read_switch done c = start_writing c
read_switch aborted c = close_connection c

-- The handler, as long as its assertions hold: `checked_read` is the two together.
unfoldable pub ev_io_on_read : Surroundings → ReadResult → Connection → Connection
unfolding after_parse close_connection
ev_io_on_read env result c =
    let (r, state) = read_data env c.request result in read_switch state (record c { request = r })

abbrev iterator_is_null : Option Iter → Bool
iterator_is_null none = true
iterator_is_null (some it) = false

-- A failed call of the application leaves no chunked response.
abbrev pub call_asserts : Request × Bool → Bool
call_asserts (r, true) = true
call_asserts (r, false) = not r.state.chunked_response

-- Whether no assertion of `ev_io_on_read` fails behind the parser. (That Python has an error to
-- print is not modelled.)
unfoldable pub after_parse_asserts : Surroundings → Request → Bool
after_parse_asserts env r =
    if r.state.error_code == 0
    then if r.state.parse_finished
      then call_asserts
          (wsgi_call_application env.http env.keeps (env.application (environ_of r.headers)) r)
      else true
    else iterator_is_null r.iterator

-- Whether no assertion fails in a call of the handler.
unfoldable pub read_asserts : Surroundings → ReadResult → Connection → Bool
unfolding after_parse_asserts
read_asserts env (received n x) c =
    parse_asserts env.base x n c.request
    && after_parse_asserts env (request_parse env.base x n c.request)
read_asserts env _ c = true

-- A call of the handler: `none` where an assertion fails.
unfoldable pub checked_read : Surroundings → ReadResult → Connection → Option Connection
unfolding read_asserts ev_io_on_read
checked_read env result c =
    if read_asserts env result c then some (ev_io_on_read env result c) else none
