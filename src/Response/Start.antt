-- ===== src/Response/Start.antt =====
-- `start_response` of bjoern/wsgi.c: what its calls may leave behind.
use bjoern.Common.{◌≡◌, true, false, arith}
use bjoern.Python.{StartArgs, wrong_count, start_args, absent, malformed, triple}
use bjoern.Request.{Request}
use bjoern.Response.{start_response}

-- The head has been handed over: `start_response` was called and the application has returned.
pub record IsLive (r : Request) : Type 0 where
  pub called : r.state.start_response_called ≡ true
  pub answered : r.state.wsgi_call_done ≡ true

-- What the rest of the response is sent from is the same.
pub record SameStream (r r' : Request) : Type 0 where
  pub same_chunk : r'.current_chunk ≡ r.current_chunk
  pub same_position : r'.current_chunk_p ≡ r.current_chunk_p
  pub same_iterable : r'.iterable ≡ r.iterable
  pub same_iterator : r'.iterator ≡ r.iterator
  pub same_chunked : r'.state.chunked_response ≡ r.state.chunked_response
  pub same_keep_alive : r'.state.keep_alive ≡ r.state.keep_alive
  pub same_expect : r'.state.expect_continue ≡ r.state.expect_continue

-- Once the head has been handed over, every call of `start_response` raises, whatever its
-- arguments, and what is left to send of the response does not change.
pub start_response_late :
    (r : Request) (args : StartArgs)
    → IsLive r
    → let (r', success) = start_response r args in (success ≡ false) × IsLive r' × SameStream r r'
unfolding start_response
start_response_late r wrong_count live = ground arith
start_response_late r (start_args status headers absent) live = ground arith
start_response_late r (start_args status headers malformed) live = ground arith
start_response_late r (start_args status headers triple) live = ground arith
