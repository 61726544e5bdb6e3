-- ===== src/Server/Fresh.antt =====
-- A request of bjoern/request.c before its response: what a new request, a reset one and one that
-- is being parsed have in common.
use bjoern.Common.{Bytes, ◌<◌, ◌≡◌, refl, sym, ◌∙◌, subst, false, none, arith, true}
use bjoern.Request.{no_iterable, Request, request_reset, request_new}
use bjoern.Request.Frame.{IsParsedFrom}
use bjoern.Server.Between.{IsPlain}

-- A request that nothing is sent for yet.
pub record IsFresh (r : Request) : Type 0 where
  pub no_iterator : r.iterator ≡ none
  pub at_start : r.current_chunk_p ≡ 0
  pub unanswered : r.iterable ≡ no_iterable
  pub unchunked : r.state.chunked_response ≡ false
  pub not_done : r.state.wsgi_call_done ≡ false
  pub not_called : r.state.start_response_called ≡ false
  pub two_bit : r.state.error_code < 4

pub IsFresh-IsPlain : (r : Request) → IsFresh r → IsPlain r.iterable
IsFresh-IsPlain r h = subst IsPlain (sym h.unanswered) tt

pub request_reset-IsFresh : (r : Request) → IsFresh (request_reset r)
unfolding request_reset
request_reset-IsFresh r = record {
  no_iterator = refl;
  at_start = refl;
  unanswered = refl;
  unchunked = refl;
  not_done = refl;
  not_called = refl;
  two_bit = omega arith;
}

pub request_new-IsFresh : (addr : Bytes) → IsFresh (request_new addr)
unfolding request_new
request_new-IsFresh addr = record {
  no_iterator = refl;
  at_start = refl;
  unanswered = refl;
  unchunked = refl;
  not_done = refl;
  not_called = refl;
  two_bit = omega arith;
}

pub IsParsedFrom-IsFresh : (r r' : Request) → IsParsedFrom r r' → IsFresh r → IsFresh r'
IsParsedFrom-IsFresh r r' p h = record {
  no_iterator = p.same_iterator ∙ h.no_iterator;
  at_start = p.same_position ∙ h.at_start;
  unanswered = p.same_iterable ∙ h.unanswered;
  unchunked = p.same_chunked ∙ h.unchunked;
  not_done = p.same_done ∙ h.not_done;
  not_called = p.same_called ∙ h.not_called;
  two_bit = p.two_bit h.two_bit;
}

-- A request that nothing has come in for yet.
pub record IsReady (r : Request) : Type 0 where
  pub fresh : IsFresh r
  pub first : r.parser.last_call_was_header_value ≡ true
  pub no_error : r.state.error_code ≡ 0
  pub no_wait : r.state.expect_continue ≡ false
  pub unfinished : r.state.parse_finished ≡ false
  pub no_field : r.parser.field ≡ none

pub request_new-IsReady : (addr : Bytes) → IsReady (request_new addr)
unfolding request_new
request_new-IsReady addr = record {
  fresh = request_new-IsFresh addr;
  first = refl;
  no_error = refl;
  no_wait = refl;
  unfinished = refl;
  no_field = refl;
}

pub request_reset-IsReady : (r : Request) → IsReady (request_reset r)
unfolding request_reset
request_reset-IsReady r = record {
  fresh = request_reset-IsFresh r;
  first = refl;
  no_error = refl;
  no_wait = refl;
  unfinished = refl;
  no_field = refl;
}
