-- ===== src/Response/Starting.antt =====
-- While the application of bjoern/wsgi.c runs: what holds of the request at each of its calls of
-- `start_response`, for an application that may do anything.
use bjoern.Common.{
  ◌≤◌, ◌≡◌, inl, inr, refl, subst, Bool, true, false, not, Option, none, some, [], ◌∷◌, Bytes,
  length, arith, ltb, if◌then◌else◌, Bool-cases,
}
use bjoern.Python.{
  Latin1, HeadersArg, StartArgs, wrong_count, start_args, absent, malformed, triple, bytes_item,
  other_item, Iter, call, yield, stop, raise, Retval, bytes_value, list_value, wrapper_value,
  iterable_value, not_iterable, Application, starts, returns, raises,
}
use bjoern.Request.{Request, Headers, null, environ, response, Iterable, wrapper, other_iterable}
use bjoern.Response.{
  start_response, get_next_chunk, no_first_chunk, run_application, open_retval, generic_iterable,
  iterate_items, bytestring, Fields, forget_response, store_headers, store_response, accept,
  clean_headers,
}

-- Where there are response headers, there is a status of three bytes or more.
abbrev pub HasStatus : Headers → Option Bytes → Bool → Type 0
HasStatus (response fields) none called = ⊥
HasStatus (response fields) (some s) called = (3 ≤ length s) × (called ≡ true)
HasStatus _ status called = Unit

-- What holds while the application has not answered.
pub record IsStarting (r : Request) : Type 0 where
  pub chunked_off : r.state.chunked_response ≡ false
  pub not_done : r.state.wsgi_call_done ≡ false
  pub no_expect : r.state.expect_continue ≡ false
  pub at_start : r.current_chunk_p ≡ 0
  pub has_status : HasStatus r.headers r.status r.state.start_response_called

-- No response headers are stored.
abbrev pub NoResponse : Headers → Type 0
NoResponse (response fields) = ⊥
NoResponse _ = Unit

-- The three flags of the invariant, and the position.
record IsUnanswered (r : Request) : Type 0 where
  off : r.state.chunked_response ≡ false
  open_call : r.state.wsgi_call_done ≡ false
  quiet : r.state.expect_continue ≡ false
  start : r.current_chunk_p ≡ 0

NoResponse-HasStatus :
    (h : Headers) (status : Option Bytes) (called : Bool) → NoResponse h → HasStatus h status called
NoResponse-HasStatus null status called n = tt
NoResponse-HasStatus (environ d) status called n = tt
NoResponse-HasStatus (response fields) status called n = absurd n

HasStatus-NoResponse :
    (h : Headers) (status : Option Bytes) → HasStatus h status false → NoResponse h
HasStatus-NoResponse null status n = tt
HasStatus-NoResponse (environ d) status n = tt
HasStatus-NoResponse (response fields) none n = n
HasStatus-NoResponse (response fields) (some s) n = cc (n.1)

forget_response-NoResponse : (r : Request) → IsStarting r → NoResponse (forget_response r).headers
forget_response-NoResponse r h = go r.state.start_response_called refl
  where
    go :
        (b : Bool)
        → r.state.start_response_called ≡ b
        → NoResponse
            (if b
              then record r {
                status = none;
                headers = null;
                state = record (r.state) { response_length_unknown = true };
              }
              else r).headers
    go true e = tt
    go false e =
        HasStatus-NoResponse r.headers r.status
          (subst (HasStatus r.headers r.status) e h.has_status)

forget_response-IsUnanswered : (r : Request) → IsStarting r → IsUnanswered (forget_response r)
forget_response-IsUnanswered r h = ground arith

store_headers-IsStarting :
    (o : Option (Fields × Bool)) (r : Request) (s : Bytes)
    → IsUnanswered r
    → r.status ≡ some s
    → 3 ≤ length s
    → IsStarting (store_headers o r).0
store_headers-IsStarting none r s h e l = record {
  chunked_off = h.off;
  not_done = h.open_call;
  no_expect = h.quiet;
  at_start = h.start;
  has_status = tt;
}
store_headers-IsStarting (some (fields, found)) r s h e l = record {
  chunked_off = h.off;
  not_done = h.open_call;
  no_expect = h.quiet;
  at_start = h.start;
  has_status = rw e (l, refl);
}

quiet-IsStarting : (r : Request) → IsUnanswered r → NoResponse r.headers → IsStarting r
quiet-IsStarting r h n = record {
  chunked_off = h.off;
  not_done = h.open_call;
  no_expect = h.quiet;
  at_start = h.start;
  has_status = NoResponse-HasStatus r.headers r.status r.state.start_response_called n;
}

store_response-IsStarting :
    (status : Latin1) (headers : HeadersArg) (r : Request)
    → IsUnanswered r
    → NoResponse r.headers
    → IsStarting (store_response status headers r).0
store_response-IsStarting none headers r h n =
    quiet-IsStarting (record r { status = none })
      (record { off = h.off; open_call = h.open_call; quiet = h.quiet; start = h.start }) n
store_response-IsStarting (some s) headers r h n = elim (Bool-cases (ltb (length s) 3)) [
  | inl e ↦ rw e (
      quiet-IsStarting (record r { status = none })
        (record { off = h.off; open_call = h.open_call; quiet = h.quiet; start = h.start }) n)
  | inr e ↦ rw e (
      store_headers-IsStarting (clean_headers headers) (record r { status = some s }) s
        (record { off = h.off; open_call = h.open_call; quiet = h.quiet; start = h.start }) refl
        (ground arith))
]

-- A call of `start_response` keeps the invariant, whatever its arguments.
start_response-IsStarting :
    (r : Request) (args : StartArgs) → IsStarting r → IsStarting (start_response r args).0
unfolding start_response
start_response-IsStarting r args h = accepted args
  where
    r' : Request
    r' = forget_response r

    flags : IsUnanswered r'
    flags = forget_response-IsUnanswered r h

    clear : NoResponse r'.headers
    clear = forget_response-NoResponse r h

    unchanged : IsStarting r'
    unchanged = quiet-IsStarting r' flags clear

    choose :
        (b : Bool) (status : Latin1) (headers : HeadersArg)
        → IsStarting (if b then (r', false) else store_response status headers r').0
    choose true status headers = unchanged
    choose false status headers = store_response-IsStarting status headers r' flags clear

    accepted : (args : StartArgs) → IsStarting (accept r' args).0
    accepted wrong_count = unchanged
    accepted (start_args status headers malformed) = unchanged
    accepted (start_args status headers absent) =
        choose r'.state.start_response_called status headers
    accepted (start_args status headers triple) = choose r'.state.wsgi_call_done status headers

IsStarting-iterator :
    (r : Request) (i : Iterable) (it : Option Iter)
    → IsStarting r
    → IsStarting (record r { iterable = i; iterator = it })
IsStarting-iterator r i it h = record {
  chunked_off = h.chunked_off;
  not_done = h.not_done;
  no_expect = h.no_expect;
  at_start = h.at_start;
  has_status = h.has_status;
}

get_next_chunk-IsStarting :
    (it : Iter) (r : Request) → IsStarting r → IsStarting (get_next_chunk it r).0
unfolding get_next_chunk
get_next_chunk-IsStarting (call args k) r h =
    get_next_chunk-IsStarting (k (start_response r args).1) (start_response r args).0
      (start_response-IsStarting r args h)
get_next_chunk-IsStarting (yield (bytes_item []) it) r h = get_next_chunk-IsStarting it r h
get_next_chunk-IsStarting (yield (bytes_item (c ∷ cs)) it) r h =
    IsStarting-iterator r r.iterable (some it) h
get_next_chunk-IsStarting (yield other_item it) r h = IsStarting-iterator r r.iterable (some it) h
get_next_chunk-IsStarting stop r h = IsStarting-iterator r r.iterable (some stop) h
get_next_chunk-IsStarting raise r h = IsStarting-iterator r r.iterable (some stop) h

pub run_application-IsStarting :
    (app : Application) (r : Request) → IsStarting r → IsStarting (run_application app r).0
unfolding run_application
run_application-IsStarting (starts args k) r h =
    run_application-IsStarting (k (start_response r args).1) (start_response r args).0
      (start_response-IsStarting r args h)
run_application-IsStarting (returns v) r h = h
run_application-IsStarting raises r h = h

bytestring-IsStarting : (s : Bytes) (r : Request) → IsStarting r → IsStarting (bytestring s r).0
bytestring-IsStarting [] r h = IsStarting-iterator r _ none h
bytestring-IsStarting (c ∷ cs) r h = IsStarting-iterator r _ none h

generic_iterable-IsStarting :
    (i : Iterable) (it : Iter) (r : Request) → IsStarting r → IsStarting (generic_iterable i it r).0
generic_iterable-IsStarting i it r h =
    get_next_chunk-IsStarting it (record r { iterable = i; iterator = some it })
      (IsStarting-iterator r i (some it) h)

pub open_retval-IsStarting :
    (v : Retval) (r : Request) → IsStarting r → IsStarting (open_retval v r).0
unfolding open_retval
open_retval-IsStarting (bytes_value s) r h = bytestring-IsStarting s r h
open_retval-IsStarting (list_value []) r h = generic_iterable-IsStarting _ stop r h
open_retval-IsStarting (list_value (bytes_item s ∷ [])) r h = bytestring-IsStarting s r h
open_retval-IsStarting (list_value (bytes_item s ∷ i ∷ items)) r h =
    generic_iterable-IsStarting (other_iterable false) (iterate_items (bytes_item s ∷ i ∷ items)) r
      h
open_retval-IsStarting (list_value (other_item ∷ items)) r h =
    generic_iterable-IsStarting (other_iterable false) (iterate_items (other_item ∷ items)) r h
open_retval-IsStarting (wrapper_value none it) r h = generic_iterable-IsStarting _ it r h
open_retval-IsStarting (wrapper_value (some fd) it) r h =
    choose (not r.state.response_length_unknown)
  where
    choose :
        (b : Bool)
        → IsStarting
            (if b
              then (record r { iterable = wrapper (some fd); iterator = none }, no_first_chunk)
              else generic_iterable (wrapper (some fd)) it r).0
    choose true = IsStarting-iterator r (wrapper (some fd)) none h
    choose false = generic_iterable-IsStarting (wrapper (some fd)) it r h
open_retval-IsStarting (iterable_value has_close it) r h = generic_iterable-IsStarting _ it r h
open_retval-IsStarting (not_iterable has_close) r h = IsStarting-iterator r _ none h
