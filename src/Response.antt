-- ===== src/Response.antt =====
-- bjoern/wsgi.c: `start_response`, the response's head, the next chunk of an iterable, and the call
-- of the application.
pub mod Head
pub mod Start
pub mod Starting
pub mod Framing
pub mod Body
pub mod Carrying
mod Tests
use bjoern.Common.{
  ℕ, ◌+◌, Bool, true, false, not, ◌&&◌, ◌||◌, Option, none, some, List, [], ◌∷◌, ◌++◌, map, Bytes,
  codes, strncmp_eq, to_lower, ltb, ◌==◌, if◌then◌else◌, length,
}
use bjoern.Python.{
  Latin1, HeaderItem, not_pair, pair, HeadersArg, not_list, header_list, ExcInfo, absent, malformed,
  triple, StartArgs, wrong_count, start_args, Item, bytes_item, other_item, Iter, call, yield, stop,
  raise, Retval, bytes_value, list_value, wrapper_value, iterable_value, not_iterable, Application,
  starts, returns, raises,
}
use bjoern.Request.{
  Request, Headers, null, response, chunk, no_iterable, wrapper, Iterable, other_iterable,
}
use bjoern.Request.Parse.{HttpParser}
use bjoern.Chunk.{wrap_http_chunk_cruft_around}

-- The first loop of `clean_headers`.
unfoldable pub all_pairs : List HeaderItem → Bool
all_pairs [] = true
all_pairs (not_pair ∷ items) = false
all_pairs (pair _ _ ∷ items) = all_pairs items

-- `!strncasecmp(field, "Content-Length", PyBytes_GET_SIZE(field))`
unfoldable pub is_content_length : Bytes → Bool
is_content_length field =
    strncmp_eq (map to_lower field) (map to_lower (codes "Content-Length")) (length field)

abbrev pub Fields : Type 0
Fields = List (Bytes × Bytes)

abbrev add_field : Bytes → Bytes → Option (Fields × Bool) → Option (Fields × Bool)
add_field f v none = none
add_field f v (some (fields, found)) = some ((f, v) ∷ fields, is_content_length f || found)

-- The second loop: the fields as bytes, and whether a content length was found.
unfoldable pub encode_fields : List HeaderItem → Option (Fields × Bool)
encode_fields [] = some ([], false)
encode_fields (pair (some f) (some v) ∷ items) = add_field f v (encode_fields items)
encode_fields (_ ∷ items) = none

unfoldable pub clean_headers : HeadersArg → Option (Fields × Bool)
unfolding all_pairs encode_fields
clean_headers not_list = none
clean_headers (header_list items) = if all_pairs items then encode_fields items else none

-- The end of `start_response`: store the status, then the headers.
abbrev pub store_headers : Option (Fields × Bool) → Request → Request × Bool
store_headers none r = (record r { headers = null }, false)
store_headers (some (fields, found)) r = (
  record r {
    headers = response fields;
    state = record (r.state) { response_length_unknown = not found; start_response_called = true };
  },
  true,
)

abbrev pub store_response : Latin1 → HeadersArg → Request → Request × Bool
store_response none headers r = (record r { status = none }, false)
store_response (some s) headers r =
    if ltb (length s) 3
    then (record r { status = none }, false)
    else store_headers (clean_headers headers) (record r { status = some s })

-- A call after the first throws the earlier status and headers away.
abbrev pub forget_response : Request → Request
forget_response r =
    if r.state.start_response_called
    then record r {
      status = none;
      headers = null;
      state = record (r.state) { response_length_unknown = true };
    }
    else r

abbrev pub accept : Request → StartArgs → Request × Bool
accept r wrong_count = (r, false)
accept r (start_args status headers malformed) = (r, false)
accept r (start_args status headers triple) =
    if r.state.wsgi_call_done then (r, false) else store_response status headers r
accept r (start_args status headers absent) =
    if r.state.start_response_called then (r, false) else store_response status headers r

-- The request afterwards, and whether the call returned `None`; otherwise it raised.
unfoldable pub start_response : Request → StartArgs → Request × Bool
unfolding clean_headers
start_response r args = accept (forget_response r) args

-- `wsgi_iterable_get_next_chunk`
pub data Next : Type 0 where
  next_chunk : Bytes → Next
  ended : Next
  failed : Next

unfoldable pub get_next_chunk : Iter → Request → Request × Next
get_next_chunk (call args k) r =
    let (r', success) = start_response r args in get_next_chunk (k success) r'
get_next_chunk (yield (bytes_item []) it) r = get_next_chunk it r
get_next_chunk (yield (bytes_item (c ∷ cs)) it) r =
    (record r { iterator = some it }, next_chunk (c ∷ cs))
get_next_chunk (yield other_item it) r = (record r { iterator = some it }, failed)
get_next_chunk stop r = (record r { iterator = some stop }, ended)
get_next_chunk raise r = (record r { iterator = some stop }, failed)

-- `wsgi_getheaders`: what is written to the buffer.
unfoldable pub write_fields : Fields → Bytes
write_fields [] = []
write_fields ((f, v) ∷ fields) = codes "\r\n" ++ (f ++ (codes ": " ++ (v ++ write_fields fields)))

abbrev pub connection_field : Bool → Bool → Bytes
connection_field true true =
    codes "\r\nConnection: Keep-Alive" ++ codes "\r\nTransfer-Encoding: chunked"
connection_field true false = codes "\r\nConnection: Keep-Alive"
connection_field false _ = codes "\r\nConnection: close"

unfoldable pub response_head : Bytes → Fields → Bool → Bool → Bytes
unfolding write_fields
response_head status fields keep_alive chunked =
    codes "HTTP/1.1 "
    ++ (status
        ++ (write_fields fields ++ (connection_field keep_alive chunked ++ codes "\r\n\r\n")))

-- Its first lines: how long a buffer is allocated.
unfoldable pub fields_upperbound : Fields → ℕ
fields_upperbound [] = 0
fields_upperbound ((f, v) ∷ fields) =
    length (codes "\r\n") + length f + length (codes ": ") + length v + fields_upperbound fields

unfoldable pub length_upperbound : Bytes → Fields → ℕ
unfolding fields_upperbound
length_upperbound status fields =
    length (codes "HTTP/1.1 ")
    + length status
    + length (codes "\r\nConnection: Keep-Alive")
    + length (codes "\r\nTransfer-Encoding: chunked")
    + length (codes "\r\n\r\n")
    + fields_upperbound fields

-- The call `application(environ, start_response)`; `none` if it raised.
unfoldable pub run_application : Application → Request → Request × Option Retval
run_application (starts args k) r =
    let (r', success) = start_response r args in run_application (k success) r'
run_application (returns v) r = (r, some v)
run_application raises r = (r, none)

-- The first chunk of the body, if there is one; `broken` where the application has failed.
pub data First : Type 0 where
  first_chunk : Bytes → First
  no_first_chunk : First
  broken : First

abbrev pub first_of : Next → First
first_of (next_chunk c) = first_chunk c
first_of ended = no_first_chunk
first_of failed = broken

abbrev pub iterate_items : List Item → Iter
iterate_items [] = stop
iterate_items (item ∷ items) = yield item (iterate_items items)

abbrev pub generic_iterable : Iterable → Iter → Request → Request × First
generic_iterable iterable it r =
    let (r', next) = get_next_chunk it (record r { iterable = iterable; iterator = some it }) in
    (r', first_of next)

abbrev pub bytestring : Bytes → Request → Request × First
bytestring [] r = (record r { iterable = no_iterable; iterator = none }, no_first_chunk)
bytestring (c ∷ cs) r = (record r { iterable = no_iterable; iterator = none }, first_chunk (c ∷ cs))

-- The cases of `wsgi_call_application` on the value that the application returned.
unfoldable pub open_retval : Retval → Request → Request × First
unfolding get_next_chunk
open_retval (bytes_value s) r = bytestring s r
open_retval (list_value (bytes_item s ∷ [])) r = bytestring s r
open_retval (list_value items) r = generic_iterable (other_iterable false) (iterate_items items) r
open_retval (wrapper_value (some fd) it) r =
    if not r.state.response_length_unknown
    then (record r { iterable = wrapper (some fd); iterator = none }, no_first_chunk)
    else generic_iterable (wrapper (some fd)) it r
open_retval (wrapper_value none it) r = generic_iterable (wrapper none) it r
open_retval (iterable_value has_close it) r = generic_iterable (other_iterable has_close) it r
open_retval (not_iterable has_close) r =
    (record r { iterable = other_iterable has_close; iterator = none }, broken)

-- No body: status 204 or 304.
abbrev pub is_bodiless : Bytes → Bool
is_bodiless status = strncmp_eq status (codes "204") 3 || strncmp_eq status (codes "304") 3

-- The special case of 204 and 304, and the keep-alive cruft. `keeps` is the result of the
-- library's `http_should_keep_alive`.
unfoldable pub decide_keep_alive : HttpParser → Bool → Bytes → Request → Request
decide_keep_alive http keeps status r =
    let unknown = r.state.response_length_unknown && not (is_bodiless status) in
    let new_http = ltb 0 http.http_major && ltb 0 http.http_minor in
    record r {
      state = record (r.state) {
        response_length_unknown = unknown;
        chunked_response =
            if keeps
            then (if unknown
                then (if new_http then true else r.state.chunked_response)
                else r.state.chunked_response)
            else r.state.chunked_response;
        keep_alive = keeps && (not unknown || new_http);
      };
    }

abbrev pub status_of : Option Bytes → Bytes
status_of none = []
status_of (some s) = s

abbrev pub with_first : Bool → First → Bytes
with_first chunked (first_chunk c) = if chunked then wrap_http_chunk_cruft_around c else c
with_first chunked _ = []

-- From the check of `request->headers` on.
abbrev pub start_sending : HttpParser → Bool → First → Headers → Request → Request × Bool
start_sending http keeps first (response fields) r =
    let status = status_of r.status in
    let r' = decide_keep_alive http keeps status r in
    (
      record r' {
        state = record (r'.state) { wsgi_call_done = true };
        current_chunk = chunk (
            response_head status fields r'.state.keep_alive r'.state.chunked_response
            ++ with_first r'.state.chunked_response first);
        current_chunk_p = 0;
      },
      true,
    )
start_sending http keeps first _ r = (r, false)

abbrev pub answer : HttpParser → Bool → Request × First → Request × Bool
answer http keeps (r, broken) = (r, false)
answer http keeps (r, first) = start_sending http keeps first r.headers r

abbrev pub open_result : HttpParser → Bool → Request × Option Retval → Request × Bool
open_result http keeps (r, none) = (r, false)
open_result http keeps (r, some v) = answer http keeps (open_retval v r)

-- The request afterwards, and whether there is a response to send.
unfoldable pub wsgi_call_application : HttpParser → Bool → Application → Request → Request × Bool
unfolding run_application open_retval decide_keep_alive response_head
wsgi_call_application http keeps app r =
    open_result http keeps (run_application app (record r { headers = null }))
