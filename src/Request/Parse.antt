-- ===== src/Request/Parse.antt =====
-- The callbacks of bjoern/request.c that the HTTP parser calls, and `Request_parse`. The parser is
-- a library: a call of `http_parser_execute` is the list of callbacks that it makes, each with the
-- parser's own fields at that time, and the number of bytes that it reports. Each callback returns
-- the request and whether its result is not 0.
use bjoern.Common.{
  ℕ, ◌+◌, ◌-◌, Bool, true, false, not, ◌&&◌, ◌||◌, Option, none, some, List, [], ◌∷◌, ◌++◌, Bytes,
  codes, bytes_eq, strncmp_eq, ltb, leb, ◌==◌, if◌then◌else◌, length, take,
}
use bjoern.Python.{
  Dict, Value, text, stream, write_stream, rewind, get_item, set_item, del_item, update,
}
use bjoern.Request.{
  Request, Parser, Headers, environ, two_bits, bad_request, length_required, expectation_failed,
}
use bjoern.Url.{unquote_url_inplace}

-- What the callbacks read of `http_parser`.
pub record HttpParser : Type 0 where
  pub http_major : ℕ
  pub http_minor : ℕ
  pub content_length : ℕ
  pub method : Bytes  -- `http_method_str(parser->method)`

-- The library calls `on_message_begin` first, so the other callbacks find a dictionary.
abbrev pub with_environ : (Dict → Dict) → Request → Request
with_environ f r = record r { headers = elim (r.headers) [ environ d ↦ environ (f d) | h ↦ h ] }

-- `_PEP3333_String_Concat`: only texts are concatenated.
abbrev pub concat_text : Value → Bytes → Value
concat_text (text old) val = text (old ++ val)
concat_text v val = v

unfoldable pub set_or_append_header : Bytes → Bytes → Dict → Dict
set_or_append_header k val headers = elim (get_item k headers) [
  | some old ↦ set_item k (concat_text old val) headers
  | none ↦ set_item k (text val) headers
]

-- Its assertion is in `callback_asserts`.
unfoldable pub on_message_begin : Request → Request × Bool
on_message_begin r = (record r { headers = environ [] }, false)

unfoldable pub on_path : Bytes → Request → Request × Bool
unfolding set_or_append_header
on_path path r =
    let (len, buf) = unquote_url_inplace path in
    if len == 0
    then (r, true)
    else (with_environ (set_or_append_header (codes "PATH_INFO") (take len buf)) r, false)

unfoldable pub on_query_string : Bytes → Request → Request × Bool
unfolding set_or_append_header
on_query_string query r =
    (with_environ (set_or_append_header (codes "QUERY_STRING") query) r, false)

-- One byte of a header's name.
abbrev pub field_byte : ℕ → ℕ
field_byte c = if c == b'-' then b'_' else if leb b'a' c && leb c b'z' then c - (b'a' - b'A') else c

-- The loop over a piece of a header's name: `none` where it meets an underscore.
unfoldable pub field_processed : Bytes → Option Bytes
field_processed [] = some []
field_processed (c ∷ field) = elim (c == b'_') [
  | true ↦ none
  | false ↦ elim (field_processed field) [ none ↦ none | some s ↦ some (field_byte c ∷ s) ]
]

abbrev pub http_prefix : Bytes
http_prefix = codes "HTTP_"

-- The first lines of `on_header_field`: a piece behind a value starts a new header.
abbrev pub start_header : Parser → Parser
start_header p =
    if p.last_call_was_header_value
    then record {
      field = some http_prefix;
      last_call_was_header_value = false;
      invalid_header = false;
    }
    else p

abbrev pub append_field : Option Bytes → Parser → Parser
append_field none p = record p { invalid_header = true }
append_field (some s) p = record p {
  field = elim (p.field) [ none ↦ none | some old ↦ some (old ++ s) ];
}

unfoldable pub on_header_field : Bytes → Request → Request × Bool
unfolding field_processed
on_header_field field r =
    let p = start_header r.parser in
    (
      record r { parser = if p.invalid_header then p else append_field (field_processed field) p },
      false,
    )

-- The end of `on_header_value`: the `Expect` header of an HTTP/1.1 request.
abbrev pub check_expect : HttpParser → Bytes → Bytes → Request → Request
check_expect http field value r =
    if r.state.expect_continue || not (r.state.error_code == 0)
    then r
    else if ltb 0 http.http_major && ltb 0 http.http_minor
    then if bytes_eq field (codes "HTTP_EXPECT")
      then if strncmp_eq value (codes "100-continue") (length value)
        then record r { state = record (r.state) { expect_continue = true } }
        else record r { state = record (r.state) { error_code = two_bits expectation_failed } }
      else r
    else r

abbrev pub value_of_field : HttpParser → Bytes → Option Bytes → Request → Request
value_of_field http value none r = r
value_of_field http value (some field) r =
    check_expect http field value (with_environ (set_or_append_header field value) r)

unfoldable pub on_header_value : HttpParser → Bytes → Request → Request × Bool
unfolding set_or_append_header
on_header_value http value r =
    let r' = record r { parser = record (r.parser) { last_call_was_header_value = true } } in
    (if r.parser.invalid_header then r' else value_of_field http value r.parser.field r', false)

abbrev pub wsgi_input : Bytes
wsgi_input = codes "wsgi.input"

abbrev pub environ_of : Headers → Dict
environ_of (environ d) = d
environ_of _ = []

-- `on_body` without its first assignment: create the stream if the request has none yet, which
-- wants a content length, and write to it.
abbrev pub store_body : HttpParser → Bytes → Option Value → Request → Request × Bool
store_body http s none r =
    if http.content_length == 0
    then (record r { state = record (r.state) { error_code = two_bits length_required } }, true)
    else (with_environ (set_item wsgi_input (write_stream s (stream [] 0))) r, false)
store_body http s (some body) r =
    (with_environ (set_item wsgi_input (write_stream s body)) r, false)

unfoldable pub on_body : HttpParser → Bytes → Request → Request × Bool
on_body http s r =
    store_body http s (get_item wsgi_input (environ_of r.headers))
      (record r { state = record (r.state) { expect_continue = false } })

-- `PyDict_ReplaceKey`
unfoldable pub replace_key : Bytes → Bytes → Dict → Dict
replace_key old_key new_key d = elim (get_item old_key d) [
  | none ↦ d
  | some value ↦ set_item new_key value (del_item old_key d)
]

abbrev pub finish_body : Dict → Dict
finish_body d = elim (get_item wsgi_input d) [
  | some body ↦ set_item wsgi_input (rewind body) d
  | none ↦ set_item wsgi_input (stream [] 0) d
]

-- What `on_message_complete` makes of the dictionary; `base` is `wsgi_base_dict`.
unfoldable pub complete_environ : HttpParser → Bytes → Dict → Dict → Dict
unfolding replace_key
complete_environ http client_addr base d =
    let d1 = replace_key (codes "HTTP_CONTENT_LENGTH") (codes "CONTENT_LENGTH") d in
    let d2 = replace_key (codes "HTTP_CONTENT_TYPE") (codes "CONTENT_TYPE") d1 in
    let protocol = if http.http_minor == 1 then codes "HTTP/1.1" else codes "HTTP/1.0" in
    let d3 = set_item (codes "SERVER_PROTOCOL") (text protocol) d2 in
    let d4 = set_item (codes "REQUEST_METHOD") (text http.method) d3 in
    let d5 = set_item (codes "REMOTE_ADDR") (text client_addr) d4 in update (finish_body d5) base

unfoldable pub on_message_complete : Dict → HttpParser → Request → Request × Bool
unfolding complete_environ
on_message_complete base http r =
    let r' = with_environ (complete_environ http r.client_addr base) r in
    (record r' { state = record (r'.state) { parse_finished = true } }, false)

-- A callback that the library makes.
pub data Event : Type 0 where
  message_begin : Event
  path : Bytes → Event
  query_string : Bytes → Event
  header_field : Bytes → Event
  header_value : HttpParser → Bytes → Event
  body : HttpParser → Bytes → Event
  message_complete : HttpParser → Event

-- `parser_settings`
unfoldable pub callback : Dict → Event → Request → Request × Bool
unfolding on_message_begin on_path on_query_string on_header_field on_header_value on_body
    on_message_complete
callback base message_begin r = on_message_begin r
callback base (path s) r = on_path s r
callback base (query_string s) r = on_query_string s r
callback base (header_field s) r = on_header_field s r
callback base (header_value http s) r = on_header_value http s r
callback base (body http s) r = on_body http s r
callback base (message_complete http) r = on_message_complete base http r

-- The library stops at the first callback whose result is not 0: the request then, and the number
-- of callbacks made where one failed.
unfoldable pub run_callbacks : Dict → List Event → ℕ → Request → Request × Option ℕ
run_callbacks base [] made r = (r, none)
run_callbacks base (e ∷ es) made r =
    let (r', failed) = callback base e r in
    let rest = run_callbacks base es (made + 1) r' in if failed then (r', some made) else rest

-- The assertion of `on_message_begin`, that no name of a header is left over; the other callbacks
-- have none.
abbrev pub field_is_null : Option Bytes → Bool
field_is_null none = true
field_is_null (some field) = false

abbrev pub callback_asserts : Event → Request → Bool
callback_asserts message_begin r = field_is_null r.parser.field
callback_asserts _ r = true

-- Whether no assertion fails in the callbacks that `run_callbacks` makes.
unfoldable pub run_asserts : Dict → List Event → Request → Bool
unfolding callback
run_asserts base [] r = true
run_asserts base (e ∷ es) r =
    let (r', failed) = callback base e r in
    callback_asserts e r && (failed || run_asserts base es r')

-- A call of `http_parser_execute`: the callbacks it makes while none fails, the number of bytes
-- that it then reports, and the number it reports when the callback of an index fails.
pub record Execution : Type 0 where
  pub events : List Event
  pub parsed : ℕ
  pub parsed_at : ℕ → ℕ

abbrev pub nparsed : Execution → Option ℕ → ℕ
nparsed x none = x.parsed
nparsed x (some i) = x.parsed_at i

unfoldable pub request_parse : Dict → Execution → ℕ → Request → Request
unfolding run_callbacks
request_parse base x data_len r =
    let (r', failed) = run_callbacks base x.events 0 r in
    if nparsed x failed == data_len
    then r'
    else record r' { state = record (r'.state) { error_code = two_bits bad_request } }

-- Whether no assertion fails in `Request_parse`, which wants some bytes.
abbrev pub parse_asserts : Dict → Execution → ℕ → Request → Bool
parse_asserts base x data_len r = ltb 0 data_len && run_asserts base x.events r
