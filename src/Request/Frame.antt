-- ===== src/Request/Frame.antt =====
-- What the callbacks of bjoern/request.c leave as it is: the part of the request that belongs to
-- the response.
use bjoern.Common.{
  ℕ, ◌+◌, ◌≡◌, ◌<◌, ◌∙◌, refl, Bool, true, false, not, ◌&&◌, ◌||◌, Option, none, some, List, [],
  ◌∷◌, Bytes, arith, ltb, ◌==◌, if◌then◌else◌, length, codes, bytes_eq, strncmp_eq,
}
use bjoern.Url.{unquote_url_inplace}
use bjoern.Python.{Dict, Value}
use bjoern.Request.{Request, Parser, two_bits, RequestState, Headers}
use bjoern.Request.Parse.{
  HttpParser, Event, message_begin, path, query_string, header_field, header_value, body,
  message_complete, on_message_begin, on_path, on_query_string, on_header_field, on_header_value,
  on_body, on_message_complete, check_expect, value_of_field, store_body, with_environ, callback,
  run_callbacks, Execution, request_parse, nparsed,
}

-- A request that differs from another only in what its client sends. The error code stays a
-- number of two bits.
pub record IsParsedFrom (r r' : Request) : Type 0 where
  pub same_chunk : r'.current_chunk ≡ r.current_chunk
  pub same_position : r'.current_chunk_p ≡ r.current_chunk_p
  pub same_iterable : r'.iterable ≡ r.iterable
  pub same_iterator : r'.iterator ≡ r.iterator
  pub same_chunked : r'.state.chunked_response ≡ r.state.chunked_response
  pub same_done : r'.state.wsgi_call_done ≡ r.state.wsgi_call_done
  pub same_called : r'.state.start_response_called ≡ r.state.start_response_called
  pub two_bit : r.state.error_code < 4 → r'.state.error_code < 4

same : (r : Request) → IsParsedFrom r r
same r = record {
  same_chunk = refl;
  same_position = refl;
  same_iterable = refl;
  same_iterator = refl;
  same_chunked = refl;
  same_done = refl;
  same_called = refl;
  two_bit = λ h. h;
}

then_same : (r s t : Request) → IsParsedFrom r s → IsParsedFrom s t → IsParsedFrom r t
then_same r s t a b = record {
  same_chunk = b.same_chunk ∙ a.same_chunk;
  same_position = b.same_position ∙ a.same_position;
  same_iterable = b.same_iterable ∙ a.same_iterable;
  same_iterator = b.same_iterator ∙ a.same_iterator;
  same_chunked = b.same_chunked ∙ a.same_chunked;
  same_done = b.same_done ∙ a.same_done;
  same_called = b.same_called ∙ a.same_called;
  two_bit = λ h. b.two_bit (a.two_bit h);
}

-- A test chooses between two results.
either :
    (b : Bool) (r s t : Request)
    → IsParsedFrom r s
    → IsParsedFrom r t
    → IsParsedFrom r (if b then s else t)
either true r s t a b = a
either false r s t a b = b

either_result :
    {A : Type 0} (b : Bool) (r : Request) (s t : Request × A)
    → IsParsedFrom r s.0
    → IsParsedFrom r t.0
    → IsParsedFrom r (if b then s else t).0
either_result true r s t a b = a
either_result false r s t a b = b

-- The parser's part, the request's headers and the state are stored anew.
edited :
    (r : Request) (p : Parser) (st : RequestState) (h : Headers)
    → st.chunked_response ≡ r.state.chunked_response
    → st.wsgi_call_done ≡ r.state.wsgi_call_done
    → st.start_response_called ≡ r.state.start_response_called
    → (r.state.error_code < 4 → st.error_code < 4)
    → IsParsedFrom r (record r { parser = p; state = st; headers = h })
edited r p st h chunked open_call called code = record {
  same_chunk = refl;
  same_position = refl;
  same_iterable = refl;
  same_iterator = refl;
  same_chunked = chunked;
  same_done = open_call;
  same_called = called;
  two_bit = code;
}

with_error :
    (r : Request) (n : ℕ)
    → IsParsedFrom r (record r { state = record (r.state) { error_code = two_bits n } })
with_error r n = edited r _ _ _ refl refl refl (λ h. omega arith)

with_environ-IsParsedFrom : (f : Dict → Dict) (r : Request) → IsParsedFrom r (with_environ f r)
with_environ-IsParsedFrom f r = edited r _ _ _ refl refl refl (λ h. h)

check_expect-IsParsedFrom :
    (http : HttpParser) (field value : Bytes) (r : Request)
    → IsParsedFrom r (check_expect http field value r)
check_expect-IsParsedFrom http field value r =
    either (r.state.expect_continue || not (r.state.error_code == 0)) r r _ (same r) (
      either (ltb 0 http.http_major && ltb 0 http.http_minor) r _ r
        (either (bytes_eq field (codes "HTTP_EXPECT")) r _ r
          (either (strncmp_eq value (codes "100-continue") (length value)) r
            (record r { state = record (r.state) { expect_continue = true } }) _
            (edited r _ _ _ refl refl refl (λ h. h)) (with_error r 3))
          (same r))
        (same r))

value_of_field-IsParsedFrom :
    (http : HttpParser) (value : Bytes) (field : Option Bytes) (r : Request)
    → IsParsedFrom r (value_of_field http value field r)
value_of_field-IsParsedFrom http value none r = same r
value_of_field-IsParsedFrom http value (some field) r =
    then_same r _ _ (with_environ-IsParsedFrom _ r) (check_expect-IsParsedFrom http field value _)

store_body-IsParsedFrom :
    (http : HttpParser) (s : Bytes) (v : Option Value) (r : Request)
    → IsParsedFrom r (store_body http s v r).0
store_body-IsParsedFrom http s none r =
    either_result (http.content_length == 0) r _ _ (with_error r 2) (with_environ-IsParsedFrom _ r)
store_body-IsParsedFrom http s (some v) r = with_environ-IsParsedFrom _ r

callback-IsParsedFrom :
    (base : Dict) (e : Event) (r : Request) → IsParsedFrom r (callback base e r).0
unfolding callback on_message_begin on_path on_query_string on_header_field on_header_value on_body
    on_message_complete
callback-IsParsedFrom base message_begin r = edited r _ _ _ refl refl refl (λ h. h)
callback-IsParsedFrom base (path s) r =
    either_result ((unquote_url_inplace s).0 == 0) r _ _ (same r) (with_environ-IsParsedFrom _ r)
callback-IsParsedFrom base (query_string s) r = with_environ-IsParsedFrom _ r
callback-IsParsedFrom base (header_field s) r = edited r _ _ _ refl refl refl (λ h. h)
callback-IsParsedFrom base (header_value http s) r =
    let r' = record r { parser = record (r.parser) { last_call_was_header_value = true } } in
    let e = edited r r'.parser _ _ refl refl refl (λ h. h) in
    either r.parser.invalid_header r r' _ e
      (then_same r r' _ e (value_of_field-IsParsedFrom http s r.parser.field r'))
callback-IsParsedFrom base (body http s) r =
    then_same r (record r { state = record (r.state) { expect_continue = false } }) _
      (edited r _ _ _ refl refl refl (λ h. h)) (store_body-IsParsedFrom http s _ _)
callback-IsParsedFrom base (message_complete http) r = edited r _ _ _ refl refl refl (λ h. h)

run_callbacks-IsParsedFrom :
    (base : Dict) (es : List Event) (made : ℕ) (r : Request)
    → IsParsedFrom r (run_callbacks base es made r).0
unfolding run_callbacks
run_callbacks-IsParsedFrom base [] made r = same r
run_callbacks-IsParsedFrom base (e ∷ es) made r =
    let rest = run_callbacks-IsParsedFrom base es (made + 1) (callback base e r).0 in
    let first = callback-IsParsedFrom base e r in
    either_result (callback base e r).1 r _ _ first (then_same r _ _ first rest)

pub request_parse-IsParsedFrom :
    (base : Dict) (x : Execution) (n : ℕ) (r : Request) → IsParsedFrom r (request_parse base x n r)
unfolding request_parse
request_parse-IsParsedFrom base x n r =
    let ran = run_callbacks-IsParsedFrom base x.events 0 r in
    either (nparsed x (run_callbacks base x.events 0 r).1 == n) r _ _ ran
      (then_same r _ _ ran (with_error _ 1))
