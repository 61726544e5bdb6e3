-- ===== src/Response/Tests.antt =====
-- Inputs for the theorems on bjoern/wsgi.c, and tests of it.
use bjoern.Chunk.{wrap_http_chunk_cruft_around}
use bjoern.Common.{◌+◌, ◌≤◌, ◌≡◌, refl, true, false, some, [], ◌∷◌, codes, length, strncmp_eq}
use bjoern.Python.{
  pair, header_list, absent, StartArgs, start_args, Application, starts, returns, bytes_value,
}
use bjoern.Request.{Request, request_new, chunk}
use bjoern.Request.Parse.{HttpParser}
use bjoern.Response.{
  Fields, start_response, response_head, length_upperbound, clean_headers, wsgi_call_application,
  wrap_http_chunk_cruft_around, all_pairs, encode_fields,
}
use bjoern.Response.Start.{IsLive, SameStream, start_response_late}
use bjoern.Response.Head.{response_head_fits, clean_headers_prefix}
use bjoern.Response.Framing.{opened_by, IsResult, wsgi_call_application-IsResult}

abbrev http11 : HttpParser
http11 = record { http_major = 1; http_minor = 1; content_length = 0; method = codes "GET" }

abbrev ok_args : StartArgs
ok_args = start_args (some (codes "200 OK")) (header_list []) absent

abbrev hello : Application
hello = starts ok_args λ success. returns (bytes_value (codes "hi"))

abbrev fresh : Request
fresh = request_new (codes "10.0.0.1")

hello_answered :
    (wsgi_call_application http11 true hello fresh).0.current_chunk
    ≡ chunk (
        codes
          "HTTP/1.1 200 OK\r\nConnection: Keep-Alive\r\nTransfer-Encoding: chunked\r\n\r\n2\r\nhi\r\n")
unfolding wsgi_call_application request_new start_response wrap_http_chunk_cruft_around strncmp_eq
hello_answered = refl

wsgi_call_application-IsResult_example :
    IsResult http11 true (opened_by hello fresh) (wsgi_call_application http11 true hello fresh)
unfolding request_new
wsgi_call_application-IsResult_example =
    wsgi_call_application-IsResult http11 true hello fresh refl refl refl refl

abbrev answered : Request
answered = record fresh {
  state = record (fresh.state) { start_response_called = true; wsgi_call_done = true };
}

start_response_late_example :
    let (r', success) = start_response answered ok_args in
    (success ≡ false) × IsLive r' × SameStream answered r'
start_response_late_example =
    start_response_late answered ok_args (record { called = refl; answered = refl })

abbrev some_fields : Fields
some_fields = (codes "Content-Type", codes "text/plain") ∷ []

response_head_fits_example :
    (length (response_head (codes "200 OK") some_fields true true)
      ≤ length_upperbound (codes "200 OK") some_fields)
    × (length_upperbound (codes "200 OK") some_fields
        ≤ length (response_head (codes "200 OK") some_fields true true) + 33)
response_head_fits_example = response_head_fits (codes "200 OK") some_fields true true

clean_headers_prefix_example :
    (fields : Fields) × (clean_headers
        (header_list (pair (some (codes "content")) (some (codes "x")) ∷ []))
      ≡ some ((codes "content", codes "x") ∷ fields, true))
unfolding all_pairs encode_fields
clean_headers_prefix_example =
    clean_headers_prefix (codes "content") (codes "x") (codes "-length") [] refl refl (λ e. cc)
