-- ===== src/Server/Tests.antt =====
-- Inputs for the theorems on bjoern/server.c, and tests of it.
use bjoern.Chunk.{wrap_http_chunk_cruft_around}
use bjoern.Common.{
  Bytes, ℕ, ◌+◌, ◌≡◌, refl, inr, true, false, none, some, List, [], ◌∷◌, ◌++◌, codes, take, drop,
  arith, inl,
}
use bjoern.Python.{
  yield, stop, bytes_item, Application, starts, start_args, header_list, absent, returns,
  list_value,
}
use bjoern.Request.Parse.{
  HttpParser, Execution, message_begin, path, message_complete, request_parse, callback,
}
use bjoern.Url.{unquote_url_inplace}
use bjoern.Response.{wsgi_call_application, start_response}
use bjoern.Server.Read.{Surroundings, received, ev_io_on_read}
use bjoern.Server.Accept.{accepted}
use bjoern.Server.Left.{left_to_send}
use bjoern.Server.Valid.{IsValid}
use bjoern.Server.Log.{Files, IsServed, logged_while, reads, opened}
use bjoern.Server.Life.{Serves-IsServed}
use bjoern.Server.Closing.{open_iterables, ev_io_on_write_closing}
use bjoern.Server.Continue.{continued, expect_answered}
use bjoern.Server.{continue_message, close_connection}
use bjoern.Server.Write.{hang_up, do_sendfile}
use bjoern.Server.Fresh.{IsFresh}
use bjoern.Request.Parse.{header_field, header_value}
use bjoern.Common.{bytes_eq, strncmp_eq}
use bjoern.Request.{other_iterable}
use bjoern.Server.Steps.{
  Steps, no_step, step_then, read_step, accepted-IsValid, accepted_write_ready,
}
use bjoern.Request.{wrapper, no_chunk}
use bjoern.Server.File.{file_io, IsSendingFile}
use bjoern.Server.FileDelivery.{run_file, file_delivery_ends}
use bjoern.Server.Fresh.{request_new-IsFresh}
use bjoern.Response.Framing.{opened_by}
use bjoern.Request.Parse.{environ_of}
use bjoern.Server.Answer.{IsResponse, rejected_request_answered, complete_request_answered}
use bjoern.Request.{Request, request_new, initial_state, chunk}
use bjoern.Server.{
  http_error_message, Connection, writing, stopped, reading, io_failed, sent, would_block,
}
use bjoern.Server.Write.{Io, ev_io_on_write}
use bjoern.Server.Stream.{is_kept, pending, encode_rest}
use bjoern.Server.Between.{IsStreaming}
use bjoern.Server.Delivery.{run_writes, Delivers, delivery_safe}
use bjoern.Server.Ending.{Finishes, delivery_ends, chances}
use bjoern.Server.Sendfile.{
  Sendfile, freebsd, eintr, io_result, portable_sendfile, MovesOn, do_sendfile_exact,
}
use bjoern.Server.LastResponse.{run_ios, IsLeaving, last_response}
use bjoern.Server.Faults.{write_failed_closes, write_failed_chunked, expect_continue_stops_writing}

-- A chunked response: its head is to be sent, and an iterator yields two more chunks.
abbrev pub streaming : Request
streaming = record (request_new (codes "10.0.0.1")) {
  state = record initial_state {
    start_response_called = true;
    wsgi_call_done = true;
    keep_alive = true;
    chunked_response = true;
  };
  current_chunk = chunk (codes "head");
  current_chunk_p = 1;
  iterator = some (yield (bytes_item (codes "ab")) (yield (bytes_item (codes "c")) stop));
}

abbrev pub connection : Request → Connection
connection r = record {
  request = r;
  watcher = writing;
  wire = [];
  fd_closed = 0;
  iterables_closed = 0;
}

streaming-IsStreaming : IsStreaming streaming
unfolding request_new
streaming-IsStreaming = record {
  current = omega arith;
  plain = tt;
  no_expect = refl;
  live = inr (record { called = refl; answered = refl });
}

abbrev rooms : List ℕ
rooms = 2 ∷ 0 ∷ 100 ∷ []

delivery_safe_example :
    Delivers
      (is_kept streaming)
      ((connection streaming).wire ++ pending streaming)
      0
      (run_writes rooms (connection streaming))
delivery_safe_example = delivery_safe rooms (connection streaming) refl streaming-IsStreaming

abbrev many : List ℕ
many = 9 ∷ 9 ∷ 9 ∷ 9 ∷ 9 ∷ 9 ∷ 9 ∷ 9 ∷ 9 ∷ 9 ∷ 9 ∷ 9 ∷ 9 ∷ 9 ∷ 9 ∷ 9 ∷ 9 ∷ 9 ∷ 9 ∷ 9 ∷ 9 ∷ 9 ∷ []

delivery_ends_example :
    Finishes
      (is_kept streaming)
      ((connection streaming).wire ++ pending streaming)
      0
      (run_writes many (connection streaming))
unfolding pending chances request_new wrap_http_chunk_cruft_around encode_rest
delivery_ends_example =
    delivery_ends many (connection streaming) refl streaming-IsStreaming (omega arith)

abbrev broken_pipe : Io
broken_pipe = record { written = io_failed; seek = none; file_io = would_block; file = [] }

abbrev unchunked : Request
unchunked = record streaming { state = record (streaming.state) { chunked_response = false } }

write_failed_closes_example :
    (c' : Connection) × (ev_io_on_write broken_pipe (connection unchunked) ≡ some c')
    × (c'.watcher ≡ stopped)
    × (c'.fd_closed ≡ 0 + 1)
    × (c'.wire ≡ [])
unfolding request_new
write_failed_closes_example =
    write_failed_closes broken_pipe (connection unchunked) (codes "head") refl (omega arith) refl tt
      refl refl

write_failed_chunked_example : ev_io_on_write broken_pipe (connection streaming) ≡ none
unfolding request_new
write_failed_chunked_example =
    write_failed_chunked broken_pipe (connection streaming) (codes "head") refl (omega arith) refl
      tt refl (omega arith)

abbrev expecting : Request
expecting = record streaming { state = record (streaming.state) { expect_continue = true } }

abbrev two_bytes : Io
two_bytes = record { written = sent 2; seek = none; file_io = would_block; file = [] }

expect_continue_stops_writing_example :
    (c' : Connection) × (ev_io_on_write two_bytes (connection expecting) ≡ some c')
    × (c'.watcher ≡ reading)
    × (c'.fd_closed ≡ 0)
    × (c'.wire ≡ [] ++ take 2 (drop 1 (codes "head")))
    × (c'.request.current_chunk ≡ chunk (codes "head"))
    × (c'.request.current_chunk_p ≡ 1 + 2)
    × (c'.request.state.parse_finished ≡ false)
unfolding request_new
expect_continue_stops_writing_example =
    expect_continue_stops_writing two_bytes (connection expecting) (codes "head") 2 refl
      (omega arith) refl tt refl

abbrev pub http11 : HttpParser
http11 = record { http_major = 1; http_minor = 1; content_length = 0; method = codes "GET" }

abbrev pub no_content : Application
no_content =
    starts (start_args (some (codes "204 No Content")) (header_list []) absent)
      λ success. returns (list_value [])

abbrev pub surroundings : Surroundings
surroundings = record {
  base = [];
  application = λ environ. no_content;
  http = http11;
  keeps = true;
}

abbrev pub new_client : Connection
new_client = accepted (codes "10.0.0.1")

-- `GET / HTTP/1.1`, and bytes that the library stops at.
abbrev pub whole_get : Execution
whole_get = record {
  events = message_begin ∷ path (codes "/") ∷ message_complete http11 ∷ [];
  parsed = 18;
  parsed_at = λ i. 0;
}

abbrev garbage : Execution
garbage = record { events = []; parsed = 1; parsed_at = λ i. 0 }

rejected_request_answered_example :
    let c' = ev_io_on_read surroundings (received 18 garbage) new_client in
    let code = (request_parse [] garbage 18 new_client.request).state.error_code in
    (c'.watcher ≡ writing)
    × IsStreaming c'.request
    × (pending c'.request ≡ http_error_message code)
    × (c'.fd_closed ≡ 0)
unfolding request_new request_parse
rejected_request_answered_example =
    rejected_request_answered surroundings 18 garbage new_client
      (request_new-IsFresh (codes "10.0.0.1")) (λ e. omega arith) refl

complete_request_answered_example :
    let c' = ev_io_on_read surroundings (received 18 whole_get) new_client in
    let r = request_parse [] whole_get 18 new_client.request in
    (c'.watcher ≡ writing)
    × IsStreaming c'.request
    × IsResponse (opened_by (surroundings.application (environ_of r.headers)) r) c'.request
    × (c'.fd_closed ≡ 0)
unfolding request_new request_parse callback unquote_url_inplace ev_io_on_read start_response
    wsgi_call_application
complete_request_answered_example =
    complete_request_answered surroundings 18 whole_get new_client
      (request_new-IsFresh (codes "10.0.0.1")) refl refl refl tt

abbrev pub answering : Connection
answering = ev_io_on_read surroundings (received 18 whole_get) new_client

answering-Steps : Steps new_client answering
unfolding request_new request_parse callback unquote_url_inplace ev_io_on_read start_response
    wsgi_call_application
answering-Steps =
    step_then new_client answering answering
      (read_step surroundings (received 18 whole_get) new_client refl (inl refl))
      (no_step answering)

accepted-IsValid_example : IsValid answering
accepted-IsValid_example = accepted-IsValid (codes "10.0.0.1") answering answering-Steps

answering_writes : answering.watcher ≡ writing
unfolding request_new request_parse callback unquote_url_inplace ev_io_on_read start_response
    wsgi_call_application
answering_writes = refl

answering_quiet : answering.request.state.expect_continue ≡ false
unfolding request_new request_parse callback unquote_url_inplace ev_io_on_read start_response
    wsgi_call_application
answering_quiet = refl

accepted_write_ready_example :
    (c' : Connection) × (ev_io_on_write (file_io 5 [] 0 answering.request) answering ≡ some c')
    × IsValid c'
    × (c'.wire ++ left_to_send [] 0 c' ≡ answering.wire ++ left_to_send [] 0 answering)
accepted_write_ready_example =
    accepted_write_ready (codes "10.0.0.1") answering 5 [] 0 answering-Steps answering_writes
      (inl answering_quiet)

abbrev download : Request
download = record streaming {
  state = record (streaming.state) { chunked_response = false };
  iterable = wrapper (some 7);
  iterator = none;
}

abbrev page : Bytes
page = codes "0123456789"

download-IsSendingFile : IsSendingFile download
unfolding request_new
download-IsSendingFile = record {
  descriptor = (7, refl);
  head_rest = omega arith;
  no_expect = refl;
}

file_delivery_ends_example :
    Finishes true
      (codes "" ++ (codes "ead" ++ codes "456789"))
      0
      (run_file page 4 many (connection download))
unfolding request_new chances
file_delivery_ends_example =
    file_delivery_ends page 4 many (connection download) refl download-IsSendingFile (omega arith)

abbrev no_files : Files
no_files n = ([], 0)

Serves-IsServed_example :
    IsServed no_files (logged_while answering.watcher no_files [] answering) answering
unfolding request_new request_parse callback unquote_url_inplace ev_io_on_read start_response
    wsgi_call_application
Serves-IsServed_example =
    Serves-IsServed no_files (logged_while answering.watcher no_files [] answering) answering (
      reads surroundings (received 18 whole_get) [] new_client (opened (codes "10.0.0.1")) refl
        (inl refl))

abbrev listed : Connection
listed = connection (record unchunked { iterable = other_iterable true })

abbrev cut_off : Connection
cut_off = close_connection (record listed { request = hang_up listed.request })

ev_io_on_write_closing_example :
    cut_off.iterables_closed + open_iterables cut_off ≡ 0 + open_iterables listed
unfolding ev_io_on_write request_new
ev_io_on_write_closing_example = ev_io_on_write_closing broken_pipe listed cut_off refl refl

-- A request that waits for `100 Continue` before its body.
abbrev waiting_post : Execution
waiting_post = record {
  events =
      message_begin
      ∷ path (codes "/")
      ∷ header_field (codes "Expect")
      ∷ header_value http11 (codes "100-continue")
      ∷ [];
  parsed = 40;
  parsed_at = λ i. 0;
}

expect_answered_example :
    let d = ev_io_on_read surroundings (received 40 waiting_post) new_client in
    (e : Connection) × (ev_io_on_write (file_io 100 [] 0 d.request) d ≡ some e)
    × (e.watcher ≡ reading)
    × (e.request ≡ continued d.request)
    × (e.wire ≡ [] ++ continue_message)
    × (e.fd_closed ≡ 0)
    × IsFresh e.request
unfolding request_new request_parse callback unquote_url_inplace ev_io_on_read bytes_eq strncmp_eq
expect_answered_example =
    expect_answered surroundings 40 waiting_post new_client 100 [] 0
      (request_new-IsFresh (codes "10.0.0.1")) refl refl refl (omega arith)

-- In front of a chunk: the client is gone, and takes the terminating chunk all the same.
abbrev chunk_next : Request
chunk_next = record streaming { current_chunk_p = 0 }

abbrev all_failing : Io
all_failing = record { written = io_failed; seek = none; file_io = io_failed; file = [] }

abbrev five_bytes : Io
five_bytes = record { written = sent 5; seek = none; file_io = would_block; file = [] }

abbrev hung_up : Connection
hung_up = close_connection (record (connection chunk_next) {
  request = record chunk_next {
    current_chunk = no_chunk;
    iterator = none;
    state = record (chunk_next.state) { keep_alive = false; chunked_response = false };
  };
  wire = codes "0\r\n\r\n";
})

last_response_example : IsLeaving 0 hung_up
unfolding request_new run_ios ev_io_on_write hang_up
last_response_example =
    last_response all_failing (five_bytes ∷ []) (connection chunk_next) hung_up refl refl
      (inr (refl, refl)) refl

-- A signal comes when four bytes of the page are sent.
abbrev interrupted_call : Sendfile
interrupted_call = record { moved = 4; errno = some eintr }

abbrev in_the_page : Request
in_the_page = record download { current_chunk = no_chunk; current_chunk_p = 3 }

do_sendfile_exact_example :
    MovesOn interrupted_call page in_the_page
      (do_sendfile page (io_result (portable_sendfile freebsd interrupted_call)) in_the_page)
do_sendfile_exact_example = do_sendfile_exact freebsd interrupted_call page in_the_page tt
