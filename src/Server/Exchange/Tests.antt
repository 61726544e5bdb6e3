-- ===== src/Server/Exchange/Tests.antt =====
-- A request and a response for the theorem on whole exchanges.
use mathlib.Core.List.{flatten}
use bjoern.Common.{
  ap, All, strncmp_eq, ℕ, zero, suc, ◌≡◌, refl, true, Option, some, none, List, [], ◌∷◌, ◌++◌, map,
  Bytes, codes, arith, take, drop,
}
use bjoern.Python.{Dict, Value, text, Application, list_value, bytes_item, get_item}
use bjoern.Url.{unhex}
use bjoern.Url.Decode.{decode}
use bjoern.Request.Parse.{field_processed, HttpParser, Event, Execution}
use bjoern.Request.{request_new}
use bjoern.Request.Message.{Message, message_events}
use bjoern.Request.Events.{Decodes, no_piece, piece_then}
use bjoern.Request.Environ.{wsgi_base_dict}
use bjoern.Response.{response_head}
use bjoern.Response.Body.{is_chunked}
use bjoern.Response.Carrying.{responder, as_list}
use bjoern.Server.Arrival.{Arrives, nothing_yet, not_there, more_read}
use bjoern.Server.Fresh.{request_new-IsReady}
use bjoern.Server.Read.{Surroundings, received, read_would_block, ev_io_on_read}
use bjoern.Server.Ending.{Finishes, chances}
use bjoern.Server.Delivery.{run_writes}
use bjoern.Server.Reply.{ReadsBody}
use bjoern.Server.{Connection}
use bjoern.Request.Parts.{IsQuiet}
use bjoern.Server.Stream.{encode}
use bjoern.Chunk.{wrap_http_chunk_cruft_around}
use bjoern.Server.Tests.{new_client}
use bjoern.Server.Exchange.{Presents, exchange}
use bjoern.Server.Answering.{response_of}
use bjoern.Server.Session.{Turn, IsTurn, IsWaiting, response_to, take_turns, turns_answered}

abbrev put : HttpParser
put = record { http_major = 1; http_minor = 1; content_length = 3; method = codes "PUT" }

-- A request with a body.
abbrev put_request : Message
put_request = record {
  paths = codes "/a%20b" ∷ [];
  queries = codes "x=1" ∷ [];
  headers = record { name = codes "Host"; names = []; value = codes "h"; values = [] } ∷ [];
  bodies = (put, codes "ab") ∷ (record put { content_length = 1 }, codes "c") ∷ [];
  http = put;
}

abbrev first_events : List Event
first_events = take 4 (message_events put_request)

abbrev first_read : Execution
first_read = record { events = first_events; parsed = 30; parsed_at = λ i. 0 }

abbrev second_read : Execution
second_read = record {
  events = drop 4 (message_events put_request);
  parsed = 20;
  parsed_at = λ i. 0;
}

abbrev results : List Bytes
results = codes "x" ∷ [] ∷ codes "/a b" ∷ []

-- An application that sends its path back.
abbrev echo : Option Value → Application
echo (some (text s)) =
    responder (codes "200 OK") [] (list_value (map bytes_item (codes "x" ∷ [] ∷ s ∷ [])))
echo _ = responder (codes "404 Not Found") [] (list_value [])

abbrev env : Surroundings
env = record {
  base = wsgi_base_dict none;
  application = λ e. echo (get_item (codes "PATH_INFO") e);
  http = put;
  keeps = true;
}

abbrev halfway : Connection
halfway = ev_io_on_read env (received 30 first_read) (ev_io_on_read env read_would_block new_client)

halfway-Arrives : Arrives env new_client first_events halfway
halfway-Arrives = more_read 30 first_read [] _ (not_there [] new_client nothing_yet) refl

put_request_Decodes : Decodes put_request.paths (codes "/a b" ∷ [])
unfolding decode unhex
put_request_Decodes = piece_then (codes "/a%20b") (codes "/a b") [] [] refl (omega arith) no_piece

put_request-IsQuiet : All IsQuiet put_request.headers
unfolding field_processed flatten
put_request-IsQuiet = ((λ e. let e' : some (codes "HOST") ≡ some (codes "EXPECT") = e in cc), tt)

abbrev many : ℕ → List ℕ
many zero = []
many (suc n) = 9 ∷ many n

abbrev rooms : List ℕ
rooms = many 200

abbrev chunks_with : Bytes → List Bytes
chunks_with path = codes "x" ∷ [] ∷ path ∷ []

put_request_echoed :
    (e : Dict)
    → Presents put_request (codes "/a b" ∷ []) (codes "10.0.0.1") e
    → echo (get_item (codes "PATH_INFO") e)
      ≡ responder (codes "200 OK") [] (list_value (map bytes_item results))
unfolding flatten
put_request_echoed e presents = ap echo presents.path_info

exchange_example :
    Finishes true
      (new_client.wire ++ response_of put true (codes "200 OK") [] results)
      0
      (run_writes rooms (ev_io_on_read env (received 20 second_read) halfway))
    × ReadsBody (is_chunked put true (codes "200 OK") []) results (codes "HTTP")
unfolding chances response_head strncmp_eq encode wrap_http_chunk_cruft_around request_new
exchange_example =
    exchange env none put_request (codes "/a b" ∷ []) first_events 20 second_read new_client halfway
      (codes "200 OK") [] (list_value (map bytes_item results)) results rooms (codes "HTTP")
      (request_new-IsReady (codes "10.0.0.1")) refl halfway-Arrives refl (λ e. cc) refl
      put_request_Decodes (λ e. omega arith) put_request-IsQuiet put_request_echoed (omega arith)
      (as_list results) (omega arith, (omega arith, (omega arith, tt))) (omega arith)

-- Behind it another request, which arrives at once.
abbrev get : HttpParser
get = record { http_major = 1; http_minor = 1; content_length = 0; method = codes "GET" }

abbrev get_request : Message
get_request = record {
  paths = codes "/q" ∷ [];
  queries = [];
  headers = [];
  bodies = [];
  http = get;
}

abbrev put_turn : Turn
put_turn = record {
  message = put_request;
  outs = codes "/a b" ∷ [];
  reads = none ∷ some first_read ∷ [];
  last = second_read;
  http = put;
  keeps = true;
  status = codes "200 OK";
  fields = [];
  value = list_value (map bytes_item results);
  sent_chunks = results;
  rooms = rooms;
}

abbrev get_turn : Turn
get_turn = record {
  message = get_request;
  outs = codes "/q" ∷ [];
  reads = [];
  last = record { events = message_events get_request; parsed = 9; parsed_at = λ i. 0 };
  http = get;
  keeps = true;
  status = codes "200 OK";
  fields = [];
  value = list_value (map bytes_item (chunks_with (codes "/q")));
  sent_chunks = chunks_with (codes "/q");
  rooms = rooms;
}

abbrev echo_path : Dict → Application
echo_path e = echo (get_item (codes "PATH_INFO") e)

put_turn-IsTurn : IsTurn echo_path put_turn
unfolding chances response_head strncmp_eq encode wrap_http_chunk_cruft_around flatten
put_turn-IsTurn = record {
  whole = refl;
  some_left = λ e. cc;
  finds = (tt, (omega arith, tt));
  last_finds = omega arith;
  decodes = put_request_Decodes;
  known = λ e. omega arith;
  quiet = put_request-IsQuiet;
  answers = λ addr e presents. ap echo presents.path_info;
  long = omega arith;
  carries = as_list results;
  short = (omega arith, (omega arith, (omega arith, tt)));
  enough = omega arith;
  kept = refl;
}

get_turn-IsTurn : IsTurn echo_path get_turn
unfolding chances response_head strncmp_eq encode wrap_http_chunk_cruft_around flatten decode unhex
get_turn-IsTurn = record {
  whole = refl;
  some_left = λ e. cc;
  finds = tt;
  last_finds = omega arith;
  decodes = piece_then (codes "/q") (codes "/q") [] [] refl (omega arith) no_piece;
  known = tt;
  quiet = tt;
  answers = λ addr e presents. ap echo presents.path_info;
  long = omega arith;
  carries = as_list (chunks_with (codes "/q"));
  short = (omega arith, (omega arith, (omega arith, tt)));
  enough = omega arith;
  kept = refl;
}

abbrev both_turns : List Turn
both_turns = put_turn ∷ get_turn ∷ []

turns_answered_example :
    (d : Connection) × (take_turns (wsgi_base_dict none) echo_path both_turns new_client ≡ some d)
    × IsWaiting ([] ++ flatten (map response_to both_turns)) 0 d
turns_answered_example =
    turns_answered none echo_path both_turns new_client refl
      (request_new-IsReady (codes "10.0.0.1")) (put_turn-IsTurn, (get_turn-IsTurn, tt))
