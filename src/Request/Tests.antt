-- ===== src/Request/Tests.antt =====
-- Inputs for the theorems on the callbacks of bjoern/request.c, and tests of them.
use mathlib.Core.List.{flatten}
use bjoern.Url.{unquote_url_inplace, unhex}
use bjoern.Common.{List, map, ◌≡◌, refl, true, Option, some, [], ◌∷◌, Bytes, codes, bytes_eq, arith}
use bjoern.Python.{Dict, text, stream, get_item, update, write_stream, rewind, set_item}
use bjoern.Request.{Request, environ, request_new}
use bjoern.Request.Parse.{
  run_asserts, HttpParser, Execution, message_begin, path, header_field, header_value, body,
  message_complete, request_parse, complete_environ, wsgi_input, callback, set_or_append_header,
}
use bjoern.Common.{none}
use bjoern.Request.{initial_state}
use bjoern.Request.Parse.{run_callbacks, environ_of}
use bjoern.Request.Body.{bytes_of}
use bjoern.Request.Header.{deliver_name, deliver_value, store_header, deliver_header}
use bjoern.Request.Message.{Message, message_events, whole_header}
use bjoern.Request.Received.{HasMessage}
use bjoern.Request.Events.{Decodes, no_piece, piece_then}
use bjoern.Request.Whole.{message_received}
use bjoern.Url.Decode.{decode}
use bjoern.Request.Environ.{wsgi_base_dict, complete_environ-base}

abbrev http11 : HttpParser
http11 = record { http_major = 1; http_minor = 1; content_length = 3; method = codes "POST" }

abbrev begun : Request
begun = record (request_new (codes "10.0.0.1")) { headers = environ [] }

deliver_header_example :
    (deliver_value http11
      (codes "text/" ∷ codes "plain" ∷ [])
      (deliver_name (codes "Acc" ∷ codes "ept" ∷ []) begun)).headers
    ≡ environ (
        store_header
          (flatten (codes "Acc" ∷ codes "ept" ∷ []))
          (flatten (codes "text/" ∷ codes "plain" ∷ []))
          [])
unfolding request_new
deliver_header_example =
    deliver_header http11 (codes "Acc") (codes "text/") (codes "ept" ∷ []) (codes "plain" ∷ []) []
      begun refl refl

stored_whole :
    store_header (codes "Accept-Language") (codes "de") []
    ≡ (codes "HTTP_ACCEPT_LANGUAGE", text (codes "de")) ∷ []
unfolding set_or_append_header get_item set_item
stored_whole = refl

abbrev local : Option (Bytes × Option Bytes)
local = some (codes "localhost", some (codes "8080"))

abbrev spoofed : Dict
spoofed =
    (codes "wsgi.url_scheme", text (codes "https"))
    ∷ (codes "REMOTE_ADDR", text (codes "127.0.0.1"))
    ∷ (wsgi_input, stream (codes "abc") 3)
    ∷ []

complete_environ-base_example :
    get_item
      (codes "wsgi.url_scheme")
      (complete_environ http11 (codes "10.0.0.1") (wsgi_base_dict local) spoofed)
    ≡ some (text (codes "http"))
unfolding wsgi_base_dict get_item bytes_eq
complete_environ-base_example =
    complete_environ-base http11 (codes "10.0.0.1") local spoofed (codes "wsgi.url_scheme")
      (text (codes "http")) refl

-- A whole request: its state and its dictionary.
abbrev posted : Execution
posted = record {
  events =
      message_begin
      ∷ path (codes "/a%20b")
      ∷ header_field (codes "Host")
      ∷ header_value http11 (codes "x")
      ∷ body http11 (codes "abc")
      ∷ message_complete http11
      ∷ [];
  parsed = 60;
  parsed_at = λ i. 0;
}

post_parsed :
    (request_parse
      (wsgi_base_dict local)
      posted
      60
      (request_new (codes "10.0.0.1"))).state.parse_finished
    ≡ true
unfolding request_parse callback request_new unquote_url_inplace unhex get_item set_item update
    bytes_eq write_stream rewind wsgi_base_dict
post_parsed = refl

-- A request that waits for `100 Continue`.
abbrev waiting : Request
waiting = record begun { state = record initial_state { expect_continue = true } }

-- A request of which every part but its name is in two pieces.
abbrev split : Message
split = record {
  paths = codes "/a" ∷ codes "%20b" ∷ [];
  queries = codes "x=" ∷ codes "1" ∷ [];
  headers =
      record {
        name = codes "Ho";
        names = codes "st" ∷ [];
        value = codes "ex";
        values = codes "ample" ∷ [];
      }
      ∷ record { name = codes "X_Forged"; names = []; value = codes "1"; values = [] }
      ∷ [];
  bodies = (http11, codes "ab") ∷ (record http11 { content_length = 1 }, codes "c") ∷ [];
  http = http11;
}

abbrev split_paths : List Bytes
split_paths = codes "/a" ∷ codes " b" ∷ []

split_Decodes : Decodes split.paths split_paths
unfolding decode unhex
split_Decodes =
    piece_then (codes "/a") (codes "/a") _ _ refl (omega arith)
      (piece_then (codes "%20b") (codes " b") _ _ refl (omega arith) no_piece)

message_received_example :
    let (r', failed) =
      run_callbacks
        (wsgi_base_dict local)
        (message_events split)
        0
        (request_new (codes "10.0.0.1")) in
    (run_asserts (wsgi_base_dict local) (message_events split) (request_new (codes "10.0.0.1"))
      ≡ true)
    × (failed ≡ none)
    × (r'.state.parse_finished ≡ true)
    × (decode (flatten split.paths) ≡ some (flatten split_paths))
    × HasMessage split_paths split.queries
        (bytes_of split.bodies)
        (map whole_header split.headers)
        http11
        (codes "10.0.0.1")
        (environ_of r'.headers)
unfolding request_new
message_received_example =
    message_received split split_paths local (request_new (codes "10.0.0.1")) refl refl
      split_Decodes (λ e. omega arith)
