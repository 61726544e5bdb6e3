-- ===== src/Request/Environ.antt =====
-- The environment dictionary that bjoern/request.c hands to the application: `wsgi_base_dict` of
-- `_initialize_request_module`, and what `on_message_complete` makes of the request's headers.
use bjoern.Common.{
  ℕ, ◌≡◌, refl, ap, ◌∙◌, subst, true, false, Option, none, some, [], ◌∷◌, Bytes, bytes_eq,
  bytes_eq_iff, arith, codes, if◌then◌else◌, ◌==◌, Bool-cases, Option-cases, inl, inr,
}
use bjoern.Python.{
  Dict, Value, text, stream, version, truth, file_wrapper_type, stderr, rewind, get_item, set_item,
  del_item, update,
}
use bjoern.Request.Parse.{HttpParser, complete_environ, finish_body, replace_key, wsgi_input}

abbrev text_of : Option Bytes → Value
text_of none = text []
text_of (some s) = text s

abbrev server_keys : Option (Bytes × Option Bytes) → Dict
server_keys none = (codes "SERVER_NAME", text []) ∷ (codes "SERVER_PORT", text []) ∷ []
server_keys (some (host, port)) =
    (codes "SERVER_NAME", text host) ∷ (codes "SERVER_PORT", text_of port) ∷ []

-- The host and the port of the listening socket, if it has them; the port may be `None`.
unfoldable pub wsgi_base_dict : Option (Bytes × Option Bytes) → Dict
wsgi_base_dict address =
    (codes "wsgi.file_wrapper", file_wrapper_type)
    ∷ (codes "SCRIPT_NAME", text [])
    ∷ (codes "wsgi.version", version 1 0)
    ∷ (codes "wsgi.input_terminated", truth true)
    ∷ (codes "wsgi.url_scheme", text (codes "http"))
    ∷ (codes "wsgi.errors", stderr)
    ∷ (codes "wsgi.multithread", truth false)
    ∷ (codes "wsgi.multiprocess", truth true)
    ∷ (codes "wsgi.run_once", truth false)
    ∷ server_keys address

pub get_item-set_item :
    (j k : Bytes) (v : Value) (d : Dict)
    → get_item k (set_item j v d) ≡ (if bytes_eq j k then some v else get_item k d)
unfolding get_item set_item
get_item-set_item j k v [] = refl
get_item-set_item j k v ((i, w) ∷ d) =
    ground (arith, bytes_eq_iff i j, bytes_eq_iff i k, bytes_eq_iff j k, get_item-set_item j k v d)

-- No key of the dictionary stands twice.
abbrev pub Distinct : Dict → Type 0
Distinct [] = Unit
Distinct ((k, v) ∷ d) = (get_item k d ≡ none) × Distinct d

abbrev pub or_else : Option Value → Option Value → Option Value
or_else none b = b
or_else (some a) b = some a

pub get_item-update :
    (k : Bytes) (d base : Dict)
    → Distinct base
    → get_item k (update d base) ≡ or_else (get_item k base) (get_item k d)
unfolding update get_item
get_item-update k d [] h = refl
get_item-update k d ((j, v) ∷ base) h =
    get_item-update k (set_item j v d) base h.1 ∙ (elim (Bool-cases (bytes_eq j k)) [
      | inl e ↦
          let same = (bytes_eq_iff j k).0 e in
          let gone : get_item k base ≡ none = subst (λ t. get_item t base ≡ none) same h.0 in
          rw (gone, get_item-set_item j k v d, e) refl
      | inr e ↦ rw (get_item-set_item j k v d, e) refl
    ])

Distinct-wsgi_base_dict :
    (address : Option (Bytes × Option Bytes)) → Distinct (wsgi_base_dict address)
unfolding wsgi_base_dict get_item bytes_eq
Distinct-wsgi_base_dict none =
    (refl, (refl, (refl, (refl, (refl, (refl, (refl, (refl, (refl, (refl, (refl, tt)))))))))))
Distinct-wsgi_base_dict (some (host, port)) =
    (refl, (refl, (refl, (refl, (refl, (refl, (refl, (refl, (refl, (refl, (refl, tt)))))))))))

get_item-del_item :
    (j k : Bytes) (d : Dict) → bytes_eq j k ≡ false → get_item k (del_item j d) ≡ get_item k d
unfolding get_item del_item
get_item-del_item j k [] e = refl
get_item-del_item j k ((i, w) ∷ d) e =
    ground (arith, bytes_eq_iff i j, bytes_eq_iff i k, bytes_eq_iff j k, get_item-del_item j k d e)

module _ (k : Bytes) where
  pub set_other :
      (j : Bytes) (v : Value) (d : Dict)
      → bytes_eq j k ≡ false
      → get_item k (set_item j v d) ≡ get_item k d
  set_other j v d e = rw (get_item-set_item j k v d, e) refl

  pub replace_other :
      (old new : Bytes) (d : Dict)
      → bytes_eq old k ≡ false
      → bytes_eq new k ≡ false
      → get_item k (replace_key old new d) ≡ get_item k d
  unfolding replace_key
  replace_other old new d e f = elim (Option-cases (get_item old d)) [
    | inl none_there ↦ rw (none_there, replace_key) refl
    | inr (v, there) ↦
        rw (there, replace_key) (set_other new v (del_item old d) f ∙ get_item-del_item old k d e)
  ]

  finish_other :
      (d : Dict) → bytes_eq wsgi_input k ≡ false → get_item k (finish_body d) ≡ get_item k d
  finish_other d e = elim (Option-cases (get_item wsgi_input d)) [
    | inl none_there ↦ rw (none_there, finish_body) (set_other wsgi_input (stream [] 0) d e)
    | inr (v, there) ↦ rw (there, finish_body) (set_other wsgi_input (rewind v) d e)
  ]

pub set_same : (k : Bytes) (v : Value) (d : Dict) → get_item k (set_item k v d) ≡ some v
set_same k v d =
    let same : bytes_eq k k ≡ true = (bytes_eq_iff k k).1 refl in
    rw (get_item-set_item k k v d, same) refl

rewound :
    (d : Dict) (s : Bytes) (pos : ℕ)
    → get_item wsgi_input d ≡ some (stream s pos)
    → get_item wsgi_input (finish_body d) ≡ some (stream s 0)
unfolding rewind
rewound d s pos e = rw (e, finish_body) (set_same wsgi_input (stream s 0) d)

-- The headers behind `on_message_complete`, before the base dictionary goes over them.
abbrev pub request_part : HttpParser → Bytes → Dict → Dict
request_part http addr d =
    let d1 = replace_key (codes "HTTP_CONTENT_LENGTH") (codes "CONTENT_LENGTH") d in
    let d2 = replace_key (codes "HTTP_CONTENT_TYPE") (codes "CONTENT_TYPE") d1 in
    let protocol = if http.http_minor == 1 then codes "HTTP/1.1" else codes "HTTP/1.0" in
    let d3 = set_item (codes "SERVER_PROTOCOL") (text protocol) d2 in
    let d4 = set_item (codes "REQUEST_METHOD") (text http.method) d3 in
    set_item (codes "REMOTE_ADDR") (text addr) d4

module _ (http : HttpParser) (addr : Bytes) (address : Option (Bytes × Option Bytes))
    (d : Dict) where
  complete_environ_item :
      (k : Bytes)
      → get_item k (complete_environ http addr (wsgi_base_dict address) d)
        ≡ or_else
            (get_item k (wsgi_base_dict address))
            (get_item k (finish_body (request_part http addr d)))
  unfolding complete_environ
  complete_environ_item k =
      get_item-update k (finish_body (request_part http addr d)) (wsgi_base_dict address)
        (Distinct-wsgi_base_dict address)

  -- a key that the base dictionary lacks, and that is not the body's
  pub request_item :
      (k : Bytes)
      → get_item k (wsgi_base_dict address) ≡ none
      → bytes_eq wsgi_input k ≡ false
      → get_item k (complete_environ http addr (wsgi_base_dict address) d)
        ≡ get_item k (request_part http addr d)
  request_item k lacking other =
      complete_environ_item k
      ∙ ap (λ o. or_else o (get_item k (finish_body (request_part http addr d)))) lacking
      ∙ finish_other k (request_part http addr d) other

lacks :
    (address : Option (Bytes × Option Bytes))
    → (get_item (codes "REMOTE_ADDR") (wsgi_base_dict address) ≡ none)
      × (get_item (codes "REQUEST_METHOD") (wsgi_base_dict address) ≡ none)
      × (get_item (codes "SERVER_PROTOCOL") (wsgi_base_dict address) ≡ none)
      × (get_item wsgi_input (wsgi_base_dict address) ≡ none)
unfolding get_item bytes_eq wsgi_base_dict
lacks none = (refl, refl, refl, refl)
lacks (some (host, port)) = (refl, refl, refl, refl)

-- When a message is complete, each key of the server's base dictionary has the server's value,
-- whatever headers the client sent.
pub complete_environ-base :
    (http : HttpParser) (addr : Bytes) (address : Option (Bytes × Option Bytes)) (d : Dict)
    (k : Bytes) (v : Value)
    → get_item k (wsgi_base_dict address) ≡ some v
    → get_item k (complete_environ http addr (wsgi_base_dict address) d) ≡ some v
complete_environ-base http addr address d k v e =
    complete_environ_item http addr address d k
    ∙ ap (λ o. or_else o (get_item k (finish_body (request_part http addr d)))) e

-- When a message is complete, `REMOTE_ADDR` is the client's address, `REQUEST_METHOD` the method,
-- and `SERVER_PROTOCOL` is `HTTP/1.1` for a minor version of 1 and `HTTP/1.0` for any other,
-- whatever headers the client sent.
pub complete_environ-request :
    (http : HttpParser) (addr : Bytes) (address : Option (Bytes × Option Bytes)) (d : Dict)
    → let e = complete_environ http addr (wsgi_base_dict address) d in
      (get_item (codes "REMOTE_ADDR") e ≡ some (text addr))
      × (get_item (codes "REQUEST_METHOD") e ≡ some (text http.method))
      × (get_item (codes "SERVER_PROTOCOL") e
          ≡ some (text (if http.http_minor == 1 then codes "HTTP/1.1" else codes "HTTP/1.0")))
unfolding bytes_eq
complete_environ-request http addr address d =
    let base = lacks address in
    let item = request_item http addr address d in
    (
      item (codes "REMOTE_ADDR") base.0 refl ∙ set_same (codes "REMOTE_ADDR") (text addr) _,
      item (codes "REQUEST_METHOD") base.1 refl
          ∙ set_other (codes "REQUEST_METHOD") (codes "REMOTE_ADDR") (text addr) _ refl
          ∙ set_same (codes "REQUEST_METHOD") (text http.method) _,
      item (codes "SERVER_PROTOCOL") base.2 refl
          ∙ set_other (codes "SERVER_PROTOCOL") (codes "REMOTE_ADDR") (text addr) _ refl
          ∙ set_other (codes "SERVER_PROTOCOL") (codes "REQUEST_METHOD") (text http.method) _ refl
          ∙ set_same (codes "SERVER_PROTOCOL") _ _,
    )

input_kept :
    (http : HttpParser) (addr : Bytes) (d : Dict)
    → get_item wsgi_input (request_part http addr d) ≡ get_item wsgi_input d
unfolding bytes_eq
input_kept http addr d =
    let other = set_other wsgi_input in
    other (codes "REMOTE_ADDR") (text addr) _ refl
    ∙ other (codes "REQUEST_METHOD") (text http.method) _ refl
    ∙ other (codes "SERVER_PROTOCOL") _ _ refl
    ∙ replace_other wsgi_input (codes "HTTP_CONTENT_TYPE") (codes "CONTENT_TYPE") _ refl refl
    ∙ replace_other wsgi_input (codes "HTTP_CONTENT_LENGTH") (codes "CONTENT_LENGTH") d refl refl

-- A body that was received is in the dictionary when the message is complete: all of it, with the
-- stream at its beginning.
pub complete_environ-body :
    (http : HttpParser) (addr : Bytes) (address : Option (Bytes × Option Bytes)) (d : Dict)
    (s : Bytes) (pos : ℕ)
    → get_item wsgi_input d ≡ some (stream s pos)
    → get_item wsgi_input (complete_environ http addr (wsgi_base_dict address) d)
      ≡ some (stream s 0)
unfolding bytes_eq
complete_environ-body http addr address d s pos e =
    complete_environ_item http addr address d wsgi_input
    ∙ ap (λ o. or_else o (get_item wsgi_input (finish_body (request_part http addr d))))
        (lacks address).3
    ∙ rewound (request_part http addr d) s pos (input_kept http addr d ∙ e)

-- Without a body it is empty.
pub complete_environ_no_body :
    (http : HttpParser) (addr : Bytes) (address : Option (Bytes × Option Bytes)) (d : Dict)
    → get_item wsgi_input d ≡ none
    → get_item wsgi_input (complete_environ http addr (wsgi_base_dict address) d)
      ≡ some (stream [] 0)
complete_environ_no_body http addr address d e =
    let part = input_kept http addr d ∙ e in
    complete_environ_item http addr address d wsgi_input
    ∙ ap (λ o. or_else o (get_item wsgi_input (finish_body (request_part http addr d))))
        (lacks address).3
    ∙ rw (part, finish_body) (set_same wsgi_input (stream [] 0) (request_part http addr d))
