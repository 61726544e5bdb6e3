-- ===== src/Request/Received.antt =====
-- The environment that the application gets for a whole request in bjoern/request.c, by its keys.
use mathlib.Core.List.{flatten}
use bjoern.Common.{
  ◌⊎◌, ◌++◌, ◌==◌, ◌≡◌, refl, ◌∙◌, ap, false, Option, none, some, List, [], ◌∷◌, Bytes, codes,
  bytes_eq, if◌then◌else◌, Bool-cases, inl, inr, sym, bytes_eq_iff,
}
use bjoern.Python.{Dict, text, get_item, stream}
use bjoern.Request.Parse.{HttpParser, replace_key, http_prefix, wsgi_input, complete_environ}
use bjoern.Request.Environ.{
  complete_environ-body, complete_environ_no_body, complete_environ-request, set_same,
  wsgi_base_dict, replace_other, request_item,
}
use bjoern.Request.Body.{with_body}
use bjoern.Request.Lookup.{
  joined_value, stored_headers, values_of, stored_headers_other, get_item-stored_headers,
}
use bjoern.Request.Keys.{
  url_path, url_query, url_other, set_part, whole_of, text_value, url_dict, joined_none,
  replaced_new, body_dict, body_other,
}

-- The headers that are under another key.
abbrev pub IsMoved : Bytes → Type 0
IsMoved n = (n ≡ codes "CONTENT_LENGTH") ⊎ (n ≡ codes "CONTENT_TYPE")

-- What the application finds in its environment: the decoded path, the query, the body from its
-- beginning, the length and the type that the headers give, the client, the method and the
-- protocol, and any other header under its name.
pub record HasMessage (outs queries bodies : List Bytes) (headers : List (Bytes × Bytes))
    (http : HttpParser) (addr : Bytes) (e : Dict) : Type 0 where
  pub path_info : get_item (codes "PATH_INFO") e ≡ text_value (whole_of outs)
  pub query : get_item (codes "QUERY_STRING") e ≡ text_value (whole_of queries)
  pub input : get_item wsgi_input e ≡ some (stream (flatten bodies) 0)
  pub content_length :
      get_item (codes "CONTENT_LENGTH") e ≡ text_value (values_of (codes "CONTENT_LENGTH") headers)
  pub content_type :
      get_item (codes "CONTENT_TYPE") e ≡ text_value (values_of (codes "CONTENT_TYPE") headers)
  pub remote_addr : get_item (codes "REMOTE_ADDR") e ≡ some (text addr)
  pub request_method : get_item (codes "REQUEST_METHOD") e ≡ some (text http.method)
  pub server_protocol :
      get_item (codes "SERVER_PROTOCOL") e
      ≡ some (text (if http.http_minor == 1 then codes "HTTP/1.1" else codes "HTTP/1.0"))
  pub header :
      (n : Bytes) → IsMoved n ⊎ (get_item (http_prefix ++ n) e ≡ text_value (values_of n headers))

-- Keys that the base dictionary lacks.
lacks_header :
    (address : Option (Bytes × Option Bytes)) (n : Bytes)
    → get_item (http_prefix ++ n) (wsgi_base_dict address) ≡ none
unfolding get_item bytes_eq wsgi_base_dict
lacks_header none n = refl
lacks_header (some (host, port)) n = refl

lacks_url :
    (address : Option (Bytes × Option Bytes))
    → (get_item (codes "PATH_INFO") (wsgi_base_dict address) ≡ none)
      × (get_item (codes "QUERY_STRING") (wsgi_base_dict address) ≡ none)
      × (get_item (codes "CONTENT_LENGTH") (wsgi_base_dict address) ≡ none)
      × (get_item (codes "CONTENT_TYPE") (wsgi_base_dict address) ≡ none)
unfolding get_item bytes_eq wsgi_base_dict
lacks_url none = (refl, refl, refl, refl)
lacks_url (some (host, port)) = (refl, refl, refl, refl)

pub no_body_yet :
    (outs queries : List Bytes) (headers : List (Bytes × Bytes))
    → get_item wsgi_input (stored_headers headers (url_dict outs queries)) ≡ none
unfolding bytes_eq
no_body_yet outs queries headers =
    stored_headers_other b'w' (codes "sgi.input") headers _ refl
    ∙ url_other outs queries wsgi_input refl refl

input_of :
    (http : HttpParser) (addr : Bytes) (address : Option (Bytes × Option Bytes))
    (bodies : List Bytes) (d : Dict)
    → get_item wsgi_input d ≡ none
    → get_item wsgi_input (complete_environ http addr (wsgi_base_dict address) (body_dict bodies d))
      ≡ some (stream (flatten bodies) 0)
unfolding flatten
input_of http addr address [] d absent = complete_environ_no_body http addr address d absent
input_of http addr address (piece ∷ pieces) d absent =
    let whole = flatten (piece ∷ pieces) in
    complete_environ-body http addr address (with_body whole d) whole _ (set_same wsgi_input _ d)

module _ (outs queries bodies : List Bytes) (headers : List (Bytes × Bytes)) (http : HttpParser)
    (addr : Bytes) (address : Option (Bytes × Option Bytes)) where
  abbrev before : Dict
  before = body_dict bodies (stored_headers headers (url_dict outs queries))

  abbrev made : Dict
  made = complete_environ http addr (wsgi_base_dict address) before

  -- A key that only the headers or the URL can hold.
  plain_key :
      (k : Bytes)
      → get_item k (wsgi_base_dict address) ≡ none
      → bytes_eq wsgi_input k ≡ false
      → bytes_eq (codes "REMOTE_ADDR") k ≡ false
      → bytes_eq (codes "REQUEST_METHOD") k ≡ false
      → bytes_eq (codes "SERVER_PROTOCOL") k ≡ false
      → get_item k made
        ≡ get_item k (
            replace_key
              (codes "HTTP_CONTENT_TYPE")
              (codes "CONTENT_TYPE")
              (replace_key (codes "HTTP_CONTENT_LENGTH") (codes "CONTENT_LENGTH") before))
  plain_key k lacking input a m p =
      request_item http addr address before k lacking input ∙ set_part http addr before k a m p

  url_key :
      (k : Bytes)
      → get_item k (wsgi_base_dict address) ≡ none
      → bytes_eq wsgi_input k ≡ false
      → bytes_eq (codes "REMOTE_ADDR") k ≡ false
      → bytes_eq (codes "REQUEST_METHOD") k ≡ false
      → bytes_eq (codes "SERVER_PROTOCOL") k ≡ false
      → (bytes_eq (codes "HTTP_CONTENT_LENGTH") k ≡ false)
        × (bytes_eq (codes "CONTENT_LENGTH") k ≡ false)
      → (bytes_eq (codes "HTTP_CONTENT_TYPE") k ≡ false)
        × (bytes_eq (codes "CONTENT_TYPE") k ≡ false)
      → get_item k made ≡ get_item k (stored_headers headers (url_dict outs queries))
  url_key k lacking input a m p cl ct =
      plain_key k lacking input a m p
      ∙ replace_other k (codes "HTTP_CONTENT_TYPE") (codes "CONTENT_TYPE") _ ct.0 ct.1
      ∙ replace_other k (codes "HTTP_CONTENT_LENGTH") (codes "CONTENT_LENGTH") before cl.0 cl.1
      ∙ body_other k bodies _ input

  -- A header's value, in front of the end of the message.
  header_before :
      (n : Bytes) → get_item (http_prefix ++ n) before ≡ text_value (values_of n headers)
  unfolding bytes_eq
  header_before n =
      body_other (http_prefix ++ n) bodies _ refl
      ∙ get_item-stored_headers n headers (url_dict outs queries)
      ∙ ap (λ v. joined_value v (values_of n headers))
          (url_other outs queries (http_prefix ++ n) refl refl)
      ∙ joined_none (values_of n headers)

  no_plain : (k : Bytes) → get_item (b'C' ∷ k) before ≡ none
  unfolding bytes_eq
  no_plain k =
      body_other (b'C' ∷ k) bodies _ refl
      ∙ stored_headers_other b'C' k headers _ refl
      ∙ url_other outs queries (b'C' ∷ k) refl refl

  made_path : get_item (codes "PATH_INFO") made ≡ text_value (whole_of outs)
  unfolding bytes_eq
  made_path =
      url_key (codes "PATH_INFO") (lacks_url address).0 refl refl refl refl (refl, refl)
        (refl, refl)
      ∙ stored_headers_other b'P' (codes "ATH_INFO") headers _ refl
      ∙ url_path outs queries

  made_query : get_item (codes "QUERY_STRING") made ≡ text_value (whole_of queries)
  unfolding bytes_eq
  made_query =
      url_key (codes "QUERY_STRING") (lacks_url address).1 refl refl refl refl (refl, refl)
        (refl, refl)
      ∙ stored_headers_other b'Q' (codes "UERY_STRING") headers _ refl
      ∙ url_query outs queries

  made_length :
      get_item (codes "CONTENT_LENGTH") made
      ≡ text_value (values_of (codes "CONTENT_LENGTH") headers)
  unfolding bytes_eq
  made_length =
      plain_key (codes "CONTENT_LENGTH") (lacks_url address).2 refl refl refl refl
      ∙ replace_other (codes "CONTENT_LENGTH") (codes "HTTP_CONTENT_TYPE") (codes "CONTENT_TYPE") _
          refl refl
      ∙ replaced_new (codes "HTTP_CONTENT_LENGTH") (codes "CONTENT_LENGTH") before
          (no_plain (codes "ONTENT_LENGTH"))
      ∙ header_before (codes "CONTENT_LENGTH")

  made_type :
      get_item (codes "CONTENT_TYPE") made ≡ text_value (values_of (codes "CONTENT_TYPE") headers)
  unfolding bytes_eq
  made_type =
      plain_key (codes "CONTENT_TYPE") (lacks_url address).3 refl refl refl refl
      ∙ replaced_new (codes "HTTP_CONTENT_TYPE") (codes "CONTENT_TYPE") _ (
          replace_other (codes "CONTENT_TYPE") (codes "HTTP_CONTENT_LENGTH")
            (codes "CONTENT_LENGTH") before refl refl
          ∙ no_plain (codes "ONTENT_TYPE"))
      ∙ replace_other (codes "HTTP_CONTENT_TYPE") (codes "HTTP_CONTENT_LENGTH")
          (codes "CONTENT_LENGTH") before refl refl
      ∙ header_before (codes "CONTENT_TYPE")

  made_header :
      (n : Bytes)
      → bytes_eq (codes "CONTENT_LENGTH") n ≡ false
      → bytes_eq (codes "CONTENT_TYPE") n ≡ false
      → get_item (http_prefix ++ n) made ≡ text_value (values_of n headers)
  unfolding bytes_eq
  made_header n no_length no_type =
      url_key (http_prefix ++ n) (lacks_header address n) refl refl refl refl (no_length, refl)
        (no_type, refl)
      ∙ sym (body_other (http_prefix ++ n) bodies _ refl)
      ∙ header_before n

  made_input : get_item wsgi_input made ≡ some (stream (flatten bodies) 0)
  unfolding bytes_eq
  made_input =
      input_of http addr address bodies (stored_headers headers (url_dict outs queries))
        (no_body_yet outs queries headers)

  any_header :
      (n : Bytes)
      → IsMoved n ⊎ (get_item (http_prefix ++ n) made ≡ text_value (values_of n headers))
  any_header n = elim (Bool-cases (bytes_eq (codes "CONTENT_LENGTH") n)) [
    | inl e ↦ inl (inl (sym ((bytes_eq_iff (codes "CONTENT_LENGTH") n).0 e)))
    | inr e ↦ elim (Bool-cases (bytes_eq (codes "CONTENT_TYPE") n)) [
      | inl f ↦ inl (inr (sym ((bytes_eq_iff (codes "CONTENT_TYPE") n).0 f)))
      | inr f ↦ inr (made_header n e f)
    ]
  ]

  pub complete_environ-HasMessage : HasMessage outs queries bodies headers http addr made
  complete_environ-HasMessage =
      let (client, method, protocol) = complete_environ-request http addr address before in
      record {
        path_info = made_path;
        query = made_query;
        input = made_input;
        content_length = made_length;
        content_type = made_type;
        remote_addr = client;
        request_method = method;
        server_protocol = protocol;
        header = any_header;
      }
