-- ===== src/Request/Keys.antt =====
-- The keys of the environment of bjoern/request.c: which of them each part of a request is under.
use mathlib.Core.List.{flatten}
use bjoern.Common.{
  ◌≡◌, refl, ◌∙◌, ap, false, Option, none, some, List, [], ◌∷◌, Bytes, codes, bytes_eq,
  if◌then◌else◌, Bool-cases, Option-cases, inl, inr,
}
use bjoern.Python.{Dict, Value, text, get_item, del_item}
use bjoern.Request.Parse.{HttpParser, replace_key, wsgi_input}
use bjoern.Request.Environ.{set_other, set_same, request_part}
use bjoern.Request.Body.{with_body}
use bjoern.Request.Events.{store_pieces, store_pieces_lem}
use bjoern.Request.Lookup.{joined_value, get_item-set_or_append_header}

-- Pieces put together; `none` where there are none.
abbrev pub whole_of : List Bytes → Option Bytes
whole_of [] = none
whole_of (piece ∷ pieces) = some (flatten (piece ∷ pieces))

abbrev pub text_value : Option Bytes → Option Value
text_value none = none
text_value (some s) = some (text s)

get_item-store_pieces :
    (j k : Bytes) (pieces : List Bytes) (d : Dict)
    → get_item k (store_pieces j pieces d)
      ≡ (if bytes_eq j k then joined_value (get_item k d) (whole_of pieces) else get_item k d)
get_item-store_pieces j k [] d = elim (Bool-cases (bytes_eq j k)) [
  | inl e ↦ rw e refl
  | inr e ↦ rw e refl
]
get_item-store_pieces j k (piece ∷ pieces) d =
    ap (get_item k) (store_pieces_lem j piece pieces d)
    ∙ get_item-set_or_append_header j k (flatten (piece ∷ pieces)) d

-- The dictionary in front of the headers.
abbrev pub url_dict : List Bytes → List Bytes → Dict
url_dict outs queries =
    store_pieces (codes "QUERY_STRING") queries (store_pieces (codes "PATH_INFO") outs [])

pub joined_none : (o : Option Bytes) → joined_value none o ≡ text_value o
joined_none none = refl
joined_none (some s) = refl

module _ (outs queries : List Bytes) where
  pub url_path : get_item (codes "PATH_INFO") (url_dict outs queries) ≡ text_value (whole_of outs)
  unfolding bytes_eq get_item
  url_path =
      get_item-store_pieces (codes "QUERY_STRING") (codes "PATH_INFO") queries _
      ∙ get_item-store_pieces (codes "PATH_INFO") (codes "PATH_INFO") outs []
      ∙ joined_none (whole_of outs)

  pub url_query :
      get_item (codes "QUERY_STRING") (url_dict outs queries) ≡ text_value (whole_of queries)
  unfolding bytes_eq get_item
  url_query =
      get_item-store_pieces (codes "QUERY_STRING") (codes "QUERY_STRING") queries _
      ∙ ap (λ v. joined_value v (whole_of queries))
          (get_item-store_pieces (codes "PATH_INFO") (codes "QUERY_STRING") outs [])
      ∙ joined_none (whole_of queries)

  -- Any other key is not there.
  pub url_other :
      (k : Bytes)
      → bytes_eq (codes "PATH_INFO") k ≡ false
      → bytes_eq (codes "QUERY_STRING") k ≡ false
      → get_item k (url_dict outs queries) ≡ none
  unfolding get_item
  url_other k path query =
      get_item-store_pieces (codes "QUERY_STRING") k queries _
      ∙ rw query (get_item-store_pieces (codes "PATH_INFO") k outs [] ∙ rw path refl)

-- What `on_message_complete` leaves alone in front of the base dictionary and the body.
module _ (http : HttpParser) (addr : Bytes) (d : Dict) where
  pub set_part :
      (k : Bytes)
      → bytes_eq (codes "REMOTE_ADDR") k ≡ false
      → bytes_eq (codes "REQUEST_METHOD") k ≡ false
      → bytes_eq (codes "SERVER_PROTOCOL") k ≡ false
      → get_item k (request_part http addr d)
        ≡ get_item k (
            replace_key
              (codes "HTTP_CONTENT_TYPE")
              (codes "CONTENT_TYPE")
              (replace_key (codes "HTTP_CONTENT_LENGTH") (codes "CONTENT_LENGTH") d))
  set_part k a m p =
      set_other k (codes "REMOTE_ADDR") (text addr) _ a
      ∙ set_other k (codes "REQUEST_METHOD") (text http.method) _ m
      ∙ set_other k (codes "SERVER_PROTOCOL") _ _ p

pub replaced_new :
    (old new : Bytes) (d : Dict)
    → get_item new d ≡ none
    → get_item new (replace_key old new d) ≡ get_item old d
unfolding replace_key
replaced_new old new d absent = elim (Option-cases (get_item old d)) [
  | inl e ↦ rw (e, replace_key) absent
  | inr (v, e) ↦ rw (e, replace_key) (set_same new v (del_item old d))
]

-- The dictionary behind the body.
abbrev pub body_dict : List Bytes → Dict → Dict
body_dict [] d = d
body_dict (piece ∷ pieces) d = with_body (flatten (piece ∷ pieces)) d

pub body_other :
    (k : Bytes) (bodies : List Bytes) (d : Dict)
    → bytes_eq wsgi_input k ≡ false
    → get_item k (body_dict bodies d) ≡ get_item k d
body_other k [] d e = refl
body_other k (piece ∷ pieces) d e = set_other k wsgi_input _ d e
