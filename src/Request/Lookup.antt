-- ===== src/Request/Lookup.antt =====
-- What a key of the environment dictionary of bjoern/request.c holds behind the headers, and when
-- the message is complete.
use bjoern.Common.{
  ℕ, ◌≡◌, refl, sym, ◌∙◌, ap, subst, Bool, true, false, Option, none, some, List, [], ◌∷◌, ◌++◌,
  map, Bytes, bytes_eq, bytes_eq_iff, ◌==◌, any, if◌then◌else◌, append-nil, Bool-cases,
  Option-cases, inl, inr,
}
use bjoern.Python.{Dict, Value, text, get_item}
use bjoern.Request.Parse.{set_or_append_header, concat_text, http_prefix, field_byte}
use bjoern.Request.Header.{store_header, concat_text-concat_text}
use bjoern.Request.Environ.{get_item-set_item}

-- A value with a text behind it.
abbrev pub joined_value : Option Value → Option Bytes → Option Value
joined_value v none = v
joined_value none (some s) = some (text s)
joined_value (some v) (some s) = some (concat_text v s)

pub get_item-set_or_append_header :
    (j k s : Bytes) (d : Dict)
    → get_item k (set_or_append_header j s d)
      ≡ (if bytes_eq j k then joined_value (get_item k d) (some s) else get_item k d)
unfolding set_or_append_header
get_item-set_or_append_header j k s d = elim (Bool-cases (bytes_eq j k)) [
  | inl e ↦
      let same = (bytes_eq_iff j k).0 e in
      elim (Option-cases (get_item j d)) [
        | inl absent ↦
            let absent' : get_item k d ≡ none = subst (λ t. get_item t d ≡ none) same absent in
            rw (absent, set_or_append_header, absent', get_item-set_item j k (text s) d, e) refl
        | inr (v, there) ↦
            let there' : get_item k d ≡ some v = subst (λ t. get_item t d ≡ some v) same there in
            rw (there, set_or_append_header, there', get_item-set_item j k (concat_text v s) d, e)
              refl
      ]
  | inr e ↦ elim (Option-cases (get_item j d)) [
    | inl absent ↦ rw (absent, set_or_append_header, get_item-set_item j k (text s) d, e) refl
    | inr (v, there) ↦
        rw (there, set_or_append_header, get_item-set_item j k (concat_text v s) d, e) refl
  ]
]

-- The values of the headers with this name, put together in their order; `none` where there is no
-- such header. A name with an underscore is no such name.
abbrev pub has_name : Bytes → Bytes → Bool
has_name n name = if any (λ c. c == b'_') name then false else bytes_eq (map field_byte name) n

abbrev pub or_empty : Option Bytes → Bytes
or_empty none = []
or_empty (some s) = s

unfoldable pub values_of : Bytes → List (Bytes × Bytes) → Option Bytes
values_of n [] = none
values_of n ((name, value) ∷ headers) =
    let rest = values_of n headers in
    if has_name n name then some (value ++ or_empty rest) else rest

-- The headers stored one after the other.
abbrev pub stored_headers : List (Bytes × Bytes) → Dict → Dict
stored_headers [] d = d
stored_headers ((name, value) ∷ headers) d = stored_headers headers (store_header name value d)

get_item-store_header :
    (n name value : Bytes) (d : Dict)
    → get_item (http_prefix ++ n) (store_header name value d)
      ≡ joined_value (get_item (http_prefix ++ n) d) (if has_name n name then some value else none)
unfolding bytes_eq
get_item-store_header n name value d = elim (Bool-cases (any (λ c. c == b'_') name)) [
  | inl hidden ↦ rw hidden refl
  | inr plain ↦ rw plain (
      get_item-set_or_append_header (http_prefix ++ map field_byte name) (http_prefix ++ n) value d
      ∙ (elim (Bool-cases (bytes_eq (map field_byte name) n)) [
        | inl e ↦ rw e refl
        | inr e ↦ rw e refl
      ]))
]

join3 :
    (v : Option Value) (b : Bool) (s : Bytes) (rest : Option Bytes)
    → joined_value (joined_value v (if b then some s else none)) rest
      ≡ joined_value v (if b then some (s ++ or_empty rest) else rest)
join3 v false s rest = refl
join3 none true s none = ap (λ t. some (text t)) (sym (append-nil s))
join3 none true s (some t) = refl
join3 (some v) true s none = ap (λ t. some (concat_text v t)) (sym (append-nil s))
join3 (some v) true s (some t) = ap some (concat_text-concat_text v s t)

pub get_item-stored_headers :
    (n : Bytes) (headers : List (Bytes × Bytes)) (d : Dict)
    → get_item (http_prefix ++ n) (stored_headers headers d)
      ≡ joined_value (get_item (http_prefix ++ n) d) (values_of n headers)
unfolding values_of
get_item-stored_headers n [] d = refl
get_item-stored_headers n ((name, value) ∷ headers) d =
    get_item-stored_headers n headers (store_header name value d)
    ∙ ap (λ v. joined_value v (values_of n headers)) (get_item-store_header n name value d)
    ∙ join3 (get_item (http_prefix ++ n) d) (has_name n name) value (values_of n headers)

store_header_other :
    (c : ℕ) (k name value : Bytes) (d : Dict)
    → (b'H' == c) ≡ false
    → get_item (c ∷ k) (store_header name value d) ≡ get_item (c ∷ k) d
unfolding bytes_eq
store_header_other c k name value d e = elim (Bool-cases (any (λ c. c == b'_') name)) [
  | inl hidden ↦ rw hidden refl
  | inr plain ↦ rw plain (
      get_item-set_or_append_header (http_prefix ++ map field_byte name) (c ∷ k) value d
      ∙ rw e refl)
]

-- A key that begins with another letter than that of `HTTP_` is none of a header's.
pub stored_headers_other :
    (c : ℕ) (k : Bytes) (headers : List (Bytes × Bytes)) (d : Dict)
    → (b'H' == c) ≡ false
    → get_item (c ∷ k) (stored_headers headers d) ≡ get_item (c ∷ k) d
stored_headers_other c k [] d e = refl
stored_headers_other c k ((name, value) ∷ headers) d e =
    stored_headers_other c k headers (store_header name value d) e
    ∙ store_header_other c k name value d e
