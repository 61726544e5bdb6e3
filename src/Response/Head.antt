-- ===== src/Response/Head.antt =====
-- `wsgi_getheaders` of bjoern/wsgi.c: the buffer that it allocates is long enough; and
-- `clean_headers`: which fields it takes for a content length.
use bjoern.Common.{
  ℕ, suc, ◌+◌, ◌≤◌, ◌≡◌, refl, ap, Bool, true, false, none, some, List, [], ◌∷◌, ◌++◌, map, Bytes,
  length, arith, length-append, codes, strncmp_eq, to_lower, ◌≢◌, subst₂, Option-cases, inl, inr,
}
use bjoern.Python.{HeaderItem, pair, header_list}
use bjoern.Response.{
  Fields, write_fields, fields_upperbound, length_upperbound, response_head, connection_field,
  is_content_length, clean_headers, encode_fields, all_pairs,
}

length-write_fields : (fields : Fields) → length (write_fields fields) ≡ fields_upperbound fields
unfolding write_fields fields_upperbound
length-write_fields [] = refl
length-write_fields ((f, v) ∷ fields) =
    let rest = length-write_fields fields in
    omega (
      arith,
      rest,
      length-append (codes "\r\n") (f ++ (codes ": " ++ (v ++ write_fields fields))),
      length-append f (codes ": " ++ (v ++ write_fields fields)),
      length-append v (write_fields fields),
    )

length-connection_field :
    (keep_alive chunked : Bool)
    → 19 ≤ length (connection_field keep_alive chunked)
      × (length (connection_field keep_alive chunked) ≤ 52)
length-connection_field true true = omega arith
length-connection_field true false = omega arith
length-connection_field false true = omega arith
length-connection_field false false = omega arith

length-response_head :
    (status : Bytes) (fields : Fields) (keep_alive chunked : Bool)
    → length (response_head status fields keep_alive chunked)
      ≡ length status + fields_upperbound fields + length (connection_field keep_alive chunked) + 13
unfolding response_head
length-response_head status fields keep_alive chunked =
    let conn = connection_field keep_alive chunked in
    omega (
      arith,
      length-write_fields fields,
      length-append status (write_fields fields ++ (conn ++ codes "\r\n\r\n")),
      length-append (write_fields fields) (conn ++ codes "\r\n\r\n"),
      length-append conn (codes "\r\n\r\n"),
    )

length-length_upperbound :
    (status : Bytes) (fields : Fields)
    → length_upperbound status fields ≡ length status + fields_upperbound fields + 65
unfolding length_upperbound
length-length_upperbound status fields = omega arith

-- What `wsgi_getheaders` writes never passes the buffer that it allocated, whatever the status, the
-- headers and the kind of connection, and leaves at most 33 bytes of it unused.
pub response_head_fits :
    (status : Bytes) (fields : Fields) (keep_alive chunked : Bool)
    → (length (response_head status fields keep_alive chunked) ≤ length_upperbound status fields)
      × (length_upperbound status fields
          ≤ length (response_head status fields keep_alive chunked) + 33)
response_head_fits status fields keep_alive chunked =
    let conn = length-connection_field keep_alive chunked in
    let head = length-response_head status fields keep_alive chunked in
    let room = length-length_upperbound status fields in (omega arith, omega arith)

strncmp_eq-prefix : (xs ys : Bytes) → strncmp_eq xs (xs ++ ys) (length xs) ≡ true
unfolding strncmp_eq
strncmp_eq-prefix [] ys = refl
strncmp_eq-prefix (x ∷ xs) ys = ground (arith, strncmp_eq-prefix xs ys)

length-map : (f : ℕ → ℕ) (xs : Bytes) → length (map f xs) ≡ length xs
length-map f [] = refl
length-map f (x ∷ xs) = ap suc (length-map f xs)

-- Every field whose name is, up to case, the beginning of `Content-Length`, the empty name and
-- `Content` among them, is taken for a content length: a header list that encodes and that begins
-- with such a field makes `clean_headers` report that a content length was found.
pub clean_headers_prefix :
    (f v rest : Bytes) (items : List HeaderItem)
    → map to_lower f ++ rest ≡ map to_lower (codes "Content-Length")
    → all_pairs items ≡ true
    → encode_fields items ≢ none
    → (fields : Fields) × (clean_headers (header_list (pair (some f) (some v) ∷ items))
        ≡ some ((f, v) ∷ fields, true))
unfolding clean_headers is_content_length
clean_headers_prefix f v rest items e pairs ok =
    let found : strncmp_eq (map to_lower f) (map to_lower (codes "Content-Length")) (length f)
        ≡ true =
      subst₂ (λ t n. strncmp_eq (map to_lower f) t n ≡ true) e (length-map to_lower f)
        (strncmp_eq-prefix (map to_lower f) rest) in
    elim (Option-cases (encode_fields items)) [
      | inl bad ↦ absurd (ok bad)
      | inr ((fields, seen), good) ↦ (fields, rw (pairs, good, found) refl)
    ]
