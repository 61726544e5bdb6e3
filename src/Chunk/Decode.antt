-- ===== src/Chunk/Decode.antt =====
-- A reader of chunked bodies, after RFC 7230 section 4.1 without extensions and trailers: what a
-- client does with what bjoern/wsgi.c sends.
use bjoern.Common.{
  ℕ, zero, suc, ◌+◌, ◌*◌, Option, none, some, [], ◌∷◌, ◌++◌, Bytes, ◌==◌, ◌&&◌, if◌then◌else◌,
  length, take, drop, leb,
}
use bjoern.Url.{unhex}

-- the size line, behind the digits that spell `n`
unfoldable pub read_size : ℕ → Bytes → Option (ℕ × Bytes)
read_size n [] = none
read_size n (c ∷ []) = none
read_size n (c ∷ d ∷ s) = elim (unhex c) [
  | some v ↦ read_size (n * 16 + v) (d ∷ s)
  | none ↦ if c == b'\r' && d == b'\n' then some (n, s) else none
]

-- a line end
unfoldable pub read_crlf : Bytes → Option Bytes
read_crlf (c ∷ d ∷ s) = if c == b'\r' && d == b'\n' then some s else none
read_crlf _ = none

abbrev pub and_then : Bytes → Option Bytes → Option (Bytes × Bytes)
and_then body none = none
and_then body (some s) = some (body, s)

abbrev pub sized : Option (ℕ × Bytes) → Option (Bytes × Bytes)
sized none = none
sized (some (n, s)) = if leb n (length s) then and_then (take n s) (read_crlf (drop n s)) else none

-- One chunk and what follows it.
unfoldable pub read_chunk : Bytes → Option (Bytes × Bytes)
unfolding read_size read_crlf
read_chunk s = sized (read_size 0 s)

abbrev pub glue : Bytes → Option (Bytes × Bytes) → Option (Bytes × Bytes)
glue chunk none = none
glue chunk (some (body, s)) = some (chunk ++ body, s)

-- The body up to the empty chunk, and what follows it. The fuel bounds the number of chunks.
unfoldable pub read_body : ℕ → Bytes → Option (Bytes × Bytes)
read_body zero s = none
read_body (suc fuel) s = elim (read_chunk s) [
  | none ↦ none
  | some (chunk, rest) ↦ elim chunk [
    | [] ↦ some ([], rest)
    | c ∷ cs ↦ glue (c ∷ cs) (read_body fuel rest)
  ]
]
