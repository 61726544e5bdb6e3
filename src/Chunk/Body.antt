-- ===== src/Chunk/Body.antt =====
-- bjoern/wsgi.c, `wrap_http_chunk_cruft_around`, against a client that reads chunked bodies.
use mathlib.Core.List.{flatten}
use native.Mathlib.Decide.{dec_lt}
use native.Mathlib.Nat.{pow-suc}
use bjoern.Common.{
  ℕ, zero, suc, ◌+◌, ◌*◌, ◌/◌, ◌%◌, ◌^◌, ◌<◌, ◌≤◌, ◌≡◌, ◌↔◌, refl, ap, ◌∙◌, some, List, [], ◌∷◌,
  ◌++◌, true, Bytes, leb, length, length-append, arith, append_assoc, All, take-length-append,
  drop-length-append,
}
use bjoern.Url.{unhex}
use bjoern.Chunk.{crlf, terminator, size_line, size_line_capacity, wrap_http_chunk_cruft_around}
use bjoern.Chunk.Hex.{
  hex_digit, hex_digits, hex_digits_small, hex_digits_big, print_hex, length-hex_digits,
}
use bjoern.Chunk.Decode.{read_size, read_chunk, glue, read_body}

unhex-hex_digit : (n : ℕ) → n < 16 → unhex (hex_digit n) ≡ some n
unfolding unhex hex_digit
unhex-hex_digit n h = ground arith

read_size-digit :
    (n c d v : ℕ) (s : Bytes)
    → unhex c ≡ some v
    → read_size n (c ∷ d ∷ s) ≡ read_size (n * 16 + v) (d ∷ s)
unfolding read_size
read_size-digit n c d v s e = ground arith

read_size-small :
    (k n d : ℕ) (s : Bytes)
    → n < 16
    → read_size 0 (hex_digits (suc k) n ++ d ∷ s) ≡ read_size n (d ∷ s)
read_size-small k n d s p = rw (hex_digits_small k n p) (
    read_size-digit 0 (hex_digit n) d n s (unhex-hex_digit n p)
    ∙ ap (λ (m : ℕ). read_size m (d ∷ s)) (omega arith))

-- The digits of `n`, read in front of any text, leave `n`.
read_size-hex_digits :
    (k n d : ℕ) (s : Bytes)
    → n < 16 ^ suc k
    → read_size 0 (hex_digits (suc k) n ++ d ∷ s) ≡ read_size n (d ∷ s)
read_size-hex_digits zero n d s h = read_size-small zero n d s (omega arith)
read_size-hex_digits (suc k) n d s h = elim (dec_lt n 16) [
  | yes p ↦ read_size-small (suc k) n d s p
  | no p ↦
      rw (hex_digits_big (suc k) n (omega arith), append_assoc)
        (read_size-hex_digits k (n / 16) (hex_digit (n % 16)) (d ∷ s)
            (omega (arith, pow-suc 16 (suc k)))
          ∙ read_size-digit (n / 16) (hex_digit (n % 16)) d (n % 16) s
              (unhex-hex_digit (n % 16) (omega arith))
          ∙ ap (λ (m : ℕ). read_size m (d ∷ s)) (omega arith))
]

read_size-crlf : (n : ℕ) (s : Bytes) → read_size n (crlf ++ s) ≡ some (n, s)
unfolding read_size unhex
read_size-crlf n s = refl

read_size-size_line : (n : ℕ) (s : Bytes) → read_size 0 (size_line n ++ s) ≡ some (n % 2 ^ 32, s)
unfolding size_line print_hex
read_size-size_line n s = rw append_assoc (
    read_size-hex_digits 7 (n % 2 ^ 32) b'\r' (b'\n' ∷ s) (omega arith)
    ∙ read_size-crlf (n % 2 ^ 32) s)

-- A client reads from a wrapped chunk the chunk itself, and goes on where the next one begins, if
-- the chunk is shorter than 4 GiB.
pub read_chunk-wrap_http_chunk_cruft_around :
    (chunk rest : Bytes)
    → length chunk < 2 ^ 32
    → read_chunk (wrap_http_chunk_cruft_around chunk ++ rest) ≡ some (chunk, rest)
unfolding read_chunk wrap_http_chunk_cruft_around
read_chunk-wrap_http_chunk_cruft_around chunk rest h =
    let e : length chunk % 2 ^ 32 ≡ length chunk = omega arith in
    let long : leb (length chunk) (length (chunk ++ (crlf ++ rest))) ≡ true =
      ground (arith, length-append chunk (crlf ++ rest)) in
    rw
      (
        append_assoc (size_line (length chunk)) (chunk ++ crlf) rest,
        append_assoc chunk crlf rest,
        read_size-size_line,
        e,
      )
      (rw (long, take-length-append chunk (crlf ++ rest), drop-length-append chunk (crlf ++ rest))
        refl)

-- The chunks one after the other, and the empty chunk.
unfoldable pub chunked_body : List Bytes → Bytes
chunked_body [] = terminator
chunked_body (chunk ∷ chunks) = wrap_http_chunk_cruft_around chunk ++ chunked_body chunks

-- A chunk that the server sends: `wsgi_iterable_get_next_chunk` skips the empty ones.
abbrev pub IsChunk : Bytes → Type 0
IsChunk chunk = (0 < length chunk) × (length chunk < 2 ^ 32)

read_body-cons :
    (fuel : ℕ) (s chunk rest : Bytes)
    → 0 < length chunk
    → read_chunk s ≡ some (chunk, rest)
    → read_body (suc fuel) s ≡ glue chunk (read_body fuel rest)
unfolding read_body
read_body-cons fuel s [] rest h e = absurd (omega arith)
read_body-cons fuel s (c ∷ cs) rest h e = rw (e, read_body)

read_chunk-terminator : (rest : Bytes) → read_chunk (terminator ++ rest) ≡ some ([], rest)
unfolding read_chunk unhex
read_chunk-terminator rest = ground arith

read_body-terminator :
    (fuel : ℕ) (rest : Bytes) → read_body (suc fuel) (terminator ++ rest) ≡ some ([], rest)
unfolding read_body
read_body-terminator fuel rest = rw (read_chunk-terminator rest, read_body)

-- A client that reads chunks up to the empty one gets from the wrapped chunks and the terminating
-- chunk just the chunks' bytes in order, and stops where the next response begins, if no chunk is
-- empty and each is shorter than 4 GiB.
pub read_body-chunked_body :
    (chunks : List Bytes) (rest : Bytes) (fuel : ℕ)
    → All IsChunk chunks
    → length chunks < fuel
    → read_body fuel (chunked_body chunks ++ rest) ≡ some (flatten chunks, rest)
unfolding chunked_body flatten
read_body-chunked_body chunks rest zero h lt = elim lt [ ]
read_body-chunked_body [] rest (suc fuel) h lt = read_body-terminator fuel rest
read_body-chunked_body (chunk ∷ chunks) rest (suc fuel) h lt =
    rw (append_assoc (wrap_http_chunk_cruft_around chunk) (chunked_body chunks) rest) (
      read_body-cons fuel _ chunk (chunked_body chunks ++ rest) h.0.0
        (read_chunk-wrap_http_chunk_cruft_around chunk (chunked_body chunks ++ rest) h.0.1)
      ∙ ap (glue chunk) (read_body-chunked_body chunks rest fuel h.1 (omega arith)))

-- `sprintf` writes the size line and a NUL: together they fit in the buffer exactly when the chunk
-- is shorter than 256 MiB. A chunk of that size or more, below 4 GiB, is written one byte beyond.
pub size_line_fits :
    (n : ℕ) → n < 2 ^ 32 → (length (size_line n) + 1 ≤ size_line_capacity) ↔ (n < 2 ^ 28)
unfolding size_line print_hex
size_line_fits n h =
    let e : n % 2 ^ 32 ≡ n = omega arith in
    let digits = length-hex_digits 7 6 n h in
    rw (length-append (hex_digits 8 (n % 2 ^ 32)) crlf, e)
      (λ l. digits.0 (omega arith), λ l. let m = digits.1 l in omega arith)
