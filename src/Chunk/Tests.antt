-- ===== src/Chunk/Tests.antt =====
-- Inputs for the theorems on `wrap_http_chunk_cruft_around` of bjoern/wsgi.c, and tests of it.
use mathlib.Core.List.{flatten}
use bjoern.Common.{
  ◌+◌, ◌≤◌, ◌<◌, ◌^◌, ◌≡◌, ◌↔◌, refl, some, List, codes, ◌++◌, ◌∷◌, [], arith, length, Bytes,
}
use bjoern.Chunk.{size_line, size_line_capacity, wrap_http_chunk_cruft_around}
use bjoern.Chunk.Decode.{read_body}
use bjoern.Chunk.Body.{chunked_body, read_body-chunked_body, size_line_fits}

wrapped :
    wrap_http_chunk_cruft_around (codes "hello, chunked world")
    ≡ codes "14\r\nhello, chunked world\r\n"
unfolding wrap_http_chunk_cruft_around
wrapped = refl

abbrev greeting : List Bytes
greeting = codes "hello, " ∷ codes "world" ∷ []

read_body-chunked_body_example :
    read_body 3 (chunked_body greeting ++ codes "HTTP/1.1")
    ≡ some (flatten greeting, codes "HTTP/1.1")
read_body-chunked_body_example =
    read_body-chunked_body greeting (codes "HTTP/1.1") 3 (omega arith) (omega arith)

size_line_fits_example :
    (length (size_line 300000000) + 1 ≤ size_line_capacity) ↔ (300000000 < 2 ^ 28)
size_line_fits_example = size_line_fits 300000000 (omega arith)
