-- ===== src/Chunk.antt =====
-- bjoern/wsgi.c, `wrap_http_chunk_cruft_around`: one chunk of a `Transfer-Encoding: chunked` body.
pub mod Hex
pub mod Decode
pub mod Body
mod Tests
use bjoern.Common.{ℕ, ◌%◌, ◌+◌, ◌^◌, ◌++◌, Bytes, codes, length}
use Hex.{print_hex}

abbrev pub crlf : Bytes
crlf = codes "\r\n"

-- `sprintf(buf, "%x\r\n", (unsigned int)chunklen)`: the conversion keeps the low 32 bits.
unfoldable pub size_line : ℕ → Bytes
unfolding print_hex
size_line chunklen = print_hex (chunklen % 2 ^ 32) ++ crlf

-- `char buf[strlen("ffffffff") + 2]`
abbrev pub size_line_capacity : ℕ
size_line_capacity = length (codes "ffffffff") + 2

-- The new chunk: the size line, the chunk, and a line end.
unfoldable pub wrap_http_chunk_cruft_around : Bytes → Bytes
unfolding size_line
wrap_http_chunk_cruft_around chunk = size_line (length chunk) ++ (chunk ++ crlf)

-- The empty chunk that ends a body, which bjoern/server.c sends.
abbrev pub terminator : Bytes
terminator = codes "0\r\n\r\n"
