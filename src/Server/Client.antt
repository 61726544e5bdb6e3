-- ===== src/Server/Client.antt =====
-- What a client reads from a chunked response of bjoern/server.c and bjoern/wsgi.c.
use bjoern.Common.{◌<◌, ◌^◌, ◌≡◌, refl, ap, true, List, [], ◌∷◌, ◌++◌, Bytes, length}
use bjoern.Chunk.{wrap_http_chunk_cruft_around}
use bjoern.Chunk.Body.{chunked_body}
use bjoern.Server.Stream.{encode}

-- Shorter than 4 GiB.
abbrev pub IsShort : Bytes → Type 0
IsShort c = length c < 2 ^ 32

pub encode-chunked_body : (cs : List Bytes) → encode true true cs ≡ chunked_body cs
unfolding encode chunked_body
encode-chunked_body [] = refl
encode-chunked_body (c ∷ cs) =
    ap (λ t. wrap_http_chunk_cruft_around c ++ t) (encode-chunked_body cs)
