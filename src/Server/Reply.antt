-- ===== src/Server/Reply.antt =====
-- The body of a response of bjoern/server.c: what is sent of the chunks that an application hands
-- over, and what a client reads of it.
use mathlib.Core.List.{flatten}
use bjoern.Common.{
  ◌+◌, ◌≤◌, ◌≡◌, refl, sym, ◌∙◌, ap, Bool, true, false, Option, none, some, List, [], ◌∷◌, ◌++◌,
  Bytes, length, arith, All, if◌then◌else◌,
}
use bjoern.Python.{Iter}
use bjoern.Response.{First, first_chunk, no_first_chunk, broken, with_first}
use bjoern.Response.Carrying.{filled, iterate, Left, Splits}
use bjoern.Chunk.{wrap_http_chunk_cruft_around}
use bjoern.Chunk.Decode.{read_body}
use bjoern.Chunk.Body.{IsChunk, read_body-chunked_body}
use bjoern.Server.Stream.{completes_rest, chunks, completes, encode, encode_rest}
use bjoern.Server.Client.{IsShort, encode-chunked_body}

chunks-iterate : (cs : List Bytes) → chunks (iterate cs) ≡ filled cs
unfolding chunks
chunks-iterate [] = refl
chunks-iterate ([] ∷ cs) = chunks-iterate cs
chunks-iterate ((c ∷ s) ∷ cs) = ap (λ t. (c ∷ s) ∷ t) (chunks-iterate cs)

completes-iterate : (cs : List Bytes) → completes (iterate cs) ≡ true
unfolding completes
completes-iterate [] = refl
completes-iterate (s ∷ cs) = completes-iterate cs

encode_rest-Left :
    (chunked : Bool) (left : Option Iter) (ds : List Bytes)
    → Left left ds
    → encode_rest chunked left ≡ encode chunked true ds
unfolding encode_rest
encode_rest-Left chunked none ds h = ap (encode chunked true) (sym h)
encode_rest-Left chunked (some it) ds (es, same, rest) =
    ap (λ i. encode chunked (completes i) (chunks i)) same
    ∙ ap (λ b. encode chunked b (chunks (iterate es))) (completes-iterate es)
    ∙ ap (encode chunked true) (chunks-iterate es ∙ rest)

-- The first chunk with what the iterator is left to yield.
pub encode-Splits :
    (chunked : Bool) (fs : List Bytes) (first : First) (left : Option Iter)
    → Splits fs first left
    → with_first chunked first ++ encode_rest chunked left ≡ encode chunked true fs
unfolding encode
encode-Splits chunked fs (first_chunk c) left (ds, same, rest) =
    ap (λ t. (if chunked then wrap_http_chunk_cruft_around c else c) ++ t)
      (encode_rest-Left chunked left ds rest)
    ∙ ap (encode chunked true) (sym same)
encode-Splits chunked fs no_first_chunk left (same, rest) =
    encode_rest-Left chunked left [] rest ∙ ap (encode chunked true) (sym same)
encode-Splits chunked fs broken left h = absurd h

Left-completes : (left : Option Iter) (ds : List Bytes) → Left left ds → completes_rest left ≡ true
Left-completes none ds h = refl
Left-completes (some it) ds (es, same, rest) = ap completes same ∙ completes-iterate es

pub Splits-completes :
    (fs : List Bytes) (first : First) (left : Option Iter)
    → Splits fs first left
    → completes_rest left ≡ true
Splits-completes fs (first_chunk c) left (ds, same, rest) = Left-completes left ds rest
Splits-completes fs no_first_chunk left (same, rest) = Left-completes left [] rest
Splits-completes fs broken left h = absurd h

-- A body as it is sent.
abbrev pub sent_body : Bool → List Bytes → Bytes
sent_body chunked cs = encode chunked true (filled cs)

flatten-filled : (cs : List Bytes) → flatten (filled cs) ≡ flatten cs
unfolding flatten
flatten-filled [] = refl
flatten-filled ([] ∷ cs) = flatten-filled cs
flatten-filled ((c ∷ s) ∷ cs) = ap (λ t. (c ∷ s) ++ t) (flatten-filled cs)

filled-IsChunk : (cs : List Bytes) → All IsShort cs → All IsChunk (filled cs)
filled-IsChunk [] h = tt
filled-IsChunk ([] ∷ cs) h = filled-IsChunk cs h.1
filled-IsChunk ((c ∷ s) ∷ cs) h = ((omega arith, h.0), filled-IsChunk cs h.1)

filled_count : (cs : List Bytes) → length (filled cs) ≤ length cs
filled_count [] = omega arith
filled_count ([] ∷ cs) = omega (arith, filled_count cs)
filled_count ((c ∷ s) ∷ cs) = omega (arith, filled_count cs)

encode-flatten : (fs : List Bytes) → encode false true fs ≡ flatten fs
unfolding encode flatten
encode-flatten [] = refl
encode-flatten (c ∷ fs) = ap (λ t. c ++ t) (encode-flatten fs)

-- What a client reads of it: behind chunked framing the whole body, up to the next response;
-- without it, the bytes are the body.
abbrev pub ReadsBody : Bool → List Bytes → Bytes → Type 0
ReadsBody true cs next =
    read_body (length cs + 1) (sent_body true cs ++ next) ≡ some (flatten cs, next)
ReadsBody false cs next = sent_body false cs ≡ flatten cs

pub sent_body-ReadsBody :
    (chunked : Bool) (cs : List Bytes) (next : Bytes) → All IsShort cs → ReadsBody chunked cs next
unfolding flatten
sent_body-ReadsBody true cs next short =
    ap (λ t. read_body (length cs + 1) (t ++ next)) (encode-chunked_body (filled cs))
    ∙ read_body-chunked_body (filled cs) next (length cs + 1) (filled-IsChunk cs short)
        (omega (arith, filled_count cs))
    ∙ ap (λ t. some (t, next)) (flatten-filled cs)
sent_body-ReadsBody false cs next short = encode-flatten (filled cs) ∙ flatten-filled cs
