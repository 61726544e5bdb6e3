-- ===== src/Server/Stream.antt =====
-- What is left to send of a response: the abstract view of a connection that bjoern/server.c is
-- writing. `on_write_chunk` is held to it.
use bjoern.Common.{
  ℕ, ◌<◌, ◌≡◌, refl, sym, ◌∙◌, subst, Bool, true, false, ◌&&◌, Option, none, some, List, [], ◌∷◌,
  ◌++◌, Bytes, length, arith, drop, if◌then◌else◌,
}
use bjoern.Python.{bytes_item, other_item, Iter, call, yield, stop, raise}
use bjoern.Request.{Request, Chunk, chunk}
use bjoern.Response.{start_response, Next, next_chunk, ended, failed, get_next_chunk}
use bjoern.Response.Start.{IsLive, SameStream, start_response_late}
use bjoern.Chunk.{wrap_http_chunk_cruft_around, terminator}

-- What an iterator yields from its next step on when every call of `start_response` raises: the
-- chunks, without empty ones, and whether it ends without an error.
unfoldable pub chunks : Iter → List Bytes
chunks (call args k) = chunks (k false)
chunks (yield (bytes_item []) it) = chunks it
chunks (yield (bytes_item (c ∷ cs)) it) = (c ∷ cs) ∷ chunks it
chunks (yield other_item it) = []
chunks stop = []
chunks raise = []

unfoldable pub completes : Iter → Bool
completes (call args k) = completes (k false)
completes (yield (bytes_item s) it) = completes it
completes (yield other_item it) = false
completes stop = true
completes raise = false

-- The bytes that carry the chunks of a body.
unfoldable pub encode : Bool → Bool → List Bytes → Bytes
encode chunked complete [] = if chunked && complete then terminator else []
encode chunked complete (c ∷ cs) =
    (if chunked then wrap_http_chunk_cruft_around c else c) ++ encode chunked complete cs

unfoldable pub encode_rest : Bool → Option Iter → Bytes
unfolding encode chunks completes
encode_rest chunked none = encode chunked true []
encode_rest chunked (some it) = encode chunked (completes it) (chunks it)

abbrev pub completes_rest : Option Iter → Bool
completes_rest none = true
completes_rest (some it) = completes it

-- Whether the connection reads again behind the response.
abbrev pub is_kept : Request → Bool
is_kept r = completes_rest r.iterator && r.state.keep_alive

unfoldable pub unsent : Chunk → ℕ → Bytes
unsent (chunk s) p = drop p s
unsent _ p = []

unfoldable pub pending : Request → Bytes
unfolding unsent
pending r =
    unsent r.current_chunk r.current_chunk_p ++ encode_rest r.state.chunked_response r.iterator

pub pending_of :
    (r : Request) (ch : Chunk) (p : ℕ) (chunked : Bool) (it : Option Iter)
    → r.current_chunk ≡ ch
    → r.current_chunk_p ≡ p
    → r.state.chunked_response ≡ chunked
    → r.iterator ≡ it
    → pending r ≡ unsent ch p ++ encode_rest chunked it
unfolding pending
pending_of r ch p chunked it a b c d = cc

-- The same, the iterator apart.
pub record SameFraming (r r' : Request) : Type 0 where
  pub framed_chunk : r'.current_chunk ≡ r.current_chunk
  pub framed_position : r'.current_chunk_p ≡ r.current_chunk_p
  pub framed_iterable : r'.iterable ≡ r.iterable
  pub framed_chunked : r'.state.chunked_response ≡ r.state.chunked_response
  pub framed_keep_alive : r'.state.keep_alive ≡ r.state.keep_alive
  pub framed_expect : r'.state.expect_continue ≡ r.state.expect_continue

SameFraming-trans : (r s t : Request) → SameStream r s → SameFraming s t → SameFraming r t
SameFraming-trans r s t p q = record {
  framed_chunk = q.framed_chunk ∙ p.same_chunk;
  framed_position = q.framed_position ∙ p.same_position;
  framed_iterable = q.framed_iterable ∙ p.same_iterable;
  framed_chunked = q.framed_chunked ∙ p.same_chunked;
  framed_keep_alive = q.framed_keep_alive ∙ p.same_keep_alive;
  framed_expect = q.framed_expect ∙ p.same_expect;
}

-- What the result of `get_next_chunk` says of the chunks that its iterator had left to yield.
abbrev pub Fetched : List Bytes → Bool → Request × Next → Type 0
Fetched cs complete (r, next_chunk c) =
    (rest : Iter) × (r.iterator ≡ some rest)
    × (cs ≡ c ∷ chunks rest)
    × (complete ≡ completes rest)
    × (0 < length c)
Fetched cs complete (r, ended) = (cs ≡ []) × (complete ≡ true)
Fetched cs complete (r, failed) = (cs ≡ []) × (complete ≡ false)

-- The next chunk is the next of `chunks`, for an iterator that calls `start_response` as it will.
pub get_next_chunk-chunks :
    (it : Iter) (r : Request)
    → IsLive r
    → Fetched (chunks it) (completes it) (get_next_chunk it r)
      × IsLive (get_next_chunk it r).0
      × SameFraming r (get_next_chunk it r).0
unfolding get_next_chunk chunks completes
get_next_chunk-chunks (call args k) r live =
    let late = start_response_late r args live in
    let r' = (start_response r args).0 in
    let ih = get_next_chunk-chunks (k false) r' late.1 in
    subst
      (λ b.
        Fetched (chunks (k false)) (completes (k false)) (get_next_chunk (k b) r')
        × IsLive (get_next_chunk (k b) r').0
        × SameFraming r (get_next_chunk (k b) r').0)
      (sym late.0) (ih.0, ih.1, SameFraming-trans r r' (get_next_chunk (k false) r').0 late.2 ih.2)
get_next_chunk-chunks (yield (bytes_item []) it) r live = get_next_chunk-chunks it r live
get_next_chunk-chunks (yield (bytes_item (c ∷ cs)) it) r live =
    ((it, refl, refl, refl, omega arith), ground arith, ground arith)
get_next_chunk-chunks (yield other_item it) r live = ground arith
get_next_chunk-chunks stop r live = ground arith
get_next_chunk-chunks raise r live = ground arith
