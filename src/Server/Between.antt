-- ===== src/Server/Between.antt =====
-- `on_write_chunk` of bjoern/server.c between two chunks: what is left to send of the response when
-- the current chunk is sent whole.
use bjoern.Common.{
  ℕ, ◌<◌, ◌≡◌, ◌⊎◌, inl, inr, refl, sym, ◌∙◌, ap, subst₂, Bool, true, false, ◌&&◌, Option, none,
  some, List, [], ◌∷◌, ◌++◌, Bytes, length, arith, if◌then◌else◌, append-nil, length-append,
}
use bjoern.Python.{Iter}
use bjoern.Request.{Request, Chunk, chunk, Iterable, wrapper}
use bjoern.Response.{Next, next_chunk, ended, failed, get_next_chunk}
use bjoern.Response.Start.{IsLive}
use bjoern.Chunk.{crlf, size_line, wrap_http_chunk_cruft_around, terminator}
use bjoern.Server.{RwState, not_yet_done, done, aborted, expect_continue}
use bjoern.Server.Write.{
  Out, has_rest, send_terminator_chunk, store_chunk, after_next, following_chunk, emit,
}
use bjoern.Server.Stream.{
  chunks, completes, encode, encode_rest, unsent, pending, Fetched, get_next_chunk-chunks,
  pending_of, completes_rest, is_kept,
}

abbrev pub HasRest : Chunk → ℕ → Type 0
HasRest (chunk s) p = p < length s
HasRest _ p = ⊥

abbrev pub IsPlain : Iterable → Type 0
IsPlain (wrapper (some fd)) = ⊥
IsPlain _ = Unit

-- A response that is sent in chunks, and is not finished.
pub record IsStreaming (r : Request) : Type 0 where
  pub current : HasRest r.current_chunk r.current_chunk_p
  pub plain : IsPlain r.iterable
  pub no_expect : r.state.expect_continue ≡ false
  pub live : (r.iterator ≡ none) ⊎ IsLive r

-- What a call of the handler has done with a stream, told apart by its result; `keep` is whether
-- the connection reads again behind it.
abbrev pub Sends : Bytes → Bool → Option (Out RwState) → Type 0
Sends stream keep none = ⊥
Sends stream keep (some (r, out, not_yet_done)) =
    IsStreaming r × (out ++ pending r ≡ stream) × (is_kept r ≡ keep)
Sends stream keep (some (r, out, done)) =
    (out ≡ stream) × (r.state.keep_alive ≡ keep) × (r.state.expect_continue ≡ false)
Sends stream keep (some (r, out, aborted)) =
    (out ≡ stream) × (keep ≡ false) × (r.state.expect_continue ≡ false)
Sends stream keep (some (r, out, expect_continue)) = ⊥

-- Between two chunks.
pub record IsBetween (keep : Bool) (r : Request) : Type 0 where
  pub kept : r.state.keep_alive ≡ keep
  pub position : r.current_chunk_p ≡ 0
  pub plain : IsPlain r.iterable
  pub no_expect : r.state.expect_continue ≡ false

pub has_rest_lt : (p : ℕ) (s : Bytes) → p < length s → has_rest s p ≡ true
has_rest_lt p s h = ground arith

framed_pos :
    (chunked : Bool) (c : Bytes)
    → 0 < length c
    → 0 < length (if chunked then wrap_http_chunk_cruft_around c else c)
unfolding wrap_http_chunk_cruft_around size_line
framed_pos false c h = h
framed_pos true c h =
    omega (arith, length-append (size_line (length c)) (c ++ crlf), length-append c crlf)

terminator_needed :
    (r : Request)
    → r.state.chunked_response ≡ true
    → r.current_chunk_p ≡ 0
    → send_terminator_chunk r
      ≡ some (
        record r {
          current_chunk = chunk terminator;
          state = record (r.state) { chunked_response = false };
        },
        not_yet_done,
      )
unfolding send_terminator_chunk
terminator_needed r e p = ground arith

pub terminator_spared :
    (r : Request) → r.state.chunked_response ≡ false → send_terminator_chunk r ≡ some (r, done)
unfolding send_terminator_chunk
terminator_spared r e = ground arith

chunk_stored :
    (c : Bytes) (r : Request)
    → r.current_chunk_p ≡ 0
    → store_chunk c r
      ≡ some (
        record r {
          current_chunk =
              chunk (if r.state.chunked_response then wrap_http_chunk_cruft_around c else c);
        },
        not_yet_done,
      )
chunk_stored c r p = ground arith

module _ (keep : Bool) (r : Request) (chunked : Bool) (e : r.state.chunked_response ≡ chunked)
    (b : IsBetween keep r) where
  Sends-terminator :
      r.iterator ≡ none → Sends (encode chunked true []) keep (emit [] (send_terminator_chunk r))
  Sends-terminator none_left = go chunked e
    where
      go :
          (ch : Bool)
          → r.state.chunked_response ≡ ch
          → Sends (encode ch true []) keep (emit [] (send_terminator_chunk r))
      go true e' = rw (terminator_needed r e' b.position) (
        record {
          current = rw b.position (omega arith);
          plain = b.plain;
          no_expect = b.no_expect;
          live = inl none_left;
        },
        pending_of _ (chunk terminator) 0 false none refl b.position refl none_left
            ∙ (unfold unsent encode_rest encode in append-nil terminator),
        ap (λ i. completes_rest i && r.state.keep_alive) none_left ∙ b.kept,
      )
      go false e' = rw (terminator_spared r e') ((unfold encode in refl), b.kept, b.no_expect)

  Sends-store :
      (c : Bytes) (rest : Iter)
      → r.iterator ≡ some rest
      → IsLive r
      → 0 < length c
      → Sends
          (encode chunked (completes rest) (c ∷ chunks rest))
          (completes rest && keep)
          (emit [] (store_chunk c r))
  Sends-store c rest left live pos = rw (chunk_stored c r b.position) (
    record {
      current = rw b.position (framed_pos r.state.chunked_response c pos);
      plain = b.plain;
      no_expect = b.no_expect;
      live = inr live_state;
    },
    pending_of _ _ 0 chunked (some rest) refl b.position e left
        ∙ (unfold unsent encode_rest encode in
            ap
              (λ (b' : Bool).
                (if b' then wrap_http_chunk_cruft_around c else c)
                ++ encode chunked (completes rest) (chunks rest))
              e),
    ap (λ i. completes_rest i && r.state.keep_alive) left ∙ ap (λ k. completes rest && k) b.kept,
  )
    where
      live_state : IsLive (record r {
        current_chunk =
            chunk (if r.state.chunked_response then wrap_http_chunk_cruft_around c else c);
      })
      live_state = record { called = live.called; answered = live.answered }

  Sends-aborted : Sends (encode chunked false []) false (some (r, [], aborted))
  Sends-aborted = (unfold encode in no_terminator chunked, refl, b.no_expect)
    where
      no_terminator : (ch : Bool) → [] ≡ (if ch && false then terminator else [])
      no_terminator true = refl
      no_terminator false = refl

-- The chunk behind the one that was sent, from what `get_next_chunk` returned.
Sends-Fetched :
    (keep : Bool) (chunked : Bool) (cs : List Bytes) (complete : Bool) (res : Request × Next)
    → res.0.state.chunked_response ≡ chunked
    → IsBetween keep res.0
    → IsLive res.0
    → Fetched cs complete res
    → Sends (encode chunked complete cs) (complete && keep) (emit [] (after_next res))
Sends-Fetched keep chunked cs complete (r, next_chunk c) e b live (rest, left, here, ends, pos) =
    subst₂ (λ t u. Sends (encode chunked u t) (u && keep) (emit [] (store_chunk c r))) (sym here)
      (sym ends) (Sends-store keep r chunked e b c rest left live pos)
Sends-Fetched keep chunked cs complete (r, ended) e b live (here, ends) =
    subst₂
      (λ t u.
        Sends (encode chunked u t) (u && keep)
          (emit [] (send_terminator_chunk (record r { iterator = none }))))
      (sym here) (sym ends)
      (Sends-terminator keep (record r { iterator = none }) chunked e
        (record { kept = b.kept; position = b.position; plain = b.plain; no_expect = b.no_expect })
        refl)
Sends-Fetched keep chunked cs complete (r, failed) e b live (here, ends) =
    subst₂ (λ t u. Sends (encode chunked u t) (u && keep) (some (r, [], aborted))) (sym here)
      (sym ends) (Sends-aborted keep r chunked e b)

-- What follows a chunk that was sent whole.
pub Sends-following :
    (keep : Bool) (r : Request) (it : Option Iter)
    → r.iterator ≡ it
    → IsBetween keep r
    → ((i : Iter) → it ≡ some i → IsLive r)
    → Sends
        (encode_rest r.state.chunked_response it)
        (completes_rest it && keep)
        (emit [] (following_chunk it r))
unfolding encode_rest
Sends-following keep r none left b live =
    Sends-terminator keep r r.state.chunked_response refl b left
Sends-following keep r (some it) left b live =
    let fetched = get_next_chunk-chunks it r (live it refl) in
    let same = fetched.2 in
    Sends-Fetched keep r.state.chunked_response (chunks it) (completes it) (get_next_chunk it r)
      same.framed_chunked
      (record {
        kept = same.framed_keep_alive ∙ b.kept;
        position = same.framed_position ∙ b.position;
        plain = rw same.framed_iterable b.plain;
        no_expect = same.framed_expect ∙ b.no_expect;
      })
      fetched.1 fetched.0

pub Sends-emit :
    (keep : Bool) (stream out : Bytes) (res : Option (Request × RwState))
    → Sends stream keep (emit [] res)
    → Sends (out ++ stream) keep (emit out res)
Sends-emit keep stream out none h = h
Sends-emit keep stream out (some (r, not_yet_done)) h = (h.0, ap (λ t. out ++ t) h.1, h.2)
Sends-emit keep stream out (some (r, done)) h =
    (sym (append-nil out) ∙ ap (λ t. out ++ t) h.0, h.1, h.2)
Sends-emit keep stream out (some (r, aborted)) h =
    (sym (append-nil out) ∙ ap (λ t. out ++ t) h.0, h.1, h.2)
Sends-emit keep stream out (some (r, expect_continue)) h = h
