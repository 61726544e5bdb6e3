-- ===== src/Server/Progress.antt =====
-- `on_write_chunk` and `ev_io_on_write` of bjoern/server.c refine the stream of what is left to
-- send, whatever part of it each `write` takes.
use bjoern.Common.{
  ℕ, zero, suc, ◌+◌, ◌-◌, ◌≤◌, ◌<◌, ◌≡◌, ◌⊎◌, inl, inr, refl, sym, ◌∙◌, ap, true, false, Option,
  none, some, [], ◌∷◌, ◌++◌, Bytes, length, arith, min, take, drop, append_assoc, Bool-cases, ◌==◌,
  length-drop, drop-drop, take-append-drop, ==_iff,
}
use bjoern.Python.{Iter}
use bjoern.Request.{Request, Chunk, no_chunk, chunk, dangling}
use bjoern.Response.Start.{IsLive}
use bjoern.Server.{RwState, not_yet_done, IoResult, sent, would_block}
use bjoern.Server.Write.{has_rest, following_chunk, emit, on_write_chunk}
use bjoern.Server.Stream.{is_kept, encode_rest, unsent, pending, pending_of}
use bjoern.Server.Between.{HasRest, IsStreaming, Sends, has_rest_lt, Sends-following, Sends-emit}

module _ (n : ℕ) (r : Request) (s : Bytes) (e : r.current_chunk ≡ chunk s)
    (h : has_rest s r.current_chunk_p ≡ true) where
  pub wrote_whole :
      (r.current_chunk_p + n == length s) ≡ true
      → on_write_chunk (sent n) r
        ≡ emit (take n (drop r.current_chunk_p s)) (
            following_chunk r.iterator (record r { current_chunk = no_chunk; current_chunk_p = 0 }))
  unfolding on_write_chunk
  wrote_whole w = ground arith

  wrote_part :
      (r.current_chunk_p + n == length s) ≡ false
      → on_write_chunk (sent n) r
        ≡ some (
          record r { current_chunk_p = r.current_chunk_p + n },
          take n (drop r.current_chunk_p s),
          not_yet_done,
        )
  unfolding on_write_chunk
  wrote_part w = ground arith

pub take_all : (n : ℕ) (s : Bytes) → length s ≤ n → take n s ≡ s
take_all zero [] h = refl
take_all zero (x ∷ s) h = absurd (omega arith)
take_all (suc n) [] h = refl
take_all (suc n) (x ∷ s) h = ap (λ t. x ∷ t) (take_all n s (omega arith))

pub part_rest :
    (n p : ℕ) (s : Bytes)
    → p < length s
    → n ≤ length s - p
    → (p + n == length s) ≡ false
    → p + n < length s
part_rest n p s h le w = ground arith

pub drop_split : (n p : ℕ) (s : Bytes) → take n (drop p s) ++ drop (p + n) s ≡ drop p s
drop_split n p s =
    ap (λ t. take n (drop p s) ++ t) (sym (drop-drop p n s)) ∙ take-append-drop n (drop p s)

IsLive-position :
    (r : Request) (ch : Chunk) (p : ℕ)
    → IsLive r
    → IsLive (record r { current_chunk = ch; current_chunk_p = p })
IsLive-position r ch p live = record { called = live.called; answered = live.answered }

IsLive-of :
    (r : Request) (it : Iter) → r.iterator ≡ some it → (r.iterator ≡ none) ⊎ IsLive r → IsLive r
IsLive-of r it e (inl n) = absurd (let bad : none ≡ some it = sym n ∙ e in cc)
IsLive-of r it e (inr live) = live

IsLive-moved :
    (r : Request) (s : Bytes) (p : ℕ)
    → r.current_chunk ≡ chunk s
    → (r.iterator ≡ none) ⊎ IsLive r
    → (r.iterator ≡ none) ⊎ IsLive (record r { current_chunk_p = p })
IsLive-moved r s p e (inl n) = inl n
IsLive-moved r s p e (inr live) = inr (record { called = live.called; answered = live.answered })

-- One `write` that takes `n` bytes of the current chunk.
Sends-sent :
    (n : ℕ) (r : Request) (s : Bytes)
    → r.current_chunk ≡ chunk s
    → r.current_chunk_p < length s
    → IsStreaming r
    → n ≤ length (drop r.current_chunk_p s)
    → Sends (pending r) (is_kept r) (on_write_chunk (sent n) r)
unfolding unsent
Sends-sent n r s e h streaming le =
    let p = r.current_chunk_p in
    let now : pending r ≡ drop p s ++ encode_rest r.state.chunked_response r.iterator =
      pending_of r (chunk s) p r.state.chunked_response r.iterator e refl refl refl in
    let size = length-drop p s in
    rw now (elim (Bool-cases (p + n == length s)) [
      | inl w ↦
          let whole = (==_iff (p + n) (length s)).0 w in
          rw (wrote_whole n r s e (has_rest_lt p s h) w, take_all n (drop p s) (omega arith))
            (Sends-emit (is_kept r) (encode_rest r.state.chunked_response r.iterator) (drop p s) _ (
              Sends-following r.state.keep_alive
                (record r { current_chunk = no_chunk; current_chunk_p = 0 }) r.iterator refl
                (record {
                  kept = refl;
                  position = refl;
                  plain = streaming.plain;
                  no_expect = streaming.no_expect;
                })
                (λ it q. IsLive-position r no_chunk 0 (IsLive-of r it q streaming.live))))
      | inr w ↦ rw (wrote_part n r s e (has_rest_lt p s h) w) (
        record {
          current = rw e (part_rest n p s h (omega arith) w);
          plain = streaming.plain;
          no_expect = streaming.no_expect;
          live = IsLive-moved r s (p + n) e streaming.live;
        },
        ap (λ t. take n (drop p s) ++ t)
              (pending_of _ (chunk s) (p + n) r.state.chunked_response r.iterator e refl refl refl)
            ∙ sym (
                append_assoc (take n (drop p s)) (drop (p + n) s)
                  (encode_rest r.state.chunked_response r.iterator))
            ∙ ap (λ t. t ++ encode_rest r.state.chunked_response r.iterator) (drop_split n p s),
        refl,
      )
    ])

-- What `write` may return when it is offered what is left of the current chunk, and the socket
-- takes at most `room` bytes: `EAGAIN` for no room, and else as many bytes as there is room for.
unfoldable pub offer : ℕ → Request → IoResult
offer zero r = would_block
offer (suc k) r = sent (min (suc k) (length (unsent r.current_chunk r.current_chunk_p)))

wrote_none :
    (r : Request) (s : Bytes)
    → r.current_chunk ≡ chunk s
    → has_rest s r.current_chunk_p ≡ true
    → on_write_chunk would_block r ≡ some (r, [], not_yet_done)
unfolding on_write_chunk
wrote_none r s e h = ground arith

pub HasRest-chunk :
    (ch : Chunk) (p : ℕ) → HasRest ch p → (s : Bytes) × (ch ≡ chunk s) × (p < length s)
HasRest-chunk (chunk s) p h = (s, refl, h)
HasRest-chunk no_chunk p h = absurd h
HasRest-chunk dangling p h = absurd h

-- One call of `on_write_chunk`, for any room in the socket: it never faults, and what it writes and
-- what is left to send then make up what was left to send before.
pub on_write_chunk-pending :
    (room : ℕ) (r : Request)
    → IsStreaming r
    → Sends (pending r) (is_kept r) (on_write_chunk (offer room r) r)
unfolding offer
on_write_chunk-pending zero r streaming =
    let (s, e, h) = HasRest-chunk r.current_chunk r.current_chunk_p streaming.current in
    rw (wrote_none r s e (has_rest_lt r.current_chunk_p s h)) (streaming, refl, refl)
on_write_chunk-pending (suc k) r streaming =
    let (s, e, h) = HasRest-chunk r.current_chunk r.current_chunk_p streaming.current in
    Sends-sent (min (suc k) (length (unsent r.current_chunk r.current_chunk_p))) r s e h streaming (
      let f : length (unsent r.current_chunk r.current_chunk_p)
          ≡ length (drop r.current_chunk_p s) =
        rw e (unfold unsent in refl) in
      omega arith)

emit-out :
    (out : Bytes) (res : Option (Request × RwState)) {r : Request} {out' : Bytes} {state : RwState}
    → emit out res ≡ some (r, out', state)
    → out' ≡ out
emit-out out none h = cc
emit-out out (some (r, state)) h = cc

length-take_pos : (n : ℕ) (s : Bytes) → 0 < n → 0 < length s → 0 < length (take n s)
length-take_pos zero s h l = elim h [ ]
length-take_pos (suc n) [] h l = elim l [ ]
length-take_pos (suc n) (x ∷ s) h l = omega arith

-- Where the socket has room, something is written.
pub on_write_chunk_writes :
    (k : ℕ) (r : Request) {r' : Request} {out : Bytes} {state : RwState}
    → IsStreaming r
    → on_write_chunk (offer (suc k) r) r ≡ some (r', out, state)
    → 0 < length out
unfolding offer unsent
on_write_chunk_writes k r {r'} {out} {state} streaming eq =
    let p = r.current_chunk_p in
    let (s, e, h) = HasRest-chunk r.current_chunk p streaming.current in
    let n = min (suc k) (length (unsent r.current_chunk p)) in
    let room : length (unsent r.current_chunk p) ≡ length (drop p s) = rw e refl in
    let some_out =
      length-take_pos n (drop p s) (omega (arith, length-drop p s))
        (omega (arith, length-drop p s)) in
    elim (Bool-cases (p + n == length s)) [
      | inl w ↦
          let same = emit-out _ _ (sym (wrote_whole n r s e (has_rest_lt p s h) w) ∙ eq) in
          rw same some_out
      | inr w ↦
          let same =
            emit-out (take n (drop p s)) (some (record r { current_chunk_p = p + n }, not_yet_done))
              (sym (wrote_part n r s e (has_rest_lt p s h) w) ∙ eq) in
          rw same some_out
    ]
