-- ===== src/Server/File.antt =====
-- `on_write_sendfile` of bjoern/server.c: a response that is a head followed by a file, whatever
-- part of it each `write` and each `sendfile` takes.
use bjoern.Common.{
  ◌≢◌, ℕ, zero, suc, ◌+◌, ◌≤◌, ◌<◌, ◌≡◌, inl, inr, refl, sym, ◌∙◌, ap, subst, true, false, Option,
  some, [], ◌∷◌, ◌++◌, Bytes, length, arith, min, take, drop, append_assoc, Bool-cases, ◌==◌,
  length-drop, drop-drop, take-append-drop, ==_iff, Bool,
}
use bjoern.Request.{Request, Chunk, no_chunk, chunk, dangling, wrapper}
use bjoern.Server.{RwState, not_yet_done, done, IoResult, sent, would_block}
use bjoern.Server.Write.{
  Out, Io, sendfile_phase, file_sent, head_sent, do_sendfile, do_send_chunk, on_write_sendfile,
  has_rest,
}
use bjoern.Server.Between.{has_rest_lt}
use bjoern.Server.Stream.{unsent}
use bjoern.Server.Progress.{offer, take_all, part_rest, drop_split}

-- What is left to send: the rest of the head and the file from an offset, or the rest of the file.
abbrev pub left_of_file : Bytes → ℕ → Chunk → ℕ → Bytes
left_of_file file offset (chunk s) p = drop p s ++ drop offset file
left_of_file file offset no_chunk p = drop p file
left_of_file file offset dangling p = []

abbrev pub HeadRest : Chunk → ℕ → Type 0
HeadRest (chunk s) p = p < length s
HeadRest no_chunk p = Unit
HeadRest dangling p = ⊥

-- A response that is sent as a file, and is not finished.
pub record IsSendingFile (r : Request) : Type 0 where
  pub descriptor : (fd : ℕ) × (r.iterable ≡ wrapper (some fd))
  pub head_rest : HeadRest r.current_chunk r.current_chunk_p
  pub no_expect : r.state.expect_continue ≡ false

-- What `sendfile` may return where the socket takes at most `room` bytes, for a file that is read
-- from a position.
abbrev pub offer_file : ℕ → Bytes → ℕ → IoResult
offer_file zero file p = would_block
offer_file (suc k) file p = sent (min (suc k) (length (drop p file)))

-- What a call of the handler meets; the file's offset is `offset`.
unfoldable pub file_io : ℕ → Bytes → ℕ → Request → Io
unfolding offer
file_io room file offset r = record {
  written = offer room r;
  seek = some offset;
  file_io = offer_file room file r.current_chunk_p;
  file = file;
}

-- What a call has done with a stream. With room in the socket it writes something, or it is done.
abbrev pub SendsFile : ℕ → Bytes → ℕ → Bool → Bytes → Option (Out RwState) → Type 0
SendsFile room file offset keep stream (some (r, out, not_yet_done)) =
    IsSendingFile r
    × (out ++ left_of_file file offset r.current_chunk r.current_chunk_p ≡ stream)
    × (min room 1 ≤ length out)
    × (r.state.keep_alive ≡ keep)
SendsFile room file offset keep stream (some (r, out, done)) =
    (out ≡ stream) × (r.state.keep_alive ≡ keep) × (r.state.expect_continue ≡ false)
SendsFile room file offset keep stream _ = ⊥

module _ (n : ℕ) (r : Request) (s : Bytes) (e : r.current_chunk ≡ chunk s)
    (h : has_rest s r.current_chunk_p ≡ true) where
  head_whole :
      (r.current_chunk_p + n == length s) ≡ true
      → do_send_chunk (sent n) r
        ≡ some (
          record r { current_chunk = no_chunk; current_chunk_p = 0 },
          take n (drop r.current_chunk_p s),
          false,
        )
  unfolding do_send_chunk
  head_whole w = ground arith

  head_part :
      (r.current_chunk_p + n == length s) ≡ false
      → do_send_chunk (sent n) r
        ≡ some (
          record r { current_chunk_p = r.current_chunk_p + n },
          take n (drop r.current_chunk_p s),
          true,
        )
  unfolding do_send_chunk
  head_part w = ground arith

head_blocked :
    (r : Request) (s : Bytes)
    → r.current_chunk ≡ chunk s
    → has_rest s r.current_chunk_p ≡ true
    → do_send_chunk would_block r ≡ some (r, [], true)
unfolding do_send_chunk
head_blocked r s e h = ground arith

length_zero : (s : Bytes) → length s ≡ 0 → [] ≡ s
length_zero [] e = refl
length_zero (c ∷ s) e = absurd (omega arith)

file_end :
    (n : ℕ) (file : Bytes) (r : Request)
    → (n == 0) ≡ true
    → do_sendfile file (sent n) r ≡ (r, [], false)
unfolding do_sendfile
file_end n file r e = rw e refl

file_part :
    (n : ℕ) (file : Bytes) (r : Request)
    → (n == 0) ≡ false
    → do_sendfile file (sent n) r ≡ (
      record r { current_chunk_p = r.current_chunk_p + n },
      take n (drop r.current_chunk_p file),
      true,
    )
unfolding do_sendfile
file_part n file r e = rw e refl

in_file :
    (io : Io) (r : Request)
    → r.current_chunk ≡ no_chunk
    → on_write_sendfile io r ≡ file_sent (do_sendfile io.file io.file_io r)
unfolding on_write_sendfile
in_file io r e = ap (λ c. sendfile_phase io c r) e

in_head :
    (io : Io) (r : Request) (s : Bytes)
    → r.current_chunk ≡ chunk s
    → on_write_sendfile io r ≡ head_sent io.seek (do_send_chunk io.written r)
unfolding on_write_sendfile
in_head io r s e = ap (λ c. sendfile_phase io c r) e

length-take_min : (n : ℕ) (s : Bytes) → n ≤ length s → length (take n s) ≡ n
length-take_min zero s h = refl
length-take_min (suc n) [] h = absurd (omega arith)
length-take_min (suc n) (c ∷ s) h = ap suc (length-take_min n s (omega arith))

-- The file's own phase.
pub file_phase :
    (room : ℕ) (file : Bytes) (offset : ℕ) (r : Request)
    → IsSendingFile r
    → r.current_chunk ≡ no_chunk
    → SendsFile room file offset r.state.keep_alive
        (drop r.current_chunk_p file)
        (on_write_sendfile (file_io room file offset r) r)
unfolding file_io do_sendfile
file_phase zero file offset r sending e =
    rw (in_file (file_io zero file offset r) r e)
      (sending, ap (λ c. left_of_file file offset c r.current_chunk_p) e, omega arith, refl)
file_phase (suc k) file offset r sending e =
    let p = r.current_chunk_p in
    let n = min (suc k) (length (drop p file)) in
    rw (in_file (file_io (suc k) file offset r) r e) (elim (Bool-cases (n == 0)) [
      | inl w ↦
          let z = (==_iff n 0).0 w in
          rw (file_end n file r w)
            (length_zero (drop p file) (omega arith), refl, sending.no_expect)
      | inr w ↦ rw (file_part n file r w) (
        record {
          descriptor = sending.descriptor;
          head_rest = subst (λ c. HeadRest c (p + n)) (sym e) tt;
          no_expect = sending.no_expect;
        },
        ap (λ c. take n (drop p file) ++ left_of_file file offset c (p + n)) e
            ∙ ap (λ t. take n (drop p file) ++ t) (sym (drop-drop p n file))
            ∙ take-append-drop n (drop p file),
        (let len = length-take_min n (drop p file) (omega arith) in
            let pos : n ≢ 0 = (λ z. cc (sym w ∙ (==_iff n 0).1 z)) in omega arith),
        refl,
      )
    ])

-- The head's.
pub head_phase :
    (room : ℕ) (file : Bytes) (offset : ℕ) (r : Request) (s : Bytes)
    → IsSendingFile r
    → r.current_chunk ≡ chunk s
    → r.current_chunk_p < length s
    → SendsFile room file offset r.state.keep_alive
        (drop r.current_chunk_p s ++ drop offset file)
        (on_write_sendfile (file_io room file offset r) r)
unfolding file_io offer
head_phase zero file offset r s sending e h =
    rw
      (
        in_head (file_io zero file offset r) r s e,
        head_blocked r s e (has_rest_lt r.current_chunk_p s h),
      )
      (sending, ap (λ c. left_of_file file offset c r.current_chunk_p) e, omega arith, refl)
head_phase (suc k) file offset r s sending e h =
    let p = r.current_chunk_p in
    let n = min (suc k) (length (drop p s)) in
    let size = length-drop p s in
    let len = length-take_min n (drop p s) (omega arith) in
    let same : min (suc k) (length (unsent r.current_chunk p)) ≡ n =
      ap (λ c. min (suc k) (length (unsent c p))) e ∙ (unfold unsent in refl) in
    rw (in_head (file_io (suc k) file offset r) r s e, same)
      (elim (Bool-cases (p + n == length s)) [
        | inl w ↦
            let whole = (==_iff (p + n) (length s)).0 w in
            rw (head_whole n r s e (has_rest_lt p s h) w) (
              record {
                descriptor = sending.descriptor;
                head_rest = tt;
                no_expect = sending.no_expect;
              },
              ap (λ t. t ++ drop offset file) (take_all n (drop p s) (omega arith)),
              omega arith,
              refl,
            )
        | inr w ↦ rw (head_part n r s e (has_rest_lt p s h) w) (
          record {
            descriptor = sending.descriptor;
            head_rest = subst (λ c. HeadRest c (p + n)) (sym e) (part_rest n p s h (omega arith) w);
            no_expect = sending.no_expect;
          },
          ap (λ c. take n (drop p s) ++ left_of_file file offset c (p + n)) e
              ∙ sym (append_assoc (take n (drop p s)) (drop (p + n) s) (drop offset file))
              ∙ ap (λ t. t ++ drop offset file) (drop_split n p s),
          omega arith,
          refl,
        )
      ])
