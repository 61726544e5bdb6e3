-- ===== src/Url/InPlace.antt =====
-- The in-place loop of bjoern/common.c against `decode`: writing behind the read pointer never
-- overwrites what is still to be read.
use bjoern.Common.{
  ℕ, zero, suc, ◌+◌, ◌-◌, ◌<◌, ◌≤◌, ◌≡◌, refl, sym, ap, ◌∙◌, Option, none, some, [], ◌∷◌, ◌++◌,
  true, false, Bytes, ◌==◌, length, arith, Bool-cases, Option-cases, inl, inr, take, drop, set,
  get_or, get_or-drop, drop_suc, drop-set, take-set-suc, length-set, length-append, append_assoc,
  append-nil,
}
use bjoern.Url.{unquote_loop, unquote_url_inplace}
use bjoern.Url.Decode.{hex_pair, push, decode, decode_plain, decode_bad, decode_escape}

-- The result of the loop says what decoding the unread bytes says, behind the bytes done.
abbrev pub Agrees : Option Bytes → Bytes → ℕ × Bytes → Type 0
Agrees none done r = r.0 ≡ 0
Agrees (some out) done r = (r.0 ≡ length (done ++ out)) × (take r.0 r.1 ≡ done ++ out)

Agrees-push :
    (o : Option Bytes) (done : Bytes) (c : ℕ) (r : ℕ × Bytes)
    → Agrees o (done ++ c ∷ []) r
    → Agrees (push c o) done r
Agrees-push none done c r h = h
Agrees-push (some out) done c r h = rw (append_assoc done (c ∷ []) out) at h

-- What holds before each round: the read pointer, the write pointer, the unread bytes.
record Cursor (buf : Bytes) (p url end len : ℕ) (done rest : Bytes) : Type 0 where
  behind : p ≤ url
  written : take p buf ≡ done
  count : length done ≡ p
  unread : drop url buf ≡ rest
  size : length buf ≡ end
  left : url + length rest ≡ end
  result : len ≡ p + length rest

-- One round: `v` is written and `k` bytes are passed.
Cursor-write :
    (buf : Bytes) (p url end len : ℕ) (done rest : Bytes) (v : ℕ) (x : ℕ) (k len' : ℕ)
    (rest' : Bytes)
    → Cursor buf p url end len done (x ∷ rest)
    → drop (url + suc k) buf ≡ rest'
    → length (x ∷ rest) ≡ suc k + length rest'
    → len' + k ≡ len
    → Cursor (set buf p v) (p + 1) (url + suc k) end len' (done ++ v ∷ []) rest'
Cursor-write buf p url end len done rest v x k len' rest' c d e l = record {
  behind = omega arith;
  written =
      rw (add_one p) (take-set-suc p buf v (omega arith))
      ∙ ap (λ (t : Bytes). t ++ v ∷ []) c.written;
  count = omega (arith, length-append done (v ∷ []));
  unread = drop-set (url + suc k) p buf v (omega arith) ∙ d;
  size = length-set buf p v ∙ c.size;
  left = omega arith;
  result = omega arith;
}
  where
    add_one : (n : ℕ) → n + 1 ≡ suc n
    add_one n = omega arith

-- The four ways a round ends.
module _ (fuel : ℕ) (buf : Bytes) (p url end len : ℕ) where
  round_end : url ≡ end → unquote_loop (suc fuel) buf p url end len ≡ (len, buf)
  unfolding unquote_loop
  round_end e = ground arith

  round_plain :
      (x : ℕ)
      → url < end
      → get_or buf url 0 ≡ x
      → (x == b'%') ≡ false
      → unquote_loop (suc fuel) buf p url end len
        ≡ unquote_loop fuel (set buf p x) (p + 1) (url + 1) end len
  unfolding unquote_loop
  round_plain x lt g e = ground arith

  round_short :
      (x : ℕ)
      → url < end
      → get_or buf url 0 ≡ x
      → (x == b'%') ≡ true
      → end ≤ url + 2
      → unquote_loop (suc fuel) buf p url end len ≡ (0, buf)
  unfolding unquote_loop
  round_short x lt g e short = ground arith

  round_bad :
      (x h l : ℕ)
      → url + 2 < end
      → get_or buf url 0 ≡ x
      → (x == b'%') ≡ true
      → get_or buf (url + 1) 0 ≡ h
      → get_or buf (url + 2) 0 ≡ l
      → hex_pair h l ≡ none
      → unquote_loop (suc fuel) buf p url end len ≡ (0, buf)
  unfolding unquote_loop
  round_bad x h l lt g e gh gl bad = ground arith

  round_escape :
      (x h l b : ℕ)
      → url + 2 < end
      → get_or buf url 0 ≡ x
      → (x == b'%') ≡ true
      → get_or buf (url + 1) 0 ≡ h
      → get_or buf (url + 2) 0 ≡ l
      → hex_pair h l ≡ some b
      → unquote_loop (suc fuel) buf p url end len
        ≡ unquote_loop fuel (set buf p b) (p + 1) (url + 3) end (len - 2)
  unfolding unquote_loop
  round_escape x h l b lt g e gh gl good = ground arith

Cursor-done :
    (buf : Bytes) (p url end len : ℕ) (done : Bytes)
    → Cursor buf p url end len done []
    → Agrees (some []) done (len, buf)
Cursor-done buf p url end len done c =
    let e : len ≡ p = omega arith in rw append-nil (e ∙ sym c.count, rw e c.written)

module _ (buf : Bytes) (p url end len : ℕ) (done : Bytes) (x : ℕ) (rest : Bytes)
    (c : Cursor buf p url end len done (x ∷ rest)) where
  Cursor-plain : Cursor (set buf p x) (p + 1) (url + 1) end len (done ++ x ∷ []) rest
  Cursor-plain =
      Cursor-write buf p url end len done rest x x 0 len rest c (drop_suc url x rest buf c.unread)
        (omega arith) (omega arith)

  Cursor-get : get_or buf url 0 ≡ x
  Cursor-get = get_or-drop url buf 0 c.unread

module _ (buf : Bytes) (p url end len : ℕ) (done : Bytes) (x h l : ℕ) (rest : Bytes)
    (c : Cursor buf p url end len done (x ∷ h ∷ l ∷ rest)) where
  drop_second : drop (url + 1) buf ≡ h ∷ l ∷ rest
  drop_second = drop_suc url x (h ∷ l ∷ rest) buf c.unread

  drop_third : drop (url + 2) buf ≡ l ∷ rest
  drop_third =
      let e : url + 1 + 1 ≡ url + 2 = omega arith in
      rw e at (drop_suc (url + 1) h (l ∷ rest) buf drop_second)

  Cursor-escape :
      (b : ℕ) → Cursor (set buf p b) (p + 1) (url + 3) end (len - 2) (done ++ b ∷ []) rest
  Cursor-escape b =
      let e : url + 2 + 1 ≡ url + 3 = omega arith in
      Cursor-write buf p url end len done (h ∷ l ∷ rest) b x 2 (len - 2) rest c
        (rw e at (drop_suc (url + 2) l rest buf drop_third)) (omega arith) (omega arith)

-- A round that copies a byte, when the rounds behind it agree with decoding the bytes left.
Agrees-plain :
    (fuel : ℕ) (buf : Bytes) (p url end len : ℕ) (done : Bytes) (x : ℕ) (rest : Bytes)
    → Cursor buf p url end len done (x ∷ rest)
    → (x == b'%') ≡ false
    → Agrees
        (decode rest)
        (done ++ x ∷ [])
        (unquote_loop fuel (set buf p x) (p + 1) (url + 1) end len)
    → Agrees (push x (decode rest)) done (unquote_loop (suc fuel) buf p url end len)
Agrees-plain fuel buf p url end len done x rest c e ih =
    rw
      (round_plain fuel buf p url end len x (omega arith)
        (Cursor-get buf p url end len done x rest c) e)
      (Agrees-push (decode rest) done x _ ih)

-- A round at a `%` that has two bytes behind it.
Agrees-escape :
    (fuel : ℕ) (buf : Bytes) (p url end len : ℕ) (done : Bytes) (x h l : ℕ) (rest : Bytes)
    → Cursor buf p url end len done (x ∷ h ∷ l ∷ rest)
    → (x == b'%') ≡ true
    → ((b : ℕ)
        → Agrees
            (decode rest)
            (done ++ b ∷ [])
            (unquote_loop fuel (set buf p b) (p + 1) (url + 3) end (len - 2)))
    → Agrees (decode (x ∷ h ∷ l ∷ rest)) done (unquote_loop (suc fuel) buf p url end len)
Agrees-escape fuel buf p url end len done x h l rest c e ih =
    let gx = Cursor-get buf p url end len done x (h ∷ l ∷ rest) c in
    let gh = get_or-drop (url + 1) buf 0 (drop_second buf p url end len done x h l rest c) in
    let gl = get_or-drop (url + 2) buf 0 (drop_third buf p url end len done x h l rest c) in
    elim (Option-cases (hex_pair h l)) [
      | inl bad ↦
          rw
            (
              decode_bad x h l rest e bad,
              round_bad fuel buf p url end len x h l (omega arith) gx e gh gl bad,
            )
            refl
      | inr (b, good) ↦
          rw
            (
              decode_escape x h l rest b e good,
              round_escape fuel buf p url end len x h l b (omega arith) gx e gh gl good,
            )
            (Agrees-push (decode rest) done b _ (ih b))
    ]

-- The body of the loop against `decode`, for any fuel above the number of bytes left.
unquote_loop-Agrees :
    (fuel : ℕ) (buf : Bytes) (p url end len : ℕ) (done rest : Bytes)
    → Cursor buf p url end len done rest
    → length rest < fuel
    → Agrees (decode rest) done (unquote_loop fuel buf p url end len)
unfolding decode
unquote_loop-Agrees zero buf p url end len done rest c lt = elim lt [ ]
unquote_loop-Agrees (suc fuel) buf p url end len done [] c lt =
    rw (round_end fuel buf p url end len (omega arith)) (Cursor-done buf p url end len done c)
unquote_loop-Agrees (suc fuel) buf p url end len done (x ∷ []) c lt =
    elim (Bool-cases (x == b'%')) [
      | inl e ↦
          rw
            (
              e,
              round_short fuel buf p url end len x (omega arith)
                  (Cursor-get buf p url end len done x [] c) e (omega arith),
            )
            refl
      | inr e ↦ rw e (
          Agrees-plain fuel buf p url end len done x [] c e (
            unquote_loop-Agrees fuel (set buf p x) (p + 1) (url + 1) end len (done ++ x ∷ []) []
              (Cursor-plain buf p url end len done x [] c) (omega arith)))
    ]
unquote_loop-Agrees (suc fuel) buf p url end len done (x ∷ h ∷ []) c lt =
    elim (Bool-cases (x == b'%')) [
      | inl e ↦
          rw
            (
              e,
              round_short fuel buf p url end len x (omega arith)
                  (Cursor-get buf p url end len done x (h ∷ []) c) e (omega arith),
            )
            refl
      | inr e ↦ rw e (
          Agrees-plain fuel buf p url end len done x (h ∷ []) c e (
            unquote_loop-Agrees fuel (set buf p x) (p + 1) (url + 1) end len (done ++ x ∷ [])
              (h ∷ []) (Cursor-plain buf p url end len done x (h ∷ []) c) (omega arith)))
    ]
unquote_loop-Agrees (suc fuel) buf p url end len done (x ∷ h ∷ l ∷ rest) c lt =
    elim (Bool-cases (x == b'%')) [
      | inl e ↦ Agrees-escape fuel buf p url end len done x h l rest c e (λ b.
          unquote_loop-Agrees fuel (set buf p b) (p + 1) (url + 3) end (len - 2) (done ++ b ∷ [])
            rest (Cursor-escape buf p url end len done x h l rest c b) (omega arith))
      | inr e ↦ rw (decode_plain x h l rest e) (
          Agrees-plain fuel buf p url end len done x (h ∷ l ∷ rest) c e (
            unquote_loop-Agrees fuel (set buf p x) (p + 1) (url + 1) end len (done ++ x ∷ [])
              (h ∷ l ∷ rest) (Cursor-plain buf p url end len done x (h ∷ l ∷ rest) c)
              (omega arith)))
    ]

-- For every buffer, the in-place loop ends and says what `decode` says of the text: if that decodes
-- to `out`, the length returned is that of `out` and the buffer begins with `out`; if it does not
-- decode, the length returned is 0.
pub unquote_url_inplace-decode : (url : Bytes) → Agrees (decode url) [] (unquote_url_inplace url)
unfolding unquote_url_inplace
unquote_url_inplace-decode url =
    unquote_loop-Agrees (suc (length url)) url 0 0 (length url) (length url) [] url
      (record {
        behind = omega arith;
        written = refl;
        count = omega arith;
        unread = refl;
        size = refl;
        left = omega arith;
        result = omega arith;
      })
      (omega arith)
