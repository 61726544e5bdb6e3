-- ===== src/Url/Laws.antt =====
-- What the percent-decoding of bjoern/common.c promises its callers: it undoes an encoder, keeps
-- within the buffer, and refuses a text that breaks off inside an escape.
use bjoern.Common.{
  ℕ, suc, ◌+◌, ◌-◌, ◌*◌, ◌/◌, ◌%◌, ◌<◌, ◌≤◌, ◌≡◌, refl, ◌∙◌, Option, none, some, [], ◌∷◌, ◌++◌,
  true, false, Bool, Bytes, ltb, ◌==◌, All, length, arith, if◌then◌else◌, Bool-cases, Option-cases,
  inl, inr, take, ap, ==_iff,
}
use bjoern.Url.{unhex, unquote_url_inplace}
use bjoern.Url.Decode.{hex_pair, push, decode, decode_plain, decode_bad, decode_escape}
use bjoern.Url.InPlace.{Agrees, unquote_url_inplace-decode}

hex_digit : ℕ → ℕ
hex_digit n = if ltb n 10 then b'0' + n else b'A' + (n - 10)

-- An encoder: the bytes of `keep` stand for themselves, and every other byte is escaped.
pub quote : (ℕ → Bool) → Bytes → Bytes
quote keep [] = []
quote keep (c ∷ s) = elim (keep c) [
  | true ↦ c ∷ quote keep s
  | false ↦ b'%' ∷ hex_digit (c / 16) ∷ hex_digit (c % 16) ∷ quote keep s
]

unhex-hex_digit : (n : ℕ) → n < 16 → unhex (hex_digit n) ≡ some n
unfolding unhex hex_digit
unhex-hex_digit n h = ground arith

hex_pair_of : (h l a b : ℕ) → unhex h ≡ some a → unhex l ≡ some b → hex_pair h l ≡ some (a * 16 + b)
hex_pair_of h l a b p q = ground arith

hex_pair-hex_digit : (c : ℕ) → c < 256 → hex_pair (hex_digit (c / 16)) (hex_digit (c % 16)) ≡ some c
hex_pair-hex_digit c h =
    hex_pair_of _ _ _ _ (unhex-hex_digit (c / 16) (omega arith))
      (unhex-hex_digit (c % 16) (omega arith))
    ∙ ap {B = Option ℕ} some (omega arith)

decode_single : (c : ℕ) → (c == b'%') ≡ true → decode (c ∷ []) ≡ none
unfolding decode
decode_single c e = ground arith

decode_double : (c h : ℕ) → (c == b'%') ≡ true → decode (c ∷ h ∷ []) ≡ none
unfolding decode
decode_double c h e = ground arith

decode_keep : (c : ℕ) (s : Bytes) → (c == b'%') ≡ false → decode (c ∷ s) ≡ push c (decode s)
unfolding decode
decode_keep c [] e = ground arith
decode_keep c (h ∷ []) e = ground arith
decode_keep c (h ∷ l ∷ s) e = decode_plain c h l s e

module _ (keep : ℕ → Bool) (c : ℕ) (s : Bytes) where
  quote_keep : keep c ≡ true → quote keep (c ∷ s) ≡ c ∷ quote keep s
  unfolding quote
  quote_keep e = ground arith

  quote_escape :
      keep c ≡ false
      → quote keep (c ∷ s) ≡ b'%' ∷ hex_digit (c / 16) ∷ hex_digit (c % 16) ∷ quote keep s
  unfolding quote
  quote_escape e = ground arith

keep-ne : (keep : ℕ → Bool) (c : ℕ) → keep b'%' ≡ false → keep c ≡ true → (c == b'%') ≡ false
keep-ne keep c k e = elim (Bool-cases (c == b'%')) [
  | inl p ↦ let q : c ≡ b'%' = (==_iff c b'%').0 p in cc (ap keep q)
  | inr n ↦ n
]

decode-quote :
    (keep : ℕ → Bool) (s : Bytes)
    → keep b'%' ≡ false
    → All (λ c. c < 256) s
    → decode (quote keep s) ≡ some s
decode-quote keep [] k h = unfold quote decode in refl
decode-quote keep (c ∷ s) k h =
    let ih = decode-quote keep s k h.1 in
    elim (Bool-cases (keep c)) [
      | inl e ↦
          rw (quote_keep keep c s e, decode_keep c (quote keep s) (keep-ne keep c k e), ih) refl
      | inr e ↦
          rw
            (
              quote_escape keep c s e,
              decode_escape b'%' _ _ (quote keep s) c refl (hex_pair-hex_digit c h.0),
              ih,
            )
            refl
    ]

-- Percent-decoding in place undoes percent-encoding, whichever bytes but `%` the encoder leaves as
-- they are: the length returned is that of the original text, and the buffer begins with it.
pub unquote_url_inplace-quote :
    (keep : ℕ → Bool) (s : Bytes)
    → keep b'%' ≡ false
    → All (λ c. c < 256) s
    → let r = unquote_url_inplace (quote keep s) in (r.0 ≡ length s) × (take r.0 r.1 ≡ s)
unquote_url_inplace-quote keep s k h =
    let agrees = unquote_url_inplace-decode (quote keep s) in rw (decode-quote keep s k h) at agrees

-- A decoded text is at most so long, and is made of bytes.
abbrev Fits : ℕ → Option Bytes → Type 0
Fits n none = Unit
Fits n (some t) = (length t ≤ n) × All (λ c. c < 256) t

Fits-push : (n c : ℕ) (o : Option Bytes) → c < 256 → Fits n o → Fits (suc n) (push c o)
Fits-push n c none h f = tt
Fits-push n c (some t) h f = (omega arith, (h, f.1))

Fits-weaken : (n : ℕ) (o : Option Bytes) → Fits n o → Fits (suc (suc n)) o
Fits-weaken n none f = tt
Fits-weaken n (some t) f = (omega arith, f.1)

hex_pair-lt : (h l b : ℕ) → hex_pair h l ≡ some b → b < 256
unfolding unhex
hex_pair-lt h l b e = ground arith

Fits-decode : (s : Bytes) → All (λ c. c < 256) s → Fits (length s) (decode s)
Fits-decode [] b = unfold decode in omega arith
Fits-decode (c ∷ []) b = elim (Bool-cases (c == b'%')) [
  | inl e ↦ rw (decode_single c e) tt
  | inr e ↦ rw (decode_keep c [] e) (Fits-push 0 c _ b.0 (Fits-decode [] tt))
]
Fits-decode (c ∷ h ∷ []) b = elim (Bool-cases (c == b'%')) [
  | inl e ↦ rw (decode_double c h e) tt
  | inr e ↦ rw (decode_keep c (h ∷ []) e) (Fits-push 1 c _ b.0 (Fits-decode (h ∷ []) b.1))
]
Fits-decode (c ∷ h ∷ l ∷ s) b = elim (Bool-cases (c == b'%')) [
  | inl e ↦ elim (Option-cases (hex_pair h l)) [
    | inl bad ↦ rw (decode_bad c h l s e bad) tt
    | inr (v, good) ↦ rw (decode_escape c h l s v e good) (
        Fits-weaken _ (push v (decode s))
          (Fits-push (length s) v (decode s) (hex_pair-lt h l v good) (Fits-decode s b.1.1.1)))
  ]
  | inr e ↦ rw (decode_keep c (h ∷ l ∷ s) e) (Fits-push _ c _ b.0 (Fits-decode (h ∷ l ∷ s) b.1))
]

decode_cut : (s t : Bytes) → length t < 2 → decode (s ++ b'%' ∷ t) ≡ none
unfolding decode unhex
decode_cut [] [] h = refl
decode_cut [] (x ∷ []) h = refl
decode_cut [] (x ∷ y ∷ t) h = absurd (omega arith)
decode_cut (c ∷ []) [] h = ground arith
decode_cut (c ∷ []) (x ∷ []) h = ground arith
decode_cut (c ∷ []) (x ∷ y ∷ t) h = absurd (omega arith)
decode_cut (c ∷ d ∷ []) t h = ground (arith, decode_cut (d ∷ []) t h)
decode_cut (c ∷ d ∷ e ∷ s) t h = ground (arith, decode_cut (d ∷ e ∷ s) t h, decode_cut s t h)

Fits-Agrees :
    (n : ℕ) (o : Option Bytes) (r : ℕ × Bytes)
    → Fits n o
    → Agrees o [] r
    → (r.0 ≤ n) × All (λ c. c < 256) (take r.0 r.1)
Fits-Agrees n none r f a = rw a (omega arith, tt)
Fits-Agrees n (some t) r f a = (omega arith, rw a.1 f.1)

-- The length returned never passes the length given, and the bytes that it counts are bytes.
pub unquote_url_inplace_bounds :
    (s : Bytes)
    → All (λ c. c < 256) s
    → let r = unquote_url_inplace s in (r.0 ≤ length s) × All (λ c. c < 256) (take r.0 r.1)
unquote_url_inplace_bounds s b =
    Fits-Agrees (length s) (decode s) _ (Fits-decode s b) (unquote_url_inplace-decode s)

-- A text whose last or last but one byte is a `%` is refused: the length returned is 0.
pub unquote_url_inplace_cut :
    (s t : Bytes) → length t < 2 → (unquote_url_inplace (s ++ b'%' ∷ t)).0 ≡ 0
unquote_url_inplace_cut s t h =
    let agrees = unquote_url_inplace-decode (s ++ b'%' ∷ t) in rw (decode_cut s t h) at agrees
