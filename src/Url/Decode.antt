-- ===== src/Url/Decode.antt =====
-- Percent-decoding as a function of the text alone, with no buffer: what `unquote_url_inplace` of
-- bjoern/common.c is held to. `quote` is an encoder to decode from.
use bjoern.Common.{
  refl, sym, ◌∙◌, ap, ◌++◌, Bool-cases, Option-cases, inl, inr, ℕ, ◌+◌, ◌*◌, ◌≡◌, Option, none,
  some, [], ◌∷◌, true, false, Bytes, ◌==◌, arith, if◌then◌else◌,
}
use bjoern.Url.{unhex}

-- the byte that two hexadecimal digits stand for
abbrev pub hex_pair : ℕ → ℕ → Option ℕ
hex_pair h l = elim (unhex h) [
  | none ↦ none
  | some a ↦ elim (unhex l) [ none ↦ none | some b ↦ some (a * 16 + b) ]
]

abbrev pub push : ℕ → Option Bytes → Option Bytes
push c none = none
push c (some s) = some (c ∷ s)

unfoldable pub decode : Bytes → Option Bytes
decode [] = some []
decode (c ∷ []) = if c == b'%' then none else some (c ∷ [])
decode (c ∷ h ∷ []) = let rest = decode (h ∷ []) in if c == b'%' then none else push c rest
decode (c ∷ h ∷ l ∷ s) = elim (c == b'%') [
  | true ↦ elim (hex_pair h l) [ none ↦ none | some b ↦ push b (decode s) ]
  | false ↦ push c (decode (h ∷ l ∷ s))
]

-- the three ways to decode a text of three bytes or more
module _ (x h l : ℕ) (s : Bytes) where
  pub decode_plain : (x == b'%') ≡ false → decode (x ∷ h ∷ l ∷ s) ≡ push x (decode (h ∷ l ∷ s))
  unfolding decode
  decode_plain e = ground arith

  pub decode_bad : (x == b'%') ≡ true → hex_pair h l ≡ none → decode (x ∷ h ∷ l ∷ s) ≡ none
  unfolding decode
  decode_bad e bad = ground arith

  pub decode_escape :
      (b : ℕ)
      → (x == b'%') ≡ true
      → hex_pair h l ≡ some b
      → decode (x ∷ h ∷ l ∷ s) ≡ push b (decode s)
  unfolding decode
  decode_escape b e good = ground arith

-- a byte that is not `%` stands for itself, whatever follows
pub decode_byte : (x : ℕ) (t : Bytes) → (x == b'%') ≡ false → decode (x ∷ t) ≡ push x (decode t)
unfolding decode
decode_byte x [] e = ground arith
decode_byte x (h ∷ []) e = ground arith
decode_byte x (h ∷ l ∷ t) e = decode_plain x h l t e

push-inv :
    (x : ℕ) (o : Option Bytes) (a : Bytes)
    → push x o ≡ some a
    → (b : Bytes) × (o ≡ some b) × (a ≡ x ∷ b)
push-inv x none a e = absurd (let bad : none ≡ some a = e in cc)
push-inv x (some b) a e =
    (b, refl, (let q : some (x ∷ b) ≡ some a = e in (let r : a ≡ x ∷ b = cc in r)))

plain_then :
    (c : ℕ) (s t a b : Bytes)
    → (c == b'%') ≡ false
    → ((a' : Bytes) → decode s ≡ some a' → decode (s ++ t) ≡ some (a' ++ b))
    → decode (c ∷ s) ≡ some a
    → decode (c ∷ (s ++ t)) ≡ some (a ++ b)
plain_then c s t a b e more p =
    let (a', p', same) = push-inv c (decode s) a (sym (decode_byte c s e) ∙ p) in
    decode_byte c (s ++ t) e ∙ ap (push c) (more a' p') ∙ ap (λ z. some (z ++ b)) (sym same)

-- Two texts that decode each by itself decode together.
pub decode-append :
    (s t a b : Bytes) → decode s ≡ some a → decode t ≡ some b → decode (s ++ t) ≡ some (a ++ b)
unfolding decode
decode-append [] t a b p q = let same : a ≡ [] = (let e : some [] ≡ some a = p in cc) in rw same q
decode-append (c ∷ []) t a b p q = elim (Bool-cases (c == b'%')) [
  | inl e ↦ absurd (let bad : none ≡ some a = ground arith in cc)
  | inr e ↦
      plain_then c [] t a b e
        (λ a' p'. (let same : a' ≡ [] = (let k : some [] ≡ some a' = p' in cc) in rw same q)) p
]
decode-append (c ∷ h ∷ []) t a b p q = elim (Bool-cases (c == b'%')) [
  | inl e ↦ absurd (let bad : none ≡ some a = ground arith in cc)
  | inr e ↦ plain_then c (h ∷ []) t a b e (λ a' p'. decode-append (h ∷ []) t a' b p' q) p
]
decode-append (c ∷ h ∷ l ∷ s) t a b p q = elim (Bool-cases (c == b'%')) [
  | inr e ↦ plain_then c (h ∷ l ∷ s) t a b e (λ a' p'. decode-append (h ∷ l ∷ s) t a' b p' q) p
  | inl e ↦ elim (Option-cases (hex_pair h l)) [
    | inl bad ↦ absurd (let k : none ≡ some a = sym (decode_bad c h l s e bad) ∙ p in cc)
    | inr (x, good) ↦
        let (a', p', same) = push-inv x (decode s) a (sym (decode_escape c h l s x e good) ∙ p) in
        let more = decode-append s t a' b p' q in
        decode_escape c h l (s ++ t) x e good
        ∙ ap (push x) more
        ∙ ap (λ z. some (z ++ b)) (sym same)
  ]
]
