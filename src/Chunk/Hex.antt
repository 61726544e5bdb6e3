-- ===== src/Chunk/Hex.antt =====
-- What the conversion `%x` of C's printf prints, for bjoern/wsgi.c: hexadecimal digits in lower
-- case with no leading zero. Eight digits hold every `unsigned int` of 32 bits.
use native.Mathlib.Nat.{pow-suc}
use native.Mathlib.Decide.{dec_lt}
use bjoern.Common.{
  ℕ, zero, suc, ◌+◌, ◌-◌, ◌/◌, ◌%◌, ◌^◌, ◌<◌, ◌≤◌, ◌≡◌, ◌↔◌, ap, ◌∙◌, [], ◌∷◌, ◌++◌, Bytes, ltb,
  length, length-append, arith, if◌then◌else◌,
}

unfoldable pub hex_digit : ℕ → ℕ
hex_digit n = if ltb n 10 then b'0' + n else b'a' + (n - 10)

-- at most `k` digits
pub hex_digits : ℕ → ℕ → Bytes
hex_digits zero n = []
hex_digits (suc k) n =
    let rest = hex_digits k (n / 16) ++ hex_digit (n % 16) ∷ [] in
    if ltb n 16 then hex_digit n ∷ [] else rest

unfoldable pub print_hex : ℕ → Bytes
unfolding hex_digits hex_digit
print_hex n = hex_digits 8 n

pub hex_digits_small : (k n : ℕ) → n < 16 → hex_digits (suc k) n ≡ hex_digit n ∷ []
unfolding hex_digits
hex_digits_small k n h = ground arith

pub hex_digits_big :
    (k n : ℕ) → 16 ≤ n → hex_digits (suc k) n ≡ hex_digits k (n / 16) ++ hex_digit (n % 16) ∷ []
unfolding hex_digits
hex_digits_big k n h = ground arith

length-hex_digits_big :
    (k n : ℕ) → 16 ≤ n → length (hex_digits (suc k) n) ≡ length (hex_digits k (n / 16)) + 1
length-hex_digits_big k n h =
    ap (λ (t : Bytes). length t) (hex_digits_big k n h)
    ∙ length-append (hex_digits k (n / 16)) (hex_digit (n % 16) ∷ [])

length-hex_digits_pos : (k n : ℕ) → 0 < length (hex_digits (suc k) n)
length-hex_digits_pos k n = elim (dec_lt n 16) [
  | yes p ↦ rw (hex_digits_small k n p) (omega arith)
  | no p ↦ omega (arith, length-hex_digits_big k n (omega arith))
]

pow_pos : (j : ℕ) → 0 < 16 ^ j
pow_pos zero = omega arith
pow_pos (suc j) = omega (arith, pow-suc 16 j, pow_pos j)

length-hex_digits_small :
    (k j n : ℕ) → n < 16 → (length (hex_digits (suc k) n) ≤ suc j) ↔ (n < 16 ^ suc j)
length-hex_digits_small k j n p = rw (hex_digits_small k n p) (
    let few : n < 16 ^ suc j = omega (arith, pow-suc 16 j, pow_pos j) in
    (λ _. few, λ _. omega arith))

-- The number of digits, when there are enough.
pub length-hex_digits :
    (k j n : ℕ) → n < 16 ^ suc k → (length (hex_digits (suc k) n) ≤ suc j) ↔ (n < 16 ^ suc j)
length-hex_digits zero j n h = length-hex_digits_small zero j n (omega arith)
length-hex_digits (suc k) zero n h = elim (dec_lt n 16) [
  | yes p ↦ length-hex_digits_small (suc k) zero n p
  | no p ↦ (
    λ l. absurd (
        omega
          (arith, length-hex_digits_big (suc k) n (omega arith), length-hex_digits_pos k (n / 16))),
    λ l. absurd (omega arith),
  )
]
length-hex_digits (suc k) (suc j) n h = elim (dec_lt n 16) [
  | yes p ↦ length-hex_digits_small (suc k) (suc j) n p
  | no p ↦
      let ih = length-hex_digits k j (n / 16) (omega (arith, pow-suc 16 (suc k))) in
      let big = length-hex_digits_big (suc k) n (omega arith) in
      (
        λ l. let m = ih.0 (omega (arith, big)) in omega (arith, pow-suc 16 (suc j), m),
        λ l. let m = ih.1 (omega (arith, pow-suc 16 (suc j))) in omega (arith, big, m),
      )
]
