-- ===== src/Machine/Mult/Signed.antt =====
-- Mult of code/machine/mipssim.cc returns the double word of the product, signed or not.
use nachos.Base.{
  ℕ, zero, suc, ◌+◌, ◌-◌, ◌*◌, ◌/◌, ◌%◌, ◌^◌, ◌<◌, ◌≤◌, ◌≡◌, refl, sym, ap, ◌∙◌, ◌⊎◌, inl, inr,
  Bool, true, false, ◌&&◌, ◌||◌, leb, ltb, ◌==◌, if◌then◌else◌, arith, Bool-cases,
}
use nachos.Base.Int.{pos, negsuc, ◌*ℤ◌, word64, word64-negative, signed32}
use native.Mathlib.Nat.{mul-le-mul, mul_comm, zero-mul, mul-zero, mod-eq_of_lt}
use nachos.Machine.Mult.{
  is_negative, negate, complement, mult_from, negate_double, magnitude, opposite, mult,
}
use nachos.Machine.Mult.Product.{low, double, AreWords, mult_from_lem}

abbrev top : ℕ → ℕ
top zero = 1
top (suc r) = 2 * top r

low-lt : (r a : ℕ) → a < top r → low r a ≡ a
low-lt zero a h = omega arith
low-lt (suc r) a h = omega (arith, low-lt r (a / 2) (omega arith))

product-lt : (a b : ℕ) → a < 2 ^ 32 → b < 2 ^ 32 → a * b < 2 ^ 64
product-lt a b h k =
    let bound : a * b ≤ 4294967295 * 4294967295 =
      mul-le-mul {n₂ = 4294967295} {m₂ = 4294967295} (omega arith) (omega arith) in
    omega arith

-- The loop on two magnitudes.
mult_from-product :
    (a b : ℕ)
    → a < 2 ^ 32
    → b < 2 ^ 32
    → AreWords (mult_from 32 a 0 b 0 0) × (double (mult_from 32 a 0 b 0 0) ≡ a * b)
mult_from-product a b h k =
    let (words, e) =
      mult_from_lem 32 a 0 b 0 0 (omega arith) (omega arith, k) (omega arith, omega arith) in
    let whole : low 32 a ≡ a = low-lt 32 a h in
    let small = product-lt a b h k in
    let comm = mul_comm b a in
    let plain : (double (0, 0) + double (0, b) * a) % 2 ^ 64 ≡ a * b =
      let e0 : 0 + b ≡ b = omega arith in rw (e0, comm) (omega arith) in
    (words, e ∙ ap (λ x. (double (0, 0) + double (0, b) * x) % 2 ^ 64) whole ∙ plain)

negate_double_lem :
    (hi lo : ℕ)
    → AreWords (hi, lo)
    → AreWords (negate_double (hi, lo))
      × (double (negate_double (hi, lo)) ≡ (2 ^ 64 - double (hi, lo)) % 2 ^ 64)
unfolding negate_double complement
negate_double_lem hi lo h = ((ground arith, omega arith), ground arith)

module _ (s : Bool) (a b : ℕ) where
  -- The double word of the product of the magnitudes with the sign of the product.
  abbrev Signed : ℕ → Type 0
  Signed w = w ≡ (
      if opposite s a b
      then (2 ^ 64 - magnitude s a * magnitude s b) % 2 ^ 64
      else magnitude s a * magnitude s b)

  magnitude-lt : (x : ℕ) → x < 2 ^ 32 → magnitude s x < 2 ^ 32
  unfolding magnitude negate is_negative
  magnitude-lt x h = elim (Bool-cases (s && leb (2 ^ 31) x)) [
    | inl on ↦ rw on (omega arith)
    | inr off ↦ rw off h
  ]

  magnitude-zero : (x : ℕ) → x ≡ 0 → magnitude s x ≡ 0
  unfolding magnitude negate is_negative
  magnitude-zero x e = elim (Bool-cases s) [ inl on ↦ rw (e, on) refl | inr off ↦ rw (e, off) refl ]

  Signed-zero : magnitude s a * magnitude s b ≡ 0 → Signed 0
  Signed-zero e = elim (Bool-cases (opposite s a b)) [
    | inl minus ↦ rw (minus, e) refl
    | inr plus ↦ rw (plus, e) refl
  ]

  zero_factor : (a == 0 || b == 0) ≡ true → magnitude s a * magnitude s b ≡ 0
  zero_factor e = elim (Bool-cases (a == 0)) [
    | inl left ↦ let gone = magnitude-zero a (ground arith) in rw gone (zero-mul (magnitude s b))
    | inr right ↦ let gone = magnitude-zero b (ground arith) in rw gone (mul-zero (magnitude s a))
  ]

  mult-Signed : a < 2 ^ 32 → b < 2 ^ 32 → AreWords (mult a b s) × Signed (double (mult a b s))
  unfolding mult
  mult-Signed h k =
      let product = mult_from 32 (magnitude s a) 0 (magnitude s b) 0 0 in
      let (words, e) =
        mult_from-product (magnitude s a) (magnitude s b) (magnitude-lt a h) (magnitude-lt b k) in
      let zeros : AreWords (0, 0) = (omega arith, omega arith) in
      elim (Bool-cases (a == 0 || b == 0)) [
        | inl some_zero ↦ rw some_zero (zeros, Signed-zero (zero_factor some_zero))
        | inr non_zero ↦ elim (Bool-cases (opposite s a b)) [
          | inl minus ↦
              let (neg_words, neg) = negate_double_lem product.0 product.1 words in
              rw (non_zero, minus) (neg_words, neg ∙ ap (λ x. (2 ^ 64 - x) % 2 ^ 64) e)
          | inr plus ↦ rw (non_zero, plus) (words, e)
        ]
      ]

signed-cases :
    (a : ℕ)
    → a < 2 ^ 32
    → ((is_negative a ≡ false) × (signed32 a ≡ pos a) × (magnitude true a ≡ a))
      ⊎ ((n : ℕ) × (is_negative a ≡ true) × (signed32 a ≡ negsuc n) × (magnitude true a ≡ suc n))
unfolding is_negative magnitude negate
signed-cases a h = elim (Bool-cases (ltb a (2 ^ 31))) [
  | inl plus ↦ inl (ground arith, (rw plus refl), ground arith)
  | inr minus ↦ inr (2 ^ 32 - a - 1, (ground arith), (rw minus refl), ground arith)
]

-- The sign and magnitude of the product of two signed words.
Signed-product :
    (a b : ℕ) → a < 2 ^ 32 → b < 2 ^ 32 → Signed true a b (word64 (signed32 a *ℤ signed32 b))
unfolding opposite
Signed-product a b h k =
    let small =
      product-lt (magnitude true a) (magnitude true b) (magnitude-lt true a b a h)
        (magnitude-lt true a b b k) in
    elim (signed-cases a h) [
      | inl (sa, ia, ma) ↦ elim (signed-cases b k) [
        | inl (sb, ib, mb) ↦ rw (sa, ia, ma, sb, ib, mb) (mod-eq_of_lt (rw (ma, mb) at small))
        | inr (n, sb, ib, mb) ↦
            rw (sa, ia, ma, sb, ib, mb)
              (word64-negative (a * suc n)
                ∙ ap (λ x. (2 ^ 64 - x) % 2 ^ 64) (mod-eq_of_lt (rw (ma, mb) at small)))
      ]
      | inr (m, sa, ia, ma) ↦ elim (signed-cases b k) [
        | inl (sb, ib, mb) ↦
            rw (sa, ia, ma, sb, ib, mb)
              (word64-negative (suc m * b)
                ∙ ap (λ x. (2 ^ 64 - x) % 2 ^ 64) (mod-eq_of_lt (rw (ma, mb) at small)))
        | inr (n, sb, ib, mb) ↦ rw (sa, ia, ma, sb, ib, mb) (mod-eq_of_lt (rw (ma, mb) at small))
      ]
    ]

-- For any two words Mult leaves in `*hiPtr` and `*loPtr` the high and the low word of their product:
-- of the words as unsigned numbers, or of the `int`s that they stand for if `signedArith`.
pub mult_lem :
    (a b : ℕ) (s : Bool)
    → a < 2 ^ 32
    → b < 2 ^ 32
    → AreWords (mult a b s)
      × (double (mult a b s) ≡ (if s then word64 (signed32 a *ℤ signed32 b) else a * b))
unfolding opposite magnitude
mult_lem a b true h k =
    let (words, e) = mult-Signed true a b h k in (words, e ∙ sym (Signed-product a b h k))
mult_lem a b false h k = let (words, e) = mult-Signed false a b h k in (words, e)
