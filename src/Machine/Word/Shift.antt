-- ===== src/Machine/Word/Shift.antt =====
-- `>>` on an `int` (code/machine/mipssim.cc) is the division by a power of two, rounded down.
use nachos.Base.{
  ℕ, ◌+◌, ◌-◌, ◌*◌, ◌/◌, ◌%◌, ◌^◌, ◌<◌, ◌≤◌, ◌≡◌, sym, ap, ◌∙◌, inl, inr, true, false, ltb, leb,
  arith, Bool-cases, subst,
}
use nachos.Base.Int.{ℤ, pos, negsuc, signed32, word32}
use native.Mathlib.Nat.{
  mul-add, mul-add-div, div-eq_of_lt, div-add-mod, mod-lt, div-le_self, pow-le-pow_right,
  div-lt_iff_lt-mul, mul_comm,
}
use nachos.Base.Bits.{pow-pos, pow-add}
use nachos.Machine.Mult.{is_negative}
use nachos.Machine.Word.{shift_right}

-- The quotient of an integer by 2 ^ k, rounded down.
abbrev pub floor_shift : ℤ → ℕ → ℤ
floor_shift (pos n) k = pos (n / 2 ^ k)
floor_shift (negsuc n) k = negsuc (n / 2 ^ k)

-- With `p * q` words, counting down from the last word counts the quotients down.
div-complement : (p q w : ℕ) → 0 < p → w < p * q → (p * q - w - 1) / p ≡ q - w / p - 1
div-complement p q w h k =
    let a = w / p in
    let d = q - w / p - 1 in
    let parts = div-add-mod w p in
    let rest = mod-lt w h in
    let comm = mul_comm p q in
    let below : w / p < q = (div-lt_iff_lt-mul h).1 (omega arith) in
    let split : q ≡ a + (1 + d) = omega arith in
    let total : p * q ≡ p * a + (p * 1 + p * d) =
      ap (λ x. p * x) split ∙ mul-add p a (1 + d) ∙ ap (λ x. p * a + x) (mul-add p 1 d) in
    let left : p * q - w - 1 ≡ p * d + (p - w % p - 1) = omega arith in
    let small : (p - w % p - 1) / p ≡ 0 = div-eq_of_lt (omega arith) in
    ap (λ x. x / p) left ∙ mul-add-div h d (p - w % p - 1) ∙ rw small (omega arith)

shift_right-negative :
    (w k : ℕ)
    → w < 2 ^ 32
    → k < 32
    → ((2 ^ 32 - w - 1) / 2 ^ k ≡ 2 ^ (32 - k) - w / 2 ^ k - 1)
      × w / 2 ^ k < 2 ^ (32 - k)
      × 2 ^ (32 - k) ≤ 2 ^ 32
shift_right-negative w k h l =
    let whole : k + (32 - k) ≡ 32 = omega arith in
    let words : 2 ^ 32 ≡ 2 ^ k * 2 ^ (32 - k) = ap (λ n. 2 ^ n) (sym whole) ∙ pow-add k (32 - k) in
    let bound : w < 2 ^ k * 2 ^ (32 - k) = subst (λ n. w < n) words h in
    (
      ap (λ n. (n - w - 1) / 2 ^ k) words
          ∙ div-complement (2 ^ k) (2 ^ (32 - k)) w (pow-pos k) bound,
      (div-lt_iff_lt-mul (pow-pos k)).1
          (subst (λ n. w < n) (words ∙ mul_comm (2 ^ k) (2 ^ (32 - k))) h),
      pow-le-pow_right {n = 2} (omega arith) {i = 32 - k} {j = 32} (omega arith),
    )

-- The word of a negative number, shifted.
negative_lem :
    (a n q : ℕ) → n ≡ q - a - 1 → a < q → q ≤ 2 ^ 32 → a + (2 ^ 32 - q) ≡ word32 (negsuc n)
negative_lem a n q e l h = omega arith

-- On words and shifts by less than 32.
pub shift_right-floor_shift :
    (w k : ℕ) → w < 2 ^ 32 → k < 32 → shift_right w k ≡ word32 (floor_shift (signed32 w) k)
unfolding shift_right is_negative
shift_right-floor_shift w k h l = elim (Bool-cases (ltb w (2 ^ 31))) [
  | inl plus ↦
      let off : leb (2 ^ 31) w ≡ false = ground arith in
      let small = div-le_self w (2 ^ k) in rw (plus, off) (omega arith)
  | inr minus ↦
      let on : leb (2 ^ 31) w ≡ true = ground arith in
      let (e, lt, le) = shift_right-negative w k h l in
      rw (minus, on) (negative_lem (w / 2 ^ k) ((2 ^ 32 - w - 1) / 2 ^ k) (2 ^ (32 - k)) e lt le)
]
