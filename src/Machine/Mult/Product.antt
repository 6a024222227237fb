-- ===== src/Machine/Mult/Product.antt =====
-- The loop of Mult in code/machine/mipssim.cc computes the product modulo 2^64.
use nachos.Base.{
  ℕ, zero, suc, ◌+◌, ◌-◌, ◌*◌, ◌/◌, ◌%◌, ◌^◌, ◌<◌, ◌≤◌, ◌≡◌, refl, sym, ap, ap₂, ◌∙◌, inl, inr, ltb,
  ◌==◌, if◌then◌else◌, arith, Bool-cases,
}
use native.Mathlib.Nat.{
  mul-add, add-mul, mul_comm, mul_assoc, mul-add-mod_self_left, mod-add-mod, add-mod-mod,
  div-add-mod, mod-eq_of_lt,
}
use nachos.Machine.Mult.{is_negative, halve, shift_high, mult_from}

-- The number whose lowest `r` bits are those of `a`.
abbrev pub low : ℕ → ℕ → ℕ
low zero a = 0
low (suc r) a = a % 2 + 2 * low r (a / 2)

-- `y` shifted left by `r`.
abbrev shifted : ℕ → ℕ → ℕ
shifted zero y = y
shifted (suc r) y = 2 * shifted r y

low-shifted : (r x y : ℕ) → low r (x + shifted r y) ≡ low r x
low-shifted zero x y = refl
low-shifted (suc r) x y =
    let bit : (x + 2 * shifted r y) % 2 ≡ x % 2 = omega arith in
    let rest : (x + 2 * shifted r y) / 2 ≡ x / 2 + shifted r y = omega arith in
    rw (bit, rest, low-shifted r (x / 2) y) refl

low-zero : (r : ℕ) → low r 0 ≡ 0
low-zero zero = refl
low-zero (suc r) = omega (arith, low-zero r)

shifted-one : (r k : ℕ) → shifted r (shifted k 1) ≡ shifted (r + k) 1
shifted-one zero k = let e : k ≡ 0 + k = omega arith in ap (λ n. shifted n 1) e
shifted-one (suc r) k =
    let e : suc (r + k) ≡ suc r + k = omega arith in
    ap (λ n. 2 * n) (shifted-one r k) ∙ ap (λ n. shifted n 1) e

-- The copies of the sign bit that a shift brings in stay above the bits that are left.
low-halve : (r a : ℕ) → r ≤ 31 → low r (halve a) ≡ low r (a / 2)
unfolding halve
low-halve r a h = elim (Bool-cases (is_negative a)) [
  | inl negative ↦
      let all : r + (31 - r) ≡ 31 = omega arith in
      let top : 2 ^ 31 ≡ shifted r (shifted (31 - r) 1) =
        sym (shifted-one r (31 - r) ∙ ap (λ n. shifted n 1) all) in
      rw negative (ap (λ t. low r (a / 2 + t)) top ∙ low-shifted r (a / 2) (shifted (31 - r) 1))
  | inr positive ↦ let same : a / 2 + 0 ≡ a / 2 = omega arith in rw positive (ap (low r) same)
]

mod-mul : (x k m : ℕ) → x % m * k % m ≡ x * k % m
mod-mul x k m = sym (
    ap (λ y. y * k % m) (sym (div-add-mod x m))
    ∙ ap (λ y. y % m) (add-mul (m * (x / m)) (x % m) k)
    ∙ ap (λ y. (y + x % m * k) % m) (mul_assoc m (x / m) k)
    ∙ mul-add-mod_self_left m (x / m * k) (x % m * k))

-- A round on the numbers: `bit` is the lowest bit left, `l` the number of the others.
accumulate :
    (s d l bit m : ℕ) → ((s + d * bit) % m + 2 * d % m * l) % m ≡ (s + d * (bit + 2 * l)) % m
accumulate s d l bit m =
    mod-add-mod (s + d * bit) m (2 * d % m * l)
    ∙ sym (add-mod-mod (s + d * bit) (2 * d % m * l) m)
    ∙ ap (λ y. (s + d * bit + y) % m) (mod-mul (2 * d) l m)
    ∙ add-mod-mod (s + d * bit) (2 * d * l) m
    ∙ ap (λ y. y % m) sum
  where
    twice : 2 * d * l ≡ d * (2 * l)
    twice = ap (λ y. y * l) (mul_comm 2 d) ∙ mul_assoc d 2 l

    sum : s + d * bit + 2 * d * l ≡ s + d * (bit + 2 * l)
    sum = omega (arith, twice, mul-add d bit (2 * l))

abbrev pub double : ℕ × ℕ → ℕ
double w = w.0 * 2 ^ 32 + w.1

-- Two words.
abbrev pub AreWords : ℕ × ℕ → Type 0
AreWords w = w.0 < 2 ^ 32 × w.1 < 2 ^ 32

double-shift :
    (b_hi b_lo : ℕ)
    → AreWords (b_hi, b_lo)
    → double (shift_high b_hi b_lo, b_lo * 2 % 2 ^ 32) ≡ 2 * double (b_hi, b_lo) % 2 ^ 64
unfolding shift_high is_negative
double-shift b_hi b_lo h = ground arith

double-add :
    (hi lo b_hi b_lo : ℕ)
    → AreWords (hi, lo)
    → AreWords (b_hi, b_lo)
    → double (
      (hi + (if ltb ((lo + b_lo) % 2 ^ 32) b_lo then 1 else 0) + b_hi) % 2 ^ 32,
      (lo + b_lo) % 2 ^ 32,
    )
      ≡ (double (hi, lo) + double (b_hi, b_lo)) % 2 ^ 64
double-add hi lo b_hi b_lo h k = ground arith

shift-AreWords :
    (b_hi b_lo : ℕ) → AreWords (b_hi, b_lo) → AreWords (shift_high b_hi b_lo, b_lo * 2 % 2 ^ 32)
unfolding shift_high is_negative
shift-AreWords b_hi b_lo h = (ground arith, omega arith)

-- `w` is the double word of `s + d * l` modulo 2^64.
abbrev pub Holds : ℕ × ℕ → ℕ → ℕ → ℕ → Type 0
Holds w s d l = AreWords w × (double w ≡ (s + d * l) % 2 ^ 64)

Holds-suc :
    (r a b_hi b_lo s d : ℕ) (w : ℕ × ℕ) (sum : ℕ)
    → r ≤ 31
    → AreWords (b_hi, b_lo)
    → d ≡ double (b_hi, b_lo)
    → sum ≡ (s + d * (a % 2)) % 2 ^ 64
    → Holds w sum (double (shift_high b_hi b_lo, b_lo * 2 % 2 ^ 32)) (low r (halve a))
    → Holds w s d (low (suc r) a)
Holds-suc r a b_hi b_lo s d w sum h k ed es (words, e) =
    let moved : double (shift_high b_hi b_lo, b_lo * 2 % 2 ^ 32) ≡ 2 * d % 2 ^ 64 =
      double-shift b_hi b_lo k ∙ ap (λ x. 2 * x % 2 ^ 64) (sym ed) in
    (
      words,
      e
          ∙ ap₂ (λ x y. (x + y * low r (halve a)) % 2 ^ 64) es moved
          ∙ ap (λ l. ((s + d * (a % 2)) % 2 ^ 64 + 2 * d % 2 ^ 64 * l) % 2 ^ 64) (low-halve r a h)
          ∙ accumulate s d (low r (a / 2)) (a % 2) (2 ^ 64),
    )

sum-one : (s d b m : ℕ) → b ≡ 1 → (s + d) % m ≡ (s + d * b) % m
sum-one s d b m e = let whole : s + d ≡ s + d * 1 = omega arith in rw e (ap (λ x. x % m) whole)

sum-zero : (s d b m : ℕ) → s < m → b ≡ 0 → s ≡ (s + d * b) % m
sum-zero s d b m h e =
    let whole : s ≡ s + d * 0 = omega arith in rw e (sym (mod-eq_of_lt h) ∙ ap (λ x. x % m) whole)

last_bit : (r a : ℕ) → a - a % 2 ≡ 0 → a % 2 ≡ 1 → low (suc r) a ≡ 1
last_bit r a e one = let none_left : a / 2 ≡ 0 = omega arith in rw (one, none_left, low-zero r) refl

-- The loop adds the product of the bits of `a` that are left to the sum.
pub mult_from_lem :
    (r a b_hi b_lo hi lo : ℕ)
    → r ≤ 32
    → AreWords (b_hi, b_lo)
    → AreWords (hi, lo)
    → Holds (mult_from r a b_hi b_lo hi lo) (double (hi, lo)) (double (b_hi, b_lo)) (low r a)
unfolding mult_from
mult_from_lem zero a b_hi b_lo hi lo h k w = (w, omega arith)
mult_from_lem (suc r) a b_hi b_lo hi lo h k w =
    let next_b = shift-AreWords b_hi b_lo k in
    let lo' = (lo + b_lo) % 2 ^ 32 in
    let hi' = (hi + (if ltb lo' b_lo then 1 else 0) + b_hi) % 2 ^ 32 in
    let sum : double (hi', lo') ≡ (double (hi, lo) + double (b_hi, b_lo)) % 2 ^ 64 =
      double-add hi lo b_hi b_lo w k in
    let next_w : AreWords (hi', lo') = (omega arith, omega arith) in
    elim (Bool-cases (a % 2 == 1)) [
      | inl odd ↦
          let one : a % 2 ≡ 1 = ground arith in
          elim (Bool-cases (a - a % 2 == 0)) [
            | inl last ↦
                rw (odd, last)
                  (
                    next_w,
                    sum
                        ∙ sum-one (double (hi, lo)) (double (b_hi, b_lo)) (low (suc r) a) (2 ^ 64)
                            (last_bit r a (ground arith) one),
                  )
            | inr more ↦
                rw (odd, more)
                  (Holds-suc r a b_hi b_lo (double (hi, lo)) (double (b_hi, b_lo))
                    (mult_from r (halve a) (shift_high b_hi b_lo) (b_lo * 2 % 2 ^ 32) hi' lo')
                    (double (hi', lo')) (omega arith) k refl
                    (sum ∙ sum-one (double (hi, lo)) (double (b_hi, b_lo)) (a % 2) (2 ^ 64) one)
                    (mult_from_lem r (halve a) (shift_high b_hi b_lo) (b_lo * 2 % 2 ^ 32) hi' lo'
                      (omega arith) next_b next_w))
          ]
      | inr even ↦
          let zero_bit : a % 2 ≡ 0 = ground arith in
          rw even (
            Holds-suc r a b_hi b_lo (double (hi, lo)) (double (b_hi, b_lo))
              (mult_from r (halve a) (shift_high b_hi b_lo) (b_lo * 2 % 2 ^ 32) hi lo)
              (double (hi, lo)) (omega arith) k refl
              (sum-zero (double (hi, lo)) (double (b_hi, b_lo)) (a % 2) (2 ^ 64) (omega arith)
                zero_bit)
              (mult_from_lem r (halve a) (shift_high b_hi b_lo) (b_lo * 2 % 2 ^ 32) hi lo
                (omega arith) next_b w))
    ]
