-- ===== src/Base/Bits.antt =====
-- The single bits of a machine word under `&`, `|`, `~` and `1 << k`.
use Prim.Native.Nat.{
  ℕ, zero, suc, ◌+◌, ◌-◌, ◌*◌, ◌/◌, ◌%◌, ◌^◌, ◌≤◌, ◌<◌, min, max, bit_and, bit_or, digits,
  bit_and-bitwise, bit_or-bitwise,
}
use mathlib.Core.Path.{◌≡◌, refl, sym, ap, ◌∙◌}
use mathlib.Core.Bool.{true, false}
use mathlib.Core.Logic.{◌⊎◌, inl, inr}
use native.Mathlib.Omega.{arith}
use native.Mathlib.Nat.{mul_assoc, pow-suc}
use nachos.Base.Tests.{◌==◌, if◌then◌else◌}

-- Bit `k` of a number, counted from the lowest.
abbrev pub bit : ℕ → ℕ → ℕ
bit x zero = x % 2
bit x (suc k) = bit (x / 2) k

pub bit-lt : (x k : ℕ) → bit x k < 2
bit-lt x zero = omega arith
bit-lt x (suc k) = bit-lt (x / 2) k

bit_cases : (d : ℕ) → d < 2 → (d ≡ 0) ⊎ (d ≡ 1)
bit_cases zero h = inl refl
bit_cases (suc zero) h = inr refl
bit_cases (suc (suc d)) h = absurd (omega arith)

pub zero-bit : (k : ℕ) → bit 0 k ≡ 0
zero-bit zero = refl
zero-bit (suc k) = zero-bit k

-- The library's digit recursion for any operation `f` on digits; `z b` is what it returns where the
-- first number has run out.
module _ (z : ℕ → ℕ) (f : ℕ → ℕ → ℕ) where
  digits_out : (rounds b : ℕ) → digits z f rounds 0 b ≡ z b
  digits_out zero b = refl
  digits_out (suc r) b = refl

  -- Rounds beyond the size of the first number change nothing.
  digits_extra : (r a b more : ℕ) → a ≤ r → digits z f (r + more) a b ≡ digits z f r a b
  digits_extra r zero b more h = digits_out (r + more) b ∙ sym (digits_out r b)
  digits_extra zero (suc a) b more h = absurd (omega arith)
  digits_extra (suc r) (suc a) b more h =
      let unroll : suc r + more ≡ suc (r + more) = omega arith in
      rw (unroll, digits_extra r (suc a / 2) (b / 2) more (omega arith))

  -- So half of the number needs no more than half of its rounds.
  digits_half :
      (a b : ℕ)
      → digits z f (suc a) (suc a) b
        ≡ digits z f (suc a / 2) (suc a / 2) (b / 2) * 2 + f (suc a % 2) (b % 2)
  digits_half a b =
      let spare : a ≡ suc a / 2 + (a - suc a / 2) = omega arith in
      let enough = digits_extra (suc a / 2) (suc a / 2) (b / 2) (a - suc a / 2) (omega arith) in
      ap (λ d. d * 2 + f (suc a % 2) (b % 2))
        (ap (λ r. digits z f r (suc a / 2) (b / 2)) spare ∙ enough)

zero-bit_and : (b : ℕ) → bit_and 0 b ≡ 0
zero-bit_and b = bit_and-bitwise 0 b

zero-bit_or : (b : ℕ) → bit_or 0 b ≡ b
zero-bit_or b = bit_or-bitwise 0 b

-- The lowest digit of `a & b`, and the rest.
pub bit_and-low : (a b : ℕ) → bit_and a b ≡ bit_and (a / 2) (b / 2) * 2 + min (a % 2) (b % 2)
bit_and-low zero b = omega (arith, zero-bit_and (b / 2), zero-bit_and b)
bit_and-low (suc a) b =
    rw (bit_and-bitwise (suc a) b, bit_and-bitwise (suc a / 2) (b / 2))
      (digits_half (λ _. 0) min a b)

-- The lowest digit of `a | b`, and the rest.
pub bit_or-low : (a b : ℕ) → bit_or a b ≡ bit_or (a / 2) (b / 2) * 2 + max (a % 2) (b % 2)
bit_or-low zero b = omega (arith, zero-bit_or (b / 2), zero-bit_or b)
bit_or-low (suc a) b =
    rw (bit_or-bitwise (suc a) b, bit_or-bitwise (suc a / 2) (b / 2)) (digits_half (λ x. x) max a b)

half : (x d : ℕ) → d < 2 → (x * 2 + d) / 2 ≡ x
half x d h = omega arith

low : (x d : ℕ) → d < 2 → (x * 2 + d) % 2 ≡ d
low x d h = omega arith

pub bit-bit_and : (a b k : ℕ) → bit (bit_and a b) k ≡ min (bit a k) (bit b k)
bit-bit_and a b zero = omega (arith, bit_and-low a b)
bit-bit_and a b (suc k) =
    rw (bit_and-low a b, half (bit_and (a / 2) (b / 2)) (min (a % 2) (b % 2)) (omega arith))
      (bit-bit_and (a / 2) (b / 2) k)

pub bit-bit_or : (a b k : ℕ) → bit (bit_or a b) k ≡ max (bit a k) (bit b k)
bit-bit_or a b zero = omega (arith, bit_or-low a b)
bit-bit_or a b (suc k) =
    rw (bit_or-low a b, half (bit_or (a / 2) (b / 2)) (max (a % 2) (b % 2)) (omega arith))
      (bit-bit_or (a / 2) (b / 2) k)

-- `1 << k` has bit `k` alone.
pub bit-pow : (k j : ℕ) → bit (2 ^ k) j ≡ (if k == j then 1 else 0)
bit-pow zero zero = refl
bit-pow zero (suc j) = rw (zero-bit j) (ground arith)
bit-pow (suc k) zero = let e = pow-suc 2 k in ground arith
bit-pow (suc k) (suc j) =
    let e : 2 ^ suc k / 2 ≡ 2 ^ k = omega (arith, pow-suc 2 k) in rw (e, bit-pow k j) (ground arith)

-- `~a` on an `n`-bit word is `2 ^ n - 1 - a`.
pub bit_complement : (n a j : ℕ) → a < 2 ^ n → j < n → bit (2 ^ n - 1 - a) j ≡ 1 - bit a j
bit_complement zero a j ha hj = absurd (omega arith)
bit_complement (suc n) a zero ha hj = omega (arith, pow-suc 2 n)
bit_complement (suc n) a (suc j) ha hj =
    let p : 2 ^ suc n ≡ 2 ^ n * 2 = pow-suc 2 n in
    let e : (2 ^ suc n - 1 - a) / 2 ≡ 2 ^ n - 1 - a / 2 = omega arith in
    rw e (bit_complement n (a / 2) j (omega arith) (omega arith))

digits_no_mask : (r a : ℕ) → digits (λ _. 0) min r a 0 ≡ 0
digits_no_mask zero a = refl
digits_no_mask (suc r) zero = refl
digits_no_mask (suc r) (suc a) = omega (arith, digits_no_mask r (suc a / 2))

pub bit_and-zero : (a : ℕ) → bit_and a 0 ≡ 0
bit_and-zero a = bit_and-bitwise a 0 ∙ digits_no_mask a a

-- Masking a word by `1 << k` leaves the value of bit `k`.
pub bit_and-pow : (a k : ℕ) → bit_and a (2 ^ k) ≡ bit a k * 2 ^ k
bit_and-pow a zero = omega (arith, bit_and-low a 1, bit_and-zero (a / 2))
bit_and-pow a (suc k) = grind (arith, bit_and-low a (2 ^ suc k), bit_and-pow (a / 2) k, pow-suc 2 k)

-- `|` of two `n`-bit words is one.
pub bit_or-lt : (n a b : ℕ) → a < 2 ^ n → b < 2 ^ n → bit_or a b < 2 ^ n
bit_or-lt zero a b ha hb = let e : a ≡ 0 = omega arith in rw e (omega (arith, zero-bit_or b))
bit_or-lt (suc n) a b ha hb =
    let p : 2 ^ suc n ≡ 2 ^ n * 2 = pow-suc 2 n in
    omega (arith, bit_or-low a b, bit_or-lt n (a / 2) (b / 2) (omega arith) (omega arith))

pub bit_and-le_fuel : (n a b : ℕ) → a ≤ n → bit_and a b ≤ a
bit_and-le_fuel n zero b h = omega (arith, zero-bit_and b)
bit_and-le_fuel zero (suc a) b h = absurd (omega arith)
bit_and-le_fuel (suc n) (suc a) b h =
    omega (arith, bit_and-low (suc a) b, bit_and-le_fuel n (suc a / 2) (b / 2) (omega arith))

pub bit_and-le : (a b : ℕ) → bit_and a b ≤ a
bit_and-le a b = bit_and-le_fuel a a b (omega arith)

pub pow-pos : (k : ℕ) → 0 < 2 ^ k
pow-pos zero = omega arith
pow-pos (suc k) = omega (arith, pow-suc 2 k, pow-pos k)

pub pow-lt-pow : (k n : ℕ) → k < n → 2 ^ k < 2 ^ n
pow-lt-pow k zero h = absurd (omega arith)
pow-lt-pow zero (suc n) h = omega (arith, pow-suc 2 n, pow-pos n)
pow-lt-pow (suc k) (suc n) h = omega (arith, pow-suc 2 k, pow-suc 2 n, pow-lt-pow k n (omega arith))

-- The test `word & (1 << k)` reads bit `k`.
pub bit_and-pow-eq_zero :
    (w k : ℕ) → (if bit_and w (2 ^ k) == 0 then false else true) ≡ (bit w k == 1)
bit_and-pow-eq_zero w k = elim (bit_cases (bit w k) (bit-lt w k)) [
  | inl e ↦ ground (arith, bit_and-pow w k, e)
  | inr e ↦ ground (arith, bit_and-pow w k, e, pow-pos k)
]

pub pow-add : (k j : ℕ) → 2 ^ (k + j) ≡ 2 ^ k * 2 ^ j
pow-add k zero = let e : k + 0 ≡ k = omega arith in rw e (omega arith)
pow-add k (suc j) =
    let e : k + suc j ≡ suc (k + j) = omega arith in
    let one_more = pow-suc 2 (k + j) in
    let last = pow-suc 2 j in
    let grouped = mul_assoc (2 ^ k) (2 ^ j) 2 in rw (e, one_more, last, pow-add k j) grouped
