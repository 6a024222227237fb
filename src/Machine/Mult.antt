-- ===== src/Machine/Mult.antt =====
-- code/machine/mipssim.cc: Mult, the multiplication of two registers into a double word.
pub mod Product
pub mod Signed
use nachos.Base.{
  ℕ, zero, suc, ◌+◌, ◌-◌, ◌*◌, ◌/◌, ◌%◌, ◌^◌, ◌≡◌, Bool, true, false, ◌&&◌, ◌||◌, not, leb, ltb,
  ◌==◌, if◌then◌else◌,
}

-- The sign bit of a word.
unfoldable pub is_negative : ℕ → Bool
is_negative w = leb (2 ^ 31) w

-- `-w` and `~w` on 32 bits.
unfoldable pub negate : ℕ → ℕ
negate w = (2 ^ 32 - w) % 2 ^ 32

unfoldable pub complement : ℕ → ℕ
complement w = 2 ^ 32 - 1 - w

-- `w >> 1` of an `int` keeps the sign.
unfoldable pub halve : ℕ → ℕ
halve w = w / 2 + (if is_negative w then 2 ^ 31 else 0)

-- `bHi <<= 1; if (bLo & 0x80000000) bHi |= 1;`, where the shift has cleared the lowest bit.
unfoldable pub shift_high : ℕ → ℕ → ℕ
shift_high b_hi b_lo = b_hi * 2 % 2 ^ 32 + (if is_negative b_lo then 1 else 0)

-- The loop, with `rounds` rounds left, from the high and the low word of the sum.
unfoldable pub mult_from : ℕ → ℕ → ℕ → ℕ → ℕ → ℕ → ℕ × ℕ
mult_from zero a b_hi b_lo hi lo = (hi, lo)
mult_from (suc rounds) a b_hi b_lo hi lo =
    let skipped = mult_from rounds (halve a) (shift_high b_hi b_lo) (b_lo * 2 % 2 ^ 32) hi lo in
    let lo' = (lo + b_lo) % 2 ^ 32 in
    let hi' = (hi + (if ltb lo' b_lo then 1 else 0) + b_hi) % 2 ^ 32 in
    let added = mult_from rounds (halve a) (shift_high b_hi b_lo) (b_lo * 2 % 2 ^ 32) hi' lo' in
    if a % 2 == 1 then if a - a % 2 == 0 then (hi', lo') else added else skipped

-- The two's complement of the double word.
unfoldable pub negate_double : ℕ × ℕ → ℕ × ℕ
negate_double (hi, lo) =
    let lo' = (complement lo + 1) % 2 ^ 32 in
    (if lo' == 0 then (complement hi + 1) % 2 ^ 32 else complement hi, lo')

unfoldable pub magnitude : Bool → ℕ → ℕ
magnitude signed_arith a = if signed_arith && is_negative a then negate a else a

-- Whether `negative` has been flipped an odd number of times.
unfoldable pub opposite : Bool → ℕ → ℕ → Bool
opposite signed_arith a b =
    signed_arith && (if is_negative a then not (is_negative b) else is_negative b)

-- `(*hiPtr, *loPtr)`.
unfoldable pub mult : ℕ → ℕ → Bool → ℕ × ℕ
mult a b signed_arith =
    let product = mult_from 32 (magnitude signed_arith a) 0 (magnitude signed_arith b) 0 0 in
    if a == 0 || b == 0
    then (0, 0)
    else if opposite signed_arith a b
    then negate_double product
    else product
