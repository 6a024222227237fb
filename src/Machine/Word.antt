-- ===== src/Machine/Word.antt =====
-- code/machine/mipssim.cc: the arithmetic of Machine::OneInstruction on 32-bit registers. An `int`
-- is its bit pattern, and `x ^ y` has the sign bit when the signs of `x` and `y` differ.
pub mod Overflow
pub mod Shift
use Prim.Native.Nat.{bit_or}
use nachos.Base.{
  ℕ, ◌+◌, ◌-◌, ◌*◌, ◌/◌, ◌%◌, ◌^◌, ◌≡◌, Bool, true, false, ◌&&◌, not, Option, none, some, ltb, leb,
  ◌==◌, if◌then◌else◌,
}
use nachos.Base.Int.{signed32, ltb_ℤ}
use nachos.Machine.Mult.{is_negative, negate, magnitude, opposite}

unfoldable pub add_word : ℕ → ℕ → ℕ
add_word a b = (a + b) % 2 ^ 32

unfoldable pub sub_word : ℕ → ℕ → ℕ
sub_word a b = (a + (2 ^ 32 - b)) % 2 ^ 32

unfoldable pub signs_differ : ℕ → ℕ → Bool
signs_differ a b = if is_negative a then not (is_negative b) else is_negative b

-- The tests for overflow of ADD, ADDI and SUB.
unfoldable pub add_overflows : ℕ → ℕ → ℕ → Bool
add_overflows a b sum = not (signs_differ a b) && signs_differ a sum

unfoldable pub addi_overflows : ℕ → ℕ → ℕ → Bool
addi_overflows a extra sum = not (signs_differ a extra) && signs_differ extra sum

unfoldable pub sub_overflows : ℕ → ℕ → ℕ → Bool
sub_overflows a b diff = signs_differ a b && signs_differ a diff

unfoldable pub shift_left : ℕ → ℕ → ℕ
shift_left a k = a * 2 ^ k % 2 ^ 32

-- `>>` on an `int`: copies of the sign bit come in from the left.
unfoldable pub shift_right : ℕ → ℕ → ℕ
shift_right a k = a / 2 ^ k + (if is_negative a then 2 ^ 32 - 2 ^ (32 - k) else 0)

unfoldable pub index_to_addr : ℕ → ℕ
index_to_addr x = shift_left x 2

unfoldable pub less : ℕ → ℕ → Bool
less a b = ltb_ℤ (signed32 a) (signed32 b)

unfoldable pub from_bool : Bool → ℕ
from_bool b = if b then 1 else 0

-- `a / b` and `a % b` of `int`s, `b` not 0: `(quotient, remainder)`. The division of the smallest
-- `int` by -1, whose quotient is no `int`, traps on the host: `none`.
unfoldable pub divide : ℕ → ℕ → Option (ℕ × ℕ)
divide a b =
    let quotient = magnitude true a / magnitude true b in
    let remainder = magnitude true a % magnitude true b in
    if a == 2 ^ 31 && b == 2 ^ 32 - 1
    then none
    else some (
      if opposite true a b then negate quotient else quotient,
      if is_negative a then negate remainder else remainder,
    )

-- `(pcAfter & 0xf0000000) | IndexToAddr(instr->extra)`.
unfoldable pub jump_target : ℕ → ℕ → ℕ
jump_target pc_after extra = bit_or (pc_after / 2 ^ 28 * 2 ^ 28) (index_to_addr extra)
