-- ===== src/Bitmap.antt =====
-- code/lib/bitmap.h and bitmap.cc: a bitmap as an array of 32-bit words. A method that changes the
-- object returns the new one; `ASSERT` stops by `aborted`. Indices are numbers: `which >= 0` holds.
pub mod Bit
pub mod Alloc
mod Tests
use Prim.Native.Nat.{bit_and, bit_or}
use nachos.Base.{
  ℕ, zero, suc, ◌+◌, ◌-◌, ◌*◌, ◌/◌, ◌%◌, ◌^◌, ◌≤◌, ◌<◌, ◌≡◌, Bool, true, false, not, Option, none,
  some, List, [], ◌∷◌, Outcome, done, aborted, ◌>>=◌, ◌>>◌, assert, ltb, ◌==◌, if◌then◌else◌,
  get_or, set, length, replicate,
}

abbrev pub bits_in_byte : ℕ
bits_in_byte = 8

-- `sizeof(unsigned int) * BitsInByte`
abbrev pub bits_in_word : ℕ
bits_in_word = 4 * bits_in_byte

-- lib/utility.h
abbrev pub div_round_up : ℕ → ℕ → ℕ
div_round_up n s = n / s + (if ltb 0 (n % s) then 1 else 0)

pub record Bitmap : Type 0 where
  pub num_bits : ℕ
  pub num_words : ℕ
  pub words : List ℕ

-- `1 << (which % BitsInWord)`
abbrev pub mask : ℕ → ℕ
mask which = 2 ^ (which % bits_in_word)

-- The word that holds bit `which`.
abbrev pub word_of : Bitmap → ℕ → ℕ
word_of b which = get_or b.words (which / bits_in_word) 0

unfoldable pub test : Bitmap → ℕ → Outcome Bool
test b which = do
  assert (ltb which b.num_bits)
  done (if bit_and (word_of b which) (mask which) == 0 then false else true)

unfoldable pub mark : Bitmap → ℕ → Outcome Bitmap
unfolding test
mark b which = do
  assert (ltb which b.num_bits)
  let i = which / bits_in_word
  let b' = record b { words = set b.words i (bit_or (word_of b which) (mask which)) }
  set_now ← test b' which
  assert set_now
  done b'

unfoldable pub clear : Bitmap → ℕ → Outcome Bitmap
unfolding test
clear b which = do
  assert (ltb which b.num_bits)
  let i = which / bits_in_word
  let complement = 2 ^ 32 - 1 - mask which
  let b' = record b { words = set b.words i (bit_and (word_of b which) complement) }
  set_now ← test b' which
  assert (not set_now)
  done b'

-- `for (i = from; i < numBits; i++) Clear(i)`, by the number of rounds left.
unfoldable pub clear_from : ℕ → ℕ → Bitmap → Outcome Bitmap
unfolding clear
clear_from zero i b = done b
clear_from (suc n) i b = do b' ← clear b i; clear_from n (i + 1) b'

-- The constructor.
unfoldable pub init : ℕ → Outcome Bitmap
unfolding clear_from
init num_items = do
  assert (ltb 0 num_items)
  let n = div_round_up num_items bits_in_word
  clear_from num_items 0 (record { num_bits = num_items; num_words = n; words = replicate n 0 })

-- The search loop from bit `i`, by the number of rounds left; -1 is `none`.
unfoldable pub find_from : ℕ → ℕ → Bitmap → Outcome (Option ℕ × Bitmap)
unfolding test mark
find_from zero i b = done (none, b)
find_from (suc n) i b = do
  used ← test b i
  let rest = find_from n (i + 1) b
  let found = mark b i >>= λ b'. done (some i, b')
  if used then rest else found

unfoldable pub find_and_set : Bitmap → Outcome (Option ℕ × Bitmap)
unfolding find_from
find_and_set b = find_from b.num_bits 0 b

unfoldable pub count_from : ℕ → ℕ → ℕ → Bitmap → Outcome ℕ
unfolding test
count_from zero i count b = done count
count_from (suc n) i count b = do
  used ← test b i
  count_from n (i + 1) (if used then count else count + 1) b

unfoldable pub num_clear : Bitmap → Outcome ℕ
unfolding count_from
num_clear b = count_from b.num_bits 0 0 b
