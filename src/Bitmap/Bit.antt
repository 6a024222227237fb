-- ===== src/Bitmap/Bit.antt =====
-- Single bits of a bitmap: what `Test`, `Mark` and `Clear` do to each.
use Prim.Native.Nat.{bit_and, bit_or}
use nachos.Base.{
  ℕ, ◌-◌, ◌/◌, ◌%◌, ◌^◌, ◌<◌, ◌≡◌, ap, Bool, true, false, arith, done, ◌==◌, if◌then◌else◌, set,
  length, length-set, get_or-set, All, All-set, All-get_or, lt→ltb, ==_iff, ◌∙◌, Bool-cases, inl,
  inr,
}
use nachos.Base.Bits.{
  bit, bit-lt, bit-bit_or, bit-bit_and, bit-pow, pow-lt-pow, bit_complement, bit_and-pow-eq_zero,
  bit_or-lt, bit_and-le,
}
use nachos.Bitmap.{Bitmap, mask, word_of, bits_in_word, div_round_up, test, mark, clear}

-- The representation invariant: the words cover the bits, and each fits an `unsigned int`.
pub record IsValid (b : Bitmap) : Type 0 where
  pub some_bits : 0 < b.num_bits
  pub rounded : b.num_words ≡ div_round_up b.num_bits bits_in_word
  pub allocated : length b.words ≡ b.num_words
  pub fits : All (λ w. w < 2 ^ 32) b.words

-- The abstract view: is bit `i` set?
abbrev pub is_set : Bitmap → ℕ → Bool
is_set b i = bit (word_of b i) (i % bits_in_word) == 1

abbrev pub marked : Bitmap → ℕ → Bitmap
marked b i = record b { words = set b.words (i / bits_in_word) (bit_or (word_of b i) (mask i)) }

abbrev pub cleared : Bitmap → ℕ → Bitmap
cleared b i = record b {
  words = set b.words (i / bits_in_word) (bit_and (word_of b i) (2 ^ 32 - 1 - mask i));
}

-- `Test` reads the bit, or stops at its assertion.
pub test_lem : (b : Bitmap) (i : ℕ) → i < b.num_bits → test b i ≡ done (is_set b i)
unfolding test
test_lem b i h =
    rw (lt→ltb i b.num_bits h) (ap done (bit_and-pow-eq_zero (word_of b i) (i % bits_in_word)))

pub in_words : {b : Bitmap} (i : ℕ) → IsValid b → i < b.num_bits → i / 32 < length b.words
in_words {b} i v h = let c = v.allocated in let r = v.rounded in ground arith

-- The bit of a word once the bits of `1 << k` are or-ed in, or masked out.
or_mask : (w k j : ℕ) → (bit (bit_or w (2 ^ k)) j == 1) ≡ (if k == j then true else (bit w j == 1))
or_mask w k j = ground (arith, bit-bit_or w (2 ^ k) j, bit-pow k j, bit-lt w j)

and_complement :
    (w k j : ℕ)
    → k < 32
    → j < 32
    → (bit (bit_and w (2 ^ 32 - 1 - 2 ^ k)) j == 1) ≡ (if k == j then false else (bit w j == 1))
and_complement w k j hk hj = ground (
  arith,
  bit-bit_and w (2 ^ 32 - 1 - 2 ^ k) j,
  bit_complement 32 (2 ^ k) j (pow-lt-pow k 32 hk) hj,
  bit-pow k j,
  bit-lt w j,
)

-- Two indices are equal when word and position in the word are.
same_bit : (i j : ℕ) → (i / 32 == j / 32) ≡ true → (i % 32 == j % 32) ≡ (i == j)
same_bit i j h = ground arith

pub is_set-marked :
    {b : Bitmap} (i j : ℕ)
    → IsValid b
    → i < b.num_bits
    → is_set (marked b i) j ≡ (if i == j then true else is_set b j)
is_set-marked {b} i j v h =
    let law =
      get_or-set b.words (i / 32) (j / 32) (bit_or (word_of b i) (mask i)) 0 (in_words i v h) in
    elim (Bool-cases (i / 32 == j / 32)) [
      | inl same ↦
          let e : i / 32 ≡ j / 32 = (==_iff (i / 32) (j / 32)).0 same in
          rw (law, same, or_mask (word_of b i) (i % 32) (j % 32), same_bit i j same, e)
      | inr other ↦ let d : (i == j) ≡ false = ground arith in rw (law, other, d)
    ]

pub is_set-cleared :
    {b : Bitmap} (i j : ℕ)
    → IsValid b
    → i < b.num_bits
    → is_set (cleared b i) j ≡ (if i == j then false else is_set b j)
is_set-cleared {b} i j v h =
    let w = bit_and (word_of b i) (2 ^ 32 - 1 - mask i) in
    let law = get_or-set b.words (i / 32) (j / 32) w 0 (in_words i v h) in
    elim (Bool-cases (i / 32 == j / 32)) [
      | inl same ↦
          let e : i / 32 ≡ j / 32 = (==_iff (i / 32) (j / 32)).0 same in
          rw (
            law,
            same,
            and_complement (word_of b i) (i % 32) (j % 32) (omega arith) (omega arith),
            same_bit i j same,
            e,
          )
      | inr other ↦ let d : (i == j) ≡ false = ground arith in rw (law, other, d)
    ]

pub marked-IsValid : {b : Bitmap} (i : ℕ) → IsValid b → IsValid (marked b i)
marked-IsValid {b} i v = record {
  some_bits = v.some_bits;
  rounded = v.rounded;
  allocated = length-set b.words (i / 32) _ ∙ v.allocated;
  fits =
      All-set _ b.words (i / 32) _
        (bit_or-lt 32 _ _ (All-get_or _ b.words (i / 32) 0 (omega arith) v.fits)
          (pow-lt-pow (i % 32) 32 (omega arith)))
        v.fits;
}

pub cleared-IsValid : {b : Bitmap} (i : ℕ) → IsValid b → IsValid (cleared b i)
cleared-IsValid {b} i v =
    let small : word_of b i < 2 ^ 32 = All-get_or _ b.words (i / 32) 0 (omega arith) v.fits in
    let le = bit_and-le (word_of b i) (2 ^ 32 - 1 - mask i) in
    record {
      some_bits = v.some_bits;
      rounded = v.rounded;
      allocated = length-set b.words (i / 32) _ ∙ v.allocated;
      fits = All-set _ b.words (i / 32) _ (omega arith) v.fits;
    }

-- On a valid bitmap neither assertion of `Mark` fails.
pub mark_lem : {b : Bitmap} (i : ℕ) → IsValid b → i < b.num_bits → mark b i ≡ done (marked b i)
unfolding mark
mark_lem {b} i v h =
    rw (lt→ltb i b.num_bits h, bit_and-pow-eq_zero (word_of (marked b i) i) (i % 32))
      (let e = is_set-marked i i v h in ground arith)

pub clear_lem : {b : Bitmap} (i : ℕ) → IsValid b → i < b.num_bits → clear b i ≡ done (cleared b i)
unfolding clear
clear_lem {b} i v h =
    rw (lt→ltb i b.num_bits h, bit_and-pow-eq_zero (word_of (cleared b i) i) (i % 32))
      (let e = is_set-cleared i i v h in ground arith)
