-- ===== src/Bitmap/Alloc.antt =====
-- Allocation through a bitmap: `FindAndSet`, `NumClear` and the constructor.
use nachos.Base.{
  ℕ, zero, suc, ◌+◌, ◌-◌, ◌/◌, ◌%◌, ◌^◌, ◌≤◌, ◌<◌, ◌≡◌, refl, ap, ◌∙◌, ◌⊎◌, inl, inr, true, false,
  Option, none, some, arith, Outcome, done, ◌>>=◌, ◌==◌, lt→ltb, if◌then◌else◌, Bool-cases,
  length-replicate, All-replicate, All, All-set, All-get_or, get_or,
}
use Prim.Native.Nat.{bit_and}
use nachos.Base.Bits.{zero-bit, bit_and-le}
use nachos.Bitmap.{
  Bitmap, init, test, mark, clear, clear_from, find_from, find_and_set, count_from, num_clear,
  div_round_up,
}
use nachos.Bitmap.Bit.{
  IsValid, is_set, marked, cleared, test_lem, mark_lem, clear_lem, is_set-marked, is_set-cleared,
  marked-IsValid, cleared-IsValid,
}

-- All bits below `n` are set.
abbrev pub IsFull : Bitmap → ℕ → Type 0
IsFull b zero = Unit
IsFull b (suc n) = IsFull b n × (is_set b n ≡ true)

pub IsFull-is_set : (b : Bitmap) (n j : ℕ) → IsFull b n → j < n → is_set b j ≡ true
IsFull-is_set b zero j f h = absurd (omega arith)
IsFull-is_set b (suc n) j f h = elim (Bool-cases (j == n)) [
  | inl e ↦ let p : j ≡ n = ground arith in rw p f.1
  | inr e ↦ IsFull-is_set b n j f.0 (ground arith)
]

-- What a search of the bitmap may answer: the first clear bit, now marked, or that all are set.
abbrev pub Found : Bitmap → Outcome (Option ℕ × Bitmap) → Type 0
Found b r =
    ((k : ℕ) × (k < b.num_bits)
      × IsFull b k
      × (is_set b k ≡ false)
      × (r ≡ done (some k, marked b k)))
    ⊎ (IsFull b b.num_bits × (r ≡ done (none, b)))

find_from-Found :
    (n i : ℕ) {b : Bitmap} → IsValid b → i + n ≡ b.num_bits → IsFull b i → Found b (find_from n i b)
unfolding find_from
find_from-Found zero i {b} v e f = let e' : i ≡ b.num_bits = omega arith in inr (rw (← e') f, refl)
find_from-Found (suc n) i {b} v e f =
    let t = test_lem b i (omega arith) in
    elim (Bool-cases (is_set b i)) [
      | inl set_now ↦
          rw (t, set_now) (find_from-Found n (i + 1) v (omega arith) (next_full f set_now))
      | inr free ↦ inl (i, omega arith, f, free, rw (t, free, mark_lem i v (omega arith)))
    ]
  where
    next_full : IsFull b i → is_set b i ≡ true → IsFull b (i + 1)
    next_full g s = let p : i + 1 ≡ suc i = omega arith in rw p (g, s)

pub find_and_set_lem : {b : Bitmap} → IsValid b → Found b (find_and_set b)
unfolding find_and_set
find_and_set_lem {b} v = find_from-Found b.num_bits 0 v (omega arith) tt

-- The number of clear bits below `n`.
abbrev pub clear_count : Bitmap → ℕ → ℕ
clear_count b zero = 0
clear_count b (suc n) = clear_count b n + (if is_set b n then 0 else 1)

count_from_lem :
    (n i c : ℕ) (b : Bitmap)
    → i + n ≡ b.num_bits
    → c ≡ clear_count b i
    → count_from n i c b ≡ done (clear_count b b.num_bits)
unfolding count_from
count_from_lem zero i c b e h = let e' : i ≡ b.num_bits = omega arith in rw (h, e')
count_from_lem (suc n) i c b e h =
    rw (test_lem b i (omega arith))
      (count_from_lem n (i + 1) (if is_set b i then c else c + 1) b (omega arith) count)
  where
    count : (if is_set b i then c else c + 1) ≡ clear_count b (i + 1)
    count = let p : i + 1 ≡ suc i = omega arith in rw p (ground (arith, h))

-- `NumClear` counts the clear bits.
pub num_clear_lem : (b : Bitmap) → num_clear b ≡ done (clear_count b b.num_bits)
unfolding num_clear
num_clear_lem b = count_from_lem b.num_bits 0 0 b (omega arith) refl

pub clear_count-full : (b : Bitmap) (n : ℕ) → IsFull b n → clear_count b n ≡ 0
clear_count-full b zero f = refl
clear_count-full b (suc n) f = rw (clear_count-full b n f.0, f.1)

clear_count_pos : (b : Bitmap) (n k : ℕ) → k < n → is_set b k ≡ false → 0 < clear_count b n
clear_count_pos b zero k h e = absurd (omega arith)
clear_count_pos b (suc n) k h e = elim (Bool-cases (k == n)) [
  | inl same ↦ let p : n ≡ k = ground arith in rw (p, e) (omega arith)
  | inr other ↦ omega (arith, clear_count_pos b n k (ground arith) e)
]

clear_count-marked_above :
    {b : Bitmap} (n k : ℕ)
    → IsValid b
    → k < b.num_bits
    → n ≤ k
    → clear_count (marked b k) n ≡ clear_count b n
clear_count-marked_above zero k v hk h = refl
clear_count-marked_above {b} (suc n) k v hk h =
    let e : (k == n) ≡ false = ground arith in
    rw (clear_count-marked_above n k v hk (omega arith), is_set-marked k n v hk, e)

pub clear_count-marked :
    {b : Bitmap} (n k : ℕ)
    → IsValid b
    → k < b.num_bits
    → k < n
    → is_set b k ≡ false
    → clear_count (marked b k) n + 1 ≡ clear_count b n
clear_count-marked zero k v hk h e = absurd (omega arith)
clear_count-marked {b} (suc n) k v hk h e =
    let law = is_set-marked k n v hk in
    elim (Bool-cases (k == n)) [
      | inl same ↦
          let p : n ≡ k = ground arith in
          let above = clear_count-marked_above {b = b} n k v hk (omega arith) in
          ground (arith, above, law, same, e, ap (is_set b) p)
      | inr other ↦
          let ih = clear_count-marked {b = b} n k v hk (ground arith) e in
          ground (arith, ih, law, other)
    ]

-- After `Mark(i)`, `Test(j)` answers true at `i` and as before at every other bit.
pub test-mark :
    {b : Bitmap} (i j : ℕ)
    → IsValid b
    → i < b.num_bits
    → j < b.num_bits
    → (mark b i >>= λ b'. test b' j) ≡ (if i == j then done true else test b j)
test-mark {b} i j v hi hj =
    rw (mark_lem i v hi, test_lem (marked b i) j hj, test_lem b j hj, is_set-marked i j v hi)
      (ground arith)

-- After `Clear(i)`, `Test(j)` answers false at `i` and as before at every other bit.
pub test-clear :
    {b : Bitmap} (i j : ℕ)
    → IsValid b
    → i < b.num_bits
    → j < b.num_bits
    → (clear b i >>= λ b'. test b' j) ≡ (if i == j then done false else test b j)
test-clear {b} i j v hi hj =
    rw (clear_lem i v hi, test_lem (cleared b i) j hj, test_lem b j hj, is_set-cleared i j v hi)
      (ground arith)

-- What `FindAndSet` means to its callers, by the numbers that `NumClear` returns before and after.
abbrev pub Allocates : Bitmap → ℕ → Outcome (Option ℕ × Bitmap) → Type 0
Allocates b c r =
    ((k : ℕ) × (b' : Bitmap) × (r ≡ done (some k, b'))
      × (k < b.num_bits)
      × (test b k ≡ done false)
      × (test b' k ≡ done true)
      × IsFull b k
      × IsValid b'
      × (b'.num_bits ≡ b.num_bits)
      × (num_clear b' ≡ done (c - 1))
      × (0 < c))
    ⊎ ((r ≡ done (none, b)) × (c ≡ 0))

-- `FindAndSet` marks and returns the first clear bit if `NumClear` is positive, which then falls
-- by one, and returns -1 and changes nothing exactly when `NumClear` is 0.
pub find_and_set-num_clear :
    {b : Bitmap} (c : ℕ) → IsValid b → num_clear b ≡ done c → Allocates b c (find_and_set b)
find_and_set-num_clear {b} c v count = elim (find_and_set_lem v) [
  | inl (k, hk, full, free, e) ↦
      let less = clear_count-marked b.num_bits k v hk hk free in
      let after : num_clear (marked b k) ≡ done (c - 1) =
        num_clear_lem (marked b k) ∙ ap done (omega (arith, less, number)) in
      let now_set : test (marked b k) k ≡ done true =
        test_lem (marked b k) k hk ∙ ap done (ground (arith, is_set-marked k k v hk)) in
      inl (
        k,
        marked b k,
        e,
        hk,
        test_lem b k hk ∙ ap done free,
        now_set,
        full,
        marked-IsValid k v,
        refl,
        after,
        omega (arith, less, number),
      )
  | inr (full, e) ↦ inr (e, omega (arith, clear_count-full b b.num_bits full, number))
]
  where
    number : c ≡ clear_count b b.num_bits
    number = cc (num_clear_lem b)

abbrev pub IsBlank : Bitmap → Type 0
IsBlank b = All (λ w. w ≡ 0) b.words

pub IsBlank-is_set : (b : Bitmap) (j : ℕ) → IsBlank b → is_set b j ≡ false
IsBlank-is_set b j z = rw (All-get_or (λ w. w ≡ 0) b.words (j / 32) 0 refl z, zero-bit (j % 32))

clear_from_lem :
    (n i : ℕ) {b : Bitmap}
    → IsValid b
    → IsBlank b
    → i + n ≡ b.num_bits
    → (b' : Bitmap) × (clear_from n i b ≡ done b')
      × IsValid b'
      × IsBlank b'
      × (b'.num_bits ≡ b.num_bits)
unfolding clear_from
clear_from_lem zero i {b} v z e = (b, refl, v, z, refl)
clear_from_lem (suc n) i {b} v z e = rw (clear_lem i v (omega arith)) (
    clear_from_lem n (i + 1) {b = cleared b i} (cleared-IsValid i v)
      (All-set (λ w. w ≡ 0) b.words (i / 32) _ word z) (omega arith))
  where
    word : bit_and (get_or b.words (i / 32) 0) (2 ^ 32 - 1 - 2 ^ (i % 32)) ≡ 0
    word =
        let zero_word = All-get_or (λ w. w ≡ 0) b.words (i / 32) 0 refl z in
        let le = bit_and-le (get_or b.words (i / 32) 0) (2 ^ 32 - 1 - 2 ^ (i % 32)) in omega arith

-- The constructor returns a valid bitmap of as many bits, every one of them clear.
pub init_lem :
    (n : ℕ) → 0 < n → (b : Bitmap) × (init n ≡ done b) × IsValid b × IsBlank b × (b.num_bits ≡ n)
unfolding init
init_lem n h = rw (lt→ltb 0 n h) (
    clear_from_lem n 0
      (record {
        some_bits = h;
        rounded = refl;
        allocated = length-replicate (div_round_up n 32) 0;
        fits = All-replicate (λ w. w < 2 ^ 32) (div_round_up n 32) 0 (omega arith);
      })
      (All-replicate (λ w. w ≡ 0) (div_round_up n 32) 0 refl) (omega arith))

clear_count-cleared_above :
    {b : Bitmap} (n k : ℕ)
    → IsValid b
    → k < b.num_bits
    → n ≤ k
    → clear_count (cleared b k) n ≡ clear_count b n
clear_count-cleared_above zero k v hk h = refl
clear_count-cleared_above {b} (suc n) k v hk h =
    let e : (k == n) ≡ false = ground arith in
    rw (clear_count-cleared_above n k v hk (omega arith), is_set-cleared k n v hk, e)

pub clear_count-cleared :
    {b : Bitmap} (n k : ℕ)
    → IsValid b
    → k < b.num_bits
    → k < n
    → is_set b k ≡ true
    → clear_count (cleared b k) n ≡ clear_count b n + 1
clear_count-cleared zero k v hk h e = absurd (omega arith)
clear_count-cleared {b} (suc n) k v hk h e =
    let law = is_set-cleared k n v hk in
    elim (Bool-cases (k == n)) [
      | inl same ↦
          let p : n ≡ k = ground arith in
          let above = clear_count-cleared_above {b = b} n k v hk (omega arith) in
          ground (arith, above, law, same, e, ap (is_set b) p)
      | inr other ↦
          let ih = clear_count-cleared {b = b} n k v hk (ground arith) e in
          ground (arith, ih, law, other)
    ]
