-- ===== src/Machine/Word/Overflow.antt =====
-- The tests of code/machine/mipssim.cc for the overflow of ADD, ADDI and SUB are exact.
use nachos.Base.{
  ℕ, ◌+◌, ◌-◌, ◌%◌, ◌^◌, ◌<◌, ◌≤◌, ◌≡◌, sym, ap, ◌∙◌, inl, inr, Bool, true, false, ◌&&◌, not, leb,
  if◌then◌else◌, arith, Bool-cases,
}
use nachos.Base.Int.{ℤ, ◌+ℤ◌, ◌-ℤ◌, difference, is_int, signed32, word32, pos_part, neg_part}
use nachos.Machine.Mult.{is_negative}
use nachos.Machine.Word.{
  add_word, sub_word, signs_differ, add_overflows, addi_overflows, sub_overflows,
}

difference-is_int :
    (p n : ℕ) → is_int (difference p n) ≡ (leb n (p + 2 ^ 31) && leb (p + 1) (n + 2 ^ 31))
difference-is_int p n = elim (Bool-cases (leb n p)) [
  | inl ge ↦ rw ge (ground arith)
  | inr lt ↦ rw lt (ground arith)
]

difference-word32 : (p n : ℕ) → n ≤ 2 ^ 32 → word32 (difference p n) ≡ (p + (2 ^ 32 - n)) % 2 ^ 32
difference-word32 p n h = elim (Bool-cases (leb n p)) [
  | inl ge ↦ rw ge (ground arith)
  | inr lt ↦ rw lt (ground arith)
]

signed32-pos_part : (a : ℕ) → pos_part (signed32 a) ≡ (if is_negative a then 0 else a)
unfolding is_negative
signed32-pos_part a = ground arith

signed32-neg_part :
    (a : ℕ) → a < 2 ^ 32 → neg_part (signed32 a) ≡ (if is_negative a then 2 ^ 32 - a else 0)
unfolding is_negative
signed32-neg_part a h = ground arith

-- The word `w` is that of `z`, and `overflows` tells that `z` is no `int`.
abbrev pub Exact : ℕ → ℤ → Bool → Type 0
Exact w z overflows = (overflows ≡ not (is_int z)) × (w ≡ word32 z)

Exact-of :
    (w p n : ℕ) (o : Bool)
    → n ≤ 2 ^ 32
    → not o ≡ (leb n (p + 2 ^ 31) && leb (p + 1) (n + 2 ^ 31))
    → w ≡ (p + (2 ^ 32 - n)) % 2 ^ 32
    → Exact w (difference p n) o
Exact-of w p n o h e k =
    (not_not o _ e ∙ ap not (sym (difference-is_int p n)), k ∙ sym (difference-word32 p n h))
  where
    not_not : (x y : Bool) → not x ≡ y → x ≡ not y
    not_not true y e = ap not e
    not_not false y e = ap not e

-- `p - n` is the signed number of `a`.
abbrev IsSigned : ℕ → ℕ → ℕ → Type 0
IsSigned a p n =
    (p ≡ (if is_negative a then 0 else a)) × (n ≡ (if is_negative a then 2 ^ 32 - a else 0))

signed32-IsSigned :
    (a : ℕ) → a < 2 ^ 32 → IsSigned a (pos_part (signed32 a)) (neg_part (signed32 a))
signed32-IsSigned a h = (signed32-pos_part a, signed32-neg_part a h)

module _ (a b p n q m : ℕ) (h : a < 2 ^ 32) (k : b < 2 ^ 32) (sa : IsSigned a p n)
    (sb : IsSigned b q m) where
  add_step : Exact (add_word a b) (difference (p + q) (n + m)) (add_overflows a b (add_word a b))
  unfolding add_word add_overflows signs_differ is_negative
  add_step =
      let (ep, en) = sa in
      let (eq, em) = sb in
      Exact-of (add_word a b) (p + q) (n + m) (add_overflows a b (add_word a b)) (ground arith)
        (ground arith) (ground arith)

  addi_step : Exact (add_word a b) (difference (p + q) (n + m)) (addi_overflows a b (add_word a b))
  unfolding add_word addi_overflows signs_differ is_negative
  addi_step =
      let (ep, en) = sa in
      let (eq, em) = sb in
      Exact-of (add_word a b) (p + q) (n + m) (addi_overflows a b (add_word a b)) (ground arith)
        (ground arith) (ground arith)

  sub_step : Exact (sub_word a b) (difference (p + m) (n + q)) (sub_overflows a b (sub_word a b))
  unfolding sub_word sub_overflows signs_differ is_negative
  sub_step =
      let (ep, en) = sa in
      let (eq, em) = sb in
      Exact-of (sub_word a b) (p + m) (n + q) (sub_overflows a b (sub_word a b)) (ground arith)
        (ground arith) (ground arith)

-- The three operations on two words, in the order ADD, ADDI, SUB.
pub overflows-Exact :
    (a b : ℕ)
    → a < 2 ^ 32
    → b < 2 ^ 32
    → Exact (add_word a b) (signed32 a +ℤ signed32 b) (add_overflows a b (add_word a b))
      × Exact (add_word a b) (signed32 a +ℤ signed32 b) (addi_overflows a b (add_word a b))
      × Exact (sub_word a b) (signed32 a -ℤ signed32 b) (sub_overflows a b (sub_word a b))
overflows-Exact a b h k =
    let sa = signed32-IsSigned a h in
    let sb = signed32-IsSigned b k in
    let p = pos_part (signed32 a) in
    let n = neg_part (signed32 a) in
    let q = pos_part (signed32 b) in
    let m = neg_part (signed32 b) in
    (
      add_step a b p n q m h k sa sb,
      addi_step a b p n q m h k sa sb,
      sub_step a b p n q m h k sa sb,
    )
