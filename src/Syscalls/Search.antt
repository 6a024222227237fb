-- ===== src/Syscalls/Search.antt =====
-- The loops over the table of open files of code/threads/kernel.cc and code/filesys/filesys.h.
use native.Mathlib.Decide.{ℕ_discrete}
use nachos.Base.{
  ℕ, zero, suc, ◌+◌, ◌<◌, ◌≤◌, ◌≡◌, refl, inl, inr, Bool, true, false, List, [], ◌∷◌, Option, none,
  some, done, length, get_or, arith, Bool-cases, ◌==◌, subst, ap₂,
}
use nachos.Syscalls.{UnixFile, slot, first_from, same_string}

pub slot_lem :
    (table : List (Option UnixFile)) (i : ℕ)
    → i < length table
    → slot table i ≡ done (get_or table i none)
unfolding slot
slot_lem [] i h = absurd (omega arith)
slot_lem (x ∷ xs) zero h = refl
slot_lem (x ∷ xs) (suc i) h = slot_lem xs i (omega arith)

-- No index from `i` to `j` passes.
abbrev pub NonePass : (Option UnixFile → Bool) → List (Option UnixFile) → ℕ → ℕ → Type 0
NonePass test table i j = (n : ℕ) → i ≤ n → n < j → test (get_or table n none) ≡ false

-- `n` is the first index from `i` on that passes.
abbrev pub IsFirst : (Option UnixFile → Bool) → List (Option UnixFile) → ℕ → ℕ → ℕ → Type 0
IsFirst test table i j n =
    (i ≤ n) × (n < j) × (test (get_or table n none) ≡ true) × NonePass test table i n

abbrev pub Search : (Option UnixFile → Bool) → List (Option UnixFile) → ℕ → ℕ → Option ℕ → Type 0
Search test table i j none = NonePass test table i j
Search test table i j (some n) = IsFirst test table i j n

NonePass-step :
    (test : Option UnixFile → Bool) (table : List (Option UnixFile)) (i j : ℕ)
    → test (get_or table i none) ≡ false
    → NonePass test table (i + 1) j
    → NonePass test table i j
NonePass-step test table i j here later n low high = elim (ℕ_discrete i n) [
  | yes same ↦ subst (λ m. test (get_or table m none) ≡ false) same here
  | no apart ↦ later n (omega (arith, apart)) high
]

Search-step :
    (test : Option UnixFile → Bool) (table : List (Option UnixFile)) (i j : ℕ) (o : Option ℕ)
    → test (get_or table i none) ≡ false
    → Search test table (i + 1) j o
    → Search test table i j o
Search-step test table i j none here later = NonePass-step test table i j here later
Search-step test table i j (some n) here (low, high, pass, before) =
    (omega arith, high, pass, NonePass-step test table i n here before)

pub first_from_lem :
    (test : Option UnixFile → Bool) (table : List (Option UnixFile)) (i rounds : ℕ)
    → i + rounds ≤ length table
    → (o : Option ℕ) × (first_from test table i rounds ≡ done o)
      × Search test table i (i + rounds) o
unfolding first_from
first_from_lem test table i zero h = (none, refl, λ n low high. absurd (omega (arith, low, high)))
first_from_lem test table i (suc rounds) h =
    let at = slot_lem table i (omega arith) in
    elim (Bool-cases (test (get_or table i none))) [
      | inl pass ↦ (
        some i,
        (rw (at, pass) refl),
        (omega arith, omega arith, pass, λ n low high. absurd (omega (arith, low, high))),
      )
      | inr fail ↦
          let (o, run, found) = first_from_lem test table (i + 1) rounds (omega arith) in
          let bound : (i + 1) + rounds ≡ i + suc rounds = omega arith in
          (
            o,
            (rw (at, fail, run) refl),
            Search-step test table i (i + suc rounds) o fail
                (subst (λ j. Search test table (i + 1) j o) bound found),
          )
    ]

pub same_string_refl : (a : List ℕ) → same_string a a ≡ true
unfolding same_string
same_string_refl [] = refl
same_string_refl (x ∷ xs) = ground (arith, same_string_refl xs)

pub same_string_eq : (a b : List ℕ) → same_string a b ≡ true → a ≡ b
unfolding same_string
same_string_eq [] [] h = refl
same_string_eq [] (y ∷ ys) h = absurd (cc)
same_string_eq (x ∷ xs) [] h = absurd (cc)
same_string_eq (x ∷ xs) (y ∷ ys) h = elim (Bool-cases (x == y)) [
  | inl same ↦
      let head : x ≡ y = ground (arith, same) in
      let tail = same_string_eq xs ys (rw same at h) in ap₂ (λ a b. a ∷ b) head tail
  | inr apart ↦ absurd (ground (arith, h, apart))
]
