-- ===== src/Base/Membership.antt =====
-- Membership in a list of numbers, and lists without repetition.
use Prim.Native.Nat.{ℕ, zero, suc, ◌<◌}
use mathlib.Core.Path.{◌≡◌, refl, ap, subst}
use mathlib.Core.Bool.{Bool, true, false}
use mathlib.Core.Logic.{◌≢◌, inl, inr}
use mathlib.Core.List.{List, [], ◌∷◌}
use native.Mathlib.Omega.{arith}
use nachos.Base.Tests.{◌==◌, if◌then◌else◌, Bool-cases, ==_iff}
use nachos.Base.Lists.{length, get_or, All}

-- Membership as a test, and lists without repetition.
abbrev pub elem : ℕ → List ℕ → Bool
elem x [] = false
elem x (y ∷ ys) = if y == x then true else elem x ys

abbrev pub Distinct : List ℕ → Type 0
Distinct [] = Unit
Distinct (x ∷ xs) = (elem x xs ≡ false) × Distinct xs

pub elem-none : (P : ℕ → Type 0) (x : ℕ) (xs : List ℕ) → (P x → ⊥) → All P xs → elem x xs ≡ false
elem-none P x [] n h = refl
elem-none P x (y ∷ ys) n h =
    let apart : y ≢ x = λ e. n (subst P e h.0) in ground (arith, elem-none P x ys n h.1)

pub All-elem : (P : ℕ → Type 0) (x : ℕ) (xs : List ℕ) → All P xs → elem x xs ≡ true → P x
All-elem P x [] h e = absurd (cc)
All-elem P x (y ∷ ys) h e = elim (Bool-cases (y == x)) [
  | inl same ↦ subst P ((==_iff y x).0 same) h.0
  | inr other ↦ All-elem P x ys h.1 (rw other at e)
]

pub elem-get_or : (xs : List ℕ) (i d : ℕ) → i < length xs → elem (get_or xs i d) xs ≡ true
elem-get_or [] i d h = absurd (omega arith)
elem-get_or (x ∷ xs) zero d h = ground arith
elem-get_or (x ∷ xs) (suc i) d h = ground (arith, elem-get_or xs i d (omega arith))

-- In a list without repetition an element has one index.
pub Distinct-index :
    (xs : List ℕ) (i j d : ℕ)
    → Distinct xs
    → i < length xs
    → j < length xs
    → get_or xs i d ≡ get_or xs j d
    → i ≡ j
Distinct-index [] i j d u hi hj e = absurd (omega arith)
Distinct-index (x ∷ xs) zero zero d u hi hj e = refl
Distinct-index (x ∷ xs) zero (suc j) d u hi hj e =
    let here = elem-get_or xs j d (omega arith) in absurd (cc)
Distinct-index (x ∷ xs) (suc i) zero d u hi hj e =
    let here = elem-get_or xs i d (omega arith) in absurd (cc)
Distinct-index (x ∷ xs) (suc i) (suc j) d u hi hj e =
    ap suc (Distinct-index xs i j d u.1 (omega arith) (omega arith) e)
