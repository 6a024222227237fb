-- ===== src/Base/Ranges.antt =====
-- Ranges of C arrays: writing and reading several elements from an index on.
use Prim.Native.Nat.{ℕ, zero, suc, ◌+◌, ◌-◌, ◌<◌, ◌≤◌}
use mathlib.Core.Path.{◌≡◌, refl, sym, ap, ap₂, ◌∙◌}
use mathlib.Core.Bool.{Bool, ◌&&◌}
use mathlib.Core.List.{List, [], ◌∷◌}
use native.Mathlib.Omega.{arith}
use nachos.Base.Tests.{◌==◌, if◌then◌else◌, ltb, leb}
use nachos.Base.Lists.{length, set, get_or, take, drop, length-set, get_or-set}

-- Writing a list of values one by one from index `i` on.
abbrev pub fill {ℓ} : {A : Type ℓ} → List A → ℕ → List A → List A
fill xs i [] = xs
fill xs i (v ∷ vs) = fill (set xs i v) (i + 1) vs

module _ {ℓ} {A : Type ℓ} where
  fill-suc :
      (x : A) (xs : List A) (i : ℕ) (vs : List A) → fill (x ∷ xs) (suc i) vs ≡ x ∷ fill xs i vs
  fill-suc x xs i [] = refl
  fill-suc x xs i (v ∷ vs) =
      let e : suc i + 1 ≡ suc (i + 1) = omega arith in rw (e, fill-suc x (set xs i v) (i + 1) vs)

  pub take-fill : (xs vs : List A) → length vs ≤ length xs → take (length vs) (fill xs 0 vs) ≡ vs
  take-fill xs [] h = refl
  take-fill [] (v ∷ vs) h = absurd (omega arith)
  take-fill (x ∷ xs) (v ∷ vs) h =
      let e : 0 + 1 ≡ suc 0 = omega arith in
      rw (e, fill-suc v xs 0 vs, take-fill xs vs (omega arith))

  pub length-fill : (xs : List A) (i : ℕ) (vs : List A) → length (fill xs i vs) ≡ length xs
  length-fill xs i [] = refl
  length-fill xs i (v ∷ vs) = length-fill (set xs i v) (i + 1) vs ∙ length-set xs i v

  pub drop-cons :
      (xs : List A) (i : ℕ) (d : A) → i < length xs → drop i xs ≡ get_or xs i d ∷ drop (suc i) xs
  drop-cons [] i d h = absurd (omega arith)
  drop-cons (x ∷ xs) zero d h = refl
  drop-cons (x ∷ xs) (suc i) d h = drop-cons xs i d (omega arith)

-- Is `j` in the range from `lo` up to `hi`?
abbrev pub within : ℕ → ℕ → ℕ → Bool
within lo hi j = leb lo j && ltb j hi

module _ {ℓ} {A : Type ℓ} where
  pub get_or-cons :
      (v : A) (vs : List A) (k : ℕ) (d : A)
      → get_or (v ∷ vs) k d ≡ (if k == 0 then v else get_or vs (k - 1) d)
  get_or-cons v vs zero d = refl
  get_or-cons v vs (suc k) d = let e : suc k - 1 ≡ k = omega arith in rw e (ground arith)

  pub get_or-take :
      (n : ℕ) (xs : List A) (j : ℕ) (d : A) → j < n → get_or (take n xs) j d ≡ get_or xs j d
  get_or-take zero xs j d h = absurd (omega arith)
  get_or-take (suc n) [] j d h = refl
  get_or-take (suc n) (x ∷ xs) zero d h = refl
  get_or-take (suc n) (x ∷ xs) (suc j) d h = get_or-take n xs j d (omega arith)

  pub get_or-drop :
      (n : ℕ) (xs : List A) (j : ℕ) (d : A) → get_or (drop n xs) j d ≡ get_or xs (n + j) d
  get_or-drop zero xs j d = ap (λ k. get_or xs k d) (omega arith)
  get_or-drop (suc n) [] j d = refl
  get_or-drop (suc n) (x ∷ xs) j d =
      get_or-drop n xs j d ∙ sym (get_or-cons x xs (suc n + j) d ∙ get_or-step)
    where
      get_or-step :
          (if suc n + j == 0 then x else get_or xs (suc n + j - 1) d) ≡ get_or xs (n + j) d
      get_or-step =
          let e : suc n + j - 1 ≡ n + j = omega arith in ground (arith, ap (λ k. get_or xs k d) e)

  -- Lists of one length with the same elements are equal.
  pub eq_of_get_or :
      (xs ys : List A) (d : A)
      → length xs ≡ length ys
      → ((j : ℕ) → j < length xs → get_or xs j d ≡ get_or ys j d)
      → xs ≡ ys
  eq_of_get_or [] [] d e h = refl
  eq_of_get_or [] (y ∷ ys) d e h = absurd (omega arith)
  eq_of_get_or (x ∷ xs) [] d e h = absurd (omega arith)
  eq_of_get_or (x ∷ xs) (y ∷ ys) d e h =
      ap₂ ◌∷◌ (h 0 (omega arith))
        (eq_of_get_or xs ys d (omega arith) (λ j lt. h (suc j) (omega arith)))

-- At `Type 0`, where the tests on numbers can be split by a tactic.
module _ {A : Type 0} where
  get_or-fill_step :
      (i j n : ℕ) (v : A) (vs : List A) (d old new : A)
      → new ≡ (if i == j then v else old)
      → (if within (i + 1) (i + 1 + n) j then get_or vs (j - (i + 1)) d else new)
        ≡ (if within i (i + suc n) j then get_or (v ∷ vs) (j - i) d else old)
  get_or-fill_step i j n v vs d old new e =
      let shift : j - i - 1 ≡ j - (i + 1) = omega arith in
      let head = get_or-cons v vs (j - i) d in ground (arith, head, ap (λ k. get_or vs k d) shift)

  pub get_or-fill :
      (xs : List A) (i : ℕ) (vs : List A) (j : ℕ) (d : A)
      → i + length vs ≤ length xs
      → get_or (fill xs i vs) j d
        ≡ (if within i (i + length vs) j then get_or vs (j - i) d else get_or xs j d)
  get_or-fill xs i [] j d h = ground arith
  get_or-fill xs i (v ∷ vs) j d h =
      get_or-fill (set xs i v) (i + 1) vs j d (omega (arith, length-set xs i v))
      ∙ get_or-fill_step i j (length vs) v vs d (get_or xs j d) (get_or (set xs i v) j d)
          (get_or-set xs i j v d (omega arith))
