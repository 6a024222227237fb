-- ===== src/Lists/Contents.antt =====
-- The contents of a list of code/lib/list.cc after Append and Remove.
use nachos.Base.{
  ℕ, suc, ◌+◌, ◌-◌, ◌≡◌, refl, sym, ap, inl, inr, Bool, true, false, List, [], ◌∷◌, ◌++◌, done,
  ◌==◌, if◌then◌else◌, length, length-append, arith, Bool-cases, subst,
}
use nachos.Lists.{
  LinkedList, is_empty, in_chain, is_in_list, append, unlink, remove_chain, remove_front,
  first_item, rest, remove,
}

module _ {ℓ} {T : Type ℓ} where
  abbrev pub IsCounted : LinkedList T → Type 0
  IsCounted l = l.num_in_list ≡ length l.items

-- `same a b` is the `==` of the items. It is reflexive.
module _ {ℓ} {T : Type ℓ} (same : T → T → Bool) (reflexive : (a : T) → same a a ≡ true) where
  -- No item is on the list twice.
  abbrev pub IsUnique : List T → Type 0
  IsUnique [] = Unit
  IsUnique (x ∷ xs) = (in_chain same x xs ≡ false) × IsUnique xs

  pub in_chain-append : (item : T) (xs ys : List T) → in_chain same item (xs ++ (item ∷ ys)) ≡ true
  unfolding in_chain
  in_chain-append item [] ys = rw (reflexive item) refl
  in_chain-append item (x ∷ xs) ys = elim (Bool-cases (same item x)) [
    | inl yes_x ↦ rw yes_x refl
    | inr no_x ↦ rw no_x (in_chain-append item xs ys)
  ]

  chain-append :
      (item : T) (xs : List T) (n : ℕ)
      → n ≡ length xs
      → (if n == 0 then item ∷ [] else xs ++ (item ∷ [])) ≡ xs ++ (item ∷ [])
  chain-append item [] n h = rw h refl
  chain-append item (x ∷ xs) n h = let some : (n == 0) ≡ false = ground arith in rw some refl

  -- On a list with a correct count, Append of an item that is not on it stops at no assertion, puts
  -- the item at the end, and counts it.
  pub append_lem :
      (l : LinkedList T) (item : T)
      → IsCounted l
      → is_in_list same l item ≡ false
      → (l' : LinkedList T) × (append same l item ≡ done l')
        × (l'.items ≡ l.items ++ (item ∷ []))
        × IsCounted l'
  unfolding append is_empty is_in_list
  append_lem l item h out = (
    record { items = l.items ++ (item ∷ []); num_in_list = l.num_in_list + 1 },
    (rw (out, chain-append item l.items l.num_in_list h, in_chain-append item l.items [])),
    refl,
    omega (arith, length-append l.items (item ∷ [])),
  )

-- When `==` is equality.
module _ {ℓ} {T : Type ℓ} (same : T → T → Bool) (reflexive : (a : T) → same a a ≡ true)
    (equal : (a b : T) → same a b ≡ true → a ≡ b) where
  -- `ys` is `xs` with `item` taken out.
  abbrev pub TakenOut : T → List T → List T → Type ℓ
  TakenOut item xs ys =
      (before : List T) × (after : List T) × (xs ≡ before ++ (item ∷ after))
      × (ys ≡ before ++ after)
      × (in_chain same item ys ≡ false)

  TakenOut-head :
      (item x : T) (xs : List T)
      → same item x ≡ true
      → IsUnique same reflexive (x ∷ xs)
      → TakenOut item (x ∷ xs) xs
  TakenOut-head item x xs e u =
      let this = equal item x e in
      (
        [],
        xs,
        ap (λ y. y ∷ xs) (sym this),
        refl,
        subst (λ y. in_chain same y xs ≡ false) (sym this) u.0,
      )

  TakenOut-cons :
      (item x : T) (xs ys : List T)
      → same item x ≡ false
      → TakenOut item xs ys
      → TakenOut item (x ∷ xs) (x ∷ ys)
  unfolding in_chain
  TakenOut-cons item x xs ys e (before, after, split, taken, gone) =
      (x ∷ before, after, ap (λ c. x ∷ c) split, ap (λ c. x ∷ c) taken, (rw e gone))

  length-TakenOut : (item : T) (xs ys : List T) → TakenOut item xs ys → length ys + 1 ≡ length xs
  length-TakenOut item xs ys (before, after, split, taken, gone) =
      let a = length-append before after in
      let b = length-append before (item ∷ after) in rw (split, taken) (omega (arith, a, b))

  unlink_lem :
      (item : T) (xs : List T)
      → IsUnique same reflexive xs
      → in_chain same item xs ≡ true
      → (ys : List T) × (unlink same item xs ≡ done ys) × TakenOut item xs ys
  unfolding in_chain unlink
  unlink_lem item [] u h = absurd (cc)
  unlink_lem item (x ∷ xs) u h = elim (Bool-cases (same item x)) [
    | inl here ↦ (xs, (rw here refl), TakenOut-head item x xs here u)
    | inr later ↦
        let (ys, run, out) = unlink_lem item xs u.1 (rw later at h) in
        (x ∷ ys, (rw (later, run) refl), TakenOut-cons item x xs ys later out)
  ]

  remove_chain_lem :
      (item : T) (l : LinkedList T) (xs : List T)
      → l.items ≡ xs
      → IsCounted l
      → IsUnique same reflexive xs
      → in_chain same item xs ≡ true
      → (l' : LinkedList T) × (remove_chain same item l xs ≡ done l')
        × TakenOut item xs l'.items
        × IsCounted l'
  unfolding remove_chain remove_front is_empty first_item rest in_chain
  remove_chain_lem item l [] e n u h = absurd (cc)
  remove_chain_lem item l (x ∷ xs) e n u h =
      let size : length l.items ≡ suc (length xs) = ap length e in
      elim (Bool-cases (same item x)) [
        | inl here ↦
            let some : (l.num_in_list == 0) ≡ false = ground (arith, size) in
            (
              record { items = xs; num_in_list = l.num_in_list - 1 },
              (rw (here, some, e) (rw here refl)),
              TakenOut-head item x xs here u,
              omega (arith, size),
            )
        | inr later ↦
            let (ys, run, out) = unlink_lem item xs u.1 (rw later at h) in
            let count = length-TakenOut item xs ys out in
            (
              record { items = x ∷ ys; num_in_list = l.num_in_list - 1 },
              (rw (later, run) refl),
              TakenOut-cons item x xs ys later out,
              omega (arith, size, count),
            )
      ]

  -- On a list with a correct count and no item twice, Remove of an item that is on it stops at no
  -- assertion, takes out that item alone, keeps the order of the others, and corrects the count.
  pub remove-TakenOut :
      (l : LinkedList T) (item : T)
      → IsCounted l
      → IsUnique same reflexive l.items
      → is_in_list same l item ≡ true
      → (l' : LinkedList T) × (remove same l item ≡ done l')
        × TakenOut item l.items l'.items
        × IsCounted l'
  unfolding remove is_in_list
  remove-TakenOut l item n u h =
      let (l', run, out, n') = remove_chain_lem item l l.items refl n u h in
      let (before, after, split, taken, gone) = out in (l', (rw (h, run, gone) refl), out, n')
