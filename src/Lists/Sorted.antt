-- ===== src/Lists/Sorted.antt =====
-- SortedList::Insert of code/lib/list.cc: order, and items of equal rank in the order of insertion.
use nachos.Base.{
  ℕ, ◌+◌, ◌≡◌, refl, sym, ap, inl, inr, Bool, true, false, ◌||◌, List, [], ◌∷◌, ◌++◌, done, ◌==◌,
  if◌then◌else◌, length, length-append, arith, Bool-cases, subst, All, All-map_fun,
}
use nachos.Lists.{
  LinkedList, is_empty, in_chain, is_in_list, place, insert_chain, returns_inside, insert,
}
use nachos.Lists.Contents.{IsCounted, in_chain-append}

-- `compare` orders the items: `smaller` is a strict weak order.
module _ {ℓ} {T : Type ℓ} (same : T → T → Bool) (reflexive : (a : T) → same a a ≡ true)
    (smaller : T → T → Bool) (asymmetric : (a b : T) → smaller a b ≡ true → smaller b a ≡ false)
    (transitive : (a b c : T) → smaller a b ≡ true → smaller c b ≡ false → smaller a c ≡ true) where
  -- No item is smaller than one before it.
  abbrev pub IsSorted : List T → Type 0
  IsSorted [] = Unit
  IsSorted (x ∷ xs) = All (λ y. smaller y x ≡ false) xs × IsSorted xs

  -- `ys` is `xs` with `item` put behind every item that is not bigger and before every bigger one.
  abbrev pub Placed : T → List T → List T → Type ℓ
  Placed item xs ys =
      (before : List T) × (after : List T) × (xs ≡ before ++ after)
      × (ys ≡ before ++ (item ∷ after))
      × All (λ y. smaller item y ≡ false) before
      × All (λ y. smaller item y ≡ true) after

  Placed-cons :
      (item x : T) (xs ys : List T)
      → smaller item x ≡ false
      → Placed item xs ys
      → Placed item (x ∷ xs) (x ∷ ys)
  Placed-cons item x xs ys e (before, after, split, joined, low, high) =
      (x ∷ before, after, ap (λ c. x ∷ c) split, ap (λ c. x ∷ c) joined, (e, low), high)

  Placed-head :
      (item x : T) (xs : List T)
      → smaller item x ≡ true
      → IsSorted (x ∷ xs)
      → Placed item (x ∷ xs) (item ∷ x ∷ xs)
  Placed-head item x xs e s = (
    [],
    x ∷ xs,
    refl,
    refl,
    tt,
    (
      e,
      All-map_fun (λ y. smaller y x ≡ false) (λ y. smaller item y ≡ true) xs
          (λ y h. transitive item x y e h) s.0,
    ),
  )

  place-Placed :
      (item : T) (xs : List T) → IsSorted xs → Placed item xs (place same smaller item xs)
  unfolding place
  place-Placed item [] s = ([], [], refl, refl, tt, tt)
  place-Placed item (x ∷ xs) s = elim (Bool-cases (smaller item x)) [
    | inl bigger ↦ rw bigger (Placed-head item x xs bigger s)
    | inr not_bigger ↦ rw not_bigger (Placed-cons item x xs _ not_bigger (place-Placed item xs s.1))
  ]

  All-put :
      (P : T → Type 0) (item : T) (before after : List T)
      → P item
      → All P (before ++ after)
      → All P (before ++ (item ∷ after))
  All-put P item [] after p h = (p, h)
  All-put P item (x ∷ before) after p h = (h.0, All-put P item before after p h.1)

  put-IsSorted :
      (item : T) (before after : List T)
      → IsSorted (before ++ after)
      → All (λ y. smaller item y ≡ false) before
      → All (λ y. smaller item y ≡ true) after
      → IsSorted (before ++ (item ∷ after))
  put-IsSorted item [] after s low high = (
    All-map_fun (λ y. smaller item y ≡ true) (λ y. smaller y item ≡ false) after
        (λ y h. asymmetric item y h) high,
    s,
  )
  put-IsSorted item (x ∷ before) after s low high = (
    All-put (λ y. smaller y x ≡ false) item before after low.0 s.0,
    put-IsSorted item before after s.1 low.1 high,
  )

  Placed-IsSorted : (item : T) (xs ys : List T) → IsSorted xs → Placed item xs ys → IsSorted ys
  Placed-IsSorted item xs ys s (before, after, split, joined, low, high) =
      subst IsSorted (sym joined) (put-IsSorted item before after (subst IsSorted split s) low high)

  length-Placed : (item : T) (xs ys : List T) → Placed item xs ys → length ys ≡ length xs + 1
  length-Placed item xs ys (before, after, split, joined, low, high) =
      let a = length-append before after in
      let b = length-append before (item ∷ after) in rw (split, joined) (omega (arith, a, b))

  in_chain-Placed : (item : T) (xs ys : List T) → Placed item xs ys → in_chain same item ys ≡ true
  in_chain-Placed item xs ys (before, after, split, joined, low, high) =
      rw joined (in_chain-append same reflexive item before after)

  chain_lem :
      (item : T) (xs : List T) (n : ℕ)
      → n ≡ length xs
      → IsSorted xs
      → (ys : List T) × ((if n == 0 then done (item ∷ []) else insert_chain same smaller item xs)
          ≡ done ys)
        × Placed item xs ys
  unfolding insert_chain
  chain_lem item [] n h s = (item ∷ [], (rw h refl), ([], [], refl, refl, tt, tt))
  chain_lem item (x ∷ xs) n h s =
      let some : (n == 0) ≡ false = ground arith in
      elim (Bool-cases (smaller item x)) [
        | inl bigger ↦ (item ∷ x ∷ xs, (rw (some, bigger) refl), Placed-head item x xs bigger s)
        | inr not_bigger ↦ (
          x ∷ place same smaller item xs,
          (rw (some, not_bigger) refl),
          Placed-cons item x xs (place same smaller item xs) not_bigger (place-Placed item xs s.1),
        )
      ]

  -- On a sorted list with a correct count, Insert of an item that is not on it stops at no assertion,
  -- puts the item behind all items that are not bigger and before all bigger ones, and keeps the list
  -- sorted and its count correct.
  pub insert_lem :
      (l : LinkedList T) (item : T)
      → IsCounted l
      → IsSorted l.items
      → is_in_list same l item ≡ false
      → (l' : LinkedList T) × (insert same smaller l item ≡ done l')
        × Placed item l.items l'.items
        × IsSorted l'.items
        × IsCounted l'
  unfolding insert is_empty is_in_list
  insert_lem l item n s out =
      let (ys, run, placed) = chain_lem item l.items l.num_in_list n s in
      let here = in_chain-Placed item l.items ys placed in
      let checked = or_true (returns_inside same smaller item l.items) in
      let count = length-Placed item l.items ys placed in
      (
        record { items = ys; num_in_list = l.num_in_list + 1 },
        (rw (out, run, here, checked) refl),
        placed,
        Placed-IsSorted item l.items ys s placed,
        omega (arith, count),
      )
    where
      or_true : (b : Bool) → (b || true) ≡ true
      or_true true = refl
      or_true false = refl
