-- ===== src/Lists/Pointers/Chain.antt =====
-- What the elements of code/lib/list.cc at their addresses say: a chain of cells.
use nachos.Base.{
  ℕ, zero, suc, ◌≤◌, ◌≡◌, refl, ap, ◌∙◌, inl, inr, Bool, true, false, List, [], ◌∷◌, ◌++◌, Option,
  none, some, done, ◌==◌, length, arith, Bool-cases,
}
use nachos.Lists.{LinkedList, in_chain}
use nachos.Lists.Pointers.{Element, PointerList, write, in_from}

pub apart_sym : (a b : ℕ) → (a == b) ≡ false → (b == a) ≡ false
apart_sym a b h = ground (arith, h)

module _ {T : Type 0} where
  -- The cells are the addresses and the items of the elements, from the first one on.
  abbrev pub addresses : List (ℕ × T) → List ℕ
  addresses [] = []
  addresses ((a, x) ∷ cs) = a ∷ addresses cs

  abbrev pub contents : List (ℕ × T) → List T
  contents [] = []
  contents ((a, x) ∷ cs) = x ∷ contents cs

  -- No cell is at address `a`.
  abbrev pub IsUnused : ℕ → List (ℕ × T) → Type 0
  IsUnused a [] = Unit
  IsUnused a ((b, x) ∷ cs) = ((a == b) ≡ false) × IsUnused a cs

  abbrev pub Distinct : List (ℕ × T) → Type 0
  Distinct [] = Unit
  Distinct ((a, x) ∷ cs) = IsUnused a cs × Distinct cs

  -- The cells that the pointers lead through from `p` on, up to NULL.
  abbrev pub IsChain : (ℕ → Element T) → Option ℕ → List (ℕ × T) → Type 0
  IsChain es p [] = p ≡ none
  IsChain es p ((a, x) ∷ cs) = (p ≡ some a) × ((es a).item ≡ x) × IsChain es (es a).next cs

  abbrev pub last_address : ℕ → List (ℕ × T) → ℕ
  last_address a [] = a
  last_address a ((b, x) ∷ cs) = last_address b cs

  abbrev pub last_of : List (ℕ × T) → Option ℕ
  last_of [] = none
  last_of ((a, x) ∷ cs) = some (last_address a cs)

  -- The pointers stand for the list `l`: their chain has its items, no address twice, its end at `last`,
  -- and as many cells as both lists count.
  abbrev pub Holds : PointerList T → LinkedList T → Type 0
  Holds s l =
      (cs : List (ℕ × T)) × IsChain s.elements s.first cs
      × Distinct cs
      × (s.last ≡ last_of cs)
      × (contents cs ≡ l.items)
      × (s.num_in_list ≡ l.num_in_list)
      × (length cs ≡ s.num_in_list)

  pub write_same : (es : ℕ → Element T) (a : ℕ) (e : Element T) → write es a e a ≡ e
  write_same es a e = let self : (a == a) ≡ true = ground arith in rw self refl

  pub write-other :
      (es : ℕ → Element T) (a b : ℕ) (e : Element T) → (b == a) ≡ false → write es a e b ≡ es b
  write-other es a b e h = rw h refl

  -- A write at an address that no cell has.
  pub IsChain-write :
      (es : ℕ → Element T) (a : ℕ) (e : Element T) (p : Option ℕ) (cs : List (ℕ × T))
      → IsUnused a cs
      → IsChain es p cs
      → IsChain (write es a e) p cs
  IsChain-write es a e p [] out chain = chain
  IsChain-write es a e p ((b, x) ∷ cs) (apart, out) (start, here, later) =
      let other = apart_sym a b apart in
      (start, (rw other here), (rw other (IsChain-write es a e (es b).next cs out later)))

  pub last_other :
      (b c : ℕ) (cs : List (ℕ × T)) (z : ℕ)
      → (b == c) ≡ false
      → IsUnused b cs
      → z ≡ last_address c cs
      → (b == z) ≡ false
  last_other b c [] z apart out at = ground (arith, apart, at)
  last_other b c ((c', w') ∷ cs) z apart (apart', out) at = last_other b c' cs z apart' out at

  -- The last element's `next` points to an element at `a` at the end.
  pub IsChain-set_next :
      (es : ℕ → Element T) (p : Option ℕ) (b : ℕ) (y : T) (cs : List (ℕ × T)) (a : ℕ) (x : T)
      → IsChain es p ((b, y) ∷ cs)
      → Distinct ((b, y) ∷ cs)
      → IsUnused a ((b, y) ∷ cs)
      → es a ≡ record { item = x; next = none }
      → (z : ℕ) → z ≡ last_address b cs
      → IsChain
          (write es z (record { item = (es z).item; next = some a }))
          p
          ((b, y) ∷ (cs ++ ((a, x) ∷ [])))
  IsChain-set_next es p b y [] a x (start, here, end) d (apart, out) new z at =
      let self : (b == z) ≡ true = ground (arith, at) in
      let other : (a == z) ≡ false = ground (arith, at, apart) in
      (
        start,
        (rw self (ap (λ c. (es c).item) at ∙ here)),
        (rw self (refl, (rw other (ap (λ e. e.item) new)), (rw other (ap (λ e. e.next) new)))),
      )
  IsChain-set_next es p b y ((c, w) ∷ cs) a x (start, here, later) (out_b, d) (apart, out) new z
        at =
      let other : (b == z) ≡ false = last_other b c cs z out_b.0 out_b.1 at in
      (
        start,
        (rw other here),
        (rw other (IsChain-set_next es (es b).next c w cs a x later d out new z at)),
      )

  pub contents-append : (cs ds : List (ℕ × T)) → contents (cs ++ ds) ≡ contents cs ++ contents ds
  contents-append [] ds = refl
  contents-append ((a, x) ∷ cs) ds = ap (λ xs. x ∷ xs) (contents-append cs ds)

  IsUnused-append :
      (a b : ℕ) (x : T) (cs : List (ℕ × T))
      → IsUnused a cs
      → (a == b) ≡ false
      → IsUnused a (cs ++ ((b, x) ∷ []))
  IsUnused-append a b x [] out apart = (apart, tt)
  IsUnused-append a b x ((c, y) ∷ cs) (other, out) apart =
      (other, IsUnused-append a b x cs out apart)

  pub Distinct-append :
      (a : ℕ) (x : T) (cs : List (ℕ × T))
      → IsUnused a cs
      → Distinct cs
      → Distinct (cs ++ ((a, x) ∷ []))
  Distinct-append a x [] out d = (tt, tt)
  Distinct-append a x ((b, y) ∷ cs) (apart, out) (new, d) =
      (IsUnused-append b a x cs new (apart_sym a b apart), Distinct-append a x cs out d)

  pub last_address-append :
      (b a : ℕ) (x : T) (cs : List (ℕ × T)) → last_address b (cs ++ ((a, x) ∷ [])) ≡ a
  last_address-append b a x [] = refl
  last_address-append b a x ((c, y) ∷ cs) = last_address-append c a x cs

module _ {T : Type 0} (equal : T → T → Bool) where
  -- IsInList ends within as many rounds as there are cells.
  pub in_from_lem :
      (es : ℕ → Element T) (rounds : ℕ) (p : Option ℕ) (item : T) (cs : List (ℕ × T))
      → IsChain es p cs
      → length cs ≤ rounds
      → in_from equal es rounds p item ≡ done (in_chain equal item (contents cs))
  unfolding in_from in_chain
  in_from_lem es rounds p item [] e h = rw e refl
  in_from_lem es zero p item ((a, x) ∷ cs) e h = absurd (omega (arith, h))
  in_from_lem es (suc rounds) p item ((a, x) ∷ cs) (start, here, later) h =
      let ih = in_from_lem es rounds (es a).next item cs later (omega (arith, h)) in
      rw (start, here, ih)
        (elim (Bool-cases (equal item x)) [ inl yes_x ↦ rw yes_x refl | inr no_x ↦ rw no_x refl ])
