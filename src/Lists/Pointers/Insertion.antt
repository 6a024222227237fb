-- ===== src/Lists/Pointers/Insertion.antt =====
-- SortedList::Insert of code/lib/list.cc, on pointers and on chains of items.
use nachos.Base.{
  ℕ, zero, suc, ◌+◌, ◌≡◌, ◌≤◌, refl, ap, sym, subst, ◌∙◌, inl, inr, Bool, true, false, List, [],
  ◌∷◌, ◌++◌, Option, none, some, done, ◌==◌, length, arith, Bool-cases, ◌⊎◌,
}
use nachos.Lists.{place, has_bigger}
use nachos.Lists.Pointers.{Element, write, set_next, insert_from}
use nachos.Lists.Pointers.Chain.{
  contents, IsUnused, Distinct, IsChain, last_address, write_same, IsChain-write, apart_sym,
  write-other,
}

module _ {T : Type 0} where
  -- The cells `cs` behind the cell at `b` with a new one among them.
  abbrev pub HasPut :
      (ℕ → Element T) → (ℕ → Element T) → Option ℕ → ℕ → T → ℕ → List (ℕ × T) → List T → Type 0
  HasPut es es' p b y address cs ys =
      (cs' : List (ℕ × T)) × IsChain es' p ((b, y) ∷ cs')
      × Distinct ((b, y) ∷ cs')
      × (contents cs' ≡ ys)
      × (last_address b cs' ≡ last_address b cs)
      × (length cs' ≡ length cs + 1)
      × ((a : ℕ) → (a == address) ≡ false → IsUnused a cs → IsUnused a cs')
      × ((a : ℕ) → (a == address) ≡ false → IsUnused a ((b, y) ∷ cs) → es' a ≡ es a)

  -- One cell more in front.
  HasPut-cons :
      (es es' : ℕ → Element T) (p : Option ℕ) (b : ℕ) (y : T) (c : ℕ) (w : T) (address : ℕ)
      (ds : List (ℕ × T)) (ys : List T)
      → IsChain es p ((b, y) ∷ (c, w) ∷ ds)
      → Distinct ((b, y) ∷ (c, w) ∷ ds)
      → (b == address) ≡ false
      → HasPut es es' (es b).next c w address ds ys
      → HasPut es es' p b y address ((c, w) ∷ ds) (w ∷ ys)
  HasPut-cons es es' p b y c w address ds ys (start, here, later) ((apart, out), d) fresh u =
      let (cs', chain', d', items, end, size, unused, frame) = u in
      let kept : es' b ≡ es b = frame b fresh (apart, out) in
      (
        (c, w) ∷ cs',
        (
          start,
          ap (λ e. e.item) kept ∙ here,
          subst (λ q. IsChain es' q ((c, w) ∷ cs')) (sym (ap (λ e. e.next) kept)) chain',
        ),
        ((apart, unused b fresh out), d'),
        ap (λ xs. w ∷ xs) items,
        end,
        omega (arith, size),
        (λ a other (first, others). (first, unused a other others)),
        (λ a other (first, others). frame a other others),
      )

  -- The element at `address` is put between the one at `b` and the next one.
  HasPut-here :
      (es : ℕ → Element T) (p : Option ℕ) (b : ℕ) (y : T) (c : ℕ) (w : T) (address : ℕ) (item : T)
      (ds : List (ℕ × T))
      → IsChain es p ((b, y) ∷ (c, w) ∷ ds)
      → Distinct ((b, y) ∷ (c, w) ∷ ds)
      → IsUnused address ((b, y) ∷ (c, w) ∷ ds)
      → (es address).item ≡ item
      → HasPut es
          (write
            (write es address (record { item = (es address).item; next = (es b).next }))
            b
            (record {
              item =
                  (write es address
                    (record { item = (es address).item; next = (es b).next })
                    b).item;
              next = some address;
            }))
          p
          b
          y
          address
          ((c, w) ∷ ds)
          (item ∷ w ∷ contents ds)
  HasPut-here es p b y c w address item ds (start, here, rest) ((apart, out), d) (new, others) at =
      let linked = write es address (record { item = (es address).item; next = (es b).next }) in
      let e : Element T = record { item = (linked b).item; next = some address } in
      let again = write linked b e in
      let at_b = write_same linked b e in
      let back : (b == address) ≡ false = apart_sym address b new in
      let at_new : again address ≡ record { item = (es address).item; next = (es b).next } =
        write-other linked b address e new ∙ write_same es address _ in
      let behind : IsChain again (es b).next ((c, w) ∷ ds) =
        IsChain-write linked b e (es b).next ((c, w) ∷ ds) (apart, out)
          (IsChain-write es address (record { item = (es address).item; next = (es b).next })
            (es b).next ((c, w) ∷ ds) others rest) in
      (
        (address, item) ∷ (c, w) ∷ ds,
        (
          start,
          ap (λ x. x.item) at_b ∙ ap (λ x. x.item) (write-other es address b _ back) ∙ here,
          (
            ap (λ x. x.next) at_b,
            ap (λ x. x.item) at_new ∙ at,
            subst (λ q. IsChain again q ((c, w) ∷ ds)) (sym (ap (λ x. x.next) at_new)) behind,
          ),
        ),
        ((back, (apart, out)), (others, d)),
        refl,
        refl,
        omega arith,
        (λ a other unused. (other, unused)),
        (λ a other (first, unused).
            write-other linked b a e first ∙ write-other es address a _ other),
      )

module _ {T : Type 0} (equal smaller : T → T → Bool) where
  -- The loop ends: at an element that is bigger, before which it has put the new one, or at the end, if
  -- none is bigger.
  pub insert_from_lem :
      (es : ℕ → Element T) (rounds : ℕ) (p : Option ℕ) (b : ℕ) (y : T) (cs : List (ℕ × T))
      (address : ℕ) (item : T)
      → IsChain es p ((b, y) ∷ cs)
      → Distinct ((b, y) ∷ cs)
      → IsUnused address ((b, y) ∷ cs)
      → (es address).item ≡ item
      → length cs ≤ rounds
      → ((insert_from equal smaller es rounds b (es b).next address item ≡ done none)
          × (has_bigger equal smaller item (contents cs) ≡ false)
          × (place equal smaller item (contents cs) ≡ contents cs ++ (item ∷ [])))
        ⊎ ((es' : ℕ → Element T) × (insert_from equal smaller es rounds b (es b).next address item
              ≡ done (some es'))
            × (has_bigger equal smaller item (contents cs) ≡ true)
            × HasPut es es' p b y address cs (place equal smaller item (contents cs)))
  unfolding insert_from has_bigger place set_next
  insert_from_lem es rounds p b y [] address item (start, here, end) d out at h =
      inl ((rw end refl), refl, refl)
  insert_from_lem es zero p b y ((c, w) ∷ ds) address item chain d out at h =
      absurd (omega (arith, h))
  insert_from_lem es (suc rounds) p b y ((c, w) ∷ ds) address item
        (start, here, (next, here', later)) d (new, others) at h =
      elim (Bool-cases (smaller item w)) [
        | inl bigger ↦
            let linked =
              write es address (record { item = (es address).item; next = (es b).next }) in
            let again = write linked b (record { item = (linked b).item; next = some address }) in
            inr (
              again,
              subst
                  (λ q.
                    insert_from equal smaller es (suc rounds) b q address item ≡ done (some again))
                  (sym next) (rw (here', bigger) refl),
              (rw bigger refl),
              (rw bigger (
                  HasPut-here es p b y c w address item ds (start, here, (next, here', later)) d
                    (new, others) at)),
            )
        | inr not_bigger ↦
            elim (insert_from_lem es rounds (es b).next c w ds address item (next, here', later) d.1
              others at (omega (arith, h))) [
                | inl (run, none_bigger, placed) ↦ inl (
                  (subst
                      (λ q. insert_from equal smaller es (suc rounds) b q address item ≡ done none)
                      (sym next) (rw (here', not_bigger) run)),
                  (rw not_bigger none_bigger),
                  (rw not_bigger (ap (λ xs. w ∷ xs) placed)),
                )
                | inr (es', run, some_bigger, put) ↦ inr (
                  es',
                  (subst
                      (λ q.
                        insert_from equal smaller es (suc rounds) b q address item
                        ≡ done (some es'))
                      (sym next) (rw (here', not_bigger) run)),
                  (rw not_bigger some_bigger),
                  (rw not_bigger (
                      HasPut-cons es es' p b y c w address ds
                        (place equal smaller item (contents ds)) (start, here, (next, here', later))
                        d (apart_sym address b new) put)),
                )
              ]
      ]
