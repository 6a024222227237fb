-- ===== src/Lists/Pointers/Sorted.antt =====
-- SortedList::Insert of code/lib/list.cc as a whole.
use nachos.Base.{
  ℕ, ◌+◌, ◌≡◌, refl, ap, sym, subst, ◌∙◌, inl, inr, Bool, true, false, List, [], ◌∷◌, ◌++◌, none,
  some, Outcome, done, ◌>>=◌, ◌>>◌, assert, ◌==◌, if◌then◌else◌, length, length-append, arith,
  Bool-cases, ◌||◌,
}
use nachos.Lists.{
  LinkedList, is_empty, in_chain, insert_chain, returns_inside, is_in_list as chain_is_in_list,
  insert as chain_insert, append as chain_append, prepend as chain_prepend,
}
use nachos.Lists.Pointers.{
  Element, PointerList, write, set_next, is_in_list, count_in, alone, new_element, insert_at,
  insert, append, prepend,
}
use nachos.Lists.Pointers.Chain.{
  contents, IsUnused, Distinct, IsChain, last_address, last_of, Holds, write_same, IsChain-write,
  IsChain-set_next, contents-append, Distinct-append, last_address-append, in_from_lem,
}
use nachos.Lists.Pointers.Ends.{Agree, append-Agree, count_in-Agree}
use nachos.Lists.Pointers.Insertion.{insert_from_lem}

module _ {T : Type 0} (equal smaller : T → T → Bool) where
  -- What Insert does with the chain of the items behind its first assertion.
  abbrev inserted : LinkedList T → T → List T → Outcome (LinkedList T)
  inserted l item xs = insert_chain equal smaller item xs >>= λ chain.
      assert (returns_inside equal smaller item xs || in_chain equal item chain)
      >> done (record { items = chain; num_in_list = l.num_in_list + 1 })

  insert_at-Agree :
      (s : PointerList T) (l : LinkedList T) (a : ℕ) (item : T) (b : ℕ) (y : T) (cs : List (ℕ × T))
      → IsChain s.elements s.first ((b, y) ∷ cs)
      → Distinct ((b, y) ∷ cs)
      → IsUnused a ((b, y) ∷ cs)
      → s.elements a ≡ record { item = item; next = none }
      → s.last ≡ last_of ((b, y) ∷ cs)
      → s.num_in_list ≡ l.num_in_list
      → length ((b, y) ∷ cs) ≡ s.num_in_list
      → Agree (insert_at equal smaller s a item (some b)) (inserted l item (y ∷ contents cs))
  unfolding insert_at insert_chain returns_inside set_next
  insert_at-Agree s l a item b y cs (start, here, later) d out new end count size =
      elim (Bool-cases (smaller item y)) [
        | inl bigger ↦
            let e : Element T = record { item = (s.elements a).item; next = some b } in
            let linked : PointerList T = record s {
              first = some a;
              elements = write s.elements a e;
            } in
            let self = write_same s.elements a e in
            let behind =
              IsChain-write s.elements a e s.first ((b, y) ∷ cs) out (start, here, later) in
            rw (here, bigger)
              (count_in-Agree equal linked l ((a, item) ∷ (b, y) ∷ cs) (item ∷ y ∷ contents cs) item
                (
                  refl,
                  ap (λ x. x.item) self ∙ ap (λ x. x.item) new,
                  subst (λ q. IsChain linked.elements q ((b, y) ∷ cs))
                      (start ∙ sym (ap (λ x. x.next) self)) behind,
                )
                (out, d) end refl count (omega (arith, size)))
        | inr not_bigger ↦
            elim (insert_from_lem equal smaller s.elements s.num_in_list s.first b y cs a item
              (start, here, later) d out (ap (λ x. x.item) new) (omega (arith, size))) [
                | inl (run, none_bigger, placed) ↦
                    let z = last_address b cs in
                    let linked : PointerList T = record s {
                      last = some a;
                      elements =
                          write s.elements z (record { item = (s.elements z).item; next = some a });
                    } in
                    let grown =
                      IsChain-set_next s.elements s.first b y cs a item (start, here, later) d out
                        new z refl in
                    let longer = length-append ((b, y) ∷ cs) ((a, item) ∷ []) in
                    rw (here, not_bigger, run, none_bigger, placed, end)
                      (count_in-Agree equal linked l ((b, y) ∷ (cs ++ ((a, item) ∷ [])))
                        (y ∷ (contents cs ++ (item ∷ []))) item grown
                        (Distinct-append a item ((b, y) ∷ cs) out d)
                        (ap some (sym (last_address-append b a item cs)))
                        (contents-append ((b, y) ∷ cs) ((a, item) ∷ [])) count
                        (omega (arith, size, longer)))
                | inr (es', run, some_bigger, put) ↦
                    let (cs', chain', d', items, last, longer, unused, frame) = put in
                    rw (here, not_bigger, run, some_bigger)
                      (
                        (b, y) ∷ cs',
                        chain',
                        d',
                        end ∙ ap some (sym last),
                        ap (λ xs. y ∷ xs) items,
                        omega (arith, count),
                        omega (arith, size, longer),
                      )
              ]
      ]

  inserted-Agree :
      (s : PointerList T) (l : LinkedList T) (a : ℕ) (item : T) (cs : List (ℕ × T))
      → IsChain s.elements s.first cs
      → Distinct cs
      → IsUnused a cs
      → s.elements a ≡ record { item = item; next = none }
      → s.last ≡ last_of cs
      → s.num_in_list ≡ l.num_in_list
      → length cs ≡ s.num_in_list
      → Agree
          (if s.num_in_list == 0
            then count_in equal (alone s a) item
            else insert_at equal smaller s a item s.first)
          ((if l.num_in_list == 0
              then done (item ∷ [])
              else insert_chain equal smaller item (contents cs))
            >>= λ chain.
                assert
                  (returns_inside equal smaller item (contents cs) || in_chain equal item chain)
                >> done (record { items = chain; num_in_list = l.num_in_list + 1 }))
  unfolding alone returns_inside
  inserted-Agree s l a item [] chain d out new end count size =
      let none_here : (s.num_in_list == 0) ≡ true = ground (arith, size) in
      let none_there : (l.num_in_list == 0) ≡ true = ground (arith, size, count) in
      rw (none_here, none_there)
        (count_in-Agree equal (alone s a) l ((a, item) ∷ []) (item ∷ []) item
          (refl, ap (λ x. x.item) new, ap (λ x. x.next) new) (tt, tt) refl refl count
          (omega (arith, size)))
  inserted-Agree s l a item ((b, y) ∷ cs) (start, here, later) d out new end count size =
      let some_here : (s.num_in_list == 0) ≡ false = ground (arith, size) in
      let some_there : (l.num_in_list == 0) ≡ false = ground (arith, size, count) in
      rw (some_here, some_there)
        (subst (λ q. Agree (insert_at equal smaller s a item q) (inserted l item (y ∷ contents cs)))
          (sym start)
          (insert_at-Agree s l a item b y cs (start, here, later) d out new end count size))

  insert-Agree :
      (s : PointerList T) (l : LinkedList T) (a : ℕ) (item : T) (holds : Holds s l)
      → IsUnused a holds.0
      → Agree (insert equal smaller s a item) (chain_insert equal smaller l item)
  unfolding insert chain_insert is_in_list chain_is_in_list is_empty new_element
  insert-Agree s l a item (cs, chain, d, end, items, count, size) out =
      let e : Element T = record { item = item; next = none } in
      let s1 = new_element s a item in
      let chain1 = IsChain-write s.elements a e s.first cs out chain in
      let found =
        in_from_lem equal s1.elements s.num_in_list s.first item cs chain1 (omega (arith, size)) in
      let filled =
        inserted-Agree s1 l a item cs chain1 d out (write_same s.elements a e) end count size in
      elim (Bool-cases (in_chain equal item (contents cs))) [
        | inl here ↦ rw (found, sym items, here) tt
        | inr gone ↦ rw (found, sym items, gone) filled
      ]

  -- On pointers that stand for a list, with an address for the new element that no element of the list
  -- has, each of Append, Prepend and Insert either fails an assertion where it does on the chain of
  -- items, or ends with pointers that stand for the list that it returns there: the items in their order,
  -- `last` at the end, and the count.
  pub all_added-Agree :
      (s : PointerList T) (l : LinkedList T) (a : ℕ) (item : T) (holds : Holds s l)
      → IsUnused a holds.0
      → Agree (append equal s a item) (chain_append equal l item)
        × Agree (prepend equal s a item) (chain_prepend equal l item)
        × Agree (insert equal smaller s a item) (chain_insert equal smaller l item)
  all_added-Agree s l a item holds out =
      let (appends, prepends) = append-Agree equal s l a item holds out in
      (appends, prepends, insert-Agree s l a item holds out)
