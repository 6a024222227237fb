-- ===== src/Lists/Pointers/Ends.antt =====
-- Append, Prepend and RemoveFront of code/lib/list.cc, on pointers and on chains of items.
use nachos.Base.{
  ℕ, suc, ◌+◌, ◌≡◌, refl, ap, sym, subst, ◌∙◌, inl, inr, Bool, true, false, List, [], ◌∷◌, ◌++◌,
  none, some, Outcome, done, aborted, ◌>>◌, assert, ◌==◌, length, length-append, arith, Bool-cases,
}
use nachos.Lists.{
  LinkedList, in_chain, is_empty, first_item, rest, is_in_list as chain_is_in_list,
  append as chain_append, prepend as chain_prepend, remove_front as chain_remove_front,
}
use nachos.Lists.Pointers.{
  PointerList, write, set_next, take_first, remove_front, is_in_list, count_in, alone, new_element,
  append, prepend,
}
use nachos.Lists.Pointers.Chain.{
  contents, IsUnused, Distinct, IsChain, last_address, last_of, Holds, write_same, IsChain-write,
  IsChain-set_next, contents-append, Distinct-append, last_address-append, last_other, in_from_lem,
}

-- Both stop at a failed assertion, or the pointers stand for the list.
abbrev pub Agree : {T : Type 0} → Outcome (PointerList T) → Outcome (LinkedList T) → Type 0
Agree aborted aborted = Unit
Agree aborted (done l) = ⊥
Agree (done s) aborted = ⊥
Agree (done s) (done l) = Holds s l

-- The same, with an item that both have taken off.
abbrev pub AgreeOn :
    {T : Type 0} → Outcome (T × PointerList T) → Outcome (T × LinkedList T) → Type 0
AgreeOn aborted aborted = Unit
AgreeOn aborted (done l) = ⊥
AgreeOn (done s) aborted = ⊥
AgreeOn (done (x, s)) (done (y, l)) = (x ≡ y) × Holds s l

module _ {T : Type 0} (equal : T → T → Bool) where
  -- `numInList++` and the last assertion.
  pub count_in-Agree :
      (s : PointerList T) (l : LinkedList T) (cs : List (ℕ × T)) (xs : List T) (item : T)
      → IsChain s.elements s.first cs
      → Distinct cs
      → s.last ≡ last_of cs
      → contents cs ≡ xs
      → s.num_in_list ≡ l.num_in_list
      → length cs ≡ s.num_in_list + 1
      → Agree (count_in equal s item) (
          assert (in_chain equal item xs)
          >> done (record { items = xs; num_in_list = l.num_in_list + 1 }))
  unfolding count_in is_in_list
  count_in-Agree s l cs xs item chain d end items count size =
      let found =
        in_from_lem equal s.elements (s.num_in_list + 1) s.first item cs chain
          (omega (arith, size)) in
      let listed = ap (in_chain equal item) items in
      rw (found, listed)
        (elim (Bool-cases (in_chain equal item xs)) [
          | inl here ↦ rw here (cs, chain, d, end, items, omega (arith, count), size)
          | inr gone ↦ rw gone tt
        ])

  length_eq : (cs : List (ℕ × T)) (xs : List T) → contents cs ≡ xs → length cs ≡ length xs
  length_eq cs xs e = length-contents cs ∙ ap length e
    where
      length-contents : (cs : List (ℕ × T)) → length cs ≡ length (contents cs)
      length-contents [] = refl
      length-contents ((a, x) ∷ cs) = ap suc (length-contents cs)

  abbrev Parts : PointerList T → LinkedList T → List (ℕ × T) → Type 0
  Parts s l cs =
      IsChain s.elements s.first cs
      × Distinct cs
      × (s.last ≡ last_of cs)
      × (contents cs ≡ l.items)
      × (s.num_in_list ≡ l.num_in_list)
      × (length cs ≡ s.num_in_list)

  -- The new element, behind the assertion that its item is not listed.
  appended :
      (s : PointerList T) (l : LinkedList T) (a : ℕ) (item : T) (cs : List (ℕ × T))
      → Parts s l cs
      → IsUnused a cs
      → in_chain equal item l.items ≡ false
      → Agree (append equal s a item) (chain_append equal l item)
  unfolding append chain_append is_in_list chain_is_in_list new_element is_empty set_next alone
  appended s l a item [] (chain, d, end, items, count, size) out absent =
      let s1 = new_element s a item in
      let chain1 =
        IsChain-write s.elements a (record { item = item; next = none }) s.first [] out chain in
      let found =
        in_from_lem equal s1.elements s.num_in_list s.first item [] chain1 (omega (arith, size)) in
      let listed = ap (in_chain equal item) items ∙ absent in
      let none_here : (s.num_in_list == 0) ≡ true = ground (arith, size) in
      let none_there : (l.num_in_list == 0) ≡ true = ground (arith, size, count) in
      rw (found, listed, absent, none_here, none_there)
        (count_in-Agree (alone s1 a) l ((a, item) ∷ []) (item ∷ []) item
          (
            refl,
            ap (λ e. e.item) (write_same s.elements a _),
            ap (λ e. e.next) (write_same s.elements a _),
          )
          (tt, tt) refl refl count (omega (arith, size)))
  appended s l a item ((b, y) ∷ cs) (chain, d, end, items, count, size) out absent =
      let s1 = new_element s a item in
      let chain1 =
        IsChain-write s.elements a (record { item = item; next = none }) s.first ((b, y) ∷ cs) out
          chain in
      let found =
        in_from_lem equal s1.elements s.num_in_list s.first item ((b, y) ∷ cs) chain1
          (omega (arith, size)) in
      let listed = ap (in_chain equal item) items ∙ absent in
      let some_here : (s.num_in_list == 0) ≡ false = ground (arith, size) in
      let some_there : (l.num_in_list == 0) ≡ false = ground (arith, size, count) in
      let z = last_address b cs in
      let linked : PointerList T = record s1 {
        last = some a;
        elements = write s1.elements z (record { item = (s1.elements z).item; next = some a });
      } in
      let grown =
        IsChain-set_next s1.elements s.first b y cs a item chain1 d out (write_same s.elements a _)
          z refl in
      let longer = length-append ((b, y) ∷ cs) ((a, item) ∷ []) in
      rw (found, listed, absent, some_here, some_there, end)
        (count_in-Agree linked l ((b, y) ∷ (cs ++ ((a, item) ∷ []))) (l.items ++ (item ∷ [])) item
          grown (Distinct-append a item ((b, y) ∷ cs) out d)
          (ap some (sym (last_address-append b a item cs)))
          (contents-append ((b, y) ∷ cs) ((a, item) ∷ []) ∙ ap (λ xs. xs ++ (item ∷ [])) items)
          count (omega (arith, size, longer)))

  prepended :
      (s : PointerList T) (l : LinkedList T) (a : ℕ) (item : T) (cs : List (ℕ × T))
      → Parts s l cs
      → IsUnused a cs
      → in_chain equal item l.items ≡ false
      → Agree (prepend equal s a item) (chain_prepend equal l item)
  unfolding prepend chain_prepend is_in_list chain_is_in_list new_element is_empty set_next alone
  prepended s l a item [] (chain, d, end, items, count, size) out absent =
      let s1 = new_element s a item in
      let chain1 =
        IsChain-write s.elements a (record { item = item; next = none }) s.first [] out chain in
      let found =
        in_from_lem equal s1.elements s.num_in_list s.first item [] chain1 (omega (arith, size)) in
      let listed = ap (in_chain equal item) items ∙ absent in
      let none_here : (s.num_in_list == 0) ≡ true = ground (arith, size) in
      let none_there : (l.num_in_list == 0) ≡ true = ground (arith, size, count) in
      rw (found, listed, absent, none_here, none_there)
        (count_in-Agree (alone s1 a) l ((a, item) ∷ []) (item ∷ []) item
          (
            refl,
            ap (λ e. e.item) (write_same s.elements a _),
            ap (λ e. e.next) (write_same s.elements a _),
          )
          (tt, tt) refl refl count (omega (arith, size)))
  prepended s l a item ((b, y) ∷ cs) (chain, d, end, items, count, size) out absent =
      let s1 = new_element s a item in
      let chain1 =
        IsChain-write s.elements a (record { item = item; next = none }) s.first ((b, y) ∷ cs) out
          chain in
      let found =
        in_from_lem equal s1.elements s.num_in_list s.first item ((b, y) ∷ cs) chain1
          (omega (arith, size)) in
      let listed = ap (in_chain equal item) items ∙ absent in
      let some_here : (s.num_in_list == 0) ≡ false = ground (arith, size) in
      let some_there : (l.num_in_list == 0) ≡ false = ground (arith, size, count) in
      let linked : PointerList T = record s1 {
        first = some a;
        elements = write s1.elements a (record { item = (s1.elements a).item; next = s.first });
      } in
      let self =
        write_same s1.elements a (record { item = (s1.elements a).item; next = s.first }) in
      let rest_of =
        IsChain-write s1.elements a (record { item = (s1.elements a).item; next = s.first }) s.first
          ((b, y) ∷ cs) out chain1 in
      rw (found, listed, absent, some_here, some_there)
        (count_in-Agree linked l ((a, item) ∷ (b, y) ∷ cs) (item ∷ l.items) item
          (
            refl,
            ap (λ e. e.item) self ∙ ap (λ e. e.item) (write_same s.elements a _),
            subst (λ p. IsChain linked.elements p ((b, y) ∷ cs)) (sym (ap (λ e. e.next) self))
                rest_of,
          )
          (out, d) end (ap (λ xs. item ∷ xs) items) count (omega (arith, size)))

  -- A listed item stops both.
  refused_append :
      (s : PointerList T) (l : LinkedList T) (a : ℕ) (item : T) (cs : List (ℕ × T))
      → Parts s l cs
      → IsUnused a cs
      → in_chain equal item l.items ≡ true
      → Agree (append equal s a item) (chain_append equal l item)
        × Agree (prepend equal s a item) (chain_prepend equal l item)
  unfolding append chain_append prepend chain_prepend is_in_list chain_is_in_list new_element
  refused_append s l a item cs (chain, d, end, items, count, size) out present =
      let s1 = new_element s a item in
      let chain1 =
        IsChain-write s.elements a (record { item = item; next = none }) s.first cs out chain in
      let found =
        in_from_lem equal s1.elements s.num_in_list s.first item cs chain1 (omega (arith, size)) in
      let listed = ap (in_chain equal item) items ∙ present in
      (rw (found, listed, present) tt, rw (found, listed, present) tt)

  pub append-Agree :
      (s : PointerList T) (l : LinkedList T) (a : ℕ) (item : T) (holds : Holds s l)
      → IsUnused a holds.0
      → Agree (append equal s a item) (chain_append equal l item)
        × Agree (prepend equal s a item) (chain_prepend equal l item)
  append-Agree s l a item (cs, chain, d, end, items, count, size) out =
      elim (Bool-cases (in_chain equal item l.items)) [
        | inl present ↦ refused_append s l a item cs (chain, d, end, items, count, size) out present
        | inr absent ↦ (
          appended s l a item cs (chain, d, end, items, count, size) out absent,
          prepended s l a item cs (chain, d, end, items, count, size) out absent,
        )
      ]

module _ {T : Type 0} where
  removed :
      (s : PointerList T) (l : LinkedList T) (cs : List (ℕ × T))
      → IsChain s.elements s.first cs
      → Distinct cs
      → s.last ≡ last_of cs
      → l.items ≡ contents cs
      → s.num_in_list ≡ l.num_in_list
      → length cs ≡ s.num_in_list
      → AgreeOn (remove_front s) (chain_remove_front l)
  unfolding remove_front chain_remove_front is_empty first_item rest take_first
  removed s l [] chain d end items count size =
      let none_here : (s.num_in_list == 0) ≡ true = ground (arith, size) in
      let none_there : (l.num_in_list == 0) ≡ true = ground (arith, size, count) in
      rw (none_here, none_there) tt
  removed s l ((b, y) ∷ []) (start, here, end_chain) d end items count size =
      let some_here : (s.num_in_list == 0) ≡ false = ground (arith, size) in
      let some_there : (l.num_in_list == 0) ≡ false = ground (arith, size, count) in
      let one : (b == b) ≡ true = ground arith in
      rw (some_here, some_there, start, end, items, one)
        (here, ([], refl, tt, refl, refl, omega (arith, count), omega (arith, size)))
  removed s l ((b, y) ∷ (c, w) ∷ cs) (start, here, later) ((apart, out), d) end items count size =
      let some_here : (s.num_in_list == 0) ≡ false = ground (arith, size) in
      let some_there : (l.num_in_list == 0) ≡ false = ground (arith, size, count) in
      let more = last_other b c cs (last_address c cs) apart out refl in
      rw (some_here, some_there, start, end, items, more)
        (here, ((c, w) ∷ cs, later, d, refl, refl, omega (arith, count), omega (arith, size)))

  pub remove_front-AgreeOn :
      (s : PointerList T) (l : LinkedList T)
      → Holds s l
      → AgreeOn (remove_front s) (chain_remove_front l)
  remove_front-AgreeOn s l (cs, chain, d, end, items, count, size) =
      removed s l cs chain d end (sym items) count size
