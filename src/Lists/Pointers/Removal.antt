-- ===== src/Lists/Pointers/Removal.antt =====
-- Remove of code/lib/list.cc, on pointers and on chains of items.
use nachos.Base.{
  ℕ, zero, suc, ◌+◌, ◌-◌, ◌≡◌, ◌≤◌, refl, ap, sym, subst, ◌∙◌, inl, inr, Bool, not, List, [], ◌∷◌,
  Option, none, some, Outcome, done, aborted, ◌>>=◌, ◌>>◌, assert, if◌then◌else◌, length, arith,
  Bool-cases,
}
use nachos.Lists.{
  LinkedList, in_chain, unlink, remove_chain, is_in_list as chain_is_in_list,
  remove as chain_remove, remove_front as chain_remove_front,
}
use nachos.Lists.Pointers.{
  Element, PointerList, write, same_pointer, is_in_list, unlink_from, remove_listed, check_out,
  remove_front, remove,
}
use nachos.Lists.Pointers.Chain.{
  contents, IsUnused, Distinct, IsChain, last_of, Holds, write_same, IsChain-write, in_from_lem,
}
use nachos.Lists.Pointers.Ends.{Agree, AgreeOn, remove_front-AgreeOn}

module _ {T : Type 0} where
  -- What the loop has made of the cells `cs` behind the cell at `b`, and what `unlink` has made of their
  -- items: neither has found the item, or it is out of both, and only cells from `b` on have changed.
  abbrev pub Unlinked :
      (ℕ → Element T)
      → Option ℕ
      → ℕ
      → T
      → List (ℕ × T)
      → Outcome ((ℕ → Element T) × Option ℕ)
      → Outcome (List T)
      → Type 0
  Unlinked es p b y cs aborted aborted = Unit
  Unlinked es p b y cs aborted (done ys) = ⊥
  Unlinked es p b y cs (done r) aborted = ⊥
  Unlinked es p b y cs (done (es', last)) (done ys) =
      (cs' : List (ℕ × T)) × IsChain es' p ((b, y) ∷ cs')
      × Distinct ((b, y) ∷ cs')
      × (contents cs' ≡ ys)
      × (last ≡ last_of ((b, y) ∷ cs'))
      × (length cs' + 1 ≡ length cs)
      × ((a : ℕ) → IsUnused a cs → IsUnused a cs')
      × ((a : ℕ) → IsUnused a ((b, y) ∷ cs) → es' a ≡ es a)

  -- One cell more in front.
  Unlinked-cons :
      (es : ℕ → Element T) (p : Option ℕ) (b : ℕ) (y : T) (c : ℕ) (w : T) (ds : List (ℕ × T))
      (o : Outcome ((ℕ → Element T) × Option ℕ)) (q : Outcome (List T))
      → IsChain es p ((b, y) ∷ (c, w) ∷ ds)
      → Distinct ((b, y) ∷ (c, w) ∷ ds)
      → Unlinked es (es b).next c w ds o q
      → Unlinked es p b y ((c, w) ∷ ds) o (q >>= λ ys. done (w ∷ ys))
  Unlinked-cons es p b y c w ds aborted aborted chain d u = tt
  Unlinked-cons es p b y c w ds aborted (done ys) chain d u = u
  Unlinked-cons es p b y c w ds (done r) aborted chain d u = u
  Unlinked-cons es p b y c w ds (done (es', last)) (done ys) (start, here, later) ((apart, out), d)
        u =
      let (cs', chain', d', items, end, size, unused, frame) = u in
      let kept : es' b ≡ es b = frame b (apart, out) in
      (
        (c, w) ∷ cs',
        (
          start,
          ap (λ e. e.item) kept ∙ here,
          subst (λ q. IsChain es' q ((c, w) ∷ cs')) (sym (ap (λ e. e.next) kept)) chain',
        ),
        ((apart, unused b out), d'),
        ap (λ xs. w ∷ xs) items,
        end,
        omega (arith, size),
        (λ a (first, others). (first, unused a others)),
        (λ a (first, others). frame a others),
      )

  last_after :
      (es : ℕ → Element T) (b : ℕ) (y : T) (c : ℕ) (w : T) (q : Option ℕ) (ds : List (ℕ × T))
      → IsChain es q ds
      → (if same_pointer q none then some b else last_of ((b, y) ∷ (c, w) ∷ ds))
        ≡ last_of ((b, y) ∷ ds)
  last_after es b y c w q [] e = rw e refl
  last_after es b y c w q ((d, x) ∷ ds) (start, here, later) = rw start refl

module _ {T : Type 0} (equal : T → T → Bool) where
  unlink_from-Unlinked :
      (es : ℕ → Element T) (rounds : ℕ) (p : Option ℕ) (b : ℕ) (y : T) (cs : List (ℕ × T))
      (last : Option ℕ) (item : T)
      → IsChain es p ((b, y) ∷ cs)
      → Distinct ((b, y) ∷ cs)
      → last ≡ last_of ((b, y) ∷ cs)
      → length cs ≤ rounds
      → Unlinked es p b y cs
          (unlink_from equal es rounds b (es b).next last item)
          (unlink equal item (contents cs))
  unfolding unlink_from unlink
  unlink_from-Unlinked es rounds p b y [] last item (start, here, end_chain) d end h =
      rw end_chain tt
  unlink_from-Unlinked es zero p b y ((c, w) ∷ ds) last item chain d end h =
      absurd (omega (arith, h))
  unlink_from-Unlinked es (suc rounds) p b y ((c, w) ∷ ds) last item
        (start, here, (next, here', later)) ((apart, out), d) end h =
      elim (Bool-cases (equal item w)) [
        | inl this ↦
            let e : Element T = record { item = (es b).item; next = (es c).next } in
            let self = write_same es b e in
            let rest_of = IsChain-write es b e (es c).next ds out later in
            rw (next, here', this)
              (
                ds,
                (
                  start,
                  ap (λ x. x.item) self ∙ here,
                  subst (λ q. IsChain (write es b e) q ds) (sym (ap (λ x. x.next) self)) rest_of,
                ),
                (out, d.1),
                refl,
                ap (λ l. if same_pointer (es c).next none then some b else l) end
                    ∙ last_after es b y c w (es c).next ds later,
                omega arith,
                (λ a (first, others). others),
                (λ a (first, others). rw first refl),
              )
        | inr other ↦
            let ih =
              unlink_from-Unlinked es rounds (es b).next c w ds last item (next, here', later) d end
                (omega (arith, h)) in
            let more =
              Unlinked-cons es p b y c w ds (unlink_from equal es rounds c (es c).next last item)
                (unlink equal item (contents ds)) (start, here, (next, here', later))
                ((apart, out), d) ih in
            rw (next, here', other) more
      ]

  -- The pointers and the list after the removal behind the first element.
  later_one :
      (s : PointerList T) (l : LinkedList T) (b : ℕ) (y : T) (cs : List (ℕ × T))
      (o : Outcome ((ℕ → Element T) × Option ℕ)) (q : Outcome (List T))
      → s.num_in_list ≡ l.num_in_list
      → length ((b, y) ∷ cs) ≡ s.num_in_list
      → Unlinked s.elements s.first b y cs o q
      → Agree
          (o >>= λ (elements, last).
            done (record s { elements = elements; last = last; num_in_list = s.num_in_list - 1 }))
          (q >>= λ ys. done (record { items = y ∷ ys; num_in_list = l.num_in_list - 1 }))
  later_one s l b y cs aborted aborted count size u = tt
  later_one s l b y cs aborted (done ys) count size u = u
  later_one s l b y cs (done r) aborted count size u = u
  later_one s l b y cs (done (es', last)) (done ys) count size u =
      let (cs', chain, d, items, end, shorter, unused, frame) = u in
      (
        (b, y) ∷ cs',
        chain,
        d,
        end,
        ap (λ xs. y ∷ xs) items,
        omega (arith, count),
        omega (arith, size, shorter),
      )

  first_one :
      (item : T) (o : Outcome (T × PointerList T)) (q : Outcome (T × LinkedList T))
      → AgreeOn o q
      → Agree
          (o >>= λ (removed, s'). assert (equal item removed) >> done s')
          (q >>= λ (removed, l'). assert (equal item removed) >> done l')
  first_one item aborted aborted a = tt
  first_one item aborted (done l) a = absurd a
  first_one item (done s) aborted a = absurd a
  first_one item (done (x, s)) (done (y, l)) (same, holds) = elim (Bool-cases (equal item y)) [
    | inl this ↦ rw (same, this) holds
    | inr other ↦ rw (same, other) tt
  ]

  remove_listed-Agree :
      (s : PointerList T) (l : LinkedList T) (item : T) (cs : List (ℕ × T))
      → Holds s l
      → IsChain s.elements s.first cs
      → Distinct cs
      → s.last ≡ last_of cs
      → l.items ≡ contents cs
      → s.num_in_list ≡ l.num_in_list
      → length cs ≡ s.num_in_list
      → Agree (remove_listed equal s item s.first) (remove_chain equal item l (contents cs))
  unfolding remove_listed remove_chain
  remove_listed-Agree s l item [] holds e d end items count size = rw e tt
  remove_listed-Agree s l item ((b, y) ∷ cs) holds (start, here, later) d end items count size =
      subst
        (λ q.
          Agree (remove_listed equal s item q) (remove_chain equal item l (contents ((b, y) ∷ cs))))
        (sym start)
        (elim (Bool-cases (equal item y)) [
          | inl this ↦
              rw (here, this)
                (first_one item (remove_front s) (chain_remove_front l)
                  (remove_front-AgreeOn s l holds))
          | inr other ↦
              rw (here, other)
                (later_one s l b y cs
                  (unlink_from equal s.elements s.num_in_list b (s.elements b).next s.last item)
                  (unlink equal item (contents cs)) count size
                  (unlink_from-Unlinked s.elements s.num_in_list s.first b y cs s.last item
                    (start, here, later) d end (omega (arith, size))))
        ])

  check_out-Agree :
      (item : T) (o : Outcome (PointerList T)) (q : Outcome (LinkedList T))
      → Agree o q
      → Agree
          (o >>= λ s. check_out equal s item)
          (q >>= λ l. assert (not (in_chain equal item l.items)) >> done l)
  unfolding check_out is_in_list
  check_out-Agree item aborted aborted a = tt
  check_out-Agree item aborted (done l) a = absurd a
  check_out-Agree item (done s) aborted a = absurd a
  check_out-Agree item (done s) (done l) (cs, chain, d, end, items, count, size) =
      let found =
        in_from_lem equal s.elements s.num_in_list s.first item cs chain (omega (arith, size)) in
      let listed = ap (in_chain equal item) items in
      elim (Bool-cases (in_chain equal item l.items)) [
        | inl here ↦ rw (found, listed, here) tt
        | inr gone ↦ rw (found, listed, gone) (cs, chain, d, end, items, count, size)
      ]

  remove-Agree :
      (s : PointerList T) (l : LinkedList T) (item : T)
      → Holds s l
      → Agree (remove equal s item) (chain_remove equal l item)
  unfolding remove chain_remove is_in_list chain_is_in_list
  remove-Agree s l item (cs, chain, d, end, items, count, size) =
      let found =
        in_from_lem equal s.elements s.num_in_list s.first item cs chain (omega (arith, size)) in
      let listed = ap (in_chain equal item) items in
      let between : Agree (remove_listed equal s item s.first) (remove_chain equal item l l.items) =
        subst (λ xs. Agree (remove_listed equal s item s.first) (remove_chain equal item l xs))
          items
          (remove_listed-Agree s l item cs (cs, chain, d, end, items, count, size) chain d end
            (sym items) count size) in
      elim (Bool-cases (in_chain equal item l.items)) [
        | inl here ↦
            rw (found, listed, here)
              (check_out-Agree item (remove_listed equal s item s.first)
                (remove_chain equal item l l.items) between)
        | inr gone ↦ rw (found, listed, gone) tt
      ]

  -- On pointers that stand for a list, RemoveFront and Remove either fail an assertion where they do on
  -- the chain of items, or end with pointers that stand for the list that they return there, RemoveFront
  -- with the same item: `last` is NULL if nothing is left, and points to the element before the one that
  -- has been removed from the end.
  pub all_removed-Agree :
      (s : PointerList T) (l : LinkedList T) (item : T)
      → Holds s l
      → AgreeOn (remove_front s) (chain_remove_front l)
        × Agree (remove equal s item) (chain_remove equal l item)
  all_removed-Agree s l item holds = (remove_front-AgreeOn s l holds, remove-Agree s l item holds)
