-- ===== src/Threads/Chains.antt =====
-- What Append and RemoveFront of code/lib/list.cc do to lists of threads.
use nachos.Base.{
  ℕ, suc, ◌-◌, ◌≡◌, refl, ap, sym, ◌⊎◌, inl, inr, true, false, List, [], ◌∷◌, ◌++◌, subst, done,
  ◌==◌, ◌||◌, length, arith, Bool-cases,
}
use nachos.Lists.{
  LinkedList, is_empty, in_chain, is_in_list, append, remove_front, first_item, rest,
}
use nachos.Lists.Contents.{IsCounted, IsUnique, append_lem}

pub ==-self : (t : ℕ) → (t == t) ≡ true
==-self t = ground arith

-- No item is on the list twice, and it counts right.
abbrev pub IsSound : LinkedList ℕ → Type 0
IsSound l = IsCounted l × IsUnique ◌==◌ ==-self l.items

pub in_chain-append_last :
    (t n : ℕ) (xs : List ℕ) → in_chain ◌==◌ t (xs ++ (n ∷ [])) ≡ (in_chain ◌==◌ t xs || (t == n))
unfolding in_chain
in_chain-append_last t n [] = ground arith
in_chain-append_last t n (x ∷ xs) = ground (arith, in_chain-append_last t n xs)

IsUnique-append :
    (n : ℕ) (xs : List ℕ)
    → in_chain ◌==◌ n xs ≡ false
    → IsUnique ◌==◌ ==-self xs
    → IsUnique ◌==◌ ==-self (xs ++ (n ∷ []))
unfolding in_chain
IsUnique-append n [] h u = (refl, tt)
IsUnique-append n (x ∷ xs) h u = elim (Bool-cases (n == x)) [
  | inl here ↦ absurd (ground (arith, h, here))
  | inr apart ↦
      let other : (x == n) ≡ false = ground (arith, apart) in
      let later : in_chain ◌==◌ n xs ≡ false = rw apart at h in
      ((rw (in_chain-append_last x n xs, u.0, other) refl), IsUnique-append n xs later u.1)
]

-- Append of a thread that is not on the list.
pub append-IsSound :
    (l : LinkedList ℕ) (n : ℕ)
    → IsSound l
    → in_chain ◌==◌ n l.items ≡ false
    → (l' : LinkedList ℕ) × (append ◌==◌ l n ≡ done l')
      × IsSound l'
      × ((t : ℕ) → in_chain ◌==◌ t l'.items ≡ (in_chain ◌==◌ t l.items || (t == n)))
      × (l'.items ≡ l.items ++ (n ∷ []))
unfolding is_in_list
append-IsSound l n (count, unique) out =
    let (l', run, items, count') = append_lem ◌==◌ ==-self l n count out in
    (
      l',
      run,
      (count', subst (IsUnique ◌==◌ ==-self) (sym items) (IsUnique-append n l.items out unique)),
      (λ t. rw items (in_chain-append_last t n l.items)),
      items,
    )

abbrev pub Popped : LinkedList ℕ → Type 0
Popped l =
    (n : ℕ) × (l' : LinkedList ℕ) × (remove_front l ≡ done (n, l'))
    × IsSound l'
    × (in_chain ◌==◌ n l.items ≡ true)
    × (in_chain ◌==◌ n l'.items ≡ false)
    × ((t : ℕ) → in_chain ◌==◌ t l.items ≡ ((t == n) || in_chain ◌==◌ t l'.items))
    × (l.items ≡ n ∷ l'.items)

in_chain-head :
    (t x : ℕ) (xs : List ℕ) → in_chain ◌==◌ t (x ∷ xs) ≡ ((t == x) || in_chain ◌==◌ t xs)
unfolding in_chain
in_chain-head t x xs = ground arith

chain-cases :
    (l : LinkedList ℕ) (xs : List ℕ)
    → l.items ≡ xs
    → IsSound l
    → ((is_empty l ≡ true) × (l.items ≡ [])) ⊎ ((is_empty l ≡ false) × Popped l)
unfolding remove_front is_empty first_item rest in_chain
chain-cases l [] e (count, unique) =
    let size : length l.items ≡ 0 = ap length e in inl (ground (arith, size), e)
chain-cases l (x ∷ xs) e (count, unique) =
    let size : length l.items ≡ suc (length xs) = ap length e in
    let filled : (l.num_in_list == 0) ≡ false = ground (arith, size) in
    let apart : IsUnique ◌==◌ ==-self (x ∷ xs) = subst (IsUnique ◌==◌ ==-self) e unique in
    let shorter : LinkedList ℕ = record { items = xs; num_in_list = l.num_in_list - 1 } in
    inr (
      filled,
      (
        x,
        shorter,
        (rw (filled, e) refl),
        (omega (arith, size), apart.1),
        (rw (e, ==-self x) refl),
        apart.0,
        (λ t. rw e (in_chain-head t x xs)),
        e,
      ),
    )

-- A list is empty and has no thread, or RemoveFront takes its first thread from it.
pub remove_front-cases :
    (l : LinkedList ℕ)
    → IsSound l
    → ((is_empty l ≡ true) × (l.items ≡ [])) ⊎ ((is_empty l ≡ false) × Popped l)
remove_front-cases l sound = chain-cases l l.items refl sound
