-- ===== src/Lists.antt =====
-- code/lib/list.h and list.cc: singly linked lists and sorted lists. A list is the chain of items
-- from `first` on and `numInList`; Lists.Pointers has the elements at their addresses, with `last`.
-- `equal` is the `==` of the items, and `smaller x y` is `compare(x, y) < 0`.
pub mod Contents
pub mod Pointers
pub mod Sorted
mod Tests
use nachos.Base.{
  ℕ, suc, ◌+◌, ◌-◌, ◌≡◌, Bool, true, false, not, ◌&&◌, ◌||◌, List, [], ◌∷◌, ◌++◌, Outcome, done,
  aborted, ◌>>=◌, ◌>>◌, assert, ◌==◌, if◌then◌else◌,
}

pub record LinkedList {ℓ} (T : Type ℓ) : Type ℓ where
  pub items : List T
  pub num_in_list : ℕ

module _ {ℓ} {T : Type ℓ} where
  unfoldable pub init : LinkedList T
  init = record { items = []; num_in_list = 0 }

  unfoldable pub is_empty : LinkedList T → Bool
  is_empty l = l.num_in_list == 0

  -- `Front` of an empty list dereferences NULL.
  unfoldable pub first_item : List T → Outcome T
  first_item [] = aborted
  first_item (x ∷ xs) = done x

  unfoldable pub front : LinkedList T → Outcome T
  front l = first_item l.items

  -- The chain after its first element.
  unfoldable pub rest : List T → List T
  rest [] = []
  rest (x ∷ xs) = xs

  unfoldable pub remove_front : LinkedList T → Outcome (T × LinkedList T)
  remove_front l = do
    assert (not (is_empty l))
    thing ← first_item l.items
    done (thing, record { items = rest l.items; num_in_list = l.num_in_list - 1 })

module _ {ℓ} {T : Type ℓ} (equal : T → T → Bool) where
  unfoldable pub in_chain : T → List T → Bool
  in_chain item [] = false
  in_chain item (x ∷ xs) = if equal item x then true else in_chain item xs

  unfoldable pub is_in_list : LinkedList T → T → Bool
  is_in_list l item = in_chain item l.items

  unfoldable pub append : LinkedList T → T → Outcome (LinkedList T)
  append l item = do
    assert (not (is_in_list l item))
    let chain = if is_empty l then item ∷ [] else l.items ++ (item ∷ [])
    let l' : LinkedList T = record { items = chain; num_in_list = l.num_in_list + 1 }
    assert (is_in_list l' item)
    done l'

  unfoldable pub prepend : LinkedList T → T → Outcome (LinkedList T)
  prepend l item = do
    assert (not (is_in_list l item))
    let chain = if is_empty l then item ∷ [] else item ∷ l.items
    let l' : LinkedList T = record { items = chain; num_in_list = l.num_in_list + 1 }
    assert (is_in_list l' item)
    done l'

  -- The search for `item` behind the first element, and the removal of the element found. Reaching
  -- the end fails `ASSERT(ptr != NULL)`.
  unfoldable pub unlink : T → List T → Outcome (List T)
  unlink item [] = aborted
  unlink item (x ∷ xs) =
      let later = unlink item xs >>= λ ys. done (x ∷ ys) in if equal item x then done xs else later

  unfoldable pub remove_chain : T → LinkedList T → List T → Outcome (LinkedList T)
  remove_chain item l [] = aborted
  remove_chain item l (x ∷ xs) =
      if equal item x
      then (remove_front l >>= λ (removed, l'). assert (equal item removed) >> done l')
      else (unlink item xs >>= λ ys.
          done (record { items = x ∷ ys; num_in_list = l.num_in_list - 1 }))

  unfoldable pub remove : LinkedList T → T → Outcome (LinkedList T)
  remove l item = do
    assert (is_in_list l item)
    l' ← remove_chain item l l.items
    assert (not (is_in_list l' item))
    done l'

  module _ (smaller : T → T → Bool) where
    -- The walk behind the first element: before the first bigger element, or at the end.
    unfoldable pub place : T → List T → List T
    place item [] = item ∷ []
    place item (y ∷ ys) =
        let later = place item ys in if smaller item y then item ∷ y ∷ ys else y ∷ later

    unfoldable pub insert_chain : T → List T → Outcome (List T)
    insert_chain item [] = aborted
    insert_chain item (x ∷ xs) =
        if smaller item x then done (item ∷ x ∷ xs) else done (x ∷ place item xs)

    -- Whether the walk finds a bigger element behind the first: the code returns there, past its
    -- last assertion.
    unfoldable pub has_bigger : T → List T → Bool
    has_bigger item [] = false
    has_bigger item (x ∷ xs) = smaller item x || has_bigger item xs

    unfoldable pub returns_inside : T → List T → Bool
    returns_inside item [] = false
    returns_inside item (x ∷ xs) = not (smaller item x) && has_bigger item xs

    -- `SortedList::Insert`.
    unfoldable pub insert : LinkedList T → T → Outcome (LinkedList T)
    insert l item = do
      assert (not (is_in_list l item))
      chain ← if is_empty l then done (item ∷ []) else insert_chain item l.items
      let l' : LinkedList T = record { items = chain; num_in_list = l.num_in_list + 1 }
      assert (returns_inside item l.items || is_in_list l' item)
      done l'
