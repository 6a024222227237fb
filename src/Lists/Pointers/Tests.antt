-- ===== src/Lists/Pointers/Tests.antt =====
-- The lists of code/lib/list.cc at three elements.
use nachos.Base.{ℕ, ◌/◌, ◌≡◌, refl, Bool, [], ◌∷◌, Option, none, some, done, ◌==◌, ltb}
use nachos.Lists.{
  LinkedList, append as chain_append, prepend as chain_prepend, insert as chain_insert,
  remove as chain_remove, remove_front as chain_remove_front,
}
use nachos.Lists.Pointers.{
  Element, PointerList, write, append, prepend, insert, remove, remove_front, remove_listed,
  unlink_from, check_out, is_in_list, in_from,
}
use nachos.Lists.Pointers.Chain.{Holds}
use nachos.Lists.Pointers.Ends.{Agree, AgreeOn}
use nachos.Lists.Pointers.Removal.{all_removed-Agree}
use nachos.Lists.Pointers.Sorted.{all_added-Agree}

abbrev earlier : ℕ → ℕ → Bool
earlier a b = ltb (a / 10) (b / 10)

abbrev cell : ℕ → Option ℕ → Element ℕ
cell x next = record { item = x; next = next }

abbrev three_cells : ℕ → Element ℕ
three_cells =
    write (write (write (λ a. cell 0 none) 100 (cell 10 (some 300))) 300 (cell 20 (some 200))) 200
      (cell 30 none)

abbrev three : PointerList ℕ
three = record { first = some 100; last = some 200; num_in_list = 3; elements = three_cells }

abbrev three_items : LinkedList ℕ
three_items = record { items = 10 ∷ 20 ∷ 30 ∷ []; num_in_list = 3 }

three-Holds : Holds three three_items
three-Holds = (
  (100, 10) ∷ (300, 20) ∷ (200, 30) ∷ [],
  (refl, refl, (refl, refl, (refl, refl, refl))),
  ((refl, (refl, tt)), ((refl, tt), (tt, tt))),
  refl,
  refl,
  refl,
  refl,
)

-- The removal from the end moves `last`.
remove_last :
    remove ◌==◌ three 30
    ≡ done (record {
      first = some 100;
      last = some 300;
      num_in_list = 2;
      elements = write three_cells 300 (cell 20 none);
    })
unfolding remove is_in_list in_from remove_listed unlink_from check_out
remove_last = refl

all_added-Agree_example :
    Agree (append ◌==◌ three 400 21) (chain_append ◌==◌ three_items 21)
    × Agree (prepend ◌==◌ three 400 21) (chain_prepend ◌==◌ three_items 21)
    × Agree (insert ◌==◌ earlier three 400 21) (chain_insert ◌==◌ earlier three_items 21)
unfolding three-Holds
all_added-Agree_example =
    all_added-Agree ◌==◌ earlier three three_items 400 21 three-Holds (refl, (refl, (refl, tt)))

all_removed-Agree_example :
    AgreeOn (remove_front three) (chain_remove_front three_items)
    × Agree (remove ◌==◌ three 30) (chain_remove ◌==◌ three_items 30)
all_removed-Agree_example = all_removed-Agree ◌==◌ three three_items 30 three-Holds
