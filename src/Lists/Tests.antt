-- ===== src/Lists/Tests.antt =====
-- The lists of code/lib/list.cc at numbers, ordered by their tens so that different items can be of
-- equal rank.
use nachos.Base.{ℕ, ◌/◌, ◌≡◌, refl, Bool, true, false, [], ◌∷◌, done, ◌==◌, ==_iff, ltb, arith}
use nachos.Lists.{
  LinkedList, remove_chain, unlink, remove, insert, remove_front, is_in_list, in_chain, is_empty,
  first_item, rest, place, insert_chain, has_bigger, returns_inside,
}
use nachos.Lists.Contents.{IsCounted, remove-TakenOut, TakenOut}
use nachos.Lists.Sorted.{insert_lem, Placed, IsSorted}

same_reflexive : (a : ℕ) → (a == a) ≡ true
same_reflexive a = (==_iff a a).1 refl

same_equal : (a b : ℕ) → (a == b) ≡ true → a ≡ b
same_equal a b = (==_iff a b).0

abbrev earlier : ℕ → ℕ → Bool
earlier a b = ltb (a / 10) (b / 10)

earlier_asymmetric : (a b : ℕ) → earlier a b ≡ true → earlier b a ≡ false
earlier_asymmetric a b h = ground arith

earlier_transitive : (a b c : ℕ) → earlier a b ≡ true → earlier c b ≡ false → earlier a c ≡ true
earlier_transitive a b c h k = ground arith

abbrev three : LinkedList ℕ
three = record { items = 10 ∷ 20 ∷ 30 ∷ []; num_in_list = 3 }

insert_run :
    insert ◌==◌ earlier three 21 ≡ done (record { items = 10 ∷ 20 ∷ 21 ∷ 30 ∷ []; num_in_list = 4 })
unfolding insert is_in_list in_chain is_empty insert_chain place returns_inside has_bigger
insert_run = refl

remove_run : remove ◌==◌ three 20 ≡ done (record { items = 10 ∷ 30 ∷ []; num_in_list = 2 })
unfolding remove is_in_list in_chain remove_chain unlink
remove_run = refl

remove_front_run : remove_front three ≡ done (10, record { items = 20 ∷ 30 ∷ []; num_in_list = 2 })
unfolding remove_front is_empty first_item rest
remove_front_run = refl

three_unlisted : is_in_list ◌==◌ three 21 ≡ false
unfolding is_in_list in_chain
three_unlisted = refl

remove-TakenOut_example :
    (l' : LinkedList ℕ) × (remove ◌==◌ three 20 ≡ done l')
    × TakenOut ◌==◌ same_reflexive same_equal 20 three.items l'.items
    × IsCounted l'
unfolding is_in_list in_chain
remove-TakenOut_example =
    remove-TakenOut ◌==◌ same_reflexive same_equal three 20 refl (refl, (refl, (refl, tt))) refl

insert_lem_example :
    (l' : LinkedList ℕ) × (insert ◌==◌ earlier three 21 ≡ done l')
    × Placed ◌==◌ same_reflexive earlier earlier_asymmetric earlier_transitive 21 three.items
        l'.items
    × IsSorted ◌==◌ same_reflexive earlier earlier_asymmetric earlier_transitive l'.items
    × IsCounted l'
insert_lem_example =
    insert_lem ◌==◌ same_reflexive earlier earlier_asymmetric earlier_transitive three 21 refl
      ((refl, (refl, tt)), ((refl, tt), (tt, tt))) three_unlisted
