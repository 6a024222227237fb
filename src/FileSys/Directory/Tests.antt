-- ===== src/FileSys/Directory/Tests.antt =====
-- Runs of the directory on a small table, and the theorems at concrete inputs.
use nachos.Base.{ℕ, ◌≡◌, ◌≢◌, ◌⊎◌, refl, true, false, some, none, List, [], ◌∷◌, if◌then◌else◌}
use nachos.FileSys.Name.{same_name}
use nachos.FileSys.Directory.{Entry, Directory, find, add, remove}
use nachos.FileSys.Directory.Lookup.{IsUnique, lookup}
use nachos.FileSys.Directory.Update.{IsFull, add_lem, HasFree, remove_lem, add-IsUnique}

-- "ab", "abcdefghi", and "abcdefghij", whose tenth character the directory does not keep.
abbrev short_name : List ℕ
short_name = b'a' ∷ b'b' ∷ []

abbrev nine_chars : List ℕ
nine_chars = b'a' ∷ b'b' ∷ b'c' ∷ b'd' ∷ b'e' ∷ b'f' ∷ b'g' ∷ b'h' ∷ b'i' ∷ []

abbrev ten_chars : List ℕ
ten_chars = b'a' ∷ b'b' ∷ b'c' ∷ b'd' ∷ b'e' ∷ b'f' ∷ b'g' ∷ b'h' ∷ b'i' ∷ b'j' ∷ []

abbrev unused : Entry
unused = record { in_use = false; sector = 0; name = 7 ∷ 7 ∷ 7 ∷ 7 ∷ 7 ∷ 7 ∷ 7 ∷ 7 ∷ 7 ∷ 7 ∷ [] }

abbrev stored : Entry
stored = record {
  in_use = true;
  sector = 5;
  name = b'a' ∷ b'b' ∷ 0 ∷ 0 ∷ 0 ∷ 0 ∷ 0 ∷ 0 ∷ 0 ∷ 7 ∷ [];
}

abbrev table : Directory
table = stored ∷ unused ∷ []

table-IsUnique : IsUnique table
unfolding lookup
table-IsUnique = (refl, (tt, tt))

add_run : (add (unused ∷ unused ∷ []) short_name 5).1 ≡ stored ∷ unused ∷ []
unfolding add same_name
add_run = refl

find_run : find table short_name ≡ some 5
unfolding find same_name
find_run = refl

-- The tenth character is not compared.
alias_run : find (add table nine_chars 6).1 ten_chars ≡ some 6
unfolding find add same_name
alias_run = refl

add_lem_example :
    ((find table nine_chars ≡ none)
      × HasFree table
      × ((add table nine_chars 6).0 ≡ true)
      × (find (add table nine_chars 6).1 short_name
          ≡ (if same_name 9 nine_chars short_name then some 6 else find table short_name)))
    ⊎ (((find table nine_chars ≢ none) ⊎ IsFull table) × (add table nine_chars 6 ≡ (false, table)))
add_lem_example = add_lem table nine_chars 6 short_name

remove_lem_example :
    ((find table short_name ≡ none) × (remove table short_name ≡ (false, table)))
    ⊎ ((find table short_name ≢ none)
        × ((remove table short_name).0 ≡ true)
        × (find (remove table short_name).1 nine_chars
            ≡ (if same_name 9 short_name nine_chars then none else find table nine_chars)))
remove_lem_example = remove_lem table short_name nine_chars table-IsUnique

add-IsUnique_example : IsUnique (add table nine_chars 6).1
add-IsUnique_example = add-IsUnique table nine_chars 6 table-IsUnique
