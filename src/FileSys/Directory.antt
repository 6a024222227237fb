-- ===== src/FileSys/Directory.antt =====
-- code/filesys/directory.h and directory.cc: the table of file names.
pub mod Lookup
pub mod Update
mod Tests
use nachos.Base.{
  ℕ, zero, suc, ◌+◌, ◌≡◌, Bool, true, false, ◌&&◌, Option, none, some, List, [], ◌∷◌, ◌==◌,
  if◌then◌else◌, get_elem?, set, replicate,
}
use nachos.FileSys.Name.{same_name, strncpy}

abbrev pub file_name_max_len : ℕ
file_name_max_len = 9

-- `name` has `FileNameMaxLen + 1` bytes.
pub record Entry : Type 0 where
  pub in_use : Bool
  pub sector : ℕ
  pub name : List ℕ

abbrev pub Directory : Type 0
Directory = List Entry

-- The constructor: `new` leaves the other fields of `table` as they were in memory.
pub init : List Entry → Directory
init [] = []
init (e ∷ es) = record e { in_use = false } ∷ init es

-- `FindIndex`, from entry `i` on; -1 is `none`.
pub find_index_from : ℕ → Directory → List ℕ → Option ℕ
find_index_from i [] name = none
find_index_from i (e ∷ es) name =
    if e.in_use && same_name file_name_max_len e.name name
    then some i
    else find_index_from (i + 1) es name

pub find_index : Directory → List ℕ → Option ℕ
unfolding find_index_from
find_index table name = find_index_from 0 table name

pub find : Directory → List ℕ → Option ℕ
unfolding find_index
find table name = elim (find_index table name) [
  | none ↦ none
  | some i ↦ elim (get_elem? table i) [ none ↦ none | some e ↦ some e.sector ]
]

-- The loop of `Add`: the first free entry takes the file.
pub add_free : Directory → List ℕ → ℕ → Bool × Directory
add_free [] name new_sector = (false, [])
add_free (e ∷ es) name new_sector =
    let taken : Entry = record {
      in_use = true;
      name = strncpy e.name name file_name_max_len;
      sector = new_sector;
    } in
    let (added, es') = add_free es name new_sector in
    if e.in_use then (added, e ∷ es') else (true, taken ∷ es)

pub add : Directory → List ℕ → ℕ → Bool × Directory
unfolding find_index add_free strncpy
add table name new_sector = elim (find_index table name) [
  | some i ↦ (false, table)
  | none ↦ add_free table name new_sector
]

-- `table[i].inUse = FALSE`
pub free_entry : Directory → ℕ → Directory
free_entry [] i = []
free_entry (e ∷ es) zero = record e { in_use = false } ∷ es
free_entry (e ∷ es) (suc i) = e ∷ free_entry es i

pub remove : Directory → List ℕ → Bool × Directory
unfolding find_index free_entry
remove table name = elim (find_index table name) [
  | none ↦ (false, table)
  | some i ↦ (true, free_entry table i)
]
