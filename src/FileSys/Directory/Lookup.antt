-- ===== src/FileSys/Directory/Lookup.antt =====
-- The directory as a map from names to sectors.
use mathlib.Core.Option
use nachos.Base.{
  ℕ, suc, ◌+◌, ◌≡◌, refl, sym, ◌∙◌, Bool, true, false, ◌&&◌, Option, none, some, List, [], ◌∷◌,
  arith, if◌then◌else◌, get_elem?, subst, Bool-cases, inl, inr, ◌⊎◌,
}
use nachos.FileSys.Name.{same_name, same_name_sym, same_name_trans}
use nachos.FileSys.Directory.{
  Entry, Directory, find_index_from, find_index, find, add_free, add, free_entry, remove,
}

abbrev pub answers : Entry → List ℕ → Bool
answers e name = e.in_use && same_name 9 e.name name

-- The sector of the first entry in use that answers to the name.
unfoldable pub lookup : Directory → List ℕ → Option ℕ
lookup [] name = none
lookup (e ∷ es) name = if answers e name then some e.sector else lookup es name

abbrev sector_at : Directory → Option ℕ → Option ℕ
sector_at table o = elim o [
  | none ↦ none
  | some i ↦ elim (get_elem? table i) [ none ↦ none | some e ↦ some e.sector ]
]

find_index_from-suc :
    (i : ℕ) (es : Directory) (name : List ℕ)
    → find_index_from (suc i) es name ≡ Option.map suc (find_index_from i es name)
unfolding find_index_from
find_index_from-suc i [] name = refl
find_index_from-suc i (e ∷ es) name =
    let p : suc i + 1 ≡ suc (i + 1) = omega arith in
    rw (p, find_index_from-suc (i + 1) es name) (ground arith)

sector_at-suc :
    (e : Entry) (es : Directory) (o : Option ℕ)
    → sector_at (e ∷ es) (Option.map suc o) ≡ sector_at es o
sector_at-suc e es none = refl
sector_at-suc e es (some i) = refl

sector_at-find_index :
    (es : Directory) (name : List ℕ) → sector_at es (find_index_from 0 es name) ≡ lookup es name
unfolding find_index_from lookup
sector_at-find_index [] name = refl
sector_at-find_index (e ∷ es) name = elim (Bool-cases (answers e name)) [
  | inl hit ↦ rw hit
  | inr miss ↦
      let p : 0 + 1 ≡ suc 0 = omega arith in
      rw (miss, p, find_index_from-suc 0 es name, sector_at-suc e es (find_index_from 0 es name))
        (sector_at-find_index es name)
]

-- `Find` is the lookup of the map.
pub find-lookup : (es : Directory) (name : List ℕ) → find es name ≡ lookup es name
unfolding find
find-lookup es name = sector_at-find_index es name

-- The table with the first entry that answers to the name freed.
unfoldable pub freed : Directory → List ℕ → Directory
freed [] name = []
freed (e ∷ es) name =
    if answers e name then (record e { in_use = false } ∷ es) else (e ∷ freed es name)

-- What a search of the table finds: nothing, or an entry that the map knows.
abbrev Searched : Directory → List ℕ → Option ℕ → Type 0
Searched es name o =
    ((o ≡ none) × (lookup es name ≡ none) × (freed es name ≡ es))
    ⊎ ((i : ℕ) × (s : ℕ) × (o ≡ some i)
        × (lookup es name ≡ some s)
        × (free_entry es i ≡ freed es name))

Searched-cons :
    (e : Entry) (es : Directory) (name : List ℕ) (o : Option ℕ)
    → answers e name ≡ false
    → Searched es name o
    → Searched (e ∷ es) name (Option.map suc o)
unfolding lookup freed free_entry
Searched-cons e es name o miss (inl (p, q, r)) = inl (rw p, rw miss q, rw (miss, r))
Searched-cons e es name o miss (inr (i, s, p, q, r)) = inr (suc i, s, rw p, rw miss q, rw (miss, r))

pub find_index-Searched : (es : Directory) (name : List ℕ) → Searched es name (find_index es name)
unfolding find_index find_index_from lookup freed free_entry
find_index-Searched [] name = inl (refl, refl, refl)
find_index-Searched (e ∷ es) name = elim (Bool-cases (answers e name)) [
  | inl hit ↦ inr (0, e.sector, rw hit, rw hit, rw hit)
  | inr miss ↦
      let p : 0 + 1 ≡ suc 0 = omega arith in
      let step : find_index_from 0 (e ∷ es) name ≡ Option.map suc (find_index_from 0 es name) =
        rw (miss, p) (find_index_from-suc 0 es name) in
      subst (Searched (e ∷ es) name) (sym step)
        (Searched-cons e es name (find_index_from 0 es name) miss (find_index-Searched es name))
]

pub add-lookup :
    (es : Directory) (name : List ℕ) (s : ℕ)
    → add es name s ≡ elim (lookup es name) [ some _ ↦ (false, es) | none ↦ add_free es name s ]
unfolding add
add-lookup es name s = elim (find_index-Searched es name) [
  | inl (p, q, r) ↦ rw (p, q, add)
  | inr (i, t, p, q, r) ↦ rw (p, q, add)
]

pub remove-lookup :
    (es : Directory) (name : List ℕ)
    → remove es name ≡ elim (lookup es name) [ none ↦ (false, es) | some _ ↦ (true, freed es name) ]
unfolding remove
remove-lookup es name = elim (find_index-Searched es name) [
  | inl (p, q, r) ↦ rw (p, q, remove)
  | inr (i, t, p, q, r) ↦ rw (p, q, r, remove)
]

-- No entry in use answers to a name that an earlier entry in use has.
abbrev pub IsUnique : Directory → Type 0
IsUnique [] = Unit
IsUnique (e ∷ es) = (if e.in_use then lookup es e.name ≡ none else Unit {0}) × IsUnique es

-- Names that `strncmp` does not tell apart have one answer.
pub lookup-same_name :
    (es : Directory) (m n : List ℕ) → same_name 9 m n ≡ true → lookup es m ≡ lookup es n
unfolding lookup
lookup-same_name [] m n h = refl
lookup-same_name (e ∷ es) m n h =
    let same : same_name 9 e.name m ≡ same_name 9 e.name n =
      same_name_sym 9 e.name m ∙ sym (same_name_trans 9 m n e.name h) ∙ same_name_sym 9 n e.name in
    rw (same, lookup-same_name es m n h)
