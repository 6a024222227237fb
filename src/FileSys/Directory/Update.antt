-- ===== src/FileSys/Directory/Update.antt =====
-- What `Add` and `Remove` do to the map from names to sectors.
use nachos.Base.{
  ℕ, ◌≡◌, refl, ap, ◌∙◌, Bool, true, false, Option, none, some, List, [], ◌∷◌, arith, if◌then◌else◌,
  Bool-cases, Option-cases, inl, inr, ◌⊎◌, ◌≢◌,
}
use nachos.FileSys.Name.{
  same_name, strncpy, same_name-strncpy, same_name_sym, same_name_trans, same_name_refl,
}
use nachos.FileSys.Directory.{Entry, Directory, find, add_free, add, remove}
use nachos.FileSys.Directory.Lookup.{
  answers, lookup, freed, find-lookup, add-lookup, remove-lookup, IsUnique, lookup-same_name,
}

-- Every entry is in use.
abbrev pub IsFull : Directory → Type 0
IsFull [] = Unit
IsFull (e ∷ es) = (e.in_use ≡ true) × IsFull es

-- Some entry is free.
abbrev pub HasFree : Directory → Type 0
HasFree [] = ⊥
HasFree (e ∷ es) = (e.in_use ≡ false) ⊎ HasFree es

-- The map with `name` bound to `s`.
abbrev pub bound : Directory → List ℕ → ℕ → List ℕ → Option ℕ
bound es name s other = if same_name 9 name other then some s else lookup es other

-- A step of the loop over an entry in use.
bound-cons :
    (e : Entry) (es es' : Directory) (name other : List ℕ) (s : ℕ)
    → lookup (e ∷ es) name ≡ none
    → lookup es' other ≡ bound es name s other
    → lookup (e ∷ es') other ≡ bound (e ∷ es) name s other
unfolding lookup
bound-cons e es es' name other s absent ih = ground (
  arith,
  same_name_sym 9 e.name name,
  same_name_sym 9 e.name other,
  same_name_trans 9 name other e.name,
)

lookup-tail :
    (e : Entry) (es : Directory) (name : List ℕ)
    → lookup (e ∷ es) name ≡ none
    → lookup es name ≡ none
unfolding lookup
lookup-tail e es name h = ground arith

-- The step over a free entry, which takes the file.
bound-taken :
    (e : Entry) (es : Directory) (name other : List ℕ) (s : ℕ)
    → e.in_use ≡ false
    → lookup (record { in_use = true; sector = s; name = strncpy e.name name 9 } ∷ es) other
      ≡ bound (e ∷ es) name s other
unfolding lookup
bound-taken e es name other s free = rw (same_name-strncpy 9 e.name name other, free)

-- What the loop of `Add` returns for a name that the map lacks.
abbrev pub Added : Directory → List ℕ → ℕ → List ℕ → Bool × Directory → Type 0
Added es name s other r =
    ((r.0 ≡ true) × HasFree es × (lookup r.1 other ≡ bound es name s other))
    ⊎ ((r.0 ≡ false) × (r.1 ≡ es) × IsFull es)

add_free-used :
    (e : Entry) (es : Directory) (name : List ℕ) (s : ℕ)
    → e.in_use ≡ true
    → add_free (e ∷ es) name s ≡ ((add_free es name s).0, e ∷ (add_free es name s).1)
unfolding add_free
add_free-used e es name s h = ground arith

abbrev taken : Entry → List ℕ → ℕ → Entry
taken e name s = record { in_use = true; sector = s; name = strncpy e.name name 9 }

add_free-free :
    (e : Entry) (es : Directory) (name : List ℕ) (s : ℕ)
    → e.in_use ≡ false
    → add_free (e ∷ es) name s ≡ (true, taken e name s ∷ es)
unfolding add_free
add_free-free e es name s h = rw h

pub add_free-Added :
    (es : Directory) (name : List ℕ) (s : ℕ) (other : List ℕ)
    → lookup es name ≡ none
    → Added es name s other (add_free es name s)
unfolding add_free
add_free-Added [] name s other h = inr (refl, refl, tt)
add_free-Added (e ∷ es) name s other h = elim (Bool-cases e.in_use) [
  | inl used ↦ elim (add_free-Added es name s other (lookup-tail e es name h)) [
    | inl (p, room, q) ↦ inl (
      rw (add_free-used e es name s used) p,
      inr room,
      rw (add_free-used e es name s used) (bound-cons e es (add_free es name s).1 name other s h q),
    )
    | inr (p, q, full) ↦ inr (
      rw (add_free-used e es name s used) p,
      rw (add_free-used e es name s used) (ap (◌∷◌ e) q),
      (used, full),
    )
  ]
  | inr free ↦ inl (
    rw (add_free-free e es name s free),
    inl free,
    rw (add_free-free e es name s free) (bound-taken e es name other s free),
  )
]

-- If the name has no entry and an entry is free, `Add` succeeds, puts the name into the map with its
-- sector, and changes no other name's answer; if the name has an entry or all entries are in use, it
-- fails and changes nothing.
pub add_lem :
    (d : Directory) (name : List ℕ) (s : ℕ) (other : List ℕ)
    → ((find d name ≡ none)
        × HasFree d
        × ((add d name s).0 ≡ true)
        × (find (add d name s).1 other ≡ (if same_name 9 name other then some s else find d other)))
      ⊎ (((find d name ≢ none) ⊎ IsFull d) × (add d name s ≡ (false, d)))
add_lem d name s other = elim (Option-cases (lookup d name)) [
  | inl absent ↦ elim (add_free-Added d name s other absent) [
    | inl (p, room, q) ↦
        let e : add d name s ≡ add_free d name s = add-lookup d name s ∙ (rw absent) in
        inl (
          find-lookup d name ∙ absent,
          room,
          rw e p,
          rw (e, find-lookup (add_free d name s).1 other, find-lookup d other) q,
        )
    | inr (p, q, full) ↦ inr (inr full, add-lookup d name s ∙ rw absent (ground arith))
  ]
  | inr (t, present) ↦ inr (inl (λ h. cc (find-lookup d name)), add-lookup d name s ∙ (rw present))
]

lookup-freed_same :
    (d : Directory) (name other : List ℕ)
    → IsUnique d
    → same_name 9 name other ≡ true
    → lookup (freed d name) other ≡ none
unfolding lookup freed
lookup-freed_same [] name other u h = refl
lookup-freed_same (e ∷ es) name other u h = elim (Bool-cases (answers e name)) [
  | inl hit ↦ ground (
    arith,
    hit,
    lookup-same_name es e.name other,
    same_name_sym 9 e.name name,
    same_name_trans 9 name e.name other,
  )
  | inr miss ↦ ground (
    arith,
    miss,
    lookup-freed_same es name other u.1 h,
    same_name_sym 9 e.name name,
    same_name_sym 9 e.name other,
    same_name_trans 9 name other e.name,
  )
]

lookup-freed_other :
    (d : Directory) (name other : List ℕ)
    → same_name 9 name other ≡ false
    → lookup (freed d name) other ≡ lookup d other
unfolding lookup freed
lookup-freed_other [] name other h = refl
lookup-freed_other (e ∷ es) name other h = ground (
  arith,
  lookup-freed_other es name other h,
  same_name_sym 9 e.name name,
  same_name_trans 9 name e.name other,
)

-- `Remove` fails and changes nothing exactly when the name has no entry; otherwise it takes the
-- name out of the map and changes no other name's answer, in a table without duplicate names.
pub remove_lem :
    (d : Directory) (name other : List ℕ)
    → IsUnique d
    → ((find d name ≡ none) × (remove d name ≡ (false, d)))
      ⊎ ((find d name ≢ none)
          × ((remove d name).0 ≡ true)
          × (find (remove d name).1 other
              ≡ (if same_name 9 name other then none else find d other)))
remove_lem d name other u = elim (Option-cases (lookup d name)) [
  | inl absent ↦ inl (find-lookup d name ∙ absent, remove-lookup d name ∙ rw absent)
  | inr (t, present) ↦
      let e : remove d name ≡ (true, freed d name) = remove-lookup d name ∙ rw present in
      inr (
        λ h. cc (find-lookup d name),
        rw e refl,
        rw (e, find-lookup (freed d name) other, find-lookup d other) (after_freed d name other u),
      )
]
  where
    after_freed :
        (d : Directory) (name other : List ℕ)
        → IsUnique d
        → lookup (freed d name) other ≡ (if same_name 9 name other then none else lookup d other)
    after_freed d name other u = elim (Bool-cases (same_name 9 name other)) [
      | inl same ↦ rw same (lookup-freed_same d name other u same)
      | inr differ ↦ rw differ (lookup-freed_other d name other differ)
    ]

lookup-freed-none :
    (d : Directory) (name other : List ℕ)
    → lookup d other ≡ none
    → lookup (freed d name) other ≡ none
unfolding lookup freed
lookup-freed-none [] name other h = refl
lookup-freed-none (e ∷ es) name other h = ground (arith, lookup-freed-none es name other)

freed-IsUnique : (d : Directory) (name : List ℕ) → IsUnique d → IsUnique (freed d name)
unfolding freed
freed-IsUnique [] name u = tt
freed-IsUnique (e ∷ es) name u = elim (Bool-cases (answers e name)) [
  | inl hit ↦ rw hit (tt, u.1)
  | inr miss ↦
      rw miss (ground (arith, u.0, lookup-freed-none es name e.name), freed-IsUnique es name u.1)
]

apart :
    (e : Entry) (es : Directory) (name : List ℕ)
    → e.in_use ≡ true
    → lookup (e ∷ es) name ≡ none
    → same_name 9 name e.name ≡ false
unfolding lookup
apart e es name used h = ground (arith, same_name_sym 9 e.name name)

-- A name apart from the new one keeps its answer through the loop of `Add`.
add_free-old :
    (es : Directory) (name : List ℕ) (s : ℕ) (other : List ℕ)
    → lookup es name ≡ none
    → same_name 9 name other ≡ false
    → lookup (add_free es name s).1 other ≡ lookup es other
add_free-old es name s other h p = elim (add_free-Added es name s other h) [
  | inl (q, room, r) ↦ r ∙ rw p
  | inr (q, r, full) ↦ ap (λ t. lookup t other) r
]

add_free-IsUnique :
    (es : Directory) (name : List ℕ) (s : ℕ)
    → IsUnique es
    → lookup es name ≡ none
    → IsUnique (add_free es name s).1
add_free-IsUnique [] name s u h = unfold add_free in tt
add_free-IsUnique (e ∷ es) name s u h = elim (Bool-cases e.in_use) [
  | inl used ↦ rw (add_free-used e es name s used) (
    ground (
      arith,
      used,
      u.0,
      apart e es name used h,
      add_free-old es name s e.name (lookup-tail e es name h),
    ),
    add_free-IsUnique es name s u.1 (lookup-tail e es name h),
  )
  | inr free ↦
      let same = same_name-strncpy 9 e.name name name ∙ same_name_refl 9 name in
      rw (add_free-free e es name s free)
        (lookup-same_name es (strncpy e.name name 9) name same ∙ lookup-tail e es name h, u.1)
]

-- `Add` keeps the names of the directory distinct.
pub add-IsUnique : (d : Directory) (name : List ℕ) (s : ℕ) → IsUnique d → IsUnique (add d name s).1
add-IsUnique d name s u = elim (Option-cases (lookup d name)) [
  | inl absent ↦
      let e : add d name s ≡ add_free d name s = add-lookup d name s ∙ rw absent in
      rw e (add_free-IsUnique d name s u absent)
  | inr (t, present) ↦
      let e : add d name s ≡ (false, d) = add-lookup d name s ∙ rw present in rw e u
]

pub remove-IsUnique : (d : Directory) (name : List ℕ) → IsUnique d → IsUnique (remove d name).1
remove-IsUnique d name u = elim (Option-cases (lookup d name)) [
  | inl absent ↦ let e : remove d name ≡ (false, d) = remove-lookup d name ∙ rw absent in rw e u
  | inr (t, present) ↦
      let e : remove d name ≡ (true, freed d name) = remove-lookup d name ∙ rw present in
      rw e (freed-IsUnique d name u)
]
