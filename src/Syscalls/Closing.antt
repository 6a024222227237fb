-- ===== src/Syscalls/Closing.antt =====
-- File_Close of code/threads/kernel.cc, and File_Open before and after it.
use nachos.Base.{
  ℕ, ◌<◌, ◌≤◌, ◌≡◌, refl, inl, inr, true, List, none, some, done, length, get_or, arith, ap, set,
  subst, get_or-set, sym, ◌==◌, ◌∙◌, ◌≢◌, done_injective,
}
use nachos.Machine.{Machine, num_total_regs}
use nachos.Syscalls.{Unix, Calls, minus_one, is_file, open_named}
use nachos.Syscalls.Opening.{
  argument, answered, NamesDistinct, open_named-NamesDistinct, open_named_lem, open_file-name,
  is_file_name, done-not_aborted,
}

module _ {H : Type 0} (unix : Unix H) where
  -- A file of that name is open at `i`, which File_Open has returned.
  abbrev pub HasOpen : Calls H → List ℕ → ℕ → Type 0
  HasOpen k name i =
      (2 ≤ i) × (i < 20) × (is_file name (get_or k.list_file i none) ≡ true) × (argument k 2 ≡ i)

  get_or-set_self :
      {A : Type 0} (xs : List A) (i : ℕ) (v d : A) → i < length xs → get_or (set xs i v) i d ≡ v
  get_or-set_self xs i v d h =
      let self : (i == i) ≡ true = ground arith in get_or-set xs i i v d h ∙ rw self refl

  answered_value :
      (k : Calls H) (value : ℕ)
      → length k.machine.registers ≡ num_total_regs
      → argument (answered k value) 2 ≡ value
  answered_value k value size = get_or-set_self k.machine.registers 2 value 0 (omega (arith, size))

  has_open :
      (k k' : Calls H) (name : List ℕ) (i : ℕ)
      → k ≡ k'
      → HasOpen k name i
      → HasOpen k' name (argument k' 2)
  has_open k k' name i e h =
      subst (λ x. HasOpen x name (argument x 2)) e (subst (HasOpen k name) (sym h.3) h)

  HasOpen-open_named :
      (k k' : Calls H) (name : List ℕ)
      → length k.list_file ≡ 20
      → length k.machine.registers ≡ num_total_regs
      → open_named unix k name ≡ done k'
      → argument k' 2 ≢ minus_one
      → HasOpen k' name (argument k' 2)
  HasOpen-open_named k k' name size regs run good = elim (open_named_lem unix k name size) [
    | inl (i, (low, high, pass, before), runs) ↦
        has_open (answered k i) k' name i (done_injective (sym runs ∙ run))
          (low, high, pass, answered_value k i regs)
    | inr (new, rest) ↦ elim rest [
      | inl (full, runs) ↦ absurd (
          good (
            ap (λ x. argument x 2) (done_injective (sym run ∙ runs))
            ∙ answered_value k minus_one regs))
      | inr (i, (low, high, free, before), opens) ↦ elim opens [
        | inl (f, h, opened, room, runs) ↦
            let stored : Calls H = record k { list_file = set k.list_file i (some f); host = h } in
            let named = open_file-name unix k.host name opened in
            let here : get_or (set k.list_file i (some f)) i none ≡ some f =
              get_or-set_self k.list_file i (some f) none (omega (arith, size, high)) in
            has_open (answered stored i) k' name i (done_injective (sym runs ∙ run)) (
              low,
              high,
              ap (is_file name) here ∙ is_file_name name f named,
              answered_value stored i regs,
            )
        | inr (why, runs) ↦ absurd (done-not_aborted unix (sym run ∙ runs))
      ]
    ]
  ]

  -- With a table of 20 entries whose open files have distinct names: when File_Open has returned an
  -- id other than -1, a file of that name is open there, and File_Open of the same name, whatever the
  -- program did to its registers and memory, returns that id again and changes nothing.
  pub open_named-again :
      (k k' : Calls H) (name : List ℕ) (m : Machine)
      → length k.list_file ≡ 20
      → NamesDistinct k.list_file
      → length k.machine.registers ≡ num_total_regs
      → open_named unix k name ≡ done k'
      → argument k' 2 ≢ minus_one
      → HasOpen k' name (argument k' 2)
        × (open_named unix (record k' { machine = m }) name
            ≡ done (answered (record k' { machine = m }) (argument k' 2)))
  open_named-again k k' name m size distinct regs run good =
      let (low, high, pass, at) = HasOpen-open_named k k' name size regs run good in
      let (size', distinct') = open_named-NamesDistinct unix k k' name size distinct run in
      let k2 : Calls H = record k' { machine = m } in
      (
        (low, high, pass, at),
        elim (open_named_lem unix k2 name size') [
          | inl (i, (low', high', pass', before), runs) ↦
              let same = distinct' name i (argument k' 2) (low', high', pass') (low, high, pass) in
              runs ∙ ap (λ j. done (answered k2 j)) same
          | inr (new, rest) ↦ let none_here = new (argument k' 2) low high in absurd (cc)
        ],
      )
