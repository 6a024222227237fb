-- ===== src/Syscalls/Opening.antt =====
-- File_Open of code/threads/kernel.cc.
use nachos.Base.{
  ℕ, ◌≡◌, refl, ◌⊎◌, inl, inr, List, Option, none, some, done, aborted, length, arith, sym, ◌∙◌, ap,
  subst, Option-cases, set, get_or-set, length-set, Outcome, done_injective, true, ◌+◌, leb, ◌≤◌,
  ◌<◌, get_or, if◌then◌else◌, ◌==◌, Bool-cases,
}
use nachos.Machine.{write_register}
use nachos.Syscalls.{
  Unix, Calls, UnixFile, is_file, is_free, find_open, find_free_slot, open_file, open_named, answer,
  minus_one, store_file, with_descriptor, same_string,
}
use nachos.Syscalls.Search.{
  NonePass, IsFirst, Search, first_from_lem, same_string_refl, same_string_eq,
}

pub none-not_file : {f : UnixFile} → Path (Option UnixFile) none (some f) → ⊥
none-not_file e = cc

abbrev file_name_or : List ℕ → Option UnixFile → List ℕ
file_name_or name none = name
file_name_or name (some f) = f.file_name

with_descriptor-name :
    (name : List ℕ) (fd : Option ℕ) {f : UnixFile}
    → with_descriptor name fd ≡ some f
    → f.file_name ≡ name
unfolding with_descriptor
with_descriptor-name name none e = absurd (none-not_file e)
with_descriptor-name name (some d) e = ap (file_name_or name) (sym e)

module _ {H : Type 0} where
  -- What register `n` holds, the argument or the result of a call.
  abbrev pub argument : Calls H → ℕ → ℕ
  argument k n = get_or k.machine.registers n 0

  -- A call that has returned `value` and done nothing else.
  abbrev pub answered : Calls H → ℕ → Calls H
  answered k value = record k {
    machine = record k.machine { registers = set k.machine.registers 2 value };
  }

  pub answer_lem : (k : Calls H) (value : ℕ) → answer k value ≡ done (answered k value)
  unfolding answer write_register
  answer_lem k value = refl

  module _ (unix : Unix H) where
    pub open_file-name :
        (h : H) (name : List ℕ) {f : UnixFile} {h' : H}
        → open_file unix h name ≡ (some f, h')
        → f.file_name ≡ name
    unfolding open_file
    open_file-name h name e =
        with_descriptor-name name (unix.open_for_read_write h name).0 (ap (λ p. p.0) e)

    -- The free slot `i` is taken by a file of that name, or the file cannot be opened.
    abbrev pub OpensAt : Calls H → List ℕ → ℕ → Type 0
    OpensAt k name i =
        ((f : UnixFile) × (h : H) × (open_file unix k.host name ≡ (some f, h))
          × length name < unix.chars_given (length name)
          × (open_named unix k name
              ≡ done (answered (record k { list_file = set k.list_file i (some f); host = h }) i)))
        ⊎ (((open_file unix k.host name).0 ≡ none) ⊎ unix.chars_given (length name) ≤ length name)
          × (open_named unix k name ≡ aborted)

    abbrev pub OpenCases : Calls H → List ℕ → Type 0
    OpenCases k name =
        ((i : ℕ) × IsFirst (is_file name) k.list_file 2 20 i
          × (open_named unix k name ≡ done (answered k i)))
        ⊎ (NonePass (is_file name) k.list_file 2 20
            × (NonePass is_free k.list_file 2 20
                  × (open_named unix k name ≡ done (answered k minus_one))
                ⊎ ((i : ℕ) × IsFirst is_free k.list_file 2 20 i × OpensAt k name i)))

    opens_at :
        (k : Calls H) (name : List ℕ) (i : ℕ) (file : Option UnixFile) (h : H)
        → open_file unix k.host name ≡ (file, h)
        → find_open k.list_file name ≡ done none
        → find_free_slot k.list_file ≡ done (some i)
        → OpensAt k name i
    unfolding open_named store_file
    opens_at k name i none h opened searched free = inr (
      inl (ap (λ p. p.0) opened),
      (rw (searched, free) (ap (λ p. store_file unix k i name p.0 p.1) opened)),
    )
    opens_at k name i (some f) h opened searched free =
        let stored : Calls H = record k { list_file = set k.list_file i (some f); host = h } in
        let stores = ap (λ p. store_file unix k i name p.0 p.1) opened in
        elim (Bool-cases (leb (length name + 1) (unix.chars_given (length name)))) [
          | inl room ↦ inl (
            f,
            h,
            opened,
            ground (arith, room),
            (rw (searched, free) (stores ∙ rw room (answer_lem stored i))),
          )
          | inr tight ↦
              inr (inr (ground (arith, tight)), (rw (searched, free) (stores ∙ rw tight refl)))
        ]

    -- With a table of 20 entries, File_Open returns the first id whose file has the name, and changes
    -- nothing; if there is none, it returns -1 if no slot from 2 on is free, and otherwise puts the
    -- file into the first free slot and returns that, but crashes if UNIX cannot open the file or if
    -- there is no byte behind the array of the name.
    pub open_named_lem : (k : Calls H) (name : List ℕ) → length k.list_file ≡ 20 → OpenCases k name
    unfolding open_named find_open find_free_slot
    open_named_lem k name size =
        let (o, searched, found) =
          first_from_lem (is_file name) k.list_file 2 18 (omega (arith, size)) in
        let (o2, looked, free) = first_from_lem is_free k.list_file 2 18 (omega (arith, size)) in
        elim (Option-cases o) [
          | inr (i, e) ↦ inl (
            i,
            subst (Search (is_file name) k.list_file 2 20) e found,
            (rw (searched, e, looked) (answer_lem k i)),
          )
          | inl e ↦ inr (
            subst (Search (is_file name) k.list_file 2 20) e found,
            elim (Option-cases o2) [
              | inl e2 ↦ inl (
                subst (Search is_free k.list_file 2 20) e2 free,
                (rw (searched, e, looked, e2) (answer_lem k minus_one)),
              )
              | inr (i, e2) ↦ inr (
                i,
                subst (Search is_free k.list_file 2 20) e2 free,
                opens_at k name i (open_file unix k.host name).0 (open_file unix k.host name).1 refl
                    (searched ∙ ap done e) (looked ∙ ap done e2),
              )
            ],
          )
        ]

pub is_file_name :
    (name : List ℕ) (f : UnixFile) → f.file_name ≡ name → is_file name (some f) ≡ true
is_file_name name f e = subst (λ x. same_string name x ≡ true) (sym e) (same_string_refl name)

-- No two open files have the same name.
abbrev pub NamesDistinct : List (Option UnixFile) → Type 0
NamesDistinct table =
    (name : List ℕ) (i j : ℕ)
    → (2 ≤ i) × (i < 20) × (is_file name (get_or table i none) ≡ true)
    → (2 ≤ j) × (j < 20) × (is_file name (get_or table j none) ≡ true)
    → i ≡ j

-- The file that takes slot `i` has a name that no open file has.
set-NamesDistinct :
    (table : List (Option UnixFile)) (i : ℕ) (f : UnixFile)
    → i < length table
    → NonePass (is_file f.file_name) table 2 20
    → NamesDistinct table
    → NamesDistinct (set table i (some f))
set-NamesDistinct table i f h new distinct name a b (al, ah, ap') (bl, bh, bp) =
    let at : (n : ℕ)
        → get_or (set table i (some f)) n none ≡ (if i == n then some f else get_or table n none) =
      λ n. get_or-set table i n (some f) none h in
    let clash : (n : ℕ)
        → 2 ≤ n
        → n < 20
        → is_file name (some f) ≡ true
        → is_file name (get_or table n none) ≡ true
        → ⊥ =
      λ n low high first second.
        let same = same_string_eq name f.file_name first in
        let no_file = new n low high in
        let yes_file : is_file f.file_name (get_or table n none) ≡ true =
          subst (λ x. is_file x (get_or table n none) ≡ true) same second in
        absurd (cc) in
    elim (Bool-cases (i == a)) [
      | inl ia ↦ elim (Bool-cases (i == b)) [
        | inl ib ↦ ground (arith, ia, ib)
        | inr nb ↦ absurd (clash b bl bh (rw (at a, ia) at ap') (rw (at b, nb) at bp))
      ]
      | inr na ↦ elim (Bool-cases (i == b)) [
        | inl ib ↦ absurd (clash a al ah (rw (at b, ib) at bp) (rw (at a, na) at ap'))
        | inr nb ↦
            distinct name a b (al, ah, (rw (at a, na) at ap')) (bl, bh, (rw (at b, nb) at bp))
      ]
    ]

module _ {H : Type 0} (unix : Unix H) where
  pub done-not_aborted : {x : Calls H} → Path (Outcome (Calls H)) (done x) aborted → ⊥
  done-not_aborted e = cc

  -- File_Open, when it returns, keeps the length of the table and the names of the open files
  -- distinct.
  pub open_named-NamesDistinct :
      (k k' : Calls H) (name : List ℕ)
      → length k.list_file ≡ 20
      → NamesDistinct k.list_file
      → open_named unix k name ≡ done k'
      → (length k'.list_file ≡ 20) × NamesDistinct k'.list_file
  open_named-NamesDistinct k k' name size distinct run = elim (open_named_lem unix k name size) [
    | inl (i, first, runs) ↦
        let d = ap (λ x. x.list_file) (done_injective (sym runs ∙ run)) in
        (subst (λ t. length t ≡ 20) d size, subst NamesDistinct d distinct)
    | inr (new, rest) ↦ elim rest [
      | inl (full, runs) ↦
          let d = ap (λ x. x.list_file) (done_injective (sym runs ∙ run)) in
          (subst (λ t. length t ≡ 20) d size, subst NamesDistinct d distinct)
      | inr (i, (low, high, free, before), opens) ↦ elim opens [
        | inl (f, h, opened, room, runs) ↦
            let d = ap (λ x. x.list_file) (done_injective (sym runs ∙ run)) in
            let named = open_file-name unix k.host name opened in
            let new' = subst (λ x. NonePass (is_file x) k.list_file 2 20) (sym named) new in
            (
              subst (λ t. length t ≡ 20) d (length-set k.list_file i (some f) ∙ size),
              subst NamesDistinct d
                  (set-NamesDistinct k.list_file i f (omega (arith, size, high)) new' distinct),
            )
        | inr (why, runs) ↦ absurd (done-not_aborted (sym run ∙ runs))
      ]
    ]
  ]
