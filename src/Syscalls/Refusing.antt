-- ===== src/Syscalls/Refusing.antt =====
-- The ids that File_Close and File_Seek of code/threads/kernel.cc refuse.
use nachos.Base.{
  ℕ, ◌<◌, ◌≡◌, ◌⊎◌, inl, inr, true, false, none, done, length, ltb, ◌||◌, get_or, arith, Bool-cases,
  sym, ◌==◌, ◌∙◌, Option-cases,
}
use nachos.Machine.{read_register}
use nachos.Syscalls.{Unix, Calls, minus_one, file_close, file_seek}
use nachos.Syscalls.Search.{slot_lem}
use nachos.Syscalls.Opening.{argument, answered, answer_lem, none-not_file}

module _ {H : Type 0} where
  -- No file of the program: out of range, of the console, or of a free slot. Slot 20 is not there.
  abbrev pub IsBadId : Calls H → ℕ → Type 0
  IsBadId k id = (20 < id) ⊎ ((id < 20) × ((id < 2) ⊎ (get_or k.list_file id none ≡ none)))

module _ {H : Type 0} (unix : Unix H) where
  file_close-IsBadId :
      (k : Calls H)
      → length k.list_file ≡ 20
      → IsBadId k (argument k 4)
      → file_close unix k ≡ done (answered k minus_one)
  unfolding file_close read_register
  file_close-IsBadId k size (inl above) =
      let either : (ltb (argument k 4) 2 || ltb 20 (argument k 4)) ≡ true = ground (arith, above) in
      rw either (answer_lem k minus_one)
  file_close-IsBadId k size (inr (inside, inl low)) =
      let either : (ltb (argument k 4) 2 || ltb 20 (argument k 4)) ≡ true = ground (arith, low) in
      rw either (answer_lem k minus_one)
  file_close-IsBadId k size (inr (inside, inr free)) =
      let at = slot_lem k.list_file (argument k 4) (omega (arith, size, inside)) in
      let within : ltb 20 (argument k 4) ≡ false = ground (arith, inside) in
      elim (Bool-cases (ltb (argument k 4) 2)) [
        | inl low ↦ rw low (answer_lem k minus_one)
        | inr high ↦ rw (high, within, at, free) (answer_lem k minus_one)
      ]

  file_seek-IsBadId :
      (k : Calls H)
      → length k.list_file ≡ 20
      → IsBadId k (argument k 5)
      → file_seek unix k ≡ done (answered k minus_one)
  unfolding file_seek read_register
  file_seek-IsBadId k size (inl above) =
      let out : ltb 20 (argument k 5) ≡ true = ground (arith, above) in
      rw out (answer_lem k minus_one)
  file_seek-IsBadId k size (inr (inside, low_or_free)) =
      let at = slot_lem k.list_file (argument k 5) (omega (arith, size, inside)) in
      let within : ltb 20 (argument k 5) ≡ false = ground (arith, inside) in
      elim (Option-cases (get_or k.list_file (argument k 5) none)) [
        | inl free ↦ rw (within, at, free) (answer_lem k minus_one)
        | inr (f, there) ↦
            let console : (argument k 5 == 0 || argument k 5 == 1) ≡ true = elim low_or_free [
              | inl low ↦ ground (arith, low)
              | inr free ↦ absurd (none-not_file (sym free ∙ there))
            ] in
            rw (within, at, there, console) (answer_lem k minus_one)
      ]

  -- With a table of 20 entries, both File_Close and File_Seek, called with an id above 20, a negative
  -- one included, with one of the console, or with that of a free slot, return -1 and change neither
  -- the table nor the host.
  pub file_close-file_seek-IsBadId :
      (k k' : Calls H)
      → length k.list_file ≡ 20
      → length k'.list_file ≡ 20
      → IsBadId k (argument k 4)
      → IsBadId k' (argument k' 5)
      → (file_close unix k ≡ done (answered k minus_one))
        × (file_seek unix k' ≡ done (answered k' minus_one))
  file_close-file_seek-IsBadId k k' size size' bad bad' =
      (file_close-IsBadId k size bad, file_seek-IsBadId k' size' bad')
