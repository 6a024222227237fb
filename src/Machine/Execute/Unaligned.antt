-- ===== src/Machine/Execute/Unaligned.antt =====
-- LWL, LWR, SWL and SWR in Machine::OneInstruction of code/machine/mipssim.cc, in the order of bytes of
-- a little-endian machine.
use nachos.Base.{
  ℕ, ◌+◌, ◌-◌, ◌*◌, ◌/◌, ◌%◌, ◌^◌, ◌<◌, ◌≡◌, refl, ap, inl, inr, ◌⊎◌, some, Outcome, done, ◌==◌,
  if◌then◌else◌, arith,
}
use nachos.Machine.{Machine, ExceptionType, load_reg, load_value_reg}
use nachos.Machine.Word.{add_word}
use nachos.Machine.Memory.{read_mem}
use nachos.Machine.Decode.{Instruction, op_lwl, op_lwr, op_swl, op_swr}
use nachos.Machine.Unaligned.{merge_lwl, merge_lwr, merge_swl, merge_swr}
use nachos.Machine.Execute.{executed, reg, forwarded, load, store, store_part, execute}

byte-cases : (b : ℕ) → b < 4 → (b ≡ 0) ⊎ (b ≡ 1) ⊎ (b ≡ 2) ⊎ (b ≡ 3)
byte-cases b h = ground arith

-- The low `3 - b` bytes of `old` stay, and the low `b + 1` bytes of `word` go above them.
abbrev pub left_part : ℕ → ℕ → ℕ → ℕ
left_part b old word = old % 2 ^ (8 * (3 - b)) + word * 2 ^ (8 * (3 - b)) % 2 ^ 32

-- The high `b` bytes of `old` stay, and the high `4 - b` bytes of `word` go below them.
abbrev pub right_part : ℕ → ℕ → ℕ → ℕ
right_part b old word = old / 2 ^ (8 * (4 - b)) * 2 ^ (8 * (4 - b)) + word / 2 ^ (8 * b)

-- The high `3 - b` bytes of `word` stay, and the high `b + 1` bytes of `value` go below them.
abbrev pub left_stored : ℕ → ℕ → ℕ → ℕ
left_stored b word value = word / 2 ^ (8 * (b + 1)) * 2 ^ (8 * (b + 1)) + value / 2 ^ (8 * (3 - b))

-- The low `b` bytes of `word` stay, and the low `4 - b` bytes of `value` go above them.
abbrev pub right_stored : ℕ → ℕ → ℕ → ℕ
right_stored b word value = word % 2 ^ (8 * b) + value * 2 ^ (8 * b) % 2 ^ 32

module _ (b old word : ℕ) (h : b < 4) (ho : old < 2 ^ 32) (hw : word < 2 ^ 32) where
  merge_lwl_lem : merge_lwl (3 - b) old word ≡ left_part b old word
  unfolding merge_lwl
  merge_lwl_lem = elim (byte-cases b h) [
    | inl at ↦ rw at (omega (arith, hw))
    | inr (inl at) ↦ rw at refl
    | inr (inr (inl at)) ↦ rw at refl
    | inr (inr (inr at)) ↦ rw at (omega (arith, hw))
  ]

  merge_lwr_lem : merge_lwr (3 - b) old word ≡ right_part b old word
  unfolding merge_lwr
  merge_lwr_lem = elim (byte-cases b h) [
    | inl at ↦ rw at (omega (arith, ho, hw))
    | inr (inl at) ↦ rw at (omega (arith, hw))
    | inr (inr (inl at)) ↦ rw at (omega (arith, hw))
    | inr (inr (inr at)) ↦ rw at (omega (arith, hw))
  ]

  merge_swl_lem : merge_swl (3 - b) old word ≡ left_stored b old word
  unfolding merge_swl
  merge_swl_lem = elim (byte-cases b h) [
    | inl at ↦ rw at (omega (arith, hw))
    | inr (inl at) ↦ rw at (omega (arith, hw))
    | inr (inr (inl at)) ↦ rw at (omega (arith, hw))
    | inr (inr (inr at)) ↦ rw at (omega (arith, ho, hw))
  ]

  merge_swr_lem : merge_swr (3 - b) old word ≡ right_stored b old word
  unfolding merge_swr
  merge_swr_lem = elim (byte-cases b h) [
    | inl at ↦ rw at (omega (arith, hw))
    | inr (inl at) ↦ rw at refl
    | inr (inr (inl at)) ↦ rw at refl
    | inr (inr (inr at)) ↦ rw at refl
  ]

-- The register `i.rt` as the instruction finds it: a load before it that is still delayed counts.
abbrev pub current : Machine → ℕ → ℕ
current m rt = if reg m load_reg == rt then reg m load_value_reg else reg m rt

module _ (handler : ExceptionType → Machine → Outcome Machine) (m m' : Machine) (i : Instruction)
    (pc word : ℕ) where
  abbrev address : ℕ
  address = add_word (reg m i.rs) i.extra

  -- When the word that holds the address can be read: LWL loads the bytes of the word up to the
  -- addressed one into the high end of the register, LWR those from the addressed one on into its low
  -- end, and both keep the other bytes, of the value that a load that is still delayed gives the
  -- register; the load is delayed itself.
  pub execute-lwl_lwr :
      read_mem handler m (address - address % 4) 4 ≡ done (some word, m')
      → word < 2 ^ 32
      → current m' i.rt < 2 ^ 32
      → (execute handler m i pc op_lwl
          ≡ done (executed pc i.rt (left_part (address % 4) (current m' i.rt) word) m'))
        × (execute handler m i pc op_lwr
            ≡ done (executed pc i.rt (right_part (address % 4) (current m' i.rt) word) m'))
  unfolding execute load forwarded
  execute-lwl_lwr run hw ho =
      let b = address % 4 in
      let old = current m' i.rt in
      let within : b < 4 = omega arith in
      (
        rw run (ap (λ x. done (executed pc i.rt x m')) (merge_lwl_lem b old word within ho hw)),
        rw run (ap (λ x. done (executed pc i.rt x m')) (merge_lwr_lem b old word within ho hw)),
      )

  -- When the word that holds the address can be read: SWL stores, at the address of that word, the high
  -- bytes of the register in the bytes of the word up to the addressed one, SWR the low bytes of the
  -- register in those from the addressed one on, and both write the other bytes back as they were.
  pub execute-swl_swr :
      read_mem handler m (address - address % 4) 4 ≡ done (some word, m')
      → word < 2 ^ 32
      → reg m' i.rt < 2 ^ 32
      → (execute handler m i pc op_swl
          ≡ store handler pc
              (address - address % 4)
              4
              (left_stored (address % 4) word (reg m' i.rt))
              m')
        × (execute handler m i pc op_swr
            ≡ store handler pc
                (address - address % 4)
                4
                (right_stored (address % 4) word (reg m' i.rt))
                m')
  unfolding execute store_part
  execute-swl_swr run hw ho =
      let b = address % 4 in
      let value = reg m' i.rt in
      let within : b < 4 = omega arith in
      (
        rw run (
            ap (λ x. store handler pc (address - address % 4) 4 x m')
              (merge_swl_lem b word value within hw ho)),
        rw run (
            ap (λ x. store handler pc (address - address % 4) 4 x m')
              (merge_swr_lem b word value within hw ho)),
      )
