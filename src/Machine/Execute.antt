-- ===== src/Machine/Execute.antt =====
-- code/machine/mipssim.cc, with SIM_FIX: Machine::OneInstruction.
pub mod Advance
pub mod Arithmetic
pub mod Unaligned
use Prim.Native.Nat.{bit_and, bit_or, bit_xor}
use nachos.Base.{
  ℕ, ◌+◌, ◌-◌, ◌*◌, ◌/◌, ◌%◌, ◌^◌, ◌≡◌, Bool, true, false, not, ◌||◌, Option, none, some, Outcome,
  done, aborted, ◌>>=◌, ltb, ◌==◌, if◌then◌else◌, get_or, set,
}
use nachos.Machine.{
  Machine, ExceptionType, syscall_exception, address_error_exception, overflow_exception,
  illegal_instr_exception, raise_exception, delayed_load, hi_reg, lo_reg, pc_reg, next_pc_reg,
  prev_pc_reg, load_reg, load_value_reg, ret_addr_reg,
}
use nachos.Machine.Memory.{read_mem, write_mem}
use nachos.Machine.Mult.{is_negative, complement, mult}
use nachos.Machine.Decode.{
  OpCode, special, bcond, Instruction, decode, op_add, op_addi, op_addiu, op_addu, op_and, op_andi,
  op_beq, op_bgez, op_bgezal, op_bgtz, op_blez, op_bltz, op_bltzal, op_bne, op_div, op_divu, op_j,
  op_jal, op_jalr, op_jr, op_lb, op_lbu, op_lh, op_lhu, op_lui, op_lw, op_lwl, op_lwr, op_mfhi,
  op_mflo, op_mthi, op_mtlo, op_mult, op_multu, op_nor, op_or, op_ori, op_rfe, op_sb, op_sh, op_sll,
  op_sllv, op_slt, op_slti, op_sltiu, op_sltu, op_sra, op_srav, op_srl, op_srlv, op_sub, op_subu,
  op_sw, op_swl, op_swr, op_xor, op_xori, op_syscall, op_unimp, op_res,
}
use nachos.Machine.Word.{
  add_word, sub_word, add_overflows, addi_overflows, sub_overflows, shift_left, shift_right,
  index_to_addr, less, from_bool, divide, jump_target,
}
use nachos.Machine.Unaligned.{loaded_byte, loaded_half, merge_lwl, merge_lwr, merge_swl, merge_swr}

-- How the switch of OneInstruction is left: at its end, with `pcAfter`, `nextLoadReg` and
-- `nextLoadValue`, or by a return after an exception.
pub data Step : Type 0 where
  executed : ℕ → ℕ → ℕ → Machine → Step
  returned : Machine → Step

unfoldable pub reg : Machine → ℕ → ℕ
reg m i = get_or m.registers i 0

unfoldable pub put : Machine → ℕ → ℕ → Machine
put m i value = record m { registers = set m.registers i value }

-- A register written, nothing else.
unfoldable pub assign : Machine → ℕ → ℕ → ℕ → Outcome Step
assign m pc_after i value = done (executed pc_after 0 0 (put m i value))

unfoldable pub branch : Machine → ℕ → ℕ → Bool → Outcome Step
branch m pc_after extra taken = done (
    executed (if taken then add_word (reg m next_pc_reg) (index_to_addr extra) else pc_after) 0 0 m)

-- `registers[R31] = registers[NextPCReg] + 4`.
unfoldable pub link : Machine → ℕ → Machine
link m i = put m i (add_word (reg m next_pc_reg) 4)

unfoldable pub put_hi_lo : Machine → ℕ × ℕ → Machine
put_hi_lo m (hi, lo) = put (put m hi_reg hi) lo_reg lo

-- The register that a load fills, as a load before it that is still delayed leaves it.
unfoldable pub forwarded : Machine → ℕ → ℕ
forwarded m rt = if reg m load_reg == rt then reg m load_value_reg else reg m rt

-- The delayed load and the program counters, after the switch.
unfoldable pub advance : Step → Machine
advance (returned m) = m
advance (executed pc_after next_load_reg next_load_value m) =
    let loaded = delayed_load m next_load_reg next_load_value in
    let prev = put loaded prev_pc_reg (reg loaded pc_reg) in
    let current = put prev pc_reg (reg prev next_pc_reg) in put current next_pc_reg pc_after

module _ (handler : ExceptionType → Machine → Outcome Machine) where
  unfoldable pub trap : Machine → ExceptionType → ℕ → Outcome Step
  trap m which bad_vaddr = do m' ← raise_exception handler m which bad_vaddr; done (returned m')

  unfoldable pub checked : Machine → ℕ → Bool → ℕ → ℕ → Outcome Step
  checked m pc_after overflows i value =
      if overflows then trap m overflow_exception 0 else assign m pc_after i value

  -- A load of `size` bytes into `rt`, made of what ReadMem returns by `f`.
  unfoldable pub load : ℕ → ℕ → ℕ → ℕ → (Machine → ℕ → ℕ) → Machine → Outcome Step
  load pc_after addr size rt f m = do
    (value, m') ← read_mem handler m addr size
    elim value [
      | none ↦ done (returned m')
      | some value ↦ done (executed pc_after rt (f m' value) m')
    ]

  unfoldable pub load_aligned : ℕ → ℕ → ℕ → ℕ → (Machine → ℕ → ℕ) → Machine → Outcome Step
  load_aligned pc_after addr size rt f m =
      if addr % size == 0
      then load pc_after addr size rt f m
      else trap m address_error_exception addr

  unfoldable pub store : ℕ → ℕ → ℕ → ℕ → Machine → Outcome Step
  store pc_after addr size value m = do
    (ok, m') ← write_mem handler m addr size value
    done (if ok then executed pc_after 0 0 m' else returned m')

  -- SWL and SWR read the word, change a part of it and write it back.
  unfoldable pub store_part : ℕ → ℕ → (Machine → ℕ → ℕ) → Machine → Outcome Step
  store_part pc_after addr f m = do
    (value, m') ← read_mem handler m addr 4
    elim value [ none ↦ done (returned m') | some value ↦ store pc_after addr 4 (f m' value) m' ]

  -- The switch, in the order of the source; `pc` is `pcAfter`. RFE reaches `default`, and SRL and
  -- SRLV shift the signed `tmp`.
  unfoldable pub execute : Machine → Instruction → ℕ → OpCode → Outcome Step
  execute m i pc op_add =
      let sum = add_word (reg m i.rs) (reg m i.rt) in
      checked m pc (add_overflows (reg m i.rs) (reg m i.rt) sum) i.rd sum
  execute m i pc op_addi =
      let sum = add_word (reg m i.rs) i.extra in
      checked m pc (addi_overflows (reg m i.rs) i.extra sum) i.rt sum
  execute m i pc op_addiu = assign m pc i.rt (add_word (reg m i.rs) i.extra)
  execute m i pc op_addu = assign m pc i.rd (add_word (reg m i.rs) (reg m i.rt))
  execute m i pc op_and = assign m pc i.rd (bit_and (reg m i.rs) (reg m i.rt))
  execute m i pc op_andi = assign m pc i.rt (bit_and (reg m i.rs) (i.extra % 2 ^ 16))
  execute m i pc op_beq = branch m pc i.extra (reg m i.rs == reg m i.rt)
  execute m i pc op_bgezal =
      let m' = link m ret_addr_reg in branch m' pc i.extra (not (is_negative (reg m' i.rs)))
  execute m i pc op_bgez = branch m pc i.extra (not (is_negative (reg m i.rs)))
  execute m i pc op_bgtz = branch m pc i.extra (less 0 (reg m i.rs))
  execute m i pc op_blez = branch m pc i.extra (not (less 0 (reg m i.rs)))
  execute m i pc op_bltzal =
      let m' = link m ret_addr_reg in branch m' pc i.extra (is_negative (reg m' i.rs))
  execute m i pc op_bltz = branch m pc i.extra (is_negative (reg m i.rs))
  execute m i pc op_bne = branch m pc i.extra (not (reg m i.rs == reg m i.rt))
  execute m i pc op_div =
      if reg m i.rt == 0
      then done (executed pc 0 0 (put_hi_lo m (0, 0)))
      else elim (divide (reg m i.rs) (reg m i.rt)) [
        | none ↦ aborted
        | some (quotient, remainder) ↦ done (executed pc 0 0 (put_hi_lo m (remainder, quotient)))
      ]
  execute m i pc op_divu =
      if reg m i.rt == 0
      then done (executed pc 0 0 (put_hi_lo m (0, 0)))
      else done (executed pc 0 0 (put_hi_lo m (reg m i.rs % reg m i.rt, reg m i.rs / reg m i.rt)))
  execute m i pc op_j = done (executed (jump_target pc i.extra) 0 0 m)
  execute m i pc op_jal = done (executed (jump_target pc i.extra) 0 0 (link m ret_addr_reg))
  execute m i pc op_jalr = let m' = link m i.rd in done (executed (reg m' i.rs) 0 0 m')
  execute m i pc op_jr = done (executed (reg m i.rs) 0 0 m)
  execute m i pc op_lb = load pc (add_word (reg m i.rs) i.extra) 1 i.rt (λ _. loaded_byte true) m
  execute m i pc op_lbu = load pc (add_word (reg m i.rs) i.extra) 1 i.rt (λ _. loaded_byte false) m
  execute m i pc op_lh =
      load_aligned pc (add_word (reg m i.rs) i.extra) 2 i.rt (λ _. loaded_half true) m
  execute m i pc op_lhu =
      load_aligned pc (add_word (reg m i.rs) i.extra) 2 i.rt (λ _. loaded_half false) m
  execute m i pc op_lui = assign m pc i.rt (shift_left i.extra 16)
  execute m i pc op_lw = load_aligned pc (add_word (reg m i.rs) i.extra) 4 i.rt (λ _ value. value) m
  execute m i pc op_lwl =
      load pc ((add_word (reg m i.rs) i.extra) - (add_word (reg m i.rs) i.extra) % 4) 4 i.rt
        (λ m'. merge_lwl (3 - (add_word (reg m i.rs) i.extra) % 4) (forwarded m' i.rt)) m
  execute m i pc op_lwr =
      load pc ((add_word (reg m i.rs) i.extra) - (add_word (reg m i.rs) i.extra) % 4) 4 i.rt
        (λ m'. merge_lwr (3 - (add_word (reg m i.rs) i.extra) % 4) (forwarded m' i.rt)) m
  execute m i pc op_mfhi = assign m pc i.rd (reg m hi_reg)
  execute m i pc op_mflo = assign m pc i.rd (reg m lo_reg)
  execute m i pc op_mthi = assign m pc hi_reg (reg m i.rs)
  execute m i pc op_mtlo = assign m pc lo_reg (reg m i.rs)
  execute m i pc op_mult =
      done (executed pc 0 0 (put_hi_lo m (mult (reg m i.rs) (reg m i.rt) true)))
  execute m i pc op_multu =
      done (executed pc 0 0 (put_hi_lo m (mult (reg m i.rs) (reg m i.rt) false)))
  execute m i pc op_nor = assign m pc i.rd (complement (bit_or (reg m i.rs) (reg m i.rt)))
  execute m i pc op_or = assign m pc i.rd (bit_or (reg m i.rs) (reg m i.rt))
  execute m i pc op_ori = assign m pc i.rt (bit_or (reg m i.rs) (i.extra % 2 ^ 16))
  execute m i pc op_sb = store pc (add_word (reg m i.rs) i.extra) 1 (reg m i.rt) m
  execute m i pc op_sh = store pc (add_word (reg m i.rs) i.extra) 2 (reg m i.rt) m
  execute m i pc op_sll = assign m pc i.rd (shift_left (reg m i.rt) i.extra)
  execute m i pc op_sllv = assign m pc i.rd (shift_left (reg m i.rt) (reg m i.rs % 2 ^ 5))
  execute m i pc op_slt = assign m pc i.rd (from_bool (less (reg m i.rs) (reg m i.rt)))
  execute m i pc op_slti = assign m pc i.rt (from_bool (less (reg m i.rs) i.extra))
  execute m i pc op_sltiu = assign m pc i.rt (from_bool (ltb (reg m i.rs) i.extra))
  execute m i pc op_sltu = assign m pc i.rd (from_bool (ltb (reg m i.rs) (reg m i.rt)))
  execute m i pc op_sra = assign m pc i.rd (shift_right (reg m i.rt) i.extra)
  execute m i pc op_srav = assign m pc i.rd (shift_right (reg m i.rt) (reg m i.rs % 2 ^ 5))
  execute m i pc op_srl = assign m pc i.rd (shift_right (reg m i.rt) i.extra)
  execute m i pc op_srlv = assign m pc i.rd (shift_right (reg m i.rt) (reg m i.rs % 2 ^ 5))
  execute m i pc op_sub =
      let diff = sub_word (reg m i.rs) (reg m i.rt) in
      checked m pc (sub_overflows (reg m i.rs) (reg m i.rt) diff) i.rd diff
  execute m i pc op_subu = assign m pc i.rd (sub_word (reg m i.rs) (reg m i.rt))
  execute m i pc op_sw = store pc (add_word (reg m i.rs) i.extra) 4 (reg m i.rt) m
  execute m i pc op_swl =
      store_part pc ((add_word (reg m i.rs) i.extra) - (add_word (reg m i.rs) i.extra) % 4)
        (λ m' value. merge_swl (3 - (add_word (reg m i.rs) i.extra) % 4) value (reg m' i.rt)) m
  execute m i pc op_swr =
      store_part pc ((add_word (reg m i.rs) i.extra) - (add_word (reg m i.rs) i.extra) % 4)
        (λ m' value. merge_swr (3 - (add_word (reg m i.rs) i.extra) % 4) value (reg m' i.rt)) m
  execute m i pc op_syscall = trap m syscall_exception 0
  execute m i pc op_xor = assign m pc i.rd (bit_xor (reg m i.rs) (reg m i.rt))
  execute m i pc op_xori = assign m pc i.rt (bit_xor (reg m i.rs) (i.extra % 2 ^ 16))
  execute m i pc op_res = trap m illegal_instr_exception 0
  execute m i pc op_unimp = trap m illegal_instr_exception 0
  execute m i pc op_rfe = aborted
  execute m i pc special = aborted
  execute m i pc bcond = aborted

  unfoldable pub run_instruction : Machine → Instruction → Outcome Machine
  run_instruction m i = do
    step ← execute m i (add_word (reg m next_pc_reg) 4) i.op_code
    done (advance step)

  unfoldable pub one_instruction : Machine → Outcome Machine
  one_instruction m = do
    (raw, m') ← read_mem handler m (reg m pc_reg) 4
    elim raw [ none ↦ done m' | some raw ↦ run_instruction m' (decode raw) ]
