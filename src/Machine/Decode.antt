-- ===== src/Machine/Decode.antt =====
-- code/machine/mipssim.h and mipssim.cc: the instructions of the simulated MIPS and their decoding
-- (Instruction::Decode).
pub mod Fields
pub mod Encoding
use nachos.Base.{
  ℕ, ◌+◌, ◌-◌, ◌*◌, ◌/◌, ◌%◌, ◌^◌, ◌≡◌, Bool, true, false, List, [], ◌∷◌, ◌==◌, leb, if◌then◌else◌,
  get_or,
}

-- The opcodes, with the two values of the table that lead to a further decoding.
pub data OpCode : Type 0 where
  op_add : OpCode
  op_addi : OpCode
  op_addiu : OpCode
  op_addu : OpCode
  op_and : OpCode
  op_andi : OpCode
  op_beq : OpCode
  op_bgez : OpCode
  op_bgezal : OpCode
  op_bgtz : OpCode
  op_blez : OpCode
  op_bltz : OpCode
  op_bltzal : OpCode
  op_bne : OpCode
  op_div : OpCode
  op_divu : OpCode
  op_j : OpCode
  op_jal : OpCode
  op_jalr : OpCode
  op_jr : OpCode
  op_lb : OpCode
  op_lbu : OpCode
  op_lh : OpCode
  op_lhu : OpCode
  op_lui : OpCode
  op_lw : OpCode
  op_lwl : OpCode
  op_lwr : OpCode
  op_mfhi : OpCode
  op_mflo : OpCode
  op_mthi : OpCode
  op_mtlo : OpCode
  op_mult : OpCode
  op_multu : OpCode
  op_nor : OpCode
  op_or : OpCode
  op_ori : OpCode
  op_rfe : OpCode
  op_sb : OpCode
  op_sh : OpCode
  op_sll : OpCode
  op_sllv : OpCode
  op_slt : OpCode
  op_slti : OpCode
  op_sltiu : OpCode
  op_sltu : OpCode
  op_sra : OpCode
  op_srav : OpCode
  op_srl : OpCode
  op_srlv : OpCode
  op_sub : OpCode
  op_subu : OpCode
  op_sw : OpCode
  op_swl : OpCode
  op_swr : OpCode
  op_xor : OpCode
  op_xori : OpCode
  op_syscall : OpCode
  op_unimp : OpCode
  op_res : OpCode
  special : OpCode
  bcond : OpCode

pub data Format : Type 0 where
  ifmt : Format
  jfmt : Format
  rfmt : Format

-- Indexed by bits 31 to 26 of an instruction.
abbrev pub op_table : List (OpCode × Format)
op_table =
    (special, rfmt)
    ∷ (bcond, ifmt)
    ∷ (op_j, jfmt)
    ∷ (op_jal, jfmt)
    ∷ (op_beq, ifmt)
    ∷ (op_bne, ifmt)
    ∷ (op_blez, ifmt)
    ∷ (op_bgtz, ifmt)
    ∷ (op_addi, ifmt)
    ∷ (op_addiu, ifmt)
    ∷ (op_slti, ifmt)
    ∷ (op_sltiu, ifmt)
    ∷ (op_andi, ifmt)
    ∷ (op_ori, ifmt)
    ∷ (op_xori, ifmt)
    ∷ (op_lui, ifmt)
    ∷ (op_unimp, ifmt)
    ∷ (op_unimp, ifmt)
    ∷ (op_unimp, ifmt)
    ∷ (op_unimp, ifmt)
    ∷ (op_res, ifmt)
    ∷ (op_res, ifmt)
    ∷ (op_res, ifmt)
    ∷ (op_res, ifmt)
    ∷ (op_res, ifmt)
    ∷ (op_res, ifmt)
    ∷ (op_res, ifmt)
    ∷ (op_res, ifmt)
    ∷ (op_res, ifmt)
    ∷ (op_res, ifmt)
    ∷ (op_res, ifmt)
    ∷ (op_res, ifmt)
    ∷ (op_lb, ifmt)
    ∷ (op_lh, ifmt)
    ∷ (op_lwl, ifmt)
    ∷ (op_lw, ifmt)
    ∷ (op_lbu, ifmt)
    ∷ (op_lhu, ifmt)
    ∷ (op_lwr, ifmt)
    ∷ (op_res, ifmt)
    ∷ (op_sb, ifmt)
    ∷ (op_sh, ifmt)
    ∷ (op_swl, ifmt)
    ∷ (op_sw, ifmt)
    ∷ (op_res, ifmt)
    ∷ (op_res, ifmt)
    ∷ (op_swr, ifmt)
    ∷ (op_res, ifmt)
    ∷ (op_unimp, ifmt)
    ∷ (op_unimp, ifmt)
    ∷ (op_unimp, ifmt)
    ∷ (op_unimp, ifmt)
    ∷ (op_res, ifmt)
    ∷ (op_res, ifmt)
    ∷ (op_res, ifmt)
    ∷ (op_res, ifmt)
    ∷ (op_unimp, ifmt)
    ∷ (op_unimp, ifmt)
    ∷ (op_unimp, ifmt)
    ∷ (op_unimp, ifmt)
    ∷ (op_res, ifmt)
    ∷ (op_res, ifmt)
    ∷ (op_res, ifmt)
    ∷ (op_res, ifmt)
    ∷ []

-- Indexed by bits 5 to 0 of a SPECIAL instruction.
abbrev pub special_table : List OpCode
special_table =
    op_sll ∷ op_res ∷ op_srl ∷ op_sra ∷ op_sllv ∷ op_res ∷ op_srlv ∷ op_srav ∷ op_jr ∷ op_jalr
    ∷ op_res ∷ op_res ∷ op_syscall ∷ op_unimp ∷ op_res ∷ op_res ∷ op_mfhi ∷ op_mthi ∷ op_mflo
    ∷ op_mtlo ∷ op_res ∷ op_res ∷ op_res ∷ op_res ∷ op_mult ∷ op_multu ∷ op_div ∷ op_divu ∷ op_res
    ∷ op_res ∷ op_res ∷ op_res ∷ op_add ∷ op_addu ∷ op_sub ∷ op_subu ∷ op_and ∷ op_or ∷ op_xor
    ∷ op_nor ∷ op_res ∷ op_res ∷ op_slt ∷ op_sltu ∷ op_res ∷ op_res ∷ op_res ∷ op_res ∷ op_res
    ∷ op_res ∷ op_res ∷ op_res ∷ op_res ∷ op_res ∷ op_res ∷ op_res ∷ op_res ∷ op_res ∷ op_res
    ∷ op_res ∷ op_res ∷ op_res ∷ op_res ∷ op_res ∷ []

pub record Instruction : Type 0 where
  pub value : ℕ
  pub op_code : OpCode
  pub rs : ℕ
  pub rt : ℕ
  pub rd : ℕ
  pub extra : ℕ

-- An immediate of 16 bits as an `int`.
unfoldable pub extend_immediate : ℕ → ℕ
extend_immediate n = if leb (2 ^ 15) n then n + (2 ^ 32 - 2 ^ 16) else n

unfoldable pub extra_of : Format → ℕ → ℕ
extra_of ifmt value = extend_immediate (value % 2 ^ 16)
extra_of rfmt value = value / 2 ^ 6 % 2 ^ 5
extra_of jfmt value = value % 2 ^ 26

-- By `value & 0x1f0000`.
unfoldable pub bcond_op : ℕ → OpCode
bcond_op value =
    let i = value / 2 ^ 16 % 2 ^ 5 in
    if i == 0
    then op_bltz
    else if i == 1
    then op_bgez
    else if i == 16
    then op_bltzal
    else if i == 17
    then op_bgezal
    else op_unimp

-- `if (opCode == SPECIAL) ... else if (opCode == BCOND) ...`, with what each branch assigns.
abbrev pub decoded_further : OpCode → OpCode → OpCode → OpCode
decoded_further special a b = a
decoded_further bcond a b = b
decoded_further op a b = op

unfoldable pub final_op : OpCode → ℕ → OpCode
final_op op value =
    decoded_further op (get_or special_table (value % 2 ^ 6) op_res) (bcond_op value)

unfoldable pub decode : ℕ → Instruction
decode value =
    let entry = get_or op_table (value / 2 ^ 26 % 2 ^ 6) (op_res, ifmt) in
    record {
      value = value;
      op_code = final_op entry.0 value;
      rs = value / 2 ^ 21 % 2 ^ 5;
      rt = value / 2 ^ 16 % 2 ^ 5;
      rd = value / 2 ^ 11 % 2 ^ 5;
      extra = extra_of entry.1 value;
    }
