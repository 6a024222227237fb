-- ===== src/Machine/Decode/Encoding.antt =====
-- The encodings of the MIPS R2000, and what Instruction::Decode of code/machine/mipssim.cc makes of
-- them.
use nachos.Base.{ℕ, ◌<◌, ◌≡◌, refl, ◌∙◌, ap₂, get_or}
use nachos.Machine.Decode.{
  OpCode, Format, ifmt, jfmt, rfmt, op_table, decode, op_j, op_jal, op_beq, op_bne, op_blez,
  op_bgtz, op_addi, op_addiu, op_slti, op_sltiu, op_andi, op_ori, op_xori, op_lui, op_lb, op_lh,
  op_lwl, op_lw, op_lbu, op_lhu, op_lwr, op_sb, op_sh, op_swl, op_sw, op_swr, op_sll, op_srl,
  op_sra, op_sllv, op_srlv, op_srav, op_jr, op_jalr, op_syscall, op_mfhi, op_mthi, op_mflo, op_mtlo,
  op_mult, op_multu, op_div, op_divu, op_add, op_addu, op_sub, op_subu, op_slt, op_sltu, op_and,
  op_or, op_xor, op_nor, op_bltz, op_bgez, op_bltzal, op_bgezal, op_rfe, op_unimp, op_res, special,
  bcond,
}
use nachos.Machine.Decode.Fields.{packed, field_op, field_extra, decode_lem}

-- The major opcode, and the `funct` field of a SPECIAL instruction or the `rt` field of a branch on a
-- sign, by which the manual of the processor encodes an operation. RFE is privileged.
abbrev pub IsEncoding : OpCode → ℕ → ℕ → ℕ → Type 0
IsEncoding op_j op t funct = op ≡ 2
IsEncoding op_jal op t funct = op ≡ 3
IsEncoding op_beq op t funct = op ≡ 4
IsEncoding op_bne op t funct = op ≡ 5
IsEncoding op_blez op t funct = op ≡ 6
IsEncoding op_bgtz op t funct = op ≡ 7
IsEncoding op_addi op t funct = op ≡ 8
IsEncoding op_addiu op t funct = op ≡ 9
IsEncoding op_slti op t funct = op ≡ 10
IsEncoding op_sltiu op t funct = op ≡ 11
IsEncoding op_andi op t funct = op ≡ 12
IsEncoding op_ori op t funct = op ≡ 13
IsEncoding op_xori op t funct = op ≡ 14
IsEncoding op_lui op t funct = op ≡ 15
IsEncoding op_lb op t funct = op ≡ 32
IsEncoding op_lh op t funct = op ≡ 33
IsEncoding op_lwl op t funct = op ≡ 34
IsEncoding op_lw op t funct = op ≡ 35
IsEncoding op_lbu op t funct = op ≡ 36
IsEncoding op_lhu op t funct = op ≡ 37
IsEncoding op_lwr op t funct = op ≡ 38
IsEncoding op_sb op t funct = op ≡ 40
IsEncoding op_sh op t funct = op ≡ 41
IsEncoding op_swl op t funct = op ≡ 42
IsEncoding op_sw op t funct = op ≡ 43
IsEncoding op_swr op t funct = op ≡ 46
IsEncoding op_sll op t funct = (op ≡ 0) × (funct ≡ 0)
IsEncoding op_srl op t funct = (op ≡ 0) × (funct ≡ 2)
IsEncoding op_sra op t funct = (op ≡ 0) × (funct ≡ 3)
IsEncoding op_sllv op t funct = (op ≡ 0) × (funct ≡ 4)
IsEncoding op_srlv op t funct = (op ≡ 0) × (funct ≡ 6)
IsEncoding op_srav op t funct = (op ≡ 0) × (funct ≡ 7)
IsEncoding op_jr op t funct = (op ≡ 0) × (funct ≡ 8)
IsEncoding op_jalr op t funct = (op ≡ 0) × (funct ≡ 9)
IsEncoding op_syscall op t funct = (op ≡ 0) × (funct ≡ 12)
IsEncoding op_mfhi op t funct = (op ≡ 0) × (funct ≡ 16)
IsEncoding op_mthi op t funct = (op ≡ 0) × (funct ≡ 17)
IsEncoding op_mflo op t funct = (op ≡ 0) × (funct ≡ 18)
IsEncoding op_mtlo op t funct = (op ≡ 0) × (funct ≡ 19)
IsEncoding op_mult op t funct = (op ≡ 0) × (funct ≡ 24)
IsEncoding op_multu op t funct = (op ≡ 0) × (funct ≡ 25)
IsEncoding op_div op t funct = (op ≡ 0) × (funct ≡ 26)
IsEncoding op_divu op t funct = (op ≡ 0) × (funct ≡ 27)
IsEncoding op_add op t funct = (op ≡ 0) × (funct ≡ 32)
IsEncoding op_addu op t funct = (op ≡ 0) × (funct ≡ 33)
IsEncoding op_sub op t funct = (op ≡ 0) × (funct ≡ 34)
IsEncoding op_subu op t funct = (op ≡ 0) × (funct ≡ 35)
IsEncoding op_slt op t funct = (op ≡ 0) × (funct ≡ 42)
IsEncoding op_sltu op t funct = (op ≡ 0) × (funct ≡ 43)
IsEncoding op_and op t funct = (op ≡ 0) × (funct ≡ 36)
IsEncoding op_or op t funct = (op ≡ 0) × (funct ≡ 37)
IsEncoding op_xor op t funct = (op ≡ 0) × (funct ≡ 38)
IsEncoding op_nor op t funct = (op ≡ 0) × (funct ≡ 39)
IsEncoding op_bltz op t funct = (op ≡ 1) × (t ≡ 0)
IsEncoding op_bgez op t funct = (op ≡ 1) × (t ≡ 1)
IsEncoding op_bltzal op t funct = (op ≡ 1) × (t ≡ 16)
IsEncoding op_bgezal op t funct = (op ≡ 1) × (t ≡ 17)
IsEncoding op_rfe op t funct = ⊥
IsEncoding op_unimp op t funct = ⊥
IsEncoding op_res op t funct = ⊥
IsEncoding special op t funct = ⊥
IsEncoding bcond op t funct = ⊥

-- Jumps have a target, operations on registers a shift amount, and the others an immediate.
abbrev pub format_of : OpCode → Format
format_of op_j = jfmt
format_of op_jal = jfmt
format_of op_sll = rfmt
format_of op_srl = rfmt
format_of op_sra = rfmt
format_of op_sllv = rfmt
format_of op_srlv = rfmt
format_of op_srav = rfmt
format_of op_jr = rfmt
format_of op_jalr = rfmt
format_of op_syscall = rfmt
format_of op_mfhi = rfmt
format_of op_mthi = rfmt
format_of op_mflo = rfmt
format_of op_mtlo = rfmt
format_of op_mult = rfmt
format_of op_multu = rfmt
format_of op_div = rfmt
format_of op_divu = rfmt
format_of op_add = rfmt
format_of op_addu = rfmt
format_of op_sub = rfmt
format_of op_subu = rfmt
format_of op_slt = rfmt
format_of op_sltu = rfmt
format_of op_and = rfmt
format_of op_or = rfmt
format_of op_xor = rfmt
format_of op_nor = rfmt
format_of _ = ifmt

selected :
    (x : OpCode) (op t funct : ℕ)
    → IsEncoding x op t funct
    → (field_op (get_or op_table op (op_res, ifmt)).0 t funct ≡ x)
      × ((get_or op_table op (op_res, ifmt)).1 ≡ format_of x)
selected op_j op t funct e = (rw e refl, rw e refl)
selected op_jal op t funct e = (rw e refl, rw e refl)
selected op_beq op t funct e = (rw e refl, rw e refl)
selected op_bne op t funct e = (rw e refl, rw e refl)
selected op_blez op t funct e = (rw e refl, rw e refl)
selected op_bgtz op t funct e = (rw e refl, rw e refl)
selected op_addi op t funct e = (rw e refl, rw e refl)
selected op_addiu op t funct e = (rw e refl, rw e refl)
selected op_slti op t funct e = (rw e refl, rw e refl)
selected op_sltiu op t funct e = (rw e refl, rw e refl)
selected op_andi op t funct e = (rw e refl, rw e refl)
selected op_ori op t funct e = (rw e refl, rw e refl)
selected op_xori op t funct e = (rw e refl, rw e refl)
selected op_lui op t funct e = (rw e refl, rw e refl)
selected op_lb op t funct e = (rw e refl, rw e refl)
selected op_lh op t funct e = (rw e refl, rw e refl)
selected op_lwl op t funct e = (rw e refl, rw e refl)
selected op_lw op t funct e = (rw e refl, rw e refl)
selected op_lbu op t funct e = (rw e refl, rw e refl)
selected op_lhu op t funct e = (rw e refl, rw e refl)
selected op_lwr op t funct e = (rw e refl, rw e refl)
selected op_sb op t funct e = (rw e refl, rw e refl)
selected op_sh op t funct e = (rw e refl, rw e refl)
selected op_swl op t funct e = (rw e refl, rw e refl)
selected op_sw op t funct e = (rw e refl, rw e refl)
selected op_swr op t funct e = (rw e refl, rw e refl)
selected op_sll op t funct (e, e') = (rw (e, e') refl, rw e refl)
selected op_srl op t funct (e, e') = (rw (e, e') refl, rw e refl)
selected op_sra op t funct (e, e') = (rw (e, e') refl, rw e refl)
selected op_sllv op t funct (e, e') = (rw (e, e') refl, rw e refl)
selected op_srlv op t funct (e, e') = (rw (e, e') refl, rw e refl)
selected op_srav op t funct (e, e') = (rw (e, e') refl, rw e refl)
selected op_jr op t funct (e, e') = (rw (e, e') refl, rw e refl)
selected op_jalr op t funct (e, e') = (rw (e, e') refl, rw e refl)
selected op_syscall op t funct (e, e') = (rw (e, e') refl, rw e refl)
selected op_mfhi op t funct (e, e') = (rw (e, e') refl, rw e refl)
selected op_mthi op t funct (e, e') = (rw (e, e') refl, rw e refl)
selected op_mflo op t funct (e, e') = (rw (e, e') refl, rw e refl)
selected op_mtlo op t funct (e, e') = (rw (e, e') refl, rw e refl)
selected op_mult op t funct (e, e') = (rw (e, e') refl, rw e refl)
selected op_multu op t funct (e, e') = (rw (e, e') refl, rw e refl)
selected op_div op t funct (e, e') = (rw (e, e') refl, rw e refl)
selected op_divu op t funct (e, e') = (rw (e, e') refl, rw e refl)
selected op_add op t funct (e, e') = (rw (e, e') refl, rw e refl)
selected op_addu op t funct (e, e') = (rw (e, e') refl, rw e refl)
selected op_sub op t funct (e, e') = (rw (e, e') refl, rw e refl)
selected op_subu op t funct (e, e') = (rw (e, e') refl, rw e refl)
selected op_slt op t funct (e, e') = (rw (e, e') refl, rw e refl)
selected op_sltu op t funct (e, e') = (rw (e, e') refl, rw e refl)
selected op_and op t funct (e, e') = (rw (e, e') refl, rw e refl)
selected op_or op t funct (e, e') = (rw (e, e') refl, rw e refl)
selected op_xor op t funct (e, e') = (rw (e, e') refl, rw e refl)
selected op_nor op t funct (e, e') = (rw (e, e') refl, rw e refl)
selected op_bltz op t funct (e, e') = (rw (e, e') refl, rw e refl)
selected op_bgez op t funct (e, e') = (rw (e, e') refl, rw e refl)
selected op_bltzal op t funct (e, e') = (rw (e, e') refl, rw e refl)
selected op_bgezal op t funct (e, e') = (rw (e, e') refl, rw e refl)
selected op_rfe op t funct e = absurd e
selected op_unimp op t funct e = absurd e
selected op_res op t funct e = absurd e
selected special op t funct e = absurd e
selected bcond op t funct e = absurd e

-- An instruction packed from six fields that encode an operation by the manual of the processor, one
-- other than RFE, decodes to that operation, to its three registers, and to the immediate with its sign
-- extended, the shift amount or the target that this operation has.
pub decode-IsEncoding :
    (x : OpCode) (op s t d sh funct : ℕ)
    → IsEncoding x op t funct
    → op < 64
    → s < 32
    → t < 32
    → d < 32
    → sh < 32
    → funct < 64
    → decode (packed op s t d sh funct) ≡ record {
      value = packed op s t d sh funct;
      op_code = x;
      rs = s;
      rt = t;
      rd = d;
      extra = field_extra (format_of x) s t d sh funct;
    }
decode-IsEncoding x op s t d sh funct e ho hs ht hd hh hf =
    let (operation, format) = selected x op t funct e in
    decode_lem op s t d sh funct ho hs ht hd hh hf
    ∙ ap₂ {A = OpCode} {B = Format}
        (λ o f. record {
          value = packed op s t d sh funct;
          op_code = o;
          rs = s;
          rt = t;
          rd = d;
          extra = field_extra f s t d sh funct;
        })
        operation format
