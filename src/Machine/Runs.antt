-- ===== src/Machine/Runs.antt =====
-- Runs of the processor of code/machine/mipssim.cc, and its theorems at concrete inputs.
use nachos.Base.{◌≡◌, refl, true, [], none, Outcome, done, arith, set, replicate}
use nachos.Base.Int.{◌*ℤ◌, ◌+ℤ◌, ◌-ℤ◌, word64, signed32}
use nachos.Machine.{Machine, ExceptionType}
use nachos.Machine.Mult.{mult}
use nachos.Machine.Mult.Product.{double, AreWords}
use nachos.Machine.Mult.Signed.{mult_lem}
use nachos.Machine.Decode.{
  Instruction, decode, op_add, op_addi, op_sub, op_srl, op_sra, op_srlv, op_srav, ifmt,
}
use nachos.Machine.Decode.Fields.{packed, field_extra}
use nachos.Machine.Decode.Encoding.{decode-IsEncoding}
use nachos.Machine.Execute.{executed, reg, assign, execute, advance}
use nachos.Machine.Execute.Arithmetic.{arithmetic_lem, shift_right_lem, integer_result}
use nachos.Machine.Execute.Advance.{advance_lem, register_after}

abbrev resume : ExceptionType → Machine → Outcome Machine
resume ex m = done m

-- Register 8 holds the largest `int`, 9 holds -8, and the next instruction is at 4.
abbrev machine : Machine
machine = record {
  registers = set (set (set (replicate 40 0) 8 2147483647) 9 4294967288) 35 4;
  main_memory = [];
  tlb = none;
  page_table = none;
  page_table_size = 0;
}

-- ADDI r8,r8,1.
abbrev increment : Instruction
increment = record { value = 554172417; op_code = op_addi; rs = 8; rt = 8; rd = 0; extra = 1 }

mult_lem_example :
    AreWords (mult 4294967293 7 true)
    × (double (mult 4294967293 7 true) ≡ word64 (signed32 4294967293 *ℤ signed32 7))
mult_lem_example = mult_lem 4294967293 7 true (omega arith) (omega arith)

arithmetic_lem_example :
    (execute resume machine increment 8 op_add
      ≡ integer_result resume machine increment 8 0 (signed32 2147483647 +ℤ signed32 2147483647))
    × (execute resume machine increment 8 op_addi
        ≡ integer_result resume machine increment 8 8 (signed32 2147483647 +ℤ signed32 1))
    × (execute resume machine increment 8 op_sub
        ≡ integer_result resume machine increment 8 0 (signed32 2147483647 -ℤ signed32 2147483647))
unfolding reg
arithmetic_lem_example =
    arithmetic_lem resume machine increment 8 (omega arith) (omega arith) (omega arith)

-- SRA r10,r9,1 and the other shifts of -8.
abbrev halving : Instruction
halving = record { value = 608323; op_code = op_sra; rs = 0; rt = 9; rd = 10; extra = 1 }

shift_right_lem_example :
    (execute resume machine halving 8 op_sra ≡ assign machine 8 10 4294967292)
    × (execute resume machine halving 8 op_srav ≡ assign machine 8 10 4294967288)
    × (execute resume machine halving 8 op_srl ≡ assign machine 8 10 4294967292)
    × (execute resume machine halving 8 op_srlv ≡ assign machine 8 10 4294967288)
unfolding reg
shift_right_lem_example = shift_right_lem resume machine halving 8 (omega arith) (omega arith)

advance_lem_example : reg (advance (executed 8 4 77 machine)) 34 ≡ register_after 8 4 77 machine 34
unfolding reg
advance_lem_example = advance_lem 8 4 77 machine 34 refl (omega arith)

-- ADDI r8,r8,1.
decode-IsEncoding_example : decode (packed 8 8 8 0 0 1) ≡ record {
  value = packed 8 8 8 0 0 1;
  op_code = op_addi;
  rs = 8;
  rt = 8;
  rd = 0;
  extra = field_extra ifmt 8 8 0 0 1;
}
decode-IsEncoding_example =
    decode-IsEncoding op_addi 8 8 8 0 0 1 refl (omega arith) (omega arith) (omega arith)
      (omega arith) (omega arith) (omega arith)
