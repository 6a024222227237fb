-- ===== src/Machine/Execute/Arithmetic.antt =====
-- ADD, ADDI and SUB of Machine::OneInstruction (code/machine/mipssim.cc) against the integers, and
-- the shifts to the right.
use nachos.Base.{
  ℕ, ◌%◌, ◌^◌, ◌<◌, ◌≡◌, refl, ap, ap₂, ◌∙◌, Bool, true, false, not, Outcome, if◌then◌else◌, arith,
}
use nachos.Base.Int.{ℤ, ◌+ℤ◌, ◌-ℤ◌, is_int, signed32, word32}
use nachos.Machine.{Machine, ExceptionType, overflow_exception}
use nachos.Machine.Decode.{Instruction, op_add, op_addi, op_sub, op_srl, op_sra, op_srlv, op_srav}
use nachos.Machine.Word.{add_word, sub_word}
use nachos.Machine.Word.Overflow.{overflows-Exact, Exact}
use nachos.Machine.Word.Shift.{floor_shift, shift_right-floor_shift}
use nachos.Machine.Execute.{Step, reg, assign, trap, checked, execute}

module _ (handler : ExceptionType → Machine → Outcome Machine) (m : Machine) (i : Instruction)
    (pc : ℕ) where
  -- The result `z` in the register `r`, or an overflow.
  abbrev pub integer_result : ℕ → ℤ → Outcome Step
  integer_result r z =
      if is_int z then assign m pc r (word32 z) else trap handler m overflow_exception 0

  checked-integer_result :
      (w r : ℕ) (z : ℤ) (o : Bool) → Exact w z o → checked handler m pc o r w ≡ integer_result r z
  unfolding checked
  checked-integer_result w r z o (eo, ew) =
      ap₂ (λ o w. if o then trap handler m overflow_exception 0 else assign m pc r w) eo ew
      ∙ swap (is_int z)
    where
      swap :
          (b : Bool)
          → (if not b then trap handler m overflow_exception 0 else assign m pc r (word32 z))
            ≡ (if b then assign m pc r (word32 z) else trap handler m overflow_exception 0)
      swap true = refl
      swap false = refl

  -- When the registers and the immediate are words, ADD, ADDI and SUB assign the word of the sum or
  -- difference of the signed operands if that is an `int`, and raise OverflowException if it is not.
  pub arithmetic_lem :
      reg m i.rs < 2 ^ 32
      → reg m i.rt < 2 ^ 32
      → i.extra < 2 ^ 32
      → (execute handler m i pc op_add
          ≡ integer_result i.rd (signed32 (reg m i.rs) +ℤ signed32 (reg m i.rt)))
        × (execute handler m i pc op_addi
            ≡ integer_result i.rt (signed32 (reg m i.rs) +ℤ signed32 i.extra))
        × (execute handler m i pc op_sub
            ≡ integer_result i.rd (signed32 (reg m i.rs) -ℤ signed32 (reg m i.rt)))
  unfolding execute
  arithmetic_lem hs ht he =
      let (add, addi, sub) = overflows-Exact (reg m i.rs) (reg m i.rt) hs ht in
      let (add', addi', sub') = overflows-Exact (reg m i.rs) i.extra hs he in
      (
        checked-integer_result (add_word (reg m i.rs) (reg m i.rt)) i.rd _ _ add,
        checked-integer_result (add_word (reg m i.rs) i.extra) i.rt _ _ addi',
        checked-integer_result (sub_word (reg m i.rs) (reg m i.rt)) i.rd _ _ sub,
      )

  -- SRA and SRAV assign the word of the signed operand divided by a power of two and rounded down.
  -- So do SRL and SRLV: a negative word keeps its sign, which the logical shift of the MIPS
  -- architecture would clear.
  pub shift_right_lem :
      reg m i.rt < 2 ^ 32
      → i.extra < 32
      → (execute handler m i pc op_sra
          ≡ assign m pc i.rd (word32 (floor_shift (signed32 (reg m i.rt)) i.extra)))
        × (execute handler m i pc op_srav
            ≡ assign m pc i.rd (word32 (floor_shift (signed32 (reg m i.rt)) (reg m i.rs % 2 ^ 5))))
        × (execute handler m i pc op_srl
            ≡ assign m pc i.rd (word32 (floor_shift (signed32 (reg m i.rt)) i.extra)))
        × (execute handler m i pc op_srlv
            ≡ assign m pc i.rd (word32 (floor_shift (signed32 (reg m i.rt)) (reg m i.rs % 2 ^ 5))))
  unfolding execute
  shift_right_lem ht he =
      let fixed = ap (assign m pc i.rd) (shift_right-floor_shift (reg m i.rt) i.extra ht he) in
      let variable =
        ap (assign m pc i.rd)
          (shift_right-floor_shift (reg m i.rt) (reg m i.rs % 2 ^ 5) ht (omega arith)) in
      (fixed, variable, fixed, variable)
