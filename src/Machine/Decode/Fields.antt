-- ===== src/Machine/Decode/Fields.antt =====
-- Instruction::Decode of code/machine/mipssim.cc on the fields that an instruction is packed from.
use nachos.Base.{
  ℕ, ◌+◌, ◌-◌, ◌*◌, ◌/◌, ◌%◌, ◌^◌, ◌<◌, ◌≡◌, refl, ◌==◌, leb, if◌then◌else◌, get_or, arith,
}
use nachos.Machine.Decode.{
  OpCode, decoded_further, Format, ifmt, jfmt, rfmt, op_table, special_table, op_res, op_bltz,
  op_bgez, op_bltzal, op_bgezal, op_unimp, decode, final_op, bcond_op, extra_of, extend_immediate,
}

-- Six fields of 6, 5, 5, 5, 5 and 6 bits.
abbrev pub packed : ℕ → ℕ → ℕ → ℕ → ℕ → ℕ → ℕ
packed op s t d sh funct = op * 2 ^ 26 + s * 2 ^ 21 + t * 2 ^ 16 + d * 2 ^ 11 + sh * 2 ^ 6 + funct

-- The opcode that the table, the `rt` field of a branch and `funct` determine.
abbrev pub field_op : OpCode → ℕ → ℕ → OpCode
field_op op t funct = decoded_further op (get_or special_table funct op_res) (
    if t == 0
    then op_bltz
    else if t == 1
    then op_bgez
    else if t == 16
    then op_bltzal
    else if t == 17
    then op_bgezal
    else op_unimp)

-- The shift amount, the immediate with its sign extended, or the target of a jump.
abbrev pub field_extra : Format → ℕ → ℕ → ℕ → ℕ → ℕ → ℕ
field_extra rfmt s t d sh funct = sh
field_extra ifmt s t d sh funct =
    let immediate = d * 2 ^ 11 + sh * 2 ^ 6 + funct in
    if leb 16 d then immediate + (2 ^ 32 - 2 ^ 16) else immediate
field_extra jfmt s t d sh funct = s * 2 ^ 21 + t * 2 ^ 16 + d * 2 ^ 11 + sh * 2 ^ 6 + funct

module _ (op s t d sh funct : ℕ) (ho : op < 64) (hs : s < 32) (ht : t < 32) (hd : d < 32)
    (hh : sh < 32) (hf : funct < 64) where
  entry_of : (v : ℕ) → v ≡ packed op s t d sh funct → v / 2 ^ 26 % 2 ^ 6 ≡ op
  entry_of v e = omega arith

  final_op-field_op :
      (o : OpCode) (v : ℕ)
      → v % 2 ^ 6 ≡ funct
      → v / 2 ^ 16 % 2 ^ 5 ≡ t
      → final_op o v ≡ field_op o t funct
  unfolding final_op bcond_op
  final_op-field_op o v ef et = rw (ef, et) refl

  extra_of-field_extra :
      (f : Format) (v : ℕ)
      → v ≡ packed op s t d sh funct
      → extra_of f v ≡ field_extra f s t d sh funct
  unfolding extra_of extend_immediate
  extra_of-field_extra rfmt v e = omega arith
  extra_of-field_extra ifmt v e =
      let i : v % 2 ^ 16 ≡ d * 2 ^ 11 + sh * 2 ^ 6 + funct = omega arith in ground (arith, i)
  extra_of-field_extra jfmt v e = omega arith

  -- The operation and the format are those of the tables.
  pub decode_lem : decode (packed op s t d sh funct) ≡ record {
    value = packed op s t d sh funct;
    op_code = field_op (get_or op_table op (op_res, ifmt)).0 t funct;
    rs = s;
    rt = t;
    rd = d;
    extra = field_extra (get_or op_table op (op_res, ifmt)).1 s t d sh funct;
  }
  unfolding decode
  decode_lem = decode_step (packed op s t d sh funct) refl
    where
      decode_step :
          (v : ℕ)
          → v ≡ packed op s t d sh funct
          → decode v ≡ record {
            value = v;
            op_code = field_op (get_or op_table op (op_res, ifmt)).0 t funct;
            rs = s;
            rt = t;
            rd = d;
            extra = field_extra (get_or op_table op (op_res, ifmt)).1 s t d sh funct;
          }
      decode_step v e =
          let eo = entry_of v e in
          let es : v / 2 ^ 21 % 2 ^ 5 ≡ s = omega arith in
          let et : v / 2 ^ 16 % 2 ^ 5 ≡ t = omega arith in
          let ed : v / 2 ^ 11 % 2 ^ 5 ≡ d = omega arith in
          let ef : v % 2 ^ 6 ≡ funct = omega arith in
          let (o, f) = get_or op_table op (op_res, ifmt) in
          let e1 = final_op-field_op o v ef et in
          let e2 = extra_of-field_extra f v e in rw (eo, e1, e2, es, et, ed) refl
