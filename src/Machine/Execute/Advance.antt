-- ===== src/Machine/Execute/Advance.antt =====
-- Register 0 and the program counters after an instruction (Machine::OneInstruction and DelayedLoad
-- of code/machine/mipssim.cc).
use nachos.Base.{
  ℕ, ◌<◌, ◌≡◌, refl, ◌∙◌, false, ◌==◌, if◌then◌else◌, length, set, get_or, get_or-set, length-set,
  arith,
}
use nachos.Machine.{
  Machine, delayed_load, delay_load, pc_reg, next_pc_reg, prev_pc_reg, load_reg, load_value_reg,
  num_total_regs,
}
use nachos.Machine.Execute.{executed, reg, put, advance}

length-put : (m : Machine) (i value : ℕ) → length (put m i value).registers ≡ length m.registers
unfolding put
length-put m i value = length-set m.registers i value

reg-put :
    (m : Machine) (i j value : ℕ)
    → i < length m.registers
    → reg (put m i value) j ≡ (if i == j then value else reg m j)
unfolding put reg
reg-put m i j value h = get_or-set m.registers i j value 0 h

-- What `DelayedLoad` leaves in each register.
reg-delayed_load :
    (m : Machine) (next_reg next_value j : ℕ)
    → length m.registers ≡ num_total_regs
    → reg m load_reg < num_total_regs
    → reg (delayed_load m next_reg next_value) j ≡ (
        if 0 == j
        then 0
        else if load_value_reg == j
        then next_value
        else if load_reg == j
        then next_reg
        else if reg m load_reg == j
        then reg m load_value_reg
        else reg m j)
unfolding delayed_load delay_load reg
reg-delayed_load m next_reg next_value j h k =
    let r = m.registers in
    let a = set r (get_or r load_reg 0) (get_or r load_value_reg 0) in
    let b = set a load_reg next_reg in
    let c = set b load_value_reg next_value in
    let la = length-set r (get_or r load_reg 0) (get_or r load_value_reg 0) in
    let lb = length-set a load_reg next_reg in
    let lc = length-set b load_value_reg next_value in
    let e1 = get_or-set r (get_or r load_reg 0) j (get_or r load_value_reg 0) 0 (omega arith) in
    let e2 = get_or-set a load_reg j next_reg 0 (omega arith) in
    let e3 = get_or-set b load_value_reg j next_value 0 (omega arith) in
    let e4 = get_or-set c 0 j 0 0 (omega arith) in rw (e4, e3, e2, e1) refl

length-delayed_load :
    (m : Machine) (next_reg next_value : ℕ)
    → length (delayed_load m next_reg next_value).registers ≡ length m.registers
unfolding delayed_load delay_load
length-delayed_load m next_reg next_value =
    let r = m.registers in
    let a = set r (get_or r load_reg 0) (get_or r load_value_reg 0) in
    let b = set a load_reg next_reg in
    let c = set b load_value_reg next_value in
    length-set c 0 0
    ∙ length-set b load_value_reg next_value
    ∙ length-set a load_reg next_reg
    ∙ length-set r (get_or r load_reg 0) (get_or r load_value_reg 0)

-- The registers after an instruction that ran to its end, as a function of those before its end.
abbrev pub register_after : ℕ → ℕ → ℕ → Machine → ℕ → ℕ
register_after pc_after next_reg next_value m j =
    if next_pc_reg == j
    then pc_after
    else if pc_reg == j
    then reg m next_pc_reg
    else if prev_pc_reg == j
    then reg m pc_reg
    else if 0 == j
    then 0
    else if load_value_reg == j
    then next_value
    else if load_reg == j
    then next_reg
    else if reg m load_reg == j
    then reg m load_value_reg
    else reg m j

-- After an instruction that ran to its end, with the earlier load delayed to a general register: the
-- program counter moves on to the delay slot and the branch target follows it, the delayed load has
-- arrived, the new one is noted, register 0 is zero, and no other register has changed.
pub advance_lem :
    (pc_after next_reg next_value : ℕ) (m : Machine) (j : ℕ)
    → length m.registers ≡ num_total_regs
    → reg m load_reg < 32
    → reg (advance (executed pc_after next_reg next_value m)) j
      ≡ register_after pc_after next_reg next_value m j
unfolding advance
advance_lem pc_after next_reg next_value m j h k =
    let loaded = delayed_load m next_reg next_value in
    let prev = put loaded prev_pc_reg (reg loaded pc_reg) in
    let current = put prev pc_reg (reg prev next_pc_reg) in
    let l1 = length-delayed_load m next_reg next_value in
    let l2 = length-put loaded prev_pc_reg (reg loaded pc_reg) in
    let l3 = length-put prev pc_reg (reg prev next_pc_reg) in
    let e1 = reg-put current next_pc_reg j pc_after (omega arith) in
    let e2 = reg-put prev pc_reg j (reg prev next_pc_reg) (omega arith) in
    let e3 = reg-put loaded prev_pc_reg j (reg loaded pc_reg) (omega arith) in
    let e4 = reg-put loaded prev_pc_reg next_pc_reg (reg loaded pc_reg) (omega arith) in
    let small : reg m load_reg < num_total_regs = omega arith in
    let d = reg-delayed_load m next_reg next_value j h small in
    let dn = reg-delayed_load m next_reg next_value next_pc_reg h small in
    let dp = reg-delayed_load m next_reg next_value pc_reg h small in
    let off_next : (reg m load_reg == next_pc_reg) ≡ false = ground arith in
    let off_pc : (reg m load_reg == pc_reg) ≡ false = ground arith in
    let next : reg prev next_pc_reg ≡ reg m next_pc_reg = e4 ∙ dn ∙ rw off_next refl in
    let here : reg loaded pc_reg ≡ reg m pc_reg = dp ∙ rw off_pc refl in
    e1 ∙ rw (e2, next, e3, here, d) refl
