-- ===== src/Machine/Unaligned.antt =====
-- code/machine/mipssim.cc, with SIM_FIX: the loads and stores of part of a word (LB, LH, LWL, LWR,
-- SWL, SWR in Machine::OneInstruction). Where the source joins two fields by `|` that share no bit,
-- the model adds them. A selector is `3 - byte`.

use nachos.Base.{ℕ, ◌+◌, ◌-◌, ◌*◌, ◌/◌, ◌%◌, ◌^◌, Bool, ◌==◌, ◌&&◌, leb, if◌then◌else◌}

-- The value that LB or LBU loads from what ReadMem returned, and LH or LHU.
unfoldable pub loaded_byte : Bool → ℕ → ℕ
loaded_byte signed value =
    if leb (2 ^ 7) (value % 2 ^ 8) && signed then 2 ^ 32 - 2 ^ 8 + value % 2 ^ 8 else value % 2 ^ 8

unfoldable pub loaded_half : Bool → ℕ → ℕ
loaded_half signed value =
    if leb (2 ^ 15) (value % 2 ^ 16) && signed
    then 2 ^ 32 - 2 ^ 16 + value % 2 ^ 16
    else value % 2 ^ 16

unfoldable pub merge_lwl : ℕ → ℕ → ℕ → ℕ
merge_lwl selector old value =
    if selector == 0
    then value
    else if selector == 1
    then old % 2 ^ 8 + value * 2 ^ 8 % 2 ^ 32
    else if selector == 2
    then old % 2 ^ 16 + value * 2 ^ 16 % 2 ^ 32
    else if selector == 3
    then old % 2 ^ 24 + value * 2 ^ 24 % 2 ^ 32
    else old

unfoldable pub merge_lwr : ℕ → ℕ → ℕ → ℕ
merge_lwr selector old value =
    if selector == 0
    then old / 2 ^ 8 * 2 ^ 8 + value / 2 ^ 24 % 2 ^ 8
    else if selector == 1
    then old / 2 ^ 16 * 2 ^ 16 + value / 2 ^ 16 % 2 ^ 16
    else if selector == 2
    then old / 2 ^ 24 * 2 ^ 24 + value / 2 ^ 8 % 2 ^ 24
    else if selector == 3
    then value
    else old

-- The word that SWL and SWR store, from the word in memory and the register.
unfoldable pub merge_swl : ℕ → ℕ → ℕ → ℕ
merge_swl selector value register =
    if selector == 0
    then register
    else if selector == 1
    then value / 2 ^ 24 * 2 ^ 24 + register / 2 ^ 8 % 2 ^ 24
    else if selector == 2
    then value / 2 ^ 16 * 2 ^ 16 + register / 2 ^ 16 % 2 ^ 16
    else if selector == 3
    then value / 2 ^ 8 * 2 ^ 8 + register / 2 ^ 24 % 2 ^ 8
    else value

unfoldable pub merge_swr : ℕ → ℕ → ℕ → ℕ
merge_swr selector value register =
    if selector == 0
    then value % 2 ^ 24 + register * 2 ^ 24 % 2 ^ 32
    else if selector == 1
    then value % 2 ^ 16 + register * 2 ^ 16 % 2 ^ 32
    else if selector == 2
    then value % 2 ^ 8 + register * 2 ^ 8 % 2 ^ 32
    else if selector == 3
    then register
    else value
