-- ===== src/Machine/Memory.antt =====
-- code/machine/translate.cc: Machine::ReadMem and Machine::WriteMem, of 1, 2 or 4 bytes of virtual
-- memory. The host is little-endian, as the simulated machine, so that the conversions between the
-- two orders are the identity.
pub mod Bytes
pub mod Laws
use nachos.Base.{
  ℕ, zero, suc, ◌+◌, ◌-◌, ◌*◌, ◌/◌, ◌%◌, ◌^◌, ◌≡◌, Bool, true, false, List, Option, none, some,
  Outcome, done, aborted, ◌>>=◌, ltb, ◌==◌, if◌then◌else◌, get_or, set,
}
use nachos.Machine.{Machine, ExceptionType, raise_exception}
use nachos.Machine.Translate.{Translation, translated, fault, translate}

-- An integer of `n` bytes in memory at `p`, the lowest byte first.
unfoldable pub le_word : List ℕ → ℕ → ℕ → ℕ
le_word mem p zero = 0
le_word mem p (suc n) = get_or mem p 0 + 256 * le_word mem (p + 1) n

unfoldable pub put_le_word : List ℕ → ℕ → ℕ → ℕ → List ℕ
put_le_word mem p zero value = mem
put_le_word mem p (suc n) value = put_le_word (set mem p (value % 256)) (p + 1) n (value / 256)

-- The `int` that a `char` of the memory converts to.
unfoldable pub sign_extend : ℕ → ℕ
sign_extend byte = if ltb byte 128 then byte else 2 ^ 32 - 256 + byte

unfoldable pub read_physical : List ℕ → ℕ → ℕ → Outcome ℕ
read_physical mem p size =
    if size == 1
    then done (sign_extend (get_or mem p 0))
    else if size == 2
    then done (le_word mem p 2)
    else if size == 4
    then done (le_word mem p 4)
    else aborted

unfoldable pub write_physical : List ℕ → ℕ → ℕ → ℕ → Outcome (List ℕ)
write_physical mem p size value =
    if size == 1
    then done (set mem p (value % 256))
    else if size == 2
    then done (put_le_word mem p 2 (value % 2 ^ 16))
    else if size == 4
    then done (put_le_word mem p 4 value)
    else aborted

module _ (handler : ExceptionType → Machine → Outcome Machine) where
  unfoldable pub read_translated : Machine → ℕ → ℕ → Translation → Outcome (Option ℕ × Machine)
  read_translated m addr size (fault ex) = do
    m' ← raise_exception handler m ex addr
    done (none, m')
  read_translated m addr size (translated p m') = do
    value ← read_physical m'.main_memory p size
    done (some value, m')

  -- FALSE is `none`; TRUE comes with `*value`.
  unfoldable pub read_mem : Machine → ℕ → ℕ → Outcome (Option ℕ × Machine)
  read_mem m addr size = do t ← translate m addr size false; read_translated m addr size t

  unfoldable pub write_translated : Machine → ℕ → ℕ → ℕ → Translation → Outcome (Bool × Machine)
  write_translated m addr size value (fault ex) = do
    m' ← raise_exception handler m ex addr
    done (false, m')
  write_translated m addr size value (translated p m') = do
    mem ← write_physical m'.main_memory p size value
    done (true, record m' { main_memory = mem })

  unfoldable pub write_mem : Machine → ℕ → ℕ → ℕ → Outcome (Bool × Machine)
  write_mem m addr size value = do
    t ← translate m addr size true
    write_translated m addr size value t
