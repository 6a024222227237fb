-- ===== src/Machine.antt =====
-- code/machine/machine.h, machine.cc and translate.h: the state of the simulated MIPS machine, its
-- registers and its exceptions. The children model translate.cc and mipssim.cc.
pub mod Translate
pub mod Memory
pub mod Mult
pub mod Decode
pub mod Word
pub mod Unaligned
pub mod Execute
mod Tests
mod Runs
use nachos.Base.{
  ℕ, suc, ◌+◌, ◌*◌, ◌<◌, ◌≡◌, Bool, true, false, List, Option, none, some, Outcome, done, aborted,
  ◌>>=◌, ◌>>◌, assert, ltb, get_or, set, length, replicate, All, ◌^◌,
}

abbrev pub page_size : ℕ
page_size = 128

abbrev pub num_phys_pages : ℕ
num_phys_pages = 128

abbrev pub memory_size : ℕ
memory_size = num_phys_pages * page_size

abbrev pub tlb_size : ℕ
tlb_size = 4

pub data ExceptionType : Type 0 where
  no_exception : ExceptionType
  syscall_exception : ExceptionType
  page_fault_exception : ExceptionType
  read_only_exception : ExceptionType
  bus_error_exception : ExceptionType
  address_error_exception : ExceptionType
  overflow_exception : ExceptionType
  illegal_instr_exception : ExceptionType

abbrev pub stack_reg : ℕ
stack_reg = 29

abbrev pub ret_addr_reg : ℕ
ret_addr_reg = 31

abbrev pub hi_reg : ℕ
hi_reg = 32

abbrev pub lo_reg : ℕ
lo_reg = 33

abbrev pub pc_reg : ℕ
pc_reg = 34

abbrev pub next_pc_reg : ℕ
next_pc_reg = 35

abbrev pub prev_pc_reg : ℕ
prev_pc_reg = 36

abbrev pub load_reg : ℕ
load_reg = 37

abbrev pub load_value_reg : ℕ
load_value_reg = 38

abbrev pub bad_vaddr_reg : ℕ
bad_vaddr_reg = 39

abbrev pub num_total_regs : ℕ
num_total_regs = 40

-- The page numbers are the bit patterns of the `int`s; `used` is the source's `use`.
pub record TranslationEntry : Type 0 where
  virtual_page : ℕ
  physical_page : ℕ
  valid : Bool
  read_only : Bool
  used : Bool
  dirty : Bool

-- Registers are 32-bit patterns and memory is bytes. A NULL table is `none`.
pub record Machine : Type 0 where
  pub registers : List ℕ
  pub main_memory : List ℕ
  pub tlb : Option (List TranslationEntry)
  pub page_table : Option (List TranslationEntry)
  pub page_table_size : ℕ

-- The constructor, without USE_TLB.
unfoldable pub init : Machine
init = record {
  registers = replicate num_total_regs 0;
  main_memory = replicate memory_size 0;
  tlb = none;
  page_table = none;
  page_table_size = 0;
}

unfoldable pub read_register : Machine → ℕ → Outcome ℕ
read_register m num = assert (ltb num num_total_regs) >> done (get_or m.registers num 0)

unfoldable pub write_register : Machine → ℕ → ℕ → Outcome Machine
write_register m num value = do
  assert (ltb num num_total_regs)
  done (record m { registers = set m.registers num value })

-- The register that a load was delayed to gets its value, and the next load is noted.
unfoldable pub delay_load : List ℕ → ℕ → ℕ → List ℕ
delay_load r next_reg next_value =
    let loaded = set r (get_or r load_reg 0) (get_or r load_value_reg 0) in
    set (set (set loaded load_reg next_reg) load_value_reg next_value) 0 0

unfoldable pub delayed_load : Machine → ℕ → ℕ → Machine
delayed_load m next_reg next_value = record m {
  registers = delay_load m.registers next_reg next_value;
}

-- `handler` is `ExceptionHandler` of the kernel that runs on the machine.
unfoldable pub raise_exception :
    (ExceptionType → Machine → Outcome Machine) → Machine → ExceptionType → ℕ → Outcome Machine
raise_exception handler m which bad_vaddr =
    let noted = record m { registers = set m.registers bad_vaddr_reg bad_vaddr } in
    handler which (delayed_load noted 0 0)
