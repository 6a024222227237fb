-- ===== src/Machine/Translate.antt =====
-- code/machine/translate.cc: Machine::Translate, from a virtual to a physical address through a
-- linear page table or a software-loaded TLB.
pub mod Grant
pub mod Search
pub mod Stable
use nachos.Base.{
  ℕ, zero, suc, ◌+◌, ◌*◌, ◌/◌, ◌%◌, ◌≡◌, Bool, true, false, not, ◌&&◌, ◌||◌, List, [], ◌∷◌, Option,
  none, some, Outcome, done, aborted, ◌>>=◌, ◌>>◌, assert, ltb, leb, ◌==◌, if◌then◌else◌, get_elem?,
  set,
}
use nachos.Machine.{
  Machine, TranslationEntry, ExceptionType, address_error_exception, page_fault_exception,
  read_only_exception, bus_error_exception, page_size, num_phys_pages, memory_size, tlb_size,
}

-- The entry for a page with its index in the table, or the exception for its absence.
pub data Lookup : Type 0 where
  found : ℕ → TranslationEntry → Lookup
  missing : ExceptionType → Lookup

-- `translated p m` is NoException with `*physAddr == p` and the bits of the table set in `m`.
pub data Translation : Type 0 where
  translated : ℕ → Machine → Translation
  fault : ExceptionType → Translation

-- `virtAddr & 0x3` and `virtAddr & 0x1` are the remainders by 4 and 2.
unfoldable pub misaligned : ℕ → ℕ → Bool
misaligned virt_addr size =
    size == 4 && not (virt_addr % 4 == 0) || size == 2 && not (virt_addr % 2 == 0)

-- The search of the TLB: `rounds` entries are left, `i` is the next.
unfoldable pub find_in_tlb : ℕ → List TranslationEntry → ℕ → ℕ → Outcome Lookup
find_in_tlb zero t vpn i = done (missing page_fault_exception)
find_in_tlb (suc rounds) t vpn i =
    let rest = find_in_tlb rounds t vpn (i + 1) in
    elim (get_elem? t i) [
      | none ↦ aborted
      | some entry ↦ if entry.valid && entry.virtual_page == vpn then done (found i entry) else rest
    ]

unfoldable pub index_page_table : List TranslationEntry → ℕ → ℕ → Outcome Lookup
index_page_table t table_size vpn =
    if leb table_size vpn then done (missing address_error_exception) else elim (get_elem? t vpn) [
      | none ↦ aborted
      | some entry ↦
          if not entry.valid then done (missing page_fault_exception) else done (found vpn entry)
    ]

-- The first two clauses are the ASSERTs that there is one table, and not both.
unfoldable pub find_entry :
    Option (List TranslationEntry) → Option (List TranslationEntry) → ℕ → ℕ → Outcome Lookup
find_entry (some t) (some p) table_size vpn = aborted
find_entry none none table_size vpn = aborted
find_entry none (some p) table_size vpn = index_page_table p table_size vpn
find_entry (some t) none table_size vpn = find_in_tlb tlb_size t vpn 0

-- `entry->use = TRUE; if (writing) entry->dirty = TRUE;`
unfoldable pub touch : TranslationEntry → Bool → TranslationEntry
touch entry writing = record entry { used = true; dirty = if writing then true else entry.dirty }

-- Write through the pointer into the one table that is there.
unfoldable pub put_in :
    Option (List TranslationEntry) → ℕ → TranslationEntry → Option (List TranslationEntry)
put_in none i entry = none
put_in (some t) i entry = some (set t i entry)

unfoldable pub put_entry : Machine → ℕ → TranslationEntry → Machine
put_entry m i entry = record m {
  tlb = put_in m.tlb i entry;
  page_table = put_in m.page_table i entry;
}

-- What Translate does with the entry of the page.
unfoldable pub access : Machine → Lookup → ℕ → ℕ → Bool → Outcome Translation
access m (missing e) offset size writing = done (fault e)
access m (found i entry) offset size writing =
    if entry.read_only && writing
    then done (fault read_only_exception)
    else if leb num_phys_pages entry.physical_page
    then done (fault bus_error_exception)
    else do
      assert (leb (entry.physical_page * page_size + offset + size) memory_size)
      done (
          translated (entry.physical_page * page_size + offset)
            (put_entry m i (touch entry writing)))

unfoldable pub translate : Machine → ℕ → ℕ → Bool → Outcome Translation
translate m virt_addr size writing =
    if misaligned virt_addr size then done (fault address_error_exception) else do
      entry ← find_entry m.tlb m.page_table m.page_table_size (virt_addr / page_size)
      access m entry (virt_addr % page_size) size writing
