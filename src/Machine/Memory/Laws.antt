-- ===== src/Machine/Memory/Laws.antt =====
-- Reading what was written, and the frames that a write cannot reach: ReadMem and WriteMem of
-- code/machine/translate.cc.
use nachos.Base.{
  ℕ, zero, suc, ◌+◌, ◌*◌, ◌/◌, ◌%◌, ◌^◌, ◌<◌, ◌≤◌, ◌≡◌, refl, sym, ap, ◌∙◌, ◌⊎◌, inl, inr, Bool,
  true, false, ◌&&◌, List, [], ◌∷◌, Option, none, some, Outcome, done, ◌==◌, get_or, get_elem?,
  length, All, arith, subst, >>=-eq-done, done_injective, Bool-cases, ltb, ◌≢◌,
}
use nachos.Machine.{
  Machine, ExceptionType, TranslationEntry, page_size, memory_size, raise_exception,
}
use nachos.Machine.Translate.{Translation, translated, fault, translate, put_entry, found}
use nachos.Machine.Translate.Grant.{within_page, IsSize, IsTable, Looked, translate_lem, Granted}
use nachos.Machine.Translate.Stable.{translate-translate}
use nachos.Machine.Memory.{
  read_mem, write_mem, read_translated, write_translated, read_physical, write_physical,
}
use nachos.Machine.Memory.Bytes.{narrowed, write_physical_lem, write_physical-other}

-- The memory has its size, and there is one table.
pub record IsMachine (m : Machine) : Type 0 where
  pub memory : length m.main_memory ≡ memory_size
  pub table : IsTable m.tlb m.page_table m.page_table_size

-- The one table, as a list of entries.
abbrev pub entries :
    Option (List TranslationEntry) → Option (List TranslationEntry) → List TranslationEntry
entries none (some p) = p
entries (some t) none = t
entries none none = []
entries (some t) (some p) = []

All-get_elem? :
    (P : TranslationEntry → Type 0) (t : List TranslationEntry) (i : ℕ) (e : TranslationEntry)
    → get_elem? t i ≡ some e
    → All P t
    → P e
All-get_elem? P [] i e at a = absurd (cc)
All-get_elem? P (x ∷ t) zero e at a =
    let same : x ≡ e = ap (λ o. elim o [ some y ↦ y | none ↦ x ]) at in subst P same a.0
All-get_elem? P (x ∷ t) (suc i) e at a = All-get_elem? P t i e at a.1

-- The entry that serves a page is a valid one of the table.
Looked-entries :
    (tlb page_table : Option (List TranslationEntry)) (n vpn i : ℕ) (e : TranslationEntry)
    → Looked tlb page_table n vpn (found i e)
    → (get_elem? (entries tlb page_table) i ≡ some e) × (e.valid ≡ true)
Looked-entries none none n vpn i e l = absurd l
Looked-entries (some t) (some p) n vpn i e l = absurd l
Looked-entries none (some p) n vpn i e l = (l.0, l.1)
Looked-entries (some t) none n vpn i e l = (l.0, and_left e.valid (e.virtual_page == vpn) l.1)
  where
    and_left : (a b : Bool) → (a && b) ≡ true → a ≡ true
    and_left true b h = refl
    and_left false b h = h

translated-Granted :
    (m : Machine) (v size : ℕ) (w : Bool) (p : ℕ) (n : Machine)
    → IsMachine m
    → IsSize size
    → translate m v size w ≡ done (translated p n)
    → Granted m v size w (translated p n)
translated-Granted m v size w p n k s h =
    let (t, run, g) = translate_lem m v size w k.table s in
    subst (Granted m v size w) (done_injective (sym run ∙ h)) g

translated-memory :
    (m : Machine) (v size : ℕ) (w : Bool) (p : ℕ) (n : Machine)
    → Granted m v size w (translated p n)
    → n.main_memory ≡ m.main_memory
unfolding put_entry
translated-memory m v size w p n (i, e, l, ro, a, lt, ep, room, em) = ap (λ k. k.main_memory) em

and_right : (a b : Bool) → a ≡ true → (a && b) ≡ false → b ≡ false
and_right true b h e = e
and_right false b h e = absurd (cc)

other_frame :
    (frame j p offset size : ℕ)
    → p ≡ frame * page_size + offset
    → offset + size ≤ page_size
    → (frame == j / page_size) ≡ false
    → (j < p) ⊎ p + size ≤ j
other_frame frame j p offset size ep fit apart =
    let far : frame ≢ j / page_size = ground arith in
    elim (Bool-cases (ltb j p)) [ inl lo ↦ inl (ground arith) | inr hi ↦ inr (ground arith) ]

module _ (handler : ExceptionType → Machine → Outcome Machine) where
  -- Inversion of a write that returned TRUE.
  write_mem-true :
      (m : Machine) (v size value : ℕ) (m' : Machine)
      → write_mem handler m v size value ≡ done (true, m')
      → (p : ℕ) × (n : Machine) × (mem : List ℕ) × (translate m v size true ≡ done (translated p n))
        × (write_physical n.main_memory p size value ≡ done mem)
        × (m' ≡ record n { main_memory = mem })
  unfolding write_mem write_translated
  write_mem-true m v size value m' h =
      let (t, run, go) =
        >>=-eq-done (translate m v size true) (write_translated handler m v size value) h in
      of_translation t run go
    where
      false_of_flag : false ≡ true → ⊥
      false_of_flag e = cc

      of_translation :
          (t : Translation)
          → translate m v size true ≡ done t
          → write_translated handler m v size value t ≡ done (true, m')
          → (p : ℕ) × (n : Machine) × (mem : List ℕ) × (translate m v size true
              ≡ done (translated p n))
            × (write_physical n.main_memory p size value ≡ done mem)
            × (m' ≡ record n { main_memory = mem })
      of_translation (fault ex) run go =
          let (k, raised, end) =
            >>=-eq-done (raise_exception handler m ex v) (λ k. done (false, k)) go in
          absurd (false_of_flag (ap (λ r. r.0) (done_injective end)))
      of_translation (translated p n) run go =
          let (mem, wrote, end) =
            >>=-eq-done (write_physical n.main_memory p size value)
              (λ mem. done (true, record n { main_memory = mem })) go in
          (p, n, mem, run, wrote, sym (ap (λ r. r.1) (done_injective end)))

  -- On a machine with its memory and one table, after a WriteMem of 1, 2 or 4 bytes that returned
  -- TRUE a ReadMem of the same address and size returns TRUE with the low bytes of the value
  -- written, one byte sign-extended, and leaves the machine as it is.
  pub read_mem-write_mem :
      (m : Machine) (v size value : ℕ) (m' : Machine)
      → IsMachine m
      → IsSize size
      → value < 2 ^ 32
      → write_mem handler m v size value ≡ done (true, m')
      → read_mem handler m' v size ≡ done (some (narrowed size value), m')
  unfolding read_mem read_translated
  read_mem-write_mem m v size value m' k s b h =
      let (p, n, mem, run, wrote, em) = write_mem-true m v size value m' h in
      let g = translated-Granted m v size true p n k s run in
      let (i, e, l, ro, a, lt, ep, room, en) = g in
      let same = translated-memory m v size true p n g in
      let size_of : length n.main_memory ≡ memory_size = ap length same ∙ k.memory in
      let (mem', wrote', keeps, reads) =
        write_physical_lem n.main_memory p size value s (omega arith) b in
      let eq : mem' ≡ mem = done_injective (sym wrote' ∙ wrote) in
      subst (λ q. read_mem handler q v size ≡ done (some (narrowed size value), q)) (sym em)
        (again n p mem (translate-translate m v size true p n mem run)
          (subst (λ x. read_physical x p size ≡ done (narrowed size value)) eq reads))
    where
      again :
          (n : Machine) (p : ℕ) (mem : List ℕ)
          → translate (record n { main_memory = mem }) v size false
            ≡ done (translated p (record n { main_memory = mem }))
          → read_physical mem p size ≡ done (narrowed size value)
          → read_mem handler (record n { main_memory = mem }) v size
            ≡ done (some (narrowed size value), record n { main_memory = mem })
      again n p mem go reads = rw (go, reads) refl

  -- A WriteMem that returned TRUE leaves every byte of a frame that no valid entry of the table
  -- names.
  pub write_mem-other_frame :
      (m : Machine) (v size value : ℕ) (m' : Machine) (j : ℕ)
      → IsMachine m
      → IsSize size
      → write_mem handler m v size value ≡ done (true, m')
      → All
          (λ e. (e.valid && e.physical_page == j / page_size) ≡ false)
          (entries m.tlb m.page_table)
      → get_or m'.main_memory j 0 ≡ get_or m.main_memory j 0
  write_mem-other_frame m v size value m' j k s h others =
      let (p, n, mem, run, wrote, em) = write_mem-true m v size value m' h in
      let g = translated-Granted m v size true p n k s run in
      let (i, e, l, ro, a, lt, ep, room, en) = g in
      let same = translated-memory m v size true p n g in
      let size_of : length n.main_memory ≡ memory_size = ap length same ∙ k.memory in
      let (at, valid) = Looked-entries m.tlb m.page_table m.page_table_size (v / page_size) i e l in
      let apart =
        All-get_elem? (λ e. (e.valid && e.physical_page == j / page_size) ≡ false)
          (entries m.tlb m.page_table) i e at others in
      let offset = within_page v size s a in
      ap (λ q. get_or q.main_memory j 0) em
      ∙ write_physical-other n.main_memory mem p size value j s (omega arith) wrote (
          other_frame e.physical_page j p (v % page_size) size ep offset
            (and_right e.valid (e.physical_page == j / page_size) valid apart))
      ∙ ap (λ mem. get_or mem j 0) same
