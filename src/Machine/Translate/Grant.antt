-- ===== src/Machine/Translate/Grant.antt =====
-- What Translate of code/machine/translate.cc grants and why it refuses, for either kind of table.
use nachos.Base.{
  ℕ, zero, suc, ◌+◌, ◌*◌, ◌/◌, ◌%◌, ◌<◌, ◌≤◌, ◌≡◌, refl, sym, ◌⊎◌, inl, inr, Bool, true, false,
  ◌&&◌, List, [], ◌∷◌, Option, none, some, done, leb, ◌==◌, get_elem?, length, drop, All, arith,
  Bool-cases, subst, leb→le,
}
use nachos.Machine.{
  Machine, TranslationEntry, address_error_exception, page_fault_exception, read_only_exception,
  bus_error_exception, page_size, num_phys_pages, memory_size, tlb_size,
}
use nachos.Machine.Translate.{
  Lookup, found, missing, Translation, translated, fault, misaligned, find_in_tlb, index_page_table,
  find_entry, touch, put_entry, access, translate,
}

-- There is one table, with the number of entries that the code takes it to have.
abbrev pub IsTable : Option (List TranslationEntry) → Option (List TranslationEntry) → ℕ → Type 0
IsTable none none n = ⊥
IsTable none (some p) n = length p ≡ n
IsTable (some t) none n = length t ≡ tlb_size
IsTable (some t) (some p) n = ⊥

abbrev pub serves : TranslationEntry → ℕ → Bool
serves e vpn = e.valid && e.virtual_page == vpn

-- What a search of the table for page `vpn` may find, and why it may miss.
abbrev pub Looked :
    Option (List TranslationEntry) → Option (List TranslationEntry) → ℕ → ℕ → Lookup → Type 0
Looked none (some p) n vpn (found i e) = (get_elem? p i ≡ some e) × (e.valid ≡ true) × (i ≡ vpn)
Looked none (some p) n vpn (missing ex) =
    ((ex ≡ address_error_exception) × n ≤ vpn)
    ⊎ ((ex ≡ page_fault_exception)
        × ((e : TranslationEntry) × (get_elem? p vpn ≡ some e) × (e.valid ≡ false)))
Looked (some t) none n vpn (found i e) = (get_elem? t i ≡ some e) × (serves e vpn ≡ true)
Looked (some t) none n vpn (missing ex) =
    (ex ≡ page_fault_exception) × All (λ e. serves e vpn ≡ false) t
Looked none none n vpn r = ⊥
Looked (some t) (some p) n vpn r = ⊥

get_elem?-some :
    (t : List TranslationEntry) (i : ℕ)
    → i < length t
    → (e : TranslationEntry) × (get_elem? t i ≡ some e) × (drop i t ≡ e ∷ drop (suc i) t)
get_elem?-some [] i h = absurd (omega arith)
get_elem?-some (x ∷ t) zero h = (x, refl, refl)
get_elem?-some (x ∷ t) (suc i) h = get_elem?-some t i (omega arith)

abbrev Searched : List TranslationEntry → ℕ → ℕ → Lookup → Type 0
Searched t vpn i (found j e) = (get_elem? t j ≡ some e) × (serves e vpn ≡ true)
Searched t vpn i (missing ex) =
    (ex ≡ page_fault_exception) × All (λ e. serves e vpn ≡ false) (drop i t)

drop-all : (t : List TranslationEntry) (i : ℕ) → length t ≤ i → drop i t ≡ []
drop-all [] zero h = refl
drop-all [] (suc i) h = refl
drop-all (x ∷ t) zero h = absurd (omega arith)
drop-all (x ∷ t) (suc i) h = drop-all t i (omega arith)

Searched-suc :
    (t : List TranslationEntry) (vpn i : ℕ) (e : TranslationEntry) (r : Lookup)
    → drop i t ≡ e ∷ drop (suc i) t
    → serves e vpn ≡ false
    → Searched t vpn (suc i) r
    → Searched t vpn i r
Searched-suc t vpn i e (found j e') d off h = h
Searched-suc t vpn i e (missing ex) d off h =
    (h.0, subst (All (λ e. serves e vpn ≡ false)) (sym d) (off, h.1))

find_in_tlb-Searched :
    (rounds : ℕ) (t : List TranslationEntry) (vpn i : ℕ)
    → i + rounds ≡ length t
    → (r : Lookup) × (find_in_tlb rounds t vpn i ≡ done r) × Searched t vpn i r
unfolding find_in_tlb
find_in_tlb-Searched zero t vpn i h =
    let gone = drop-all t i (omega arith) in
    (
      missing page_fault_exception,
      refl,
      (refl, subst (All (λ e. serves e vpn ≡ false)) (sym gone) tt),
    )
find_in_tlb-Searched (suc rounds) t vpn i h =
    let next : i + 1 ≡ suc i = omega arith in
    let (e, at, d) = get_elem?-some t i (omega arith) in
    let (r, run, s) = find_in_tlb-Searched rounds t vpn (suc i) (omega arith) in
    elim (Bool-cases (serves e vpn)) [
      | inl on ↦ (found i e, (rw (at, on, find_in_tlb)), (at, on))
      | inr off ↦ (r, (rw (at, off, next, run, find_in_tlb)), Searched-suc t vpn i e r d off s)
    ]

find_entry-Looked :
    (tlb page_table : Option (List TranslationEntry)) (n vpn : ℕ)
    → IsTable tlb page_table n
    → (r : Lookup) × (find_entry tlb page_table n vpn ≡ done r) × Looked tlb page_table n vpn r
unfolding find_entry index_page_table
find_entry-Looked none none n vpn h = absurd h
find_entry-Looked (some t) (some p) n vpn h = absurd h
find_entry-Looked (some t) none n vpn h =
    let (r, run, s) = find_in_tlb-Searched tlb_size t vpn 0 (omega arith) in
    (r, run, Searched-Looked r s)
  where
    Searched-Looked : (r : Lookup) → Searched t vpn 0 r → Looked (some t) none n vpn r
    Searched-Looked (found i e) s = s
    Searched-Looked (missing ex) s = s
find_entry-Looked none (some p) n vpn h = elim (Bool-cases (leb n vpn)) [
  | inl past ↦ (missing address_error_exception, (rw past), inl (refl, leb→le n vpn past))
  | inr inside ↦
      let (e, at, d) = get_elem?-some p vpn (ground arith) in
      elim (Bool-cases e.valid) [
        | inl on ↦ (found vpn e, (rw (inside, at, on)), (at, on, refl))
        | inr off ↦ (missing page_fault_exception, (rw (inside, at, off)), inr (refl, (e, at, off)))
      ]
]

abbrev pub IsSize : ℕ → Type 0
IsSize size = (size ≡ 1) ⊎ (size ≡ 2) ⊎ (size ≡ 4)

-- An aligned access does not cross the end of its page.
pub within_page :
    (v size : ℕ) → IsSize size → misaligned v size ≡ false → v % page_size + size ≤ page_size
unfolding misaligned
within_page v size (inl one) a = ground arith
within_page v size (inr (inl two)) a = ground arith
within_page v size (inr (inr four)) a = ground arith

module _ (m : Machine) (v size : ℕ) (writing : Bool) where
  abbrev pub Serving : ℕ → TranslationEntry → Type 0
  Serving i e = Looked m.tlb m.page_table m.page_table_size (v / page_size) (found i e)

  -- The outcome of a translation of `v`, with the entry that decided it.
  abbrev pub Granted : Translation → Type 0
  Granted (translated p m') =
      (i : ℕ) × (e : TranslationEntry) × Serving i e
      × ((e.read_only && writing) ≡ false)
      × (misaligned v size ≡ false)
      × e.physical_page < num_phys_pages
      × (p ≡ e.physical_page * page_size + v % page_size)
      × p + size ≤ memory_size
      × (m' ≡ put_entry m i (touch e writing))
  Granted (fault ex) =
      ((ex ≡ address_error_exception) × (misaligned v size ≡ true))
      ⊎ ((misaligned v size ≡ false)
          × Looked m.tlb m.page_table m.page_table_size (v / page_size) (missing ex))
      ⊎ ((i : ℕ) × (e : TranslationEntry) × Serving i e
          × (misaligned v size ≡ false)
          × (((ex ≡ read_only_exception) × ((e.read_only && writing) ≡ true))
              ⊎ ((ex ≡ bus_error_exception)
                  × ((e.read_only && writing) ≡ false)
                  × num_phys_pages ≤ e.physical_page)))

  access-Granted :
      (r : Lookup)
      → Looked m.tlb m.page_table m.page_table_size (v / page_size) r
      → IsSize size
      → misaligned v size ≡ false
      → (t : Translation) × (access m r (v % page_size) size writing ≡ done t) × Granted t
  unfolding access
  access-Granted (missing ex) l s a = (fault ex, refl, inr (inl (a, l)))
  access-Granted (found i e) l s a = elim (Bool-cases (e.read_only && writing)) [
    | inl refused ↦
        (fault read_only_exception, (rw refused), inr (inr (i, e, l, a, inl (refl, refused))))
    | inr allowed ↦ elim (Bool-cases (leb num_phys_pages e.physical_page)) [
      | inl big ↦
          let past : num_phys_pages ≤ e.physical_page = ground arith in
          (
            fault bus_error_exception,
            (rw (allowed, big)),
            inr (inr (i, e, l, a, inr (refl, allowed, past))),
          )
      | inr small ↦
          let lt : e.physical_page < num_phys_pages = ground arith in
          let offset = within_page v size s a in
          let room : e.physical_page * page_size + v % page_size + size ≤ memory_size =
            omega (arith, offset) in
          let holds : leb (e.physical_page * page_size + v % page_size + size) memory_size ≡ true =
            ground arith in
          (
            translated (e.physical_page * page_size + v % page_size)
                (put_entry m i (touch e writing)),
            (rw (allowed, small, holds)),
            (i, e, l, allowed, a, lt, refl, room, refl),
          )
    ]
  ]

  -- On a machine with one table of the expected length, Translate of an access of 1, 2 or 4 bytes
  -- stops at no assertion. It translates only an aligned access through a valid entry for the page
  -- that names a frame of the memory and, for a write, is not read-only: the address is in that
  -- frame at the same offset, the access ends inside the memory, and the bits of that entry alone
  -- are set. Otherwise it returns the exception of the first of these conditions that fails, in the
  -- order: alignment, an entry for the page, the right to write, the frame.
  pub translate_lem :
      IsTable m.tlb m.page_table m.page_table_size
      → IsSize size
      → (t : Translation) × (translate m v size writing ≡ done t) × Granted t
  unfolding translate
  translate_lem h s = elim (Bool-cases (misaligned v size)) [
    | inl bad ↦ (fault address_error_exception, (rw bad), inl (refl, bad))
    | inr good ↦
        let (r, run, l) =
          find_entry-Looked m.tlb m.page_table m.page_table_size (v / page_size) h in
        let (t, go, g) = access-Granted r l s good in (t, (rw (good, run, go)), g)
  ]
