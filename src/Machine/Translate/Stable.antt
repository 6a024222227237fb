-- ===== src/Machine/Translate/Stable.antt =====
-- Translate of code/machine/translate.cc twice: setting the bits of an entry moves no page.
use nachos.Base.{
  ℕ, ◌+◌, ◌*◌, ◌/◌, ◌%◌, ◌≡◌, refl, sym, ap, ◌∙◌, inl, inr, Bool, true, false, not, ◌&&◌, List,
  Option, none, some, done, leb, if◌then◌else◌, get_elem?, set, Bool-cases, Option-cases,
  get_elem?-set_self, subst, >>=-eq-done,
}
use nachos.Machine.{
  Machine, TranslationEntry, page_fault_exception, page_size, num_phys_pages, memory_size, tlb_size,
}
use nachos.Machine.Translate.{
  Lookup, found, missing, translated, misaligned, index_page_table, find_entry, touch, put_entry,
  put_in, access, translate,
}
use nachos.Machine.Translate.Search.{get_elem?-some_lt, set-set, find_in_tlb-set}

-- The page table at a page inside it.
index_page_table-some :
    (p : List TranslationEntry) (n vpn : ℕ) (e : TranslationEntry)
    → leb n vpn ≡ false
    → get_elem? p vpn ≡ some e
    → index_page_table p n vpn
      ≡ (if not e.valid then done (missing page_fault_exception) else done (found vpn e))
unfolding index_page_table
index_page_table-some p n vpn e inside at = rw (inside, at)

index_page_table-found :
    (p : List TranslationEntry) (n vpn i : ℕ) (e e' : TranslationEntry)
    → index_page_table p n vpn ≡ done (found i e)
    → e'.valid ≡ e.valid
    → index_page_table (set p i e') n vpn ≡ done (found i e')
unfolding index_page_table
index_page_table-found p n vpn i e e' h k = elim (Bool-cases (leb n vpn)) [
  | inl past ↦ let run = rw past at h in absurd (cc)
  | inr inside ↦ elim (Option-cases (get_elem? p vpn)) [
    | inl gone ↦ let run = rw (inside, gone) at h in absurd (cc)
    | inr (x, at) ↦
        let step = index_page_table-some p n vpn x inside at in
        elim (Bool-cases (not x.valid)) [
          | inl off ↦
              let run : done (missing page_fault_exception) ≡ done (found i e) =
                sym (step ∙ rw off refl) ∙ h in
              absurd (cc)
          | inr on ↦
              let run : done (found vpn x) ≡ done (found i e) = sym (step ∙ rw on refl) ∙ h in
              let same : vpn ≡ i = cc in
              let old : x ≡ e = cc in
              let good : not e'.valid ≡ false = ap not k ∙ ap (λ y. not y.valid) (sym old) ∙ on in
              let here = get_elem?-set_self p vpn e' (get_elem?-some_lt p vpn at) in
              subst (λ m. index_page_table (set p m e') n vpn ≡ done (found m e')) same
                (index_page_table-some (set p vpn e') n vpn e' inside here ∙ rw good refl)
        ]
  ]
]

find_entry-put_in :
    (tlb page_table : Option (List TranslationEntry)) (n vpn i : ℕ) (e : TranslationEntry)
    (w : Bool)
    → find_entry tlb page_table n vpn ≡ done (found i e)
    → find_entry (put_in tlb i (touch e w)) (put_in page_table i (touch e w)) n vpn
      ≡ done (found i (touch e w))
unfolding find_entry put_in touch
find_entry-put_in none none n vpn i e w h = absurd (cc)
find_entry-put_in (some t) (some p) n vpn i e w h = absurd (cc)
find_entry-put_in none (some p) n vpn i e w h =
    index_page_table-found p n vpn i e (touch e w) h refl
find_entry-put_in (some t) none n vpn i e w h =
    find_in_tlb-set tlb_size t vpn i 0 e (touch e w) h refl

put_in-put_in :
    (t : Option (List TranslationEntry)) (i : ℕ) (a b : TranslationEntry)
    → put_in (put_in t i a) i b ≡ put_in t i b
unfolding put_in
put_in-put_in none i a b = refl
put_in-put_in (some t) i a b = ap some (set-set t i a b)

-- What a translation that succeeded has done.
abbrev pub Succeeded : Machine → ℕ → ℕ → Bool → ℕ → Machine → ℕ → TranslationEntry → Type 0
Succeeded m v size writing p m' i e =
    (misaligned v size ≡ false)
    × (find_entry m.tlb m.page_table m.page_table_size (v / page_size) ≡ done (found i e))
    × (leb num_phys_pages e.physical_page ≡ false)
    × (leb (e.physical_page * page_size + v % page_size + size) memory_size ≡ true)
    × (p ≡ e.physical_page * page_size + v % page_size)
    × (m' ≡ put_entry m i (touch e writing))

access-Succeeded :
    (m : Machine) (v size : ℕ) (writing : Bool) (p : ℕ) (m' : Machine) (r : Lookup)
    → misaligned v size ≡ false
    → find_entry m.tlb m.page_table m.page_table_size (v / page_size) ≡ done r
    → access m r (v % page_size) size writing ≡ done (translated p m')
    → (i : ℕ) × (e : TranslationEntry) × Succeeded m v size writing p m' i e
unfolding access
access-Succeeded m v size writing p m' (missing ex) a f h = absurd (cc)
access-Succeeded m v size writing p m' (found i e) a f h =
    elim (Bool-cases (e.read_only && writing)) [
      | inl refused ↦ let run = rw refused at h in absurd (cc)
      | inr allowed ↦ elim (Bool-cases (leb num_phys_pages e.physical_page)) [
        | inl big ↦ let run = rw (allowed, big) at h in absurd (cc)
        | inr small ↦
            elim (Bool-cases
              (leb (e.physical_page * page_size + v % page_size + size) memory_size)) [
                | inl holds ↦
                    let run : done (
                          translated (e.physical_page * page_size + v % page_size)
                            (put_entry m i (touch e writing)))
                        ≡ done (translated p m') =
                      rw (allowed, small, holds) at h in
                    (i, e, (a, f, small, holds, cc, cc))
                | inr fails ↦ let run = rw (allowed, small, fails) at h in absurd (cc)
              ]
      ]
    ]

pub translate-Succeeded :
    (m : Machine) (v size : ℕ) (writing : Bool) (p : ℕ) (m' : Machine)
    → translate m v size writing ≡ done (translated p m')
    → (i : ℕ) × (e : TranslationEntry) × Succeeded m v size writing p m' i e
unfolding translate
translate-Succeeded m v size writing p m' h = elim (Bool-cases (misaligned v size)) [
  | inl bad ↦ let run = rw bad at h in absurd (cc)
  | inr good ↦
      let run = rw good at h in
      let (r, f, go) =
        >>=-eq-done (find_entry m.tlb m.page_table m.page_table_size (v / page_size))
          (λ r. access m r (v % page_size) size writing) run in
      access-Succeeded m v size writing p m' r good f go
]

and_false : (b : Bool) → (b && false) ≡ false
and_false true = refl
and_false false = refl

translate-put_entry :
    (m : Machine) (v size : ℕ) (writing : Bool) (mem : List ℕ) (i : ℕ) (e : TranslationEntry)
    → misaligned v size ≡ false
    → find_entry m.tlb m.page_table m.page_table_size (v / page_size) ≡ done (found i e)
    → leb num_phys_pages e.physical_page ≡ false
    → leb (e.physical_page * page_size + v % page_size + size) memory_size ≡ true
    → translate (record (put_entry m i (touch e writing)) { main_memory = mem }) v size false
      ≡ done (
          translated
            (e.physical_page * page_size + v % page_size)
            (record (put_entry m i (touch e writing)) { main_memory = mem }))
unfolding translate put_entry access touch
translate-put_entry m v size writing mem i e a f small holds =
    let f' = find_entry-put_in m.tlb m.page_table m.page_table_size (v / page_size) i e writing f in
    let open_to_reads = and_false e.read_only in
    let same_tlb = put_in-put_in m.tlb i (touch e writing) (touch e writing) in
    let same_table = put_in-put_in m.page_table i (touch e writing) (touch e writing) in
    rw (a, f', open_to_reads, small, holds, same_tlb, same_table)

-- After a granted access, whatever the memory has become, a read of the same address is granted
-- at the same place and changes no bit of the table.
pub translate-translate :
    (m : Machine) (v size : ℕ) (writing : Bool) (p : ℕ) (m' : Machine) (mem : List ℕ)
    → translate m v size writing ≡ done (translated p m')
    → translate (record m' { main_memory = mem }) v size false
      ≡ done (translated p (record m' { main_memory = mem }))
translate-translate m v size writing p m' mem h =
    let (i, e, (a, f, small, holds, ep, em)) = translate-Succeeded m v size writing p m' h in
    subst
      (λ n.
        translate (record n { main_memory = mem }) v size false
        ≡ done (translated p (record n { main_memory = mem })))
      (sym em)
      (subst
        (λ q.
          translate (record (put_entry m i (touch e writing)) { main_memory = mem }) v size false
          ≡ done (translated q (record (put_entry m i (touch e writing)) { main_memory = mem })))
        (sym ep) (translate-put_entry m v size writing mem i e a f small holds))
