-- ===== src/Machine/Translate/Search.antt =====
-- The search of the TLB in Translate of code/machine/translate.cc, before and after a write to the
-- entry that it found.
use nachos.Base.{
  ℕ, zero, suc, ◌+◌, ◌<◌, ◌≤◌, ◌≡◌, refl, sym, ap, ◌∙◌, inl, inr, true, ◌&&◌, List, [], ◌∷◌, none,
  some, done, aborted, ◌==◌, if◌then◌else◌, get_elem?, set, length, arith, Bool-cases, Option-cases,
  get_elem?-set_self, get_elem?-set_ne, subst,
}
use nachos.Machine.{TranslationEntry}
use nachos.Machine.Translate.{found, find_in_tlb}

pub get_elem?-some_lt :
    (t : List TranslationEntry) (i : ℕ) {e : TranslationEntry}
    → get_elem? t i ≡ some e
    → i < length t
get_elem?-some_lt [] i h = absurd (cc)
get_elem?-some_lt (x ∷ t) zero h = omega arith
get_elem?-some_lt (x ∷ t) (suc i) h = omega (arith, get_elem?-some_lt t i h)

pub set-set :
    (t : List TranslationEntry) (i : ℕ) (a b : TranslationEntry) → set (set t i a) i b ≡ set t i b
set-set [] i a b = refl
set-set (x ∷ t) zero a b = refl
set-set (x ∷ t) (suc i) a b = ap (λ u. x ∷ u) (set-set t i a b)

-- One round of the search of the TLB.
find_in_tlb-suc :
    (rounds : ℕ) (t : List TranslationEntry) (vpn i : ℕ) (e : TranslationEntry)
    → get_elem? t i ≡ some e
    → find_in_tlb (suc rounds) t vpn i ≡ (
        if e.valid && e.virtual_page == vpn
        then done (found i e)
        else find_in_tlb rounds t vpn (i + 1))
unfolding find_in_tlb
find_in_tlb-suc rounds t vpn i e at = rw (at, find_in_tlb)

find_in_tlb-none :
    (rounds : ℕ) (t : List TranslationEntry) (vpn i : ℕ)
    → get_elem? t i ≡ none
    → find_in_tlb (suc rounds) t vpn i ≡ aborted
unfolding find_in_tlb
find_in_tlb-none rounds t vpn i at = rw (at, find_in_tlb)

find_in_tlb-zero :
    (t : List TranslationEntry) (vpn i j : ℕ) (e : TranslationEntry)
    → find_in_tlb 0 t vpn j ≡ done (found i e)
    → ⊥
unfolding find_in_tlb
find_in_tlb-zero t vpn i j e h = cc

find_in_tlb-found :
    (rounds : ℕ) (t : List TranslationEntry) (vpn i j : ℕ) (e : TranslationEntry)
    → find_in_tlb rounds t vpn j ≡ done (found i e)
    → j ≤ i × (get_elem? t i ≡ some e)
find_in_tlb-found zero t vpn i j e h = absurd (find_in_tlb-zero t vpn i j e h)
find_in_tlb-found (suc rounds) t vpn i j e h = elim (Option-cases (get_elem? t j)) [
  | inl gone ↦ let stop = find_in_tlb-none rounds t vpn j gone in absurd (cc)
  | inr (x, at) ↦
      let step = find_in_tlb-suc rounds t vpn j x at in
      elim (Bool-cases (x.valid && x.virtual_page == vpn)) [
        | inl hit ↦
            let run : done (found j x) ≡ done (found i e) = sym (step ∙ rw hit refl) ∙ h in
            let same : j ≡ i = cc in (omega arith, cc)
        | inr miss ↦
            let run : find_in_tlb rounds t vpn (j + 1) ≡ done (found i e) =
              sym (step ∙ rw miss refl) ∙ h in
            let (lo, here) = find_in_tlb-found rounds t vpn i (j + 1) e run in (omega arith, here)
      ]
]

pub find_in_tlb-set :
    (rounds : ℕ) (t : List TranslationEntry) (vpn i j : ℕ) (e e' : TranslationEntry)
    → find_in_tlb rounds t vpn j ≡ done (found i e)
    → (e'.valid && e'.virtual_page == vpn) ≡ (e.valid && e.virtual_page == vpn)
    → find_in_tlb rounds (set t i e') vpn j ≡ done (found i e')
find_in_tlb-set zero t vpn i j e e' h k = absurd (find_in_tlb-zero t vpn i j e h)
find_in_tlb-set (suc rounds) t vpn i j e e' h k = elim (Option-cases (get_elem? t j)) [
  | inl gone ↦ let stop = find_in_tlb-none rounds t vpn j gone in absurd (cc)
  | inr (x, at) ↦
      let step = find_in_tlb-suc rounds t vpn j x at in
      elim (Bool-cases (x.valid && x.virtual_page == vpn)) [
        | inl hit ↦
            let run : done (found j x) ≡ done (found i e) = sym (step ∙ rw hit refl) ∙ h in
            let same : j ≡ i = cc in
            let old : x ≡ e = cc in
            let here = get_elem?-set_self t j e' (get_elem?-some_lt t j at) in
            let good : (e'.valid && e'.virtual_page == vpn) ≡ true =
              k ∙ ap (λ y. y.valid && y.virtual_page == vpn) (sym old) ∙ hit in
            subst (λ n. find_in_tlb (suc rounds) (set t n e') vpn j ≡ done (found n e')) same
              (find_in_tlb-suc rounds (set t j e') vpn j e' here ∙ rw good refl)
        | inr miss ↦
            let run : find_in_tlb rounds t vpn (j + 1) ≡ done (found i e) =
              sym (step ∙ rw miss refl) ∙ h in
            let (lo, here) = find_in_tlb-found rounds t vpn i (j + 1) e run in
            let apart : i ≡ j → ⊥ = λ q. absurd (omega arith) in
            find_in_tlb-suc rounds (set t i e') vpn j x (get_elem?-set_ne t e' apart ∙ at)
            ∙ (rw miss (find_in_tlb-set rounds t vpn i (j + 1) e e' run k))
      ]
]
