-- ===== src/FileSys/Header/Release.antt =====
-- What `Deallocate` gives back to the map of free sectors.
use nachos.Base.{
  ℕ, suc, ◌+◌, ◌≤◌, ◌<◌, ◌≡◌, refl, sym, ap, ◌∙◌, true, false, List, [], ◌∷◌, arith, done, ◌==◌,
  if◌then◌else◌, get_or, length, lt→ltb, Bool-cases, inl, inr, elem, Distinct, All, All-elem, take,
  drop, drop-cons, length-take, subst,
}
use nachos.Bitmap.{Bitmap, num_clear}
use nachos.Bitmap.Bit.{
  IsValid, is_set, cleared, cleared-IsValid, is_set-cleared, test_lem, clear_lem,
}
use nachos.Bitmap.Alloc.{clear_count, num_clear_lem, clear_count-cleared}
use nachos.FileSys.Header.{Header, deallocate_from, deallocate, allocate}
use nachos.FileSys.Header.Allocation.{Takes, sectors, allocate-Succeeded}

abbrev pub IsUsed : Bitmap → ℕ → Type 0
IsUsed m s = (s < m.num_bits) × (is_set m s ≡ true)

-- `m'` is `m` with exactly the sectors of `ss` free again.
pub record Gives (m m' : Bitmap) (ss : List ℕ) : Type 0 where
  pub valid : IsValid m'
  pub size : m'.num_bits ≡ m.num_bits
  pub now : (j : ℕ) → is_set m' j ≡ (if elem j ss then false else is_set m j)
  pub count : clear_count m' m'.num_bits ≡ clear_count m m.num_bits + length ss

Gives-nil : {m : Bitmap} → IsValid m → Gives m m []
Gives-nil v = record { valid = v; size = refl; now = λ j. refl; count = omega arith }

Gives-cons :
    {m m' : Bitmap} (s : ℕ) (ss : List ℕ)
    → IsValid m
    → IsUsed m s
    → Gives (cleared m s) m' ss
    → Gives m m' (s ∷ ss)
Gives-cons {m} {m'} s ss v (lt, used) g = record {
  valid = g.valid;
  size = g.size;
  now = λ j. ground (arith, g.now j, is_set-cleared s j v lt);
  count = omega (arith, g.count, clear_count-cleared m.num_bits s v lt lt used);
}

-- Sectors other than `s` are still used once `s` is free.
All-IsUsed :
    {m : Bitmap} (s : ℕ) (ss : List ℕ)
    → IsValid m
    → s < m.num_bits
    → elem s ss ≡ false
    → All (IsUsed m) ss
    → All (IsUsed (cleared m s)) ss
All-IsUsed s [] v lt d u = tt
All-IsUsed {m} s (x ∷ xs) v lt d u =
    let apart : (s == x) ≡ false = ground arith in
    ((u.0.0, is_set-cleared s x v lt ∙ rw apart u.0.1), All-IsUsed s xs v lt (ground arith) u.1)

deallocate_from-Gives :
    (ss : List ℕ) (i : ℕ) (h : Header) {m : Bitmap}
    → IsValid m
    → i + length ss ≤ length h.data_sectors
    → take (length ss) (drop i h.data_sectors) ≡ ss
    → Distinct ss
    → All (IsUsed m) ss
    → (m' : Bitmap) × (deallocate_from (length ss) i h m ≡ done m') × Gives m m' ss
unfolding deallocate_from
deallocate_from-Gives [] i h {m} v r e d u = (m, refl, Gives-nil v)
deallocate_from-Gives (s ∷ ss) i h {m} v r e d u =
    let split = drop-cons h.data_sectors i 0 (omega arith) in
    let e' : get_or h.data_sectors i 0 ∷ take (length ss) (drop (suc i) h.data_sectors) ≡ s ∷ ss =
      rw split at e in
    let head : get_or h.data_sectors i 0 ≡ s = cc in
    let p : i + 1 ≡ suc i = omega arith in
    let tail : take (length ss) (drop (i + 1) h.data_sectors) ≡ ss = rw p (cc) in
    let (m', q, g) =
      deallocate_from-Gives ss (i + 1) h (cleared-IsValid s v) (omega arith) tail d.1
        (All-IsUsed s ss v u.0.0 d.0 u.1) in
    (
      m',
      rw
          (
            lt→ltb i (length h.data_sectors) (omega arith),
            head,
            test_lem m s u.0.0,
            u.0.1,
            clear_lem s v u.0.0,
          )
          q,
      Gives-cons s ss v u.0 g,
    )

-- `Deallocate` frees exactly the sectors of the file when they are distinct and marked, and passes
-- all of its assertions.
pub deallocate_lem :
    (h : Header) {m : Bitmap}
    → IsValid m
    → h.num_sectors ≤ length h.data_sectors
    → Distinct (sectors h)
    → All (IsUsed m) (sectors h)
    → (m' : Bitmap) × (deallocate h m ≡ done m') × Gives m m' (sectors h)
unfolding deallocate
deallocate_lem h {m} v r d u =
    let n : length (sectors h) ≡ h.num_sectors =
      length-take h.num_sectors h.data_sectors ∙ omega arith in
    subst (λ k. (m' : Bitmap) × (deallocate_from k 0 h m ≡ done m') × Gives m m' (sectors h)) n
      (deallocate_from-Gives (sectors h) 0 h v (omega arith) (rw n) d u)

All-IsUsed_of_Takes : (m m' : Bitmap) (ss : List ℕ) → Takes m m' ss → All (IsUsed m') ss
All-IsUsed_of_Takes m m' ss t = go ss (λ j e. t.now j ∙ rw e) t.were_free
  where
    go :
        (xs : List ℕ)
        → ((j : ℕ) → elem j xs ≡ true → is_set m' j ≡ true)
        → All (λ s. (s < m.num_bits) × (is_set m s ≡ false)) xs
        → All (IsUsed m') xs
    go [] f a = tt
    go (x ∷ xs) f a =
        ((omega (arith, t.size), f x (ground arith)), go xs (λ j e. f j (ground (arith, e))) a.1)

-- A file's sectors that `Allocate` took are free again after `Deallocate`: the map is as it was
-- before in every bit, and `NumClear` returns what it returned.
pub deallocate-allocate :
    (h : Header) (m : Bitmap) (size : ℕ) {h' : Header} {m' : Bitmap}
    → IsValid m
    → allocate h m size ≡ done (true, h', m')
    → (m'' : Bitmap) × (deallocate h' m' ≡ done m'')
      × (num_clear m'' ≡ num_clear m)
      × ((j : ℕ) → is_set m'' j ≡ is_set m j)
deallocate-allocate h m size {h'} {m'} v e =
    let s = allocate-Succeeded v e in
    let t = s.takes in
    let r : h'.num_sectors ≤ length h'.data_sectors =
      omega (arith, s.blocks_used, s.array, s.room) in
    let (m'', p, g) =
      deallocate_lem h' t.valid r t.distinct (All-IsUsed_of_Takes m m' (sectors h') t) in
    (
      m'',
      p,
      num_clear_lem m'' ∙ ap done (omega (arith, g.count, t.count)) ∙ sym (num_clear_lem m),
      λ j. restored m m' m'' (sectors h') t g j,
    )
  where
    restored :
        (m m' m'' : Bitmap) (ss : List ℕ)
        → Takes m m' ss
        → Gives m' m'' ss
        → (j : ℕ) → is_set m'' j ≡ is_set m j
    restored m m' m'' ss t g j = elim (Bool-cases (elem j ss)) [
      | inl taken ↦
          let was =
            All-elem (λ s. (s < m.num_bits) × (is_set m s ≡ false)) j ss t.were_free taken in
          g.now j ∙ rw taken (sym was.1)
      | inr other ↦ g.now j ∙ rw other (t.now j ∙ rw other)
    ]
