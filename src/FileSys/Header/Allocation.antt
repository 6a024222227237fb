-- ===== src/FileSys/Header/Allocation.antt =====
-- What `Allocate` takes from the map of free sectors, and what `Deallocate` gives back.
use nachos.Base.{
  ℕ, zero, suc, ◌+◌, ◌≤◌, ◌<◌, ◌≡◌, refl, ap, ◌∙◌, Bool, true, false, List, [], ◌∷◌, arith, Outcome,
  done, aborted, ltb, if◌then◌else◌, set, length, length-set, lt→ltb, ltb→lt, Bool-cases, inl, inr,
  elem, Distinct, All, All-map_fun, elem-none, fill, take, subst, take-fill, length-fill, ◌⊎◌,
}
use nachos.Bitmap.{Bitmap, div_round_up}
use nachos.Bitmap.Bit.{IsValid, is_set, marked, marked-IsValid, is_set-marked}
use nachos.Bitmap.Alloc.{
  clear_count, num_clear_lem, find_and_set_lem, clear_count-full, clear_count-marked,
}
use nachos.FileSys.Header.{Header, allocate_from, allocate}

abbrev pub IsFree : Bitmap → ℕ → Type 0
IsFree m s = (s < m.num_bits) × (is_set m s ≡ false)

-- `m'` is `m` with exactly the sectors of `ss` taken, all of which were free and distinct.
pub record Takes (m m' : Bitmap) (ss : List ℕ) : Type 0 where
  pub valid : IsValid m'
  pub size : m'.num_bits ≡ m.num_bits
  pub distinct : Distinct ss
  pub were_free : All (IsFree m) ss
  pub now : (j : ℕ) → is_set m' j ≡ (if elem j ss then true else is_set m j)
  pub count : clear_count m' m'.num_bits + length ss ≡ clear_count m m.num_bits

Takes-nil : {m : Bitmap} → IsValid m → Takes m m []
Takes-nil v = record {
  valid = v;
  size = refl;
  distinct = tt;
  were_free = tt;
  now = λ j. refl;
  count = omega arith;
}

Takes-cons :
    {m m' : Bitmap} (s : ℕ) (ss : List ℕ)
    → IsValid m
    → IsFree m s
    → Takes (marked m s) m' ss
    → Takes m m' (s ∷ ss)
Takes-cons {m} {m'} s ss v (lt, free) t = record {
  valid = t.valid;
  size = t.size;
  distinct = (elem-none (IsFree (marked m s)) s ss taken t.were_free, t.distinct);
  were_free = ((lt, free), All-map_fun (IsFree (marked m s)) (IsFree m) ss was_free t.were_free);
  now = λ j. ground (arith, t.now j, is_set-marked s j v lt);
  count = omega (arith, t.count, clear_count-marked m.num_bits s v lt lt free);
}
  where
    taken : IsFree (marked m s) s → ⊥
    taken f = ground (arith, is_set-marked s s v lt)

    was_free : (j : ℕ) → IsFree (marked m s) j → IsFree m j
    was_free j f = (f.0, ground (arith, is_set-marked s j v lt))

-- The loop takes a sector a round, as long as it stays inside `dataSectors`.
pub allocate_from-Takes :
    (n i : ℕ) (h : Header) {m : Bitmap}
    → IsValid m
    → n ≤ clear_count m m.num_bits
    → i + n ≤ length h.data_sectors
    → (ss : List ℕ) × (m' : Bitmap) × (allocate_from n i h m
        ≡ done (record h { data_sectors = fill h.data_sectors i ss }, m'))
      × (length ss ≡ n)
      × Takes m m' ss
unfolding allocate_from
allocate_from-Takes zero i h {m} v c r = ([], m, refl, refl, Takes-nil v)
allocate_from-Takes (suc n) i h {m} v c r = elim (find_and_set_lem v) [
  | inr (full, e) ↦ absurd (omega (arith, clear_count-full m m.num_bits full))
  | inl (s, lt, full, free, e) ↦
      let h' : Header = record h { data_sectors = set h.data_sectors i s } in
      let less = clear_count-marked m.num_bits s v lt lt free in
      let (ss, m', p, q, t) =
        allocate_from-Takes n (i + 1) h' (marked-IsValid s v) (omega (arith, less))
          (omega (arith, length-set h.data_sectors i s)) in
      (
        s ∷ ss,
        m',
        rw (e, lt→ltb i (length h.data_sectors) (omega arith)) p,
        ap suc q,
        Takes-cons s ss v (lt, free) t,
      )
]

-- The sectors of the file's blocks.
abbrev pub sectors : Header → List ℕ
sectors h = take h.num_sectors h.data_sectors

allocate_from-overrun :
    (n i : ℕ) (h : Header) {m : Bitmap}
    → IsValid m
    → n ≤ clear_count m m.num_bits
    → i ≤ length h.data_sectors
    → length h.data_sectors < i + n
    → allocate_from n i h m ≡ aborted
unfolding allocate_from
allocate_from-overrun zero i h {m} v c r o = absurd (omega arith)
allocate_from-overrun (suc n) i h {m} v c r o = elim (find_and_set_lem v) [
  | inr (full, e) ↦ absurd (omega (arith, clear_count-full m m.num_bits full))
  | inl (s, lt, full, free, e) ↦ elim (Bool-cases (ltb i (length h.data_sectors))) [
    | inr outside ↦ rw (e, outside)
    | inl inside ↦
        let h' : Header = record h { data_sectors = set h.data_sectors i s } in
        let less = clear_count-marked m.num_bits s v lt lt free in
        let same = length-set h.data_sectors i s in
        let below = ltb→lt i (length h.data_sectors) inside in
        rw (e, inside)
          (allocate_from-overrun n (i + 1) h' (marked-IsValid s v) (omega (arith, less))
            (omega arith) (omega arith))
  ]
]

abbrev pub blocks : ℕ → ℕ
blocks file_size = div_round_up file_size 128

-- The answers of `Allocate`.
abbrev pub Allocated : Header → Bitmap → ℕ → Outcome (Bool × Header × Bitmap) → Type 0
Allocated h m size r =
    ((clear_count m m.num_bits < blocks size)
      × (r ≡ done (false, record h { num_bytes = size; num_sectors = blocks size }, m)))
    ⊎ ((h' : Header) × (m' : Bitmap) × (r ≡ done (true, h', m'))
        × (blocks size ≤ length h.data_sectors)
        × (h'.num_bytes ≡ size)
        × (h'.num_sectors ≡ blocks size)
        × (length h'.data_sectors ≡ length h.data_sectors)
        × (length (sectors h') ≡ blocks size)
        × Takes m m' (sectors h'))
    ⊎ ((blocks size ≤ clear_count m m.num_bits)
        × (length h.data_sectors < blocks size)
        × (r ≡ aborted))

abbrev started : Header → ℕ → Header
started h size = record h { num_bytes = size; num_sectors = blocks size }

-- The answer after a complete loop.
allocate-Allocated :
    (h : Header) {m m' : Bitmap} (size : ℕ) (ss : List ℕ)
    → ltb (clear_count m m.num_bits) (blocks size) ≡ false
    → blocks size ≤ length h.data_sectors
    → allocate_from (blocks size) 0 (started h size) m
      ≡ done (record (started h size) { data_sectors = fill h.data_sectors 0 ss }, m')
    → length ss ≡ blocks size
    → Takes m m' ss
    → Allocated h m size (allocate h m size)
unfolding allocate
allocate-Allocated h {m} {m'} size ss enough room p q t = inr (
    inl (
      record (started h size) { data_sectors = fill h.data_sectors 0 ss },
      m',
      rw (num_clear_lem m, enough, p),
      room,
      refl,
      refl,
      length-fill h.data_sectors 0 ss,
      ap length same ∙ q,
      rw same t,
    ))
  where
    same : take (blocks size) (fill h.data_sectors 0 ss) ≡ ss
    same = rw (← q) (take-fill h.data_sectors ss (omega arith))

-- `Allocate` refuses and takes nothing when fewer sectors are free than the file needs. Otherwise
-- it takes exactly that many distinct free sectors and puts them into the header, if the header's
-- array has room for them. If it has not, the loop runs past the end of `dataSectors`.
pub allocate_lem :
    (h : Header) {m : Bitmap} (size : ℕ) → IsValid m → Allocated h m size (allocate h m size)
unfolding allocate
allocate_lem h {m} size v = elim (Bool-cases (ltb (clear_count m m.num_bits) (blocks size))) [
  | inl short ↦ inl (ltb→lt _ _ short, rw (num_clear_lem m, short))
  | inr enough ↦
      let c : blocks size ≤ clear_count m m.num_bits = ground arith in
      elim (Bool-cases (ltb (length h.data_sectors) (blocks size))) [
        | inl long ↦
            let o = ltb→lt (length h.data_sectors) (blocks size) long in
            let run =
              allocate_from-overrun (blocks size) 0 (started h size) v c (omega arith)
                (omega arith) in
            inr (inr (c, o, rw (num_clear_lem m, enough, run)))
        | inr fits ↦
            let room : blocks size ≤ length h.data_sectors = ground arith in
            let (ss, m', p, q, t) =
              allocate_from-Takes (blocks size) 0 (started h size) v c (omega arith) in
            allocate-Allocated h size ss enough room p q t
      ]
]

-- What a successful call has done.
pub record Succeeded (h : Header) (m : Bitmap) (size : ℕ) (h' : Header) (m' : Bitmap) : Type 0 where
  pub room : blocks size ≤ length h.data_sectors
  pub bytes : h'.num_bytes ≡ size
  pub blocks_used : h'.num_sectors ≡ blocks size
  pub array : length h'.data_sectors ≡ length h.data_sectors
  pub as_many : length (sectors h') ≡ blocks size
  pub takes : Takes m m' (sectors h')

pub allocate-Succeeded :
    {h : Header} {m : Bitmap} {size : ℕ} {h' : Header} {m' : Bitmap}
    → IsValid m
    → allocate h m size ≡ done (true, h', m')
    → Succeeded h m size h' m'
allocate-Succeeded {h} {m} {size} {h'} {m'} v e = go (allocate_lem h size v)
  where
    go : Allocated h m size (allocate h m size) → Succeeded h m size h' m'
    go (inl (c, r)) = absurd (cc)
    go (inr (inr (c, o, r))) = absurd (cc)
    go (inr (inl (k, n, r, room, bytes, used, array, many, takes))) =
        let eh : k ≡ h' = cc in
        let em : n ≡ m' = cc in
        subst (λ x. Succeeded h m size x m') eh
          (subst (λ y. Succeeded h m size k y) em
            (record {
              room = room;
              bytes = bytes;
              blocks_used = used;
              array = array;
              as_many = many;
              takes = takes;
            }))
