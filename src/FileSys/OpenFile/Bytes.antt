-- ===== src/FileSys/OpenFile/Bytes.antt =====
-- A file as a sequence of bytes, and what the loops over its sectors do to a buffer and to the disk.
use nachos.Base.{
  ℕ, zero, suc, ◌+◌, ◌-◌, ◌*◌, ◌/◌, ◌%◌, ◌≤◌, ◌<◌, ◌≡◌, refl, ap₂, ◌∙◌, true, List, [], arith, done,
  lt→ltb, if◌then◌else◌, get_or, length, fill, All, All-get_or, Distinct, Bool-cases, inl, inr,
  within, length-fill, get_or-fill, get_or-take, All-get_or_lt,
}
use nachos.FileSys.Header.{Header, byte_to_sector}
use nachos.FileSys.Header.Allocation.{sectors}
use nachos.FileSys.SynchDisk.{Image, IsImage, read_sector}
use nachos.FileSys.OpenFile.{read_sectors}

-- The sector of block `i`.
abbrev pub block : Header → ℕ → ℕ
block hdr i = get_or hdr.data_sectors i 0

-- The byte at offset `p` of the file.
abbrev pub byte_at : Header → Image → ℕ → ℕ
byte_at hdr img p = get_or (get_or img (block hdr (p / 128)) []) (p % 128) 0

-- A header whose blocks are distinct sectors of the disk.
pub record IsFile (hdr : Header) : Type 0 where
  pub array : length hdr.data_sectors ≡ 30
  pub room : hdr.num_sectors ≤ length hdr.data_sectors
  pub covers : hdr.num_bytes ≤ hdr.num_sectors * 128
  pub located : All (λ s. s < 1024) (sectors hdr)
  pub distinct : Distinct (sectors hdr)

module _ {hdr : Header} {img : Image} (file : IsFile hdr) (disk : IsImage img) where
  pub block-lt : (i : ℕ) → i < hdr.num_sectors → block hdr i < 1024
  block-lt i h =
      rw (get_or-take hdr.num_sectors hdr.data_sectors i 0 h) at
        (All-get_or (λ s. s < 1024) (sectors hdr) i 0 (omega arith) file.located)

  pub length-block : (i : ℕ) → i < hdr.num_sectors → length (get_or img (block hdr i) []) ≡ 128
  length-block i h =
      let lt = block-lt i h in
      let whole = disk.whole in
      All-get_or_lt (λ s. length s ≡ 128) img (block hdr i) [] (omega arith) disk.even

  pub byte_to_sector_lem :
      (i : ℕ) → i < hdr.num_sectors → byte_to_sector hdr (i * 128) ≡ done (block hdr i)
  unfolding byte_to_sector
  byte_to_sector_lem i h =
      let room = file.room in
      let e : i * 128 / 128 ≡ i = omega arith in
      rw (e, lt→ltb i (length hdr.data_sectors) (omega arith))

  pub read_block :
      (i : ℕ)
      → i < hdr.num_sectors
      → read_sector img (block hdr i) ≡ done (get_or img (block hdr i) [])
  unfolding read_sector
  read_block i h = rw (lt→ltb (block hdr i) 1024 (block-lt i h))

-- The byte at offset `first * 128 + j` lies in block `first + t` if `j` lies in the range of that
-- block.
byte_in_block :
    (hdr : Header) (img : Image) (first t j : ℕ)
    → within (t * 128) (t * 128 + 128) j ≡ true
    → get_or (get_or img (block hdr (first + t)) []) (j - t * 128) 0
      ≡ byte_at hdr img (first * 128 + j)
byte_in_block hdr img first t j h =
    let lo : t * 128 ≤ j = ground arith in
    let hi : j < t * 128 + 128 = ground arith in
    let e : first + t ≡ (first * 128 + j) / 128 = omega arith in
    let r : j - t * 128 ≡ (first * 128 + j) % 128 = omega arith in
    ap₂ (λ i k. get_or (get_or img (block hdr i) []) k 0) e r

-- What the loop of reads does to its buffer: the blocks' bytes replace its own.
abbrev pub HasRead : Header → Image → ℕ → ℕ → ℕ → List ℕ → List ℕ → Type 0
HasRead hdr img first t n buf buf' =
    (length buf' ≡ length buf)
    × ((j : ℕ)
        → get_or buf' j 0 ≡ (
            if within (t * 128) ((t + n) * 128) j
            then byte_at hdr img (first * 128 + j)
            else get_or buf j 0))

-- One round of the loop, then the others.
HasRead-suc :
    (hdr : Header) (img : Image) (first t n : ℕ) (content buf buf' : List ℕ)
    → length content ≡ 128
    → t * 128 + 128 ≤ length buf
    → content ≡ get_or img (block hdr (first + t)) []
    → HasRead hdr img first (t + 1) n (fill buf (t * 128) content) buf'
    → HasRead hdr img first t (suc n) buf buf'
HasRead-suc hdr img first t n content buf buf' hc hb e (len, later) =
    (len ∙ length-fill buf (t * 128) content, at)
  where
    here :
        (j : ℕ)
        → get_or (fill buf (t * 128) content) j 0 ≡ (
            if within (t * 128) (t * 128 + 128) j
            then byte_at hdr img (first * 128 + j)
            else get_or buf j 0)
    here j = elim (Bool-cases (within (t * 128) (t * 128 + 128) j)) [
      | inl inside ↦
          get_or-fill buf (t * 128) content j 0 (omega arith)
          ∙ rw (hc, inside, e) (byte_in_block hdr img first t j inside)
      | inr outside ↦ get_or-fill buf (t * 128) content j 0 (omega arith) ∙ rw (hc, outside)
    ]

    at :
        (j : ℕ)
        → get_or buf' j 0 ≡ (
            if within (t * 128) ((t + suc n) * 128) j
            then byte_at hdr img (first * 128 + j)
            else get_or buf j 0)
    at j = ground (arith, later j, here j)

pub read_sectors-HasRead :
    {hdr : Header} {img : Image} (file : IsFile hdr) (disk : IsImage img) (n t first : ℕ)
    (buf : List ℕ)
    → first + t + n ≤ hdr.num_sectors
    → (t + n) * 128 ≤ length buf
    → (buf' : List ℕ) × (read_sectors n (first + t) first hdr img buf ≡ done buf')
      × HasRead hdr img first t n buf buf'
unfolding read_sectors
read_sectors-HasRead file disk zero t first buf hs hb = (buf, refl, (refl, λ j. ground arith))
read_sectors-HasRead {hdr} {img} file disk (suc n) t first buf hs hb =
    let content = get_or img (block hdr (first + t)) [] in
    let at = t * 128 in
    let full = length-block file disk (first + t) (omega arith) in
    let (buf', p, r) =
      read_sectors-HasRead file disk n (t + 1) first (fill buf at content) (omega arith)
        (omega (arith, length-fill buf at content)) in
    let here : first + t - first ≡ t = omega arith in
    let next : first + t + 1 ≡ first + (t + 1) = omega arith in
    (
      buf',
      rw
          (
            byte_to_sector_lem file disk (first + t) (omega arith),
            read_block file disk (first + t) (omega arith),
            here,
            next,
          )
          p,
      HasRead-suc hdr img first t n content buf buf' full (omega arith) refl r,
    )
