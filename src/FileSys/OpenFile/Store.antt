-- ===== src/FileSys/OpenFile/Store.antt =====
-- What the loop of `WriteAt` over the sectors does to the disk.
use nachos.Base.{
  ℕ, zero, suc, ◌+◌, ◌-◌, ◌*◌, ◌/◌, ◌%◌, ◌≤◌, ◌<◌, ◌≡◌, ◌≢◌, refl, sym, ap, ◌∙◌, true, false, List,
  [], arith, done, ◌==◌, lt→ltb, if◌then◌else◌, get_or, get_or-set, set, length, length-set,
  length-take, length-drop, take, drop, All-set, Distinct-index, ◌⊎◌, elem, elem-get_or, Bool-cases,
  ==_iff, inl, inr, within, get_or-take, get_or-drop,
}
use nachos.FileSys.Header.{Header}
use nachos.FileSys.Header.Allocation.{sectors}
use nachos.FileSys.SynchDisk.{Image, IsImage, write_sector}
use nachos.FileSys.OpenFile.{write_sectors}
use nachos.FileSys.OpenFile.Bytes.{IsFile, byte_at, block, block-lt, byte_to_sector_lem}

pub length-sectors : {hdr : Header} → IsFile hdr → length (sectors hdr) ≡ hdr.num_sectors
length-sectors {hdr} file =
    let room = file.room in length-take hdr.num_sectors hdr.data_sectors ∙ omega arith

-- The blocks of a file lie in different sectors.
block_injective :
    {hdr : Header} (i j : ℕ)
    → IsFile hdr
    → i < hdr.num_sectors
    → j < hdr.num_sectors
    → block hdr i ≡ block hdr j
    → i ≡ j
block_injective {hdr} i j file hi hj e =
    Distinct-index (sectors hdr) i j 0 file.distinct (omega (arith, length-sectors file))
      (omega (arith, length-sectors file))
      (get_or-take hdr.num_sectors hdr.data_sectors i 0 hi
        ∙ e
        ∙ sym (get_or-take hdr.num_sectors hdr.data_sectors j 0 hj))

elem-block :
    {hdr : Header} (i : ℕ)
    → IsFile hdr
    → i < hdr.num_sectors
    → elem (block hdr i) (sectors hdr) ≡ true
elem-block {hdr} i file h =
    let e = get_or-take hdr.num_sectors hdr.data_sectors i 0 h in
    rw e at (elem-get_or (sectors hdr) i 0 (omega (arith, length-sectors file)))

-- What the loop of writes does: the buffer's bytes replace those of the blocks, and no other sector
-- changes.
pub record HasWritten (hdr : Header) (first t n : ℕ) (buf : List ℕ) (img img' : Image)
    : Type 0 where
  pub image : IsImage img'
  pub bytes :
      (p : ℕ)
      → p < hdr.num_sectors * 128
      → byte_at hdr img' p ≡ (
          if within ((first + t) * 128) ((first + t + n) * 128) p
          then get_or buf (p - first * 128) 0
          else byte_at hdr img p)
  pub others : (s : ℕ) → elem s (sectors hdr) ≡ false → get_or img' s [] ≡ get_or img s []

abbrev chunk : List ℕ → ℕ → List ℕ
chunk buf t = take 128 (drop (t * 128) buf)

-- One sector written.
byte_at-set :
    (hdr : Header) (img : Image) (first t p : ℕ) (buf : List ℕ)
    → IsFile hdr
    → IsImage img
    → first + t < hdr.num_sectors
    → p < hdr.num_sectors * 128
    → byte_at hdr (set img (block hdr (first + t)) (chunk buf t)) p
      ≡ (if p / 128 == first + t then get_or buf (p - first * 128) 0 else byte_at hdr img p)
byte_at-set hdr img first t p buf file disk h hp =
    let whole = disk.whole in
    let lt = block-lt file disk (first + t) h in
    ap (λ c. get_or c (p % 128) 0)
      (get_or-set img (block hdr (first + t)) (block hdr (p / 128)) (chunk buf t) [] (omega arith))
    ∙ by_block (Bool-cases (p / 128 == first + t))
  where
    by_block :
        ((p / 128 == first + t) ≡ true) ⊎ ((p / 128 == first + t) ≡ false)
        → get_or
            (if block hdr (first + t) == block hdr (p / 128)
              then chunk buf t
              else get_or img (block hdr (p / 128)) [])
            (p % 128)
            0
          ≡ (if p / 128 == first + t then get_or buf (p - first * 128) 0 else byte_at hdr img p)
    by_block (inl same) =
        let e : p / 128 ≡ first + t = (==_iff _ _).0 same in
        let r : t * 128 + p % 128 ≡ p - first * 128 = omega arith in
        let b : (block hdr (first + t) == block hdr (p / 128)) ≡ true =
          (==_iff _ _).1 (ap (block hdr) (sym e)) in
        rw (same, b)
          (get_or-take 128 (drop (t * 128) buf) (p % 128) 0 (omega arith)
            ∙ get_or-drop (t * 128) buf (p % 128) 0
            ∙ ap (λ k. get_or buf k 0) r)
    by_block (inr other) =
        let ne : block hdr (first + t) ≢ block hdr (p / 128) =
          λ e. ground (arith, block_injective (first + t) (p / 128) file h (omega arith) e) in
        let b : (block hdr (first + t) == block hdr (p / 128)) ≡ false = ground arith in
        rw (other, b)

HasWritten-suc :
    (hdr : Header) (first t n : ℕ) (buf : List ℕ) (img img' : Image)
    → IsFile hdr
    → IsImage img
    → first + t < hdr.num_sectors
    → HasWritten hdr first (t + 1) n buf (set img (block hdr (first + t)) (chunk buf t)) img'
    → HasWritten hdr first t (suc n) buf img img'
HasWritten-suc hdr first t n buf img img' file disk h w = record {
  image = w.image;
  bytes = λ p hp. ground (arith, w.bytes p hp, byte_at-set hdr img first t p buf file disk h hp);
  others = λ s out. w.others s out ∙ unchanged s out;
}
  where
    unchanged :
        (s : ℕ)
        → elem s (sectors hdr) ≡ false
        → get_or (set img (block hdr (first + t)) (chunk buf t)) s [] ≡ get_or img s []
    unchanged s out =
        let whole = disk.whole in
        let lt = block-lt file disk (first + t) h in
        let ne : block hdr (first + t) ≢ s =
          λ e. cc (ap (λ x. elem x (sectors hdr)) e, elem-block (first + t) file h) in
        let b : (block hdr (first + t) == s) ≡ false = ground arith in
        get_or-set img (block hdr (first + t)) s (chunk buf t) [] (omega arith) ∙ rw b

set-IsImage :
    {img : Image} (s : ℕ) (content : List ℕ)
    → IsImage img
    → length content ≡ 128
    → IsImage (set img s content)
set-IsImage {img} s content disk h = record {
  whole = length-set img s content ∙ disk.whole;
  even = All-set (λ x. length x ≡ 128) img s content h disk.even;
}

pub write_sectors-HasWritten :
    {hdr : Header} (n t first : ℕ) (buf : List ℕ) (img : Image)
    → IsFile hdr
    → IsImage img
    → first + t + n ≤ hdr.num_sectors
    → (t + n) * 128 ≤ length buf
    → (img' : Image) × (write_sectors n (first + t) first hdr buf img ≡ done img')
      × HasWritten hdr first t n buf img img'
unfolding write_sectors write_sector
write_sectors-HasWritten zero t first buf img file disk hs hb =
    (img, refl, record { image = disk; bytes = λ p hp. ground arith; others = λ s out. refl })
write_sectors-HasWritten {hdr} (suc n) t first buf img file disk hs hb =
    let lt = block-lt file disk (first + t) (omega arith) in
    let sized : length (chunk buf t) ≡ 128 =
      length-take 128 (drop (t * 128) buf) ∙ omega (arith, length-drop (t * 128) buf) in
    let img1 : Image = set img (block hdr (first + t)) (chunk buf t) in
    let (img', p, w) =
      write_sectors-HasWritten {hdr = hdr} n (t + 1) first buf img1 file
        (set-IsImage (block hdr (first + t)) (chunk buf t) disk sized) (omega arith)
        (omega arith) in
    let here : first + t - first ≡ t = omega arith in
    let next : first + t + 1 ≡ first + (t + 1) = omega arith in
    (
      img',
      rw
          (
            byte_to_sector_lem file disk (first + t) (omega arith),
            lt→ltb (block hdr (first + t)) 1024 lt,
            here,
            next,
          )
          p,
      HasWritten-suc hdr first t n buf img img' file disk (omega arith) w,
    )
