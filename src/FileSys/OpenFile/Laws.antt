-- ===== src/FileSys/OpenFile/Laws.antt =====
-- Reading, writing and reading again: the contract of an open file.
use nachos.Base.{
  ℕ, ◌+◌, ◌-◌, ◌/◌, ◌%◌, ◌^◌, ◌≤◌, ◌<◌, ◌≡◌, sym, ap, ◌∙◌, true, false, List, arith, done, get_or,
  get_or-fill, length, length-take, take, fill, All, All-get_or_lt, elem, within, get_or-take,
  eq_of_get_or, subst, ◌⊎◌,
}
use nachos.Base.Int.{ℤ, pos_part}
use nachos.FileSys.Header.{Header}
use nachos.FileSys.Header.Allocation.{sectors}
use nachos.FileSys.SynchDisk.{Image, IsImage}
use nachos.FileSys.OpenFile.{OpenFile, read_at, write_at}
use nachos.FileSys.OpenFile.Bytes.{IsFile, block}
use nachos.FileSys.OpenFile.Read.{amount, slice, length-slice, get_or-slice, read_at_lem}
use nachos.FileSys.OpenFile.Store.{length-sectors}
use nachos.FileSys.OpenFile.Write.{contents, get_or-contents, Changes, write_at-Changes}

-- `WriteAt` writes as many bytes as were asked for and fit before the end of the file, puts exactly
-- those bytes of its source at `position` of the file's contents, and keeps the shape of the disk.
-- What the fresh buffer held does not show.
pub write_at_lem :
    (junk : ℕ → ℕ) (f : OpenFile) (img : Image) (source : List ℕ) (num_bytes : ℤ) (position : ℕ)
    → IsFile f.hdr
    → IsImage img
    → position + pos_part num_bytes < 2 ^ 31
    → amount f.hdr num_bytes position ≤ length source
    → (img' : Image) × (write_at junk f img source num_bytes position
        ≡ done (amount f.hdr num_bytes position, img'))
      × IsImage img'
      × (contents f.hdr img'
          ≡ fill (contents f.hdr img) position (take (amount f.hdr num_bytes position) source))
write_at_lem junk f img source num_bytes position file disk h enough =
    let (img', p, c) = write_at-Changes junk f img source num_bytes position file disk h enough in
    (img', p, c.image, c.bytes)

-- The bytes of a slice come from the contents.
slice-contents :
    (hdr : Header) (img : Image) (source : List ℕ) (old : List ℕ) (p n : ℕ)
    → contents hdr img ≡ fill old p source
    → length old ≡ hdr.num_bytes
    → length source ≡ n
    → (n ≡ 0) ⊎ (p + n ≤ hdr.num_bytes)
    → slice hdr img p n ≡ source
slice-contents hdr img source old p n e len size fits =
    eq_of_get_or (slice hdr img p n) source 0 (length-slice hdr img p n ∙ sym size) λ j lt.
      let h : j < n = omega (arith, length-slice hdr img p n) in
      let inside : within p (p + length source) (p + j) ≡ true = ground arith in
      let k : p + j - p ≡ j = omega arith in
      get_or-slice hdr img p n j h
      ∙ sym (get_or-contents hdr img (p + j) (omega arith))
      ∙ ap (λ xs. get_or xs (p + j) 0) e
      ∙ get_or-fill old p source (p + j) 0 (omega arith)
      ∙ rw (inside, k)

-- Reading back what was written returns it.
pub read_at-write_at :
    (junk junk' : ℕ → ℕ) (f : OpenFile) (img : Image) (source : List ℕ) (num_bytes : ℤ)
    (position : ℕ) {n : ℕ} {img' : Image}
    → IsFile f.hdr
    → IsImage img
    → position + pos_part num_bytes < 2 ^ 31
    → amount f.hdr num_bytes position ≤ length source
    → write_at junk f img source num_bytes position ≡ done (n, img')
    → read_at junk' f img' num_bytes position ≡ done (take n source)
read_at-write_at junk junk' f img source num_bytes position {n} {img'} file disk h enough e =
    let (img1, p, c) = write_at-Changes junk f img source num_bytes position file disk h enough in
    let same_n : amount f.hdr num_bytes position ≡ n = cc in
    let same_img : img1 ≡ img' = cc in
    subst (λ k. read_at junk' f img' num_bytes position ≡ done (take k source)) same_n
      (subst
        (λ i.
          read_at junk' f i num_bytes position
          ≡ done (take (amount f.hdr num_bytes position) source))
        same_img
        (read_at_lem junk' f img1 num_bytes position file c.image h ∙ ap done (read_back img1 c)))
  where
    m : ℕ
    m = amount f.hdr num_bytes position

    size : length (take m source) ≡ m
    size = length-take m source ∙ omega arith

    read_back :
        (img1 : Image)
        → Changes f.hdr m position source img img1
        → slice f.hdr img1 position m ≡ take m source
    read_back img1 c =
        slice-contents f.hdr img1 (take m source) (contents f.hdr img) position m c.bytes
          (length-slice f.hdr img 0 f.hdr.num_bytes) size (ground arith)

-- A file that shares no sector with the one written keeps its contents.
pub write_at-contents_other :
    (junk : ℕ → ℕ) (f : OpenFile) (img : Image) (source : List ℕ) (num_bytes : ℤ) (position : ℕ)
    (other : Header) {n : ℕ} {img' : Image}
    → IsFile f.hdr
    → IsFile other
    → IsImage img
    → position + pos_part num_bytes < 2 ^ 31
    → amount f.hdr num_bytes position ≤ length source
    → All (λ s. elem s (sectors f.hdr) ≡ false) (sectors other)
    → write_at junk f img source num_bytes position ≡ done (n, img')
    → contents other img' ≡ contents other img
write_at-contents_other junk f img source num_bytes position other {n} {img'} file file2 disk h
      enough apart e =
    let (img1, p, c) = write_at-Changes junk f img source num_bytes position file disk h enough in
    let same_img : img1 ≡ img' = cc in
    subst (λ i. contents other i ≡ contents other img) same_img
      (eq_of_get_or (contents other img1) (contents other img) 0
        (length-slice other img1 0 other.num_bytes ∙ sym (length-slice other img 0 other.num_bytes))
        λ j lt.
          let lj : j < other.num_bytes = omega (arith, length-slice other img1 0 other.num_bytes) in
          let covers = file2.covers in
          let free =
            All-get_or_lt (λ s. elem s (sectors f.hdr) ≡ false) (sectors other) (j / 128) 0
              (omega (arith, length-sectors file2)) apart in
          let b = get_or-take other.num_sectors other.data_sectors (j / 128) 0 (omega arith) in
          get_or-contents other img1 j lj
          ∙ ap (λ s. get_or s (j % 128) 0) (c.others (block other (j / 128)) (rw b at free))
          ∙ sym (get_or-contents other img j lj))
