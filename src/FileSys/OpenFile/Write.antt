-- ===== src/FileSys/OpenFile/Write.antt =====
-- `WriteAt` replaces the bytes of the file that were named, and changes nothing else on the disk.
use nachos.Base.{
  ℕ, ◌+◌, ◌-◌, ◌*◌, ◌/◌, ◌^◌, ◌≤◌, ◌<◌, ◌≡◌, ◌⊎◌, refl, sym, ap, ◌∙◌, true, false, List, [], arith,
  done, ◌==◌, if◌then◌else◌, get_or, get_or-fill, length, length-fill, length-take, take, fill,
  elem, Bool-cases, ==_iff, inl, inr, within, eq_of_get_or, subst,
}
use nachos.Base.Int.{ℤ, pos_part}
use nachos.FileSys.Header.{Header}
use nachos.FileSys.Header.Allocation.{sectors}
use nachos.FileSys.SynchDisk.{Image, IsImage}
use nachos.FileSys.OpenFile.{OpenFile, write_range, write_at, write_sectors}
use nachos.FileSys.OpenFile.Bytes.{IsFile, byte_at}
use nachos.FileSys.OpenFile.Read.{amount, slice, length-slice, get_or-slice, transfer_lem}
use nachos.FileSys.OpenFile.Prepare.{IsKept, prepare_buffer_lem}
use nachos.FileSys.OpenFile.Store.{HasWritten, write_sectors-HasWritten}

-- The whole file, as the list of its bytes.
abbrev pub contents : Header → Image → List ℕ
contents hdr img = slice hdr img 0 hdr.num_bytes

pub get_or-contents :
    (hdr : Header) (img : Image) (j : ℕ)
    → j < hdr.num_bytes
    → get_or (contents hdr img) j 0 ≡ byte_at hdr img j
get_or-contents hdr img j h =
    get_or-slice hdr img 0 hdr.num_bytes j h ∙ ap (byte_at hdr img) (omega arith)

-- The byte at `p` after the write of the prepared buffer.
new_byte :
    (hdr : Header) (img img' : Image) (n position p : ℕ) (buf source : List ℕ)
    → IsKept hdr img n position (position / 128) ((position + n - 1) / 128) buf
    → HasWritten hdr
        (position / 128)
        0
        (1 + (position + n - 1) / 128 - position / 128)
        (fill buf (position - position / 128 * 128) (take n source))
        img
        img'
    → 0 < n
    → position + n ≤ hdr.num_bytes
    → hdr.num_bytes ≤ hdr.num_sectors * 128
    → n ≤ length source
    → p < hdr.num_bytes
    → byte_at hdr img' p ≡ (
        if within position (position + n) p
        then get_or (take n source) (p - position) 0
        else byte_at hdr img p)
new_byte hdr img img' n position p buf source (len, kept) w some_bytes fits covers enough hp =
    w.bytes p (omega arith)
    ∙ choose (Bool-cases (within ((first + 0) * 128) ((first + 0 + (1 + last - first)) * 128) p))
  where
    first : ℕ
    first = position / 128

    last : ℕ
    last = (position + n - 1) / 128

    off : ℕ
    off = position - first * 128

    size : length (take n source) ≡ n
    size = length-take n source ∙ omega arith

    filled : List ℕ
    filled = fill buf off (take n source)

    at_j :
        (j : ℕ)
        → get_or filled j 0
          ≡ (if within off (off + n) j then get_or (take n source) (j - off) 0 else get_or buf j 0)
    at_j j = get_or-fill buf off (take n source) j 0 (omega (arith, size)) ∙ rw size

    choose :
        ((within ((first + 0) * 128) ((first + 0 + (1 + last - first)) * 128) p) ≡ true)
          ⊎ ((within ((first + 0) * 128) ((first + 0 + (1 + last - first)) * 128) p) ≡ false)
        → (if within ((first + 0) * 128) ((first + 0 + (1 + last - first)) * 128) p
            then get_or filled (p - first * 128) 0
            else byte_at hdr img p)
          ≡ (if within position (position + n) p
              then get_or (take n source) (p - position) 0
              else byte_at hdr img p)
    choose (inr outside) =
        let no : within position (position + n) p ≡ false = ground arith in rw (outside, no)
    choose (inl inside) = elim (Bool-cases (within position (position + n) p)) [
      | inl new ↦
          let b : within off (off + n) (p - first * 128) ≡ true = ground arith in
          let k : p - first * 128 - off ≡ p - position = ground arith in
          rw (inside, new) (at_j (p - first * 128) ∙ rw (b, k))
      | inr old ↦
          let b : within off (off + n) (p - first * 128) ≡ false = ground arith in
          let k : first * 128 + (p - first * 128) ≡ p = ground arith in
          rw (inside, old)
            (at_j (p - first * 128)
              ∙ rw b (
                  kept (p - first * 128) (ground arith) (ground arith) (ground arith)
                  ∙ ap (byte_at hdr img) k))
    ]

-- The bytes of the file after `WriteAt` of `n` bytes.
written_lem :
    (hdr : Header) (img img' : Image) (n position : ℕ) (buf source : List ℕ)
    → IsKept hdr img n position (position / 128) ((position + n - 1) / 128) buf
    → HasWritten hdr
        (position / 128)
        0
        (1 + (position + n - 1) / 128 - position / 128)
        (fill buf (position - position / 128 * 128) (take n source))
        img
        img'
    → 0 < n
    → position + n ≤ hdr.num_bytes
    → hdr.num_bytes ≤ hdr.num_sectors * 128
    → n ≤ length source
    → contents hdr img' ≡ fill (contents hdr img) position (take n source)
written_lem hdr img img' n position buf source kept w some_bytes fits covers enough =
    eq_of_get_or (contents hdr img') (fill (contents hdr img) position (take n source)) 0
      (length-slice hdr img' 0 hdr.num_bytes
        ∙ sym (length-slice hdr img 0 hdr.num_bytes)
        ∙ sym (length-fill (contents hdr img) position (take n source)))
      λ j lt.
        let h : j < hdr.num_bytes = omega (arith, length-slice hdr img' 0 hdr.num_bytes) in
        get_or-contents hdr img' j h
        ∙ new_byte hdr img img' n position j buf source kept w some_bytes fits covers enough h
        ∙ sym (
            get_or-fill (contents hdr img) position (take n source) j 0
              (omega (arith, size, length-slice hdr img 0 hdr.num_bytes))
            ∙ rw (size, get_or-contents hdr img j h))
  where
    size : length (take n source) ≡ n
    size = length-take n source ∙ omega arith

-- What a write of `n` bytes does to the disk.
pub record Changes (hdr : Header) (n position : ℕ) (source : List ℕ) (img img' : Image)
    : Type 0 where
  pub image : IsImage img'
  pub bytes : contents hdr img' ≡ fill (contents hdr img) position (take n source)
  pub others : (s : ℕ) → elem s (sectors hdr) ≡ false → get_or img' s [] ≡ get_or img s []

write_range-Changes :
    (junk : ℕ → ℕ) (f : OpenFile) (img : Image) (source : List ℕ) (n position : ℕ)
    → IsFile f.hdr
    → IsImage img
    → 0 < n
    → position + n ≤ f.hdr.num_bytes
    → n ≤ length source
    → (img' : Image) × (write_range junk f img source n position ≡ done img')
      × Changes f.hdr n position source img img'
unfolding write_range
write_range-Changes junk f img source n position file disk some_bytes fits enough =
    let first = position / 128 in
    let last = (position + n - 1) / 128 in
    let covers = file.covers in
    let (buf, p, kept) = prepare_buffer_lem junk f img n position file disk some_bytes fits in
    let filled = fill buf (position - first * 128) (take n source) in
    let long : length filled ≡ (1 + last - first) * 128 =
      length-fill buf (position - first * 128) (take n source) ∙ kept.0 in
    let (img', q, w) =
      write_sectors-HasWritten {hdr = f.hdr} (1 + last - first) 0 first filled img file disk
        (omega arith) (omega (arith, long)) in
    let start : first + 0 ≡ first = omega arith in
    let run : write_sectors (1 + last - first) first first f.hdr filled img ≡ done img' =
      subst (λ i. write_sectors (1 + last - first) i first f.hdr filled img ≡ done img') start q in
    (
      img',
      rw p run,
      record {
        image = w.image;
        bytes =
            written_lem f.hdr img img' n position buf source kept w some_bytes fits covers enough;
        others = w.others;
      },
    )

pub write_at-Changes :
    (junk : ℕ → ℕ) (f : OpenFile) (img : Image) (source : List ℕ) (num_bytes : ℤ) (position : ℕ)
    → IsFile f.hdr
    → IsImage img
    → position + pos_part num_bytes < 2 ^ 31
    → amount f.hdr num_bytes position ≤ length source
    → (img' : Image) × (write_at junk f img source num_bytes position
        ≡ done (amount f.hdr num_bytes position, img'))
      × Changes f.hdr (amount f.hdr num_bytes position) position source img img'
unfolding write_at
write_at-Changes junk f img source num_bytes position file disk h enough =
    elim (Bool-cases (n == 0)) [
      | inl none ↦
          let e : n ≡ 0 = (==_iff _ 0).0 none in
          (
            img,
            rw (transfer_lem f.hdr num_bytes position h, none) (ap (λ k. done (k, img)) (sym e)),
            record { image = disk; bytes = rw e; others = λ s out. refl },
          )
      | inr bytes ↦
          let (img', p, c) =
            write_range-Changes junk f img source n position file disk (ground arith) (ground arith)
              enough in
          (img', rw (transfer_lem f.hdr num_bytes position h, bytes, p), c)
    ]
  where
    n : ℕ
    n = amount f.hdr num_bytes position
