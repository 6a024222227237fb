-- ===== src/FileSys/OpenFile/Read.antt =====
-- `ReadAt` returns the bytes of the file that were asked for, up to its end.
use nachos.Base.{
  ℕ, zero, suc, ◌+◌, ◌-◌, ◌*◌, ◌/◌, ◌^◌, ◌≤◌, ◌<◌, ◌≡◌, refl, sym, ap, ◌∙◌, List, [], ◌∷◌, arith,
  done, ◌==◌, lt→ltb, if◌then◌else◌, get_or, length, take, drop, Bool-cases, ==_iff, subst, inl,
  inr, within, get_or-take, get_or-drop, length-take, length-drop, eq_of_get_or, min,
}
use nachos.Base.Int.{ℤ, pos, leb_ℤ, pos_part}
use nachos.FileSys.Header.{Header, file_length}
use nachos.FileSys.SynchDisk.{Image, IsImage}
use nachos.FileSys.OpenFile.{OpenFile, new_chars, read_sectors, transfer, read_at, read_range}
use nachos.FileSys.OpenFile.Bytes.{IsFile, byte_at, HasRead, read_sectors-HasRead}

-- The number of bytes that a request transfers.
abbrev pub amount : Header → ℤ → ℕ → ℕ
amount hdr num_bytes position =
    if leb_ℤ num_bytes (pos 0) then 0 else min (pos_part num_bytes) (hdr.num_bytes - position)

pub transfer_lem :
    (hdr : Header) (num_bytes : ℤ) (position : ℕ)
    → position + pos_part num_bytes < 2 ^ 31
    → transfer hdr num_bytes position ≡ done (amount hdr num_bytes position)
unfolding transfer file_length
transfer_lem hdr num_bytes position h =
    rw (lt→ltb (position + pos_part num_bytes) (2 ^ 31) h) (ground arith)

-- The `n` bytes of the file from offset `p` on.
pub slice : Header → Image → ℕ → ℕ → List ℕ
slice hdr img p zero = []
slice hdr img p (suc n) = byte_at hdr img p ∷ slice hdr img (p + 1) n

pub length-slice : (hdr : Header) (img : Image) (p n : ℕ) → length (slice hdr img p n) ≡ n
unfolding slice
length-slice hdr img p zero = refl
length-slice hdr img p (suc n) = ap suc (length-slice hdr img (p + 1) n)

pub get_or-slice :
    (hdr : Header) (img : Image) (p n j : ℕ)
    → j < n
    → get_or (slice hdr img p n) j 0 ≡ byte_at hdr img (p + j)
unfolding slice
get_or-slice hdr img p zero j h = absurd (omega arith)
get_or-slice hdr img p (suc n) zero h = ap (byte_at hdr img) (omega arith)
get_or-slice hdr img p (suc n) (suc j) h =
    get_or-slice hdr img (p + 1) n j (omega arith) ∙ ap (byte_at hdr img) (omega arith)

pub length-new_chars : (junk : ℕ → ℕ) (n : ℕ) → length (new_chars junk n) ≡ n
unfolding new_chars
length-new_chars junk zero = refl
length-new_chars junk (suc n) = ap suc (length-new_chars (λ i. junk (suc i)) n)

-- The part of the buffer that is copied out.
copied :
    (hdr : Header) (img : Image) (first count off n position : ℕ) (buf buf' : List ℕ)
    → HasRead hdr img first 0 count buf buf'
    → length buf ≡ count * 128
    → position ≡ first * 128 + off
    → off + n ≤ count * 128
    → take n (drop off buf') ≡ slice hdr img position n
copied hdr img first count off n position buf buf' (len, at) l e h =
    eq_of_get_or (take n (drop off buf')) (slice hdr img position n) 0
      (sizes ∙ sym (length-slice hdr img position n))
      λ j lt.
        get_or-take n (drop off buf') j 0 (omega (arith, sizes))
        ∙ get_or-drop off buf' j 0
        ∙ at (off + j)
        ∙ inside j (omega (arith, sizes))
        ∙ ap (byte_at hdr img) (omega arith)
        ∙ sym (get_or-slice hdr img position n j (omega (arith, sizes)))
  where
    sizes : length (take n (drop off buf')) ≡ n
    sizes = length-take n (drop off buf') ∙ omega (arith, length-drop off buf')

    inside :
        (j : ℕ)
        → j < n
        → (if within (0 * 128) ((0 + count) * 128) (off + j)
            then byte_at hdr img (first * 128 + (off + j))
            else get_or buf (off + j) 0)
          ≡ byte_at hdr img (first * 128 + (off + j))
    inside j lt = ground arith

pub read_range_lem :
    (junk : ℕ → ℕ) (f : OpenFile) (img : Image) (n position : ℕ)
    → IsFile f.hdr
    → IsImage img
    → 0 < n
    → position + n ≤ f.hdr.num_bytes
    → read_range junk f img n position ≡ done (slice f.hdr img position n)
unfolding read_range
read_range_lem junk f img n position file disk some_bytes fits =
    let first = position / 128 in
    let last = (position + n - 1) / 128 in
    let count = 1 + last - first in
    let covers = file.covers in
    let (buf', p, r) =
      read_sectors-HasRead file disk count 0 first (new_chars junk (count * 128)) (omega arith)
        (omega (arith, length-new_chars junk (count * 128))) in
    let start : first + 0 ≡ first = omega arith in
    let run : read_sectors count first first f.hdr img (new_chars junk (count * 128)) ≡ done buf' =
      subst (λ i. read_sectors count i first f.hdr img (new_chars junk (count * 128)) ≡ done buf')
        start p in
    rw run (
      ap done (
        copied f.hdr img first count (position - first * 128) n position
          (new_chars junk (count * 128)) buf' r (length-new_chars junk (count * 128)) (omega arith)
          (omega arith)))

-- When `position` and a positive count add up to less than 2 ^ 31, so that the test against the length
-- does not overflow, `ReadAt` stops at no assertion and returns the bytes of the file from `position`
-- on, as many as were asked for and the file has; none if the count is not positive or `position` lies past the end. What the
-- fresh buffer held does not show.
pub read_at_lem :
    (junk : ℕ → ℕ) (f : OpenFile) (img : Image) (num_bytes : ℤ) (position : ℕ)
    → IsFile f.hdr
    → IsImage img
    → position + pos_part num_bytes < 2 ^ 31
    → read_at junk f img num_bytes position
      ≡ done (slice f.hdr img position (amount f.hdr num_bytes position))
unfolding read_at slice
read_at_lem junk f img num_bytes position file disk h =
    elim (Bool-cases (amount f.hdr num_bytes position == 0)) [
      | inl none ↦
          let e : amount f.hdr num_bytes position ≡ 0 = (==_iff _ 0).0 none in
          rw (transfer_lem f.hdr num_bytes position h, e)
      | inr bytes ↦
          let n = amount f.hdr num_bytes position in
          let run = read_range_lem junk f img n position file disk (ground arith) (ground arith) in
          rw (transfer_lem f.hdr num_bytes position h, bytes) run
    ]
