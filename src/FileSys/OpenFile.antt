-- ===== src/FileSys/OpenFile.antt =====
-- code/filesys/openfile.h and openfile.cc: an open file, read and written at any offset by whole
-- sectors. `new char[n]` leaves its bytes undetermined: `junk` says what they happen to be.
pub mod Bytes
pub mod Read
pub mod Prepare
pub mod Store
pub mod Write
pub mod Laws
mod Tests
use nachos.Base.{
  ℕ, zero, suc, ◌+◌, ◌-◌, ◌*◌, ◌/◌, ◌^◌, ◌≡◌, Bool, true, false, ◌&&◌, ◌||◌, not, List, [], ◌∷◌,
  Outcome, done, ◌>>=◌, ◌>>◌, assert, ltb, leb, ◌==◌, if◌then◌else◌, take, drop, fill, length,
}
use nachos.Base.Int.{ℤ, pos, leb_ℤ, pos_part}
use nachos.FileSys.SynchDisk.{Image, read_sector, write_sector}
use nachos.FileSys.Header.{Header, byte_to_sector, file_length, sector_size}

pub record OpenFile : Type 0 where
  pub hdr : Header
  pub seek_position : ℕ

unfoldable pub new_chars : (ℕ → ℕ) → ℕ → List ℕ
new_chars junk zero = []
new_chars junk (suc n) = junk zero ∷ new_chars (λ i. junk (suc i)) n

-- `for (i = firstSector + t; …; i++) ReadSector(hdr->ByteToSector(i * SectorSize),
-- &buf[(i - firstSector) * SectorSize])`, by the number of rounds left.
pub read_sectors : ℕ → ℕ → ℕ → Header → Image → List ℕ → Outcome (List ℕ)
unfolding read_sector
read_sectors zero i first hdr img buf = done buf
read_sectors (suc n) i first hdr img buf = do
  s ← byte_to_sector hdr (i * sector_size)
  content ← read_sector img s
  read_sectors n (i + 1) first hdr img (fill buf ((i - first) * sector_size) content)

-- The number of bytes that a request at `position` can transfer: 0 if the check at the head of
-- `ReadAt` and `WriteAt` refuses it, and clipped at the end of the file. A sum that overflows an
-- `int` is undefined.
pub transfer : Header → ℤ → ℕ → Outcome ℕ
unfolding file_length
transfer hdr num_bytes position =
    let n = pos_part num_bytes in
    let size = file_length hdr in
    let clipped = if ltb size (position + n) then size - position else n in
    if leb_ℤ num_bytes (pos 0) || leb size position
    then done 0
    else (assert (ltb (position + n) (2 ^ 31)) >> done clipped)

-- `ReadAt` after its check, for `n` bytes.
pub read_range : (ℕ → ℕ) → OpenFile → Image → ℕ → ℕ → Outcome (List ℕ)
unfolding read_sectors new_chars
read_range junk f img n position = do
  let first = position / sector_size
  let last = (position + n - 1) / sector_size
  let count = 1 + last - first
  buf ← read_sectors count first first f.hdr img (new_chars junk (count * sector_size))
  done (take n (drop (position - first * sector_size) buf))

-- `ReadAt`: the bytes that are copied to `into`, whose number is the result.
pub read_at : (ℕ → ℕ) → OpenFile → Image → ℤ → ℕ → Outcome (List ℕ)
unfolding transfer read_range
read_at junk f img num_bytes position = do
  n ← transfer f.hdr num_bytes position
  let bytes = read_range junk f img n position
  if n == 0 then done [] else bytes

-- `for (i = firstSector + t; …; i++) WriteSector(hdr->ByteToSector(i * SectorSize),
-- &buf[(i - firstSector) * SectorSize])`, by the number of rounds left.
pub write_sectors : ℕ → ℕ → ℕ → Header → List ℕ → Image → Outcome Image
unfolding write_sector
write_sectors zero i first hdr buf img = done img
write_sectors (suc n) i first hdr buf img = do
  s ← byte_to_sector hdr (i * sector_size)
  img' ← write_sector img s (take sector_size (drop ((i - first) * sector_size) buf))
  write_sectors n (i + 1) first hdr buf img'

-- The buffer of `WriteAt` with the first and the last sector read in, where they are to be partially
-- modified.
pub prepare_buffer : (ℕ → ℕ) → OpenFile → Image → ℕ → ℕ → Outcome (List ℕ)
unfolding read_at
prepare_buffer junk f img n position = do
  let first = position / sector_size
  let last = (position + n - 1) / sector_size
  let buf = new_chars junk ((1 + last - first) * sector_size)
  let first_aligned = position == first * sector_size
  let last_aligned = position + n == (last + 1) * sector_size
  let head = read_at junk f img (pos sector_size) (first * sector_size)
  let tail = read_at junk f img (pos sector_size) (last * sector_size)
  head_bytes ← if first_aligned then done [] else head
  tail_bytes ← if not last_aligned && (not (first == last) || first_aligned) then tail else done []
  done (fill (fill buf 0 head_bytes) ((last - first) * sector_size) tail_bytes)

-- `WriteAt` after its check, for `n` bytes.
pub write_range : (ℕ → ℕ) → OpenFile → Image → List ℕ → ℕ → ℕ → Outcome Image
unfolding write_sectors prepare_buffer
write_range junk f img source n position = do
  let first = position / sector_size
  let last = (position + n - 1) / sector_size
  buf ← prepare_buffer junk f img n position
  let filled = fill buf (position - first * sector_size) (take n source)
  write_sectors (1 + last - first) first first f.hdr filled img

-- `WriteAt`: the number of bytes written, and the disk.
pub write_at : (ℕ → ℕ) → OpenFile → Image → List ℕ → ℤ → ℕ → Outcome (ℕ × Image)
unfolding transfer write_range
write_at junk f img source num_bytes position = do
  n ← transfer f.hdr num_bytes position
  let written = write_range junk f img source n position >>= λ img'. done (n, img')
  if n == 0 then done (0, img) else written

pub opened : Header → OpenFile
opened hdr = record { hdr = hdr; seek_position = 0 }

pub seek : OpenFile → ℕ → OpenFile
seek f position = record f { seek_position = position }

-- `Read`: the bytes read and the file with its position advanced.
pub read : (ℕ → ℕ) → OpenFile → Image → ℤ → Outcome (List ℕ × OpenFile)
unfolding read_at
read junk f img num_bytes = do
  bytes ← read_at junk f img num_bytes f.seek_position
  done (bytes, record f { seek_position = f.seek_position + length bytes })

pub write : (ℕ → ℕ) → OpenFile → Image → List ℕ → ℤ → Outcome (ℕ × Image × OpenFile)
unfolding write_at
write junk f img source num_bytes = do
  (n, img') ← write_at junk f img source num_bytes f.seek_position
  done (n, img', record f { seek_position = f.seek_position + n })
