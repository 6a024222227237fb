-- ===== src/FileSys/SynchDisk.antt =====
-- code/filesys/synchdisk.cc: reading and writing a sector as one step. The disk is the list of its
-- sectors; the lock and the wait for the disk's interrupt order the requests of several threads.
use nachos.Base.{ℕ, ◌≡◌, List, [], Outcome, done, ◌>>◌, assert, ltb, get_or, set, length, All}

-- machine/disk.h: `SectorsPerTrack * NumTracks`
abbrev pub num_sectors_on_disk : ℕ
num_sectors_on_disk = 1024

abbrev pub Image : Type 0
Image = List (List ℕ)

-- `ReadSector`, with the assertion of `Disk::ReadRequest`.
unfoldable pub read_sector : Image → ℕ → Outcome (List ℕ)
read_sector img n = do assert (ltb n num_sectors_on_disk); done (get_or img n [])

-- `WriteSector`, with the assertion of `Disk::WriteRequest`.
unfoldable pub write_sector : Image → ℕ → List ℕ → Outcome Image
write_sector img n content = do assert (ltb n num_sectors_on_disk); done (set img n content)

pub record IsImage (img : Image) : Type 0 where
  pub whole : length img ≡ num_sectors_on_disk
  pub even : All (λ s. length s ≡ 128) img
