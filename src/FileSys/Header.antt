-- ===== src/FileSys/Header.antt =====
-- code/filesys/filehdr.h and filehdr.cc: the file header, with the sectors of a file's data.
pub mod Allocation
pub mod Release
mod Tests
use nachos.Base.{
  ℕ, zero, suc, ◌+◌, ◌-◌, ◌*◌, ◌/◌, ◌≡◌, Bool, true, false, Option, none, some, List, Outcome, done,
  aborted, ◌>>=◌, ◌>>◌, assert, ltb, if◌then◌else◌, get_or, get_elem?, set, length,
}
use nachos.Bitmap.{Bitmap, div_round_up, find_and_set, num_clear, test, clear}

-- code/machine/disk.h
abbrev pub sector_size : ℕ
sector_size = 128

-- `(SectorSize - 2 * sizeof(int)) / sizeof(int)`
abbrev pub num_direct : ℕ
num_direct = (sector_size - 2 * 4) / 4

abbrev pub max_file_size : ℕ
max_file_size = num_direct * sector_size

-- `dataSectors` has `NumDirect` elements.
pub record Header : Type 0 where
  pub num_bytes : ℕ
  pub num_sectors : ℕ
  pub data_sectors : List ℕ

-- An access to `dataSectors[i]`: outside the array the behaviour is undefined, and the model stops.
abbrev pub in_array : Header → ℕ → Outcome (Unit {0})
in_array h i = assert (ltb i (length h.data_sectors))

-- The sector that `FindAndSet` returned, `ASSERT(dataSectors[i] >= 0)`.
abbrev pub expect_sector : Option ℕ → Outcome ℕ
expect_sector none = aborted
expect_sector (some s) = done s

-- The loop of `Allocate` from block `i`, by the number of rounds left.
unfoldable pub allocate_from : ℕ → ℕ → Header → Bitmap → Outcome (Header × Bitmap)
allocate_from zero i h m = done (h, m)
allocate_from (suc n) i h m = do
  (found, m') ← find_and_set m
  in_array h i
  s ← expect_sector found
  allocate_from n (i + 1) (record h { data_sectors = set h.data_sectors i s }) m'

unfoldable pub allocate : Header → Bitmap → ℕ → Outcome (Bool × Header × Bitmap)
unfolding allocate_from
allocate h m file_size = do
  let n = div_round_up file_size sector_size
  let h' = record h { num_bytes = file_size; num_sectors = n }
  free ← num_clear m
  let all = allocate_from n 0 h' m >>= λ (h'', m'). done (true, h'', m')
  if ltb free n then done (false, h', m) else all

-- The loop of `Deallocate` from block `i`, by the number of rounds left.
unfoldable pub deallocate_from : ℕ → ℕ → Header → Bitmap → Outcome Bitmap
deallocate_from zero i h m = done m
deallocate_from (suc n) i h m = do
  in_array h i
  let s = get_or h.data_sectors i 0
  used ← test m s
  assert used
  m' ← clear m s
  deallocate_from n (i + 1) h m'

unfoldable pub deallocate : Header → Bitmap → Outcome Bitmap
unfolding deallocate_from
deallocate h m = deallocate_from h.num_sectors 0 h m

unfoldable pub byte_to_sector : Header → ℕ → Outcome ℕ
byte_to_sector h offset = do
  in_array h (offset / sector_size)
  done (get_or h.data_sectors (offset / sector_size) 0)

unfoldable pub file_length : Header → ℕ
file_length h = h.num_bytes
