-- ===== src/FileSys/Header/Tests.antt =====
-- Runs of `Allocate` and `Deallocate` over a map of 40 sectors, and the theorems there.
use nachos.Base.{ℕ, ◌≡◌, refl, true, [], ◌∷◌, done, aborted, arith, replicate}
use nachos.Bitmap.{Bitmap, num_clear, find_and_set, test, clear}
use nachos.Bitmap.Bit.{IsValid, is_set}
use nachos.FileSys.Header.{Header, allocate, deallocate}
use nachos.FileSys.Header.Allocation.{Allocated, allocate_lem}
use nachos.FileSys.Header.Release.{deallocate-allocate}

abbrev free_map : Bitmap
free_map = record { num_bits = 40; num_words = 2; words = 7 ∷ 1 ∷ [] }

free_map-IsValid : IsValid free_map
free_map-IsValid = omega arith

abbrev new_header : Header
new_header = record { num_bytes = 0; num_sectors = 0; data_sectors = replicate 30 0 }

abbrev header_300 : Header
header_300 = record { num_bytes = 300; num_sectors = 3; data_sectors = 3 ∷ 4 ∷ 5 ∷ replicate 27 0 }

abbrev map_300 : Bitmap
map_300 = record { num_bits = 40; num_words = 2; words = 63 ∷ 1 ∷ [] }

allocate_run : allocate new_header free_map 300 ≡ done (true, header_300, map_300)
unfolding allocate num_clear find_and_set
allocate_run = refl

-- 31 blocks are more than `dataSectors` holds, though the map has room.
overrun_run : allocate new_header free_map 3841 ≡ aborted
unfolding allocate num_clear find_and_set
overrun_run = refl

deallocate_run : deallocate header_300 map_300 ≡ done free_map
unfolding deallocate test clear
deallocate_run = refl

allocate_lem_example : Allocated new_header free_map 300 (allocate new_header free_map 300)
allocate_lem_example = allocate_lem new_header 300 free_map-IsValid

deallocate-allocate_example :
    (m : Bitmap) × (deallocate header_300 map_300 ≡ done m)
    × (num_clear m ≡ num_clear free_map)
    × ((j : ℕ) → is_set m j ≡ is_set free_map j)
deallocate-allocate_example =
    deallocate-allocate new_header free_map 300 free_map-IsValid allocate_run
