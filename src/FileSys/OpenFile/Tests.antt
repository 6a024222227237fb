-- ===== src/FileSys/OpenFile/Tests.antt =====
-- A file of 200 bytes in sectors 5 and 3 of a disk, and the theorems there.
use nachos.Base.{
  ℕ, ◌≡◌, refl, List, [], ◌∷◌, arith, Outcome, done, aborted, ◌>>=◌, length, replicate, fill,
  All-replicate, length-replicate,
}
use nachos.Base.Int.{pos}
use nachos.FileSys.Header.{Header, byte_to_sector, file_length}
use nachos.FileSys.SynchDisk.{Image, IsImage, read_sector, write_sector}
use nachos.FileSys.OpenFile.{OpenFile, read_at, write_at}
use nachos.FileSys.OpenFile.Bytes.{IsFile}
use nachos.FileSys.OpenFile.Read.{slice, amount, read_at_lem}
use nachos.FileSys.OpenFile.Write.{contents}
use nachos.FileSys.OpenFile.Laws.{write_at_lem, read_at-write_at, write_at-contents_other}

abbrev hdr_200 : Header
hdr_200 = record { num_bytes = 200; num_sectors = 2; data_sectors = 5 ∷ 3 ∷ replicate 28 0 }

abbrev hdr_10 : Header
hdr_10 = record { num_bytes = 10; num_sectors = 1; data_sectors = 4 ∷ replicate 29 0 }

abbrev file_200 : OpenFile
file_200 = record { hdr = hdr_200; seek_position = 0 }

-- Kept shut: its bytes are all 1.
blank_disk : Image
blank_disk = replicate 1024 (replicate 128 1)

blank_disk-IsImage : IsImage blank_disk
unfolding blank_disk
blank_disk-IsImage = record {
  whole = length-replicate 1024 (replicate {A = ℕ} 128 1);
  even = All-replicate (λ s. length s ≡ 128) 1024 (replicate {A = ℕ} 128 1) refl;
}

hdr_200-IsFile : IsFile hdr_200
hdr_200-IsFile = record {
  array = refl;
  room = omega arith;
  covers = omega arith;
  located = (omega arith, (omega arith, tt));
  distinct = (refl, (refl, tt));
}

hdr_10-IsFile : IsFile hdr_10
hdr_10-IsFile = record {
  array = refl;
  room = omega arith;
  covers = omega arith;
  located = (omega arith, tt);
  distinct = (refl, tt);
}

abbrev junk : ℕ → ℕ
junk i = i

abbrev hello : List ℕ
hello = b'h' ∷ b'e' ∷ b'l' ∷ b'l' ∷ b'o' ∷ []

-- Five bytes over the boundary of the two blocks, read back with a neighbour on each side.
write_run :
    (write_at junk file_200 blank_disk hello (pos 5) 126 >>= λ r.
    read_at junk file_200 r.1 (pos 7) 125)
    ≡ done (1 ∷ b'h' ∷ b'e' ∷ b'l' ∷ b'l' ∷ b'o' ∷ 1 ∷ [])
unfolding write_at read_at blank_disk read_sector write_sector byte_to_sector file_length
write_run = refl

read_at_lem_example :
    read_at junk file_200 blank_disk (pos 300) 150
    ≡ done (slice hdr_200 blank_disk 150 (amount hdr_200 (pos 300) 150))
read_at_lem_example =
    read_at_lem junk file_200 blank_disk (pos 300) 150 hdr_200-IsFile blank_disk-IsImage
      (omega arith)

write_at_lem_example :
    (img' : Image) × (write_at junk file_200 blank_disk hello (pos 5) 126 ≡ done (5, img'))
    × IsImage img'
    × (contents hdr_200 img' ≡ fill (contents hdr_200 blank_disk) 126 hello)
write_at_lem_example =
    write_at_lem junk file_200 blank_disk hello (pos 5) 126 hdr_200-IsFile blank_disk-IsImage
      (omega arith) (omega arith)

abbrev disk_of : Outcome (ℕ × Image) → Image
disk_of (done r) = r.1
disk_of aborted = []

written_disk : Image
written_disk = disk_of (write_at junk file_200 blank_disk hello (pos 5) 126)

written_disk_lem : write_at junk file_200 blank_disk hello (pos 5) 126 ≡ done (5, written_disk)
unfolding written_disk write_at read_at blank_disk read_sector write_sector byte_to_sector
    file_length
written_disk_lem = refl

read_at-write_at_example : read_at junk file_200 written_disk (pos 5) 126 ≡ done hello
read_at-write_at_example =
    read_at-write_at junk junk file_200 blank_disk hello (pos 5) 126 hdr_200-IsFile
      blank_disk-IsImage (omega arith) (omega arith) written_disk_lem

write_at-contents_other_example : contents hdr_10 written_disk ≡ contents hdr_10 blank_disk
write_at-contents_other_example =
    write_at-contents_other junk file_200 blank_disk hello (pos 5) 126 hdr_10 hdr_200-IsFile
      hdr_10-IsFile blank_disk-IsImage (omega arith) (omega arith) (refl, tt) written_disk_lem
