-- ===== src/Syscalls/Tests.antt =====
-- The calls of code/threads/kernel.cc on files, on a small host.
use nachos.Base.Int.{negsuc, word32}
use nachos.Syscalls.Numbers.Roundtrip.{read_num-print_num}
use nachos.Syscalls.Numbers.{read_num, print_num, digits}
use nachos.Base.{
  ℕ, ◌+◌, ◌*◌, ◌/◌, ◌≡◌, ◌≢◌, refl, ap, inr, true, List, [], ◌∷◌, none, some, done, set, replicate,
  get_or-replicate, length, arith,
}
use nachos.Machine.{Machine, init, write_register}
use nachos.Syscalls.{
  Unix, Calls, minus_one, open_named, open_file, with_descriptor, find_open, find_free_slot,
  first_from, slot, is_file, store_file, answer, file_close, file_seek,
}
use nachos.Syscalls.Search.{NonePass}
use nachos.Syscalls.Opening.{argument, answered, NamesDistinct, open_named-NamesDistinct}
use nachos.Syscalls.Refusing.{file_close-file_seek-IsBadId}
use nachos.Syscalls.Closing.{HasOpen, open_named-again}

-- A host that counts the descriptors that it has given out, with an allocator that rounds up to a
-- number of bytes that 16 divides, and sets aside 16 at least.
abbrev unix : Unix ℕ
unix = record {
  open_for_write = λ h name. (some h, h + 1);
  open_for_read_write = λ h name. (some h, h + 1);
  close = λ h d. done h;
  unlink = λ h name. (true, h);
  lseek_start = λ h d pos. done h;
  lseek_end = λ h d. done h;
  tell = λ h d. done 0;
  chars_given = λ n. n / 16 * 16 + 16;
}

abbrev no_files : Calls ℕ
no_files = record { machine = init; list_file = replicate 20 none; host = 5 }

abbrev name : List ℕ
name = 97 ∷ 98 ∷ []

abbrev one_file : Calls ℕ
one_file =
    answered
      (record no_files {
        list_file =
            set (replicate 20 none) 2
              (some (record { file = 5; current_offset = 0; file_name = name }));
        host = 6;
      })
      2

open_named-runs : open_named unix no_files name ≡ done one_file
unfolding open_named find_open find_free_slot first_from slot open_file with_descriptor store_file
    answer write_register init
open_named-runs = refl

no_files-NonePass : (t : List ℕ) → NonePass (is_file t) (replicate 20 none) 2 20
no_files-NonePass t n low high = ap (is_file t) (get_or-replicate 20 n none)

no_files-NamesDistinct : NamesDistinct (replicate 20 none)
no_files-NamesDistinct t i j (il, ih, ip) (jl, jh, jp) =
    let no_file = no_files-NonePass t i il ih in absurd (cc)

open_named-NamesDistinct_example :
    (length one_file.list_file ≡ 20) × NamesDistinct one_file.list_file
open_named-NamesDistinct_example =
    open_named-NamesDistinct unix no_files one_file name refl no_files-NamesDistinct open_named-runs

-- A machine whose register 4 holds the id that the call returned.
abbrev with_id : Machine
with_id = record init { registers = set (replicate 40 0) 4 2 }

two-not_minus_one : argument one_file 2 ≢ minus_one
unfolding init
two-not_minus_one h = absurd (omega (arith, h))

open_named-again_example :
    HasOpen unix one_file name (argument one_file 2)
    × (open_named unix (record one_file { machine = with_id }) name
        ≡ done (answered (record one_file { machine = with_id }) (argument one_file 2)))
unfolding init
open_named-again_example =
    open_named-again unix no_files one_file name with_id refl no_files-NamesDistinct refl
      open_named-runs two-not_minus_one

-- Id 3 in the registers of both calls.
abbrev with_free_id : Calls ℕ
with_free_id = record no_files {
  machine = record init { registers = set (set (replicate 40 0) 4 3) 5 3 };
}

file_close-file_seek-IsBadId_example :
    (file_close unix with_free_id ≡ done (answered with_free_id minus_one))
    × (file_seek unix with_free_id ≡ done (answered with_free_id minus_one))
unfolding init
file_close-file_seek-IsBadId_example =
    file_close-file_seek-IsBadId unix with_free_id with_free_id refl refl
      (inr ((omega arith), inr refl)) (inr ((omega arith), inr refl))

-- -42, read into an array of NULs.
read_num-print_num_example :
    read_num (replicate 20 0) (print_num (negsuc 41)) ≡ done (word32 (negsuc 41))
unfolding print_num digits
read_num-print_num_example = read_num-print_num (negsuc 41) (replicate 20 0) refl refl refl
