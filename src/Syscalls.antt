-- ===== src/Syscalls.antt =====
-- code/threads/kernel.cc: the system calls on files, over the table `ListFile` of filesys/filesys.h and
-- the files of openfile.h, in the build with FILESYS_STUB, where a file is a file of UNIX.
pub mod Numbers
pub mod Search
pub mod Opening
pub mod Closing
pub mod Refusing
mod Tests
use nachos.Base.{
  ℕ, zero, suc, ◌+◌, ◌-◌, ◌*◌, ◌%◌, ◌^◌, ◌≡◌, Bool, true, false, not, ◌||◌, ◌&&◌, List, [], ◌∷◌,
  Option, none, some, Outcome, done, aborted, ◌>>=◌, ◌>>◌, assert, ltb, ◌==◌, if◌then◌else◌,
  get_elem?, set, replicate, leb, length,
}
use nachos.Machine.{
  Machine, ExceptionType, read_register, write_register, pc_reg, prev_pc_reg, next_pc_reg,
}
use nachos.Machine.Memory.{read_mem}

-- The calls of UNIX in lib/sysdep.h, on the state `H` of the host. A descriptor of -1 is `none`.
-- `chars_given n` is how many bytes the allocator sets aside for `new char[n]`: `n`, or more where it
-- rounds up.
pub record Unix (H : Type 0) : Type 0 where
  pub open_for_write : H → List ℕ → Option ℕ × H
  pub open_for_read_write : H → List ℕ → Option ℕ × H
  pub close : H → ℕ → Outcome H
  pub unlink : H → List ℕ → Bool × H
  pub lseek_start : H → ℕ → ℕ → Outcome H
  pub lseek_end : H → ℕ → Outcome H
  pub tell : H → ℕ → Outcome ℕ
  pub chars_given : ℕ → ℕ

-- `OpenFile` of openfile.h.
pub record UnixFile : Type 0 where
  pub file : ℕ
  pub current_offset : ℕ
  pub file_name : List ℕ

-- The machine, `fileSystem->ListFile`, and the host.
pub record Calls (H : Type 0) : Type 0 where
  pub machine : Machine
  pub list_file : List (Option UnixFile)
  pub host : H

abbrev pub max_files : ℕ
max_files = 20

-- The `int` -1.
abbrev pub minus_one : ℕ
minus_one = 2 ^ 32 - 1

-- `strcmp(a, b) == 0`.
unfoldable pub same_string : List ℕ → List ℕ → Bool
same_string [] [] = true
same_string [] (y ∷ ys) = false
same_string (x ∷ xs) [] = false
same_string (x ∷ xs) (y ∷ ys) = x == y && same_string xs ys

-- `ListFile[i]`.
unfoldable pub slot : List (Option UnixFile) → ℕ → Outcome (Option UnixFile)
slot table i = elim (get_elem? table i) [ none ↦ aborted | some entry ↦ done entry ]

abbrev pub is_file : List ℕ → Option UnixFile → Bool
is_file name none = false
is_file name (some f) = same_string name f.file_name

abbrev pub is_free : Option UnixFile → Bool
is_free none = true
is_free (some f) = false

-- A loop `for (int i = ...; i < 20; i++)` that returns the first index whose file passes `test`.
unfoldable pub first_from :
    (Option UnixFile → Bool) → List (Option UnixFile) → ℕ → ℕ → Outcome (Option ℕ)
first_from test table i zero = done none
first_from test table i (suc rounds) = do
  entry ← slot table i
  let later = first_from test table (i + 1) rounds
  if test entry then done (some i) else later

-- The loop of `File_Open` and of `File_Remove` over the open files.
unfoldable pub find_open : List (Option UnixFile) → List ℕ → Outcome (Option ℕ)
find_open table name = first_from (is_file name) table 2 18

-- `FileSystem::FindFreeSlot`.
unfoldable pub find_free_slot : List (Option UnixFile) → Outcome (Option ℕ)
find_free_slot table = first_from is_free table 2 18

-- `handler` is `ExceptionHandler`, called for a bad address; `oneChar` is not assigned then.
module _ (handler : ExceptionType → Machine → Outcome Machine) where
  unfoldable pub user_to_system_from : Machine → ℕ → ℕ → ℕ → Outcome (List ℕ × Machine)
  user_to_system_from m addr one_char zero = done ([], m)
  user_to_system_from m addr one_char (suc rounds) = do
    (value, m') ← read_mem handler m addr 1
    let c : ℕ = elim value [ none ↦ one_char | some x ↦ x ]
    let later = user_to_system_from m' ((addr + 1) % 2 ^ 32) c rounds >>= λ (rest, m2).
        done (if c % 256 == 0 then [] else (c % 256) ∷ rest, m2)
    if c == 0 then done ([], m') else later

  -- `Kernel::User2System`, as the string in the buffer that it returns. `junk` is the value that
  -- `oneChar` starts with.
  unfoldable pub user_to_system : ℕ → Machine → ℕ → ℕ → Outcome (List ℕ × Machine)
  user_to_system junk m addr limit = user_to_system_from m addr junk limit

-- `new OpenFile(fileDescriptor)`, or NULL.
unfoldable pub with_descriptor : List ℕ → Option ℕ → Option UnixFile
with_descriptor name none = none
with_descriptor name (some d) = some (record { file = d; current_offset = 0; file_name = name })

module _ {H : Type 0} where
  -- `machine->WriteRegister(2, value)`, the end of a system call.
  unfoldable pub answer : Calls H → ℕ → Outcome (Calls H)
  answer k value = do m ← write_register k.machine 2 value; done (record k { machine = m })

  module _ (unix : Unix H) where
    -- `FileSystem::Create`.
    unfoldable pub create : H → List ℕ → Outcome (Bool × H)
    create h name =
        let (fd, h') = unix.open_for_write h name in
        elim fd [ none ↦ done (false, h') | some d ↦ unix.close h' d >>= λ h2. done (true, h2) ]

    -- `FileSystem::Open`, with the name that `File_Open` gives the file.
    unfoldable pub open_file : H → List ℕ → Option UnixFile × H
    open_file h name =
        let (fd, h') = unix.open_for_read_write h name in (with_descriptor name fd, h')

    -- `OpenFile::Length`.
    unfoldable pub file_length : H → UnixFile → Outcome (ℕ × H)
    file_length h f = do h' ← unix.lseek_end h f.file; n ← unix.tell h' f.file; done (n, h')

    -- `File_Create` after the name is read.
    unfoldable pub create_named : Calls H → List ℕ → Outcome (Calls H)
    create_named k name = do
      (created, h) ← create k.host name
      let k' : Calls H = record k { host = h }
      if created then answer k' 0 else answer k' minus_one

    -- `File_Open` with the file that `Open` returns for the free slot `i`. A file that cannot be
    -- opened is dereferenced before the test for NULL. `strcpy` writes `strlen(fileName) + 1` bytes
    -- into an array of `strlen(fileName)`.
    unfoldable pub store_file : Calls H → ℕ → List ℕ → Option UnixFile → H → Outcome (Calls H)
    store_file k i name none h = aborted
    store_file k i name (some f) h =
        assert (leb (length name + 1) (unix.chars_given (length name)))
        >> answer (record k { list_file = set k.list_file i (some f); host = h }) i

    -- `File_Open` after the name is read.
    unfoldable pub open_named : Calls H → List ℕ → Outcome (Calls H)
    open_named k name = do
      found ← find_open k.list_file name
      free ← find_free_slot k.list_file
      elim found [
        | some i ↦ answer k i
        | none ↦ elim free [
          | none ↦ answer k minus_one
          | some i ↦ let (file, h) = open_file k.host name in store_file k i name file h
        ]
      ]

    -- `File_Remove` after the name is read.
    unfoldable pub remove_named : Calls H → List ℕ → Outcome (Calls H)
    remove_named k name = do
      found ← find_open k.list_file name
      elim found [
        | some i ↦ answer k minus_one
        | none ↦
            let (removed, h) = unix.unlink k.host name in
            let k' : Calls H = record k { host = h } in
            if removed then answer k' 0 else answer k' minus_one
      ]

    -- `File_Close`. A negative `int` is a word above 20.
    unfoldable pub file_close : Calls H → Outcome (Calls H)
    file_close k = do
      id ← read_register k.machine 4
      let there = slot k.list_file id >>= λ entry. elim entry [
        | none ↦ answer k minus_one
        | some f ↦ unix.close k.host f.file >>= λ h.
            answer (record k { list_file = set k.list_file id none; host = h }) 1
      ]
      if ltb id 2 || ltb 20 id then answer k minus_one else there

    -- `File_Seek`, the position asked for: -1 stands for the length.
    unfoldable pub seek_target : Calls H → UnixFile → ℕ → Outcome (ℕ × H)
    seek_target k f pos =
        let last = file_length k.host f in if pos == minus_one then last else done (pos, k.host)

    -- `File_Seek` from there on. A negative `int` is a word above every length.
    unfoldable pub seek_to : Calls H → ℕ → UnixFile → ℕ → H → Outcome (Calls H)
    seek_to k id f target h = do
      (size, h2) ← file_length h f
      let moved = unix.lseek_start h2 f.file target >>= λ h3. unix.tell h3 f.file >>= λ offset.
          answer
            (record k {
              list_file = set k.list_file id (some (record f { current_offset = offset }));
              host = h3;
            })
            target
      if ltb size target then answer (record k { host = h2 }) minus_one else moved

    -- `File_Seek`.
    unfoldable pub file_seek : Calls H → Outcome (Calls H)
    file_seek k = do
      pos ← read_register k.machine 4
      id ← read_register k.machine 5
      let there = slot k.list_file id >>= λ entry. elim entry [
        | none ↦ answer k minus_one
        | some f ↦
            if id == 0 || id == 1
            then answer k minus_one
            else (seek_target k f pos >>= λ (target, h). seek_to k id f target h)
      ]
      if ltb 20 id then answer k minus_one else there

    module _ (handler : ExceptionType → Machine → Outcome Machine) (junk : ℕ) where
      -- The string argument of a system call, with its length bounded.
      unfoldable pub string_argument : Calls H → ℕ → Outcome (List ℕ × Calls H)
      string_argument k limit = do
        addr ← read_register k.machine 4
        (name, m) ← user_to_system handler junk k.machine addr limit
        done (name, record k { machine = m })

      unfoldable pub file_create : Calls H → Outcome (Calls H)
      file_create k = do (name, k') ← string_argument k 33; create_named k' name

      unfoldable pub file_open : Calls H → Outcome (Calls H)
      file_open k = do (name, k') ← string_argument k 32; open_named k' name

      unfoldable pub file_remove : Calls H → Outcome (Calls H)
      file_remove k = do (name, k') ← string_argument k 32; remove_named k' name

-- `Kernel::IncreasePC`.
unfoldable pub increase_pc : Machine → Outcome Machine
increase_pc m = do
  pc ← read_register m pc_reg
  m' ← write_register m prev_pc_reg pc
  pc' ← read_register m' pc_reg
  m2 ← write_register m' pc_reg ((pc' + 4) % 2 ^ 32)
  pc2 ← read_register m2 pc_reg
  write_register m2 next_pc_reg ((pc2 + 4) % 2 ^ 32)
