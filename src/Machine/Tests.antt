-- ===== src/Machine/Tests.antt =====
-- Runs of the machine of code/machine at concrete inputs.
use nachos.Base.{
  ℕ, ◌≡◌, refl, inr, Bool, true, false, List, [], ◌∷◌, none, some, Outcome, done, replicate,
  length-replicate, get_or, arith, ◌>>=◌,
}
use nachos.Machine.{Machine, TranslationEntry, ExceptionType, memory_size, address_error_exception}
use nachos.Machine.Translate.{
  translate, find_entry, index_page_table, access, put_entry, put_in, touch, misaligned,
  Translation, fault,
}
use nachos.Machine.Translate.Grant.{translate_lem, Granted}
use nachos.Machine.Memory.{
  write_mem, read_mem, read_translated, read_physical, write_translated, write_physical,
  put_le_word, sign_extend,
}
use nachos.Machine.Memory.Laws.{IsMachine, read_mem-write_mem, write_mem-other_frame}
use nachos.Machine.Word.{add_word}
use nachos.Machine.Decode.{Instruction, op_lwl, op_lwr, op_swl, op_swr}
use nachos.Machine.Execute.{executed, reg, store, execute}
use nachos.Machine.Execute.Unaligned.{
  left_part, right_part, left_stored, right_stored, current, execute-lwl_lwr, execute-swl_swr,
}

abbrev resume : ExceptionType → Machine → Outcome Machine
resume ex m = done m

abbrev page : ℕ → ℕ → Bool → TranslationEntry
page v p seen = record {
  virtual_page = v;
  physical_page = p;
  valid = true;
  read_only = false;
  used = seen;
  dirty = seen;
}

abbrev with_table : List ℕ → List TranslationEntry → Machine
with_table mem t = record {
  registers = replicate 40 0;
  main_memory = mem;
  tlb = none;
  page_table = some t;
  page_table_size = 2;
}

abbrev blank : List ℕ
blank = replicate memory_size 0

abbrev start : Machine
start = with_table blank (page 0 1 false ∷ page 1 0 false ∷ [])

-- Virtual address 132 is offset 4 of page 1, which is frame 0.
abbrev after : Machine
after = with_table (put_le_word blank 4 4 305419896) (page 0 1 false ∷ page 1 0 true ∷ [])

start-IsMachine : IsMachine start
start-IsMachine = record { memory = length-replicate {A = ℕ} memory_size 0; table = refl }

start-write : write_mem resume start 132 4 305419896 ≡ done (true, after)
unfolding write_mem translate misaligned find_entry index_page_table access put_entry put_in touch
    write_translated write_physical
start-write = refl

read_mem-write_mem_example : read_mem resume after 132 4 ≡ done (some 305419896, after)
read_mem-write_mem_example =
    read_mem-write_mem resume start 132 4 305419896 after start-IsMachine (inr (inr refl))
      (omega arith) start-write

after-read : read_mem resume after 132 4 ≡ done (some 305419896, after)
after-read =
    read_mem-write_mem resume start 132 4 305419896 after start-IsMachine (inr (inr refl))
      (omega arith) start-write

-- A load into or a store of register 9 at address 134, byte 2 of the word.
abbrev at_byte_2 : Instruction
at_byte_2 = record { value = 0; op_code = op_lwl; rs = 0; rt = 9; rd = 0; extra = 134 }

execute-lwl_lwr_example :
    (execute resume after at_byte_2 8 op_lwl
      ≡ done (executed 8 9 (left_part 2 (current after 9) 305419896) after))
    × (execute resume after at_byte_2 8 op_lwr
        ≡ done (executed 8 9 (right_part 2 (current after 9) 305419896) after))
unfolding reg add_word
execute-lwl_lwr_example =
    execute-lwl_lwr resume after after at_byte_2 8 305419896 after-read (omega arith) (omega arith)

execute-swl_swr_example :
    (execute resume after at_byte_2 8 op_swl
      ≡ store resume 8 132 4 (left_stored 2 305419896 (reg after 9)) after)
    × (execute resume after at_byte_2 8 op_swr
        ≡ store resume 8 132 4 (right_stored 2 305419896 (reg after 9)) after)
unfolding reg add_word
execute-swl_swr_example =
    execute-swl_swr resume after after at_byte_2 8 305419896 after-read (omega arith) (omega arith)

write_mem-other_frame_example : get_or after.main_memory 300 0 ≡ get_or start.main_memory 300 0
write_mem-other_frame_example =
    write_mem-other_frame resume start 132 4 305419896 after 300 start-IsMachine (inr (inr refl))
      start-write (refl, (refl, tt))

translate_lem_example :
    (t : Translation) × (translate start 132 4 true ≡ done t) × Granted start 132 4 true t
translate_lem_example = translate_lem start 132 4 true refl (inr (inr refl))

-- An unaligned word, a page past the table, and the load of a negative byte.
translate_test : translate start 133 4 true ≡ done (fault address_error_exception)
unfolding translate misaligned
translate_test = refl

past_test : translate start 256 4 true ≡ done (fault address_error_exception)
unfolding translate misaligned find_entry index_page_table access
past_test = refl

negative_byte_test :
    (write_mem resume start 129 1 255 >>= λ r. read_mem resume r.1 129 1 >>= λ s. done s.0)
    ≡ done (some 4294967295)
unfolding write_mem read_mem translate misaligned find_entry index_page_table access put_entry
    put_in touch write_translated write_physical read_translated read_physical sign_extend
negative_byte_test = refl
