-- ===== src/Bitmap/Tests.antt =====
-- Runs of the bitmap on small inputs, and the theorems at concrete inputs.
use nachos.Base.{◌≡◌, refl, true, false, some, [], ◌∷◌, done, ◌>>=◌, arith, ◌==◌, if◌then◌else◌}
use nachos.Bitmap.{Bitmap, init, test, mark, find_and_set, num_clear, clear}
use nachos.Bitmap.Bit.{IsValid}
use nachos.Bitmap.Alloc.{
  test-mark, test-clear, Allocates, find_and_set-num_clear, IsBlank, init_lem,
}

abbrev two_words : Bitmap
two_words = record { num_bits = 40; num_words = 2; words = 7 ∷ 1 ∷ [] }

two_words-IsValid : IsValid two_words
two_words-IsValid = omega arith

init_run : init 40 ≡ done (record { num_bits = 40; num_words = 2; words = 0 ∷ 0 ∷ [] })
unfolding init
init_run = refl

mark_run : (mark two_words 33 >>= λ b. done b.words) ≡ done (7 ∷ 3 ∷ [])
unfolding mark
mark_run = refl

clear_run : (clear two_words 1 >>= λ b. done b.words) ≡ done (5 ∷ 1 ∷ [])
unfolding clear
clear_run = refl

num_clear_run : num_clear two_words ≡ done 36
unfolding num_clear
num_clear_run = refl

find_and_set_run : (find_and_set two_words >>= λ r. done r.0) ≡ done (some 3)
unfolding find_and_set
find_and_set_run = refl

test-mark_example :
    (mark two_words 33 >>= λ b. test b 35) ≡ (if 33 == 35 then done true else test two_words 35)
test-mark_example = test-mark 33 35 two_words-IsValid (omega arith) (omega arith)

test-clear_example :
    (clear two_words 1 >>= λ b. test b 1) ≡ (if 1 == 1 then done false else test two_words 1)
test-clear_example = test-clear 1 1 two_words-IsValid (omega arith) (omega arith)

find_and_set-num_clear_example : Allocates two_words 36 (find_and_set two_words)
find_and_set-num_clear_example = find_and_set-num_clear 36 two_words-IsValid num_clear_run

init_lem_example : (b : Bitmap) × (init 40 ≡ done b) × IsValid b × IsBlank b × (b.num_bits ≡ 40)
init_lem_example = init_lem 40 (omega arith)
