-- ===== src/Syscalls/Numbers.antt =====
-- code/threads/kernel.cc: EH_ReadNum and PrintNum, the numbers of the console. A character is its
-- code.
pub mod Roundtrip
use nachos.Base.{
  ℕ, zero, suc, ◌+◌, ◌-◌, ◌*◌, ◌/◌, ◌%◌, ◌≡◌, Bool, true, false, not, ◌||◌, ◌&&◌, List, [], ◌∷◌,
  ◌++◌, Option, none, some, Outcome, done, aborted, ◌>>=◌, ◌>>◌, assert, ltb, ◌==◌, if◌then◌else◌,
}
use nachos.Base.Int.{ℤ, pos, negsuc, negative, word32, is_int}

-- The loop that stores the characters up to the newline in `value`: `rest` is the array from the
-- index on.
unfoldable pub store_line : List ℕ → List ℕ → Outcome (List ℕ)
store_line rest [] = done rest
store_line [] (c ∷ cs) = aborted
store_line (x ∷ rest) (c ∷ cs) = do stored ← store_line rest cs; done (c ∷ stored)

-- The string in `value`, as `strlen` finds its end: past the array if no character is NUL.
unfoldable pub c_string : List ℕ → Outcome (List ℕ)
c_string [] = aborted
c_string (c ∷ cs) =
    let later = c_string cs >>= λ s. done (c ∷ s) in if c == 0 then done [] else later

abbrev pub is_digit : ℕ → Bool
is_digit c = not (ltb 57 c || ltb c 48)

-- The loop over the string, with the value `re` of the digits so far, and `n` and `count_dot` as in
-- the source; `none` for the return with 0. A `double` holds these whole numbers up to 2 ^ 53.
unfoldable pub parse_from : List ℕ → ℕ → ℕ → ℕ → Option ℕ
parse_from [] re n count_dot = some re
parse_from (c ∷ cs) re n count_dot =
    let whole = parse_from cs (re * 10 + (c - 48)) n count_dot in
    let fraction = parse_from cs (re + (c - 48) / (n * 10)) (n * 10) count_dot in
    let dot = parse_from cs re n (count_dot + 1) in
    if is_digit c
    then (if count_dot == 0 then whole else fraction)
    else (if not (c == 46) || (c == 46 && count_dot == 1) then none else dot)

-- The result as an `int`: the conversion of another number is undefined.
unfoldable pub to_int : ℤ → Outcome ℕ
to_int z = assert (is_int z) >> done (word32 z)

unfoldable pub result : Option ℕ → Bool → Outcome ℕ
result none is_negative = done 0
result (some re) is_negative = to_int (if is_negative then negative re else pos re)

unfoldable pub parse : List ℕ → Outcome ℕ
parse [] = result (parse_from [] 0 1 0) false
parse (c ∷ cs) =
    if c == 45 then result (parse_from cs 0 1 0) true else result (parse_from (c ∷ cs) 0 1 0) false

-- `EH_ReadNum` up to its `WriteRegister`, for the characters before the newline. `value` is the new
-- array, of 20 characters that nothing has set.
unfoldable pub read_num : List ℕ → List ℕ → Outcome ℕ
read_num value line = do stored ← store_line value line; string ← c_string stored; parse string

-- `sprintf` with `%d`, whose digits come from the last on.
unfoldable pub digits : ℕ → ℕ → List ℕ → List ℕ
digits zero n later = later
digits (suc fuel) n later =
    let more = digits fuel (n / 10) ((48 + n % 10) ∷ later) in
    if ltb n 10 then (48 + n) ∷ later else more

-- Ten digits are enough for an `int`.
abbrev pub max_digits : ℕ
max_digits = 10

-- The characters that `PrintNum` prints.
unfoldable pub print_num : ℤ → List ℕ
print_num (pos n) = digits max_digits n []
print_num (negsuc n) = 45 ∷ digits max_digits (suc n) []
