-- ===== src/Syscalls/Numbers/Roundtrip.antt =====
-- EH_ReadNum of code/threads/kernel.cc reads what PrintNum prints.
use nachos.Base.{
  ℕ, zero, suc, ◌+◌, ◌-◌, ◌*◌, ◌/◌, ◌%◌, ◌^◌, ◌<◌, ◌≤◌, ◌≡◌, refl, sym, ◌∙◌, ap, true, false, List,
  [], ◌∷◌, some, done, ◌>>=◌, ltb, ◌==◌, length, get_or, All, arith, inl, inr, Bool-cases,
  >>=-eq-done,
}
use native.Mathlib.Nat.{pow-suc}
use nachos.Base.Int.{ℤ, pos, negsuc, word32, is_int}
use nachos.Syscalls.Numbers.{
  store_line, c_string, is_digit, parse_from, to_int, result, parse, read_num, digits, max_digits,
  print_num,
}

parse_from-digit :
    (d : ℕ) (cs : List ℕ) (re : ℕ)
    → d < 10
    → parse_from ((48 + d) ∷ cs) re 1 0 ≡ parse_from cs (re * 10 + d) 1 0
unfolding parse_from
parse_from-digit d cs re h =
    let yes_digit : is_digit (48 + d) ≡ true = ground (arith, h) in
    let value : (48 + d) - 48 ≡ d = omega arith in rw (yes_digit, value) refl

parse_from-digits :
    (fuel n : ℕ) (later : List ℕ)
    → n < 10 ^ fuel
    → parse_from (digits fuel n later) 0 1 0 ≡ parse_from later n 1 0
unfolding digits
parse_from-digits zero n later h =
    let nil : n ≡ 0 = omega (arith, h) in ap (λ m. parse_from later m 1 0) (sym nil)
parse_from-digits (suc fuel) n later h = elim (Bool-cases (ltb n 10)) [
  | inl small ↦
      let nought : 0 * 10 + n ≡ n = omega arith in
      rw small (
        parse_from-digit n later 0 (ground (arith, small))
        ∙ ap (λ m. parse_from later m 1 0) nought)
  | inr large ↦
      let bound : n / 10 < 10 ^ fuel = omega (arith, h, pow-suc 10 fuel) in
      let whole : n / 10 * 10 + n % 10 ≡ n = omega arith in
      rw large (
        parse_from-digits fuel (n / 10) ((48 + n % 10) ∷ later) bound
        ∙ parse_from-digit (n % 10) later (n / 10) (omega arith)
        ∙ ap (λ m. parse_from later m 1 0) whole)
]

-- No character of it is NUL, and none is before it.
digits-All :
    (P : ℕ → Type 0) (fuel n : ℕ) (later : List ℕ)
    → ((d : ℕ) → d < 10 → P (48 + d))
    → All P later
    → All P (digits fuel n later)
unfolding digits
digits-All P zero n later each h = h
digits-All P (suc fuel) n later each h = elim (Bool-cases (ltb n 10)) [
  | inl small ↦ rw small (each n (ground (arith, small)), h)
  | inr large ↦
      rw large
        (digits-All P fuel (n / 10) ((48 + n % 10) ∷ later) each (each (n % 10) (omega arith), h))
]

length-digits : (fuel n : ℕ) (later : List ℕ) → length (digits fuel n later) ≤ fuel + length later
unfolding digits
length-digits zero n later = omega arith
length-digits (suc fuel) n later = elim (Bool-cases (ltb n 10)) [
  | inl small ↦ rw small (omega arith)
  | inr large ↦ rw large (omega (arith, length-digits fuel (n / 10) ((48 + n % 10) ∷ later)))
]

-- The line in an array whose next character happens to be NUL.
c_string-store_line :
    (value line : List ℕ)
    → length line < length value
    → get_or value (length line) 1 ≡ 0
    → All (λ c. (c == 0) ≡ false) line
    → (store_line value line >>= c_string) ≡ done line
unfolding store_line c_string
c_string-store_line [] line h e a = absurd (omega arith)
c_string-store_line (x ∷ xs) [] h e a = rw e refl
c_string-store_line (x ∷ xs) (c ∷ cs) h e a =
    let (stored, run, string) =
      >>=-eq-done (store_line xs cs) _ (c_string-store_line xs cs (omega (arith, h)) e a.1) in
    rw (run, a.0, string) refl

nonzero_digit : (d : ℕ) → d < 10 → ((48 + d) == 0) ≡ false
nonzero_digit d h = ground arith

not_minus : (d : ℕ) → d < 10 → ((48 + d) == 45) ≡ false
not_minus d h = ground arith

parse-unsigned :
    (cs : List ℕ) → All (λ c. (c == 45) ≡ false) cs → parse cs ≡ result (parse_from cs 0 1 0) false
unfolding parse
parse-unsigned [] a = refl
parse-unsigned (c ∷ cs) a = rw a.0 refl

parse_from-number : (n : ℕ) → n < 10 ^ 10 → parse_from (digits max_digits n []) 0 1 0 ≡ some n
unfolding parse_from
parse_from-number n h = parse_from-digits 10 n [] h

pos_bound : (n : ℕ) → is_int (pos n) ≡ true → n < 10 ^ 10
pos_bound n h = ground (arith, h)

negsuc_bound : (n : ℕ) → is_int (negsuc n) ≡ true → suc n < 10 ^ 10
negsuc_bound n h = ground (arith, h)

parse_minus :
    (n : ℕ) → is_int (negsuc n) ≡ true → parse (print_num (negsuc n)) ≡ done (word32 (negsuc n))
unfolding parse print_num result to_int
parse_minus n h = rw (parse_from-number (suc n) (negsuc_bound n h), h) refl

parse-print_num : (z : ℤ) → is_int z ≡ true → parse (print_num z) ≡ done (word32 z)
unfolding print_num result to_int
parse-print_num (pos n) h =
    parse-unsigned (digits max_digits n [])
      (digits-All (λ c. (c == 45) ≡ false) max_digits n [] not_minus tt)
    ∙ rw (parse_from-number n (pos_bound n h), h) refl
parse-print_num (negsuc n) h = parse_minus n h

abbrev NonZero : List ℕ → Type 0
NonZero = All (λ c. (c == 0) ≡ false)

print_num-NonZero : (z : ℤ) → NonZero (print_num z)
unfolding print_num
print_num-NonZero (pos n) = digits-All (λ c. (c == 0) ≡ false) max_digits n [] nonzero_digit tt
print_num-NonZero (negsuc n) =
    (refl, digits-All (λ c. (c == 0) ≡ false) max_digits (suc n) [] nonzero_digit tt)

length-print_num : (z : ℤ) → length (print_num z) ≤ 11
unfolding print_num
length-print_num (pos n) = omega (arith, length-digits max_digits n [])
length-print_num (negsuc n) = omega (arith, length-digits max_digits (suc n) [])

-- The characters that PrintNum prints for an `int` are read back by EH_ReadNum as that `int`, if the
-- array that nothing has set has a NUL behind them.
pub read_num-print_num :
    (z : ℤ) (value : List ℕ)
    → is_int z ≡ true
    → length value ≡ 20
    → get_or value (length (print_num z)) 1 ≡ 0
    → read_num value (print_num z) ≡ done (word32 z)
unfolding read_num
read_num-print_num z value h size ends =
    let (stored, run, string) = >>=-eq-done (store_line value (print_num z)) _ (
      c_string-store_line value (print_num z) (omega (arith, size, length-print_num z)) ends
        (print_num-NonZero z)) in
    rw (run, string) (parse-print_num z h)
