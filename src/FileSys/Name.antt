-- ===== src/FileSys/Name.antt =====
-- File names as the directory stores and compares them: `strncpy` and `strncmp` of the C library,
-- at a limit. A C string is the list of its bytes, whose end stands for the terminating NUL.
use nachos.Base.{
  ℕ, zero, suc, ◌≡◌, refl, Bool, true, false, List, [], ◌∷◌, ◌++◌, arith, ◌==◌, if◌then◌else◌,
  Bool-cases, inl, inr, drop,
}

abbrev pub first_char : List ℕ → ℕ
first_char [] = 0
first_char (x ∷ xs) = x

abbrev pub after_char : List ℕ → List ℕ
after_char [] = []
after_char (x ∷ xs) = xs

-- `!strncmp(a, b, n)`
unfoldable pub same_name : ℕ → List ℕ → List ℕ → Bool
same_name zero a b = true
same_name (suc n) a b =
    let rest = same_name n (after_char a) (after_char b) in
    if first_char a == first_char b then (if first_char a == 0 then true else rest) else false

-- The `n` bytes that `strncpy(dst, src, n)` writes.
unfoldable pub name_bytes : ℕ → List ℕ → List ℕ
name_bytes zero s = []
name_bytes (suc n) s = first_char s ∷ name_bytes n (if first_char s == 0 then [] else after_char s)

-- `strncpy(dst, src, n)`: the rest of the array `dst` stays.
unfoldable pub strncpy : List ℕ → List ℕ → ℕ → List ℕ
unfolding name_bytes
strncpy dst src n = name_bytes n src ++ drop n dst

pub same_name-name_bytes :
    (n : ℕ) (a b rest : List ℕ) → same_name n (name_bytes n a ++ rest) b ≡ same_name n a b
unfolding same_name name_bytes
same_name-name_bytes zero a b rest = refl
same_name-name_bytes (suc n) a b rest = elim (Bool-cases (first_char a == 0)) [
  | inl e ↦ ground (arith, e)
  | inr e ↦ rw (e, same_name-name_bytes n (after_char a) (after_char b) rest)
]

-- A stored name answers to the same names as the string that it was copied from.
pub same_name-strncpy :
    (n : ℕ) (dst a b : List ℕ) → same_name n (strncpy dst a n) b ≡ same_name n a b
unfolding strncpy
same_name-strncpy n dst a b = same_name-name_bytes n a b (drop n dst)

pub same_name_refl : (n : ℕ) (a : List ℕ) → same_name n a a ≡ true
unfolding same_name
same_name_refl zero a = refl
same_name_refl (suc n) a = ground (arith, same_name_refl n (after_char a))

pub same_name_sym : (n : ℕ) (a b : List ℕ) → same_name n a b ≡ same_name n b a
unfolding same_name
same_name_sym zero a b = refl
same_name_sym (suc n) a b = ground (arith, same_name_sym n (after_char a) (after_char b))

pub same_name_trans :
    (n : ℕ) (a b c : List ℕ) → same_name n a b ≡ true → same_name n b c ≡ same_name n a c
unfolding same_name
same_name_trans zero a b c h = refl
same_name_trans (suc n) a b c h =
    ground (arith, same_name_trans n (after_char a) (after_char b) (after_char c))
