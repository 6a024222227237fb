-- ===== src/Machine/Memory/Bytes.antt =====
-- The integers in the bytes of the memory, for ReadMem and WriteMem of code/machine/translate.cc.
use nachos.Base.{
  ℕ, zero, suc, ◌+◌, ◌*◌, ◌/◌, ◌%◌, ◌^◌, ◌<◌, ◌≤◌, ◌≡◌, refl, sym, ap, ◌∙◌, ◌⊎◌, inl, inr, false,
  List, done, ◌==◌, if◌then◌else◌, get_or, set, length, get_or-set, length-set, arith, subst,
}
use nachos.Machine.Memory.{le_word, put_le_word, sign_extend, read_physical, write_physical}
use nachos.Machine.Translate.Grant.{IsSize}

length-put_le_word :
    (n : ℕ) (mem : List ℕ) (p value : ℕ) → length (put_le_word mem p n value) ≡ length mem
unfolding put_le_word
length-put_le_word zero mem p value = refl
length-put_le_word (suc n) mem p value =
    length-put_le_word n (set mem p (value % 256)) (p + 1) (value / 256)
    ∙ length-set mem p (value % 256)

put_le_word-other :
    (n : ℕ) (mem : List ℕ) (p value j : ℕ)
    → p + n ≤ length mem
    → (j < p) ⊎ p + n ≤ j
    → get_or (put_le_word mem p n value) j 0 ≡ get_or mem j 0
unfolding put_le_word
put_le_word-other zero mem p value j h o = refl
put_le_word-other (suc n) mem p value j h o =
    let size = length-set mem p (value % 256) in
    let out : (j < p + 1) ⊎ p + 1 + n ≤ j = elim o [
      | inl lo ↦ inl (omega arith)
      | inr hi ↦ inr (omega arith)
    ] in
    let here = get_or-set mem p j (value % 256) 0 (omega arith) in
    let apart : (p == j) ≡ false = elim o [ inl lo ↦ ground arith | inr hi ↦ ground arith ] in
    put_le_word-other n (set mem p (value % 256)) (p + 1) (value / 256) j (omega (arith, size)) out
    ∙ here
    ∙ rw apart refl

-- The number of values of `n` bytes.
abbrev values : ℕ → ℕ
values zero = 1
values (suc n) = 256 * values n

le_word-put_le_word :
    (n : ℕ) (mem : List ℕ) (p value : ℕ)
    → p + n ≤ length mem
    → value < values n
    → le_word (put_le_word mem p n value) p n ≡ value
unfolding put_le_word le_word
le_word-put_le_word zero mem p value h b = omega arith
le_word-put_le_word (suc n) mem p value h b =
    let size = length-set mem p (value % 256) in
    let first =
      put_le_word-other n (set mem p (value % 256)) (p + 1) (value / 256) p (omega (arith, size))
        (inl (omega arith)) in
    let head = get_or-set mem p p (value % 256) 0 (omega arith) in
    let rest =
      le_word-put_le_word n (set mem p (value % 256)) (p + 1) (value / 256) (omega (arith, size))
        (omega arith) in
    rw (first, rest) (ground (arith, head))

-- What an integer of `size` bytes keeps of a value that is written to it and read back.
abbrev pub narrowed : ℕ → ℕ → ℕ
narrowed size value = if size == 1 then sign_extend (value % 256) else value % 256 ^ size

-- Writing inside the memory succeeds, changes only the bytes at `p`, and reads back.
pub write_physical_lem :
    (mem : List ℕ) (p size value : ℕ)
    → IsSize size
    → p + size ≤ length mem
    → value < 2 ^ 32
    → (mem' : List ℕ) × (write_physical mem p size value ≡ done mem')
      × (length mem' ≡ length mem)
      × (read_physical mem' p size ≡ done (narrowed size value))
unfolding write_physical read_physical
write_physical_lem mem p size value (inl one) h b =
    let e = get_or-set mem p p (value % 256) 0 (omega arith) in
    let here : get_or (set mem p (value % 256)) p 0 ≡ value % 256 = ground (arith, e) in
    rw one (
      set mem p (value % 256),
      refl,
      length-set mem p (value % 256),
      ap (λ byte. done (sign_extend byte)) here,
    )
write_physical_lem mem p size value (inr (inl two)) h b = rw two (
  put_le_word mem p 2 (value % 2 ^ 16),
  refl,
  length-put_le_word 2 mem p (value % 2 ^ 16),
  ap done (le_word-put_le_word 2 mem p (value % 2 ^ 16) (omega arith) (omega arith)),
)
write_physical_lem mem p size value (inr (inr four)) h b =
    let whole : value ≡ value % 2 ^ 32 = omega arith in
    rw four (
      put_le_word mem p 4 value,
      refl,
      length-put_le_word 4 mem p value,
      ap done (le_word-put_le_word 4 mem p value (omega arith) (omega arith) ∙ whole),
    )

pub write_physical-other :
    (mem mem' : List ℕ) (p size value j : ℕ)
    → IsSize size
    → p + size ≤ length mem
    → write_physical mem p size value ≡ done mem'
    → (j < p) ⊎ p + size ≤ j
    → get_or mem' j 0 ≡ get_or mem j 0
unfolding write_physical
write_physical-other mem mem' p size value j (inl one) h w o =
    let run : done (set mem p (value % 256)) ≡ done mem' = rw one at w in
    let e = get_or-set mem p j (value % 256) 0 (omega arith) in
    let apart : (p == j) ≡ false = elim o [ inl lo ↦ ground arith | inr hi ↦ ground arith ] in
    let same : set mem p (value % 256) ≡ mem' = cc in
    ap (λ m. get_or m j 0) (sym same) ∙ e ∙ rw apart refl
write_physical-other mem mem' p size value j (inr (inl two)) h w o =
    let run : done (put_le_word mem p 2 (value % 2 ^ 16)) ≡ done mem' = rw two at w in
    let same : put_le_word mem p 2 (value % 2 ^ 16) ≡ mem' = cc in
    ap (λ m. get_or m j 0) (sym same)
    ∙ put_le_word-other 2 mem p (value % 2 ^ 16) j (omega arith)
        (subst (λ n. (j < p) ⊎ p + n ≤ j) two o)
write_physical-other mem mem' p size value j (inr (inr four)) h w o =
    let run : done (put_le_word mem p 4 value) ≡ done mem' = rw four at w in
    let same : put_le_word mem p 4 value ≡ mem' = cc in
    ap (λ m. get_or m j 0) (sym same)
    ∙ put_le_word-other 4 mem p value j (omega arith) (subst (λ n. (j < p) ⊎ p + n ≤ j) four o)
