-- ===== src/FileSys/OpenFile/Prepare.antt =====
-- The buffer of `WriteAt`: where the request does not write, it holds the file's bytes.
use nachos.Base.{
  ℕ, ◌+◌, ◌-◌, ◌*◌, ◌/◌, ◌^◌, ◌≤◌, ◌<◌, ◌≡◌, ◌⊎◌, refl, ap, ◌∙◌, true, List, arith, done, ◌==◌,
  if◌then◌else◌, get_or, length, fill, Bool-cases, inl, inr, within, length-fill, get_or-fill, min,
}
use nachos.Base.Int.{pos}
use nachos.FileSys.Header.{Header}
use nachos.FileSys.SynchDisk.{Image, IsImage}
use nachos.FileSys.OpenFile.{OpenFile, new_chars, read_at, prepare_buffer}
use nachos.FileSys.OpenFile.Bytes.{IsFile, byte_at}
use nachos.FileSys.OpenFile.Read.{slice, length-slice, get_or-slice, length-new_chars, read_at_lem}

-- The file's bytes laid over a buffer.
overlay :
    (hdr : Header) (img : Image) (base at m : ℕ) (buf : List ℕ) (j : ℕ)
    → at + m ≤ length buf
    → get_or (fill buf at (slice hdr img (base + at) m)) j 0
      ≡ (if within at (at + m) j then byte_at hdr img (base + j) else get_or buf j 0)
overlay hdr img base at m buf j h =
    let len = length-slice hdr img (base + at) m in
    get_or-fill buf at (slice hdr img (base + at) m) j 0 (omega arith) ∙ rw len inside
  where
    inside :
        (if within at (at + m) j
          then get_or (slice hdr img (base + at) m) (j - at) 0
          else get_or buf j 0)
        ≡ (if within at (at + m) j then byte_at hdr img (base + j) else get_or buf j 0)
    inside = elim (Bool-cases (within at (at + m) j)) [
      | inr out ↦ rw out
      | inl here ↦
          let lo : at ≤ j = ground arith in
          rw here (
            get_or-slice hdr img (base + at) m (j - at) (ground arith)
            ∙ ap (byte_at hdr img) (omega arith))
    ]

-- What the buffer must hold before the new bytes are copied in.
abbrev pub IsPrepared : Header → Image → ℕ → ℕ → List ℕ → Type 0
IsPrepared hdr img n position buf =
    (length buf ≡ (1 + (position + n - 1) / 128 - position / 128) * 128)
    × ((j : ℕ)
        → position / 128 * 128 + j < hdr.num_bytes
        → j < length buf
        → (position / 128 * 128 + j < position) ⊎ (position + n ≤ position / 128 * 128 + j)
        → get_or buf j 0 ≡ byte_at hdr img (position / 128 * 128 + j))

-- The three arithmetic cases of a byte that the request leaves alone: in the part of the first
-- sector before it, or in the part of the last sector behind it.
abbrev head_size : Header → ℕ → ℕ
head_size hdr first = min 128 (hdr.num_bytes - first * 128)

-- A buffer for the blocks from `first` to `last` that holds the file's bytes outside the request.
abbrev pub IsKept : Header → Image → ℕ → ℕ → ℕ → ℕ → List ℕ → Type 0
IsKept hdr img n position first last buf =
    (length buf ≡ (1 + last - first) * 128)
    × ((j : ℕ)
        → first * 128 + j < hdr.num_bytes
        → j < (1 + last - first) * 128
        → (first * 128 + j < position) ⊎ (position + n ≤ first * 128 + j)
        → get_or buf j 0 ≡ byte_at hdr img (first * 128 + j))

module _ (junk : ℕ → ℕ) (f : OpenFile) (img : Image) (n position first last : ℕ)
    (at_first : first ≡ position / 128) (at_last : last ≡ (position + n - 1) / 128)
    (some_bytes : 0 < n) (file : IsFile f.hdr) (disk : IsImage img) where
  abbrev fresh_buf : List ℕ
  fresh_buf = new_chars junk ((1 + last - first) * 128)

  length-fresh_buf : length fresh_buf ≡ (1 + last - first) * 128
  length-fresh_buf = length-new_chars junk ((1 + last - first) * 128)

  abbrev laid : List ℕ → ℕ → ℕ → List ℕ
  laid buf at m = fill buf at (slice f.hdr img (first * 128 + at) m)

  -- Both ends aligned: nothing is kept.
  IsKept-none :
      position ≡ first * 128
      → position + n ≡ (last + 1) * 128
      → IsKept f.hdr img n position first last fresh_buf
  IsKept-none a b = (length-fresh_buf, λ j lt inside out. absurd (omega arith))

  IsKept-head :
      (m : ℕ)
      → m ≡ head_size f.hdr first
      → (first ≡ last) ⊎ (position + n ≡ (last + 1) * 128)
      → IsKept f.hdr img n position first last (laid fresh_buf 0 m)
  IsKept-head m e c = (
    length-fill fresh_buf 0 (slice f.hdr img (first * 128 + 0) m) ∙ length-fresh_buf,
    λ j lt inside out.
        overlay f.hdr img (first * 128) 0 m fresh_buf j (omega (arith, length-fresh_buf))
        ∙ (let h : within 0 (0 + m) j ≡ true = ground arith in rw h),
  )

  IsKept-tail :
      (m : ℕ)
      → m ≡ head_size f.hdr last
      → position ≡ first * 128
      → IsKept f.hdr img n position first last (laid fresh_buf ((last - first) * 128) m)
  IsKept-tail m e a =
      let at = (last - first) * 128 in
      (
        length-fill fresh_buf at (slice f.hdr img (first * 128 + at) m) ∙ length-fresh_buf,
        λ j lt inside out.
            overlay f.hdr img (first * 128) at m fresh_buf j (omega (arith, length-fresh_buf))
            ∙ (let h : within at (at + m) j ≡ true = ground arith in rw h),
      )

  IsKept-both :
      (m k : ℕ)
      → m ≡ head_size f.hdr first
      → k ≡ head_size f.hdr last
      → first < last
      → IsKept f.hdr img n position first last (laid (laid fresh_buf 0 m) ((last - first) * 128) k)
  IsKept-both m k em ek c = (
    lengths,
    λ j lt inside out.
        overlay f.hdr img (first * 128) at k (laid fresh_buf 0 m) j
          (omega (arith, length-fresh_buf, length-head))
        ∙ where_laid j lt inside out,
  )
    where
      at : ℕ
      at = (last - first) * 128

      length-head : length (laid fresh_buf 0 m) ≡ length fresh_buf
      length-head = length-fill fresh_buf 0 (slice f.hdr img (first * 128 + 0) m)

      lengths :
          length (laid (laid fresh_buf 0 m) ((last - first) * 128) k) ≡ (1 + last - first) * 128
      lengths =
          length-fill (laid fresh_buf 0 m) ((last - first) * 128)
            (slice f.hdr img (first * 128 + (last - first) * 128) k)
          ∙ length-head
          ∙ length-fresh_buf

      where_laid :
          (j : ℕ)
          → first * 128 + j < f.hdr.num_bytes
          → j < (1 + last - first) * 128
          → (first * 128 + j < position) ⊎ (position + n ≤ first * 128 + j)
          → (if within ((last - first) * 128) ((last - first) * 128 + k) j
              then byte_at f.hdr img (first * 128 + j)
              else get_or (laid fresh_buf 0 m) j 0)
            ≡ byte_at f.hdr img (first * 128 + j)
      where_laid j lt inside out =
          let head =
            overlay f.hdr img (first * 128) 0 m fresh_buf j (omega (arith, length-fresh_buf)) in
          ground (arith, head)

  -- The two reads of `WriteAt`.
  head_read :
      first * 128 < f.hdr.num_bytes
      → read_at junk f img (pos 128) (first * 128)
        ≡ done (slice f.hdr img (first * 128 + 0) (head_size f.hdr first))
  head_read lt =
      let e : first * 128 + 0 ≡ first * 128 = omega arith in
      rw e (read_at_lem junk f img (pos 128) (first * 128) file disk (small first lt))
    where
      small : (b : ℕ) → b * 128 < f.hdr.num_bytes → b * 128 + 128 < 2 ^ 31
      small b h =
          let covers = file.covers in let room = file.room in let array = file.array in omega arith

  tail_read :
      first ≤ last
      → last * 128 < f.hdr.num_bytes
      → read_at junk f img (pos 128) (last * 128)
        ≡ done (slice f.hdr img (first * 128 + (last - first) * 128) (head_size f.hdr last))
  tail_read le lt =
      let covers = file.covers in
      let room = file.room in
      let array = file.array in
      let e : first * 128 + (last - first) * 128 ≡ last * 128 = omega arith in
      rw e (read_at_lem junk f img (pos 128) (last * 128) file disk (omega arith))

-- The buffer is prepared: the reads do not fail, and what they leave undetermined is overwritten or
-- lies behind the end of the file.
pub prepare_buffer_lem :
    (junk : ℕ → ℕ) (f : OpenFile) (img : Image) (n position : ℕ)
    → IsFile f.hdr
    → IsImage img
    → 0 < n
    → position + n ≤ f.hdr.num_bytes
    → (buf : List ℕ) × (prepare_buffer junk f img n position ≡ done buf)
      × IsKept f.hdr img n position (position / 128) ((position + n - 1) / 128) buf
unfolding prepare_buffer
prepare_buffer_lem junk f img n position file disk some_bytes fits =
    elim (Bool-cases (position == first * 128)) [
      | inl at_head ↦ elim (Bool-cases (position + n == (last + 1) * 128)) [
        | inl at_tail ↦ (
          fresh,
          rw (at_head, at_tail),
          IsKept-none junk f img n position first last refl refl some_bytes file disk (ground arith)
              (ground arith),
        )
        | inr in_tail ↦ (
          fill fresh ((last - first) * 128) tail,
          rw (at_head, in_tail, read_tail) (ground arith),
          IsKept-tail junk f img n position first last refl refl some_bytes file disk
              (head_size f.hdr last) refl (ground arith),
        )
      ]
      | inr in_head ↦ elim (Bool-cases (position + n == (last + 1) * 128)) [
        | inl at_tail ↦ (
          fill fresh 0 head,
          rw (in_head, at_tail, read_head),
          IsKept-head junk f img n position first last refl refl some_bytes file disk
              (head_size f.hdr first) refl (inr (ground arith)),
        )
        | inr in_tail ↦ elim (Bool-cases (first == last)) [
          | inl one ↦ (
            fill fresh 0 head,
            rw (in_head, in_tail, one, read_head),
            IsKept-head junk f img n position first last refl refl some_bytes file disk
                (head_size f.hdr first) refl (inl (ground arith)),
          )
          | inr more ↦ (
            fill (fill fresh 0 head) ((last - first) * 128) tail,
            rw (in_head, in_tail, more, read_head, read_tail),
            IsKept-both junk f img n position first last refl refl some_bytes file disk
                (head_size f.hdr first) (head_size f.hdr last) refl refl (ground arith),
          )
        ]
      ]
    ]
  where
    first : ℕ
    first = position / 128

    last : ℕ
    last = (position + n - 1) / 128

    fresh : List ℕ
    fresh = new_chars junk ((1 + last - first) * 128)

    head : List ℕ
    head = slice f.hdr img (first * 128 + 0) (head_size f.hdr first)

    tail : List ℕ
    tail = slice f.hdr img (first * 128 + (last - first) * 128) (head_size f.hdr last)

    read_tail : read_at junk f img (pos 128) (last * 128) ≡ done tail
    read_tail =
        tail_read junk f img n position first last refl refl some_bytes file disk (omega arith)
          (omega arith)

    read_head : read_at junk f img (pos 128) (first * 128) ≡ done head
    read_head =
        head_read junk f img n position first last refl refl some_bytes file disk (omega arith)
