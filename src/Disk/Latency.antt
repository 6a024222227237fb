-- ===== src/Disk/Latency.antt =====
-- Disk::ComputeLatency of code/machine/disk.cc: when the requested sector passes the head.
use nachos.Base.{
  ℕ, ◌+◌, ◌-◌, ◌*◌, ◌/◌, ◌%◌, ◌<◌, ◌≤◌, ◌≡◌, ◌≢◌, refl, ◌∙◌, ==_iff, ap, ◌⊎◌, inl, inr, Bool, true,
  false, not, ◌&&◌, ◌==◌, arith, Bool-cases, subst,
}
use nachos.Disk.{
  Disk, time_to_seek, modulo_diff, buffered, compute_latency, rotation_time, sectors_per_track,
  num_sectors,
}

-- The sector that is under the head when a transfer of one sector ends at `time`.
abbrev pub Passed : ℕ → ℕ → Type 0
Passed time sector =
    (time % rotation_time ≡ 0)
    × ((time / rotation_time - 1) % sectors_per_track ≡ sector % sectors_per_track)

Passed-rounds :
    (t d to : ℕ)
    → t % rotation_time ≡ 0
    → d
      ≡ (to % sectors_per_track + sectors_per_track - t / rotation_time % sectors_per_track)
        % sectors_per_track
    → Passed (t + d * rotation_time + rotation_time) to
Passed-rounds t d to h e =
    let whole : (t + d * rotation_time + rotation_time) / rotation_time - 1
        ≡ t / rotation_time + d =
      omega arith in
    let under : (t / rotation_time + d) % sectors_per_track ≡ to % sectors_per_track =
      omega arith in
    (omega arith, ap (λ n. n % sectors_per_track) whole ∙ under)

Passed-modulo_diff :
    (now seek rotation to : ℕ)
    → (now + seek + rotation) % rotation_time ≡ 0
    → Passed
        (now
          + (seek
              + (rotation
                  + modulo_diff to ((now + seek + rotation) / rotation_time) * rotation_time)
              + rotation_time))
        to
unfolding modulo_diff
Passed-modulo_diff now seek rotation to h =
    let d = modulo_diff to ((now + seek + rotation) / rotation_time) in
    let order : now + seek + rotation + d * rotation_time + rotation_time
        ≡ now + (seek + (rotation + d * rotation_time) + rotation_time) =
      omega arith in
    subst (λ n. Passed n to) order (Passed-rounds (now + seek + rotation) d to h refl)

found_parts :
    (w : Bool) (s : ℕ) (b : Bool)
    → (not w && s == 0 && b) ≡ true
    → (w ≡ false) × (s ≡ 0) × (b ≡ true)
found_parts true s b h = absurd (cc)
found_parts false s b h = elim (Bool-cases (s == 0)) [
  | inl still ↦ (refl, (==_iff s 0).0 still, (rw still at h))
  | inr moving ↦ let no_read = rw moving at h in absurd (cc)
]

-- The sector is among those that have passed the head since the buffer was started, up to `time_after`.
abbrev pub InBuffer : Disk → ℕ → ℕ → Type 0
InBuffer d time_after sector =
    (j : ℕ) × j < (time_after - d.buffer_init) / rotation_time
    × ((d.buffer_init / rotation_time + j) % sectors_per_track ≡ sector % sectors_per_track)

-- It is not.
abbrev pub NotInBuffer : Disk → ℕ → ℕ → Type 0
NotInBuffer d time_after sector =
    (j : ℕ)
    → j < (time_after - d.buffer_init) / rotation_time
    → (d.buffer_init / rotation_time + j) % sectors_per_track ≢ sector % sectors_per_track

modulo_diff-under :
    (to from : ℕ) → (from + modulo_diff to from) % sectors_per_track ≡ to % sectors_per_track
unfolding modulo_diff
modulo_diff-under to from = omega arith

modulo_diff-least :
    (to from j : ℕ)
    → (from + j) % sectors_per_track ≡ to % sectors_per_track
    → modulo_diff to from ≤ j
unfolding modulo_diff
modulo_diff-least to from j h = omega (arith, h)

buffered-InBuffer :
    (d : Disk) (after sector : ℕ) → buffered d after sector ≡ true → InBuffer d after sector
unfolding buffered
buffered-InBuffer d after sector h =
    let from = d.buffer_init / rotation_time in
    (modulo_diff sector from, ground (arith, h), modulo_diff-under sector from)

buffered-NotInBuffer :
    (d : Disk) (after sector : ℕ) → buffered d after sector ≡ false → NotInBuffer d after sector
unfolding buffered
buffered-NotInBuffer d after sector h j early e =
    let least = modulo_diff-least sector (d.buffer_init / rotation_time) j e in
    absurd (ground (arith, h, early, least))

not_found_parts :
    (w : Bool) (s : ℕ) (b : Bool)
    → (not w && s == 0 && b) ≡ false
    → (w ≡ true) ⊎ 0 < s ⊎ (b ≡ false)
not_found_parts true s b h = inl refl
not_found_parts false s b h = elim (Bool-cases (s == 0)) [
  | inl still ↦ inr (inr (ground (arith, h, still)))
  | inr moving ↦ inr (inl (ground (arith, moving)))
]

module _ (d : Disk) (now sector : ℕ) (writing : Bool) where
  abbrev seek_of : ℕ
  seek_of = (time_to_seek d now sector).0

  abbrev rotation_of : ℕ
  rotation_of = (time_to_seek d now sector).1

  time_to_seek_lem :
      d.last_sector < num_sectors
      → sector < num_sectors
      → (seek_of ≤ 31 * 500)
        × ((now + seek_of + rotation_of) % rotation_time ≡ 0)
        × rotation_of < rotation_time
  unfolding time_to_seek
  time_to_seek_lem h k = (omega arith, ground arith, ground arith)

  modulo_diff-lt : (to from : ℕ) → modulo_diff to from < sectors_per_track
  unfolding modulo_diff
  modulo_diff-lt to from = omega arith

  -- Between two sectors of the disk, a read without a seek of a sector that has passed the head since
  -- the track buffer was started takes the time of one sector. Any other request, a write, one with a
  -- seek, or a read of a sector that has not passed, ends exactly when the requested sector has passed
  -- the head. No request takes longer than the longest seek, a turn of the track
  -- and two sectors.
  pub compute_latency_lem :
      d.last_sector < num_sectors
      → sector < num_sectors
      → (((compute_latency d now sector writing ≡ rotation_time)
            × (writing ≡ false)
            × ((time_to_seek d now sector).0 ≡ 0)
            × InBuffer d
                (now + (time_to_seek d now sector).0 + (time_to_seek d now sector).1)
                sector)
          ⊎ (Passed (now + compute_latency d now sector writing) sector
              × ((writing ≡ true)
                  ⊎ 0 < (time_to_seek d now sector).0
                  ⊎ NotInBuffer d
                      (now + (time_to_seek d now sector).0 + (time_to_seek d now sector).1)
                      sector)))
        × compute_latency d now sector writing ≤ 31 * 500 + 33 * 500
  unfolding compute_latency
  compute_latency_lem h k =
      let (short, aligned, small) = time_to_seek_lem h k in
      let after = now + seek_of + rotation_of in
      let turn = modulo_diff-lt sector ((now + seek_of + rotation_of) / rotation_time) in
      elim (Bool-cases
        (not writing && seek_of == 0 && buffered d (now + seek_of + rotation_of) sector)) [
          | inl found ↦
              let (reads, still, there) =
                found_parts writing seek_of (buffered d (now + seek_of + rotation_of) sector)
                  found in
              rw found
                (inl (refl, reads, still, buffered-InBuffer d after sector there), omega arith)
          | inr not_found ↦
              let why : (writing ≡ true) ⊎ 0 < seek_of ⊎ NotInBuffer d after sector =
                elim (not_found_parts writing seek_of (buffered d after sector) not_found) [
                  | inl writes ↦ inl writes
                  | inr (inl moves) ↦ inr (inl moves)
                  | inr (inr absent) ↦ inr (inr (buffered-NotInBuffer d after sector absent))
                ] in
              rw not_found
                (inr (Passed-modulo_diff now seek_of rotation_of sector aligned, why), omega arith)
        ]
