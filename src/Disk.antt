-- ===== src/Disk.antt =====
-- code/machine/disk.h and disk.cc: the time that a request of the simulated disk takes.
pub mod Latency
mod Tests
use nachos.Base.{
  ℕ, ◌+◌, ◌-◌, ◌*◌, ◌/◌, ◌%◌, ◌≡◌, Bool, true, false, not, ◌&&◌, max, min, Outcome, done, ◌>>=◌,
  ◌>>◌, assert, ltb, ◌==◌, if◌then◌else◌,
}

abbrev pub sectors_per_track : ℕ
sectors_per_track = 32

abbrev pub num_tracks : ℕ
num_tracks = 32

abbrev pub num_sectors : ℕ
num_sectors = sectors_per_track * num_tracks

abbrev pub rotation_time : ℕ
rotation_time = 500

abbrev pub seek_time : ℕ
seek_time = 500

-- The state of the class that the times depend on.
pub record Disk : Type 0 where
  pub active : Bool
  pub last_sector : ℕ
  pub buffer_init : ℕ

-- `(seek, *rotation)` at time `now`; `abs(newTrack - oldTrack)` is the distance of the two.
unfoldable pub time_to_seek : Disk → ℕ → ℕ → ℕ × ℕ
time_to_seek d now new_sector =
    let new_track = new_sector / sectors_per_track in
    let old_track = d.last_sector / sectors_per_track in
    let seek = (max new_track old_track - min new_track old_track) * seek_time in
    let over = (now + seek) % rotation_time in
    (seek, if ltb 0 over then rotation_time - over else 0)

unfoldable pub modulo_diff : ℕ → ℕ → ℕ
modulo_diff to from =
    (to % sectors_per_track + sectors_per_track - from % sectors_per_track) % sectors_per_track

-- Whether the track buffer has the sector, when the head is at rest at `time_after`. Before the
-- buffer is initialized the difference of the times is negative, and its quotient not positive.
unfoldable pub buffered : Disk → ℕ → ℕ → Bool
buffered d time_after new_sector =
    ltb (modulo_diff new_sector (d.buffer_init / rotation_time))
      ((time_after - d.buffer_init) / rotation_time)

unfoldable pub compute_latency : Disk → ℕ → ℕ → Bool → ℕ
compute_latency d now new_sector writing =
    let (seek, rotation) = time_to_seek d now new_sector in
    let time_after = now + seek + rotation in
    if not writing && seek == 0 && buffered d time_after new_sector
    then rotation_time
    else seek
      + (rotation + modulo_diff new_sector (time_after / rotation_time) * rotation_time)
      + rotation_time

unfoldable pub update_last : Disk → ℕ → ℕ → Disk
update_last d now new_sector =
    let (seek, rotate) = time_to_seek d now new_sector in
    record d {
      buffer_init = if not (seek == 0) then now + seek + rotate else d.buffer_init;
      last_sector = new_sector;
    }

-- `ReadRequest` and `WriteRequest` on the state of the disk: the ticks after which the interrupt is
-- scheduled. The transfer of the data is the effect that FileSys.SynchDisk models.
unfoldable pub request : Disk → ℕ → ℕ → Bool → Outcome (ℕ × Disk)
request d now sector_number writing = do
  let ticks = compute_latency d now sector_number writing
  assert (not d.active)
  assert (ltb sector_number num_sectors)
  done (ticks, update_last (record d { active = true }) now sector_number)

-- `CallBack`, before it calls the object that waits.
unfoldable pub call_back : Disk → Disk
call_back d = record d { active = false }
