-- ===== src/Disk/Tests.antt =====
-- Requests of the disk of code/machine/disk.cc at concrete times.
use nachos.Base.{◌+◌, ◌*◌, ◌≤◌, ◌≡◌, ◌<◌, refl, ◌⊎◌, true, false, done, arith}
use nachos.Disk.{Disk, compute_latency, time_to_seek, modulo_diff, buffered, request, update_last}
use nachos.Disk.Latency.{Passed, InBuffer, NotInBuffer, compute_latency_lem}

abbrev disk : Disk
disk = record { active = false; last_sector = 3; buffer_init = 0 }

-- A write to the next track at time 20 seeks for 500 ticks, waits for a sector to end, turns on to
-- sector 8 of the track and transfers it.
write_run : compute_latency disk 20 40 true ≡ 4480
unfolding compute_latency time_to_seek modulo_diff
write_run = refl

read_run : compute_latency disk 16020 5 false ≡ 500
unfolding compute_latency time_to_seek modulo_diff buffered
read_run = refl

request_run :
    request disk 20 40 true
    ≡ done (4480, record { active = true; last_sector = 40; buffer_init = 1000 })
unfolding request compute_latency time_to_seek modulo_diff update_last
request_run = refl

compute_latency_lem_example :
    (((compute_latency disk 16020 5 false ≡ 500)
        × (false ≡ false)
        × ((time_to_seek disk 16020 5).0 ≡ 0)
        × InBuffer disk (16020 + (time_to_seek disk 16020 5).0 + (time_to_seek disk 16020 5).1) 5)
      ⊎ (Passed (16020 + compute_latency disk 16020 5 false) 5
          × ((false ≡ true)
              ⊎ 0 < (time_to_seek disk 16020 5).0
              ⊎ NotInBuffer disk
                  (16020 + (time_to_seek disk 16020 5).0 + (time_to_seek disk 16020 5).1)
                  5)))
    × compute_latency disk 16020 5 false ≤ 31 * 500 + 33 * 500
compute_latency_lem_example = compute_latency_lem disk 16020 5 false (omega arith) (omega arith)
