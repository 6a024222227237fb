-- ===== src/Threads/Invariant/Preservation.antt =====
-- No move of the threads of code/threads fails an assertion, and all keep the invariant.
use nachos.Base.{ℕ, ◌≡◌, ◌≢◌, refl, sym, subst, ◌∙◌, done, done_injective}
use nachos.Lists.{init, in_chain}
use nachos.Interrupt.{is_off}
use nachos.Threads.{ThreadStatus, just_created, running, own_code, absent, idling, System, run}
use nachos.Threads.Synch.{new_semaphore}
use nachos.Threads.Moves.{
  Move, call_p, call_v, call_yield, call_fork, call_finish, call_set_level, handler_v, go_on,
  look_again, move, Enabled, Reach, here, later, start,
}
use nachos.Threads.Invariant.{Fits, SoundLists, Phase, Inv}
use nachos.Threads.Invariant.Scheduling.{update-other, by_thread, Fits-by}
use nachos.Threads.Invariant.Switching.{Asleep, look_for_next_lem, finish_lem}
use nachos.Threads.Invariant.Yielding.{yield_lem}
use nachos.Threads.Invariant.Resuming.{resume_lem}
use nachos.Threads.Invariant.Calls.{
  Busy-of, fork_lem, p_lem, handle_v_lem, call_v_lem, set_level_move,
}

Asleep-of : (s : System) → Inv s → s.control ≡ idling → Asleep s
Asleep-of s inv c =
    let h = subst (Phase s) c inv.phase in
    record {
      off = h.2;
      quiet = inv.no_handler;
      lists = inv.lists;
      fits = inv.fits;
      stopped = h.0;
      at_sleep = h.1;
      vacant = h.3;
    }

-- From a state in which every thread is at one place, no move that the threads, the clock or the
-- devices can make fails an assertion or crashes, and it leads to such a state again.
pub move-Inv :
    (s : System) (m : Move) → Inv s → Enabled s m → (s' : System) × (move s m ≡ done s') × Inv s'
unfolding move
move-Inv s (call_p k) inv c = p_lem s k inv c
move-Inv s (call_v k) inv c = call_v_lem s k inv
move-Inv s call_yield inv c =
    let b = Busy-of s inv c in
    let (s', run, inv', passes) = yield_lem s inv c b.status b.vacant in (s', run, inv')
move-Inv s (call_fork n) inv (c, at) =
    let (s', run, inv', same, items) = fork_lem s n inv c at in (s', run, inv')
move-Inv s call_finish inv c = let b = Busy-of s inv c in finish_lem s inv b.status b.vacant
move-Inv s (call_set_level now) inv c = set_level_move s now inv c
move-Inv s (handler_v k) inv c = handle_v_lem s k inv
move-Inv s go_on inv c = resume_lem s (s.positions s.current_thread) inv c refl
move-Inv s look_again inv c = look_for_next_lem s (Asleep-of s inv c)

pub Reach-Inv : (s s' : System) → Inv s → Reach s s' → Inv s'
Reach-Inv s s' inv here = inv
Reach-Inv s s' inv (later {s' = s1} m r enabled run) =
    let (s2, run2, inv2) = move-Inv s1 m (Reach-Inv s s1 inv r) enabled in
    subst Inv (done_injective (sym run2 ∙ run)) inv2

just-not_running : {a : ThreadStatus} → a ≡ just_created → a ≢ running
just-not_running h e = cc

-- After the initialization of the kernel every thread is at one place.
pub start-Inv : (values : ℕ → ℕ) → Inv (start values)
unfolding start init new_semaphore in_chain is_off
start-Inv values = record {
  lists = ((refl, tt), λ j. (refl, tt));
  fits =
      by_thread (Fits (start values)) 0 (refl, λ j. refl)
        (λ t h.
          Fits-by (start values) t (update-other (λ u. just_created) 0 running t h)
            (refl, (λ j. refl), update-other (λ u. absent) 0 own_code t h));
  alone =
      by_thread (λ t. (start values).statuses t ≡ running → t ≡ 0) 0 (λ h. refl)
        (λ t h e. absurd (just-not_running (update-other (λ u. just_created) 0 running t h) e));
  phase = (refl, refl, refl);
  no_handler = refl;
}

-- In every state that the threads, the clock and the devices can lead to after the initialization of
-- the kernel, whatever the values of the semaphores, no move that can come next fails an assertion or
-- crashes; the ready list holds each thread that is ready once and no other, each thread that sleeps
-- in P is on the queue of that semaphore alone, and no thread but the current one is running.
pub Reach-safe :
    (values : ℕ → ℕ) (s : System)
    → Reach (start values) s
    → ((m : Move) → Enabled s m → (s' : System) × (move s m ≡ done s'))
      × SoundLists s
      × ((t : ℕ) → Fits s t)
      × ((t : ℕ) → s.statuses t ≡ running → t ≡ s.current_thread)
Reach-safe values s reach =
    let inv = Reach-Inv (start values) s (start-Inv values) reach in
    (
      (λ m on. let (s', run, inv') = move-Inv s m inv on in (s', run)),
      inv.lists,
      inv.fits,
      inv.alone,
    )
