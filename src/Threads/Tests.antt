-- ===== src/Threads/Tests.antt =====
-- Threads of code/threads at small systems.
use nachos.Base.{
  ℕ, ◌≡◌, ◌↔◌, refl, ap, sym, ◌∙◌, inl, inr, false, [], ◌∷◌, none, some, done, ◌==◌, Bool-cases,
}
use nachos.Lists.{init, is_empty, in_chain, append, is_in_list, remove_front, first_item, rest}
use nachos.Interrupt.{int_off, int_on, is_off}
use nachos.Threads.{
  running, ready, blocked, in_p, switched, run, look_for_next, sleep, find_next_to_run, own_code,
  at_begin, absent, executing, System, update, set_level, ready_to_run, fork,
}
use nachos.Threads.Synch.{new_semaphore, p_loop, p}
use nachos.Threads.Moves.{Move, call_p, call_fork, move, Enabled, Reach, here, later, start}
use nachos.Threads.Invariant.{Fits, SoundLists, Inv}
use nachos.Threads.Invariant.Scheduling.{update-other, by_thread}
use nachos.Threads.Invariant.Preservation.{Reach-Inv, start-Inv, Reach-safe}
use nachos.Threads.Counting.{waiting_at, counters, Allowed}
use nachos.Threads.Counting.Refinement.{move-Allowed}
use nachos.Threads.Lock.{
  outside, acquiring, held, Locking, LockMove, call_acquire, end_acquire, call_acquire_move,
  end_acquire_move, lock_move, CanMove, LockReach, at_start, then_move,
}
use nachos.Threads.Lock.Ownership.{none-not_some}
use nachos.Threads.Lock.Exclusion.{LockInv, outside-not_held}
use nachos.Threads.Lock.Runs.{LockReach-exclusive}
use nachos.Threads.Wakeups.{IsBalanced}
use nachos.Threads.Wakeups.Preservation.{Reach-IsBalanced}
use nachos.Threads.Rotation.{turns, NoneWaits, turns-runs}

abbrev one_each : System
one_each = start (λ k. 1)

abbrev after_fork : System
after_fork = record one_each {
  statuses = update one_each.statuses 5 ready;
  positions = update one_each.positions 5 at_begin;
  ready_list = record { items = 5 ∷ []; num_in_list = 1 };
}

fork-runs : move one_each (call_fork 5) ≡ done after_fork
unfolding start init new_semaphore move fork set_level is_off ready_to_run append is_in_list
    in_chain is_empty
fork-runs = refl

after_fork-Reach : Reach one_each after_fork
unfolding start
after_fork-Reach = later (call_fork 5) here (refl, refl) fork-runs

Reach-safe_example :
    ((m : Move) → Enabled after_fork m → (s' : System) × (move after_fork m ≡ done s'))
    × SoundLists after_fork
    × ((t : ℕ) → Fits after_fork t)
    × ((t : ℕ) → after_fork.statuses t ≡ running → t ≡ after_fork.current_thread)
Reach-safe_example = Reach-safe (λ k. 1) after_fork after_fork-Reach

move-Allowed_example :
    (s' : System) × (move one_each (call_p 3) ≡ done s')
    × Inv s'
    × Allowed (call_p 3) one_each.current_thread (counters one_each) (counters s')
unfolding start
move-Allowed_example = move-Allowed one_each (call_p 3) (start-Inv (λ k. 1)) refl

abbrev unlocked : Locking
unlocked = record { system = one_each; lock_holder = none; stages = λ t. outside }

unlocked-LockInv : LockInv 2 unlocked
unfolding start new_semaphore
unlocked-LockInv = record {
  threads = start-Inv (λ k. 1);
  owned = inl (refl, λ t h. h);
  holder = λ t h. outside-not_held h;
  in_acquire =
      by_thread (λ t. (counters one_each).waits t ≡ some 2 → outside ≡ acquiring) 0
        (λ h. absurd (none-not_some h))
        (λ t h e.
          absurd
            (none-not_some (sym (ap waiting_at (update-other (λ u. absent) 0 own_code t h)) ∙ e)));
}

-- The main thread has acquired the lock.
abbrev locked : Locking
locked = record {
  system = record one_each {
    semaphores =
        update one_each.semaphores 2 (record { value = 0; queue = (one_each.semaphores 2).queue });
    positions = update one_each.positions 0 own_code;
  };
  lock_holder = some 0;
  stages = update (update (λ t. outside) 0 acquiring) 0 held;
}

abbrev in_acquire_state : Locking
in_acquire_state = record {
  system = locked.system;
  lock_holder = none;
  stages = update (λ t. outside) 0 acquiring;
}

acquire-runs : lock_move 2 unlocked call_acquire ≡ done in_acquire_state
unfolding start init new_semaphore lock_move call_acquire_move p p_loop set_level is_off
acquire-runs = refl

end_acquire-runs : lock_move 2 in_acquire_state end_acquire ≡ done locked
unfolding start lock_move end_acquire_move
end_acquire-runs = refl

locked-LockReach : LockReach 2 unlocked locked
unfolding start
locked-LockReach =
    then_move end_acquire (then_move call_acquire at_start (refl, refl) acquire-runs) (refl, refl)
      end_acquire-runs

LockReach-exclusive_example :
    ((t u : ℕ) → locked.stages t ≡ held → locked.stages u ≡ held → t ≡ u)
    × ((t : ℕ) → (locked.stages t ≡ held) ↔ (locked.lock_holder ≡ some t))
    × ((m : LockMove) → CanMove 2 locked m → (z : Locking) × (lock_move 2 locked m ≡ done z))
LockReach-exclusive_example =
    LockReach-exclusive 2 unlocked locked unlocked-LockInv locked-LockReach

abbrev after_forks : System
after_forks = record after_fork {
  statuses = update after_fork.statuses 6 ready;
  positions = update after_fork.positions 6 at_begin;
  ready_list = record { items = 5 ∷ 6 ∷ []; num_in_list = 2 };
}

forks-run : move after_fork (call_fork 6) ≡ done after_forks
unfolding start init new_semaphore move fork set_level is_off ready_to_run append is_in_list
    in_chain is_empty
forks-run = refl

after_forks-NoneWaits : NoneWaits after_forks
unfolding in_chain start
after_forks-NoneWaits t h = elim (Bool-cases (t == 6)) [
  | inl same ↦ rw same refl
  | inr apart ↦ elim (Bool-cases (t == 5)) [
    | inl same ↦ rw (apart, same) refl
    | inr apart' ↦
        let out : in_chain ◌==◌ t (5 ∷ 6 ∷ []) ≡ false = rw (apart', apart) refl in absurd (cc)
  ]
]

-- Thread 6 is behind thread 5 on the ready list.
turns-runs_example :
    (s' : System) × (turns 2 after_forks ≡ done s')
    × Inv s'
    × (s'.control ≡ executing)
    × (s'.current_thread ≡ 6)
unfolding start
turns-runs_example =
    turns-runs after_forks (5 ∷ []) [] 6
      (Reach-Inv one_each after_forks (start-Inv (λ k. 1))
        (later (call_fork 6) after_fork-Reach (refl, refl) forks-run))
      refl refl after_forks-NoneWaits

abbrev none_each : System
none_each = start (λ k. 0)

abbrev two_threads : System
two_threads = record none_each {
  statuses = update none_each.statuses 5 ready;
  positions = update none_each.positions 5 at_begin;
  ready_list = record { items = 5 ∷ []; num_in_list = 1 };
}

two_threads-runs : move none_each (call_fork 5) ≡ done two_threads
unfolding start init new_semaphore move fork set_level is_off ready_to_run append is_in_list
    in_chain is_empty
two_threads-runs = refl

-- The main thread sleeps in P of semaphore 4, and the processor goes to thread 5.
abbrev one_waits : System
one_waits = record two_threads {
  current_thread = 5;
  control = switched;
  level = int_off;
  statuses = update (update two_threads.statuses 0 blocked) 5 running;
  positions = update two_threads.positions 0 (in_p 4 int_on);
  ready_list = record { items = []; num_in_list = 0 };
  semaphores =
      update two_threads.semaphores 4
        (record { value = 0; queue = record { items = 0 ∷ []; num_in_list = 1 } });
}

one_waits-runs : move two_threads (call_p 4) ≡ done one_waits
unfolding start init new_semaphore move p p_loop set_level is_off append is_in_list in_chain
    is_empty sleep look_for_next find_next_to_run run remove_front first_item rest
one_waits-runs = refl

Reach-IsBalanced_example : IsBalanced one_waits 4
unfolding start
Reach-IsBalanced_example =
    Reach-IsBalanced (λ k. 0) one_waits
      (later (call_p 4) (later (call_fork 5) here (refl, refl) two_threads-runs) refl
        one_waits-runs)
      4
