-- ===== src/Threads/Wakeups/Preservation.antt =====
-- The wakeups of code/threads/synch.cc along the runs of the threads.
use nachos.Base.{ℕ, ◌≡◌, refl, inl, done}
use nachos.Lists.{init}
use nachos.Threads.{System, run}
use nachos.Threads.Synch.{new_semaphore}
use nachos.Threads.Invariant.{Inv}
use nachos.Threads.Moves.{
  Move, call_p, call_v, call_yield, call_fork, call_finish, call_set_level, handler_v, go_on,
  look_again, move, Enabled, Reach, here, later, start,
}
use nachos.Threads.Invariant.Preservation.{Reach-Inv, start-Inv}
use nachos.Threads.Wakeups.{IsBalanced}
use nachos.Threads.Wakeups.Waiting.{p-IsBalanced}
use nachos.Threads.Wakeups.Signalling.{v-IsBalanced, handle_v-IsBalanced}
use nachos.Threads.Wakeups.Scheduling.{
  yield-IsBalanced, fork-IsBalanced, finish-IsBalanced, set_level-IsBalanced, look_again-IsBalanced,
}
use nachos.Threads.Wakeups.Resuming.{resume-IsBalanced}

move-IsBalanced :
    (s : System) (m : Move) {s' : System}
    → Inv s
    → Enabled s m
    → move s m ≡ done s'
    → (j : ℕ) → IsBalanced s j
    → IsBalanced s' j
unfolding move
move-IsBalanced s (call_p k) inv c h j b = p-IsBalanced s k inv c h j b
move-IsBalanced s (call_v k) inv c h j b = v-IsBalanced s k inv h j b
move-IsBalanced s call_yield inv c h j b = yield-IsBalanced s inv c h j b
move-IsBalanced s (call_fork n) inv (c, at) h j b = fork-IsBalanced s n inv c at h j b
move-IsBalanced s call_finish inv c h j b = finish-IsBalanced s inv c h j b
move-IsBalanced s (call_set_level now) inv c h j b = set_level-IsBalanced s now inv h j b
move-IsBalanced s (handler_v k) inv c h j b = handle_v-IsBalanced s k inv h j b
move-IsBalanced s go_on inv c h j b =
    resume-IsBalanced s (s.positions s.current_thread) inv c refl h j b
move-IsBalanced s look_again inv c h j b = look_again-IsBalanced s inv c h j b

Reach-IsBalanced' :
    (s s' : System) → Inv s → Reach s s' → ((j : ℕ) → IsBalanced s j) → (j : ℕ) → IsBalanced s' j
Reach-IsBalanced' s s' inv here before = before
Reach-IsBalanced' s s' inv (later {s' = s1} m r enabled run) before = λ j.
    move-IsBalanced s1 m (Reach-Inv s s1 inv r) enabled run j
      (Reach-IsBalanced' s s1 inv r before j)

-- In every state that the threads, the clock and the devices can lead to after the initialization of
-- the kernel, if a thread is on the queue of a semaphore then each unit that the semaphore has is
-- matched by a thread that waits in P of that semaphore and is ready, or switched to, to take it.
pub Reach-IsBalanced :
    (values : ℕ → ℕ) (s : System) → Reach (start values) s → (j : ℕ) → IsBalanced s j
unfolding start new_semaphore init
Reach-IsBalanced values s reach =
    Reach-IsBalanced' (start values) s (start-Inv values) reach (λ j. inl refl)
