-- ===== src/Threads/Counting/Refinement.antt =====
-- Every move of the threads of code/threads does to the semaphores what their specification allows.
use nachos.Base.{
  ℕ, ◌≡◌, refl, ap, sym, subst, ◌∙◌, ◌⊎◌, inl, inr, true, false, done, done_injective,
}
use nachos.Interrupt.{int_off, is_off}
use nachos.Threads.{executing, System, run}
use nachos.Threads.Synch.{p_loop, p, v}
use nachos.Threads.Moves.{
  Move, call_p, call_v, call_yield, call_fork, call_finish, call_set_level, handler_v, go_on,
  look_again, is_finished, handle_v, move, Enabled,
}
use nachos.Threads.Invariant.{Phase, Inv}
use nachos.Threads.Invariant.Switching.{set_level_lem}
use nachos.Threads.Invariant.Signalling.{v_lem}
use nachos.Threads.Invariant.Calls.{handled}
use nachos.Threads.Invariant.Preservation.{move-Inv}
use nachos.Threads.Counting.{waiting_at, counters, Stays, Waits, Takes, Gives, Allowed}
use nachos.Threads.Counting.Frames.{look_for_next-Frame}
use nachos.Threads.Counting.Steps.{
  p_loop-counters, resume-counters, yield-counters, fork-counters, finish-counters,
}

-- What a move from a state with the invariant has done to the counters.
pub move-counters :
    (s : System) (m : Move) {s' : System}
    → Inv s
    → Enabled s m
    → move s m ≡ done s'
    → Allowed m s.current_thread (counters s) (counters s')
unfolding move p handle_v is_off
move-counters s (call_p k) {s' = s'} inv c h =
    let off : System = record s { level = int_off } in
    let run : p_loop off k s.level ≡ done s' = rw (set_level_lem s int_off inv.no_handler) at h in
    p_loop-counters off k s.level run
move-counters s (call_v k) inv c h =
    let (a, l, f, run, kept, values, signals) = v_lem s k (inl inv.no_handler) inv.lists inv.fits in
    subst (λ x. Gives k (counters s) (counters x)) (done_injective (sym run ∙ h))
      (values, λ t. refl)
move-counters s call_yield inv c h =
    (yield-counters s (ap waiting_at (subst (Phase s) c inv.phase).1) h).1
move-counters s (call_fork n) inv (c, at) h = (fork-counters s n at h).1
move-counters s call_finish inv c h =
    (finish-counters s (ap waiting_at (subst (Phase s) c inv.phase).1) h).1
move-counters s (call_set_level now) {s' = s'} inv c h =
    let d : record s { level = now } ≡ s' =
      done_injective (rw (set_level_lem s now inv.no_handler) at h) in
    subst (λ x. Stays (counters s) (counters x)) d ((λ k. refl), (λ t. refl))
move-counters s (handler_v k) {s' = s'} inv c h =
    let s1 : System = record s { level = int_off; in_handler = true } in
    let (a, l, f, run, kept, values, signals) = v_lem s1 k (inr refl) inv.lists inv.fits in
    let d : handled s a l f false ≡ s' = done_injective (rw run at h) in
    subst (λ x. Gives k (counters s) (counters x)) d (values, λ t. refl)
move-counters s go_on inv c h = resume-counters s (s.positions s.current_thread) inv c refl h
move-counters s look_again inv c h =
    let (sems, pos) = look_for_next-Frame s (is_finished (s.positions s.current_thread)) h in
    ((λ k. ap (λ f. (f k).value) sems), (λ t. ap (λ f. waiting_at (f t)) pos))

-- From a state in which every thread is at one place, each move that can come ends, fails no
-- assertion, and does to the semaphores what their specification as counters allows: P takes a unit
-- if there is one and makes its caller wait if there is none, V gives one, a waiting thread that
-- goes on takes one or waits again, and no other move touches a counter or lets a thread wait.
pub move-Allowed :
    (s : System) (m : Move)
    → Inv s
    → Enabled s m
    → (s' : System) × (move s m ≡ done s')
      × Inv s'
      × Allowed m s.current_thread (counters s) (counters s')
move-Allowed s m inv on =
    let (s', run, inv') = move-Inv s m inv on in (s', run, inv', move-counters s m inv on run)

pub p-counters :
    (s : System) (k : ℕ)
    → Inv s
    → s.control ≡ executing
    → (s' : System) × (p s k ≡ done s')
      × Inv s'
      × (Waits s.current_thread k (counters s) (counters s')
          ⊎ Takes s.current_thread k (counters s) (counters s'))
unfolding move
p-counters s k inv c = move-Allowed s (call_p k) inv c

pub v-counters :
    (s : System) (k : ℕ)
    → Inv s
    → s.control ≡ executing
    → (s' : System) × (v s k ≡ done s') × Inv s' × Gives k (counters s) (counters s')
unfolding move
v-counters s k inv c = move-Allowed s (call_v k) inv c
