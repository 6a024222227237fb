-- ===== src/Threads/Invariant/Resuming.antt =====
-- What a thread does when code/threads/switch.S comes back to it: the ends of Yield, of ThreadRoot's
-- start and of the loop of Semaphore::P keep the invariant.
use nachos.Base.{ℕ, ◌≡◌, ◌≢◌, refl, ap, sym, subst, ◌∙◌, ◌⊎◌, inl, inr, Option, none, some, done}
use nachos.Interrupt.{IntStatus, int_on, is_off}
use nachos.Threads.{
  ThreadStatus, just_created, running, ready, blocked, Position, own_code, in_yield, in_p, at_begin,
  finished, absent, executing, switched, System, update, run, check_to_be_destroyed, after_switch,
  begin_thread, finish_yield,
}
use nachos.Threads.Moves.{resume}
use nachos.Threads.Invariant.{IsSuspended, Agrees, is_ready, is_queued, Fits, Doomed, Phase, Inv}
use nachos.Threads.Invariant.Scheduling.{
  ==-other, update_self, update-other, by_thread, Agrees-same, Fits-status,
}
use nachos.Threads.Invariant.Switching.{set_level_lem}
use nachos.Threads.Invariant.Looping.{Busy, settled, settled_lem, p_loop_lem}

-- The state after the deletion of a thread, if one waits for it.
abbrev pub Cleaned : System → System → Type 0
Cleaned s s' =
    Busy s'
    × (s'.current_thread ≡ s.current_thread)
    × (s'.level ≡ s.level)
    × ((t : ℕ)
        → (s'.positions t ≡ s.positions t)
          ⊎ ((s.positions t ≡ finished) × (s'.positions t ≡ absent)))
    × (s'.semaphores ≡ s.semaphores)
    × (s'.ready_list ≡ s.ready_list)

absent-Fits :
    (s : System) (n : ℕ) (a : ThreadStatus)
    → s.statuses n ≡ a
    → s.positions n ≡ finished
    → Fits s n
    → Agrees a absent (is_ready s n) (is_queued s n)
absent-Fits s n blocked e at h =
    let (unready, unqueued) = Agrees-same (sym e) (sym at) refl (λ j. refl) h in (unready, unqueued)
absent-Fits s n ready e at h =
    let g = Agrees-same {b = ready} {d = finished} (sym e) (sym at) refl (λ j. refl) h in absurd g.2
absent-Fits s n running e at h = Fits-status s n e h
absent-Fits s n just_created e at h = let g = Fits-status s n e h in (g.0, g.1, refl)

Cleaned-of :
    (s : System) (o : Option ℕ)
    → s.to_be_destroyed ≡ o
    → Inv s
    → s.statuses s.current_thread ≡ running
    → Doomed s o
    → (s' : System) × (check_to_be_destroyed s ≡ done s') × Cleaned s s'
unfolding check_to_be_destroyed
Cleaned-of s none e inv status fate = (
  s,
  (rw e refl),
  (
    record {
      quiet = inv.no_handler;
      lists = inv.lists;
      fits = inv.fits;
      status = status;
      alone = inv.alone;
      vacant = e;
    },
    refl,
    refl,
    (λ t. inl refl),
    refl,
    refl,
  ),
)
Cleaned-of s (some n) e inv status (apart, at) =
    let pos = update s.positions n absent in
    let s' : System = record s { to_be_destroyed = none; positions = pos } in
    (
      s',
      (rw (e, ==-other n s.current_thread apart) refl),
      (
        record {
          quiet = inv.no_handler;
          lists = inv.lists;
          fits =
              by_thread (Fits s') n
                (Agrees-same refl (update_self s.positions n absent) refl (λ j. refl)
                  (absent-Fits s n (s.statuses n) refl at (inv.fits n)))
                (λ t h.
                  Agrees-same refl (update-other s.positions n absent t h) refl (λ j. refl)
                    (inv.fits t));
          status = status;
          alone = inv.alone;
          vacant = refl;
        },
        refl,
        refl,
        by_thread (λ t. (pos t ≡ s.positions t) ⊎ ((s.positions t ≡ finished) × (pos t ≡ absent))) n
            (inr (at, update_self s.positions n absent))
            (λ t h. inl (update-other s.positions n absent t h)),
        refl,
        refl,
      ),
    )

pub check_to_be_destroyed_lem :
    (s : System)
    → Inv s
    → s.control ≡ switched
    → (s' : System) × (check_to_be_destroyed s ≡ done s') × Cleaned s s'
check_to_be_destroyed_lem s inv c =
    let h = subst (Phase s) c inv.phase in Cleaned-of s s.to_be_destroyed refl inv h.0 h.3

-- The code after SWITCH, at any place where a thread can be suspended.
pub resume_lem :
    (s : System) (pos : Position)
    → Inv s
    → s.control ≡ switched
    → s.positions s.current_thread ≡ pos
    → (s' : System) × (resume s pos ≡ done s') × Inv s'
unfolding resume after_switch finish_yield begin_thread
resume_lem s (in_yield old) inv c e =
    let h = subst (Phase s) c inv.phase in
    let (s', clean, (busy, same, level, at, sems, queue)) = check_to_be_destroyed_lem s inv c in
    (
      settled s' old,
      (rw (h.2, clean, set_level_lem s' old busy.quiet) refl),
      settled_lem s' old busy,
    )
resume_lem s (in_p k old) inv c e =
    let h = subst (Phase s) c inv.phase in
    let (s1, clean, (busy, same, level, at, sems, queue)) = check_to_be_destroyed_lem s inv c in
    let (s', run, inv') = p_loop_lem s1 k old (ap is_off level ∙ h.2) busy in
    (s', (rw (h.2, clean) run), inv')
resume_lem s at_begin inv c e =
    let (s', clean, (busy, same, level, at, sems, queue)) = check_to_be_destroyed_lem s inv c in
    (
      settled s' int_on,
      (rw (clean, set_level_lem s' int_on busy.quiet) refl),
      settled_lem s' int_on busy,
    )
resume_lem s own_code inv c e =
    let h = subst IsSuspended e (subst (Phase s) c inv.phase).1 in absurd h
resume_lem s finished inv c e =
    let h = subst IsSuspended e (subst (Phase s) c inv.phase).1 in absurd h
resume_lem s absent inv c e =
    let h = subst IsSuspended e (subst (Phase s) c inv.phase).1 in absurd h

-- A thread that was not waiting in P runs its own code again, and the ready list is as before.
pub resume_runs :
    (s : System) (pos : Position)
    → Inv s
    → s.control ≡ switched
    → s.positions s.current_thread ≡ pos
    → ((k : ℕ) (old : IntStatus) → pos ≢ in_p k old)
    → (s' : System) × (resume s pos ≡ done s')
      × (s'.control ≡ executing)
      × (s'.current_thread ≡ s.current_thread)
      × (s'.ready_list ≡ s.ready_list)
      × (s'.semaphores ≡ s.semaphores)
unfolding resume after_switch finish_yield begin_thread
resume_runs s (in_yield old) inv c e idle =
    let h = subst (Phase s) c inv.phase in
    let (s', clean, (busy, same, level, at, sems, queue)) = check_to_be_destroyed_lem s inv c in
    (
      settled s' old,
      (rw (h.2, clean, set_level_lem s' old busy.quiet) refl),
      refl,
      same,
      queue,
      sems,
    )
resume_runs s (in_p k old) inv c e idle = absurd (idle k old refl)
resume_runs s at_begin inv c e idle =
    let (s', clean, (busy, same, level, at, sems, queue)) = check_to_be_destroyed_lem s inv c in
    (
      settled s' int_on,
      (rw (clean, set_level_lem s' int_on busy.quiet) refl),
      refl,
      same,
      queue,
      sems,
    )
resume_runs s own_code inv c e idle =
    let h = subst IsSuspended e (subst (Phase s) c inv.phase).1 in absurd h
resume_runs s finished inv c e idle =
    let h = subst IsSuspended e (subst (Phase s) c inv.phase).1 in absurd h
resume_runs s absent inv c e idle =
    let h = subst IsSuspended e (subst (Phase s) c inv.phase).1 in absurd h
