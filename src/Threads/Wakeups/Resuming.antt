-- ===== src/Threads/Wakeups/Resuming.antt =====
-- A thread that waits goes on behind SWITCH of code/threads/switch.S.
use nachos.Base.{
  ℕ, ◌≡◌, ◌≢◌, refl, ap, sym, subst, ◌∙◌, ap₂, inl, inr, false, ◌∷◌, none, some, done, arith,
  done_injective,
}
use nachos.Interrupt.{IntStatus, is_off}
use nachos.Threads.{
  Position, own_code, in_yield, in_p, at_begin, finished, absent, switched, System, run,
  after_switch,
}
use nachos.Threads.Synch.{p_loop}
use nachos.Threads.Invariant.{is_ready, Inv, Phase}
use nachos.Threads.Invariant.Scheduling.{Fits-status}
use nachos.Threads.Counting.{waiting_at, counters, Stays}
use nachos.Threads.Counting.Steps.{resume-counters, counters-eq, Cleaned-Stays}
use nachos.Threads.Moves.{resume}
use nachos.Threads.Invariant.Resuming.{Cleaned, check_to_be_destroyed_lem, resume_runs}
use nachos.Threads.Wakeups.{waits_for, count, next_of, next_threads, IsBalanced, BeforeP}
use nachos.Threads.Wakeups.Counts.{still-IsBalanced, own-next}
use nachos.Threads.Wakeups.Waiting.{p_loop-IsBalanced}

switched-next :
    (s : System) → s.control ≡ switched → next_threads s ≡ s.current_thread ∷ s.ready_list.items
switched-next s c = ap (λ x. next_of x s.current_thread s.ready_list.items) c

-- A thread that was suspended elsewhere than in P.
resume_other :
    (s : System) (pos : Position) {s' : System}
    → Inv s
    → s.control ≡ switched
    → s.positions s.current_thread ≡ pos
    → waiting_at pos ≡ none
    → resume s pos ≡ done s'
    → Stays (counters s) (counters s')
    → (j : ℕ) → IsBalanced s j
    → ((k : ℕ) (old : IntStatus) → pos ≢ in_p k old)
    → IsBalanced s' j
resume_other s pos {s' = s'} inv c e idle h stays j before other =
    let (s1, run, control, same, queue, sems) = resume_runs s pos inv c e other in
    let d : s1 ≡ s' = done_injective (sym run ∙ h) in
    let w = (counters s).waits in
    let mine : waits_for j (w s.current_thread) ≡ 0 =
      ap (λ p. waits_for j (waiting_at p)) e ∙ ap (waits_for j) idle in
    let old = ap (λ l. count j w l) (switched-next s c) in
    let new : next_threads s' ≡ s.ready_list.items =
      ap next_threads (sym d) ∙ own-next s1 control ∙ ap (λ l. l.items) queue in
    let new' = ap (λ l. count j w l) new in
    still-IsBalanced s s' j (ap (λ x. x.semaphores) (sym d) ∙ sems) stays
      (omega (arith, mine, old, new')) before

Cleaned-BeforeP :
    (s s1 : System) (j : ℕ) → s.control ≡ switched → Cleaned s s1 → IsBalanced s j → BeforeP s1 j
Cleaned-BeforeP s s1 j c (busy, same, level, at, sems, queue) (inl nobody) =
    inl (ap (λ f. (f j).queue.items) sems ∙ nobody)
Cleaned-BeforeP s s1 j c (busy, same, level, at, sems, queue) (inr enough) =
    let waits : (counters s1).waits ≡ (counters s).waits =
      ap (λ x. x.waits) (counters-eq (Cleaned-Stays s s1 (busy, same, level, at, sems, queue))) in
    let mine = ap₂ (λ w t. waits_for j (w t)) waits same in
    let others = ap₂ (λ w l. count j w l) waits (ap (λ l. l.items) queue) in
    let line = ap (λ l. count j (counters s).waits l) (switched-next s c) in
    let value = ap (λ f. (f j).value) sems in inr (omega (arith, enough, line, mine, others, value))

resume_in_p :
    (s : System) (k : ℕ) (old : IntStatus) {s' : System}
    → Inv s
    → s.control ≡ switched
    → s.positions s.current_thread ≡ in_p k old
    → resume s (in_p k old) ≡ done s'
    → (j : ℕ) → IsBalanced s j
    → IsBalanced s' j
unfolding resume after_switch
resume_in_p s k old {s' = s'} inv c e h j before =
    let g = subst (Phase s) c inv.phase in
    let (s1, clean, cleaned) = check_to_be_destroyed_lem s inv c in
    let (busy, same, level, at, sems, queue) = cleaned in
    let run : p_loop s1 k old ≡ done s' = rw (g.2, clean) at h in
    let out : is_ready s1 s1.current_thread ≡ false =
      (Fits-status s1 s1.current_thread busy.status (busy.fits s1.current_thread)).0 in
    let on : (counters s1).waits s1.current_thread ≡ some k =
      (Cleaned-Stays s s1 cleaned).1 s1.current_thread
      ∙ ap (λ t. waiting_at (s.positions t)) same
      ∙ ap waiting_at e in
    p_loop-IsBalanced s1 k old run (ap is_off level ∙ g.2) busy.lists.0 out (inr on) j
      (Cleaned-BeforeP s s1 j c cleaned before)

pub resume-IsBalanced :
    (s : System) (pos : Position) {s' : System}
    → Inv s
    → s.control ≡ switched
    → s.positions s.current_thread ≡ pos
    → resume s pos ≡ done s'
    → (j : ℕ) → IsBalanced s j
    → IsBalanced s' j
unfolding resume
resume-IsBalanced s (in_p k old) inv c e h j before = resume_in_p s k old inv c e h j before
resume-IsBalanced s (in_yield old) inv c e h j before =
    resume_other s (in_yield old) inv c e refl h (resume-counters s (in_yield old) inv c e h) j
      before (λ k old' q. cc)
resume-IsBalanced s at_begin inv c e h j before =
    resume_other s at_begin inv c e refl h (resume-counters s at_begin inv c e h) j before
      (λ k old q. cc)
resume-IsBalanced s own_code inv c e h j before = absurd (cc)
resume-IsBalanced s finished inv c e h j before = absurd (cc)
resume-IsBalanced s absent inv c e h j before = absurd (cc)
