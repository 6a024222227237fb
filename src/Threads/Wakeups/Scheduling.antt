-- ===== src/Threads/Wakeups/Scheduling.antt =====
-- Yield, Fork, Finish and Sleep of code/threads/thread.cc among threads that wait.
use nachos.Base.{
  ℕ, ◌≡◌, ◌≤◌, refl, ap, sym, subst, ◌∙◌, ap₂, true, List, [], ◌∷◌, ◌++◌, done, arith,
  done_injective,
}
use nachos.Interrupt.{IntStatus, int_off, is_off}
use nachos.Threads.{
  finished, absent, executing, idling, System, update, run, look_for_next, fork, yield, finish,
}
use nachos.Threads.Invariant.{Inv, Phase}
use nachos.Threads.Invariant.Switching.{set_level_lem}
use nachos.Threads.Invariant.Calls.{Busy-of, fork_lem}
use nachos.Threads.Counting.{waiting_at, counters}
use nachos.Threads.Counting.Frames.{look_for_next-Frame}
use nachos.Threads.Counting.Steps.{yield-counters, fork-counters, finish-counters}
use nachos.Threads.Moves.{call_set_level, is_finished, move}
use nachos.Threads.Invariant.Yielding.{PassesOn, yield_lem}
use nachos.Threads.Wakeups.{count, next_of, next_threads, IsBalanced}
use nachos.Threads.Wakeups.Counts.{count-append, still-IsBalanced, own-next}
use nachos.Threads.Wakeups.Waiting.{look_for_next-next, sleep-next}

abbrev SameNext : System → System → ℕ → Type 0
SameNext s s' j =
    count j (counters s).waits (next_threads s) ≤ count j (counters s).waits (next_threads s')

next-eq :
    (s s' : System) (j : ℕ) (ts : List ℕ)
    → next_threads s ≡ ts
    → next_threads s' ≡ ts
    → SameNext s s' j
next-eq s s' j ts e e' =
    let line = ap (λ l. count j (counters s).waits l) (e ∙ sym e') in omega (arith, line)

yield-next :
    (s s' : System) (j : ℕ) (ts : List ℕ)
    → s.ready_list.items ≡ ts
    → s.control ≡ executing
    → PassesOn s s'
    → SameNext s s' j
yield-next s s' j [] e c passes =
    let line = ap (λ l. count j (counters s).waits l) (own-next s c ∙ e) in omega (arith, line)
yield-next s s' j (n ∷ rest) e c passes =
    let (current, items, control) = passes n rest e in
    let w = (counters s).waits in
    let before = ap (λ l. count j w l) (own-next s c ∙ e) in
    let after : next_threads s' ≡ n ∷ (rest ++ (s.current_thread ∷ [])) =
      ap (λ x. next_of x s'.current_thread s'.ready_list.items) control ∙ ap₂ ◌∷◌ current items in
    let after' = ap (λ l. count j w l) after in
    omega (arith, before, after', count-append j w rest (s.current_thread ∷ []))

pub yield-IsBalanced :
    (s : System) {s' : System}
    → Inv s
    → s.control ≡ executing
    → yield s ≡ done s'
    → (j : ℕ) → IsBalanced s j
    → IsBalanced s' j
yield-IsBalanced s {s' = s'} inv c h j before =
    let b = Busy-of s inv c in
    let (s1, run, inv1, passes) = yield_lem s inv c b.status b.vacant in
    let passes' : PassesOn s s' = subst (PassesOn s) (done_injective (sym run ∙ h)) passes in
    let (sems, stays) = yield-counters s (ap waiting_at (subst (Phase s) c inv.phase).1) h in
    still-IsBalanced s s' j sems stays (yield-next s s' j s.ready_list.items refl c passes') before

pub fork-IsBalanced :
    (s : System) (n : ℕ) {s' : System}
    → Inv s
    → s.control ≡ executing
    → s.positions n ≡ absent
    → fork s n ≡ done s'
    → (j : ℕ) → IsBalanced s j
    → IsBalanced s' j
fork-IsBalanced s n {s' = s'} inv c at h j before =
    let (s1, run, inv1, control, items) = fork_lem s n inv c at in
    let w = (counters s).waits in
    let d : s1 ≡ s' = done_injective (sym run ∙ h) in
    let control' : s'.control ≡ executing = ap (λ x. x.control) (sym d) ∙ control ∙ c in
    let items' : s'.ready_list.items ≡ s.ready_list.items ++ (n ∷ []) =
      ap (λ x. x.ready_list.items) (sym d) ∙ items in
    let (sems, stays) = fork-counters s n at h in
    let old = ap (λ l. count j w l) (own-next s c) in
    let new = ap (λ l. count j w l) (own-next s' control' ∙ items') in
    still-IsBalanced s s' j sems stays
      (omega (arith, old, new, count-append j w s.ready_list.items (n ∷ []))) before

pub finish-IsBalanced :
    (s : System) {s' : System}
    → Inv s
    → s.control ≡ executing
    → finish s ≡ done s'
    → (j : ℕ) → IsBalanced s j
    → IsBalanced s' j
unfolding finish is_off
finish-IsBalanced s {s' = s'} inv c h j before =
    let (sems, stays) = finish-counters s (ap waiting_at (subst (Phase s) c inv.phase).1) h in
    let next =
      sleep-next
        (record s { level = int_off; positions = update s.positions s.current_thread finished })
        true (rw (set_level_lem s int_off inv.no_handler) at h) refl inv.lists.0 in
    still-IsBalanced s s' j sems stays (next-eq s s' j s.ready_list.items (own-next s c) next)
      before

pub set_level-IsBalanced :
    (s : System) (now : IntStatus) {s' : System}
    → Inv s
    → move s (call_set_level now) ≡ done s'
    → (j : ℕ) → IsBalanced s j
    → IsBalanced s' j
unfolding move
set_level-IsBalanced s now {s' = s'} inv h j before =
    let d : record s { level = now } ≡ s' =
      done_injective (rw (set_level_lem s now inv.no_handler) at h) in
    subst (λ x. IsBalanced x j) d before

pub look_again-IsBalanced :
    (s : System) {s' : System}
    → Inv s
    → s.control ≡ idling
    → look_for_next s (is_finished (s.positions s.current_thread)) ≡ done s'
    → (j : ℕ) → IsBalanced s j
    → IsBalanced s' j
look_again-IsBalanced s {s' = s'} inv c h j before =
    let finishing = is_finished (s.positions s.current_thread) in
    let (sems, pos) = look_for_next-Frame s finishing h in
    let (asleep, place, off, vacant) = subst (Phase s) c inv.phase in
    still-IsBalanced s s' j sems
      ((λ k. ap (λ f. (f k).value) sems), (λ t. ap (λ f. waiting_at (f t)) pos))
      (next-eq s s' j s.ready_list.items (ap (λ x. next_of x s.current_thread s.ready_list.items) c)
        (look_for_next-next s finishing h off inv.lists.0))
      before
