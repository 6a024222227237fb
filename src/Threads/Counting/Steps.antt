-- ===== src/Threads/Counting/Steps.antt =====
-- What the methods of code/threads do to the counters.
use nachos.Base.{
  ℕ, ◌-◌, ◌≡◌, refl, ap, sym, subst, fun_ext, ◌∙◌, ap₂, ◌⊎◌, inl, inr, true, false, Option, none,
  Outcome, done, ◌==◌, arith, done_injective, >>=-eq-done, Option-cases, Bool-cases,
}
use nachos.Lists.{append}
use nachos.Interrupt.{IntStatus, int_off, int_on}
use nachos.Threads.{
  Position, own_code, in_yield, in_p, at_begin, finished, absent, executing, switched, Semaphore,
  System, update, set_level, ready_to_run, find_next_to_run, run, after_switch, begin_thread, fork,
  yield, finish_yield, finish,
}
use nachos.Threads.Synch.{p_loop}
use nachos.Threads.Moves.{resume}
use nachos.Threads.Invariant.{Phase, Inv}
use nachos.Threads.Invariant.Scheduling.{update_self, update-other, by_thread}
use nachos.Threads.Invariant.Switching.{set_level_lem}
use nachos.Threads.Invariant.Semaphores.{value-update, value-same}
use nachos.Threads.Invariant.Looping.{settled}
use nachos.Threads.Invariant.Resuming.{Cleaned, check_to_be_destroyed_lem}
use nachos.Threads.Counting.{Counters, waiting_at, counters, Stays, Waits, Takes, GoesOn}
use nachos.Threads.Counting.Frames.{
  set_level-frame, ready_to_run-Frame, run-Frame, find_next_to_run-shape, sleep-Frame,
}

waits-update :
    (f : ℕ → Position) (t : ℕ) (pos : Position) {o : Option ℕ}
    → waiting_at pos ≡ o
    → (u : ℕ) → waiting_at (update f t pos u) ≡ update (λ n. waiting_at (f n)) t o u
waits-update f t pos e u = elim (Bool-cases (u == t)) [
  | inl same ↦ rw same e
  | inr apart ↦ rw apart refl
]

waits-kept :
    (f : ℕ → Position) (t : ℕ) (pos : Position)
    → waiting_at pos ≡ waiting_at (f t)
    → (u : ℕ) → waiting_at (update f t pos u) ≡ waiting_at (f u)
waits-kept f t pos e =
    by_thread (λ u. waiting_at (update f t pos u) ≡ waiting_at (f u)) t
      (ap waiting_at (update_self f t pos) ∙ e) (λ u h. ap waiting_at (update-other f t pos u h))

-- A thread moves between positions at which it does not wait.
pub Stays-by :
    (s s' : System) (t : ℕ) (pos : Position)
    → s'.semaphores ≡ s.semaphores
    → s'.positions ≡ update s.positions t pos
    → waiting_at pos ≡ waiting_at (s.positions t)
    → (s'.semaphores ≡ s.semaphores) × Stays (counters s) (counters s')
Stays-by s s' t pos e e' h = (
  e,
  (
    (λ k. ap (λ f. (f k).value) e),
    (λ u. ap (λ f. waiting_at (f u)) e' ∙ waits-kept s.positions t pos h u),
  ),
)

pub p_loop-counters :
    (s : System) (k : ℕ) (old : IntStatus) {s' : System}
    → p_loop s k old ≡ done s'
    → Waits s.current_thread k (counters s) (counters s')
      ⊎ Takes s.current_thread k (counters s) (counters s')
unfolding p_loop
p_loop-counters s k old {s' = s'} h =
    let t = s.current_thread in
    elim (Bool-cases ((s.semaphores k).value == 0)) [
      | inl unavailable ↦
          let (q, e, e') =
            >>=-eq-done (append ◌==◌ (s.semaphores k).queue t) _ (rw unavailable at h) in
          let x : Semaphore = record { value = (s.semaphores k).value; queue = q } in
          let (sems, pos) =
            sleep-Frame
              (record s {
                semaphores = update s.semaphores k x;
                positions = update s.positions t (in_p k old);
              })
              false e' in
          inl (
            ground (arith, unavailable),
            (λ j. ap (λ f. (f j).value) sems ∙ value-same s.semaphores k q j),
            (λ u. ap (λ f. waiting_at (f u)) pos ∙ waits-update s.positions t (in_p k old) refl u),
          )
      | inr available ↦
          let x : Semaphore = record {
            value = (s.semaphores k).value - 1;
            queue = (s.semaphores k).queue;
          } in
          let s1 : System = record s {
            semaphores = update s.semaphores k x;
            positions = update s.positions t own_code;
            control = executing;
          } in
          let (r, e, e') = >>=-eq-done (set_level s1 old) _ (rw available at h) in
          let d : record s1 { level = old } ≡ s' =
            sym (ap (λ y. y.1) (set_level-frame s1 old e)) ∙ done_injective e' in
          inr (
            ground (arith, available),
            (λ j. ap (λ y. (y.semaphores j).value) (sym d) ∙ value-update s.semaphores k x j),
            (λ u.
                ap (λ y. waiting_at (y.positions u)) (sym d)
                ∙ waits-update s.positions t own_code refl u),
          )
    ]

pub counters-eq : {a b : Counters} → Stays a b → b ≡ a
counters-eq (same, still) =
    ap₂ (λ x y. record { values = x; waits = y }) (fun_ext same) (fun_ext still)

-- The deletion of a finished thread changes no counter.
pub Cleaned-Stays : (s s' : System) → Cleaned s s' → Stays (counters s) (counters s')
Cleaned-Stays s s' (busy, same, level, moved, sems, queue) = (
  (λ k. ap (λ f. (f k).value) sems),
  (λ t. elim (moved t) [
    | inl still ↦ ap waiting_at still
    | inr (was, now) ↦ ap waiting_at now ∙ sym (ap waiting_at was)
  ]),
)

settled-Stays :
    (s s' : System) (old : IntStatus)
    → waiting_at (s.positions s.current_thread) ≡ none
    → Path (Outcome System) (done (settled s old)) (done s')
    → Stays (counters s) (counters s')
settled-Stays s s' old e h =
    subst (λ x. Stays (counters s) (counters x)) (done_injective h)
      (Stays-by s (settled s old) s.current_thread own_code refl refl (sym e)).1

Cleaned-settled :
    (s s1 s' : System) (old : IntStatus)
    → Cleaned s s1
    → waiting_at (s.positions s.current_thread) ≡ none
    → Path (Outcome System) (done (settled s1 old)) (done s')
    → Stays (counters s) (counters s')
Cleaned-settled s s1 s' old cleaned e run =
    let stays = Cleaned-Stays s s1 cleaned in
    let out : waiting_at (s1.positions s1.current_thread) ≡ none =
      stays.1 s1.current_thread ∙ ap (λ t. waiting_at (s.positions t)) cleaned.1 ∙ e in
    subst (λ x. Stays x (counters s')) (counters-eq stays) (settled-Stays s1 s' old out run)

pub resume-counters :
    (s : System) (pos : Position) {s' : System}
    → Inv s
    → s.control ≡ switched
    → s.positions s.current_thread ≡ pos
    → resume s pos ≡ done s'
    → GoesOn s.current_thread (waiting_at pos) (counters s) (counters s')
unfolding resume after_switch finish_yield begin_thread
resume-counters s (in_yield old) {s' = s'} inv c e h =
    let g = subst (Phase s) c inv.phase in
    let (s1, clean, cleaned) = check_to_be_destroyed_lem s inv c in
    let run : Path (Outcome System) (done (settled s1 old)) (done s') =
      rw (g.2, clean, set_level_lem s1 old cleaned.0.quiet) at h in
    Cleaned-settled s s1 s' old cleaned (ap waiting_at e) run
resume-counters s (in_p k old) {s' = s'} inv c e h =
    let g = subst (Phase s) c inv.phase in
    let (s1, clean, cleaned) = check_to_be_destroyed_lem s inv c in
    let run : p_loop s1 k old ≡ done s' = rw (g.2, clean) at h in
    let after = p_loop-counters s1 k old run in
    subst (λ a. Waits s.current_thread k a (counters s') ⊎ Takes s.current_thread k a (counters s'))
      (counters-eq (Cleaned-Stays s s1 cleaned))
      (subst (λ t. Waits t k (counters s1) (counters s') ⊎ Takes t k (counters s1) (counters s'))
        cleaned.1 after)
resume-counters s at_begin {s' = s'} inv c e h =
    let (s1, clean, cleaned) = check_to_be_destroyed_lem s inv c in
    let run : Path (Outcome System) (done (settled s1 int_on)) (done s') =
      rw (clean, set_level_lem s1 int_on cleaned.0.quiet) at h in
    Cleaned-settled s s1 s' int_on cleaned (ap waiting_at e) run
resume-counters s own_code inv c e h = absurd (cc)
resume-counters s finished inv c e h = absurd (cc)
resume-counters s absent inv c e h = absurd (cc)

pub yield-counters :
    (s : System) {s' : System}
    → waiting_at (s.positions s.current_thread) ≡ none
    → yield s ≡ done s'
    → (s'.semaphores ≡ s.semaphores) × Stays (counters s) (counters s')
unfolding yield
yield-counters s {s' = s'} w h =
    let (r, e, e') = >>=-eq-done (set_level s int_off) _ h in
    let first = set_level-frame s int_off e in
    let (r2, e2, e3) = >>=-eq-done (find_next_to_run r.1) _ e' in
    let (l, shape) = find_next_to_run-shape r.1 e2 in
    let from : r2.1 ≡ record s { level = int_off; ready_list = l } =
      shape ∙ ap {A = IntStatus × System} {B = System} (λ y. record y.1 { ready_list = l }) first in
    elim (Option-cases r2.0) [
      | inl nobody ↦
          let (r3, e4, e5) = >>=-eq-done (set_level r2.1 r.0) _ (rw nobody at e3) in
          let last : record r2.1 { level = r.0 } ≡ s' =
            sym (ap (λ y. y.1) (set_level-frame r2.1 r.0 e4)) ∙ done_injective e5 in
          let whole : s' ≡ record s { level = r.0; ready_list = l } =
            sym last ∙ ap {A = System} {B = System} (λ y. record y { level = r.0 }) from in
          (
            ap (λ y. y.semaphores) whole,
            subst (λ x. Stays (counters s) (counters x)) (sym whole) ((λ k. refl), (λ t. refl)),
          )
      | inr (n, somebody) ↦
          let left : System = record r2.1 {
            positions = update r2.1.positions r2.1.current_thread (in_yield r.0);
          } in
          let (s3, e4, e5) =
            >>=-eq-done (ready_to_run left r2.1.current_thread) _ (rw somebody at e3) in
          let (sems, pos) = ready_to_run-Frame left r2.1.current_thread e4 in
          let (sems', pos') = run-Frame s3 n false e5 in
          Stays-by s s' s.current_thread (in_yield r.0) (sems' ∙ sems ∙ ap (λ y. y.semaphores) from)
            (pos' ∙ pos ∙ ap (λ y. update y.positions y.current_thread (in_yield r.0)) from) (sym w)
    ]

pub fork-counters :
    (s : System) (n : ℕ) {s' : System}
    → s.positions n ≡ absent
    → fork s n ≡ done s'
    → (s'.semaphores ≡ s.semaphores) × Stays (counters s) (counters s')
unfolding fork
fork-counters s n {s' = s'} at h =
    let s0 : System = record s { positions = update s.positions n at_begin } in
    let (r, e, e') = >>=-eq-done (set_level s0 int_off) _ h in
    let first = set_level-frame s0 int_off e in
    let (s2, e2, e3) = >>=-eq-done (ready_to_run r.1 n) _ e' in
    let (sems, pos) = ready_to_run-Frame r.1 n e2 in
    let (r3, e4, e5) = >>=-eq-done (set_level s2 r.0) _ e3 in
    let last : record s2 { level = r.0 } ≡ s' =
      sym (ap (λ y. y.1) (set_level-frame s2 r.0 e4)) ∙ done_injective e5 in
    Stays-by s s' n at_begin
      (ap (λ y. y.semaphores) (sym last) ∙ sems ∙ ap (λ y. y.1.semaphores) first)
      (ap (λ y. y.positions) (sym last) ∙ pos ∙ ap (λ y. y.1.positions) first)
      (sym (ap waiting_at at))

pub finish-counters :
    (s : System) {s' : System}
    → waiting_at (s.positions s.current_thread) ≡ none
    → finish s ≡ done s'
    → (s'.semaphores ≡ s.semaphores) × Stays (counters s) (counters s')
unfolding finish
finish-counters s {s' = s'} w h =
    let (r, e, e') = >>=-eq-done (set_level s int_off) _ h in
    let first = set_level-frame s int_off e in
    let (sems, pos) =
      sleep-Frame (record r.1 { positions = update r.1.positions r.1.current_thread finished }) true
        e' in
    Stays-by s s' s.current_thread finished (sems ∙ ap (λ y. y.1.semaphores) first)
      (pos ∙ ap (λ y. update y.1.positions y.1.current_thread finished) first) (sym w)
