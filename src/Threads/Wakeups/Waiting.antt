-- ===== src/Threads/Wakeups/Waiting.antt =====
-- P of code/threads/synch.cc, and Sleep of thread.cc, among the threads that wait.
use native.Mathlib.Decide.{ℕ_discrete}
use nachos.Base.{
  ℕ, ◌-◌, ◌≡◌, ◌≢◌, ◌<◌, refl, ap, sym, subst, ◌∙◌, ◌⊎◌, inl, inr, Bool, true, false, not, ◌∷◌,
  none, some, done, assert, ◌==◌, ◌||◌, arith, done_injective, >>=-eq-done, Bool-cases,
}
use nachos.Lists.{append}
use nachos.Interrupt.{IntStatus, int_off, is_off}
use nachos.Threads.{
  blocked, own_code, in_p, executing, idling, Semaphore, System, update, set_level,
  find_next_to_run, is_null, run, look_for_next, sleep,
}
use nachos.Threads.Synch.{p_loop, p}
use nachos.Threads.Chains.{==-self, IsSound, remove_front-cases}
use nachos.Threads.Invariant.{is_ready, Inv}
use nachos.Threads.Invariant.Scheduling.{==-other, update-other}
use nachos.Threads.Invariant.Switching.{set_level_lem, current-IsFree}
use nachos.Threads.Invariant.Semaphores.{queue-same}
use nachos.Threads.Invariant.Calls.{Busy-of}
use nachos.Threads.Counting.{counters}
use nachos.Threads.Counting.Frames.{set_level-frame, sleep-Frame}
use nachos.Threads.Counting.Steps.{p_loop-counters}
use nachos.Threads.Lock.Exclusion.{own_idle}
use nachos.Threads.Wakeups.{count, next_threads, IsBalanced, BeforeP}
use nachos.Threads.Wakeups.Counts.{waits_for-le, waits_for-apart, count-update, own-next}

run-next :
    (s : System) (n : ℕ) (finishing : Bool) {s' : System}
    → run s n finishing ≡ done s'
    → next_threads s' ≡ n ∷ s.ready_list.items
unfolding run
run-next s n finishing h =
    let (u, e, e') = >>=-eq-done (assert (is_off s.level)) _ h in
    let (u2, e2, e3) = >>=-eq-done (assert (not finishing || is_null s.to_be_destroyed)) _ e' in
    ap next_threads (sym (done_injective e3))

pub look_for_next-next :
    (s : System) (finishing : Bool) {s' : System}
    → look_for_next s finishing ≡ done s'
    → is_off s.level ≡ true
    → IsSound s.ready_list
    → next_threads s' ≡ s.ready_list.items
unfolding look_for_next find_next_to_run
look_for_next-next s finishing {s' = s'} h off sound =
    elim (remove_front-cases s.ready_list sound) [
      | inl (empty, items) ↦
          let d : record s { control = idling } ≡ s' = done_injective (rw (off, empty) at h) in
          ap next_threads (sym d)
      | inr (filled, (n, l, popped, sound', member, out, members, items)) ↦
          run-next (record s { ready_list = l }) n finishing (rw (off, filled, popped) at h)
          ∙ sym items
    ]

pub sleep-next :
    (s : System) (finishing : Bool) {s' : System}
    → sleep s finishing ≡ done s'
    → is_off s.level ≡ true
    → IsSound s.ready_list
    → next_threads s' ≡ s.ready_list.items
unfolding sleep
sleep-next s finishing h off sound =
    look_for_next-next (record s { statuses = update s.statuses s.current_thread blocked })
      finishing (rw off at h) off sound

-- What the loop of P does to the queues and to the threads that come next.
p_loop-next :
    (s : System) (k : ℕ) (old : IntStatus) {s' : System}
    → p_loop s k old ≡ done s'
    → is_off s.level ≡ true
    → IsSound s.ready_list
    → (next_threads s' ≡ s.ready_list.items)
      × ((j : ℕ) → j ≢ k → (s'.semaphores j).queue.items ≡ (s.semaphores j).queue.items)
      × (0 < (s.semaphores k).value → (s'.semaphores k).queue.items ≡ (s.semaphores k).queue.items)
unfolding p_loop
p_loop-next s k old {s' = s'} h off sound =
    let t = s.current_thread in
    elim (Bool-cases ((s.semaphores k).value == 0)) [
      | inl unavailable ↦
          let (q, e, e') =
            >>=-eq-done (append ◌==◌ (s.semaphores k).queue t) _ (rw unavailable at h) in
          let x : Semaphore = record { value = (s.semaphores k).value; queue = q } in
          let s1 : System = record s {
            semaphores = update s.semaphores k x;
            positions = update s.positions t (in_p k old);
          } in
          let (sems, pos) = sleep-Frame s1 false e' in
          (
            sleep-next s1 false e' off sound,
            (λ j apart.
                ap (λ f. (f j).queue.items) sems
                ∙ ap (λ y. y.queue.items) (update-other s.semaphores k x j apart)),
            (λ some_left. absurd (ground (arith, unavailable, some_left))),
          )
      | inr available ↦
          let x : Semaphore = record {
            value = (s.semaphores k).value - 1;
            queue = (s.semaphores k).queue;
          } in
          let s1 : System = record s {
            semaphores = update s.semaphores k x;
            positions = update s.positions t own_code;
            control = executing;
          } in
          let (r, e, e') = >>=-eq-done (set_level s1 old) _ (rw available at h) in
          let d : record s1 { level = old } ≡ s' =
            sym (ap (λ y. y.1) (set_level-frame s1 old e)) ∙ done_injective e' in
          let same = queue-same s.semaphores k x refl in
          (
            ap next_threads (sym d),
            (λ j apart.
                ap (λ y. (y.semaphores j).queue.items) (sym d) ∙ ap (λ q. q.items) (same j)),
            (λ some_left.
                ap (λ y. (y.semaphores k).queue.items) (sym d) ∙ ap (λ q. q.items) (same k)),
          )
    ]

p_loop-own :
    (s : System) (k : ℕ) (old : IntStatus) {s' : System}
    → p_loop s k old ≡ done s'
    → is_off s.level ≡ true
    → IsSound s.ready_list
    → is_ready s s.current_thread ≡ false
    → BeforeP s k
    → IsBalanced s' k
p_loop-own s k old {s' = s'} h off sound out before =
    let t = s.current_thread in
    let v = (counters s).waits in
    let w = (counters s').waits in
    let (next, queues, kept) = p_loop-next s k old h off sound in
    let line : count k w (next_threads s') ≡ count k w s.ready_list.items =
      ap (λ l. count k w l) next in
    elim (p_loop-counters s k old h) [
      | inl (z, values, waits) ↦ inr (omega (arith, z, values k))
      | inr (some_left, values, waits) ↦
          let value : (s'.semaphores k).value ≡ (s.semaphores k).value - 1 =
            values k ∙ rw (==-self k) refl in
          elim before [
            | inl empty ↦ inl (kept some_left ∙ empty)
            | inr enough ↦ inr (
                omega (
                  arith,
                  line,
                  enough,
                  value,
                  waits_for-le k (v t),
                  count-update k t v w none s.ready_list.items out waits,
                ))
          ]
    ]

pub p_loop-IsBalanced :
    (s : System) (k : ℕ) (old : IntStatus) {s' : System}
    → p_loop s k old ≡ done s'
    → is_off s.level ≡ true
    → IsSound s.ready_list
    → is_ready s s.current_thread ≡ false
    → ((counters s).waits s.current_thread ≡ none) ⊎ ((counters s).waits s.current_thread ≡ some k)
    → (j : ℕ) → BeforeP s j
    → IsBalanced s' j
p_loop-IsBalanced s k old {s' = s'} h off sound out on j before =
    let t = s.current_thread in
    let v = (counters s).waits in
    let w = (counters s').waits in
    let (next, queues, kept) = p_loop-next s k old h off sound in
    let line : count j w (next_threads s') ≡ count j w s.ready_list.items =
      ap (λ l. count j w l) next in
    elim (ℕ_discrete j k) [
      | yes same ↦
          subst (IsBalanced s') (sym same)
            (p_loop-own s k old h off sound out (subst (BeforeP s) same before))
      | no apart ↦ elim before [
        | inl empty ↦ inl (queues j apart ∙ empty)
        | inr enough ↦
            let none_for = waits_for-apart j k (v t) apart on in
            elim (p_loop-counters s k old h) [
              | inl (z, values, waits) ↦ inr (
                  omega (
                    arith,
                    line,
                    enough,
                    none_for,
                    values j,
                    count-update j t v w (some k) s.ready_list.items out waits,
                  ))
              | inr (z, values, waits) ↦
                  let value : (s'.semaphores j).value ≡ (s.semaphores j).value =
                    values j ∙ rw (==-other j k apart) refl in
                  inr (
                    omega (
                      arith,
                      line,
                      enough,
                      none_for,
                      value,
                      count-update j t v w none s.ready_list.items out waits,
                    ))
            ]
      ]
    ]

pub p-IsBalanced :
    (s : System) (k : ℕ) {s' : System}
    → Inv s
    → s.control ≡ executing
    → p s k ≡ done s'
    → (j : ℕ) → IsBalanced s j
    → IsBalanced s' j
unfolding p is_off
p-IsBalanced s k inv c h j before =
    let b = Busy-of s inv c in
    let off : System = record s { level = int_off } in
    let run : p_loop off k s.level ≡ done _ = rw (set_level_lem s int_off inv.no_handler) at h in
    p_loop-IsBalanced off k s.level run refl inv.lists.0 (current-IsFree s inv b.status).0
      (inl (own_idle s inv c)) j
      (elim before [
        | inl nobody ↦ inl nobody
        | inr enough ↦
            let line : count j (counters s).waits (next_threads s)
                ≡ count j (counters s).waits s.ready_list.items =
              ap (λ l. count j (counters s).waits l) (own-next s c) in
            inr (omega (arith, enough, line))
      ])
