-- ===== src/Threads/Counting/Frames.antt =====
-- The methods of code/threads/scheduler.cc and thread.cc change no semaphore and move no thread from
-- its position.
use nachos.Base.{
  ℕ, ◌≡◌, refl, sym, subst, ◌∙◌, inl, inr, Bool, not, Option, Outcome, done, assert, ◌==◌, ◌||◌,
  done_injective, Bool-cases, >>=-eq-done, Option-cases, ap,
}
use nachos.Lists.{is_empty, append, remove_front, LinkedList}
use nachos.Interrupt.{IntStatus, is_off}
use nachos.Threads.{
  System, blocked, update, set_level, ready_to_run, find_next_to_run, run, look_for_next, sleep,
  is_null,
}

abbrev pub Frame : System → System → Type 0
Frame s s' = (s'.semaphores ≡ s.semaphores) × (s'.positions ≡ s.positions)

pub set_level-frame :
    (s : System) (now : IntStatus) {r : IntStatus × System}
    → set_level s now ≡ done r
    → r ≡ (s.level, record s { level = now })
unfolding set_level
set_level-frame s now h =
    let (u, e, e') = >>=-eq-done (assert (is_off now || not s.in_handler)) _ h in
    sym (done_injective e')

Frame-done :
    (s : System) {x s' : System} → Path (Outcome System) (done x) (done s') → Frame s x → Frame s s'
Frame-done s e h = subst (Frame s) (done_injective e) h

Frame-trans : (s s' s2 : System) → Frame s s' → Frame s' s2 → Frame s s2
Frame-trans s s' s2 (a, b) (c, d) = (c ∙ a, d ∙ b)

pub ready_to_run-Frame :
    (s : System) (n : ℕ) {s' : System} → ready_to_run s n ≡ done s' → Frame s s'
unfolding ready_to_run
ready_to_run-Frame s n h =
    let (u, e, e') = >>=-eq-done (assert (is_off s.level)) _ h in
    let (l, e2, e3) = >>=-eq-done (append ◌==◌ s.ready_list n) _ e' in Frame-done s e3 (refl, refl)

pub run-Frame :
    (s : System) (n : ℕ) (finishing : Bool) {s' : System} → run s n finishing ≡ done s' → Frame s s'
unfolding run
run-Frame s n finishing h =
    let (u, e, e') = >>=-eq-done (assert (is_off s.level)) _ h in
    let (u2, e2, e3) = >>=-eq-done (assert (not finishing || is_null s.to_be_destroyed)) _ e' in
    Frame-done s e3 (refl, refl)

-- FindNextToRun changes the ready list alone.
pub find_next_to_run-shape :
    (s : System) {r : Option ℕ × System}
    → find_next_to_run s ≡ done r
    → (l : LinkedList ℕ) × (r.1 ≡ record s { ready_list = l })
unfolding find_next_to_run
find_next_to_run-shape s h =
    let (u, e, e') = >>=-eq-done (assert (is_off s.level)) _ h in
    elim (Bool-cases (is_empty s.ready_list)) [
      | inl empty ↦ (s.ready_list, sym (ap (λ x. x.1) (done_injective (rw empty at e'))))
      | inr filled ↦
          let (l, e2, e3) = >>=-eq-done (remove_front s.ready_list) _ (rw filled at e') in
          (l.1, sym (ap (λ x. x.1) (done_injective e3)))
    ]

find_next_to_run-Frame :
    (s : System) {r : Option ℕ × System} → find_next_to_run s ≡ done r → Frame s r.1
find_next_to_run-Frame s h =
    let (l, e) = find_next_to_run-shape s h in (ap (λ x. x.semaphores) e, ap (λ x. x.positions) e)

pub look_for_next-Frame :
    (s : System) (finishing : Bool) {s' : System} → look_for_next s finishing ≡ done s' → Frame s s'
unfolding look_for_next
look_for_next-Frame s finishing {s' = s'} h =
    let (r, e, e') = >>=-eq-done (find_next_to_run s) _ h in
    let first = find_next_to_run-Frame s e in
    elim (Option-cases r.0) [
      | inl nobody ↦ Frame-done s (rw nobody at e') first
      | inr (n, somebody) ↦
          Frame-trans s r.1 s' first (run-Frame r.1 n finishing (rw somebody at e'))
    ]

pub sleep-Frame :
    (s : System) (finishing : Bool) {s' : System} → sleep s finishing ≡ done s' → Frame s s'
unfolding sleep
sleep-Frame s finishing h =
    let (u, e, e') = >>=-eq-done (assert (is_off s.level)) _ h in
    look_for_next-Frame (record s { statuses = update s.statuses s.current_thread blocked })
      finishing e'
