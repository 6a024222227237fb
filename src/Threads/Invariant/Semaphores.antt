-- ===== src/Threads/Invariant/Semaphores.antt =====
-- The queues and the values of the semaphores of code/threads/synch.cc after a change of one.
use nachos.Base.{
  ℕ, ◌≡◌, ◌≢◌, refl, ap, sym, subst, inl, inr, ◌==◌, if◌then◌else◌, arith, Bool-cases,
}
use nachos.Lists.{LinkedList}
use nachos.Threads.{Semaphore, update}
use nachos.Threads.Invariant.Scheduling.{update_self, update-other, by_thread}

-- The queues after a change of one semaphore.
pub queue-update :
    (f : ℕ → Semaphore) (k : ℕ) (x : Semaphore) (P : ℕ → LinkedList ℕ → Type 0)
    → P k x.queue
    → ((j : ℕ) → j ≢ k → P j (f j).queue)
    → (j : ℕ) → P j (update f k x j).queue
queue-update f k x P this others =
    by_thread (λ j. P j (update f k x j).queue) k
      (subst (λ y. P k y.queue) (sym (update_self f k x)) this)
      (λ j h. subst (λ y. P j y.queue) (sym (update-other f k x j h)) (others j h))

-- A semaphore whose value alone changes.
pub queue-same :
    (f : ℕ → Semaphore) (k : ℕ) (x : Semaphore)
    → x.queue ≡ (f k).queue
    → (j : ℕ) → (update f k x j).queue ≡ (f j).queue
queue-same f k x e = queue-update f k x (λ j q. q ≡ (f j).queue) e (λ j h. refl)

pub value-update :
    (f : ℕ → Semaphore) (k : ℕ) (x : Semaphore) (j : ℕ)
    → (update f k x j).value ≡ (if j == k then x.value else (f j).value)
value-update f k x j = elim (Bool-cases (j == k)) [
  | inl same ↦ rw same refl
  | inr apart ↦ rw apart refl
]

pub value-same :
    (f : ℕ → Semaphore) (k : ℕ) (q : LinkedList ℕ) (j : ℕ)
    → (update f k (record { value = (f k).value; queue = q }) j).value ≡ (f j).value
value-same f k q j = elim (Bool-cases (j == k)) [
  | inl same ↦
      let same' : j ≡ k = ground (arith, same) in rw same (ap (λ i. (f i).value) (sym same'))
  | inr apart ↦ rw apart refl
]
