-- ===== src/Threads/Invariant/Signalling.antt =====
-- Semaphore::V of code/threads/synch.cc gives a unit and stops at no assertion.
use nachos.Base.{
  ℕ, ◌+◌, ◌≡◌, ◌≢◌, refl, ap, sym, subst, ◌∙◌, ap₂, ◌⊎◌, inl, inr, true, false, [], done, ◌==◌,
  if◌then◌else◌, Bool-cases,
}
use nachos.Lists.{LinkedList, is_empty, in_chain}
use nachos.Interrupt.{int_off, is_off}
use nachos.Threads.{ThreadStatus, Semaphore, System, update, run}
use nachos.Threads.Synch.{increment, v}
use nachos.Threads.Chains.{IsSound, remove_front-cases}
use nachos.Threads.Invariant.{Fits, SoundLists}
use nachos.Threads.Invariant.Scheduling.{update-other, Agrees-same}
use nachos.Threads.Invariant.Semaphores.{queue-same, value-update, value-same}
use nachos.Threads.Invariant.Switching.{restore_lem}
use nachos.Threads.Invariant.Waking.{signalled, Kept, Wakes, wake_front_lem}

increment_lem :
    (s : System) (k : ℕ)
    → SoundLists s
    → ((t : ℕ) → Fits s t)
    → SoundLists (increment s k) × ((t : ℕ) → Fits (increment s k) t)
unfolding increment
increment_lem s k (sound, queues) fits =
    let sem = s.semaphores k in
    let x : Semaphore = record { value = sem.value + 1; queue = sem.queue } in
    let same = queue-same s.semaphores k x refl in
    (
      (sound, λ j. subst IsSound (sym (same j)) (queues j)),
      λ t. Agrees-same refl refl refl (λ j. ap (λ q. in_chain ◌==◌ t q.items) (same j)) (fits t),
    )

-- The values after V of semaphore `k`.
abbrev pub Incremented : (ℕ → Semaphore) → (ℕ → Semaphore) → ℕ → Type 0
Incremented f g k = (j : ℕ) → (g j).value ≡ (if j == k then (f k).value + 1 else (f j).value)

-- The queues after V of semaphore `k`, and the ready list.
abbrev pub Signals : System → LinkedList ℕ → (ℕ → Semaphore) → ℕ → Type 0
Signals s l f k =
    ((j : ℕ) → j ≢ k → (f j).queue.items ≡ (s.semaphores j).queue.items)
    × (((f k).queue.items ≡ []) × (l.items ≡ s.ready_list.items) ⊎ Wakes s l k)

empty_items : (l : LinkedList ℕ) → IsSound l → is_empty l ≡ true → l.items ≡ []
empty_items l sound empty = elim (remove_front-cases l sound) [
  | inl (empty', items) ↦ items
  | inr (filled, popped) ↦ absurd (cc)
]

-- V of semaphore `k` has given a unit, and woken a thread if one was on the queue.
abbrev pub HasSignalled : System → ℕ → Type 0
HasSignalled s k =
    (a : ℕ → ThreadStatus) × (l : LinkedList ℕ) × (semaphores : ℕ → Semaphore) × (v s k
      ≡ done (signalled s a l semaphores))
    × Kept s (signalled s a l semaphores)
    × Incremented s.semaphores semaphores k
    × Signals s l semaphores k

v_nobody :
    (s : System) (k : ℕ)
    → (s.in_handler ≡ false) ⊎ (is_off s.level ≡ true)
    → SoundLists s
    → ((t : ℕ) → Fits s t)
    → is_empty (s.semaphores k).queue ≡ true
    → HasSignalled s k
unfolding v is_off increment
v_nobody s k quiet lists fits empty =
    let off : System = record s { level = int_off } in
    let (lists', fits') = increment_lem s k lists fits in
    let x : Semaphore = record {
      value = (s.semaphores k).value + 1;
      queue = (s.semaphores k).queue;
    } in
    let same = queue-same s.semaphores k x refl in
    (
      s.statuses,
      s.ready_list,
      (increment s k).semaphores,
      (rw (restore_lem s int_off (inr refl), empty, restore_lem (increment off k) s.level quiet)
          refl),
      (lists', fits', (λ t. inl refl)),
      value-update s.semaphores k x,
      (
        (λ j h. ap (λ q. q.items) (same j)),
        inl (
          ap (λ q. q.items) (same k) ∙ empty_items (s.semaphores k).queue (lists.1 k) empty,
          refl,
        ),
      ),
    )

v_somebody :
    (s : System) (k : ℕ)
    → (s.in_handler ≡ false) ⊎ (is_off s.level ≡ true)
    → SoundLists s
    → ((t : ℕ) → Fits s t)
    → is_empty (s.semaphores k).queue ≡ false
    → HasSignalled s k
unfolding v is_off increment
v_somebody s k quiet lists fits filled =
    let off : System = record s { level = int_off } in
    let (a, l, q, run, (lists1, fits1, woken), wakes) =
      wake_front_lem off k refl lists fits filled in
    let x : Semaphore = record { value = (s.semaphores k).value; queue = q } in
    let s1 = signalled off a l (update s.semaphores k x) in
    let (lists', fits') = increment_lem s1 k lists1 fits1 in
    let y : Semaphore = record {
      value = (s1.semaphores k).value + 1;
      queue = (s1.semaphores k).queue;
    } in
    (
      a,
      l,
      (increment s1 k).semaphores,
      (rw
          (
            restore_lem s int_off (inr refl),
            filled,
            run,
            restore_lem (increment s1 k) s.level quiet,
          )
          refl),
      (lists', fits', woken),
      (λ j.
          value-update s1.semaphores k y j
          ∙ ap₂ (λ m n. if j == k then m + 1 else n) (value-same s.semaphores k q k)
              (value-same s.semaphores k q j)),
      (
        (λ j h.
            ap (λ z. z.queue.items)
              (update-other s1.semaphores k y j h ∙ update-other s.semaphores k x j h)),
        inr wakes,
      ),
    )

-- V, when interrupts are off or no handler runs.
pub v_lem :
    (s : System) (k : ℕ)
    → (s.in_handler ≡ false) ⊎ (is_off s.level ≡ true)
    → SoundLists s
    → ((t : ℕ) → Fits s t)
    → HasSignalled s k
v_lem s k quiet lists fits = elim (Bool-cases (is_empty (s.semaphores k).queue)) [
  | inl empty ↦ v_nobody s k quiet lists fits empty
  | inr filled ↦ v_somebody s k quiet lists fits filled
]
