-- ===== src/Threads/Invariant/Waking.antt =====
-- Semaphore::V of code/threads/synch.cc stops at no assertion and keeps every thread at its place but
-- the one that it wakes.
use nachos.Base.{
  ℕ, ◌≡◌, ◌≢◌, refl, sym, ◌∙◌, ◌⊎◌, inl, inr, Bool, true, false, [], ◌∷◌, ◌++◌, done, ◌==◌, arith,
}
use nachos.Lists.{LinkedList, is_empty, in_chain}
use nachos.Interrupt.{is_off}
use nachos.Threads.{
  ThreadStatus, just_created, running, ready, blocked, Position, own_code, in_yield, in_p, at_begin,
  finished, absent, Semaphore, System, update, run,
}
use nachos.Threads.Synch.{wake_front}
use nachos.Threads.Chains.{IsSound, remove_front-cases}
use nachos.Threads.Invariant.{IsSuspended, IsQueued, is_ready, is_queued, Fits, SoundLists}
use nachos.Threads.Invariant.Scheduling.{
  ==-other, update_self, update-other, by_thread, Agrees-same, Fits-status, made_ready,
  ready_to_run_lem,
}
use nachos.Threads.Invariant.Semaphores.{queue-update}

queued_position :
    (pos : Position) (q : ℕ → Bool) (k : ℕ)
    → IsQueued pos q
    → q k ≡ true
    → IsSuspended pos × ((j : ℕ) → j ≢ k → q j ≡ false)
queued_position (in_p k2 old) q k h member =
    let same : k ≡ k2 = ground (arith, h k, member) in
    (tt, λ j apart. h j ∙ ==-other j k2 (λ e. apart (e ∙ sym same)))
queued_position finished q k h member = let out = h k in absurd (cc)
queued_position absent q k h member = let out = h k in absurd (cc)
queued_position own_code q k h member = absurd h
queued_position (in_yield old) q k h member = absurd h
queued_position at_begin q k h member = absurd h

queued_status_of :
    (s : System) (n k : ℕ) (a : ThreadStatus)
    → s.statuses n ≡ a
    → Fits s n
    → is_queued s n k ≡ true
    → (s.statuses n ≡ blocked)
      × (is_ready s n ≡ false)
      × IsSuspended (s.positions n)
      × ((j : ℕ) → j ≢ k → is_queued s n j ≡ false)
queued_status_of s n k blocked e fit member =
    let h = Fits-status s n e fit in
    let (suspended, others) = queued_position (s.positions n) (is_queued s n) k h.1 member in
    (e, h.0, suspended, others)
queued_status_of s n k ready e fit member =
    let h = Fits-status s n e fit in let out = h.1 k in absurd (cc)
queued_status_of s n k running e fit member =
    let h = Fits-status s n e fit in let out = h.1 k in absurd (cc)
queued_status_of s n k just_created e fit member =
    let h = Fits-status s n e fit in let out = h.1 k in absurd (cc)

-- Only threads that sleep change their state, and they become ready.
abbrev pub Woken : (ℕ → ThreadStatus) → (ℕ → ThreadStatus) → Type 0
Woken before after = (t : ℕ) → (after t ≡ before t) ⊎ ((before t ≡ blocked) × (after t ≡ ready))

abbrev pub signalled : System → (ℕ → ThreadStatus) → LinkedList ℕ → (ℕ → Semaphore) → System
signalled s statuses l semaphores = record s {
  statuses = statuses;
  ready_list = l;
  semaphores = semaphores;
}

abbrev pub Kept : System → System → Type 0
Kept s s' = SoundLists s' × ((t : ℕ) → Fits s' t) × Woken s.statuses s'.statuses

-- A thread from the queue has become the last of the ready ones.
abbrev pub Wakes : System → LinkedList ℕ → ℕ → Type 0
Wakes s l k = (n : ℕ) × (is_queued s n k ≡ true) × (l.items ≡ s.ready_list.items ++ (n ∷ []))

pub wake_front_lem :
    (s : System) (k : ℕ)
    → is_off s.level ≡ true
    → SoundLists s
    → ((t : ℕ) → Fits s t)
    → is_empty (s.semaphores k).queue ≡ false
    → (a : ℕ → ThreadStatus) × (l : LinkedList ℕ) × (q : LinkedList ℕ) × (wake_front s k
        ≡ done (
            signalled s a l
              (update s.semaphores k (record { value = (s.semaphores k).value; queue = q }))))
      × Kept s (
          signalled s a l
            (update s.semaphores k (record { value = (s.semaphores k).value; queue = q })))
      × Wakes s l k
unfolding wake_front
wake_front_lem s k off (sound, queues) fits filled =
    elim (remove_front-cases (s.semaphores k).queue (queues k)) [
      | inl (empty, items) ↦ absurd (cc)
      | inr (filled', (n, q, run, sound', member, out, members, items)) ↦
          let x : Semaphore = record { value = (s.semaphores k).value; queue = q } in
          let s1 : System = record s { semaphores = update s.semaphores k x } in
          let (status, unready, suspended, others) =
            queued_status_of s n k (s.statuses n) refl (fits n) member in
          let (l, put, lists, fit, kept, same, items') =
            ready_to_run_lem s1 n off
              (sound, queue-update s.semaphores k x (λ j l. IsSound l) sound' (λ j h. queues j))
              (
                unready,
                queue-update s.semaphores k x (λ j l. in_chain ◌==◌ n l.items ≡ false) out others,
              )
              suspended in
          let unmoved : (t : ℕ) → t ≢ n → Fits s1 t = λ t h.
            Agrees-same refl refl refl
              (queue-update s.semaphores k x (λ j l. in_chain ◌==◌ t l.items ≡ is_queued s t j)
                (sym (rw (members t, ==-other t n h) refl)) (λ j h2. refl))
              (fits t) in
          (
            update s.statuses n ready,
            l,
            q,
            (rw (run, put) refl),
            (
              lists,
              by_thread (Fits (made_ready s1 n l)) n fit (λ t h. kept t h (unmoved t h)),
              by_thread
                  (λ t.
                    (update s.statuses n ready t ≡ s.statuses t)
                    ⊎ ((s.statuses t ≡ blocked) × (update s.statuses n ready t ≡ ready)))
                  n (inr (status, update_self s.statuses n ready))
                  (λ t h. inl (update-other s.statuses n ready t h)),
            ),
            (n, member, items'),
          )
    ]
