-- ===== src/Threads/Wakeups/Signalling.antt =====
-- V of code/threads/synch.cc and the thread that it wakes.
use native.Mathlib.Decide.{ℕ_discrete}
use nachos.Base.{
  ℕ, ◌+◌, ◌≡◌, ◌≤◌, refl, ap, sym, subst, ◌∙◌, ◌⊎◌, inl, inr, Bool, true, false, [], ◌∷◌, some,
  done, ◌==◌, arith, done_injective,
}
use nachos.Lists.{LinkedList, in_chain}
use nachos.Interrupt.{IntStatus, int_off, is_off}
use nachos.Threads.{
  ThreadStatus, just_created, running, ready, blocked, Position, own_code, in_yield, in_p, at_begin,
  finished, absent, Semaphore, System, run,
}
use nachos.Threads.Synch.{v}
use nachos.Threads.Chains.{==-self}
use nachos.Threads.Invariant.{IsQueued, is_queued, Fits, Inv}
use nachos.Threads.Invariant.Scheduling.{==-other, Fits-status}
use nachos.Threads.Invariant.Waking.{signalled}
use nachos.Threads.Invariant.Signalling.{Incremented, Signals, v_lem}
use nachos.Threads.Invariant.Calls.{handled}
use nachos.Threads.Counting.{waiting_at, counters}
use nachos.Threads.Moves.{handle_v}
use nachos.Threads.Wakeups.{waits_for, count, next_of, next_threads, IsBalanced}
use nachos.Threads.Wakeups.Counts.{count-next}

-- A thread on the queue of `k` waits in P of `k`.
queued_waits :
    (pos : Position) (q : ℕ → Bool) (k : ℕ) → IsQueued pos q → q k ≡ true → waiting_at pos ≡ some k
queued_waits (in_p k2 old) q k h member =
    let same : k ≡ k2 = ground (arith, h k, member) in ap some (sym same)
queued_waits finished q k h member = let out = h k in absurd (cc)
queued_waits absent q k h member = let out = h k in absurd (cc)
queued_waits own_code q k h member = absurd h
queued_waits (in_yield old) q k h member = absurd h
queued_waits at_begin q k h member = absurd h

queued_waits_of :
    (s : System) (n k : ℕ) (a : ThreadStatus)
    → s.statuses n ≡ a
    → Fits s n
    → is_queued s n k ≡ true
    → (counters s).waits n ≡ some k
queued_waits_of s n k blocked e fit member =
    let h = Fits-status s n e fit in queued_waits (s.positions n) (is_queued s n) k h.1 member
queued_waits_of s n k ready e fit member =
    let h = Fits-status s n e fit in let out = h.1 k in absurd (cc)
queued_waits_of s n k running e fit member =
    let h = Fits-status s n e fit in let out = h.1 k in absurd (cc)
queued_waits_of s n k just_created e fit member =
    let h = Fits-status s n e fit in let out = h.1 k in absurd (cc)

-- The unit that V gives is the one of the thread that it wakes.
woken_own :
    (s : System) (k n : ℕ) (x : Semaphore) (total : ℕ)
    → is_queued s n k ≡ true
    → Fits s n
    → x.value ≡ (s.semaphores k).value + 1
    → total ≡ count k (counters s).waits (next_threads s) + (waits_for k ((counters s).waits n) + 0)
    → IsBalanced s k
    → (x.queue.items ≡ []) ⊎ (x.value ≤ total)
unfolding in_chain
woken_own s k n x total member fit value line (inl nobody) =
    let out : is_queued s n k ≡ false = ap (λ l. in_chain ◌==◌ n l) nobody in absurd (cc)
woken_own s k n x total member fit value line (inr enough) =
    let this : waits_for k ((counters s).waits n) ≡ 1 =
      ap (waits_for k) (queued_waits_of s n k (s.statuses n) refl fit member)
      ∙ rw (==-self k) refl in
    inr (omega (arith, value, line, this, enough))

-- V, of a thread or of a handler.
signalled-IsBalanced :
    (s : System) (k : ℕ) (a : ℕ → ThreadStatus) (l : LinkedList ℕ) (f : ℕ → Semaphore)
    (level : IntStatus) (b : Bool)
    → ((t : ℕ) → Fits s t)
    → Incremented s.semaphores f k
    → Signals s l f k
    → (j : ℕ) → IsBalanced s j
    → IsBalanced (record (signalled s a l f) { level = level; in_handler = b }) j
signalled-IsBalanced s k a l f level b fits values (others, own) j before =
    let v = (counters s).waits in
    let c = s.control in
    let t = s.current_thread in
    elim own [
      | inl (empty, same) ↦
          let line : count j v (next_of c t l.items) ≡ count j v (next_of c t s.ready_list.items) =
            ap (λ x. count j v (next_of c t x)) same in
          elim (ℕ_discrete j k) [
            | yes this ↦ inl (ap (λ i. (f i).queue.items) this ∙ empty)
            | no apart ↦
                let value : (f j).value ≡ (s.semaphores j).value =
                  values j ∙ rw (==-other j k apart) refl in
                elim before [
                  | inl nobody ↦ inl (others j apart ∙ nobody)
                  | inr enough ↦ inr (omega (arith, enough, value, line))
                ]
          ]
      | inr (n, member, longer) ↦
          let line : count j v (next_of c t l.items)
              ≡ count j v (next_of c t s.ready_list.items) + (waits_for j (v n) + 0) =
            ap (λ x. count j v (next_of c t x)) longer
            ∙ count-next j v c t s.ready_list.items (n ∷ []) in
          elim (ℕ_discrete j k) [
            | yes this ↦
                subst (IsBalanced (record (signalled s a l f) { level = level; in_handler = b }))
                  (sym this)
                  (woken_own s k n (f k) (count k v (next_of c t l.items)) member (fits n)
                    (values k ∙ rw (==-self k) refl)
                    (ap (λ x. count k v (next_of c t x)) longer
                      ∙ count-next k v c t s.ready_list.items (n ∷ []))
                    (subst (IsBalanced s) this before))
            | no apart ↦
                let value : (f j).value ≡ (s.semaphores j).value =
                  values j ∙ rw (==-other j k apart) refl in
                elim before [
                  | inl nobody ↦ inl (others j apart ∙ nobody)
                  | inr enough ↦ inr (omega (arith, enough, value, line))
                ]
          ]
    ]

pub v-IsBalanced :
    (s : System) (k : ℕ) {s' : System}
    → Inv s
    → v s k ≡ done s'
    → (j : ℕ) → IsBalanced s j
    → IsBalanced s' j
v-IsBalanced s k inv h j before =
    let (a, l, f, run, kept, values, signals) = v_lem s k (inl inv.no_handler) inv.lists inv.fits in
    subst (λ x. IsBalanced x j) (done_injective (sym run ∙ h))
      (signalled-IsBalanced s k a l f s.level s.in_handler inv.fits values signals j before)

pub handle_v-IsBalanced :
    (s : System) (k : ℕ) {s' : System}
    → Inv s
    → handle_v s k ≡ done s'
    → (j : ℕ) → IsBalanced s j
    → IsBalanced s' j
unfolding handle_v is_off
handle_v-IsBalanced s k {s' = s'} inv h j before =
    let s1 : System = record s { level = int_off; in_handler = true } in
    let (a, l, f, run, kept, values, signals) = v_lem s1 k (inr refl) inv.lists inv.fits in
    let d : handled s a l f false ≡ s' = done_injective (rw run at h) in
    subst (λ x. IsBalanced x j) d
      (signalled-IsBalanced s k a l f s.level false inv.fits values signals j before)
