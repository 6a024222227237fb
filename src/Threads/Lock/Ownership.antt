-- ===== src/Threads/Lock/Ownership.antt =====
-- Who has a unit of the semaphore of a Lock of code/threads/synch.cc: one thread, or the semaphore.
use nachos.Base.{
  ℕ, ◌+◌, ◌-◌, ◌≡◌, ◌≢◌, ◌↔◌, refl, sym, subst, ◌∙◌, ◌⊎◌, inl, inr, Option, none, some, arith,
}
use nachos.Threads.Counting.{Counters, Takes, Gives}
use nachos.Threads.Lock.{Stage, outside, acquiring, held, releasing}
use nachos.Threads.Chains.{==-self}
use nachos.Threads.Invariant.Scheduling.{update_self, update-other, by_thread}

-- A thread between the end of the P of its Acquire and the V of its Release.
abbrev pub Critical : ℕ → Option ℕ → Stage → Type 0
Critical k w outside = ⊥
Critical k w acquiring = w ≢ some k
Critical k w held = Unit
Critical k w releasing = Unit

-- The lock is free, or one thread has it.
abbrev pub IsOwned : ℕ → Counters → (ℕ → Stage) → Type 0
IsOwned k c g =
    ((c.values k ≡ 1) × ((t : ℕ) → Critical k (c.waits t) (g t) → ⊥))
    ⊎ ((c.values k ≡ 0)
        × ((t : ℕ) × Critical k (c.waits t) (g t)
            × ((u : ℕ) → Critical k (c.waits u) (g u) → u ≡ t)))

-- Nothing that concerns semaphore `k` happens.
abbrev pub Unseen : ℕ → Counters → Counters → Type 0
Unseen k a b = (b.values k ≡ a.values k) × ((t : ℕ) → (b.waits t ≡ some k) ↔ (a.waits t ≡ some k))

Critical-same :
    (k : ℕ) (w w' : Option ℕ) (g : Stage)
    → ((w' ≡ some k) ↔ (w ≡ some k))
    → Critical k w g ↔ Critical k w' g
Critical-same k w w' outside e = ((λ h. h), (λ h. h))
Critical-same k w w' acquiring e = ((λ h q. h (e.0 q)), (λ h q. h (e.1 q)))
Critical-same k w w' held e = ((λ h. h), (λ h. h))
Critical-same k w w' releasing e = ((λ h. h), (λ h. h))

-- The same threads are critical, and the semaphore has its value.
IsOwned-iff :
    (k : ℕ) (a b : Counters) (f g : ℕ → Stage)
    → b.values k ≡ a.values k
    → ((t : ℕ) → Critical k (a.waits t) (f t) ↔ Critical k (b.waits t) (g t))
    → IsOwned k a f
    → IsOwned k b g
IsOwned-iff k a b f g e same (inl (free, none_in)) = inl (e ∙ free, λ t h. none_in t ((same t).1 h))
IsOwned-iff k a b f g e same (inr (busy, (t, this, only))) =
    inr (e ∙ busy, (t, (same t).0 this, λ u h. only u ((same u).1 h)))

pub IsOwned-Unseen :
    (k : ℕ) (a b : Counters) (g : ℕ → Stage) → Unseen k a b → IsOwned k a g → IsOwned k b g
IsOwned-Unseen k a b g (e, same) =
    IsOwned-iff k a b g g e (λ t. Critical-same k (a.waits t) (b.waits t) (g t) (same t))

pub none-not_some : {n : ℕ} → Path (Option ℕ) none (some n) → ⊥
none-not_some e = cc

Critical-at :
    (k : ℕ) {w w' : Option ℕ} {g g' : Stage} → w' ≡ w → g' ≡ g → Critical k w' g' → Critical k w g
Critical-at k {w' = w'} {g = g} e e' h =
    subst (λ x. Critical k x g) e (subst (λ x. Critical k w' x) e' h)

-- A thread that is not critical takes the unit: the lock was free, and is the thread's.
pub IsOwned-Takes :
    (k : ℕ) (a b : Counters) (f g : ℕ → Stage) (t : ℕ)
    → Takes t k a b
    → g t ≡ acquiring
    → ((u : ℕ) → u ≢ t → g u ≡ f u)
    → IsOwned k a f
    → IsOwned k b g
IsOwned-Takes k a b f g t (some_left, values, waits) now others (inr (busy, rest)) =
    absurd (omega (arith, some_left, busy))
IsOwned-Takes k a b f g t (some_left, values, waits) now others (inl (free, none_in)) =
    let at : b.values k ≡ a.values k - 1 = values k ∙ rw (==-self k) refl in
    let idle : b.waits t ≡ none = waits t ∙ update_self a.waits t none in
    inr (
      omega (arith, at, free),
      (
        t,
        subst (Critical k (b.waits t)) (sym now) (λ q. none-not_some (sym idle ∙ q)),
        by_thread (λ u. Critical k (b.waits u) (g u) → u ≡ t) t (λ h. refl)
            (λ u h c. absurd (
              none_in u
                (Critical-at k (waits u ∙ update-other a.waits t none u h) (others u h) c))),
      ),
    )

-- The thread that has the lock gives its unit back: the lock is free.
pub IsOwned-Gives :
    (k : ℕ) (a b : Counters) (f g : ℕ → Stage) (t : ℕ)
    → Gives k a b
    → f t ≡ releasing
    → g t ≡ outside
    → ((u : ℕ) → u ≢ t → g u ≡ f u)
    → IsOwned k a f
    → IsOwned k b g
IsOwned-Gives k a b f g t (values, waits) was now others (inl (free, none_in)) =
    absurd (none_in t (subst (Critical k (a.waits t)) (sym was) tt))
IsOwned-Gives k a b f g t (values, waits) was now others (inr (busy, (owner, this, only))) =
    let at : b.values k ≡ a.values k + 1 = values k ∙ rw (==-self k) refl in
    let same : t ≡ owner = only t (subst (Critical k (a.waits t)) (sym was) tt) in
    inl (
      omega (arith, at, busy),
      by_thread (λ u. Critical k (b.waits u) (g u) → ⊥) t
          (λ h. subst (Critical k (b.waits t)) now h)
          (λ u h c. h (only u (Critical-at k (waits u) (others u h) c) ∙ sym same)),
    )

-- One thread goes on, critical before and after or neither.
pub IsOwned-moves :
    (k : ℕ) (a b : Counters) (f g : ℕ → Stage) (t : ℕ)
    → b.values k ≡ a.values k
    → Critical k (a.waits t) (f t) ↔ Critical k (b.waits t) (g t)
    → ((u : ℕ) → u ≢ t → (g u ≡ f u) × (b.waits u ≡ a.waits u))
    → IsOwned k a f
    → IsOwned k b g
IsOwned-moves k a b f g t e this others = IsOwned-iff k a b f g e (
    by_thread (λ u. Critical k (a.waits u) (f u) ↔ Critical k (b.waits u) (g u)) t this
      (λ u h.
        let (stage, wait) = others u h in
        ((λ c. Critical-at k (sym wait) (sym stage) c), (λ c. Critical-at k wait stage c))))
