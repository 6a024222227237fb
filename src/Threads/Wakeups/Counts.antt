-- ===== src/Threads/Wakeups/Counts.antt =====
-- How many threads wait for a semaphore of code/threads/synch.cc.
use nachos.Base.{
  ℕ, ◌+◌, ◌≡◌, ◌≢◌, ◌≤◌, refl, ap, sym, subst, ◌∙◌, ap₂, ◌⊎◌, inl, inr, true, false, List, [], ◌∷◌,
  ◌++◌, Option, none, some, ◌==◌, arith, Bool-cases,
}
use nachos.Lists.{in_chain}
use nachos.Threads.{Control, executing, switched, idling, System, update}
use nachos.Threads.Synch.{v}
use nachos.Threads.Chains.{==-self}
use nachos.Threads.Invariant.Scheduling.{==-other, update-other}
use nachos.Threads.Counting.{counters, Stays}
use nachos.Threads.Wakeups.{waits_for, count, next_of, next_threads, IsBalanced}

pub count-append :
    (k : ℕ) (w : ℕ → Option ℕ) (ts us : List ℕ) → count k w (ts ++ us) ≡ count k w ts + count k w us
count-append k w [] us = omega arith
count-append k w (t ∷ ts) us = omega (arith, count-append k w ts us)

-- Threads that wait for the same count the same.
count-same :
    (k : ℕ) (v w : ℕ → Option ℕ) (ts : List ℕ)
    → ((t : ℕ) → in_chain ◌==◌ t ts ≡ true → v t ≡ w t)
    → count k v ts ≡ count k w ts
unfolding in_chain
count-same k v w [] h = refl
count-same k v w (t ∷ ts) h =
    let head : v t ≡ w t = h t (rw (==-self t) refl) in
    let tail = count-same k v w ts (λ u m.
      h u (elim (Bool-cases (u == t)) [ inl same ↦ rw same refl | inr apart ↦ rw apart m ])) in
    ap₂ (λ o n. waits_for k o + n) head tail

-- A change of state after which the queue, the value and the count of `k` are as before.
IsBalanced-same :
    (s s' : System) (k : ℕ)
    → (s'.semaphores k).queue.items ≡ (s.semaphores k).queue.items
    → (s'.semaphores k).value ≤ (s.semaphores k).value
    → count k (counters s).waits (next_threads s) ≤ count k (counters s').waits (next_threads s')
    → IsBalanced s k
    → IsBalanced s' k
IsBalanced-same s s' k queue value more (inl empty) = inl (queue ∙ empty)
IsBalanced-same s s' k queue value more (inr enough) = inr (omega (arith, value, more, enough))

pub waits_for-le : (k : ℕ) (o : Option ℕ) → waits_for k o ≤ 1
waits_for-le k none = omega arith
waits_for-le k (some j) = ground arith

pub waits_for-apart :
    (j k : ℕ) (o : Option ℕ) → j ≢ k → (o ≡ none) ⊎ (o ≡ some k) → waits_for j o ≡ 0
waits_for-apart j k o apart (inl e) = rw e refl
waits_for-apart j k o apart (inr e) = rw e (rw (==-other k j (λ q. apart (sym q))) refl)

absurd_in :
    (t u : ℕ) (ts : List ℕ) → u ≡ t → in_chain ◌==◌ t ts ≡ false → in_chain ◌==◌ u ts ≡ true → ⊥
absurd_in t u ts same out member =
    let member' : in_chain ◌==◌ t ts ≡ true = subst (λ x. in_chain ◌==◌ x ts ≡ true) same member in
    cc

-- A thread that is not on the list changes what it waits for.
pub count-update :
    (k t : ℕ) (v w : ℕ → Option ℕ) (o : Option ℕ) (ts : List ℕ)
    → in_chain ◌==◌ t ts ≡ false
    → ((u : ℕ) → w u ≡ update v t o u)
    → count k w ts ≡ count k v ts
count-update k t v w o ts out e =
    count-same k w v ts (λ u m. e u ∙ update-other v t o u (λ same. absurd_in t u ts same out m))

pub count-next :
    (k : ℕ) (w : ℕ → Option ℕ) (c : Control) (t : ℕ) (ts us : List ℕ)
    → count k w (next_of c t (ts ++ us)) ≡ count k w (next_of c t ts) + count k w us
count-next k w switched t ts us = omega (arith, count-append k w ts us)
count-next k w executing t ts us = count-append k w ts us
count-next k w idling t ts us = count-append k w ts us

-- A move that leaves the semaphores as they are, and lets no thread wait in P or leave it.
pub still-IsBalanced :
    (s s' : System) (k : ℕ)
    → s'.semaphores ≡ s.semaphores
    → Stays (counters s) (counters s')
    → count k (counters s).waits (next_threads s) ≤ count k (counters s).waits (next_threads s')
    → IsBalanced s k
    → IsBalanced s' k
still-IsBalanced s s' k sems (values, waits) more before =
    IsBalanced-same s s' k (ap (λ f. (f k).queue.items) sems) (omega (arith, values k))
      (omega (
        arith,
        more,
        count-same k (counters s').waits (counters s).waits (next_threads s') (λ t m. waits t),
      ))
      before

pub own-next : (s : System) → s.control ≡ executing → next_threads s ≡ s.ready_list.items
own-next s c = ap (λ x. next_of x s.current_thread s.ready_list.items) c
