-- ===== src/Threads/Wakeups.antt =====
-- The wakeups of Semaphore of code/threads/synch.cc: what the units of a semaphore owe to the
-- threads that wait for it.
pub mod Counts
pub mod Waiting
pub mod Signalling
pub mod Scheduling
pub mod Resuming
pub mod Preservation
use nachos.Base.{ℕ, ◌+◌, ◌-◌, ◌≡◌, ◌≤◌, ◌⊎◌, List, [], ◌∷◌, Option, none, some, ◌==◌, if◌then◌else◌}
use nachos.Threads.{Control, executing, switched, idling, System}
use nachos.Threads.Counting.{counters}

-- Whether a thread waits in P of semaphore `k`.
abbrev pub waits_for : ℕ → Option ℕ → ℕ
waits_for k none = 0
waits_for k (some j) = if j == k then 1 else 0

abbrev pub count : ℕ → (ℕ → Option ℕ) → List ℕ → ℕ
count k w [] = 0
count k w (t ∷ ts) = waits_for k (w t) + count k w ts

-- The threads that the processor goes to next: the one that it is switched to, and the ready ones.
abbrev pub next_of : Control → ℕ → List ℕ → List ℕ
next_of switched t ts = t ∷ ts
next_of executing t ts = ts
next_of idling t ts = ts

abbrev pub next_threads : System → List ℕ
next_threads s = next_of s.control s.current_thread s.ready_list.items

abbrev pub IsBalanced : System → ℕ → Type 0
IsBalanced s k =
    ((s.semaphores k).queue.items ≡ [])
    ⊎ ((s.semaphores k).value ≤ count k (counters s).waits (next_threads s))

-- Before the loop of P the current thread counts as one of the next.
abbrev pub BeforeP : System → ℕ → Type 0
BeforeP s j =
    ((s.semaphores j).queue.items ≡ [])
    ⊎ ((s.semaphores j).value
        ≤ waits_for j ((counters s).waits s.current_thread)
          + count j (counters s).waits s.ready_list.items)
