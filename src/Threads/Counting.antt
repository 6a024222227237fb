-- ===== src/Threads/Counting.antt =====
-- What Semaphore of code/threads/synch.h promises: a counter for each semaphore, and for each thread
-- the semaphore whose P it waits in. P takes a unit or waits, V gives one.
pub mod Steps
pub mod Frames
pub mod Refinement
use nachos.Base.{ℕ, ◌+◌, ◌-◌, ◌<◌, ◌≡◌, Option, none, some, ◌⊎◌, ◌==◌, if◌then◌else◌}
use nachos.Threads.{System, Position, own_code, in_yield, in_p, at_begin, finished, absent, update}
use nachos.Threads.Moves.{
  Move, call_p, call_v, call_yield, call_fork, call_finish, call_set_level, handler_v, go_on,
  look_again,
}

pub record Counters : Type 0 where
  pub values : ℕ → ℕ
  pub waits : ℕ → Option ℕ

abbrev pub waiting_at : Position → Option ℕ
waiting_at (in_p k old) = some k
waiting_at _ = none

abbrev pub counters : System → Counters
counters s = record {
  values = λ k. (s.semaphores k).value;
  waits = λ t. waiting_at (s.positions t);
}

abbrev pub Stays : Counters → Counters → Type 0
Stays a b = ((k : ℕ) → b.values k ≡ a.values k) × ((t : ℕ) → b.waits t ≡ a.waits t)

-- Thread `t` finds no unit of semaphore `k` and waits.
abbrev pub Waits : ℕ → ℕ → Counters → Counters → Type 0
Waits t k a b =
    (a.values k ≡ 0)
    × ((j : ℕ) → b.values j ≡ a.values j)
    × ((u : ℕ) → b.waits u ≡ update a.waits t (some k) u)

-- It takes one.
abbrev pub Takes : ℕ → ℕ → Counters → Counters → Type 0
Takes t k a b =
    (0 < a.values k)
    × ((j : ℕ) → b.values j ≡ (if j == k then a.values k - 1 else a.values j))
    × ((u : ℕ) → b.waits u ≡ update a.waits t none u)

abbrev pub Gives : ℕ → Counters → Counters → Type 0
Gives k a b =
    ((j : ℕ) → b.values j ≡ (if j == k then a.values k + 1 else a.values j))
    × ((u : ℕ) → b.waits u ≡ a.waits u)

-- A thread that goes on goes on waiting only if there is no unit.
abbrev pub GoesOn : ℕ → Option ℕ → Counters → Counters → Type 0
GoesOn t none a b = Stays a b
GoesOn t (some k) a b = Waits t k a b ⊎ Takes t k a b

-- What a move with current thread `t` may do.
abbrev pub Allowed : Move → ℕ → Counters → Counters → Type 0
Allowed (call_p k) t a b = Waits t k a b ⊎ Takes t k a b
Allowed (call_v k) t a b = Gives k a b
Allowed (handler_v k) t a b = Gives k a b
Allowed go_on t a b = GoesOn t (a.waits t) a b
Allowed _ t a b = Stays a b
