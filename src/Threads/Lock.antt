-- ===== src/Threads/Lock.antt =====
-- Lock of code/threads/synch.h and synch.cc: a lock is a semaphore, with its number `k` here, and a
-- holder.
pub mod Ownership
pub mod Visibility
pub mod Exclusion
pub mod Runs
use nachos.Base.{
  ℕ, ◌≡◌, ◌≢◌, Bool, false, Option, none, some, Outcome, done, ◌>>=◌, ◌>>◌, assert, ◌==◌,
}
use nachos.Threads.{System, executing, update}
use nachos.Threads.Synch.{p, v}
use nachos.Threads.Moves.{Move, call_p, call_v, handler_v, move, Enabled}

-- How far a thread is with the lock: outside, in `Acquire`, with the lock, or in `Release` between
-- its assignment and the return of `V`.
pub data Stage : Type 0 where
  outside : Stage
  acquiring : Stage
  held : Stage
  releasing : Stage

-- The threads with one lock, whose other moves are those of the system.
pub record Locking : Type 0 where
  pub system : System
  pub lock_holder : Option ℕ
  pub stages : ℕ → Stage

abbrev pub me : Locking → ℕ
me x = x.system.current_thread

-- `Lock::IsHeldByCurrentThread`.
unfoldable pub is_held_by_current_thread : Locking → Bool
is_held_by_current_thread x = elim x.lock_holder [ none ↦ false | some t ↦ t == me x ]

pub data LockMove : Type 0 where
  call_acquire : LockMove
  end_acquire : LockMove
  call_release : LockMove
  end_release : LockMove
  other : Move → LockMove

abbrev pub go_to : Locking → Stage → Locking
go_to x stage = record x { stages = update x.stages (me x) stage }

module _ (k : ℕ) where
  -- `Lock::Acquire` up to the call of `P`, and from its return on.
  unfoldable pub call_acquire_move : Locking → Outcome Locking
  call_acquire_move x = do s ← p x.system k; done (record (go_to x acquiring) { system = s })

  unfoldable pub end_acquire_move : Locking → Outcome Locking
  end_acquire_move x = done (record (go_to x held) { lock_holder = some (me x) })

  -- `Lock::Release` up to the call of `V`, and that call.
  unfoldable pub call_release_move : Locking → Outcome Locking
  call_release_move x = do
    assert (is_held_by_current_thread x)
    done (record (go_to x releasing) { lock_holder = none })

  unfoldable pub end_release_move : Locking → Outcome Locking
  end_release_move x = do s ← v x.system k; done (record (go_to x outside) { system = s })

  unfoldable pub lock_move : Locking → LockMove → Outcome Locking
  lock_move x call_acquire = call_acquire_move x
  lock_move x end_acquire = end_acquire_move x
  lock_move x call_release = call_release_move x
  lock_move x end_release = end_release_move x
  lock_move x (other m) = do s ← move x.system m; done (record x { system = s })

  -- Only `Acquire` and `Release` use the semaphore of the lock.
  abbrev pub IsApart : Move → Type 0
  IsApart (call_p j) = j ≢ k
  IsApart (call_v j) = j ≢ k
  IsApart (handler_v j) = j ≢ k
  IsApart _ = Unit

  -- A thread releases a lock that it has, and acquires one that it does not have.
  abbrev pub CanMove : Locking → LockMove → Type 0
  CanMove x call_acquire = (x.system.control ≡ executing) × (x.stages (me x) ≡ outside)
  CanMove x end_acquire = (x.system.control ≡ executing) × (x.stages (me x) ≡ acquiring)
  CanMove x call_release = (x.system.control ≡ executing) × (x.stages (me x) ≡ held)
  CanMove x end_release = (x.system.control ≡ executing) × (x.stages (me x) ≡ releasing)
  CanMove x (other m) = Enabled x.system m × IsApart m

  pub data LockReach (x : Locking) : Locking → Type 0 where
    at_start : LockReach x x
    then_move :
        {y : Locking} {z : Locking} (m : LockMove)
        → LockReach x y
        → CanMove y m
        → lock_move y m ≡ done z
        → LockReach x z
