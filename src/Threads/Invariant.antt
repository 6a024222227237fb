-- ===== src/Threads/Invariant.antt =====
-- The invariant of the threads of code/threads: every thread is at one place, and the lists, the
-- states and the positions of the threads agree.
pub mod Looping
pub mod Yielding
pub mod Calls
pub mod Scheduling
pub mod Switching
pub mod Semaphores
pub mod Waking
pub mod Signalling
pub mod Resuming
pub mod Preservation
use nachos.Base.{ℕ, ◌≡◌, ◌≢◌, Bool, true, false, Option, none, some, ◌==◌, List, length}
use nachos.Lists.{LinkedList, in_chain}
use nachos.Lists.Contents.{IsCounted}
use nachos.Interrupt.{IntStatus, int_off, is_off}
use nachos.Threads.{
  System, ThreadStatus, Position, Control, just_created, running, ready, blocked, own_code,
  in_yield, in_p, at_begin, finished, absent, executing, switched, idling,
}
use nachos.Threads.Chains.{IsSound}

-- A thread at such a position can be switched to.
abbrev pub IsSuspended : Position → Type 0
IsSuspended (in_yield old) = Unit
IsSuspended (in_p k old) = Unit
IsSuspended at_begin = Unit
IsSuspended _ = ⊥

-- A thread at such a position can sleep, and is on the queues `q` that it should be on.
abbrev pub IsQueued : Position → (ℕ → Bool) → Type 0
IsQueued (in_p k old) q = (j : ℕ) → q j ≡ (j == k)
IsQueued finished q = (j : ℕ) → q j ≡ false
IsQueued absent q = (j : ℕ) → q j ≡ false
IsQueued _ q = ⊥

-- The state of a thread agrees with its position, with its being on the ready list, and with the
-- queues that it is on.
abbrev pub Agrees : ThreadStatus → Position → Bool → (ℕ → Bool) → Type 0
Agrees ready pos r q = (r ≡ true) × ((j : ℕ) → q j ≡ false) × IsSuspended pos
Agrees blocked pos r q = (r ≡ false) × IsQueued pos q
Agrees just_created pos r q = (r ≡ false) × ((j : ℕ) → q j ≡ false) × (pos ≡ absent)
Agrees running pos r q = (r ≡ false) × ((j : ℕ) → q j ≡ false)

abbrev pub is_ready : System → ℕ → Bool
is_ready s t = in_chain ◌==◌ t s.ready_list.items

abbrev pub is_queued : System → ℕ → ℕ → Bool
is_queued s t j = in_chain ◌==◌ t (s.semaphores j).queue.items

abbrev pub Fits : System → ℕ → Type 0
Fits s t = Agrees (s.statuses t) (s.positions t) (is_ready s t) (is_queued s t)

-- No list counts wrong or has a thread twice.
abbrev pub SoundLists : System → Type 0
SoundLists s = IsSound s.ready_list × ((j : ℕ) → IsSound (s.semaphores j).queue)

-- Thread `t` is on no list.
abbrev pub IsFree : System → ℕ → Type 0
IsFree s t = (is_ready s t ≡ false) × ((j : ℕ) → is_queued s t j ≡ false)

-- The thread that waits for its deletion is another than the current one, and past its end.
abbrev pub Doomed : System → Option ℕ → Type 0
Doomed s none = Unit
Doomed s (some t) = (t ≢ s.current_thread) × (s.positions t ≡ finished)

-- A position of a thread in the loop of Sleep.
abbrev pub IsAsleep : Position → Type 0
IsAsleep (in_p k old) = Unit
IsAsleep finished = Unit
IsAsleep _ = ⊥

abbrev pub Phase : System → Control → Type 0
Phase s executing =
    (s.statuses s.current_thread ≡ running)
    × (s.positions s.current_thread ≡ own_code)
    × (s.to_be_destroyed ≡ none)
Phase s switched =
    (s.statuses s.current_thread ≡ running)
    × IsSuspended (s.positions s.current_thread)
    × (is_off s.level ≡ true)
    × Doomed s s.to_be_destroyed
Phase s idling =
    ((t : ℕ) → s.statuses t ≢ running)
    × IsAsleep (s.positions s.current_thread)
    × (is_off s.level ≡ true)
    × (s.to_be_destroyed ≡ none)

pub record Inv (s : System) : Type 0 where
  pub lists : SoundLists s
  pub fits : (t : ℕ) → Fits s t
  pub alone : (t : ℕ) → s.statuses t ≡ running → t ≡ s.current_thread
  pub phase : Phase s s.control
  pub no_handler : s.in_handler ≡ false
