-- ===== src/Threads/Moves.antt =====
-- The runs of a system of threads: what the threads, the clock and the devices can do next.
use nachos.Lists.{init}
use nachos.Base.{ℕ, ◌≡◌, Bool, true, false, Outcome, done, aborted, ◌>>=◌, none}
use nachos.Interrupt.{IntStatus, int_off, int_on}
use nachos.Threads.{
  System, Position, Control, own_code, in_yield, in_p, at_begin, finished, absent, executing,
  switched, idling, set_level, fork, yield, finish_yield, finish, begin_thread, after_switch,
  look_for_next, update, just_created, running,
}
use nachos.Threads.Synch.{p, p_loop, v, new_semaphore}

-- The current thread calls P or V of a semaphore, Yield (itself, or from `OneTick` at the end of a
-- time slice), Fork of a new thread, Finish or SetLevel; a device's handler calls V; the thread that
-- `SWITCH` has switched to goes on; or the loop of Sleep goes on after Idle.
pub data Move : Type 0 where
  call_p : ℕ → Move
  call_v : ℕ → Move
  call_yield : Move
  call_fork : ℕ → Move
  call_finish : Move
  call_set_level : IntStatus → Move
  handler_v : ℕ → Move
  go_on : Move
  look_again : Move

abbrev pub is_finished : Position → Bool
is_finished finished = true
is_finished _ = false

-- The code after `SWITCH`, by the place where the thread had stopped.
unfoldable pub resume : System → Position → Outcome System
resume s (in_yield old) = finish_yield s old
resume s (in_p k old) = after_switch s >>= λ s'. p_loop s' k old
resume s at_begin = begin_thread s
resume s own_code = aborted
resume s finished = aborted
resume s absent = aborted

-- A handler runs with interrupts off, and the level is restored after it.
unfoldable pub handle_v : System → ℕ → Outcome System
handle_v s k = do
  s' ← v (record s { level = int_off; in_handler = true }) k
  done (record s' { level = s.level; in_handler = false })

unfoldable pub move : System → Move → Outcome System
move s (call_p k) = p s k
move s (call_v k) = v s k
move s call_yield = yield s
move s (call_fork t) = fork s t
move s call_finish = finish s
move s (call_set_level now) = set_level s now >>= λ (old, s'). done s'
move s (handler_v k) = handle_v s k
move s go_on = resume s (s.positions s.current_thread)
move s look_again = look_for_next s (is_finished (s.positions s.current_thread))

-- Interrupts come while a thread runs with interrupts on, and while the processor idles.
abbrev pub Interruptible : System → Control → Type 0
Interruptible s executing = s.level ≡ int_on
Interruptible s switched = ⊥
Interruptible s idling = Unit

abbrev pub Enabled : System → Move → Type 0
Enabled s (call_fork t) = (s.control ≡ executing) × (s.positions t ≡ absent)
Enabled s (handler_v k) = Interruptible s s.control
Enabled s go_on = s.control ≡ switched
Enabled s look_again = s.control ≡ idling
Enabled s _ = s.control ≡ executing

-- The systems that moves lead to.
pub data Reach (s : System) : System → Type 0 where
  here : Reach s s
  later :
      {s' : System} {s2 : System} (m : Move)
      → Reach s s'
      → Enabled s' m
      → move s' m ≡ done s2
      → Reach s s2

-- `Kernel::Initialize`, with semaphores of the given values: thread 0 is the main thread, and no other
-- is there.
unfoldable pub start : (ℕ → ℕ) → System
start values = record {
  current_thread = 0;
  control = executing;
  level = int_on;
  in_handler = false;
  statuses = update (λ t. just_created) 0 running;
  positions = update (λ t. absent) 0 own_code;
  ready_list = init;
  to_be_destroyed = none;
  semaphores = λ k. new_semaphore (values k);
}
