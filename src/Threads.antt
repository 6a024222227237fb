-- ===== src/Threads.antt =====
-- code/threads/scheduler.h, scheduler.cc, thread.h and thread.cc: the ready list and the switching of
-- threads. A thread is a number, as the pointer to its object is.
pub mod Chains
pub mod Synch
pub mod Moves
pub mod Invariant
pub mod Counting
pub mod Lock
pub mod Rotation
pub mod Wakeups
mod Tests
use nachos.Base.{
  ℕ, ◌+◌, ◌≡◌, Bool, true, false, not, ◌||◌, Option, none, some, Outcome, done, aborted, ◌>>=◌,
  ◌>>◌, assert, ◌==◌, if◌then◌else◌,
}
use nachos.Lists.{LinkedList, is_empty, remove_front, append}
use nachos.Interrupt.{IntStatus, int_off, int_on, is_off}

pub data ThreadStatus : Type 0 where
  just_created : ThreadStatus
  running : ThreadStatus
  ready : ThreadStatus
  blocked : ThreadStatus

-- Where a thread is, as its stack says: in its own code, suspended by `Yield` or in the loop of
-- `Semaphore::P` of a semaphore, both with the interrupt level to restore, at the start of
-- `ThreadRoot`, past `Finish`, or nowhere, for a number that no forked thread has.
pub data Position : Type 0 where
  own_code : Position
  in_yield : IntStatus → Position
  in_p : ℕ → IntStatus → Position
  at_begin : Position
  finished : Position
  absent : Position

-- What the processor does: it runs the current thread, it comes out of `SWITCH` in the current
-- thread, or it idles in the loop of `Sleep` of the current thread.
pub data Control : Type 0 where
  executing : Control
  switched : Control
  idling : Control

pub record Semaphore : Type 0 where
  pub value : ℕ
  pub queue : LinkedList ℕ

-- `ready_list` and `to_be_destroyed` are the scheduler's, `statuses` are the fields of the threads,
-- `level` and `in_handler` are those of the interrupts.
pub record System : Type 0 where
  pub current_thread : ℕ
  pub control : Control
  pub level : IntStatus
  pub in_handler : Bool
  pub statuses : ℕ → ThreadStatus
  pub positions : ℕ → Position
  pub ready_list : LinkedList ℕ
  pub to_be_destroyed : Option ℕ
  pub semaphores : ℕ → Semaphore

abbrev pub update {ℓ} : {A : Type ℓ} → (ℕ → A) → ℕ → A → ℕ → A
update f n a = λ m. if m == n then a else f m

-- `Interrupt::SetLevel` up to its `OneTick`, whose effect on the threads is a call of `Yield` or of
-- handlers at some later point.
unfoldable pub set_level : System → IntStatus → Outcome (IntStatus × System)
set_level s now = do
  assert (is_off now || not s.in_handler)
  done (s.level, record s { level = now })

-- `Scheduler::ReadyToRun`.
unfoldable pub ready_to_run : System → ℕ → Outcome System
ready_to_run s thread = do
  assert (is_off s.level)
  ready_list ← append ◌==◌ s.ready_list thread
  done (record s { statuses = update s.statuses thread ready; ready_list = ready_list })

-- `Scheduler::FindNextToRun`.
unfoldable pub find_next_to_run : System → Outcome (Option ℕ × System)
find_next_to_run s =
    let first = remove_front s.ready_list >>= λ (thread, ready_list).
    done (some thread, record s { ready_list = ready_list }) in
    assert (is_off s.level) >> (if is_empty s.ready_list then done (none, s) else first)

abbrev pub is_null : Option ℕ → Bool
is_null none = true
is_null (some a) = false

-- `Scheduler::Run` up to the call of `SWITCH`.
unfoldable pub run : System → ℕ → Bool → Outcome System
run s next_thread finishing = do
  assert (is_off s.level)
  assert (not finishing || is_null s.to_be_destroyed)
  done (record s {
    to_be_destroyed = if finishing then some s.current_thread else s.to_be_destroyed;
    current_thread = next_thread;
    statuses = update s.statuses next_thread running;
    control = switched;
  })

-- `Scheduler::CheckToBeDestroyed`, with the assertion of the destructor of the thread.
unfoldable pub check_to_be_destroyed : System → Outcome System
check_to_be_destroyed s = elim s.to_be_destroyed [
  | none ↦ done s
  | some thread ↦
      assert (not (thread == s.current_thread))
      >> done (record s { to_be_destroyed = none; positions = update s.positions thread absent })
]

-- `Scheduler::Run` from the return of `SWITCH` on, in the thread that runs again.
unfoldable pub after_switch : System → Outcome System
after_switch s = assert (is_off s.level) >> check_to_be_destroyed s

-- `Thread::Begin`, with the `Enable` of the interrupts.
unfoldable pub begin_thread : System → Outcome System
begin_thread s = do
  s' ← check_to_be_destroyed s
  (old, s2) ← set_level s' int_on
  done (record s2 {
    control = executing;
    positions = update s2.positions s2.current_thread own_code;
  })

-- `Thread::Fork` of a new thread.
unfoldable pub fork : System → ℕ → Outcome System
fork s thread = do
  (old, s') ← set_level (record s { positions = update s.positions thread at_begin }) int_off
  s2 ← ready_to_run s' thread
  (off, s3) ← set_level s2 old
  done s3

-- `Thread::Yield`, up to the call of `SWITCH` if another thread is ready.
unfoldable pub yield : System → Outcome System
yield s = do
  (old, s') ← set_level s int_off
  (next, s2) ← find_next_to_run s'
  elim next [
    | none ↦ set_level s2 old >>= λ (off, s3). done s3
    | some next_thread ↦
        let left : System = record s2 {
          positions = update s2.positions s2.current_thread (in_yield old);
        } in
        ready_to_run left s2.current_thread >>= λ s3. run s3 next_thread false
  ]

-- `Thread::Yield`, from there on.
unfoldable pub finish_yield : System → IntStatus → Outcome System
finish_yield s old = do
  s' ← after_switch s
  (off, s2) ← set_level s' old
  done (record s2 {
    control = executing;
    positions = update s2.positions s2.current_thread own_code;
  })

-- One test of the loop of `Thread::Sleep`: it runs the next thread, or idles.
unfoldable pub look_for_next : System → Bool → Outcome System
look_for_next s finishing = do
  (next, s') ← find_next_to_run s
  elim next [
    | none ↦ done (record s' { control = idling })
    | some next_thread ↦ run s' next_thread finishing
  ]

-- `Thread::Sleep` of the current thread.
unfoldable pub sleep : System → Bool → Outcome System
sleep s finishing = do
  assert (is_off s.level)
  look_for_next (record s { statuses = update s.statuses s.current_thread blocked }) finishing

-- `Thread::Finish`.
unfoldable pub finish : System → Outcome System
finish s = do
  (old, s') ← set_level s int_off
  sleep (record s' { positions = update s'.positions s'.current_thread finished }) true
