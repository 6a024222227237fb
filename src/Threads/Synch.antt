-- ===== src/Threads/Synch.antt =====
-- Semaphore::P and Semaphore::V of code/threads/synch.cc.
use nachos.Base.{ℕ, ◌+◌, ◌-◌, Outcome, done, ◌>>=◌, ◌==◌, if◌then◌else◌, false}
use nachos.Lists.{is_empty, remove_front, append, init}
use nachos.Interrupt.{IntStatus, int_off}
use nachos.Threads.{
  System, Semaphore, executing, in_p, own_code, update, set_level, ready_to_run, sleep,
}

-- `Semaphore::Semaphore`.
unfoldable pub new_semaphore : ℕ → Semaphore
new_semaphore initial_value = record { value = initial_value; queue = init }

-- The loop of `P` from its test on, up to the next `Sleep` or to the end of `P`.
unfoldable pub p_loop : System → ℕ → IntStatus → Outcome System
p_loop s k old =
    let sem = s.semaphores k in
    let t = s.current_thread in
    let wait = append ◌==◌ sem.queue t >>= λ queue.
    sleep
      (record s {
        semaphores = update s.semaphores k (record { value = sem.value; queue = queue });
        positions = update s.positions t (in_p k old);
      })
      false in
    let taken : System = record s {
      semaphores = update s.semaphores k (record { value = sem.value - 1; queue = sem.queue });
      positions = update s.positions t own_code;
      control = executing;
    } in
    if sem.value == 0 then wait else (set_level taken old >>= λ (off, s'). done s')

unfoldable pub p : System → ℕ → Outcome System
p s k = do (old, s') ← set_level s int_off; p_loop s' k old

-- The value of a semaphore goes up.
unfoldable pub increment : System → ℕ → System
increment s k =
    let sem = s.semaphores k in
    record s {
      semaphores = update s.semaphores k (record { value = sem.value + 1; queue = sem.queue });
    }

-- The first thread of the queue becomes ready.
unfoldable pub wake_front : System → ℕ → Outcome System
wake_front s k =
    let sem = s.semaphores k in
    remove_front sem.queue >>= λ (thread, queue).
    ready_to_run
      (record s {
        semaphores = update s.semaphores k (record { value = sem.value; queue = queue });
      })
      thread

unfoldable pub v : System → ℕ → Outcome System
v s k = do
  (old, s') ← set_level s int_off
  let woken = wake_front s' k
  s2 ← if is_empty (s'.semaphores k).queue then done s' else woken
  (off, s3) ← set_level (increment s2 k) old
  done s3
