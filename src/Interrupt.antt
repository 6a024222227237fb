-- ===== src/Interrupt.antt =====
-- code/machine/interrupt.h and interrupt.cc, with the clock of stats.h: the pending interrupts, their
-- scheduling, and the firing of those that are due.
pub mod Rounds
pub mod Scheduling
mod Tests
use nachos.Base.{
  ℕ, zero, suc, ◌+◌, ◌-◌, ◌≡◌, Bool, true, false, not, ◌&&◌, List, Option, none, some, Outcome,
  done, aborted, ◌>>=◌, ◌>>◌, assert, ltb, leb, ◌==◌, if◌then◌else◌,
}
use nachos.Lists.{LinkedList, init, is_empty, front, remove_front, insert}
use nachos.Machine.{Machine, delayed_load}

pub data IntStatus : Type 0 where
  int_off : IntStatus
  int_on : IntStatus

pub data MachineStatus : Type 0 where
  idle_mode : MachineStatus
  system_mode : MachineStatus
  user_mode : MachineStatus

pub data IntType : Type 0 where
  timer_int : IntType
  disk_int : IntType
  console_write_int : IntType
  console_read_int : IntType
  network_send_int : IntType
  network_recv_int : IntType

-- `address` is the pointer to the object, by which lists compare it; `call_on_interrupt` is the
-- pointer to the object of the device that is to be called.
pub record PendingInterrupt : Type 0 where
  pub address : ℕ
  pub call_on_interrupt : ℕ
  pub when : ℕ
  pub type : IntType

-- The interrupts, the clock, the machine, and in `others` the rest of the kernel.
pub record Kernel (W : Type 0) : Type 0 where
  pub level : IntStatus
  pub pending : LinkedList PendingInterrupt
  pub in_handler : Bool
  pub yield_on_return : Bool
  pub status : MachineStatus
  pub total_ticks : ℕ
  pub idle_ticks : ℕ
  pub machine : Option Machine
  pub others : W

-- `PendingCompare(x, y) < 0`, and the comparison of two pointers.
unfoldable pub earlier : PendingInterrupt → PendingInterrupt → Bool
earlier x y = ltb x.when y.when

unfoldable pub same_object : PendingInterrupt → PendingInterrupt → Bool
same_object x y = x.address == y.address

unfoldable pub is_off : IntStatus → Bool
is_off int_off = true
is_off int_on = false

unfoldable pub finish_load : Option Machine → Option Machine
finish_load none = none
finish_load (some m) = some (delayed_load m 0 0)

module _ {W : Type 0} where
  -- `Schedule`, with the address that `new` returns. A negative `fromNow` fails the assertion as 0
  -- does.
  unfoldable pub schedule : Kernel W → ℕ → ℕ → ℕ → IntType → Outcome (Kernel W)
  schedule k address to_call from_now type = do
    assert (ltb 0 from_now)
    pending ← insert same_object earlier k.pending (record {
      address = address;
      call_on_interrupt = to_call;
      when = k.total_ticks + from_now;
      type = type;
    })
    done (record k { pending = pending })

  unfoldable pub yield_on_return : Kernel W → Outcome (Kernel W)
  yield_on_return k = do assert k.in_handler; done (record k { yield_on_return = true })

  -- The condition of the loop of `CheckIfDue`.
  unfoldable pub front_is_due : Kernel W → Outcome Bool
  front_is_due k =
      let first = front k.pending >>= λ next. done (leb next.when k.total_ticks) in
      if is_empty k.pending then done false else first

  module _ (call_back : ℕ → Kernel W → Outcome (Kernel W)) where
    -- The loop of `CheckIfDue`, for `rounds` rounds at most: `none` if it wants more.
    unfoldable pub fire : ℕ → Kernel W → Outcome (Option (Kernel W))
    fire zero k = done none
    fire (suc rounds) k = do
      (next, pending) ← remove_front k.pending
      k' ← call_back next.call_on_interrupt (record k { pending = pending })
      again ← front_is_due k'
      let later = fire rounds k'
      if again then later else done (some k')

    -- From the call of `DelayedLoad` on.
    unfoldable pub handle : ℕ → Kernel W → Outcome (Option (Bool × Kernel W))
    handle rounds k = do
      fired ← fire rounds (record k { in_handler = true; machine = finish_load k.machine })
      elim fired [
        | none ↦ done none
        | some k' ↦ done (some (true, record k' { in_handler = false }))
      ]

    unfoldable pub check_if_due : ℕ → Bool → Kernel W → Outcome (Option (Bool × Kernel W))
    check_if_due rounds advance_clock k =
        let present = front k.pending >>= λ next.
        if ltb k.total_ticks next.when
        then if not advance_clock
          then done (some (false, k))
          else handle rounds (record k {
            idle_ticks = k.idle_ticks + (next.when - k.total_ticks);
            total_ticks = next.when;
          })
        else handle rounds k in
        assert (is_off k.level) >> (if is_empty k.pending then done (some (false, k)) else present)
