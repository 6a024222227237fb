-- ===== src/Interrupt/Tests.antt =====
-- The interrupts of code/machine/interrupt.cc at a small pending list.
use nachos.Base.{
  ℕ, ◌+◌, ◌≤◌, ◌≡◌, refl, ap, sym, ◌∙◌, length, List, true, Bool, false, [], ◌∷◌, none, some,
  Outcome, done, arith,
}
use nachos.Lists.{is_in_list, in_chain}
use nachos.Lists.Contents.{IsCounted}
use nachos.Interrupt.{
  yield_on_return, PendingInterrupt, Kernel, timer_int, disk_int, int_off, user_mode, schedule,
  check_if_due, is_off, earlier, same_object,
}
use nachos.Interrupt.Rounds.{due, Checked, check_if_due_lem}
use nachos.Interrupt.Scheduling.{IsOrdered, IsPlaced, scheduled, schedule_lem}

abbrev pending_at : ℕ → ℕ → PendingInterrupt
pending_at address time = record {
  address = address;
  call_on_interrupt = 7;
  when = time;
  type = disk_int;
}

abbrev kernel : Kernel ℕ
kernel = record {
  level = int_off;
  pending = record { items = pending_at 1 5 ∷ pending_at 2 9 ∷ []; num_in_list = 2 };
  in_handler = false;
  yield_on_return = false;
  status = user_mode;
  total_ticks = 6;
  idle_ticks = 0;
  machine = none;
  others = 0;
}

-- Nothing is asked of the list.
abbrev Always : List PendingInterrupt → ℕ → Type 0
Always xs w = Unit

-- A device that counts its calls and asks for a context switch, as Alarm::CallBack does.
abbrev switch_call : ℕ → Kernel ℕ → Outcome (Kernel ℕ)
switch_call c k = yield_on_return (record k { others = k.others + 1 })

switch_call-returns :
    (k : Kernel ℕ) (x : PendingInterrupt) (xs : List PendingInterrupt)
    → k.pending ≡ record { items = xs; num_in_list = length xs }
    → k.in_handler ≡ true
    → Always (x ∷ xs) k.others
    → (k' : Kernel ℕ) × (switch_call x.call_on_interrupt k ≡ done k')
      × (k'.in_handler ≡ true)
      × IsCounted k'.pending
      × Always k'.pending.items k'.others
      × due k' ≤ due k
unfolding yield_on_return
switch_call-returns k x xs e inside ready = (
  record k { others = k.others + 1; yield_on_return = true },
  (rw inside refl),
  inside,
  ap (λ l. l.num_in_list) e ∙ sym (ap (λ l. length l.items) e),
  tt,
  omega arith,
)

check_if_due_lem_example :
    (r : Bool × Kernel ℕ) × (check_if_due switch_call 2 false kernel ≡ done (some r))
    × Checked switch_call Always switch_call-returns false kernel r
unfolding is_off
check_if_due_lem_example =
    check_if_due_lem switch_call Always switch_call-returns 2 false kernel refl refl tt
      (omega arith)

schedule_lem_example :
    (k' : Kernel ℕ) × (schedule kernel 3 7 3 timer_int ≡ done k')
    × IsPlaced (scheduled kernel 3 7 3 timer_int) kernel.pending.items k'.pending.items
    × IsOrdered k'.pending.items
    × IsCounted k'.pending
    × (k'.total_ticks ≡ 6)
    × (due k' ≡ due kernel)
unfolding is_in_list in_chain same_object earlier
schedule_lem_example =
    schedule_lem kernel 3 7 3 timer_int (omega arith) refl ((refl, tt), (tt, tt)) refl
