-- ===== src/Interrupt/Rounds.antt =====
-- Interrupt::CheckIfDue of code/machine/interrupt.cc comes to an end, with no interrupt due at the
-- front of the pending list.
use nachos.Base.{
  ℕ, zero, suc, ◌+◌, ◌-◌, ◌<◌, ◌≤◌, ◌≡◌, refl, ap, subst, ◌∙◌, ◌⊎◌, inl, inr, Bool, true, false,
  List, [], ◌∷◌, some, Outcome, done, ltb, leb, ◌==◌, if◌then◌else◌, length, arith, Bool-cases,
}
use nachos.Lists.{LinkedList, is_empty, front, first_item, rest, remove_front}
use nachos.Lists.Contents.{IsCounted}
use nachos.Interrupt.{
  PendingInterrupt, Kernel, front_is_due, fire, handle, check_if_due, is_off, finish_load,
}

-- How many of the interrupts are due at time `now`.
abbrev pub due_count : List PendingInterrupt → ℕ → ℕ
due_count [] now = 0
due_count (x ∷ xs) now = (if leb x.when now then 1 else 0) + due_count xs now

due_count-le : (xs : List PendingInterrupt) (now : ℕ) → due_count xs now ≤ length xs
due_count-le [] now = omega arith
due_count-le (x ∷ xs) now = ground (arith, due_count-le xs now)

due_count-cons :
    (x : PendingInterrupt) (xs : List PendingInterrupt) (now : ℕ)
    → leb x.when now ≡ true
    → due_count (x ∷ xs) now ≡ 1 + due_count xs now
due_count-cons x xs now h = rw h refl

front-cons :
    (l : LinkedList PendingInterrupt) (x : PendingInterrupt) (xs : List PendingInterrupt)
    → l.items ≡ x ∷ xs
    → front l ≡ done x
unfolding front first_item
front-cons l x xs e = rw e refl

module _ {W : Type 0} where
  abbrev pub due : Kernel W → ℕ
  due k = due_count k.pending.items k.total_ticks

  -- What the list says about its front.
  abbrev Front : Kernel W → Type 0
  Front k =
      ((front_is_due k ≡ done true)
        × ((x : PendingInterrupt) × (xs : List PendingInterrupt) × (k.pending.items ≡ x ∷ xs)
            × (leb x.when k.total_ticks ≡ true)
            × (remove_front k.pending
                ≡ done (x, record { items = xs; num_in_list = k.pending.num_in_list - 1 }))))
      ⊎ (front_is_due k ≡ done false)

  Front-cases :
      (k : Kernel W) (xs : List PendingInterrupt)
      → k.pending.items ≡ xs
      → IsCounted k.pending
      → Front k
  unfolding front_is_due front is_empty first_item remove_front rest
  Front-cases k [] e n =
      let size : length k.pending.items ≡ 0 = ap length e in
      let empty : (k.pending.num_in_list == 0) ≡ true = ground (arith, size) in inr (rw empty refl)
  Front-cases k (x ∷ xs) e n =
      let size : length k.pending.items ≡ suc (length xs) = ap length e in
      let some : (k.pending.num_in_list == 0) ≡ false = ground (arith, size) in
      elim (Bool-cases (leb x.when k.total_ticks)) [
        | inl on_time ↦ inl ((rw (some, e, on_time) refl), (x, xs, e, on_time, (rw (some, e) refl)))
        | inr early ↦ inr (rw (some, e, early) refl)
      ]

-- The loop of CheckIfDue has gone from one kernel to another: it has taken one interrupt after another
-- off the front and called its handler, until the front was not due any more.
pub data Served {W : Type 0} (call_back : ℕ → Kernel W → Outcome (Kernel W))
    : Kernel W → Kernel W → Type 0 where
  one_last :
      {k k' : Kernel W} (x : PendingInterrupt) (l : LinkedList PendingInterrupt)
      → remove_front k.pending ≡ done (x, l)
      → call_back x.call_on_interrupt (record k { pending = l }) ≡ done k'
      → front_is_due k' ≡ done false
      → Served call_back k k'
  one_more :
      {k k' k2 : Kernel W} (x : PendingInterrupt) (l : LinkedList PendingInterrupt)
      → remove_front k.pending ≡ done (x, l)
      → call_back x.call_on_interrupt (record k { pending = l }) ≡ done k'
      → front_is_due k' ≡ done true
      → Served call_back k' k2
      → Served call_back k k2

-- A device's handler is called within a handler, with its interrupt taken off a list that is `Ready` for
-- the state of the devices: it returns, keeps that and the count of the list, and makes no interrupt
-- due, since what it schedules lies in the future.
module _ {W : Type 0} (call_back : ℕ → Kernel W → Outcome (Kernel W))
    (Ready : List PendingInterrupt → W → Type 0)
    (device : (k : Kernel W) (x : PendingInterrupt) (xs : List PendingInterrupt)
      → k.pending ≡ record { items = xs; num_in_list = length xs }
      → k.in_handler ≡ true
      → Ready (x ∷ xs) k.others
      → (k' : Kernel W) × (call_back x.call_on_interrupt k ≡ done k')
        × (k'.in_handler ≡ true)
        × IsCounted k'.pending
        × Ready k'.pending.items k'.others
        × due k' ≤ due k) where
  abbrev Finished : ℕ → Kernel W → Type 0
  Finished rounds k =
      (k' : Kernel W) × (fire call_back rounds k ≡ done (some k'))
      × Served call_back k k'
      × (front_is_due k' ≡ done false)
      × IsCounted k'.pending

  popped_eq :
      (k : Kernel W) (x : PendingInterrupt) (xs : List PendingInterrupt)
      → k.pending.items ≡ x ∷ xs
      → IsCounted k.pending
      → k.pending.num_in_list - 1 ≡ length xs
  popped_eq k x xs e n =
      let size : length k.pending.items ≡ suc (length xs) = ap length e in omega (arith, size)

  -- The first round always runs, whether the front is due or not.
  fire_lem :
      (rounds : ℕ) (k : Kernel W) (x : PendingInterrupt) (xs : List PendingInterrupt)
      → k.pending.items ≡ x ∷ xs
      → IsCounted k.pending
      → k.in_handler ≡ true
      → Ready (x ∷ xs) k.others
      → remove_front k.pending
        ≡ done (x, record { items = xs; num_in_list = k.pending.num_in_list - 1 })
      → due_count xs k.total_ticks < rounds
      → Finished rounds k
  unfolding fire
  fire_lem zero k x xs e n inside ready run h = absurd (omega arith)
  fire_lem (suc rounds) k x xs e n inside ready run h =
      let l : LinkedList PendingInterrupt = record {
        items = xs;
        num_in_list = k.pending.num_in_list - 1;
      } in
      let popped : Kernel W = record k { pending = l } in
      let same : popped.pending ≡ record { items = xs; num_in_list = length xs } =
        ap (λ c. record { items = xs; num_in_list = c }) (popped_eq k x xs e n) in
      let (k', called, inside', n', ready', less) = device popped x xs same inside ready in
      elim (Front-cases k' k'.pending.items refl n') [
        | inl (again, (y, ys, e', on_time, run')) ↦
            let count : due k' ≡ 1 + due_count ys k'.total_ticks =
              ap (λ c. due_count c k'.total_ticks) e'
              ∙ due_count-cons y ys k'.total_ticks on_time in
            let (k2, fired, served, quiet, n2) =
              fire_lem rounds k' y ys e' n' inside' (subst (λ c. Ready c k'.others) e' ready') run'
                (omega (arith, less, count)) in
            (
              k2,
              (rw (run, called, again, fired) refl),
              one_more x l run called again served,
              quiet,
              n2,
            )
        | inr quiet ↦ (k', (rw (run, called, quiet) refl), one_last x l run called quiet, quiet, n')
      ]

  -- The kernel in which the first handler is called, and the one whose clock has moved on to `x`.
  abbrev pub begun : Kernel W → Kernel W
  begun k = record k { in_handler = true; machine = finish_load k.machine }

  abbrev pub moved_on : Kernel W → PendingInterrupt → Kernel W
  moved_on k x = record k {
    idle_ticks = k.idle_ticks + (x.when - k.total_ticks);
    total_ticks = x.when;
  }

  -- From `start` on, with a load finished, handlers have been called until the front was not due, and
  -- the kernel has left the handlers then.
  abbrev pub Handled : Kernel W → Kernel W → Type 0
  Handled start k' =
      (k2 : Kernel W) × Served call_back (begun start) k2
      × (k' ≡ record k2 { in_handler = false })
      × (front_is_due k' ≡ done false)
      × IsCounted k'.pending

  -- What CheckIfDue has done: nothing, or it has called handlers, from the present time on if the front
  -- was due, and otherwise from the time of the front on.
  abbrev pub Checked : Bool → Kernel W → Bool × Kernel W → Type 0
  Checked advance_clock k (fired, k') =
      ((fired ≡ false)
        × (k' ≡ k)
        × ((k.pending.items ≡ []) ⊎ ((advance_clock ≡ false) × (front_is_due k ≡ done false))))
      ⊎ ((fired ≡ true) × (front_is_due k ≡ done true) × Handled k k')
      ⊎ ((fired ≡ true)
          × (advance_clock ≡ true)
          × (front_is_due k ≡ done false)
          × (x : PendingInterrupt) × (front k.pending ≡ done x)
          × Handled (moved_on k x) k')

  handle_lem :
      (rounds : ℕ) (k : Kernel W) (x : PendingInterrupt) (xs : List PendingInterrupt)
      → k.pending.items ≡ x ∷ xs
      → IsCounted k.pending
      → Ready (x ∷ xs) k.others
      → length xs < rounds
      → (k' : Kernel W) × (handle call_back rounds k ≡ done (some (true, k'))) × Handled k k'
  unfolding handle remove_front is_empty first_item rest front_is_due front
  handle_lem rounds k x xs e n ready h =
      let size : length k.pending.items ≡ suc (length xs) = ap length e in
      let filled : (k.pending.num_in_list == 0) ≡ false = ground (arith, size) in
      let bound = due_count-le xs k.total_ticks in
      let (k2, run, served, quiet, n2) =
        fire_lem rounds (begun k) x xs e n refl ready (rw (filled, e) refl)
          (omega (arith, bound)) in
      (record k2 { in_handler = false }, (rw run refl), (k2, served, refl, quiet, n2))

  Checked-chain :
      (rounds : ℕ) (advance_clock : Bool) (k : Kernel W) (xs : List PendingInterrupt)
      → k.pending.items ≡ xs
      → is_off k.level ≡ true
      → IsCounted k.pending
      → Ready xs k.others
      → length xs ≤ rounds
      → (r : Bool × Kernel W) × (check_if_due call_back rounds advance_clock k ≡ done (some r))
        × Checked advance_clock k r
  unfolding check_if_due is_empty front_is_due
  Checked-chain rounds advance_clock k [] e off n ready h =
      let size : length k.pending.items ≡ 0 = ap length e in
      let empty : (k.pending.num_in_list == 0) ≡ true = ground (arith, size) in
      ((false, k), (rw (off, empty) refl), inl (refl, refl, inl e))
  Checked-chain rounds advance_clock k (x ∷ xs) e off n ready h =
      let size : length k.pending.items ≡ suc (length xs) = ap length e in
      let filled : (k.pending.num_in_list == 0) ≡ false = ground (arith, size) in
      let at = front-cons k.pending x xs e in
      elim (Bool-cases (ltb k.total_ticks x.when)) [
        | inl early ↦
            let late : leb x.when k.total_ticks ≡ false = ground arith in
            elim (Bool-cases advance_clock) [
              | inl idle ↦
                  let (k', run, handled) =
                    handle_lem rounds (moved_on k x) x xs e n ready (omega arith) in
                  (
                    (true, k'),
                    (rw (off, filled, at, early, idle, run) refl),
                    inr (inr (refl, idle, (rw (filled, at, late) refl), x, at, handled)),
                  )
              | inr busy ↦ (
                (false, k),
                (rw (off, filled, at, early, busy) refl),
                inl (refl, refl, inr (busy, (rw (filled, at, late) refl))),
              )
            ]
        | inr on_time ↦
            let now : leb x.when k.total_ticks ≡ true = ground arith in
            let (k', run, handled) = handle_lem rounds k x xs e n ready (omega arith) in
            (
              (true, k'),
              (rw (off, filled, at, on_time, run) refl),
              inr (inl (refl, (rw (filled, at, now) refl), handled)),
            )
      ]

  -- With interrupts off, a correct count, and devices whose handlers, called within a handler on a list
  -- that is ready for them, return and make no interrupt due, CheckIfDue returns after at most as many
  -- rounds as there are pending interrupts. It answers FALSE and changes nothing if none is pending, or
  -- if the clock may not move and the front is not due. Otherwise it answers TRUE: the clock has moved
  -- to the front if that was not due, the load has been finished, the handlers have been called one
  -- after another, each with its interrupt taken off the front, until the front was not due, and the
  -- kernel is in no handler any more.
  pub check_if_due_lem :
      (rounds : ℕ) (advance_clock : Bool) (k : Kernel W)
      → is_off k.level ≡ true
      → IsCounted k.pending
      → Ready k.pending.items k.others
      → length k.pending.items ≤ rounds
      → (r : Bool × Kernel W) × (check_if_due call_back rounds advance_clock k ≡ done (some r))
        × Checked advance_clock k r
  check_if_due_lem rounds advance_clock k off n ready h =
      Checked-chain rounds advance_clock k k.pending.items refl off n ready h
