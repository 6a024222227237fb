-- ===== src/Interrupt/Scheduling.antt =====
-- Interrupt::Schedule of code/machine/interrupt.cc: where an interrupt goes on the pending list.
use nachos.Base.{
  ℕ, ◌+◌, ◌<◌, ◌≡◌, refl, sym, ap, ◌∙◌, true, false, List, [], ◌∷◌, ◌++◌, done, ltb, leb, ==_iff,
  if◌then◌else◌, arith,
}
use nachos.Lists.{is_in_list}
use nachos.Lists.Contents.{IsCounted}
use nachos.Lists.Sorted.{IsSorted, Placed, insert_lem}
use nachos.Interrupt.{PendingInterrupt, IntType, Kernel, schedule, earlier, same_object}
use nachos.Interrupt.Rounds.{due, due_count}

pub same_object-reflexive : (x : PendingInterrupt) → same_object x x ≡ true
unfolding same_object
same_object-reflexive x = (==_iff x.address x.address).1 refl

pub earlier-asymmetric : (x y : PendingInterrupt) → earlier x y ≡ true → earlier y x ≡ false
unfolding earlier
earlier-asymmetric x y h = ground arith

pub earlier-transitive :
    (x y z : PendingInterrupt) → earlier x y ≡ true → earlier z y ≡ false → earlier x z ≡ true
unfolding earlier
earlier-transitive x y z h k = ground arith

-- By the time of the interrupts.
abbrev pub IsOrdered : List PendingInterrupt → Type 0
IsOrdered = IsSorted same_object same_object-reflexive earlier earlier-asymmetric earlier-transitive

abbrev pub IsPlaced : PendingInterrupt → List PendingInterrupt → List PendingInterrupt → Type 0
IsPlaced = Placed same_object same_object-reflexive earlier earlier-asymmetric earlier-transitive

due_count-future :
    (x : PendingInterrupt) (before after : List PendingInterrupt) (now : ℕ)
    → leb x.when now ≡ false
    → due_count (before ++ (x ∷ after)) now ≡ due_count (before ++ after) now
due_count-future x [] after now h = rw h (omega arith)
due_count-future x (y ∷ before) after now h =
    ap (λ n. (if leb y.when now then 1 else 0) + n) (due_count-future x before after now h)

module _ {W : Type 0} (k : Kernel W) (address to_call from_now : ℕ) (type : IntType) where
  abbrev pub scheduled : PendingInterrupt
  scheduled = record {
    address = address;
    call_on_interrupt = to_call;
    when = k.total_ticks + from_now;
    type = type;
  }

  -- Schedule of a time in the future, on a list that is ordered by time and correctly counted, with a
  -- new object: it returns, and the interrupt stands behind all that occur no later and before all
  -- that occur later. The list is ordered and counted, the clock stands, and no interrupt has become
  -- due.
  pub schedule_lem :
      0 < from_now
      → IsCounted k.pending
      → IsOrdered k.pending.items
      → is_in_list same_object k.pending scheduled ≡ false
      → (k' : Kernel W) × (schedule k address to_call from_now type ≡ done k')
        × IsPlaced scheduled k.pending.items k'.pending.items
        × IsOrdered k'.pending.items
        × IsCounted k'.pending
        × (k'.total_ticks ≡ k.total_ticks)
        × (due k' ≡ due k)
  unfolding schedule
  schedule_lem h n s out =
      let (l', run, placed, sorted, counted) =
        insert_lem same_object same_object-reflexive earlier earlier-asymmetric earlier-transitive
          k.pending scheduled n s out in
      let (before, after, split, joined, low, high) = placed in
      let future : leb (k.total_ticks + from_now) k.total_ticks ≡ false = ground arith in
      let positive : ltb 0 from_now ≡ true = ground arith in
      (
        record k { pending = l' },
        (rw (positive, run) refl),
        placed,
        sorted,
        counted,
        refl,
        ap (λ c. due_count c k.total_ticks) joined
            ∙ due_count-future scheduled before after k.total_ticks future
            ∙ ap (λ c. due_count c k.total_ticks) (sym split),
      )
