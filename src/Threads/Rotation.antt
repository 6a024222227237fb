-- ===== src/Threads/Rotation.antt =====
-- Round robin: the ready list of code/threads/scheduler.cc is served in its order.
use nachos.Base.{
  ℕ, suc, zero, ◌≡◌, ◌≢◌, refl, ap, sym, subst, ◌∙◌, inl, inr, true, List, [], ◌∷◌, ◌++◌, Option,
  none, some, Outcome, done, ◌>>=◌, ◌==◌, ◌||◌, arith, done_injective, Bool-cases, length,
}
use nachos.Lists.{in_chain}
use nachos.Interrupt.{IntStatus}
use nachos.Threads.{Position, in_p, executing, switched, System, run}
use nachos.Threads.Moves.{call_yield, go_on, move}
use nachos.Threads.Chains.{==-self, in_chain-append_last}
use nachos.Threads.Invariant.{is_ready, Inv}
use nachos.Threads.Invariant.Yielding.{PassesOn, yield_lem}
use nachos.Threads.Invariant.Resuming.{resume_runs}
use nachos.Threads.Invariant.Calls.{Busy-of}
use nachos.Threads.Counting.{waiting_at, counters, Stays, GoesOn}
use nachos.Threads.Counting.Refinement.{move-counters, move-Allowed}
use nachos.Threads.Lock.Exclusion.{own_idle}

-- A turn: the current thread yields, and the thread that `SWITCH` has switched to goes on.
unfoldable pub turn : System → Outcome System
turn s = move s call_yield >>= λ s'. move s' go_on

unfoldable pub turns : ℕ → System → Outcome System
turns zero s = done s
turns (suc n) s = turn s >>= λ s'. turns n s'

-- No thread on the ready list is in the loop of P.
abbrev pub NoneWaits : System → Type 0
NoneWaits s = (t : ℕ) → is_ready s t ≡ true → (counters s).waits t ≡ none

some-not_none : {n : ℕ} → Path (Option ℕ) (some n) none → ⊥
some-not_none e = cc

append_assoc : (xs ys zs : List ℕ) → (xs ++ ys) ++ zs ≡ xs ++ (ys ++ zs)
append_assoc [] ys zs = refl
append_assoc (x ∷ xs) ys zs = ap (λ t. x ∷ t) (append_assoc xs ys zs)

waiting_at-in_p :
    (k : ℕ) (old : IntStatus) (pos : Position) → waiting_at pos ≡ none → pos ≢ in_p k old
waiting_at-in_p k old pos h e = absurd (some-not_none (ap waiting_at (sym e) ∙ h))

is_ready_head :
    (s : System) (n : ℕ) (rest : List ℕ) → s.ready_list.items ≡ n ∷ rest → is_ready s n ≡ true
unfolding in_chain
is_ready_head s n rest e = rw (e, ==-self n) refl

is_ready_rest :
    (s : System) (n t : ℕ) (rest : List ℕ)
    → s.ready_list.items ≡ n ∷ rest
    → in_chain ◌==◌ t rest ≡ true
    → is_ready s t ≡ true
unfolding in_chain
is_ready_rest s n t rest e h = elim (Bool-cases (t == n)) [
  | inl same ↦ rw (e, same) refl
  | inr apart ↦ rw (e, apart) h
]

abbrev Turned : System → ℕ → List ℕ → Type 0
Turned s n rest =
    (s' : System) × (turn s ≡ done s')
    × Inv s'
    × (s'.control ≡ executing)
    × (s'.current_thread ≡ n)
    × (s'.ready_list.items ≡ rest ++ (s.current_thread ∷ []))
    × NoneWaits s'

yield_move :
    (s : System)
    → Inv s
    → s.control ≡ executing
    → (s' : System) × (move s call_yield ≡ done s') × Inv s' × PassesOn s s'
unfolding move
yield_move s inv c = let b = Busy-of s inv c in yield_lem s inv c b.status b.vacant

go_on_move :
    (s : System)
    → Inv s
    → s.control ≡ switched
    → (counters s).waits s.current_thread ≡ none
    → (s' : System) × (move s go_on ≡ done s')
      × Inv s'
      × (s'.control ≡ executing)
      × (s'.current_thread ≡ s.current_thread)
      × (s'.ready_list ≡ s.ready_list)
      × Stays (counters s) (counters s')
unfolding move
go_on_move s inv c idle =
    let pos = s.positions s.current_thread in
    let (s', run, c', same, queue, sems) =
      resume_runs s pos inv c refl (λ k old. waiting_at-in_p k old pos idle) in
    let (s2, run2, inv2, allowed) = move-Allowed s go_on inv c in
    let e : s2 ≡ s' = done_injective (sym run2 ∙ run) in
    let stays : Stays (counters s) (counters s2) =
      subst (λ o. GoesOn s.current_thread o (counters s) (counters s2)) idle allowed in
    (
      s',
      run,
      subst Inv e inv2,
      c',
      same,
      queue,
      subst (λ x. Stays (counters s) (counters x)) e stays,
    )

turn_lem :
    (s : System) (n : ℕ) (rest : List ℕ)
    → Inv s
    → s.control ≡ executing
    → s.ready_list.items ≡ n ∷ rest
    → NoneWaits s
    → Turned s n rest
unfolding turn
turn_lem s n rest inv c items quiet =
    let (s1, run1, inv1, passes) = yield_move s inv c in
    let (at, list, c1) = passes n rest items in
    let (values, waits) = move-counters s call_yield inv c run1 in
    let idle : (counters s1).waits s1.current_thread ≡ none =
      ap (λ t. (counters s1).waits t) at ∙ waits n ∙ quiet n (is_ready_head s n rest items) in
    let (s2, run2, inv2, c2, at2, queue, (values2, waits2)) = go_on_move s1 inv1 c1 idle in
    let list2 = ap (λ l. l.items) queue ∙ list in
    let me = s.current_thread in
    (
      s2,
      (rw run1 run2),
      inv2,
      c2,
      at2 ∙ at,
      list2,
      λ t h. waits2 t ∙ waits t ∙ elim (Bool-cases (in_chain ◌==◌ t rest)) [
        | inl in_rest ↦ quiet t (is_ready_rest s n t rest items in_rest)
        | inr out ↦
            let last : in_chain ◌==◌ t (rest ++ (me ∷ [])) ≡ true =
              ap (λ x. in_chain ◌==◌ t x) (sym list2) ∙ h in
            let split : (in_chain ◌==◌ t rest || (t == me)) ≡ true =
              sym (in_chain-append_last t me rest) ∙ last in
            let same : t ≡ me = ground (arith, split, out) in
            ap (λ u. (counters s).waits u) same ∙ own_idle s inv c
      ],
    )

-- While no ready thread waits in P, and the threads do nothing but yield: the thread that is behind
-- `n` others on the ready list runs after `n + 1` turns.
pub turns-runs :
    (s : System) (before after : List ℕ) (t : ℕ)
    → Inv s
    → s.control ≡ executing
    → s.ready_list.items ≡ before ++ (t ∷ after)
    → NoneWaits s
    → (s' : System) × (turns (suc (length before)) s ≡ done s')
      × Inv s'
      × (s'.control ≡ executing)
      × (s'.current_thread ≡ t)
unfolding turns
turns-runs s [] after t inv c items quiet =
    let (s', run, inv', c', at, list, quiet') = turn_lem s t after inv c items quiet in
    (s', (rw run refl), inv', c', at)
turns-runs s (n ∷ before) after t inv c items quiet =
    let (s1, run, inv1, c1, at, list, quiet1) =
      turn_lem s n (before ++ (t ∷ after)) inv c items quiet in
    let moved : s1.ready_list.items ≡ before ++ (t ∷ (after ++ (s.current_thread ∷ []))) =
      list ∙ append_assoc before (t ∷ after) (s.current_thread ∷ []) in
    let (s2, runs, inv2, c2, at2) =
      turns-runs s1 before (after ++ (s.current_thread ∷ [])) t inv1 c1 moved quiet1 in
    (s2, (rw run runs), inv2, c2, at2)
