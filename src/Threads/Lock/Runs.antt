-- ===== src/Threads/Lock/Runs.antt =====
-- The runs of threads that use a Lock of code/threads/synch.cc.
use nachos.Base.{
  ℕ, ◌≡◌, ◌≢◌, ◌↔◌, refl, ap, sym, subst, ◌∙◌, inl, inr, Option, none, some, done, done_injective,
}
use nachos.Threads.{update, run}
use nachos.Threads.Counting.{counters}
use nachos.Threads.Lock.{
  outside, acquiring, held, releasing, Locking, me, is_held_by_current_thread, LockMove,
  call_acquire, end_acquire, call_release, end_release, other, end_acquire_move, call_release_move,
  end_release_move, lock_move, CanMove, LockReach, at_start, then_move,
}
use nachos.Threads.Lock.Ownership.{
  Critical, IsOwned-Unseen, IsOwned-Takes, IsOwned-Gives, IsOwned-moves, none-not_some,
}
use nachos.Threads.Lock.Exclusion.{
  HolderOf, LockInv, outside-not_held, releasing-not_held, held-Critical, Critical-unique,
  idle_acquiring, holder_kept, own_idle, waits_kept, acquire_lem,
}
use nachos.Threads.Lock.Visibility.{Allowed-Unseen}
use nachos.Threads.Counting.Refinement.{move-Allowed, v-counters}
use nachos.Threads.Moves.{Move, call_p, Enabled}
use nachos.Threads.Chains.{==-self}
use nachos.Threads.Invariant.Scheduling.{update_self, update-other, by_thread}

end_acquire_lem :
    (k : ℕ) (x : Locking)
    → LockInv k x
    → CanMove k x end_acquire
    → (y : Locking) × (lock_move k x end_acquire ≡ done y) × LockInv k y
unfolding lock_move end_acquire_move
end_acquire_lem k x inv (c, stage) =
    let t = me x in
    let g = update x.stages t held in
    let now : g t ≡ held = update_self x.stages t held in
    let others : (u : ℕ) → u ≢ t → g u ≡ x.stages u = λ u h. update-other x.stages t held u h in
    let a = counters x.system in
    let idle = own_idle x.system inv.threads c in
    (
      record { system = x.system; lock_holder = some t; stages = g },
      refl,
      record {
        threads = inv.threads;
        owned =
            IsOwned-moves k a a x.stages g t refl
              ((λ h. held-Critical k a g t now), (λ h. idle_acquiring k idle stage))
              (λ u h. (others u h, refl)) inv.owned;
        holder = now;
        in_acquire =
            by_thread (λ u. a.waits u ≡ some k → g u ≡ acquiring) t
              (λ q. absurd (none-not_some (sym idle ∙ q)))
              (λ u h q. others u h ∙ inv.in_acquire u q);
      },
    )

-- A thread that has the lock is its holder.
holder_is :
    (k : ℕ) (x : Locking) (o : Option ℕ) (t : ℕ)
    → x.lock_holder ≡ o
    → LockInv k x
    → x.stages t ≡ held
    → x.lock_holder ≡ some t
holder_is k x none t e inv stage = absurd (subst (λ o. HolderOf o x.stages) e inv.holder t stage)
holder_is k x (some u) t e inv stage =
    let a = counters x.system in
    let at : x.stages u ≡ held = subst (λ o. HolderOf o x.stages) e inv.holder in
    e
    ∙ ap some (
        Critical-unique k a x.stages u t inv.owned (held-Critical k a x.stages u at)
          (held-Critical k a x.stages t stage))

call_release_lem :
    (k : ℕ) (x : Locking)
    → LockInv k x
    → CanMove k x call_release
    → (y : Locking) × (lock_move k x call_release ≡ done y) × LockInv k y
unfolding lock_move call_release_move is_held_by_current_thread
call_release_lem k x inv (c, stage) =
    let t = me x in
    let g = update x.stages t releasing in
    let now : g t ≡ releasing = update_self x.stages t releasing in
    let others : (u : ℕ) → u ≢ t → g u ≡ x.stages u =
      λ u h. update-other x.stages t releasing u h in
    let a = counters x.system in
    let mine = held-Critical k a x.stages t stage in
    (
      record { system = x.system; lock_holder = none; stages = g },
      (rw (holder_is k x x.lock_holder t refl inv stage, ==-self t) refl),
      record {
        threads = inv.threads;
        owned =
            IsOwned-moves k a a x.stages g t refl
              ((λ h. subst (Critical k (a.waits t)) (sym now) tt), (λ h. mine))
              (λ u h. (others u h, refl)) inv.owned;
        holder =
            by_thread (λ u. g u ≢ held) t (λ q. releasing-not_held (sym now ∙ q))
              (λ u h q. h (
                Critical-unique k a x.stages u t inv.owned
                  (held-Critical k a x.stages u (sym (others u h) ∙ q)) mine));
        in_acquire =
            by_thread (λ u. a.waits u ≡ some k → g u ≡ acquiring) t
              (λ q. absurd (none-not_some (sym (own_idle x.system inv.threads c) ∙ q)))
              (λ u h q. others u h ∙ inv.in_acquire u q);
      },
    )

end_release_lem :
    (k : ℕ) (x : Locking)
    → LockInv k x
    → CanMove k x end_release
    → (y : Locking) × (lock_move k x end_release ≡ done y) × LockInv k y
unfolding lock_move end_release_move
end_release_lem k x inv (c, stage) =
    let t = me x in
    let g = update x.stages t outside in
    let now : g t ≡ outside = update_self x.stages t outside in
    let others : (u : ℕ) → u ≢ t → g u ≡ x.stages u = λ u h. update-other x.stages t outside u h in
    let (s', run, inv', gives) = v-counters x.system k inv.threads c in
    (
      record { system = s'; lock_holder = x.lock_holder; stages = g },
      (rw run refl),
      record {
        threads = inv';
        owned =
            IsOwned-Gives k (counters x.system) (counters s') x.stages g t gives stage now others
              inv.owned;
        holder =
            holder_kept x.lock_holder x.stages g t (λ q. releasing-not_held (sym stage ∙ q))
              (λ q. outside-not_held (sym now ∙ q)) others inv.holder;
        in_acquire =
            by_thread (λ u. (counters s').waits u ≡ some k → g u ≡ acquiring) t
              (λ q.
                absurd
                  (none-not_some (sym (own_idle x.system inv.threads c) ∙ sym (gives.1 t) ∙ q)))
              (λ u h q. others u h ∙ inv.in_acquire u (sym (gives.1 u) ∙ q));
      },
    )

other_lem :
    (k : ℕ) (x : Locking) (m : Move)
    → LockInv k x
    → CanMove k x (other m)
    → (y : Locking) × (lock_move k x (other m) ≡ done y) × LockInv k y
unfolding lock_move
other_lem k x m inv (on, apart) =
    let t = me x in
    let (s', run, inv', allowed) = move-Allowed x.system m inv.threads on in
    let a = counters x.system in
    let b = counters s' in
    let idle : (j : ℕ) → m ≡ call_p j → a.waits t ≡ none =
      λ j e. own_idle x.system inv.threads (subst (Enabled x.system) e on) in
    let change = Allowed-Unseen k t m a b apart idle allowed in
    (
      record x { system = s' },
      (rw run refl),
      record {
        threads = inv';
        owned = elim change [
          | inl unseen ↦ IsOwned-Unseen k a b x.stages unseen inv.owned
          | inr (waited, takes) ↦
              IsOwned-Takes k a b x.stages x.stages t takes (inv.in_acquire t waited) (λ u h. refl)
                inv.owned
        ];
        holder = inv.holder;
        in_acquire = elim change [
          | inl (same, waits) ↦ (λ u q. inv.in_acquire u ((waits u).0 q))
          | inr (waited, (left, values, waits)) ↦
              waits_kept k t a.waits b.waits x.stages x.stages waits (λ q. inv.in_acquire t waited)
                (λ u h. refl) inv.in_acquire
        ];
      },
    )

-- Every move of threads that use the lock, from a state in which at most one of them has it, ends
-- and fails no assertion, that of Release included, and leads to such a state.
pub lock_move-LockInv :
    (k : ℕ) (x : Locking) (m : LockMove)
    → LockInv k x
    → CanMove k x m
    → (y : Locking) × (lock_move k x m ≡ done y) × LockInv k y
lock_move-LockInv k x call_acquire inv on = acquire_lem k x inv on
lock_move-LockInv k x end_acquire inv on = end_acquire_lem k x inv on
lock_move-LockInv k x call_release inv on = call_release_lem k x inv on
lock_move-LockInv k x end_release inv on = end_release_lem k x inv on
lock_move-LockInv k x (other m) inv on = other_lem k x m inv on

pub LockReach-LockInv : (k : ℕ) (x y : Locking) → LockInv k x → LockReach k x y → LockInv k y
LockReach-LockInv k x y inv at_start = inv
LockReach-LockInv k x y inv (then_move {y = z} m r on run) =
    let (z', run', inv') = lock_move-LockInv k z m (LockReach-LockInv k x z inv r) on in
    subst (LockInv k) (done_injective (sym run' ∙ run)) inv'

-- In every state that threads reach from one in which at most one of them has the lock, no two of
-- them have it, the one that has it is the holder, and every move that can come next ends and fails
-- no assertion, that of Release included.
pub LockReach-exclusive :
    (k : ℕ) (x y : Locking)
    → LockInv k x
    → LockReach k x y
    → ((t u : ℕ) → y.stages t ≡ held → y.stages u ≡ held → t ≡ u)
      × ((t : ℕ) → (y.stages t ≡ held) ↔ (y.lock_holder ≡ some t))
      × ((m : LockMove) → CanMove k y m → (z : Locking) × (lock_move k y m ≡ done z))
LockReach-exclusive k x y start reach =
    let inv = LockReach-LockInv k x y start reach in
    let c = counters y.system in
    (
      (λ t u h h'.
          Critical-unique k c y.stages t u inv.owned (held-Critical k c y.stages t h)
            (held-Critical k c y.stages u h')),
      (λ t. (
        (λ h. holder_is k y y.lock_holder t refl inv h),
        (λ h. subst (λ o. HolderOf o y.stages) h inv.holder),
      )),
      (λ m on. let (z, run, after) = lock_move-LockInv k y m inv on in (z, run)),
    )
