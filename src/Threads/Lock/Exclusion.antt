-- ===== src/Threads/Lock/Exclusion.antt =====
-- Lock of code/threads/synch.cc gives mutual exclusion, and its assertions hold.
use nachos.Base.{ℕ, ◌≡◌, ◌≢◌, refl, ap, sym, subst, ◌∙◌, inl, inr, Option, none, some, done}
use nachos.Threads.{System, executing, update, run}
use nachos.Threads.Counting.{Counters, counters, waiting_at}
use nachos.Threads.Lock.{
  Stage, outside, acquiring, held, releasing, Locking, me, call_acquire, call_acquire_move,
  lock_move, CanMove,
}
use nachos.Threads.Lock.Ownership.{Critical, IsOwned, IsOwned-Takes, IsOwned-moves, none-not_some}
use nachos.Threads.Counting.Refinement.{p-counters}
use nachos.Threads.Invariant.{Phase, Inv}
use nachos.Threads.Invariant.Scheduling.{update_self, update-other, by_thread}

-- The holder has the lock, and a thread that has it is the holder.
abbrev pub HolderOf : Option ℕ → (ℕ → Stage) → Type 0
HolderOf none g = (t : ℕ) → g t ≢ held
HolderOf (some t) g = g t ≡ held

pub record LockInv (k : ℕ) (x : Locking) : Type 0 where
  pub threads : Inv x.system
  pub owned : IsOwned k (counters x.system) x.stages
  pub holder : HolderOf x.lock_holder x.stages
  pub in_acquire : (t : ℕ) → (counters x.system).waits t ≡ some k → x.stages t ≡ acquiring

pub outside-not_held : outside ≢ held
outside-not_held e = cc

acquiring-not_held : acquiring ≢ held
acquiring-not_held e = cc

pub releasing-not_held : releasing ≢ held
releasing-not_held e = cc

pub releasing-not_acquiring : releasing ≢ acquiring
releasing-not_acquiring e = cc

pub Critical-unique :
    (k : ℕ) (c : Counters) (g : ℕ → Stage) (t u : ℕ)
    → IsOwned k c g
    → Critical k (c.waits t) (g t)
    → Critical k (c.waits u) (g u)
    → t ≡ u
Critical-unique k c g t u (inl (free, none_in)) h h' = absurd (none_in t h)
Critical-unique k c g t u (inr (busy, (owner, this, only))) h h' = only t h ∙ sym (only u h')

pub held-Critical :
    (k : ℕ) (c : Counters) (g : ℕ → Stage) (t : ℕ) → g t ≡ held → Critical k (c.waits t) (g t)
held-Critical k c g t e = subst (Critical k (c.waits t)) (sym e) tt

pub idle_acquiring : (k : ℕ) {w : Option ℕ} {g : Stage} → w ≡ none → g ≡ acquiring → Critical k w g
idle_acquiring k {w = w} e e' = subst (Critical k w) (sym e') (λ q. none-not_some (sym e ∙ q))

-- No thread but `t` changes its stage, and that to and from others than `held`.
pub holder_kept :
    (o : Option ℕ) (f g : ℕ → Stage) (t : ℕ)
    → f t ≢ held
    → g t ≢ held
    → ((u : ℕ) → u ≢ t → g u ≡ f u)
    → HolderOf o f
    → HolderOf o g
holder_kept none f g t was now others h =
    by_thread (λ u. g u ≢ held) t now (λ u apart q. h u (sym (others u apart) ∙ q))
holder_kept (some n) f g t was now others h = others n (λ e. was (ap f (sym e) ∙ h)) ∙ h

-- A thread that runs its own code waits for nothing.
pub own_idle :
    (s : System) → Inv s → s.control ≡ executing → (counters s).waits s.current_thread ≡ none
own_idle s inv c = ap waiting_at (subst (Phase s) c inv.phase).1

pub waits_kept :
    (k t : ℕ) (f g : ℕ → Option ℕ) (a b : ℕ → Stage) {o : Option ℕ}
    → ((u : ℕ) → g u ≡ update f t o u)
    → (o ≡ some k → b t ≡ acquiring)
    → ((u : ℕ) → u ≢ t → b u ≡ a u)
    → ((u : ℕ) → f u ≡ some k → a u ≡ acquiring)
    → (u : ℕ) → g u ≡ some k
    → b u ≡ acquiring
waits_kept k t f g a b {o = o} e now others h =
    by_thread (λ u. g u ≡ some k → b u ≡ acquiring) t (λ q. now (sym (e t ∙ update_self f t o) ∙ q))
      (λ u apart q. others u apart ∙ h u (sym (e u ∙ update-other f t o u apart) ∙ q))

pub acquire_lem :
    (k : ℕ) (x : Locking)
    → LockInv k x
    → CanMove k x call_acquire
    → (y : Locking) × (lock_move k x call_acquire ≡ done y) × LockInv k y
unfolding lock_move call_acquire_move
acquire_lem k x inv (c, stage) =
    let t = me x in
    let g = update x.stages t acquiring in
    let now : g t ≡ acquiring = update_self x.stages t acquiring in
    let others : (u : ℕ) → u ≢ t → g u ≡ x.stages u =
      λ u h. update-other x.stages t acquiring u h in
    let (s', run, inv', change) = p-counters x.system k inv.threads c in
    let a = counters x.system in
    let b = counters s' in
    (
      record { system = s'; lock_holder = x.lock_holder; stages = g },
      (rw run refl),
      record {
        threads = inv';
        owned = elim change [
          | inl (empty, values, waits) ↦
              IsOwned-moves k a b x.stages g t (values k)
                (
                  (λ h. absurd (subst (Critical k (a.waits t)) stage h)),
                  (λ h. absurd (
                      subst (Critical k (b.waits t)) now h
                        (waits t ∙ update_self a.waits t (some k)))),
                )
                (λ u h. (others u h, waits u ∙ update-other a.waits t (some k) u h)) inv.owned
          | inr takes ↦ IsOwned-Takes k a b x.stages g t takes now others inv.owned
        ];
        holder =
            holder_kept x.lock_holder x.stages g t (λ q. outside-not_held (sym stage ∙ q))
              (λ q. acquiring-not_held (sym now ∙ q)) others inv.holder;
        in_acquire = elim change [
          | inl (empty, values, waits) ↦
              waits_kept k t a.waits b.waits x.stages g waits (λ q. now) others inv.in_acquire
          | inr (left, values, waits) ↦
              waits_kept k t a.waits b.waits x.stages g waits (λ q. now) others inv.in_acquire
        ];
      },
    )
