-- ===== src/Threads/Lock/Visibility.antt =====
-- What a move that leaves the semaphore of a Lock of code/threads/synch.cc to the lock does to it.
use native.Mathlib.Decide.{ℕ_discrete}
use nachos.Base.{ℕ, ◌≡◌, ◌≢◌, ◌↔◌, refl, ap, sym, subst, ◌∙◌, ◌⊎◌, inl, inr, Option, none, some}
use nachos.Threads.{update}
use nachos.Threads.Counting.{Counters, Stays, Waits, Takes, GoesOn, Allowed}
use nachos.Threads.Lock.{IsApart}
use nachos.Threads.Lock.Ownership.{Unseen, none-not_some}
use nachos.Threads.Moves.{
  Move, call_p, call_v, call_yield, call_fork, call_finish, call_set_level, handler_v, go_on,
  look_again,
}
use nachos.Threads.Invariant.Scheduling.{==-other, update_self, update-other, by_thread}

some_injective : {m n : ℕ} → Path (Option ℕ) (some m) (some n) → m ≡ n
some_injective e = cc

pub Unseen-Stays : (k : ℕ) {a b : Counters} → Stays a b → Unseen k a b
Unseen-Stays k (values, waits) = (values k, λ u. ((λ h. sym (waits u) ∙ h), (λ h. waits u ∙ h)))

-- One thread changes what it waits for, before and after not for `k`.
unseen_waits :
    (k t : ℕ) (f g : ℕ → Option ℕ) {o : Option ℕ}
    → ((u : ℕ) → g u ≡ update f t o u)
    → (o ≡ some k) ↔ (f t ≡ some k)
    → (u : ℕ) → (g u ≡ some k) ↔ (f u ≡ some k)
unseen_waits k t f g {o = o} e (to, from) =
    let at : g t ≡ o = e t ∙ update_self f t o in
    by_thread (λ u. (g u ≡ some k) ↔ (f u ≡ some k)) t ((λ h. to (sym at ∙ h)), (λ h. at ∙ from h))
      (λ u h.
        let same : g u ≡ f u = e u ∙ update-other f t o u h in
        ((λ q. sym same ∙ q), (λ q. same ∙ q)))

Unseen-wait :
    (k j t : ℕ) (a b : Counters)
    → (a.waits t ≡ none) × (j ≢ k) ⊎ (a.waits t ≡ some j)
    → Waits t j a b
    → Unseen k a b
Unseen-wait k j t a b (inl (idle, apart)) (empty, values, waits) = (
  values k,
  unseen_waits k t a.waits b.waits waits
      ((λ h. absurd (apart (some_injective h))), (λ h. absurd (none-not_some (sym idle ∙ h)))),
)
Unseen-wait k j t a b (inr same) (empty, values, waits) =
    (values k, unseen_waits k t a.waits b.waits waits ((λ h. same ∙ h), (λ h. sym same ∙ h)))

Unseen-take :
    (k j t : ℕ) (a b : Counters)
    → (a.waits t ≡ none) ⊎ (a.waits t ≡ some j)
    → j ≢ k
    → Takes t j a b
    → Unseen k a b
Unseen-take k j t a b before apart (some_left, values, waits) = (
  values k ∙ rw (==-other k j (λ e. apart (sym e))) refl,
  unseen_waits k t a.waits b.waits waits (
    (λ h. absurd (none-not_some h)),
    (λ h. elim before [
      | inl idle ↦ absurd (none-not_some (sym idle ∙ h))
      | inr on ↦ absurd (apart (some_injective (sym on ∙ h)))
    ]),
  ),
)

goes_on :
    (k t : ℕ) (o : Option ℕ) (a b : Counters)
    → a.waits t ≡ o
    → GoesOn t o a b
    → Unseen k a b ⊎ ((a.waits t ≡ some k) × Takes t k a b)
goes_on k t none a b e h = inl (Unseen-Stays k h)
goes_on k t (some j) a b e (inl waits) = inl (Unseen-wait k j t a b (inr e) waits)
goes_on k t (some j) a b e (inr takes) = elim (ℕ_discrete j k) [
  | yes same ↦ inr (e ∙ ap some same, subst (λ i. Takes t i a b) same takes)
  | no apart ↦ inl (Unseen-take k j t a b (inr e) apart takes)
]

-- Such a move is not seen at the semaphore, or lets the current thread, which waits there, take a
-- unit.
pub Allowed-Unseen :
    (k t : ℕ) (m : Move) (a b : Counters)
    → IsApart k m
    → ((j : ℕ) → m ≡ call_p j → a.waits t ≡ none)
    → Allowed m t a b
    → Unseen k a b ⊎ ((a.waits t ≡ some k) × Takes t k a b)
Allowed-Unseen k t (call_p j) a b apart idle (inl waits) =
    inl (Unseen-wait k j t a b (inl (idle j refl, apart)) waits)
Allowed-Unseen k t (call_p j) a b apart idle (inr takes) =
    inl (Unseen-take k j t a b (inl (idle j refl)) apart takes)
Allowed-Unseen k t (call_v j) a b apart idle (values, waits) = inl (
  values k ∙ rw (==-other k j (λ e. apart (sym e))) refl,
  λ u. ((λ h. sym (waits u) ∙ h), (λ h. waits u ∙ h)),
)
Allowed-Unseen k t (handler_v j) a b apart idle (values, waits) = inl (
  values k ∙ rw (==-other k j (λ e. apart (sym e))) refl,
  λ u. ((λ h. sym (waits u) ∙ h), (λ h. waits u ∙ h)),
)
Allowed-Unseen k t go_on a b apart idle h = goes_on k t (a.waits t) a b refl h
Allowed-Unseen k t call_yield a b apart idle h = inl (Unseen-Stays k h)
Allowed-Unseen k t (call_fork n) a b apart idle h = inl (Unseen-Stays k h)
Allowed-Unseen k t call_finish a b apart idle h = inl (Unseen-Stays k h)
Allowed-Unseen k t (call_set_level now) a b apart idle h = inl (Unseen-Stays k h)
Allowed-Unseen k t look_again a b apart idle h = inl (Unseen-Stays k h)
