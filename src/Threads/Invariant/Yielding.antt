-- ===== src/Threads/Invariant/Yielding.antt =====
-- Yield of code/threads/thread.cc stops at no assertion and keeps the invariant.
use nachos.Base.{
  ℕ, ◌≡◌, ◌≢◌, refl, ap, sym, subst, ◌∙◌, inl, inr, false, List, [], ◌∷◌, ◌++◌, none, done,
}
use nachos.Interrupt.{int_off, is_off}
use nachos.Threads.{running, ready, in_yield, executing, switched, System, update, yield}
use nachos.Threads.Invariant.{IsSuspended, Fits, Inv}
use nachos.Threads.Invariant.Scheduling.{
  update_self, update-other, by_thread, Agrees-same, made_ready, ready_to_run_lem,
  find_next_to_run-cases, dispatched, run_lem,
}
use nachos.Threads.Invariant.Switching.{set_level_lem, current-IsFree, ready-not_running}

-- The first ready thread gets the processor, and the caller is the last of those that are ready.
abbrev pub PassesOn : System → System → Type 0
PassesOn s s' =
    (n : ℕ) (rest : List ℕ)
    → s.ready_list.items ≡ n ∷ rest
    → (s'.current_thread ≡ n)
      × (s'.ready_list.items ≡ rest ++ (s.current_thread ∷ []))
      × (s'.control ≡ switched)

cons_injective : {a b : ℕ} {xs ys : List ℕ} → Path (List ℕ) (a ∷ xs) (b ∷ ys) → (a ≡ b) × (xs ≡ ys)
cons_injective e = (cc, cc)

nil-not_cons : {a : ℕ} {xs : List ℕ} → Path (List ℕ) [] (a ∷ xs) → ⊥
nil-not_cons e = cc

pub yield_lem :
    (s : System)
    → Inv s
    → s.control ≡ executing
    → s.statuses s.current_thread ≡ running
    → s.to_be_destroyed ≡ none
    → (s' : System) × (yield s ≡ done s') × Inv s' × PassesOn s s'
unfolding yield is_off
yield_lem s inv c e vacant =
    let off : System = record s { level = int_off } in
    let level = set_level_lem s int_off inv.no_handler in
    elim (find_next_to_run-cases off refl inv.lists (λ n m. inv.fits n)) [
      | inl (nobody, empty) ↦ (
        s,
        (rw (level, nobody, set_level_lem off s.level inv.no_handler) refl),
        inv,
        λ n rest full. absurd (nil-not_cons (sym empty ∙ full)),
      )
      | inr (n, l, found, lists, free, status, suspended, others, items) ↦
          let me = s.current_thread in
          let apart : me ≢ n =
            λ h. ready-not_running status (subst (λ x. s.statuses x ≡ running) h e) in
          let left : System = record off {
            ready_list = l;
            positions = update s.positions me (in_yield s.level);
          } in
          let here : left.positions me ≡ in_yield s.level =
            update_self s.positions me (in_yield s.level) in
          let (unready, unqueued) = current-IsFree s inv e in
          let (l2, put, lists2, fit, fits, members, items2) =
            ready_to_run_lem left me refl lists (others me apart ∙ unready, unqueued)
              (subst IsSuspended (sym here) tt) in
          let s3 = made_ready left me l2 in
          let there : s3.positions n ≡ s.positions n =
            update-other s.positions me (in_yield s.level) n (λ h. apart (sym h)) in
          let (go, inv') =
            run_lem s3 n false none refl inv.no_handler (λ h. vacant) vacant tt lists2
              (members n (λ h. apart (sym h)) ∙ free.0, free.1)
              (subst IsSuspended (sym there) suspended)
              (by_thread (λ t. t ≢ n → Fits s3 t) me (λ h. fit)
                (λ t h h2. fits t h (
                  Agrees-same refl (update-other s.positions me (in_yield s.level) t h)
                    (others t h2) (λ j. refl) (inv.fits t))))
              (by_thread (λ t. t ≢ n → s3.statuses t ≢ running) me
                (λ h q. ready-not_running (update_self s.statuses me ready) q)
                (λ t h h2 q. h (inv.alone t (sym (update-other s.statuses me ready t h) ∙ q)))) in
          (
            dispatched s3 n none,
            (rw (level, found, put, go) refl),
            inv',
            λ m rest full.
                let (same, tail) = cons_injective (sym items ∙ full) in
                (same, items2 ∙ ap (λ x. x ++ (me ∷ [])) tail, refl),
          )
    ]
