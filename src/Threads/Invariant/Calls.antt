-- ===== src/Threads/Invariant/Calls.antt =====
-- Fork, P and V of code/threads keep the invariant, called by a thread or by a handler.
use nachos.Base.{
  ℕ, ◌≡◌, ◌≢◌, ◌++◌, [], ◌∷◌, refl, sym, subst, ◌∙◌, inl, inr, Bool, true, false, Option, none,
  some, done,
}
use nachos.Lists.{LinkedList}
use nachos.Interrupt.{IntStatus, int_off, is_off}
use nachos.Threads.{
  ThreadStatus, just_created, running, ready, blocked, own_code, at_begin, absent, Control,
  executing, switched, idling, Semaphore, System, update, run, fork,
}
use nachos.Threads.Synch.{p, v}
use nachos.Threads.Moves.{call_set_level, handle_v, move}
use nachos.Threads.Invariant.{IsSuspended, Fits, IsFree, Doomed, Phase, Inv}
use nachos.Threads.Invariant.Scheduling.{
  update_self, update-other, by_thread, Agrees-same, Fits-status, made_ready, ready_to_run_lem,
}
use nachos.Threads.Invariant.Switching.{
  set_level_lem, ready-not_running, blocked-not_running, own-not_absent,
}
use nachos.Threads.Invariant.Waking.{Woken, signalled, Kept}
use nachos.Threads.Invariant.Signalling.{v_lem}
use nachos.Threads.Invariant.Looping.{Busy, p_loop_lem}

fork-IsFree :
    (s : System) (n : ℕ) (a : ThreadStatus)
    → s.statuses n ≡ a
    → s.positions n ≡ absent
    → Fits s n
    → IsFree s n
fork-IsFree s n just_created e at h = let g = Fits-status s n e h in (g.0, g.1)
fork-IsFree s n running e at h = Fits-status s n e h
fork-IsFree s n blocked e at h =
    Agrees-same {b = blocked} {d = absent} (sym e) (sym at) refl (λ j. refl) h
fork-IsFree s n ready e at h =
    let g = Agrees-same {b = ready} {d = absent} (sym e) (sym at) refl (λ j. refl) h in absurd g.2

pub Busy-of : (s : System) → Inv s → s.control ≡ executing → Busy s
Busy-of s inv c =
    let h = subst (Phase s) c inv.phase in
    record {
      quiet = inv.no_handler;
      lists = inv.lists;
      fits = inv.fits;
      status = h.0;
      alone = inv.alone;
      vacant = h.2;
    }

pub fork_lem :
    (s : System) (n : ℕ)
    → Inv s
    → s.control ≡ executing
    → s.positions n ≡ absent
    → (s' : System) × (fork s n ≡ done s')
      × Inv s'
      × (s'.control ≡ s.control)
      × (s'.ready_list.items ≡ s.ready_list.items ++ (n ∷ []))
unfolding fork is_off
fork_lem s n inv c at =
    let (status, place, vacant) = subst (Phase s) c inv.phase in
    let me = s.current_thread in
    let apart : me ≢ n = λ h. own-not_absent (subst (λ x. s.positions x ≡ own_code) h place) at in
    let s0 : System = record s { positions = update s.positions n at_begin } in
    let s1 : System = record s0 { level = int_off } in
    let here : s1.positions n ≡ at_begin = update_self s.positions n at_begin in
    let (l, put, lists, fit, fits, members, items) =
      ready_to_run_lem s1 n refl inv.lists (fork-IsFree s n (s.statuses n) refl at (inv.fits n))
        (subst IsSuspended (sym here) tt) in
    let s2 = made_ready s1 n l in
    let s3 : System = record s2 { level = s.level } in
    let unmoved = update-other s.statuses n ready me apart in
    (
      s3,
      (rw (set_level_lem s0 int_off inv.no_handler, put, set_level_lem s2 s.level inv.no_handler)
          refl),
      record {
        lists = lists;
        fits = by_thread (Fits s3) n fit (λ t h. fits t h (
            Agrees-same refl (update-other s.positions n at_begin t h) refl (λ j. refl)
              (inv.fits t)));
        alone =
            by_thread (λ t. s3.statuses t ≡ running → t ≡ me) n
              (λ e. absurd (ready-not_running (update_self s.statuses n ready) e))
              (λ t h e. inv.alone t (sym (update-other s.statuses n ready t h) ∙ e));
        phase =
            subst (Phase s3) (sym c)
              (unmoved ∙ status, update-other s.positions n at_begin me apart ∙ place, vacant);
        no_handler = inv.no_handler;
      },
      refl,
      items,
    )

pub p_lem :
    (s : System) (k : ℕ)
    → Inv s
    → s.control ≡ executing
    → (s' : System) × (p s k ≡ done s') × Inv s'
unfolding p is_off
p_lem s k inv c =
    let b = Busy-of s inv c in
    let off : System = record s { level = int_off } in
    let (s', run, inv') = p_loop_lem off k s.level refl (record {
      quiet = b.quiet;
      lists = b.lists;
      fits = b.fits;
      status = b.status;
      alone = b.alone;
      vacant = b.vacant;
    }) in
    (s', (rw (set_level_lem s int_off b.quiet) run), inv')

Woken-running :
    {b : ℕ → ThreadStatus} {a : ℕ → ThreadStatus} (w : Woken b a) (t : ℕ)
    → a t ≡ running
    → b t ≡ running
Woken-running w t h = elim (w t) [
  | inl same ↦ sym same ∙ h
  | inr (was, now) ↦ absurd (ready-not_running now h)
]

still_running :
    {b : ℕ → ThreadStatus} {a : ℕ → ThreadStatus} (w : Woken b a) (t : ℕ)
    → b t ≡ running
    → a t ≡ running
still_running w t h = elim (w t) [
  | inl same ↦ same ∙ h
  | inr (was, now) ↦ absurd (blocked-not_running was h)
]

-- The state after V of a handler, or of the current thread.
abbrev pub handled : System → (ℕ → ThreadStatus) → LinkedList ℕ → (ℕ → Semaphore) → Bool → System
handled s a l f b = record (signalled s a l f) { in_handler = b }

Doomed-kept :
    (s : System) (o : Option ℕ) (a : ℕ → ThreadStatus) (l : LinkedList ℕ) (f : ℕ → Semaphore)
    (b : Bool)
    → Doomed s o
    → Doomed (handled s a l f b) o
Doomed-kept s none a l f b h = tt
Doomed-kept s (some n) a l f b h = h

Phase-kept :
    (s : System) (c : Control) (a : ℕ → ThreadStatus) (l : LinkedList ℕ) (f : ℕ → Semaphore)
    (b : Bool)
    → Woken s.statuses a
    → Phase s c
    → Phase (handled s a l f b) c
Phase-kept s executing a l f b w h = (still_running w s.current_thread h.0, h.1, h.2)
Phase-kept s switched a l f b w h =
    (still_running w s.current_thread h.0, h.1, h.2, Doomed-kept s s.to_be_destroyed a l f b h.3)
Phase-kept s idling a l f b w h = ((λ t e. h.0 t (Woken-running w t e)), h.1, h.2, h.3)

handled_lem :
    (s : System) (a : ℕ → ThreadStatus) (l : LinkedList ℕ) (f : ℕ → Semaphore) (b : Bool)
    → b ≡ false
    → Inv s
    → Kept s (signalled s a l f)
    → Inv (handled s a l f b)
handled_lem s a l f b quiet inv (lists, fits, w) = record {
  lists = lists;
  fits = fits;
  alone = λ t e. inv.alone t (Woken-running w t e);
  phase = Phase-kept s s.control a l f b w inv.phase;
  no_handler = quiet;
}

pub handle_v_lem : (s : System) (k : ℕ) → Inv s → (s' : System) × (handle_v s k ≡ done s') × Inv s'
unfolding handle_v is_off
handle_v_lem s k inv =
    let s1 : System = record s { level = int_off; in_handler = true } in
    let (a, l, f, run, kept, values, signals) = v_lem s1 k (inr refl) inv.lists inv.fits in
    (handled s a l f false, (rw run refl), handled_lem s a l f false refl inv kept)

pub call_v_lem : (s : System) (k : ℕ) → Inv s → (s' : System) × (v s k ≡ done s') × Inv s'
call_v_lem s k inv =
    let (a, l, f, run, kept, values, signals) = v_lem s k (inl inv.no_handler) inv.lists inv.fits in
    (signalled s a l f, run, handled_lem s a l f s.in_handler inv.no_handler inv kept)

pub set_level_move :
    (s : System) (now : IntStatus)
    → Inv s
    → s.control ≡ executing
    → (s' : System) × (move s (call_set_level now) ≡ done s') × Inv s'
unfolding move
set_level_move s now inv c =
    let s' : System = record s { level = now } in
    (
      s',
      (rw (set_level_lem s now inv.no_handler) refl),
      record {
        lists = inv.lists;
        fits = inv.fits;
        alone = inv.alone;
        phase = subst (Phase s') (sym c) (subst (Phase s) c inv.phase);
        no_handler = inv.no_handler;
      },
    )
