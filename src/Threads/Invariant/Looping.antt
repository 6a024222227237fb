-- ===== src/Threads/Invariant/Looping.antt =====
-- The loop of Semaphore::P of code/threads/synch.cc, in the thread that runs, keeps the invariant.
use nachos.Base.{
  ℕ, ◌-◌, ◌≡◌, refl, ap, sym, subst, ◌∙◌, inl, inr, true, false, none, done, ◌==◌, Bool-cases,
}
use nachos.Lists.{in_chain}
use nachos.Interrupt.{IntStatus, is_off}
use nachos.Threads.{
  running, Position, own_code, in_p, executing, Semaphore, System, update, run, sleep,
}
use nachos.Threads.Synch.{p_loop}
use nachos.Threads.Moves.{is_finished}
use nachos.Threads.Chains.{==-self, IsSound, append-IsSound}
use nachos.Threads.Invariant.{IsQueued, is_queued, Fits, SoundLists, IsAsleep, Inv}
use nachos.Threads.Invariant.Scheduling.{
  ==-other, update_self, update-other, by_thread, Agrees-same, Fits-status, Fits-by, or-false,
}
use nachos.Threads.Invariant.Switching.{sleep_lem, set_level_lem}
use nachos.Threads.Invariant.Semaphores.{queue-update, queue-same}

-- The current thread runs, in whatever code.
pub record Busy (s : System) : Type 0 where
  pub quiet : s.in_handler ≡ false
  pub lists : SoundLists s
  pub fits : (t : ℕ) → Fits s t
  pub status : s.statuses s.current_thread ≡ running
  pub alone : (t : ℕ) → s.statuses t ≡ running → t ≡ s.current_thread
  pub vacant : s.to_be_destroyed ≡ none

-- Back in its own code.
abbrev pub settled : System → IntStatus → System
settled s level = record s {
  level = level;
  control = executing;
  positions = update s.positions s.current_thread own_code;
}

Fits-running :
    (s : System) (pos : ℕ → Position) (t : ℕ)
    → s.statuses t ≡ running
    → Fits s t
    → Fits (record s { positions = pos }) t
Fits-running s pos t e h = Fits-by (record s { positions = pos }) t e (Fits-status s t e h)

pub settled_lem : (s : System) (level : IntStatus) → Busy s → Inv (settled s level)
settled_lem s level b =
    let me = s.current_thread in
    let pos = update s.positions me own_code in
    record {
      lists = b.lists;
      fits =
          by_thread (Fits (settled s level)) me (Fits-running s pos me b.status (b.fits me)) (λ t h.
            Agrees-same refl (update-other s.positions me own_code t h) refl (λ j. refl)
              (b.fits t));
      alone = b.alone;
      phase = (b.status, update_self s.positions me own_code, b.vacant);
      no_handler = b.quiet;
    }

p_waits :
    (s : System) (k : ℕ) (old : IntStatus)
    → is_off s.level ≡ true
    → Busy s
    → ((s.semaphores k).value == 0) ≡ true
    → (s' : System) × (p_loop s k old ≡ done s') × Inv s'
unfolding p_loop
p_waits s k old off b unavailable =
    let me = s.current_thread in
    let (unready, unqueued) = Fits-status s me b.status (b.fits me) in
    let (q, run, sound, members, items) =
      append-IsSound (s.semaphores k).queue me (b.lists.1 k) (unqueued k) in
    let x : Semaphore = record { value = (s.semaphores k).value; queue = q } in
    let s1 : System = record s {
      semaphores = update s.semaphores k x;
      positions = update s.positions me (in_p k old);
    } in
    let at : s1.positions me ≡ in_p k old = update_self s.positions me (in_p k old) in
    let on : (j : ℕ) → is_queued s1 me j ≡ (j == k) =
      queue-update s.semaphores k x (λ j l. in_chain ◌==◌ me l.items ≡ (j == k))
        (rw (members me, ==-self me, ==-self k, unqueued k) refl)
        (λ j h. unqueued j ∙ sym (==-other j k h)) in
    let (s', slept, inv) =
      sleep_lem s1 off b.quiet b.vacant
        (b.lists.0, queue-update s.semaphores k x (λ j l. IsSound l) sound (λ j h. b.lists.1 j))
        (subst IsAsleep (sym at) tt) unready (subst (λ y. IsQueued y (is_queued s1 me)) (sym at) on)
        (λ t h.
          Agrees-same refl (update-other s.positions me (in_p k old) t h) refl
            (queue-update s.semaphores k x (λ j l. in_chain ◌==◌ t l.items ≡ is_queued s t j)
              (rw (members t, ==-other t me h) (or-false (is_queued s t k))) (λ j h. refl))
            (b.fits t))
        (λ t h r. h (b.alone t r)) in
    let ending : is_finished (s1.positions me) ≡ false = ap is_finished at in
    (s', (rw (unavailable, run) (subst (λ y. sleep s1 y ≡ done s') ending slept)), inv)

-- The loop of P, from its test on, in the thread that runs.
pub p_loop_lem :
    (s : System) (k : ℕ) (old : IntStatus)
    → is_off s.level ≡ true
    → Busy s
    → (s' : System) × (p_loop s k old ≡ done s') × Inv s'
unfolding p_loop
p_loop_lem s k old off b = elim (Bool-cases ((s.semaphores k).value == 0)) [
  | inl unavailable ↦ p_waits s k old off b unavailable
  | inr available ↦
      let x : Semaphore = record {
        value = (s.semaphores k).value - 1;
        queue = (s.semaphores k).queue;
      } in
      let s1 : System = record s { semaphores = update s.semaphores k x } in
      let same = queue-same s.semaphores k x refl in
      let inv = settled_lem s1 old (record {
        quiet = b.quiet;
        lists = (b.lists.0, λ j. subst IsSound (sym (same j)) (b.lists.1 j));
        fits = λ t.
            Agrees-same refl refl refl (λ j. ap (λ q. in_chain ◌==◌ t q.items) (same j)) (b.fits t);
        status = b.status;
        alone = b.alone;
        vacant = b.vacant;
      }) in
      let last = set_level_lem (settled s1 s.level) old b.quiet in
      (settled s1 old, (rw (available, last) refl), inv)
]
