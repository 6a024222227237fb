-- ===== src/Threads/Invariant/Switching.antt =====
-- Sleep, Finish and Yield of code/threads/thread.cc stop at no assertion and keep the invariant.
use nachos.Base.{
  ℕ, ◌≡◌, ◌≢◌, refl, ap, sym, subst, ◌∙◌, ◌⊎◌, inl, inr, Bool, true, false, Option, none, some,
  done, ◌==◌, if◌then◌else◌, arith, Bool-cases,
}
use nachos.Interrupt.{IntStatus, int_off, int_on, is_off}
use nachos.Threads.{
  ThreadStatus, running, ready, blocked, Position, own_code, in_yield, in_p, at_begin, finished,
  absent, idling, System, update, set_level, run, look_for_next, sleep, finish,
}
use nachos.Threads.Synch.{v}
use nachos.Threads.Moves.{is_finished}
use nachos.Threads.Invariant.{
  IsSuspended, IsQueued, is_ready, is_queued, Fits, SoundLists, IsFree, Doomed, IsAsleep, Inv,
}
use nachos.Threads.Invariant.Scheduling.{
  update_self, update-other, Agrees-same, Fits-status, Fits-by, find_next_to_run-cases, dispatched,
  run_lem,
}

-- The state in the loop of Sleep: no thread runs.
pub record Asleep (s : System) : Type 0 where
  pub off : is_off s.level ≡ true
  pub quiet : s.in_handler ≡ false
  pub lists : SoundLists s
  pub fits : (t : ℕ) → Fits s t
  pub stopped : (t : ℕ) → s.statuses t ≢ running
  pub at_sleep : IsAsleep (s.positions s.current_thread)
  pub vacant : s.to_be_destroyed ≡ none

abbrev IsEnd : Position → Type 0
IsEnd pos = (is_finished pos ≡ true) × (pos ≡ finished)

IsEnd-cases : (pos : Position) → IsEnd pos ⊎ (is_finished pos ≡ false)
IsEnd-cases own_code = inr refl
IsEnd-cases (in_yield old) = inr refl
IsEnd-cases (in_p k old) = inr refl
IsEnd-cases at_begin = inr refl
IsEnd-cases finished = inl (refl, refl)
IsEnd-cases absent = inr refl

pub suspended-not_finished : (pos : Position) → IsSuspended pos → pos ≢ finished
suspended-not_finished (in_yield old) h e = cc
suspended-not_finished (in_p k old) h e = cc
suspended-not_finished at_begin h e = cc
suspended-not_finished own_code h e = elim h [ ]
suspended-not_finished finished h e = elim h [ ]
suspended-not_finished absent h e = elim h [ ]

Doomed-by :
    (s : System) (n : ℕ) (finishing : Bool)
    → (s.positions s.current_thread ≡ finished) ⊎ (finishing ≡ false)
    → s.to_be_destroyed ≡ none
    → IsSuspended (s.positions n)
    → (d : Option ℕ) × ((if finishing then some s.current_thread else s.to_be_destroyed) ≡ d)
      × Doomed (dispatched s n d) d
Doomed-by s n true (inl h) v suspended =
    let apart : s.current_thread ≢ n =
      λ e. suspended-not_finished (s.positions n) suspended (ap s.positions (sym e) ∙ h) in
    (some s.current_thread, refl, (apart, h))
Doomed-by s n true (inr h) v suspended = absurd (cc)
Doomed-by s n false h v suspended = (none, v, tt)

-- One test of the loop of Sleep.
pub look_for_next_lem :
    (s : System)
    → Asleep s
    → (s' : System) × (look_for_next s (is_finished (s.positions s.current_thread)) ≡ done s')
      × Inv s'
unfolding look_for_next
look_for_next_lem s a = elim (find_next_to_run-cases s a.off a.lists (λ n m. a.fits n)) [
  | inl (nobody, empty) ↦ (
    record s { control = idling },
    (rw nobody refl),
    record {
      lists = a.lists;
      fits = a.fits;
      alone = λ t h. absurd (a.stopped t h);
      phase = (a.stopped, a.at_sleep, a.off, a.vacant);
      no_handler = a.quiet;
    },
  )
  | inr (n, l, found, lists, free, status, suspended, others, items) ↦
      let s1 : System = record s { ready_list = l } in
      let finishing = is_finished (s.positions s.current_thread) in
      let ending : (s.positions s.current_thread ≡ finished) ⊎ (finishing ≡ false) =
        elim (IsEnd-cases (s.positions s.current_thread)) [ inl h ↦ inl h.1 | inr h ↦ inr h ] in
      let (d, e, fate) = Doomed-by s1 n finishing ending a.vacant suspended in
      let (go, inv) =
        run_lem s1 n finishing d a.off a.quiet (λ h. a.vacant) e fate lists free suspended
          (λ t h. Agrees-same refl refl (others t h) (λ j. refl) (a.fits t)) (λ t h. a.stopped t) in
      (dispatched s1 n d, (rw (found, go) refl), inv)
]

-- Sleep of the current thread, at a place in the loop of P, on the queue there, or in Finish.
pub sleep_lem :
    (s : System)
    → is_off s.level ≡ true
    → s.in_handler ≡ false
    → s.to_be_destroyed ≡ none
    → SoundLists s
    → IsAsleep (s.positions s.current_thread)
    → is_ready s s.current_thread ≡ false
    → IsQueued (s.positions s.current_thread) (is_queued s s.current_thread)
    → ((t : ℕ) → t ≢ s.current_thread → Fits s t)
    → ((t : ℕ) → t ≢ s.current_thread → s.statuses t ≢ running)
    → (s' : System) × (sleep s (is_finished (s.positions s.current_thread)) ≡ done s') × Inv s'
unfolding sleep
sleep_lem s off quiet vacant lists at_sleep unready queued fits stopped =
    let me = s.current_thread in
    let s1 : System = record s { statuses = update s.statuses me blocked } in
    let status : s1.statuses me ≡ blocked = update_self s.statuses me blocked in
    let (s', run, inv) = look_for_next_lem s1 (record {
      off = off;
      quiet = quiet;
      lists = lists;
      fits = λ t. elim (Bool-cases (t == me)) [
        | inl same ↦
            let same' : t ≡ me = ground (arith, same) in
            subst (Fits s1) (sym same') (Fits-by s1 me status (unready, queued))
        | inr apart ↦
            let apart' : t ≢ me = ground (arith, apart) in
            Agrees-same (update-other s.statuses me blocked t apart') refl refl (λ j. refl)
              (fits t apart')
      ];
      stopped = λ t h. elim (Bool-cases (t == me)) [
        | inl same ↦
            let same' : t ≡ me = ground (arith, same) in
            let h' : s1.statuses me ≡ running = subst (λ x. s1.statuses x ≡ running) same' h in cc
        | inr apart ↦
            let apart' : t ≢ me = ground (arith, apart) in
            stopped t apart' (sym (update-other s.statuses me blocked t apart') ∙ h)
      ];
      at_sleep = at_sleep;
      vacant = vacant;
    }) in
    (s', (rw (off, run) refl), inv)

pub restore_lem :
    (s : System) (now : IntStatus)
    → (s.in_handler ≡ false) ⊎ (is_off now ≡ true)
    → set_level s now ≡ done (s.level, record s { level = now })
unfolding set_level is_off
restore_lem s int_off quiet = refl
restore_lem s int_on (inl quiet) = rw quiet refl
restore_lem s int_on (inr off) = absurd (cc)

pub set_level_lem :
    (s : System) (now : IntStatus)
    → s.in_handler ≡ false
    → set_level s now ≡ done (s.level, record s { level = now })
set_level_lem s now quiet = restore_lem s now (inl quiet)

-- The thread that runs is on no list, and no other runs.
pub current-IsFree :
    (s : System) → Inv s → s.statuses s.current_thread ≡ running → IsFree s s.current_thread
current-IsFree s inv e = Fits-status s s.current_thread e (inv.fits s.current_thread)

pub finish_lem :
    (s : System)
    → Inv s
    → s.statuses s.current_thread ≡ running
    → s.to_be_destroyed ≡ none
    → (s' : System) × (finish s ≡ done s') × Inv s'
unfolding finish is_off
finish_lem s inv e vacant =
    let me = s.current_thread in
    let s1 : System = record s { level = int_off; positions = update s.positions me finished } in
    let (unready, unqueued) = current-IsFree s inv e in
    let at_end : s1.positions me ≡ finished = update_self s.positions me finished in
    let (s', run, inv') =
      sleep_lem s1 refl inv.no_handler vacant inv.lists (subst IsAsleep (sym at_end) tt) unready
        (subst (λ x. IsQueued x (is_queued s1 me)) (sym at_end) unqueued)
        (λ t h.
          Agrees-same refl (update-other s.positions me finished t h) refl (λ j. refl) (inv.fits t))
        (λ t h r. h (inv.alone t r)) in
    let ending : is_finished (s1.positions me) ≡ true = ap is_finished at_end in
    (
      s',
      (rw (set_level_lem s int_off inv.no_handler) (subst (λ b. sleep s1 b ≡ done s') ending run)),
      inv',
    )

pub ready-not_running : {a : ThreadStatus} → a ≡ ready → a ≢ running
ready-not_running h e = cc

pub blocked-not_running : {a : ThreadStatus} → a ≡ blocked → a ≢ running
blocked-not_running h e = cc

pub own-not_absent : {a : Position} → a ≡ own_code → a ≢ absent
own-not_absent h e = cc
