-- ===== src/Threads/Invariant/Scheduling.antt =====
-- What the methods of code/threads/scheduler.cc do to the places of the threads.
use nachos.Base.{
  ℕ, ◌≡◌, ◌≢◌, refl, sym, subst, fun_ext, ◌∙◌, ◌⊎◌, inl, inr, Bool, true, false, not, [], ◌∷◌, ◌++◌,
  Option, none, some, done, ◌==◌, ◌||◌, if◌then◌else◌, arith,
}
use native.Mathlib.Decide.{ℕ_discrete}
use nachos.Lists.{LinkedList, in_chain}
use nachos.Interrupt.{is_off}
use nachos.Threads.{
  System, ThreadStatus, Position, just_created, running, ready, blocked, switched, update,
  ready_to_run, find_next_to_run, run, is_null,
}
use nachos.Threads.Invariant.{
  IsSuspended, Agrees, is_ready, is_queued, Fits, SoundLists, IsFree, Doomed, Inv,
}
use nachos.Threads.Chains.{==-self, append-IsSound, remove_front-cases}

pub ==-other : (t n : ℕ) → t ≢ n → (t == n) ≡ false
==-other t n h = ground arith

pub update_self {ℓ} : {A : Type ℓ} (f : ℕ → A) (n : ℕ) (a : A) → update f n a n ≡ a
update_self f n a = rw (==-self n) refl

pub update-other {ℓ} :
    {A : Type ℓ} (f : ℕ → A) (n : ℕ) (a : A) (t : ℕ) → t ≢ n → update f n a t ≡ f t
update-other f n a t h = rw (==-other t n h) refl

-- What holds of one thread and of the others.
pub by_thread {ℓ} : (P : ℕ → Type ℓ) (n : ℕ) → P n → ((t : ℕ) → t ≢ n → P t) → (t : ℕ) → P t
by_thread P n this others t = elim (ℕ_discrete t n) [
  | yes same ↦ subst P (sym same) this
  | no apart ↦ others t apart
]

pub Agrees-same :
    {a b : ThreadStatus} {c d : Position} {e f : Bool} {q r : ℕ → Bool}
    → b ≡ a
    → d ≡ c
    → f ≡ e
    → ((j : ℕ) → r j ≡ q j)
    → Agrees a c e q
    → Agrees b d f r
Agrees-same {a = a} {b = b} {c = c} {d = d} {e = e} {f = f} {q = q} {r = r} p1 p2 p3 p4 h =
    let whole : r ≡ q = fun_ext p4 in
    subst (λ x. Agrees b d f x) (sym whole)
      (subst (λ x. Agrees b d x q) (sym p3)
        (subst (λ x. Agrees b x e q) (sym p2) (subst (λ x. Agrees x c e q) (sym p1) h)))

-- A thread that is ready or runs on no list.
pub Fits-status :
    (s : System) (t : ℕ) {a : ThreadStatus}
    → s.statuses t ≡ a
    → Fits s t
    → Agrees a (s.positions t) (is_ready s t) (is_queued s t)
Fits-status s t e h = Agrees-same (sym e) refl refl (λ j. refl) h

pub Fits-by :
    (s : System) (t : ℕ) {a : ThreadStatus}
    → s.statuses t ≡ a
    → Agrees a (s.positions t) (is_ready s t) (is_queued s t)
    → Fits s t
Fits-by s t e h = Agrees-same e refl refl (λ j. refl) h

pub or-false : (b : Bool) → (b || false) ≡ b
or-false true = refl
or-false false = refl

abbrev pub made_ready : System → ℕ → LinkedList ℕ → System
made_ready s n l = record s { statuses = update s.statuses n ready; ready_list = l }

-- ReadyToRun of a thread on no list puts it at the end of the ready list and moves no other.
pub ready_to_run_lem :
    (s : System) (n : ℕ)
    → is_off s.level ≡ true
    → SoundLists s
    → IsFree s n
    → IsSuspended (s.positions n)
    → (l : LinkedList ℕ) × (ready_to_run s n ≡ done (made_ready s n l))
      × SoundLists (made_ready s n l)
      × Fits (made_ready s n l) n
      × ((t : ℕ) → t ≢ n → Fits s t → Fits (made_ready s n l) t)
      × ((t : ℕ) → t ≢ n → in_chain ◌==◌ t l.items ≡ is_ready s t)
      × (l.items ≡ s.ready_list.items ++ (n ∷ []))
unfolding ready_to_run
ready_to_run_lem s n off (sound, queues) (out, unqueued) suspended =
    let (l, run, sound', members, items) = append-IsSound s.ready_list n sound out in
    let s' = made_ready s n l in
    let member : is_ready s' n ≡ true = rw (members n, ==-self n, out) refl in
    let others : (t : ℕ) → t ≢ n → in_chain ◌==◌ t l.items ≡ is_ready s t =
      λ t h. rw (members t, ==-other t n h) (or-false (is_ready s t)) in
    (
      l,
      (rw (off, run) refl),
      (sound', queues),
      Fits-by s' n (update_self s.statuses n ready) (member, unqueued, suspended),
      (λ t h fit.
          Agrees-same (update-other s.statuses n ready t h) refl (others t h) (λ j. refl) fit),
      others,
      items,
    )

abbrev pub Found : System → Type 0
Found s =
    (n : ℕ) × (l : LinkedList ℕ) × (find_next_to_run s ≡ done (some n, record s { ready_list = l }))
    × SoundLists (record s { ready_list = l })
    × IsFree (record s { ready_list = l }) n
    × (s.statuses n ≡ ready)
    × IsSuspended (s.positions n)
    × ((t : ℕ) → t ≢ n → in_chain ◌==◌ t l.items ≡ is_ready s t)
    × (s.ready_list.items ≡ n ∷ l.items)

ready_status_of :
    (s : System) (n : ℕ) (a : ThreadStatus)
    → s.statuses n ≡ a
    → Fits s n
    → is_ready s n ≡ true
    → (s.statuses n ≡ ready) × ((j : ℕ) → is_queued s n j ≡ false) × IsSuspended (s.positions n)
ready_status_of s n ready e fit member = let h = Fits-status s n e fit in (e, h.1, h.2)
ready_status_of s n blocked e fit member = let h = Fits-status s n e fit in absurd (cc)
ready_status_of s n just_created e fit member = let h = Fits-status s n e fit in absurd (cc)
ready_status_of s n running e fit member = let h = Fits-status s n e fit in absurd (cc)

-- A thread on the ready list is ready, on no queue, and can be switched to.
pub ready_status :
    (s : System) (n : ℕ)
    → Fits s n
    → is_ready s n ≡ true
    → (s.statuses n ≡ ready) × ((j : ℕ) → is_queued s n j ≡ false) × IsSuspended (s.positions n)
ready_status s n fit member = ready_status_of s n (s.statuses n) refl fit member

-- FindNextToRun finds no thread, or takes the first one off the ready list.
pub find_next_to_run-cases :
    (s : System)
    → is_off s.level ≡ true
    → SoundLists s
    → ((n : ℕ) → is_ready s n ≡ true → Fits s n)
    → ((find_next_to_run s ≡ done (none, s)) × (s.ready_list.items ≡ [])) ⊎ Found s
unfolding find_next_to_run
find_next_to_run-cases s off (sound, queues) fits = elim (remove_front-cases s.ready_list sound) [
  | inl (empty, none_left) ↦ inl ((rw (off, empty) refl), none_left)
  | inr (filled, (n, l, run, sound', member, out, members, items)) ↦
      let (status, unqueued, suspended) = ready_status s n (fits n member) member in
      inr (
        n,
        l,
        (rw (off, filled, run) refl),
        (sound', queues),
        (out, unqueued),
        status,
        suspended,
        (λ t h. sym (rw (members t, ==-other t n h) refl)),
        items,
      )
]

abbrev pub dispatched : System → ℕ → Option ℕ → System
dispatched s n doomed = record s {
  to_be_destroyed = doomed;
  current_thread = n;
  statuses = update s.statuses n running;
  control = switched;
}

vacancy :
    (finishing : Bool) (o : Option ℕ)
    → (finishing ≡ true → o ≡ none)
    → (not finishing || is_null o) ≡ true
vacancy true o h = rw (h refl) refl
vacancy false o h = refl

-- Run of a suspended thread that is on no list, when no other runs any more.
pub run_lem :
    (s : System) (n : ℕ) (finishing : Bool) (doomed : Option ℕ)
    → is_off s.level ≡ true
    → s.in_handler ≡ false
    → (finishing ≡ true → s.to_be_destroyed ≡ none)
    → (if finishing then some s.current_thread else s.to_be_destroyed) ≡ doomed
    → Doomed (dispatched s n doomed) doomed
    → SoundLists s
    → IsFree s n
    → IsSuspended (s.positions n)
    → ((t : ℕ) → t ≢ n → Fits s t)
    → ((t : ℕ) → t ≢ n → s.statuses t ≢ running)
    → (run s n finishing ≡ done (dispatched s n doomed)) × Inv (dispatched s n doomed)
unfolding run
run_lem s n finishing doomed off quiet vacant e fate lists free suspended fits stopped =
    let s' = dispatched s n doomed in
    let status = update_self s.statuses n running in
    (
      (rw (off, vacancy finishing s.to_be_destroyed vacant, e) refl),
      record {
        lists = lists;
        fits = by_thread (Fits s') n (Fits-by s' n status free) (λ t h.
            Agrees-same (update-other s.statuses n running t h) refl refl (λ j. refl) (fits t h));
        alone =
            by_thread (λ t. s'.statuses t ≡ running → t ≡ n) n (λ h. refl)
              (λ t h e. absurd (stopped t h (sym (update-other s.statuses n running t h) ∙ e)));
        phase = (status, suspended, off, fate);
        no_handler = quiet;
      },
    )
