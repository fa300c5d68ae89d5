-- ===== src/Scheduler/Waits.antt =====
-- What the scheduler's thread finds when its wait times out.
use recap_server.Prelude.{
  ℕ, zero, suc, ◌≤◌, ◌≡◌, refl, ap, subst, Bool, true, false, ◌||◌, ◌&&◌, ◌==◌, List, [], ◌∷◌, none,
  some, some-injective, leb, get_elem?, arith, inl, inr, Bool-cases,
}
use recap_server.Scheduler.{
  Task, Scheduler, Phase, new, between, waiting, running, contains, add_task, cancel_task, stop,
  clear, shutdown, is_top, wait, notify, fire, wake, run_task, taken,
}
use recap_server.Scheduler.Steps.{
  Step, adds, cancels, stops, clears, waits, notified, fires, runs, Run, stays, goes, taken-waiting,
  taken-between, taken-running,
}
use recap_server.Scheduler.Progress.{HasTop, top_exists}

-- A task is due at a time.
unfoldable pub due : ℕ → List Task → Bool
due d [] = false
due d (t ∷ ts) = leb t.execution_point d || due d ts

is_empty : List Task → Bool
is_empty [] = true
is_empty (t ∷ ts) = false

-- While the thread waits for a time, a task is due then, or Shutdown has emptied the queue.
Sound : Phase → Bool → List Task → Type 0
Sound between stopped tasks = Unit {0}
Sound (running t now) stopped tasks = Unit {0}
Sound (waiting d) stopped tasks = (due d tasks || stopped && is_empty tasks) ≡ true

Sound-add : (p : Phase) (t : Task) (ts : List Task) → Sound p false ts → Sound p false (t ∷ ts)
unfolding Sound due is_empty
Sound-add between t ts h = tt
Sound-add (running u now) t ts h = tt
Sound-add (waiting d) t ts h = ground (arith, h)

Sound-stop : (p : Phase) (b : Bool) (ts : List Task) → Sound p b ts → Sound p true ts
unfolding Sound
Sound-stop between b ts h = tt
Sound-stop (running u now) b ts h = tt
Sound-stop (waiting d) b ts h = ground (arith, h)

Sound-clear : (p : Phase) (b : Bool) → b ≡ true → Sound p b []
unfolding Sound due is_empty
Sound-clear between b h = tt
Sound-clear (running u now) b h = tt
Sound-clear (waiting d) b h = ground (arith, h)

due-get :
    (t : Task) (i : ℕ) (ts : List Task) → get_elem? ts i ≡ some t → due t.execution_point ts ≡ true
unfolding due
due-get t i [] e = ground (arith, e)
due-get t zero (u ∷ ts) e =
    let p : u.execution_point ≡ t.execution_point =
      ap (λ x. x.execution_point) (some-injective e) in
    ground (arith, p)
due-get t (suc i) (u ∷ ts) e = ground (arith, due-get t i ts e)

-- The top is due when some task is.
top-due :
    (t : Task) (d : ℕ) (ts : List Task)
    → is_top t ts ≡ true
    → due d ts ≡ true
    → t.execution_point ≤ d
unfolding is_top due
top-due t d [] top h = absurd (ground (arith, h))
top-due t d (u ∷ ts) top h = elim (Bool-cases (due d ts)) [
  | inl e ↦ top-due t d ts (ground (arith, top)) e
  | inr e ↦ ground (arith, top, h, e)
]

Step-Sound :
    {a b : Scheduler} → Step a b → Sound a.phase a.stopped a.tasks → Sound b.phase b.stopped b.tasks
unfolding add_task cancel_task stop clear wait notify fire run_task Sound
Step-Sound (adds s thread now delay f) h = elim (Bool-cases s.stopped) [
  | inl e ↦ rw e (rw e at h)
  | inr e ↦ rw e (Sound-add s.phase _ s.tasks (rw e at h))
]
Step-Sound (cancels s id) h = elim (Bool-cases (id == 0)) [ inl e ↦ rw e h | inr e ↦ rw e h ]
Step-Sound (stops s) h = Sound-stop s.phase s.stopped s.tasks h
Step-Sound (clears s stopped) h = Sound-clear s.phase s.stopped stopped
Step-Sound (waits s i t free e top) h = let q = due-get t i s.tasks e in ground (arith, q)
Step-Sound (notified s d at) h = tt
Step-Sound (fires s d now i t at late e top) h = elim (Bool-cases (contains t.id s.task_ids)) [
  | inl live ↦ rw (live, fire) tt
  | inr dead ↦ rw (dead, fire) tt
]
Step-Sound (runs s t now at) h = tt

Run-Sound :
    {a b : Scheduler} → Run a b → Sound a.phase a.stopped a.tasks → Sound b.phase b.stopped b.tasks
Run-Sound (stays s) h = h
Run-Sound (goes r s) h = Step-Sound s (Run-Sound r h)

-- Each task was taken at its execution point or later.
abbrev pub OnTime : List (Task × ℕ) → Type 0
OnTime [] = Unit {0}
OnTime ((t, now) ∷ rest) = (t.execution_point ≤ now) × OnTime rest

-- A queue with a task at a place is not empty.
not_empty : (ts : List Task) (i : ℕ) (t : Task) → get_elem? ts i ≡ some t → is_empty ts ≡ false
unfolding is_empty
not_empty [] i t e = absurd (ground (arith, e))
not_empty (u ∷ ts) i t e = refl

waited-due :
    (s : Scheduler) (d i : ℕ) (t : Task)
    → s.phase ≡ waiting d
    → Sound s.phase s.stopped s.tasks
    → get_elem? s.tasks i ≡ some t
    → is_top t s.tasks ≡ true
    → t.execution_point ≤ d
unfolding Sound
waited-due s d i t at h e top =
    let q : (due d s.tasks || s.stopped && is_empty s.tasks) ≡ true =
      subst (λ p. Sound p s.stopped s.tasks) at h in
    top-due t d s.tasks top (ground (arith, q, not_empty s.tasks i t e))

Step-OnTime :
    {a b : Scheduler}
    → Step a b
    → Sound a.phase a.stopped a.tasks
    → OnTime (taken a)
    → OnTime (taken b)
unfolding add_task cancel_task stop clear wait notify fire run_task taken
Step-OnTime (adds s thread now delay f) sound h = elim (Bool-cases s.stopped) [
  | inl e ↦ rw e h
  | inr e ↦ rw e h
]
Step-OnTime (cancels s id) sound h = elim (Bool-cases (id == 0)) [ inl e ↦ rw e h | inr e ↦ rw e h ]
Step-OnTime (stops s) sound h = h
Step-OnTime (clears s stopped) sound h = h
Step-OnTime (waits s i t free e top) sound h = subst OnTime (taken-between s free) h
Step-OnTime (notified s d at) sound h = subst OnTime (taken-waiting s d at) h
Step-OnTime (fires s d now i t at late e top) sound h =
    let old = subst OnTime (taken-waiting s d at) h in
    let early = waited-due s d i t at sound e top in
    elim (Bool-cases (contains t.id s.task_ids)) [
      | inl live ↦ rw (live, fire) (omega (arith, early, late), old)
      | inr dead ↦ rw (dead, fire) old
    ]
Step-OnTime (runs s t now at) sound h = subst OnTime (taken-running s t now at) h

Run-both :
    {a b : Scheduler}
    → Run a b
    → Sound a.phase a.stopped a.tasks
    → OnTime (taken a)
    → OnTime (taken b)
Run-both (stays s) sound h = h
Run-both (goes r s) sound h = Step-OnTime s (Run-Sound r sound) (Run-both r sound h)

-- In every state that the scheduler reaches by calls of any threads and steps of its own, every task
-- that ran or is at work was taken off the queue at its execution point or later, though the wait
-- that timed out was for what the top of the queue was when it began.
pub Run-OnTime : (s : Scheduler) → Run new s → OnTime (taken s)
unfolding Sound taken
Run-OnTime s r = Run-both r tt tt

due-HasTop : (d : ℕ) (ts : List Task) → due d ts ≡ true → HasTop ts
unfolding due
due-HasTop d [] h = absurd (ground (arith, h))
due-HasTop d (t ∷ ts) h = top_exists t ts

-- When a scheduler waits for a time and was not shut down, its queue has a top that is due by then,
-- which a wait that times out takes; if Shutdown comes before the thread has the lock again, the
-- thread takes the top of an empty queue, which is undefined.
pub Run-wake :
    (s : Scheduler) (d : ℕ)
    → Run new s
    → s.phase ≡ waiting d
    → s.stopped ≡ false
    → ((i : ℕ) × (t : Task) × (get_elem? s.tasks i ≡ some t)
        × (is_top t s.tasks ≡ true)
        × (t.execution_point ≤ d)
        × ((now : ℕ) → wake s now i ≡ some (fire s now t i)))
      × ((now i : ℕ) → wake (shutdown s) now i ≡ none)
unfolding Sound wake shutdown
Run-wake s d r at live =
    let sound = Run-Sound r tt in
    let q : (due d s.tasks || s.stopped && is_empty s.tasks) ≡ true =
      subst (λ p. Sound p s.stopped s.tasks) at sound in
    let some_due : due d s.tasks ≡ true = ground (arith, q, live) in
    let (i, t, e, top) = due-HasTop d s.tasks some_due in
    ((i, t, e, top, top-due t d s.tasks top some_due, λ now. rw (e, wake) refl), λ now j. refl)
