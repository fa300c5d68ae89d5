-- ===== src/Scheduler/Steps.antt =====
-- The runs of the scheduler: calls of any threads between the rounds of its own.
use recap_server.Prelude.{
  ℕ, ◌≤◌, ◌≡◌, ◌≢◌, refl, sym, ap, ◌∙◌, true, false, ◌||◌, List, [], ◌∷◌, some, ◌==◌, ==_iff,
  if◌then◌else◌, get_elem?, arith, inl, inr, Bool-cases,
}
use recap_server.Scheduler.{
  Task, Scheduler, contains, insert, erase, next_id, add_task, cancel_task, stop, clear, is_top,
  between, waiting, running, wait, notify, fire, run_task, taken,
}

pub data Step : Scheduler → Scheduler → Type 0 where
  adds : (s : Scheduler) (thread now delay f : ℕ) → Step s (add_task s thread now delay f).0
  cancels : (s : Scheduler) (id : ℕ) → Step s (cancel_task s id)
  stops : (s : Scheduler) → Step s (stop s)
  clears : (s : Scheduler) → s.stopped ≡ true → Step s (clear s)
  waits :
      (s : Scheduler) (i : ℕ) (t : Task)
      → s.phase ≡ between
      → get_elem? s.tasks i ≡ some t
      → is_top t s.tasks ≡ true
      → Step s (wait s t)
  notified : (s : Scheduler) (d : ℕ) → s.phase ≡ waiting d → Step s (notify s)
  -- `wait_until` times out at the time waited for or later. What the top is by then is seen under
  -- the lock.
  fires :
      (s : Scheduler) (d now i : ℕ) (t : Task)
      → s.phase ≡ waiting d
      → d ≤ now
      → get_elem? s.tasks i ≡ some t
      → is_top t s.tasks ≡ true
      → Step s (fire s now t i)
  runs : (s : Scheduler) (t : Task) (now : ℕ) → s.phase ≡ running t now → Step s (run_task s t now)

pub data Run : Scheduler → Scheduler → Type 0 where
  stays : (s : Scheduler) → Run s s
  goes : {a b c : Scheduler} → Run a b → Step b c → Run a c

pub contains-erase :
    (i j : ℕ) (ids : List ℕ) → contains j (erase i ids) ≡ (if i == j then false else contains j ids)
unfolding contains erase
contains-erase i j [] = ground arith
contains-erase i j (k ∷ ids) = ground (arith, contains-erase i j ids)

pub contains-insert :
    (i j : ℕ) (ids : List ℕ) → contains j (insert i ids) ≡ (i == j || contains j ids)
unfolding insert contains
contains-insert i j ids = ground (arith, contains i ids)

-- The step does not hand the identifier out.
abbrev pub Avoids : ℕ → {a b : Scheduler} → Step a b → Type 0
Avoids id (adds s thread now delay f) = (add_task s thread now delay f).1 ≢ id
Avoids id (cancels s i) = Unit {0}
Avoids id (stops s) = Unit {0}
Avoids id (clears s stopped) = Unit {0}
Avoids id (waits s i t free e top) = Unit {0}
Avoids id (notified s d at) = Unit {0}
Avoids id (fires s d now i t at late e top) = Unit {0}
Avoids id (runs s t now at) = Unit {0}

-- A run in which the identifier is not handed out.
pub data RunWithout (id : ℕ) : Scheduler → Scheduler → Type 0 where
  stays_without : (s : Scheduler) → RunWithout id s s
  goes_without :
      {a b c : Scheduler} → RunWithout id a b → (s : Step b c) → Avoids id s → RunWithout id a c

-- The entries of the tasks with an identifier.
unfoldable pub runs_of : ℕ → List (Task × ℕ) → List (Task × ℕ)
runs_of id [] = []
runs_of id ((t, now) ∷ rest) =
    let more = runs_of id rest in if t.id == id then (t, now) ∷ more else more

-- In a wait and between two rounds no task is at work.
pub taken-waiting : (s : Scheduler) (d : ℕ) → s.phase ≡ waiting d → taken s ≡ s.ran
unfolding taken
taken-waiting s d e = rw e refl

pub taken-between : (s : Scheduler) → s.phase ≡ between → taken s ≡ s.ran
unfolding taken
taken-between s e = rw e refl

pub taken-running :
    (s : Scheduler) (t : Task) (now : ℕ) → s.phase ≡ running t now → taken s ≡ (t, now) ∷ s.ran
unfolding taken
taken-running s t now e = rw e refl

-- Nothing of the identifier can be taken, and nothing more of it was.
Idle : ℕ → Scheduler → Scheduler → Type 0
Idle id a b = (contains id b.task_ids ≡ false) × (runs_of id (taken b) ≡ runs_of id (taken a))

other_id :
    (id : ℕ) (t : Task) (ids : List ℕ)
    → contains t.id ids ≡ true
    → contains id ids ≡ false
    → (t.id == id) ≡ false
other_id id t ids live h = elim (Bool-cases (t.id == id)) [
  | inl e ↦
      let q : contains id ids ≡ true =
        ap (λ x. contains x ids) (sym ((==_iff t.id id).0 e)) ∙ live in
      ground (arith, h, q)
  | inr e ↦ e
]

Step-Idle :
    (id : ℕ) (a : Scheduler) {b c : Scheduler} (s : Step b c)
    → Avoids id s
    → Idle id a b
    → Idle id a c
unfolding Idle add_task cancel_task stop clear wait notify fire run_task runs_of contains taken
Step-Idle id a (adds s thread now delay f) ne (h, k) = elim (Bool-cases s.stopped) [
  | inl e ↦ rw e (h, k)
  | inr e ↦
      rw e
        (ground (arith, h, e, ne, contains-insert (next_id (s.last_ids thread)) id s.task_ids), k)
]
Step-Idle id a (cancels s i) ok (h, k) = elim (Bool-cases (i == 0)) [
  | inl e ↦ rw e (h, k)
  | inr e ↦ rw e (ground (arith, h, contains-erase i id s.task_ids), k)
]
Step-Idle id a (stops s) ok (h, k) = (h, k)
Step-Idle id a (clears s stopped) ok (h, k) = (refl, k)
Step-Idle id a (waits s i t free e top) ok (h, k) =
    (h, ap (runs_of id) (sym (taken-between s free)) ∙ k)
Step-Idle id a (notified s d at) ok (h, k) = (h, ap (runs_of id) (sym (taken-waiting s d at)) ∙ k)
Step-Idle id a (fires s d now i t at late e top) ok (h, k) =
    let before = ap (runs_of id) (sym (taken-waiting s d at)) ∙ k in
    elim (Bool-cases (contains t.id s.task_ids)) [
      | inl live ↦
          let other : (t.id == id) ≡ false = other_id id t s.task_ids live h in
          rw (live, fire) (ground (arith, h, contains-erase t.id id s.task_ids), rw other before)
      | inr dead ↦ rw (dead, fire) (h, before)
    ]
Step-Idle id a (runs s t now at) ok (h, k) =
    (h, ap (runs_of id) (sym (taken-running s t now at)) ∙ k)

RunWithout-Idle :
    (id : ℕ) {a b : Scheduler} → contains id a.task_ids ≡ false → RunWithout id a b → Idle id a b
unfolding Idle
RunWithout-Idle id h (stays_without s) = (h, refl)
RunWithout-Idle id {a} h (goes_without r s ok) = Step-Idle id a s ok (RunWithout-Idle id h r)

-- After CancelTask of a number other than zero, no task with this number is taken off the queue to
-- run in any sequence of calls from any threads and steps of the scheduler in which the number is
-- not handed out again: the tasks of the number that have run or are at work are those that had been
-- taken before the call. One that is at work then still runs to its end.
pub cancel_task-RunWithout :
    (s b : Scheduler) (id : ℕ)
    → id ≢ 0
    → RunWithout id (cancel_task s id) b
    → runs_of id (taken b) ≡ runs_of id (taken s)
unfolding cancel_task Idle taken
cancel_task-RunWithout s b id nonzero r =
    let nz : (id == 0) ≡ false = ground (arith, nonzero) in
    let gone : contains id (cancel_task s id).task_ids ≡ false =
      rw (nz, cancel_task) (ground (arith, contains-erase id id s.task_ids)) in
    let same : taken (cancel_task s id) ≡ taken s = rw (nz, cancel_task) refl in
    (RunWithout-Idle id gone r).1 ∙ ap (runs_of id) same

-- When a task whose number is in mTaskIds has been taken and has run to its end, a round that takes
-- another task with the same number off the queue runs nothing.
pub fire-fire :
    (s : Scheduler) (now now' i j : ℕ) (t u : Task)
    → t.id ≡ u.id
    → contains t.id s.task_ids ≡ true
    → taken (fire (run_task (fire s now t i) t now) now' u j) ≡ taken (fire s now t i)
unfolding fire taken run_task
fire-fire s now now' i j t u same live =
    let dead : contains u.id (erase t.id s.task_ids) ≡ false =
      ground (arith, same, contains-erase t.id u.id s.task_ids) in
    rw (live, fire) (rw (dead, fire) refl)
