-- ===== src/Scheduler/Progress.antt =====
-- The queue of the scheduler, its live numbers and its top (Core/Async/Scheduler.cpp).
use recap_server.Prelude.{
  ℕ, zero, suc, ◌≤◌, ◌≡◌, refl, sym, ap, ◌∙◌, Bool, true, false, ◌||◌, List, [], ◌∷◌, some, ◌==◌,
  ==_iff, leb, if◌then◌else◌, get_elem?, arith, inl, inr, Bool-cases, some-injective,
}
use recap_server.Scheduler.{
  Task, Scheduler, new, contains, next_id, add_task, cancel_task, stop, clear, remove_at, wait,
  notify, run_task, is_top, fire,
}
use recap_server.Scheduler.Steps.{
  Step, adds, cancels, stops, clears, waits, notified, fires, runs, Run, stays, goes,
  contains-erase, contains-insert,
}

-- A task of the identifier is in the queue.
unfoldable pub queued : ℕ → List Task → Bool
queued id [] = false
queued id (t ∷ ts) = t.id == id || queued id ts

queued-remove_at :
    (id i : ℕ) (t : Task) (ts : List Task)
    → get_elem? ts i ≡ some t
    → (t.id == id) ≡ false
    → queued id (remove_at i ts) ≡ queued id ts
unfolding queued remove_at
queued-remove_at id i t [] e ne = ground (arith, e)
queued-remove_at id zero t (u ∷ ts) e ne =
    let p : u.id ≡ t.id = ap (λ x. x.id) (some-injective e) in ground (arith, p, ne)
queued-remove_at id (suc i) t (u ∷ ts) e ne = ground (arith, queued-remove_at id i t ts e ne)

-- Each live identifier has a task in the queue.
abbrev pub IsQueued : Scheduler → Type 0
IsQueued s = (id : ℕ) → contains id s.task_ids ≡ true → queued id s.tasks ≡ true

-- A dead identifier is not a live one.
other_id :
    (dead id : ℕ) (ids : List ℕ)
    → contains dead ids ≡ false
    → contains id ids ≡ true
    → (dead == id) ≡ false
other_id dead id ids h live = elim (Bool-cases (dead == id)) [
  | inl e ↦
      let q : contains dead ids ≡ true = ap (λ x. contains x ids) ((==_iff dead id).0 e) ∙ live in
      ground (arith, h, q)
  | inr e ↦ e
]

Step-IsQueued : {a b : Scheduler} → Step a b → IsQueued a → IsQueued b
unfolding add_task cancel_task stop clear wait notify run_task fire queued contains
Step-IsQueued (adds s thread now delay f) ok id h = elim (Bool-cases s.stopped) [
  | inl e ↦ rw e (ok id (rw e at h))
  | inr e ↦ rw e (
      ground
        (arith, ok id, (rw e at h), contains-insert (next_id (s.last_ids thread)) id s.task_ids))
]
Step-IsQueued (cancels s i) ok id h = elim (Bool-cases (i == 0)) [
  | inl e ↦ rw e (ok id (rw e at h))
  | inr e ↦ rw e (ground (arith, ok id, (rw e at h), contains-erase i id s.task_ids))
]
Step-IsQueued (stops s) ok id h = ok id h
Step-IsQueued (clears s stopped) ok id h = ground (arith, h)
Step-IsQueued (waits s i t free e top) ok id h = ok id h
Step-IsQueued (notified s d at) ok id h = ok id h
Step-IsQueued (runs s t now at) ok id h = ok id h
Step-IsQueued (fires s d now i t at late e top) ok id h =
    elim (Bool-cases (contains t.id s.task_ids)) [
      | inl live ↦
          rw (live, fire)
            (let h' : (if t.id == id then false else contains id s.task_ids) ≡ true =
                sym (contains-erase t.id id s.task_ids) ∙ (rw (live, fire) at h) in
              ground (arith, h', ok id, queued-remove_at id i t s.tasks e))
      | inr dead ↦
          rw (dead, fire)
            (let h' : contains id s.task_ids ≡ true = (rw (dead, fire) at h) in
              queued-remove_at id i t s.tasks e (other_id t.id id s.task_ids dead h') ∙ ok id h')
    ]

Run-IsQueued : {a b : Scheduler} → Run a b → IsQueued a → IsQueued b
Run-IsQueued (stays s) h = h
Run-IsQueued (goes r s) h = Step-IsQueued s (Run-IsQueued r h)

is_top_mono :
    (t u : Task) (ts : List Task)
    → t.execution_point ≤ u.execution_point
    → is_top u ts ≡ true
    → is_top t ts ≡ true
unfolding is_top
is_top_mono t u [] le h = refl
is_top_mono t u (w ∷ ts) le h = ground (arith, h, is_top_mono t u ts le)

-- A place with a top.
abbrev pub HasTop : List Task → Type 0
HasTop ts = (i : ℕ) × (t : Task) × (get_elem? ts i ≡ some t) × (is_top t ts ≡ true)

pub top_exists : (t : Task) (ts : List Task) → HasTop (t ∷ ts)
unfolding is_top
top_exists t [] = (0, t, refl, ground arith)
top_exists t (u ∷ ts) =
    let (i, w, e, h) = top_exists u ts in
    elim (Bool-cases (leb w.execution_point t.execution_point)) [
      | inl le ↦ (suc i, w, e, ground (arith, le, h))
      | inr gt ↦ (0, t, refl, ground (arith, gt, h, is_top_mono t w (u ∷ ts)))
    ]

new-IsQueued : IsQueued new
unfolding contains
new-IsQueued id h = ground (arith, h)

nonempty : (ts : List Task) (id : ℕ) → queued id ts ≡ true → HasTop ts
unfolding queued
nonempty [] id h = ground (arith, h)
nonempty (t ∷ ts) id h = top_exists t ts

-- In every state that the scheduler reaches, while a number is in mTaskIds a task with this number
-- is in the queue, and the queue has a top, so that the thread has a task to take.
pub Run-HasTop :
    (s : Scheduler) (id : ℕ)
    → Run new s
    → contains id s.task_ids ≡ true
    → (queued id s.tasks ≡ true)
      × ((i : ℕ) × (t : Task) × (get_elem? s.tasks i ≡ some t) × (is_top t s.tasks ≡ true))
Run-HasTop s id r h = let q = Run-IsQueued r new-IsQueued id h in (q, nonempty s.tasks id q)
