-- ===== src/Scheduler.antt =====
-- The scheduler of Core/Async/Scheduler.cpp: tasks with a time, run by one thread. Each operation
-- stands for what is done in one hold of the lock, or outside of it. Times are numbers of the system
-- clock, and a function is a handle.
pub mod Steps
pub mod Waits
pub mod Progress
use recap_server.Prelude.{
  ℕ, ◌+◌, ◌%◌, Bool, true, false, not, ◌&&◌, ◌||◌, List, [], ◌∷◌, ◌++◌, Option, none, some, ◌==◌,
  leb, if◌then◌else◌, get_elem?, ◌>>=◌,
}
use recap_server.Prelude.Bytes.{u32_mod}

pub record Task : Type 0 where
  pub execution_point : ℕ
  pub function : ℕ
  pub id : ℕ

-- Where the scheduler's thread is: between two rounds, in `wait_until` for a time, or with a task
-- that it has taken off the queue at a time, the lock released, and has not run to its end.
pub data Phase : Type 0 where
  between : Phase
  waiting : ℕ → Phase
  running : Task → ℕ → Phase

-- `last_ids` is the `thread_local` counter of each thread that adds tasks; `ran` are the tasks that
-- ran to their end, with the time at which they were taken, the last one first.
pub record Scheduler : Type 0 where
  pub tasks : List Task
  pub task_ids : List ℕ
  pub stopped : Bool
  pub last_ids : ℕ → ℕ
  pub phase : Phase
  pub ran : List (Task × ℕ)

abbrev pub new : Scheduler
new = record {
  tasks = [];
  task_ids = [];
  stopped = false;
  last_ids = λ thread. 0;
  phase = between;
  ran = [];
}

-- `std::unordered_set::find`, `insert` and `erase`.
unfoldable pub contains : ℕ → List ℕ → Bool
contains id [] = false
contains id (i ∷ ids) = i == id || contains id ids

unfoldable pub insert : ℕ → List ℕ → List ℕ
unfolding contains
insert id ids = if contains id ids then ids else id ∷ ids

unfoldable pub erase : ℕ → List ℕ → List ℕ
erase id [] = []
erase id (i ∷ ids) = let rest = erase id ids in if i == id then rest else i ∷ rest

-- The next number of a thread; zero is left out.
unfoldable pub next_id : ℕ → ℕ
next_id last = let n = (last + 1) % u32_mod in if n == 0 then 1 else n

-- AddTask from a thread at a time.
unfoldable pub add_task : Scheduler → ℕ → ℕ → ℕ → ℕ → Scheduler × ℕ
unfolding next_id insert
add_task s thread now delay f =
    let id = next_id (s.last_ids thread) in
    if s.stopped then (s, 0) else (
      record s {
        tasks = record { execution_point = now + delay; function = f; id = id } ∷ s.tasks;
        task_ids = insert id s.task_ids;
        last_ids = λ t. if t == thread then id else s.last_ids t;
      },
      id,
    )

unfoldable pub cancel_task : Scheduler → ℕ → Scheduler
unfolding erase
cancel_task s id = if id == 0 then s else record s { task_ids = erase id s.task_ids }

-- Shutdown: `mState` is set before the lock is taken, and under the lock all tasks go.
unfoldable pub stop : Scheduler → Scheduler
stop s = record s { stopped = true }

unfoldable pub clear : Scheduler → Scheduler
clear s = record s { tasks = []; task_ids = [] }

unfoldable pub shutdown : Scheduler → Scheduler
unfolding stop clear
shutdown s = clear (stop s)

-- `priority_queue::pop` of the task at a place.
unfoldable pub remove_at : ℕ → List Task → List Task
remove_at i [] = []
remove_at Prim.Native.Nat.zero (t ∷ ts) = ts
remove_at (Prim.Native.Nat.suc i) (t ∷ ts) = t ∷ remove_at i ts

-- No task is earlier.
unfoldable pub is_top : Task → List Task → Bool
is_top t [] = true
is_top t (u ∷ us) = leb t.execution_point u.execution_point && is_top t us

-- The thread waits for the time of the task that is the top.
unfoldable pub wait : Scheduler → Task → Scheduler
wait s t = record s { phase = waiting t.execution_point }

-- The wait ends without a timeout.
unfoldable pub notify : Scheduler → Scheduler
notify s = record s { phase = between }

-- The wait has timed out, and a task at a place is the top of the queue; among tasks of one time the
-- queue may give any. The task is taken under the lock, where its number is live.
unfoldable pub fire : Scheduler → ℕ → Task → ℕ → Scheduler
unfolding contains erase remove_at
fire s now t i =
    if contains t.id s.task_ids
    then record s {
      tasks = remove_at i s.tasks;
      task_ids = erase t.id s.task_ids;
      phase = running t now;
    }
    else record s { tasks = remove_at i s.tasks; phase = between }

-- `mTasks.top()` of an empty queue is undefined.
unfoldable pub wake : Scheduler → ℕ → ℕ → Option Scheduler
unfolding fire
wake s now i = get_elem? s.tasks i >>= λ t. some (fire s now t i)

-- `(*task)()`, without the lock.
unfoldable pub run_task : Scheduler → Task → ℕ → Scheduler
run_task s t now = record s { phase = between; ran = (t, now) ∷ s.ran }

-- The tasks that were taken to run: the one at work, and those that ran.
unfoldable pub taken : Scheduler → List (Task × ℕ)
taken s = elim s.phase [ between ↦ s.ran | waiting d ↦ s.ran | running t now ↦ (t, now) ∷ s.ran ]
