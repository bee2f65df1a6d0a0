-- ===== src/Pool/Weights.antt =====
-- Weights of tasks, and what a schedule does to them.
use just_kit.Prelude.{
  ℕ, ◌+◌, ◌≤◌, ◌≡◌, true, false, List, [], ◌∷◌, ◌++◌, arith, length, ◌==◌, if◌then◌else◌,
}
use just_kit.Pool.{
  Task, Place, starting, testing, waiting, exited, calling, finishing, Pool, Call, called, finished,
  Event, works, wakes, pushes,
}
use just_kit.Pool.Sums.{sum}

-- A weight of tasks, such as 1 for one of them and 0 for the others.
abbrev pub Weight : Type 0
Weight = Task → ℕ

abbrev pub total : Weight → List Task → ℕ
total w [] = 0
total w (task ∷ tasks) = w task + total w tasks

-- Tasks that a worker has taken and not called, and those that it has called.
abbrev pub taken : Weight → Place → ℕ
taken w starting = 0
taken w testing = 0
taken w waiting = 0
taken w exited = 0
taken w (calling task) = w task
taken w (finishing task) = 0

abbrev pub ending : Weight → Place → ℕ
ending w starting = 0
ending w testing = 0
ending w waiting = 0
ending w exited = 0
ending w (calling task) = 0
ending w (finishing task) = w task

-- The weights of the calls of tasks, and of those of their `finish`.
abbrev pub calls : Weight → List Call → ℕ
calls w [] = 0
calls w (called task ∷ log) = w task + calls w log
calls w (finished task ∷ log) = calls w log

abbrev pub finishes : Weight → List Call → ℕ
finishes w [] = 0
finishes w (called task ∷ log) = finishes w log
finishes w (finished task ∷ log) = w task + finishes w log

-- Only the tasks with a `finish`.
abbrev pub with_finish : Weight → Weight
with_finish w task = if task.finish == 0 then 0 else w task

pub calls-with_finish-le : (v : Weight) (log : List Call) → calls (with_finish v) log ≤ calls v log
calls-with_finish-le v [] = omega arith
calls-with_finish-le v (called task ∷ log) = ground (arith, calls-with_finish-le v log)
calls-with_finish-le v (finished task ∷ log) = calls-with_finish-le v log

-- The tasks that a schedule pushes.
abbrev pub pushed_by : Event → List Task
pushed_by (works i) = []
pushed_by (wakes i) = []
pushed_by (pushes true preferred task) = task ∷ []
pushed_by (pushes false preferred task) = []

abbrev pub pushed : List Event → List Task
pushed [] = []
pushed (e ∷ es) = pushed_by e ++ pushed es

-- The tasks that wait or are taken.
abbrev pub load : Weight → Pool → ℕ
load w p = total w p.wait_tasks + sum (taken w) p.workers

abbrev pub Counted : Pool → Type 0
Counted p = p.task_nums ≡ length p.wait_tasks

-- What became of the tasks `new` and of those in the pool `p`, given the calls that were made.
pub record Conserved (new : List Task) (p : Pool) (r : List Call × Pool) : Type 0 where
  pub counted : Counted r.1
  pub fewer : r.1.task_nums ≤ p.task_nums + length new
  pub tasks : (w : Weight) → load w r.1 + calls w r.0 ≡ load w p + total w new
  pub ends :
      (w : Weight)
      → sum (ending (with_finish w)) r.1.workers + finishes w r.0
        ≡ sum (ending (with_finish w)) p.workers + calls (with_finish w) r.0
