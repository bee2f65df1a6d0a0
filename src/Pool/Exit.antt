-- ===== src/Pool/Exit.antt =====
-- The end of the workers, for which `jk_thread_pool_destroy` waits.
use just_kit.Prelude.{ℕ, ◌+◌, ◌≤◌, ◌≡◌, List, [], ◌∷◌, Option, some, get_elem?, ◌==◌, if◌then◌else◌}
use just_kit.Pool.{
  Place, starting, testing, waiting, exited, calling, finishing, Pool, Call, Event, works, wakes,
  pushes,
}
use just_kit.Pool.Ends.{NotWaiting}

-- How often worker `j` steps in a schedule.
abbrev pub turns_of : ℕ → List Event → ℕ
turns_of j [] = 0
turns_of j (works i ∷ es) = if i == j then turns_of j es + 1 else turns_of j es
turns_of j (wakes i ∷ es) = turns_of j es
turns_of j (pushes malloc_works preferred task ∷ es) = turns_of j es

-- No call of `jk_thread_pool_push`.
abbrev pub NonePushed : List Event → Type 0
NonePushed [] = Unit
NonePushed (works i ∷ es) = NonePushed es
NonePushed (wakes i ∷ es) = NonePushed es
NonePushed (pushes malloc_works preferred task ∷ es) = ⊥

-- The steps to the exit.
abbrev steps_left : Place → ℕ
steps_left starting = 2
steps_left testing = 1
steps_left waiting = 0
steps_left exited = 0
steps_left (calling task) = 3
steps_left (finishing task) = 2

-- No worker waits, and each of them has steps enough before it.
abbrev AllReach : List Event → List Place → Type 0
AllReach es ws =
    (j : ℕ) (place : Place)
    → get_elem? ws j ≡ some place
    → NotWaiting place × (steps_left place ≤ turns_of j es)

abbrev pub AllExited : List Place → Type 0
AllExited ws = (j : ℕ) (place : Place) → get_elem? ws j ≡ some place → place ≡ exited

-- All the workers have exited, and the queue is what it was.
record Ended (p : Pool) (r : List Call × Pool) : Type 0 where
  all : AllExited r.1.workers
  tasks : r.1.wait_tasks ≡ p.wait_tasks
  nums : r.1.task_nums ≡ p.task_nums
