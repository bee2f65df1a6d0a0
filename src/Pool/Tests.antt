-- ===== src/Pool/Tests.antt =====
-- Runs of the thread pool, and the theorems at small pools.
use just_kit.Prelude.{
  ℕ, ◌≡◌, ◌↔◌, refl, true, false, List, [], ◌∷◌, none, some, arith, get_elem?, ok, ◌>>=◌, Returns,
}
use just_kit.Pool.{
  Task, starting, testing, waiting, calling, finishing, Pool, Call, called, finished, Event, works,
  wakes, pushes, new, spawn, spawn_one, make_pool, is_ready, take_task, act, worker_step,
  wake_first, signal, wake, push, tell_exit, free_tasks, step, run, minus_one,
}
use just_kit.Pool.Sums.{sum}
use just_kit.Pool.Tasks.{run-Conserved}
use just_kit.Pool.Weights.{Conserved}
use just_kit.Pool.Wakeups.{Watched, run-Watched}
use just_kit.Pool.Schedules.{Leaves}
use just_kit.Pool.Start.{unstarted, failures, new-is_ready}

-- What the tests compute with.
program : Unit {0}
unfolding new spawn spawn_one make_pool is_ready take_task act worker_step wake_first signal wake
    push tell_exit free_tasks step run
program = tt

abbrev task : ℕ → Task
task n = record { call = 1; arg = n; finish = n }

-- Two workers, of whom the second one sleeps, and one task that waits.
abbrev sample : Pool
sample = record {
  wait_tasks = task 5 ∷ [];
  task_nums = 1;
  wait_threads = 0;
  quit_flag = false;
  workers = testing ∷ (waiting ∷ []);
}

abbrev schedule : List Event
schedule = works 0 ∷ (pushes true 0 (task 7) ∷ (works 1 ∷ (works 0 ∷ (works 1 ∷ (works 0 ∷ [])))))

abbrev outcome : List Call × Pool
outcome = (
  called (task 5) ∷ (called (task 7) ∷ (finished (task 5) ∷ [])),
  record {
    wait_tasks = [];
    task_nums = 0;
    wait_threads = 0;
    quit_flag = false;
    workers = testing ∷ (finishing (task 7) ∷ []);
  },
)

run-sample : run schedule sample ≡ ok outcome
unfolding program
run-sample = refl

-- The task that was pushed last is taken first.
abbrev two_pushed : List Event
two_pushed = pushes true 1 (task 1) ∷ (pushes true 1 (task 2) ∷ (works 0 ∷ []))

last_first :
    (run two_pushed sample >>= λ (r : List Call × Pool). ok (get_elem? r.1.workers 0))
    ≡ ok (some (calling (task 2)))
unfolding program
last_first = refl

-- The code -1, which `pthread_create` does not return, is the one that is looked for.
error_code : new true true (0 ∷ (minus_one ∷ [])) ≡ none
unfolding program
error_code = refl

run-Conserved_example : Returns (Conserved (task 7 ∷ []) sample) (run schedule sample)
run-Conserved_example = run-Conserved schedule sample refl (omega arith)

sample-Watched : Watched sample
sample-Watched = record {
  runs = refl;
  none_gone = refl;
  some_workers = omega arith;
  watched = λ more. omega arith;
}

run-Watched_example : Returns (Leaves Watched) (run schedule sample)
run-Watched_example = run-Watched schedule sample sample-Watched refl (omega arith)

-- Of two threads the second one was not made.
abbrev halved : Pool
halved = record {
  wait_tasks = [];
  task_nums = 0;
  wait_threads = 2;
  quit_flag = false;
  workers = starting ∷ [];
}

halved_made : new true true (0 ∷ (11 ∷ [])) ≡ some halved
unfolding program
halved_made = refl

new-is_ready_example :
    Returns
      (λ r.
        (is_ready r.1 ≡ true) ↔ ((sum unstarted r.1.workers ≡ 0) × (failures (0 ∷ (11 ∷ [])) ≡ 0)))
      (run (works 0 ∷ []) halved)
new-is_ready_example =
    new-is_ready true true (0 ∷ (11 ∷ [])) halved (works 0 ∷ []) halved_made (omega arith)

-- Two workers in turn, with a wake-up in between.
abbrev fair_schedule : List Event
fair_schedule = works 1 ∷ works 0 ∷ works 0 ∷ wakes 1 ∷ works 1 ∷ works 0 ∷ works 1 ∷ []
