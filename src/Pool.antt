-- ===== src/Pool.antt =====
-- jk_thread_pool.c and jk_thread_pool.h: the queue of tasks, and the workers as threads that make one
-- step each time they are scheduled.
-- What a thread does between taking a mutex and giving it back, or waiting on its condition, is one
-- step: all that the threads share is read and written there, but for what the last one does alone.
pub mod Sums
pub mod Schedules
pub mod Weights
pub mod Tasks
pub mod Start
pub mod Idle
pub mod Wakeups
pub mod Ends
pub mod Exit
mod Tests
use just_kit.Prelude.{
  ℕ, zero, suc, ◌+◌, ◌-◌, ◌^◌, Bool, true, false, ◌||◌, List, [], ◌∷◌, ◌++◌, map, Option, none,
  some, Run, ok, fault, ◌>>=◌, deref, get_elem?, set, length, ltb, ◌==◌, if◌then◌else◌,
}

-- `jk_thread_task_t`; a null `finish` is 0, and `next` is the rest of the queue.
pub record Task : Type 0 where
  pub call : ℕ
  pub arg : ℕ
  pub finish : ℕ

-- Where a worker is in `jk_thread_loop`: before it has reported, at the head of the loop, in
-- `pthread_cond_wait`, before it calls a task, before the task's `finish`, or past `pthread_exit`.
pub data Place : Type 0 where
  starting testing waiting exited : Place
  calling finishing : Task → Place

-- `jk_thread_pool_t`; its threads instead of their ids.
pub record Pool : Type 0 where
  pub wait_tasks : List Task
  pub task_nums : ℕ
  pub wait_threads : ℕ
  pub quit_flag : Bool
  pub workers : List Place

-- A call through a function pointer of a task.
pub data Call : Type 0 where
  called finished : Task → Call

-- `pthread_create` returns 0 or an error number, which is not negative; `jk_thread_pool_new` looks
-- for -1.
abbrev pub minus_one : ℕ
minus_one = 2 ^ 32 - 1

-- A round of the loop of `jk_thread_pool_new`: whether the code is -1, whether it is 0, and the
-- threads that the other rounds make.
pub spawn_one : (is_error is_zero : Bool) → Option (List Place) → Option (List Place)
spawn_one true is_zero others = none
spawn_one false is_zero none = none
spawn_one false true (some ws) = some (starting ∷ ws)
spawn_one false false (some ws) = some ws

-- The loop, given what the calls of `pthread_create` return.
pub spawn : List ℕ → Option (List Place)
spawn [] = some []
spawn (code ∷ codes) = spawn_one (code == minus_one) (code == 0) (spawn codes)

pub make_pool : (malloc_works tids_work : Bool) → ℕ → Option (List Place) → Option Pool
make_pool false tids_work thread_nums ws = none
make_pool true false thread_nums ws = none
make_pool true true thread_nums none = none
make_pool true true thread_nums (some ws) = some (record {
  wait_tasks = [];
  task_nums = 0;
  wait_threads = thread_nums;
  quit_flag = false;
  workers = ws;
})

-- `jk_thread_pool_new` up to the wait for its threads, given whether malloc works for the struct and
-- for the ids.
pub new : (malloc_works tids_work : Bool) → List ℕ → Option Pool
new malloc_works tids_work codes = make_pool malloc_works tids_work (length codes) (spawn codes)

-- The test of its wait: whether `jk_thread_pool_new` returns.
pub is_ready : Pool → Bool
is_ready p = p.wait_threads == 0

abbrev pub move_to : ℕ → Place → Pool → Pool
move_to i place p = record p { workers = set p.workers i place }

-- A worker at the head of its loop, under the lock: it exits if the pool is to end, waits if there is
-- no task by `task_nums`, and takes the first task otherwise.
unfoldable pub take_task : ℕ → Pool → (quits none_left : Bool) → List Task → Run Pool
take_task i p true none_left tasks = ok (move_to i exited p)
take_task i p false true tasks = ok (move_to i waiting p)
take_task i p false false [] = fault
take_task i p false false (task ∷ rest) =
    ok (move_to i (calling task) (record p { wait_tasks = rest; task_nums = p.task_nums - 1 }))

-- The step of worker `i` that its place says, and the call that it makes.  A worker that waits or has
-- exited makes no step.
unfoldable pub act : ℕ → Place → Pool → Run (List Call × Pool)
act i starting p = ok ([], move_to i testing (record p { wait_threads = p.wait_threads - 1 }))
act i testing p = take_task i p p.quit_flag (p.task_nums == 0) p.wait_tasks >>= λ p'. ok ([], p')
act i waiting p = ok ([], p)
act i exited p = ok ([], p)
act i (calling task) p = ok (called task ∷ [], move_to i (finishing task) p)
act i (finishing task) p =
    ok (if task.finish == 0 then [] else finished task ∷ [], move_to i testing p)

abbrev pub act_at : ℕ → Option Place → Pool → Run (List Call × Pool)
act_at i none p = ok ([], p)
act_at i (some place) p = act i place p

-- A step of worker `i`, if there is one.
unfoldable pub worker_step : ℕ → Pool → Run (List Call × Pool)
worker_step i p = act_at i (get_elem? p.workers i) p

abbrev pub awake : Place → Place
awake starting = starting
awake testing = testing
awake waiting = testing
awake exited = exited
awake (calling task) = calling task
awake (finishing task) = finishing task

abbrev pub is_waiting : Place → Bool
is_waiting waiting = true
is_waiting starting = false
is_waiting testing = false
is_waiting exited = false
is_waiting (calling task) = false
is_waiting (finishing task) = false

unfoldable pub wake_first : List Place → List Place
wake_first [] = []
wake_first (place ∷ ws) = if is_waiting place then testing ∷ ws else place ∷ wake_first ws

-- `pthread_cond_signal`: a worker that waits is woken, if there is one.  The system prefers one.
unfoldable pub signal : ℕ → List Place → List Place
signal preferred ws = elim (get_elem? ws preferred) [
  | none ↦ wake_first ws
  | some place ↦ if is_waiting place then set ws preferred testing else wake_first ws
]

abbrev pub wake_at : ℕ → Option Place → Pool → Pool
wake_at i none p = p
wake_at i (some place) p = move_to i (awake place) p

-- `pthread_cond_wait` may return without a signal.
pub wake : ℕ → Pool → Pool
wake i p = wake_at i (get_elem? p.workers i) p

-- `jk_thread_pool_push`, given whether malloc works: 0 and -1 are `true` and `false`.
unfoldable pub push : Bool → ℕ → Task → Pool → Run (Bool × Pool)
push false preferred task p = ok (false, p)
push true preferred task p =
    if ltb (p.task_nums + 1) (2 ^ 31)
    then ok (
      true,
      record p {
        wait_tasks = task ∷ p.wait_tasks;
        task_nums = p.task_nums + 1;
        workers = signal preferred p.workers;
      },
    )
    else fault

-- The first part of `jk_thread_pool_destroy`.
pub tell_exit : Pool → Pool
tell_exit p = record p { quit_flag = true; workers = map awake p.workers }

-- The loop at its end, which frees the remaining tasks.
pub free_tasks : List Task → ℕ → ℕ
free_tasks [] task_nums = task_nums
free_tasks (task ∷ tasks) task_nums = free_tasks tasks (task_nums - 1)

-- What the scheduler does next: a step of a worker, a wake-up without a signal, or a call of
-- `jk_thread_pool_push` by any thread.
pub data Event : Type 0 where
  works wakes : ℕ → Event
  pushes : Bool → ℕ → Task → Event

pub step : Event → Pool → Run (List Call × Pool)
step (works i) p = worker_step i p
step (wakes i) p = ok ([], wake i p)
step (pushes malloc_works preferred task) p =
    push malloc_works preferred task p >>= λ r. ok ([], r.1)

-- A schedule, with the calls that were made, in turn.
pub run : List Event → Pool → Run (List Call × Pool)
run [] p = ok ([], p)
run (e ∷ es) p = step e p >>= λ (r : List Call × Pool).
    run es r.1 >>= λ (q : List Call × Pool). ok (r.0 ++ q.0, q.1)
