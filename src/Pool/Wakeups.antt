-- ===== src/Pool/Wakeups.antt =====
-- No signal is lost: tasks that wait never wait for workers that all sleep.
use mathlib.Core.Path.{subst}
use just_kit.Prelude.{
  ℕ, ◌+◌, ◌-◌, ◌^◌, ◌<◌, ◌≤◌, ◌≡◌, refl, sym, ap, Bool, true, false, List, [], ◌∷◌, Option, none,
  some, arith, get_elem?, set, length, ltb, ◌==◌, ==_iff, Bool-cases, Option-cases, inl, inr, ok,
  Returns, Returns-map, IfOk, IfOk-bind, IfOk-if, Returns-IfOk,
}
use just_kit.Pool.{
  Task, Place, starting, testing, waiting, exited, calling, finishing, wake_first, signal, Pool,
  Event, works, wakes, pushes, move_to, take_task, act, act_at, wake_at, worker_step, wake, push,
  step, run, is_waiting,
}
use just_kit.Pool.Sums.{sum, sum-set, sum-signal, waiting_is}
use just_kit.Pool.Schedules.{Leaves, run-Leaves}
use just_kit.Pool.Tasks.{run-Conserved}
use just_kit.Pool.Weights.{Counted, Conserved, pushed}

-- A worker that will look at the queue again.
abbrev pub up : Place → ℕ
up starting = 1
up testing = 1
up waiting = 0
up exited = 0
up (calling task) = 1
up (finishing task) = 1

abbrev pub gone : Place → ℕ
gone starting = 0
gone testing = 0
gone waiting = 0
gone exited = 1
gone (calling task) = 0
gone (finishing task) = 0

abbrev pub one : Place → ℕ
one place = 1

-- Nobody has exited, and where tasks wait a worker is up.
pub record Watched (p : Pool) : Type 0 where
  pub runs : p.quit_flag ≡ false
  pub none_gone : sum gone p.workers ≡ 0
  pub some_workers : 0 < sum one p.workers
  pub watched : 0 < p.task_nums → 0 < sum up p.workers

wake_first-up : (ws : List Place) → sum gone ws ≡ 0 → 0 < sum one ws → 0 < sum up (wake_first ws)
unfolding wake_first
wake_first-up [] h k = k
wake_first-up (starting ∷ ws) h k = omega arith
wake_first-up (testing ∷ ws) h k = omega arith
wake_first-up (waiting ∷ ws) h k = omega arith
wake_first-up (exited ∷ ws) h k = absurd (omega arith)
wake_first-up (calling task ∷ ws) h k = omega arith
wake_first-up (finishing task ∷ ws) h k = omega arith

signal-up :
    (preferred : ℕ) (ws : List Place)
    → sum gone ws ≡ 0
    → 0 < sum one ws
    → 0 < sum up (signal preferred ws)
unfolding signal
signal-up preferred ws h k = elim (Option-cases (get_elem? ws preferred)) [
  | inl e ↦ rw (e, signal) (wake_first-up ws h k)
  | inr (place, e) ↦
      rw (e, signal)
        (elim (Bool-cases (is_waiting place)) [
          | inl w ↦
              rw w
                (omega (arith, sum-set up ws preferred place testing e, ap up (waiting_is place w)))
          | inr w ↦ rw w (wake_first-up ws h k)
        ])
]

module _ (p : Pool) (v : Watched p) (i : ℕ) where
  moves :
      (place next : Place) (tasks : List Task) (nums n : ℕ)
      → get_elem? p.workers i ≡ some place
      → gone place ≡ gone next
      → (0 < nums → 0 < sum up (set p.workers i next))
      → Watched
          (move_to i next (record p { wait_tasks = tasks; task_nums = nums; wait_threads = n }))
  moves place next tasks nums n here g w = record {
    runs = v.runs;
    none_gone = omega (arith, sum-set gone p.workers i place next here, v.none_gone);
    some_workers = omega (arith, sum-set one p.workers i place next here, v.some_workers);
    watched = w;
  }

  -- A worker that stays up or comes up.
  rises :
      (place next : Place) (n : ℕ)
      → get_elem? p.workers i ≡ some place
      → gone place ≡ gone next
      → up place ≤ up next
      → Watched (move_to i next (record p { wait_threads = n }))
  rises place next n here g u =
      moves place next p.wait_tasks p.task_nums n here g
        λ more. omega (arith, v.watched more, sum-set up p.workers i place next here)

  take_task-Watched :
      (none_left : Bool) (tasks : List Task)
      → (p.task_nums == 0) ≡ none_left
      → get_elem? p.workers i ≡ some testing
      → IfOk Watched (take_task i p false none_left tasks)
  unfolding take_task
  take_task-Watched true tasks n here =
      let zero_left = (==_iff p.task_nums 0).0 n in
      moves testing waiting p.wait_tasks p.task_nums p.wait_threads here refl
        λ more. absurd (omega arith)
  take_task-Watched false [] n here = tt
  take_task-Watched false (task ∷ rest) n here =
      moves testing (calling task) rest (p.task_nums - 1) p.wait_threads here refl
        λ more. omega (arith, sum-set up p.workers i testing (calling task) here)

  act-Watched :
      (place : Place) → get_elem? p.workers i ≡ some place → IfOk (Leaves Watched) (act i place p)
  unfolding act
  act-Watched starting here = rises starting testing (p.wait_threads - 1) here refl (omega arith)
  act-Watched testing here =
      IfOk-bind Watched (Leaves Watched) (take_task i p p.quit_flag (p.task_nums == 0) p.wait_tasks)
        (λ p'. ok ([], p'))
        (subst (λ b. IfOk Watched (take_task i p b (p.task_nums == 0) p.wait_tasks)) (sym v.runs)
          (take_task-Watched (p.task_nums == 0) p.wait_tasks refl here))
        λ p' w. w
  act-Watched waiting here = v
  act-Watched exited here = v
  act-Watched (calling task) here =
      rises (calling task) (finishing task) p.wait_threads here refl (omega arith)
  act-Watched (finishing task) here =
      rises (finishing task) testing p.wait_threads here refl (omega arith)

  worker_step-Watched : IfOk (Leaves Watched) (worker_step i p)
  unfolding worker_step
  worker_step-Watched = at (get_elem? p.workers i) refl
    where
      at : (o : Option Place) → get_elem? p.workers i ≡ o → IfOk (Leaves Watched) (act_at i o p)
      at none e = v
      at (some place) e = act-Watched place e

  wake-Watched : Watched (wake i p)
  unfolding wake
  wake-Watched = at (get_elem? p.workers i) refl
    where
      at : (o : Option Place) → get_elem? p.workers i ≡ o → Watched (wake_at i o p)
      at none e = v
      at (some starting) e = rises starting starting p.wait_threads e refl (omega arith)
      at (some testing) e = rises testing testing p.wait_threads e refl (omega arith)
      at (some waiting) e = rises waiting testing p.wait_threads e refl (omega arith)
      at (some exited) e = rises exited exited p.wait_threads e refl (omega arith)
      at (some (calling task)) e =
          rises (calling task) (calling task) p.wait_threads e refl (omega arith)
      at (some (finishing task)) e =
          rises (finishing task) (finishing task) p.wait_threads e refl (omega arith)

push-Watched :
    (p : Pool) (malloc_works : Bool) (preferred : ℕ) (task : Task)
    → Watched p
    → IfOk (λ (r : Bool × Pool). Watched r.1) (push malloc_works preferred task p)
unfolding push
push-Watched p false preferred task v = v
push-Watched p true preferred task v =
    IfOk-if (λ (r : Bool × Pool). Watched r.1) (ltb (p.task_nums + 1) (2 ^ 31)) _
      (record {
        runs = v.runs;
        none_gone = omega (arith, sum-signal gone refl preferred p.workers, v.none_gone);
        some_workers = omega (arith, sum-signal one refl preferred p.workers, v.some_workers);
        watched = λ more. signal-up preferred p.workers v.none_gone v.some_workers;
      })

step-Watched : (e : Event) (p : Pool) → Watched p → IfOk (Leaves Watched) (step e p)
unfolding step
step-Watched (works i) p v = worker_step-Watched p v i
step-Watched (wakes i) p v = wake-Watched p v i
step-Watched (pushes malloc_works preferred task) p v =
    IfOk-bind (λ (r : Bool × Pool). Watched r.1) (Leaves Watched)
      (push malloc_works preferred task p) (λ r. ok ([], r.1))
      (push-Watched p malloc_works preferred task v) λ r w. w

-- No signal is lost: from a pool that is not told to exit, that has workers, of whom none has
-- exited, in which `task_nums` is the length of the queue, and in which some worker does not wait
-- if there are tasks, no schedule with fewer than 2^31 tasks in all faults; in the end no worker
-- has exited and, if there are tasks, some worker does not wait.
pub run-Watched :
    (es : List Event) (p : Pool)
    → Watched p
    → Counted p
    → p.task_nums + length (pushed es) < 2 ^ 31
    → Returns (Leaves Watched) (run es p)
run-Watched es p v counted small =
    Returns-map
      (Returns-IfOk (Conserved (pushed es) p) (Leaves Watched) (run es p)
        (run-Conserved es p counted small) (run-Leaves Watched step-Watched es p v))
      λ r h. h.1
