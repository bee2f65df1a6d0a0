-- ===== src/Pool/Start.antt =====
-- The wait of `jk_thread_pool_new` for its threads.
use mathlib.Core.Path.{subst}
use mathlib.Core.Option.{some-injective}
use just_kit.Prelude.{
  ℕ, suc, ◌+◌, ◌-◌, ◌^◌, ◌<◌, ◌≡◌, refl, sym, ap, Bool, true, false, List, [], ◌∷◌, Option, none,
  some, arith, get_elem?, length, ltb, ◌==◌, ==_iff, if◌then◌else◌, ok, IfOk, IfOk-bind, IfOk-if,
  Returns, Returns-map, Returns-IfOk, ◌↔◌,
}
use just_kit.Pool.{
  Task, Place, starting, testing, waiting, exited, calling, finishing, awake, Pool, Event, works,
  wakes, pushes, move_to, take_task, act, act_at, wake_at, worker_step, wake, push, step, run, new,
  spawn, spawn_one, make_pool, is_ready, minus_one,
}
use just_kit.Pool.Sums.{sum, sum-set, sum-signal, f-awake}
use just_kit.Pool.Schedules.{Leaves, run-Leaves}
use just_kit.Pool.Tasks.{run-Conserved}
use just_kit.Pool.Weights.{Counted, Conserved, pushed}

-- A worker that has not reported.
abbrev pub unstarted : Place → ℕ
unstarted starting = 1
unstarted testing = 0
unstarted waiting = 0
unstarted exited = 0
unstarted (calling task) = 0
unstarted (finishing task) = 0

-- The pool waits for the workers that have not reported, and for `missing` more.
abbrev pub Awaits : ℕ → Pool → Type 0
Awaits missing p = p.wait_threads ≡ sum unstarted p.workers + missing

module _ (missing : ℕ) (p : Pool) (v : Awaits missing p) (i : ℕ) where
  moves :
      (place next : Place) (tasks : List Task) (nums : ℕ)
      → get_elem? p.workers i ≡ some place
      → unstarted place ≡ unstarted next
      → Awaits missing (move_to i next (record p { wait_tasks = tasks; task_nums = nums }))
  moves place next tasks nums here u =
      omega (arith, v, u, sum-set unstarted p.workers i place next here)

  take_task-Awaits :
      (quits none_left : Bool) (tasks : List Task)
      → get_elem? p.workers i ≡ some testing
      → IfOk (Awaits missing) (take_task i p quits none_left tasks)
  unfolding take_task
  take_task-Awaits true none_left tasks here =
      moves testing exited p.wait_tasks p.task_nums here refl
  take_task-Awaits false true tasks here = moves testing waiting p.wait_tasks p.task_nums here refl
  take_task-Awaits false false [] here = tt
  take_task-Awaits false false (task ∷ rest) here =
      moves testing (calling task) rest (p.task_nums - 1) here refl

  act-Awaits :
      (place : Place)
      → get_elem? p.workers i ≡ some place
      → IfOk (Leaves (Awaits missing)) (act i place p)
  unfolding act
  act-Awaits starting here = omega (arith, v, sum-set unstarted p.workers i starting testing here)
  act-Awaits testing here =
      IfOk-bind (Awaits missing) (Leaves (Awaits missing))
        (take_task i p p.quit_flag (p.task_nums == 0) p.wait_tasks) (λ p'. ok ([], p'))
        (take_task-Awaits p.quit_flag (p.task_nums == 0) p.wait_tasks here) λ p' w. w
  act-Awaits waiting here = v
  act-Awaits exited here = v
  act-Awaits (calling task) here =
      moves (calling task) (finishing task) p.wait_tasks p.task_nums here refl
  act-Awaits (finishing task) here =
      moves (finishing task) testing p.wait_tasks p.task_nums here refl

  worker_step-Awaits : IfOk (Leaves (Awaits missing)) (worker_step i p)
  unfolding worker_step
  worker_step-Awaits = at (get_elem? p.workers i) refl
    where
      at :
          (o : Option Place)
          → get_elem? p.workers i ≡ o
          → IfOk (Leaves (Awaits missing)) (act_at i o p)
      at none e = v
      at (some place) e = act-Awaits place e

  wake-Awaits : Awaits missing (wake i p)
  unfolding wake
  wake-Awaits = at (get_elem? p.workers i) refl
    where
      at : (o : Option Place) → get_elem? p.workers i ≡ o → Awaits missing (wake_at i o p)
      at none e = v
      at (some place) e =
          moves place (awake place) p.wait_tasks p.task_nums e (sym (f-awake unstarted refl place))

push-Awaits :
    (missing : ℕ) (p : Pool) (malloc_works : Bool) (preferred : ℕ) (task : Task)
    → Awaits missing p
    → IfOk (λ (r : Bool × Pool). Awaits missing r.1) (push malloc_works preferred task p)
unfolding push
push-Awaits missing p false preferred task v = v
push-Awaits missing p true preferred task v =
    IfOk-if (λ (r : Bool × Pool). Awaits missing r.1) (ltb (p.task_nums + 1) (2 ^ 31)) _
      (omega (arith, v, sum-signal unstarted refl preferred p.workers))

step-Awaits :
    (missing : ℕ) (e : Event) (p : Pool)
    → Awaits missing p
    → IfOk (Leaves (Awaits missing)) (step e p)
unfolding step
step-Awaits missing (works i) p v = worker_step-Awaits missing p v i
step-Awaits missing (wakes i) p v = wake-Awaits missing p v i
step-Awaits missing (pushes malloc_works preferred task) p v =
    IfOk-bind (λ (r : Bool × Pool). Awaits missing r.1) (Leaves (Awaits missing))
      (push malloc_works preferred task p) (λ r. ok ([], r.1))
      (push-Awaits missing p malloc_works preferred task v) λ r w. w

-- The threads that `pthread_create` did not make.
abbrev pub failures : List ℕ → ℕ
failures [] = 0
failures (code ∷ codes) = (if code == 0 then 0 else 1) + failures codes

spawn_one-unstarted :
    (n k : ℕ) (is_error is_zero : Bool) (others : Option (List Place)) (ws : List Place)
    → spawn_one is_error is_zero others ≡ some ws
    → ((us : List Place) → others ≡ some us → n ≡ sum unstarted us + k)
    → suc n ≡ sum unstarted ws + ((if is_zero then 0 else 1) + k)
unfolding spawn_one
spawn_one-unstarted n k true is_zero others ws h ih = cc
spawn_one-unstarted n k false is_zero none ws h ih = cc
spawn_one-unstarted n k false true (some us) ws h ih =
    omega (arith, ih us refl, ap (sum unstarted) (some-injective (starting ∷ us) ws h))
spawn_one-unstarted n k false false (some us) ws h ih =
    omega (arith, ih us refl, ap (sum unstarted) (some-injective us ws h))

spawn-unstarted :
    (codes : List ℕ) (ws : List Place)
    → spawn codes ≡ some ws
    → length codes ≡ sum unstarted ws + failures codes
unfolding spawn
spawn-unstarted [] ws h = omega (arith, ap (sum unstarted) (some-injective [] ws h))
spawn-unstarted (code ∷ codes) ws h =
    spawn_one-unstarted (length codes) (failures codes) (code == minus_one) (code == 0)
      (spawn codes) ws h (spawn-unstarted codes)

-- A pool without tasks.
abbrev Fresh : ℕ → Pool → Type 0
Fresh missing p = Awaits missing p × Counted p × (p.task_nums ≡ 0)

make_pool-Fresh :
    (malloc_works tids_work : Bool) (n missing : ℕ) (threads : Option (List Place)) (p : Pool)
    → make_pool malloc_works tids_work n threads ≡ some p
    → ((ws : List Place) → threads ≡ some ws → n ≡ sum unstarted ws + missing)
    → Fresh missing p
unfolding make_pool
make_pool-Fresh false tids_work n missing threads p h k = cc
make_pool-Fresh true false n missing threads p h k = cc
make_pool-Fresh true true n missing none p h k = cc
make_pool-Fresh true true n missing (some ws) p h k =
    subst (Fresh missing) (some-injective _ p h) (k ws refl, refl, refl)

new-Fresh :
    (malloc_works tids_work : Bool) (codes : List ℕ) (p : Pool)
    → new malloc_works tids_work codes ≡ some p
    → Fresh (failures codes) p
unfolding new
new-Fresh malloc_works tids_work codes p h =
    make_pool-Fresh malloc_works tids_work (length codes) (failures codes) (spawn codes) p h
      (spawn-unstarted codes)

zero_iff : (a b c : ℕ) → a ≡ b + c → ((a == 0) ≡ true) ↔ ((b ≡ 0) × (c ≡ 0))
zero_iff a b c h = (
  λ e. let z = (==_iff a 0).0 e in (omega arith, omega arith),
  λ (e, f). (==_iff a 0).1 (omega arith),
)

-- In the pool that `jk_thread_pool_new` makes, after any schedule that pushes fewer than 2^31
-- tasks, its wait is over if and only if every thread that was made has reported and no
-- `pthread_create` has failed: where one fails with a code other than -1 it never ends.
pub new-is_ready :
    (malloc_works tids_work : Bool) (codes : List ℕ) (p : Pool) (es : List Event)
    → new malloc_works tids_work codes ≡ some p
    → length (pushed es) < 2 ^ 31
    → Returns
        (λ r. (is_ready r.1 ≡ true) ↔ ((sum unstarted r.1.workers ≡ 0) × (failures codes ≡ 0)))
        (run es p)
unfolding is_ready
new-is_ready malloc_works tids_work codes p es h small =
    let (v, counted, none_yet) = new-Fresh malloc_works tids_work codes p h in
    Returns-map
      (Returns-IfOk (Conserved (pushed es) p) (Leaves (Awaits (failures codes))) (run es p)
        (run-Conserved es p counted (omega arith))
        (run-Leaves (Awaits (failures codes)) (step-Awaits (failures codes)) es p v))
      λ r s. zero_iff r.1.wait_threads (sum unstarted r.1.workers) (failures codes) s.1
