-- ===== src/Pool/Tasks.antt =====
-- No schedule loses a task, makes one up or runs one twice.
use just_kit.Prelude.{
  ℕ, ◌+◌, ◌-◌, ◌^◌, ◌<◌, ◌≡◌, refl, sym, ap, ◌∙◌, Bool, true, false, List, [], ◌∷◌, ◌++◌, Option,
  none, some, arith, get_elem?, length, length-append, lt→ltb, ◌==◌, ==_iff, if◌then◌else◌, Returns,
  returns, Returns-bind,
}
use just_kit.Pool.{
  Task, Place, starting, testing, waiting, exited, calling, finishing, awake, Pool, Call, called,
  finished, Event, works, wakes, pushes, move_to, take_task, act, act_at, wake_at, worker_step,
  wake, push, step, run,
}
use just_kit.Pool.Sums.{sum-set, sum-signal, f-awake}
use just_kit.Pool.Weights.{
  Weight, total, taken, ending, calls, finishes, with_finish, pushed_by, pushed, Counted, Conserved,
}

calls_end :
    (w : Weight) (task : Task) (b : Bool) → calls w (if b then [] else finished task ∷ []) ≡ 0
calls_end w task true = refl
calls_end w task false = refl

finishes_end :
    (w : Weight) (task : Task) (b : Bool)
    → (task.finish == 0) ≡ b
    → finishes w (if b then [] else finished task ∷ []) ≡ with_finish w task
finishes_end w task true e = simp e refl
finishes_end w task false e = simp e (omega arith)

module _ (p : Pool) (counted : Counted p) (i : ℕ) where
  stays : Conserved [] p ([], p)
  stays = record {
    counted = counted;
    fewer = omega arith;
    tasks = λ w. omega arith;
    ends = λ w. omega arith;
  }

  -- A worker that goes elsewhere with no call.
  moves :
      (place next : Place) (n : ℕ)
      → get_elem? p.workers i ≡ some place
      → ((w : Weight) → taken w place ≡ taken w next)
      → ((w : Weight) → ending w place ≡ ending w next)
      → Conserved [] p ([], move_to i next (record p { wait_threads = n }))
  moves place next n here t e = record {
    counted = counted;
    fewer = omega arith;
    tasks = λ w. omega (arith, sum-set (taken w) p.workers i place next here, t w);
    ends = λ w.
        omega
          (arith, sum-set (ending (with_finish w)) p.workers i place next here, e (with_finish w));
  }

  takes :
      (task : Task) (rest : List Task)
      → get_elem? p.workers i ≡ some testing
      → p.wait_tasks ≡ task ∷ rest
      → Conserved [] p (
        [],
        move_to i (calling task) (record p { wait_tasks = rest; task_nums = p.task_nums - 1 }),
      )
  takes task rest here e = record {
    counted = omega (arith, counted, ap length e);
    fewer = omega arith;
    tasks = λ w.
        omega (arith, sum-set (taken w) p.workers i testing (calling task) here, ap (total w) e);
    ends = λ w.
        omega (arith, sum-set (ending (with_finish w)) p.workers i testing (calling task) here);
  }

  take_task-Conserved :
      (quits none_left : Bool) (tasks : List Task)
      → (p.task_nums == 0) ≡ none_left
      → p.wait_tasks ≡ tasks
      → get_elem? p.workers i ≡ some testing
      → Returns (λ p'. Conserved [] p ([], p')) (take_task i p quits none_left tasks)
  unfolding take_task
  take_task-Conserved true none_left tasks n e here =
      returns (moves testing exited p.wait_threads here (λ w. refl) (λ w. refl))
  take_task-Conserved false true tasks n e here =
      returns (moves testing waiting p.wait_threads here (λ w. refl) (λ w. refl))
  take_task-Conserved false false [] n e here =
      let zero_left = (==_iff p.task_nums 0).1 (counted ∙ ap length e) in cc
  take_task-Conserved false false (task ∷ rest) n e here = returns (takes task rest here e)

  act-Conserved :
      (place : Place)
      → get_elem? p.workers i ≡ some place
      → Returns (Conserved [] p) (act i place p)
  unfolding act
  act-Conserved starting here =
      returns (moves starting testing (p.wait_threads - 1) here (λ w. refl) (λ w. refl))
  act-Conserved testing here =
      Returns-bind (take_task-Conserved p.quit_flag (p.task_nums == 0) p.wait_tasks refl refl here)
        λ p' c. returns c
  act-Conserved waiting here = returns stays
  act-Conserved exited here = returns stays
  act-Conserved (calling task) here = returns (record {
    counted = counted;
    fewer = omega arith;
    tasks = λ w. omega (arith, sum-set (taken w) p.workers i (calling task) (finishing task) here);
    ends = λ w.
        omega (
          arith,
          sum-set (ending (with_finish w)) p.workers i (calling task) (finishing task) here,
        );
  })
  act-Conserved (finishing task) here = returns (record {
    counted = counted;
    fewer = omega arith;
    tasks = λ w. omega (
      arith,
      sum-set (taken w) p.workers i (finishing task) testing here,
      calls_end w task (task.finish == 0),
    );
    ends = λ w. omega (
      arith,
      sum-set (ending (with_finish w)) p.workers i (finishing task) testing here,
      calls_end (with_finish w) task (task.finish == 0),
      finishes_end w task (task.finish == 0) refl,
    );
  })

  pub worker_step-Conserved : Returns (Conserved [] p) (worker_step i p)
  unfolding worker_step
  worker_step-Conserved = at (get_elem? p.workers i) refl
    where
      at : (o : Option Place) → get_elem? p.workers i ≡ o → Returns (Conserved [] p) (act_at i o p)
      at none e = returns stays
      at (some place) e = act-Conserved place e

  pub wake-Conserved : Conserved [] p ([], wake i p)
  unfolding wake
  wake-Conserved = at (get_elem? p.workers i) refl
    where
      at : (o : Option Place) → get_elem? p.workers i ≡ o → Conserved [] p ([], wake_at i o p)
      at none e = stays
      at (some place) e =
          moves place (awake place) p.wait_threads e (λ w. sym (f-awake (taken w) refl place))
            (λ w. sym (f-awake (ending w) refl place))

pub push-Conserved :
    (p : Pool) (malloc_works : Bool) (preferred : ℕ) (task : Task)
    → Counted p
    → p.task_nums + 1 < 2 ^ 31
    → Returns
        (λ r.
          (r.0 ≡ malloc_works)
          × Conserved (pushed_by (pushes malloc_works preferred task)) p ([], r.1))
        (push malloc_works preferred task p)
unfolding push
push-Conserved p false preferred task counted small = returns (refl, stays p counted 0)
push-Conserved p true preferred task counted small =
    simp (lt→ltb (p.task_nums + 1) (2 ^ 31) small) (
      returns (
        refl,
        record {
          counted = omega (arith, counted);
          fewer = omega arith;
          tasks = λ w. omega (arith, sum-signal (taken w) refl preferred p.workers);
          ends = λ w. omega (arith, sum-signal (ending (with_finish w)) refl preferred p.workers);
        },
      ))

step-Conserved :
    (e : Event) (p : Pool)
    → Counted p
    → p.task_nums + length (pushed_by e) < 2 ^ 31
    → Returns (Conserved (pushed_by e) p) (step e p)
unfolding step push
step-Conserved (works i) p counted small = worker_step-Conserved p counted i
step-Conserved (wakes i) p counted small = returns (wake-Conserved p counted i)
step-Conserved (pushes true preferred task) p counted small =
    Returns-bind (push-Conserved p true preferred task counted (omega arith)) λ r c. returns c.1
step-Conserved (pushes false preferred task) p counted small = returns (stays p counted 0)

total-append : (w : Weight) (xs ys : List Task) → total w (xs ++ ys) ≡ total w xs + total w ys
total-append w [] ys = omega arith
total-append w (x ∷ xs) ys = omega (arith, total-append w xs ys)

calls-append : (w : Weight) (a b : List Call) → calls w (a ++ b) ≡ calls w a + calls w b
calls-append w [] b = omega arith
calls-append w (called task ∷ a) b = omega (arith, calls-append w a b)
calls-append w (finished task ∷ a) b = omega (arith, calls-append w a b)

finishes-append : (w : Weight) (a b : List Call) → finishes w (a ++ b) ≡ finishes w a + finishes w b
finishes-append w [] b = omega arith
finishes-append w (called task ∷ a) b = omega (arith, finishes-append w a b)
finishes-append w (finished task ∷ a) b = omega (arith, finishes-append w a b)

Conserved-trans :
    (new later : List Task) (p : Pool) (r q : List Call × Pool)
    → Conserved new p r
    → Conserved later r.1 q
    → Conserved (new ++ later) p (r.0 ++ q.0, q.1)
Conserved-trans new later p r q c d = record {
  counted = d.counted;
  fewer = omega (arith, c.fewer, d.fewer, length-append new later);
  tasks =
      λ w. omega (arith, c.tasks w, d.tasks w, calls-append w r.0 q.0, total-append w new later);
  ends = λ w.
      omega (
        arith,
        c.ends w,
        d.ends w,
        finishes-append w r.0 q.0,
        calls-append (with_finish w) r.0 q.0,
      );
}

-- From a pool in which `task_nums` is the length of the queue, no schedule of the steps of its
-- workers, wake-ups and calls of `jk_thread_pool_push`, fewer than 2^31 tasks in all, faults. In
-- the end `task_nums` is again the length of the queue and no more than it was with one for each
-- task that was pushed. For every weight of tasks, those that wait or are taken, and those that
-- were called, weigh what those that waited or were taken and the pushed ones weighed before: none
-- is lost, made up or called twice. So do the tasks with a `finish` between their call and that of
-- their `finish`.
pub run-Conserved :
    (es : List Event) (p : Pool)
    → Counted p
    → p.task_nums + length (pushed es) < 2 ^ 31
    → Returns (Conserved (pushed es) p) (run es p)
unfolding run
run-Conserved [] p counted small = returns (stays p counted 0)
run-Conserved (e ∷ es) p counted small =
    let size = length-append (pushed_by e) (pushed es) in
    Returns-bind (step-Conserved e p counted (omega (arith, size))) λ r c.
      Returns-bind (run-Conserved es r.1 c.counted (omega (arith, size, c.fewer)))
        λ q d. returns (Conserved-trans (pushed_by e) (pushed es) p r q c d)
