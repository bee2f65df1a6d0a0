-- ===== src/Pool/Ends.antt =====
-- The steps of the workers of a pool that is to end.
use mathlib.Core.Path.{subst}
use mathlib.Core.Option.{some-injective}
use just_kit.Prelude.{
  ℕ, zero, suc, ◌≡◌, refl, sym, ap, ◌∙◌, Bool, true, false, List, [], ◌∷◌, Option, none, some,
  get_elem?, set, ◌==◌, ok, Returns, returns, Returns-bind,
}
use just_kit.Pool.{
  Task, Place, starting, testing, waiting, exited, calling, finishing, Pool, Call, take_task, act,
  act_at, worker_step, awake, wake, wake_at,
}

-- Where a worker goes, once the pool is to end.
abbrev pub next_place : Place → Place
next_place starting = testing
next_place testing = exited
next_place waiting = waiting
next_place exited = exited
next_place (calling task) = finishing task
next_place (finishing task) = testing

abbrev pub NotWaiting : Place → Type 0
NotWaiting waiting = ⊥
NotWaiting starting = Unit
NotWaiting testing = Unit
NotWaiting exited = Unit
NotWaiting (calling task) = Unit
NotWaiting (finishing task) = Unit

-- The pool `p` as it is to end, but for its workers, who are `ws`.
pub record Ends (p : Pool) (ws : List Place) (r : List Call × Pool) : Type 0 where
  pub quits : r.1.quit_flag ≡ true
  pub tasks : r.1.wait_tasks ≡ p.wait_tasks
  pub nums : r.1.task_nums ≡ p.task_nums
  pub workers : r.1.workers ≡ ws

module _ (p : Pool) (i : ℕ) where
  set_same :
      (ws : List Place) (j : ℕ) (place : Place) → get_elem? ws j ≡ some place → set ws j place ≡ ws
  set_same [] j place h = refl
  set_same (x ∷ ws) zero place h = ap (λ y. y ∷ ws) (sym (some-injective x place h))
  set_same (x ∷ ws) (suc j) place h = ap (◌∷◌ x) (set_same ws j place h)

  take_task-Ends :
      (quits none_left : Bool) (tasks : List Task)
      → quits ≡ true
      → p.quit_flag ≡ true
      → Returns
          (λ p'. Ends p (set p.workers i exited) ([], p'))
          (take_task i p quits none_left tasks)
  unfolding take_task
  take_task-Ends true none_left tasks e q =
      returns (record { quits = q; tasks = refl; nums = refl; workers = refl })
  take_task-Ends false none_left tasks e q = absurd (let z : false ≡ true = e in cc)

  act-Ends :
      (place : Place)
      → p.quit_flag ≡ true
      → get_elem? p.workers i ≡ some place
      → Returns (Ends p (set p.workers i (next_place place))) (act i place p)
  unfolding act
  act-Ends starting q h = returns (record { quits = q; tasks = refl; nums = refl; workers = refl })
  act-Ends testing q h =
      Returns-bind (take_task-Ends p.quit_flag (p.task_nums == 0) p.wait_tasks q q)
        λ p' c. returns c
  act-Ends waiting q h = returns (record {
    quits = q;
    tasks = refl;
    nums = refl;
    workers = sym (set_same p.workers i waiting h);
  })
  act-Ends exited q h = returns (record {
    quits = q;
    tasks = refl;
    nums = refl;
    workers = sym (set_same p.workers i exited h);
  })
  act-Ends (calling task) q h =
      returns (record { quits = q; tasks = refl; nums = refl; workers = refl })
  act-Ends (finishing task) q h =
      returns (record { quits = q; tasks = refl; nums = refl; workers = refl })

  pub worker_step-Ends :
      (place : Place)
      → p.quit_flag ≡ true
      → get_elem? p.workers i ≡ some place
      → Returns (Ends p (set p.workers i (next_place place))) (worker_step i p)
  unfolding worker_step
  worker_step-Ends place q h = at (get_elem? p.workers i) h
    where
      at :
          (o : Option Place)
          → o ≡ some place
          → Returns (Ends p (set p.workers i (next_place place))) (act_at i o p)
      at none e = absurd (cc)
      at (some other) e =
          let same = some-injective other place e in
          subst (λ x. Returns (Ends p (set p.workers i (next_place place))) (act i x p)) (sym same)
            (act-Ends place q h)

  pub worker_step-beyond : get_elem? p.workers i ≡ none → worker_step i p ≡ ok ([], p)
  unfolding worker_step
  worker_step-beyond h = rw h refl

  awake-same : (place : Place) → NotWaiting place → awake place ≡ place
  awake-same starting h = refl
  awake-same testing h = refl
  awake-same waiting h = elim h [ ]
  awake-same exited h = refl
  awake-same (calling task) h = refl
  awake-same (finishing task) h = refl

  -- A wake-up of a worker who does not wait.
  pub wake-Ends :
      p.quit_flag ≡ true
      → ((place : Place) → get_elem? p.workers i ≡ some place → NotWaiting place)
      → Ends p p.workers ([], wake i p)
  unfolding wake
  wake-Ends q free = at (get_elem? p.workers i) refl
    where
      at : (o : Option Place) → get_elem? p.workers i ≡ o → Ends p p.workers ([], wake_at i o p)
      at none e = record { quits = q; tasks = refl; nums = refl; workers = refl }
      at (some place) e = record {
        quits = q;
        tasks = refl;
        nums = refl;
        workers =
            ap (set p.workers i) (awake-same place (free place e)) ∙ set_same p.workers i place e;
      }
