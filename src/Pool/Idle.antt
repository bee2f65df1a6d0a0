-- ===== src/Pool/Idle.antt =====
-- Thread pools in which there is no task.
use mathlib.Core.Path.{subst}
use mathlib.Core.Option.{some-injective}
use just_kit.Prelude.{
  ℕ, ◌≡◌, refl, ap, Bool, true, false, List, [], ◌∷◌, Option, none, some, arith, length, ◌==◌,
}
use just_kit.Pool.{Place, starting, Pool, Call, new, spawn, spawn_one, make_pool, minus_one}
use just_kit.Pool.Sums.{sum}
use just_kit.Pool.Weights.{
  Weight, taken, ending, with_finish, load, Counted, Conserved, calls-with_finish-le,
}

module _ (f : Place → ℕ) (none_there : f starting ≡ 0) where
  spawn_one-idle :
      (is_error is_zero : Bool) (others : Option (List Place)) (ws : List Place)
      → spawn_one is_error is_zero others ≡ some ws
      → ((us : List Place) → others ≡ some us → sum f us ≡ 0)
      → sum f ws ≡ 0
  unfolding spawn_one
  spawn_one-idle true is_zero others ws h ih = cc
  spawn_one-idle false is_zero none ws h ih = cc
  spawn_one-idle false true (some us) ws h ih =
      omega (arith, ih us refl, none_there, ap (sum f) (some-injective (starting ∷ us) ws h))
  spawn_one-idle false false (some us) ws h ih =
      omega (arith, ih us refl, ap (sum f) (some-injective us ws h))

  -- Threads that `jk_thread_pool_new` has made have done nothing.
  spawn-idle : (codes : List ℕ) (ws : List Place) → spawn codes ≡ some ws → sum f ws ≡ 0
  unfolding spawn
  spawn-idle [] ws h = omega (arith, ap (sum f) (some-injective [] ws h))
  spawn-idle (code ∷ codes) ws h =
      spawn_one-idle (code == minus_one) (code == 0) (spawn codes) ws h (spawn-idle codes)

-- No task is in the pool.
pub record Idle (p : Pool) : Type 0 where
  pub counted : Counted p
  pub no_tasks : p.task_nums ≡ 0
  pub unloaded : (w : Weight) → load w p ≡ 0
  pub none_ends : (w : Weight) → sum (ending (with_finish w)) p.workers ≡ 0

make_pool-Idle :
    (malloc_works tids_work : Bool) (n : ℕ) (codes : List ℕ) (threads : Option (List Place))
    (p : Pool)
    → make_pool malloc_works tids_work n threads ≡ some p
    → spawn codes ≡ threads
    → Idle p
unfolding make_pool
make_pool-Idle false tids_work n codes threads p h e = cc
make_pool-Idle true false n codes threads p h e = cc
make_pool-Idle true true n codes none p h e = cc
make_pool-Idle true true n codes (some ws) p h e = subst Idle (some-injective _ p h) (record {
  counted = refl;
  no_tasks = refl;
  unloaded = λ w. omega (arith, spawn-idle (taken w) refl codes ws e);
  none_ends = λ w. spawn-idle (ending (with_finish w)) refl codes ws e;
})

pub new-Idle :
    (malloc_works tids_work : Bool) (codes : List ℕ) (p : Pool)
    → new malloc_works tids_work codes ≡ some p
    → Idle p
unfolding new
new-Idle malloc_works tids_work codes p h =
    make_pool-Idle malloc_works tids_work (length codes) codes (spawn codes) p h refl

-- While nothing is pushed, a pool stays so.
pub stays-Idle : (p : Pool) (r : List Call × Pool) → Idle p → Conserved [] p r → Idle r.1
stays-Idle p r v c = record {
  counted = c.counted;
  no_tasks = omega (arith, c.fewer, v.no_tasks);
  unloaded = λ w. omega (arith, c.tasks w, v.unloaded w);
  none_ends = λ w.
      omega (arith, c.ends w, v.none_ends w, c.tasks w, v.unloaded w, calls-with_finish-le w r.0);
}

-- The pool of one thread.
abbrev pub one_worker : Pool
one_worker = record {
  wait_tasks = [];
  task_nums = 0;
  wait_threads = 1;
  quit_flag = false;
  workers = starting ∷ [];
}

pub new-one_worker : new true true (0 ∷ []) ≡ some one_worker
unfolding new make_pool spawn spawn_one
new-one_worker = refl
