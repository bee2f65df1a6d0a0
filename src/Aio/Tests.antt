-- ===== src/Aio/Tests.antt =====
-- Runs of asynchronous I/O, and the theorems at small systems.
use mathlib.Core.Option.{some-injective}
use just_kit.Prelude.{
  ℕ, suc, ◌==◌, if◌then◌else◌, ◌≡◌, refl, sym, ap, ◌∙◌, true, false, List, [], ◌∷◌, Option, none,
  some, arith, ok, ◌>>=◌, deref, Returns, Bool-cases, inl, inr, ==_iff,
}
use just_kit.Pool.{finishing, testing, Pool, Call}
use just_kit.Pool.Idle.{one_worker, new-one_worker}
use just_kit.Pool
use just_kit.Aio.{
  Request, operate_read, operate_rmdir, World, IsMalloc, Aio, System, init, waiting_requests, wait,
  perform, execute, set_next, link_tail, finish_request, poll_request, poll, count_processed,
  deliver_one, deliver, submit, task_of,
}
use just_kit.Aio.Api.{
  Memory, blank, reads, rmdirs, Event, works, submits, run, request, step, work, send, send_path,
  poll_round,
}
use just_kit.Aio.Finished.{poll-empty}
use just_kit.Aio.Chain.{Queue}
use just_kit.Aio.Service.{run-IsSound}
use just_kit.Aio.Sound.{IsSound}
use just_kit.Aio.Start.{serve-IsSound, Waits, serve-Waits}

-- What the tests compute with.
program : Unit {0}
unfolding init waiting_requests wait perform execute set_next link_tail finish_request poll_request
    poll count_processed deliver_one deliver submit
program = tt

fresh : Option Request → ℕ → Option ℕ
fresh none a = some a
fresh (some r) a = none

-- A system in which a read of n bytes gives n, rmdir fails with 2, and malloc takes address n + 1 or none.
abbrev sample_world : World
sample_world = record {
  sys_read = λ fd buf size. (size, 0);
  sys_write = λ fd buf size. (size, 0);
  sys_close = λ fd. (0, 0);
  sys_open = λ path flags mode. (3, 0);
  sys_mkdir = λ path mode. (0, 0);
  sys_rmdir = λ path. (4294967295, 2);
  sys_unlink = λ path. (0, 0);
  pipe_size = 65536;
  malloc = λ n f. fresh (f (suc n)) (suc n);
}

fresh_lem : (o : Option Request) (a b : ℕ) → fresh o a ≡ some b → (a ≡ b) × (o ≡ none)
unfolding fresh
fresh_lem none a b h = (some-injective a b h, refl)
fresh_lem (some r) a b h = absurd (cc)

sample_world-IsMalloc : IsMalloc sample_world
sample_world-IsMalloc n f a h =
    let (same, free) = fresh_lem (f (suc n)) (suc n) a h in
    (λ z. omega (arith, same, z), ap f (sym same) ∙ free)

abbrev idle_pool : Pool
idle_pool = record {
  wait_tasks = [];
  task_nums = 0;
  wait_threads = 0;
  quit_flag = false;
  workers = testing ∷ (testing ∷ []);
}

abbrev memory : ℕ → Option ℕ → Memory
memory n copy = record {
  choice = n;
  copy = copy;
  grant = record { task_works = true; preferred = 0 };
}

-- A read and a rmdir are submitted; two workers execute and finish them.
abbrev two_requests : List Event
two_requests =
    submits (memory 10 none) (reads 5 600 32 9)
    ∷ (submits (memory 20 (some 700)) (rmdirs 0)
        ∷ (works 0 ∷ (works 1 ∷ (works 0 ∷ (works 1 ∷ (works 1 ∷ (works 0 ∷ [])))))))

abbrev read_done : Request
read_done = record (blank operate_read 9) { fd = 5; buf = 600; size = 32; result = 32; next = 21 }

abbrev rmdir_done : Request
rmdir_done = record (blank operate_rmdir 0) { path = 700; result = 4294967295; error = 2 }

record Outcome : Type 0 where
  processed : ℕ
  waited : ℕ
  waiting : ℕ
  piped : ℕ
  calls : List (ℕ × Request)

outcome : Aio → ℕ × Aio → Outcome
outcome aio (processed, aio') = record {
  processed = processed;
  waited = waiting_requests aio;
  waiting = waiting_requests aio';
  piped = aio'.piped;
  calls = aio'.calls;
}

-- The one that ended first is polled first, and its `finish` is called.
first_polled :
    (deref (init true true true true (some idle_pool))
      >>= run sample_world two_requests
      >>= λ (s : System). poll 5 0 s.aio >>= λ (r : ℕ × Aio). ok (outcome s.aio r))
    ≡ ok
        (record { processed = 2; waited = 2; waiting = 0; piped = 2; calls = (11, read_done) ∷ [] })
unfolding program outcome run step work request send send_path poll_round fresh Pool.push
    Pool.signal Pool.wake_first Pool.worker_step Pool.act Pool.take_task
first_polled = refl

-- A system with one finished request, 11, and one that a worker has executed, 21.
abbrev half_done : Aio
half_done = record {
  rhead = 11;
  rtail = 11;
  nreqs = 2;
  ncoms = 0;
  piped = 1;
  requests = λ a.
      if a == 11
      then some (record read_done { next = 0 })
      else if a == 21
      then some rmdir_done
      else none;
  calls = [];
}

half_done-Queue : Queue half_done (11 ∷ [])
half_done-Queue = record {
  chain = (refl, λ z. omega (arith, z), record read_done { next = 0 }, refl, refl);
  tail = refl;
  distinct = (tt, tt);
}

poll-empty_example : Returns (λ r. (r.0 ≡ 1) × Queue r.1 [] × (r.1.nreqs ≡ 2)) (poll 3 0 half_done)
poll-empty_example = poll-empty 3 0 half_done (11 ∷ []) half_done-Queue (omega arith) (omega arith)

abbrev idle : System
idle = record {
  aio = record {
    rhead = 0;
    rtail = 0;
    nreqs = 0;
    ncoms = 0;
    piped = 0;
    requests = λ a. none;
    calls = [];
  };
  pool = idle_pool;
}

idle-IsSound : IsSound idle
idle-IsSound = record {
  listed = [];
  flies = record {
    queue = record { chain = refl; tail = refl; distinct = tt };
    ours = refl;
    once = λ a. omega arith;
    real = λ a h. absurd (omega (arith, h));
    all = refl;
  };
  counted = refl;
}

run-IsSound_example : Returns IsSound (run sample_world two_requests idle)
run-IsSound_example =
    run-IsSound sample_world two_requests idle sample_world-IsMalloc idle-IsSound (omega arith)
      (omega arith)

-- A worker is to finish the request that the other list lacks.
abbrev ending_system : System
ending_system = record {
  aio = half_done;
  pool = record idle_pool { workers = finishing (task_of 21) ∷ (testing ∷ []) };
}

ending_system-IsSound : IsSound ending_system
ending_system-IsSound = record {
  listed = 11 ∷ [];
  flies = record {
    queue = half_done-Queue;
    ours = refl;
    once = λ a. ground arith;
    real = λ a h. elim (Bool-cases (a == 11)) [
      | inl first ↦ (rw first refl, λ z. let e = (==_iff a 11).0 first in omega (arith, e, z))
      | inr not_first ↦ elim (Bool-cases (a == 21)) [
        | inl second ↦ (
          rw not_first (rw second refl),
          λ z. let e = (==_iff a 21).0 second in omega (arith, e, z),
        )
        | inr not_second ↦ absurd (let k = rw not_first at (rw not_second at h) in omega arith)
      ]
    ];
    all = refl;
  };
  counted = refl;
}

serve-IsSound_example : Returns IsSound (
    Pool.run (Pool.works 0 ∷ []) one_worker >>= λ (r : List Call × Pool).
    deref (init true true true true (some r.1)) >>= run sample_world two_requests)
serve-IsSound_example =
    serve-IsSound sample_world true true (0 ∷ []) one_worker (Pool.works 0 ∷ []) two_requests
      sample_world-IsMalloc new-one_worker refl (omega arith)

serve-Waits_example : Returns Waits (
    Pool.run (Pool.works 0 ∷ []) one_worker >>= λ (r : List Call × Pool).
    deref (init true true true true (some r.1)) >>= run sample_world two_requests)
serve-Waits_example =
    serve-Waits sample_world true true (0 ∷ []) one_worker (Pool.works 0 ∷ []) two_requests
      sample_world-IsMalloc new-one_worker refl (omega arith)
