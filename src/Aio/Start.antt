-- ===== src/Aio/Start.antt =====
-- `jk_aio_init`, with the thread pool that it makes.
use mathlib.Core.Path.{subst}
use mathlib.Core.Option.{some-injective}
use just_kit.Prelude.{
  ℕ, ◌^◌, ◌<◌, ◌≡◌, refl, ap, ◌+◌, ◌≤◌, Bool, true, List, [], some, arith, length, ◌>>=◌, deref,
  Returns, Returns-bind, Returns-map,
}
use just_kit.Pool.{Task, Place, starting, Pool, Call, new, spawn, spawn_one, make_pool, minus_one}
use just_kit.Pool
use just_kit.Pool.Idle.{Idle, new-Idle, stays-Idle}
use just_kit.Pool.Tasks.{run-Conserved}
use just_kit.Pool.Weights.{Conserved, pushed}
use just_kit.Aio.{System, World, IsMalloc, init, waiting_requests}
use just_kit.Aio.Api.{Event, run}
use just_kit.Aio.Chain.{Queue}
use just_kit.Aio.Flight.{at, every, foreign, inflight}
use just_kit.Aio.Service.{run-Grows}
use just_kit.Aio.Sound.{IsSound}

begun-IsSound :
    (s : System) → Idle s.pool → init true true true true (some s.pool) ≡ some s → IsSound s
unfolding init
begun-IsSound s v e =
    let empty = some-injective _ s e in
    subst IsSound empty (record {
      listed = [];
      flies = record {
        queue = record { chain = refl; tail = refl; distinct = tt };
        ours = omega (arith, v.unloaded foreign, v.none_ends foreign);
        once = λ a. omega (arith, v.unloaded (at a), v.none_ends (at a));
        real = λ a h. absurd (omega (arith, h, v.unloaded (at a), v.none_ends (at a)));
        all = omega (arith, v.unloaded every, v.none_ends every);
      };
      counted = v.counted;
    })

serve-Grows :
    (w : World) (malloc_works tids_work : Bool) (codes : List ℕ) (p : Pool)
    (before : List Pool.Event) (es : List Event)
    → IsMalloc w
    → new malloc_works tids_work codes ≡ some p
    → pushed before ≡ []
    → length es < 2 ^ 31
    → Returns
        (λ s. IsSound s × (s.aio.nreqs ≤ length es))
        (Pool.run before p >>= λ (r : List Call × Pool).
          deref (init true true true true (some r.1)) >>= run w es)
unfolding init
serve-Grows w malloc_works tids_work codes p before es k h none_pushed few =
    let v = new-Idle malloc_works tids_work codes p h in
    Returns-bind
      (run-Conserved before p v.counted (omega (arith, v.no_tasks, ap length none_pushed)))
      λ r c.
        let idle = stays-Idle p r v (subst (λ new. Conserved new p r) none_pushed c) in
        Returns-map
          (run-Grows w es _ k (begun-IsSound _ idle refl) (omega arith)
            (omega (arith, idle.no_tasks)))
          λ s (sound, low). (sound, omega (arith, low))

-- Where `jk_thread_pool_new` has made a pool, to which nothing is pushed before `jk_aio_init` takes
-- it, and the other steps of that work, no schedule of fewer than 2^31 submissions, steps of
-- workers, wake-ups and rounds of `jk_aio_poll` faults, and it ends in a sound state of the
-- requests, if malloc returns addresses that are free and not null.
pub serve-IsSound :
    (w : World) (malloc_works tids_work : Bool) (codes : List ℕ) (p : Pool)
    (before : List Pool.Event) (es : List Event)
    → IsMalloc w
    → new malloc_works tids_work codes ≡ some p
    → pushed before ≡ []
    → length es < 2 ^ 31
    → Returns IsSound (
        Pool.run before p >>= λ (r : List Call × Pool).
        deref (init true true true true (some r.1)) >>= run w es)
serve-IsSound w malloc_works tids_work codes p before es k h none_pushed few =
    Returns-map (serve-Grows w malloc_works tids_work codes p before es k h none_pushed few)
      λ s (sound, low). sound

-- What `jk_aio_nreqs` returns is the number of the requests under way and of those that are linked as
-- finished.
abbrev pub Waits : System → Type 0
Waits s =
    (xs : List ℕ) × Queue s.aio xs × (waiting_requests s.aio ≡ inflight every s.pool + length xs)

-- Where `jk_thread_pool_new` has made a pool, to which nothing is pushed before `jk_aio_init` takes
-- it, and the other steps of that work, and malloc returns addresses that are free and not null:
-- after any schedule of fewer than 2^31 submissions, steps of workers, wake-ups and rounds of
-- `jk_aio_poll`, the finished requests are a linked list, and `jk_aio_nreqs` returns how many they
-- are with the tasks in the pool whose `finish` is not called yet.
pub serve-Waits :
    (w : World) (malloc_works tids_work : Bool) (codes : List ℕ) (p : Pool)
    (before : List Pool.Event) (es : List Event)
    → IsMalloc w
    → new malloc_works tids_work codes ≡ some p
    → pushed before ≡ []
    → length es < 2 ^ 31
    → Returns Waits (
        Pool.run before p >>= λ (r : List Call × Pool).
        deref (init true true true true (some r.1)) >>= run w es)
unfolding waiting_requests
serve-Waits w malloc_works tids_work codes p before es k h none_pushed few =
    Returns-map (serve-Grows w malloc_works tids_work codes p before es k h none_pushed few)
      λ s (sound, low). (sound.listed, sound.flies.queue, omega (arith, sound.flies.all, low, few))
