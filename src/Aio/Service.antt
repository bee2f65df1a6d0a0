-- ===== src/Aio/Service.antt =====
-- The whole of asynchronous I/O: users, workers and the poller, in any order.
use mathlib.Core.Path.{subst}
use just_kit.Prelude.{
  ◌≤◌, ℕ, zero, suc, ◌+◌, ◌^◌, ◌<◌, ◌≡◌, ◌≢◌, refl, sym, ap, ◌∙◌, true, List, [], ◌∷◌, Option, none,
  some, arith, length, ◌==◌, ==_iff, Bool-cases, inl, inr, Returns, returns, Returns-bind,
  Returns-map, Returns-map,
}
use just_kit.Pool.{worker_step, wake}
use just_kit.Pool.Tasks.{worker_step-Conserved, wake-Conserved}
use just_kit.Aio.{Request, System, World, IsMalloc, Grant, submit, poll_request}
use just_kit.Aio.Api.{
  Memory, Submission, reads, writes, opens, closes, mkdirs, rmdirs, unlinks, store, send, send_path,
  request, Event, works, wakes, submits, polls, poll_round, step, run,
}
use just_kit.Aio.Finished.{poll_request-Polls}
use just_kit.Aio.Chain.{is_some}
use just_kit.Aio.Flight.{Flies, inflight, at, count}
use just_kit.Aio.Sound.{
  IsSound, pool_step-Flies, Grows, work-Grows, submit-Grows, nowhere, store-Flies,
}

module _ (w : World) (s : System) (v : IsSound s) (small : s.aio.nreqs + 1 < 2 ^ 64)
    (room : s.pool.task_nums + 1 < 2 ^ 31) where
  same : Grows s s
  same = record { sound = v; tasks = omega arith; requests = omega arith }

  sent :
      (g : Grant) (a : ℕ) (r : Request)
      → (a ≢ 0) × (s.aio.requests a ≡ none)
      → Returns (λ q. Grows s q.1) (submit g a (store a r s))
  sent g a r (real, free) =
      Returns-map
        (submit-Grows g a (store a r s) v.listed
          (store-Flies s.pool s.aio v.listed v.flies a free (some r)) v.counted
          (nowhere s.pool s.aio v.listed v.flies a free)
          (let self : (a == a) ≡ true = (==_iff a a).1 refl in rw self refl) real small room)
        λ q k. record { sound = k.sound; tasks = k.tasks; requests = k.requests }

  send-Grows :
      (m : Memory) (o : Option ℕ) (r : Request)
      → ((a : ℕ) → o ≡ some a → (a ≢ 0) × (s.aio.requests a ≡ none))
      → Returns (λ q. Grows s q.1) (send m o r s)
  unfolding send
  send-Grows m none r f = returns same
  send-Grows m (some a) r f = sent m.grant a r (f a refl)

  send_path-Grows :
      (m : Memory) (o copy : Option ℕ) (r : Request)
      → ((a : ℕ) → o ≡ some a → (a ≢ 0) × (s.aio.requests a ≡ none))
      → Returns (λ q. Grows s q.1) (send_path m o copy r s)
  unfolding send_path
  send_path-Grows m none copy r f = returns same
  send_path-Grows m (some a) none r f = returns (record {
    sound = record {
      listed = v.listed;
      flies = store-Flies s.pool s.aio v.listed v.flies a (f a refl).1 none;
      counted = v.counted;
    };
    tasks = omega arith;
    requests = omega arith;
  })
  send_path-Grows m (some a) (some path) r f = sent m.grant a (record r { path = path }) (f a refl)

  request-Grows :
      (m : Memory) (q : Submission) → IsMalloc w → Returns (λ r. Grows s r.1) (request w m q s)
  unfolding request
  request-Grows m (reads fd buf size finish) k = send-Grows m _ _ (k m.choice s.aio.requests)
  request-Grows m (writes fd buf size finish) k = send-Grows m _ _ (k m.choice s.aio.requests)
  request-Grows m (opens flags mode finish) k =
      send_path-Grows m _ m.copy _ (k m.choice s.aio.requests)
  request-Grows m (closes fd finish) k = send-Grows m _ _ (k m.choice s.aio.requests)
  request-Grows m (mkdirs mode finish) k = send_path-Grows m _ m.copy _ (k m.choice s.aio.requests)
  request-Grows m (rmdirs finish) k = send_path-Grows m _ m.copy _ (k m.choice s.aio.requests)
  request-Grows m (unlinks finish) k = send_path-Grows m _ m.copy _ (k m.choice s.aio.requests)

  poll_first :
      (xs : List ℕ) (h : ℕ)
      → Flies [] s.pool s.aio xs
      → suc h ≡ s.aio.rhead
      → Returns (λ aio. Grows s (record s { aio = aio })) (poll_request (suc h) s.aio)
  poll_first [] h u e = absurd (omega (arith, u.queue.chain))
  poll_first (x ∷ xs) h u e =
      subst (λ k. Returns (λ aio. Grows s (record s { aio = aio })) (poll_request k s.aio)) (sym e)
        (Returns-map (poll_request-Polls s.aio x xs u.queue) λ aio c.
          let self : (x == x) ≡ true = (==_iff x x).1 refl in
          let alone = rw self at (u.once x) in
          record {
            sound = record {
              listed = xs;
              flies = record {
                queue = c.queue;
                ours = u.ours;
                once = λ b. omega (arith, u.once b);
                real = λ b k. elim (Bool-cases (x == b)) [
                  | inl same ↦
                      let at_x =
                        subst (λ d. 0 < 0 + 0 + inflight (at d) s.pool + count d xs)
                          (sym ((==_iff x b).0 same)) k in
                      absurd (omega (arith, alone, at_x))
                  | inr other ↦
                      let (here, real) = u.real b (omega (arith, k)) in
                      (ap is_some (c.memory b other) ∙ here, real)
                ];
                all = omega (arith, u.all, c.same_nreqs, c.completed);
              };
              counted = v.counted;
            };
            tasks = omega arith;
            requests = omega (arith, c.same_nreqs);
          })

  poll_round-Grows :
      (h : ℕ)
      → h ≡ s.aio.rhead
      → Returns (λ aio. Grows s (record s { aio = aio })) (poll_round h s.aio)
  unfolding poll_round
  poll_round-Grows zero e = returns same
  poll_round-Grows (suc h) e = poll_first v.listed h v.flies e

  step-Grows : (e : Event) → IsMalloc w → Returns (Grows s) (step w e s)
  unfolding step
  step-Grows (works i) k =
      work-Grows w s (worker_step i s.pool) v (worker_step-Conserved s.pool v.counted i)
  step-Grows (wakes i) k = returns (record {
    sound = record {
      listed = v.listed;
      flies =
          pool_step-Flies s.pool (wake i s.pool) [] s.aio v.listed v.flies
            (wake-Conserved s.pool v.counted i);
      counted = (wake-Conserved s.pool v.counted i).counted;
    };
    tasks = omega (arith, (wake-Conserved s.pool v.counted i).fewer);
    requests = omega arith;
  })
  step-Grows (submits m q) k = Returns-bind (request-Grows m q k) λ r g. returns g
  step-Grows polls k = Returns-bind (poll_round-Grows s.aio.rhead refl) λ aio g. returns g

pub run-Grows :
    (w : World) (es : List Event) (s : System)
    → IsMalloc w
    → IsSound s
    → s.aio.nreqs + length es < 2 ^ 64
    → s.pool.task_nums + length es < 2 ^ 31
    → Returns (λ s'. IsSound s' × (s'.aio.nreqs ≤ s.aio.nreqs + length es)) (run w es s)
unfolding run
run-Grows w [] s k v small room = returns (v, omega arith)
run-Grows w (e ∷ es) s k v small room =
    Returns-bind (step-Grows w s v (omega arith) (omega arith) e k) λ s' g.
      Returns-map (run-Grows w es s' k g.sound (omega (arith, g.requests)) (omega (arith, g.tasks)))
        λ q (sound, few). (sound, omega (arith, few, g.requests))

-- From a sound state of the requests and the thread pool, where malloc returns addresses that are
-- free and not null, no schedule of submissions, steps of workers, wake-ups and rounds of
-- `jk_aio_poll` faults, if it is too short for `nreqs` to reach 2^64 and for `task_nums` to reach
-- 2^31; it ends in a sound state: the finished requests are a linked list, every request that is in
-- the pool or finished is in memory and in one place only, and `nreqs - ncoms` is the number of
-- them.
pub run-IsSound :
    (w : World) (es : List Event) (s : System)
    → IsMalloc w
    → IsSound s
    → s.aio.nreqs + length es < 2 ^ 64
    → s.pool.task_nums + length es < 2 ^ 31
    → Returns IsSound (run w es s)
run-IsSound w es s k v small room =
    Returns-map (run-Grows w es s k v small room) λ s' (sound, few). sound
