-- ===== src/Aio/Sound.antt =====
-- The sound states of asynchronous I/O: the pool and submissions keep them.
use mathlib.Core.Path.{subst}
use just_kit.Prelude.{
  ℕ, ◌+◌, ◌-◌, ◌%◌, ◌^◌, ◌<◌, ◌≤◌, ◌≡◌, ◌≢◌, sym, ap, ◌∙◌, Bool, true, false, List, [], Option,
  none, arith, ◌==◌, ==_iff, if◌then◌else◌, Bool-cases, inl, inr, Run, Returns, returns,
  Returns-bind,
}
use just_kit.Pool.{Task, Pool, Call, worker_step, wake, push}
use just_kit.Pool.Tasks.{push-Conserved}
use just_kit.Pool.Weights.{calls, Counted, Conserved, calls-with_finish-le, pushed_by}
use just_kit.Pool
use just_kit.Aio.{Request, Aio, System, World, Grant, update, task_of, submit}
use just_kit.Aio.Api.{work}
use just_kit.Aio.Chain.{is_some, Chain-update}
use just_kit.Aio.Flight.{
  Flies, inflight, at, every, foreign, count, count-NotIn, deliver-Flies, calls_ours,
}

-- Every request in the pool or among the finished ones is in memory and in one place only, and
-- `nreqs - ncoms` is the number of them.
pub record IsSound (s : System) : Type 0 where
  pub listed : List ℕ
  pub flies : Flies [] s.pool s.aio listed
  pub counted : Counted s.pool

-- A step of the pool, before its calls are made.
pub pool_step-Flies :
    (p p' : Pool) (log : List Call) (aio : Aio) (xs : List ℕ)
    → Flies [] p aio xs
    → Conserved [] p (log, p')
    → Flies log p' aio xs
pool_step-Flies p p' log aio xs v c =
    let none_called : calls foreign log ≡ 0 = omega (arith, v.ours, c.tasks foreign) in
    record {
      queue = v.queue;
      ours =
          omega (arith, v.ours, c.tasks foreign, c.ends foreign, calls-with_finish-le foreign log);
      once = λ a.
          omega (arith, v.once a, c.tasks (at a), c.ends (at a), calls_ours (at a) log none_called);
      real = λ a h.
          v.real a
            (omega (arith, h, c.tasks (at a), c.ends (at a), calls_ours (at a) log none_called));
      all = omega (arith, v.all, c.tasks every, c.ends every, calls_ours every log none_called);
    }

-- What a step adds at most.
pub record Grows (s s' : System) : Type 0 where
  pub sound : IsSound s'
  pub tasks : s'.pool.task_nums ≤ s.pool.task_nums + 1
  pub requests : s'.aio.nreqs ≤ s.aio.nreqs + 1

pub work-Grows :
    (w : World) (s : System) (done : Run (List Call × Pool))
    → IsSound s
    → Returns (Conserved [] s.pool) done
    → Returns (Grows s) (work w done s.aio)
unfolding work
work-Grows w s done v c = Returns-bind c λ r d.
    Returns-bind
      (deliver-Flies w r.1 r.0 s.aio v.listed
        (pool_step-Flies s.pool r.1 r.0 s.aio v.listed v.flies d))
      λ aio' ((ys, u), e). returns (record {
        sound = record { listed = ys; flies = u; counted = d.counted };
        tasks = omega (arith, d.fewer);
        requests = omega (arith, e);
      })

module _ (p : Pool) (aio : Aio) (xs : List ℕ) (v : Flies [] p aio xs) (a : ℕ)
    (free : aio.requests a ≡ none) where
  -- An address that is not in use is nowhere.
  pub nowhere : inflight (at a) p + count a xs ≡ 0
  nowhere = elim (Bool-cases ((inflight (at a) p + count a xs) == 0)) [
    | inl nothing ↦ (==_iff (inflight (at a) p + count a xs) 0).0 nothing
    | inr something ↦
        let (taken, valid) = v.real a (ground (arith, something)) in
        let none_there : is_some (aio.requests a) ≡ false = ap is_some free in
        absurd (let z : true ≡ false = sym taken ∙ none_there in cc)
  ]

  -- A request is written there.
  pub store-Flies :
      (r : Option Request) → Flies [] p (record aio { requests = update aio.requests a r }) xs
  store-Flies r = record {
    queue = record {
      chain =
          Chain-update aio.requests a r aio.rhead xs (count-NotIn a xs (omega (arith, nowhere)))
            v.queue.chain;
      tail = v.queue.tail;
      distinct = v.queue.distinct;
    };
    ours = v.ours;
    once = v.once;
    real = λ b h. elim (Bool-cases (a == b)) [
      | inl same ↦
          let e = (==_iff a b).0 same in
          absurd (
            let h' = subst (λ c. 0 < 0 + 0 + inflight (at c) p + count c xs) (sym e) h in
            omega (arith, nowhere))
      | inr other ↦ rw other (v.real b h)
    ];
    all = v.all;
  }

pub one_more :
    (p p' : Pool) (b a k n : ℕ)
    → Conserved (pushed_by (Pool.pushes true n (task_of a))) p ([], p')
    → inflight (at b) p' + k ≡ inflight (at b) p + k + (if b == a then 1 else 0)
one_more p p' b a k n c = omega (arith, c.tasks (at b), c.ends (at b))

-- A request that is in memory and nowhere else, once the pool has taken it, or not.
pub landed :
    (b pushed : Bool) (n : ℕ) (p p' : Pool) (aio : Aio) (xs : List ℕ) (a : ℕ)
    → Flies [] p aio xs
    → inflight (at a) p + count a xs ≡ 0
    → is_some (aio.requests a) ≡ true
    → a ≢ 0
    → aio.nreqs + 1 < 2 ^ 64
    → pushed ≡ b
    → Conserved (pushed_by (Pool.pushes b n (task_of a))) p ([], p')
    → let counted = record aio { nreqs = (aio.nreqs + 1) % 2 ^ 64 } in
      Grows
        (record { aio = aio; pool = p })
        (record {
          aio =
              if pushed
              then counted
              else record counted { nreqs = (counted.nreqs + 2 ^ 64 - 1) % 2 ^ 64 };
          pool = p';
        })
landed true false n p p' aio xs a v none_there taken real small e c =
    absurd (let z : false ≡ true = e in cc)
landed false true n p p' aio xs a v none_there taken real small e c =
    absurd (let z : true ≡ false = e in cc)
landed false false n p p' aio xs a v none_there taken real small e c =
    let u = pool_step-Flies p p' [] aio xs v c in
    let back : (((aio.nreqs + 1) % 2 ^ 64) + 2 ^ 64 - 1) % 2 ^ 64 ≡ aio.nreqs = omega arith in
    record {
      sound = record {
        listed = xs;
        flies = record {
          queue = record {
            chain = u.queue.chain;
            tail = u.queue.tail;
            distinct = u.queue.distinct;
          };
          ours = u.ours;
          once = u.once;
          real = u.real;
          all = omega (arith, u.all, back);
        };
        counted = c.counted;
      };
      tasks = omega (arith, c.fewer);
      requests = omega (arith, back);
    }
landed true true n p p' aio xs a v none_there taken real small e c =
    let joined = λ (b : ℕ). one_more p p' b a (count b xs) n c in
    let none_at = λ (b : ℕ) (same : (b == a) ≡ true).
      subst (λ d. inflight (at d) p + count d xs ≡ 0) (sym ((==_iff b a).0 same)) none_there in
    record {
      sound = record {
        listed = xs;
        flies = record {
          queue = record {
            chain = v.queue.chain;
            tail = v.queue.tail;
            distinct = v.queue.distinct;
          };
          ours = omega (arith, v.ours, c.tasks foreign, c.ends foreign);
          once = λ b. elim (Bool-cases (b == a)) [
            | inl same ↦ omega (arith, rw same at (joined b), none_at b same)
            | inr other ↦ omega (arith, rw other at (joined b), v.once b)
          ];
          real = λ b h. elim (Bool-cases (b == a)) [
            | inl same ↦
                let e = sym ((==_iff b a).0 same) in
                (subst (λ d. is_some (aio.requests d) ≡ true) e taken, subst (λ d. d ≢ 0) e real)
            | inr other ↦ v.real b (omega (arith, rw other at (joined b), h))
          ];
          all = omega (arith, v.all, c.tasks every, c.ends every);
        };
        counted = c.counted;
      };
      tasks = omega (arith, c.fewer);
      requests = omega arith;
    }

pub submit-Grows :
    (g : Grant) (a : ℕ) (s : System) (xs : List ℕ)
    → Flies [] s.pool s.aio xs
    → Counted s.pool
    → inflight (at a) s.pool + count a xs ≡ 0
    → is_some (s.aio.requests a) ≡ true
    → a ≢ 0
    → s.aio.nreqs + 1 < 2 ^ 64
    → s.pool.task_nums + 1 < 2 ^ 31
    → Returns (λ r. Grows s r.1) (submit g a s)
unfolding submit
submit-Grows g a s xs v counted none_there taken real small room =
    Returns-bind (push-Conserved s.pool g.task_works g.preferred (task_of a) counted room) λ r c.
      returns (
        landed g.task_works r.0 g.preferred s.pool r.1 s.aio xs a v none_there taken real small c.0
          c.1)
