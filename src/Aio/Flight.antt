-- ===== src/Aio/Flight.antt =====
-- Where the requests are: in the pool, or finished.
use just_kit.Prelude.{
  NotIn, ℕ, ◌+◌, ◌<◌, ◌≤◌, ◌≡◌, ◌≢◌, refl, ap, ◌∙◌, Bool, true, false, ◌&&◌, List, [], ◌∷◌, ◌++◌,
  Option, none, some, arith, length, length-append, ◌==◌, ==_iff, if◌then◌else◌, Bool-cases, inl,
  inr, Returns, returns, Returns-bind, Returns-map,
}
use just_kit.Pool.{Task, Pool, Call, called, finished}
use just_kit.Pool.Sums.{sum}
use just_kit.Pool.Weights.{Weight, ending, calls, finishes, with_finish, load}
use just_kit.Aio.{Request, Aio, World, execute_fn, finish_fn, execute, deliver, deliver_one}
use just_kit.Aio.Finished.{finish_request-Finishes}
use just_kit.Aio.Chain.{Queue, is_some, is_some-update, Chain-keep, deref-some}

abbrev pub count : ℕ → List ℕ → ℕ
count a [] = 0
count a (x ∷ xs) = (if a == x then 1 else 0) + count a xs

pub count-NotIn : (a : ℕ) (xs : List ℕ) → count a xs ≡ 0 → NotIn a xs
count-NotIn a [] h = tt
count-NotIn a (x ∷ xs) h = elim (Bool-cases (a == x)) [
  | inl same ↦ absurd (let k = rw same at h in omega arith)
  | inr other ↦ (other, count-NotIn a xs (omega (arith, let k = rw other at h in k)))
]

count-append :
    (a b : ℕ) (xs : List ℕ) → count a (xs ++ (b ∷ [])) ≡ count a xs + (if a == b then 1 else 0)
count-append a b [] = omega arith
count-append a b (x ∷ xs) = omega (arith, count-append a b xs)

-- Whether a task is one that `jk_aio_submit` pushes.
abbrev pub is_ours : Task → Bool
is_ours task = (task.call == execute_fn) && (task.finish == finish_fn)

abbrev pub foreign : Weight
foreign task = if is_ours task then 0 else 1

abbrev pub at : ℕ → Weight
at a task = if a == task.arg then 1 else 0

abbrev pub every : Weight
every task = 1

-- The tasks in a pool whose `finish` is not yet called.
abbrev pub inflight : Weight → Pool → ℕ
inflight w p = load w p + sum (ending (with_finish w)) p.workers

-- `xs` are finished, and `log` are calls that the workers are about to make.
pub record Flies (log : List Call) (p : Pool) (aio : Aio) (xs : List ℕ) : Type 0 where
  pub queue : Queue aio xs
  pub ours : calls foreign log + finishes foreign log + inflight foreign p ≡ 0
  pub once : (a : ℕ) → finishes (at a) log + inflight (at a) p + count a xs ≤ 1
  pub real :
      (a : ℕ)
      → 0 < calls (at a) log + finishes (at a) log + inflight (at a) p + count a xs
      → (is_some (aio.requests a) ≡ true) × (a ≢ 0)
  pub all : aio.nreqs ≡ aio.ncoms + finishes every log + inflight every p + length xs

get_request : (o : Option Request) → is_some o ≡ true → (r : Request) × (o ≡ some r)
get_request none h = absurd (cc)
get_request (some r) h = (r, refl)

and_parts : (a b : Bool) → ◌≡◌ {A = ℕ} (if a && b then 0 else 1) 0 → (a ≡ true) × (b ≡ true)
and_parts true true h = (refl, refl)
and_parts true false h = absurd (omega arith)
and_parts false b h = absurd (omega arith)

-- What running a system call for the request at `a` leaves.
record Executes (aio : Aio) (xs : List ℕ) (aio' : Aio) : Type 0 where
  queue : Queue aio' xs
  same_nreqs : aio'.nreqs ≡ aio.nreqs
  same_ncoms : aio'.ncoms ≡ aio.ncoms
  memory : (b : ℕ) → is_some (aio'.requests b) ≡ is_some (aio.requests b)

execute-Executes :
    (w : World) (aio : Aio) (xs : List ℕ) (a : ℕ) (r : Request)
    → Queue aio xs
    → aio.requests a ≡ some r
    → Returns (Executes aio xs) (execute w a aio)
unfolding execute
execute-Executes w aio xs a r q h = Returns-bind (deref-some (aio.requests a) r h) λ r' e.
    returns (record {
      queue = record {
        chain = Chain-keep aio.requests a r _ aio.rhead xs h (ap (λ s. s.next) e) q.chain;
        tail = q.tail;
        distinct = q.distinct;
      };
      same_nreqs = refl;
      same_ncoms = refl;
      memory = λ b. is_some-update aio.requests a b r _ h;
    })

module _ (w : World) (p : Pool) where
  -- The tasks that are called are ours, and their requests are in memory.
  called_ours :
      (task : Task) (log : List Call) (aio : Aio) (xs : List ℕ)
      → Flies (called task ∷ log) p aio xs
      → Returns
          (λ aio'. Flies log p aio' xs × (aio'.nreqs ≡ aio.nreqs))
          (deliver_one w (called task) aio)
  unfolding deliver_one
  called_ours task log aio xs v =
      let mine =
        and_parts (task.call == execute_fn) (task.finish == finish_fn) (omega (arith, v.ours)) in
      let self : (task.arg == task.arg) ≡ true = (==_iff task.arg task.arg).1 refl in
      let (alloc, valid) = v.real task.arg (rw self (omega arith)) in
      let (r, at_arg) = get_request (aio.requests task.arg) alloc in
      rw mine.0 (
        Returns-map (execute-Executes w aio xs task.arg r v.queue at_arg) λ aio' e. (
          record {
            queue = e.queue;
            ours = omega (arith, v.ours);
            once = λ a. v.once a;
            real = λ a h. let (x, y) = v.real a (omega (arith, h)) in (e.memory a ∙ x, y);
            all = omega (arith, v.all, e.same_nreqs, e.same_ncoms);
          },
          e.same_nreqs,
        ))

  -- The tasks that have ended go to the end of the finished requests.
  finished_ours :
      (task : Task) (log : List Call) (aio : Aio) (xs : List ℕ)
      → Flies (finished task ∷ log) p aio xs
      → Returns
          (λ aio'. Flies log p aio' (xs ++ (task.arg ∷ [])) × (aio'.nreqs ≡ aio.nreqs))
          (deliver_one w (finished task) aio)
  unfolding deliver_one
  finished_ours task log aio xs v =
      let mine =
        and_parts (task.call == execute_fn) (task.finish == finish_fn) (omega (arith, v.ours)) in
      let self : (task.arg == task.arg) ≡ true = (==_iff task.arg task.arg).1 refl in
      let (alloc, valid) = v.real task.arg (rw self (omega arith)) in
      let (r, at_arg) = get_request (aio.requests task.arg) alloc in
      let alone = rw self at (v.once task.arg) in
      let out = count-NotIn task.arg xs (omega (arith, alone)) in
      rw mine.1 (
        Returns-map (finish_request-Finishes w aio xs task.arg r v.queue out valid at_arg) λ aio' e.
          (
            record {
              queue = e.queue;
              ours = omega (arith, v.ours);
              once = λ a. omega (arith, v.once a, count-append a task.arg xs);
              real = λ a h.
                  let (x, y) = v.real a (omega (arith, h, count-append a task.arg xs)) in
                  (e.memory a ∙ x, y);
              all =
                  omega
                    (arith, v.all, e.same_nreqs, e.same_ncoms, length-append xs (task.arg ∷ []));
            },
            e.same_nreqs,
          ))

  pub deliver-Flies :
      (log : List Call) (aio : Aio) (xs : List ℕ)
      → Flies log p aio xs
      → Returns
          (λ aio'. ((ys : List ℕ) × Flies [] p aio' ys) × (aio'.nreqs ≡ aio.nreqs))
          (deliver w log aio)
  unfolding deliver
  deliver-Flies [] aio xs v = returns ((xs, v), refl)
  deliver-Flies (called task ∷ log) aio xs v =
      Returns-bind (called_ours task log aio xs v)
        λ aio' (u, e). Returns-map (deliver-Flies log aio' xs u) λ aio'' (t, k). (t, k ∙ e)
  deliver-Flies (finished task ∷ log) aio xs v =
      Returns-bind (finished_ours task log aio xs v) λ aio' (u, e).
        Returns-map (deliver-Flies log aio' (xs ++ (task.arg ∷ [])) u) λ aio'' (t, k). (t, k ∙ e)

-- A task of ours has a `finish`.
ours_finish : (v : Weight) (task : Task) → foreign task ≡ 0 → with_finish v task ≡ v task
ours_finish v task h =
    let mine = and_parts (task.call == execute_fn) (task.finish == finish_fn) h in
    let e = (==_iff task.finish finish_fn).0 mine.1 in rw e refl

pub calls_ours :
    (v : Weight) (log : List Call) → calls foreign log ≡ 0 → calls (with_finish v) log ≡ calls v log
calls_ours v [] h = refl
calls_ours v (called task ∷ log) h =
    omega (arith, ours_finish v task (omega (arith, h)), calls_ours v log (omega (arith, h)))
calls_ours v (finished task ∷ log) h = calls_ours v log h
