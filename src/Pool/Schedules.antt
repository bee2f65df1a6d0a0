-- ===== src/Pool/Schedules.antt =====
-- What every step keeps, every schedule keeps.
use just_kit.Prelude.{List, [], ◌∷◌, IfOk, IfOk-bind}
use just_kit.Pool.{Pool, Call, Event, step, run}

-- A predicate of the pool that a step or a schedule leaves.
abbrev pub Leaves : (Pool → Type 0) → List Call × Pool → Type 0
Leaves P r = P r.1

pub run-Leaves :
    (P : Pool → Type 0)
    → ((e : Event) (p : Pool) → P p → IfOk (Leaves P) (step e p))
    → (es : List Event) (p : Pool) → P p
    → IfOk (Leaves P) (run es p)
unfolding run
run-Leaves P keep [] p v = v
run-Leaves P keep (e ∷ es) p v =
    IfOk-bind (Leaves P) (Leaves P) (step e p) _ (keep e p v)
      λ r w. IfOk-bind (Leaves P) (Leaves P) (run es r.1) _ (run-Leaves P keep es r.1 w) λ q u. u
