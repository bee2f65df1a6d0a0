-- ===== src/Pool/Sums.antt =====
-- Sums over the workers, and what the changes of their places do to them.
use mathlib.Core.Option.{some-injective}
use just_kit.Prelude.{
  ℕ, zero, suc, ◌+◌, ◌≡◌, refl, sym, ap, true, List, [], ◌∷◌, map, some, arith, get_elem?, set,
  Bool-cases, Option-cases, inl, inr,
}
use just_kit.Pool.{
  Place, starting, testing, waiting, exited, calling, finishing, awake, is_waiting, wake_first,
  signal,
}

abbrev pub sum : (Place → ℕ) → List Place → ℕ
sum f [] = 0
sum f (place ∷ ws) = f place + sum f ws

pub sum-set :
    (f : Place → ℕ) (ws : List Place) (i : ℕ) (place next : Place)
    → get_elem? ws i ≡ some place
    → sum f (set ws i next) + f place ≡ sum f ws + f next
sum-set f [] i place next h = absurd (ground arith)
sum-set f (x ∷ ws) zero place next h =
    let same = some-injective x place h in omega (arith, ap f same)
sum-set f (x ∷ ws) (suc i) place next h = omega (arith, sum-set f ws i place next h)

pub waiting_is : (place : Place) → is_waiting place ≡ true → place ≡ waiting
waiting_is waiting h = refl
waiting_is starting h = cc
waiting_is testing h = cc
waiting_is exited h = cc
waiting_is (calling task) h = cc
waiting_is (finishing task) h = cc

module _ (f : Place → ℕ) (alike : f waiting ≡ f testing) where
  pub sum-wake_first : (ws : List Place) → sum f (wake_first ws) ≡ sum f ws
  unfolding wake_first
  sum-wake_first [] = refl
  sum-wake_first (starting ∷ ws) = omega (arith, sum-wake_first ws)
  sum-wake_first (testing ∷ ws) = omega (arith, sum-wake_first ws)
  sum-wake_first (waiting ∷ ws) = omega (arith, sum-wake_first ws)
  sum-wake_first (exited ∷ ws) = omega (arith, sum-wake_first ws)
  sum-wake_first (calling task ∷ ws) = omega (arith, sum-wake_first ws)
  sum-wake_first (finishing task ∷ ws) = omega (arith, sum-wake_first ws)

  -- A signal changes no sum in which waiting counts as testing.
  pub sum-signal : (preferred : ℕ) (ws : List Place) → sum f (signal preferred ws) ≡ sum f ws
  unfolding signal
  sum-signal preferred ws = elim (Option-cases (get_elem? ws preferred)) [
    | inl e ↦ rw (e, signal) (sum-wake_first ws)
    | inr (place, e) ↦
        rw (e, signal)
          (elim (Bool-cases (is_waiting place)) [
            | inl w ↦
                rw w
                  (omega (arith, sum-set f ws preferred place testing e, ap f (waiting_is place w)))
            | inr w ↦ rw w (sum-wake_first ws)
          ])
  ]

  pub f-awake : (place : Place) → f (awake place) ≡ f place
  f-awake starting = refl
  f-awake testing = refl
  f-awake waiting = sym alike
  f-awake exited = refl
  f-awake (calling task) = refl
  f-awake (finishing task) = refl

  pub sum-awake : (ws : List Place) → sum f (map awake ws) ≡ sum f ws
  sum-awake [] = refl
  sum-awake (place ∷ ws) = omega (arith, f-awake place, sum-awake ws)
