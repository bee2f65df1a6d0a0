-- ===== src/Spin/Tests.antt =====
-- Runs of the spin lock, and the theorems at two threads.
use just_kit.Prelude.{ℕ, suc, ◌≡◌, ◌≢◌, refl, List, [], ◌∷◌, arith}
use just_kit.Spin.{yielding, inside, act, failed, run, start}
use just_kit.Spin.Exclusion.{run-exclusive}
use just_kit.Spin.Yields.{run-never_yields}

-- What the tests compute with.
program : Unit {0}
unfolding run act failed
program = tt

-- Thread 0 takes the lock while thread 1 spins.
abbrev schedule : List ℕ
schedule = 0 ∷ 1 ∷ 0 ∷ 1 ∷ 0 ∷ 1 ∷ 1 ∷ []

owner : (run 4 suc schedule start).place 0 ≡ inside
unfolding program
owner = refl

-- The thread that lost, once the other has unlocked.
follower : (run 4 suc (0 ∷ 0 ∷ 0 ∷ 1 ∷ 1 ∷ 0 ∷ 1 ∷ 1 ∷ []) start).place 1 ≡ inside
unfolding program
follower = refl

-- With the value 0 for two threads both are past the lock.
unnamed :
    ((run 1 (λ t. 0) (0 ∷ 0 ∷ 0 ∷ 1 ∷ 1 ∷ 1 ∷ []) start).place 0 ≡ inside)
    × ((run 1 (λ t. 0) (0 ∷ 0 ∷ 0 ∷ 1 ∷ 1 ∷ 1 ∷ []) start).place 1 ≡ inside)
unfolding program
unnamed = (refl, refl)

run-exclusive_example : (run 4 suc schedule start).place 1 ≢ inside
run-exclusive_example =
    run-exclusive 4 suc (λ t u e. omega arith) (λ t e. omega arith) schedule 0 1 (λ e. omega arith)
      owner

run-never_yields_example : (run 4 suc schedule start).place 1 ≢ yielding
run-never_yields_example = run-never_yields 4 suc (omega arith) schedule 1
