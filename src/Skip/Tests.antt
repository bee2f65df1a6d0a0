-- ===== src/Skip/Tests.antt =====
-- Runs of the skip list, and its theorems at concrete inputs.
use just_kit.Prelude.{
  ℕ, zero, suc, ◌≡◌, refl, true, false, List, [], ◌∷◌, Option, some, none, arith, ltb, ◌==◌,
  if◌then◌else◌, ok, fault, out_of_fuel, Run, ◌>>=◌, Returns,
}
use just_kit.Skip.{
  Node, Memory, Skip, new, insert, delete, find, free, random_level, level_from, node_new,
  clear_header, clear_forward, write,
}
use just_kit.Skip.Towers.{Tower, IsSkip}
use just_kit.Skip.Find.{find-tower_of}
use just_kit.Skip.Insert.{IsFresh, Grown, insert-Grown, insert-fault}
use just_kit.Skip.Delete.{Deleted, delete-Deleted}
use just_kit.Skip.Session.{Op, put, take, get, Answer, done, value, run, AllReady}
use just_kit.Skip.Session.Lifetime.{run-free}

abbrev unused : Node
unused = record { key = 0; value = 0; size = 0; forward = λ i. none }

-- The header at 1, and a node at 2.
abbrev nodes : Memory
nodes x =
    if x == 1
    then record { key = 0; value = 0; size = 32; forward = λ i. some (if ltb i 1 then 2 else 0) }
    else (if x == 2
        then record { key = 5; value = 50; size = 1; forward = λ i. some 0 }
        else unused)

abbrev sample : Skip
sample = record { header = 1; length = 1; level = 1; memory = nodes }

abbrev tower : Tower
tower = record { addr = 2; key = 5; value = 50; height = 1 }

sample-IsSkip : IsSkip sample (tower ∷ [])
sample-IsSkip = record {
  nodes = (
    record { same_key = refl; same_value = refl; same_size = refl; links = λ j h. refl },
    (record { same_key = refl; same_value = refl; same_size = refl; links = λ j h. refl }, tt),
  );
  distinct = ((refl, tt), (tt, tt));
  real = (refl, (refl, tt));
  sorted = (tt, tt);
  fit = (omega arith, omega arith, tt);
  some_level = omega arith;
  small_level = omega arith;
  count = refl;
}

two_drawn : random_level (100 ∷ 20000 ∷ []) ≡ ok 2
unfolding random_level level_from
two_drawn = refl

fresh : IsFresh nodes (some 3)
fresh = (refl, λ e. omega (arith, e))

insert-Grown_example :
    Returns
      (Grown sample (some 3) 4 40 2 (tower ∷ []))
      (insert 9 (100 ∷ 20000 ∷ []) (some 3) 4 40 sample)
insert-Grown_example =
    insert-Grown sample (tower ∷ []) 9 (100 ∷ 20000 ∷ []) (some 3) 4 40 2 sample-IsSkip
      (omega arith) two_drawn (omega arith) fresh

delete-Deleted_example : Returns (Deleted true sample [] (tower ∷ [])) (delete 9 5 sample)
delete-Deleted_example = delete-Deleted sample (tower ∷ []) 9 5 sample-IsSkip (omega arith)

find-tower_of_example : find 9 5 sample ≡ ok (some 50)
find-tower_of_example = find-tower_of sample (tower ∷ []) 9 5 sample-IsSkip (omega arith)

-- Values of `random` with which the loop draws again.
abbrev small_values : ℕ → List ℕ
small_values zero = 20000 ∷ []
small_values (suc n) = 100 ∷ small_values n

high_drawn : random_level (small_values 32) ≡ ok 33
unfolding random_level level_from
high_drawn = refl

insert-fault_example : insert 9 (small_values 32) (some 3) 4 40 sample ≡ fault
insert-fault_example =
    insert-fault sample (tower ∷ []) 9 (small_values 32) (some 3) 4 40 33 sample-IsSkip
      (omega arith) high_drawn (omega arith)

abbrev no_nodes : Memory
no_nodes x = unused

abbrev made_of : Run (Option Skip) → Skip
made_of (ok (some s)) = s
made_of (ok none) = sample
made_of fault = sample
made_of out_of_fuel = sample

abbrev fresh_list : Skip
fresh_list = made_of (new true (some 1) no_nodes)

new_lem : new true (some 1) no_nodes ≡ ok (some fresh_list)
unfolding new node_new clear_header clear_forward write
new_lem = refl

unused_two : (fresh_list.memory 2).size ≡ 0
unfolding new node_new clear_header clear_forward write
unused_two = refl

abbrev ops : List Op
ops =
    put (100 ∷ 20000 ∷ []) (some 2) 5 50
    ∷ put (20000 ∷ []) none 7 70
    ∷ get 5
    ∷ get 7
    ∷ take 5
    ∷ take 5
    ∷ get 5
    ∷ []

one_drawn : random_level (20000 ∷ []) ≡ ok 1
unfolding random_level level_from
one_drawn = refl

ops-AllReady : AllReady 9 ops fresh_list
ops-AllReady = (
  (2, two_drawn, omega arith, (unused_two, λ e. omega (arith, e))),
  λ r e. (
    (1, one_drawn, omega arith, tt),
    λ r e. (tt, λ r e. (tt, λ r e. (tt, λ r e. (tt, λ r e. (tt, λ r e. tt))))),
  ),
)

run-free_example :
    Returns
      (λ (r : List Answer × Memory).
        (r.0
          ≡ done true
            ∷ done false
            ∷ value (some 50)
            ∷ value none
            ∷ done true
            ∷ done false
            ∷ value none
            ∷ [])
        × ((x : ℕ) → (r.1 x).size ≡ 0))
      (run 9 ops fresh_list >>= λ r. free 9 r.1 >>= λ m. ok (r.0, m))
run-free_example =
    run-free no_nodes 1 9 ops fresh_list refl (λ e. omega (arith, e)) new_lem ops-AllReady
      (omega arith)
