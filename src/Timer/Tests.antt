-- ===== src/Timer/Tests.antt =====
-- Runs of the timer, and the theorem at a concrete one.
use Prim.Native.Nat.{◌*◌}
use just_kit.Prelude.{
  false, ◌≡◌, List, ok, ◌>>=◌, Run, ℕ, refl, none, some, [], ◌∷◌, arith, Returns,
}
use just_kit.Avl.{
  insert, insert_place, rebalance, rebalance_node, rotate_left, rotate_right, remove, remove_place,
  remove_found, last_place, subtree_at, unlink, find_min, Entry, empty_node, node,
}
use just_kit.Timer.{
  init, Call, called, freed, clock, push, min_node, destroy, tree_node_destroy, new, free,
  call_back, fire, Timer, TimerNode, World, process_timeout, positive_int, update,
}
use just_kit.Timer.OneShot.{OneShot, Holds, Processed, process_timeout-Processed}

-- The clock advances by 10 ms with each reading, and no callback asks to be called again.
abbrev world : World
world = record { time_of_day = λ n. some (1, n * 10000); returned = λ fn arg n. 0 }

abbrev soon : Entry
soon = record { addr = 500; key = 1005; val = 500 }

abbrev later : Entry
later = record { addr = 600; key = 1900; val = 600 }

abbrev with_free : TimerNode
with_free = record { cb = 7; free_fn = 8; arg = 9 }

abbrev plain : TimerNode
plain = record { cb = 7; free_fn = 0; arg = 3 }

abbrev timer : Timer
timer = record {
  root = node empty_node soon 2 (node empty_node later 1 empty_node);
  nodes = update (update (λ a. none) 600 (some plain)) 500 (some with_free);
  ticks = 1;
  calls = [];
}

timer-Holds : Holds timer ((soon, with_free) ∷ ((later, plain) ∷ []))
timer-Holds = record {
  avl = record { balanced = omega arith; sorted = omega arith };
  distinct = omega arith;
  small = omega arith;
  listed = refl;
  owned = (refl, (omega arith, tt), (refl, tt, tt));
}

one_shot : OneShot world
unfolding positive_int
one_shot fn arg n = refl

process_timeout-Processed_example :
    Returns
      (Processed world 0 timer ((soon, with_free) ∷ ((later, plain) ∷ [])))
      (process_timeout 3 world 0 timer)
process_timeout-Processed_example =
    process_timeout-Processed 3 0 world timer ((soon, with_free) ∷ ((later, plain) ∷ [])) one_shot
      timer-Holds (omega arith)

-- What the runs compute with.
program : Unit {0}
unfolding clock init push min_node positive_int call_back fire process_timeout tree_node_destroy
    destroy new free insert insert_place rebalance rebalance_node rotate_left rotate_right remove
    remove_place remove_found last_place subtree_at unlink find_min
program = tt

abbrev blank : Timer
blank = record { root = empty_node; nodes = λ a. none; ticks = 0; calls = [] }

abbrev two_pushed : Run Timer
two_pushed = do
  (_, s) ← push world (some 100) 50 3 4 5 blank
  (_, t) ← push world (some 200) 10 6 0 7 s
  ok t

-- The timer that was pushed last is due first, and the other one is not due at the next reading.
abbrev processed : Run (ℕ × List Call)
processed = do s ← two_pushed; (nevents, t) ← process_timeout 5 world 0 s; ok (nevents, t.calls)

pushed_processed : processed ≡ ok (1, called 6 7 ∷ [])
unfolding program
pushed_processed = refl

pushed_freed : (two_pushed >>= free >>= λ s. ok s.calls) ≡ ok (freed 4 5 ∷ [])
unfolding program
pushed_freed = refl

made_empty : new false blank ≡ none
unfolding program
made_empty = refl
