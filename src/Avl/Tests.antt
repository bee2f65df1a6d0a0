-- ===== src/Avl/Tests.antt =====
-- Runs of the tree, and the theorems at concrete trees.
use Prim.Native.Nat.{ℕ, ◌+◌}
use just_kit.Prelude.{◌≡◌, refl, some, none, arith, ◌↔◌, ok, ◌>>=◌, Returns}
use just_kit.Avl.{
  Entry, Tree, empty_node, node, find_node, find_min, find_max, insert, remove, rebalance,
  rebalance_node, insert_place, rotate_left, rotate_right, remove_place, remove_found, unlink,
  last_place, subtree_at,
}
use just_kit.Avl.Order.{inorder, AllAtLeast, AllAtMost, lookup_key}
use just_kit.Avl.Search.{find_node-lookup_key, find_min-find_max}
use just_kit.Avl.Height.{insert_small-Inserted}
use just_kit.Avl.Insert.{IsAvl, Inserted, insert-Inserted}
use just_kit.Avl.Remove.{Removed, remove-Removed}
use just_kit.Avl.Duplicates.{remove-insert_duplicates}

abbrev entry : ℕ → ℕ → Entry
entry a k = record { addr = a; key = k; val = a + 100 }

-- What the tests compute with.
program : Unit {0}
unfolding insert remove rebalance rebalance_node insert_place rotate_left rotate_right remove_place
    remove_found unlink last_place subtree_at
program = tt

abbrev sample : Tree
sample =
    node (node empty_node (entry 1 10) 1 empty_node) (entry 2 20) 3
      (node (node empty_node (entry 3 30) 1 empty_node) (entry 4 40) 2 empty_node)

sample_built :
    insert (entry 2 20) empty_node
      >>= insert (entry 1 10)
      >>= insert (entry 4 40)
      >>= insert (entry 3 30)
    ≡ ok sample
unfolding program
sample_built = refl

-- Removing 10 leaves the right side two levels higher: a double rotation.
sample_removed :
    remove (entry 1 10) sample
    ≡ ok (
        node
          (node empty_node (entry 2 20) 1 empty_node)
          (entry 3 30)
          2
          (node empty_node (entry 4 40) 1 empty_node))
unfolding program
sample_removed = refl

sample-IsAvl : IsAvl sample
sample-IsAvl = record { balanced = omega arith; sorted = omega arith }

insert-Inserted_example : Returns (Inserted (entry 5 25) sample) (insert (entry 5 25) sample)
insert-Inserted_example = insert-Inserted (entry 5 25) sample sample-IsAvl (omega arith)

remove-Removed_example : Returns (Removed 20 sample) (remove (entry 2 20) sample)
unfolding lookup_key
remove-Removed_example =
    remove-Removed (entry 2 20) sample sample-IsAvl (omega arith) refl (omega arith)

find_node-lookup_key_example : find_node sample 30 ≡ lookup_key 30 (inorder sample)
find_node-lookup_key_example = find_node-lookup_key sample 30 (omega arith)

find_min-find_max_example :
    ((find_min sample ≡ some (entry 1 10))
      × ((e : Entry) → find_min sample ≡ some e → AllAtLeast e.key (inorder sample))
      × (find_min sample ≡ none ↔ sample ≡ empty_node))
    × ((find_max sample ≡ some (entry 4 40))
        × ((e : Entry) → find_max sample ≡ some e → AllAtMost e.key (inorder sample)))
find_min-find_max_example = find_min-find_max sample (omega arith)

remove-insert_duplicates_example :
    (insert (entry 1 5) empty_node
      >>= insert (entry 2 5)
      >>= insert (entry 3 5)
      >>= remove (entry 1 5))
    ≡ ok empty_node
remove-insert_duplicates_example = remove-insert_duplicates 5 1 2 3 101 102 103 (omega arith)

insert_small-Inserted_example : Returns (Inserted (entry 5 25) sample) (insert (entry 5 25) sample)
insert_small-Inserted_example = insert_small-Inserted (entry 5 25) sample sample-IsAvl (omega arith)
