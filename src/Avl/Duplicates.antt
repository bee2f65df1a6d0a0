-- ===== src/Avl/Duplicates.antt =====
-- Several nodes of one key: the search of `jk_avl_remove` may stop at another node than the one to
-- delete.
use just_kit.Prelude.{ℕ, ◌≡◌, ◌≢◌, arith, ok, ◌>>=◌, refl}
use just_kit.Avl.{
  Tree, Entry, empty_node, insert, remove, rebalance, rebalance_node, insert_place, rotate_left,
  remove_place, remove_found, unlink, subtree_at, node,
}

module _ (k a b c u v w : ℕ) where
  abbrev oldest : Entry
  oldest = record { addr = a; key = k; val = u }

  abbrev middle : Entry
  middle = record { addr = b; key = k; val = v }

  abbrev newest : Entry
  newest = record { addr = c; key = k; val = w }

  abbrev one : Tree
  one = node empty_node oldest 1 empty_node

  abbrev two : Tree
  two = node empty_node oldest 2 (node empty_node middle 1 empty_node)

  abbrev three : Tree
  three = node one middle 2 (node empty_node newest 1 empty_node)

  insert_first : insert oldest empty_node ≡ ok one
  unfolding insert rebalance insert_place
  insert_first = refl

  insert_second : insert middle one ≡ ok two
  unfolding insert rebalance rebalance_node insert_place
  insert_second = ground arith

  insert_third : insert newest two ≡ ok three
  unfolding insert rebalance rebalance_node insert_place rotate_left
  insert_third = ground arith

  remove-oldest : a ≢ b → remove oldest three ≡ ok empty_node
  unfolding remove remove_place remove_found unlink subtree_at rebalance
  remove-oldest apart = ground arith

  -- Three nodes with one key, inserted in turn into the empty tree, the first one at another
  -- address than the second: removing the first one empties the tree, so that the two others are
  -- lost.
  pub remove-insert_duplicates :
      a ≢ b
      → (insert oldest empty_node >>= insert middle >>= insert newest >>= remove oldest)
        ≡ ok empty_node
  remove-insert_duplicates apart =
      rw (insert_first, insert_second, insert_third) (remove-oldest apart)
