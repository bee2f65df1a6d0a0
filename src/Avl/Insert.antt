-- ===== src/Avl/Insert.antt =====
-- `jk_avl_insert` refines insertion into a sorted list.
use Prim.Native.Nat.{◌+◌, ◌≤◌}
use just_kit.Prelude.{
  ◌≡◌, refl, [], ◌∷◌, arith, length, ◌>>=◌, Returns, returns, Returns-if_bind, lt→ltb, ltb, ltb→lt,
  ltb-false→le,
}
use just_kit.Avl.{
  Entry, Tree, empty_node, node, height_of, left_of, right_of, Place, Step, go_on, max_height,
  rebalance, insert_place, insert,
}
use just_kit.Avl.Order.{
  inorder, Sorted, Sorted-Split, insert_sorted, insert_sorted-below, insert_sorted-above,
  insert_sorted-Sorted,
}
use just_kit.Avl.Balance.{IsBalanced}
use just_kit.Avl.Climb.{resume, resume-nil, Adjusted, climb_left, climb_right}

-- A balanced search tree.
pub record IsAvl (t : Tree) : Type 0 where
  pub balanced : IsBalanced t
  pub sorted : Sorted (inorder t)

-- The descent and the climb together: below the slot `p`, whatever the rest of the climb makes of
-- the adjusted subtree.
insert_below {κ} :
    (Q : Tree → Type κ) (n : Entry) (t : Tree) (p : Place)
    → IsBalanced t
    → Sorted (inorder t)
    → height_of t + length p ≤ max_height
    → ((s : Step) → Adjusted (height_of t) (insert_sorted n (inorder t)) s → Returns Q (resume p s))
    → Returns Q (insert_place t n.key p >>= λ q. rebalance q (node empty_node n 1 empty_node))
unfolding insert_place insert_sorted
insert_below Q n empty_node p b s room k = k (go_on (node empty_node n 1 empty_node)) (record {
  balanced = omega arith;
  entries = refl;
  grown = omega arith;
  shrunk = omega arith;
  settled = λ x. absurd x;
})
insert_below Q n (node l e h r) p b s room k =
    let cut = Sorted-Split (inorder l) e (inorder r) s in
    let eq = b.2 in
    rw (lt→ltb (length p) max_height (omega arith)) (
      Returns-if_bind _ _ _ (ltb n.key e.key)
        (λ less. insert_below Q n l (left_of e h r ∷ p) b.0 cut.below (omega arith) λ s' a.
          climb_left Q p e h r (height_of l) _ s' b.1 eq b.3 b.4 a
            (rw (insert_sorted-below n (inorder l) e (inorder r) (ltb→lt _ _ less)) at k))
        (λ more. insert_below Q n r (right_of l e h ∷ p) b.1 cut.above (omega arith) λ s' a.
          climb_right Q p l e h (height_of r) _ s' b.0 eq b.4 b.3 a (
            rw (insert_sorted-above n (inorder l) e (inorder r) (ltb-false→le _ _ more) cut.at_most)
              at k)))

-- What an insertion of `n` into `t` leaves.
pub record Inserted (n : Entry) (t t' : Tree) : Type 0 where
  pub avl : IsAvl t'
  pub entries : inorder t' ≡ insert_sorted n (inorder t)
  pub height : height_of t' ≤ height_of t + 1

-- Inserting into a balanced search tree of height at most 41 overflows nothing, and gives a
-- balanced search tree, one level higher at most, whose entries are the old ones with the new one
-- put in order, behind those of its key.
pub insert-Inserted :
    (n : Entry) (t : Tree)
    → IsAvl t
    → height_of t ≤ max_height
    → Returns (Inserted n t) (insert n t)
unfolding insert
insert-Inserted n t v room =
    insert_below (Inserted n t) n t [] v.balanced v.sorted (omega arith) λ s a. rw (resume-nil s) (
      returns (record {
        avl = record {
          balanced = a.balanced;
          sorted = rw a.entries (insert_sorted-Sorted n (inorder t) v.sorted);
        };
        entries = a.entries;
        height = a.grown;
      }))
