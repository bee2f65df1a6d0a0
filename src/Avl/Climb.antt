-- ===== src/Avl/Climb.antt =====
-- The loop of `jk_avl_rebalance` climbing the stack, one frame at a time.
use Prim.Native.Nat.{ℕ, ◌+◌, ◌≤◌, max}
use just_kit.Prelude.{◌≡◌, refl, ap, List, [], ◌∷◌, ◌++◌, arith, Run, ok, Returns, Returns-bind}
use just_kit.Avl.{
  Entry, Tree, node, height_of, left_of, right_of, Place, plug_all, Step, go_on, stop, rebalance,
}
use just_kit.Avl.Order.{inorder}
use just_kit.Avl.Balance.{IsBalanced, tree_of, Breaks, rebalance_node-Settled}

-- What is left of the loop after a round that left `s` at the slot `p`.
abbrev pub resume : Place → Step → Run Tree
resume p s = elim s [ go_on u ↦ rebalance p u | stop u ↦ ok (plug_all p u) ]

-- A slot that held a tree of height `old` now holds a balanced tree of the entries `xs` whose
-- height is off by one at most, and is the old one if the loop has stopped.
pub record Adjusted (old : ℕ) (xs : List Entry) (s : Step) : Type 0 where
  pub balanced : IsBalanced (tree_of s)
  pub entries : inorder (tree_of s) ≡ xs
  pub grown : height_of (tree_of s) ≤ old + 1
  pub shrunk : old ≤ height_of (tree_of s) + 1
  pub settled : Breaks s → height_of (tree_of s) ≡ old

pub resume-nil : (s : Step) → resume [] s ≡ ok (tree_of s)
unfolding rebalance
resume-nil (go_on t) = refl
resume-nil (stop t) = refl

module _ {κ} (Q : Tree → Type κ) (p : Place) where
  pub climb_left :
      (e : Entry) (h : ℕ) (r : Tree) (old : ℕ) (xs : List Entry) (s : Step)
      → IsBalanced r
      → h ≡ max old (height_of r) + 1
      → old ≤ height_of r + 1
      → height_of r ≤ old + 1
      → Adjusted old xs s
      → ((s' : Step) → Adjusted h (xs ++ (e ∷ inorder r)) s' → Returns Q (resume p s'))
      → Returns Q (resume (left_of e h r ∷ p) s)
  unfolding rebalance
  climb_left e h r old xs (stop u) br eq lo hi a k = k (stop (node u e h r)) (record {
    balanced = (
      a.balanced,
      br,
      omega (arith, a.settled tt),
      omega (arith, a.settled tt),
      omega (arith, a.settled tt),
    );
    entries = ap (λ ys. ys ++ (e ∷ inorder r)) a.entries;
    grown = omega arith;
    shrunk = omega arith;
    settled = λ _. refl;
  })
  climb_left e h r old xs (go_on u) br eq lo hi a k =
      Returns-bind (rebalance_node-Settled u e h r a.balanced br (omega arith) (omega arith))
        λ s' (t, kept). k s' (record {
          balanced = t.balanced;
          entries = rw (← a.entries) t.same;
          grown = omega (arith, t.low, t.high, t.even, a.grown, a.shrunk);
          shrunk = omega (arith, t.low, t.high, t.even, a.grown, a.shrunk);
          settled = λ b. ap height_of (kept b);
        })

  pub climb_right :
      (l : Tree) (e : Entry) (h : ℕ) (old : ℕ) (xs : List Entry) (s : Step)
      → IsBalanced l
      → h ≡ max (height_of l) old + 1
      → old ≤ height_of l + 1
      → height_of l ≤ old + 1
      → Adjusted old xs s
      → ((s' : Step) → Adjusted h (inorder l ++ (e ∷ xs)) s' → Returns Q (resume p s'))
      → Returns Q (resume (right_of l e h ∷ p) s)
  unfolding rebalance
  climb_right l e h old xs (stop u) bl eq lo hi a k = k (stop (node l e h u)) (record {
    balanced = (
      bl,
      a.balanced,
      omega (arith, a.settled tt),
      omega (arith, a.settled tt),
      omega (arith, a.settled tt),
    );
    entries = ap (λ ys. inorder l ++ (e ∷ ys)) a.entries;
    grown = omega arith;
    shrunk = omega arith;
    settled = λ _. refl;
  })
  climb_right l e h old xs (go_on u) bl eq lo hi a k =
      Returns-bind (rebalance_node-Settled l e h u bl a.balanced (omega arith) (omega arith))
        λ s' (t, kept). k s' (record {
          balanced = t.balanced;
          entries = rw (← a.entries) t.same;
          grown = omega (arith, t.low, t.high, t.even, a.grown, a.shrunk);
          shrunk = omega (arith, t.low, t.high, t.even, a.grown, a.shrunk);
          settled = λ b. ap height_of (kept b);
        })
