-- ===== src/Avl/Balance.antt =====
-- `jk_avl_rebalance`: the balance invariant, and what one round of the loop restores.
use Prim.Native.Nat.{ℕ, ◌+◌, ◌≤◌, max}
use mathlib.Core.List.{append_assoc}
use just_kit.Prelude.{
  ◌≡◌, refl, ◌∷◌, ◌++◌, arith, Returns, returns, Returns-if, Returns-bind, ◌⊎◌, ltb→lt,
  ltb-false→le, ==_iff, ltb, leb, leb-false→lt, ◌==◌,
}
use just_kit.Avl.{
  Entry, Tree, empty_node, node, height_of, Step, go_on, stop, max_of, rotate_left, rotate_right,
  rebalance_node,
}
use just_kit.Avl.Order.{inorder}

-- Every stored height is the height, and the heights of two siblings differ by at most one.
abbrev pub IsBalanced : Tree → Type 0
IsBalanced empty_node = Unit
IsBalanced (node l e h r) =
    IsBalanced l
    × IsBalanced r
    × (h ≡ max (height_of l) (height_of r) + 1)
    × (height_of l ≤ height_of r + 1)
    × (height_of r ≤ height_of l + 1)

abbrev pub tree_of : Step → Tree
tree_of (go_on t) = t
tree_of (stop t) = t

-- A rotation of two subtrees whose heights differ by two.
pub record Rotated (l : Tree) (e : Entry) (r t : Tree) : Type 0 where
  pub balanced : IsBalanced t
  pub same : inorder t ≡ inorder l ++ (e ∷ inorder r)
  pub low : max (height_of l) (height_of r) ≤ height_of t
  pub high : height_of t ≤ max (height_of l) (height_of r) + 1

pub rotate_right-Rotated :
    (l : Tree) (e : Entry) (r : Tree)
    → IsBalanced l
    → IsBalanced r
    → height_of l ≡ height_of r + 2
    → Returns (Rotated l e r) (rotate_right l e r)
unfolding rotate_right
rotate_right-Rotated empty_node e r bl br h = absurd (omega arith)
rotate_right-Rotated (node ll le lh empty_node) e r bl br h = returns (record {
  balanced = ground arith;
  same = simp append_assoc;
  low = omega arith;
  high = omega arith;
})
rotate_right-Rotated (node ll le lh (node lrl lre lrh lrr)) e r bl br h =
    Returns-if (leb lrh (height_of ll))
      (λ single. returns (record {
        balanced = ground arith;
        same = simp append_assoc;
        low = ground arith;
        high = ground arith;
      }))
      (λ double.
        let taller = leb-false→lt lrh (height_of ll) double in
        returns (record {
          balanced = (
            (bl.0, bl.1.0, omega arith, omega arith, omega arith),
            (bl.1.1, br, omega arith, omega arith, omega arith),
            omega arith,
            omega arith,
            omega arith,
          );
          same = simp append_assoc;
          low = ground arith;
          high = ground arith;
        }))

pub rotate_left-Rotated :
    (l : Tree) (e : Entry) (r : Tree)
    → IsBalanced l
    → IsBalanced r
    → height_of r ≡ height_of l + 2
    → Returns (Rotated l e r) (rotate_left l e r)
unfolding rotate_left
rotate_left-Rotated l e empty_node bl br h = absurd (omega arith)
rotate_left-Rotated l e (node empty_node re rh rr) bl br h = returns (record {
  balanced = ground arith;
  same = simp append_assoc;
  low = omega arith;
  high = omega arith;
})
rotate_left-Rotated l e (node (node rll rle rlh rlr) re rh rr) bl br h =
    Returns-if (leb rlh (height_of rr))
      (λ single. returns (record {
        balanced = ground arith;
        same = simp append_assoc;
        low = ground arith;
        high = ground arith;
      }))
      (λ double.
        let taller = leb-false→lt rlh (height_of rr) double in
        returns (record {
          balanced = (
            (bl, br.0.0, omega arith, omega arith, omega arith),
            (br.0.1, br.1, omega arith, omega arith, omega arith),
            omega arith,
            omega arith,
            omega arith,
          );
          same = simp append_assoc;
          low = ground arith;
          high = ground arith;
        }))

-- One round of the loop at a node whose subtrees are balanced and differ by two at most: `h` is the
-- height that the node had.  The loop breaks only if the node is balanced and has its old height.
pub record Settled (l : Tree) (e : Entry) (h : ℕ) (r : Tree) (s : Step) : Type 0 where
  pub balanced : IsBalanced (tree_of s)
  pub same : inorder (tree_of s) ≡ inorder l ++ (e ∷ inorder r)
  pub low : max (height_of l) (height_of r) ≤ height_of (tree_of s)
  pub high : height_of (tree_of s) ≤ max (height_of l) (height_of r) + 1
  pub even :
      (height_of (tree_of s) ≡ max (height_of l) (height_of r) + 1)
      ⊎ (height_of r + 2 ≤ height_of l)
      ⊎ (height_of l + 2 ≤ height_of r)

abbrev pub Breaks : Step → Type 0
Breaks (go_on t) = ⊥
Breaks (stop t) = Unit

max_of_lem : (a b : ℕ) → max_of a b ≡ max a b
max_of_lem a b = ground arith

pub rebalance_node-Settled :
    (l : Tree) (e : Entry) (h : ℕ) (r : Tree)
    → IsBalanced l
    → IsBalanced r
    → height_of l ≤ height_of r + 2
    → height_of r ≤ height_of l + 2
    → Returns
        (λ s. Settled l e h r s × (Breaks s → tree_of s ≡ node l e h r))
        (rebalance_node (node l e h r))
unfolding rebalance_node
rebalance_node-Settled l e h r bl br p q =
    Returns-if (ltb (height_of r + 1) (height_of l))
      (λ heavy.
        let gap = ltb→lt (height_of r + 1) (height_of l) heavy in
        Returns-bind (rotate_right-Rotated l e r bl br (omega arith)) λ t s. returns (
          record {
            balanced = s.balanced;
            same = s.same;
            low = s.low;
            high = s.high;
            even = omega arith;
          },
          λ b. absurd b,
        ))
      (λ light.
        Returns-if (ltb (height_of l + 1) (height_of r))
          (λ heavy.
            let gap = ltb→lt (height_of l + 1) (height_of r) heavy in
            Returns-bind (rotate_left-Rotated l e r bl br (omega arith)) λ t s. returns (
              record {
                balanced = s.balanced;
                same = s.same;
                low = s.low;
                high = s.high;
                even = omega arith;
              },
              λ b. absurd b,
            ))
          (λ even.
            let below = ltb-false→le (height_of r + 1) (height_of l) light in
            let above = ltb-false→le (height_of l + 1) (height_of r) even in
            let tall = max_of_lem (height_of l) (height_of r) in
            Returns-if (max_of (height_of l) (height_of r) + 1 == h)
              (λ done.
                let kept = (==_iff (max_of (height_of l) (height_of r) + 1) h).0 done in
                returns (
                  record {
                    balanced = (bl, br, omega arith, omega arith, omega arith);
                    same = refl;
                    low = omega arith;
                    high = omega arith;
                    even = omega arith;
                  },
                  λ b. refl,
                ))
              (λ more. returns (
                record {
                  balanced = (bl, br, omega arith, omega arith, omega arith);
                  same = refl;
                  low = omega arith;
                  high = omega arith;
                  even = omega arith;
                },
                λ b. absurd b,
              ))))
