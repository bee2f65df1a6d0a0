-- ===== src/Avl/Remove.antt =====
-- `jk_avl_remove` refines removal from a sorted list, where the keys are distinct.
use Prim.Native.Nat.{ℕ, suc, ◌+◌, ◌≤◌}
use mathlib.Core.List.{append_assoc}
use just_kit.Prelude.{
  ◌≡◌, true, refl, sym, ◌∙◌, List, [], ◌∷◌, ◌++◌, some, arith, length, Run, ◌>>=◌, Returns, returns,
  Returns-if_bind, ltb, ltb→lt, tests→lt, lt→ltb, ◌==◌, ==_iff,
}
use just_kit.Avl.{
  Entry, Tree, empty_node, node, height_of, left_of, right_of, Place, Step, go_on, max_height,
  rebalance, remove_place, remove_found, last_place, subtree_at, unlink, remove,
}
use just_kit.Avl.Order.{inorder, erase_key, lookup_key}
use just_kit.Avl.Keys.{
  Ascending, Ascending-Sorted, Ascending-Cut, erase_key-Ascending, lookup_key-below,
  lookup_key-above, lookup_key-here, erase_key-below, erase_key-here, erase_key-above,
}
use just_kit.Avl.Balance.{IsBalanced, tree_of}
use just_kit.Avl.Climb.{resume, resume-nil, Adjusted, climb_left, climb_right}
use just_kit.Avl.Insert.{IsAvl}

-- The stores that follow the second loop of `jk_avl_remove`, and the climb.
abbrev replace_by_last : ℕ → Tree → Place → Tree × Entry × Place → Run Tree
replace_by_last h r p (rest, last, spine) = rebalance (spine ++ (left_of last h r ∷ p)) rest

-- The second loop takes the last entry off the left subtree, whatever follows.
last_below {κ} :
    (Q : Tree → Type κ) (h : ℕ) (r : Tree) (p : Place) (l : Tree) (e : Entry) (h' : ℕ) (r' : Tree)
    (used : ℕ) (spine : Place)
    → IsBalanced (node l e h' r')
    → h' + used ≤ suc max_height
    → ((last : Entry) (front : List Entry) (s : Step)
        → inorder (node l e h' r') ≡ front ++ (last ∷ [])
        → Adjusted h' front s
        → Returns Q (resume (spine ++ (left_of last h r ∷ p)) s))
    → Returns Q (last_place (node l e h' r') used spine >>= replace_by_last h r p)
unfolding last_place
last_below Q h r p l e h' empty_node used spine b room k = k e (inorder l) (go_on l) refl (record {
  balanced = b.0;
  entries = refl;
  grown = omega arith;
  shrunk = omega arith;
  settled = λ x. absurd x;
})
last_below Q h r p l e h' (node rl re rh rr) used spine b room k =
    rw (lt→ltb used max_height (omega arith)) (
      last_below Q h r p rl re rh rr (used + 1) (right_of l e h' ∷ spine) b.1 (omega arith)
        λ last front s eq a.
          climb_right Q (spine ++ (left_of last h r ∷ p)) l e h' rh front s b.0 b.2 b.4 b.3 a
            λ s' a'. k last (inorder l ++ (e ∷ front)) s' (rw eq (simp append_assoc)) a')

-- Unlinking the root of a balanced subtree takes its entry out.
unlink_below {κ} :
    (Q : Tree → Type κ) (l : Tree) (e : Entry) (h : ℕ) (r : Tree) (p : Place)
    → IsBalanced (node l e h r)
    → h + length p ≤ max_height
    → ((s : Step) → Adjusted h (inorder l ++ inorder r) s → Returns Q (resume p s))
    → Returns Q (unlink (node l e h r) p)
unfolding unlink
unlink_below Q empty_node e h r p b room k = k (go_on r) (record {
  balanced = b.1;
  entries = refl;
  grown = omega arith;
  shrunk = omega arith;
  settled = λ x. absurd x;
})
unlink_below Q (node ll le lh lr) e h r p b room k =
    rw (lt→ltb (length p + 1) max_height (omega arith)) (
      last_below Q h r p ll le lh lr (length p + 1) [] b.0 (omega arith) λ last front s eq a.
        climb_left Q p last h r lh front s b.1 b.2 b.3 b.4 a
          λ s' a'. k s' (rw (eq, append_assoc) a'))

-- Where the search found the node to delete itself, its links are those that are read.
unlink_found {κ} :
    (Q : Tree → Type κ) (d : Entry) (l : Tree) (e : Entry) (h : ℕ) (r : Tree) (p : Place)
    → some e ≡ some d
    → Returns Q (unlink (node l e h r) p)
    → Returns Q (remove_found d (node l e h r, p))
unfolding remove_found subtree_at
unlink_found Q d l e h r p it run =
    let here : (e.addr == d.addr) ≡ true = ground arith in rw here run

-- The search, the unlinking and the climb together, below the slot `p`.
remove_below {κ} :
    (Q : Tree → Type κ) (d : Entry) (t : Tree) (p : Place)
    → IsBalanced t
    → Ascending (inorder t)
    → lookup_key d.key (inorder t) ≡ some d
    → height_of t + length p ≤ max_height
    → ((s : Step) → Adjusted (height_of t) (erase_key d.key (inorder t)) s → Returns Q (resume p s))
    → Returns Q (remove_place t d.key p >>= remove_found d)
unfolding remove_place lookup_key
remove_below Q d empty_node p b s present room k = absurd (ground arith)
remove_below Q d (node l e h r) p b s present room k =
    let cut = Ascending-Cut (inorder l) e (inorder r) s in
    let xs = inorder l in
    let ys = inorder r in
    rw (lt→ltb (length p) max_height (omega arith)) (
      Returns-if_bind _ _ _ (d.key == e.key)
        (λ same.
          let eq : e.key ≡ d.key = sym ((==_iff d.key e.key).0 same) in
          let it : some e ≡ some d = sym (lookup_key-here d.key e ys xs eq cut.less) ∙ present in
          unlink_found Q d l e h r p it
            (unlink_below Q l e h r p b room (rw (erase_key-here d.key e ys xs eq cut.less) at k)))
        (λ other.
          Returns-if_bind _ _ _ (ltb d.key e.key)
            (λ less.
              let lt = ltb→lt d.key e.key less in
              remove_below Q d l (left_of e h r ∷ p) b.0 cut.left
                (sym (lookup_key-below d.key e ys xs lt cut.greater) ∙ present) (omega arith)
                λ s' a.
                  climb_left Q p e h r (height_of l) _ s' b.1 b.2 b.3 b.4 a
                    (rw (erase_key-below d.key e ys xs lt cut.greater) at k))
            (λ more.
              let gt = tests→lt d.key e.key other more in
              remove_below Q d r (right_of l e h ∷ p) b.1 cut.right
                (sym (lookup_key-above d.key e ys xs gt cut.less) ∙ present) (omega arith)
                λ s' a.
                  climb_right Q p l e h (height_of r) _ s' b.0 b.2 b.4 b.3 a
                    (rw (erase_key-above d.key e ys xs gt cut.less) at k))))

-- What a removal of the node with key `k` from `t` leaves.
pub record Removed (k : ℕ) (t t' : Tree) : Type 0 where
  pub avl : IsAvl t'
  pub distinct : Ascending (inorder t')
  pub entries : inorder t' ≡ erase_key k (inorder t)
  pub height : height_of t ≤ height_of t' + 1

-- Removing the node that holds a key from a balanced search tree with distinct keys, of height at
-- most 41, dereferences no null pointer and overflows nothing, and gives a balanced search tree
-- with distinct keys, one level lower at most, of all the other entries in their order.
pub remove-Removed :
    (d : Entry) (t : Tree)
    → IsAvl t
    → Ascending (inorder t)
    → lookup_key d.key (inorder t) ≡ some d
    → height_of t ≤ max_height
    → Returns (Removed d.key t) (remove d t)
unfolding remove
remove-Removed d t v distinct present room =
    remove_below (Removed d.key t) d t [] v.balanced distinct present (omega arith) λ s a.
      let rising : Ascending (inorder (tree_of s)) =
        rw a.entries (erase_key-Ascending d.key (inorder t) distinct) in
      rw (resume-nil s) (
        returns (record {
          avl = record {
            balanced = a.balanced;
            sorted = Ascending-Sorted (inorder (tree_of s)) rising;
          };
          distinct = rising;
          entries = a.entries;
          height = a.shrunk;
        }))
