-- ===== src/Avl/Height.antt =====
-- How many nodes a balanced tree of a given height has at least, and so for how many nodes the stack
-- of 41 slots is enough.
use Prim.Native.Nat.{ℕ, zero, suc, ◌+◌, ◌≤◌, ◌<◌, max}
use native.Mathlib.Nat.{le_trans, le_refl, zero-add, suc-add}
use native.Mathlib.Decide.{dec_lt}
use just_kit.Prelude.{ap, ◌∙◌, ◌-◌, ◌≡◌, refl, arith, ◌∷◌, length, length-append, Returns}
use just_kit.Avl.{Entry, Tree, empty_node, node, height_of, max_height, insert}
use just_kit.Avl.Order.{inorder}
use just_kit.Avl.Balance.{IsBalanced}
use just_kit.Avl.Insert.{IsAvl, Inserted, insert-Inserted}

-- The least numbers of nodes of balanced trees of heights `n` and `n + 1`.
min_sizes : ℕ → ℕ × ℕ
min_sizes zero = (0, 1)
min_sizes (suc n) = ((min_sizes n).1, (min_sizes n).0 + (min_sizes n).1 + 1)

min_sizes-zero : (min_sizes zero).1 ≡ 1
unfolding min_sizes
min_sizes-zero = refl

min_sizes_next : (n : ℕ) → (min_sizes (suc n)).0 ≡ (min_sizes n).1
unfolding min_sizes
min_sizes_next n = refl

min_sizes_step : (n : ℕ) → (min_sizes (suc n)).1 ≡ (min_sizes n).0 + (min_sizes (suc n)).0 + 1
unfolding min_sizes
min_sizes_step n = refl

min_sizes_rise : (n : ℕ) → (min_sizes n).0 ≤ (min_sizes n).1
unfolding min_sizes
min_sizes_rise zero = omega arith
min_sizes_rise (suc n) = omega arith

min_sizes_mono : (n d : ℕ) → (min_sizes n).0 ≤ (min_sizes (d + n)).0
min_sizes_mono n zero = rw (zero-add n) (le_refl _)
min_sizes_mono n (suc d) =
    rw (suc-add d n)
      (omega (arith, min_sizes_mono n d, min_sizes_rise (d + n), min_sizes_next (d + n)))

size : Tree → ℕ
size t = length (inorder t)

size_lem : (t : Tree) → size t ≡ length (inorder t)
unfolding size
size_lem t = refl

size_node : (l : Tree) (e : Entry) (h : ℕ) (r : Tree) → size (node l e h r) ≡ size l + size r + 1
unfolding size
size_node l e h r = omega (arith, length-append (inorder l) (e ∷ inorder r))

least : ℕ → ℕ
least n = (min_sizes n).0

least_mono : (n d : ℕ) → least n ≤ least (d + n)
unfolding least
least_mono n d = min_sizes_mono n d

least_even : (n : ℕ) → least (suc n) ≤ least n + least n + 1
unfolding least
least_even zero = omega (arith, min_sizes_next 0, min_sizes-zero)
least_even (suc n) =
    omega (arith, min_sizes_next (suc n), min_sizes_step n, min_sizes_rise n, min_sizes_next n)

least_skew : (n : ℕ) → least (suc (suc n)) ≡ least n + least (suc n) + 1
unfolding least
least_skew n = min_sizes_next (suc n) ∙ min_sizes_step n

least_siblings :
    (a c s u : ℕ)
    → a ≤ c + 1
    → c ≤ a + 1
    → least a ≤ s
    → least c ≤ u
    → least (max a c + 1) ≤ s + u + 1
least_siblings a c s u p q la lc = elim (dec_lt a c) [
  | yes less ↦
      let e : max a c + 1 ≡ suc (suc a) = omega arith in
      let f : suc a ≡ c = omega arith in rw e (omega (arith, least_skew a, ap least f))
  | no more ↦ elim (dec_lt c a) [
    | yes less ↦
        let e : max a c + 1 ≡ suc (suc c) = omega arith in
        let f : suc c ≡ a = omega arith in rw e (omega (arith, least_skew c, ap least f))
    | no same ↦
        let e : max a c + 1 ≡ suc a = omega arith in
        let f : c ≡ a = omega arith in rw e (omega (arith, least_even a, ap least f))
  ]
]

least_le_size : (t : Tree) → IsBalanced t → least (height_of t) ≤ size t
unfolding least size min_sizes
least_le_size empty_node b = omega arith
least_le_size (node l e h r) b = rw b.2 (
    le_trans
      (least_siblings (height_of l) (height_of r) (size l) (size r) b.3 b.4 (least_le_size l b.0)
        (least_le_size r b.1))
      (omega (arith, size_node l e h r)))

-- The least number of nodes of height 42: the stack of 41 slots serves every smaller tree.
abbrev pub max_nodes : ℕ
max_nodes = 701408732

least_beyond : least 42 ≡ max_nodes
unfolding least min_sizes
least_beyond = refl

pub height_bound :
    (t : Tree) → IsBalanced t → length (inorder t) < max_nodes → height_of t ≤ max_height
height_bound t b small = elim (dec_lt max_height (height_of t)) [
  | no low ↦ omega arith
  | yes high ↦
      let e : (height_of t - 42) + 42 ≡ height_of t = omega arith in
      absurd (
        omega (
          arith,
          ap least e,
          least_mono 42 (height_of t - 42),
          least_beyond,
          least_le_size t b,
          size_lem t,
        ))
]

-- Inserting into a balanced search tree of fewer than 701408732 nodes never overflows the stack,
-- and gives what insertion promises.
pub insert_small-Inserted :
    (n : Entry) (t : Tree)
    → IsAvl t
    → length (inorder t) < max_nodes
    → Returns (Inserted n t) (insert n t)
insert_small-Inserted n t v small = insert-Inserted n t v (height_bound t v.balanced small)
