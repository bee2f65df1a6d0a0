-- ===== src/Skip/Life.antt =====
-- `jk_skip_new` and `jk_skip_free`.
use mathlib.Core.Path.{subst}
use just_kit.Prelude.{
  ℕ, zero, suc, ◌+◌, ◌<◌, ◌≡◌, ◌≢◌, refl, sym, ap, ◌∙◌, Bool, true, false, List, [], ◌∷◌, Option,
  some, none, arith, length, ltb, lt→ltb, ◌==◌, ==_iff, NotIn, Distinct, Bool-cases, inl, inr,
  Returns, returns, Returns-bind, Returns-map,
}
use just_kit.Skip.{
  Node, Memory, Skip, max_level, put, release, node_new, clear_forward, clear_header, new,
  free_nodes, free,
}
use just_kit.Skip.Towers.{Tower, addrs, first_at, Holds, AllFit, top, IsSkip, Stands-Reads}
use just_kit.Skip.Link.{write-Wrote}

-- The first pointers of a node are null.
record Cleared (n i : ℕ) (m : Memory) (m' : Memory) : Type 0 where
  pub same_key : (m' n).key ≡ (m n).key
  pub same_value : (m' n).value ≡ (m n).value
  pub same_size : (x : ℕ) → (m' x).size ≡ (m x).size
  pub links : (j : ℕ) → ltb j i ≡ true → (m' n).forward j ≡ some 0

module _ (n : ℕ) (m : Memory) (high : (m n).size ≡ max_level) where
  clear_forward-Cleared :
      (rounds i : ℕ) (m0 : Memory)
      → i + rounds ≡ max_level
      → Cleared n i m m0
      → Returns (Cleared n max_level m) (clear_forward rounds i n m0)
  unfolding clear_forward
  clear_forward-Cleared zero i m0 e c =
      let done : i ≡ max_level = omega (arith, e) in returns (subst (λ k. Cleared n k m m0) done c)
  clear_forward-Cleared (suc rounds) i m0 e c =
      let mine : (n == n) ≡ true = (==_iff n n).1 refl in
      Returns-bind
        (write-Wrote m0 n i 0 (lt→ltb i (m0 n).size (omega (arith, e, c.same_size n, high))))
        λ m1 w. clear_forward-Cleared rounds (i + 1) m1 (omega (arith, e)) (record {
          same_key = w.same_key n ∙ c.same_key;
          same_value = w.same_value n ∙ c.same_value;
          same_size = λ x. w.same_size x ∙ c.same_size x;
          links = λ j h. ground (arith, w.links n j, c.links j, mine, h);
        })

-- What `jk_skip_new` gives: null where malloc fails, and an empty list else.
abbrev pub Made : Memory → Bool → Option ℕ → Option Skip → Type 0
Made m false header r = r ≡ none
Made m true none r = r ≡ none
Made m true (some h) r =
    (s : Skip) × (r ≡ some s)
    × (s.header ≡ h)
    × IsSkip s []
    × ((x : ℕ) → (h == x) ≡ false → (s.memory x).size ≡ (m x).size)

-- about
pub new-Made :
    (list : Bool) (header : Option ℕ) (m : Memory)
    → header ≢ some 0
    → Returns (Made m list header) (new list header m)
unfolding new node_new clear_header
new-Made false header m real = returns refl
new-Made true none m real = returns refl
new-Made true (some h) m real =
    let node : Node = record { key = 0; value = 0; size = max_level; forward = λ i. none } in
    let mine : (h == h) ≡ true = (==_iff h h).1 refl in
    Returns-bind
      (clear_forward-Cleared h (put m h node) (rw mine refl) max_level 0 (put m h node)
        (omega arith)
        (record {
          same_key = refl;
          same_value = refl;
          same_size = λ x. refl;
          links = λ j k. absurd (ground (arith, k));
        }))
      λ m' c. returns (
        _,
        refl,
        refl,
        record {
          nodes = (
            record {
              same_key = c.same_key ∙ rw mine refl;
              same_value = c.same_value ∙ rw mine refl;
              same_size = c.same_size h ∙ rw mine refl;
              links = c.links;
            },
            tt,
          );
          distinct = (tt, tt);
          real = (
            elim (Bool-cases (0 == h)) [
              | inl same ↦ absurd (real (ap some (sym ((==_iff 0 h).0 same))))
              | inr other ↦ other
            ],
            tt,
          );
          sorted = tt;
          fit = tt;
          some_level = omega arith;
          small_level = omega arith;
          count = omega arith;
        },
        λ x k. c.same_size x ∙ rw k refl,
      )

abbrev pub AllFreed : Memory → List ℕ → Type 0
AllFreed m [] = Unit
AllFreed m (a ∷ xs) = ((m a).size ≡ 0) × AllFreed m xs

-- Each of `xs` has been released, and nothing else has changed.
pub record Freed (m : Memory) (xs : List ℕ) (m' : Memory) : Type 0 where
  pub freed : AllFreed m' xs
  pub kept : (x : ℕ) → NotIn x xs → m' x ≡ m x

release-Holds :
    (a : ℕ) (m : Memory) (ts : List Tower)
    → NotIn a (addrs ts)
    → Holds m ts
    → Holds (release a m) ts
release-Holds a m [] out v = tt
release-Holds a m (t ∷ ts) out v = (
  record {
    same_key = let o = out.0 in rw o v.0.same_key;
    same_value = let o = out.0 in rw o v.0.same_value;
    same_size = let o = out.0 in rw o v.0.same_size;
    links = λ j h. let o = out.0 in rw o (v.0.links j h);
  },
  release-Holds a m ts out.1 v.1,
)

-- A node released before the others.
Freed-release :
    (a : ℕ) (m m' : Memory) (xs : List ℕ)
    → NotIn a xs
    → Freed (release a m) xs m'
    → Freed m (a ∷ xs) m'
Freed-release a m m' xs out f =
    let mine : (a == a) ≡ true = (==_iff a a).1 refl in
    record {
      freed = (ap (λ node. node.size) (f.kept a out) ∙ rw mine refl, f.freed);
      kept = λ x h.
          f.kept x h.1
          ∙ (let o = h.0 in let apart : (a == x) ≡ false = ground (arith, o) in rw apart refl);
    }

free_nodes-Freed :
    (fuel level : ℕ) (ts : List Tower) (m : Memory)
    → length ts < fuel
    → Holds m ts
    → AllFit level ts
    → Distinct (addrs ts)
    → NotIn 0 (addrs ts)
    → Returns (Freed m (addrs ts)) (free_nodes fuel (first_at 0 ts) m)
unfolding free_nodes
free_nodes-Freed zero level ts m enough v fit d real = absurd (omega (arith, enough))
free_nodes-Freed (suc fuel) level [] m enough v fit d real =
    returns (record { freed = tt; kept = λ x h. refl })
free_nodes-Freed (suc fuel) level (t ∷ ts) m enough v fit d real =
    let some_height : ltb 0 t.height ≡ true = lt→ltb 0 t.height fit.0 in
    let apart = real.0 in
    let not_null : (t.addr == 0) ≡ false = ground (arith, apart) in
    rw some_height (
      rw not_null (
        rw (Stands-Reads m t ts v.0 0 some_height) (
          Returns-map
            (free_nodes-Freed fuel level ts (release t.addr m) (omega (arith, enough))
              (release-Holds t.addr m ts d.0 v.1) fit.2 d.1 real.1)
            λ m'. Freed-release t.addr m m' (addrs ts) d.0)))

-- about
pub free-Freed :
    (s : Skip) (ts : List Tower) (fuel : ℕ)
    → IsSkip s ts
    → length ts < fuel
    → Returns (Freed s.memory (s.header ∷ addrs ts)) (free fuel s)
unfolding free
free-Freed s ts fuel v enough = rw (Stands-Reads s.memory (top s.header) ts v.nodes.0 0 refl) (
    Returns-map
      (free_nodes-Freed fuel s.level ts (release s.header s.memory) enough
        (release-Holds s.header s.memory ts v.distinct.0 v.nodes.1) v.fit v.distinct.1 v.real.1)
      λ m'. Freed-release s.header s.memory m' (addrs ts) v.distinct.0)
