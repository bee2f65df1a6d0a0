-- ===== src/Skip/Cut.antt =====
-- A skip list at a key, and the search for it.
use mathlib.Core.Path.{subst}
use just_kit.Prelude.{
  ℕ, ◌<◌, ◌≤◌, ◌≡◌, sym, true, List, ◌∷◌, ◌++◌, none, arith, length, ltb, NotIn, Distinct, ok,
  Returns,
}
use just_kit.Skip.{Skip, max_level, read, search}
use just_kit.Skip.Towers.{
  Tower, addrs, first_at, last_at, Holds, AllFit, AllBelow, NoneBelow, top, IsSkip, before, behind,
  before-behind, before-AllBelow, behind-NoneBelow, Stands-Reads,
}
use just_kit.Skip.Search.{Searched, search-Searched}
use just_kit.Skip.Relink.{last_at-first_at}

-- A skip list at a key: the towers before it, and behind it.
pub record Cut (s : Skip) (key : ℕ) (bs after : List Tower) : Type 0 where
  pub holds : Holds s.memory (top s.header ∷ (bs ++ after))
  pub below : AllBelow key bs
  pub none_below : NoneBelow key after
  pub distinct : Distinct (s.header ∷ addrs (bs ++ after))
  pub real : NotIn 0 (s.header ∷ addrs (bs ++ after))
  pub fit : AllFit s.level (bs ++ after)

pub cut :
    (s : Skip) (key : ℕ) (ts : List Tower) → IsSkip s ts → Cut s key (before key ts) (behind key ts)
cut s key ts v =
    let e = sym (before-behind key ts) in
    record {
      holds = subst (λ xs. Holds s.memory (top s.header ∷ xs)) e v.nodes;
      below = before-AllBelow key ts;
      none_below = behind-NoneBelow key ts v.sorted;
      distinct = subst (λ xs. Distinct (s.header ∷ addrs xs)) e v.distinct;
      real = subst (λ xs. NotIn 0 (s.header ∷ addrs xs)) e v.real;
      fit = subst (AllFit s.level) e v.fit;
    }

module _ (s : Skip) (key : ℕ) (bs after : List Tower) (c : Cut s key bs after)
    (low_level : s.level ≤ max_level) where
  pub Cut-search :
      (fuel : ℕ)
      → length bs < fuel
      → Returns
          (Searched s.memory key after c.none_below s.level s.header bs (λ i. none))
          (search fuel s.level s.memory key s.header (λ i. none))
  Cut-search fuel enough =
      search-Searched s.memory key after c.none_below fuel s.level s.header bs (λ i. none) enough
        low_level
        (record {
          reads = λ j h.
              Stands-Reads s.memory (top s.header) (bs ++ after) c.holds.0 j (ground (arith, h));
          holds = c.holds.1;
          below = c.below;
          real = c.real.1;
        })

  -- The last tower before the key leads to the first one behind it.
  pub Cut-reads :
      (j : ℕ)
      → ltb j max_level ≡ true
      → read s.memory (last_at j s.header bs) j ≡ ok (first_at j after)
  Cut-reads j h =
      last_at-first_at s.memory j s.header bs after
        (Stands-Reads s.memory (top s.header) (bs ++ after) c.holds.0 j h) c.holds.1
