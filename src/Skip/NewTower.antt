-- ===== src/Skip/NewTower.antt =====
-- The memory around a new tower, before and after the loop that links it.
use just_kit.Prelude.{
  ℕ, ◌≤◌, ◌≡◌, refl, true, false, List, ◌∷◌, ◌++◌, none, arith, ltb, ◌==◌, ==_iff, NotIn,
}
use just_kit.Skip.{Memory, Skip, max_level, put}
use just_kit.Skip.Towers.{
  Tower, addrs, first_at, last_at, Holds, top, Holds-drop, NotIn-drop, NotIn-take, Distinct-take,
}
use just_kit.Skip.Cut.{Cut}
use just_kit.Skip.Relink.{last_at-apart, Holds-keep, relink-Holds}
use just_kit.Skip.Link.{Linked}

abbrev pub new_tower : (key value a height : ℕ) → Tower
new_tower key value a height = record { addr = a; key = key; value = value; height = height }

module _ (s : Skip) (key value a height : ℕ) (bs after : List Tower) (c : Cut s key bs after) where
  -- The memory after the loop that links.
  pub Linked-Holds :
      (m' : Memory)
      → height ≤ max_level
      → NotIn a (s.header ∷ addrs (bs ++ after))
      → Linked s.memory a height key value
          (λ j. last_at j s.header bs)
          (λ j. first_at j after)
          height
          m'
      → Holds m' (top s.header ∷ (bs ++ (new_tower key value a height ∷ after)))
  Linked-Holds m' low_level out l =
      relink-Holds s.memory m' a height (λ j. last_at j s.header bs) (λ j. a) l.relinked after
        (new_tower key value a height ∷ after) (λ j h. rw h refl) (λ j h. rw h refl) (λ j. s.header)
        (top s.header ∷ bs)
        (λ j h. let in_header : ltb j max_level ≡ true = ground (arith, h) in rw in_header refl)
        (out.0, NotIn-take a bs after out.1)
        (NotIn-take s.header bs after c.distinct.0, Distinct-take bs after c.distinct.1) c.holds
        (
          record {
            same_key = l.same_key;
            same_value = l.same_value;
            same_size = l.same_size;
            links = l.links;
          },
          Holds-keep s.memory m' a height (λ j. last_at j s.header bs) (λ j. a) l.relinked after
              (NotIn-drop a bs after out.1)
              (λ j h.
                last_at-apart j s.header bs after (NotIn-drop s.header bs after c.distinct.0)
                  c.distinct.1)
              (Holds-drop s.memory bs after c.holds.1),
        )

  -- The node that malloc has given, before it is linked.
  pub Linked-start :
      Linked s.memory a height key value
        (λ j. last_at j s.header bs)
        (λ j. first_at j after)
        0
        (put s.memory a (record { key = key; value = value; size = height; forward = λ i. none }))
  Linked-start =
      let here : (a == a) ≡ true = (==_iff a a).1 refl in
      record {
        relinked = record {
          same_key = λ x h. rw h refl;
          same_value = λ x h. rw h refl;
          same_size = λ x h. rw h refl;
          links = λ x j h. let none_yet : ltb j 0 ≡ false = ground arith in rw h (rw none_yet refl);
        };
        same_key = rw here refl;
        same_value = rw here refl;
        same_size = rw here refl;
        links = λ j h. absurd (ground (arith, h));
      }
