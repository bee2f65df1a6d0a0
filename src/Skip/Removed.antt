-- ===== src/Skip/Removed.antt =====
-- The loop that takes a tower out, and the memory after its release.
use just_kit.Prelude.{
  ℕ, ◌≤◌, ◌≡◌, refl, ◌∙◌, true, false, List, ◌∷◌, ◌++◌, some, arith, ltb, ok, Run, Returns,
}
use just_kit.Skip.{Memory, Skip, max_level, Update, release, unlink}
use just_kit.Skip.Towers.{
  Tower, first_at, last_at, Holds, top, Stands-Reads, Holds-drop, NotIn-drop, NotIn-take,
  Distinct-take,
}
use just_kit.Skip.Cut.{Cut, Cut-reads}
use just_kit.Skip.Relink.{last_at-NotIn, Relinked, last_at-apart, Holds-keep, relink-Holds}
use just_kit.Skip.Between.{Distinct-without, NotIn-others}
use just_kit.Skip.Unlink.{Unlinked, unlink-Unlinked}
use just_kit.Skip.Lower.{first_at-real, AllFit-right}

module _ (s : Skip) (key : ℕ) (bs : List Tower) (t : Tower) (rest : List Tower)
    (c : Cut s key bs (t ∷ rest)) where
  -- The memory after the loop that unlinks, and the release.
  pub Unlinked-Holds :
      (m' : Memory)
      → t.height ≤ max_level
      → Unlinked s.memory t.addr t.height
          (λ j. last_at j s.header bs)
          (λ j. first_at j rest)
          t.height
          m'
      → Holds (release t.addr m') (top s.header ∷ (bs ++ rest))
  Unlinked-Holds m' low_level l =
      let last = λ (j : ℕ). last_at j s.header bs in
      let first = λ (j : ℕ). first_at j rest in
      let (out, others) = NotIn-others t rest bs c.distinct.1 in
      let r : Relinked s.memory (release t.addr m') t.addr t.height last first = record {
        same_key = λ x h. rw h (l.relinked.same_key x h);
        same_value = λ x h. rw h (l.relinked.same_value x h);
        same_size = λ x h. rw h (l.relinked.same_size x h);
        links = λ x j h. rw h (l.relinked.links x j h);
      } in
      relink-Holds s.memory (release t.addr m') t.addr t.height last first r (t ∷ rest) rest
        (λ j h. refl) (λ j h. rw h refl) (λ j. s.header) (top s.header ∷ bs)
        (λ j h. let in_header : ltb j max_level ≡ true = ground (arith, h) in rw in_header refl)
        (
          let apart = (NotIn-drop s.header bs (t ∷ rest) c.distinct.0).0 in ground (arith, apart),
          out,
        )
        (NotIn-take s.header bs (t ∷ rest) c.distinct.0, Distinct-take bs (t ∷ rest) c.distinct.1)
        c.holds
        (Holds-keep s.memory (release t.addr m') t.addr t.height last first r rest others
          (λ j h.
            last_at-apart j s.header bs rest (NotIn-drop s.header bs (t ∷ rest) c.distinct.0).1
              (Distinct-without t rest bs c.distinct.1))
          (Holds-drop s.memory bs (t ∷ rest) c.holds.1).1)

  -- The loop that unlinks the tower behind the key.
  pub Cut-unlink :
      (update : Update)
      → s.level ≤ max_level
      → ((j : ℕ) → ltb j s.level ≡ true → update j ≡ some (last_at j s.header bs))
      → Returns
          (Unlinked s.memory t.addr t.height
            (λ j. last_at j s.header bs)
            (λ j. first_at j rest)
            t.height)
          (unlink s.level 0 t.addr update s.memory)
  Cut-unlink update low_level updates =
      let (out, others) = NotIn-others t rest bs c.distinct.1 in
      let stands = (Holds-drop s.memory bs (t ∷ rest) c.holds.1).0 in
      let fits = (AllFit-right s.level bs (t ∷ rest) c.fit).1 in
      let apart = (NotIn-drop s.header bs (t ∷ rest) c.distinct.0).0 in
      let real = NotIn-drop 0 bs (t ∷ rest) c.real.1 in
      let real_addr = real.0 in
      unlink-Unlinked s.memory t.addr t.height (λ j. last_at j s.header bs) (λ j. first_at j rest)
        update s.level fits updates
        (λ j h. last_at-NotIn j t.addr s.header bs (ground (arith, apart)) out)
        (λ j h.
          Cut-reads s key bs (t ∷ rest) c low_level j (ground (arith, h, fits, low_level))
          ∙ reach j h)
        (λ j h above. (
          first_at j rest,
          Cut-reads s key bs (t ∷ rest) c low_level j (ground (arith, h, low_level)) ∙ pass j above,
          first_at-real j t.addr rest real_addr others,
        ))
        (Stands-Reads s.memory t rest stands) s.level 0 s.memory (omega arith) (omega arith)
        (record {
          relinked = record {
            same_key = λ x h. refl;
            same_value = λ x h. refl;
            same_size = λ x h. refl;
            links = λ x j h. let none_yet : ltb j 0 ≡ false = ground arith in rw none_yet refl;
          };
          same = λ j. refl;
        })
    where
      reach :
          (j : ℕ) → ltb j t.height ≡ true → ◌≡◌ {A = Run ℕ} (ok (first_at j (t ∷ rest))) (ok t.addr)
      reach j h = rw h refl

      pass :
          (j : ℕ)
          → ltb j t.height ≡ false
          → ◌≡◌ {A = Run ℕ} (ok (first_at j (t ∷ rest))) (ok (first_at j rest))
      pass j h = rw h refl
