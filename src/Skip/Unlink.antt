-- ===== src/Skip/Unlink.antt =====
-- The loop of `jk_skip_delete` that takes a node out of its levels.
use mathlib.Core.Path.{subst}
use just_kit.Prelude.{
  ℕ, zero, suc, ◌+◌, ◌≤◌, ◌≡◌, refl, ◌∙◌, true, false, some, arith, ltb, lt→ltb, ◌==◌, ==_iff,
  Bool-cases, inl, inr, ok, Returns, returns, Returns-bind,
}
use just_kit.Skip.{Memory, read, Update, unlink}
use just_kit.Skip.Relink.{Relinked}
use just_kit.Skip.Link.{Wrote, write-Wrote, read-size, Relinked-read}

module _ (m : Memory) (n height : ℕ) (last first : ℕ → ℕ) where
  -- The node `n` is taken out at the levels below `i`, and is itself as it was.
  pub record Unlinked (i : ℕ) (m' : Memory) : Type 0 where
    pub relinked : Relinked m m' n i last first
    pub same : (j : ℕ) → read m' n j ≡ read m n j

  Wrote-read :
      (m0 m1 : Memory) (u i p x j : ℕ)
      → Wrote m0 u i p m1
      → (u == x) ≡ false
      → read m1 x j ≡ read m0 x j
  unfolding read
  Wrote-read m0 m1 u i p x j w apart =
      let kept : (m1 x).forward j ≡ (m0 x).forward j = ground (arith, w.links x j, apart) in
      rw (w.same_size x) (rw kept refl)

  Unlinked-next :
      (i : ℕ) (m0 m1 : Memory)
      → (n == last i) ≡ false
      → Unlinked i m0
      → Wrote m0 (last i) i (first i) m1
      → Unlinked (i + 1) m1
  Unlinked-next i m0 m1 apart l w = record {
    relinked = record {
      same_key = λ x h. w.same_key x ∙ l.relinked.same_key x h;
      same_value = λ x h. w.same_value x ∙ l.relinked.same_value x h;
      same_size = λ x h. w.same_size x ∙ l.relinked.same_size x h;
      links = λ x j h. ground (arith, w.links x j, l.relinked.links x j h);
    };
    same = λ j. Wrote-read m0 m1 (last i) i (first i) n j w (ground (arith, apart)) ∙ l.same j;
  }

  module _ (update : Update) (level : ℕ) (fits : height ≤ level)
      (updates : (j : ℕ) → ltb j level ≡ true → update j ≡ some (last j))
      (apart : (j : ℕ) → ltb j level ≡ true → (n == last j) ≡ false)
      (reads : (j : ℕ) → ltb j height ≡ true → read m (last j) j ≡ ok n)
      (above : (j : ℕ)
        → ltb j level ≡ true
        → ltb j height ≡ false
        → (p : ℕ) × (read m (last j) j ≡ ok p) × ((p == n) ≡ false))
      (leads : (j : ℕ) → ltb j height ≡ true → read m n j ≡ ok (first j)) where
    pub unlink-Unlinked :
        (rounds i : ℕ) (m0 : Memory)
        → i + rounds ≡ level
        → i ≤ height
        → Unlinked i m0
        → Returns (Unlinked height) (unlink rounds i n update m0)
    unfolding unlink
    unlink-Unlinked zero i m0 e low l =
        let done : i ≡ height = omega (arith, e, low, fits) in
        returns (subst (λ k. Unlinked k m0) done l)
    unlink-Unlinked (suc rounds) i m0 e low l =
        let here : ltb i level ≡ true = lt→ltb i level (omega (arith, e)) in
        let kept : ltb i i ≡ false = ground arith in
        let as_before : read m0 (last i) i ≡ read m (last i) i =
          Relinked-read m m0 n i last first (last i) i l.relinked (apart i here) kept in
        rw (updates i here) (elim (Bool-cases (ltb i height)) [
          | inl reaches ↦
              let mine : (n == n) ≡ true = (==_iff n n).1 refl in
              let found : read m0 (last i) i ≡ ok n = as_before ∙ reads i reaches in
              rw found (
                rw mine (
                  rw (l.same i ∙ leads i reaches) (
                    Returns-bind
                      (write-Wrote m0 (last i) i (first i) (read-size m0 (last i) i n found))
                      λ m1 w.
                        unlink-Unlinked rounds (i + 1) m1 (omega (arith, e))
                          (ground (arith, reaches)) (Unlinked-next i m0 m1 (apart i here) l w))))
          | inr short ↦
              let (p, found, other) = above i here short in
              let done : i ≡ height = ground (arith, short, low) in
              rw (as_before ∙ found) (rw other (returns (subst (λ k. Unlinked k m0) done l)))
        ])
