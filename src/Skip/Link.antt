-- ===== src/Skip/Link.antt =====
-- The loop of `jk_skip_insert` that links the new node.
use mathlib.Core.Path.{subst}
use just_kit.Prelude.{
  ℕ, zero, suc, ◌+◌, ◌≡◌, refl, ap, ◌∙◌, true, false, ◌&&◌, some, arith, ltb, lt→ltb, ◌==◌, ==_iff,
  if◌then◌else◌, Bool-cases, inl, inr, ok, Returns, returns, Returns-bind,
}
use just_kit.Skip.{Node, Memory, put, read, write, with_forward, Update, link}
use just_kit.Skip.Relink.{Relinked}

-- What a write changes.
pub record Wrote (m : Memory) (n i p : ℕ) (m' : Memory) : Type 0 where
  pub same_key : (x : ℕ) → (m' x).key ≡ (m x).key
  pub same_value : (x : ℕ) → (m' x).value ≡ (m x).value
  pub same_size : (x : ℕ) → (m' x).size ≡ (m x).size
  pub links :
      (x j : ℕ) → (m' x).forward j ≡ (if (n == x) && (i == j) then some p else (m x).forward j)

pub write-Wrote :
    (m : Memory) (n i p : ℕ) → ltb i (m n).size ≡ true → Returns (Wrote m n i p) (write m n i p)
unfolding write
write-Wrote m n i p within = rw within (
    returns (record {
      same_key = λ x. at (λ node. node.key) x refl;
      same_value = λ x. at (λ node. node.value) x refl;
      same_size = λ x. at (λ node. node.size) x refl;
      links = λ x j. elim (Bool-cases (n == x)) [
        | inl same ↦
            rw same (ap (λ y. if i == j then some p else (m y).forward j) ((==_iff n x).0 same))
        | inr other ↦ rw other refl
      ];
    }))
  where
    at :
        (f : Node → ℕ) (x : ℕ)
        → f (with_forward (m n) i p) ≡ f (m n)
        → f (put m n (with_forward (m n) i p) x) ≡ f (m x)
    at f x e = elim (Bool-cases (n == x)) [
      | inl same ↦ rw same (e ∙ ap (λ y. f (m y)) ((==_iff n x).0 same))
      | inr other ↦ rw other refl
    ]

pub read-size : (m : Memory) (n i p : ℕ) → read m n i ≡ ok p → ltb i (m n).size ≡ true
unfolding read
read-size m n i p h = elim (Bool-cases (ltb i (m n).size)) [
  | inl within ↦ within
  | inr beyond ↦ absurd (let k = rw beyond at h in cc)
]

-- A node of which no pointer at this level has been changed.
pub Relinked-read :
    (m m' : Memory) (a h : ℕ) (last v : ℕ → ℕ) (x j : ℕ)
    → Relinked m m' a h last v
    → (a == x) ≡ false
    → ltb j h ≡ false
    → read m' x j ≡ read m x j
unfolding read
Relinked-read m m' a h last v x j r apart kept =
    let same : (m' x).forward j ≡ (m x).forward j = r.links x j apart ∙ (rw kept refl) in
    rw (r.same_size x apart) (rw same refl)

module _ (m : Memory) (a height key value : ℕ) (last : ℕ → ℕ) (first : ℕ → ℕ) where
  -- The node at `a` is linked at the levels below `i`, at each between `last` and `first`.
  pub record Linked (i : ℕ) (m' : Memory) : Type 0 where
    pub relinked : Relinked m m' a i last (λ j. a)
    pub same_key : (m' a).key ≡ key
    pub same_value : (m' a).value ≡ value
    pub same_size : (m' a).size ≡ height
    pub links : (j : ℕ) → ltb j i ≡ true → (m' a).forward j ≡ some (first j)

  module _ (i : ℕ) (apart : (a == last i) ≡ false) (m0 m1 m2 : Memory) where
    -- A round of the loop.
    Linked-next :
        Linked i m0 → Wrote m0 a i (first i) m1 → Wrote m1 (last i) i a m2 → Linked (i + 1) m2
    Linked-next l w1 w2 = record {
      relinked = record {
        same_key = λ x h. w2.same_key x ∙ w1.same_key x ∙ l.relinked.same_key x h;
        same_value = λ x h. w2.same_value x ∙ w1.same_value x ∙ l.relinked.same_value x h;
        same_size = λ x h. w2.same_size x ∙ w1.same_size x ∙ l.relinked.same_size x h;
        links = λ x j h. ground (arith, w2.links x j, w1.links x j, l.relinked.links x j h);
      };
      same_key = w2.same_key a ∙ w1.same_key a ∙ l.same_key;
      same_value = w2.same_value a ∙ w1.same_value a ∙ l.same_value;
      same_size = w2.same_size a ∙ w1.same_size a ∙ l.same_size;
      links = λ j h. ground (arith, w2.links a j, w1.links a j, l.links j);
    }

  module _ (update : Update) (updates : (j : ℕ) → ltb j height ≡ true → update j ≡ some (last j))
      (reads : (j : ℕ) → ltb j height ≡ true → read m (last j) j ≡ ok (first j))
      (apart : (j : ℕ) → ltb j height ≡ true → (a == last j) ≡ false) where
    pub link-Linked :
        (rounds i : ℕ) (m0 : Memory)
        → i + rounds ≡ height
        → Linked i m0
        → Returns (Linked height) (link rounds i a update m0)
    unfolding link
    link-Linked zero i m0 e l =
        let done : i ≡ height = omega (arith, e) in returns (subst (λ k. Linked k m0) done l)
    link-Linked (suc rounds) i m0 e l =
        let here : ltb i height ≡ true = lt→ltb i height (omega (arith, e)) in
        let above : ltb i i ≡ false = ground arith in
        let next : read m0 (last i) i ≡ ok (first i) =
          Relinked-read m m0 a i last (λ j. a) (last i) i l.relinked (apart i here) above
          ∙ reads i here in
        rw (updates i here) (
          rw next (
            Returns-bind (write-Wrote m0 a i (first i) (rw l.same_size here)) λ m1 w1.
              Returns-bind
                (write-Wrote m1 (last i) i a
                  (rw (w1.same_size (last i)) (read-size m0 (last i) i (first i) next)))
                λ m2 w2.
                  link-Linked rounds (i + 1) m2 (omega (arith, e))
                    (Linked-next i (apart i here) m0 m1 m2 l w1 w2)))
