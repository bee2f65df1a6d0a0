-- ===== src/Ring/Visits.antt =====
-- What the loops over a ring visit, after any additions and deletions.
use mathlib.Core.Path.{subst}
use just_kit.Prelude.{
  ℕ, zero, suc, ◌<◌, ◌≡◌, refl, sym, ap, ◌∙◌, Bool, true, false, List, [], ◌∷◌, ◌++◌, arith, length,
  ◌==◌, ==_iff, if◌then◌else◌, NotIn, Bool-cases, inl, inr, ok, Returns, returns, Returns-bind,
  Returns-map,
}
use just_kit.Ring.{
  Links, init, add, del, visit, for_each, for_each2, visit_safe, for_each_safe, for_each2_safe,
}
use just_kit.Ring.Segments.{
  Segment, IsRing, first_to, Segment-at, init-IsRing, add-IsRing, del-IsRing, ne_sym,
}
use just_kit.Ring.Mirror.{
  reversed, mirror, Segment-reversed, NotIn-reversed, length-reversed, mirror-del, mirror-IsRing,
}

module _ (l : Links) (b : ℕ) where
  -- From `a` on, the loop visits the nodes up to `b`.
  visit-next :
      (fuel a : ℕ) (xs : List ℕ)
      → length xs < fuel
      → NotIn b xs
      → Segment l a xs b
      → visit fuel l.next b (l.next a) ≡ ok xs
  unfolding visit
  visit-next zero a xs enough out s = absurd (omega (arith, enough))
  visit-next (suc fuel) a [] enough out s =
      let here : (l.next a == b) ≡ true = (==_iff (l.next a) b).1 s.0 in rw here refl
  visit-next (suc fuel) a (x ∷ xs) enough out (f, g, s) =
      let other : (l.next a == b) ≡ false =
        subst (λ z. (z == b) ≡ false) (sym f) (ne_sym b x out.0) in
      let rest : visit fuel l.next b (l.next (l.next a)) ≡ ok xs =
        ap (λ z. visit fuel l.next b (l.next z)) f
        ∙ visit-next fuel x xs (omega (arith, enough)) out.1 s in
      rw other (rw rest (ap (λ z. ok (z ∷ xs)) f))

visits :
    (l : Links) (head fuel : ℕ) (xs : List ℕ)
    → length xs < fuel
    → IsRing l head xs
    → (for_each fuel head l ≡ ok xs) × (for_each2 fuel head l ≡ ok (reversed xs))
unfolding for_each for_each2
visits l head fuel xs enough v = (
  visit-next l head fuel head xs enough v.distinct.0 v.nodes,
  visit-next (mirror l) head fuel head (reversed xs) (omega (arith, enough, length-reversed xs))
      (NotIn-reversed head xs v.distinct.0) (Segment-reversed l head head xs v.nodes),
)

-- The first node, and the one behind it.
first_two :
    (l : Links) (head x : ℕ) (xs : List ℕ)
    → Segment l head (x ∷ xs) head
    → (l.next head ≡ x) × (l.next x ≡ first_to xs head)
first_two l head x xs s = (s.0, (Segment-at l head head x [] xs s).1)

next-first : (l : Links) (a b : ℕ) (xs : List ℕ) → Segment l a xs b → l.next a ≡ first_to xs b
next-first l a b [] s = s.0
next-first l a b (x ∷ xs) s = s.0

-- Deleting each node in the safe loop, forwards or backwards.
module _ (view : Links → Links)
    (commutes : (z : ℕ) (l : Links) → view (del z l) ≡ del z (view l)) where
  visit_safe-del :
      (fuel head node n : ℕ) (xs : List ℕ) (l : Links)
      → length xs < fuel
      → IsRing (view l) head xs
      → (view l).next head ≡ node
      → (view l).next node ≡ n
      → Returns
          (λ r. (r.0 ≡ xs) × IsRing (view r.1) head [])
          (visit_safe fuel (λ k. (view k).next) del head node n l)
  unfolding visit_safe
  visit_safe-del zero head node n xs l enough v e f = absurd (omega (arith, enough))
  visit_safe-del (suc fuel) head node n [] l enough v e f =
      let here : (node == head) ≡ true = (==_iff node head).1 (sym e ∙ v.nodes.0) in
      rw here (returns (refl, v))
  visit_safe-del (suc fuel) head node n (x ∷ xs) l enough v e f =
      let at : node ≡ x = sym e ∙ v.nodes.0 in
      let other : (node == head) ≡ false =
        subst (λ z. (z == head) ≡ false) (sym at) (ne_sym head x v.distinct.0.0) in
      let left : IsRing (view (del node l)) head xs =
        subst (λ w. IsRing w head xs) (sym (commutes node l))
          (subst (λ z. IsRing (del z (view l)) head xs) (sym at)
            (del-IsRing (view l) head x [] xs v)) in
      let after : (view (del node l)).next head ≡ n =
        next-first (view (del node l)) head head xs left.nodes
        ∙ sym (first_two (view l) head x xs v.nodes).1
        ∙ ap (view l).next (sym at)
        ∙ f in
      rw other (
        Returns-bind
          (visit_safe-del fuel head n ((view (del node l)).next n) xs (del node l)
            (omega (arith, enough)) left after refl)
          λ r d. returns (ap (λ zs. node ∷ zs) d.0 ∙ ap (λ z. z ∷ xs) at, d.1))

-- What is done to a ring.
pub data Change : Type 0 where
  adds dels : ℕ → Change

abbrev pub apply : ℕ → List Change → Links → Links
apply head [] l = l
apply head (adds node ∷ es) l = apply head es (add head node l)
apply head (dels node ∷ es) l = apply head es (del node l)

-- The same, done to a list.
abbrev pub holds : ℕ → List ℕ → Bool
holds a [] = false
holds a (x ∷ xs) = if a == x then true else holds a xs

abbrev pub remove : ℕ → List ℕ → List ℕ
remove a [] = []
remove a (x ∷ xs) = if a == x then xs else x ∷ remove a xs

abbrev pub nodes_after : List Change → List ℕ → List ℕ
nodes_after [] xs = xs
nodes_after (adds node ∷ es) xs = nodes_after es (xs ++ (node ∷ []))
nodes_after (dels node ∷ es) xs = nodes_after es (remove node xs)

-- A node that is added is not in the ring, and one that is deleted is.
abbrev pub Proper : ℕ → List Change → List ℕ → Type 0
Proper head [] xs = Unit
Proper head (adds node ∷ es) xs = NotIn node (head ∷ xs) × Proper head es (xs ++ (node ∷ []))
Proper head (dels node ∷ es) xs = (holds node xs ≡ true) × Proper head es (remove node xs)

-- Where a node is in a list.
record Split (a : ℕ) (xs : List ℕ) : Type 0 where
  before : List ℕ
  after : List ℕ
  whole : xs ≡ before ++ (a ∷ after)
  removed : remove a xs ≡ before ++ after

holds-Split : (a : ℕ) (xs : List ℕ) → holds a xs ≡ true → Split a xs
holds-Split a [] h = absurd (cc)
holds-Split a (x ∷ xs) h = elim (Bool-cases (a == x)) [
  | inl same ↦ record {
    before = [];
    after = xs;
    whole = ap (λ z. z ∷ xs) (sym ((==_iff a x).0 same));
    removed = rw same refl;
  }
  | inr other ↦
      let rest = holds-Split a xs (rw other at h) in
      record {
        before = x ∷ rest.before;
        after = rest.after;
        whole = ap (λ zs. x ∷ zs) rest.whole;
        removed = rw other (ap (λ zs. x ∷ zs) rest.removed);
      }
]

apply-IsRing :
    (head : ℕ) (es : List Change) (xs : List ℕ) (l : Links)
    → Proper head es xs
    → IsRing l head xs
    → IsRing (apply head es l) head (nodes_after es xs)
apply-IsRing head [] xs l proper v = v
apply-IsRing head (adds node ∷ es) xs l proper v =
    apply-IsRing head es (xs ++ (node ∷ [])) (add head node l) proper.1
      (add-IsRing l head node xs v proper.0)
apply-IsRing head (dels node ∷ es) xs l proper v =
    let at = holds-Split node xs proper.0 in
    apply-IsRing head es (remove node xs) (del node l) proper.1 (
      subst (IsRing (del node l) head) (sym at.removed)
        (del-IsRing l head node at.before at.after (subst (IsRing l head) at.whole v)))

-- From what `jk_list_init` makes, after any sequence of `jk_list_add` of nodes that are not in the
-- ring and not its head, and of `jk_list_del` of nodes that are in it, `jk_list_for_each`, with
-- fuel for more rounds than there are nodes, ends and visits exactly the nodes of the list to which
-- the same was done, by appending and by removing; `jk_list_for_each2` visits them in the opposite
-- order; and `jk_list_for_each_safe`, where its body deletes each node, visits the same nodes and
-- leaves the empty ring, as `jk_list_for_each2_safe` does in the opposite order.
pub apply-visits :
    (head : ℕ) (l : Links) (es : List Change) (fuel : ℕ)
    → Proper head es []
    → length (nodes_after es []) < fuel
    → (for_each fuel head (apply head es (init head l)) ≡ ok (nodes_after es []))
      × (for_each2 fuel head (apply head es (init head l)) ≡ ok (reversed (nodes_after es [])))
      × Returns
          (λ r. (r.0 ≡ nodes_after es []) × IsRing r.1 head [])
          (for_each_safe fuel del head (apply head es (init head l)))
      × Returns
          (λ r. (r.0 ≡ reversed (nodes_after es [])) × IsRing r.1 head [])
          (for_each2_safe fuel del head (apply head es (init head l)))
unfolding for_each_safe for_each2_safe
apply-visits head l es fuel proper enough =
    let ring = apply-IsRing head es [] (init head l) proper (init-IsRing head l) in
    let (forth, back) =
      visits (apply head es (init head l)) head fuel (nodes_after es []) enough ring in
    (
      forth,
      back,
      visit_safe-del (λ k. k) (λ z k. refl) fuel head _ _ (nodes_after es [])
          (apply head es (init head l)) enough ring refl refl,
      Returns-map
          (visit_safe-del mirror mirror-del fuel head _ _ (reversed (nodes_after es []))
            (apply head es (init head l))
            (omega (arith, enough, length-reversed (nodes_after es [])))
            (mirror-IsRing (apply head es (init head l)) head (nodes_after es []) ring) refl refl)
          λ r d. (d.0, mirror-IsRing (mirror r.1) head [] d.1),
    )
