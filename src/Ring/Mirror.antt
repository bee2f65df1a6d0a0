-- ===== src/Ring/Mirror.antt =====
-- A ring the other way round.
use just_kit.Prelude.{
  ℕ, ◌≡◌, refl, sym, ap, ◌∙◌, Bool, true, false, List, [], ◌∷◌, ◌++◌, arith, length, length-append,
  ◌==◌, if◌then◌else◌, NotIn, NotIn-append, Distinct, Distinct-append,
}
use just_kit.Ring.{Links, del}
use just_kit.Ring.Segments.{Segment, IsRing}

abbrev pub reversed : List ℕ → List ℕ
reversed [] = []
reversed (x ∷ xs) = reversed xs ++ (x ∷ [])

-- The ring the other way round.
abbrev pub mirror : Links → Links
mirror l = record { prev = l.next; next = l.prev }

Segment-join :
    (l : Links) (a y b : ℕ) (xs ys : List ℕ)
    → Segment l a xs y
    → Segment l y ys b
    → Segment l a (xs ++ (y ∷ ys)) b
Segment-join l a y b [] ys s t = (s.0, s.1, t)
Segment-join l a y b (x ∷ xs) ys (f, g, s) t = (f, g, Segment-join l x y b xs ys s t)

pub Segment-reversed :
    (l : Links) (a b : ℕ) (xs : List ℕ) → Segment l a xs b → Segment (mirror l) b (reversed xs) a
Segment-reversed l a b [] s = (s.1, s.0)
Segment-reversed l a b (x ∷ xs) (f, g, s) =
    Segment-join (mirror l) b x a (reversed xs) [] (Segment-reversed l x b xs s) (g, f)

pub NotIn-reversed : (a : ℕ) (xs : List ℕ) → NotIn a xs → NotIn a (reversed xs)
NotIn-reversed a [] h = tt
NotIn-reversed a (x ∷ xs) h = NotIn-append a x (reversed xs) (NotIn-reversed a xs h.1) h.0

pub length-reversed : (xs : List ℕ) → length (reversed xs) ≡ length xs
length-reversed [] = refl
length-reversed (x ∷ xs) = omega (arith, length-append (reversed xs) (x ∷ []), length-reversed xs)

-- Deleting is the same the other way round.
pub mirror-del : (z : ℕ) (l : Links) → mirror (del z l) ≡ del z (mirror l)
unfolding del
mirror-del z l =
    ap (turned (l.prev z)) (if_same (l.prev z == z) (l.next z))
    ∙ ap (λ p. turned p (l.next z)) (sym (if_same (l.next z == z) (l.prev z)))
  where
    if_same : (b : Bool) (x : ℕ) → (if b then x else x) ≡ x
    if_same true x = refl
    if_same false x = refl

    turned : ℕ → ℕ → Links
    turned p q = record {
      prev = λ b. if p == b then l.next z else l.next b;
      next = λ b. if q == b then l.prev z else l.prev b;
    }

Distinct-reversed : (xs : List ℕ) → Distinct xs → Distinct (reversed xs)
Distinct-reversed [] d = tt
Distinct-reversed (x ∷ xs) d =
    Distinct-append x (reversed xs) (NotIn-reversed x xs d.0) (Distinct-reversed xs d.1)

pub mirror-IsRing :
    (l : Links) (head : ℕ) (xs : List ℕ) → IsRing l head xs → IsRing (mirror l) head (reversed xs)
mirror-IsRing l head xs v = record {
  distinct = (NotIn-reversed head xs v.distinct.0, Distinct-reversed xs v.distinct.1);
  nodes = Segment-reversed l head head xs v.nodes;
}
