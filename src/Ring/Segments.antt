-- ===== src/Ring/Segments.antt =====
-- Adding and deleting, as changes of the list of the nodes of a ring.
use mathlib.Core.Path.{subst}
use just_kit.Prelude.{
  ℕ, ◌≡◌, refl, sym, ap, ◌∙◌, true, false, List, [], ◌∷◌, ◌++◌, arith, ◌==◌, ==_iff, NotIn,
  Distinct, NotIn-append, Distinct-append,
}
use just_kit.Ring.{Links, put, init, add, del}

-- Between `a` and `b` are the nodes `xs`.
abbrev pub Segment : Links → ℕ → List ℕ → ℕ → Type 0
Segment l a [] b = (l.next a ≡ b) × (l.prev b ≡ a)
Segment l a (x ∷ xs) b = (l.next a ≡ x) × (l.prev x ≡ a) × Segment l x xs b

pub record IsRing (l : Links) (head : ℕ) (xs : List ℕ) : Type 0 where
  pub nodes : Segment l head xs head
  pub distinct : Distinct (head ∷ xs)

-- The last node of `a ∷ xs`, and the first one of `xs` and `b`.
abbrev last_from : ℕ → List ℕ → ℕ
last_from a [] = a
last_from a (x ∷ xs) = last_from x xs

abbrev pub first_to : List ℕ → ℕ → ℕ
first_to [] b = b
first_to (x ∷ xs) b = x

pub ne_sym : (a b : ℕ) → (a == b) ≡ false → (b == a) ≡ false
ne_sym a b h = ground (arith, h)

put_self : (f : ℕ → ℕ) (a v : ℕ) → put f a v a ≡ v
put_self f a v = let here : (a == a) ≡ true = (==_iff a a).1 refl in rw here refl

put_ne : (f : ℕ → ℕ) (a v b : ℕ) → (a == b) ≡ false → put f a v b ≡ f b
put_ne f a v b h = rw h refl

put_at : (f : ℕ → ℕ) (a v b : ℕ) → a ≡ b → put f a v b ≡ v
put_at f a v b e = ap (put f a v) (sym e) ∙ put_self f a v

-- An address that is another one's equal differs from what that one differs from.
ne_at : (a b c : ℕ) → a ≡ b → (b == c) ≡ false → (a == c) ≡ false
ne_at a b c e h = subst (λ z. (z == c) ≡ false) (sym e) h

last_from-NotIn :
    (a c : ℕ) (xs : List ℕ) → (c == a) ≡ false → NotIn c xs → (c == last_from a xs) ≡ false
last_from-NotIn a c [] h out = h
last_from-NotIn a c (x ∷ xs) h out = last_from-NotIn x c xs out.0 out.1

Segment-last : (l : Links) (a b : ℕ) (xs : List ℕ) → Segment l a xs b → l.prev b ≡ last_from a xs
Segment-last l a b [] s = s.1
Segment-last l a b (x ∷ xs) s = Segment-last l x b xs s.2

-- Links that agree on what leads from `a` to `b`.
Segment-keep :
    (l l' : Links) (a b : ℕ) (xs : List ℕ) (p n : ℕ)
    → ((c : ℕ) → (p == c) ≡ false → l'.next c ≡ l.next c)
    → ((c : ℕ) → (n == c) ≡ false → l'.prev c ≡ l.prev c)
    → (p == a) ≡ false
    → NotIn p xs
    → NotIn n xs
    → (n == b) ≡ false
    → Segment l a xs b
    → Segment l' a xs b
Segment-keep l l' a b [] p n same_next same_prev pa px nx nb (f, g) =
    (same_next a pa ∙ f, same_prev b nb ∙ g)
Segment-keep l l' a b (x ∷ xs) p n same_next same_prev pa px nx nb (f, g, s) = (
  same_next a pa ∙ f,
  same_prev x nx.0 ∙ g,
  Segment-keep l l' x b xs p n same_next same_prev px.0 px.1 nx.1 nb s,
)

-- A new node before `b`.
Segment-insert :
    (l l' : Links) (a b node : ℕ) (xs : List ℕ)
    → l'.next (last_from a xs) ≡ node
    → l'.prev node ≡ last_from a xs
    → l'.next node ≡ b
    → l'.prev b ≡ node
    → ((c : ℕ) → (last_from a xs == c) ≡ false → (node == c) ≡ false → l'.next c ≡ l.next c)
    → ((c : ℕ) → (b == c) ≡ false → (node == c) ≡ false → l'.prev c ≡ l.prev c)
    → Distinct (a ∷ xs)
    → NotIn node (a ∷ xs)
    → NotIn b xs
    → Segment l a xs b
    → Segment l' a (xs ++ (node ∷ [])) b
Segment-insert l l' a b node [] to_node from_node to_b from_b same_next same_prev apart out out_b
      s =
    (to_node, from_node, (to_b, from_b))
Segment-insert l l' a b node (x ∷ xs) to_node from_node to_b from_b same_next same_prev apart out
      out_b (f, g, s) =
    (
      same_next a (ne_sym a (last_from x xs) (last_from-NotIn x a xs apart.0.0 apart.0.1)) out.0
          ∙ f,
      same_prev x out_b.0 out.1.0 ∙ g,
      Segment-insert l l' x b node xs to_node from_node to_b from_b same_next same_prev apart.1
          out.1 out_b.1 s,
    )

NotIn-left : (a x : ℕ) (xs ys : List ℕ) → NotIn a (xs ++ (x ∷ ys)) → NotIn a xs
NotIn-left a x [] ys h = tt
NotIn-left a x (z ∷ xs) ys h = (h.0, NotIn-left a x xs ys h.1)

NotIn-right : (a x : ℕ) (xs ys : List ℕ) → NotIn a (xs ++ (x ∷ ys)) → NotIn a (x ∷ ys)
NotIn-right a x [] ys h = h
NotIn-right a x (z ∷ xs) ys h = NotIn-right a x xs ys h.1

NotIn-remove : (a x : ℕ) (xs ys : List ℕ) → NotIn a (xs ++ (x ∷ ys)) → NotIn a (xs ++ ys)
NotIn-remove a x [] ys h = h.1
NotIn-remove a x (z ∷ xs) ys h = (h.0, NotIn-remove a x xs ys h.1)

Distinct-remove : (x : ℕ) (xs ys : List ℕ) → Distinct (xs ++ (x ∷ ys)) → Distinct (xs ++ ys)
Distinct-remove x [] ys d = d.1
Distinct-remove x (z ∷ xs) ys d = (NotIn-remove z x xs ys d.0, Distinct-remove x xs ys d.1)

first_to-NotIn :
    (c b : ℕ) (ys : List ℕ) → NotIn c ys → (c == b) ≡ false → (c == first_to ys b) ≡ false
first_to-NotIn c b [] out h = h
first_to-NotIn c b (y ∷ ys) out h = out.0

-- What a node leads to, and what leads to it.
pub Segment-at :
    (l : Links) (a b x : ℕ) (xs ys : List ℕ)
    → Segment l a (xs ++ (x ∷ ys)) b
    → (l.prev x ≡ last_from a xs) × (l.next x ≡ first_to ys b)
Segment-at l a b x [] [] (f, g, s) = (g, s.0)
Segment-at l a b x [] (y ∷ ys) (f, g, s) = (g, s.0)
Segment-at l a b x (z ∷ xs) ys (f, g, s) = Segment-at l z b x xs ys s

-- The nodes around `x` are linked to each other.
Segment-remove :
    (l l' : Links) (a b x : ℕ) (xs ys : List ℕ)
    → l'.next (last_from a xs) ≡ first_to ys b
    → l'.prev (first_to ys b) ≡ last_from a xs
    → ((c : ℕ) → (last_from a xs == c) ≡ false → l'.next c ≡ l.next c)
    → ((c : ℕ) → (first_to ys b == c) ≡ false → l'.prev c ≡ l.prev c)
    → Distinct (a ∷ (xs ++ (x ∷ ys)))
    → NotIn b (xs ++ (x ∷ ys))
    → Segment l a (xs ++ (x ∷ ys)) b
    → Segment l' a (xs ++ ys) b
Segment-remove l l' a b x [] [] to from same_next same_prev apart out s = (to, from)
Segment-remove l l' a b x [] (y ∷ ys) to from same_next same_prev apart out (f, g, (h, k, s)) = (
  to,
  from,
  Segment-keep l l' y b ys a y same_next same_prev apart.0.1.0 apart.0.1.1 apart.1.1.0
      (ne_sym b y out.1.0) s,
)
Segment-remove l l' a b x (z ∷ xs) ys to from same_next same_prev apart out (f, g, s) = (
  same_next a (
        ne_sym a (last_from z xs)
          (last_from-NotIn z a xs apart.0.0 (NotIn-left a x xs ys apart.0.1)))
      ∙ f,
  same_prev z (
        ne_sym z (first_to ys b)
          (first_to-NotIn z b ys (NotIn-right z x xs ys apart.1.0).1 (ne_sym b z out.0)))
      ∙ g,
  Segment-remove l l' z b x xs ys to from same_next same_prev apart.1 out.1 s,
)

last_from-apart :
    (a x : ℕ) (xs ys : List ℕ) → Distinct (a ∷ (xs ++ (x ∷ ys))) → (last_from a xs == x) ≡ false
last_from-apart a x [] ys apart = apart.0.0
last_from-apart a x (z ∷ xs) ys apart = last_from-apart z x xs ys apart.1

pub init-IsRing : (head : ℕ) (l : Links) → IsRing (init head l) head []
unfolding init
init-IsRing head l = record {
  nodes = (put_self l.next head head, put_self l.prev head head);
  distinct = (tt, tt);
}

module _ (l : Links) (head node : ℕ) where
  pub add-IsRing :
      (xs : List ℕ)
      → IsRing l head xs
      → NotIn node (head ∷ xs)
      → IsRing (add head node l) head (xs ++ (node ∷ []))
  unfolding add
  add-IsRing xs v out =
      let pv = put l.prev node (l.prev head) in
      let nx = put l.next node head in
      let last = last_from head xs in
      let ended = Segment-last l head head xs v.nodes in
      let last_is : pv head ≡ last = put_ne l.prev node (l.prev head) head out.0 ∙ ended in
      let apart = ne_sym node last (last_from-NotIn head node xs out.0 out.1) in
      record {
        nodes =
            Segment-insert l (add head node l) head head node xs
              (put_at nx (pv head) node last last_is)
              (put_ne pv head node node (ne_sym node head out.0)
                ∙ put_self l.prev node (l.prev head)
                ∙ ended)
              (put_ne nx (pv head) node node (ne_at (pv head) last node last_is apart)
                ∙ put_self l.next node head)
              (put_self pv head node)
              (λ c h k.
                put_ne nx (pv head) node c (ne_at (pv head) last c last_is h)
                ∙ put_ne l.next node head c k)
              (λ c h k. put_ne pv head node c h ∙ put_ne l.prev node (l.prev head) c k) v.distinct
              out v.distinct.0 v.nodes;
        distinct = (
          NotIn-append head node xs v.distinct.0 (ne_sym node head out.0),
          Distinct-append node xs out.1 v.distinct.1,
        );
      }

  pub del-IsRing :
      (xs ys : List ℕ) → IsRing l head (xs ++ (node ∷ ys)) → IsRing (del node l) head (xs ++ ys)
  unfolding del
  del-IsRing xs ys v =
      let (before, after) = Segment-at l head head node xs ys v.nodes in
      let last = last_from head xs in
      let apart =
        ne_at (l.prev node) last node before (last_from-apart head node xs ys v.distinct) in
      let m = put l.next (l.prev node) (l.next node) node in
      let m_is : m ≡ first_to ys head =
        put_ne l.next (l.prev node) (l.next node) node apart ∙ after in
      record {
        nodes =
            Segment-remove l (del node l) head head node xs ys
              (put_at l.next (l.prev node) (l.next node) last before ∙ after)
              (put_at l.prev m (l.prev node) (first_to ys head) m_is ∙ before)
              (λ c h.
                put_ne l.next (l.prev node) (l.next node) c (ne_at (l.prev node) last c before h))
              (λ c h. put_ne l.prev m (l.prev node) c (ne_at m (first_to ys head) c m_is h))
              v.distinct v.distinct.0 v.nodes;
        distinct = Distinct-remove node (head ∷ xs) ys v.distinct;
      }
