-- ===== src/Aio/Chain.antt =====
-- The linked list of finished requests, as the list of their addresses.
use mathlib.Core.Path.{subst}
use mathlib.Core.Option.{some-injective}
use just_kit.Prelude.{
  NotIn, Distinct, ℕ, ◌≡◌, ◌≢◌, refl, sym, ap, ◌∙◌, Bool, true, false, List, [], ◌∷◌, ◌++◌, Option,
  none, some, arith, ◌==◌, ==_iff, Bool-cases, inl, inr, deref, Returns, returns,
}
use just_kit.Aio.{Request, Aio, update, set_next}

abbrev pub last_of : List ℕ → ℕ
last_of [] = 0
last_of (x ∷ []) = x
last_of (x ∷ (y ∷ xs)) = last_of (y ∷ xs)

-- The list from a pointer on.
abbrev pub Chain : (ℕ → Option Request) → ℕ → List ℕ → Type 0
Chain f p [] = p ≡ 0
Chain f p (x ∷ xs) = (p ≡ x) × (x ≢ 0) × (r : Request) × (f x ≡ some r) × Chain f r.next xs

abbrev pub is_some : Option Request → Bool
is_some none = false
is_some (some r) = true

-- The finished requests are those at `xs`, in this order.
pub record Queue (aio : Aio) (xs : List ℕ) : Type 0 where
  pub chain : Chain aio.requests aio.rhead xs
  pub tail : aio.rtail ≡ last_of xs
  pub distinct : Distinct xs

pub deref-some {ℓ} :
    {A : Type ℓ} (o : Option A) (r : A) → o ≡ some r → Returns (λ r'. r' ≡ r) (deref o)
deref-some o r h = rw h (returns refl)

module _ (f : ℕ → Option Request) where
  pub update_self : (a : ℕ) (v : Option Request) → update f a v a ≡ v
  update_self a v = ground (arith, ==_iff a a)

  pub update_ne : (a b : ℕ) (v : Option Request) → (a == b) ≡ false → update f a v b ≡ f b
  update_ne a b v h = rw h

  pub Chain-update :
      (a : ℕ) (v : Option Request) (p : ℕ) (xs : List ℕ)
      → NotIn a xs
      → Chain f p xs
      → Chain (update f a v) p xs
  Chain-update a v p [] out c = c
  Chain-update a v p (x ∷ xs) out (here, real, r, at, rest) =
      (here, real, r, update_ne a x v out.0 ∙ at, Chain-update a v r.next xs out.1 rest)

  -- Writing the other fields of a request.
  pub Chain-keep :
      (a : ℕ) (r v : Request) (p : ℕ) (xs : List ℕ)
      → f a ≡ some r
      → v.next ≡ r.next
      → Chain f p xs
      → Chain (update f a (some v)) p xs
  Chain-keep a r v p [] h e c = c
  Chain-keep a r v p (x ∷ xs) h e (here, real, r', at, rest) =
      let below = Chain-keep a r v r'.next xs h e rest in
      elim (Bool-cases (a == x)) [
        | inl same ↦
            let same_node = some-injective r' r (sym at ∙ ap f (sym ((==_iff a x).0 same)) ∙ h) in
            (
              here,
              real,
              v,
              rw same refl,
              subst (λ k. Chain (update f a (some v)) k xs) (ap (λ s. s.next) same_node ∙ sym e)
                  below,
            )
        | inr other ↦ (here, real, r', update_ne a x (some v) other ∙ at, below)
      ]

  NotIn-last : (a x : ℕ) (xs : List ℕ) → NotIn a (x ∷ xs) → (last_of (x ∷ xs) == a) ≡ false
  NotIn-last a x [] out = ground arith
  NotIn-last a x (y ∷ xs) out = NotIn-last a y xs out.1

  -- Linking a node behind the last one.
  pub Chain-link :
      (a p x : ℕ) (xs : List ℕ) (last node : Request)
      → a ≢ 0
      → NotIn a (x ∷ xs)
      → Distinct (x ∷ xs)
      → f a ≡ some node
      → node.next ≡ 0
      → f (last_of (x ∷ xs)) ≡ some last
      → Chain f p (x ∷ xs)
      → Chain
          (update f (last_of (x ∷ xs)) (some (record last { next = a })))
          p
          (x ∷ (xs ++ (a ∷ [])))
  Chain-link a p x [] last node real out apart at end l (here, x_real, r, x_at, rest) = (
    here,
    x_real,
    record last { next = a },
    update_self x (some (record last { next = a })),
    (
      refl,
      real,
      node,
      update_ne x a (some (record last { next = a })) (ground (arith, out.0)) ∙ at,
      end,
    ),
  )
  Chain-link a p x (y ∷ xs) last node real out apart at end l (here, x_real, r, x_at, rest) = (
    here,
    x_real,
    r,
    update_ne (last_of (y ∷ xs)) x (some (record last { next = a })) (NotIn-last x y xs apart.0)
        ∙ x_at,
    Chain-link a r.next y xs last node real out.1 apart.1 at end l rest,
  )

  pub last-some :
      (p x : ℕ) (xs : List ℕ) → Chain f p (x ∷ xs) → (r : Request) × (f (last_of (x ∷ xs)) ≡ some r)
  last-some p x [] (here, real, r, at, rest) = (r, at)
  last-some p x (y ∷ xs) (here, real, r, at, rest) = last-some r.next y xs rest

  pub last-real : (p x : ℕ) (xs : List ℕ) → Chain f p (x ∷ xs) → last_of (x ∷ xs) ≢ 0
  last-real p x [] (here, real, r, at, rest) = real
  last-real p x (y ∷ xs) (here, real, r, at, rest) = last-real r.next y xs rest

  pub set_next_lem :
      (a n : ℕ) (r : Request)
      → f a ≡ some r
      → Returns (λ f'. f' ≡ update f a (some (record r { next = n }))) (set_next f a n)
  unfolding set_next
  set_next_lem a n r h = rw h (returns refl)

pub last-append : (a : ℕ) (xs : List ℕ) → last_of (xs ++ (a ∷ [])) ≡ a
last-append a [] = refl
last-append a (x ∷ []) = refl
last-append a (x ∷ (y ∷ xs)) = last-append a (y ∷ xs)

pub is_some-update :
    (f : ℕ → Option Request) (a b : ℕ) (r v : Request)
    → f a ≡ some r
    → is_some (update f a (some v) b) ≡ is_some (f b)
is_some-update f a b r v h = elim (Bool-cases (a == b)) [
  | inl same ↦ rw same (ap is_some (sym (subst (λ c. f c ≡ some r) ((==_iff a b).0 same) h)))
  | inr other ↦ rw other refl
]
