-- ===== src/Spin/Exclusion.antt =====
-- No two threads are past the lock.
use just_kit.Prelude.{
  ℕ, List, [], ◌∷◌, ◌≡◌, ◌≢◌, refl, sym, ap, ◌∙◌, Bool, true, false, ◌==◌, ==_iff, Bool-cases, inl,
  inr, arith,
}
use just_kit.Spin.{
  Site, outer, inner, Place, outside, inside, yielding, testing, swapping, State, failed, act, run,
  step, start, moved,
}

-- The word is that of every thread that is past the lock.
abbrev pub Owned : (ℕ → ℕ) → State → Type 0
Owned which s = (t : ℕ) → s.place t ≡ inside → s.lock ≡ which t

abbrev is_inside : Place → Bool
is_inside inside = true
is_inside outside = false
is_inside yielding = false
is_inside (testing at) = false
is_inside (swapping at) = false

-- A thread that does not come in leaves the others where they are.
others_stay :
    (f : ℕ → Place) (t u : ℕ) (p : Place)
    → is_inside p ≡ false
    → moved f t p u ≡ inside
    → ((u == t) ≡ false) × (f u ≡ inside)
others_stay f t u p out h = elim (Bool-cases (u == t)) [
  | inl same ↦ let i : p ≡ inside = rw same at h in let j = ap is_inside i in absurd cc
  | inr other ↦ (other, rw other at h)
]

failed-outside : (ncpu : ℕ) (at : Site) → is_inside (failed ncpu at) ≡ false
unfolding failed
failed-outside ncpu outer = ground arith
failed-outside ncpu (inner n) = ground arith

module _ (ncpu : ℕ) (which : ℕ → ℕ) (apart : (t u : ℕ) → which t ≡ which u → t ≡ u)
    (named : (t : ℕ) → which t ≢ 0) where
  came_in :
      (t : ℕ) (s : State)
      → Owned which s
      → s.lock ≡ 0
      → (u : ℕ) → moved s.place t inside u ≡ inside
      → which t ≡ which u
  came_in t s own free u h = elim (Bool-cases (u == t)) [
    | inl same ↦ ap which (sym ((==_iff u t).0 same))
    | inr other ↦ absurd (named u (sym (own u (rw other at h)) ∙ free))
  ]

  act-Owned :
      (t : ℕ) (p : Place) (s : State)
      → s.place t ≡ p
      → Owned which s
      → Owned which (act ncpu which t p s)
  unfolding act
  act-Owned t outside s here own u h = own u (others_stay s.place t u (testing outer) refl h).1
  act-Owned t yielding s here own u h = own u (others_stay s.place t u (testing outer) refl h).1
  act-Owned t (testing at) s here own u h = elim (Bool-cases (s.lock == 0)) [
    | inl free ↦ rw free (own u (others_stay s.place t u (swapping at) refl (rw free at h)).1)
    | inr taken ↦ rw taken (
        own u (others_stay s.place t u (failed ncpu at) (failed-outside ncpu at) (rw taken at h)).1)
  ]
  act-Owned t (swapping at) s here own u h = elim (Bool-cases (s.lock == 0)) [
    | inl free ↦ rw free (came_in t s own ((==_iff s.lock 0).0 free) u (rw free at h))
    | inr taken ↦ rw taken (
        own u (others_stay s.place t u (failed ncpu at) (failed-outside ncpu at) (rw taken at h)).1)
  ]
  act-Owned t inside s here own u h =
      let (other, still) = others_stay s.place t u outside refl h in
      let e = apart t u (sym (own t here) ∙ own u still) in
      absurd (cc ((==_iff u t).1 (sym e), other))

  run-Owned : (ts : List ℕ) (s : State) → Owned which s → Owned which (run ncpu which ts s)
  unfolding run
  run-Owned [] s own = own
  run-Owned (t ∷ ts) s own = run-Owned ts (step ncpu which t s) (act-Owned t (s.place t) s refl own)

  -- Where the threads lock with different values other than 0, no schedule of their steps brings
  -- two of them past the lock at once.
  pub run-exclusive :
      (ts : List ℕ) (t u : ℕ)
      → t ≢ u
      → (run ncpu which ts start).place t ≡ inside
      → (run ncpu which ts start).place u ≢ inside
  run-exclusive ts t u differ h k =
      let own = run-Owned ts start (λ v e. absurd (let z = ap is_inside e in cc)) in
      differ (apart t u (sym (own t h) ∙ own u k))
