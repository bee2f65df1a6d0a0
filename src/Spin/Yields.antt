-- ===== src/Spin/Yields.antt =====
-- The inner loop of the lock, whose counter never changes.
use just_kit.Prelude.{
  ℕ, List, [], ◌∷◌, ◌<◌, ◌≡◌, ◌≢◌, refl, ap, Bool, true, false, ◌==◌, ==_iff, Bool-cases, inl, inr,
  lt→ltb,
}
use just_kit.Spin.{
  Site, outer, inner, Place, outside, inside, yielding, testing, swapping, State, failed, act, run,
  step, start, moved,
}

abbrev is_first : Site → Bool
is_first outer = true
is_first (inner n) = n == 1

-- A thread in the inner loop pauses once, and none is about to yield.
abbrev is_calm : Place → Bool
is_calm outside = true
is_calm inside = true
is_calm yielding = false
is_calm (testing at) = is_first at
is_calm (swapping at) = is_first at

abbrev Calm : State → Type 0
Calm s = (t : ℕ) → is_calm (s.place t) ≡ true

moved-Calm :
    (f : ℕ → Place) (t u : ℕ) (p : Place)
    → is_calm p ≡ true
    → is_calm (f u) ≡ true
    → is_calm (moved f t p u) ≡ true
moved-Calm f t u p h k = elim (Bool-cases (u == t)) [
  | inl same ↦ rw same h
  | inr other ↦ rw other k
]

module _ (ncpu : ℕ) (which : ℕ → ℕ) (several : 1 < ncpu) where
  failed-calm : (at : Site) → is_first at ≡ true → is_calm (failed ncpu at) ≡ true
  unfolding failed
  failed-calm outer h = rw (lt→ltb 1 ncpu several) refl
  failed-calm (inner n) h = rw ((==_iff n 1).0 h) refl

  act-Calm :
      (t : ℕ) (p : Place) (s : State) → is_calm p ≡ true → Calm s → Calm (act ncpu which t p s)
  unfolding act
  act-Calm t outside s h calm u = moved-Calm s.place t u (testing outer) refl (calm u)
  act-Calm t yielding s h calm u = moved-Calm s.place t u (testing outer) refl (calm u)
  act-Calm t (testing at) s h calm u = elim (Bool-cases (s.lock == 0)) [
    | inl free ↦ rw free (moved-Calm s.place t u (swapping at) h (calm u))
    | inr taken ↦ rw taken (moved-Calm s.place t u (failed ncpu at) (failed-calm at h) (calm u))
  ]
  act-Calm t (swapping at) s h calm u = elim (Bool-cases (s.lock == 0)) [
    | inl free ↦ rw free (moved-Calm s.place t u inside refl (calm u))
    | inr taken ↦ rw taken (moved-Calm s.place t u (failed ncpu at) (failed-calm at h) (calm u))
  ]
  act-Calm t inside s h calm u = moved-Calm s.place t u outside refl (calm u)

  run-Calm : (ts : List ℕ) (s : State) → Calm s → Calm (run ncpu which ts s)
  unfolding run
  run-Calm [] s calm = calm
  run-Calm (t ∷ ts) s calm =
      run-Calm ts (step ncpu which t s) (act-Calm t (s.place t) s (calm t) calm)

  -- With more than one processor no schedule brings a thread to `sched_yield`.
  pub run-never_yields : (ts : List ℕ) (t : ℕ) → (run ncpu which ts start).place t ≢ yielding
  run-never_yields ts t h = let calm = run-Calm ts start (λ u. refl) t in let e = ap is_calm h in cc

-- A thread that is about to test a lock that is free, and makes its next two steps alone, is past
-- it and owns the word.
pub run-takes :
    (ncpu : ℕ) (which : ℕ → ℕ) (t : ℕ) (at : Site) (s : State)
    → s.lock ≡ 0
    → s.place t ≡ testing at
    → ((run ncpu which (t ∷ t ∷ []) s).place t ≡ inside)
      × ((run ncpu which (t ∷ t ∷ []) s).lock ≡ which t)
unfolding run act
run-takes ncpu which t at s free here =
    let self : (t == t) ≡ true = (==_iff t t).1 refl in rw (here, free, self) (rw self refl, refl)
