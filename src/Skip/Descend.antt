-- ===== src/Skip/Descend.antt =====
-- The search of `jk_skip_find_node`.
use just_kit.Prelude.{
  ℕ, zero, suc, ◌<◌, ◌≤◌, some, arith, lt→ltb, ◌==◌, fault, out_of_fuel, if◌then◌else◌, ok, Run,
  ◌>>=◌, Returns, returns,
}
use just_kit.Skip.{Memory, max_level, walk, Update, set_update, search, descend}

module _ (m : Memory) (key : ℕ) (P : ℕ → Type 0) where
  -- One level of both searches, after the walk.
  descend_level :
      (fuel i : ℕ) (update : Update) (r : Run ℕ)
      → i < max_level
      → ((n : ℕ) (u : Update)
          → Returns (λ q. P q.0) (search fuel i m key n u)
          → Returns P (descend fuel i m key n))
      → Returns (λ q. P q.0) (r >>= λ n. set_update i n update >>= search fuel i m key n)
      → Returns P (r >>= descend fuel i m key)
  unfolding set_update
  descend_level fuel i update (ok n) small ih h =
      ih n (λ j. if i == j then some n else update j) (rw (lt→ltb i max_level small) at h)
  descend_level fuel i update fault small ih h = elim h [ ]
  descend_level fuel i update out_of_fuel small ih h = elim h [ ]

  -- The search of `jk_skip_find_node` ends where the other one does.
  pub descend-search :
      (fuel k n : ℕ) (update : Update)
      → k ≤ max_level
      → Returns (λ q. P q.0) (search fuel k m key n update)
      → Returns P (descend fuel k m key n)
  unfolding search descend
  descend-search fuel zero n update small (returns h) = returns h
  descend-search fuel (suc i) n update small h =
      descend_level fuel i update (walk fuel m key i n) (omega arith)
        (λ n' u. descend-search fuel i n' u (omega arith)) h
