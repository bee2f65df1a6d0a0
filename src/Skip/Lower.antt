-- ===== src/Skip/Lower.antt =====
-- The loop that lowers the level of the list.
use just_kit.Prelude.{
  ℕ, zero, suc, ◌<◌, ◌≤◌, ◌≡◌, true, false, List, [], ◌∷◌, ◌++◌, arith, ltb, lt→ltb, ◌==◌, NotIn,
  Bool-cases, inl, inr, Returns, returns, Returns-map,
}
use just_kit.Skip.{Memory, max_level, lower}
use just_kit.Skip.Towers.{Tower, addrs, first_at, AllFit, Reads}

-- The list has no level of which only the header is part, but the first.
abbrev pub IsTight : ℕ → List Tower → Type 0
IsTight zero ts = Unit
IsTight (suc k) ts = 0 < k → (first_at k ts == 0) ≡ false

pub first_at-real :
    (j a : ℕ) (ts : List Tower)
    → (0 == a) ≡ false
    → NotIn a (addrs ts)
    → (first_at j ts == a) ≡ false
first_at-real j a [] real out = real
first_at-real j a (t ∷ ts) real out = elim (Bool-cases (ltb j t.height)) [
  | inl reaches ↦ let e = out.0 in rw reaches (ground (arith, e))
  | inr short ↦ rw short (first_at-real j a ts real out.1)
]

pub AllFit-right : (level : ℕ) (bs ts : List Tower) → AllFit level (bs ++ ts) → AllFit level ts
AllFit-right level [] ts fit = fit
AllFit-right level (b ∷ bs) ts fit = AllFit-right level bs ts fit.2

-- No tower reaches a level at which the header leads to null.
pub AllFit-lower :
    (k : ℕ) (ts : List Tower)
    → NotIn 0 (addrs ts)
    → (first_at k ts == 0) ≡ true
    → AllFit (suc k) ts
    → AllFit k ts
AllFit-lower k [] real null fit = tt
AllFit-lower k (t ∷ ts) real null fit = elim (Bool-cases (ltb k t.height)) [
  | inl reaches ↦
      let e = real.0 in let here = rw reaches at null in absurd (ground (arith, e, here))
  | inr short ↦ (fit.0, ground (arith, short), AllFit-lower k ts real.1 (rw short at null) fit.2)
]

module _ (m : Memory) (header : ℕ) (ts : List Tower) (real : NotIn 0 (addrs ts))
    (reads : Reads m header max_level ts) where
  pub lower-IsTight :
      (level : ℕ)
      → 0 < level
      → level ≤ max_level
      → AllFit level ts
      → Returns (λ l. (0 < l) × (l ≤ level) × AllFit l ts × IsTight l ts) (lower m header level)
  unfolding lower
  lower-IsTight zero some_level low_level fit = absurd (omega (arith, some_level))
  lower-IsTight (suc k) some_level low_level fit = elim (Bool-cases (ltb 1 (suc k))) [
    | inr last ↦
        rw last (returns (some_level, omega arith, fit, λ h. absurd (ground (arith, last, h))))
    | inl more ↦ rw more (
        rw (reads k (lt→ltb k max_level (omega (arith, low_level))))
          (elim (Bool-cases (first_at k ts == 0)) [
            | inl null ↦ rw null (
                Returns-map
                  (lower-IsTight k (ground (arith, more)) (omega (arith, low_level))
                    (AllFit-lower k ts real null fit))
                  λ l h. (h.0, omega (arith, h.1), h.2, h.3))
            | inr led ↦ rw led (returns (some_level, omega arith, fit, λ h. led))
          ]))
  ]
