-- ===== src/Skip/Raise.antt =====
-- The level of a new node: how it is drawn, and the loop that raises that of the list.
use just_kit.Prelude.{
  ◌*◌, fault, ℕ, zero, suc, ◌+◌, ◌%◌, ◌^◌, ◌<◌, ◌≤◌, ◌≡◌, refl, false, ◌&&◌, List, [], ◌∷◌, ◌++◌,
  some, arith, ltb, leb, lt→ltb, ◌==◌, if◌then◌else◌, Bool-cases, inl, inr, ok, Run, Returns,
  returns, Returns-map,
}
use just_kit.Skip.{max_level, Update, set_update, raise, level_from}
use just_kit.Skip.Towers.{Tower, last_at, AllFit}

-- What the loop that raises the level leaves in `update`.
pub raise_lem :
    (rounds i header : ℕ) (update : Update)
    → i + rounds ≤ max_level
    → Returns
        (λ u. (j : ℕ) → u j ≡ (if leb i j && ltb j (i + rounds) then some header else update j))
        (raise rounds i header update)
unfolding raise set_update
raise_lem zero i header update small = returns λ j. ground arith
raise_lem (suc rounds) i header update small = rw (lt→ltb i max_level (omega arith)) (
    Returns-map
      (raise_lem rounds (i + 1) header (λ j. if i == j then some header else update j)
        (omega arith))
      λ u e j. ground (arith, e j))

pub raise-fault :
    (rounds i header : ℕ) (update : Update)
    → i ≤ max_level
    → max_level < i + rounds
    → raise rounds i header update ≡ fault
unfolding raise set_update
raise-fault zero i header update low high = absurd (omega (arith, low, high))
raise-fault (suc rounds) i header update low high = elim (Bool-cases (ltb i max_level)) [
  | inl inside ↦
      rw inside (raise-fault rounds (i + 1) header _ (ground (arith, inside)) (omega (arith, high)))
  | inr outside ↦ rw outside refl
]

pub ok_inj : (a b : ℕ) → ◌≡◌ {A = Run ℕ} (ok a) (ok b) → a ≡ b
ok_inj a b h = cc

-- The levels that `jk_skip_random_level` draws.
pub level_from-le : (k : ℕ) (draws : List ℕ) (level : ℕ) → level_from k draws ≡ ok level → k ≤ level
unfolding level_from
level_from-le k [] level h = absurd (cc)
level_from-le k (r ∷ draws) level h = elim (Bool-cases (ltb (4 * (r % 2 ^ 16)) 65535)) [
  | inl again ↦ let more = level_from-le (k + 1) draws level (rw again at h) in omega (arith, more)
  | inr done ↦ omega (arith, ok_inj k level (rw done at h))
]

pub last_at-fit :
    (level j p : ℕ) (bs : List Tower) → AllFit level bs → ltb j level ≡ false → last_at j p bs ≡ p
last_at-fit level j p [] fit high = refl
last_at-fit level j p (b ∷ bs) fit high =
    let short : ltb j b.height ≡ false = ground (arith, fit.1, high) in
    rw short (last_at-fit level j p bs fit.2 high)

pub AllFit-left : (level : ℕ) (xs ys : List Tower) → AllFit level (xs ++ ys) → AllFit level xs
AllFit-left level [] ys h = tt
AllFit-left level (x ∷ xs) ys h = (h.0, h.1, AllFit-left level xs ys h.2)
