-- ===== src/Ring/Tests.antt =====
-- Runs of the rings, and the theorem at a small one.
use just_kit.Prelude.{◌≡◌, refl, List, [], ◌∷◌, arith, ok, Returns}
use just_kit.Ring.{Links, init, add, del, visit, for_each, for_each2, for_each_safe, for_each2_safe}
use just_kit.Ring.Segments.{IsRing}
use just_kit.Ring.Visits.{Change, adds, dels, apply, apply-visits}

abbrev unlinked : Links
unlinked = record { prev = λ a. 0; next = λ a. 0 }

abbrev changes : List Change
changes = adds 5 ∷ (adds 3 ∷ (adds 8 ∷ (dels 3 ∷ [])))

two_left : for_each 3 1 (apply 1 changes (init 1 unlinked)) ≡ ok (5 ∷ (8 ∷ []))
unfolding init add del visit for_each
two_left = refl

apply-visits_example :
    (for_each 3 1 (apply 1 changes (init 1 unlinked)) ≡ ok (5 ∷ (8 ∷ [])))
    × (for_each2 3 1 (apply 1 changes (init 1 unlinked)) ≡ ok (8 ∷ (5 ∷ [])))
    × Returns
        (λ r. (r.0 ≡ 5 ∷ (8 ∷ [])) × IsRing r.1 1 [])
        (for_each_safe 3 del 1 (apply 1 changes (init 1 unlinked)))
    × Returns
        (λ r. (r.0 ≡ 8 ∷ (5 ∷ [])) × IsRing r.1 1 [])
        (for_each2_safe 3 del 1 (apply 1 changes (init 1 unlinked)))
apply-visits_example =
    apply-visits 1 unlinked changes 3
      ((refl, tt), ((refl, (refl, tt)), ((refl, (refl, (refl, tt))), (refl, tt)))) (omega arith)
