-- ===== src/Heap/Destroy.antt =====
-- `jk_heap_destroy`: what it gives to the user's `destroy`.
use mathlib.Core.List.{append_assoc}
use just_kit.Prelude.{
  ℕ, suc, ◌+◌, ◌-◌, ◌≡◌, refl, sym, ap, ◌∙◌, Option, Bool, true, false, List, [], ◌∷◌, ◌++◌, arith,
  length, length-append, ok, if◌then◌else◌,
}
use just_kit.Heap.{CompFn, Heap, load, destroyed, destroy}
use just_kit.Heap.Cells.{live, at, load-live}
use just_kit.Heap.Contents.{Holds}

at-length : (front : List ℕ) (x : ℕ) (rest : List ℕ) → at (front ++ (x ∷ rest)) (length front) ≡ x
at-length [] x rest = refl
at-length (y ∷ front) x rest = at-length front x rest

destroyed_rest :
    (front rest : List ℕ) (spare : List (Option ℕ)) (h : Heap)
    → h.tree ≡ live (front ++ rest) ++ spare
    → h.used ≡ length front + length rest
    → destroyed true (length rest) h ≡ ok rest
unfolding destroyed
destroyed_rest front [] spare h cells counted = refl
destroyed_rest front (x ∷ rest) spare h cells counted =
    let next : h.used - suc (length rest) ≡ length front = omega arith in
    let here : load h.tree (h.used - suc (length rest)) ≡ ok x =
      rw (next, cells)
        (load-live (front ++ (x ∷ rest)) spare (length front)
            (omega (arith, length-append front (x ∷ rest)))
          ∙ ap ok (at-length front x rest)) in
    let step : front ++ (x ∷ rest) ≡ (front ++ (x ∷ [])) ++ rest =
      sym (append_assoc front (x ∷ []) rest) in
    let below =
      destroyed_rest (front ++ (x ∷ [])) rest spare h (cells ∙ ap (λ a. live a ++ spare) step)
        (omega (arith, counted, length-append front (x ∷ []))) in
    rw (here, below) refl

-- Destroying a heap faults nowhere, and gives each of its values once, in the order of the array,
-- to the user's `destroy`, if there is one.
pub destroy-Holds :
    (comp : CompFn) (has_destroy : Bool) (h : Heap) (a : List ℕ)
    → Holds comp h a
    → destroy has_destroy h ≡ ok (if has_destroy then a else [])
unfolding destroy destroyed
destroy-Holds comp false h a v = refl
destroy-Holds comp true h a v =
    ap (λ n. destroyed true n h) v.counted
    ∙ destroyed_rest [] a v.spare h v.cells (omega (arith, v.counted))
