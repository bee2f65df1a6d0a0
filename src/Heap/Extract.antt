-- ===== src/Heap/Extract.antt =====
-- `jk_heap_extract` on a whole heap: it takes out the greatest element and keeps the rest.
use mathlib.Core.List.{Perm, append_assoc}
use mathlib.Core.List.Perm
use mathlib.Core.Path.{subst, ap₂}
use just_kit.Prelude.{
  ℕ, zero, suc, ◌+◌, ◌-◌, ◌^◌, ◌<◌, ◌≤◌, ◌≡◌, refl, sym, ap, ◌∙◌, Bool, Option, some, List, [], ◌∷◌,
  ◌++◌, arith, length, ok, Returns, returns, Returns-if, Returns-bind, ◌==◌, ==_iff, Bool-cases,
  inl, inr, set, length-append,
}
use just_kit.Heap.{CompFn, Heap, parent, load, extract, shrunk_size, shrink, refill}
use just_kit.Heap.Cells.{live, at, length-live, live-append, load-live, store-live}
use just_kit.Heap.Order.{IsOrder, Geq, IsHeap, top_greatest}
use just_kit.Heap.Down.{SinkingAt, sift_down-Heaped}
use just_kit.Heap.Contents.{
  Holds, used-le-size, at-append, snoc, length-perm, snoc-perm, grown-Holds, heap_eq,
}

shrunk_size_room : (size used : ℕ) → used ≤ size → used ≤ shrunk_size size used
unfolding shrunk_size
shrunk_size_room size used h = ground arith

at-snoc : (a : List ℕ) (x : ℕ) → at (a ++ (x ∷ [])) (length a) ≡ x
at-snoc [] x = refl
at-snoc (y ∷ a) x = at-snoc a x

-- Without its last element.
dropped-Holds :
    (comp : CompFn) (h : Heap) (front : List ℕ) (save : ℕ)
    → Holds comp h (front ++ (save ∷ []))
    → Holds comp (record h { used = length front }) front
dropped-Holds comp h front save v = record {
  spare = some save ∷ v.spare;
  cells =
      v.cells
      ∙ ap (λ t. t ++ v.spare) (live-append front (save ∷ []))
      ∙ append_assoc (live front) (some save ∷ []) v.spare;
  sized = v.sized;
  counted = refl;
  heap = λ c p q. ground (
    arith,
    length-append front (save ∷ []),
    v.heap c,
    at-append front (save ∷ []) c,
    at-append front (save ∷ []) (parent c),
  );
}

shrink-Holds :
    (comp : CompFn) (realloc_works : Bool) (h : Heap) (front : List ℕ)
    → Holds comp (record h { used = length front }) front
    → Holds comp (shrink realloc_works h (length front)) front
unfolding shrink
shrink-Holds comp realloc_works h front v =
    let n = shrunk_size h.size (length front) in
    elim (Bool-cases (n == h.size)) [
      | inl same ↦ rw same v
      | inr other ↦ rw other (elim (Bool-cases realloc_works) [
        | inr fails ↦ rw fails v
        | inl works ↦ rw works (
            grown-Holds comp (record h { used = length front }) front n v
              (shrunk_size_room h.size (length front) (used-le-size v)))
      ])
    ]

-- What `refill` leaves: a heap of the values with `save` in the place of the first.
record Refilled (comp : CompFn) (front : List ℕ) (save : ℕ) (h' : Heap) : Type 0 where
  items : List ℕ
  holds : Holds comp h' items
  perm : Perm items (set front 0 save)

topped-SinkingAt :
    (comp : CompFn) (x : ℕ) (a : List ℕ) (save : ℕ)
    → IsHeap comp (x ∷ a)
    → SinkingAt comp (save ∷ a) 0
topped-SinkingAt comp x a save h = record {
  inside = omega arith;
  edges = λ c p q n. rw (at_rest c p, at_rest (parent c) (omega arith)) (h c p q);
  bridged = λ c p q e n. absurd (omega arith);
}
  where
    at_rest : (c : ℕ) → 0 < c → at (save ∷ a) c ≡ at (x ∷ a) c
    at_rest zero p = absurd (omega arith)
    at_rest (suc c) p = refl

refill-Refilled :
    (comp : CompFn) (h : Heap) (front : List ℕ) (save : ℕ)
    → IsOrder comp
    → Holds comp h front
    → length front < 2 ^ 30
    → Returns (Refilled comp front save) (refill comp h save)
unfolding refill
refill-Refilled comp h [] save o v small =
    rw ((==_iff h.used 0).1 v.counted) (returns (record { items = []; holds = v; perm = Perm.rfl }))
refill-Refilled comp h (x ∷ a) save o v small =
    subst (λ g. Returns (Refilled comp (x ∷ a) save) (refill comp g save))
      (sym (heap_eq h v.cells v.counted))
      (rw (store-live (x ∷ a) v.spare 0 save (omega arith)) (
        Returns-if (suc (length a) == 0) (λ empty. absurd (ground arith))
          (λ some'.
            Returns-bind
              (sift_down-Heaped comp (length (x ∷ a) + 1) (save ∷ a) v.spare 0 o
                (topped-SinkingAt comp x a save v.heap) small (omega arith))
              λ t r.
                let size = length-perm r.perm in
                returns (record {
                  items = r.items;
                  holds = record {
                    spare = v.spare;
                    cells = r.cells;
                    sized = omega (
                      arith,
                      v.sized,
                      ap length v.cells,
                      ap length r.cells,
                      length-append (live r.items) v.spare,
                      length-append (live (x ∷ a)) v.spare,
                      length-live r.items,
                      length-live (x ∷ a),
                    );
                    counted = sym size;
                    heap = r.heap;
                  };
                  perm = r.perm;
                }))))

-- What an extraction from a heap of the values `a` returns and leaves.
pub record Extracted (comp : CompFn) (a : List ℕ) (r : Option ℕ × Heap) : Type 0 where
  pub items : List ℕ
  pub top : r.0 ≡ some (at a 0)
  pub greatest : (i : ℕ) → i < length a → Geq comp (at a 0) (at a i)
  pub holds : Holds comp r.1 items
  pub perm : Perm (at a 0 ∷ items) a

refilled-perm :
    (front items : List ℕ) (save : ℕ)
    → Perm items (set front 0 save)
    → Perm (at (front ++ (save ∷ [])) 0 ∷ items) (front ++ (save ∷ []))
refilled-perm [] items save p = Perm.cons save p
refilled-perm (x ∷ front) items save p =
    Perm.trans (Perm.cons x p)
      (Perm.trans (Perm.swap save x front) (Perm.symm (snoc-perm (x ∷ front) save)))

extract_snoc :
    (comp : CompFn) (realloc_works : Bool) (h : Heap) (front : List ℕ) (save : ℕ)
    → IsOrder comp
    → Holds comp h (front ++ (save ∷ []))
    → length front < 2 ^ 30
    → Returns (Extracted comp (front ++ (save ∷ []))) (extract comp realloc_works h)
unfolding extract
extract_snoc comp realloc_works h front save o v small =
    let a = front ++ (save ∷ []) in
    let size = length-append front (save ∷ []) in
    let one_less : h.used - 1 ≡ length front = omega (arith, v.counted) in
    let first : load h.tree 0 ≡ ok (at a 0) =
      ap (λ t. load t 0) v.cells ∙ load-live a v.spare 0 (omega arith) in
    let last : load h.tree (h.used - 1) ≡ ok save =
      ap₂ load v.cells one_less
      ∙ load-live a v.spare (length front) (omega arith)
      ∙ ap ok (at-snoc front save) in
    Returns-if (h.used == 0) (λ empty. absurd (ground (arith, v.counted)))
      λ some'.
        rw (first, last, one_less)
          (Returns-bind
            (refill-Refilled comp (shrink realloc_works h (length front)) front save o
              (shrink-Holds comp realloc_works h front (dropped-Holds comp h front save v)) small)
            λ h' r. returns (record {
              items = r.items;
              top = refl;
              greatest = λ i p. top_greatest comp a i o v.heap p;
              holds = r.holds;
              perm = refilled-perm front r.items save r.perm;
            }))

-- Extracting from a heap of fewer than 2^30 values that is not empty, where the comparison function
-- orders the values up to ties, faults nowhere, whether or not the array can be resized: it returns
-- the first value, which no other value exceeds, and leaves a heap of all the others.
pub extract-Extracted :
    (comp : CompFn) (realloc_works : Bool) (h : Heap) (a : List ℕ)
    → IsOrder comp
    → Holds comp h a
    → 0 < length a
    → length a < 2 ^ 30
    → Returns (Extracted comp a) (extract comp realloc_works h)
extract-Extracted comp realloc_works h a o v filled small =
    let (front, save, e) = snoc a filled in
    subst (λ b. Returns (Extracted comp b) (extract comp realloc_works h)) (sym e)
      (extract_snoc comp realloc_works h front save o (rw e at v)
        (omega (arith, ap length e, length-append front (save ∷ []))))
