-- ===== src/Heap/Insert.antt =====
-- `jk_heap_insert` on a whole heap: it keeps the order and adds to the contents.
use mathlib.Core.List.{Perm}
use mathlib.Core.List.Perm
use mathlib.Core.Path.{subst}
use just_kit.Prelude.{
  ℕ, ◌+◌, ◌^◌, ◌<◌, ◌≡◌, ◌⊎◌, refl, sym, ap, ◌∙◌, Bool, true, false, Option, List, [], ◌∷◌, ◌++◌,
  arith, length, ok, Returns, returns, Returns-if, Returns-bind, leb, lt→ltb, lt→leb, leb-false→lt,
  ◌>>=◌, inl, inr, length-append,
}
use just_kit.Heap.{CompFn, Heap, parent, incr_size, insert_at_end, insert}
use just_kit.Heap.Cells.{live, length-live, store-end}
use just_kit.Heap.Order.{IsOrder, IsHeap}
use just_kit.Heap.Up.{RisingAt, sift_up-Heaped}
use just_kit.Heap.Contents.{
  Holds, used-le-size, at-append, length-perm, snoc-perm, grown-Holds, heap_eq,
}

-- What an insertion of `x` among the values `a` leaves.
pub record Inserted (comp : CompFn) (x : ℕ) (a : List ℕ) (h' : Heap) : Type 0 where
  pub items : List ℕ
  pub holds : Holds comp h' items
  pub perm : Perm items (x ∷ a)

appended-RisingAt :
    (comp : CompFn) (a : List ℕ) (x : ℕ) → IsHeap comp a → RisingAt comp (a ++ (x ∷ [])) (length a)
appended-RisingAt comp a x h =
    let size = length-append a (x ∷ []) in
    record {
      inside = omega arith;
      edges = λ c p q n.
          ground (arith, size, h c, at-append a (x ∷ []) c, at-append a (x ∷ []) (parent c));
      bridged = λ c p q e n. absurd (omega arith);
    }

insert_at_end-Inserted :
    (comp : CompFn) (x : ℕ) (a : List ℕ) (c : Option ℕ) (s : List (Option ℕ)) (size : ℕ)
    → IsOrder comp
    → IsHeap comp a
    → length (live a ++ (c ∷ s)) ≡ size
    → length a + 1 < 2 ^ 31
    → Returns
        (Inserted comp x a)
        (insert_at_end comp (record { tree = live a ++ (c ∷ s); size = size; used = length a }) x)
unfolding insert_at_end
insert_at_end-Inserted comp x a c s size o h sized small =
    let longer = length-append a (x ∷ []) in
    rw (store-end a c s x) (
      Returns-bind
        (sift_up-Heaped comp (length a + 1) (a ++ (x ∷ [])) s (length a) o
          (appended-RisingAt comp a x h) (omega arith))
        λ t r. rw (lt→ltb (length a + 1) (2 ^ 31) small) (
          returns (record {
            items = r.items;
            holds = record {
              spare = s;
              cells = r.cells;
              sized = omega (
                arith,
                sized,
                ap length r.cells,
                length-append (live r.items) s,
                length-live r.items,
                length-append (live a) (c ∷ s),
                length-live a,
                length-perm r.perm,
                longer,
              );
              counted = omega (arith, length-perm r.perm, longer);
              heap = r.heap;
            };
            perm = Perm.trans r.perm (snoc-perm a x);
          })))

insert_with_spare :
    (comp : CompFn) (x : ℕ) (a : List ℕ) (h : Heap) (s : List (Option ℕ))
    → IsOrder comp
    → IsHeap comp a
    → h.tree ≡ live a ++ s
    → length h.tree ≡ h.size
    → h.used ≡ length a
    → h.used < h.size
    → h.size < 2 ^ 31
    → Returns (Inserted comp x a) (insert_at_end comp h x)
insert_with_spare comp x a h [] o v cells sized counted room small =
    absurd (omega (arith, ap length cells, length-append (live a) [], length-live a))
insert_with_spare comp x a h (c ∷ s) o v cells sized counted room small =
    subst (λ g. Returns (Inserted comp x a) (insert_at_end comp g x))
      (sym (heap_eq h cells counted))
      (insert_at_end-Inserted comp x a c s h.size o v (sym (ap length cells) ∙ sized) (omega arith))

insert_free :
    (comp : CompFn) (x : ℕ) (a : List ℕ) (h : Heap)
    → IsOrder comp
    → Holds comp h a
    → h.used < h.size
    → h.size < 2 ^ 31
    → Returns
        (λ (r : Bool × Heap). (r.0 ≡ true) × Inserted comp x a r.1)
        (insert_at_end comp h x >>= λ h'. ok (true, h'))
insert_free comp x a h o v room small =
    Returns-bind
      (insert_with_spare comp x a h v.spare o v.heap v.cells v.sized v.counted room small)
      λ h' p. returns (refl, p)

-- Inserting into a heap that has a free cell, or whose array can be enlarged, where the comparison
-- function orders the values up to ties and the enlarged size fits an `int`, faults nowhere,
-- returns 0 and leaves a heap of the old values and the new one.
pub insert-Holds :
    (comp : CompFn) (realloc_works : Bool) (h : Heap) (x : ℕ) (a : List ℕ)
    → IsOrder comp
    → Holds comp h a
    → h.size + incr_size < 2 ^ 31
    → (h.used < h.size) ⊎ (realloc_works ≡ true)
    → Returns
        (λ (r : Bool × Heap). (r.0 ≡ true) × Inserted comp x a r.1)
        (insert comp realloc_works h x)
unfolding insert
insert-Holds comp true h x a o v small room =
    Returns-if (leb h.size h.used)
      (λ full. rw (lt→ltb (h.size + incr_size) (2 ^ 31) small) (
        insert_free comp x a (record h { tree = _; size = h.size + incr_size }) o
          (grown-Holds comp h a (h.size + incr_size) v (omega (arith, used-le-size v, v.counted)))
          (omega (arith, used-le-size v)) small))
      (λ free. insert_free comp x a h o v (leb-false→lt _ _ free) (omega arith))
insert-Holds comp false h x a o v small (inl free) =
    rw (lt→leb h.used h.size free) (insert_free comp x a h o v free (omega arith))
insert-Holds comp false h x a o v small (inr e) = cc
