-- ===== src/Heap/Tests.antt =====
-- Runs of the heap, and the theorems at concrete heaps.
use Prim.Native.Nat.{compare, Ordering}
use just_kit.Prelude.{◌≡◌, refl, Bool, true, false, none, some, [], ◌∷◌, arith, inl, ok, Returns}
use just_kit.Prelude.{replicate}
use just_kit.Heap.{
  create, free, Heap, Sign, CompFn, init, insert, insert_at_end, sift_up, extract, shrink, refill,
  shrunk_size, sift_down, greater_of, load, store, swap, destroy, destroyed,
}
use just_kit.Heap.Order.{IsOrder}
use just_kit.Heap.Contents.{Holds}
use just_kit.Heap.Insert.{Inserted, insert-Holds}
use just_kit.Heap.Destroy.{destroy-Holds}
use just_kit.Heap.Extract.{Extracted, extract-Extracted}

-- Pointers compared as numbers.
abbrev by_number : CompFn
by_number x y = elim (compare x y) [
  | Ordering.lt ↦ Sign.negative
  | Ordering.eq ↦ Sign.null
  | Ordering.gt ↦ Sign.positive
]

by_number-IsOrder : IsOrder by_number
by_number-IsOrder = record {
  flipped = λ x y. ground arith;
  asym = λ x y h. ground arith;
  trans = λ x y z h k. ground arith;
}

abbrev sample : Heap
sample = record { tree = some 9 ∷ (some 5 ∷ (some 8 ∷ (some 1 ∷ (none ∷ [])))); size = 5; used = 4 }

sample-Holds : Holds by_number sample (9 ∷ (5 ∷ (8 ∷ (1 ∷ []))))
sample-Holds = record {
  spare = none ∷ [];
  cells = refl;
  sized = refl;
  counted = refl;
  heap = λ c p q. grind arith;
}

-- What the tests compute with.
program : Unit {0}
unfolding insert insert_at_end sift_up extract shrink refill shrunk_size sift_down greater_of load
    store swap destroy destroyed init create free
program = tt

sample_extracted :
    extract by_number true sample
    ≡ ok
        (some 9, record { tree = some 8 ∷ (some 5 ∷ (some 1 ∷ (some 1 ∷ []))); size = 4; used = 3 })
unfolding program
sample_extracted = refl

sample_inserted :
    insert by_number true sample 10
    ≡ ok (
      true,
      record sample { tree = some 10 ∷ (some 9 ∷ (some 8 ∷ (some 1 ∷ (some 5 ∷ [])))); used = 5 },
    )
unfolding program
sample_inserted = refl

sample_destroyed : destroy true sample ≡ ok (9 ∷ (5 ∷ (8 ∷ (1 ∷ []))))
unfolding program
sample_destroyed = refl

insert-Holds_example :
    Returns
      (λ (r : Bool × Heap). (r.0 ≡ true) × Inserted by_number 7 (9 ∷ (5 ∷ (8 ∷ (1 ∷ [])))) r.1)
      (insert by_number false sample 7)
insert-Holds_example =
    insert-Holds by_number false sample 7 (9 ∷ (5 ∷ (8 ∷ (1 ∷ [])))) by_number-IsOrder sample-Holds
      (omega arith) (inl (omega arith))

-- A full heap whose array cannot be enlarged.
not_grown :
    insert by_number false (record { tree = some 3 ∷ []; size = 1; used = 1 }) 7
    ≡ ok (false, record { tree = some 3 ∷ []; size = 1; used = 1 })
unfolding program
not_grown = refl

extract-Extracted_example :
    Returns (Extracted by_number (9 ∷ (5 ∷ (8 ∷ (1 ∷ []))))) (extract by_number true sample)
extract-Extracted_example =
    extract-Extracted by_number true sample (9 ∷ (5 ∷ (8 ∷ (1 ∷ [])))) by_number-IsOrder
      sample-Holds (omega arith) (omega arith)

created_empty :
    (create true false ≡ none)
    × (elim (create true true) [ none ↦ [] | some h ↦ h.tree ] ≡ replicate 10 none)
unfolding program
created_empty = (refl, refl)

sample_freed : free true sample ≡ destroy true sample
unfolding program
sample_freed = refl

destroy-Holds_example : destroy true sample ≡ ok (9 ∷ (5 ∷ (8 ∷ (1 ∷ []))))
destroy-Holds_example = destroy-Holds by_number true sample (9 ∷ (5 ∷ (8 ∷ (1 ∷ [])))) sample-Holds
