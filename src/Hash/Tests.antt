-- ===== src/Hash/Tests.antt =====
-- Runs of the hash table, and the theorems at concrete tables.
use Prim.Native.Nat.{ℕ, ◌+◌, ◌%◌}
use mathlib.Core.Path.{subst}
use just_kit.Prelude.{
  Returns-inv, sym, ap, ◌∙◌, ◌≡◌, refl, true, false, none, some, List, [], ◌∷◌, arith, Run, ok,
  ◌>>=◌, Returns, replicate,
}
use just_kit.Prelude.{fault}
use just_kit.Hash.{
  new, free, Key, HashFn, Entry, Table, Status, hash_ok, duplicate_key, init, find, find_chain,
  insert, insert_located, append_entry, assign_chain, unlink_chain, remove, remove_located, locate,
  index_of, matches, same_bytes, rehash, next_size, move_all, move_chain, move_entry, default_hash,
  hash_bytes, hash_byte, destroy, destroy_all, destroy_chain,
}
use just_kit.Hash.Keys.{FitsInt}
use just_kit.Hash.Chains.{found}
use just_kit.Hash.Buckets.{view, concat, IsValid}
use just_kit.Hash.Fresh.{init-IsValid}
use just_kit.Hash.Rehash.{Rehashed, rehash-Rehashed}
use just_kit.Hash.Writes.{find-concat, Written, insert-new, insert-replace, remove-present}
use just_kit.Hash.Outcomes.{Outcome, insert-remove}
use just_kit.Hash.Wide.{find-high_byte}

-- What the tests compute with.
program : Unit {0}
unfolding init find find_chain insert insert_located append_entry assign_chain unlink_chain remove
    remove_located locate index_of matches same_bytes rehash next_size move_all move_chain
    move_entry default_hash hash_bytes hash_byte destroy destroy_all destroy_chain new free
program = tt

abbrev entry : ℕ → ℕ → Entry
entry c v = record { hashval = c; key = c ∷ []; val = v }

-- 7 buckets with two entries, one behind the other.
abbrev sample : Table
sample = record {
  buckets = [] ∷ [] ∷ [] ∷ [] ∷ [] ∷ [] ∷ (entry 97 1 ∷ (entry 104 2 ∷ [])) ∷ [];
  buckets_size = 7;
  elm_nums = 2;
  has_free = true;
}

-- The default hash of a key of one byte is that byte.
sample_built :
    (elim (init true 3 true) [
      | none ↦ Run.fault
      | some o ↦
          insert default_hash true true o (97 ∷ []) 1 false
          >>= (λ r. insert default_hash true true r.2 (104 ∷ []) 2 false)
          >>= (λ r. ok r.2)
    ])
    ≡ ok sample
unfolding program
sample_built = refl

-- A hash function that fits an `int`.
abbrev first_byte : HashFn
first_byte [] = 0
first_byte (c ∷ k) = c % 256

first_byte-FitsInt : FitsInt first_byte
first_byte-FitsInt [] = omega arith
first_byte-FitsInt (c ∷ k) = omega arith

abbrev empty : Table
empty = record { buckets = replicate 7 []; buckets_size = 7; elm_nums = 0; has_free = true }

empty-IsValid : IsValid first_byte empty × ((q : Key) → view first_byte empty.buckets q ≡ none)
unfolding init
empty-IsValid = init-IsValid first_byte 3 true empty refl

insert-new_example :
    Returns
      (λ (r : Status × List ℕ × Table).
        (r.0 ≡ hash_ok)
        × (r.1 ≡ [])
        × Written first_byte first_byte-FitsInt empty empty-IsValid.0 (97 ∷ []) (some 5) r.2
        × (r.2.elm_nums ≡ 1))
      (insert first_byte true true empty (97 ∷ []) 5 false)
insert-new_example =
    insert-new first_byte first_byte-FitsInt empty empty-IsValid.0 (97 ∷ []) true false 5
      (empty-IsValid.1 (97 ∷ [])) (omega arith)

-- The table with one key.
abbrev single : Table
single = record {
  buckets = [] ∷ [] ∷ [] ∷ [] ∷ [] ∷ [] ∷ (entry 97 5 ∷ []) ∷ [];
  buckets_size = 7;
  elm_nums = 1;
  has_free = true;
}

abbrev built : Run (Status × List ℕ × Table)
built = ok (hash_ok, [], single)

single_built : insert first_byte true true empty (97 ∷ []) 5 false ≡ ok (hash_ok, [], single)
unfolding program
single_built = refl

single-Written : IsValid first_byte single × (view first_byte single.buckets (97 ∷ []) ≡ some 5)
unfolding program view found
single-Written =
    let start = empty-IsValid in
    let (r, run, done) = Returns-inv (
      insert-new first_byte first_byte-FitsInt empty start.0 (97 ∷ []) true false 5
        (start.1 (97 ∷ [])) (omega arith)) in
    let same : built ≡ ok r = sym single_built ∙ run in
    let it : (hash_ok, [], single) ≡ r = cc in
    (
      subst (IsValid first_byte) (ap (λ (x : Status × List ℕ × Table). x.2) (sym it)) done.2.valid,
      refl,
    )

insert-replace_example :
    Returns
      (λ (r : Status × List ℕ × Table).
        (r.0 ≡ hash_ok)
        × (r.1 ≡ 5 ∷ [])
        × Written first_byte first_byte-FitsInt single single-Written.0 (97 ∷ []) (some 6) r.2
        × (r.2.elm_nums ≡ 1))
      (insert first_byte true true single (97 ∷ []) 6 true)
insert-replace_example =
    insert-replace first_byte first_byte-FitsInt single single-Written.0 (97 ∷ []) true true 6 5
      single-Written.1

remove-present_example :
    Returns
      (λ (r : Status × List ℕ × Table).
        (r.0 ≡ hash_ok)
        × (r.1 ≡ 5 ∷ [])
        × Written first_byte first_byte-FitsInt single single-Written.0 (97 ∷ []) none r.2
        × (r.2.elm_nums + 1 ≡ 1))
      (remove first_byte single (97 ∷ []))
remove-present_example =
    remove-present first_byte first_byte-FitsInt single single-Written.0 (97 ∷ []) 5
      single-Written.1

rehash-Rehashed_example : Returns (Rehashed first_byte single) (rehash true single)
rehash-Rehashed_example = rehash-Rehashed first_byte true single first_byte-FitsInt single-Written.0

-- One bucket, so that every key has its index.
abbrev narrow : Table
narrow = record {
  buckets = (record { hashval = 268435256; key = 200 ∷ []; val = 5 } ∷ []) ∷ [];
  buckets_size = 1;
  elm_nums = 1;
  has_free = true;
}

find-high_byte_example : ¬ (find default_hash narrow (200 ∷ []) ≡ ok (some 5))
find-high_byte_example =
    find-high_byte narrow 200 5 (omega arith) (omega arith) ((omega arith, tt), tt)

-- The entry that `insert` has made for such a key is not found.
high_byte_lost :
    insert default_hash true false
      (record { buckets = [] ∷ []; buckets_size = 1; elm_nums = 0; has_free = true })
      (200 ∷ [])
      5
      false
    ≡ ok (hash_ok, [], narrow)
unfolding program
high_byte_lost = refl

-- Where calloc fails the struct goes to the caller's function.
new_failed : new true false 3 true ≡ ok (none, true)
unfolding program
new_failed = refl

new_crashed : new true false 3 false ≡ fault
unfolding program
new_crashed = refl

sample_freed : free sample ≡ 1 ∷ (2 ∷ [])
unfolding program
sample_freed = refl

find-concat_example :
    find first_byte single (97 ∷ []) ≡ ok (found first_byte (97 ∷ []) (concat single.buckets))
find-concat_example = find-concat first_byte single (97 ∷ []) first_byte-FitsInt single-Written.0

insert-remove_example :
    Returns
      (Outcome first_byte single (97 ∷ []) (some 6) duplicate_key)
      (insert first_byte true true single (97 ∷ []) 6 false)
    × Returns
        (Outcome first_byte single (97 ∷ []) none hash_ok)
        (remove first_byte single (97 ∷ []))
unfolding program found
insert-remove_example =
    insert-remove first_byte single (97 ∷ []) true true false 6 first_byte-FitsInt single-Written.0
      (omega arith)
