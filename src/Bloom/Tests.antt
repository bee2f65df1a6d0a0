-- ===== src/Bloom/Tests.antt =====
-- Runs of the Bloom filter, and the theorems at a small one.
use just_kit.Prelude.{
  some, ◌+◌, ◌*◌, ◌≡◌, refl, true, false, [], ◌∷◌, arith, ok, ◌>>=◌, Returns, replicate,
}
use just_kit.Bloom.{
  Key, HashFn, Filter, init, init_salts, default_hash, hash_bytes, hash_byte, bits_index, set_bit,
  test_bit, set_loop, isset_loop, new, set_key, isset,
}
use just_kit.Bloom.Marks.{IsValid, Marked, marked, hits, contains, all_in}
use just_kit.Bloom.Promise.{set_key-isset, AllSet, Extends, set_keys, set_keys-AllSet, init-isset}

-- What the tests compute with.
program : Unit {0}
unfolding init init_salts default_hash hash_bytes hash_byte bits_index set_bit test_bit set_loop
    isset_loop set_key isset new
program = tt

-- The first byte and the index decide.
abbrev sum : HashFn
sum [] i = i
sum (c ∷ k) i = c + i * 5

abbrev sample : Filter
sample = record { size = 16; bits = 0 ∷ 3 ∷ [] }

sample-IsValid : IsValid sample
sample-IsValid = record {
  some_bits = omega arith;
  room = omega arith;
  bytes = (omega arith, (omega arith, tt));
}

sample_set : set_key sum sample (1 ∷ []) ≡ ok (record { size = 16; bits = 115 ∷ 143 ∷ [] })
unfolding program
sample_set = refl

sample_found : (set_key sum sample (1 ∷ []) >>= λ f. isset sum f (1 ∷ [])) ≡ ok true
unfolding program
sample_found = refl

-- `rand` that gives the same number twice makes two salts equal, and two hash functions with them.
salts_equal : init_salts (λ n. 5) 8 0 ≡ replicate 8 0
unfolding program
salts_equal = refl

default_hashed : default_hash (1 ∷ 2 ∷ []) (97 ∷ 200 ∷ []) 1 ≡ 2008
unfolding program
default_hashed = refl

set_key-isset_example :
    Returns (Marked sample (contains (hits sum 16 (1 ∷ []) 8 0))) (set_key sum sample (1 ∷ []))
    × (isset sum sample (1 ∷ []) ≡ ok (all_in (marked sample) (hits sum 16 (1 ∷ []) 8 0)))
set_key-isset_example = set_key-isset sum sample (1 ∷ []) sample-IsValid

set_keys-AllSet_example :
    Returns
      (λ (f : Filter). IsValid f × AllSet sum f ((1 ∷ []) ∷ (7 ∷ []) ∷ []) × Extends sum sample f)
      (set_keys sum ((1 ∷ []) ∷ (7 ∷ []) ∷ []) sample)
set_keys-AllSet_example = set_keys-AllSet sum ((1 ∷ []) ∷ (7 ∷ []) ∷ []) sample sample-IsValid

init-isset_example :
    Returns
      (λ (f : Filter). IsValid f × ((k : Key) → isset sum f k ≡ ok false))
      (init (9 ∷ 9 ∷ 9 ∷ []) 2)
init-isset_example =
    init-isset sum (9 ∷ 9 ∷ 9 ∷ []) 2 (omega arith, (omega arith, (omega arith, tt))) (omega arith)
      (omega arith) (omega arith)

new_made : new true (9 ∷ 9 ∷ []) 1 ≡ ok (some (record { size = 8; bits = 0 ∷ 9 ∷ [] }))
unfolding program
new_made = refl
