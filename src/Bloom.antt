-- ===== src/Bloom.antt =====
-- jk_bloom_filter.c and jk_bloom_filter.h: a Bloom filter of eight hash functions over the caller's
-- array of bits.  A `char` of the array is its pattern of 8 bits, an `unsigned int` its pattern of 32.
pub mod Bits
pub mod Marks
pub mod Promise
mod Tests
use Prim.Native.Nat.{ℕ, zero, suc, ◌+◌, ◌*◌, ◌/◌, ◌%◌, ◌^◌, ◌-◌, bit_and, bit_or, bit_xor}
use just_kit.Prelude.{
  Option, none, some, List, [], ◌∷◌, ◌++◌, Bool, true, false, Run, ok, fault, ◌>>=◌, deref, length,
  get_elem?, get_or, set, drop, replicate, ltb, leb, ◌==◌, if◌then◌else◌,
}

abbrev pub Key : Type 0
Key = List ℕ

-- `jk_bloom_filter_hash_fn`, given the key and the index of the function
abbrev pub HashFn : Type 0
HashFn = Key → ℕ → ℕ

-- `jk_bloom_filter_t`; `hash` is an argument of the operations.
pub record Filter : Type 0 where
  pub size : ℕ
  pub bits : List ℕ

-- `jk_bloom_filter_init_salts`: the values that `rand` returns in turn are a parameter.  The loop
-- over the earlier salts goes on with itself and rejects none.
pub init_salts : (ℕ → ℕ) → ℕ → ℕ → List ℕ
init_salts rand zero i = []
init_salts rand (suc n) i =
    (bit_xor (rand (2 * i)) (rand (2 * i + 1)) % 2 ^ 32) ∷ init_salts rand n (i + 1)

-- A `char` added to an `unsigned int`.
abbrev pub char_to_unsigned : ℕ → ℕ
char_to_unsigned c = if ltb c 128 then c else c + 2 ^ 32 - 256

-- One round of the loop of `jk_bloom_filter_default_hash`.
pub hash_byte : ℕ → ℕ → ℕ
hash_byte h c =
    let h₁ = (h * 16 + char_to_unsigned c) % 2 ^ 32 in
    let g = bit_and h₁ 0xF0000000 in if g == 0 then h₁ else bit_xor (bit_xor h₁ (g / 2 ^ 24)) g

pub hash_bytes : ℕ → Key → ℕ
hash_bytes h [] = h
hash_bytes h (c ∷ k) = hash_bytes (hash_byte h c) k

-- `jk_bloom_filter_default_hash`, with the eight salts
pub default_hash : List ℕ → HashFn
default_hash salts k index = hash_bytes (get_or salts index 0) k

-- `jk_bloom_filter_init` with a size in bytes that is not negative: writing beyond the buffer, or a
-- number of bits that an `int` cannot hold, is a fault.
pub init : List ℕ → ℕ → Run Filter
init buffer size =
    if ltb (length buffer) size
    then fault
    else if leb (2 ^ 31) (size * 8)
    then fault
    else ok (record { size = size * 8; bits = replicate size 0 ++ drop size buffer })

-- `filter->hash(key, len, i) % filter->size`
pub bits_index : HashFn → ℕ → Key → ℕ → Run ℕ
bits_index hash size k i = if size == 0 then fault else ok (hash k i % 2 ^ 32 % size)

-- `filter->bits[index / 8] |= 1 << (index % 8)`
pub set_bit : Filter → ℕ → Run Filter
set_bit f index = do
  b ← deref (get_elem? f.bits (index / 8))
  ok (record f { bits = set f.bits (index / 8) (bit_or b (2 ^ (index % 8))) })

-- `filter->bits[index / 8] & (1 << (index % 8))`
pub test_bit : Filter → ℕ → Run Bool
test_bit f index = do
  b ← deref (get_elem? f.bits (index / 8))
  ok (if bit_and b (2 ^ (index % 8)) == 0 then false else true)

-- The loops, with the rounds that are left and the index of the hash function.
pub set_loop : HashFn → Key → ℕ → ℕ → Filter → Run Filter
set_loop hash k zero i f = ok f
set_loop hash k (suc n) i f =
    bits_index hash f.size k i >>= λ index. set_bit f index >>= λ f'. set_loop hash k n (i + 1) f'

pub isset_loop : HashFn → Filter → Key → ℕ → ℕ → Run Bool
isset_loop hash f k zero i = ok true
isset_loop hash f k (suc n) i =
    let rest = isset_loop hash f k n (i + 1) in
    bits_index hash f.size k i >>= λ index. test_bit f index >>= λ b. if b then rest else ok false

-- `jk_bloom_filter_set`
pub set_key : HashFn → Filter → Key → Run Filter
set_key hash f k = set_loop hash k 8 0 f

-- `jk_bloom_filter_isset`
pub isset : HashFn → Filter → Key → Run Bool
isset hash f k = isset_loop hash f k 8 0

-- `jk_bloom_filter_new`
pub new : Bool → List ℕ → ℕ → Run (Option Filter)
new malloc_works buffer size =
    let made = init buffer size >>= λ f. ok (some f) in if malloc_works then made else ok none
