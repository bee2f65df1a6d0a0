-- ===== src/Hash/Keys.antt =====
-- When the loops of the hash table take an entry for a key.
use Prim.Native.Nat.{ℕ, ◌^◌, ◌<◌}
use just_kit.Prelude.{◌≡◌, refl, Bool, true, ◌&&◌, [], ◌∷◌, arith, length, ◌==◌}
use just_kit.Hash.{Key, HashFn, Entry, to_int, same_bytes, matches}

pub same_bytes_refl : (a : Key) → same_bytes a a ≡ true
unfolding same_bytes
same_bytes_refl [] = refl
same_bytes_refl (x ∷ a) = ground (arith, same_bytes_refl a)

-- Up to the first zero byte, so what is the same as one key is the same as another.
same_bytes-congr : (a b c : Key) → same_bytes a b ≡ true → same_bytes a c ≡ same_bytes b c
unfolding same_bytes
same_bytes-congr [] [] c h = refl
same_bytes-congr [] (y ∷ b) c h = cc
same_bytes-congr (x ∷ a) [] c h = cc
same_bytes-congr (x ∷ a) (y ∷ b) [] h = refl
same_bytes-congr (x ∷ a) (y ∷ b) (z ∷ c) h = ground (arith, same_bytes-congr a b c)

same_bytes-congr_right : (a b c : Key) → same_bytes b c ≡ true → same_bytes a b ≡ same_bytes a c
unfolding same_bytes
same_bytes-congr_right a [] [] h = refl
same_bytes-congr_right a [] (z ∷ c) h = cc
same_bytes-congr_right a (y ∷ b) [] h = cc
same_bytes-congr_right [] (y ∷ b) (z ∷ c) h = refl
same_bytes-congr_right (x ∷ a) (y ∷ b) (z ∷ c) h = ground (arith, same_bytes-congr_right a b c)

-- A hash function whose values fit an `int`: otherwise no entry is ever found.
abbrev pub FitsInt : HashFn → Type 0
FitsInt hash = (k : Key) → hash k < 2 ^ 31

-- Two keys that the table does not tell apart.
pub same_key : HashFn → Key → Key → Bool
same_key hash k q = (hash k == hash q) && ((length k == length q) && same_bytes k q)

pub same_key_refl : (hash : HashFn) (k : Key) → same_key hash k k ≡ true
unfolding same_key
same_key_refl hash k = ground (arith, same_bytes_refl k)

pub same_key-hash : (hash : HashFn) (k q : Key) → same_key hash k q ≡ true → hash k ≡ hash q
unfolding same_key
same_key-hash hash k q h = ground arith

-- An entry for one of two such keys is an entry for the other.
pub matches-congr :
    (hash : HashFn) (k q : Key) (e : Entry)
    → matches (hash k) k e ≡ true
    → matches (hash q) q e ≡ same_key hash k q
unfolding matches same_key
matches-congr hash k q e h = ground (arith, same_bytes-congr e.key k q)

pub matches-congr_key :
    (hash : HashFn) (k q : Key) (e : Entry)
    → same_key hash k q ≡ true
    → matches (hash k) k e ≡ matches (hash q) q e
unfolding matches same_key
matches-congr_key hash k q e h = ground (arith, same_bytes-congr_right e.key k q)

-- The entry that an insertion makes.
pub matches-new :
    (hash : HashFn) (k q : Key) (v : ℕ)
    → FitsInt hash
    → matches (hash q) q (record { hashval = to_int (hash k); key = k; val = v })
      ≡ same_key hash k q
unfolding matches same_key
matches-new hash k q v fits = ground (arith, fits k, fits q)

pub matches-hashval :
    (hash : HashFn) (q : Key) (e : Entry)
    → FitsInt hash
    → matches (hash q) q e ≡ true
    → e.hashval ≡ hash q
unfolding matches
matches-hashval hash q e fits h = ground (arith, fits q)
