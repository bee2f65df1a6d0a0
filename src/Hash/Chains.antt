-- ===== src/Hash/Chains.antt =====
-- One chain: how often a key occurs, and what each loop makes of it.
use Prim.Native.Nat.{ℕ, ◌+◌, ◌≤◌}
use just_kit.Prelude.{
  ◌≡◌, refl, Bool, true, false, [], ◌∷◌, ◌++◌, Option, none, some, arith, length, if◌then◌else◌,
}
use just_kit.Hash.{Key, HashFn, Entry, Chain, matches, find_chain, assign_chain, unlink_chain}
use just_kit.Hash.Keys.{same_key, matches-congr, matches-congr_key}

abbrev pub to_nat : Bool → ℕ
to_nat true = 1
to_nat false = 0

abbrev pub or_else : Option ℕ → Option ℕ → Option ℕ
or_else (some v) o = some v
or_else none o = o

pub or_else-none : (o : Option ℕ) → or_else o none ≡ o
or_else-none none = refl
or_else-none (some v) = refl

module _ (hash : HashFn) where
  -- The value of the first entry that matches a key, and how many of the entries do.
  unfoldable pub found : Key → Chain → Option ℕ
  found q [] = none
  found q (e ∷ c) = if matches (hash q) q e then some e.val else found q c

  pub count : Key → Chain → ℕ
  count q [] = 0
  count q (e ∷ c) = to_nat (matches (hash q) q e) + count q c

matches-val :
    (h : ℕ) (k : Key) (e : Entry) (v : ℕ) → matches h k (record e { val = v }) ≡ matches h k e
unfolding matches
matches-val h k e v = refl

module _ (hash : HashFn) where
  -- The loop of `jk_hash_find`.
  pub find_chain-found : (q : Key) (c : Chain) → find_chain (hash q) q c ≡ found hash q c
  unfolding find_chain found
  find_chain-found q [] = refl
  find_chain-found q (e ∷ c) = ground (arith, find_chain-found q c)

  pub found-cons :
      (q : Key) (e : Entry) (c : Chain)
      → found hash q (e ∷ c) ≡ (if matches (hash q) q e then some e.val else found hash q c)
  unfolding found
  found-cons q e c = refl

  pub count-cons :
      (q : Key) (e : Entry) (c : Chain)
      → count hash q (e ∷ c) ≡ to_nat (matches (hash q) q e) + count hash q c
  unfolding count
  count-cons q e c = refl

  pub count-nil : (q : Key) → count hash q [] ≡ 0
  unfolding count
  count-nil q = refl

  pub found-nil : (q : Key) → found hash q [] ≡ none
  unfolding found
  found-nil q = refl

  pub found-absent : (q : Key) (c : Chain) → count hash q c ≡ 0 → found hash q c ≡ none
  unfolding found count
  found-absent q [] h = refl
  found-absent q (e ∷ c) h = ground (arith, found-absent q c)

  pub count-absent : (q : Key) (c : Chain) → found hash q c ≡ none → count hash q c ≡ 0
  unfolding found count
  count-absent q [] h = refl
  count-absent q (e ∷ c) h = ground (arith, count-absent q c)

  pub found-congr :
      (k q : Key) (c : Chain) → same_key hash k q ≡ true → found hash k c ≡ found hash q c
  unfolding found
  found-congr k q [] h = refl
  found-congr k q (e ∷ c) h = ground (arith, found-congr k q c, matches-congr_key hash k q e)

  pub found-append :
      (q : Key) (a b : Chain) → found hash q (a ++ b) ≡ or_else (found hash q a) (found hash q b)
  unfolding found
  found-append q [] b = refl
  found-append q (e ∷ a) b = ground (arith, found-append q a b)

  pub count-append :
      (q : Key) (a b : Chain) → count hash q (a ++ b) ≡ count hash q a + count hash q b
  unfolding count
  count-append q [] b = omega arith
  count-append q (e ∷ a) b = omega (arith, count-append q a b)

  pub length-assign :
      (k : Key) (v : ℕ) (c : Chain) → length (assign_chain (hash k) k v c) ≡ length c
  unfolding assign_chain
  length-assign k v [] = refl
  length-assign k v (e ∷ c) = ground (arith, length-assign k v c)

  pub length-unlink :
      (k : Key) (old : ℕ) (c : Chain)
      → found hash k c ≡ some old
      → length (unlink_chain (hash k) k c) + 1 ≡ length c
  unfolding unlink_chain found find_chain
  length-unlink k old [] h = cc
  length-unlink k old (e ∷ c) h = ground (arith, length-unlink k old c)

  module _ (k q : Key) where
    pub found-assign :
        (v old : ℕ) (c : Chain)
        → found hash k c ≡ some old
        → found hash q (assign_chain (hash k) k v c)
          ≡ (if same_key hash k q then some v else found hash q c)
    unfolding found assign_chain
    found-assign v old [] h = cc
    found-assign v old (e ∷ c) h = ground (
      arith,
      found-assign v old c,
      matches-congr hash k q e,
      matches-congr_key hash k q e,
      matches-val (hash q) q e v,
    )

    pub count-assign :
        (v : ℕ) (c : Chain) → count hash q (assign_chain (hash k) k v c) ≡ count hash q c
    unfolding count assign_chain matches
    count-assign v [] = refl
    count-assign v (e ∷ c) = ground (arith, count-assign v c)

    pub found-unlink :
        (old : ℕ) (c : Chain)
        → count hash q c ≤ 1
        → found hash k c ≡ some old
        → found hash q (unlink_chain (hash k) k c)
          ≡ (if same_key hash k q then none else found hash q c)
    unfolding found unlink_chain count
    found-unlink old [] h p = cc
    found-unlink old (e ∷ c) h p = ground (
      arith,
      found-unlink old c,
      matches-congr hash k q e,
      matches-congr_key hash k q e,
      found-absent q c,
    )

    -- Any other key reads as before, however often it occurs.
    pub found-unlink_other :
        (old : ℕ) (c : Chain)
        → found hash k c ≡ some old
        → same_key hash k q ≡ false
        → found hash q (unlink_chain (hash k) k c)
          ≡ (if same_key hash k q then none else found hash q c)
    unfolding found unlink_chain
    found-unlink_other old [] h p = cc
    found-unlink_other old (e ∷ c) h p =
        ground (arith, found-unlink_other old c, matches-congr hash k q e)

    pub count-unlink-le : (c : Chain) → count hash q (unlink_chain (hash k) k c) ≤ count hash q c
    unfolding count unlink_chain
    count-unlink-le [] = omega arith
    count-unlink-le (e ∷ c) = ground (arith, count-unlink-le c)
