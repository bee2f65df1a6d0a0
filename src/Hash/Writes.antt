-- ===== src/Hash/Writes.antt =====
-- `jk_hash_find`, `jk_hash_insert` and `jk_hash_remove` against a function from keys to values.
use Prim.Native.Nat.{ℕ, ◌+◌, ◌-◌, ◌*◌, ◌%◌, ◌^◌, ◌<◌, ◌≤◌}
use just_kit.Prelude.{
  ◌≡◌, ◌⊎◌, refl, sym, ap, ◌∙◌, Bool, true, false, List, [], ◌∷◌, ◌++◌, Option, none, some, arith,
  length, length-append, set, length-set, ok, Returns, returns, Returns-bind, Returns-if, ltb,
  if◌then◌else◌, Bool-cases, inl, inr,
}
use just_kit.Hash.{
  Key, HashFn, Entry, Chain, Table, Status, hash_ok, hash_err, duplicate_key, to_int, locate, find,
  insert, insert_located, append_entry, remove, remove_located, assign_chain, unlink_chain,
  find_chain, freed,
}
use just_kit.Hash.Keys.{FitsInt, same_key, same_key-hash, matches-new}
use just_kit.Hash.Chains.{
  find_chain-found, found, count, found-nil, count-nil, found-cons, count-cons, count-absent,
  found-congr, found-append, count-append, found-assign, count-assign, found-unlink,
  found-unlink_other, count-unlink-le, length-assign, length-unlink, or_else-none,
}
use just_kit.Hash.Buckets.{
  bucket, total, bucket-set, total-set, view, concat, concat-view, IsValid, locate-home,
}
use native.Mathlib.Nat.{mod-eq_of_lt}
use just_kit.Hash.Rehash.{rehash-Rehashed}

pub find-view :
    (hash : HashFn) (o : Table) (k : Key)
    → FitsInt hash
    → IsValid hash o
    → find hash o k ≡ ok (view hash o.buckets k)
unfolding find view
find-view hash o k fits v =
    rw (locate-home hash o k fits v)
      (rw v.width (ap ok (find_chain-found hash k (bucket o.buckets (hash k % o.buckets_size)))))

-- `jk_hash_find` on a valid table, where the hash function gives values that fit an `int` and are
-- not negative, faults nowhere and returns the value of the first entry for the key among all the
-- entries of the table, and JK_HASH_ERR exactly if there is none: its one bucket is enough.
pub find-concat :
    (hash : HashFn) (o : Table) (k : Key)
    → FitsInt hash
    → IsValid hash o
    → find hash o k ≡ ok (found hash k (concat o.buckets))
find-concat hash o k fits v =
    find-view hash o k fits v ∙ ap ok (sym (concat-view hash o.buckets k v.placed).0)

-- A function from keys to values, changed at one key.
abbrev pub update : HashFn → (Key → Option ℕ) → Key → Option ℕ → Key → Option ℕ
update hash f k v q = if same_key hash k q then v else f q

-- A valid table, with the buckets of another but for the one of `k`.
module _ (hash : HashFn) (fits : FitsInt hash) (o : Table) (v : IsValid hash o) (k : Key) where
  home : ℕ
  home = hash k % o.buckets_size

  chain : Chain
  chain = bucket o.buckets home

  home_lt : home < length o.buckets
  unfolding home
  home_lt = grind (arith, v.width, v.filled)

  chain-total : length chain ≤ total o.buckets
  unfolding chain
  chain-total = omega (arith, total-set o.buckets home [] home_lt)

  chain_once : (q : Key) → same_key hash k q ≡ true → count hash q chain ≤ 1
  unfolding chain home
  chain_once q same = ground (arith, v.placed q (hash k % o.buckets_size))

  -- A new chain for the bucket of `k`, and the table with it.
  module _ (c : Chain) (m : ℕ) where
    abbrev changed : Table
    changed = record o { buckets = set o.buckets home c; elm_nums = m }

    -- It has no more entries of any key, but one perhaps of `k`.
    abbrev Few : Type 0
    Few =
        (q : Key)
        → (count hash q c ≤ count hash q chain)
          ⊎ ((same_key hash k q ≡ true) × (count hash q c ≤ 1))

    changed-IsValid :
        Few → m + length chain ≡ o.elm_nums + length c → m < 2 ^ 32 → IsValid hash changed
    unfolding chain home
    changed-IsValid few size small = record {
      width = length-set o.buckets home c ∙ v.width;
      filled = v.filled;
      placed = λ q i. ground (
        arith,
        length-set o.buckets home c,
        v.width,
        home_lt,
        bucket-set o.buckets home i c,
        few q,
        v.placed q i,
        same_key-hash hash k q,
      );
      counted = omega (arith, size, v.counted, total-set o.buckets home c home_lt);
      small = small;
    }

    changed-view :
        (w : Option ℕ)
        → ((q : Key) → found hash q c ≡ (if same_key hash k q then w else found hash q chain))
        → (q : Key) → view hash (set o.buckets home c) q ≡ update hash (view hash o.buckets) k w q
    unfolding chain home view
    changed-view w reads q =
        rw (length-set, v.width)
          (ground (
            arith,
            home_lt,
            bucket-set o.buckets home (hash q % o.buckets_size) c,
            reads q,
            same_key-hash hash k q,
          ))

  held : {r : Option ℕ} → view hash o.buckets k ≡ r → find_chain (hash k) k chain ≡ r
  unfolding view chain home
  held h = find_chain-found hash k chain ∙ (rw v.width at h)

  held_found : {r : Option ℕ} → find_chain (hash k) k chain ≡ r → found hash k chain ≡ r
  held_found h = sym (find_chain-found hash k chain) ∙ h

  located : locate hash o k ≡ ok (home, chain)
  unfolding home chain
  located = locate-home hash o k fits v

  unlinked_reads :
      (old : ℕ)
      → found hash k chain ≡ some old
      → (q : Key)
      → found hash q (unlink_chain (hash k) k chain)
        ≡ (if same_key hash k q then none else found hash q chain)
  unlinked_reads old there q = elim (Bool-cases (same_key hash k q)) [
    | inl same ↦ found-unlink hash k q old chain (chain_once q same) there
    | inr other ↦ found-unlink_other hash k q old chain there other
  ]

  abbrev new_entry : ℕ → Entry
  new_entry x = record { hashval = to_int (hash k); key = k; val = x }

  appended_few : (x : ℕ) → found hash k chain ≡ none → Few (chain ++ (new_entry x ∷ [])) x
  appended_few x gone q = ground (
    arith,
    count-append hash q chain (new_entry x ∷ []),
    count-cons hash q (new_entry x) [],
    count-nil hash q,
    matches-new hash k q x fits,
    found-congr hash k q chain,
    count-absent hash q chain,
  )

  appended_reads :
      (x : ℕ)
      → found hash k chain ≡ none
      → (q : Key)
      → found hash q (chain ++ (new_entry x ∷ []))
        ≡ (if same_key hash k q then some x else found hash q chain)
  appended_reads x gone q = ground (
    arith,
    found-append hash q chain (new_entry x ∷ []),
    found-cons hash q (new_entry x) [],
    found-nil hash q,
    matches-new hash k q x fits,
    found-congr hash k q chain,
    or_else-none (found hash q chain),
  )

  -- What a write of `w` at the key leaves.
  pub record Written (w : Option ℕ) (o' : Table) : Type 0 where
    pub valid : IsValid hash o'
    pub reads : (q : Key) → view hash o'.buckets q ≡ update hash (view hash o.buckets) k w q

  -- In a valid table, where the hash function gives values that fit an `int` and are not negative,
  -- inserting a key that it does not hold faults nowhere and frees nothing, if malloc works and the
  -- count of entries does not overflow: it leaves a valid table with one more entry, in which the
  -- key has the value and every other key what it had, also where the table is rehashed.
  pub insert-new :
      (calloc_works replace : Bool) (x : ℕ)
      → view hash o.buckets k ≡ none
      → o.elm_nums + 1 < 2 ^ 32
      → Returns
          (λ (r : Status × List ℕ × Table).
            (r.0 ≡ hash_ok) × (r.1 ≡ []) × Written (some x) r.2 × (r.2.elm_nums ≡ o.elm_nums + 1))
          (insert hash true calloc_works o k x replace)
  unfolding insert insert_located append_entry
  insert-new calloc_works replace x absent room =
      let c = chain ++ (new_entry x ∷ []) in
      let n = o.elm_nums + 1 in
      let gone = held_found (held absent) in
      let valid =
        changed-IsValid c n (appended_few x gone)
          (omega (arith, length-append chain (new_entry x ∷ []))) room in
      let reads = changed-view c n (some x) (appended_reads x gone) in
      rw (located, held absent, mod-eq_of_lt room)
        (Returns-if (ltb (2 * o.buckets_size) (3 * n))
          (λ full. Returns-bind (rehash-Rehashed hash calloc_works (changed c n) fits valid) λ o' r.
            returns (
              refl,
              refl,
              record { valid = r.valid; reads = λ q. r.reads q ∙ reads q },
              r.same_count,
            ))
          (λ fine. returns (refl, refl, record { valid = valid; reads = reads }, refl)))

  -- In a valid table, where the hash function gives values that fit an `int` and are not negative,
  -- inserting a key that it does not hold, where malloc fails, returns JK_HASH_ERR, frees nothing
  -- and changes nothing.
  pub insert-no_memory :
      (calloc_works replace : Bool) (x : ℕ)
      → view hash o.buckets k ≡ none
      → insert hash false calloc_works o k x replace ≡ ok (hash_err, [], o)
  unfolding insert insert_located append_entry
  insert-no_memory calloc_works replace x absent = rw (located, held absent)

  -- In a valid table, where the hash function gives values that fit an `int` and are not negative,
  -- inserting a key that it holds, with `replace`, faults nowhere and frees the old value, if
  -- `free` is set: it leaves a valid table with as many entries, in which the key has the new value
  -- and every other key what it had.
  pub insert-replace :
      (malloc_works calloc_works : Bool) (x old : ℕ)
      → view hash o.buckets k ≡ some old
      → Returns
          (λ (r : Status × List ℕ × Table).
            (r.0 ≡ hash_ok)
            × (r.1 ≡ freed o old)
            × Written (some x) r.2
            × (r.2.elm_nums ≡ o.elm_nums))
          (insert hash malloc_works calloc_works o k x true)
  unfolding insert insert_located
  insert-replace malloc_works calloc_works x old present =
      let c = assign_chain (hash k) k x chain in
      let there = held_found (held present) in
      rw (located, held present)
        (returns (
          refl,
          refl,
          record {
            valid =
                changed-IsValid c o.elm_nums
                  (λ q. inl (ground (arith, count-assign hash k q x chain)))
                  (omega (arith, length-assign hash k x chain)) v.small;
            reads =
                changed-view c o.elm_nums (some x) (λ q. found-assign hash k q x old chain there);
          },
          refl,
        ))

  -- In a valid table, where the hash function gives values that fit an `int` and are not negative,
  -- inserting a key that it holds, without `replace`, returns JK_HASH_DUPLICATE_KEY, frees nothing
  -- and changes nothing.
  pub insert-duplicate :
      (malloc_works calloc_works : Bool) (x old : ℕ)
      → view hash o.buckets k ≡ some old
      → insert hash malloc_works calloc_works o k x false ≡ ok (duplicate_key, [], o)
  unfolding insert insert_located
  insert-duplicate malloc_works calloc_works x old present = rw (located, held present)

  -- In a valid table, where the hash function gives values that fit an `int` and are not negative,
  -- removing a key that it holds faults nowhere and frees its value, if `free` is set: it leaves a
  -- valid table with one entry less, in which the key has no value and every other key what it had.
  pub remove-present :
      (old : ℕ)
      → view hash o.buckets k ≡ some old
      → Returns
          (λ (r : Status × List ℕ × Table).
            (r.0 ≡ hash_ok)
            × (r.1 ≡ freed o old)
            × Written none r.2
            × (r.2.elm_nums + 1 ≡ o.elm_nums))
          (remove hash o k)
  unfolding remove remove_located
  remove-present old present =
      let c = unlink_chain (hash k) k chain in
      let there = held_found (held present) in
      let shorter = length-unlink hash k old chain there in
      let some_entries : 0 < o.elm_nums = omega (arith, v.counted, chain-total, shorter) in
      let m : (o.elm_nums + 2 ^ 32 - 1) % 2 ^ 32 ≡ o.elm_nums - 1 = omega (arith, v.small) in
      rw (located, held present, m)
        (returns (
          refl,
          refl,
          record {
            valid =
                changed-IsValid c (o.elm_nums - 1) (λ q. inl (count-unlink-le hash k q chain))
                  (omega arith) (omega (arith, v.small));
            reads = changed-view c (o.elm_nums - 1) none (unlinked_reads old there);
          },
          omega arith,
        ))

  -- In a valid table, where the hash function gives values that fit an `int` and are not negative,
  -- removing a key that it does not hold returns JK_HASH_ERR, frees nothing and changes nothing.
  pub remove-absent : view hash o.buckets k ≡ none → remove hash o k ≡ ok (hash_err, [], o)
  unfolding remove remove_located
  remove-absent absent = rw (located, held absent)
