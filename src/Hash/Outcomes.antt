-- ===== src/Hash/Outcomes.antt =====
-- What `jk_hash_insert` and `jk_hash_remove` return, on every branch.
use just_kit.Prelude.{
  ℕ, ◌+◌, ◌^◌, ◌<◌, ◌≡◌, refl, sym, ◌∙◌, Bool, true, false, List, [], Option, none, some, Returns,
  returns, Returns-map,
}
use just_kit.Hash.{Key, HashFn, Table, Status, hash_ok, hash_err, duplicate_key, insert, remove}
use just_kit.Hash.Keys.{FitsInt, same_key_refl}
use just_kit.Hash.Chains.{found}
use just_kit.Hash.Buckets.{view, concat, concat-view, IsValid}
use just_kit.Hash.Writes.{
  Written, insert-new, insert-replace, insert-duplicate, insert-no_memory, remove-present,
  remove-absent,
}

-- The status of an insertion, and of a removal, by what the table held for the key.
abbrev pub insert_status : Option ℕ → (malloc_works replace : Bool) → Status
insert_status (some old) malloc_works true = hash_ok
insert_status (some old) malloc_works false = duplicate_key
insert_status none true replace = hash_ok
insert_status none false replace = hash_err

abbrev pub remove_status : Option ℕ → Status
remove_status (some old) = hash_ok
remove_status none = hash_err

-- A call that works leaves a valid table that has `after` for the key, and another nothing new.
abbrev pub Outcome : HashFn → Table → Key → Option ℕ → Status → Status × List ℕ × Table → Type 0
Outcome hash o k after hash_ok r =
    (r.0 ≡ hash_ok) × IsValid hash r.2 × (found hash k (concat r.2.buckets) ≡ after)
Outcome hash o k after hash_err r = r ≡ (hash_err, [], o)
Outcome hash o k after duplicate_key r = r ≡ (duplicate_key, [], o)

module _ (hash : HashFn) (o : Table) (k : Key) (fits : FitsInt hash) (v : IsValid hash o) where
  Written-found :
      (w : Option ℕ) (o' : Table)
      → Written hash fits o v k w o'
      → found hash k (concat o'.buckets) ≡ w
  Written-found w o' c =
      (concat-view hash o'.buckets k c.valid.placed).0
      ∙ c.reads k
      ∙ (rw (same_key_refl hash k) refl)

  insert-Outcome :
      (malloc_works calloc_works replace : Bool) (x : ℕ) (entry : Option ℕ)
      → o.elm_nums + 1 < 2 ^ 32
      → view hash o.buckets k ≡ entry
      → Returns
          (Outcome hash o k (some x) (insert_status entry malloc_works replace))
          (insert hash malloc_works calloc_works o k x replace)
  insert-Outcome malloc_works calloc_works true x (some old) room e =
      Returns-map (insert-replace hash fits o v k malloc_works calloc_works x old e)
        λ r c. (c.0, c.2.valid, Written-found (some x) r.2 c.2)
  insert-Outcome malloc_works calloc_works false x (some old) room e =
      rw (insert-duplicate hash fits o v k malloc_works calloc_works x old e) (returns refl)
  insert-Outcome true calloc_works replace x none room e =
      Returns-map (insert-new hash fits o v k calloc_works replace x e room)
        λ r c. (c.0, c.2.valid, Written-found (some x) r.2 c.2)
  insert-Outcome false calloc_works replace x none room e =
      rw (insert-no_memory hash fits o v k calloc_works replace x e) (returns refl)

  remove-Outcome :
      (entry : Option ℕ)
      → view hash o.buckets k ≡ entry
      → Returns (Outcome hash o k none (remove_status entry)) (remove hash o k)
  remove-Outcome (some old) e =
      Returns-map (remove-present hash fits o v k old e)
        λ r c. (c.0, c.2.valid, Written-found none r.2 c.2)
  remove-Outcome none e = rw (remove-absent hash fits o v k e) (returns refl)

-- In a valid table, where the hash function gives values that fit an `int` and are not negative,
-- and one more entry does not overflow the count, neither `jk_hash_insert` nor `jk_hash_remove`
-- faults, whatever malloc and calloc do. Inserting returns JK_HASH_DUPLICATE_KEY if any of all the
-- entries is for the key and `replace` is not set, JK_HASH_ERR if none is and malloc fails, and
-- JK_HASH_OK else; removing returns JK_HASH_ERR if none is, and JK_HASH_OK else. A call that
-- returns JK_HASH_OK leaves a valid table whose first entry for the key has the new value, or that
-- has none; every other call frees nothing and changes nothing.
pub insert-remove :
    (hash : HashFn) (o : Table) (k : Key) (malloc_works calloc_works replace : Bool) (x : ℕ)
    → FitsInt hash
    → IsValid hash o
    → o.elm_nums + 1 < 2 ^ 32
    → Returns
        (Outcome hash o k
          (some x)
          (insert_status (found hash k (concat o.buckets)) malloc_works replace))
        (insert hash malloc_works calloc_works o k x replace)
      × Returns
          (Outcome hash o k none (remove_status (found hash k (concat o.buckets))))
          (remove hash o k)
insert-remove hash o k malloc_works calloc_works replace x fits v room =
    let e = sym (concat-view hash o.buckets k v.placed).0 in
    (
      insert-Outcome hash o k fits v malloc_works calloc_works replace x
          (found hash k (concat o.buckets)) room e,
      remove-Outcome hash o k fits v (found hash k (concat o.buckets)) e,
    )
