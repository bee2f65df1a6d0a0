-- ===== src/Hash/Rehash.antt =====
-- `jk_hash_rehash`: it moves every entry to a larger array, and every key keeps its value.
use just_kit.Prelude.{
  ◌≡◌, refl, sym, ◌∙◌, Bool, true, false, none, some, ok, ◌>>=◌, Returns, returns, Returns-bind,
  Returns-if, ◌==◌,
}
use just_kit.Hash.{Key, HashFn, Table, init, move_all, rehash, next_size, sizes}
use just_kit.Hash.Keys.{FitsInt}
use just_kit.Hash.Buckets.{view, IsValid}
use just_kit.Hash.Fresh.{clamp, clamp_pos}
use just_kit.Hash.Moves.{move_all-Moved}

-- What a rehash keeps.
pub record Rehashed (hash : HashFn) (o o' : Table) : Type 0 where
  pub valid : IsValid hash o'
  pub reads : (q : Key) → view hash o'.buckets q ≡ view hash o.buckets q
  pub same_count : o'.elm_nums ≡ o.elm_nums

-- Rehashing a valid table, where the hash function gives values that fit an `int` and are not
-- negative, faults nowhere, whether or not calloc works, and leaves a valid table with the same
-- number of entries, in which every key has the value that it had.
pub rehash-Rehashed :
    (hash : HashFn) (calloc_works : Bool) (o : Table)
    → FitsInt hash
    → IsValid hash o
    → Returns (Rehashed hash o) (rehash calloc_works o)
unfolding rehash init
rehash-Rehashed hash calloc_works o fits v =
    Returns-if (next_size sizes 0 o.buckets_size == o.buckets_size) (λ same. returns unchanged)
      λ other. moved calloc_works
  where
    unchanged : Rehashed hash o o
    unchanged = record { valid = v; reads = λ q. refl; same_count = refl }

    moved :
        (b : Bool)
        → Returns (Rehashed hash o) (elim (init b (next_size sizes 0 o.buckets_size) false) [
          | none ↦ ok o
          | some new_htb ↦ move_all new_htb.buckets_size o.buckets new_htb.buckets >>= λ buckets.
              ok (record o { buckets = buckets; buckets_size = new_htb.buckets_size })
        ])
    moved false = returns unchanged
    moved true =
        let n = clamp (next_size sizes 0 o.buckets_size) in
        Returns-bind
          (move_all-Moved hash fits n (clamp_pos (next_size sizes 0 o.buckets_size)) o.buckets
            v.placed)
          λ bs (w, placed, entries, reads). returns (record {
            valid = record {
              width = w;
              filled = clamp_pos (next_size sizes 0 o.buckets_size);
              placed = placed;
              counted = v.counted ∙ sym entries;
              small = v.small;
            };
            reads = reads;
            same_count = refl;
          })
