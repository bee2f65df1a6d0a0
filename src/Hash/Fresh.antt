-- ===== src/Hash/Fresh.antt =====
-- `jk_hash_init`: a table of empty buckets.
use Prim.Native.Nat.{ℕ, zero, suc, ◌%◌, ◌<◌}
use mathlib.Core.Path.{subst}
use mathlib.Core.Option.{some-injective}
use just_kit.Prelude.{
  ◌≡◌, refl, sym, ap, ◌∙◌, Bool, true, [], none, some, arith, length, replicate, length-replicate,
  ltb, if◌then◌else◌,
}
use just_kit.Hash.{Key, HashFn, Chain, Table, init, buckets_min_size, buckets_max_size}
use just_kit.Hash.Chains.{found, found-nil, count-nil}
use just_kit.Hash.Buckets.{bucket, total, view, IsValid}

pub bucket-replicate : (m i : ℕ) → bucket (replicate m []) i ≡ []
bucket-replicate zero i = refl
bucket-replicate (suc m) zero = refl
bucket-replicate (suc m) (suc i) = bucket-replicate m i

pub total-replicate : (m : ℕ) → total (replicate m []) ≡ 0
total-replicate zero = refl
total-replicate (suc m) = omega (arith, total-replicate m)

-- The size that `jk_hash_init` takes.
abbrev pub clamp : ℕ → ℕ
clamp n =
    if ltb n buckets_min_size
    then buckets_min_size
    else if ltb buckets_max_size n
    then buckets_max_size
    else n

pub clamp_pos : (n : ℕ) → 0 < clamp n
clamp_pos n = ground arith

-- A table that `jk_hash_init` has made is valid and holds no key.
pub init-IsValid :
    (hash : HashFn) (init_buckets : ℕ) (has_free : Bool) (o : Table)
    → init true init_buckets has_free ≡ some o
    → IsValid hash o × ((q : Key) → view hash o.buckets q ≡ none)
unfolding init view
init-IsValid hash m has_free o h =
    subst (λ t. IsValid hash t × ((q : Key) → view hash t.buckets q ≡ none))
      (some-injective fresh o h)
      (
        record {
          width = length-replicate {A = Chain} (clamp m) [];
          filled = clamp_pos m;
          placed = λ q i. rw (bucket-replicate (clamp m) i, count-nil hash q) (omega arith);
          counted = sym (total-replicate (clamp m));
          small = omega arith;
        },
        λ q.
            ap (found hash q) (bucket-replicate (clamp m) (hash q % length fresh.buckets))
            ∙ found-nil hash q,
      )
  where
    fresh : Table
    fresh = record {
      buckets = replicate (clamp m) [];
      buckets_size = clamp m;
      elm_nums = 0;
      has_free = has_free;
    }
