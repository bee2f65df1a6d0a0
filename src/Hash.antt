-- ===== src/Hash.antt =====
-- jk_hash.c and jk_hash.h: a hash table with chains.
-- A `long` is its pattern of 64 bits and an `int` its pattern of 32 bits, so a negative number is a
-- large pattern.  A key is the list of its `klen` bytes.  The hash function is the caller's or
-- `default_hash`; the success of malloc and calloc is an argument.
pub mod Keys
pub mod Chains
pub mod Buckets
pub mod Fresh
pub mod Moves
pub mod Rehash
pub mod Writes
pub mod Outcomes
pub mod Wide
mod Tests
use Prim.Native.Nat.{ℕ, zero, suc, ◌+◌, ◌-◌, ◌*◌, ◌/◌, ◌%◌, ◌^◌, bit_and, bit_xor}
use just_kit.Prelude.{
  Option, none, some, List, [], ◌∷◌, ◌++◌, Bool, true, false, ◌&&◌, Run, ok, fault, ◌>>=◌, deref,
  length, get_elem?, set, replicate, ltb, leb, ◌==◌, if◌then◌else◌,
}

-- JK_HASH_OK, JK_HASH_ERR and JK_HASH_DUPLICATE_KEY
pub data Status : Type 0 where
  hash_ok hash_err duplicate_key : Status

abbrev pub Key : Type 0
Key = List ℕ

abbrev pub HashFn : Type 0
HashFn = Key → ℕ

-- `jk_hash_entry_t`; `next` is the rest of the chain.
pub record Entry : Type 0 where
  pub hashval : ℕ
  pub key : Key
  pub val : ℕ

abbrev pub Chain : Type 0
Chain = List Entry

-- `jk_hash_t`; `hash` is an argument of the operations, and `has_free` says whether `free` is set.
pub record Table : Type 0 where
  pub buckets : List Chain
  pub buckets_size : ℕ
  pub elm_nums : ℕ
  pub has_free : Bool

-- A byte read as a `char` and widened to a `long`.
abbrev pub char_to_long : ℕ → ℕ
char_to_long c = if ltb c 128 then c else c + 2 ^ 64 - 256

-- One round of the loop of `jk_hash_default_hash`.
pub hash_byte : ℕ → ℕ → ℕ
hash_byte h c =
    let h₁ = (h * 16 + char_to_long c) % 2 ^ 64 in
    let g = bit_and h₁ 0xF0000000 in if g == 0 then h₁ else bit_xor (bit_xor h₁ (g / 2 ^ 24)) g

pub hash_bytes : ℕ → Key → ℕ
hash_bytes h [] = h
hash_bytes h (c ∷ k) = hash_bytes (hash_byte h c) k

-- `jk_hash_default_hash`
pub default_hash : HashFn
default_hash k = hash_bytes 0 k

-- A `long` stored in an `int`, and an `int` read as a `long`.
abbrev pub to_int : ℕ → ℕ
to_int h = h % 2 ^ 32

abbrev pub to_long : ℕ → ℕ
to_long v = if ltb v (2 ^ 31) then v else v + (2 ^ 64 - 2 ^ 32)

-- `strncmp(a, b, klen) == 0` for two keys of one length: the comparison ends at a zero byte.
pub same_bytes : Key → Key → Bool
same_bytes [] [] = true
same_bytes [] (y ∷ b) = false
same_bytes (x ∷ a) [] = false
same_bytes (x ∷ a) (y ∷ b) = if x == y then (if x == 0 then true else same_bytes a b) else false

-- The test of the three loops over a chain.
pub matches : ℕ → Key → Entry → Bool
matches h k e = (to_long e.hashval == h) && ((length e.key == length k) && same_bytes e.key k)

-- `hashval % o->buckets_size` as an index: the remainder of a negative `long` is not positive.
pub index_of : ℕ → ℕ → Run ℕ
index_of h zero = fault
index_of h n =
    if ltb h (2 ^ 63) then ok (h % n) else if ((2 ^ 64 - h) % n) == 0 then ok 0 else fault

-- JK_HASH_BUCKETS_MIN_SIZE and JK_HASH_BUCKETS_MAX_SIZE
abbrev pub buckets_min_size : ℕ
buckets_min_size = 7

abbrev pub buckets_max_size : ℕ
buckets_max_size = 2147483647

-- `jk_hash_init`: `none` is -1.
pub init : Bool → ℕ → Bool → Option Table
init false init_buckets has_free = none
init true init_buckets has_free =
    let n =
      if ltb init_buckets buckets_min_size
      then buckets_min_size
      else if ltb buckets_max_size init_buckets
      then buckets_max_size
      else init_buckets in
    some (record { buckets = replicate n []; buckets_size = n; elm_nums = 0; has_free = has_free })

-- `jk_hash_new`, which hides libc's `free` behind its parameter: when `jk_hash_init` fails, the
-- struct is given to the caller's function, and a null function is called.  The second result says
-- whether the caller's function was called.
pub new : Bool → Bool → ℕ → Bool → Run (Option Table × Bool)
new false calloc_works init_buckets has_free = ok (none, false)
new true calloc_works init_buckets has_free = elim (init calloc_works init_buckets has_free) [
  | none ↦ if has_free then ok (none, true) else fault
  | some o ↦ ok (some o, false)
]

-- The chain of a key, with its index.
pub locate : HashFn → Table → Key → Run (ℕ × Chain)
locate hash o k = do
  i ← index_of (hash k) o.buckets_size
  c ← deref (get_elem? o.buckets i)
  ok (i, c)

-- The loop of `jk_hash_find`.
pub find_chain : ℕ → Key → Chain → Option ℕ
find_chain h k [] = none
find_chain h k (e ∷ c) = if matches h k e then some e.val else find_chain h k c

-- `jk_hash_find`: JK_HASH_OK with the data, or JK_HASH_ERR (`none`).
pub find : HashFn → Table → Key → Run (Option ℕ)
find hash o k = do (_, c) ← locate hash o k; ok (find_chain (hash k) k c)

-- `(*ei)->data = data` at the entry that the loop of `jk_hash_insert` stopped at.
pub assign_chain : ℕ → Key → ℕ → Chain → Chain
assign_chain h k v [] = []
assign_chain h k v (e ∷ c) =
    if matches h k e then record e { val = v } ∷ c else e ∷ assign_chain h k v c

-- The entry that the loop of `jk_hash_remove` stopped at, taken off the chain.
pub unlink_chain : ℕ → Key → Chain → Chain
unlink_chain h k [] = []
unlink_chain h k (e ∷ c) = if matches h k e then c else e ∷ unlink_chain h k c

-- The values given to `o->free`.
abbrev pub freed : Table → ℕ → List ℕ
freed o v = if o.has_free then v ∷ [] else []

-- `jk_hash_buckets_size`, with its sentinel.
abbrev pub sizes : List ℕ
sizes =
    7 ∷ 13 ∷ 31 ∷ 61 ∷ 127 ∷ 251 ∷ 509 ∷ 1021 ∷ 2039 ∷ 4093 ∷ 8191 ∷ 16381 ∷ 32749 ∷ 65521 ∷ 131071
    ∷ 262143 ∷ 524287 ∷ 1048575 ∷ 2097151 ∷ 4194303 ∷ 8388607 ∷ 16777211 ∷ 33554431 ∷ 67108863
    ∷ 134217727 ∷ 268435455 ∷ 536870911 ∷ 1073741823 ∷ 2147483647 ∷ 0 ∷ []

-- The first size that is greater, or the last one.
pub next_size : List ℕ → ℕ → ℕ → ℕ
next_size [] previous n = previous
next_size (s ∷ ss) previous n = if s == 0 then previous else if ltb n s then s else next_size ss s n

-- An entry put in front of its new chain.
pub move_entry : ℕ → Entry → List Chain → Run (List Chain)
move_entry n e fresh = do
  let i = e.hashval % n
  c ← deref (get_elem? fresh i)
  ok (set fresh i (e ∷ c))

pub move_chain : ℕ → Chain → List Chain → Run (List Chain)
move_chain n [] fresh = ok fresh
move_chain n (e ∷ c) fresh = move_entry n e fresh >>= move_chain n c

pub move_all : ℕ → List Chain → List Chain → Run (List Chain)
move_all n [] fresh = ok fresh
move_all n (c ∷ cs) fresh = move_chain n c fresh >>= move_all n cs

-- `jk_hash_rehash`
pub rehash : Bool → Table → Run Table
rehash calloc_works o =
    let n = next_size sizes 0 o.buckets_size in
    let moved : Run Table = elim (init calloc_works n false) [
      | none ↦ ok o
      | some new_htb ↦ move_all new_htb.buckets_size o.buckets new_htb.buckets >>= λ buckets.
          ok (record o { buckets = buckets; buckets_size = new_htb.buckets_size })
    ] in
    if n == o.buckets_size then ok o else moved

-- `jk_hash_insert` at the end of the chain.
pub append_entry :
    HashFn → Bool → Bool → Table → Key → ℕ → ℕ → Chain → Run (Status × List ℕ × Table)
append_entry hash malloc_works calloc_works o k v i c =
    let en : Entry = record { hashval = to_int (hash k); key = k; val = v } in
    let o' = record o {
      buckets = set o.buckets i (c ++ (en ∷ []));
      elm_nums = (o.elm_nums + 1) % 2 ^ 32;
    } in
    let full = rehash calloc_works o' >>= λ o''. ok (hash_ok, [], o'') in
    if malloc_works
    then (if ltb (2 * o'.buckets_size) (3 * o'.elm_nums) then full else ok (hash_ok, [], o'))
    else ok (hash_err, [], o)

-- `jk_hash_insert` once its loop has ended, at an entry with a value or at the end of the chain.
pub insert_located :
    HashFn
    → Bool
    → Bool
    → Table
    → Key
    → ℕ
    → Bool
    → ℕ
    → Chain
    → Option ℕ
    → Run (Status × List ℕ × Table)
insert_located hash malloc_works calloc_works o k v replace i c none =
    append_entry hash malloc_works calloc_works o k v i c
insert_located hash malloc_works calloc_works o k v replace i c (some old) =
    if replace
    then ok
        (hash_ok, freed o old, record o { buckets = set o.buckets i (assign_chain (hash k) k v c) })
    else ok (duplicate_key, [], o)

-- `jk_hash_insert`: the status, the values given to `o->free`, and the table.
pub insert : HashFn → Bool → Bool → Table → Key → ℕ → Bool → Run (Status × List ℕ × Table)
insert hash malloc_works calloc_works o k v replace = do
  (i, c) ← locate hash o k
  insert_located hash malloc_works calloc_works o k v replace i c (find_chain (hash k) k c)

-- `jk_hash_remove` once its loop has ended.
pub remove_located : HashFn → Table → Key → ℕ → Chain → Option ℕ → Run (Status × List ℕ × Table)
remove_located hash o k i c none = ok (hash_err, [], o)
remove_located hash o k i c (some old) = ok (
  hash_ok,
  freed o old,
  record o {
    buckets = set o.buckets i (unlink_chain (hash k) k c);
    elm_nums = (o.elm_nums + 2 ^ 32 - 1) % 2 ^ 32;
  },
)

-- `jk_hash_remove`
pub remove : HashFn → Table → Key → Run (Status × List ℕ × Table)
remove hash o k = do (i, c) ← locate hash o k; remove_located hash o k i c (find_chain (hash k) k c)

pub destroy_chain : Bool → Chain → List ℕ
destroy_chain has_free [] = []
destroy_chain has_free (e ∷ c) =
    let rest = destroy_chain has_free c in if has_free then e.val ∷ rest else rest

pub destroy_all : Bool → List Chain → List ℕ
destroy_all has_free [] = []
destroy_all has_free (c ∷ cs) = destroy_chain has_free c ++ destroy_all has_free cs

-- `jk_hash_destroy`: the values given to `o->free`, in turn.
pub destroy : Table → List ℕ
destroy o = destroy_all o.has_free o.buckets

-- `jk_hash_free`
pub free : Table → List ℕ
free o = destroy o
