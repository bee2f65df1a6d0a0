-- ===== src/Bloom/Promise.antt =====
-- What a Bloom filter promises: a key that has been set is found again.
use just_kit.Prelude.{
  ℕ, zero, suc, ◌*◌, ◌/◌, ◌%◌, ◌^◌, ◌≤◌, ◌<◌, ◌≡◌, refl, sym, ap, ◌∙◌, Bool, true, false, ◌&&◌,
  ◌||◌, some, List, [], ◌∷◌, ◌++◌, arith, Run, ok, ◌>>=◌, Returns, Returns-bind, Returns-map,
  returns, length, get_elem?, replicate, drop, length-replicate, length-append, ◌==◌, ltb, leb,
}
use mathlib.Core.Path.{subst}
use just_kit.Bloom.{Key, HashFn, Filter, init, set_key, isset}
use just_kit.Bloom.Bits.{bit_zero}
use just_kit.Bloom.Marks.{
  AllBytes, IsValid, Marked, marked, bit_at, bit_in, hits, contains, all_in, set_loop-Marked,
  isset_loop-all_in,
}

-- Setting a key in a valid filter faults nowhere, and leaves a valid filter of the same size in
-- which the bits are set that were set and those that the eight hash functions give for the key.
pub set_key-Marked :
    (hash : HashFn) (f : Filter) (k : Key)
    → IsValid f
    → Returns (Marked f (contains (hits hash f.size k 8 0))) (set_key hash f k)
unfolding set_key
set_key-Marked hash f k v = set_loop-Marked hash k 8 0 f v

-- On a valid filter `jk_bloom_filter_isset` faults nowhere, and returns whether all the bits are
-- set that the eight hash functions give for the key.
pub isset-all_in :
    (hash : HashFn) (f : Filter) (k : Key)
    → IsValid f
    → isset hash f k ≡ ok (all_in (marked f) (hits hash f.size k 8 0))
unfolding isset
isset-all_in hash f k v = isset_loop-all_in hash f k 8 0 v

-- On a valid filter neither `jk_bloom_filter_set_key` nor `jk_bloom_filter_isset` faults. Setting a
-- key leaves a valid filter of the same size in which the bits are set that were set and those that
-- the eight hash functions give for the key; testing it returns whether all these bits are set.
pub set_key-isset :
    (hash : HashFn) (f : Filter) (k : Key)
    → IsValid f
    → Returns (Marked f (contains (hits hash f.size k 8 0))) (set_key hash f k)
      × (isset hash f k ≡ ok (all_in (marked f) (hits hash f.size k 8 0)))
set_key-isset hash f k v = (set_key-Marked hash f k v, isset-all_in hash f k v)

or_true : (a : Bool) → a || true ≡ true
or_true true = refl
or_true false = refl

all_in_mono :
    (m m' : ℕ → Bool) (ps : List ℕ)
    → ((q : ℕ) → m q ≡ true → m' q ≡ true)
    → all_in m ps ≡ true
    → all_in m' ps ≡ true
all_in_mono m m' [] h t = refl
all_in_mono m m' (p ∷ ps) h t = grind (arith, h p, all_in_mono m m' ps h)

-- Marks that cover the bits from `ps` on cover `ps`.
all_in_self :
    (m : ℕ → Bool) (ps : List ℕ)
    → ((q : ℕ) → contains ps q ≡ true → m q ≡ true)
    → all_in m ps ≡ true
all_in_self m [] h = refl
all_in_self m (p ∷ ps) h =
    let here : contains (p ∷ ps) p ≡ true = grind arith in
    let rest = all_in_self m ps λ q t. h q (ap (λ b. b || (q == p)) t) in
    ap (λ b. b && all_in m ps) (h p here) ∙ rest

-- Every one of the keys is found.
abbrev pub AllSet : HashFn → Filter → List Key → Type 0
AllSet hash f [] = Unit
AllSet hash f (k ∷ ks) = (isset hash f k ≡ ok true) × AllSet hash f ks

-- A filter in which all the keys are found that are found in another one.
abbrev pub Extends : HashFn → Filter → Filter → Type 0
Extends hash f f' = (q : Key) → isset hash f q ≡ ok true → isset hash f' q ≡ ok true

module _ (hash : HashFn) where
  all_in-isset :
      (f : Filter) (k : Key)
      → IsValid f
      → all_in (marked f) (hits hash f.size k 8 0) ≡ true
      → isset hash f k ≡ ok true
  all_in-isset f k v t = isset-all_in hash f k v ∙ ap ok t

  isset-found :
      (f : Filter) (k : Key)
      → IsValid f
      → isset hash f k ≡ ok true
      → all_in (marked f) (hits hash f.size k 8 0) ≡ true
  isset-found f k v t =
      let e : ok (all_in (marked f) (hits hash f.size k 8 0)) ≡ ok true =
        sym (isset-all_in hash f k v) ∙ t in
      cc

  Marked-Extends :
      (f f' : Filter) (k : Key)
      → IsValid f
      → Marked f (contains (hits hash f.size k 8 0)) f'
      → Extends hash f f'
  Marked-Extends f f' k v m q found = all_in-isset f' q m.valid (
      all_in_mono (marked f) (marked f') (hits hash f'.size q 8 0)
        (λ p t.
          m.marks p
          ∙ ap (λ b. contains (hits hash f.size k 8 0) p || b) t
          ∙ or_true (contains (hits hash f.size k 8 0) p))
        (subst (λ size. all_in (marked f) (hits hash size q 8 0) ≡ true) (sym m.same_size)
          (isset-found f q v found)))

  Marked-isset :
      (f f' : Filter) (k : Key)
      → Marked f (contains (hits hash f.size k 8 0)) f'
      → isset hash f' k ≡ ok true
  Marked-isset f f' k m = all_in-isset f' k m.valid (
      all_in_self (marked f') (hits hash f'.size k 8 0) λ p t.
        let t' = subst (λ size. contains (hits hash size k 8 0) p ≡ true) m.same_size t in
        m.marks p ∙ ap (λ b. b || marked f p) t')

  -- Setting a key in a valid filter faults nowhere: afterwards the key is found, and so is every key
  -- that was found before.
  pub isset-set_key :
      (f : Filter) (k : Key)
      → IsValid f
      → Returns
          (λ f'. IsValid f' × (isset hash f' k ≡ ok true) × Extends hash f f')
          (set_key hash f k)
  isset-set_key f k v =
      Returns-map (set_key-Marked hash f k v)
        λ f' m. (m.valid, Marked-isset f f' k m, Marked-Extends f f' k v m)

-- `jk_bloom_filter_set` for each of the keys in turn.
pub set_keys : HashFn → List Key → Filter → Run Filter
set_keys hash [] f = ok f
set_keys hash (k ∷ ks) f = set_key hash f k >>= set_keys hash ks

-- Whatever keys are set in turn in a valid filter, no call faults, and in the end every one of them
-- is found, with all that were found before: a Bloom filter has no false negatives.
pub set_keys-AllSet :
    (hash : HashFn) (ks : List Key) (f : Filter)
    → IsValid f
    → Returns (λ f'. IsValid f' × AllSet hash f' ks × Extends hash f f') (set_keys hash ks f)
unfolding set_keys
set_keys-AllSet hash [] f v = returns (v, tt, λ q t. t)
set_keys-AllSet hash (k ∷ ks) f v = Returns-bind (isset-set_key hash f k v) λ f₁ s₁.
    Returns-map (set_keys-AllSet hash ks f₁ s₁.0)
      λ f₂ s₂. (s₂.0, (s₂.2 k s₁.1, s₂.1), λ q t. s₂.2 q (s₁.2 q t))

zeros-get : (n : ℕ) (bs : List ℕ) (i : ℕ) → i < n → get_elem? (replicate n 0 ++ bs) i ≡ some 0
zeros-get zero bs i h = absurd (omega arith)
zeros-get (suc n) bs zero h = refl
zeros-get (suc n) bs (suc i) h = zeros-get n bs i (omega arith)

zeros-clear : (n : ℕ) (bs : List ℕ) (p : ℕ) → p < n * 8 → bit_at (replicate n 0 ++ bs) p ≡ false
zeros-clear n bs p h =
    ap (λ o. bit_in o (p % 8)) (zeros-get n bs (p / 8) (omega arith))
    ∙ bit_zero (p % 8) (omega arith)

drop-AllBytes : (n : ℕ) (bs : List ℕ) → AllBytes bs → AllBytes (drop n bs)
drop-AllBytes zero bs all = all
drop-AllBytes (suc n) [] all = tt
drop-AllBytes (suc n) (b ∷ bs) all = drop-AllBytes n bs all.1

zeros-AllBytes : (n : ℕ) (bs : List ℕ) → AllBytes bs → AllBytes (replicate n 0 ++ bs)
zeros-AllBytes zero bs all = all
zeros-AllBytes (suc n) bs all = (omega arith, zeros-AllBytes n bs all)

-- A filter made over a buffer of at least `size` bytes, where `size` is more than 0 and the number
-- of bits fits an `int`, is valid, and finds no key at all.
pub init-isset :
    (hash : HashFn) (buffer : List ℕ) (size : ℕ)
    → AllBytes buffer
    → 0 < size
    → size ≤ length buffer
    → size * 8 < 2 ^ 31
    → Returns (λ f. IsValid f × ((k : Key) → isset hash f k ≡ ok false)) (init buffer size)
unfolding init
init-isset hash buffer size all pos room small =
    let f : Filter = record { size = size * 8; bits = replicate size 0 ++ drop size buffer } in
    let valid : IsValid f = record {
      some_bits = omega arith;
      room = omega (
        arith,
        length-append (replicate {A = ℕ} size 0) (drop size buffer),
        length-replicate {A = ℕ} size 0,
      );
      bytes = zeros-AllBytes size (drop size buffer) (drop-AllBytes size buffer all);
    } in
    let clear = λ (k : Key).
      isset-all_in hash f k valid
      ∙ ap (λ b. ok (b && all_in (marked f) (hits hash (size * 8) k 7 1)))
          (zeros-clear size (drop size buffer) (hash k 0 % 2 ^ 32 % (size * 8)) (omega arith)) in
    let fits : ltb (length buffer) size ≡ false = ground arith in
    let narrow : leb (2 ^ 31) (size * 8) ≡ false = ground arith in
    rw (fits, narrow) (returns (valid, clear))
