-- ===== src/Bloom/Marks.antt =====
-- The set of the bits of a filter, and what the two loops do with it.
use Prim.Native.Nat.{bit_and, bit_or}
use mathlib.Core.Path.{subst}
use just_kit.Prelude.{
  Bool-cases, ℕ, zero, suc, ◌+◌, ◌*◌, ◌/◌, ◌%◌, ◌^◌, ◌≤◌, ◌<◌, ◌≡◌, ◌≢◌, refl, sym, ap, ◌∙◌, Bool,
  true, false, ◌&&◌, ◌||◌, Option, none, some, List, [], ◌∷◌, arith, ok, ◌>>=◌, deref, Returns,
  Returns-bind, Returns-map, returns, length, get_elem?, set, length-set, get_elem?-set_self,
  get_elem?-set_ne, ◌==◌, ==_iff, if◌then◌else◌, inl, inr,
}
use just_kit.Bloom.{Key, HashFn, Filter, bits_index, set_bit, test_bit, set_loop, isset_loop}
use just_kit.Bloom.Bits.{bit, bit_or_lem, bit_or-lt}

abbrev pub AllBytes : List ℕ → Type 0
AllBytes [] = Unit
AllBytes (b ∷ bs) = (b < 256) × AllBytes bs

-- The array has the bits that the filter counts, and at least one.
pub record IsValid (f : Filter) : Type 0 where
  pub some_bits : 0 < f.size
  pub room : f.size ≤ length f.bits * 8
  pub bytes : AllBytes f.bits

abbrev pub bit_in : Option ℕ → ℕ → Bool
bit_in none j = false
bit_in (some b) j = bit b j

test_some :
    (o : Option ℕ) (j b : ℕ)
    → o ≡ some b
    → (deref o >>= λ c. ok (if bit_and c (2 ^ j) == 0 then false else true)) ≡ ok (bit_in o j)
test_some none j b h = cc
test_some (some c) j b h = refl

abbrev pub bit_at : List ℕ → ℕ → Bool
bit_at bs p = bit_in (get_elem? bs (p / 8)) (p % 8)

-- Whether a bit is set.
abbrev pub marked : Filter → ℕ → Bool
marked f p = bit_at f.bits p

get_byte :
    (bs : List ℕ) (i : ℕ)
    → i < length bs
    → AllBytes bs
    → (b : ℕ) × (get_elem? bs i ≡ some b) × (b < 256)
get_byte [] i h all = absurd (omega arith)
get_byte (b ∷ bs) zero h all = (b, refl, all.0)
get_byte (b ∷ bs) (suc i) h all = get_byte bs i (omega arith) all.1

set-AllBytes : (bs : List ℕ) (i b : ℕ) → b < 256 → AllBytes bs → AllBytes (set bs i b)
set-AllBytes [] i b h all = tt
set-AllBytes (c ∷ bs) zero b h all = (h, all.1)
set-AllBytes (c ∷ bs) (suc i) b h all = (all.0, set-AllBytes bs i b h all.1)

-- What setting the bit `p` leaves.
pub record Marked (f : Filter) (m : ℕ → Bool) (f' : Filter) : Type 0 where
  pub valid : IsValid f'
  pub same_size : f'.size ≡ f.size
  pub marks : (q : ℕ) → marked f' q ≡ (m q || marked f q)

byte_eq : (q p : ℕ) → p / 8 ≡ q / 8 → ((q % 8) == (p % 8)) ≡ (q == p)
byte_eq q p e = ground arith

byte_ne : (q p : ℕ) → p / 8 ≢ q / 8 → (q == p) ≡ false
byte_ne q p apart = ground arith

set_byte :
    (bs : List ℕ) (p q b : ℕ)
    → get_elem? bs (p / 8) ≡ some b
    → p / 8 < length bs
    → b < 256
    → bit_at (set bs (p / 8) (bit_or b (2 ^ (p % 8)))) q ≡ ((q == p) || bit_at bs q)
set_byte bs p q b here h small = elim (Bool-cases ((p / 8) == (q / 8))) [
  | inl equal ↦
      let e : p / 8 ≡ q / 8 = (==_iff _ _).0 equal in
      rw
        (sym e, get_elem?-set_self bs (p / 8) (bit_or b (2 ^ (p % 8))) h, here, sym (byte_eq q p e))
        (bit_or_lem b (p % 8) (q % 8) small (omega arith) (omega arith))
  | inr differ ↦
      let apart : p / 8 ≢ q / 8 = λ e. cc ((==_iff (p / 8) (q / 8)).1 e, differ) in
      rw (get_elem?-set_ne bs (bit_or b (2 ^ (p % 8))) apart, byte_ne q p apart) refl
]

pub set_bit-Marked :
    (f : Filter) (p : ℕ) → IsValid f → p < f.size → Returns (Marked f (λ q. q == p)) (set_bit f p)
unfolding set_bit
set_bit-Marked f p v h =
    let (b, here, small) = get_byte f.bits (p / 8) (omega (arith, v.room)) v.bytes in
    rw here (
      returns (record {
        valid = record {
          some_bits = v.some_bits;
          room = omega (arith, v.room, length-set f.bits (p / 8) (bit_or b (2 ^ (p % 8))));
          bytes = set-AllBytes f.bits (p / 8) _ (bit_or-lt b (p % 8) small (omega arith)) v.bytes;
        };
        same_size = refl;
        marks = λ q. set_byte f.bits p q b here (omega (arith, v.room)) small;
      }))

pub test_bit_lem : (f : Filter) (p : ℕ) → IsValid f → p < f.size → test_bit f p ≡ ok (marked f p)
unfolding test_bit
test_bit_lem f p v h =
    let (b, here, small) = get_byte f.bits (p / 8) (omega (arith, v.room)) v.bytes in
    test_some (get_elem? f.bits (p / 8)) (p % 8) b here

-- The bits of a key under the hash functions from the `i`-th on, `n` of them.
abbrev pub hits : HashFn → ℕ → Key → ℕ → ℕ → List ℕ
hits hash size k zero i = []
hits hash size k (suc n) i = (hash k i % 2 ^ 32 % size) ∷ hits hash size k n (i + 1)

abbrev pub contains : List ℕ → ℕ → Bool
contains [] q = false
contains (p ∷ ps) q = contains ps q || (q == p)

abbrev pub all_in : (ℕ → Bool) → List ℕ → Bool
all_in m [] = true
all_in m (p ∷ ps) = m p && all_in m ps

bits_index_lem :
    (hash : HashFn) (size : ℕ) (k : Key) (i : ℕ)
    → 0 < size
    → bits_index hash size k i ≡ ok (hash k i % 2 ^ 32 % size)
unfolding bits_index
bits_index_lem hash size k i h = ground arith

or_join : (a b c : Bool) → (a || (b || c)) ≡ ((a || b) || c)
or_join true b c = refl
or_join false b c = refl

pub set_loop-Marked :
    (hash : HashFn) (k : Key) (n i : ℕ) (f : Filter)
    → IsValid f
    → Returns (Marked f (contains (hits hash f.size k n i))) (set_loop hash k n i f)
unfolding set_loop
set_loop-Marked hash k zero i f v =
    returns (record { valid = v; same_size = refl; marks = λ q. refl })
set_loop-Marked hash k (suc n) i f v =
    let p = hash k i % 2 ^ 32 % f.size in
    rw (bits_index_lem hash f.size k i v.some_bits) (
      Returns-bind (set_bit-Marked f p v (omega (arith, v.some_bits))) λ f₁ m₁.
        Returns-map (set_loop-Marked hash k n (i + 1) f₁ m₁.valid) λ f₂ m₂. record {
          valid = m₂.valid;
          same_size = m₂.same_size ∙ m₁.same_size;
          marks = λ q.
              subst (λ size. marked f₂ q ≡ contains (hits hash size k n (i + 1)) q || marked f₁ q)
                m₁.same_size (m₂.marks q)
              ∙ ap (λ b. contains (hits hash f.size k n (i + 1)) q || b) (m₁.marks q)
              ∙ or_join (contains (hits hash f.size k n (i + 1)) q) (q == p) (marked f q);
        })

if-and : (a b : Bool) → (if a then ok b else ok false) ≡ ok (a && b)
if-and true b = refl
if-and false b = refl

pub isset_loop-all_in :
    (hash : HashFn) (f : Filter) (k : Key) (n i : ℕ)
    → IsValid f
    → isset_loop hash f k n i ≡ ok (all_in (marked f) (hits hash f.size k n i))
unfolding isset_loop
isset_loop-all_in hash f k zero i v = refl
isset_loop-all_in hash f k (suc n) i v =
    let p = hash k i % 2 ^ 32 % f.size in
    rw
      (
        bits_index_lem hash f.size k i v.some_bits,
        test_bit_lem f p v (omega (arith, v.some_bits)),
        isset_loop-all_in hash f k n (i + 1) v,
      )
      (if-and (marked f p) (all_in (marked f) (hits hash f.size k n (i + 1))))
