-- ===== src/Hash/Wide.antt =====
-- Hash values that do not fit an `int`: an entry keeps its hash value in an `int`, and the loops
-- compare that with the `long`.
use Prim.Native.Nat.{ℕ, zero, suc, ◌-◌, ◌^◌, ◌<◌, ◌≤◌}
use mathlib.Core.Path.{subst}
use mathlib.Core.Option.{some-injective}
use just_kit.Prelude.{
  all_from, all_from_sound, ◌≡◌, inl, inr, refl, Bool, true, ◌&&◌, List, [], ◌∷◌, Option, none,
  some, arith, Run, ok, fault, out_of_fuel, sym, ◌∙◌, Option-cases, ◌>>=◌, ltb, leb, get_elem?,
  deref,
}
use just_kit.Hash.{
  Key, HashFn, Chain, Table, find, find_chain, index_of, locate, matches, default_hash, hash_bytes,
  hash_byte,
}

abbrev HashvalsFit : Chain → Type 0
HashvalsFit [] = Unit
HashvalsFit (e ∷ c) = (e.hashval < 2 ^ 32) × HashvalsFit c

-- Every `hashval` is a pattern of 32 bits.
abbrev pub AllFit : List Chain → Type 0
AllFit [] = Unit
AllFit (c ∷ bs) = HashvalsFit c × AllFit bs

-- Neither a value of an `int` that is not negative, nor of one that is.
abbrev pub TooWide : ℕ → Type 0
TooWide h = (2 ^ 31 ≤ h) × (h < 2 ^ 64 - 2 ^ 31)

never_matches : (h : ℕ) (k : Key) (c : Chain) → TooWide h → HashvalsFit c → find_chain h k c ≡ none
unfolding find_chain matches
never_matches h k [] wide fit = refl
never_matches h k (e ∷ c) wide fit = ground (arith, never_matches h k c wide fit.1)

bucket_fits :
    (bs : List Chain) (i : ℕ) (c : Chain) → AllFit bs → get_elem? bs i ≡ some c → HashvalsFit c
bucket_fits [] i c fit h = absurd (ground arith)
bucket_fits (d ∷ bs) zero c fit h = subst HashvalsFit (some-injective d c h) fit.0
bucket_fits (d ∷ bs) (suc i) c fit h = bucket_fits bs i c fit.1 h

found_at :
    (h : ℕ) (k : Key) (bs : List Chain) (i : ℕ) (r : Option ℕ)
    → TooWide h
    → AllFit bs
    → (deref (get_elem? bs i) >>= λ c. ok (find_chain h k c)) ≡ ok r
    → r ≡ none
found_at h k bs i r wide fit e = elim (Option-cases (get_elem? bs i)) [
  | inl out ↦ let z : fault ≡ ok r = rw out at e in cc
  | inr (c, there) ↦
      let z : ok (find_chain h k c) ≡ ok r = rw there at e in
      cc (never_matches h k c wide (bucket_fits bs i c fit there))
]

found_after :
    (h : ℕ) (k : Key) (bs : List Chain) (i : Run ℕ) (r : Option ℕ)
    → TooWide h
    → AllFit bs
    → (i >>= λ j. deref (get_elem? bs j) >>= λ c. ok (find_chain h k c)) ≡ ok r
    → r ≡ none
found_after h k bs (ok i) r wide fit e = found_at h k bs i r wide fit e
found_after h k bs fault r wide fit e = cc
found_after h k bs out_of_fuel r wide fit e = cc

pair_out :
    (f : Chain → Option ℕ) (i : ℕ) (d : Run Chain)
    → ((d >>= λ c. ok (i, c)) >>= λ (x : ℕ × Chain). ok (f x.1)) ≡ (d >>= λ c. ok (f c))
pair_out f i (ok c) = refl
pair_out f i fault = refl
pair_out f i out_of_fuel = refl

flat :
    (f : Chain → Option ℕ) (bs : List Chain) (i : Run ℕ)
    → ((i >>= λ j. deref (get_elem? bs j) >>= λ c. ok (j, c)) >>= λ (x : ℕ × Chain). ok (f x.1))
      ≡ (i >>= λ j. deref (get_elem? bs j) >>= λ c. ok (f c))
flat f bs (ok j) = pair_out f j (deref (get_elem? bs j))
flat f bs fault = refl
flat f bs out_of_fuel = refl

-- A key whose hash value is too wide for an `int` is never found, whatever the table holds.
find-wide :
    (hash : HashFn) (o : Table) (k : Key) (r : Option ℕ)
    → TooWide (hash k)
    → AllFit o.buckets
    → find hash o k ≡ ok r
    → r ≡ none
unfolding find locate
find-wide hash o k r wide fit h =
    found_after (hash k) k o.buckets (index_of (hash k) o.buckets_size) r wide fit
      (sym (flat (find_chain (hash k) k) o.buckets (index_of (hash k) o.buckets_size)) ∙ h)

wide_test : ℕ → Bool
wide_test c = leb (2 ^ 31) (default_hash (c ∷ [])) && ltb (default_hash (c ∷ [])) (2 ^ 64 - 2 ^ 31)

high_bytes : all_from 128 128 wide_test ≡ true
unfolding wide_test default_hash hash_bytes hash_byte
high_bytes = refl

default_hash-TooWide : (c : ℕ) → 128 ≤ c → c < 256 → TooWide (default_hash (c ∷ []))
unfolding wide_test
default_hash-TooWide c low high =
    let test = all_from_sound 128 128 wide_test c high_bytes low (omega arith) in ground arith

-- With the default hash function no table whose entries have hash values of 32 bits gives a value
-- for a key of one byte from 0x80 on.
pub find-high_byte :
    (o : Table) (c v : ℕ)
    → 128 ≤ c
    → c < 256
    → AllFit o.buckets
    → ¬ (find default_hash o (c ∷ []) ≡ ok (some v))
find-high_byte o c v low high fit h =
    let none_found =
      find-wide default_hash o (c ∷ []) (some v) (default_hash-TooWide c low high) fit h in
    cc
