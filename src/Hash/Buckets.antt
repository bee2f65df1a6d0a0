-- ===== src/Hash/Buckets.antt =====
-- The buckets: which entries stand where, and what the table means.
use Prim.Native.Nat.{ℕ, zero, suc, ◌+◌, ◌%◌, ◌^◌, ◌<◌, ◌≤◌}
use just_kit.Prelude.{
  ◌≡◌, ◌≢◌, refl, ◌∙◌, List, [], ◌∷◌, ◌++◌, Option, arith, length, length-append, get_elem?, get_or,
  set, ok, deref, ◌==◌, if◌then◌else◌,
}
use just_kit.Hash.{Key, HashFn, Chain, Table, index_of, locate}
use just_kit.Hash.Keys.{FitsInt}
use just_kit.Hash.Chains.{to_nat, found, count, found-absent, found-append, count-append, count-nil}

abbrev pub bucket : List Chain → ℕ → Chain
bucket bs i = get_or bs i []

-- The number of entries.
abbrev pub total : List Chain → ℕ
total [] = 0
total (c ∷ bs) = length c + total bs

abbrev pub concat : List Chain → Chain
concat [] = []
concat (c ∷ bs) = c ++ concat bs

pub total-concat : (bs : List Chain) → total bs ≡ length (concat bs)
total-concat [] = refl
total-concat (c ∷ bs) = omega (arith, total-concat bs, length-append c (concat bs))

pub bucket-set :
    (bs : List Chain) (i j : ℕ) (c : Chain)
    → i < length bs
    → bucket (set bs i c) j ≡ (if i == j then c else bucket bs j)
bucket-set [] i j c h = absurd (omega arith)
bucket-set (d ∷ bs) zero zero c h = refl
bucket-set (d ∷ bs) zero (suc j) c h = ground arith
bucket-set (d ∷ bs) (suc i) zero c h = ground arith
bucket-set (d ∷ bs) (suc i) (suc j) c h = ground (arith, bucket-set bs i j c)

pub total-set :
    (bs : List Chain) (i : ℕ) (c : Chain)
    → i < length bs
    → total (set bs i c) + length (bucket bs i) ≡ total bs + length c
total-set [] i c h = absurd (omega arith)
total-set (d ∷ bs) zero c h = omega arith
total-set (d ∷ bs) (suc i) c h = omega (arith, total-set bs i c (omega arith))

pub deref-bucket :
    (bs : List Chain) (i : ℕ) → i < length bs → deref (get_elem? bs i) ≡ ok (bucket bs i)
deref-bucket [] i h = absurd (omega arith)
deref-bucket (c ∷ bs) zero h = refl
deref-bucket (c ∷ bs) (suc i) h = deref-bucket bs i (omega arith)

pub index_of-fits : (h n : ℕ) → h < 2 ^ 31 → 0 < n → index_of h n ≡ ok (h % n)
unfolding index_of
index_of-fits h zero p q = absurd (omega arith)
index_of-fits h (suc n) p q = ground arith

module _ (hash : HashFn) where
  -- What the buckets hold for a key.
  unfoldable pub view : List Chain → Key → Option ℕ
  view bs q = found hash q (bucket bs (hash q % length bs))

  -- A key occurs at most once, and only in its own bucket.
  abbrev pub IsPlaced : List Chain → Type 0
  IsPlaced bs = (q : Key) (i : ℕ) → count hash q (bucket bs i) ≤ to_nat ((hash q % length bs) == i)

  pub record IsValid (o : Table) : Type 0 where
    pub width : length o.buckets ≡ o.buckets_size
    pub filled : 0 < o.buckets_size
    pub placed : IsPlaced o.buckets
    pub counted : o.elm_nums ≡ total o.buckets
    pub small : o.elm_nums < 2 ^ 32

module _ (hash : HashFn) where
  pub locate-home :
      (o : Table) (k : Key)
      → FitsInt hash
      → IsValid hash o
      → locate hash o k ≡ ok (hash k % o.buckets_size, bucket o.buckets (hash k % o.buckets_size))
  unfolding locate
  locate-home o k fits v = rw (
    index_of-fits (hash k) o.buckets_size (fits k) v.filled,
    deref-bucket o.buckets (hash k % o.buckets_size) (grind (arith, v.width, v.filled)),
  )

  nowhere :
      (q : Key) (bs : List Chain)
      → ((i : ℕ) → count hash q (bucket bs i) ≡ 0)
      → count hash q (concat bs) ≡ 0
  nowhere q [] h = count-nil hash q
  nowhere q (c ∷ bs) h =
      omega (arith, count-append hash q c (concat bs), h 0, nowhere q bs (λ i. h (suc i)))

  only_at :
      (q : Key) (bs : List Chain) (j : ℕ)
      → ((i : ℕ) → i ≢ j → count hash q (bucket bs i) ≡ 0)
      → (found hash q (concat bs) ≡ found hash q (bucket bs j))
        × (count hash q (concat bs) ≡ count hash q (bucket bs j))
  only_at q [] j h = (refl, refl)
  only_at q (c ∷ bs) zero h =
      let rest = nowhere q bs (λ i. h (suc i) (omega arith)) in
      (
        found-append hash q c (concat bs)
            ∙ (rw (found-absent hash q (concat bs) rest) (ground arith)),
        omega (arith, count-append hash q c (concat bs), rest),
      )
  only_at q (c ∷ bs) (suc j) h =
      let here = h 0 (omega arith) in
      let there = only_at q bs j (λ i n. h (suc i) (omega arith)) in
      (
        found-append hash q c (concat bs) ∙ (rw (found-absent hash q c here) there.0),
        omega (arith, count-append hash q c (concat bs), here, there.1),
      )

  -- All the entries in one list say the same as the buckets.
  pub concat-view :
      (bs : List Chain) (q : Key)
      → IsPlaced hash bs
      → (found hash q (concat bs) ≡ view hash bs q) × (count hash q (concat bs) ≤ 1)
  unfolding view
  concat-view bs q placed =
      let home = hash q % length bs in
      let both = only_at q bs home (λ i n. ground (arith, placed q i)) in
      (both.0, ground (arith, both.1, placed q home))
