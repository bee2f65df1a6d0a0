-- ===== src/Avl/Keys.antt =====
-- Lists of entries with distinct keys in order, and the specifications of search and removal on them.
use Prim.Native.Nat.{ℕ, suc, ◌<◌}
use just_kit.Prelude.{◌≡◌, List, [], ◌∷◌, ◌++◌, none, some, refl, arith}
use just_kit.Avl.{Entry}
use just_kit.Avl.Order.{AllAtLeast, Sorted, erase_key, lookup_key}

abbrev pub AllBelow : ℕ → List Entry → Type 0
AllBelow k [] = Unit
AllBelow k (x ∷ xs) = (x.key < k) × AllBelow k xs

-- Keys rise from the first entry to the last.
abbrev pub Ascending : List Entry → Type 0
Ascending [] = Unit
Ascending (x ∷ xs) = AllAtLeast (suc x.key) xs × Ascending xs

at_least_left : (k : ℕ) (xs ys : List Entry) → AllAtLeast k (xs ++ ys) → AllAtLeast k xs
at_least_left k [] ys a = tt
at_least_left k (x ∷ xs) ys a = (a.0, at_least_left k xs ys a.1)

at_least_right : (k : ℕ) (xs ys : List Entry) → AllAtLeast k (xs ++ ys) → AllAtLeast k ys
at_least_right k [] ys a = a
at_least_right k (x ∷ xs) ys a = at_least_right k xs ys a.1

at_least_down : (k : ℕ) (xs : List Entry) → AllAtLeast (suc k) xs → AllAtLeast k xs
at_least_down k [] a = tt
at_least_down k (x ∷ xs) a = (omega arith, at_least_down k xs a.1)

pub Ascending-Sorted : (xs : List Entry) → Ascending xs → Sorted xs
Ascending-Sorted [] a = tt
Ascending-Sorted (x ∷ xs) a = (at_least_down x.key xs a.0, Ascending-Sorted xs a.1)

-- An ascending list cut at an entry.
pub record Cut (xs : List Entry) (e : Entry) (ys : List Entry) : Type 0 where
  pub left : Ascending xs
  pub right : Ascending ys
  pub less : AllBelow e.key xs
  pub greater : AllAtLeast (suc e.key) ys

pub Ascending-Cut :
    (xs : List Entry) (e : Entry) (ys : List Entry) → Ascending (xs ++ (e ∷ ys)) → Cut xs e ys
Ascending-Cut [] e ys s = record { left = tt; right = s.1; less = tt; greater = s.0 }
Ascending-Cut (x ∷ xs) e ys s =
    let rest = Ascending-Cut xs e ys s.1 in
    record {
      left = (at_least_left (suc x.key) xs (e ∷ ys) s.0, rest.left);
      right = rest.right;
      less = ((at_least_right (suc x.key) xs (e ∷ ys) s.0).0, rest.less);
      greater = rest.greater;
    }

lookup_key-absent : (k j : ℕ) (ys : List Entry) → k < j → AllAtLeast j ys → lookup_key k ys ≡ none
unfolding lookup_key
lookup_key-absent k j [] h a = refl
lookup_key-absent k j (y ∷ ys) h a = ground (arith, lookup_key-absent k j ys h a.1)

erase_key-absent : (k j : ℕ) (ys : List Entry) → k < j → AllAtLeast j ys → erase_key k ys ≡ ys
unfolding erase_key
erase_key-absent k j [] h a = refl
erase_key-absent k j (y ∷ ys) h a = ground (arith, erase_key-absent k j ys h a.1)

module _ (k : ℕ) (e : Entry) (ys : List Entry) where
  pub lookup_key-below :
      (xs : List Entry)
      → k < e.key
      → AllAtLeast (suc e.key) ys
      → lookup_key k (xs ++ (e ∷ ys)) ≡ lookup_key k xs
  unfolding lookup_key
  lookup_key-below [] less greater = ground (arith, lookup_key-absent k (suc e.key) ys)
  lookup_key-below (x ∷ xs) less greater = ground (arith, lookup_key-below xs)

  pub erase_key-below :
      (xs : List Entry)
      → k < e.key
      → AllAtLeast (suc e.key) ys
      → erase_key k (xs ++ (e ∷ ys)) ≡ erase_key k xs ++ (e ∷ ys)
  unfolding erase_key
  erase_key-below [] less greater = ground (arith, erase_key-absent k (suc e.key) ys)
  erase_key-below (x ∷ xs) less greater = ground (arith, erase_key-below xs)

  pub lookup_key-here :
      (xs : List Entry) → e.key ≡ k → AllBelow e.key xs → lookup_key k (xs ++ (e ∷ ys)) ≡ some e
  unfolding lookup_key
  lookup_key-here [] same b = ground arith
  lookup_key-here (x ∷ xs) same b = ground (arith, lookup_key-here xs)

  pub erase_key-here :
      (xs : List Entry) → e.key ≡ k → AllBelow e.key xs → erase_key k (xs ++ (e ∷ ys)) ≡ xs ++ ys
  unfolding erase_key
  erase_key-here [] same b = ground arith
  erase_key-here (x ∷ xs) same b = ground (arith, erase_key-here xs)

  pub lookup_key-above :
      (xs : List Entry)
      → e.key < k
      → AllBelow e.key xs
      → lookup_key k (xs ++ (e ∷ ys)) ≡ lookup_key k ys
  unfolding lookup_key
  lookup_key-above [] more b = ground arith
  lookup_key-above (x ∷ xs) more b = ground (arith, lookup_key-above xs)

  pub erase_key-above :
      (xs : List Entry)
      → e.key < k
      → AllBelow e.key xs
      → erase_key k (xs ++ (e ∷ ys)) ≡ xs ++ (e ∷ erase_key k ys)
  unfolding erase_key
  erase_key-above [] more b = ground arith
  erase_key-above (x ∷ xs) more b = ground (arith, erase_key-above xs)

at_least_erase : (j k : ℕ) (xs : List Entry) → AllAtLeast j xs → AllAtLeast j (erase_key k xs)
unfolding erase_key
at_least_erase j k [] a = tt
at_least_erase j k (x ∷ xs) a = ground (arith, at_least_erase j k xs)

pub erase_key-Ascending : (k : ℕ) (xs : List Entry) → Ascending xs → Ascending (erase_key k xs)
unfolding erase_key
erase_key-Ascending k [] a = tt
erase_key-Ascending k (x ∷ xs) a =
    ground (arith, erase_key-Ascending k xs, at_least_erase (suc x.key) k xs)
