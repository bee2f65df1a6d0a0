-- ===== src/Avl/Order.antt =====
-- The entries of an AVL tree in order, and the sorted list that they are.
use Prim.Native.Nat.{ℕ, ◌≤◌, ◌<◌}
use just_kit.Prelude.{◌≡◌, List, [], ◌∷◌, ◌++◌, Option, none, some, arith, ltb, ◌==◌, if◌then◌else◌}
use just_kit.Avl.{Entry, Tree, empty_node, node}

abbrev pub inorder : Tree → List Entry
inorder empty_node = []
inorder (node l e h r) = inorder l ++ (e ∷ inorder r)

abbrev pub AllAtMost : ℕ → List Entry → Type 0
AllAtMost k [] = Unit
AllAtMost k (x ∷ xs) = (x.key ≤ k) × AllAtMost k xs

abbrev pub AllAtLeast : ℕ → List Entry → Type 0
AllAtLeast k [] = Unit
AllAtLeast k (x ∷ xs) = (k ≤ x.key) × AllAtLeast k xs

-- Keys do not fall from the first entry to the last.
abbrev pub Sorted : List Entry → Type 0
Sorted [] = Unit
Sorted (x ∷ xs) = AllAtLeast x.key xs × Sorted xs

-- The specification of insertion: before the first entry with a greater key.
unfoldable pub insert_sorted : Entry → List Entry → List Entry
insert_sorted n [] = n ∷ []
insert_sorted n (x ∷ xs) = if ltb n.key x.key then n ∷ (x ∷ xs) else x ∷ insert_sorted n xs

-- The specification of removal: without the first entry that has the key.
unfoldable pub erase_key : ℕ → List Entry → List Entry
erase_key k [] = []
erase_key k (x ∷ xs) = if x.key == k then xs else x ∷ erase_key k xs

-- The specification of search.
unfoldable pub lookup_key : ℕ → List Entry → Option Entry
lookup_key k [] = none
lookup_key k (x ∷ xs) = if x.key == k then some x else lookup_key k xs

AllAtLeast-weaken : (j k : ℕ) (xs : List Entry) → j ≤ k → AllAtLeast k xs → AllAtLeast j xs
AllAtLeast-weaken j k [] h a = tt
AllAtLeast-weaken j k (x ∷ xs) h a = (omega arith, AllAtLeast-weaken j k xs h a.1)

AllAtLeast-append_left : (k : ℕ) (xs ys : List Entry) → AllAtLeast k (xs ++ ys) → AllAtLeast k xs
AllAtLeast-append_left k [] ys a = tt
AllAtLeast-append_left k (x ∷ xs) ys a = (a.0, AllAtLeast-append_left k xs ys a.1)

AllAtLeast-append_right : (k : ℕ) (xs ys : List Entry) → AllAtLeast k (xs ++ ys) → AllAtLeast k ys
AllAtLeast-append_right k [] ys a = a
AllAtLeast-append_right k (x ∷ xs) ys a = AllAtLeast-append_right k xs ys a.1

-- A sorted list cut at an entry.
pub record Split (xs : List Entry) (e : Entry) (ys : List Entry) : Type 0 where
  pub below : Sorted xs
  pub above : Sorted ys
  pub at_most : AllAtMost e.key xs
  pub at_least : AllAtLeast e.key ys

pub Sorted-Split :
    (xs : List Entry) (e : Entry) (ys : List Entry) → Sorted (xs ++ (e ∷ ys)) → Split xs e ys
Sorted-Split [] e ys s = record { below = tt; above = s.1; at_most = tt; at_least = s.0 }
Sorted-Split (x ∷ xs) e ys s =
    let rest = Sorted-Split xs e ys s.1 in
    record {
      below = (AllAtLeast-append_left x.key xs (e ∷ ys) s.0, rest.below);
      above = rest.above;
      at_most = ((AllAtLeast-append_right x.key xs (e ∷ ys) s.0).0, rest.at_most);
      at_least = rest.at_least;
    }

AllAtLeast-insert :
    (k : ℕ) (n : Entry) (xs : List Entry)
    → k ≤ n.key
    → AllAtLeast k xs
    → AllAtLeast k (insert_sorted n xs)
unfolding insert_sorted
AllAtLeast-insert k n [] h a = (h, tt)
AllAtLeast-insert k n (x ∷ xs) h a = ground (arith, AllAtLeast-insert k n xs h)

pub insert_sorted-Sorted : (n : Entry) (xs : List Entry) → Sorted xs → Sorted (insert_sorted n xs)
unfolding insert_sorted
insert_sorted-Sorted n [] s = (tt, tt)
insert_sorted-Sorted n (x ∷ xs) s = ground (
  arith,
  insert_sorted-Sorted n xs,
  AllAtLeast-insert x.key n xs,
  AllAtLeast-weaken n.key x.key xs,
)

-- Insertion below an entry with a greater key, and above one with a key that is not greater.
pub insert_sorted-below :
    (n : Entry) (xs : List Entry) (e : Entry) (ys : List Entry)
    → n.key < e.key
    → insert_sorted n (xs ++ (e ∷ ys)) ≡ insert_sorted n xs ++ (e ∷ ys)
unfolding insert_sorted
insert_sorted-below n [] e ys h = ground arith
insert_sorted-below n (x ∷ xs) e ys h = ground (arith, insert_sorted-below n xs e ys h)

pub insert_sorted-above :
    (n : Entry) (xs : List Entry) (e : Entry) (ys : List Entry)
    → e.key ≤ n.key
    → AllAtMost e.key xs
    → insert_sorted n (xs ++ (e ∷ ys)) ≡ xs ++ (e ∷ insert_sorted n ys)
unfolding insert_sorted
insert_sorted-above n [] e ys h a = ground arith
insert_sorted-above n (x ∷ xs) e ys h a = ground (arith, insert_sorted-above n xs e ys h)
