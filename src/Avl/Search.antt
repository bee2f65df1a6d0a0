-- ===== src/Avl/Search.antt =====
-- `jk_avl_find_node`, `jk_avl_find_min` and `jk_avl_find_max` against the list of the entries.
use Prim.Native.Nat.{ℕ, ◌≤◌}
use just_kit.Prelude.{
  sym, ◌∙◌, List, [], ◌∷◌, ◌++◌, get_elem?, Option, some, none, ◌↔◌, ◌≡◌, refl, arith,
}
use just_kit.Avl.{Entry, Tree, empty_node, node, find_min, find_max, find_node}
use just_kit.Avl.Order.{inorder, lookup_key, Sorted, AllAtLeast, AllAtMost}
use just_kit.Avl.Keys.{
  Ascending, Ascending-Cut, lookup_key-below, lookup_key-here, lookup_key-above,
}

first_of_nonempty :
    (xs : List Entry) (e : Entry) (ys zs : List Entry)
    → get_elem? ((xs ++ (e ∷ ys)) ++ zs) 0 ≡ get_elem? (xs ++ (e ∷ ys)) 0
first_of_nonempty [] e ys zs = refl
first_of_nonempty (x ∷ xs) e ys zs = refl

find_min-first : (t : Tree) → find_min t ≡ get_elem? (inorder t) 0
unfolding find_min
find_min-first empty_node = refl
find_min-first (node empty_node e h r) = refl
find_min-first (node (node ll le lh lr) e h r) =
    rw (first_of_nonempty (inorder ll) le (inorder lr) (e ∷ inorder r))
      (find_min-first (node ll le lh lr))

none_iff_empty : (t : Tree) → find_min t ≡ none ↔ t ≡ empty_node
unfolding find_min
none_iff_empty empty_node = (λ _. refl, λ _. refl)
none_iff_empty (node empty_node e h r) = (λ p. cc, λ p. cc)
none_iff_empty (node (node ll le lh lr) e h r) =
    (λ p. cc ((none_iff_empty (node ll le lh lr)).0 p), λ p. cc)

first_least :
    (xs : List Entry) (e : Entry) → Sorted xs → get_elem? xs 0 ≡ some e → AllAtLeast e.key xs
first_least [] e s h = tt
first_least (x ∷ xs) e s h = ground arith

-- `jk_avl_find_min` on a search tree returns its first entry in order, which has the least key, and
-- null exactly on the empty tree.
pub find_min-least :
    (t : Tree)
    → Sorted (inorder t)
    → (find_min t ≡ get_elem? (inorder t) 0)
      × ((e : Entry) → find_min t ≡ some e → AllAtLeast e.key (inorder t))
      × (find_min t ≡ none ↔ t ≡ empty_node)
find_min-least t s = (
  find_min-first t,
  λ e h. first_least (inorder t) e s (sym (find_min-first t) ∙ h),
  none_iff_empty t,
)

-- `jk_avl_find_node` on a search tree with distinct keys returns the entry with the key, and null
-- exactly when there is none.
pub find_node-lookup_key :
    (t : Tree) (k : ℕ) → Ascending (inorder t) → find_node t k ≡ lookup_key k (inorder t)
unfolding find_node lookup_key
find_node-lookup_key empty_node k s = refl
find_node-lookup_key (node l e h r) k s =
    let cut = Ascending-Cut (inorder l) e (inorder r) s in
    ground (
      arith,
      find_node-lookup_key l k cut.left,
      find_node-lookup_key r k cut.right,
      lookup_key-below k e (inorder r) (inorder l),
      lookup_key-here k e (inorder r) (inorder l),
      lookup_key-above k e (inorder r) (inorder l),
    )

abbrev pub last_entry : List Entry → Option Entry
last_entry [] = none
last_entry (x ∷ []) = some x
last_entry (x ∷ (y ∷ xs)) = last_entry (y ∷ xs)

last_entry-append :
    (xs : List Entry) (e : Entry) (ys : List Entry)
    → last_entry (xs ++ (e ∷ ys)) ≡ last_entry (e ∷ ys)
last_entry-append [] e ys = refl
last_entry-append (x ∷ []) e ys = refl
last_entry-append (x ∷ (y ∷ xs)) e ys = last_entry-append (y ∷ xs) e ys

last_entry-cons :
    (e : Entry) (xs : List Entry) (x : Entry) (ys : List Entry)
    → last_entry (e ∷ (xs ++ (x ∷ ys))) ≡ last_entry (xs ++ (x ∷ ys))
last_entry-cons e [] x ys = refl
last_entry-cons e (z ∷ xs) x ys = refl

find_max-last : (t : Tree) → find_max t ≡ last_entry (inorder t)
unfolding find_max
find_max-last empty_node = refl
find_max-last (node l e h empty_node) = sym (last_entry-append (inorder l) e [])
find_max-last (node l e h (node rl re rh rr)) =
    find_max-last (node rl re rh rr)
    ∙ sym (
        last_entry-append (inorder l) e (inorder (node rl re rh rr))
        ∙ last_entry-cons e (inorder rl) re (inorder rr))

AllAtLeast-last :
    (k : ℕ) (xs : List Entry) (e : Entry) → AllAtLeast k xs → last_entry xs ≡ some e → k ≤ e.key
AllAtLeast-last k [] e a h = absurd (ground arith)
AllAtLeast-last k (x ∷ []) e a h = ground arith
AllAtLeast-last k (x ∷ (y ∷ xs)) e a h = AllAtLeast-last k (y ∷ xs) e a.1 h

last_greatest :
    (xs : List Entry) (e : Entry) → Sorted xs → last_entry xs ≡ some e → AllAtMost e.key xs
last_greatest [] e s h = tt
last_greatest (x ∷ []) e s h = ground arith
last_greatest (x ∷ (y ∷ xs)) e s h =
    (AllAtLeast-last x.key (y ∷ xs) e s.0 h, last_greatest (y ∷ xs) e s.1 h)

-- `jk_avl_find_max` on a search tree returns its last entry in order, which has the greatest key.
pub find_max-greatest :
    (t : Tree)
    → Sorted (inorder t)
    → (find_max t ≡ last_entry (inorder t))
      × ((e : Entry) → find_max t ≡ some e → AllAtMost e.key (inorder t))
find_max-greatest t s =
    (find_max-last t, λ e h. last_greatest (inorder t) e s (sym (find_max-last t) ∙ h))

-- `jk_avl_find_min` on a search tree returns its first entry in order, which has the least key, and
-- null exactly on the empty tree; `jk_avl_find_max` returns its last entry in order, which has the
-- greatest key.
pub find_min-find_max :
    (t : Tree)
    → Sorted (inorder t)
    → ((find_min t ≡ get_elem? (inorder t) 0)
        × ((e : Entry) → find_min t ≡ some e → AllAtLeast e.key (inorder t))
        × (find_min t ≡ none ↔ t ≡ empty_node))
      × ((find_max t ≡ last_entry (inorder t))
          × ((e : Entry) → find_max t ≡ some e → AllAtMost e.key (inorder t)))
find_min-find_max t s = (find_min-least t s, find_max-greatest t s)
