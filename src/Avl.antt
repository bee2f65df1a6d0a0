-- ===== src/Avl.antt =====
-- jk_avl.c and jk_avl.h: the intrusive AVL tree.
-- A tree is data whose nodes carry their address: the pointers `left` and `right` are the
-- subtrees.  A `jk_avl_node_t **` is a path of frames, the nearest node first, from the slot that
-- it points to up to the root's slot; the array `stack` is such a path as well.
pub mod Order
pub mod Balance
pub mod Climb
pub mod Insert
pub mod Keys
pub mod Search
pub mod Remove
pub mod Duplicates
pub mod Height
mod Tests
use just_kit.Prelude.{
  ℕ, ◌+◌, Option, none, some, List, [], ◌∷◌, ◌++◌, length, Run, ok, fault, ◌>>=◌, deref, ltb, leb,
  ◌==◌, if◌then◌else◌,
}

-- What a `jk_avl_node_t` holds besides its links and its height.
pub record Entry : Type 0 where
  pub addr : ℕ
  pub key : ℕ
  pub val : ℕ

pub data Tree : Type 0 where
  empty_node : Tree
  node : Tree → Entry → ℕ → Tree → Tree

-- JK_AVL_MAX_HEIGHT
abbrev pub max_height : ℕ
max_height = 41

-- JK_AVL_HEIGHT_OF
abbrev pub height_of : Tree → ℕ
height_of empty_node = 0
height_of (node l e h r) = h

-- A node on the way down: `left_of e h r` was left through `&node->left`, `right_of l e h` through
-- `&node->right`.
pub data Frame : Type 0 where
  left_of : Entry → ℕ → Tree → Frame
  right_of : Tree → Entry → ℕ → Frame

abbrev pub Place : Type 0
Place = List Frame

-- Write `t` to the slot and follow the frame to its node.
abbrev pub plug : Frame → Tree → Tree
plug (left_of e h r) t = node t e h r
plug (right_of l e h) t = node l e h t

-- The whole tree once `t` is written to the slot.
abbrev pub plug_all : Place → Tree → Tree
plug_all [] t = t
plug_all (f ∷ p) t = plug_all p (plug f t)

-- What one round of the loop in `jk_avl_rebalance` leaves at its slot, and whether it breaks.
pub data Step : Type 0 where
  go_on : Tree → Step
  stop : Tree → Step

-- heightright + 1 < heightleft
unfoldable pub rotate_right : Tree → Entry → Tree → Run Tree
rotate_right empty_node e r = fault
rotate_right (node ll le lh empty_node) e r =
    ok (node ll le (1 + (1 + 0)) (node empty_node e (1 + 0) r))
rotate_right (node ll le lh (node lrl lre lrh lrr)) e r =
    if leb lrh (height_of ll)
    then ok (node ll le (1 + (1 + lrh)) (node (node lrl lre lrh lrr) e (1 + lrh) r))
    else ok (node (node ll le lrh lrl) lre lh (node lrr e lrh r))

-- heightleft + 1 < heightright
unfoldable pub rotate_left : Tree → Entry → Tree → Run Tree
rotate_left l e empty_node = fault
rotate_left l e (node empty_node re rh rr) =
    ok (node (node l e (1 + 0) empty_node) re (1 + (1 + 0)) rr)
rotate_left l e (node (node rll rle rlh rlr) re rh rr) =
    if leb rlh (height_of rr)
    then ok (node (node l e (1 + rlh) (node rll rle rlh rlr)) re (1 + (1 + rlh)) rr)
    else ok (node (node l e rlh rll) rle rh (node rlr re rlh rr))

abbrev pub max_of : ℕ → ℕ → ℕ
max_of a b = if ltb a b then b else a

-- One round of the loop, at the node that `*nodeplace` points to.
unfoldable pub rebalance_node : Tree → Run Step
rebalance_node empty_node = fault
rebalance_node (node l e h r) =
    if ltb (height_of r + 1) (height_of l)
    then rotate_right l e r >>= (λ t. ok (go_on t))
    else if ltb (height_of l + 1) (height_of r)
    then rotate_left l e r >>= (λ t. ok (go_on t))
    else let height = max_of (height_of l) (height_of r) + 1 in
      if height == h then ok (stop (node l e h r)) else ok (go_on (node l e height r))

-- `jk_avl_rebalance`: the slot holds `t`, and the stack leads up from it.
unfoldable pub rebalance : Place → Tree → Run Tree
rebalance [] t = ok t
rebalance (f ∷ p) t = rebalance_node (plug f t) >>= λ s. elim s [
  | go_on u ↦ rebalance p u
  | stop u ↦ ok (plug_all p u)
]

-- `jk_avl_find_min` and `jk_avl_find_max`; null is `none`.
unfoldable pub find_min : Tree → Option Entry
find_min empty_node = none
find_min (node empty_node e h r) = some e
find_min (node (node ll le lh lr) e h r) = find_min (node ll le lh lr)

pub find_max : Tree → Option Entry
find_max empty_node = none
find_max (node l e h empty_node) = some e
find_max (node l e h (node rl re rh rr)) = find_max (node rl re rh rr)

pub find_node : Tree → ℕ → Option Entry
find_node empty_node k = none
find_node (node l e h r) k =
    let below = find_node l k in
    let above = find_node r k in if e.key == k then some e else if ltb k e.key then below else above

-- `jk_avl_find`: the data of the node, null (0) if there is none.
pub find : Tree → ℕ → ℕ
find t k = elim (find_node t k) [ some e ↦ e.val | none ↦ 0 ]

-- The first loop of `jk_avl_insert`: each node passed is pushed on the stack of 41 slots.
unfoldable pub insert_place : Tree → ℕ → Place → Run Place
insert_place empty_node k p = ok p
insert_place (node l e h r) k p =
    let to_left = insert_place l k (left_of e h r ∷ p) in
    let to_right = insert_place r k (right_of l e h ∷ p) in
    if ltb (length p) max_height then (if ltb k e.key then to_left else to_right) else fault

-- `jk_avl_insert`
unfoldable pub insert : Entry → Tree → Run Tree
insert n t = do p ← insert_place t n.key []; rebalance p (node empty_node n 1 empty_node)

-- The first loop of `jk_avl_remove`: the subtree whose root has the key, and the slot it hangs in.
unfoldable pub remove_place : Tree → ℕ → Place → Run (Tree × Place)
remove_place empty_node k p = fault
remove_place (node l e h r) k p =
    let to_left = remove_place l k (left_of e h r ∷ p) in
    let to_right = remove_place r k (right_of l e h ∷ p) in
    if ltb (length p) max_height
    then (if k == e.key then ok (node l e h r, p) else if ltb k e.key then to_left else to_right)
    else fault

-- The second loop: down the right links from the left subtree to the node that has no right child.
-- `used` counts the slots of the stack in use.  The result is that node's left subtree, the node,
-- and the nodes passed.
unfoldable pub last_place : Tree → ℕ → Place → Run (Tree × Entry × Place)
last_place empty_node used spine = fault
last_place (node l e h empty_node) used spine = ok (l, e, spine)
last_place (node l e h (node rl re rh rr)) used spine =
    let below = last_place (node rl re rh rr) (used + 1) (right_of l e h ∷ spine) in
    if ltb used max_height then below else fault

-- The node at an address, with its links.
unfoldable pub subtree_at : ℕ → Tree → Option Tree
subtree_at a empty_node = none
subtree_at a (node l e h r) =
    let on_left = subtree_at a l in
    let on_right = subtree_at a r in
    if e.addr == a then some (node l e h r) else elim on_left [ some t ↦ some t | none ↦ on_right ]

-- The rest of `jk_avl_remove`, at the node to delete and the slot that the search found.
unfoldable pub unlink : Tree → Place → Run Tree
unlink empty_node p = fault
unlink (node empty_node e h r) p = rebalance p r
unlink (node (node ll le lh lr) e h r) p =
    if ltb (length p + 1) max_height
    then (do
      (rest, last, spine) ← last_place (node ll le lh lr) (length p + 1) []
      rebalance (spine ++ (left_of last h r ∷ p)) rest)
    else fault

unfoldable pub remove_found : Entry → Tree × Place → Run Tree
remove_found node_to_delete (found, p) = do
  target ← deref (subtree_at node_to_delete.addr found)
  unlink target p

-- `jk_avl_remove`.  The search goes by key, the links are read through `node_to_delete`.  A node to
-- delete that hangs outside the subtree found would leave two slots with one node; the data type
-- cannot hold that, and the model stops.
unfoldable pub remove : Entry → Tree → Run Tree
remove node_to_delete t = remove_place t node_to_delete.key [] >>= remove_found node_to_delete
