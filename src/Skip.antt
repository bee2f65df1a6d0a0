-- ===== src/Skip.antt =====
-- jk_skip.c and jk_skip.h: the skip list.
-- A node is what its address holds, with the number of pointers that it was allocated for: 0 where
-- nothing is allocated.  A pointer that nothing has written is `none`.  malloc is a parameter, and the
-- values that `random` returns are a list.  A key is the pattern of 64 bits that is compared; the length,
-- a `jk_uint32_t`, which is an `unsigned long`, has 64 bits too.
pub mod Towers
pub mod Descend
pub mod Search
pub mod Relink
pub mod Link
pub mod Cut
pub mod Between
pub mod NewTower
pub mod Raise
pub mod Insert
pub mod Unlink
pub mod Lower
pub mod Removed
pub mod Delete
pub mod Find
pub mod Life
pub mod Entries
pub mod Session
mod Tests
use just_kit.Prelude.{
  ℕ, zero, suc, ◌+◌, ◌-◌, ◌*◌, ◌%◌, ◌^◌, Bool, true, false, ◌&&◌, List, [], ◌∷◌, Option, none, some,
  Run, ok, fault, out_of_fuel, ◌>>=◌, deref, ltb, ◌==◌, if◌then◌else◌,
}

-- `jk_skip_node_s`
pub record Node : Type 0 where
  pub key : ℕ
  pub value : ℕ
  pub size : ℕ
  pub forward : ℕ → Option ℕ

abbrev pub Memory : Type 0
Memory = ℕ → Node

-- `jk_skip_t`, with the memory of its nodes.
pub record Skip : Type 0 where
  pub header : ℕ
  pub length : ℕ
  pub level : ℕ
  pub memory : Memory

-- `JK_SKIP_MAX_LEVEL`
abbrev pub max_level : ℕ
max_level = 32

abbrev pub put : Memory → ℕ → Node → Memory
put m n node x = if n == x then node else m x

-- `n->forward[i]`
pub read : Memory → ℕ → ℕ → Run ℕ
read m n i = if ltb i (m n).size then deref ((m n).forward i) else fault

abbrev pub with_forward : Node → ℕ → ℕ → Node
with_forward node i p = record node { forward = λ j. if i == j then some p else node.forward j }

-- `n->forward[i] = p`
pub write : Memory → ℕ → ℕ → ℕ → Run Memory
write m n i p = if ltb i (m n).size then ok (put m n (with_forward (m n) i p)) else fault

-- `n->key`
pub key_of : Memory → ℕ → Run ℕ
key_of m n = if ltb 0 (m n).size then ok (m n).key else fault

-- `jk_skip_node_free`
abbrev pub release : ℕ → Memory → Memory
release n m = put m n (record (m n) { size = 0 })

-- The loop of `jk_skip_random_level`; it draws again while the value is small.
pub level_from : ℕ → List ℕ → Run ℕ
level_from level [] = out_of_fuel
level_from level (r ∷ draws) =
    let rest = level_from (level + 1) draws in
    if ltb (4 * (r % 2 ^ 16)) 65535 then rest else ok level

-- `jk_skip_random_level`
pub random_level : List ℕ → Run ℕ
random_level draws = level_from 1 draws

-- `jk_skip_node_new`, given what malloc returns.
pub node_new : Option ℕ → ℕ → ℕ → ℕ → Memory → Option (ℕ × Memory)
node_new none level key value m = none
node_new (some a) level key value m =
    some (a, put m a (record { key = key; value = value; size = level; forward = λ i. none }))

-- The loop of `jk_skip_new`, with the rounds that are left.
pub clear_forward : ℕ → ℕ → ℕ → Memory → Run Memory
clear_forward zero i n m = ok m
clear_forward (suc rounds) i n m = write m n i 0 >>= clear_forward rounds (i + 1) n

pub clear_header : Option (ℕ × Memory) → Run (Option Skip)
clear_header none = ok none
clear_header (some (h, m)) = do
  m' ← clear_forward max_level 0 h m
  ok (some (record { header = h; length = 0; level = 1; memory = m' }))

-- `jk_skip_new`, given whether malloc works for the list, and what it returns for the header.
pub new : Bool → Option ℕ → Memory → Run (Option Skip)
new false header m = ok none
new true header m = clear_header (node_new header max_level 0 0 m)

-- The loop of `jk_skip_free`, on fuel.
pub free_nodes : ℕ → ℕ → Memory → Run Memory
free_nodes zero n m = out_of_fuel
free_nodes (suc fuel) n m =
    let rest = read m n 0 >>= λ next. free_nodes fuel next (release n m) in
    if n == 0 then ok m else rest

-- `jk_skip_free`
pub free : ℕ → Skip → Run Memory
free fuel s = read s.memory s.header 0 >>= λ n. free_nodes fuel n (release s.header s.memory)

-- The inner loop of the searches, on fuel: to the last node at level `i` with a smaller key.
pub walk : ℕ → Memory → ℕ → ℕ → ℕ → Run ℕ
walk zero m key i n = out_of_fuel
walk (suc fuel) m key i n = read m n i >>= λ p.
    let rest = key_of m p >>= λ k. if ltb k key then walk fuel m key i p else ok n in
    if p == 0 then ok n else rest

-- `update`, whose elements are indeterminate at first.
abbrev pub Update : Type 0
Update = ℕ → Option ℕ

-- `update[i] = n`
pub set_update : ℕ → ℕ → Update → Run Update
set_update i n update =
    if ltb i max_level then ok (λ j. if i == j then some n else update j) else fault

-- The outer loop in `jk_skip_insert` and `jk_skip_delete`, with the levels that are left.
pub search : ℕ → ℕ → Memory → ℕ → ℕ → Update → Run (ℕ × Update)
search fuel zero m key n update = ok (n, update)
search fuel (suc i) m key n update = do
  n' ← walk fuel m key i n
  update' ← set_update i n' update
  search fuel i m key n' update'

-- The same in `jk_skip_find_node`.
pub descend : ℕ → ℕ → Memory → ℕ → ℕ → Run ℕ
descend fuel zero m key n = ok n
descend fuel (suc i) m key n = walk fuel m key i n >>= descend fuel i m key

-- The loop of `jk_skip_insert` that raises the level, with the rounds that are left.
pub raise : ℕ → ℕ → ℕ → Update → Run Update
raise zero i header update = ok update
raise (suc rounds) i header update = set_update i header update >>= raise rounds (i + 1) header

-- The loop that links the new node, with the rounds that are left.
pub link : ℕ → ℕ → ℕ → Update → Memory → Run Memory
link zero i n update m = ok m
link (suc rounds) i n update m = do
  u ← deref (update i)
  p ← read m u i
  m' ← write m n i p
  m'' ← write m' u i n
  link rounds (i + 1) n update m''

-- The end of `jk_skip_insert`, after the call of `jk_skip_node_new`.
pub insert_node : ℕ → Update → Skip → Option (ℕ × Memory) → Run (Bool × Skip)
insert_node level update s none = ok (false, s)
insert_node level update s (some (n, m)) = do
  m' ← link level 0 n update m
  ok (true, record s { memory = m'; length = (s.length + 1) % 2 ^ 64 })

-- `jk_skip_insert`, given what `random` and malloc return: 0 and -1 are `true` and `false`.
pub insert : ℕ → List ℕ → Option ℕ → ℕ → ℕ → Skip → Run (Bool × Skip)
insert fuel draws malloc key value s = do
  found ← search fuel s.level s.memory key s.header (λ i. none)
  level ← random_level draws
  update ← raise (level - s.level) s.level s.header found.1
  let raised = if ltb s.level level then level else s.level
  insert_node level update (record s { level = raised }) (node_new malloc level key value s.memory)

-- The loop of `jk_skip_delete` that takes a node out, with the rounds that are left.
pub unlink : ℕ → ℕ → ℕ → Update → Memory → Run Memory
unlink zero i n update m = ok m
unlink (suc rounds) i n update m = do
  u ← deref (update i)
  p ← read m u i
  let rest = read m n i >>= λ q. write m u i q >>= unlink rounds (i + 1) n update
  if p == n then rest else ok m

-- The loop that lowers the level.
pub lower : Memory → ℕ → ℕ → Run ℕ
lower m header zero = ok zero
lower m header (suc level) =
    let rest =
      read m header level >>= λ p. if p == 0 then lower m header level else ok (suc level) in
    if ltb 1 (suc level) then rest else ok (suc level)

-- `jk_skip_delete` where it has found the node.
pub delete_node : ℕ → Update → Skip → Run (Bool × Skip)
delete_node n update s = do
  m ← unlink s.level 0 n update s.memory
  let m' = release n m
  level ← lower m' s.header s.level
  ok (true, record s { memory = m'; level = level; length = (s.length + 2 ^ 64 - 1) % 2 ^ 64 })

-- `n && (n->key == key)`
pub is_key : Memory → ℕ → ℕ → Run Bool
is_key m key n = if n == 0 then ok false else (key_of m n >>= λ k. ok (k == key))

-- `jk_skip_delete`
pub delete : ℕ → ℕ → Skip → Run (Bool × Skip)
delete fuel key s = do
  found ← search fuel s.level s.memory key s.header (λ i. none)
  n ← read s.memory found.0 0
  hit ← is_key s.memory key n
  if hit then delete_node n found.1 s else ok (false, s)

-- `jk_skip_find_node`; null is 0.
pub find_node : ℕ → ℕ → Skip → Run ℕ
find_node fuel key s = do
  before ← descend fuel s.level s.memory key s.header
  n ← read s.memory before 0
  hit ← is_key s.memory key n
  ok (if hit then n else 0)

-- `jk_skip_find`, with a place for the value: `none` is -1.
pub find : ℕ → ℕ → Skip → Run (Option ℕ)
find fuel key s = find_node fuel key s >>= λ n.
    if n == 0
    then ok none
    else (if ltb 0 (s.memory n).size then ok (some (s.memory n).value) else fault)
