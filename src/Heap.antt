-- ===== src/Heap.antt =====
-- jk_heap.c and jk_heap.h: a binary max-heap of pointers in an array that grows and shrinks.
-- `tree` is the whole allocation, `none` being an indeterminate cell.  malloc's and realloc's
-- success is an argument; the comparison function is the caller's.
pub mod Cells
pub mod Order
pub mod Up
pub mod Down
pub mod Contents
pub mod Insert
pub mod Extract
pub mod Destroy
mod Tests
use Prim.Native.Nat.{ℕ, zero, suc, ◌+◌, ◌-◌, ◌*◌, ◌/◌, ◌^◌}
use just_kit.Prelude.{
  Option, none, some, List, [], ◌∷◌, ◌++◌, Bool, true, false, ◌&&◌, Run, ok, fault, out_of_fuel,
  ◌>>=◌, length, get_elem?, set, take, replicate, ltb, leb, ◌==◌, if◌then◌else◌,
}

-- The sign of the `int` that a `jk_heap_comp_fn` returns.
pub data Sign : Type 0 where
  negative null positive : Sign

abbrev pub is_negative : Sign → Bool
is_negative negative = true
is_negative _ = false

abbrev pub is_positive : Sign → Bool
is_positive positive = true
is_positive _ = false

abbrev pub CompFn : Type 0
CompFn = ℕ → ℕ → Sign

-- JK_HEAP_INIT_SIZE and JK_HEAP_INCR_SIZE
abbrev pub init_size : ℕ
init_size = 10

abbrev pub incr_size : ℕ
incr_size = 10

-- `jk_heap_t`; the fields `comp` and `destroy` are arguments of the operations that call them.
pub record Heap : Type 0 where
  pub tree : List (Option ℕ)
  pub size : ℕ
  pub used : ℕ

-- jk_heap_parent, jk_heap_left, jk_heap_right
abbrev pub parent : ℕ → ℕ
parent pos = (pos - 1) / 2

abbrev pub left : ℕ → ℕ
left pos = pos * 2 + 1

abbrev pub right : ℕ → ℕ
right pos = pos * 2 + 2

-- An `int` that an arithmetic operation gave: overflow is undefined.
abbrev pub int {ℓ} : {A : Type ℓ} → ℕ → Run A → Run A
int n k = if ltb n (2 ^ 31) then k else fault

abbrev pub defined : Option (Option ℕ) → Run ℕ
defined (some (some x)) = ok x
defined (some none) = fault
defined none = fault

-- `heap->tree[i]`
pub load : List (Option ℕ) → ℕ → Run ℕ
load t i = defined (get_elem? t i)

-- `heap->tree[i] = x`
pub store : List (Option ℕ) → ℕ → ℕ → Run (List (Option ℕ))
store t i x = if ltb i (length t) then ok (set t i (some x)) else fault

-- The three assignments that swap two cells.
pub swap : List (Option ℕ) → ℕ → ℕ → Run (List (Option ℕ))
swap t i j = do temp ← load t i; x ← load t j; t' ← store t i x; store t' j temp

-- `jk_heap_init`: 0 with the heap, or -1 (`none`).
pub init : Bool → Option Heap
init false = none
init true = some (record { tree = replicate init_size none; size = init_size; used = 0 })

-- realloc: the cells that both sizes have are kept.
abbrev pub realloc : ℕ → List (Option ℕ) → List (Option ℕ)
realloc n t = take n (t ++ replicate n none)

-- The loop of `jk_heap_insert`; the position halves, so `ipos + 1` rounds are enough.
pub sift_up : CompFn → ℕ → List (Option ℕ) → ℕ → Run (List (Option ℕ))
sift_up comp zero t ipos = out_of_fuel
sift_up comp (suc fuel) t ipos =
    let rest = swap t ipos (parent ipos) >>= λ t'. sift_up comp fuel t' (parent ipos) in
    let step = load t (parent ipos) >>= λ p.
    load t ipos >>= λ c. if is_negative (comp p c) then rest else ok t in
    if ltb 0 ipos then step else ok t

-- `jk_heap_insert` where there is a free cell.
pub insert_at_end : CompFn → Heap → ℕ → Run Heap
insert_at_end comp h x = do
  t ← store h.tree h.used x
  t' ← sift_up comp (h.used + 1) t h.used
  int (h.used + 1) (ok (record h { tree = t'; used = h.used + 1 }))

-- `jk_heap_insert`: 0 and -1 are `true` and `false`.
pub insert : CompFn → Bool → Heap → ℕ → Run (Bool × Heap)
insert comp realloc_works h x =
    let nsize = h.size + incr_size in
    if leb h.size h.used
    then int nsize (
        if realloc_works
        then insert_at_end comp (record h { tree = realloc nsize h.tree; size = nsize }) x
          >>= (λ h'. ok (true, h'))
        else ok (false, h))
    else insert_at_end comp h x >>= λ h'. ok (true, h')

-- The two tests of the loop of `jk_heap_extract`: the greatest of a node and its children.
pub greater_of : CompFn → ℕ → List (Option ℕ) → ℕ → ℕ → Run ℕ
greater_of comp used t pos mpos =
    let compared =
      load t pos >>= λ c. load t mpos >>= λ m. ok (if is_positive (comp c m) then pos else mpos) in
    if ltb pos used then compared else ok mpos

-- The loop of `jk_heap_extract`; the position grows, so `used + 1` rounds are enough.
pub sift_down : CompFn → ℕ → ℕ → List (Option ℕ) → ℕ → Run (List (Option ℕ))
sift_down comp used zero t ipos = out_of_fuel
sift_down comp used (suc fuel) t ipos = int (right ipos) (
    greater_of comp used t (left ipos) ipos >>= λ m.
    greater_of comp used t (right ipos) m >>= λ mpos.
    let rest = swap t mpos ipos >>= λ t'. sift_down comp used fuel t' mpos in
    if mpos == ipos then ok t else rest)

-- The new size in `jk_heap_extract`.  `used * 1.5` is exact in a double and is cut to an `int`.
pub shrunk_size : ℕ → ℕ → ℕ
shrunk_size size used =
    if used == 0 then init_size else if ltb (3 * used) (2 * size) then 3 * used / 2 else size

-- realloc in `jk_heap_extract`, once `used` has been counted down; a failure is ignored.
pub shrink : Bool → Heap → ℕ → Heap
shrink realloc_works h used =
    let nsize = shrunk_size h.size used in
    if nsize == h.size
    then record h { used = used }
    else if realloc_works
    then record { tree = realloc nsize h.tree; size = nsize; used = used }
    else record h { used = used }

-- The rest of `jk_heap_extract`: the last element goes to the top, and sinks.
pub refill : CompFn → Heap → ℕ → Run Heap
refill comp h save =
    let sunk = store h.tree 0 save >>= λ t.
    sift_down comp h.used (h.used + 1) t 0 >>= λ t'. ok (record h { tree = t' }) in
    if h.used == 0 then ok h else sunk

-- `jk_heap_extract` with a `data` that is not null: the value stored there, or `none` for -1.
pub extract : CompFn → Bool → Heap → Run (Option ℕ × Heap)
extract comp realloc_works h = if h.used == 0 then ok (none, h) else do
  top ← load h.tree 0
  save ← load h.tree (h.used - 1)
  h' ← refill comp (shrink realloc_works h (h.used - 1)) save
  ok (some top, h')

-- `jk_heap_destroy`: the values given to `destroy` in turn, if it is not null.
pub destroyed : Bool → ℕ → Heap → Run (List ℕ)
destroyed false n h = ok []
destroyed true zero h = ok []
destroyed true (suc n) h = do x ← load h.tree (h.used - suc n); xs ← destroyed true n h; ok (x ∷ xs)

pub destroy : Bool → Heap → Run (List ℕ)
destroy has_destroy h = destroyed has_destroy h.used h

-- `jk_heap_create`, given whether malloc works for the struct and for the array
pub create : Bool → Bool → Option Heap
create malloc_works array_works = if malloc_works then init array_works else none

-- `jk_heap_free`
pub free : Bool → Heap → Run (List ℕ)
free has_destroy h = destroy has_destroy h
