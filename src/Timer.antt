-- ===== src/Timer.antt =====
-- jk_timer.c and jk_timer.h: timers in an AVL tree, keyed by the millisecond at which they are due.
-- A `jk_timer_node_t` and the `jk_avl_node_t` inside it go by one address.  The clock, malloc and
-- the callbacks are the environment's.
pub mod OneShot
mod Tests
use Prim.Native.Nat.{ℕ, zero, suc, ◌+◌, ◌*◌, ◌/◌, ◌%◌, ◌^◌}
use just_kit.Prelude.{
  Option, none, some, List, [], ◌∷◌, ◌++◌, ◌&&◌, Bool, true, false, Run, ok, out_of_fuel, ◌>>=◌,
  deref, ltb, leb, ◌==◌, if◌then◌else◌,
}
use just_kit.Avl.{Entry, Tree, empty_node, node, find_min, insert, remove}

-- `cb`, `free` and `data` of a `jk_timer_node_t`; a null function is 0.
pub record TimerNode : Type 0 where
  pub cb : ℕ
  pub free_fn : ℕ
  pub arg : ℕ

pub data Call : Type 0 where
  called : ℕ → ℕ → Call
  freed : ℕ → ℕ → Call

-- A timer, the nodes that are allocated, how often the clock was read, and the calls made through
-- function pointers, the latest first.
pub record Timer : Type 0 where
  pub root : Tree
  pub nodes : ℕ → Option TimerNode
  pub ticks : ℕ
  pub calls : List Call

-- What the program does not implement: the n-th `gettimeofday` (`none` is a failure), and what a
-- callback returns, given its data and the number of clock readings before it.  A callback that
-- itself changes the timer is not modelled.
pub record World : Type 0 where
  pub time_of_day : ℕ → Option (ℕ × ℕ)
  pub returned : ℕ → ℕ → ℕ → ℕ

-- The body of `jk_current_time`, at the n-th reading of the clock.
pub clock : World → ℕ → ℕ
clock w n = elim (w.time_of_day n) [
  | none ↦ 0
  | some (sec, usec) ↦ (sec * 1000 + usec / 1000) % 2 ^ 64
]

-- `jk_current_time`
abbrev pub current_time : World → Timer → ℕ × Timer
current_time w s = (clock w s.ticks, record s { ticks = s.ticks + 1 })

-- `jk_timer_init`
pub init : Timer → Timer
init s = record s { root = empty_node }

abbrev pub update : (ℕ → Option TimerNode) → ℕ → Option TimerNode → ℕ → Option TimerNode
update f a v b = if a == b then v else f b

-- `jk_timer_push`; `fresh` is the address that malloc returns, if it returns one.  The results 0
-- and -1 are `true` and `false`.
pub push : World → Option ℕ → ℕ → ℕ → ℕ → ℕ → Timer → Run (Bool × Timer)
push w none timeout cb free_fn arg s = ok (false, s)
push w (some a) timeout cb free_fn arg s = do
  let (now, s') = current_time w s
  root ← insert (record { addr = a; key = (timeout + now) % 2 ^ 64; val = a }) s'.root
  ok (
    true,
    record s' {
      root = root;
      nodes = update s'.nodes a (some (record { cb = cb; free_fn = free_fn; arg = arg }));
    },
  )

-- `jk_timer_min_node`: the address of the timer that is due first.
pub min_node : Timer → Option Entry
min_node s = find_min s.root

-- `retval`: a `jk_uint64_t` kept in an `int`; `none` if that is not positive.
pub positive_int : ℕ → Option ℕ
positive_int r = let low = r % 2 ^ 32 in if ltb 0 low && ltb low (2 ^ 31) then some low else none

-- Call a timer that is off the tree, and put it back or free it.
pub call_back : World → Entry → TimerNode → Timer → Run Timer
call_back w e t s =
    let s₁ = record s { calls = called t.cb t.arg ∷ s.calls } in
    elim (positive_int (w.returned t.cb t.arg s.ticks)) [
      | some retval ↦
          let (now, s₂) = current_time w s₁ in
          insert (record e { key = (retval + now) % 2 ^ 64 }) s₂.root >>= λ root.
          ok (record s₂ { root = root })
      | none ↦ ok (record s₁ {
        nodes = update s₁.nodes e.val none;
        calls = if t.free_fn == 0 then s₁.calls else freed t.free_fn t.arg ∷ s₁.calls;
      })
    ]

-- What the loop of `jk_timer_process_timeout` does with a timer that is due.
pub fire : World → Entry → Timer → Run Timer
fire w e s = do
  root ← remove e s.root
  t ← deref (s.nodes e.val)
  call_back w e t (record s { root = root })

-- `jk_timer_process_timeout`, on fuel: a callback may ask for ever to be called again.
pub process_timeout : ℕ → World → ℕ → Timer → Run (ℕ × Timer)
process_timeout zero w nevents s = out_of_fuel
process_timeout (suc fuel) w nevents s =
    let (current, s') = current_time w s in
    elim (min_node s') [
      | none ↦ ok (nevents, s')
      | some e ↦
          let rest = fire w e s' >>= process_timeout fuel w (nevents + 1) in
          if ltb current e.key then ok (nevents, s') else rest
    ]

-- `jk_timer_tree_node_destroy`: the subtrees first, each timer through its `free`.
pub tree_node_destroy : Tree → Timer → Run Timer
tree_node_destroy empty_node s = ok s
tree_node_destroy (node l e h r) s = do
  s₁ ← tree_node_destroy l s
  s₂ ← tree_node_destroy r s₁
  t ← deref (s₂.nodes e.val)
  ok (record s₂ {
    nodes = update s₂.nodes e.val none;
    calls = if t.free_fn == 0 then s₂.calls else freed t.free_fn t.arg ∷ s₂.calls;
  })

-- `jk_timer_destroy`
pub destroy : Timer → Run Timer
destroy s = tree_node_destroy s.root s

-- `jk_timer_new`
pub new : Bool → Timer → Option Timer
new malloc_works s = if malloc_works then some (init s) else none

-- `jk_timer_free`
pub free : Timer → Run Timer
free s = destroy s
