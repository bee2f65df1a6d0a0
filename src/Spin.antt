-- ===== src/Spin.antt =====
-- jk_spinlock.c: the spin lock, as the atomic steps of threads that share one lock word.
-- A thread that is scheduled makes its next read of the word, compare-and-swap or yield; the word
-- changes in compare-and-swaps only.  The pauses between two reads are no steps.
pub mod Exclusion
pub mod Yields
mod Tests
use just_kit.Prelude.{ℕ, List, [], ◌∷◌, ◌<◌, Bool, true, false, ltb, ◌==◌, if◌then◌else◌}

-- Which of the two tests in `jk_spinlock`: the one of the outer loop, or the one of the inner loop,
-- with its `n`.
pub data Site : Type 0 where
  outer : Site
  inner : ℕ → Site

-- Where a thread is: outside, about to read the word, about to swap, about to yield, or past the lock.
pub data Place : Type 0 where
  outside yielding inside : Place
  testing swapping : Site → Place

pub record State : Type 0 where
  pub lock : ℕ
  pub place : ℕ → Place

-- `jk_spinlock_init`: `sysconf` is the environment's, and a result that is not positive is `false`.
abbrev pub init : Bool → ℕ → ℕ
init positive n = if positive then n else 1

-- `__sync_bool_compare_and_swap`: whether it swapped, and the word.
abbrev pub compare_and_swap : ℕ → ℕ → ℕ → Bool × ℕ
compare_and_swap lock old fresh = if lock == old then (true, fresh) else (false, lock)

-- `n << 1` in the header of the inner loop, whose value is not stored.
abbrev pub next_pauses : ℕ → ℕ
next_pauses n = n

-- The header of the inner loop.
abbrev pub enter_inner : ℕ → Place
enter_inner n = if ltb n 129 then testing (inner n) else yielding

-- Where a failed test leads.
pub failed : ℕ → Site → Place
failed ncpu outer = if ltb 1 ncpu then enter_inner 1 else yielding
failed ncpu (inner n) = enter_inner (next_pauses n)

abbrev pub moved : (ℕ → Place) → ℕ → Place → ℕ → Place
moved f t p u = if u == t then p else f u

-- The next step of thread `t`, which calls `jk_spinlock` and `jk_spinunlock` with `which t`.
pub act : ℕ → (ℕ → ℕ) → ℕ → Place → State → State
act ncpu which t outside s = record s { place = moved s.place t (testing outer) }
act ncpu which t yielding s = record s { place = moved s.place t (testing outer) }
act ncpu which t (testing at) s =
    if s.lock == 0
    then record s { place = moved s.place t (swapping at) }
    else record s { place = moved s.place t (failed ncpu at) }
act ncpu which t (swapping at) s =
    let (won, lock) = compare_and_swap s.lock 0 (which t) in
    record { lock = lock; place = moved s.place t (if won then inside else failed ncpu at) }
act ncpu which t inside s =
    let (_, lock) = compare_and_swap s.lock (which t) 0 in
    record { lock = lock; place = moved s.place t outside }

abbrev pub step : ℕ → (ℕ → ℕ) → ℕ → State → State
step ncpu which t s = act ncpu which t (s.place t) s

-- A schedule: the threads in the order in which they make their steps.
pub run : ℕ → (ℕ → ℕ) → List ℕ → State → State
run ncpu which [] s = s
run ncpu which (t ∷ ts) s = run ncpu which ts (step ncpu which t s)

-- Nobody holds the lock.
abbrev pub start : State
start = record { lock = 0; place = λ t. outside }
