-- ===== src/Skip/Session.antt =====
-- A client of the skip list: any sequence of insertions, deletions and searches, and the same on a sorted
-- list of keys and values.
pub mod Agrees
pub mod Lifetime
use mathlib.Core.Path.{subst}
use just_kit.Prelude.{
  ℕ, zero, suc, ◌+◌, ◌<◌, ◌≤◌, ◌≡◌, refl, sym, ap, ◌∙◌, Bool, true, false, List, [], ◌∷◌, ◌++◌,
  Option, some, none, arith, length, length-append, ltb, ◌==◌, if◌then◌else◌, Bool-cases, inl, inr,
  ok, Run, ◌>>=◌, Returns, returns, Returns-bind, Returns-inv,
}
use just_kit.Skip.{Memory, Skip, max_level, random_level, insert, delete, find}
use just_kit.Skip.Towers.{Tower, IsSkip, before, behind, before-behind}
use just_kit.Skip.Find.{tower_of, value_of, find-tower_of}
use just_kit.Skip.Insert.{IsFresh, Grown, insert-Grown}
use just_kit.Skip.Delete.{starts_with, Deleted, delete-Deleted}
use just_kit.Skip.Entries.{
  Entries, entries, put_entry, has_entry, take_entry, get_entry, put_entry-entries,
  get_entry-entries, has_entry-entries, rest_of, take_entry-entries, take_entry-none,
}

-- A call, with what `random` and malloc return in it.
pub data Op : Type 0 where
  put : List ℕ → Option ℕ → ℕ → ℕ → Op
  take : ℕ → Op
  get : ℕ → Op

pub data Answer : Type 0 where
  done : Bool → Answer
  value : Option ℕ → Answer

pub step : ℕ → Op → Skip → Run (Answer × Skip)
step fuel (put draws malloc k v) s = insert fuel draws malloc k v s >>= λ r. ok (done r.0, r.1)
step fuel (take k) s = delete fuel k s >>= λ r. ok (done r.0, r.1)
step fuel (get k) s = find fuel k s >>= λ r. ok (value r, s)

pub run : ℕ → List Op → Skip → Run (List Answer × Skip)
run fuel [] s = ok ([], s)
run fuel (op ∷ ops) s = do r ← step fuel op s; rest ← run fuel ops r.1; ok (r.0 ∷ rest.0, rest.1)

-- The same on the entries.
abbrev pub entry_step : Op → Entries → Answer × Entries
entry_step (put draws none k v) es = (done false, es)
entry_step (put draws (some a) k v) es = (done true, put_entry k v es)
entry_step (take k) es = (done (has_entry k es), take_entry k es)
entry_step (get k) es = (value (get_entry k es), es)

abbrev pub entry_run : List Op → Entries → List Answer × Entries
entry_run [] es = ([], es)
entry_run (op ∷ ops) es =
    let r = entry_step op es in let rest = entry_run ops r.1 in (r.0 ∷ rest.0, rest.1)

-- malloc returns null or a fresh address, and the level that is drawn is at most the highest.
abbrev pub IsReady : Memory → Op → Type 0
IsReady m (put draws malloc k v) =
    (height : ℕ) × (random_level draws ≡ ok height) × (height ≤ max_level) × IsFresh m malloc
IsReady m (take k) = Unit
IsReady m (get k) = Unit

-- That is so in each of the calls.
abbrev pub AllReady : ℕ → List Op → Skip → Type 0
AllReady fuel [] s = Unit
AllReady fuel (op ∷ ops) s =
    IsReady s.memory op × ((r : Answer × Skip) → step fuel op s ≡ ok r → AllReady fuel ops r.1)
