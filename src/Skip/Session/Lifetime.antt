-- ===== src/Skip/Session/Lifetime.antt =====
-- A skip list from `jk_skip_new` to `jk_skip_free`.
use mathlib.Core.Path.{subst}
use just_kit.Prelude.{
  ℕ, ◌+◌, ◌<◌, ◌≤◌, ◌≡◌, ◌≢◌, refl, sym, ap, ◌∙◌, true, List, [], ◌∷◌, Option, some, none, arith,
  length, ltb, ◌==◌, Bool-cases, inl, inr, ◌⊎◌, ==_iff, NotIn, ok, Run, ◌>>=◌, Returns, returns,
  Returns-bind, Returns-inv,
}
use just_kit.Skip.{new, free, Memory, Skip}
use just_kit.Skip.Towers.{addrs, Tower}
use just_kit.Skip.Entries.{Entries, entries, put_entry, take_entry}
use just_kit.Skip.Session.{Op, put, take, get, Answer, step, run, entry_step, entry_run, AllReady}
use just_kit.Skip.Life.{AllFreed, Freed, new-Made, free-Freed}
use just_kit.Skip.Session.Agrees.{Keeps, Agrees, step-Agrees}

entries-length : (ts : List Tower) → length (entries ts) ≡ length ts
entries-length [] = refl
entries-length (t ∷ ts) = omega (arith, entries-length ts)

put_entry-length : (k x : ℕ) (es : Entries) → length (put_entry k x es) ≡ length es + 1
put_entry-length k x [] = omega arith
put_entry-length k x (e ∷ es) = elim (Bool-cases (ltb e.0 k)) [
  | inl less ↦ rw less (omega (arith, put_entry-length k x es))
  | inr not_less ↦ rw not_less (omega arith)
]

take_entry-length : (k : ℕ) (es : Entries) → length (take_entry k es) ≤ length es
take_entry-length k [] = omega arith
take_entry-length k (e ∷ es) = elim (Bool-cases (e.0 == k)) [
  | inl same ↦ rw same (omega arith)
  | inr other ↦ rw other (omega (arith, take_entry-length k es))
]

entry_step-length : (op : Op) (es : Entries) → length (entry_step op es).1 ≤ length es + 1
entry_step-length (put draws none k x) es = omega arith
entry_step-length (put draws (some a) k x) es = omega (arith, put_entry-length k x es)
entry_step-length (take k) es = omega (arith, take_entry-length k es)
entry_step-length (get k) es = omega arith

-- about
pub run-entry_run :
    (m0 : Memory) (h fuel : ℕ) (ops : List Op) (s : Skip) (es : Entries)
    → Keeps m0 h s es
    → length es + length ops < fuel
    → AllReady fuel ops s
    → Returns
        (λ r. (r.0 ≡ (entry_run ops es).0) × Keeps m0 h r.1 (entry_run ops es).1)
        (run fuel ops s)
unfolding run
run-entry_run m0 h fuel [] s es k enough ready = returns (refl, k)
run-entry_run m0 h fuel (op ∷ ops) s es k enough ready =
    let small : length k.towers < fuel =
      omega (arith, enough, entries-length k.towers, ap length k.same) in
    let first =
      subst (λ xs. Returns (Agrees m0 h (entry_step op xs)) (step fuel op s)) k.same
        (step-Agrees m0 h s es k fuel op small ready.0) in
    let (r, e, (answer, k')) = Returns-inv first in
    let next = (entry_step op es).1 in
    rw e (
      Returns-bind
        (run-entry_run m0 h fuel ops r.1 next k' (omega (arith, enough, entry_step-length op es))
          (ready.1 r e))
        λ rest i.
          returns (ap (λ a. a ∷ rest.0) answer ∙ ap (λ xs. (entry_step op es).0 ∷ xs) i.0, i.1))

entry_run-length :
    (ops : List Op) (es : Entries) → length (entry_run ops es).1 ≤ length es + length ops
entry_run-length [] es = omega arith
entry_run-length (op ∷ ops) es =
    omega (arith, entry_run-length ops (entry_step op es).1, entry_step-length op es)

-- An address is none of `xs`, or free in both memories where all of `xs` are.
freed_or_other :
    (m m' : Memory) (xs : List ℕ) (x : ℕ)
    → AllFreed m xs
    → AllFreed m' xs
    → NotIn x xs ⊎ ((m' x).size ≡ (m x).size)
freed_or_other m m' [] x f f' = inl tt
freed_or_other m m' (a ∷ xs) x f f' = elim (Bool-cases (x == a)) [
  | inl same ↦
      let e = (==_iff x a).0 same in
      inr (subst (λ y. (m' y).size ≡ (m y).size) (sym e) (f'.0 ∙ sym f.0))
  | inr other ↦ elim (freed_or_other m m' xs x f.1 f'.1) [
    | inl out ↦ inl (other, out)
    | inr e ↦ inr e
  ]
]

-- The memory after the release of everything that a skip list holds.
Freed-size :
    (m0 : Memory) (h : ℕ) (s : Skip) (es : Entries) (m : Memory) (k : Keeps m0 h s es)
    → Freed s.memory (h ∷ addrs k.towers) m
    → (x : ℕ) → (m x).size ≡ (m0 x).size
Freed-size m0 h s es m k f x = elim (freed_or_other m0 m (h ∷ addrs k.towers) x k.fresh f.freed) [
  | inl out ↦ ap (λ node. node.size) (f.kept x out) ∙ k.outside x out
  | inr e ↦ e
]

-- What `jk_skip_new` makes.
new-Keeps :
    (m0 : Memory) (h : ℕ) (s : Skip)
    → (m0 h).size ≡ 0
    → h ≢ 0
    → new true (some h) m0 ≡ ok (some s)
    → Keeps m0 h s []
new-Keeps m0 h s unused real made =
    let (r, e, (s', e', same_header, v, others)) =
      Returns-inv (new-Made true (some h) m0 (λ null. real (some_inj null))) in
    let same : s' ≡ s = ok_some_inj s' s (ap ok (sym e') ∙ sym e ∙ made) in
    subst (λ x. Keeps m0 h x []) same
      (record {
        towers = [];
        is_skip = v;
        same = refl;
        same_header = same_header;
        fresh = (unused, tt);
        outside = λ x n. let apart = n.0 in others x (ground (arith, apart));
      })
  where
    some_inj : {x y : ℕ} → ◌≡◌ {A = Option ℕ} (some x) (some y) → x ≡ y
    some_inj p = cc

    ok_some_inj : (x y : Skip) → ◌≡◌ {A = Run (Option Skip)} (ok (some x)) (ok (some y)) → x ≡ y
    ok_some_inj x y p = cc

-- From what `jk_skip_new` makes with a free address that is not null, no sequence of insertions,
-- deletions and searches faults, with more fuel than there are calls, where malloc returns null or
-- free addresses that are not null, and the drawn levels are at most 32. Each call answers as the
-- same one on a sorted list of keys and values, in which a new entry stands before those of its key
-- and the first entry of a key is the one that is deleted or found. After `jk_skip_free` every
-- address has the size that it had before `jk_skip_new`: nothing leaks, and nothing else is
-- released.
pub run-free :
    (m0 : Memory) (h fuel : ℕ) (ops : List Op) (s : Skip)
    → (m0 h).size ≡ 0
    → h ≢ 0
    → new true (some h) m0 ≡ ok (some s)
    → AllReady fuel ops s
    → length ops < fuel
    → Returns
        (λ (r : List Answer × Memory).
          (r.0 ≡ (entry_run ops []).0) × ((x : ℕ) → (r.1 x).size ≡ (m0 x).size))
        (run fuel ops s >>= λ r. free fuel r.1 >>= λ m. ok (r.0, m))
run-free m0 h fuel ops s unused real made ready enough =
    Returns-bind
      (run-entry_run m0 h fuel ops s [] (new-Keeps m0 h s unused real made) (omega (arith, enough))
        ready)
      λ r (answers, k).
        let few : length k.towers < fuel =
          omega
            (arith, enough, entries-length k.towers, ap length k.same, entry_run-length ops []) in
        Returns-bind (free-Freed r.1 k.towers fuel k.is_skip few) λ m f. returns (
          answers,
          Freed-size m0 h r.1 (entry_run ops []).1 m k
              (subst (λ y. Freed r.1.memory (y ∷ addrs k.towers) m) k.same_header f),
        )
