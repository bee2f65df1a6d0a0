-- ===== src/Skip/Delete.antt =====
-- `jk_skip_delete` against the removal from a sorted list of towers.
use mathlib.Core.Path.{subst}
use just_kit.Prelude.{
  ℕ, ◌<◌, ◌≡◌, refl, sym, ap, ◌∙◌, Bool, true, false, List, [], ◌∷◌, ◌++◌, some, arith, length,
  length-append, ltb, lt→ltb, ◌==◌, ==_iff, NotIn, Bool-cases, inl, inr, ok, Returns, returns,
  Returns-bind,
}
use just_kit.Skip.{Memory, Skip, Update, release, delete_node, is_key, delete}
use just_kit.Skip.Towers.{
  Tower, addrs, first_at, last_at, Holds, AllFit, Sorted, top, IsSkip, Beyond, before, behind,
  before-behind, Stands-Reads, Holds-drop, NotIn-drop,
}
use just_kit.Skip.Search.{key_of-Stands}
use just_kit.Skip.Cut.{Cut, cut, Cut-search}
use just_kit.Skip.Between.{
  NotIn-without, Distinct-without, Sorted-without, AllFit-without, length-between,
}
use just_kit.Skip.Lower.{IsTight, AllFit-right, lower-IsTight}
use just_kit.Skip.Removed.{Unlinked-Holds, Cut-unlink}

-- Whether the first tower has the key.
abbrev pub starts_with : ℕ → List Tower → Bool
starts_with key [] = false
starts_with key (t ∷ ts) = t.key == key

-- What `jk_skip_delete` leaves, where the towers before the key are `bs`.
abbrev pub Deleted : Bool → Skip → List Tower → List Tower → Bool × Skip → Type 0
Deleted false s bs after r = r ≡ (false, s)
Deleted true s bs [] r = r ≡ (false, s)
Deleted true s bs (t ∷ rest) r =
    (r.0 ≡ true)
    × IsSkip r.1 (bs ++ rest)
    × IsTight r.1.level (bs ++ rest)
    × ((r.1.memory t.addr).size ≡ 0)
    × Beyond t.addr s r.1

pub is_key-starts_with :
    (m : Memory) (key level : ℕ) (ts : List Tower)
    → Holds m ts
    → AllFit level ts
    → NotIn 0 (addrs ts)
    → is_key m key (first_at 0 ts) ≡ ok (starts_with key ts)
unfolding is_key
is_key-starts_with m key level [] v fit real = refl
is_key-starts_with m key level (t ∷ ts) v fit real =
    let some_height : ltb 0 t.height ≡ true = lt→ltb 0 t.height fit.0 in
    let real' = real.0 in
    let not_null : (t.addr == 0) ≡ false = ground (arith, real') in
    rw some_height (rw not_null (rw (key_of-Stands m 0 t ts some_height v.0) refl))

module _ (s : Skip) (ts : List Tower) (v : IsSkip s ts) (key : ℕ) where
  delete_node-Deleted :
      (after : List Tower) (update : Update)
      → after ≡ behind key ts
      → starts_with key after ≡ true
      → ((j : ℕ) → ltb j s.level ≡ true → update j ≡ some (last_at j s.header (before key ts)))
      → Returns (Deleted true s (before key ts) after) (delete_node (first_at 0 after) update s)
  unfolding delete_node
  delete_node-Deleted [] update e hit updates = absurd (cc)
  delete_node-Deleted (t ∷ rest) update e hit updates =
      let bs = before key ts in
      let c : Cut s key bs (t ∷ rest) = subst (Cut s key bs) (sym e) (cut s key ts v) in
      let whole : bs ++ (t ∷ rest) ≡ ts = ap (λ xs. bs ++ xs) e ∙ before-behind key ts in
      let fits = (AllFit-right s.level bs (t ∷ rest) c.fit).1 in
      let stands = (Holds-drop s.memory bs (t ∷ rest) c.holds.1).0 in
      let real = NotIn-without t rest 0 bs c.real.1 in
      let some_height : ltb 0 t.height ≡ true =
        lt→ltb 0 t.height (AllFit-right s.level bs (t ∷ rest) c.fit).0 in
      rw some_height (
        Returns-bind (Cut-unlink s key bs t rest c update v.small_level updates) λ m l.
          let nodes = Unlinked-Holds s key bs t rest c m (omega (arith, fits, v.small_level)) l in
          Returns-bind
            (lower-IsTight (release t.addr m) s.header (bs ++ rest) real
              (Stands-Reads (release t.addr m) (top s.header) (bs ++ rest) nodes.0) s.level
              v.some_level v.small_level (AllFit-without t rest s.level bs c.fit))
            λ level low. returns (
              refl,
              record {
                nodes = nodes;
                distinct = (
                  NotIn-without t rest s.header bs c.distinct.0,
                  Distinct-without t rest bs c.distinct.1,
                );
                real = (c.real.0, real);
                sorted = Sorted-without t rest bs (subst Sorted (sym whole) v.sorted);
                fit = low.2;
                some_level = low.0;
                small_level = omega (arith, low.1, v.small_level);
                count = omega (arith, length-between t rest bs, ap length whole, v.count);
              },
              low.3,
              (let mine : (t.addr == t.addr) ≡ true = (==_iff t.addr t.addr).1 refl in
                  rw mine refl),
              record { same_header = refl; same_size = λ x h. rw h (l.relinked.same_size x h) },
            ))

-- Deleting from a skip list of towers, with more fuel than towers, faults nowhere. Where the first
-- tower that is not below the key has it, 0 is returned, that tower is released, the others are a
-- skip list again, whose level is the lowest that will do, and no other node changes its size; else
-- -1 is returned and nothing changes.
pub delete-Deleted :
    (s : Skip) (ts : List Tower) (fuel key : ℕ)
    → IsSkip s ts
    → length ts < fuel
    → Returns
        (Deleted (starts_with key (behind key ts)) s (before key ts) (behind key ts))
        (delete fuel key s)
unfolding delete
delete-Deleted s ts fuel key v enough =
    let bs = before key ts in
    let after = behind key ts in
    let c = cut s key ts v in
    Returns-bind
      (Cut-search s key bs after c v.small_level fuel
        (omega (arith, enough, ap length (before-behind key ts), length-append bs after)))
      λ found f. rw (f.next_is (lt→ltb 0 s.level v.some_level)) (
        rw
          (is_key-starts_with s.memory key s.level after (Holds-drop s.memory bs after c.holds.1)
            (AllFit-right s.level bs after c.fit) (NotIn-drop 0 bs after c.real.1))
          (elim (Bool-cases (starts_with key after)) [
            | inl hit ↦ rw hit (delete_node-Deleted s ts v key after found.1 refl hit f.updates)
            | inr miss ↦ rw miss (returns refl)
          ]))
