-- ===== src/Skip/Insert.antt =====
-- `jk_skip_insert` against the insertion into a sorted list of towers.
use mathlib.Core.Path.{subst}
use just_kit.Prelude.{
  ◌+◌, ◌%◌, ◌^◌, ◌≢◌, fault, ℕ, ◌-◌, ◌<◌, ◌≤◌, ◌≡◌, ◌≢◌, refl, sym, ap, Bool, true, false, List, [],
  ◌∷◌, ◌++◌, Option, some, none, arith, length, length-append, ltb, ◌==◌, ==_iff, if◌then◌else◌,
  NotIn, Bool-cases, inl, inr, ok, Returns, returns, Returns-bind, Returns-inv,
}
use just_kit.Skip.{Memory, Skip, max_level, Update, random_level, node_new, insert_node, insert}
use just_kit.Skip.Towers.{
  Tower, addrs, first_at, last_at, Holds, AllFit, Sorted, top, IsSkip, Beyond, before, behind,
  before-behind, NotIn-take,
}
use just_kit.Skip.Cut.{cut, Cut-search, Cut-reads}
use just_kit.Skip.Relink.{last_at-NotIn}
use just_kit.Skip.Link.{link-Linked}
use just_kit.Skip.Between.{
  AllFit-le, NotIn-between, Distinct-between, Sorted-between, AllFit-between, length-between,
}
use just_kit.Skip.NewTower.{new_tower, Linked-Holds, Linked-start}
use just_kit.Skip.Raise.{raise_lem, raise-fault, level_from-le, last_at-fit, AllFit-left}

pub fresh-NotIn :
    (m : Memory) (a level : ℕ) (ts : List Tower)
    → (m a).size ≡ 0
    → Holds m ts
    → AllFit level ts
    → NotIn a (addrs ts)
fresh-NotIn m a level [] free v fit = tt
fresh-NotIn m a level (t ∷ ts) free v fit = (
  elim (Bool-cases (a == t.addr)) [
    | inl same ↦
        let e = (==_iff a t.addr).0 same in
        absurd (omega (arith, fit.0, v.0.same_size, ap (λ x. (m x).size) e, free))
    | inr other ↦ other
  ],
  fresh-NotIn m a level ts free v.1 fit.2,
)

-- What malloc gives is null, or an address that is not in use.
abbrev pub IsFresh : Memory → Option ℕ → Type 0
IsFresh m none = Unit
IsFresh m (some a) = ((m a).size ≡ 0) × (a ≢ 0)

-- What `jk_skip_insert` leaves of a skip list with the towers `ts`.
abbrev pub Grown : Skip → Option ℕ → (key value height : ℕ) → List Tower → Bool × Skip → Type 0
Grown s none key value height ts r =
    (r.0 ≡ false) × IsSkip r.1 ts × (r.1.header ≡ s.header) × (r.1.memory ≡ s.memory)
Grown s (some a) key value height ts r =
    (r.0 ≡ true)
    × IsSkip r.1 (before key ts ++ (new_tower key value a height ∷ behind key ts))
    × Beyond a s r.1

module _ (s : Skip) (ts : List Tower) (v : IsSkip s ts) (key value height : ℕ)
    (some_height : 0 < height) (low_level : height ≤ max_level) where
  abbrev raised : ℕ
  raised = if ltb s.level height then height else s.level

  raised_bounds : (s.level ≤ raised) × (height ≤ raised) × (0 < raised) × (raised ≤ max_level)
  raised_bounds = let a = v.some_level in let b = v.small_level in ground arith

  raised-IsSkip : IsSkip (record s { level = raised }) ts
  raised-IsSkip = record {
    nodes = v.nodes;
    distinct = v.distinct;
    real = v.real;
    sorted = v.sorted;
    fit = AllFit-le s.level raised ts raised_bounds.0 v.fit;
    some_level = raised_bounds.2;
    small_level = raised_bounds.3;
    count = v.count;
  }

  -- The skip list around the new tower, once it is linked.
  grown-IsSkip :
      (a : ℕ) (m' : Memory)
      → a ≢ 0
      → NotIn a (s.header ∷ addrs (before key ts ++ behind key ts))
      → Holds m' (top s.header ∷ (before key ts ++ (new_tower key value a height ∷ behind key ts)))
      → IsSkip
          (record s { level = raised; memory = m'; length = (s.length + 1) % 2 ^ 64 })
          (before key ts ++ (new_tower key value a height ∷ behind key ts))
  grown-IsSkip a m' real out nodes =
      let bs = before key ts in
      let after = behind key ts in
      let c = cut s key ts v in
      let t = new_tower key value a height in
      let whole = before-behind key ts in
      let apart = out.0 in
      record {
        nodes = nodes;
        distinct = (
          NotIn-between t after s.header bs (ground (arith, apart)) c.distinct.0,
          Distinct-between t after bs out.1 c.distinct.1,
        );
        real = (c.real.0, NotIn-between t after 0 bs (ground (arith, real)) c.real.1);
        sorted = Sorted-between t after bs c.below c.none_below (subst Sorted (sym whole) v.sorted);
        fit =
            AllFit-between t after s.level raised bs raised_bounds.0 some_height raised_bounds.1
              c.fit;
        some_level = raised_bounds.2;
        small_level = raised_bounds.3;
        count = omega (arith, length-between t after bs, ap length whole, v.count);
      }

  insert_node-Grown :
      (malloc : Option ℕ) (update : Update)
      → IsFresh s.memory malloc
      → ((j : ℕ) → ltb j height ≡ true → update j ≡ some (last_at j s.header (before key ts)))
      → Returns (Grown s malloc key value height ts) (
          insert_node height update
            (record s { level = raised })
            (node_new malloc height key value s.memory))
  unfolding insert_node node_new
  insert_node-Grown none update fresh updates = returns (refl, raised-IsSkip, refl, refl)
  insert_node-Grown (some a) update fresh updates =
      let bs = before key ts in
      let after = behind key ts in
      let c = cut s key ts v in
      let out : NotIn a (addrs (top s.header ∷ (bs ++ after))) =
        fresh-NotIn s.memory a max_level (top s.header ∷ (bs ++ after)) fresh.0 c.holds (
          omega arith,
          omega arith,
          AllFit-le s.level max_level (bs ++ after) v.small_level c.fit,
        ) in
      Returns-bind
        (link-Linked s.memory a height key value (λ j. last_at j s.header bs)
          (λ j. first_at j after) update updates
          (λ j h. Cut-reads s key bs after c v.small_level j (ground (arith, h)))
          (λ j h. last_at-NotIn j a s.header bs out.0 (NotIn-take a bs after out.1)) height 0 _
          (omega arith) (Linked-start s key value a height bs after c))
        λ m' l. returns (
          refl,
          grown-IsSkip a m' fresh.1 out
              (Linked-Holds s key value a height bs after c m' low_level out l),
          record { same_header = refl; same_size = l.relinked.same_size },
        )

-- Inserting into a skip list of towers, in which every pointer leads to the next tower of its level
-- or is null, with more fuel than towers, where malloc returns null or a free address that is not
-- null and the drawn level is at most 32, faults nowhere. Where malloc works, it returns 0 and
-- leaves a skip list with a new tower of the drawn height behind the smaller keys, and changes the
-- size of no other node; where it fails, -1 and a skip list of the same towers in the same memory.
pub insert-Grown :
    (s : Skip) (ts : List Tower) (fuel : ℕ) (draws : List ℕ) (malloc : Option ℕ)
    (key value height : ℕ)
    → IsSkip s ts
    → length ts < fuel
    → random_level draws ≡ ok height
    → height ≤ max_level
    → IsFresh s.memory malloc
    → Returns (Grown s malloc key value height ts) (insert fuel draws malloc key value s)
unfolding insert random_level
insert-Grown s ts fuel draws malloc key value height v enough drawn low_level fresh =
    let some_height = level_from-le 1 draws height drawn in
    let c = cut s key ts v in
    let bs = before key ts in
    Returns-bind
      (Cut-search s key bs (behind key ts) c v.small_level fuel
        (omega (arith, enough, ap length (before-behind key ts), length-append bs (behind key ts))))
      λ found f. rw drawn (
        Returns-bind
          (raise_lem (height - s.level) s.level s.header found.1
            (omega (arith, v.small_level, low_level)))
          λ update u.
            insert_node-Grown s ts v key value height some_height low_level malloc update fresh
              λ j h. elim (Bool-cases (ltb j s.level)) [
                | inl lower ↦ ground (arith, u j, f.updates j lower)
                | inr upper ↦
                    let at_header =
                      last_at-fit s.level j s.header bs
                        (AllFit-left s.level bs (behind key ts) c.fit) upper in
                    ground (arith, u j, at_header)
              ])

-- Inserting into a skip list of towers, with more fuel than towers, where the drawn level is above
-- 32, faults: it writes beyond the end of `update`.
pub insert-fault :
    (s : Skip) (ts : List Tower) (fuel : ℕ) (draws : List ℕ) (malloc : Option ℕ)
    (key value height : ℕ)
    → IsSkip s ts
    → length ts < fuel
    → random_level draws ≡ ok height
    → max_level < height
    → insert fuel draws malloc key value s ≡ fault
unfolding insert
insert-fault s ts fuel draws malloc key value height v enough drawn high =
    let bs = before key ts in
    let (found, e, f) = Returns-inv (
      Cut-search s key bs (behind key ts) (cut s key ts v) v.small_level fuel (
        omega
          (arith, enough, ap length (before-behind key ts), length-append bs (behind key ts)))) in
    rw e (
      rw drawn (
        rw
          (raise-fault (height - s.level) s.level s.header found.1 v.small_level
            (omega (arith, v.small_level, high)))
          refl))
