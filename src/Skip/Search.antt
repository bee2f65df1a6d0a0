-- ===== src/Skip/Search.antt =====
-- The searches: where they end, and what they leave in `update`.
use mathlib.Core.Path.{subst}
use mathlib.Core.List.{append_assoc}
use just_kit.Prelude.{
  ℕ, zero, suc, ◌<◌, ◌≤◌, ◌≡◌, refl, sym, ap, ◌∙◌, true, false, List, [], ◌∷◌, ◌++◌, some, arith,
  length, ltb, lt→ltb, ◌==◌, ==_iff, if◌then◌else◌, NotIn, Bool-cases, inl, inr, ok, Run, ◌>>=◌,
  Returns, returns, Returns-bind, Returns-map,
}
use just_kit.Skip.{Memory, max_level, read, key_of, walk, Update, set_update, search}
use just_kit.Skip.Towers.{
  Tower, addrs, first_at, last_at, Stands, Holds, AllBelow, NoneBelow, Reads, Stands-Reads,
  Holds-drop, NotIn-drop, last_at-tall, Next, low, tall, next,
}

AllBelow-drop : (key : ℕ) (lo ts : List Tower) → AllBelow key (lo ++ ts) → AllBelow key ts
AllBelow-drop key [] ts h = h
AllBelow-drop key (l ∷ lo) ts h = AllBelow-drop key lo ts h.1

length-drop : (lo : List Tower) (t : Tower) (hi : List Tower) → length hi < length (lo ++ (t ∷ hi))
length-drop [] t hi = omega arith
length-drop (l ∷ lo) t hi = omega (arith, length-drop lo t hi)

pub key_of-Stands :
    (m : Memory) (i : ℕ) (t : Tower) (ts : List Tower)
    → ltb i t.height ≡ true
    → Stands m t ts
    → key_of m t.addr ≡ ok t.key
unfolding key_of
key_of-Stands m i t ts reaches v =
    let some_size : ltb 0 (m t.addr).size ≡ true = ground (arith, v.same_size, reaches) in
    rw some_size (ap ok v.same_key)

module _ (m : Memory) (key : ℕ) (after : List Tower) where
  -- Where a search is at level `k` and above: at `n`, in front of towers `bs` with smaller keys.
  pub record Position (k n : ℕ) (bs : List Tower) : Type 0 where
    pub reads : Reads m n k (bs ++ after)
    pub holds : Holds m (bs ++ after)
    pub below : AllBelow key bs
    pub real : NotIn 0 (addrs (bs ++ after))

  -- The walk at level `i` has ended at `n'`, in front of the towers `rest`.
  pub record Walked (i n : ℕ) (bs : List Tower) (n' : ℕ) : Type 0 where
    pub rest : List Tower
    pub position : Position (suc i) n' rest
    pub shorter : length rest ≤ length bs
    pub same : (j : ℕ) → j ≤ i → last_at j n bs ≡ last_at j n' rest
    pub here : last_at i n' rest ≡ n'
    pub end : first_at i (rest ++ after) ≡ first_at i after

  -- What a walk does at the node `p`.
  abbrev step : ℕ → ℕ → ℕ → ℕ → Run ℕ
  step fuel i n p =
      if p == 0 then ok n else key_of m p >>= (λ k. if ltb k key then walk fuel m key i p else ok n)

  walk_lem : (fuel i n p : ℕ) → read m n i ≡ ok p → walk (suc fuel) m key i n ≡ step fuel i n p
  unfolding walk
  walk_lem fuel i n p h = rw h refl

  not_null : (t : Tower) (ts : List Tower) → NotIn 0 (addrs (t ∷ ts)) → (t.addr == 0) ≡ false
  not_null t ts real = let e = real.0 in ground (arith, e)

  -- It ends before a tower whose key is not smaller, and at null.
  step-end :
      (fuel i n : ℕ) (ts : List Tower)
      → Holds m ts
      → NoneBelow key ts
      → NotIn 0 (addrs ts)
      → step fuel i n (first_at i ts) ≡ ok n
  step-end fuel i n [] v none_below real = refl
  step-end fuel i n (t ∷ ts) v none_below real = elim (Bool-cases (ltb i t.height)) [
    | inl reaches ↦
        rw reaches
          (rw (not_null t ts real) (rw (key_of-Stands m i t ts reaches v.0) (rw none_below.0 refl)))
    | inr short ↦ rw short (step-end fuel i n ts v.1 none_below.1 real.1)
  ]

  step-hop :
      (fuel i n : ℕ) (t : Tower) (ts : List Tower)
      → Stands m t ts
      → ltb i t.height ≡ true
      → ltb t.key key ≡ true
      → NotIn 0 (addrs (t ∷ ts))
      → step fuel i n t.addr ≡ walk fuel m key i t.addr
  step-hop fuel i n t ts v reaches less real =
      rw (not_null t ts real) (rw (key_of-Stands m i t ts reaches v) (rw less refl))

  -- A position at a tower that the walk has come to.
  Position-tall :
      (i : ℕ) (t : Tower) (lo hi : List Tower) (k n : ℕ)
      → ltb i t.height ≡ true
      → Position k n (lo ++ (t ∷ hi))
      → Position (suc i) t.addr hi
  Position-tall i t lo hi k n reaches v =
      let here : Holds m (t ∷ (hi ++ after)) =
        Holds-drop m lo (t ∷ (hi ++ after))
          (subst (Holds m) (append_assoc lo (t ∷ hi) after) v.holds) in
      record {
        reads = λ j h. Stands-Reads m t (hi ++ after) here.0 j (ground (arith, reaches, h));
        holds = here.1;
        below = (AllBelow-drop key lo (t ∷ hi) v.below).1;
        real =
            (NotIn-drop 0 lo (t ∷ (hi ++ after))
              (subst (λ xs. NotIn 0 (addrs xs)) (append_assoc lo (t ∷ hi) after) v.real)).1;
      }

  module _ (none_below : NoneBelow key after) where
    -- The loop at `n`, if it goes on as it should from the next node.
    walk-Next :
        (fuel i n : ℕ) (bs : List Tower)
        → Next i bs
        → Position (suc i) n bs
        → ((n' : ℕ) (hi : List Tower)
            → length hi < length bs
            → Position (suc i) n' hi
            → Returns (Walked i n' hi) (walk fuel m key i n'))
        → Returns (Walked i n bs) (walk (suc fuel) m key i n)
    walk-Next fuel i n bs (low same_last same_first) v ih =
        let reads = v.reads i (lt→ltb i (suc i) (omega arith)) in
        let ends : walk (suc fuel) m key i n ≡ ok n =
          walk_lem fuel i n (first_at i (bs ++ after)) reads
          ∙ ap (step fuel i n) (same_first after)
          ∙ step-end fuel i n after (Holds-drop m bs after v.holds) none_below
              (NotIn-drop 0 bs after v.real) in
        subst (Returns (Walked i n bs)) (sym ends) (
          returns (record {
            rest = bs;
            position = v;
            shorter = omega arith;
            same = λ j h. refl;
            here = same_last n;
            end = same_first after;
          }))
    walk-Next fuel i n bs (tall t lo hi e reaches same_first) v ih =
        let v' = subst (Position (suc i) n) e v in
        let there : Holds m (t ∷ (hi ++ after)) =
          Holds-drop m lo (t ∷ (hi ++ after))
            (subst (Holds m) (append_assoc lo (t ∷ hi) after) v'.holds) in
        let real : NotIn 0 (addrs (t ∷ (hi ++ after))) =
          NotIn-drop 0 lo (t ∷ (hi ++ after))
            (subst (λ xs. NotIn 0 (addrs xs)) (append_assoc lo (t ∷ hi) after) v'.real) in
        let hops : walk (suc fuel) m key i n ≡ walk fuel m key i t.addr =
          walk_lem fuel i n (first_at i (bs ++ after)) (v.reads i (lt→ltb i (suc i) (omega arith)))
          ∙ ap (step fuel i n) (same_first after)
          ∙ step-hop fuel i n t (hi ++ after) there.0 reaches
              (AllBelow-drop key lo (t ∷ hi) v'.below).0 real in
        let fewer : length hi < length bs = omega (arith, length-drop lo t hi, ap length e) in
        subst (Returns (Walked i n bs)) (sym hops) (
          Returns-map (ih t.addr hi fewer (Position-tall i t lo hi (suc i) n reaches v')) λ n' w.
            record {
              rest = w.rest;
              position = w.position;
              shorter = omega (arith, w.shorter, length-drop lo t hi, ap length e);
              same = λ j h.
                  ap (last_at j n) e
                  ∙ last_at-tall j n t lo hi (ground (arith, reaches, h))
                  ∙ w.same j h;
              here = w.here;
              end = w.end;
            })

    pub walk-Walked :
        (fuel i n : ℕ) (bs : List Tower)
        → length bs < fuel
        → Position (suc i) n bs
        → Returns (Walked i n bs) (walk fuel m key i n)
    walk-Walked zero i n bs enough v = absurd (omega arith)
    walk-Walked (suc fuel) i n bs enough v =
        walk-Next fuel i n bs (next i bs) v
          λ n' hi fewer v'. walk-Walked fuel i n' hi (omega (arith, fewer)) v'

    -- `update` holds the last towers before the key, level by level below `k`; the search is at `n'`.
    pub record Searched (k n : ℕ) (bs : List Tower) (old : Update) (r : ℕ × Update) : Type 0 where
      pub updates : (j : ℕ) → ltb j k ≡ true → r.1 j ≡ some (last_at j n bs)
      pub others : (j : ℕ) → ltb j k ≡ false → r.1 j ≡ old j
      pub stays : ltb 0 k ≡ false → r.0 ≡ n
      pub next_is : ltb 0 k ≡ true → read m r.0 0 ≡ ok (first_at 0 after)

    Position-lower : (i n : ℕ) (bs : List Tower) → Position (suc i) n bs → Position i n bs
    Position-lower i n bs v = record {
      reads = λ j h. v.reads j (ground (arith, h));
      holds = v.holds;
      below = v.below;
      real = v.real;
    }

    -- The search below level `i` after the walk at it.
    Searched-below :
        (i n n' : ℕ) (bs : List Tower) (update : Update) (r : ℕ × Update) (w : Walked i n bs n')
        → Searched i n' w.rest (λ j. if i == j then some n' else update j) r
        → Searched (suc i) n bs update r
    Searched-below i n n' bs update r w c = record {
      updates = λ j h. elim (Bool-cases (ltb j i)) [
        | inl lower ↦ c.updates j lower ∙ ap some (sym (w.same j (ground (arith, lower))))
        | inr not_lower ↦
            let at_level : (i == j) ≡ true = ground (arith, h, not_lower) in
            let same : i ≡ j = (==_iff i j).0 at_level in
            let held : (if i == j then some n' else update j) ≡ some n' = rw at_level refl in
            c.others j not_lower
            ∙ held
            ∙ ap some
                (sym (subst (λ k. last_at k n bs ≡ n') same (w.same i (omega arith) ∙ w.here)))
      ];
      others = λ j h.
          let apart : (i == j) ≡ false = ground (arith, h) in
          let held : (if i == j then some n' else update j) ≡ update j = rw apart refl in
          c.others j (ground (arith, h)) ∙ held;
      stays = λ h. absurd (ground (arith, h));
      next_is = λ h. elim (Bool-cases (ltb 0 i)) [
        | inl more ↦ c.next_is more
        | inr last ↦
            let bottom : i ≡ 0 = ground (arith, last) in
            ap (λ x. read m x 0) (c.stays last)
            ∙ w.position.reads 0 (lt→ltb 0 (suc i) (omega arith))
            ∙ ap ok (subst (λ k. first_at k (w.rest ++ after) ≡ first_at k after) bottom w.end)
      ];
    }

    pub search-Searched :
        (fuel k n : ℕ) (bs : List Tower) (update : Update)
        → length bs < fuel
        → k ≤ max_level
        → Position k n bs
        → Returns (Searched k n bs update) (search fuel k m key n update)
    unfolding search set_update
    search-Searched fuel zero n bs update enough low_level v = returns (record {
      updates = λ j h. absurd (ground (arith, h));
      others = λ j h. refl;
      stays = λ h. refl;
      next_is = λ h. cc;
    })
    search-Searched fuel (suc i) n bs update enough low_level v =
        Returns-bind (walk-Walked fuel i n bs enough v) λ n' w.
          rw (lt→ltb i max_level (omega arith)) (
            Returns-map
              (search-Searched fuel i n' w.rest (λ j. if i == j then some n' else update j)
                (omega (arith, w.shorter)) (omega arith) (Position-lower i n' w.rest w.position))
              λ r c. Searched-below i n n' bs update r w c)
