-- ===== src/Skip/Session/Agrees.antt =====
-- Each call keeps the skip list in agreement with its entries, and the memory around it.
use mathlib.Core.Path.{subst}
use just_kit.Prelude.{
  ℕ, ◌<◌, ◌≡◌, refl, sym, ap, ◌∙◌, Bool, true, false, List, [], ◌∷◌, ◌++◌, Option, some, none,
  arith, length, ◌==◌, ==_iff, NotIn, Bool-cases, inl, inr, Returns, returns, Returns-bind,
}
use just_kit.Skip.{Memory, Skip, max_level}
use just_kit.Skip.Towers.{Tower, IsSkip, before, behind, before-behind}
use just_kit.Skip.Find.{find-tower_of}
use just_kit.Skip.Insert.{IsFresh, Grown, insert-Grown, fresh-NotIn}
use just_kit.Skip.Delete.{starts_with, Deleted, delete-Deleted}
use just_kit.Skip.Entries.{
  Entries, entries, take_entry, put_entry-entries, get_entry-entries, has_entry-entries, rest_of,
  take_entry-entries, take_entry-none,
}
use just_kit.Skip.NewTower.{new_tower}
use just_kit.Skip.Session.{Op, put, take, get, Answer, done, value, step, entry_step, IsReady}
use just_kit.Skip.Towers.{addrs, top, NotIn-drop}
use just_kit.Skip.Between.{AllFit-le, NotIn-between, NotIn-without}
use just_kit.Skip.Life.{AllFreed}

-- The list `s` with the header `h` holds the entries `es`.  Its nodes were free in the memory `m0`, and
-- all else has the size that it had there.
pub record Keeps (m0 : Memory) (h : ℕ) (s : Skip) (es : Entries) : Type 0 where
  pub towers : List Tower
  pub is_skip : IsSkip s towers
  pub same : entries towers ≡ es
  pub same_header : s.header ≡ h
  pub fresh : AllFreed m0 (h ∷ addrs towers)
  pub outside : (x : ℕ) → NotIn x (h ∷ addrs towers) → (s.memory x).size ≡ (m0 x).size

AllFreed-between :
    (m : Memory) (t : Tower) (bs ts : List Tower)
    → (m t.addr).size ≡ 0
    → AllFreed m (addrs (bs ++ ts))
    → AllFreed m (addrs (bs ++ (t ∷ ts)))
AllFreed-between m t [] ts e f = (e, f)
AllFreed-between m t (b ∷ bs) ts e f = (f.0, AllFreed-between m t bs ts e f.1)

AllFreed-without :
    (m : Memory) (t : Tower) (bs ts : List Tower)
    → AllFreed m (addrs (bs ++ (t ∷ ts)))
    → ((m t.addr).size ≡ 0) × AllFreed m (addrs (bs ++ ts))
AllFreed-without m t [] ts f = f
AllFreed-without m t (b ∷ bs) ts f =
    let (e, rest) = AllFreed-without m t bs ts f.1 in (e, (f.0, rest))

-- The answer and the entries after a call.
abbrev pub Agrees : Memory → ℕ → Answer × Entries → Answer × Skip → Type 0
Agrees m0 h e r = (r.0 ≡ e.0) × Keeps m0 h r.1 e.1

module _ (m0 : Memory) (h : ℕ) (s : Skip) (es : Entries) (k : Keeps m0 h s es) where
  put-Agrees :
      (draws : List ℕ) (malloc : Option ℕ) (key x height : ℕ) (r : Bool × Skip)
      → IsFresh s.memory malloc
      → Grown s malloc key x height k.towers r
      → Agrees m0 h (entry_step (put draws malloc key x) (entries k.towers)) (done r.0, r.1)
  put-Agrees draws none key x height r fresh i = (
    ap done i.0,
    record {
      towers = k.towers;
      is_skip = i.1;
      same = refl;
      same_header = i.2 ∙ k.same_header;
      fresh = k.fresh;
      outside = λ y n. ap (λ m. (m y).size) i.3 ∙ k.outside y n;
    },
  )
  put-Agrees draws (some a) key x height r fresh i =
      let t = new_tower key x a height in
      let bs = before key k.towers in
      let after = behind key k.towers in
      let whole = before-behind key k.towers in
      let out = fresh-NotIn s.memory a max_level (top s.header ∷ k.towers) fresh.0 k.is_skip.nodes (
        omega arith,
        omega arith,
        AllFit-le s.level max_level k.towers k.is_skip.small_level k.is_skip.fit,
      ) in
      let out' : NotIn a (h ∷ addrs k.towers) =
        subst (λ y. NotIn a (y ∷ addrs k.towers)) k.same_header out in
      let unused : (m0 a).size ≡ 0 = sym (k.outside a out') ∙ fresh.0 in
      (
        ap done i.0,
        record {
          towers = bs ++ (t ∷ after);
          is_skip = i.1;
          same = put_entry-entries t k.towers;
          same_header = i.2.same_header ∙ k.same_header;
          fresh = (
            k.fresh.0,
            AllFreed-between m0 t bs after unused
                (subst (λ ts. AllFreed m0 (addrs ts)) (sym whole) k.fresh.1),
          );
          outside = λ y n.
              let apart = (NotIn-drop y bs (t ∷ after) n.1).0 in
              i.2.same_size y (ground (arith, apart))
              ∙ k.outside y
                  (n.0, subst (λ ts. NotIn y (addrs ts)) whole (NotIn-without t after y bs n.1));
        },
      )

  take_hit :
      (key : ℕ) (bs after : List Tower) (r : Bool × Skip)
      → bs ++ after ≡ k.towers
      → starts_with key after ≡ true
      → Deleted true s bs after r
      → (r.0 ≡ true) × Keeps m0 h r.1 (entries (bs ++ rest_of after))
  take_hit key bs [] r whole hit d = absurd (cc)
  take_hit key bs (t ∷ rest) r whole hit d =
      let (unused, fresh) =
        AllFreed-without m0 t bs rest
          (subst (λ ts. AllFreed m0 (addrs ts)) (sym whole) k.fresh.1) in
      (
        d.0,
        record {
          towers = bs ++ rest;
          is_skip = d.1;
          same = refl;
          same_header = d.4.same_header ∙ k.same_header;
          fresh = (k.fresh.0, fresh);
          outside = λ y n. elim (Bool-cases (t.addr == y)) [
            | inl same ↦
                let e = (==_iff t.addr y).0 same in
                subst (λ z. (r.1.memory z).size ≡ (m0 z).size) e (d.3 ∙ sym unused)
            | inr other ↦
                d.4.same_size y other
                ∙ k.outside y (
                  n.0,
                  subst (λ ts. NotIn y (addrs ts)) whole
                      (NotIn-between t rest y bs (ground (arith, other)) n.1),
                )
          ];
        },
      )

  take-Agrees :
      (key : ℕ) (r : Bool × Skip)
      → Deleted
          (starts_with key (behind key k.towers))
          s
          (before key k.towers)
          (behind key k.towers)
          r
      → Agrees m0 h (entry_step (take key) (entries k.towers)) (done r.0, r.1)
  take-Agrees key r d =
      let ts = k.towers in
      let same_has = has_entry-entries key ts k.is_skip.sorted in
      elim (Bool-cases (starts_with key (behind key ts))) [
        | inl hit ↦
            let (e, w) =
              take_hit key (before key ts) (behind key ts) r (before-behind key ts) hit
                (rw hit at d) in
            (
              ap done (e ∙ sym hit ∙ same_has),
              subst (Keeps m0 h r.1) (take_entry-entries key ts hit) w,
            )
        | inr miss ↦
            let e : r ≡ (false, s) = rw miss at d in
            let absent = sym same_has ∙ miss in
            (
              ap done (ap (λ x. x.0) e ∙ sym absent),
              subst (λ x. Keeps m0 h x.1 (take_entry key (entries ts))) (sym e)
                  (subst (Keeps m0 h s) (sym k.same ∙ sym (take_entry-none key (entries ts) absent))
                    k),
            )
      ]

  pub step-Agrees :
      (fuel : ℕ) (op : Op)
      → length k.towers < fuel
      → IsReady s.memory op
      → Returns (Agrees m0 h (entry_step op (entries k.towers))) (step fuel op s)
  unfolding step
  step-Agrees fuel (put draws malloc key x) enough (height, drawn, low_level, fresh) =
      Returns-bind
        (insert-Grown s k.towers fuel draws malloc key x height k.is_skip enough drawn low_level
          fresh)
        λ r i. returns (put-Agrees draws malloc key x height r fresh i)
  step-Agrees fuel (take key) enough ready =
      Returns-bind (delete-Deleted s k.towers fuel key k.is_skip enough)
        λ r d. returns (take-Agrees key r d)
  step-Agrees fuel (get key) enough ready =
      rw (find-tower_of s k.towers fuel key k.is_skip enough)
        (returns (ap value (get_entry-entries key k.towers), subst (Keeps m0 h s) (sym k.same) k))
