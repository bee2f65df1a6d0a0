-- ===== src/Timer/OneShot.antt =====
-- `jk_timer_process_timeout` where no callback asks to be called again: it fires the timers that are
-- due, in the order of their deadlines, and ends.
use Prim.Native.Nat.{ℕ, zero, suc, ◌+◌, ◌≤◌, ◌<◌}
use mathlib.Core.Path.{subst}
use just_kit.Prelude.{
  sym, ◌≡◌, ◌≢◌, refl, ap, ◌∙◌, Option, none, some, List, [], ◌∷◌, ◌++◌, arith, length, get_elem?,
  Returns, returns, Returns-bind, Returns-if, Returns-map, ltb, ltb→lt, ltb-false→le, ◌==◌,
  if◌then◌else◌,
}
use just_kit.Avl.{Entry}
use just_kit.Avl.Order.{inorder, AllAtLeast, lookup_key, erase_key}
use just_kit.Avl.Keys.{Ascending}
use just_kit.Avl.Search.{find_min-least}
use just_kit.Avl.Insert.{IsAvl}
use just_kit.Avl.Remove.{remove-Removed}
use just_kit.Avl.Height.{max_nodes, height_bound}
use just_kit.Timer.{
  TimerNode, Call, called, freed, Timer, World, clock, update, min_node, positive_int, call_back,
  fire, process_timeout,
}

-- Every callback returns a value that is no positive `int`.
abbrev pub OneShot : World → Type 0
OneShot w = (fn arg n : ℕ) → positive_int (w.returned fn arg n) ≡ none

abbrev pub entries : List (Entry × TimerNode) → List Entry
entries [] = []
entries ((e, t) ∷ ps) = e ∷ entries ps

abbrev pub Apart : ℕ → List (Entry × TimerNode) → Type 0
Apart a [] = Unit
Apart a ((e, t) ∷ ps) = (a ≢ e.val) × Apart a ps

-- The nodes of the timers, each at an address of its own.
abbrev pub Owned : (ℕ → Option TimerNode) → List (Entry × TimerNode) → Type 0
Owned f [] = Unit
Owned f ((e, t) ∷ ps) = (f e.val ≡ some t) × Apart e.val ps × Owned f ps

-- The timer consists of `ps`, in the order of their deadlines, which differ.
pub record Holds (s : Timer) (ps : List (Entry × TimerNode)) : Type 0 where
  pub avl : IsAvl s.root
  pub distinct : Ascending (inorder s.root)
  pub small : length (inorder s.root) < max_nodes
  pub listed : inorder s.root ≡ entries ps
  pub owned : Owned s.nodes ps

-- The calls that firing a timer makes: its callback, and its `free` if it has one.
abbrev pub log_one : TimerNode → List Call → List Call
log_one t cs =
    if t.free_fn == 0
    then called t.cb t.arg ∷ cs
    else freed t.free_fn t.arg ∷ (called t.cb t.arg ∷ cs)

abbrev pub log : List (Entry × TimerNode) → List Call → List Call
log [] cs = cs
log ((e, t) ∷ ps) cs = log ps (log_one t cs)

-- Each was due at the reading of the clock before it, from the reading `n` on.
abbrev pub Due : World → ℕ → List (Entry × TimerNode) → Type 0
Due w n [] = Unit
Due w n ((e, t) ∷ ps) = (e.key ≤ clock w n) × Due w (n + 1) ps

Owned-update :
    (f : ℕ → Option TimerNode) (a : ℕ) (ps : List (Entry × TimerNode))
    → Apart a ps
    → Owned f ps
    → Owned (update f a none) ps
Owned-update f a [] d o = tt
Owned-update f a ((e, t) ∷ ps) d o =
    let other : update f a none e.val ≡ f e.val = ground arith in
    (other ∙ o.0, o.1, Owned-update f a ps d.1 o.2)

lookup_first : (e : Entry) (es : List Entry) → lookup_key e.key (e ∷ es) ≡ some e
unfolding lookup_key
lookup_first e es = ground arith

erase_first : (e : Entry) (es : List Entry) → erase_key e.key (e ∷ es) ≡ es
unfolding erase_key
erase_first e es = ground arith

fire_first :
    (w : World) (e : Entry) (t : TimerNode) (ps : List (Entry × TimerNode)) (s : Timer)
    → OneShot w
    → Holds s ((e, t) ∷ ps)
    → Returns
        (λ s'. Holds s' ps × (s'.ticks ≡ s.ticks) × (s'.calls ≡ log_one t s.calls))
        (fire w e s)
unfolding fire call_back
fire_first w e t ps s once v =
    Returns-bind
      (remove-Removed e s.root v.avl v.distinct (rw v.listed (lookup_first e (entries ps)))
        (height_bound s.root v.avl.balanced v.small))
      λ root r.
        let left : inorder root ≡ entries ps =
          r.entries ∙ ap (erase_key e.key) v.listed ∙ erase_first e (entries ps) in
        rw (v.owned.0, once t.cb t.arg s.ticks, call_back)
          (returns (
            record {
              avl = r.avl;
              distinct = r.distinct;
              small = omega (arith, v.small, ap length v.listed, ap length left);
              listed = left;
              owned = Owned-update s.nodes e.val ps v.owned.1 v.owned.2;
            },
            refl,
            refl,
          ))

-- What a run of the loop from `s`, which holds `ps`, ends with, if `n` events were counted before:
-- the timers fired and those left.
pub record Processed (w : World) (n : ℕ) (s : Timer) (ps : List (Entry × TimerNode)) (r : ℕ × Timer)
    : Type 0 where
  pub fired : List (Entry × TimerNode)
  pub left : List (Entry × TimerNode)
  pub parts : ps ≡ fired ++ left
  pub counted : r.0 ≡ n + length fired
  pub holds : Holds r.1 left
  pub due : Due w s.ticks fired
  pub not_due : AllAtLeast (suc (clock w (s.ticks + length fired))) (entries left)
  pub logged : r.1.calls ≡ log fired s.calls

tick_Holds :
    (s : Timer) (ps : List (Entry × TimerNode))
    → Holds s ps
    → Holds (record s { ticks = s.ticks + 1 }) ps
tick_Holds s ps v = record {
  avl = v.avl;
  distinct = v.distinct;
  small = v.small;
  listed = v.listed;
  owned = v.owned;
}

min_first :
    (s : Timer) (ps : List (Entry × TimerNode)) → Holds s ps → min_node s ≡ get_elem? (entries ps) 0
unfolding min_node
min_first s ps v = (find_min-least s.root v.avl.sorted).0 ∙ ap (λ es. get_elem? es 0) v.listed

later_not_due : (k j : ℕ) (es : List Entry) → j < k → AllAtLeast k es → AllAtLeast (suc j) es
later_not_due k j [] h a = tt
later_not_due k j (e ∷ es) h a = (omega arith, later_not_due k j es h a.1)

-- Where every callback is one-shot, and the timers are in a balanced tree of fewer than 701408732
-- nodes, have distinct deadlines and own their nodes, a round for each timer and one more are
-- enough for the loop to end. It has then fired a prefix of the timers in the order of their
-- deadlines, each of them due at the clock reading before it and called once, with its `free` after
-- it, and has counted them; the others are still held, and none of them was due at the last
-- reading.
pub process_timeout-Processed :
    (fuel n : ℕ) (w : World) (s : Timer) (ps : List (Entry × TimerNode))
    → OneShot w
    → Holds s ps
    → length ps < fuel
    → Returns (Processed w n s ps) (process_timeout fuel w n s)
unfolding process_timeout
process_timeout-Processed zero n w s ps once v enough = absurd (omega arith)
process_timeout-Processed (suc fuel) n w s [] once v enough =
    rw (min_first (record s { ticks = s.ticks + 1 }) [] (tick_Holds s [] v), process_timeout)
      (returns (record {
        fired = [];
        left = [];
        parts = refl;
        counted = omega arith;
        holds = tick_Holds s [] v;
        due = tt;
        not_due = tt;
        logged = refl;
      }))
process_timeout-Processed (suc fuel) n w s ((e, t) ∷ ps) once v enough =
    let v' = tick_Holds s ((e, t) ∷ ps) v in
    rw (min_first (record s { ticks = s.ticks + 1 }) ((e, t) ∷ ps) v', process_timeout)
      (Returns-if (ltb (clock w s.ticks) e.key)
        (λ early.
          let lt = ltb→lt _ _ early in
          returns (record {
            fired = [];
            left = (e, t) ∷ ps;
            parts = refl;
            counted = omega arith;
            holds = v';
            due = tt;
            not_due =
                let z : s.ticks + 0 ≡ s.ticks = omega arith in
                let rising : Ascending (e ∷ entries ps) = rw v.listed at v.distinct in
                subst (λ k. AllAtLeast (suc (clock w k)) (e ∷ entries ps)) (sym z)
                  (
                    lt,
                    later_not_due (suc e.key) (clock w s.ticks) (entries ps) (omega arith) rising.0,
                  );
            logged = refl;
          }))
        (λ late.
          let le = ltb-false→le _ _ late in
          Returns-bind (fire_first w e t ps _ once v') λ s₁ (held, ticks, calls).
            Returns-map (process_timeout-Processed fuel (n + 1) w s₁ ps once held (omega arith))
              λ r q. record {
                fired = (e, t) ∷ q.fired;
                left = q.left;
                parts = ap (◌∷◌ (e, t)) q.parts;
                counted = omega (arith, q.counted);
                holds = q.holds;
                due = (le, rw ticks at q.due);
                not_due =
                    let z : s.ticks + suc (length q.fired) ≡ s₁.ticks + length q.fired =
                      omega arith in
                    subst (λ k. AllAtLeast (suc (clock w k)) (entries q.left)) (sym z) q.not_due;
                logged = q.logged ∙ ap (log q.fired) calls;
              }))
