-- ===== src/Skip/Find.antt =====
-- `jk_skip_find` against the search of a list.
use just_kit.Prelude.{
  ℕ, ◌<◌, ◌≡◌, refl, sym, ap, ◌∙◌, true, false, List, [], ◌∷◌, Option, some, none, arith, length,
  length-append, ltb, lt→ltb, ◌==◌, if◌then◌else◌, NotIn, Bool-cases, inl, inr, ok, fault,
  Returns-inv, Returns-map,
}
use just_kit.Skip.{Memory, Skip, read, find_node, find}
use just_kit.Skip.Towers.{
  Tower, addrs, first_at, Holds, AllFit, NoneBelow, Sorted, IsSkip, before, behind, before-behind,
  Holds-drop, NotIn-drop,
}
use just_kit.Skip.Descend.{descend-search}
use just_kit.Skip.Cut.{cut, Cut-search}
use just_kit.Skip.Delete.{starts_with, is_key-starts_with}
use just_kit.Skip.Lower.{AllFit-right}

-- The first tower with the key.
abbrev pub tower_of : ℕ → List Tower → Option Tower
tower_of key [] = none
tower_of key (t ∷ ts) = if t.key == key then some t else tower_of key ts

abbrev pub addr_of : Option Tower → ℕ
addr_of none = 0
addr_of (some t) = t.addr

abbrev pub value_of : Option Tower → Option ℕ
value_of none = none
value_of (some t) = some t.value

at_front : ℕ → List Tower → Option Tower
at_front key [] = none
at_front key (t ∷ ts) = if t.key == key then some t else none

tower_of-above : (key k : ℕ) (ts : List Tower) → NoneBelow k ts → key < k → tower_of key ts ≡ none
tower_of-above key k [] n h = refl
tower_of-above key k (t ∷ ts) n h =
    let least = n.0 in
    let other : (t.key == key) ≡ false = ground (arith, least, h) in
    rw other (tower_of-above key k ts n.1 h)

-- In a sorted list only the first tower that is not below the key can have it.
tower_of-behind :
    (key : ℕ) (ts : List Tower) → Sorted ts → tower_of key ts ≡ at_front key (behind key ts)
unfolding at_front
tower_of-behind key [] s = refl
tower_of-behind key (t ∷ ts) s = elim (Bool-cases (ltb t.key key)) [
  | inl less ↦
      let other : (t.key == key) ≡ false = ground (arith, less) in
      rw less (rw other (tower_of-behind key ts s.1))
  | inr not_less ↦ rw not_less (elim (Bool-cases (t.key == key)) [
    | inl same ↦ rw same refl
    | inr other ↦ rw other (tower_of-above key t.key ts s.0 (ground (arith, not_less, other)))
  ])
]

hit_addr :
    (key level : ℕ) (ts : List Tower)
    → AllFit level ts
    → (if starts_with key ts then first_at 0 ts else 0) ≡ addr_of (at_front key ts)
unfolding at_front
hit_addr key level [] fit = refl
hit_addr key level (t ∷ ts) fit =
    let some_height : ltb 0 t.height ≡ true = lt→ltb 0 t.height fit.0 in
    rw some_height
      (elim (Bool-cases (t.key == key)) [ inl same ↦ rw same refl | inr other ↦ rw other refl ])

pub find_node-tower_of :
    (s : Skip) (ts : List Tower) (fuel key : ℕ)
    → IsSkip s ts
    → length ts < fuel
    → find_node fuel key s ≡ ok (addr_of (tower_of key ts))
unfolding find_node
find_node-tower_of s ts fuel key v enough =
    let bs = before key ts in
    let after = behind key ts in
    let c = cut s key ts v in
    let fit = AllFit-right s.level bs after c.fit in
    let (n, e, next_is) = Returns-inv (
      descend-search s.memory key (λ n. read s.memory n 0 ≡ ok (first_at 0 after)) fuel s.level
        s.header (λ i. none) v.small_level
        (Returns-map
          (Cut-search s key bs after c v.small_level fuel
            (omega (arith, enough, ap length (before-behind key ts), length-append bs after)))
          λ r f. f.next_is (lt→ltb 0 s.level v.some_level))) in
    rw e (
      rw next_is (
        rw
          (is_key-starts_with s.memory key s.level after (Holds-drop s.memory bs after c.holds.1)
            fit (NotIn-drop 0 bs after c.real.1))
          (ap ok
            (hit_addr key s.level after fit ∙ ap addr_of (sym (tower_of-behind key ts v.sorted))))))

-- What the memory holds at the tower that was found.
read_value :
    (m : Memory) (key level : ℕ) (ts : List Tower)
    → Holds m ts
    → AllFit level ts
    → NotIn 0 (addrs ts)
    → (let n = addr_of (tower_of key ts) in
        if n == 0 then ok none else (if ltb 0 (m n).size then ok (some (m n).value) else fault))
      ≡ ok (value_of (tower_of key ts))
read_value m key level [] v fit real = refl
read_value m key level (t ∷ ts) v fit real = elim (Bool-cases (t.key == key)) [
  | inl same ↦
      let apart = real.0 in
      let not_null : (t.addr == 0) ≡ false = ground (arith, apart) in
      let some_size : ltb 0 (m t.addr).size ≡ true =
        lt→ltb 0 (m t.addr).size (omega (arith, fit.0, v.0.same_size)) in
      rw same (rw not_null (rw some_size (ap (λ x. ok (some x)) v.0.same_value)))
  | inr other ↦ rw other (read_value m key level ts v.1 fit.2 real.1)
]

-- `jk_skip_find` on a skip list of towers, with more fuel than towers, faults nowhere and returns
-- the value of the first tower with the key, and -1 exactly if there is none.
pub find-tower_of :
    (s : Skip) (ts : List Tower) (fuel key : ℕ)
    → IsSkip s ts
    → length ts < fuel
    → find fuel key s ≡ ok (value_of (tower_of key ts))
unfolding find
find-tower_of s ts fuel key v enough =
    rw (find_node-tower_of s ts fuel key v enough)
      (read_value s.memory key s.level ts v.nodes.1 v.fit v.real.1)
