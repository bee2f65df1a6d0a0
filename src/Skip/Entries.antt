-- ===== src/Skip/Entries.antt =====
-- The skip list as a sorted list of keys and values: no nodes, no levels.
use just_kit.Prelude.{
  ℕ, ◌<◌, ◌≡◌, refl, sym, ap, Bool, true, false, List, [], ◌∷◌, ◌++◌, Option, some, none, arith,
  ltb, ◌==◌, if◌then◌else◌, Bool-cases, inl, inr,
}
use just_kit.Skip.Towers.{Tower, NoneBelow, Sorted, before, behind}
use just_kit.Skip.Find.{tower_of, value_of}
use just_kit.Skip.Delete.{starts_with}

abbrev pub Entries : Type 0
Entries = List (ℕ × ℕ)

-- What the towers hold.
abbrev pub entries : List Tower → Entries
entries [] = []
entries (t ∷ ts) = (t.key, t.value) ∷ entries ts

-- In front of the keys that are not smaller.
abbrev pub put_entry : ℕ → ℕ → Entries → Entries
put_entry key value [] = (key, value) ∷ []
put_entry key value (e ∷ es) =
    if ltb e.0 key then e ∷ put_entry key value es else (key, value) ∷ (e ∷ es)

abbrev pub has_entry : ℕ → Entries → Bool
has_entry key [] = false
has_entry key (e ∷ es) = if e.0 == key then true else has_entry key es

-- Without the first one that has the key.
abbrev pub take_entry : ℕ → Entries → Entries
take_entry key [] = []
take_entry key (e ∷ es) = if e.0 == key then es else e ∷ take_entry key es

abbrev pub get_entry : ℕ → Entries → Option ℕ
get_entry key [] = none
get_entry key (e ∷ es) = if e.0 == key then some e.1 else get_entry key es

pub put_entry-entries :
    (t : Tower) (ts : List Tower)
    → entries (before t.key ts ++ (t ∷ behind t.key ts)) ≡ put_entry t.key t.value (entries ts)
put_entry-entries t [] = refl
put_entry-entries t (x ∷ ts) = elim (Bool-cases (ltb x.key t.key)) [
  | inl less ↦ rw less (ap (λ es. (x.key, x.value) ∷ es) (put_entry-entries t ts))
  | inr not_less ↦ rw not_less refl
]

pub get_entry-entries :
    (key : ℕ) (ts : List Tower) → value_of (tower_of key ts) ≡ get_entry key (entries ts)
get_entry-entries key [] = refl
get_entry-entries key (t ∷ ts) = elim (Bool-cases (t.key == key)) [
  | inl same ↦ rw same refl
  | inr other ↦ rw other (get_entry-entries key ts)
]

has_entry-above :
    (key k : ℕ) (ts : List Tower) → NoneBelow k ts → key < k → has_entry key (entries ts) ≡ false
has_entry-above key k [] n h = refl
has_entry-above key k (t ∷ ts) n h =
    let least = n.0 in
    let other : (t.key == key) ≡ false = ground (arith, least, h) in
    rw other (has_entry-above key k ts n.1 h)

pub has_entry-entries :
    (key : ℕ) (ts : List Tower)
    → Sorted ts
    → starts_with key (behind key ts) ≡ has_entry key (entries ts)
has_entry-entries key [] s = refl
has_entry-entries key (t ∷ ts) s = elim (Bool-cases (ltb t.key key)) [
  | inl less ↦
      let other : (t.key == key) ≡ false = ground (arith, less) in
      rw less (rw other (has_entry-entries key ts s.1))
  | inr not_less ↦ rw not_less (elim (Bool-cases (t.key == key)) [
    | inl same ↦ rw same refl
    | inr other ↦
        rw other (sym (has_entry-above key t.key ts s.0 (ground (arith, not_less, other))))
  ])
]

-- The towers but the first one behind the key.
abbrev pub rest_of : List Tower → List Tower
rest_of [] = []
rest_of (t ∷ ts) = ts

pub take_entry-entries :
    (key : ℕ) (ts : List Tower)
    → starts_with key (behind key ts) ≡ true
    → entries (before key ts ++ rest_of (behind key ts)) ≡ take_entry key (entries ts)
take_entry-entries key [] hit = refl
take_entry-entries key (t ∷ ts) hit = elim (Bool-cases (ltb t.key key)) [
  | inl less ↦
      let other : (t.key == key) ≡ false = ground (arith, less) in
      rw less
        (rw other (ap (λ es. (t.key, t.value) ∷ es) (take_entry-entries key ts (rw less at hit))))
  | inr not_less ↦ let here = rw not_less at hit in rw not_less (rw here refl)
]

pub take_entry-none : (key : ℕ) (es : Entries) → has_entry key es ≡ false → take_entry key es ≡ es
take_entry-none key [] h = refl
take_entry-none key (e ∷ es) h = elim (Bool-cases (e.0 == key)) [
  | inl same ↦ absurd (let k = rw same at h in cc)
  | inr other ↦ rw other (ap (λ xs. e ∷ xs) (take_entry-none key es (rw other at h)))
]
