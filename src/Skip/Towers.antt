-- ===== src/Skip/Towers.antt =====
-- A skip list as the list of its towers: what the pointers are, level by level.
use just_kit.Prelude.{
  ℕ, ◌%◌, ◌^◌, ◌<◌, ◌≤◌, ◌≡◌, refl, ap, true, false, List, [], ◌∷◌, ◌++◌, some, arith, length, ltb,
  ◌==◌, if◌then◌else◌, NotIn, Distinct, Bool-cases, inl, inr, ok,
}
use just_kit.Skip.{Memory, Skip, max_level, read}

pub record Tower : Type 0 where
  pub addr : ℕ
  pub key : ℕ
  pub value : ℕ
  pub height : ℕ

abbrev pub addrs : List Tower → List ℕ
addrs [] = []
addrs (t ∷ ts) = t.addr ∷ addrs ts

-- The first tower that reaches level `j`, or null.
abbrev pub first_at : ℕ → List Tower → ℕ
first_at j [] = 0
first_at j (t ∷ ts) = if ltb j t.height then t.addr else first_at j ts

-- The last one, or `p`.
abbrev pub last_at : ℕ → ℕ → List Tower → ℕ
last_at j p [] = p
last_at j p (t ∷ ts) = last_at j (if ltb j t.height then t.addr else p) ts

-- A node is a tower in front of the towers `ts`.
pub record Stands (m : Memory) (t : Tower) (ts : List Tower) : Type 0 where
  pub same_key : (m t.addr).key ≡ t.key
  pub same_value : (m t.addr).value ≡ t.value
  pub same_size : (m t.addr).size ≡ t.height
  pub links : (j : ℕ) → ltb j t.height ≡ true → (m t.addr).forward j ≡ some (first_at j ts)

abbrev pub Holds : Memory → List Tower → Type 0
Holds m [] = Unit
Holds m (t ∷ ts) = Stands m t ts × Holds m ts

-- The header, as a tower.
abbrev pub top : ℕ → Tower
top header = record { addr = header; key = 0; value = 0; height = max_level }

abbrev pub AllFit : ℕ → List Tower → Type 0
AllFit level [] = Unit
AllFit level (t ∷ ts) = (0 < t.height) × (t.height ≤ level) × AllFit level ts

abbrev pub AllBelow : ℕ → List Tower → Type 0
AllBelow key [] = Unit
AllBelow key (t ∷ ts) = (ltb t.key key ≡ true) × AllBelow key ts

abbrev pub NoneBelow : ℕ → List Tower → Type 0
NoneBelow key [] = Unit
NoneBelow key (t ∷ ts) = (ltb t.key key ≡ false) × NoneBelow key ts

abbrev pub Sorted : List Tower → Type 0
Sorted [] = Unit
Sorted (t ∷ ts) = NoneBelow t.key ts × Sorted ts

-- The skip list `s` holds the towers `ts`, in this order.
pub record IsSkip (s : Skip) (ts : List Tower) : Type 0 where
  pub nodes : Holds s.memory (top s.header ∷ ts)
  pub distinct : Distinct (s.header ∷ addrs ts)
  pub real : NotIn 0 (s.header ∷ addrs ts)
  pub sorted : Sorted ts
  pub fit : AllFit s.level ts
  pub some_level : 0 < s.level
  pub small_level : s.level ≤ max_level
  pub count : s.length ≡ length ts % 2 ^ 64

-- The towers with smaller keys, and the others.
abbrev pub before : ℕ → List Tower → List Tower
before key [] = []
before key (t ∷ ts) = if ltb t.key key then t ∷ before key ts else []

abbrev pub behind : ℕ → List Tower → List Tower
behind key [] = []
behind key (t ∷ ts) = if ltb t.key key then behind key ts else t ∷ ts

pub before-behind : (key : ℕ) (ts : List Tower) → before key ts ++ behind key ts ≡ ts
before-behind key [] = refl
before-behind key (t ∷ ts) = elim (Bool-cases (ltb t.key key)) [
  | inl less ↦ rw less (ap (λ xs. t ∷ xs) (before-behind key ts))
  | inr not_less ↦ rw not_less refl
]

pub before-AllBelow : (key : ℕ) (ts : List Tower) → AllBelow key (before key ts)
before-AllBelow key [] = tt
before-AllBelow key (t ∷ ts) = elim (Bool-cases (ltb t.key key)) [
  | inl less ↦ rw less (less, before-AllBelow key ts)
  | inr not_less ↦ rw not_less tt
]

NoneBelow-le : (a b : ℕ) (ts : List Tower) → a ≤ b → NoneBelow b ts → NoneBelow a ts
NoneBelow-le a b [] h n = tt
NoneBelow-le a b (t ∷ ts) h (x, n) = (ground arith, NoneBelow-le a b ts h n)

pub behind-NoneBelow : (key : ℕ) (ts : List Tower) → Sorted ts → NoneBelow key (behind key ts)
behind-NoneBelow key [] s = tt
behind-NoneBelow key (t ∷ ts) s = elim (Bool-cases (ltb t.key key)) [
  | inl less ↦ rw less (behind-NoneBelow key ts s.1)
  | inr not_less ↦ rw not_less (not_less, NoneBelow-le key t.key ts (ground (arith, not_less)) s.0)
]

-- The node at `n` leads to the towers `ts`, at the levels below `k`.
abbrev pub Reads : Memory → ℕ → ℕ → List Tower → Type 0
Reads m n k ts = (j : ℕ) → ltb j k ≡ true → read m n j ≡ ok (first_at j ts)

pub Stands-Reads :
    (m : Memory) (t : Tower) (ts : List Tower) → Stands m t ts → Reads m t.addr t.height ts
unfolding read
Stands-Reads m t ts v j h = let e = v.same_size in rw e (rw h (rw (v.links j h) refl))

pub Holds-drop : (m : Memory) (lo ts : List Tower) → Holds m (lo ++ ts) → Holds m ts
Holds-drop m [] ts v = v
Holds-drop m (l ∷ lo) ts v = Holds-drop m lo ts v.1

pub NotIn-drop : (a : ℕ) (lo ts : List Tower) → NotIn a (addrs (lo ++ ts)) → NotIn a (addrs ts)
NotIn-drop a [] ts h = h
NotIn-drop a (l ∷ lo) ts h = NotIn-drop a lo ts h.1

-- Towers of which one reaches level `j`.
pub last_at-tall :
    (j p : ℕ) (t : Tower) (lo hi : List Tower)
    → ltb j t.height ≡ true
    → last_at j p (lo ++ (t ∷ hi)) ≡ last_at j t.addr hi
last_at-tall j p t [] hi h = ap (λ reaches. last_at j (if reaches then t.addr else p) hi) h
last_at-tall j p t (l ∷ lo) hi h = last_at-tall j (if ltb j l.height then l.addr else p) t lo hi h

-- The first tower of `bs` that reaches level `i`, if there is one.
pub data Next (i : ℕ) (bs : List Tower) : Type 0 where
  low :
      ((p : ℕ) → last_at i p bs ≡ p)
      → ((ts : List Tower) → first_at i (bs ++ ts) ≡ first_at i ts)
      → Next i bs
  tall :
      (t : Tower) (lo hi : List Tower)
      → bs ≡ lo ++ (t ∷ hi)
      → ltb i t.height ≡ true
      → ((ts : List Tower) → first_at i (bs ++ ts) ≡ t.addr)
      → Next i bs

Next-behind :
    (i : ℕ) (b : Tower) (bs : List Tower) → ltb i b.height ≡ false → Next i bs → Next i (b ∷ bs)
Next-behind i b bs short (low f g) = low (λ p. rw short (f p)) (λ ts. rw short (g ts))
Next-behind i b bs short (tall t lo hi e h g) =
    tall t (b ∷ lo) hi (ap (λ xs. b ∷ xs) e) h (λ ts. rw short (g ts))

pub next : (i : ℕ) (bs : List Tower) → Next i bs
unfolding Next-behind
next i [] = low (λ p. refl) (λ ts. refl)
next i (b ∷ bs) = elim (Bool-cases (ltb i b.height)) [
  | inl reaches ↦ tall b [] bs refl reaches (λ ts. rw reaches refl)
  | inr short ↦ Next-behind i b bs short (next i bs)
]

pub NotIn-take : (a : ℕ) (bs ts : List Tower) → NotIn a (addrs (bs ++ ts)) → NotIn a (addrs bs)
NotIn-take a [] ts h = tt
NotIn-take a (b ∷ bs) ts h = (h.0, NotIn-take a bs ts h.1)

pub Distinct-take : (bs ts : List Tower) → Distinct (addrs (bs ++ ts)) → Distinct (addrs bs)
Distinct-take [] ts d = tt
Distinct-take (b ∷ bs) ts d = (NotIn-take b.addr bs ts d.0, Distinct-take bs ts d.1)

-- A call has changed the sizes of no node but the one at `a`, and not the header.
pub record Beyond (a : ℕ) (s s' : Skip) : Type 0 where
  pub same_header : s'.header ≡ s.header
  pub same_size : (x : ℕ) → (a == x) ≡ false → (s'.memory x).size ≡ (s.memory x).size
