-- ===== src/Skip/Relink.antt =====
-- Changing the pointers of the last towers before a key: what the towers before it then lead to.
use mathlib.Core.Path.{subst}
use just_kit.Prelude.{
  ℕ, ◌≡◌, refl, sym, ap, ◌∙◌, true, false, ◌&&◌, List, [], ◌∷◌, ◌++◌, some, arith, ltb, ◌==◌,
  ==_iff, if◌then◌else◌, NotIn, Distinct, Bool-cases, inl, inr, ok,
}
use just_kit.Skip.{Memory, read}
use just_kit.Skip.Towers.{
  Tower, addrs, first_at, last_at, Stands, Holds, Stands-Reads, Next, low, tall, next, last_at-tall,
  NotIn-drop,
}

-- `m'` is `m` but for the node at `a` and for the pointers of the nodes `last j` at the levels below
-- `h`, which are `v j`.
pub record Relinked (m m' : Memory) (a h : ℕ) (last v : ℕ → ℕ) : Type 0 where
  pub same_key : (x : ℕ) → (a == x) ≡ false → (m' x).key ≡ (m x).key
  pub same_value : (x : ℕ) → (a == x) ≡ false → (m' x).value ≡ (m x).value
  pub same_size : (x : ℕ) → (a == x) ≡ false → (m' x).size ≡ (m x).size
  pub links :
      (x j : ℕ)
      → (a == x) ≡ false
      → (m' x).forward j ≡ (if ltb j h && (last j == x) then some (v j) else (m x).forward j)

first_at-append :
    (j : ℕ) (bs old new : List Tower)
    → first_at j old ≡ first_at j new
    → first_at j (bs ++ old) ≡ first_at j (bs ++ new)
first_at-append j [] old new e = e
first_at-append j (b ∷ bs) old new e = elim (Bool-cases (ltb j b.height)) [
  | inl reaches ↦ rw reaches refl
  | inr short ↦ rw short (first_at-append j bs old new e)
]

pub last_at-NotIn :
    (j x p : ℕ) (bs : List Tower)
    → (x == p) ≡ false
    → NotIn x (addrs bs)
    → (x == last_at j p bs) ≡ false
last_at-NotIn j x p [] h out = h
last_at-NotIn j x p (b ∷ bs) h out =
    last_at-NotIn j x (if ltb j b.height then b.addr else p) bs
      (elim (Bool-cases (ltb j b.height)) [
        | inl reaches ↦ rw reaches out.0
        | inr short ↦ rw short h
      ])
      out.1

-- The last tower before `ts` is none of them.
pub last_at-apart :
    (j p : ℕ) (bs ts : List Tower)
    → NotIn p (addrs ts)
    → Distinct (addrs (bs ++ ts))
    → NotIn (last_at j p bs) (addrs ts)
last_at-apart j p [] ts out apart = out
last_at-apart j p (b ∷ bs) ts out apart =
    last_at-apart j (if ltb j b.height then b.addr else p) bs ts
      (elim (Bool-cases (ltb j b.height)) [
        | inl reaches ↦ rw reaches (NotIn-drop b.addr bs ts apart.0)
        | inr short ↦ rw short out
      ])
      apart.1

-- The last tower before `ts` leads to the first one of `ts`, at each level.
pub last_at-first_at :
    (m : Memory) (j p : ℕ) (bs ts : List Tower)
    → read m p j ≡ ok (first_at j (bs ++ ts))
    → Holds m (bs ++ ts)
    → read m (last_at j p bs) j ≡ ok (first_at j ts)
last_at-first_at m j p [] ts r v = r
last_at-first_at m j p (b ∷ bs) ts r v = elim (Bool-cases (ltb j b.height)) [
  | inl reaches ↦
      rw reaches (last_at-first_at m j b.addr bs ts (Stands-Reads m b (bs ++ ts) v.0 j reaches) v.1)
  | inr short ↦ rw short (last_at-first_at m j p bs ts (rw short at r) v.1)
]

module _ (m m' : Memory) (a h : ℕ) (last v : ℕ → ℕ) (r : Relinked m m' a h last v) where
  -- Towers of which no pointer was changed.
  pub Holds-keep :
      (ts : List Tower)
      → NotIn a (addrs ts)
      → ((j : ℕ) → ltb j h ≡ true → NotIn (last j) (addrs ts))
      → Holds m ts
      → Holds m' ts
  Holds-keep [] out apart s = tt
  Holds-keep (t ∷ ts) out apart (s, rest) = (
    record {
      same_key = r.same_key t.addr out.0 ∙ s.same_key;
      same_value = r.same_value t.addr out.0 ∙ s.same_value;
      same_size = r.same_size t.addr out.0 ∙ s.same_size;
      links = λ j reaches. r.links t.addr j out.0 ∙ unchanged j ∙ s.links j reaches;
    },
    Holds-keep ts out.1 (λ j e. (apart j e).1) rest,
  )
    where
      unchanged :
          (j : ℕ)
          → (if ltb j h && (last j == t.addr) then some (v j) else (m t.addr).forward j)
            ≡ (m t.addr).forward j
      unchanged j = elim (Bool-cases (ltb j h)) [
        | inl changed ↦ let other = (apart j changed).0 in rw changed (rw other refl)
        | inr kept ↦ rw kept refl
      ]

  module _ (old new : List Tower) (swaps : (j : ℕ) → ltb j h ≡ true → first_at j new ≡ v j)
      (keeps : (j : ℕ) → ltb j h ≡ false → first_at j old ≡ first_at j new) where
    -- A tower that led to the towers `bs` and `old` leads to `bs` and `new`.
    relinked_at :
        (start : ℕ → ℕ) (t : Tower) (bs : List Tower) (j : ℕ)
        → ltb j h ≡ true
        → last j ≡ last_at j (start j) bs
        → start j ≡ t.addr
        → NotIn t.addr (addrs bs)
        → Next j bs
        → (m t.addr).forward j ≡ some (first_at j (bs ++ old))
        → (if last j == t.addr then some (v j) else (m t.addr).forward j)
          ≡ some (first_at j (bs ++ new))
    relinked_at start t bs j changed is_last starts out (low same_last same_first) f =
        let mine : (last j == t.addr) ≡ true =
          (==_iff (last j) t.addr).1 (is_last ∙ same_last (start j) ∙ starts) in
        rw mine (ap some (sym (same_first new ∙ swaps j changed)))
    relinked_at start t bs j changed is_last starts out (tall s lo hi e reaches same_first) f =
        let out' : NotIn t.addr (addrs (s ∷ hi)) =
          NotIn-drop t.addr lo (s ∷ hi) (subst (λ xs. NotIn t.addr (addrs xs)) e out) in
        let where_last : last j ≡ last_at j s.addr hi =
          is_last ∙ ap (last_at j (start j)) e ∙ last_at-tall j (start j) s lo hi reaches in
        let apart = last_at-NotIn j t.addr s.addr hi out'.0 out'.1 in
        let other : (last j == t.addr) ≡ false = ground (arith, where_last, apart) in
        rw other (f ∙ ap some (same_first old ∙ sym (same_first new)))

    relink-Stands :
        (start : ℕ → ℕ) (t : Tower) (bs : List Tower)
        → ((j : ℕ) → ltb j h ≡ true → last j ≡ last_at j (start j) bs)
        → ((j : ℕ) → ltb j t.height ≡ true → start j ≡ t.addr)
        → (a == t.addr) ≡ false
        → NotIn t.addr (addrs bs)
        → Stands m t (bs ++ old)
        → Stands m' t (bs ++ new)
    relink-Stands start t bs is_last starts apart out s = record {
      same_key = r.same_key t.addr apart ∙ s.same_key;
      same_value = r.same_value t.addr apart ∙ s.same_value;
      same_size = r.same_size t.addr apart ∙ s.same_size;
      links = λ j reaches. r.links t.addr j apart ∙ elim (Bool-cases (ltb j h)) [
        | inl changed ↦ rw changed (
            relinked_at start t bs j changed (is_last j changed) (starts j reaches) out (next j bs)
              (s.links j reaches))
        | inr kept ↦
            rw kept (s.links j reaches ∙ ap some (first_at-append j bs old new (keeps j kept)))
      ];
    }

    pub relink-Holds :
        (start : ℕ → ℕ) (bs : List Tower)
        → ((j : ℕ) → ltb j h ≡ true → last j ≡ last_at j (start j) bs)
        → NotIn a (addrs bs)
        → Distinct (addrs bs)
        → Holds m (bs ++ old)
        → Holds m' new
        → Holds m' (bs ++ new)
    relink-Holds start [] is_last apart distinct s end = end
    relink-Holds start (t ∷ bs) is_last apart distinct (s, rest) end =
        let start' = λ (j : ℕ). if ltb j t.height then t.addr else start j in
        (
          relink-Stands start' t bs is_last (λ j reaches. rw reaches refl) apart.0 distinct.0 s,
          relink-Holds start' bs is_last apart.1 distinct.1 rest end,
        )
