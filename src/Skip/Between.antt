-- ===== src/Skip/Between.antt =====
-- Towers with one more between them, or one less: what is kept of a skip list.
use just_kit.Prelude.{
  ℕ, ◌+◌, ◌<◌, ◌≤◌, ◌≡◌, false, List, [], ◌∷◌, ◌++◌, arith, length, ltb, ◌==◌, NotIn, Distinct,
}
use just_kit.Skip.Towers.{Tower, addrs, AllFit, AllBelow, NoneBelow, Sorted, NotIn-drop}

pub AllFit-le : (low high : ℕ) (ts : List Tower) → low ≤ high → AllFit low ts → AllFit high ts
AllFit-le low high [] h f = tt
AllFit-le low high (t ∷ ts) h f = (f.0, omega (arith, f.1), AllFit-le low high ts h f.2)

-- A tower between others.
module _ (t : Tower) (ts : List Tower) where
  pub NotIn-between :
      (x : ℕ) (bs : List Tower)
      → (x == t.addr) ≡ false
      → NotIn x (addrs (bs ++ ts))
      → NotIn x (addrs (bs ++ (t ∷ ts)))
  NotIn-between x [] h out = (h, out)
  NotIn-between x (b ∷ bs) h out = (out.0, NotIn-between x bs h out.1)

  pub Distinct-between :
      (bs : List Tower)
      → NotIn t.addr (addrs (bs ++ ts))
      → Distinct (addrs (bs ++ ts))
      → Distinct (addrs (bs ++ (t ∷ ts)))
  Distinct-between [] out d = (out, d)
  Distinct-between (b ∷ bs) out d =
      (NotIn-between b.addr bs (ground (arith, out.0)) d.0, Distinct-between bs out.1 d.1)

  NoneBelow-between :
      (key : ℕ) (bs : List Tower)
      → ltb t.key key ≡ false
      → NoneBelow key (bs ++ ts)
      → NoneBelow key (bs ++ (t ∷ ts))
  NoneBelow-between key [] h n = (h, n)
  NoneBelow-between key (b ∷ bs) h n = (n.0, NoneBelow-between key bs h n.1)

  pub Sorted-between :
      (bs : List Tower)
      → AllBelow t.key bs
      → NoneBelow t.key ts
      → Sorted (bs ++ ts)
      → Sorted (bs ++ (t ∷ ts))
  Sorted-between [] below n s = (n, s)
  Sorted-between (b ∷ bs) below n s =
      (NoneBelow-between b.key bs (ground (arith, below.0)) s.0, Sorted-between bs below.1 n s.1)

  pub AllFit-between :
      (low high : ℕ) (bs : List Tower)
      → low ≤ high
      → 0 < t.height
      → t.height ≤ high
      → AllFit low (bs ++ ts)
      → AllFit high (bs ++ (t ∷ ts))
  AllFit-between low high [] h some_height fits f = (some_height, fits, AllFit-le low high ts h f)
  AllFit-between low high (b ∷ bs) h some_height fits f =
      (f.0, omega (arith, f.1), AllFit-between low high bs h some_height fits f.2)

  pub length-between : (bs : List Tower) → length (bs ++ (t ∷ ts)) ≡ length (bs ++ ts) + 1
  length-between [] = omega arith
  length-between (b ∷ bs) = omega (arith, length-between bs)

  pub NotIn-without :
      (x : ℕ) (bs : List Tower) → NotIn x (addrs (bs ++ (t ∷ ts))) → NotIn x (addrs (bs ++ ts))
  NotIn-without x [] out = out.1
  NotIn-without x (b ∷ bs) out = (out.0, NotIn-without x bs out.1)

  pub Distinct-without :
      (bs : List Tower) → Distinct (addrs (bs ++ (t ∷ ts))) → Distinct (addrs (bs ++ ts))
  Distinct-without [] d = d.1
  Distinct-without (b ∷ bs) d = (NotIn-without b.addr bs d.0, Distinct-without bs d.1)

  -- The tower is none of the others.
  pub NotIn-others :
      (bs : List Tower)
      → Distinct (addrs (bs ++ (t ∷ ts)))
      → NotIn t.addr (addrs bs) × NotIn t.addr (addrs ts)
  NotIn-others [] d = (tt, d.0)
  NotIn-others (b ∷ bs) d =
      let (out, rest) = NotIn-others bs d.1 in
      let apart = (NotIn-drop b.addr bs (t ∷ ts) d.0).0 in ((ground (arith, apart), out), rest)

  NoneBelow-without :
      (key : ℕ) (bs : List Tower) → NoneBelow key (bs ++ (t ∷ ts)) → NoneBelow key (bs ++ ts)
  NoneBelow-without key [] n = n.1
  NoneBelow-without key (b ∷ bs) n = (n.0, NoneBelow-without key bs n.1)

  pub Sorted-without : (bs : List Tower) → Sorted (bs ++ (t ∷ ts)) → Sorted (bs ++ ts)
  Sorted-without [] s = s.1
  Sorted-without (b ∷ bs) s = (NoneBelow-without b.key bs s.0, Sorted-without bs s.1)

  pub AllFit-without :
      (level : ℕ) (bs : List Tower) → AllFit level (bs ++ (t ∷ ts)) → AllFit level (bs ++ ts)
  AllFit-without level [] f = f.2
  AllFit-without level (b ∷ bs) f = (f.0, f.1, AllFit-without level bs f.2)
