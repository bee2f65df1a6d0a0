-- ===== src/Hash/Moves.antt =====
-- The loops of `jk_hash_rehash`, which push every entry in front of a chain of the new array.
use Prim.Native.Nat.{ℕ, ◌+◌, ◌%◌, ◌<◌, ◌≤◌}
use mathlib.Core.Path.{fun_ext}
use just_kit.Prelude.{
  ◌≡◌, refl, ap, ◌∙◌, List, [], ◌∷◌, ◌++◌, some, arith, length, set, length-set, replicate,
  length-replicate, Run, ok, fault, out_of_fuel, ◌>>=◌, Returns, returns, Returns-map, ◌==◌,
  if◌then◌else◌,
}
use just_kit.Hash.{Key, HashFn, Entry, Chain, matches, move_entry, move_chain, move_all}
use just_kit.Hash.Keys.{FitsInt, matches-hashval}
use just_kit.Hash.Chains.{
  to_nat, or_else, or_else-none, found, count, found-nil, count-nil, found-cons, count-cons,
  found-absent,
}
use just_kit.Hash.Buckets.{
  bucket, total, concat, total-concat, bucket-set, total-set, deref-bucket, view, IsPlaced,
  concat-view,
}
use just_kit.Hash.Fresh.{bucket-replicate, total-replicate}

-- The array `bs` after the entries `es` went to it: `n` buckets, with the new entries before the old.
record Moved (hash : HashFn) (n : ℕ) (es : Chain) (bs bs' : List Chain) : Type 0 where
  width : length bs' ≡ n
  placed : IsPlaced hash bs'
  entries : total bs' ≡ total bs + length es
  reads : (q : Key) → view hash bs' q ≡ or_else (found hash q es) (view hash bs q)

bind_assoc {ℓ} :
    {A B C : Type ℓ} (m : Run A) (f : A → Run B) (g : B → Run C)
    → (m >>= f >>= g) ≡ (m >>= λ a. f a >>= g)
bind_assoc (ok a) f g = refl
bind_assoc fault f g = refl
bind_assoc out_of_fuel f g = refl

module _ (hash : HashFn) (fits : FitsInt hash) (n : ℕ) (pos : 0 < n) where
  home_count : List Chain → Key → ℕ
  home_count bs q = count hash q (bucket bs (hash q % n))

  -- One entry, in front of the bucket that its hash value says.
  push : Entry → List Chain → List Chain
  push e bs = set bs (e.hashval % n) (e ∷ bucket bs (e.hashval % n))

  move_entry-push :
      (e : Entry) (bs : List Chain) → length bs ≡ n → move_entry n e bs ≡ ok (push e bs)
  unfolding move_entry push
  move_entry-push e bs w = rw (deref-bucket bs (e.hashval % n) (grind arith))

  view_at :
      (bs : List Chain) (q : Key)
      → length bs ≡ n
      → view hash bs q ≡ found hash q (bucket bs (hash q % n))
  unfolding view
  view_at bs q w = rw w

  module _ (e : Entry) (bs : List Chain) (w : length bs ≡ n) where
    inside : e.hashval % n < length bs
    inside = grind arith

    width-push : length (push e bs) ≡ n
    unfolding push
    width-push = length-set bs (e.hashval % n) (e ∷ bucket bs (e.hashval % n)) ∙ w

    bucket-push :
        (i : ℕ)
        → bucket (push e bs) i
          ≡ (if (e.hashval % n) == i then e ∷ bucket bs (e.hashval % n) else bucket bs i)
    unfolding push
    bucket-push i = bucket-set bs (e.hashval % n) i (e ∷ bucket bs (e.hashval % n)) inside

    total-push : total (push e bs) ≡ total bs + 1
    unfolding push
    total-push = omega (arith, total-set bs (e.hashval % n) (e ∷ bucket bs (e.hashval % n)) inside)

    count-push :
        (q : Key) (i : ℕ)
        → count hash q (bucket (push e bs) i) ≡ (
            if (e.hashval % n) == i
            then to_nat (matches (hash q) q e) + count hash q (bucket bs i)
            else count hash q (bucket bs i))
    count-push q i = ground (arith, bucket-push i, count-cons hash q e (bucket bs (e.hashval % n)))

    view-push :
        (q : Key)
        → view hash (push e bs) q ≡ (if matches (hash q) q e then some e.val else view hash bs q)
    view-push q =
        view_at (push e bs) q (width-push)
        ∙ (ground (
          arith,
          bucket-set bs (e.hashval % n) (hash q % n) (e ∷ bucket bs (e.hashval % n)),
          inside,
          found-cons hash q e (bucket bs (e.hashval % n)),
          matches-hashval hash q e fits,
          view_at bs q w,
          bucket-push (hash q % n),
        ))

  move_chain-Moved :
      (es : Chain) (bs : List Chain)
      → length bs ≡ n
      → IsPlaced hash bs
      → ((q : Key) → count hash q es + home_count bs q ≤ 1)
      → Returns (Moved hash n es bs) (move_chain n es bs)
  unfolding move_chain home_count
  move_chain-Moved [] bs w placed apart = returns (record {
    width = w;
    placed = placed;
    entries = omega arith;
    reads = λ q. rw (found-nil hash q) refl;
  })
  move_chain-Moved (e ∷ es) bs w placed apart =
      let bs₁ = push e bs in
      let w₁ = width-push e bs w in
      rw (move_entry-push e bs w) (
        Returns-map
          (move_chain-Moved es bs₁ w₁
            (λ q i. ground (
              arith,
              w,
              w₁,
              count-push e bs w q i,
              matches-hashval hash q e fits,
              placed q i,
              apart q,
              count-cons hash q e es,
            ))
            (λ q. ground (
              arith,
              count-push e bs w q (hash q % n),
              matches-hashval hash q e fits,
              apart q,
              count-cons hash q e es,
            )))
          λ bs' m. record {
            width = m.width;
            placed = m.placed;
            entries = omega (arith, m.entries, total-push e bs w);
            reads = λ q.
                m.reads q
                ∙ (ground (
                  arith,
                  view-push e bs w q,
                  found-cons hash q e es,
                  count-cons hash q e es,
                  apart q,
                  found-absent hash q es,
                ));
          })

  move_chain-append :
      (a b : Chain) (bs : List Chain)
      → move_chain n (a ++ b) bs ≡ move_chain n a bs >>= move_chain n b
  unfolding move_chain
  move_chain-append [] b bs = refl
  move_chain-append (e ∷ a) b bs = simp (bind_assoc, move_chain-append a b)

  -- The two nested loops are one loop over all the entries.
  move_all-concat : (cs bs : List Chain) → move_all n cs bs ≡ move_chain n (concat cs) bs
  unfolding move_all move_chain
  move_all-concat [] bs = refl
  move_all-concat (c ∷ cs) bs =
      rw (move_chain-append c (concat cs) bs, ← fun_ext (move_all-concat cs))

  -- Moving all the entries of well-placed buckets into `n` empty ones.
  pub move_all-Moved :
      (cs : List Chain)
      → IsPlaced hash cs
      → Returns
          (λ bs'.
            (length bs' ≡ n)
            × IsPlaced hash bs'
            × (total bs' ≡ total cs)
            × ((q : Key) → view hash bs' q ≡ view hash cs q))
          (move_all n cs (replicate n []))
  unfolding home_count
  move_all-Moved cs placed =
      let w = length-replicate {A = Chain} n [] in
      rw (move_all-concat cs (replicate n [])) (
        Returns-map
          (move_chain-Moved (concat cs) (replicate n []) w
            (λ q i. rw (bucket-replicate n i, count-nil hash q) (omega arith))
            (λ q.
              rw (bucket-replicate n (hash q % n), count-nil hash q)
                (omega (arith, (concat-view hash cs q placed).1))))
          λ bs' m. (
            m.width,
            m.placed,
            omega (arith, m.entries, total-replicate n, total-concat cs),
            λ q.
                m.reads q
                ∙ ap (or_else (found hash q (concat cs))) (
                    view_at (replicate n []) q w
                    ∙ ap (found hash q) (bucket-replicate n (hash q % n))
                    ∙ found-nil hash q)
                ∙ or_else-none (found hash q (concat cs))
                ∙ (concat-view hash cs q placed).0,
          ))
