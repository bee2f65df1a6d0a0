-- ===== src/Aio/Finished.antt =====
-- Finishing requests, and polling them.
use mathlib.Core.Path.{subst}
use just_kit.Prelude.{
  ltb, lt→ltb, ◌^◌, NotIn, Distinct, Distinct-append, ℕ, zero, suc, ◌+◌, ◌%◌, ◌^◌, ◌<◌, ◌≡◌, ◌≢◌,
  refl, sym, ap, ◌∙◌, Bool, true, false, List, [], ◌∷◌, ◌++◌, Option, none, some, arith, length,
  ◌==◌, ==_iff, if◌then◌else◌, Returns, returns, Returns-bind, Returns-map,
}
use just_kit.Aio.{
  count_processed, Request, Aio, World, update, link_tail, finish_request, poll_request, poll,
}
use just_kit.Aio.Chain.{
  last_of, Chain, is_some, Queue, deref-some, last-append, is_some-update, update_self, update_ne,
  Chain-update, Chain-link, last-some, last-real, set_next_lem,
}

-- What finishing the request at `a` leaves, where `xs` were finished.
pub record Finishes (aio : Aio) (xs : List ℕ) (a : ℕ) (aio' : Aio) : Type 0 where
  pub queue : Queue aio' (xs ++ (a ∷ []))
  pub same_nreqs : aio'.nreqs ≡ aio.nreqs
  pub same_ncoms : aio'.ncoms ≡ aio.ncoms
  pub memory : (b : ℕ) → is_some (aio'.requests b) ≡ is_some (aio.requests b)

pick_true : (b : Bool) (x y : ℕ) → b ≡ true → (if b then x else y) ≡ x
pick_true b x y h = rw h refl

pick_false : (b : Bool) (x y : ℕ) → b ≡ false → (if b then x else y) ≡ y
pick_false b x y h = rw h refl

-- Linking behind the last node, or not if there is none.
link_tail-Chain :
    (f : ℕ → Option Request) (head tail a : ℕ) (node : Request) (xs : List ℕ)
    → Chain f head xs
    → tail ≡ last_of xs
    → Distinct xs
    → NotIn a xs
    → a ≢ 0
    → f a ≡ some node
    → node.next ≡ 0
    → Returns
        (λ f'.
          Chain f' (if head == 0 then a else head) (xs ++ (a ∷ []))
          × ((b : ℕ) → is_some (f' b) ≡ is_some (f b)))
        (link_tail (tail == 0) f tail a)
unfolding link_tail
link_tail-Chain f head tail a node [] c t apart out real at end =
    let empty : (tail == 0) ≡ true = (==_iff tail 0).1 t in
    let head_is = pick_true (head == 0) a head ((==_iff head 0).1 c) in
    rw (empty, link_tail) (returns ((head_is, real, node, at, end), λ b. refl))
link_tail-Chain f head tail a node (x ∷ xs) c t apart out real at end =
    let (last, l) = last-some f head x xs c in
    let full : (tail == 0) ≡ false = ground (arith, last-real f head x xs c) in
    let held : (head == 0) ≡ false = ground (arith, c.0, c.1) in
    let at_tail : f tail ≡ some last = ap f t ∙ l in
    rw (full, link_tail)
      (Returns-map (set_next_lem f tail a last at_tail) λ f' e.
        let e' : f' ≡ update f (last_of (x ∷ xs)) (some (record last { next = a })) =
          subst (λ k. f' ≡ update f k (some (record last { next = a }))) t e in
        (
          subst (λ g. Chain g (if head == 0 then a else head) (x ∷ (xs ++ (a ∷ [])))) (sym e')
              (subst
                (λ p.
                  Chain (update f (last_of (x ∷ xs)) (some (record last { next = a }))) p
                    (x ∷ (xs ++ (a ∷ []))))
                (sym (pick_false (head == 0) a head held))
                (Chain-link f a head x xs last node real out apart at end l c)),
          λ b.
              ap (λ g. is_some (g b)) e'
              ∙ is_some-update f (last_of (x ∷ xs)) b last (record last { next = a }) l,
        ))

-- A request is finished: it becomes the last of the list.
pub finish_request-Finishes :
    (w : World) (aio : Aio) (xs : List ℕ) (a : ℕ) (r : Request)
    → Queue aio xs
    → NotIn a xs
    → a ≢ 0
    → aio.requests a ≡ some r
    → Returns (Finishes aio xs a) (finish_request w a aio)
unfolding finish_request
finish_request-Finishes w aio xs a r q out real at =
    let node = record r { next = 0 } in
    Returns-bind (set_next_lem aio.requests a 0 r at) λ f e.
      Returns-bind
        (link_tail-Chain f aio.rhead aio.rtail a node xs
          (subst (λ g. Chain g aio.rhead xs) (sym e)
            (Chain-update aio.requests a (some node) aio.rhead xs out q.chain))
          q.tail q.distinct out real (ap (λ g. g a) e ∙ update_self aio.requests a (some node))
          refl)
        λ f' c. returns (record {
          queue = record {
            chain = c.0;
            tail = sym (last-append a xs);
            distinct = Distinct-append a xs out q.distinct;
          };
          same_nreqs = refl;
          same_ncoms = refl;
          memory =
              λ b. c.1 b ∙ ap (λ g. is_some (g b)) e ∙ is_some-update aio.requests a b r node at;
        })

-- What a round of `jk_aio_poll` leaves, where `x` was the first of the finished requests.
pub record Polls (aio : Aio) (x : ℕ) (xs : List ℕ) (aio' : Aio) : Type 0 where
  pub queue : Queue aio' xs
  pub same_nreqs : aio'.nreqs ≡ aio.nreqs
  pub completed : aio'.ncoms ≡ (aio.ncoms + 1) % 2 ^ 64
  pub released : aio'.requests x ≡ none
  pub memory : (b : ℕ) → (x == b) ≡ false → aio'.requests b ≡ aio.requests b

rest_last :
    (f : ℕ → Option Request) (p x tail : ℕ) (xs : List ℕ)
    → Chain f p xs
    → tail ≡ last_of (x ∷ xs)
    → (if p == 0 then 0 else tail) ≡ last_of xs
rest_last f p x tail [] c t = pick_true (p == 0) 0 tail ((==_iff p 0).1 c)
rest_last f p x tail (y ∷ xs) c t = pick_false (p == 0) 0 tail (ground (arith, c.0, c.1)) ∙ t

-- A round takes the first one off the list, out of memory.
pub poll_request-Polls :
    (aio : Aio) (x : ℕ) (xs : List ℕ)
    → Queue aio (x ∷ xs)
    → Returns (Polls aio x xs) (poll_request aio.rhead aio)
unfolding poll_request
poll_request-Polls aio x xs q =
    let (here, real, r, at, rest) = q.chain in
    let at_head : aio.requests aio.rhead ≡ some r = ap aio.requests here ∙ at in
    Returns-bind (deref-some (aio.requests aio.rhead) r at_head) λ r' e.
      let rest' : Chain aio.requests r'.next xs =
        subst (λ s. Chain aio.requests s.next xs) (sym e) rest in
      returns (record {
        queue = record {
          chain =
              Chain-update aio.requests aio.rhead none r'.next xs
                (subst (λ k. NotIn k xs) (sym here) q.distinct.0) rest';
          tail = rest_last aio.requests r'.next x aio.rtail xs rest' q.tail;
          distinct = q.distinct.1;
        };
        same_nreqs = refl;
        completed = refl;
        released = ap (λ k. update aio.requests k none x) here ∙ update_self aio.requests x none;
        memory =
            λ b h. ap (λ k. update aio.requests k none b) here ∙ update_ne aio.requests x b none h;
      })

-- Where the finished requests are a linked list, and `processed` and their number together are less
-- than 2^31, `jk_aio_poll` alone, with fuel for more rounds than there are requests, faults nowhere
-- and ends: it adds to `processed` as many as the list held, the list is then empty, and `nreqs` is
-- what it was.
pub poll-empty :
    (fuel n : ℕ) (aio : Aio) (xs : List ℕ)
    → Queue aio xs
    → length xs < fuel
    → n + length xs < 2 ^ 31
    → Returns
        (λ r. (r.0 ≡ n + length xs) × Queue r.1 [] × (r.1.nreqs ≡ aio.nreqs))
        (poll fuel n aio)
unfolding poll count_processed
poll-empty zero n aio xs q enough small = absurd (omega arith)
poll-empty (suc fuel) n aio [] q enough small =
    let done : (aio.rhead == 0) ≡ true = (==_iff aio.rhead 0).1 q.chain in
    rw done (returns (omega arith, q, refl))
poll-empty (suc fuel) n aio (x ∷ xs) q enough small =
    let more : (aio.rhead == 0) ≡ false = ground (arith, q.chain.0, q.chain.1) in
    let fits : ltb (n + 1) (2 ^ 31) ≡ true = lt→ltb (n + 1) (2 ^ 31) (omega arith) in
    rw more (
      rw fits (
        Returns-bind (poll_request-Polls aio x xs q) λ aio' c.
          Returns-map (poll-empty fuel (n + 1) aio' xs c.queue (omega arith) (omega arith))
            λ r d. (omega (arith, d.0), d.1, d.2 ∙ c.same_nreqs)))
