-- ===== src/Event/Select/RoundTrip.antt =====
-- Adding events and deleting them again, with select.
use just_kit.Prelude.{
  ℕ, ◌<◌, ◌≤◌, ◌≡◌, ◌≢◌, refl, sym, ap, ◌∙◌, Bool, true, false, ◌&&◌, ◌||◌, arith, Run, ok, ◌>>=◌,
  Returns, returns, Returns-bind, Bool-cases, inl, inr, lt→ltb, ◌==◌, ==_iff,
}
use just_kit.Event.{
  Mask, Nodes, not, join, without, Events, put, registered, add, del, finish_add, finish_del,
}
use just_kit.Event.Registry.{add-Agrees, del-Agrees}
use just_kit.Event.Promise.{mask_ext, Agrees}
use just_kit.Event.Select.{Select, fd_setsize, context_add, context_del, backend}
use just_kit.Event.Select.Service.{backend-IsBackend}
use just_kit.Event.Select.Sets.{select_view, assign-Assigned, new_end_lem}

Returns-both {ℓ κ μ} :
    {A : Type ℓ} {P : A → Type κ} {Q : A → Type μ} {r : Run A}
    → Returns P r
    → Returns Q r
    → Returns (λ a. P a × Q a) r
Returns-both (returns p) (returns q) = returns (p, q)

-- What a successful call leaves of the nodes.
record Left (max : ℕ) (nodes : Nodes) (r : Bool × Events Select) : Type 0 where
  worked : r.0 ≡ true
  same_size : r.1.max_events ≡ max
  left : (b : ℕ) → r.1.events b ≡ nodes b

module _ (max : ℕ) (few : max ≤ fd_setsize) (nodes : Nodes) (fd : ℕ) (event : Mask) (ctx : Select)
    (within : fd < max) where
  context_add-works : Returns (λ r. r.0 ≡ true) (context_add max nodes fd event ctx)
  unfolding context_add
  context_add-works =
      Returns-bind (assign-Assigned event.revent fd true ctx.rfds (omega arith)) λ rfds r.
        Returns-bind (assign-Assigned event.wevent fd true ctx.wfds (omega arith))
          λ wfds w. returns refl

  context_del-works : Returns (λ r. r.0 ≡ true) (context_del max nodes fd event ctx)
  unfolding context_del
  context_del-works =
      Returns-bind (assign-Assigned event.revent fd false ctx.rfds (omega arith)) λ rfds r.
        Returns-bind (assign-Assigned event.wevent fd false ctx.wfds (omega arith))
          λ wfds w. rw (new_end_lem fd rfds wfds (omega arith) max nodes ctx.nfds) (returns refl)

finish_add-Left :
    (ev : Events Select) (fd : ℕ) (event : Mask) (handler payload : ℕ) (r : Bool × Select)
    → r.0 ≡ true
    → Left ev.max_events
        (put ev.events fd (registered (ev.events fd) event handler payload))
        (finish_add fd event handler payload ev r)
unfolding finish_add
finish_add-Left ev fd event handler payload (true, ctx) e = record {
  worked = refl;
  same_size = refl;
  left = λ b. refl;
}
finish_add-Left ev fd event handler payload (false, ctx) e = absurd (cc)

finish_del-Left :
    (ev : Events Select) (fd : ℕ) (event : Mask) (r : Bool × Select)
    → r.0 ≡ true
    → Left ev.max_events
        (put ev.events fd (record (ev.events fd) { event = without (ev.events fd).event event }))
        (finish_del fd event ev r)
unfolding finish_del
finish_del-Left ev fd event (true, ctx) e = record {
  worked = refl;
  same_size = refl;
  left = λ b. refl;
}
finish_del-Left ev fd event (false, ctx) e = absurd (cc)

module _ (ev : Events Select) (fd : ℕ) (event : Mask) (within : fd < ev.max_events)
    (few : ev.max_events ≤ fd_setsize) where
  add-Left :
      (handler payload : ℕ)
      → Returns
          (Left ev.max_events (put ev.events fd (registered (ev.events fd) event handler payload)))
          (add backend fd event handler payload ev)
  unfolding add
  add-Left handler payload = rw (lt→ltb fd ev.max_events within) (
      Returns-bind (context_add-works ev.max_events few ev.events fd event ev.ctx within)
        λ r e. returns (finish_add-Left ev fd event handler payload r e))

  del-Left :
      Returns
        (Left ev.max_events
          (put ev.events fd (record (ev.events fd) { event = without (ev.events fd).event event })))
        (del backend fd event ev)
  unfolding del
  del-Left = rw (lt→ltb fd ev.max_events within) (
      Returns-bind (context_del-works ev.max_events few ev.events fd event ev.ctx within)
        λ r e. returns (finish_del-Left ev fd event r e))

-- A new bit that is set and cleared.
set_clear : (a b : Bool) → a && b ≡ false → (a || b) && not b ≡ a
set_clear true true h = cc
set_clear true false h = refl
set_clear false true h = refl
set_clear false false h = refl

module _ (nodes nodes' : Nodes) (fd : ℕ) (event : Mask) (handler payload : ℕ) where
  restored :
      ((b : ℕ) → nodes' b ≡ put nodes fd (registered (nodes fd) event handler payload) b)
      → (nodes fd).event.revent && event.revent ≡ false
      → (nodes fd).event.wevent && event.wevent ≡ false
      → (b : ℕ)
      → (put nodes' fd (record (nodes' fd) { event = without (nodes' fd).event event }) b).event
        ≡ (nodes b).event
  restored l new_read new_write b = elim (Bool-cases (fd == b)) [
    | inl same ↦
        let here : (fd == fd) ≡ true = (==_iff fd fd).1 refl in
        let there : nodes' fd ≡ registered (nodes fd) event handler payload = l fd ∙ rw here refl in
        rw same (
          ap (λ n. without n.event event) there
          ∙ mask_ext (without (join (nodes fd).event event) event) (nodes fd).event
              (set_clear (nodes fd).event.revent event.revent new_read)
              (set_clear (nodes fd).event.wevent event.wevent new_write)
          ∙ ap (λ a. (nodes a).event) ((==_iff fd b).0 same))
    | inr other ↦
        let kept : put nodes fd (registered (nodes fd) event handler payload) b ≡ nodes b =
          rw other refl in
        rw other (ap (λ n. n.event) (l b ∙ kept))
  ]

-- With select, for at most 1024 descriptors and where the two sets are exactly the events that the
-- nodes say: adding events that a descriptor below `max_events` does not have, with a handler that
-- is not null, returns 0, and the node has them with those that it had, in agreement with the sets;
-- deleting them again returns 0, and leaves both sets as they were and the nodes in agreement with
-- them.
pub add-del :
    (max : ℕ) (ev : Events Select) (fd : ℕ) (event : Mask) (handler payload : ℕ)
    → max ≤ fd_setsize
    → fd < max
    → handler ≢ 0
    → Agrees (select_view max) ev
    → (ev.events fd).event.revent && event.revent ≡ false
    → (ev.events fd).event.wevent && event.wevent ≡ false
    → Returns
        (λ (a, r).
          (a.0 ≡ true)
          × (r.0 ≡ true)
          × Agrees (select_view max) a.1
          × ((a.1.events fd).event ≡ join (ev.events fd).event event)
          × Agrees (select_view max) r.1
          × ((b : ℕ) → (select_view max).interest r.1.ctx b ≡ (select_view max).interest ev.ctx b))
        (add backend fd event handler payload ev >>= λ a.
          del backend fd event a.1 >>= λ r. ok (a, r))
add-del max ev fd event handler payload few within real v new_read new_write =
    Returns-bind
      (Returns-both
        (add-Agrees (select_view max) backend (backend-IsBackend max few) fd event handler payload
          ev real tt v)
        (add-Left ev fd event (omega (arith, within, v.size)) (omega (arith, few, v.size)) handler
          payload))
      λ a (k, l).
        Returns-bind
          (Returns-both
            (del-Agrees (select_view max) backend (backend-IsBackend max few) fd event a.1 tt k)
            (del-Left a.1 fd event (omega (arith, within, k.size)) (omega (arith, few, k.size))))
          λ r (k', l'). returns (
            l.worked,
            l'.worked,
            k,
            (let here : (fd == fd) ≡ true = (==_iff fd fd).1 refl in
                ap (λ n. n.event) (l.left fd) ∙ (rw here refl)),
            k',
            λ b.
                k'.watches b
                ∙ ap (λ n. n.event) (l'.left b)
                ∙ restored ev.events a.1.events fd event handler payload l.left new_read new_write b
                ∙ sym (v.watches b),
          )
