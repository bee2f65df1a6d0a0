-- ===== src/Event/Registry.antt =====
-- What the nodes say is what the backend watches, whatever is added and deleted, also by handlers.
use mathlib.Core.Path.{subst}
use just_kit.Prelude.{
  ℕ, zero, suc, ◌<◌, ◌≡◌, ◌≢◌, refl, sym, ◌∙◌, Bool, true, false, ◌&&◌, ◌||◌, List, [], ◌∷◌, some,
  deref, arith, Bool-cases, inl, inr, ◌==◌, ==_iff, ltb, lt→ltb, ltb→lt, Returns, returns,
  Returns-bind, Returns-if,
}
use just_kit.Event.{
  new, Mask, not, nevent, join, without, Node, Events, Backend, node_at, put, registered,
  finish_add, add, finish_del, del, Request, adds, dels, request, requests, Reaction, call_handler,
  fire_read, fire_write, fire, dispatch,
}
use just_kit.Event.Promise.{
  View, Changes, IsBackend, HasHandlers, Agrees, Real, AllReal, Within, second,
  registered-HasHandlers, without-HasHandlers,
}

module _ {C : Type 0} (view : View C) (b : Backend C) (law : IsBackend view b) where
  -- A node is replaced as the context was changed.
  put-Agrees :
      (ev : Events C) (fd : ℕ) (node : Node) (c : C)
      → Agrees view ev
      → HasHandlers node
      → Changes view fd node.event ev.ctx (true, c)
      → Agrees view (record ev { ctx = c; events = put ev.events fd node })
  put-Agrees ev fd node c v h k = record {
    size = v.size;
    watches = λ a. elim (Bool-cases (fd == a)) [
      | inl same ↦
          rw same
            (subst (λ x. view.interest c x ≡ node.event) ((==_iff fd a).0 same) (k.works refl))
      | inr other ↦ rw other (k.others a other ∙ v.watches a)
    ];
    handled = λ a. elim (Bool-cases (fd == a)) [
      | inl same ↦ rw same h
      | inr other ↦ rw other (v.handled a)
    ];
    valid = k.valid;
  }

  keep-Agrees :
      (ev : Events C) (fd : ℕ) (wanted : Mask) (c : C)
      → Agrees view ev
      → Changes view fd wanted ev.ctx (false, c)
      → Agrees view (record ev { ctx = c })
  keep-Agrees ev fd wanted c v k = record {
    size = v.size;
    watches = λ a. elim (Bool-cases (fd == a)) [
      | inl same ↦
          subst (λ x. view.interest c x ≡ (ev.events x).event) ((==_iff fd a).0 same)
            (k.fails refl ∙ v.watches fd)
      | inr other ↦ k.others a other ∙ v.watches a
    ];
    handled = v.handled;
    valid = k.valid;
  }

  finish_add-Agrees :
      (ev : Events C) (fd : ℕ) (event : Mask) (handler payload : ℕ) (r : Bool × C)
      → Agrees view ev
      → handler ≢ 0
      → Changes view fd (join (ev.events fd).event event) ev.ctx r
      → Agrees view (finish_add fd event handler payload ev r).1
  unfolding finish_add
  finish_add-Agrees ev fd event handler payload (false, c) v real k = keep-Agrees ev fd _ c v k
  finish_add-Agrees ev fd event handler payload (true, c) v real k =
      put-Agrees ev fd (registered (ev.events fd) event handler payload) c v
        (registered-HasHandlers (ev.events fd) event handler payload real (v.handled fd)) k

  finish_del-Agrees :
      (ev : Events C) (fd : ℕ) (event : Mask) (r : Bool × C)
      → Agrees view ev
      → Changes view fd (without (ev.events fd).event event) ev.ctx r
      → Agrees view (finish_del fd event ev r).1
  unfolding finish_del
  finish_del-Agrees ev fd event (false, c) v k = keep-Agrees ev fd _ c v k
  finish_del-Agrees ev fd event (true, c) v k =
      put-Agrees ev fd (record (ev.events fd) { event = without (ev.events fd).event event }) c v
        (without-HasHandlers (ev.events fd) event (v.handled fd)) k

  pub add-Agrees :
      (fd : ℕ) (event : Mask) (handler payload : ℕ) (ev : Events C)
      → handler ≢ 0
      → view.Allows event
      → Agrees view ev
      → Returns (λ r. Agrees view r.1) (add b fd event handler payload ev)
  unfolding add
  add-Agrees fd event handler payload ev real allowed v =
      Returns-if (ltb fd ev.max_events)
        (λ within.
          Returns-bind
            (subst
              (λ m.
                Returns (Changes view fd (join (ev.events fd).event event) ev.ctx)
                  (b.context_add m ev.events fd event ev.ctx))
              (sym v.size)
              (law.adds_event ev.events ev.ctx fd event
                (omega (arith, ltb→lt fd ev.max_events within, v.size)) allowed v.watches v.valid))
            λ r k. returns (finish_add-Agrees ev fd event handler payload r v real k))
        (λ beyond. returns v)

  pub del-Agrees :
      (fd : ℕ) (event : Mask) (ev : Events C)
      → view.Allows event
      → Agrees view ev
      → Returns (λ r. Agrees view r.1) (del b fd event ev)
  unfolding del
  del-Agrees fd event ev allowed v =
      Returns-if (ltb fd ev.max_events)
        (λ within.
          Returns-bind
            (subst
              (λ m.
                Returns (Changes view fd (without (ev.events fd).event event) ev.ctx)
                  (b.context_del m ev.events fd event ev.ctx))
              (sym v.size)
              (law.dels_event ev.events ev.ctx fd event
                (omega (arith, ltb→lt fd ev.max_events within, v.size)) allowed v.watches v.valid))
            λ r k. returns (finish_del-Agrees ev fd event r v k))
        (λ beyond. returns v)

  pub request-Agrees :
      (q : Request) (ev : Events C)
      → Real view.Allows q
      → Agrees view ev
      → Returns (Agrees view) (request b q ev)
  unfolding request
  request-Agrees (adds fd event handler payload) ev real v =
      Returns-bind (add-Agrees fd event handler payload ev real.0 real.1 v) λ r k. returns k
  request-Agrees (dels fd event) ev real v =
      Returns-bind (del-Agrees fd event ev real v) λ r k. returns k

  pub requests-Agrees :
      (qs : List Request) (ev : Events C)
      → AllReal view.Allows qs
      → Agrees view ev
      → Returns (Agrees view) (requests b qs ev)
  unfolding requests
  requests-Agrees [] ev real v = returns v
  requests-Agrees (q ∷ qs) ev real v =
      Returns-bind (request-Agrees q ev real.0 v) λ ev' k. requests-Agrees qs ev' real.1 k

  module _ (react : Reaction)
      (reals : (handler fd payload : ℕ) → AllReal view.Allows (react handler fd payload)) where
    call_handler-Agrees :
        (h fd payload : ℕ) (ev : Events C)
        → h ≢ 0
        → Agrees view ev
        → Returns (Agrees view) (call_handler b react h fd payload ev)
    unfolding call_handler
    call_handler-Agrees zero fd payload ev real v = absurd (real refl)
    call_handler-Agrees (suc h) fd payload ev real v =
        requests-Agrees (react (suc h) fd payload)
          (record ev { calls = (suc h, (fd, payload)) ∷ ev.calls }) (reals (suc h) fd payload)
          (record { size = v.size; watches = v.watches; handled = v.handled; valid = v.valid })

    node_at-Returns :
        (fd : ℕ) (ev : Events C)
        → fd < view.max
        → Agrees view ev
        → Returns HasHandlers (node_at ev fd)
    node_at-Returns fd ev within v =
        rw (lt→ltb fd ev.max_events (omega (arith, within, v.size))) (returns (v.handled fd))

    fire_read-Agrees :
        (fd : ℕ) (ready : Mask) (ev : Events C)
        → fd < view.max
        → Agrees view ev
        → Returns (λ r. Agrees view r.1) (fire_read b react fd ready ev)
    unfolding fire_read
    fire_read-Agrees fd ready ev within v = Returns-bind (node_at-Returns fd ev within v) λ node h.
        Returns-if (ready.revent && node.event.revent)
          (λ both.
            Returns-bind
              (call_handler-Agrees node.rev_handler fd node.payload ev
                (h.reads (grind (arith, both))) v)
              λ ev' k. returns k)
          (λ neither. returns v)

    fire_write-Agrees :
        (fd : ℕ) (ready : Mask) (rfired : Bool) (ev : Events C)
        → fd < view.max
        → Agrees view ev
        → Returns (Agrees view) (fire_write b react fd ready rfired ev)
    unfolding fire_write
    fire_write-Agrees fd ready rfired ev within v =
        Returns-bind (node_at-Returns fd ev within v) λ node h.
          Returns-if
            ((ready.wevent && node.event.wevent)
              && (not rfired || not (node.rev_handler == node.wev_handler)))
            (λ both.
              call_handler-Agrees node.wev_handler fd node.payload ev
                (h.writes (second ready.wevent node.event.wevent _ both)) v)
            (λ neither. returns v)

    pub fire-Agrees :
        (fd : ℕ) (ready : Mask) (ev : Events C)
        → fd < view.max
        → Agrees view ev
        → Returns (Agrees view) (fire b react fd ready ev)
    unfolding fire
    fire-Agrees fd ready ev within v =
        Returns-bind (fire_read-Agrees fd ready ev within v)
          λ r k. fire_write-Agrees fd ready r.0 r.1 within k

    pub dispatch-Agrees :
        (reports : List (ℕ × Mask)) (ev : Events C)
        → Within view.max reports
        → Agrees view ev
        → Returns (Agrees view) (dispatch b react reports ev)
    unfolding dispatch
    dispatch-Agrees [] ev within v = returns v
    dispatch-Agrees ((fd, ready) ∷ rest) ev within v =
        Returns-bind (fire-Agrees fd ready ev within.0 v)
          λ ev' k. dispatch-Agrees rest ev' within.1 k

-- What `jk_event_new` makes.
pub new-Agrees :
    {C : Type 0} (view : View C) (c : C)
    → ((fd : ℕ) → view.interest c fd ≡ nevent)
    → view.Valid c
    → Returns (Agrees view) (deref (new true true view.max (some c)))
unfolding new
new-Agrees view c nothing valid = returns (record {
  size = refl;
  watches = nothing;
  handled = λ fd. record { reads = λ e. absurd (cc); writes = λ e. absurd (cc) };
  valid = valid;
})
