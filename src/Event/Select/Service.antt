-- ===== src/Event/Select/Service.antt =====
-- Waiting with select.
use mathlib.Core.Path.{subst}
use just_kit.Prelude.{
  ℕ, zero, suc, ◌+◌, ◌<◌, ◌≤◌, ◌≡◌, refl, sym, ap, ◌∙◌, Bool, true, false, ◌&&◌, ◌||◌, List, deref,
  arith, Option, none, some, ◌>>=◌, Returns, returns, Returns-bind, Returns-map, Returns-if,
  Bool-cases, inl, inr, ltb, ltb→lt, ◌==◌, ==_iff, if◌then◌else◌,
}
use just_kit.Event.{
  Mask, Nodes, not, join, without, is_nevent, Events, Request, requests, new, Reaction,
}
use just_kit.Event.Registry.{fire-Agrees, requests-Agrees, new-Agrees}
use just_kit.Event.Promise.{AnyMask, mask_ext, Changes, IsBackend, Agrees, AllReal}
use just_kit.Event.Select.{
  FdSet, Select, context_init, fd_setsize, context_add, context_del, last_registered, backend, scan,
  process,
}
use just_kit.Event.Select.Sets.{
  Bounds, select_view, Assigned, assign-Assigned, last_registered_small, last_registered_covers,
  new_end_lem, ready_at_lem, set_or, clear_and, still_set, or_mono,
}

module _ (max : ℕ) (few : max ≤ fd_setsize) where
  adds-Changes :
      (nodes : Nodes) (ctx : Select) (fd : ℕ) (event : Mask)
      → fd < max
      → ((a : ℕ) → (select_view max).interest ctx a ≡ (nodes a).event)
      → Bounds max ctx
      → Returns
          (Changes (select_view max) fd (join (nodes fd).event event) ctx)
          (context_add max nodes fd event ctx)
  unfolding context_add
  adds-Changes nodes ctx fd event within watches valid =
      Returns-bind (assign-Assigned event.revent fd true ctx.rfds (omega arith)) λ rfds r.
        Returns-bind (assign-Assigned event.wevent fd true ctx.wfds (omega arith)) λ wfds w.
          returns (record {
            works = λ e.
                mask_ext _ _ (r.self ∙ set_or event.revent _ _ (ap (λ m. m.revent) (watches fd)))
                  (w.self ∙ set_or event.wevent _ _ (ap (λ m. m.wevent) (watches fd)));
            fails = λ e. absurd (cc);
            others = λ b h. mask_ext _ _ (r.others b h) (w.others b h);
            valid = record {
              small = ground (arith, valid.small);
              covers = λ b h. elim (Bool-cases (fd == b)) [
                | inl same ↦ ground (arith, (==_iff fd b).0 same)
                | inr other ↦
                    let old : b < ctx.nfds = valid.covers b (
                      or_mono (rfds b) (wfds b) (ctx.rfds b) (ctx.wfds b)
                        (λ x. sym (r.others b other) ∙ x) (λ x. sym (w.others b other) ∙ x) h) in
                    ground (arith, old)
              ];
            };
          })

  -- Where `jk_event_context_del` moves `max_fd` to.
  moved-Bounds :
      (nodes : Nodes) (ctx : Select) (fd : ℕ) (event : Mask) (rfds wfds : FdSet)
      → ((a : ℕ) → (select_view max).interest ctx a ≡ (nodes a).event)
      → Bounds max ctx
      → Assigned event.revent fd false ctx.rfds rfds
      → Assigned event.wevent fd false ctx.wfds wfds
      → (moves : Bool) → (fd + 1 == ctx.nfds) && (not (rfds fd) && not (wfds fd)) ≡ moves
      → Bounds max (record {
        rfds = rfds;
        wfds = wfds;
        nfds = if moves then last_registered nodes max else ctx.nfds;
      })
  moved-Bounds nodes ctx fd event rfds wfds watches valid r w true e = record {
    small = last_registered_small nodes max;
    covers = λ b h.
        let old : ctx.rfds b || ctx.wfds b ≡ true =
          or_mono (rfds b) (wfds b) (ctx.rfds b) (ctx.wfds b)
            (still_set event.revent fd b ctx.rfds rfds r)
            (still_set event.wevent fd b ctx.wfds wfds w) h in
        let within : b < ctx.nfds = valid.covers b old in
        last_registered_covers nodes max b (omega (arith, within, valid.small))
          (subst (λ m. is_nevent m ≡ false) (watches b) (ap not old));
  }
  moved-Bounds nodes ctx fd event rfds wfds watches valid r w false e = record {
    small = valid.small;
    covers = λ b h. valid.covers b (
        or_mono (rfds b) (wfds b) (ctx.rfds b) (ctx.wfds b)
          (still_set event.revent fd b ctx.rfds rfds r)
          (still_set event.wevent fd b ctx.wfds wfds w) h);
  }

  dels-Changes :
      (nodes : Nodes) (ctx : Select) (fd : ℕ) (event : Mask)
      → fd < max
      → ((a : ℕ) → (select_view max).interest ctx a ≡ (nodes a).event)
      → Bounds max ctx
      → Returns
          (Changes (select_view max) fd (without (nodes fd).event event) ctx)
          (context_del max nodes fd event ctx)
  unfolding context_del
  dels-Changes nodes ctx fd event within watches valid =
      Returns-bind (assign-Assigned event.revent fd false ctx.rfds (omega arith)) λ rfds r.
        Returns-bind (assign-Assigned event.wevent fd false ctx.wfds (omega arith)) λ wfds w.
          rw (new_end_lem fd rfds wfds (omega arith) max nodes ctx.nfds) (
            returns (record {
              works = λ e.
                  mask_ext _ _
                    (r.self ∙ clear_and event.revent _ _ (ap (λ m. m.revent) (watches fd)))
                    (w.self ∙ clear_and event.wevent _ _ (ap (λ m. m.wevent) (watches fd)));
              fails = λ e. absurd (cc);
              others = λ b h. mask_ext _ _ (r.others b h) (w.others b h);
              valid = moved-Bounds nodes ctx fd event rfds wfds watches valid r w _ refl;
            }))

  pub backend-IsBackend : IsBackend (select_view max) backend
  backend-IsBackend = record {
    adds_event = λ nodes ctx fd event within allowed. adds-Changes nodes ctx fd event within;
    dels_event = λ nodes ctx fd event within allowed. dels-Changes nodes ctx fd event within;
  }

  -- The loop of `jk_event_context_process` ends: no handler moves `max_fd` beyond `max_events`.
  module _ (react : Reaction)
      (reals : (handler fd payload : ℕ) → AllReal AnyMask (react handler fd payload)) where
    scan-Agrees :
        (fuel i nevents : ℕ) (rfds wfds : FdSet) (ev : Events Select)
        → i ≤ max
        → max < i + fuel
        → Agrees (select_view max) ev
        → Returns
            (λ r.
              Agrees (select_view max) r.1
              × (r.1.ctx.nfds + nevents ≤ r.0 + i)
              × (r.0 + i ≤ max + nevents))
            (scan fuel i rfds wfds react nevents ev)
    unfolding scan
    scan-Agrees zero i nevents rfds wfds ev low enough v = absurd (omega (arith, low, enough))
    scan-Agrees (suc fuel) i nevents rfds wfds ev low enough v =
        Returns-if (ltb i ev.ctx.nfds)
          (λ more.
            let within = ltb→lt i ev.ctx.nfds more in
            rw (ready_at_lem i rfds wfds (omega (arith, within, v.valid.small)) (ev.events i)) (
              Returns-bind
                (fire-Agrees (select_view max) backend backend-IsBackend react reals i
                  (record { revent = rfds i; wevent = wfds i }) ev
                  (omega (arith, within, v.valid.small)) v)
                λ ev' k.
                  Returns-map
                    (scan-Agrees fuel (i + 1) (nevents + 1) rfds wfds ev'
                      (omega (arith, within, v.valid.small)) (omega (arith, enough)) k)
                    λ r d. (d.0, omega (arith, d.1), omega (arith, d.2))))
          (λ less. returns (v, ground (arith, less), omega (arith, low)))

    process-Agrees :
        (fuel : ℕ) (sets : Option (FdSet × FdSet)) (ev : Events Select)
        → max < fuel
        → Agrees (select_view max) ev
        → Returns (λ r. Agrees (select_view max) r.1 × (r.0 ≤ max)) (process fuel sets react ev)
    unfolding process
    process-Agrees fuel none ev enough v = returns (v, omega arith)
    process-Agrees fuel (some (rfds, wfds)) ev enough v =
        Returns-map (scan-Agrees fuel 0 0 rfds wfds ev (omega arith) (omega (arith, enough)) v)
          λ r d. (d.0, omega (arith, d.2))

-- From what `jk_event_new` makes with select, for at most 1024 descriptors, and after adding and
-- deleting any events with handlers that are not null, `jk_event_process` ends after no more than
-- `max_events` rounds, whatever `select` reports and whatever the handlers add and delete, which
-- have no null handlers either. Nothing faults, the two sets are exactly the events that the nodes
-- say, `max_fd` is no less than any descriptor in them, and the result is at most `max_events`.
pub serve_select-Agrees :
    (max fuel : ℕ) (react : Reaction) (qs : List Request) (sets : Option (FdSet × FdSet))
    → max ≤ fd_setsize
    → max < fuel
    → AllReal AnyMask qs
    → ((handler fd payload : ℕ) → AllReal AnyMask (react handler fd payload))
    → Returns
        (λ r. Agrees (select_view max) r.1 × (r.0 ≤ max))
        (deref (new true true max (context_init true))
          >>= requests backend qs
          >>= process fuel sets react)
unfolding context_init
serve_select-Agrees max fuel react qs sets few enough real reals =
    Returns-bind
      (Returns-bind
        (new-Agrees (select_view max) _ (λ fd. refl)
          (record { small = omega arith; covers = λ fd h. absurd (cc) }))
        λ ev v. requests-Agrees (select_view max) backend (backend-IsBackend max few) qs ev real v)
      λ ev v. process-Agrees max few react reals fuel sets ev enough v
