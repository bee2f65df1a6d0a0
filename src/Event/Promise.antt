-- ===== src/Event/Promise.antt =====
-- What a backend promises, and what a set of events keeps.
use just_kit.Prelude.{
  ℕ, ◌<◌, ◌≡◌, ◌≢◌, refl, ap, ◌∙◌, Bool, true, false, ◌&&◌, List, [], ◌∷◌, arith, Bool-cases, inl,
  inr, ◌==◌, Returns,
}
use just_kit.Event.{
  Mask, join, without, Node, Nodes, Events, Backend, registered, Request, adds, dels,
}

-- What the contexts of a backend watch, those that it makes for `max` descriptors, and the events that
-- may be added and deleted at once.
pub record View (C : Type 0) : Type 1 where
  pub max : ℕ
  pub interest : C → ℕ → Mask
  pub Valid : C → Type 0
  pub Allows : Mask → Type 0

-- A context now watches `wanted` at `fd` if the call worked, and what it watched else.
pub record Changes {C : Type 0} (view : View C) (fd : ℕ) (wanted : Mask) (c : C) (r : Bool × C)
    : Type 0 where
  pub works : r.0 ≡ true → view.interest r.1 fd ≡ wanted
  pub fails : r.0 ≡ false → view.interest r.1 fd ≡ view.interest c fd
  pub others : (b : ℕ) → (fd == b) ≡ false → view.interest r.1 b ≡ view.interest c b
  pub valid : view.Valid r.1

-- What a backend promises of the events that its contexts watch.
pub record IsBackend {C : Type 0} (view : View C) (b : Backend C) : Type 0 where
  pub adds_event :
      (nodes : Nodes) (c : C) (fd : ℕ) (event : Mask)
      → fd < view.max
      → view.Allows event
      → ((a : ℕ) → view.interest c a ≡ (nodes a).event)
      → view.Valid c
      → Returns
          (Changes view fd (join (nodes fd).event event) c)
          (b.context_add view.max nodes fd event c)
  pub dels_event :
      (nodes : Nodes) (c : C) (fd : ℕ) (event : Mask)
      → fd < view.max
      → view.Allows event
      → ((a : ℕ) → view.interest c a ≡ (nodes a).event)
      → view.Valid c
      → Returns
          (Changes view fd (without (nodes fd).event event) c)
          (b.context_del view.max nodes fd event c)

-- A node whose handlers can be called.
pub record HasHandlers (node : Node) : Type 0 where
  pub reads : node.event.revent ≡ true → node.rev_handler ≢ 0
  pub writes : node.event.wevent ≡ true → node.wev_handler ≢ 0

-- The context watches exactly what the nodes say, and every event of a node has a handler.
pub record Agrees {C : Type 0} (view : View C) (ev : Events C) : Type 0 where
  pub size : ev.max_events ≡ view.max
  pub watches : (fd : ℕ) → view.interest ev.ctx fd ≡ (ev.events fd).event
  pub handled : (fd : ℕ) → HasHandlers (ev.events fd)
  pub valid : view.Valid ev.ctx

abbrev pub AnyMask : Mask → Type 0
AnyMask m = Unit

-- A request of events that are allowed, whose handler is not null.
abbrev pub Real : (Mask → Type 0) → Request → Type 0
Real allows (adds fd event handler payload) = (handler ≢ 0) × allows event
Real allows (dels fd event) = allows event

abbrev pub AllReal : (Mask → Type 0) → List Request → Type 0
AllReal allows [] = Unit
AllReal allows (q ∷ qs) = Real allows q × AllReal allows qs

-- The descriptors that the kernel reports are among those that it was given.
abbrev pub Within : ℕ → List (ℕ × Mask) → Type 0
Within max [] = Unit
Within max ((fd, ready) ∷ rest) = (fd < max) × Within max rest

pub of_bits : Bool → Bool → Mask
of_bits r w = record { revent = r; wevent = w }

pub mask_ext : (m n : Mask) → m.revent ≡ n.revent → m.wevent ≡ n.wevent → m ≡ n
unfolding of_bits
mask_ext m n r w = ap (λ x. of_bits x m.wevent) r ∙ ap (of_bits n.revent) w

pub second : (a b c : Bool) → (a && b) && c ≡ true → b ≡ true
second true true c h = refl
second true false c h = h
second false b c h = cc

pub registered-HasHandlers :
    (node : Node) (event : Mask) (handler payload : ℕ)
    → handler ≢ 0
    → HasHandlers node
    → HasHandlers (registered node event handler payload)
registered-HasHandlers node event handler payload real h = record {
  reads = λ e. elim (Bool-cases event.revent) [
    | inl set ↦ rw set real
    | inr unset ↦ rw unset (h.reads (grind arith))
  ];
  writes = λ e. elim (Bool-cases event.wevent) [
    | inl set ↦ rw set real
    | inr unset ↦ rw unset (h.writes (grind arith))
  ];
}

pub without-HasHandlers :
    (node : Node) (event : Mask)
    → HasHandlers node
    → HasHandlers (record node { event = without node.event event })
without-HasHandlers node event h = record {
  reads = λ e. h.reads (grind arith);
  writes = λ e. h.writes (grind arith);
}
