-- ===== src/Event/Select/Sets.antt =====
-- The two sets of select and the greatest descriptor.
use just_kit.Prelude.{
  ℕ, zero, suc, ◌+◌, ◌<◌, ◌≤◌, ◌≡◌, refl, sym, ap, ◌∙◌, Bool, true, false, ◌&&◌, ◌||◌, arith, ok,
  Returns, ltb, returns, Bool-cases, inl, inr, lt→ltb, ◌==◌, ==_iff, if◌then◌else◌,
}
use just_kit.Event.{Node, Nodes, not, is_nevent}
use just_kit.Event.Promise.{AnyMask, View}
use just_kit.Event.Select.{
  FdSet, Select, fd_setsize, assign, last_registered, is_set, in_neither, new_end, ready_at,
}

-- `max_fd` is no less than any descriptor in the sets, and less than `max_events`.
pub record Bounds (max : ℕ) (ctx : Select) : Type 0 where
  pub small : ctx.nfds ≤ max
  pub covers : (fd : ℕ) → ctx.rfds fd || ctx.wfds fd ≡ true → fd < ctx.nfds

abbrev pub select_view : ℕ → View Select
select_view max = record {
  max = max;
  interest = λ ctx fd. record { revent = ctx.rfds fd; wevent = ctx.wfds fd };
  Valid = Bounds max;
  Allows = AnyMask;
}

pub record Assigned (bit : Bool) (fd : ℕ) (value : Bool) (set set' : FdSet) : Type 0 where
  pub self : set' fd ≡ (if bit then value else set fd)
  pub others : (b : ℕ) → (fd == b) ≡ false → set' b ≡ set b

pub assign-Assigned :
    (bit : Bool) (fd : ℕ) (value : Bool) (set : FdSet)
    → fd < fd_setsize
    → Returns (Assigned bit fd value set) (assign bit fd value set)
unfolding assign
assign-Assigned false fd value set small = returns (record { self = refl; others = λ b h. refl })
assign-Assigned true fd value set small =
    let here : (fd == fd) ≡ true = (==_iff fd fd).1 refl in
    rw (lt→ltb fd fd_setsize small)
      (returns (record { self = rw here refl; others = λ b h. rw h refl }))

pub last_registered_small : (nodes : Nodes) (max : ℕ) → last_registered nodes max ≤ max
unfolding last_registered
last_registered_small nodes zero = omega arith
last_registered_small nodes (suc max) = ground (arith, last_registered_small nodes max)

pub last_registered_covers :
    (nodes : Nodes) (max fd : ℕ)
    → fd < max
    → is_nevent (nodes fd).event ≡ false
    → fd < last_registered nodes max
unfolding last_registered
last_registered_covers nodes zero fd within used = absurd (omega arith)
last_registered_covers nodes (suc max) fd within used =
    elim (Bool-cases (is_nevent (nodes max).event)) [
      | inl unused ↦
          rw unused (last_registered_covers nodes max fd (ground (arith, unused, used)) used)
      | inr last ↦ rw last within
    ]

pub set_or : (bit a b : Bool) → a ≡ b → (if bit then true else a) ≡ b || bit
set_or true true b e = rw (sym e) refl
set_or true false b e = rw (sym e) refl
set_or false true b e = rw (sym e) refl
set_or false false b e = rw (sym e) refl

pub clear_and : (bit a b : Bool) → a ≡ b → (if bit then false else a) ≡ b && not bit
clear_and true true b e = rw (sym e) refl
clear_and true false b e = rw (sym e) refl
clear_and false true b e = rw (sym e) refl
clear_and false false b e = rw (sym e) refl

pub was_set : (bit a : Bool) → (if bit then false else a) ≡ true → a ≡ true
was_set true a h = cc
was_set false a h = h

-- What is in a set after FD_CLR was in it before.
pub still_set :
    (bit : Bool) (fd b : ℕ) (set set' : FdSet)
    → Assigned bit fd false set set'
    → set' b ≡ true
    → set b ≡ true
still_set bit fd b set set' r h = elim (Bool-cases (fd == b)) [
  | inl same ↦
      let e = (==_iff fd b).0 same in
      ap set (sym e) ∙ was_set bit (set fd) (sym r.self ∙ ap set' e ∙ h)
  | inr other ↦ sym (r.others b other) ∙ h
]

pub or_mono :
    (a b c d : Bool) → (a ≡ true → c ≡ true) → (b ≡ true → d ≡ true) → a || b ≡ true → c || d ≡ true
or_mono true b c d f g h = rw (f refl) refl
or_mono false true true d f g h = refl
or_mono false true false d f g h = g refl
or_mono false false c d f g h = cc

module _ (fd : ℕ) (rfds wfds : FdSet) (small : fd < fd_setsize) where
  in_neither_lem : in_neither fd rfds wfds ≡ ok (not (rfds fd) && not (wfds fd))
  unfolding in_neither is_set
  in_neither_lem =
      let fits : ltb fd fd_setsize ≡ true = lt→ltb fd fd_setsize small in
      rw fits (elim (Bool-cases (rfds fd)) [ inl set ↦ rw set refl | inr unset ↦ rw unset refl ])

  -- Where the descriptor is in an fd_set.
  pub new_end_lem :
      (max_events : ℕ) (nodes : Nodes) (nfds : ℕ)
      → new_end max_events nodes fd rfds wfds nfds
        ≡ ok (
            if (fd + 1 == nfds) && (not (rfds fd) && not (wfds fd))
            then last_registered nodes max_events
            else nfds)
  unfolding new_end
  new_end_lem max_events nodes nfds = elim (Bool-cases (fd + 1 == nfds)) [
    | inl last ↦ rw last (rw in_neither_lem refl)
    | inr inner ↦ rw inner refl
  ]

  pub ready_at_lem :
      (node : Node)
      → ready_at fd rfds wfds node ≡ ok (record { revent = rfds fd; wevent = wfds fd })
  unfolding ready_at
  ready_at_lem node =
      let fits : ltb fd fd_setsize ≡ true = lt→ltb fd fd_setsize small in rw fits refl
