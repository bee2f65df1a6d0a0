-- ===== src/Event/Epoll/Service.antt =====
-- A program that waits with epoll.
use just_kit.Prelude.{
  ℕ, ◌≡◌, refl, sym, ◌∙◌, ◌||◌, Bool, true, false, List, Option, none, some, ok, ◌>>=◌, deref,
  Returns, returns, Returns-bind, if◌then◌else◌,
}
use just_kit.Event.{
  not, Mask, nevent, join, without, is_nevent, Events, Reaction, epoll_process, new,
}
use just_kit.Event.Registry.{dispatch-Agrees, new-Agrees}
use just_kit.Event.Promise.{AnyMask, mask_ext, View, Changes, IsBackend, Agrees, AllReal, Within}
use just_kit.Event.Rounds.{Round, reported, AllRounds, Process, run, run-Agrees}
use just_kit.Event.Epoll.{
  Operation, operation_add, operation_mod, operation_del, Kernel, context_add, context_del, backend,
}

-- The events that an operation leaves a descriptor with.
abbrev pub left_by : Operation → Mask → Mask
left_by operation_add m = m
left_by operation_mod m = m
left_by operation_del m = nevent

abbrev pub view_of : {K : Type 0} → Kernel K → ℕ → View K
view_of kernel max = record {
  max = max;
  interest = kernel.watched;
  Valid = λ k. Unit;
  Allows = AnyMask;
}

-- `epoll_ctl` of one descriptor does not touch the others, and one that fails touches none.
abbrev pub IsKernel : {K : Type 0} → Kernel K → Type 0
IsKernel {K} kernel =
    (operation : Operation) (fd : ℕ) (m : Mask) (k : K)
    → Changes (view_of kernel 0) fd (left_by operation m) k (kernel.epoll_ctl operation fd m k)

or_comm : (a b : Bool) → a || b ≡ b || a
or_comm true true = refl
or_comm true false = refl
or_comm false true = refl
or_comm false false = refl

join_comm : (m n : Mask) → join m n ≡ join n m
join_comm m n = rw (or_comm m.revent n.revent) (rw (or_comm m.wevent n.wevent) refl)

left_by_add :
    (unused : Bool) (m : Mask) → left_by (if unused then operation_add else operation_mod) m ≡ m
left_by_add true m = refl
left_by_add false m = refl

mask_parts : (a b : Bool) → not (a || b) ≡ true → (a ≡ false) × (b ≡ false)
mask_parts false false h = (refl, refl)
mask_parts true b h = cc
mask_parts false true h = cc

left_by_del :
    (m : Mask) (unused : Bool)
    → is_nevent m ≡ unused
    → left_by (if unused then operation_del else operation_mod) m ≡ m
left_by_del m true h =
    let (a, b) = mask_parts m.revent m.wevent h in mask_ext nevent m (sym a) (sym b)
left_by_del m false h = refl

abbrev pub process : {K : Type 0} → Kernel K → Process K
process kernel react reports ev = epoll_process (backend kernel) react reports ev >>= λ r. ok r.1

module _ {K : Type 0} (kernel : Kernel K) (law : IsKernel kernel) (max : ℕ) where
  changed :
      (operation : Operation) (fd : ℕ) (sent wanted : Mask) (k : K)
      → left_by operation sent ≡ wanted
      → Returns
          (Changes (view_of kernel max) fd wanted k)
          (ok (kernel.epoll_ctl operation fd sent k))
  changed operation fd sent wanted k e =
      let u = law operation fd sent k in
      returns
        (record { works = λ w. u.works w ∙ e; fails = u.fails; others = u.others; valid = tt })

  backend-IsBackend : IsBackend (view_of kernel max) (backend kernel)
  unfolding context_add context_del
  backend-IsBackend = record {
    adds_event = λ nodes c fd event within allowed watches valid.
        changed (if is_nevent (nodes fd).event then operation_add else operation_mod) fd
          (join event (nodes fd).event) (join (nodes fd).event event) c
          (left_by_add (is_nevent (nodes fd).event) (join event (nodes fd).event)
            ∙ join_comm event (nodes fd).event);
    dels_event = λ nodes c fd event within allowed watches valid.
        let rest = without (nodes fd).event event in
        changed (if is_nevent rest then operation_del else operation_mod) fd rest rest c
          (left_by_del rest (is_nevent rest) refl);
  }

  module _ (react : Reaction)
      (reals : (handler fd payload : ℕ) → AllReal AnyMask (react handler fd payload)) where
    epoll_process-Agrees :
        (reports : Option (List (ℕ × Mask))) (ev : Events K)
        → Within max (reported reports)
        → Agrees (view_of kernel max) ev
        → Returns
            (λ r. Agrees (view_of kernel max) r.1)
            (epoll_process (backend kernel) react reports ev)
    unfolding epoll_process
    epoll_process-Agrees none ev within v = returns v
    epoll_process-Agrees (some reports) ev within v =
        Returns-bind
          (dispatch-Agrees (view_of kernel max) (backend kernel) backend-IsBackend react reals
            reports ev within v)
          λ ev' k. returns k

    process-Agrees :
        (reports : Option (List (ℕ × Mask))) (ev : Events K)
        → Within max (reported reports)
        → Agrees (view_of kernel max) ev
        → Returns (Agrees (view_of kernel max)) (process kernel react reports ev)
    process-Agrees reports ev within v =
        Returns-bind (epoll_process-Agrees reports ev within v) λ r k. returns k

-- From what `jk_event_new` makes with epoll, where the kernel watches nothing yet, where
-- `epoll_ctl` of a descriptor touches no other one and none if it fails, where no handler is null
-- and the kernel reports descriptors below `max_events`, no sequence of adding, deleting and
-- waiting faults, whatever the handlers that are called add and delete. In the end the kernel
-- watches exactly the events that the nodes say, and every event of a node has a handler.
pub serve-Agrees :
    {K : Type 0} (kernel : Kernel K) (max : ℕ) (k : K) (react : Reaction) (rounds : List Round)
    → IsKernel kernel
    → ((fd : ℕ) → kernel.watched k fd ≡ nevent)
    → ((handler fd payload : ℕ) → AllReal AnyMask (react handler fd payload))
    → AllRounds AnyMask max rounds
    → Returns
        (Agrees (view_of kernel max))
        (deref (new true true max (some k)) >>= run (backend kernel) (process kernel) react rounds)
serve-Agrees kernel max k react rounds law nothing reals all =
    Returns-bind (new-Agrees (view_of kernel max) k nothing tt) λ ev v.
      run-Agrees (backend kernel) (process kernel) (view_of kernel max)
        (backend-IsBackend kernel law max) react (process-Agrees kernel law max react reals) rounds
        ev all v
