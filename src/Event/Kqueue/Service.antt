-- ===== src/Event/Kqueue/Service.antt =====
-- A program that waits with kqueue.
use mathlib.Core.Path.{subst}
use just_kit.Prelude.{
  ℕ, ◌≡◌, refl, sym, ◌||◌, ◌&&◌, Bool, true, false, List, Option, none, some, ok, ◌>>=◌, deref,
  Returns, returns, Returns-bind,
}
use just_kit.Event.{Mask, nevent, join, without, Events, Reaction, kqueue_process, new}
use just_kit.Event.Registry.{dispatch-Agrees, new-Agrees}
use just_kit.Event.Promise.{mask_ext, View, Changes, IsBackend, Agrees, AllReal, Within}
use just_kit.Event.Rounds.{Round, reported, AllRounds, Process, run, run-Agrees}
use just_kit.Event.Kqueue.{
  Filter, filter_read, filter_write, Kernel, change_write, change, context_add, context_del,
  backend,
}

-- One of the two events, or none.
abbrev pub IsSingle : Mask → Type 0
IsSingle m = m.revent && m.wevent ≡ false

abbrev pub bits : Bool → Bool → Mask
bits r w = record { revent = r; wevent = w }

abbrev pub bit_of : Filter → Mask
bit_of filter_read = bits true false
bit_of filter_write = bits false true

abbrev pub view_of : {K : Type 0} → Kernel K → ℕ → View K
view_of kernel max = record {
  max = max;
  interest = kernel.watched;
  Valid = λ k. Unit;
  Allows = IsSingle;
}

-- `kevent` with one change of a descriptor does not touch the others, and one that fails touches none.
pub record IsKernel {K : Type 0} (kernel : Kernel K) : Type 0 where
  pub adds_filter :
      (fd : ℕ) (filter : Filter) (k : K)
      → Changes
          (view_of kernel 0)
          fd
          (join (kernel.watched k fd) (bit_of filter))
          k
          (kernel.kevent_add fd filter k)
  pub dels_filter :
      (fd : ℕ) (filter : Filter) (k : K)
      → Changes
          (view_of kernel 0)
          fd
          (without (kernel.watched k fd) (bit_of filter))
          k
          (kernel.kevent_delete fd filter k)

abbrev pub process : {K : Type 0} → Kernel K → Process K
process kernel react reports ev = kqueue_process (backend kernel) react reports ev >>= λ r. ok r.1

change_write-none :
    {K : Type 0} (write : K → Bool × K) (r : Bool × K) → change_write write false r ≡ r
unfolding change_write
change_write-none write (true, k) = refl
change_write-none write (false, k) = refl

or_false : (b : Bool) → b || false ≡ b
or_false true = refl
or_false false = refl

and_true : (b : Bool) → b && true ≡ b
and_true true = refl
and_true false = refl

join-none : (m : Mask) → join m nevent ≡ m
join-none m = mask_ext _ _ (or_false m.revent) (or_false m.wevent)

without-none : (m : Mask) → without m nevent ≡ m
without-none m = mask_ext _ _ (and_true m.revent) (and_true m.wevent)

module _ {K : Type 0} (kernel : Kernel K) (max fd : ℕ) (op : Mask → Mask → Mask)
    (none_lem : (m : Mask) → op m nevent ≡ m) (call : Filter → K → Bool × K)
    (changes : (filter : Filter) (k : K)
      → Changes
          (view_of kernel 0)
          fd
          (op (kernel.watched k fd) (bit_of filter))
          k
          (call filter k)) where
  -- A change of one event at most.
  change-Changes :
      (r w : Bool) (k : K)
      → r && w ≡ false
      → Changes
          (view_of kernel max)
          fd
          (op (kernel.watched k fd) (bits r w))
          k
          (change (call filter_read) (call filter_write) (bits r w) k)
  unfolding change change_write
  change-Changes true true k h = absurd (cc)
  change-Changes true false k h =
      let u = changes filter_read k in
      rw (change_write-none (call filter_write) (call filter_read k))
        (record { works = u.works; fails = u.fails; others = u.others; valid = tt })
  change-Changes false true k h =
      let u = changes filter_write k in
      record { works = u.works; fails = u.fails; others = u.others; valid = tt }
  change-Changes false false k h = record {
    works = λ e. sym (none_lem (kernel.watched k fd));
    fails = λ e. refl;
    others = λ b e. refl;
    valid = tt;
  }

module _ {K : Type 0} (kernel : Kernel K) (law : IsKernel kernel) (max : ℕ) where
  backend-IsBackend : IsBackend (view_of kernel max) (backend kernel)
  unfolding context_add context_del
  backend-IsBackend = record {
    adds_event = λ nodes c fd event within single watches valid. returns (
        subst
          (λ m.
            Changes (view_of kernel max) fd (join m event) c (
              change (kernel.kevent_add fd filter_read) (kernel.kevent_add fd filter_write) event
                c))
          (watches fd)
          (change-Changes kernel max fd join join-none (kernel.kevent_add fd) (law.adds_filter fd)
            event.revent event.wevent c single));
    dels_event = λ nodes c fd event within single watches valid. returns (
        subst
          (λ m. Changes (view_of kernel max) fd (without m event) c (
            change (kernel.kevent_delete fd filter_read) (kernel.kevent_delete fd filter_write)
              event c))
          (watches fd)
          (change-Changes kernel max fd without without-none (kernel.kevent_delete fd)
            (law.dels_filter fd) event.revent event.wevent c single));
  }

  module _ (react : Reaction)
      (reals : (handler fd payload : ℕ) → AllReal IsSingle (react handler fd payload)) where
    kqueue_process-Agrees :
        (reports : Option (List (ℕ × Mask))) (ev : Events K)
        → Within max (reported reports)
        → Agrees (view_of kernel max) ev
        → Returns
            (λ r. Agrees (view_of kernel max) r.1)
            (kqueue_process (backend kernel) react reports ev)
    unfolding kqueue_process
    kqueue_process-Agrees none ev within v = returns v
    kqueue_process-Agrees (some reports) ev within v =
        Returns-bind
          (dispatch-Agrees (view_of kernel max) (backend kernel) backend-IsBackend react reals
            reports ev within v)
          λ ev' k. returns k

    process-Agrees :
        (reports : Option (List (ℕ × Mask))) (ev : Events K)
        → Within max (reported reports)
        → Agrees (view_of kernel max) ev
        → Returns (Agrees (view_of kernel max)) (process kernel react reports ev)
    process-Agrees reports ev within v =
        Returns-bind (kqueue_process-Agrees reports ev within v) λ r k. returns k

-- From what `jk_event_new` makes with kqueue, where the kernel watches nothing yet, where `kevent`
-- with one change of a descriptor touches no other one and none if it fails, where no handler is
-- null and the kernel reports descriptors below `max_events`, no sequence of waiting and of adding
-- and deleting, by the program or by handlers, one event at a time, faults. In the end the kernel
-- watches exactly the events that the nodes say, and every event of a node has a handler.
pub serve_kqueue-Agrees :
    {K : Type 0} (kernel : Kernel K) (max : ℕ) (k : K) (react : Reaction) (rounds : List Round)
    → IsKernel kernel
    → ((fd : ℕ) → kernel.watched k fd ≡ nevent)
    → ((handler fd payload : ℕ) → AllReal IsSingle (react handler fd payload))
    → AllRounds IsSingle max rounds
    → Returns
        (Agrees (view_of kernel max))
        (deref (new true true max (some k)) >>= run (backend kernel) (process kernel) react rounds)
serve_kqueue-Agrees kernel max k react rounds law nothing reals all =
    Returns-bind (new-Agrees (view_of kernel max) k nothing tt) λ ev v.
      run-Agrees (backend kernel) (process kernel) (view_of kernel max)
        (backend-IsBackend kernel law max) react (process-Agrees kernel law max react reals) rounds
        ev all v
