-- ===== src/Event/Epoll.antt =====
-- The backend that is epoll.
pub mod Service
mod Tests
use just_kit.Prelude.{ℕ, Bool, true, false, Option, none, some, Run, ok, if◌then◌else◌}
use just_kit.Event.{Mask, Nodes, nevent, join, without, is_nevent, Backend}

-- `EPOLL_CTL_ADD`, `EPOLL_CTL_MOD` and `EPOLL_CTL_DEL`
pub data Operation : Type 0 where
  operation_add operation_mod operation_del : Operation

-- The kernel, with states `K`: `epoll_ctl`, which returns 0 or -1, and the events that it watches.
pub record Kernel (K : Type 0) : Type 0 where
  pub epoll_ctl : Operation → ℕ → Mask → K → Bool × K
  pub watched : K → ℕ → Mask

-- `jk_event_context_init`, given whether `malloc` works twice and what `epoll_create` gives.
pub context_init : {K : Type 0} → (malloc_works events_work : Bool) → Option K → Option K
context_init false events_work k = none
context_init true false k = none
context_init true true k = k

module _ {K : Type 0} (kernel : Kernel K) where
  -- `jk_event_context_add`
  pub context_add : ℕ → Nodes → ℕ → Mask → K → Run (Bool × K)
  context_add max_events nodes fd event k = ok (
      kernel.epoll_ctl (if is_nevent (nodes fd).event then operation_add else operation_mod) fd
        (join event (nodes fd).event) k)

  -- `jk_event_context_del`
  pub context_del : ℕ → Nodes → ℕ → Mask → K → Run (Bool × K)
  context_del max_events nodes fd event k =
      let rest = without (nodes fd).event event in
      ok (kernel.epoll_ctl (if is_nevent rest then operation_del else operation_mod) fd rest k)

  abbrev pub backend : Backend K
  backend = record { context_add = context_add; context_del = context_del }
