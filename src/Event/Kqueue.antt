-- ===== src/Event/Kqueue.antt =====
-- The backend that is kqueue.
pub mod Service
mod Tests
use just_kit.Prelude.{ℕ, Bool, true, false, Option, none, some, Run, ok, if◌then◌else◌}
use just_kit.Event.{Mask, Nodes, Backend}

-- `EVFILT_READ` and `EVFILT_WRITE`
pub data Filter : Type 0 where
  filter_read filter_write : Filter

-- The kernel, with states `K`: `kevent` with one change, that adds or deletes a filter, and the events that
-- it watches.
pub record Kernel (K : Type 0) : Type 0 where
  pub kevent_add : ℕ → Filter → K → Bool × K
  pub kevent_delete : ℕ → Filter → K → Bool × K
  pub watched : K → ℕ → Mask

-- `jk_event_context_init`, given whether `malloc` works twice and what `kqueue` gives.
pub context_init : {K : Type 0} → (malloc_works events_work : Bool) → Option K → Option K
context_init false events_work k = none
context_init true false k = none
context_init true true k = k

-- The two tests of `jk_event_context_add` and `jk_event_context_del`, each given its call of `kevent`.
pub change_write : {K : Type 0} → (K → Bool × K) → Bool → Bool × K → Bool × K
change_write write event (false, k) = (false, k)
change_write write event (true, k) = if event then write k else (true, k)

pub change : {K : Type 0} → (read write : K → Bool × K) → Mask → K → Bool × K
change read write event k =
    change_write write event.wevent (if event.revent then read k else (true, k))

module _ {K : Type 0} (kernel : Kernel K) where
  pub context_add : ℕ → Nodes → ℕ → Mask → K → Run (Bool × K)
  context_add max_events nodes fd event k =
      ok (change (kernel.kevent_add fd filter_read) (kernel.kevent_add fd filter_write) event k)

  pub context_del : ℕ → Nodes → ℕ → Mask → K → Run (Bool × K)
  context_del max_events nodes fd event k =
      ok (
        change (kernel.kevent_delete fd filter_read) (kernel.kevent_delete fd filter_write) event k)

  abbrev pub backend : Backend K
  backend = record { context_add = context_add; context_del = context_del }
