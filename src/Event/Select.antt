-- ===== src/Event/Select.antt =====
-- The backend that is select.
pub mod Sets
pub mod Service
pub mod RoundTrip
mod Tests
use just_kit.Prelude.{
  ℕ, zero, suc, ◌+◌, Bool, true, false, ◌||◌, Option, none, some, Run, ok, fault, out_of_fuel,
  ◌>>=◌, ltb, ◌==◌, if◌then◌else◌,
}
use just_kit.Event.{Mask, Node, Nodes, not, is_nevent, Backend, Events, Reaction, fire}

abbrev pub FdSet : Type 0
FdSet = ℕ → Bool

-- `jk_event_context`, with `max_fd + 1` for `max_fd`, which starts at -1.
pub record Select : Type 0 where
  pub rfds : FdSet
  pub wfds : FdSet
  pub nfds : ℕ

-- The size of an fd_set.
abbrev pub fd_setsize : ℕ
fd_setsize = 1024

-- `jk_event_context_init`
pub context_init : (malloc_works : Bool) → Option Select
context_init false = none
context_init true = some (record { rfds = λ fd. false; wfds = λ fd. false; nfds = 0 })

-- `if (event) FD_SET(fd, ...)` and `if (event) FD_CLR(fd, ...)`
abbrev pub write_bit : ℕ → Bool → FdSet → FdSet
write_bit fd value set b = if fd == b then value else set b

pub assign : Bool → ℕ → Bool → FdSet → Run FdSet
assign false fd value set = ok set
assign true fd value set = if ltb fd fd_setsize then ok (write_bit fd value set) else fault

-- `jk_event_context_add`
pub context_add : ℕ → Nodes → ℕ → Mask → Select → Run (Bool × Select)
context_add max_events nodes fd event ctx = do
  rfds ← assign event.revent fd true ctx.rfds
  wfds ← assign event.wevent fd true ctx.wfds
  ok (
    true,
    record { rfds = rfds; wfds = wfds; nfds = if ltb fd ctx.nfds then ctx.nfds else fd + 1 },
  )

-- The loop of `jk_event_context_del`, from the end: one more than where it stops.
pub last_registered : Nodes → ℕ → ℕ
last_registered nodes zero = 0
last_registered nodes (suc i) =
    let rest = last_registered nodes i in if is_nevent (nodes i).event then rest else suc i

-- `FD_ISSET(fd, ...)`
pub is_set : ℕ → FdSet → Run Bool
is_set fd set = if ltb fd fd_setsize then ok (set fd) else fault

-- `!FD_ISSET(fd, &ctx->rfds) && !FD_ISSET(fd, &ctx->wfds)`
pub in_neither : ℕ → FdSet → FdSet → Run Bool
in_neither fd rfds wfds =
    is_set fd rfds >>= λ r. if r then ok false else (is_set fd wfds >>= λ w. ok (not w))

-- The new `max_fd` of `jk_event_context_del`.
pub new_end : ℕ → Nodes → ℕ → FdSet → FdSet → ℕ → Run ℕ
new_end max_events nodes fd rfds wfds nfds =
    if fd + 1 == nfds
    then in_neither fd rfds wfds
      >>= (λ unused. ok (if unused then last_registered nodes max_events else nfds))
    else ok nfds

-- `jk_event_context_del`
pub context_del : ℕ → Nodes → ℕ → Mask → Select → Run (Bool × Select)
context_del max_events nodes fd event ctx = do
  rfds ← assign event.revent fd false ctx.rfds
  wfds ← assign event.wevent fd false ctx.wfds
  nfds ← new_end max_events nodes fd rfds wfds ctx.nfds
  ok (true, record { rfds = rfds; wfds = wfds; nfds = nfds })

abbrev pub backend : Backend Select
backend = record { context_add = context_add; context_del = context_del }

-- What the sets say of a descriptor, which are read only for the events of its node.
pub ready_at : ℕ → FdSet → FdSet → Node → Run Mask
ready_at i rfds wfds node =
    if ltb i fd_setsize || is_nevent node.event
    then ok (record { revent = rfds i; wevent = wfds i })
    else fault

-- The loop of `jk_event_context_process`, on fuel: handlers may move its end.
pub scan : ℕ → ℕ → FdSet → FdSet → Reaction → ℕ → Events Select → Run (ℕ × Events Select)
scan zero i rfds wfds react nevents ev = out_of_fuel
scan (suc fuel) i rfds wfds react nevents ev =
    let rest =
      ready_at i rfds wfds (ev.events i)
      >>= (λ ready. fire backend react i ready ev)
      >>= scan fuel (i + 1) rfds wfds react (nevents + 1) in
    if ltb i ev.ctx.nfds then rest else ok (nevents, ev)

-- `jk_event_context_process`, given the sets that `select` leaves, or that it does not return more
-- than 0.
pub process : ℕ → Option (FdSet × FdSet) → Reaction → Events Select → Run (ℕ × Events Select)
process fuel none react ev = ok (0, ev)
process fuel (some (rfds, wfds)) react ev = scan fuel 0 rfds wfds react 0 ev
