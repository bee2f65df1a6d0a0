-- ===== src/Event.antt =====
-- jk_event.c and jk_event.h: the events that a program waits for, and the three backends that watch
-- them: epoll, kqueue and select.
-- A mask is its two bits, which are all that callers set; a handler is a number, and 0 is null.  What
-- the kernel does is a parameter.  A negative descriptor, which no function refuses, is not modelled.
pub mod Epoll
pub mod Kqueue
pub mod Select
pub mod Promise
pub mod Registry
pub mod Rounds
use just_kit.Prelude.{
  ℕ, zero, suc, Bool, true, false, ◌&&◌, ◌||◌, List, [], ◌∷◌, Option, none, some, length, Run, ok,
  fault, ◌>>=◌, ltb, ◌==◌, if◌then◌else◌,
}

-- `JK_EVENT_REVENT` and `JK_EVENT_WEVENT`
pub record Mask : Type 0 where
  pub revent : Bool
  pub wevent : Bool

abbrev pub not : Bool → Bool
not true = false
not false = true

-- `JK_EVENT_NEVENT`, `m | n` and `m & ~n`
abbrev pub nevent : Mask
nevent = record { revent = false; wevent = false }

abbrev pub join : Mask → Mask → Mask
join m n = record { revent = m.revent || n.revent; wevent = m.wevent || n.wevent }

abbrev pub without : Mask → Mask → Mask
without m n = record { revent = m.revent && not n.revent; wevent = m.wevent && not n.wevent }

abbrev pub is_nevent : Mask → Bool
is_nevent m = not (m.revent || m.wevent)

-- `jk_event_node_t`
pub record Node : Type 0 where
  pub event : Mask
  pub rev_handler : ℕ
  pub wev_handler : ℕ
  pub payload : ℕ

abbrev pub Nodes : Type 0
Nodes = ℕ → Node

-- `jk_event_t`, with the calls of handlers that were made, the latest first: handler, descriptor and
-- data.
pub record Events (C : Type 0) : Type 0 where
  pub max_events : ℕ
  pub events : Nodes
  pub ctx : C
  pub calls : List (ℕ × (ℕ × ℕ))

-- `jk_event_context_add` and `jk_event_context_del` of a backend: `false` is -1.
pub record Backend (C : Type 0) : Type 0 where
  pub context_add : (max_events : ℕ) → Nodes → (fd : ℕ) → Mask → C → Run (Bool × C)
  pub context_del : (max_events : ℕ) → Nodes → (fd : ℕ) → Mask → C → Run (Bool × C)

-- `calloc`, then what the backend made.
pub new : {C : Type 0} → (malloc_works calloc_works : Bool) → ℕ → Option C → Option (Events C)
new false calloc_works max_events context = none
new true false max_events context = none
new true true max_events none = none
new true true max_events (some ctx) = some (record {
  max_events = max_events;
  events = λ fd. record { event = nevent; rev_handler = 0; wev_handler = 0; payload = 0 };
  ctx = ctx;
  calls = [];
})

-- `&ev->events[fd]`, to read
abbrev pub node_at : {C : Type 0} → Events C → ℕ → Run Node
node_at ev fd = if ltb fd ev.max_events then ok (ev.events fd) else fault

abbrev pub put : Nodes → ℕ → Node → Nodes
put nodes fd node b = if fd == b then node else nodes b

-- What `jk_event_add` makes of a node.
abbrev pub registered : Node → Mask → ℕ → ℕ → Node
registered node event handler payload = record {
  event = join node.event event;
  rev_handler = if event.revent then handler else node.rev_handler;
  wev_handler = if event.wevent then handler else node.wev_handler;
  payload = payload;
}

pub finish_add : {C : Type 0} → ℕ → Mask → ℕ → ℕ → Events C → Bool × C → Bool × Events C
finish_add fd event handler payload ev (false, ctx) = (false, record ev { ctx = ctx })
finish_add fd event handler payload ev (true, ctx) = (
  true,
  record ev {
    ctx = ctx;
    events = put ev.events fd (registered (ev.events fd) event handler payload);
  },
)

-- `jk_event_add`: 0 and -1 are `true` and `false`.
pub add : {C : Type 0} → Backend C → ℕ → Mask → ℕ → ℕ → Events C → Run (Bool × Events C)
add b fd event handler payload ev =
    if ltb fd ev.max_events
    then b.context_add ev.max_events ev.events fd event ev.ctx
      >>= (λ r. ok (finish_add fd event handler payload ev r))
    else ok (false, ev)

pub finish_del : {C : Type 0} → ℕ → Mask → Events C → Bool × C → Bool × Events C
finish_del fd event ev (false, ctx) = (false, record ev { ctx = ctx })
finish_del fd event ev (true, ctx) = (
  true,
  record ev {
    ctx = ctx;
    events =
        put ev.events fd (record (ev.events fd) { event = without (ev.events fd).event event });
  },
)

-- `jk_event_del`
pub del : {C : Type 0} → Backend C → ℕ → Mask → Events C → Run (Bool × Events C)
del b fd event ev =
    if ltb fd ev.max_events
    then b.context_del ev.max_events ev.events fd event ev.ctx
      >>= (λ r. ok (finish_del fd event ev r))
    else ok (false, ev)

-- What a program asks for.
pub data Request : Type 0 where
  adds : (fd : ℕ) → Mask → (handler payload : ℕ) → Request
  dels : (fd : ℕ) → Mask → Request

pub request : {C : Type 0} → Backend C → Request → Events C → Run (Events C)
request b (adds fd event handler payload) ev = add b fd event handler payload ev >>= λ r. ok r.1
request b (dels fd event) ev = del b fd event ev >>= λ r. ok r.1

pub requests : {C : Type 0} → Backend C → List Request → Events C → Run (Events C)
requests b [] ev = ok ev
requests b (q ∷ qs) ev = request b q ev >>= requests b qs

-- What each handler asks for when it is called with a descriptor and its data.
abbrev pub Reaction : Type 0
Reaction = (handler fd payload : ℕ) → List Request

pub call_handler : {C : Type 0} → Backend C → Reaction → ℕ → ℕ → ℕ → Events C → Run (Events C)
call_handler b react zero fd payload ev = fault
call_handler b react (suc h) fd payload ev =
    requests b (react (suc h) fd payload) (record ev { calls = (suc h, (fd, payload)) ∷ ev.calls })

-- The first half of the body of the loops of `jk_event_context_process`: `rfired` is the result.
pub fire_read : {C : Type 0} → Backend C → Reaction → ℕ → Mask → Events C → Run (Bool × Events C)
fire_read b react fd ready ev = node_at ev fd >>= λ node.
    if ready.revent && node.event.revent
    then call_handler b react node.rev_handler fd node.payload ev >>= (λ ev'. ok (true, ev'))
    else ok (false, ev)

-- The other half, after what the handler did.
pub fire_write : {C : Type 0} → Backend C → Reaction → ℕ → Mask → Bool → Events C → Run (Events C)
fire_write b react fd ready rfired ev = node_at ev fd >>= λ node.
    if (ready.wevent && node.event.wevent)
      && (not rfired || not (node.rev_handler == node.wev_handler))
    then call_handler b react node.wev_handler fd node.payload ev
    else ok ev

pub fire : {C : Type 0} → Backend C → Reaction → ℕ → Mask → Events C → Run (Events C)
fire b react fd ready ev =
    fire_read b react fd ready ev >>= λ r. fire_write b react fd ready r.0 r.1

-- The loop over what the kernel reports, of epoll and kqueue.
pub dispatch : {C : Type 0} → Backend C → Reaction → List (ℕ × Mask) → Events C → Run (Events C)
dispatch b react [] ev = ok ev
dispatch b react ((fd, ready) ∷ rest) ev = fire b react fd ready ev >>= dispatch b react rest

-- `jk_event_context_process` of epoll: `none` is -1, from `epoll_wait`.
pub epoll_process :
    {C : Type 0}
    → Backend C
    → Reaction
    → Option (List (ℕ × Mask))
    → Events C
    → Run (Option ℕ × Events C)
epoll_process b react none ev = ok (none, ev)
epoll_process b react (some reports) ev =
    dispatch b react reports ev >>= λ ev'. ok (some (length reports), ev')

-- `jk_event_context_process` of kqueue, which returns 0 where `kevent` fails.  Each report is of one
-- filter, so that its mask has one bit.
pub kqueue_process :
    {C : Type 0} → Backend C → Reaction → Option (List (ℕ × Mask)) → Events C → Run (ℕ × Events C)
kqueue_process b react none ev = ok (0, ev)
kqueue_process b react (some reports) ev =
    dispatch b react reports ev >>= λ ev'. ok (length reports, ev')
