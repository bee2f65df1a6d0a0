-- ===== src/Event/Epoll/Tests.antt =====
-- Runs with epoll, and the theorem at one of them.
use just_kit.Prelude.{
  ℕ, ◌≡◌, refl, true, false, List, [], ◌∷◌, some, arith, ok, ◌>>=◌, deref, Returns, ◌==◌, ==_iff,
  if◌then◌else◌,
}
use just_kit.Event.{
  Mask, nevent, Events, adds, dels, new, add, del, finish_add, finish_del, request, requests,
  Reaction, call_handler, fire_read, fire_write, fire, dispatch, epoll_process,
}
use just_kit.Event.Promise.{AnyMask, Agrees, AllReal}
use just_kit.Event.Epoll.{Kernel, context_add, context_del, backend}
use just_kit.Event.Epoll.Service.{view_of, IsKernel, left_by, process, serve-Agrees}
use just_kit.Event.Rounds.{Round, asks, waits, step, run}

-- What the tests compute with.
program : Unit {0}
unfolding new add del finish_add finish_del request requests call_handler fire_read fire_write fire
    dispatch epoll_process context_add context_del step run
program = tt

abbrev reads_only : Mask
reads_only = record { revent = true; wevent = false }

abbrev both : Mask
both = record { revent = true; wevent = true }

-- A kernel in which everything works.
abbrev sample_kernel : Kernel (ℕ → Mask)
sample_kernel = record {
  epoll_ctl = λ operation fd m k. (true, λ b. if fd == b then left_by operation m else k b);
  watched = λ k fd. k fd;
}

sample_kernel-IsKernel : IsKernel sample_kernel
sample_kernel-IsKernel operation fd m k =
    let here : (fd == fd) ≡ true = (==_iff fd fd).1 refl in
    record {
      works = λ e. rw here refl;
      fails = λ e. absurd (cc);
      others = λ b h. rw h refl;
      valid = tt;
    }

-- Handler 5 stops waiting for input when it is called.
abbrev sample_reaction : Reaction
sample_reaction handler fd payload = if handler == 5 then dels fd reads_only ∷ [] else []

sample_reaction-AllReal :
    (handler fd payload : ℕ) → AllReal AnyMask (sample_reaction handler fd payload)
sample_reaction-AllReal handler fd payload = ground arith

abbrev sample_rounds : List Round
sample_rounds = asks (adds 3 both 5 70) ∷ (waits (some ((3, both) ∷ ((3, both) ∷ []))) ∷ [])

-- One handler of both events is called once for a report of both; the second report is of output
-- only, since the handler has deleted the other event.
once_a_report :
    (deref (new true true 8 (some (λ fd. nevent)))
      >>= run (backend sample_kernel) (process sample_kernel) sample_reaction sample_rounds
      >>= λ (ev : Events (ℕ → Mask)). ok ev.calls)
    ≡ ok ((5, (3, 70)) ∷ ((5, (3, 70)) ∷ []))
unfolding program
once_a_report = refl

serve-Agrees_example : Returns (Agrees (view_of sample_kernel 8)) (
    deref (new true true 8 (some (λ fd. nevent)))
    >>= run (backend sample_kernel) (process sample_kernel) sample_reaction sample_rounds)
serve-Agrees_example =
    serve-Agrees sample_kernel 8 (λ fd. nevent) sample_reaction sample_rounds sample_kernel-IsKernel
      (λ fd. refl) sample_reaction-AllReal
      ((λ z. omega (arith, z), tt), ((omega arith, (omega arith, tt)), tt))
