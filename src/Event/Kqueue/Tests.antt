-- ===== src/Event/Kqueue/Tests.antt =====
-- A run with kqueue in which half of a change is made.
use just_kit.Prelude.{
  ℕ, arith, List, Returns, Bool-cases, inl, inr, ◌==◌, ==_iff, if◌then◌else◌, ◌≡◌, refl, Bool, true,
  false, [], ◌∷◌, some, ok, ◌>>=◌, deref,
}
use just_kit.Event.{
  nevent, join, without, Reaction, Mask, Events, adds, dels, new, add, del, finish_add, finish_del,
  request, requests,
}
use just_kit.Event.Promise.{Agrees, AllReal}
use just_kit.Event.Rounds.{Round, asks, waits, run}
use just_kit.Event.Kqueue.Service.{
  IsSingle, bit_of, view_of, IsKernel, process, serve_kqueue-Agrees,
}
use just_kit.Event.Kqueue.{
  Kernel, Filter, filter_read, filter_write, change, change_write, context_add, context_del,
  backend,
}

-- A kernel whose state is whether it watches for input of the one descriptor, and which refuses to
-- delete the filter for output.
abbrev refused : Filter → Bool × Bool
refused filter_read = (true, false)
refused filter_write = (false, false)

abbrev sample_kernel : Kernel Bool
sample_kernel = record {
  kevent_add = λ fd filter k. (true, true);
  kevent_delete = λ fd filter k. refused filter;
  watched = λ k fd. record { revent = k; wevent = false };
}

abbrev both : Mask
both = record { revent = true; wevent = true }

-- The deletion fails and changes no node, but the kernel no longer watches for input.
half_deleted :
    (deref (new true true 8 (some false))
      >>= requests (backend sample_kernel) (adds 3 both 5 70 ∷ (dels 3 both ∷ []))
      >>= λ (ev : Events Bool). ok ((ev.events 3).event.revent ∷ (ev.ctx ∷ [])))
    ≡ ok (true ∷ (false ∷ []))
unfolding new add del finish_add finish_del request requests change change_write context_add
    context_del
half_deleted = refl

-- A kernel that watches for all that it is asked for.
abbrev working_kernel : Kernel (ℕ → Mask)
working_kernel = record {
  kevent_add = λ fd filter k. (true, λ b. if fd == b then join (k fd) (bit_of filter) else k b);
  kevent_delete =
      λ fd filter k. (true, λ b. if fd == b then without (k fd) (bit_of filter) else k b);
  watched = λ k fd. k fd;
}

working_kernel-IsKernel : IsKernel working_kernel
working_kernel-IsKernel = record {
  adds_filter = λ fd filter k.
      let here : (fd == fd) ≡ true = (==_iff fd fd).1 refl in
      record {
        works = λ e. rw here refl;
        fails = λ e. absurd (cc);
        others = λ b h. rw h refl;
        valid = tt;
      };
  dels_filter = λ fd filter k.
      let here : (fd == fd) ≡ true = (==_iff fd fd).1 refl in
      record {
        works = λ e. rw here refl;
        fails = λ e. absurd (cc);
        others = λ b h. rw h refl;
        valid = tt;
      };
}

-- Handler 5 stops waiting for input when it is called.
abbrev stops : Reaction
stops handler fd payload = if handler == 5 then dels fd (bit_of filter_read) ∷ [] else []

stops-AllReal : (handler fd payload : ℕ) → AllReal IsSingle (stops handler fd payload)
stops-AllReal handler fd payload = elim (Bool-cases (handler == 5)) [
  | inl same ↦ rw same (refl, tt)
  | inr other ↦ rw other tt
]

abbrev rounds : List Round
rounds = asks (adds 3 (bit_of filter_read) 5 70) ∷ waits (some ((3, bit_of filter_read) ∷ [])) ∷ []

serve_kqueue-Agrees_example : Returns (Agrees (view_of working_kernel 8)) (
    deref (new true true 8 (some (λ fd. nevent)))
    >>= run (backend working_kernel) (process working_kernel) stops rounds)
serve_kqueue-Agrees_example =
    serve_kqueue-Agrees working_kernel 8 (λ fd. nevent) stops rounds working_kernel-IsKernel
      (λ fd. refl) stops-AllReal ((λ z. omega (arith, z), refl), ((omega arith, tt), tt))
