-- ===== src/Event/Select/Tests.antt =====
-- Runs with select, and the theorems at small sets of events.
use just_kit.Prelude.{
  ℕ, ◌≡◌, refl, true, false, List, [], ◌∷◌, Option, some, arith, ok, ◌>>=◌, deref, Returns, ◌==◌,
  ◌≤◌,
}
use just_kit.Event.{
  Mask, Events, Request, adds, dels, new, add, del, finish_add, finish_del, request, requests,
  Reaction, call_handler, fire_read, fire_write, fire,
}
use just_kit.Event.Promise.{Agrees}
use just_kit.Event.Select.{
  Select, FdSet, context_init, assign, context_add, context_del, is_set, in_neither, new_end,
  ready_at, last_registered, backend, scan, process,
}
use just_kit.Event.Select.Service.{serve_select-Agrees}
use just_kit.Event.Select.Sets.{select_view}
use just_kit.Event.Select.RoundTrip.{add-del}

-- What the tests compute with.
program : Unit {0}
unfolding new add del finish_add finish_del request requests call_handler fire_read fire_write fire
    context_init assign context_add context_del is_set in_neither new_end ready_at last_registered
    scan process
program = tt

abbrev reads_only : Mask
reads_only = record { revent = true; wevent = false }

abbrev sample_requests : List Request
sample_requests = adds 2 reads_only 5 70 ∷ (adds 6 reads_only 5 71 ∷ (dels 6 reads_only ∷ []))

abbrev quiet : Reaction
quiet handler fd payload = []

abbrev two_ready : Option (FdSet × FdSet)
two_ready = some (λ fd. fd == 2, λ fd. false)

-- The greatest descriptor stays 6 when 6 is deleted, and the result counts all those up to it.
stale_end :
    (deref (new true true 8 (context_init true))
      >>= requests backend sample_requests
      >>= process 9 two_ready quiet
      >>= λ (r : ℕ × Events Select). ok (r.1.ctx.nfds ∷ (r.0 ∷ [])))
    ≡ ok (7 ∷ (7 ∷ []))
unfolding program
stale_end = refl

serve_select-Agrees_example :
    Returns
      (λ r. Agrees (select_view 8) r.1 × (r.0 ≤ 8))
      (deref (new true true 8 (context_init true))
        >>= requests backend sample_requests
        >>= process 9 two_ready quiet)
serve_select-Agrees_example =
    serve_select-Agrees 8 9 quiet sample_requests two_ready (omega arith) (omega arith)
      ((λ z. omega (arith, z), tt), ((λ z. omega (arith, z), tt), (tt, tt)))
      (λ handler fd payload. tt)

-- No event is registered.
abbrev sample : Events Select
sample = record {
  max_events = 8;
  events = λ fd. record {
    event = record { revent = false; wevent = false };
    rev_handler = 0;
    wev_handler = 0;
    payload = 0;
  };
  ctx = record { rfds = λ fd. false; wfds = λ fd. false; nfds = 0 };
  calls = [];
}

sample-Agrees : Agrees (select_view 8) sample
sample-Agrees = record {
  size = refl;
  watches = λ fd. refl;
  handled = λ fd. record { reads = λ e. absurd (cc); writes = λ e. absurd (cc) };
  valid = record { small = omega arith; covers = λ fd h. absurd (cc) };
}

add-del_example :
    Returns
      (λ (a, r).
        (a.0 ≡ true)
        × (r.0 ≡ true)
        × Agrees (select_view 8) a.1
        × ((a.1.events 3).event ≡ reads_only)
        × Agrees (select_view 8) r.1
        × ((b : ℕ) → (select_view 8).interest r.1.ctx b ≡ (select_view 8).interest sample.ctx b))
      (add backend 3 reads_only 5 70 sample >>= λ a.
        del backend 3 reads_only a.1 >>= λ r. ok (a, r))
add-del_example =
    add-del 8 sample 3 reads_only 5 70 (omega arith) (omega arith) (λ z. omega (arith, z))
      sample-Agrees refl refl
