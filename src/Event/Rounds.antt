-- ===== src/Event/Rounds.antt =====
-- A program that adds and deletes events and waits for them, with any backend that keeps its promise.
use just_kit.Prelude.{
  ℕ, List, [], ◌∷◌, Option, none, some, Run, ok, ◌>>=◌, Returns, returns, Returns-bind,
}
use just_kit.Event.{Mask, Events, Backend, Request, request, Reaction}
use just_kit.Event.Registry.{request-Agrees}
use just_kit.Event.Promise.{View, IsBackend, Agrees, Real, Within}

-- What a program does: it adds or deletes an event, or it waits.
pub data Round : Type 0 where
  asks : Request → Round
  waits : Option (List (ℕ × Mask)) → Round

abbrev pub reported : Option (List (ℕ × Mask)) → List (ℕ × Mask)
reported none = []
reported (some reports) = reports

abbrev pub IsRound : (Mask → Type 0) → ℕ → Round → Type 0
IsRound allows max (asks q) = Real allows q
IsRound allows max (waits reports) = Within max (reported reports)

abbrev pub AllRounds : (Mask → Type 0) → ℕ → List Round → Type 0
AllRounds allows max [] = Unit
AllRounds allows max (round ∷ rounds) = IsRound allows max round × AllRounds allows max rounds

-- What waiting does, given the handlers and what the kernel reports.
abbrev pub Process : Type 0 → Type 0
Process C = Reaction → Option (List (ℕ × Mask)) → Events C → Run (Events C)

module _ {C : Type 0} (b : Backend C) (process : Process C) where
  unfoldable pub step : Reaction → Round → Events C → Run (Events C)
  step react (asks q) ev = request b q ev
  step react (waits reports) ev = process react reports ev

  unfoldable pub run : Reaction → List Round → Events C → Run (Events C)
  run react [] ev = ok ev
  run react (round ∷ rounds) ev = step react round ev >>= run react rounds

  module _ (view : View C) (law : IsBackend view b) (react : Reaction)
      (process-Agrees : (reports : Option (List (ℕ × Mask))) (ev : Events C)
        → Within view.max (reported reports)
        → Agrees view ev
        → Returns (Agrees view) (process react reports ev)) where
    step-Agrees :
        (round : Round) (ev : Events C)
        → IsRound view.Allows view.max round
        → Agrees view ev
        → Returns (Agrees view) (step react round ev)
    unfolding step
    step-Agrees (asks q) ev real v = request-Agrees view b law q ev real v
    step-Agrees (waits reports) ev within v = process-Agrees reports ev within v

    pub run-Agrees :
        (rounds : List Round) (ev : Events C)
        → AllRounds view.Allows view.max rounds
        → Agrees view ev
        → Returns (Agrees view) (run react rounds ev)
    unfolding run
    run-Agrees [] ev all v = returns v
    run-Agrees (round ∷ rounds) ev all v =
        Returns-bind (step-Agrees round ev all.0 v) λ ev' k. run-Agrees rounds ev' all.1 k
