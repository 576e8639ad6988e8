-- ===== src/Executor/Status/Wait.antt =====
-- executor/status.go: WaitForStatus, over what the loop's `select` yields, one after the other.
use agentfile.Common.{
  ◌≡◌, ap, ◌⊎◌, ◌↔◌, true, false, List, [], ◌∷◌, ◌++◌, arith, if◌then◌else◌, Bool-cases, inl, inr,
}
use agentfile.Executor.Status.{Status, matches}

-- What a round of the loop meets: a status from the channel, the closed channel, or the end of the
-- context.
pub data Event : Type 0 where
  received : Status → Event
  channel_closed context_done : Event

-- The outcome; `waiting` if the events end before one of the returns.
pub data Outcome : Type 0 where
  reached : Status → Outcome
  status_closed context_error waiting : Outcome

unfoldable pub wait_loop : List Status → List Event → Outcome
unfolding matches
wait_loop target [] = waiting
wait_loop target (received s ∷ events) =
    let rest = wait_loop target events in if matches target s then reached s else rest
wait_loop target (channel_closed ∷ events) = status_closed
wait_loop target (context_done ∷ events) = context_error

-- The current status is looked at first, after subscribing.
unfoldable pub wait_for_status : Status → List Status → List Event → Outcome
unfolding wait_loop matches
wait_for_status current target events =
    if matches target current then reached current else wait_loop target events

-- Statuses that came by, none of them a target.
unfoldable pub passed : List Status → List Event
passed [] = []
passed (s ∷ ss) = received s ∷ passed ss

abbrev pub NoTarget : List Status → List Status → Type 0
NoTarget target [] = Unit
NoTarget target (s ∷ ss) = (matches target s ≡ false) × NoTarget target ss

-- The first status that is a target, behind statuses that are none.
pub data FirstTarget (target : List Status) (s : Status) (events : List Event) : Type 0 where
  first :
      (ss : List Status) (later : List Event)
      → events ≡ passed ss ++ received s ∷ later
      → NoTarget target ss
      → matches target s ≡ true
      → FirstTarget target s events

loop-FirstTarget :
    (target : List Status) (events : List Event) (s : Status)
    → wait_loop target events ≡ reached s
    → FirstTarget target s events
unfolding wait_loop passed
loop-FirstTarget target [] s e = cc
loop-FirstTarget target (channel_closed ∷ events) s e = cc
loop-FirstTarget target (context_done ∷ events) s e = cc
loop-FirstTarget target (received r ∷ events) s e = elim (Bool-cases (matches target r)) [
  | inl m ↦ first [] events (ground arith) tt (ground arith)
  | inr m ↦ elim (loop-FirstTarget target events s (ground arith)) [
    | first ss later f n y ↦ first (r ∷ ss) later (ap (λ es. received r ∷ es) f) (m, n) y
  ]
]

passed-loop :
    (target ss : List Status) (s : Status) (later : List Event)
    → NoTarget target ss
    → matches target s ≡ true
    → wait_loop target (passed ss ++ received s ∷ later) ≡ reached s
unfolding wait_loop passed
passed-loop target [] s later n m = ground arith
passed-loop target (r ∷ ss) s later n m = ground (arith, passed-loop target ss s later)

-- The wait ends in a status exactly if it is the current one and a target, or the current one is no
-- target and it is the first target that is received, before the channel is closed and the context
-- ends.
pub wait_for_status_iff :
    (current : Status) (target : List Status) (events : List Event) (s : Status)
    → (wait_for_status current target events ≡ reached s) ↔ (
        ((current ≡ s) × (matches target current ≡ true))
        ⊎ ((matches target current ≡ false) × FirstTarget target s events))
unfolding wait_for_status
wait_for_status_iff current target events s = elim (Bool-cases (matches target current)) [
  | inl m ↦ (
    λ e. inl (ground arith),
    λ w. elim w [ inl h ↦ ground arith | inr h ↦ absurd (ground arith) ],
  )
  | inr m ↦ (
    λ e. inr (m, loop-FirstTarget target events s (ground arith)),
    λ w. elim w [
      | inl h ↦ absurd (ground arith)
      | inr (n, first ss later f k y) ↦ rw (m, f) (passed-loop target ss s later k y)
    ],
  )
]
