-- ===== src/Tests/Lifecycle.antt =====
-- An agent that is run once, and stopped while it serves.
use agentfile.Common.{ℕ, ◌≡◌, refl, ◌↔◌, ◌⊎◌, true, false, some}
use agentfile.Executor.Status.{
  stopped, new_status_tracker, set_unless, set_locked, matches, broadcast, ordinal,
}
use agentfile.System.Agent.{
  World, Pc, idle, begun, preparing, serving, closing, stop_waiting, has_run, started, begin_run,
  release, with_status, settle, put_status, put_failure, update, Move, Step, new_world, Reach,
  cancel_run, close_ran,
}
use agentfile.System.Agent
use agentfile.System.Agent.Protocol.{Change, in_run, owner, Once}
use agentfile.System.Agent.Safety.{
  role, runs, Move-Change, Reach-exclusive, Reach-Once, Reach-awaited,
}

abbrev fresh : World
fresh = new_world new_status_tracker

-- Goroutine 0 began a run, and goroutine 1 read its channel, cancelled it, and waits.
abbrev pcs1 : ℕ → Pc
pcs1 = update 0 (begun 0) (λ i. idle)

abbrev pcs2 : ℕ → Pc
pcs2 = update 1 (Agent.stop_read (some 0) (some 0) true) pcs1

abbrev pcs3 : ℕ → Pc
pcs3 = update 1 (stop_waiting (some 0) true) pcs2

running : Reach (started fresh) pcs1
unfolding begin_run new_world
running = Reach.later (Reach.begin new_status_tracker) (Step.moves 0 (Move.run refl))

waiting : Reach (cancel_run 0 (started fresh)) pcs3
unfolding update started new_world
waiting =
    Reach.later (Reach.later running (Step.moves 1 (Move.stop true))) (Step.moves 1 Move.cancels)

Reach-exclusive_example :
    ((i j n m : ℕ) → role (pcs1 i) ≡ in_run n → role (pcs1 j) ≡ in_run m → (i ≡ j) × (n ≡ m))
    × (((started fresh).agent.running ≡ true) ↔ ((i : ℕ) × (n : ℕ) × (role (pcs1 i) ≡ in_run n)))
    × ((i n : ℕ)
        → role (pcs1 i) ≡ in_run n
        → ((started fresh).agent.ran ≡ some n) × ((started fresh).agent.cancel ≡ some n))
Reach-exclusive_example = Reach-exclusive running

Reach-Once_example :
    Once (started fresh).closed
    × ((i n : ℕ) → pcs1 i ≡ closing n → has_run n (started fresh).closed ≡ false)
Reach-Once_example = Reach-Once running

Reach-awaited_example :
    ((j : ℕ) × (owner (role (pcs3 j)) ≡ some 0))
    ⊎ (has_run 0 (cancel_run 0 (started fresh)).closed ≡ true)
unfolding update
Reach-awaited_example = Reach-awaited waiting 1 0 true refl

abbrev settled : World
settled = with_status fresh (record new_status_tracker { status = stopped })

settles : settle fresh ≡ some settled
unfolding settle with_status new_world new_status_tracker set_unless set_locked matches broadcast
    ordinal
settles = refl

Move-Change_example : Change (runs fresh) (role idle) (runs (started fresh)) (role (begun 0))
unfolding begin_run new_world
Move-Change_example = Move-Change (Move.run refl)
