-- ===== src/System/Agent.antt =====
-- executor/system/agent.go: the run state of an agent, and what the goroutines that call its methods
-- do with it. A step is what happens under one lock, one send or receive, or one slow operation.
pub mod Protocol
pub mod Safety
use agentfile.Common.{
  ℕ, suc, ◌≡◌, ◌≢◌, Bool, true, false, ◌||◌, Option, none, some, List, [], ◌∷◌, ◌==◌, if◌then◌else◌,
}
use agentfile.Common.Texts.{Text}
use agentfile.Executor.Runtime.{Runtime}
use agentfile.Executor.Status.{
  Status, pulling, starting, ready, working, stopped, failed, removing, removed, FailureReason,
  failure_pull, failure_model, failure_config, failure_init, StatusTracker, set_status, set_failure,
  set_unless,
}
use agentfile.System.Io.{Failure, pull, model, config, other, panic}

-- The fields under `mu` that the run reads, with the status. A run is known by its number: that of its
-- context, of its cancel function and of the channel `ran`.
pub record AgentState : Type 0 where
  pub status : StatusTracker
  pub rt : Option Runtime
  pub initialized : Bool
  pub running : Bool
  pub ran : Option ℕ
  pub cancel : Option ℕ
  pub agent_token : Text

-- `next` is the number of the next run; `closed` are the channels that were closed, and `cancelled`
-- the contexts that are over.
pub record World : Type 0 where
  pub agent : AgentState
  pub next : ℕ
  pub closed : List ℕ
  pub cancelled : List ℕ

unfoldable pub has_run : ℕ → List ℕ → Bool
has_run n [] = false
has_run n (m ∷ ms) = n == m || has_run n ms

unfoldable pub set_agent_token : Text → AgentState → AgentState
set_agent_token token a = record a { agent_token = token }

-- A run begins.
unfoldable pub started : World → World
started w = record w {
  agent = record w.agent { running = true; cancel = some w.next; ran = some w.next };
  next = suc w.next;
}

-- beginRun; `none` is the error that the agent is running.
unfoldable pub begin_run : World → Option World
unfolding started
begin_run w = if w.agent.running then none else some (started w)

-- endRun, what it does under the lock
unfoldable pub release : World → World
release w = record w { agent = record w.agent { running = false; cancel = none; ran = none } }

unfoldable pub with_status : World → StatusTracker → World
with_status w t = record w { agent = record w.agent { status = t } }

-- endRun, the status; `none` is the panic of a send on a closed channel, here and below.
unfoldable pub settle : World → Option World
unfolding set_unless with_status
settle w = elim (set_unless stopped (failed ∷ removing ∷ removed ∷ []) w.agent.status) [
  | none ↦ none
  | some (t, did) ↦ some (with_status w t)
]

-- close(ran)
unfoldable pub close_ran : ℕ → World → World
close_ran n w = record w { closed = n ∷ w.closed }

unfoldable pub cancel_run : ℕ → World → World
cancel_run n w = record w { cancelled = n ∷ w.cancelled }

unfoldable pub put_status : Status → World → Option World
unfolding set_status with_status
put_status s w = elim (set_status s w.agent.status) [
  | none ↦ none
  | some t ↦ some (with_status w t)
]

unfoldable pub put_failure : FailureReason → World → Option World
unfolding set_failure with_status
put_failure reason w = elim (set_failure reason w.agent.status) [
  | none ↦ none
  | some t ↦ some (with_status w t)
]

-- The end of initialize, and markInitialized
unfoldable pub publish : Runtime → World → World
publish rt w =
    if w.agent.initialized
    then w
    else record w { agent = record w.agent { rt = some rt; initialized = true } }

unfoldable pub failure_reason_for : Failure → FailureReason
failure_reason_for pull = failure_pull
failure_reason_for model = failure_model
failure_reason_for config = failure_config
failure_reason_for other = failure_init
failure_reason_for panic = failure_init

pub data StartCheck : Type 0 where
  already_running agent_removed may_start : StartCheck

-- The switch of Start.
unfoldable pub start_check : Status → StartCheck
start_check pulling = already_running
start_check starting = already_running
start_check ready = already_running
start_check working = already_running
start_check removing = agent_removed
start_check removed = agent_removed
start_check stopped = may_start
start_check failed = may_start

-- The second lock of reresolveCredentials.
unfoldable pub set_credentials : Text → Text → World → World
set_credentials api_base api_key w = record w {
  agent = record w.agent {
    rt = elim w.agent.rt [
      | none ↦ none
      | some rt ↦ some (record rt { api_base = api_base; api_key = api_key })
    ];
  };
}

-- Where a goroutine is. Those that carry a run are in Run, in the order of its lines; `stop_read` has
-- what Stop read, and the flag says that Remove called it.
pub data Pc : Type 0 where
  idle start_checked : Pc
  begun preparing starting_run serving ending settling closing : ℕ → Pc
  prepare_failed : ℕ → Failure → Pc
  failing : ℕ → FailureReason → Pc
  stop_read : (cancel ran : Option ℕ) (remove : Bool) → Pc
  stop_waiting : (ran : Option ℕ) (remove : Bool) → Pc
  remove_stopped deleting : Pc

-- Where Stop returns to.
unfoldable pub after_stop : Bool → Pc
after_stop remove = if remove then remove_stopped else idle

-- One step of one goroutine.
pub data Move : World → Pc → World → Pc → Type 0 where
  set_token :
      {w : World} (token : Text)
      → Move w idle (record w { agent = set_agent_token token w.agent }) idle
  run : {w v : World} → begin_run w ≡ some v → Move w idle v (begun w.next)
  run_refused : {w : World} → begin_run w ≡ none → Move w idle w idle
  start : {w : World} → start_check w.agent.status.status ≡ may_start → Move w idle w start_checked
  start_refused : {w : World} → start_check w.agent.status.status ≢ may_start → Move w idle w idle
  no_credentials :
      {w v : World} → put_failure failure_model w ≡ some v → Move w start_checked v idle
  credentials :
      {w : World} (api_base api_key : Text)
      → Move w start_checked (set_credentials api_base api_key w) idle
  start_run : {w v : World} → begin_run w ≡ some v → Move w start_checked v (begun w.next)
  start_run_refused : {w : World} → begin_run w ≡ none → Move w start_checked w idle
  set_pulling :
      {w v : World} {n : ℕ} → put_status pulling w ≡ some v → Move w (begun n) v (preparing n)
  prepared :
      {w : World} {n : ℕ} → w.agent.initialized ≡ true → Move w (preparing n) w (starting_run n)
  materialized :
      {w : World} {n : ℕ} (rt : Runtime) → Move w (preparing n) (publish rt w) (starting_run n)
  not_materialized : {w : World} {n : ℕ} (e : Failure) → Move w (preparing n) w (prepare_failed n e)
  was_cancelled :
      {w : World} {n : ℕ} (e : Failure)
      → has_run n w.cancelled ≡ true
      → Move w (prepare_failed n e) w (ending n)
  was_not_cancelled :
      {w : World} {n : ℕ} (e : Failure)
      → has_run n w.cancelled ≡ false
      → Move w (prepare_failed n e) w (failing n (failure_reason_for e))
  fails :
      {w v : World} {n : ℕ} {reason : FailureReason}
      → put_failure reason w ≡ some v
      → Move w (failing n reason) v (ending n)
  set_starting :
      {w v : World} {n : ℕ} → put_status starting w ≡ some v → Move w (starting_run n) v (serving n)
  exits : {w : World} {n : ℕ} → Move w (serving n) w (ending n)
  releases : {w : World} {n : ℕ} → Move w (ending n) (release w) (settling n)
  settles : {w v : World} {n : ℕ} → settle w ≡ some v → Move w (settling n) v (closing n)
  closes : {w : World} {n : ℕ} → Move w (closing n) (close_ran n w) idle
  stop : {w : World} (remove : Bool) → Move w idle w (stop_read w.agent.cancel w.agent.ran remove)
  cancels :
      {w : World} {n : ℕ} {ran : Option ℕ} {remove : Bool}
      → Move w (stop_read (some n) ran remove) (cancel_run n w) (stop_waiting ran remove)
  cancels_nothing :
      {w : World} {ran : Option ℕ} {remove : Bool}
      → Move w (stop_read none ran remove) w (stop_waiting ran remove)
  not_running :
      {w : World} {remove : Bool} → Move w (stop_waiting none remove) w (after_stop remove)
  woken :
      {w : World} {n : ℕ} {remove : Bool}
      → has_run n w.closed ≡ true
      → Move w (stop_waiting (some n) remove) w (after_stop remove)
  gives_up : {w : World} {n : ℕ} {remove : Bool} → Move w (stop_waiting (some n) remove) w idle
  set_removing : {w v : World} → put_status removing w ≡ some v → Move w remove_stopped v deleting
  not_deleted : {w : World} → Move w deleting w idle
  deleted : {w v : World} → put_status removed w ≡ some v → Move w deleting v idle

unfoldable pub update : ℕ → Pc → (ℕ → Pc) → ℕ → Pc
update i p pcs j = if j == i then p else pcs j

-- Any of the goroutines moves, the context of the caller ends a run, or the supervisor sets a status.
pub data Step : World → (ℕ → Pc) → World → (ℕ → Pc) → Type 0 where
  moves :
      {w v : World} {pcs : ℕ → Pc} {p : Pc} (i : ℕ)
      → Move w (pcs i) v p
      → Step w pcs v (update i p pcs)
  context_ends : {w : World} {pcs : ℕ → Pc} (n : ℕ) → Step w pcs (cancel_run n w) pcs
  supervised :
      {w v : World} {pcs : ℕ → Pc} (s : Status) → put_status s w ≡ some v → Step w pcs v pcs

-- A fresh agent, no goroutine in it.
unfoldable pub new_world : StatusTracker → World
new_world status = record {
  agent = record {
    status = status;
    rt = none;
    initialized = false;
    running = false;
    ran = none;
    cancel = none;
    agent_token = [];
  };
  next = 0;
  closed = [];
  cancelled = [];
}

pub data Reach : World → (ℕ → Pc) → Type 0 where
  begin : (status : StatusTracker) → Reach (new_world status) (λ i. idle)
  later : {w v : World} {pcs qcs : ℕ → Pc} → Reach w pcs → Step w pcs v qcs → Reach v qcs
