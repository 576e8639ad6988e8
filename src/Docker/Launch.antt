-- ===== src/Docker/Launch.antt =====
-- executor/docker/agent.go: what Run and Remove ask of the daemon, in its order. A call that is made is kept,
-- the latest first; whether it succeeds is up to the daemon, which has seen those before.
pub mod Images
pub mod Supplied
pub mod Runs
use agentfile.Common.{
  ℕ, Bool, true, false, ◌||◌, Option, none, some, List, [], ◌∷◌, ◌++◌, ◌==◌, if◌then◌else◌,
}
use agentfile.Common.Maps.{Assoc}
use agentfile.Common.Results.{Result, ok, err}
use agentfile.Common.Texts.{Text, is_empty}
use agentfile.Docker.Container.{ContainerConfig, HostConfig, build_config, build_host_config}
use agentfile.Docker.Job.{AgentDeps, runtime_ref, container_spec}
use agentfile.Executor.Runtime.{ResolvedTool, Runtime}
use agentfile.Executor.Status.{
  Status, pulling, starting, removing, removed, FailureReason, failure_pull, failure_init,
}
use agentfile.System.Io.{Failure}
use agentfile.System.Agent.{failure_reason_for}

-- The calls of the Docker API, the deletion of the workspace, and the changes of the status. A pull carries the
-- credentials of `resolve_registry_auth`, and is over when its progress was read.
pub data Call : Type 0 where
  inspect_image pull_image remove_container start_container follow_logs : Text → Call
  stop_container inspect_container : Text → Call
  create_container : ContainerConfig → HostConfig → (name : Text) → Call
  delete_workspace : Call
  set_status : Status → Call
  set_failure : FailureReason → Call

-- What the daemon answers after the calls so far. `not_found` is the error that the code passes over,
-- `cancelled` is `ctx.Err() != nil`.
pub record Daemon : Type 0 where
  pub succeeds : List Call → Call → Bool
  pub not_found : List Call → Call → Bool
  pub created_id : List Call → Text
  pub exit_code : List Call → ℕ
  pub cancelled : List Call → Bool

pub data RunError : Type 0 where
  not_prepared : Failure → RunError
  no_runtime pull_failed orphan_not_removed not_created not_started no_logs : RunError
  exited : ℕ → RunError
  container_not_removed workspace_not_deleted : RunError

-- The fields of the agent that the run reads and sets.
pub record Launch : Type 0 where
  pub calls : List Call
  pub container_id : Text
  pub rt : Option Runtime

unfoldable pub call : Call → Launch → Launch
call c l = record l { calls = c ∷ l.calls }

module _ (daemon : Daemon) where
  unfoldable pub done : Call → Launch → Bool
  done c l = daemon.succeeds l.calls c

  -- failUnless
  unfoldable pub fail_unless : FailureReason → Launch → Launch
  unfolding call
  fail_unless reason l = if daemon.cancelled l.calls then l else call (set_failure reason) l

  -- One round of the loop of ensureImagesPulled: imageCached and pullImage.
  unfoldable pub ensure_image : Text → Launch → Launch × Bool
  unfolding call done
  ensure_image ref l =
      let looked = call (inspect_image ref) l in
      if done (inspect_image ref) l
      then (looked, true)
      else (call (pull_image ref) looked, done (pull_image ref) looked)

  unfoldable pub ensure_images : List Text → Launch → Launch × Bool
  unfolding ensure_image
  ensure_images [] l = (l, true)
  ensure_images (ref ∷ refs) l = elim (ensure_image ref l).1 [
    | true ↦ ensure_images refs (ensure_image ref l).0
    | false ↦ ((ensure_image ref l).0, false)
  ]

  -- removeOrphanContainer
  unfoldable pub remove_orphan : Text → Launch → Launch × Bool
  unfolding call done
  remove_orphan name l =
      let c = remove_container name in (call c l, done c l || daemon.not_found l.calls c)

  -- The calls of create.
  unfoldable pub create_container_for :
      ContainerConfig → HostConfig → Text → Launch → Launch × Result RunError (Unit {0})
  unfolding remove_orphan call done
  create_container_for config host name l =
      let cleared = (remove_orphan name l).0 in
      let c = create_container config host name in
      if (remove_orphan name l).1
      then if done c cleared
        then (record (call c cleared) { container_id = daemon.created_id cleared.calls }, ok tt)
        else (call c cleared, err not_created)
      else (cleared, err orphan_not_removed)

  unfoldable pub start : Launch → Launch × Result RunError (Unit {0})
  unfolding call done
  start l =
      let c = start_container l.container_id in
      if is_empty l.container_id
      then (l, err not_started)
      else (call c l, if done c l then ok tt else err not_started)

  -- The end of wait, when the logs are over.
  unfoldable pub finish_wait : Launch → Launch × Result RunError (Unit {0})
  unfolding call
  finish_wait l =
      if daemon.cancelled l.calls then (call (stop_container l.container_id) l, ok tt) else (
        call (inspect_container l.container_id) l,
        if daemon.exit_code l.calls == 0 then ok tt else err (exited (daemon.exit_code l.calls)),
      )

  unfoldable pub wait : Launch → Launch × Result RunError (Unit {0})
  unfolding call done finish_wait
  wait l =
      let c = follow_logs l.container_id in
      if is_empty l.container_id
      then (l, ok tt)
      else if done c l
      then finish_wait (call c l)
      else (call c l, err no_logs)

  unfoldable pub start_and_wait : Launch → Launch × Result RunError (Unit {0})
  unfolding start wait fail_unless
  start_and_wait l = elim (start l).1 [
    | ok u ↦ wait (start l).0
    | err e ↦ (fail_unless failure_init (start l).0, err e)
  ]

unfoldable pub tools_refs : List ResolvedTool → List Text
tools_refs [] = []
tools_refs (t ∷ tools) =
    let rest = tools_refs tools in if is_empty t.ref then rest else t.ref ∷ rest

-- The refs of ensureImagesPulled.
unfoldable pub image_refs : AgentDeps → Runtime → List Text
unfolding runtime_ref tools_refs
image_refs deps rt =
    deps.base_image
    ∷ ((if is_empty (runtime_ref rt) then [] else runtime_ref rt ∷ []) ++ tools_refs rt.tools)

module _ (daemon : Daemon) (upper : ℕ → ℕ) (order : Assoc Text → Assoc Text) (deps : AgentDeps)
    (daemon_url agent_token : Text) where
  unfoldable pub create : Runtime → Launch → Launch × Result RunError (Unit {0})
  unfolding create_container_for container_spec build_config build_host_config
  create rt l =
      let cs = container_spec deps rt daemon_url agent_token in
      create_container_for daemon (build_config upper cs) (build_host_config order cs) cs.name l

  -- Run, from `a.status.Set(executor.StatusStarting)`
  unfoldable pub run_container : Runtime → Launch → Launch × Result RunError (Unit {0})
  unfolding call create start_and_wait fail_unless
  run_container rt l =
      let made = create rt (call (set_status starting) l) in
      elim made.1 [
        | ok u ↦ start_and_wait daemon made.0
        | err e ↦ (fail_unless daemon failure_init made.0, err e)
      ]

  -- Run, from ensureImagesPulled
  unfoldable pub run_images : Runtime → Launch → Launch × Result RunError (Unit {0})
  unfolding ensure_images image_refs run_container fail_unless
  run_images rt l =
      let ensured = ensure_images daemon (image_refs deps rt) l in
      if ensured.1
      then run_container rt ensured.0
      else (fail_unless daemon failure_pull ensured.0, err pull_failed)

  -- Run, between beginRun and endRun. Prepare materialises unless that was done, and what comes of it is an
  -- argument.
  unfoldable pub run_agent : Result Failure Runtime → Launch → Launch × Result RunError (Unit {0})
  unfolding call fail_unless run_images
  run_agent materialized l =
      let pulled = call (set_status pulling) l in
      elim l.rt [
        | some rt ↦ run_images rt pulled
        | none ↦ elim materialized [
          | ok rt ↦ run_images rt (record pulled { rt = some rt })
          | err e ↦ (fail_unless daemon (failure_reason_for e) pulled, err (not_prepared e))
        ]
      ]

module _ (daemon : Daemon) where
  -- Stop, without the wait for the run.
  unfoldable pub stop_agent : Launch → Launch
  unfolding call
  stop_agent l = if is_empty l.container_id then l else call (stop_container l.container_id) l

  -- Remove, the container
  unfoldable pub drop_container : Launch → Launch × Result RunError (Unit {0})
  unfolding call done
  drop_container l =
      let c = remove_container l.container_id in
      if is_empty l.container_id
      then (l, ok tt)
      else if done daemon c l || daemon.not_found l.calls c
      then (record (call c l) { container_id = [] }, ok tt)
      else (call c l, err container_not_removed)

  -- Remove, the workspace, which `create` needs too, and the status
  unfoldable pub drop_workspace : Launch → Launch × Result RunError (Unit {0})
  unfolding call done
  drop_workspace l =
      if done daemon delete_workspace l
      then (call (set_status removed) (call delete_workspace l), ok tt)
      else (call delete_workspace l, err workspace_not_deleted)

  -- Remove, when Stop has waited for the run
  unfoldable pub remove_agent : Launch → Launch × Result RunError (Unit {0})
  unfolding stop_agent call drop_container drop_workspace
  remove_agent l =
      let dropped = drop_container (call (set_status removing) (stop_agent l)) in
      elim dropped.1 [ ok u ↦ drop_workspace dropped.0 | err e ↦ (dropped.0, err e) ]

unfoldable pub new_launch : Launch
new_launch = record { calls = []; container_id = []; rt = none }

-- An agent that is run, stopped and removed, in any order.
pub data History (daemon : Daemon) (upper : ℕ → ℕ) (order : Assoc Text → Assoc Text)
    (deps : AgentDeps) : Launch → Type 0 where
  fresh : History daemon upper order deps new_launch
  runs :
      {l : Launch} (daemon_url agent_token : Text) (materialized : Result Failure Runtime)
      → History daemon upper order deps l
      → History daemon upper order deps
          (run_agent daemon upper order deps daemon_url agent_token materialized l).0
  stops :
      {l : Launch}
      → History daemon upper order deps l
      → History daemon upper order deps (stop_agent daemon l)
  removes :
      {l : Launch}
      → History daemon upper order deps l
      → History daemon upper order deps (remove_agent daemon l).0
