-- ===== src/Docker/Launch/Runs.antt =====
-- executor/docker/agent.go: however an agent is run, stopped and removed, its containers have their images.
use agentfile.Common.{
  ℕ, refl, inl, inr, ◌||◌, none, some, List, [], ◌∷◌, if◌then◌else◌, Bool-cases, Option-cases,
}
use agentfile.Common.Lists.{All, append-All, All-map}
use agentfile.Common.Maps.{Assoc}
use agentfile.Common.Results.{Result, Result-cases}
use agentfile.Common.Texts.{Text, is_empty}
use agentfile.Docker.Container.{ContainerConfig, HostConfig, build_config, build_host_config}
use agentfile.Docker.Job.{AgentDeps, runtime_ref, container_spec}
use agentfile.Docker.Launch
use agentfile.Docker.Launch.Images.{image_sources, Values, host_config-images}
use agentfile.Docker.Launch.Supplied.{
  IsThere, IsSupplied, Available-later, ensure_images-IsThere, ensure_images-IsSupplied,
  fail_unless-IsSupplied,
}
use agentfile.Executor.Runtime.{ResolvedTool, Runtime}
use agentfile.Executor.Status.{failure_init, failure_pull, starting, pulling, removing}
use agentfile.System.Agent.{failure_reason_for}
use agentfile.System.Io.{Failure}

-- An image that is asked for only if its ref is not empty.
IsThere-if_named :
    (daemon : Launch.Daemon) (calls : List Launch.Call) (ref : Text)
    → All (IsThere daemon calls) (if is_empty ref then [] else ref ∷ [])
    → IsThere daemon calls ref
IsThere-if_named daemon calls [] h = inl refl
IsThere-if_named daemon calls (c ∷ ref) h = h.0

tools-IsThere :
    (daemon : Launch.Daemon) (calls : List Launch.Call) (tools : List ResolvedTool)
    → All (IsThere daemon calls) (Launch.tools_refs tools)
    → All (λ (t : ResolvedTool). IsThere daemon calls t.ref) tools
unfolding Launch.tools_refs
tools-IsThere daemon calls [] h = tt
tools-IsThere daemon calls (t ∷ tools) h = elim (Bool-cases (is_empty t.ref)) [
  | inl e ↦ (inl e, tools-IsThere daemon calls tools (rw (Launch.tools_refs, e) at h))
  | inr e ↦
      let both : IsThere daemon calls t.ref × All (IsThere daemon calls) (Launch.tools_refs tools) =
        rw (Launch.tools_refs, e) at h in
      (both.0, tools-IsThere daemon calls tools both.1)
]

module _ (daemon : Launch.Daemon) (upper : ℕ → ℕ) (order : Assoc Text → Assoc Text)
    (deps : AgentDeps)
    (orders : (P : Text → Type 0) (m : Assoc Text) → Values P m → Values P (order m)) where
  abbrev Supplied : Launch.Launch → Type 0
  Supplied l = IsSupplied daemon l.calls

  create_container_for-IsSupplied :
      (config : ContainerConfig) (host : HostConfig) (name : Text) (l : Launch.Launch)
      → IsThere daemon l.calls config.image
      → All (IsThere daemon l.calls) (image_sources host.mounts)
      → Supplied l
      → Supplied (Launch.create_container_for daemon config host name l).0
  unfolding Launch.create_container_for Launch.remove_orphan Launch.call Launch.done
  create_container_for-IsSupplied config host name l base images k =
      let c = Launch.remove_container name in
      let cleared = c ∷ l.calls in
      let needs : IsThere daemon cleared config.image
          × All (IsThere daemon cleared) (image_sources host.mounts) =
        (
          Available-later daemon c l.calls config.image base,
          All-map (IsThere daemon l.calls) (IsThere daemon cleared) (image_sources host.mounts)
              (Available-later daemon c l.calls) images,
        ) in
      elim (Bool-cases (daemon.succeeds l.calls c || daemon.not_found l.calls c)) [
        | inr e ↦ rw e (tt, k)
        | inl e ↦
            elim (Bool-cases (daemon.succeeds cleared (Launch.create_container config host name))) [
              | inl d ↦ rw (e, d) (needs, (tt, k))
              | inr d ↦ rw (e, d) (needs, (tt, k))
            ]
      ]

  create-IsSupplied :
      (daemon_url agent_token : Text) (rt : Runtime) (l : Launch.Launch)
      → All (IsThere daemon l.calls) (Launch.image_refs deps rt)
      → Supplied l
      → Supplied (Launch.create daemon upper order deps daemon_url agent_token rt l).0
  unfolding Launch.create Launch.image_refs build_config container_spec
  create-IsSupplied daemon_url agent_token rt l (base, h) k =
      let (runtime, tools) =
        append-All (IsThere daemon l.calls)
          (if is_empty (runtime_ref rt) then [] else runtime_ref rt ∷ [])
          (Launch.tools_refs rt.tools) h in
      let cs = container_spec deps rt daemon_url agent_token in
      create_container_for-IsSupplied (build_config upper cs) (build_host_config order cs) cs.name l
        base
        (host_config-images (IsThere daemon l.calls) order deps rt daemon_url agent_token
          (orders (IsThere daemon l.calls))
          (IsThere-if_named daemon l.calls (runtime_ref rt) runtime)
          (tools-IsThere daemon l.calls rt.tools tools))
        k

  -- What follows the creation asks for no container.
  wait-IsSupplied : (l : Launch.Launch) → Supplied l → Supplied (Launch.wait daemon l).0
  unfolding Launch.wait Launch.finish_wait Launch.call Launch.done
  wait-IsSupplied l k =
      let logged = Launch.follow_logs l.container_id ∷ l.calls in
      elim (Bool-cases (is_empty l.container_id)) [
        | inl e ↦ rw e k
        | inr e ↦ elim (Bool-cases (daemon.succeeds l.calls (Launch.follow_logs l.container_id))) [
          | inr d ↦ rw (e, d) (tt, k)
          | inl d ↦ elim (Bool-cases (daemon.cancelled logged)) [
            | inl c ↦ rw (e, d, c) (tt, (tt, k))
            | inr c ↦ rw (e, d, c) (tt, (tt, k))
          ]
        ]
      ]

  start-IsSupplied : (l : Launch.Launch) → Supplied l → Supplied (Launch.start daemon l).0
  unfolding Launch.start Launch.call Launch.done
  start-IsSupplied l k = elim (Bool-cases (is_empty l.container_id)) [
    | inl e ↦ rw e k
    | inr e ↦ rw e (tt, k)
  ]

  start_and_wait-IsSupplied :
      (l : Launch.Launch) → Supplied l → Supplied (Launch.start_and_wait daemon l).0
  unfolding Launch.start_and_wait
  start_and_wait-IsSupplied l k = elim (Result-cases (Launch.start daemon l).1) [
    | inl (u, e) ↦
        rw (Launch.start_and_wait, e)
          (wait-IsSupplied (Launch.start daemon l).0 (start-IsSupplied l k))
    | inr (u, e) ↦
        rw (Launch.start_and_wait, e)
          (fail_unless-IsSupplied daemon failure_init (Launch.start daemon l).0
            (start-IsSupplied l k))
  ]

  run_container-IsSupplied :
      (daemon_url agent_token : Text) (rt : Runtime) (l : Launch.Launch)
      → All (IsThere daemon l.calls) (Launch.image_refs deps rt)
      → Supplied l
      → Supplied (Launch.run_container daemon upper order deps daemon_url agent_token rt l).0
  unfolding Launch.run_container Launch.call
  run_container-IsSupplied daemon_url agent_token rt l h k =
      let begun = Launch.call (Launch.set_status starting) l in
      let made = Launch.create daemon upper order deps daemon_url agent_token rt begun in
      let kept =
        create-IsSupplied daemon_url agent_token rt begun
          (All-map (IsThere daemon l.calls) (IsThere daemon begun.calls) (Launch.image_refs deps rt)
            (Available-later daemon (Launch.set_status starting) l.calls) h)
          (tt, k) in
      elim (Result-cases made.1) [
        | inl (u, e) ↦ rw (Launch.run_container, e) (start_and_wait-IsSupplied made.0 kept)
        | inr (u, e) ↦
            rw (Launch.run_container, e) (fail_unless-IsSupplied daemon failure_init made.0 kept)
      ]

  run_images-IsSupplied :
      (daemon_url agent_token : Text) (rt : Runtime) (l : Launch.Launch)
      → Supplied l
      → Supplied (Launch.run_images daemon upper order deps daemon_url agent_token rt l).0
  unfolding Launch.run_images
  run_images-IsSupplied daemon_url agent_token rt l k =
      let refs = Launch.image_refs deps rt in
      let ensured = Launch.ensure_images daemon refs l in
      let kept = ensure_images-IsSupplied daemon refs l k in
      elim (Bool-cases ensured.1) [
        | inl e ↦ rw e (
            run_container-IsSupplied daemon_url agent_token rt ensured.0
              (ensure_images-IsThere daemon refs l e) kept)
        | inr e ↦ rw e (fail_unless-IsSupplied daemon failure_pull ensured.0 kept)
      ]

  run_agent-IsSupplied :
      (daemon_url agent_token : Text) (materialized : Result Failure Runtime) (l : Launch.Launch)
      → Supplied l
      → Supplied (Launch.run_agent daemon upper order deps daemon_url agent_token materialized l).0
  unfolding Launch.run_agent Launch.call
  run_agent-IsSupplied daemon_url agent_token materialized l k =
      let pulled = Launch.call (Launch.set_status pulling) l in
      elim (Option-cases l.rt) [
        | inr (rt, e) ↦ rw e (
            run_images-IsSupplied daemon_url agent_token rt (record pulled { rt = some rt })
              (tt, k))
        | inl e ↦ elim (Result-cases materialized) [
          | inl (rt, m) ↦
              rw (e, m)
                (run_images-IsSupplied daemon_url agent_token rt (record pulled { rt = some rt })
                  (tt, k))
          | inr (f, m) ↦
              rw (e, m)
                (fail_unless-IsSupplied daemon (failure_reason_for f) (record pulled { rt = none })
                  (tt, k))
        ]
      ]

  stop_agent-IsSupplied : (l : Launch.Launch) → Supplied l → Supplied (Launch.stop_agent daemon l)
  unfolding Launch.stop_agent Launch.call
  stop_agent-IsSupplied l k = elim (Bool-cases (is_empty l.container_id)) [
    | inl e ↦ rw e k
    | inr e ↦ rw e (tt, k)
  ]

  drop_container-IsSupplied :
      (l : Launch.Launch) → Supplied l → Supplied (Launch.drop_container daemon l).0
  unfolding Launch.drop_container Launch.call Launch.done
  drop_container-IsSupplied l k =
      let c = Launch.remove_container l.container_id in
      elim (Bool-cases (is_empty l.container_id)) [
        | inl e ↦ rw e k
        | inr e ↦ elim (Bool-cases (daemon.succeeds l.calls c || daemon.not_found l.calls c)) [
          | inl d ↦ rw (e, d) (tt, k)
          | inr d ↦ rw (e, d) (tt, k)
        ]
      ]

  drop_workspace-IsSupplied :
      (l : Launch.Launch) → Supplied l → Supplied (Launch.drop_workspace daemon l).0
  unfolding Launch.drop_workspace Launch.call Launch.done
  drop_workspace-IsSupplied l k =
      elim (Bool-cases (daemon.succeeds l.calls Launch.delete_workspace)) [
        | inl e ↦ rw e (tt, (tt, k))
        | inr e ↦ rw e (tt, k)
      ]

  remove_agent-IsSupplied :
      (l : Launch.Launch) → Supplied l → Supplied (Launch.remove_agent daemon l).0
  unfolding Launch.remove_agent Launch.call
  remove_agent-IsSupplied l k =
      let begun = Launch.call (Launch.set_status removing) (Launch.stop_agent daemon l) in
      let dropped = Launch.drop_container daemon begun in
      let kept = drop_container-IsSupplied begun (tt, stop_agent-IsSupplied l k) in
      elim (Result-cases dropped.1) [
        | inl (u, e) ↦ rw (Launch.remove_agent, e) (drop_workspace-IsSupplied dropped.0 kept)
        | inr (u, e) ↦ rw (Launch.remove_agent, e) kept
      ]

  -- However an agent is run, stopped and removed, whenever the daemon was asked for a container it had found or
  -- pulled the base image, the runtime's image and the image of each tool that is mounted, an empty ref aside, if
  -- ranging over a map gives no value that is not in it.
  pub History-IsSupplied :
      {l : Launch.Launch} → Launch.History daemon upper order deps l → IsSupplied daemon l.calls
  unfolding Launch.new_launch
  History-IsSupplied Launch.fresh = tt
  History-IsSupplied (Launch.runs {l} daemon_url agent_token materialized h) =
      run_agent-IsSupplied daemon_url agent_token materialized l (History-IsSupplied h)
  History-IsSupplied (Launch.stops {l} h) = stop_agent-IsSupplied l (History-IsSupplied h)
  History-IsSupplied (Launch.removes {l} h) = remove_agent-IsSupplied l (History-IsSupplied h)
