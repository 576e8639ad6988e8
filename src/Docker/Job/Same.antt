-- ===== src/Docker/Job/Same.antt =====
-- executor/docker: a job's container beside the runtime's container of the same agent.
use agentfile.Common.{ℕ, ◌≡◌, refl, false, List}
use agentfile.Common.Maps.{Assoc}
use agentfile.Common.Texts.{Text, is_empty}
use agentfile.Docker.Container.{build_env, build_config, build_host_config}
use agentfile.Docker.Job.{
  AgentDeps, runtime_ref, container_spec, exec_env, exec_mounts, exec_config, exec_host_config,
  build_exec_container,
}
use agentfile.Executor.Runtime.{Runtime}

-- A job's container sees what the runtime's container sees: the same mounts in the same order, the same
-- environment, hosts, image, user and directory, given that the agent has a runtime image and the map
-- of images is ranged over in the same order.
pub build_exec_container-same :
    (upper : ℕ → ℕ) (order : Assoc Text → Assoc Text) (deps : AgentDeps) (rt : Runtime)
    (daemon_url agent_token bin job_label : Text) (args : List Text)
    → is_empty (runtime_ref rt) ≡ false
    → let spec = container_spec deps rt daemon_url agent_token in
      let config = build_config upper spec in
      let host = build_host_config order spec in
      let job =
        build_exec_container upper order deps rt bin args job_label daemon_url agent_token in
      (job.1.mounts ≡ host.mounts)
      × (job.0.env ≡ config.env)
      × (job.1.extra_hosts ≡ host.extra_hosts)
      × (job.0.image ≡ config.image)
      × (job.0.user ≡ config.user)
      × (job.0.working_dir ≡ config.working_dir)
unfolding build_exec_container exec_config exec_host_config exec_mounts exec_env container_spec
    build_config build_host_config build_env
build_exec_container-same upper order deps rt daemon_url agent_token bin job_label args h =
    (rw h refl, refl, refl, refl, refl, refl)
