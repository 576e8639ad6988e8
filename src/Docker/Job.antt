-- ===== src/Docker/Job.antt =====
-- executor/docker/exec_async.go and agent.go: the container of a job, beside that of the runtime.
pub mod Same
pub mod Frames
use agentfile.Common.{
  ℕ, Bool, true, false, ◌||◌, Option, none, some, List, [], ◌∷◌, ◌++◌, map, if◌then◌else◌,
}
use agentfile.Common.Maps.{Assoc, insert}
use agentfile.Common.Texts.{Text, codes, text_eq, is_empty}
use agentfile.Spec.Types.{Mount}
use agentfile.Docker.Layout
use agentfile.Docker.Container.{
  ContainerMount, ContainerSpec, ContainerConfig, HostConfig, daemon_access, agent_fhs_mounts,
  image_mount, bin_mount, user_mount, daemon_mounts, daemon_hosts,
}
use agentfile.Executor.Env.{build_locked_env, append_config_env, append_user_env}
use agentfile.Executor.Process.{provider_credentials, split_provider_prefix}
use agentfile.Executor.Runtime.{HostMount, ResolvedTool, Runtime}

-- The fields of agentDeps that this code reads; `root` is that of the file system.
pub record AgentDeps : Type 0 where
  pub id : Text
  pub root : Text
  pub base_image : Text
  pub mounts : List HostMount
  pub host_grpc_port : Text

-- Agent.runtimeRef
unfoldable pub runtime_ref : Runtime → Text
runtime_ref rt = elim rt.runtime [
  | some r ↦ r.ref
  | none ↦ elim rt.source [ none ↦ [] | some af ↦ elim af.agent [ none ↦ [] | some a ↦ a.runtime ] ]
]

-- The loop over the tools, over the map so far.
unfoldable pub add_tool_refs : List ResolvedTool → Assoc Text → Assoc Text
unfolding insert
add_tool_refs [] refs = refs
add_tool_refs (t ∷ tools) refs = add_tool_refs tools (insert t.name t.ref refs)

unfoldable pub tool_refs : List ResolvedTool → Assoc Text
unfolding add_tool_refs
tool_refs tools = add_tool_refs tools []

unfoldable pub host_mounts : List (Option Mount) → List HostMount
host_mounts [] = []
host_mounts (none ∷ ms) = host_mounts ms
host_mounts (some m ∷ ms) =
    record {
      host = m.host;
      target = m.target;
      description = m.description;
      read_only = m.read_only;
    }
    ∷ host_mounts ms

unfoldable pub effective_mounts : List HostMount → List (Option Mount) → List HostMount
unfolding host_mounts
effective_mounts fallback [] = fallback
effective_mounts fallback (m ∷ ms) = host_mounts (m ∷ ms)

-- The spec that Agent.create builds.
unfoldable pub container_spec : AgentDeps → Runtime → Text → Text → ContainerSpec
unfolding runtime_ref tool_refs effective_mounts split_provider_prefix
container_spec deps rt daemon_url agent_token = record {
  name = codes "otters-" ++ deps.id;
  base_image = deps.base_image;
  agent_root = deps.root;
  runtime_image = runtime_ref rt;
  bin_images = tool_refs rt.tools;
  user_mounts = effective_mounts deps.mounts rt.mounts;
  api_base = rt.api_base;
  api_key = rt.api_key;
  provider = (split_provider_prefix rt.model).0;
  model = rt.model;
  host_grpc_port = deps.host_grpc_port;
  daemon_url = daemon_url;
  agent_token = agent_token;
  user_envs = rt.envs;
  exec = rt.exec;
  configs = rt.configs;
}

abbrev pub label_openotters_async_job : Text
label_openotters_async_job = codes "io.openotters.async-job-id"

unfoldable pub exec_env : (ℕ → ℕ) → Runtime → Text → Text → List Text
unfolding daemon_access build_locked_env provider_credentials split_provider_prefix
    append_config_env append_user_env
exec_env upper rt daemon_url agent_token =
    let env = build_locked_env (record {
      agent_root = Layout.agent_root;
      bin_dirs = Layout.bins_root ∷ [];
      daemon_url = (daemon_access daemon_url).container_url;
      agent_token = agent_token;
    }) in
    let provider = (split_provider_prefix rt.model).0 in
    let env' =
      append_config_env (env ++ provider_credentials upper provider rt.api_key rt.api_base)
        rt.configs in
    (append_user_env env' rt.envs).0

-- The mounts without those for the daemon.
unfoldable pub exec_mounts : (Assoc Text → Assoc Text) → AgentDeps → Runtime → List ContainerMount
unfolding agent_fhs_mounts image_mount bin_mount user_mount runtime_ref tool_refs effective_mounts
exec_mounts order deps rt =
    let ref = runtime_ref rt in
    agent_fhs_mounts deps.root
    ++ (if is_empty ref then [] else image_mount ref Layout.runtime_dir ∷ [])
    ++ map bin_mount (order (tool_refs rt.tools))
    ++ map user_mount (effective_mounts deps.mounts rt.mounts)

unfoldable pub exec_config :
    (ℕ → ℕ) → AgentDeps → Runtime → Text → List Text → Text → Text → Text → ContainerConfig
unfolding exec_env
exec_config upper deps rt bin args job_label daemon_url agent_token = record {
  image = deps.base_image;
  entrypoint = [];
  cmd = bin ∷ args;
  env = exec_env upper rt daemon_url agent_token;
  working_dir = Layout.workspace;
  user = codes "65532:65532";
  exposed_ports = [];
  labels =
      (Layout.label_openotters_agent, codes "true")
      ∷ (label_openotters_async_job, job_label)
      ∷ (codes "io.openotters.agent-id", deps.id)
      ∷ [];
  open_stdin = false;
  stdin_once = false;
  attach_stdin = false;
}

unfoldable pub exec_host_config :
    (Assoc Text → Assoc Text) → AgentDeps → Runtime → Text → Text → HostConfig
unfolding exec_mounts daemon_mounts daemon_hosts
exec_host_config order deps rt daemon_url agent_token = record {
  mounts = exec_mounts order deps rt ++ daemon_mounts daemon_url agent_token;
  port_bindings = [];
  network_mode = [];
  cap_drop = [];
  security_opt = [];
  pids_limit = none;
  extra_hosts = daemon_hosts daemon_url agent_token;
  auto_remove = false;
}

unfoldable pub build_exec_container :
    (ℕ → ℕ)
    → (Assoc Text → Assoc Text)
    → AgentDeps
    → Runtime
    → Text
    → List Text
    → Text
    → Text
    → Text
    → ContainerConfig × HostConfig
unfolding exec_config exec_host_config
build_exec_container upper order deps rt bin args job_label daemon_url agent_token = (
  exec_config upper deps rt bin args job_label daemon_url agent_token,
  exec_host_config order deps rt daemon_url agent_token,
)

unfoldable pub bin_declared : List ResolvedTool → Text → Bool
bin_declared [] name = false
bin_declared (t ∷ tools) name = text_eq t.name name || bin_declared tools name
