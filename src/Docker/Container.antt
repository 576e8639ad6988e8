-- ===== src/Docker/Container.antt =====
-- executor/docker/container.go: the container of a runtime, as the records that are posted.
pub mod Sandbox
use agentfile.Common.{
  ℕ, Bool, true, false, ◌||◌, Option, none, some, List, [], ◌∷◌, ◌++◌, map, if◌then◌else◌,
}
use agentfile.Common.Maps.{Assoc}
use agentfile.Common.Paths.{join}
use agentfile.Common.Strings.{contains_text}
use agentfile.Common.Texts.{Text, codes, is_empty, has_prefix, trim_prefix}
use agentfile.Spec.Types.{Env}
use agentfile.Docker.Layout
use agentfile.Executor.Env.{build_locked_env, append_config_env, append_user_env}
use agentfile.Executor.Process.{provider_credentials, exec_args}
use agentfile.Executor.Runtime.{HostMount}

pub data MountType : Type 0 where
  bind image : MountType

-- mount.Mount of the Docker API, in the fields that are set.
pub record ContainerMount : Type 0 where
  pub type : MountType
  pub source : Text
  pub target : Text
  pub read_only : Bool

pub record ContainerSpec : Type 0 where
  pub name : Text
  pub base_image : Text
  pub agent_root : Text
  pub runtime_image : Text
  pub bin_images : Assoc Text
  pub user_mounts : List HostMount
  pub api_base : Text
  pub api_key : Text
  pub provider : Text
  pub model : Text
  pub host_grpc_port : Text
  pub daemon_url : Text
  pub agent_token : Text
  pub user_envs : List (Option Env)
  pub exec : List Text
  pub configs : Assoc Text

-- container.Config and container.HostConfig of the Docker API, in the fields that are set.
pub record ContainerConfig : Type 0 where
  pub image : Text
  pub entrypoint : List Text
  pub cmd : List Text
  pub env : List Text
  pub working_dir : Text
  pub user : Text
  pub exposed_ports : List Text
  pub labels : Assoc Text
  pub open_stdin : Bool
  pub stdin_once : Bool
  pub attach_stdin : Bool

pub record PortBinding : Type 0 where
  pub port : Text
  pub host_ip : Text
  pub host_port : Text

pub record HostConfig : Type 0 where
  pub mounts : List ContainerMount
  pub port_bindings : List PortBinding
  pub network_mode : Text
  pub cap_drop : List Text
  pub security_opt : List Text
  pub pids_limit : Option ℕ
  pub extra_hosts : List Text
  pub auto_remove : Bool

abbrev pub default_pids_limit : ℕ
default_pids_limit = 512

abbrev pub unix_scheme : Text
unix_scheme = codes "unix://"

-- The three results of daemonAccess.
pub record DaemonAccess : Type 0 where
  pub container_url : Text
  pub mount : Option ContainerMount
  pub extra_host : Text

unfoldable pub daemon_access : Text → DaemonAccess
unfolding has_prefix trim_prefix contains_text
daemon_access daemon_url =
    if is_empty daemon_url
    then record { container_url = []; mount = none; extra_host = [] }
    else if has_prefix daemon_url unix_scheme
    then record {
      container_url = unix_scheme ++ Layout.daemon_socket;
      mount = some (record {
        type = bind;
        source = trim_prefix daemon_url unix_scheme;
        target = Layout.daemon_socket;
        read_only = false;
      });
      extra_host = [];
    }
    else if contains_text daemon_url (codes "host.docker.internal")
    then record {
      container_url = daemon_url;
      mount = none;
      extra_host = codes "host.docker.internal:host-gateway";
    }
    else record { container_url = daemon_url; mount = none; extra_host = [] }

unfoldable pub build_env : (ℕ → ℕ) → ContainerSpec → List Text
unfolding daemon_access build_locked_env provider_credentials append_config_env append_user_env
build_env upper s =
    let env = build_locked_env (record {
      agent_root = Layout.agent_root;
      bin_dirs = Layout.bins_root ∷ [];
      daemon_url = (daemon_access s.daemon_url).container_url;
      agent_token = s.agent_token;
    }) in
    let env' =
      append_config_env (env ++ provider_credentials upper s.provider s.api_key s.api_base)
        s.configs in
    (append_user_env env' s.user_envs).0

unfoldable pub build_config : (ℕ → ℕ) → ContainerSpec → ContainerConfig
unfolding build_env exec_args
build_config upper s = record {
  image = s.base_image;
  entrypoint = (Layout.runtime_dir ++ codes "/runtime") ∷ [];
  cmd =
      exec_args s.exec
      ++ codes "--root"
        ∷ Layout.agent_root
        ∷ codes "--model"
        ∷ s.model
        ∷ codes "--addr"
        ∷ (codes "0.0.0.0:" ++ Layout.agent_grpc_port)
        ∷ [];
  env = build_env upper s;
  working_dir = Layout.workspace;
  user = codes "65532:65532";
  exposed_ports = (Layout.agent_grpc_port ++ codes "/tcp") ∷ [];
  labels = (Layout.label_openotters_agent, codes "true") ∷ [];
  open_stdin = false;
  stdin_once = false;
  attach_stdin = false;
}

unfoldable pub host_bind : Text → Text → Text → Bool → ContainerMount
unfolding join
host_bind agent_root sub target read_only = record {
  type = bind;
  source = join agent_root sub;
  target = target;
  read_only = read_only;
}

unfoldable pub agent_fhs_mounts : Text → List ContainerMount
unfolding host_bind
agent_fhs_mounts agent_root =
    host_bind agent_root (codes "etc/context") Layout.etc_context true
    ∷ host_bind agent_root (codes "etc/data") Layout.etc_data true
    ∷ host_bind agent_root (codes "etc/Agentfile") Layout.agentfile_path true
    ∷ host_bind agent_root (codes "etc/agent.yaml") Layout.agent_yaml true
    ∷ host_bind agent_root (codes "home") Layout.home false
    ∷ host_bind agent_root (codes "tmp") Layout.tmp false
    ∷ host_bind agent_root (codes "var/lib") Layout.var_lib false
    ∷ host_bind agent_root (codes "workspace") Layout.workspace false
    ∷ host_bind agent_root (codes "opt/bins") Layout.bins_root true
    ∷ []

-- An image that is mounted read-only.
unfoldable pub image_mount : Text → Text → ContainerMount
image_mount ref target = record { type = image; source = ref; target = target; read_only = true }

unfoldable pub bin_mount : Text × Text → ContainerMount
unfolding image_mount
bin_mount (name, ref) = image_mount ref (Layout.bin_images ++ (b'/' ∷ name))

unfoldable pub user_mount : HostMount → ContainerMount
user_mount m = record { type = bind; source = m.host; target = m.target; read_only = m.read_only }

-- Daemon access is only wired with the full pair: the mounts and the hosts that are added.
unfoldable pub daemon_mounts : Text → Text → List ContainerMount
unfolding daemon_access
daemon_mounts daemon_url agent_token =
    if is_empty daemon_url || is_empty agent_token
    then []
    else elim (daemon_access daemon_url).mount [ none ↦ [] | some m ↦ m ∷ [] ]

unfoldable pub daemon_hosts : Text → Text → List Text
unfolding daemon_access
daemon_hosts daemon_url agent_token =
    if is_empty daemon_url || is_empty agent_token
    then []
    else elim (daemon_access daemon_url).mount [
      | some m ↦ []
      | none ↦
          let host = (daemon_access daemon_url).extra_host in
          if is_empty host then [] else host ∷ []
    ]

-- `order` is the order in which Go ranges over the map of images.
unfoldable pub build_host_config : (Assoc Text → Assoc Text) → ContainerSpec → HostConfig
unfolding agent_fhs_mounts image_mount bin_mount user_mount daemon_mounts daemon_hosts
build_host_config order s = record {
  mounts =
      agent_fhs_mounts s.agent_root
      ++ (image_mount s.runtime_image Layout.runtime_dir ∷ [])
      ++ map bin_mount (order s.bin_images)
      ++ map user_mount s.user_mounts
      ++ daemon_mounts s.daemon_url s.agent_token;
  port_bindings =
      record {
        port = Layout.agent_grpc_port ++ codes "/tcp";
        host_ip = codes "127.0.0.1";
        host_port = s.host_grpc_port;
      }
      ∷ [];
  network_mode = codes "bridge";
  cap_drop = codes "ALL" ∷ [];
  security_opt = codes "no-new-privileges" ∷ [];
  pids_limit = some default_pids_limit;
  extra_hosts = daemon_hosts s.daemon_url s.agent_token;
  auto_remove = false;
}
