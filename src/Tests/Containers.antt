-- ===== src/Tests/Containers.antt =====
-- The containers of an agent, and the stream of a job.
use agentfile.Common.{
  ◌≡◌, refl, true, false, some, List, [], ◌∷◌, ◌++◌, arith, none, if◌then◌else◌, ◌&&◌,
}
use agentfile.Common.Texts.{Text, codes, text_eq, contains, has_prefix}
use agentfile.Common.Strings.{to_upper}
use agentfile.Docker.Layout
use agentfile.Common.Maps.{Assoc}
use agentfile.Spec.Reference.{first_segment, is_host}
use agentfile.Docker.Auth.{
  docker_hub_short, registry_host, host_candidate, entry_for, decode_basic_auth, Credentials,
  resolve_registry_auth,
}
use agentfile.Docker.Auth.Owner.{IsEntry, Names, resolve_registry_auth-Names}
use agentfile.Docker.Auth.Host.{registry_host_lem}
use agentfile.Docker.Container.{ContainerSpec, build_env, build_config, build_host_config}
use agentfile.Docker.Container.Sandbox.{
  writable_targets, writable_user_targets, locked_env, build_host_config-writable,
  build_env-reserved,
}
use agentfile.Docker.Job.{AgentDeps, runtime_ref, container_spec, build_exec_container}
use agentfile.Docker.Job.Same.{build_exec_container-same}
use agentfile.Docker.Job.Frames.{
  Frame, copied, docker_std_copy, copy_loop, read_header, deliver, finish_copy, encode_frames,
  encode_frame, big_endian, payloads,
}
use agentfile.Docker.Job.Frames.RoundTrip.{docker_std_copy-encode_frames}
use agentfile.Executor.Env.Values.{env_value}
use agentfile.Executor.Runtime.{Runtime}
use agentfile.Tests.Samples.{empty_runtime}

abbrev pub deps : AgentDeps
deps = record {
  id = codes "7";
  root = codes "/srv/7";
  base_image = codes "debian";
  mounts =
      record {
        host = codes "/data";
        target = codes "/mnt/data";
        description = [];
        read_only = false;
      }
      ∷ record { host = codes "/ro"; target = codes "/mnt/ro"; description = []; read_only = true }
      ∷ [];
  host_grpc_port = codes "9000";
}

abbrev pub rt : Runtime
rt = record empty_runtime {
  model = codes "openai/gpt";
  runtime = some (record { ref = codes "r:1"; digest = []; binary = [] });
}

abbrev socket : Text
socket = codes "unix:///run/otters.sock"

abbrev spec : ContainerSpec
spec = container_spec deps rt socket (codes "token")

build_host_config-writable_example :
    writable_targets (build_host_config (λ m. m) spec).mounts
    ≡ (Layout.home ∷ Layout.tmp ∷ Layout.var_lib ∷ Layout.workspace ∷ [])
      ++ writable_user_targets spec.user_mounts
      ++ (codes "/run/ottersd.sock" ∷ [])
unfolding container_spec has_prefix
build_host_config-writable_example = build_host_config-writable (λ m. m) spec

build_env-reserved_example :
    env_value (codes "PATH") (build_env (λ c. c) spec) ≡ env_value (codes "PATH") (locked_env spec)
unfolding contains text_eq to_upper container_spec
build_env-reserved_example = build_env-reserved (λ c. c) spec (codes "PATH") refl tt refl

build_exec_container-same_example :
    let config = build_config (λ c. c) spec in
    let host = build_host_config (λ m. m) spec in
    let job =
      build_exec_container
        (λ c. c)
        (λ m. m)
        deps
        rt
        (codes "jq")
        (codes "." ∷ [])
        (codes "1")
        socket
        (codes "token") in
    (job.1.mounts ≡ host.mounts)
    × (job.0.env ≡ config.env)
    × (job.1.extra_hosts ≡ host.extra_hosts)
    × (job.0.image ≡ config.image)
    × (job.0.user ≡ config.user)
    × (job.0.working_dir ≡ config.working_dir)
unfolding runtime_ref
build_exec_container-same_example =
    build_exec_container-same (λ c. c) (λ m. m) deps rt socket (codes "token") (codes "jq")
      (codes "1") (codes "." ∷ []) refl

-- Out, error, and a third stream between.
abbrev frames : List Frame
frames =
    record { stream = 1; payload = codes "ab" }
    ∷ record { stream = 0; payload = codes "x" }
    ∷ record { stream = 2; payload = codes "e" }
    ∷ record { stream = 1; payload = codes "c" }
    ∷ []

copies :
    docker_std_copy false (encode_frames frames)
    ≡ copied (record { stdout = codes "abc"; stderr = codes "e"; failed = false })
unfolding docker_std_copy copy_loop read_header deliver finish_copy encode_frames encode_frame
    big_endian
copies = refl

docker_std_copy-encode_frames_example :
    docker_std_copy false (encode_frames frames)
    ≡ copied (record { stdout = payloads 1 frames; stderr = payloads 2 frames; failed = false })
docker_std_copy-encode_frames_example =
    docker_std_copy-encode_frames false frames
      (omega arith, (omega arith, (omega arith, (omega arith, tt))))

-- Credentials under the old name of Docker Hub: user u, password p.
abbrev auths : Assoc Text
auths = (codes "https://index.docker.io/v1/", codes "dTpw") ∷ (codes "ghcr.io", codes "eDp5") ∷ []

abbrev hub : Credentials
hub = record { username = codes "u"; password = codes "p"; server_address = codes "docker.io" }

pulls : resolve_registry_auth auths (codes "library/debian:12") ≡ some hub
unfolding resolve_registry_auth registry_host entry_for decode_basic_auth text_eq host_candidate
pulls = refl

stays_anonymous : resolve_registry_auth auths (codes "quay.io/a/b@sha256:1") ≡ none
unfolding resolve_registry_auth registry_host entry_for decode_basic_auth text_eq host_candidate
stays_anonymous = refl

resolve_registry_auth-Names_example :
    (hub.server_address ≡ registry_host (codes "library/debian:12"))
    × ((k : Text) × (v : Text) × IsEntry k v auths
        × Names k hub.server_address
        × (decode_basic_auth v ≡ some (hub.username, hub.password)))
resolve_registry_auth-Names_example =
    resolve_registry_auth-Names auths (codes "library/debian:12") hub pulls

registry_host_lem_example : registry_host (codes "ghcr.io/a/b:1") ≡ (
    if contains b'/' (codes "ghcr.io/a/b:1") && is_host (first_segment (codes "ghcr.io/a/b:1"))
    then first_segment (codes "ghcr.io/a/b:1")
    else docker_hub_short)
unfolding contains
registry_host_lem_example = registry_host_lem (codes "ghcr.io/a/b:1") refl
