-- ===== src/Docker/Container/Sandbox.antt =====
-- executor/docker/container.go: what a container may write to, and what its environment holds.
use agentfile.Common.{
  ℕ, ◌≡◌, refl, ap, ◌∙◌, true, false, List, [], ◌∷◌, ◌++◌, map, arith, if◌then◌else◌, ◌||◌, inl,
  inr, Bool-cases,
}
use agentfile.Common.Maps.{Assoc}
use agentfile.Common.Strings.{to_upper, contains_text}
use agentfile.Common.Texts.{Text, codes, mem, contains, is_empty, has_prefix}
use agentfile.Docker.Layout
use agentfile.Docker.Container.{
  ContainerMount, ContainerSpec, daemon_access, build_env, host_bind, agent_fhs_mounts, image_mount,
  bin_mount, user_mount, daemon_mounts, build_host_config,
}
use agentfile.Executor.Env.{build_locked_env, reserved_runtime_env_keys}
use agentfile.Executor.Env.Locked.{KeysPlain}
use agentfile.Executor.Env.Values.{env_value}
use agentfile.Executor.Process.Locked.{extended-reserved}
use agentfile.Executor.Runtime.{HostMount}

-- The targets of the mounts that are not read-only.
unfoldable pub writable_targets : List ContainerMount → List Text
writable_targets [] = []
writable_targets (m ∷ ms) =
    let rest = writable_targets ms in if m.read_only then rest else m.target ∷ rest

-- The targets that the user mounted for writing.
unfoldable pub writable_user_targets : List HostMount → List Text
writable_user_targets [] = []
writable_user_targets (m ∷ ms) =
    let rest = writable_user_targets ms in if m.read_only then rest else m.target ∷ rest

writable-append :
    (xs ys : List ContainerMount)
    → writable_targets (xs ++ ys) ≡ writable_targets xs ++ writable_targets ys
unfolding writable_targets
writable-append [] ys = refl
writable-append (x ∷ xs) ys = ground (arith, writable-append xs ys)

writable-bins : (bins : Assoc Text) → writable_targets (map bin_mount bins) ≡ []
unfolding writable_targets bin_mount image_mount
writable-bins [] = refl
writable-bins ((n, r) ∷ bins) = writable-bins bins

writable-users :
    (ms : List HostMount) → writable_targets (map user_mount ms) ≡ writable_user_targets ms
unfolding writable_targets writable_user_targets user_mount
writable-users [] = refl
writable-users (m ∷ ms) = ground (arith, writable-users ms)

-- Where the socket of the daemon is mounted: at one place, if there are a token and an address, and the address
-- is that of a unix socket.
abbrev pub socket_targets : Text → Text → List Text
socket_targets daemon_url agent_token =
    if is_empty daemon_url || is_empty agent_token
    then []
    else if has_prefix daemon_url (codes "unix://")
    then Layout.daemon_socket ∷ []
    else []

writable-daemon :
    (daemon_url agent_token : Text)
    → writable_targets (daemon_mounts daemon_url agent_token)
      ≡ socket_targets daemon_url agent_token
unfolding writable_targets daemon_mounts daemon_access
writable-daemon daemon_url agent_token = elim (Bool-cases (is_empty daemon_url)) [
  | inl e ↦ rw (daemon_mounts, e) refl
  | inr e ↦ elim (Bool-cases (is_empty agent_token)) [
    | inl t ↦ rw (daemon_mounts, e, t) refl
    | inr t ↦ elim (Bool-cases (has_prefix daemon_url (codes "unix://"))) [
      | inl p ↦ rw (daemon_mounts, daemon_access, e, t, p) refl
      | inr p ↦ elim (Bool-cases (contains_text daemon_url (codes "host.docker.internal"))) [
        | inl q ↦ rw (daemon_mounts, daemon_access, e, t, p, q) refl
        | inr q ↦ rw (daemon_mounts, daemon_access, e, t, p, q) refl
      ]
    ]
  ]
]

-- The mounts of a runtime's container that are not read-only are, in this order, at the home, at /tmp, /var/lib and
-- the workspace of the agent, at what the user mounted for writing, and at the place of the daemon's socket if
-- the daemon is reached by a unix socket and there is a token; whatever the images and their order.
pub build_host_config-writable :
    (order : Assoc Text → Assoc Text) (s : ContainerSpec)
    → writable_targets (build_host_config order s).mounts
      ≡ (Layout.home ∷ Layout.tmp ∷ Layout.var_lib ∷ Layout.workspace ∷ [])
        ++ writable_user_targets s.user_mounts
        ++ socket_targets s.daemon_url s.agent_token
unfolding build_host_config writable_targets agent_fhs_mounts host_bind image_mount
build_host_config-writable order s =
    let base =
      agent_fhs_mounts s.agent_root ++ image_mount s.runtime_image Layout.runtime_dir ∷ [] in
    let bins = map bin_mount (order s.bin_images) in
    let users = map user_mount s.user_mounts in
    let daemon = daemon_mounts s.daemon_url s.agent_token in
    writable-append (base ++ bins ++ users) daemon
    ∙ ap (λ ts. writable_targets (base ++ bins ++ users) ++ ts)
        (writable-daemon s.daemon_url s.agent_token)
    ∙ ap (λ ts. ts ++ socket_targets s.daemon_url s.agent_token)
        (writable-append (base ++ bins) users
          ∙ ap (λ ts. ts ++ writable_targets users)
              (writable-append base bins
                ∙ ap (λ ts. writable_targets base ++ ts) (writable-bins (order s.bin_images)))
          ∙ ap (λ ts. writable_targets base ++ [] ++ ts) (writable-users s.user_mounts))

-- The locked-down environment of a container.
abbrev pub locked_env : ContainerSpec → List Text
locked_env s = build_locked_env (record {
  agent_root = Layout.agent_root;
  bin_dirs = Layout.bins_root ∷ [];
  daemon_url = (daemon_access s.daemon_url).container_url;
  agent_token = s.agent_token;
})

-- Each of the reserved keys has in a container the value that the locked-down environment gives it, as
-- long as no user key and not the provider holds an equals sign.
pub build_env-reserved :
    (upper : ℕ → ℕ) (s : ContainerSpec) (k : Text)
    → mem k reserved_runtime_env_keys ≡ true
    → KeysPlain s.user_envs
    → contains b'=' (to_upper upper s.provider) ≡ false
    → env_value k (build_env upper s) ≡ env_value k (locked_env s)
unfolding build_env
build_env-reserved upper s k m plain h =
    extended-reserved upper (locked_env s) s.provider s.api_key s.api_base s.configs s.user_envs k m
      plain h
