-- ===== src/Docker/Launch/Images.antt =====
-- executor/docker/container.go and agent.go: the images that a container is made of.
use agentfile.Common.{
  ◌≡◌, refl, inl, inr, ◌||◌, none, some, List, [], ◌∷◌, ◌++◌, map, arith, Bool-cases,
}
use agentfile.Common.Lists.{All, All-append}
use agentfile.Common.Maps.{Assoc, insert}
use agentfile.Common.Strings.{contains_text}
use agentfile.Common.Texts.{Text, codes, has_prefix, text_eq, is_empty}
use agentfile.Docker.Container.{
  ContainerMount, image, bind, agent_fhs_mounts, host_bind, image_mount, bin_mount, user_mount,
  daemon_mounts, daemon_access, unix_scheme, build_host_config,
}
use agentfile.Docker.Job.{
  AgentDeps, runtime_ref, effective_mounts, add_tool_refs, tool_refs, container_spec,
}
use agentfile.Executor.Runtime.{HostMount, ResolvedTool, Runtime}

-- What the mounts of a container take from images.
unfoldable pub image_sources : List ContainerMount → List Text
image_sources [] = []
image_sources (m ∷ ms) = elim m.type [
  | image ↦ m.source ∷ image_sources ms
  | bind ↦ image_sources ms
]

image_sources-append :
    (ms ns : List ContainerMount) → image_sources (ms ++ ns) ≡ image_sources ms ++ image_sources ns
unfolding image_sources
image_sources-append [] ns = refl
image_sources-append (m ∷ ms) ns = ground (arith, image_sources-append ms ns)

sources_append :
    (P : Text → Type 0) (ms ns : List ContainerMount)
    → All P (image_sources ms)
    → All P (image_sources ns)
    → All P (image_sources (ms ++ ns))
sources_append P ms ns h k =
    rw (image_sources-append ms ns) (All-append P (image_sources ms) (image_sources ns) h k)

image_sources-user : (ms : List HostMount) → image_sources (map user_mount ms) ≡ []
unfolding image_sources user_mount
image_sources-user [] = refl
image_sources-user (m ∷ ms) = image_sources-user ms

image_sources-access :
    (daemon_url : Text)
    → image_sources (elim (daemon_access daemon_url).mount [ none ↦ [] | some m ↦ m ∷ [] ]) ≡ []
unfolding image_sources daemon_access
image_sources-access daemon_url = elim (Bool-cases (is_empty daemon_url)) [
  | inl e ↦ rw (daemon_access, e) refl
  | inr e ↦ elim (Bool-cases (has_prefix daemon_url unix_scheme)) [
    | inl p ↦ rw (daemon_access, e, p) refl
    | inr p ↦ elim (Bool-cases (contains_text daemon_url (codes "host.docker.internal"))) [
      | inl q ↦ rw (daemon_access, e, p, q) refl
      | inr q ↦ rw (daemon_access, e, p, q) refl
    ]
  ]
]

image_sources-daemon :
    (daemon_url agent_token : Text) → image_sources (daemon_mounts daemon_url agent_token) ≡ []
unfolding image_sources daemon_mounts
image_sources-daemon daemon_url agent_token =
    elim (Bool-cases (is_empty daemon_url || is_empty agent_token)) [
      | inl e ↦ rw (daemon_mounts, e) refl
      | inr e ↦ rw (daemon_mounts, e) (image_sources-access daemon_url)
    ]

module _ (P : Text → Type 0) where
  abbrev pub Values : Assoc Text → Type 0
  Values m = All (λ (e : Text × Text). P e.1) m

  Values-insert : (k v : Text) (m : Assoc Text) → P v → Values m → Values (insert k v m)
  unfolding insert
  Values-insert k v [] p h = (p, tt)
  Values-insert k v ((j, w) ∷ m) p h = elim (Bool-cases (text_eq j k)) [
    | inl e ↦ rw e (p, h.1)
    | inr e ↦ rw e (h.0, Values-insert k v m p h.1)
  ]

  Values-add_tool_refs :
      (tools : List ResolvedTool) (m : Assoc Text)
      → All (λ (t : ResolvedTool). P t.ref) tools
      → Values m
      → Values (add_tool_refs tools m)
  unfolding add_tool_refs
  Values-add_tool_refs [] m ps h = h
  Values-add_tool_refs (t ∷ tools) m (p, ps) h =
      Values-add_tool_refs tools (insert t.name t.ref m) ps (Values-insert t.name t.ref m p h)

  image_sources-bins : (m : Assoc Text) → Values m → All P (image_sources (map bin_mount m))
  unfolding image_sources bin_mount image_mount
  image_sources-bins [] h = tt
  image_sources-bins ((k, v) ∷ m) h = (h.0, image_sources-bins m h.1)

-- The images of a container: those of the runtime and of the tools.
pub host_config-images :
    (P : Text → Type 0) (order : Assoc Text → Assoc Text) (deps : AgentDeps) (rt : Runtime)
    (daemon_url agent_token : Text)
    → ((m : Assoc Text) → Values P m → Values P (order m))
    → P (runtime_ref rt)
    → All (λ (t : ResolvedTool). P t.ref) rt.tools
    → All P (
        image_sources
          (build_host_config order (container_spec deps rt daemon_url agent_token)).mounts)
unfolding build_host_config container_spec tool_refs image_sources image_mount host_bind
    agent_fhs_mounts
host_config-images P order deps rt daemon_url agent_token orders runtime tools =
    let bins = order (add_tool_refs rt.tools []) in
    let users = map user_mount (effective_mounts deps.mounts rt.mounts) in
    let has_bins =
      image_sources-bins P bins
        (orders (add_tool_refs rt.tools []) (Values-add_tool_refs P rt.tools [] tools tt)) in
    let has_users : All P (image_sources users) =
      rw (image_sources-user (effective_mounts deps.mounts rt.mounts)) tt in
    let has_daemon : All P (image_sources (daemon_mounts daemon_url agent_token)) =
      rw (image_sources-daemon daemon_url agent_token) tt in
    (
      runtime,
      sources_append P (map bin_mount bins ++ users) (daemon_mounts daemon_url agent_token)
          (sources_append P (map bin_mount bins) users has_bins has_users) has_daemon,
    )
