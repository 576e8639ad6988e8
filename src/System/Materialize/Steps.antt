-- ===== src/System/Materialize/Steps.antt =====
-- executor/system/workspace.go: what each step of the code touches.
use agentfile.Common.{
  ℕ, ◌≡◌, refl, ◌⊎◌, inl, inr, Bool, true, false, not, Option, List, [], ◌∷◌, arith, Option-cases,
}
use agentfile.Common.Lists.{All}
use agentfile.Common.Paths.{join}
use agentfile.Common.Paths.Plain.{is_plain, is_plain_path}
use agentfile.Common.Results.{Result-cases}
use agentfile.Common.Texts.{Text, codes, is_empty}
use agentfile.Spec.Types.{Bin, Agent, Agentfile}
use agentfile.Spec.Names.{is_path_safe_name}
use agentfile.Spec.Reference.{Reference, parse_reference}
use agentfile.Store.{Manifest, Descriptor, context_media_type, octet_stream}
use agentfile.Executor.Runtime.{HostMount, Runtime}
use agentfile.System.Io.{
  Effect, other, Io, act, View, make_dir, write_file, write_agent_md, pull_bin, copy_local,
  write_config, host_make_dir, host_remove, host_symlink,
}
use agentfile.System.Workspace.{Workspace, runtime_bin, bin_dir, fhs_dirs}
use agentfile.System.Workspace.Mounts.{link_mount, mount_link_path}
use agentfile.System.Materialize
use agentfile.System.Workspace.Markdown.Sections.{Contents}
use agentfile.System.Workspace.Mounts.Links.{Under, IsDirOf, dir-IsDirOf, mount_link_path-Under}
use agentfile.System.Materialize.Files.{
  is_plain_path-file, is_plain_path-usage_dir, is_plain_path-usage_file,
}
use agentfile.System.Io.Keeps.{
  Keeps, Keeps->>=, Keeps->>, Keeps-give, Keeps-pure, Keeps-raise, Keeps-read, Keeps-set_mounts,
  Keeps-set_view, Keeps-ignore, Keeps-for_each, Keeps-every, Keeps-if, Keeps-elim, Keeps-act,
}
use agentfile.System.Materialize.Bins.{BinsSafe}

pub not-eq-false : (b : Bool) → not b ≡ false → b ≡ true
not-eq-false b h = ground arith

-- The link is a file that is named as it should, right in the directory of the tools.
abbrev pub InBins : Text → Text → Type 0
InBins root link =
    (name : Text) × (is_path_safe_name name ≡ true)
    × (link ≡ join (join root (codes "opt/bins")) name)

-- The directory of a link that is in the tree.
abbrev pub HoldsLink : Text → Text → Type 0
HoldsLink root path = (link : Text) × Under root link × IsDirOf link path

-- What an operation may touch.
abbrev pub IsConfined : Text → Effect → Type 0
IsConfined root (make_dir path) = is_plain_path path ≡ true
IsConfined root (write_file path content) = is_plain_path path ≡ true
IsConfined root (write_agent_md path af id capabilities) = is_plain_path path ≡ true
IsConfined root (pull_bin ref dest) = is_plain_path dest ≡ true
IsConfined root (copy_local src dest) = is_plain_path dest ≡ true
IsConfined root (write_config runtime) = Unit
IsConfined root (host_make_dir path) = HoldsLink root path ⊎ (path ≡ join root (codes "opt/bins"))
IsConfined root (host_remove link) = Under root link ⊎ InBins root link
IsConfined root (host_symlink target link) = Under root link ⊎ InBins root link

pub fhs_dirs-plain : All (λ path. is_plain_path path ≡ true) fhs_dirs
unfolding is_plain_path is_plain
fhs_dirs-plain = (
  refl,
  (refl, (refl, (refl, (refl, (refl, (refl, (refl, (refl, (refl, (refl, (refl, tt))))))))))),
)

module _ (fails : List Effect → Effect → Bool) (w : Workspace) (root : Text) where
  abbrev pub Safe : {A : Type 0} → Io A → Type 0
  Safe m = Keeps (IsConfined root) m

  pub fetch_layer-Safe : (layer : Descriptor) → Safe (Materialize.fetch_layer w.store layer)
  unfolding Materialize.fetch_layer
  fetch_layer-Safe layer = elim (Result-cases (w.store.fetch layer)) [
    | inl (body, e) ↦ rw (e, Materialize.fetch_layer) (Keeps-pure body)
    | inr (why, e) ↦ rw (e, Materialize.fetch_layer) (Keeps-raise other)
  ]

  pub write_titled_layer-Safe :
      (c : ℕ) (dir : Text) (layer : Descriptor)
      → is_plain_path (c ∷ dir) ≡ true
      → Safe (Materialize.write_titled_layer fails w root (c ∷ dir) layer)
  unfolding Materialize.write_titled_layer
  write_titled_layer-Safe c dir layer h =
      Keeps-if (is_empty layer.title) (λ e. Keeps-pure _)
        (λ e.
          Keeps-if (not (is_path_safe_name layer.title)) (λ u. Keeps-raise _)
            (λ u. Keeps->>= (fetch_layer-Safe layer) (λ body. Keeps-act fails _ (
              is_plain_path-file c dir layer.title h
                (not-eq-false (is_path_safe_name layer.title) u)))))

  pub write_agentfile-Safe :
      (layer : Descriptor) → Safe (Materialize.write_agentfile fails w root layer)
  unfolding Materialize.write_agentfile is_plain_path is_plain
  write_agentfile-Safe layer =
      Keeps->>= (fetch_layer-Safe layer)
        (λ body. Keeps-act fails (write_file (codes "etc/Agentfile") body) refl)

  pub extract_titled_layers-Safe :
      (manifest : Manifest) (media_type : Text) (c : ℕ) (dir : Text)
      → is_plain_path (c ∷ dir) ≡ true
      → Safe (Materialize.extract_titled_layers fails w root manifest media_type (c ∷ dir))
  unfolding Materialize.extract_titled_layers
  extract_titled_layers-Safe manifest media_type c dir h =
      Keeps-every (Materialize.write_titled_layer fails w root (c ∷ dir))
        (Materialize.layers manifest.layers media_type)
        (λ layer. write_titled_layer-Safe c dir layer h)

  pub extract_layers-Safe :
      (manifest : Manifest) → Safe (Materialize.extract_layers fails w root manifest)
  unfolding Materialize.extract_layers is_plain_path is_plain
  extract_layers-Safe manifest =
      Keeps->>
        (Keeps-every (Materialize.write_agentfile fails w root)
          (Materialize.layers manifest.layers Materialize.agentfile_media_type)
          write_agentfile-Safe)
        (Keeps->>
          (extract_titled_layers-Safe manifest context_media_type b'e' (codes "tc/context") refl)
          (extract_titled_layers-Safe manifest octet_stream b'e' (codes "tc/data") refl))

  pub write_workspace_context-Safe :
      (c : Contents) → Safe (Materialize.write_workspace_context fails w root c)
  unfolding Materialize.write_workspace_context is_plain_path is_plain
  write_workspace_context-Safe c = Keeps->>= Keeps-read (λ s. Keeps-act fails _ refl)

  pub link_mount-Safe : (m : HostMount) → Safe (link_mount fails root m)
  unfolding link_mount
  link_mount-Safe m = elim (Option-cases (mount_link_path root m.target)) [
    | inl e ↦ rw (e, link_mount) (Keeps-raise other)
    | inr (link, e) ↦
        let under = mount_link_path-Under root m.target link e in
        rw (e, link_mount)
          (Keeps->> (Keeps-act fails _ (inl (link, under, dir-IsDirOf link))) (
            Keeps->> (Keeps-ignore (Keeps-act fails _ (inl under)))
              (Keeps-act fails _ (inl under))))
  ]

  pub link_mounts-Safe : (ms : List HostMount) → Safe (Materialize.link_mounts fails w root ms)
  unfolding Materialize.link_mounts Materialize.write_mounts_context is_plain_path is_plain
  link_mounts-Safe [] = Keeps-pure tt
  link_mounts-Safe (m ∷ ms) =
      Keeps-if (is_empty root) (λ e. Keeps-raise _)
        (λ e.
          Keeps->> (Keeps-every (link_mount fails root) (m ∷ ms) link_mount-Safe)
            (Keeps->>= Keeps-read (λ s. Keeps-act fails _ refl)))

  pub apply_mounts-Safe : Safe (Materialize.apply_mounts fails w root)
  unfolding Materialize.apply_mounts
  apply_mounts-Safe = Keeps->>= Keeps-read (λ s. link_mounts-Safe s.mounts)

  pub stamp_bin_symlink-Safe :
      (f : Text → Option Text) (t : Bin)
      → is_path_safe_name t.name ≡ true
      → Safe (Materialize.stamp_bin_symlink fails w root f t)
  unfolding Materialize.stamp_bin_symlink
  stamp_bin_symlink-Safe f t h = Keeps-elim (f t.name) (Keeps-pure _) (λ target.
      Keeps-if (is_empty target) (λ e. Keeps-pure _)
        (λ e.
          Keeps->> (Keeps-ignore (Keeps-act fails _ (inr (t.name, h, refl))))
            (Keeps-act fails _ (inr (t.name, h, refl)))))

  pub stamp_bin_symlinks-Safe :
      (a : Agent) → BinsSafe a → Safe (Materialize.stamp_bin_symlinks fails w root a)
  unfolding Materialize.stamp_bin_symlinks
  stamp_bin_symlinks-Safe a h = Keeps-elim w.symlink_bin_at (Keeps-pure _) (λ f.
      Keeps-if (is_empty root) (λ e. Keeps-raise _)
        (λ e.
          Keeps->> (Keeps-act fails _ (inr refl))
            (Keeps-for_each a.bins (stamp_bin_symlink-Safe f) h)))

  pub install_tool_doc-Safe :
      (f : Reference → Option Text) (t : Bin)
      → is_path_safe_name t.name ≡ true
      → Safe (Materialize.install_tool_doc fails w root f t)
  unfolding Materialize.install_tool_doc
  install_tool_doc-Safe f t h = Keeps-elim (f (parse_reference t.image)) (Keeps-pure _) (λ body.
      Keeps-if (is_empty body) (λ e. Keeps-pure _)
        (λ e.
          Keeps->> (Keeps-act fails _ (is_plain_path-usage_dir t.name h))
            (Keeps-act fails _ (is_plain_path-usage_file t.name h))))

  pub install_tool_docs-Safe :
      (a : Agent) → BinsSafe a → Safe (Materialize.install_tool_docs fails w root a)
  unfolding Materialize.install_tool_docs
  install_tool_docs-Safe a h =
      Keeps-elim w.usage_fetcher (Keeps-pure _)
        (λ f. Keeps-for_each a.bins (install_tool_doc-Safe f) h)

  pub make_fhs_dir-Safe :
      (path : Text) → is_plain_path path ≡ true → Safe (Materialize.make_fhs_dir fails w root path)
  unfolding Materialize.make_fhs_dir
  make_fhs_dir-Safe path h = Keeps-act fails (make_dir path) h

  pub write_agent_md-Safe :
      (af : Agentfile) (id : Text)
      → Safe (act fails (write_agent_md (codes "etc/context/AGENT.md") af id w.capabilities))
  unfolding is_plain_path is_plain
  write_agent_md-Safe af id = Keeps-act fails _ refl

  pub write_runtime-Safe :
      (a : Agent)
      → BinsSafe a
      → (view : View) (rt : Runtime) → Safe (Materialize.write_runtime fails w root a view rt)
  unfolding Materialize.write_runtime
  write_runtime-Safe a h view rt = Keeps->> (Keeps-act fails (write_config rt) tt) (
      Keeps->> (Keeps-set_view _) (
        Keeps->> (write_workspace_context-Safe _) (
          Keeps->> apply_mounts-Safe (
            Keeps->> (stamp_bin_symlinks-Safe a h)
              (Keeps->> (install_tool_docs-Safe a h) (Keeps-pure _))))))

  pub materialize_agent-Safe :
      (manifest : Manifest) (af : Agentfile) (a : Agent) (id addr : Text)
      → BinsSafe a
      → Safe (Materialize.materialize_agent fails w root manifest af a id addr)
  unfolding Materialize.materialize_agent
  materialize_agent-Safe manifest af a id addr h = Keeps->>= Keeps-read (λ s.
      Keeps->> (Keeps-set_mounts _) (
        Keeps->> (Keeps-for_each fhs_dirs make_fhs_dir-Safe fhs_dirs-plain) (
          Keeps->> (extract_layers-Safe manifest) (
            Keeps->> (write_agent_md-Safe af id)
              (Keeps->>= (Keeps-give _) (write_runtime-Safe a h s.view))))))

  pub install_runtime-Safe : (a : Agent) → Safe (Materialize.install_runtime fails w root a)
  unfolding Materialize.install_runtime is_plain_path is_plain
  install_runtime-Safe a =
      Keeps-if (not (is_empty w.local_runtime))
        (λ e. Keeps-act fails (copy_local w.local_runtime runtime_bin) refl)
        (λ e.
          Keeps-if (is_empty a.runtime) (λ u. Keeps-pure _)
            (λ u. Keeps-act fails (pull_bin (parse_reference a.runtime) runtime_bin) refl))

  pub install_tools-Safe :
      (a : Agent) → BinsSafe a → Safe (Materialize.install_tools fails w root a)
  unfolding Materialize.install_tools Materialize.install_tool is_plain_path is_plain
  install_tools-Safe a h =
      Keeps-for_each {f = Materialize.install_tool fails w root} a.bins
        (λ t safe.
          Keeps-act fails (pull_bin (parse_reference t.image) (join bin_dir t.name))
            (is_plain_path-file b'u' (codes "sr/bin") t.name refl safe))
        h
