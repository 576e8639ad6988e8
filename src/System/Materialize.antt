-- ===== src/System/Materialize.antt =====
-- executor/system/workspace.go: the steps that make the files of an agent.
pub mod Files
pub mod Bins
pub mod Steps
pub mod Confined
use agentfile.Common.{false, Bool, not, Option, none, some, List, [], ◌∷◌, ◌++◌, map, if◌then◌else◌}
use agentfile.Common.Paths.{join}
use agentfile.Common.Results.{ok, err}
use agentfile.Common.Texts.{Text, codes, text_eq, is_empty}
use agentfile.Spec.Types.{Bin, Agent, Agentfile}
use agentfile.Spec.Names.{is_path_safe_name}
use agentfile.Spec.Overrides.{apply}
use agentfile.Spec.Reference.{Reference, parse_reference}
use agentfile.Spec.Validate.{validate}
use agentfile.Store.{Source, Manifest, Descriptor, load, context_media_type, octet_stream}
use agentfile.Executor.Runtime.{HostMount, ResolvedTool, Runtime}
use agentfile.System.Io.{
  Effect, pull, config, other, panic, Io, ◌>>=◌, ◌>>◌, give, pure, raise, read, set_mounts,
  set_view, join_error, ignore, for_each, act, View, make_dir, write_file, write_agent_md, pull_bin,
  copy_local, write_config, host_make_dir, host_remove, host_symlink,
}
use agentfile.System.Workspace.{
  Workspace, runtime_bin, context_dir, data_dir, bin_dir, fhs_dirs, merge_mounts, usage_file,
  build_runtime,
}
use agentfile.System.Workspace.Mounts.{link_mount}
use agentfile.System.Workspace.Markdown.{workspace_markdown, mounts_markdown}
use agentfile.System.Workspace.Markdown.Sections.{Contents}

abbrev pub agentfile_media_type : Text
agentfile_media_type = codes "application/vnd.openotters.agentfile"

-- store.Layers (store/manifest.go)
unfoldable pub layers : List Descriptor → Text → List Descriptor
unfolding text_eq
layers [] media_type = []
layers (l ∷ ls) media_type =
    let rest = layers ls media_type in if text_eq l.media_type media_type then l ∷ rest else rest

-- store.FetchLayer (store/manifest.go)
unfoldable pub fetch_layer : Source → Descriptor → Io Text
fetch_layer s layer = elim (s.fetch layer) [ err why ↦ raise other | ok body ↦ pure body ]

-- `fails` says which operations fail, `w` is the workspace, `root` the directory of the agent.
module _ (fails : List Effect → Effect → Bool) (w : Workspace) (root : Text) where
  unfoldable pub make_fhs_dir : Text → Io (Unit {0})
  unfolding act
  make_fhs_dir path = act fails (make_dir path)

  unfoldable pub write_agentfile : Descriptor → Io (Unit {0})
  unfolding act fetch_layer
  write_agentfile layer = do
    body ← fetch_layer w.store layer
    act fails (write_file (codes "etc/Agentfile") body)

  unfoldable pub write_titled_layer : Text → Descriptor → Io (Unit {0})
  unfolding act fetch_layer
  write_titled_layer dest_dir layer =
      if is_empty layer.title
      then pure tt
      else if not (is_path_safe_name layer.title)
      then raise other
      else do
        body ← fetch_layer w.store layer
        act fails (write_file (join dest_dir layer.title) body)

  unfoldable pub extract_titled_layers : Manifest → Text → Text → Io (Unit {0})
  unfolding for_each layers write_titled_layer
  extract_titled_layers manifest media_type dest_dir =
      for_each (write_titled_layer dest_dir) (layers manifest.layers media_type)

  unfoldable pub extract_layers : Manifest → Io (Unit {0})
  unfolding for_each layers write_agentfile extract_titled_layers
  extract_layers manifest = do
    for_each write_agentfile (layers manifest.layers agentfile_media_type)
    extract_titled_layers manifest context_media_type context_dir
    extract_titled_layers manifest octet_stream data_dir

  unfoldable pub write_workspace_context : Contents → Io (Unit {0})
  unfolding act workspace_markdown
  write_workspace_context contents = do
    s ← read
    act fails (
        write_file (codes "etc/context/WORKSPACE.md") (
          workspace_markdown
            (if is_empty s.view.root then record s.view { root = root } else s.view) contents))

  unfoldable pub write_mounts_context : Io (Unit {0})
  unfolding act mounts_markdown
  write_mounts_context = do
    s ← read
    act fails (write_file (codes "etc/context/MOUNTS.md") (mounts_markdown s.mounts))

  unfoldable pub link_mounts : List HostMount → Io (Unit {0})
  unfolding for_each link_mount write_mounts_context
  link_mounts [] = pure tt
  link_mounts (m ∷ mounts) =
      if is_empty root
      then raise other
      else do for_each (link_mount fails root) (m ∷ mounts); write_mounts_context

  unfoldable pub apply_mounts : Io (Unit {0})
  unfolding link_mounts
  apply_mounts = do s ← read; link_mounts s.mounts

  unfoldable pub stamp_bin_symlink : (Text → Option Text) → Bin → Io (Unit {0})
  unfolding act
  stamp_bin_symlink symlink_bin_at t = elim (symlink_bin_at t.name) [
    | none ↦ pure tt
    | some target ↦ if is_empty target then pure tt else do
      ignore (act fails (host_remove (join (join root (codes "opt/bins")) t.name)))
      act fails (host_symlink target (join (join root (codes "opt/bins")) t.name))
  ]

  unfoldable pub stamp_bin_symlinks : Agent → Io (Unit {0})
  unfolding act for_each stamp_bin_symlink
  stamp_bin_symlinks a = elim w.symlink_bin_at [
    | none ↦ pure tt
    | some symlink_bin_at ↦ if is_empty root then raise other else do
      act fails (host_make_dir (join root (codes "opt/bins")))
      for_each (stamp_bin_symlink symlink_bin_at) a.bins
  ]

  unfoldable pub install_tool_doc : (Reference → Option Text) → Bin → Io (Unit {0})
  unfolding act
  install_tool_doc usage_fetcher t = elim (usage_fetcher (parse_reference t.image)) [
    | none ↦ pure tt
    | some body ↦ if is_empty body then pure tt else do
      act fails (make_dir (join data_dir (codes "bins/" ++ t.name)))
      act fails (write_file (usage_file t.name) body)
  ]

  unfoldable pub install_tool_docs : Agent → Io (Unit {0})
  unfolding for_each install_tool_doc
  install_tool_docs a = elim w.usage_fetcher [
    | none ↦ pure tt
    | some usage_fetcher ↦ for_each (install_tool_doc usage_fetcher) a.bins
  ]

  unfoldable pub install_runtime : Agent → Io (Unit {0})
  unfolding act
  install_runtime a =
      if not (is_empty w.local_runtime)
      then act fails (copy_local w.local_runtime runtime_bin)
      else if is_empty a.runtime
      then pure tt
      else act fails (pull_bin (parse_reference a.runtime) runtime_bin)

  unfoldable pub install_tool : Bin → Io (Unit {0})
  unfolding act
  install_tool t = act fails (pull_bin (parse_reference t.image) (join bin_dir t.name))

  unfoldable pub install_tools : Agent → Io (Unit {0})
  unfolding for_each install_tool
  install_tools a = for_each install_tool a.bins

  -- The directories of the tools in the view, unless it has some.
  unfoldable pub fill_view : List ResolvedTool → View → View
  fill_view tools view = elim w.view_bin_dirs_for_tools [
    | none ↦ view
    | some dirs ↦ elim view.bin_dirs [
      | [] ↦ record view { bin_dirs = dirs (map (λ (t : ResolvedTool). t.name) tools) }
      | d ∷ ds ↦ view
    ]
  ]

  -- The steps that follow the descriptor.
  unfoldable pub write_runtime : Agent → View → Runtime → Io Runtime
  unfolding act fill_view write_workspace_context apply_mounts stamp_bin_symlinks install_tool_docs
  write_runtime a view rt = do
    act fails (write_config rt)
    set_view (fill_view rt.tools view)
    write_workspace_context (record { context = rt.context; tools = rt.tools; adds = a.adds })
    apply_mounts
    stamp_bin_symlinks a
    install_tool_docs a
    pure rt

  -- The steps that follow the overrides.
  unfoldable pub materialize_agent : Manifest → Agentfile → Agent → Text → Text → Io Runtime
  unfolding for_each make_fhs_dir extract_layers act write_runtime
  materialize_agent manifest af a id addr = do
    s ← read
    set_mounts (merge_mounts s.mounts a.runtime_mounts)
    for_each make_fhs_dir fhs_dirs
    extract_layers manifest
    act fails (write_agent_md (codes "etc/context/AGENT.md") af id w.capabilities)
    rt ← give (build_runtime w (merge_mounts s.mounts a.runtime_mounts) s.view af a id addr)
    write_runtime a s.view rt

  -- The descriptor with the agent it was made from.
  unfoldable pub materialize_content : Text → Text → Io (Runtime × Agent)
  unfolding load validate apply materialize_agent
  materialize_content id addr = elim (load w.store w.ref) [
    | err e ↦ raise pull
    | ok (manifest, loaded) ↦ elim (validate (some loaded)) [
      | err e ↦ raise config
      | ok u ↦ elim (apply w.overrides loaded) [
        | none ↦ raise panic
        | some af ↦ elim af.agent [
          | none ↦ raise panic
          | some a ↦ materialize_agent manifest af a id addr >>= λ rt. pure (rt, a)
        ]
      ]
    ]
  ]

  unfoldable pub materialize : Text → Text → Io Runtime
  unfolding materialize_content install_runtime install_tools
  materialize id addr = do
    (rt, a) ← materialize_content id addr
    join_error pull (install_runtime a)
    join_error pull (install_tools a)
    pure rt
