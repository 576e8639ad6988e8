-- ===== src/System/Workspace/Markdown/Sections.antt =====
-- executor/system/workspace.go: the parts of the tree that WORKSPACE.md shows.
use agentfile.Common.{Bool, false, not, ◌||◌, List, [], ◌∷◌, ◌++◌, if◌then◌else◌}
use agentfile.Common.Paths.{join, base}
use agentfile.Common.Texts.{Text, codes, is_empty, trim_prefix}
use agentfile.Spec.Types.{Add}
use agentfile.Executor.Runtime.{ContextEntry, ResolvedTool}
use agentfile.System.Io.{View}

-- The writes of a buffer, one after the other.
abbrev pub text : List Text → Text
text [] = []
text (t ∷ ts) = t ++ text ts

-- workspaceContents
pub record Contents : Type 0 where
  pub context : List ContextEntry
  pub tools : List ResolvedTool
  pub adds : List Add

-- workspacePathSet
pub record Paths : Type 0 where
  pub context : Text
  pub files : Text
  pub workspace : Text
  pub home : Text
  pub tmp : Text
  pub varlib : Text
  pub mounts : Text
  pub bins : List Text
  pub runtime : Text

unfoldable pub workspace_paths : View → Paths
workspace_paths view = record {
  context = join view.root (codes "etc/context");
  files = join view.root (codes "etc/data");
  workspace =
      if is_empty view.workspace_dir
      then join view.root (codes "workspace")
      else view.workspace_dir;
  home = join view.root (codes "home");
  tmp = join view.root (codes "tmp");
  varlib = join view.root (codes "var/lib");
  mounts = join (join view.root (codes "etc/context")) (codes "MOUNTS.md");
  bins = elim view.bin_dirs [ [] ↦ join view.root (codes "usr/bin") ∷ [] | d ∷ ds ↦ d ∷ ds ];
  runtime =
      if is_empty view.runtime_bin
      then join view.root (codes "usr/local/bin/runtime")
      else view.runtime_bin;
}

-- writeTreeEntry
unfoldable pub tree_entry : Text → Text → Text
tree_entry name description =
    if is_empty description
    then text (codes "    - `" ∷ name ∷ codes "`\n" ∷ [])
    else text (codes "    - `" ∷ name ∷ codes "` — " ∷ description ∷ codes "\n" ∷ [])

unfoldable pub any_tool_has_usage : List ResolvedTool → Bool
any_tool_has_usage [] = false
any_tool_has_usage (t ∷ tools) = not (is_empty t.usage) || any_tool_has_usage tools

unfoldable pub context_lines : List ContextEntry → Text
unfolding tree_entry base
context_lines [] = []
context_lines (c ∷ cs) = tree_entry (base c.file) c.description ++ context_lines cs

unfoldable pub add_lines : List Add → Text
unfolding tree_entry
add_lines [] = []
add_lines (a ∷ adds) = tree_entry a.name a.description ++ add_lines adds

-- The usage files, named from the directory `files`.
unfoldable pub usage_lines : Text → List ResolvedTool → Text
unfolding trim_prefix
usage_lines files [] = []
usage_lines files (t ∷ tools) =
    if is_empty t.usage
    then usage_lines files tools
    else (text (
        codes "    - `"
        ∷ trim_prefix t.usage (files ++ codes "/")
        ∷ codes "` — `"
        ∷ t.name
        ∷ codes "` usage docs (already folded into the `"
        ∷ t.name
        ∷ codes "` tool description).\n"
        ∷ []))
      ++ usage_lines files tools

unfoldable pub tool_lines : List ResolvedTool → Text
unfolding tree_entry
tool_lines [] = []
tool_lines (t ∷ tools) = tree_entry t.name t.description ++ tool_lines tools

unfoldable pub dir_lines : List Text → Text
dir_lines [] = []
dir_lines (d ∷ ds) = text (codes "    - `" ∷ d ∷ codes "/`\n" ∷ []) ++ dir_lines ds

unfoldable pub context_section : Paths → List ContextEntry → Text
unfolding context_lines
context_section p [] = text (
    (text (codes "- `" ∷ p.context ∷ codes "/` — your system-prompt context files:\n" ∷ []))
    ∷ (text (codes "    - (this file lives here, alongside AGENT.md and any MOUNTS.md)\n" ∷ []))
    ∷ [])
context_section p (c ∷ cs) =
    (text (codes "- `" ∷ p.context ∷ codes "/` — your system-prompt context files:\n" ∷ []))
    ++ context_lines (c ∷ cs)

unfoldable pub data_section : Paths → List Add → List ResolvedTool → Text
unfolding any_tool_has_usage add_lines usage_lines
data_section p [] tools =
    (text (
      codes "- `"
      ∷ p.files
      ∷ codes "/` — static files baked in via `ADD` directives + per-BIN usage docs:\n"
      ∷ []))
    ++ (if any_tool_has_usage tools
        then usage_lines p.files tools
        else (text (codes "    - (none)\n" ∷ [])))
data_section p (a ∷ adds) tools =
    (text (
      codes "- `"
      ∷ p.files
      ∷ codes "/` — static files baked in via `ADD` directives + per-BIN usage docs:\n"
      ∷ []))
    ++ (add_lines (a ∷ adds) ++ usage_lines p.files tools)

-- The entries of one directory of tools.
unfoldable pub tool_section : Text → List ResolvedTool → Text
unfolding tool_lines
tool_section bin [] = text (
    (text (codes "- `" ∷ bin ∷ codes "/` — your BIN tools (the ONLY entry on $PATH):\n" ∷ []))
    ∷ (text (codes "    - (none declared)\n" ∷ []))
    ∷ [])
tool_section bin (t ∷ tools) =
    (text (codes "- `" ∷ bin ∷ codes "/` — your BIN tools (the ONLY entry on $PATH):\n" ∷ []))
    ++ tool_lines (t ∷ tools)

unfoldable pub bins_section : List Text → List ResolvedTool → Text
unfolding tool_section dir_lines
bins_section (bin ∷ []) tools = tool_section bin tools
bins_section bins tools =
    (text (codes "- BIN tools — one directory per BIN on $PATH:\n" ∷ [])) ++ dir_lines bins
