-- ===== src/System/Workspace/Markdown.antt =====
-- executor/system/workspace.go: the texts of WORKSPACE.md and MOUNTS.md.
pub mod Sections
use agentfile.Common.{Bool, not, List, [], ◌∷◌, ◌++◌, if◌then◌else◌}
use agentfile.Common.Texts.{Text, codes, text_eq, is_empty}
use agentfile.Executor.Runtime.{HostMount}
use agentfile.System.Io.{View}
use agentfile.System.Workspace.Mounts.{dir}
use agentfile.System.Workspace.Markdown.Sections.{
  text, Contents, Paths, workspace_paths, context_section, data_section, bins_section,
}

-- writeLayout
unfoldable pub layout : Paths → Contents → Text
unfolding dir context_section data_section bins_section
layout p c = text (
    codes "Layout (full file tree):\n\n"
    ∷ (text (
        codes "- `"
        ∷ dir p.context
        ∷ codes
            "/Agentfile` — the verbatim Agentfile the operator wrote; `cat` it to see the original directives.\n"
        ∷ []))
    ∷ (text (
        codes "- `"
        ∷ dir p.context
        ∷ codes
            "/agent.yaml` — the resolved runtime config (name, model, tools, capabilities, env keys); `cat` it for the structured view.\n"
        ∷ []))
    ∷ context_section p c.context
    ∷ data_section p c.adds c.tools
    ∷ bins_section p.bins c.tools
    ∷ (text (codes "- `" ∷ p.runtime ∷ codes "` — the runtime you yourself are.\n" ∷ []))
    ∷ (text (
        codes "- `"
        ∷ p.workspace
        ∷ codes "/` — your default CWD; scratch space for session artefacts.\n"
        ∷ []))
    ∷ (text (
        codes "- `"
        ∷ p.home
        ∷ codes
            "/` — `$HOME` for tool subprocesses (`~/.config`, `~/.cache`, `~/.local/share` live here).\n"
        ∷ []))
    ∷ (text (codes "- `" ∷ p.tmp ∷ codes "/` — `$TMPDIR`; short-lived files.\n" ∷ []))
    ∷ (text (
        codes "- `"
        ∷ p.varlib
        ∷ codes "/` — persistent state (the memory DB lives here).\n\n"
        ∷ []))
    ∷ [])

-- The directory in the root; a root that is only a slash adds nothing.
unfoldable pub under_root : Text → Text → Text
unfolding text_eq
under_root root path = if text_eq root (codes "/") then path else root ++ path

-- writeRules
unfoldable pub rules : Text → Paths → Bool → Text
unfolding under_root
rules root p isolated = text (
    codes "Working-directory rules:\n\n"
    ∷ (text (
        codes "- Default CWD is `"
        ∷ p.workspace
        ∷ codes "/`; relative paths in tool args resolve there.\n"
        ∷ []))
    ∷ (text (
        codes "- Prefer writing inside `"
        ∷ p.workspace
        ∷ codes "/`, `"
        ∷ p.tmp
        ∷ codes "/`, or `"
        ∷ p.home
        ∷ codes "/`; treat `"
        ∷ under_root root (codes "/etc/")
        ∷ codes "` and `"
        ∷ under_root root (codes "/usr/")
        ∷ codes "` as read-only.\n"
        ∷ []))
    ∷ (text (
        codes "- If `"
        ∷ p.mounts
        ∷ codes
            "` exists, those paths are user-mounted host directories — the only \"outside\" paths you should explore or modify.\n"
        ∷ []))
    ∷ (if isolated
        then (text (
            codes
              "- The container isolates you from the host filesystem; paths like `/Users/…`, `/home/…`, `/etc/passwd` are not visible inside, do not probe them.\n"
            ∷ []))
        else (text (
            codes
              "- Without a MOUNTS.md entry, do not probe arbitrary host paths (`/Users/…`, `/home/…`, `/etc/passwd`) — there is no sandbox enforcing this today, treat the boundary as a discipline rule.\n"
            ∷ [])))
    ∷ [])

-- The paragraph about the root.
unfoldable pub root_text : View → Text
unfolding text_eq
root_text view =
    if is_empty view.root
    then []
    else if view.isolated
    then (if text_eq view.root (codes "/")
        then codes
            "Your filesystem is a standard Linux FHS rooted at `/`. Each top-level subtree is bind-mounted from the host directly onto the matching FHS path — `/etc/context`, `/home`, `/tmp`, `/var/lib`, `/workspace`. The host directory is invisible from inside; writes you make under these paths show up on the host automatically.\n\n"
        else (text (
            codes "Your workspace inside the container: `"
            ∷ view.root
            ∷ codes
                "`\n\n**Every path below is the path you see from inside the container, not the host.** Use these paths verbatim in tool calls; the host directory is bind-mounted here so writes inside this tree show up on the host automatically.\n\n"
            ∷ [])))
    else (text (
        codes "Your workspace on the host: `"
        ∷ view.root
        ∷ codes
            "`\n\n**There is no chroot.** Every path below is a real, absolute path on the host. Use these paths verbatim in tool calls — `/etc/context/...` and similar short forms do not exist outside this directory tree.\n\n"
        ∷ []))

-- workspaceContextMarkdownView
unfoldable pub workspace_markdown : View → Contents → Text
unfolding workspace_paths root_text layout rules
workspace_markdown view contents = text (
    codes "# Your workspace\n\n"
    ∷ (if view.isolated
        then codes
            "You run inside an isolated container. The openotters daemon bind-mounts a small FHS-style tree at the path below and image-mounts the runtime + BIN tools read-only beside it. Your environment is locked down (PATH points only at your BIN tool dirs, HOME / TMPDIR / XDG_* live inside your tree) so tools that touch `~/.cache` or `~/.config` write inside your container, not the user's real home.\n\n"
        else codes
            "You run as a subprocess on the user's host machine. The openotters daemon prepares a dedicated directory for you with a small FHS-style layout. Your environment is locked down (PATH points only at your own bin dir, HOME / TMPDIR / XDG_* live inside this directory) so tools that touch `~/.cache` or `~/.config` write inside your tree, not the user's real home.\n\n")
    ∷ root_text view
    ∷ layout (workspace_paths view) contents
    ∷ rules view.root (workspace_paths view) view.isolated
    ∷ [])

unfoldable pub mount_line : HostMount → Text
mount_line m = text (
    codes "- `"
    ∷ m.target
    ∷ codes "`"
    ∷ (if m.read_only then codes " *(ro)*" else [])
    ∷ (if is_empty m.description then [] else codes " — " ++ m.description)
    ∷ codes "\n"
    ∷ [])

unfoldable pub mount_lines : List HostMount → Text
unfolding mount_line
mount_lines [] = []
mount_lines (m ∷ mounts) = mount_line m ++ mount_lines mounts

-- mountsContextMarkdown
unfoldable pub mounts_markdown : List HostMount → Text
unfolding mount_lines
mounts_markdown mounts =
    codes
      "# Host-mounted paths\n\nThe following paths inside your workspace are backed by directories on the user's host machine. Changes through writable mounts are visible to the host immediately. Read-only mounts (`(ro)`) reject writes — don't try, the operation will fail. Do not assume any other top-level paths are mounted.\n\n"
    ++ mount_lines mounts
