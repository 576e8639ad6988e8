-- ===== src/System/Workspace.antt =====
-- executor/system/workspace.go: the files of an agent, made out of its image.
pub mod Mounts
pub mod Markdown
use agentfile.Common.{
  Bool, true, false, Option, none, some, List, [], ◌∷◌, ◌++◌, map, if◌then◌else◌,
}
use agentfile.Common.Maps.{Assoc, insert}
use agentfile.Common.Paths.{join}
use agentfile.Common.Results.{Result, ok, err}
use agentfile.Common.Texts.{Text, codes, is_empty}
use agentfile.Spec.Types.{ConfigValue, Config, Context, Bin, Mount, Agent, Agentfile}
use agentfile.Spec.Configs.{required_configs_provided}
use agentfile.Spec.Overrides.{Override}
use agentfile.Spec.Reference.{Reference}
use agentfile.Store.{Source}
use agentfile.Executor.Runtime.{
  HostMount, OciRef, RuntimeRef, ContextEntry, Capability, ResolvedTool, Runtime,
}
use agentfile.System.Io.{View, Failure, model, config}

abbrev pub runtime_bin_dir : Text
runtime_bin_dir = codes "usr/local/bin"

abbrev pub runtime_bin : Text
runtime_bin = codes "usr/local/bin/runtime"

abbrev pub context_dir : Text
context_dir = codes "etc/context"

abbrev pub data_dir : Text
data_dir = codes "etc/data"

abbrev pub bin_dir : Text
bin_dir = codes "usr/bin"

abbrev pub fhs_dirs : List Text
fhs_dirs =
    context_dir
    ∷ data_dir
    ∷ bin_dir
    ∷ runtime_bin_dir
    ∷ codes "workspace"
    ∷ codes "tmp"
    ∷ codes "var/lib"
    ∷ codes "home"
    ∷ codes "home/.config"
    ∷ codes "home/.cache"
    ∷ codes "home/.local/share"
    ∷ codes "opt/bins"
    ∷ []

-- The struct, less the fields that code of it sets, which are in the state. A function that may be
-- nil is optional; `format` is fmt's %v. The puller and the file system of the host are behind the
-- operations.
pub record Workspace : Type 0 where
  pub store : Source
  pub ref : Reference
  pub overrides : List Override
  pub usage_fetcher : Option (Reference → Option Text)
  pub model_resolver : Option (Text → Option (Text × Text))
  pub digest_resolver : Option (Text → Text)
  pub image_ref : Text
  pub local_runtime : Text
  pub tool_binary_path : Option (Text → Text)
  pub capabilities : List Capability
  pub symlink_bin_at : Option (Text → Option Text)
  pub view_bin_dirs_for_tools : Option (List Text → List Text)
  pub format : ConfigValue → Text

unfoldable pub merge_mounts : List HostMount → List Mount → List HostMount
merge_mounts base [] = base
merge_mounts base (m ∷ extra) =
    merge_mounts
      (base
        ++ record {
          host = m.host;
          target = m.target;
          description = m.description;
          read_only = m.read_only;
        }
          ∷ [])
      extra

unfoldable pub mounts_to_spec : List HostMount → List (Option Mount)
mounts_to_spec [] = []
mounts_to_spec (m ∷ mounts) =
    some (record {
      host = m.host;
      target = m.target;
      description = m.description;
      read_only = m.read_only;
    })
    ∷ mounts_to_spec mounts

unfoldable pub resolve_digest : Workspace → Text → Text
resolve_digest w ref = elim w.digest_resolver [
  | none ↦ []
  | some resolver ↦ if is_empty ref then [] else resolver ref
]

unfoldable pub runtime_binary : View → Text
runtime_binary view = if is_empty view.runtime_bin then b'/' ∷ runtime_bin else view.runtime_bin

-- The loop over the entries, over the map so far.
unfoldable pub add_configs : (ConfigValue → Text) → List Config → Assoc Text → Assoc Text
unfolding insert
add_configs format [] out = out
add_configs format (c ∷ cs) out =
    if is_empty c.key then add_configs format cs out else elim c.value [
      | none ↦ add_configs format cs out
      | some v ↦ add_configs format cs (insert c.key (format v) out)
    ]

unfoldable pub configs_from_spec : (ConfigValue → Text) → List Config → Assoc Text
unfolding add_configs
configs_from_spec format cs = add_configs format cs []

abbrev pub context_file : Text → Text
context_file name = b'/' ∷ join context_dir (name ++ codes ".md")

unfoldable pub agent_entries : List Context → List ContextEntry
agent_entries [] = []
agent_entries (c ∷ cs) =
    let rest = agent_entries cs in
    if is_empty c.name
    then rest
    else record { name = c.name; file = context_file c.name; description = c.description } ∷ rest

unfoldable pub context_entries : List Context → Bool → List ContextEntry
unfolding agent_entries
context_entries spec_ctx has_mounts =
    record {
      name = codes "AGENT";
      file = context_file (codes "AGENT");
      description =
          codes "Auto-generated identity card — declared bins, environment, capabilities.";
    }
    ∷ record {
      name = codes "WORKSPACE";
      file = context_file (codes "WORKSPACE");
      description = codes "Filesystem layout — where each path lives and what's writable.";
    }
    ∷ ((if has_mounts
          then record {
            name = codes "MOUNTS";
            file = context_file (codes "MOUNTS");
            description =
                codes "Operator-supplied bind mounts — host paths surfaced into the agent tree.";
          }
            ∷ []
          else [])
        ++ agent_entries spec_ctx)

-- filepath.Join(dataDir, "bins", name, "USAGE.md")
abbrev pub usage_file : Text → Text
usage_file name = join data_dir (codes "bins/" ++ (name ++ codes "/USAGE.md"))

unfoldable pub tool_binary : Workspace → Text → Text
tool_binary w name = elim w.tool_binary_path [
  | none ↦ join bin_dir name
  | some path ↦ if is_empty (path name) then join bin_dir name else path name
]

unfoldable pub resolved_tool : Workspace → Bin → ResolvedTool
unfolding tool_binary resolve_digest
resolved_tool w t = record {
  name = t.name;
  description = t.description;
  binary = tool_binary w t.name;
  ref = t.image;
  digest = resolve_digest w t.image;
  usage = b'/' ∷ usage_file t.name;
}

-- The credentials of the model, empty without a resolver.
unfoldable pub resolve_model : Workspace → Text → Result Failure (Text × Text)
resolve_model w name = elim w.model_resolver [
  | none ↦ ok ([], [])
  | some resolver ↦ elim (resolver name) [ none ↦ err model | some pair ↦ ok pair ]
]

unfoldable pub image_ref : Workspace → Option OciRef
unfolding resolve_digest
image_ref w =
    if is_empty w.image_ref
    then none
    else some (record { ref = w.image_ref; digest = resolve_digest w w.image_ref })

unfoldable pub runtime_ref : Workspace → View → Text → Option RuntimeRef
unfolding resolve_digest runtime_binary
runtime_ref w view ref =
    if is_empty ref
    then none
    else some (record { ref = ref; digest = resolve_digest w ref; binary = runtime_binary view })

-- The descriptor, once the credentials are known.
unfoldable pub assemble :
    Workspace → List HostMount → View → Agentfile → Agent → Text → Text → Text × Text → Runtime
unfolding mounts_to_spec configs_from_spec context_entries resolved_tool image_ref runtime_ref
assemble w mounts view af a id addr (api_base, api_key) = record {
  source = some af;
  id = id;
  name = a.name;
  model = a.model;
  workspace = codes "/workspace";
  image = image_ref w;
  runtime = runtime_ref w view a.runtime;
  configs = configs_from_spec w.format a.configs;
  capabilities = w.capabilities;
  envs = map some a.envs;
  mounts = mounts_to_spec mounts;
  context = context_entries a.contexts (elim mounts [ [] ↦ false | m ∷ ms ↦ true ]);
  tools = map (resolved_tool w) a.bins;
  exec = a.exec;
  addr = addr;
  api_base = api_base;
  api_key = api_key;
}

unfoldable pub build_runtime :
    Workspace → List HostMount → View → Agentfile → Agent → Text → Text → Result Failure Runtime
unfolding assemble resolve_model
build_runtime w mounts view af a id addr = elim (required_configs_provided (map some a.configs)) [
  | err keys ↦ err config
  | ok u ↦ elim (resolve_model w a.model) [
    | err e ↦ err e
    | ok pair ↦ ok (assemble w mounts view af a id addr pair)
  ]
]
