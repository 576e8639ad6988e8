-- ===== src/Tests/Workspaces.antt =====
-- The files of an agent with a tool, a context and a mount.
use agentfile.Common.{◌≡◌, refl, false, none, some, List, [], ◌∷◌}
use agentfile.Common.Lists.{All}
use agentfile.Common.Results.{ok}
use agentfile.Common.Texts.{Text, codes, text_eq}
use agentfile.Spec.Overrides.{with_model}
use agentfile.Store.{load, load_config, wrap, Descriptor, Source, context_media_type}
use agentfile.Executor.Runtime.{HostMount}
use agentfile.System.Io.{
  Effect, View, run, ◌>>=◌, ◌>>◌, read, set_mounts, set_view, pure, raise, give, join_error, ignore,
  for_each, act,
}
use agentfile.Spec.Validate.{validate, validate_agent}
use agentfile.System.Workspace.{Workspace, build_runtime, merge_mounts}
use agentfile.Spec.Configs.{required_configs_provided}
use agentfile.System.Workspace.Mounts.{mount_link_path, rel}
use agentfile.System.Materialize
use agentfile.System.Materialize.Bins.{with_model-KeepsBins}
use agentfile.System.Materialize.Steps.{IsConfined}
use agentfile.System.Materialize.Confined.{materialize-IsConfined}
use agentfile.Tests.Samples.{text_context, empty_agent, file}

abbrev layer : Text → Descriptor
layer title = record { digest = codes "1"; media_type = context_media_type; title = title }

abbrev source : Source
source = record {
  find = λ n. ok (layer []);
  fetch = λ l. ok (codes "hello");
  read_manifest = λ s. ok (record { config = layer []; layers = layer (codes "SOUL.md") ∷ [] });
  read_agentfile = λ s. ok (
      file (record empty_agent {
        from = codes "scratch";
        contexts = text_context (codes "SOUL") [] ∷ [];
        bins =
            record { name = codes "jq"; image = codes "jq:1"; description = []; usage = [] } ∷ [];
      }));
}

abbrev workspace : Workspace
workspace = record {
  store = source;
  ref = record { name = codes "agents"; tag = codes "v1" };
  overrides = with_model (codes "openai/gpt") ∷ [];
  usage_fetcher = some (λ r. some (codes "usage"));
  model_resolver = none;
  digest_resolver = none;
  image_ref = [];
  local_runtime = codes "/bin/runtime";
  tool_binary_path = none;
  capabilities = [];
  symlink_bin_at = some (λ n. some n);
  view_bin_dirs_for_tools = none;
  format = λ v. [];
}

abbrev view : View
view = record { root = []; workspace_dir = []; bin_dirs = []; runtime_bin = []; isolated = false }

abbrev mount : Text → HostMount
mount target = record { host = codes "/data"; target = target; description = []; read_only = false }

-- A target inside of the tree, and one that climbs out of it.
links : mount_link_path (codes "/srv/7") (codes "/mnt/../data") ≡ some (codes "/srv/7/data")
unfolding mount_link_path rel
links = refl

climbs : mount_link_path (codes "/srv/7") (codes "/../8/data") ≡ none
unfolding mount_link_path rel
climbs = refl

materialize-IsConfined_example :
    All
      (IsConfined (codes "/srv/7"))
      (run
        (Materialize.materialize (λ done e. false) workspace (codes "/srv/7") (codes "7") [])
        (record { done = []; mounts = mount (codes "/mnt") ∷ []; view = view })).0.done
materialize-IsConfined_example =
    materialize-IsConfined (λ done e. false) workspace (codes "/srv/7") (codes "7") []
      (mount (codes "/mnt") ∷ []) view (with_model-KeepsBins (codes "openai/gpt"), tt)

-- What is written of a sequence of operations, the last first.
abbrev written : List Effect → List Text
written [] = []
written (Effect.write_file path content ∷ es) = path ∷ written es
written (e ∷ es) = written es

writes :
    written
      (run
        (Materialize.materialize (λ done e. false) workspace (codes "/srv/7") (codes "7") [])
        (record { done = []; mounts = mount (codes "/mnt") ∷ []; view = view })).0.done
    ≡ codes "etc/data/bins/jq/USAGE.md"
      ∷ codes "etc/context/MOUNTS.md"
      ∷ codes "etc/context/WORKSPACE.md"
      ∷ codes "etc/context/SOUL.md"
      ∷ []
unfolding Materialize.materialize Materialize.materialize_content Materialize.materialize_agent
    Materialize.write_runtime Materialize.install_runtime Materialize.install_tools
    Materialize.install_tool Materialize.make_fhs_dir ◌>>=◌ ◌>>◌ read set_mounts set_view pure raise
    give join_error ignore for_each act load load_config wrap validate validate_agent text_eq
    build_runtime with_model required_configs_provided merge_mounts
writes = refl
