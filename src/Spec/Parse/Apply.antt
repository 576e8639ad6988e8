-- ===== src/Spec/Parse/Apply.antt =====
-- spec/parse.go: applyInstruction.
use agentfile.Common.{ℕ, Option, none, some, List, [], ◌∷◌, ◌++◌, if◌then◌else◌}
use agentfile.Common.Maps.{insert}
use agentfile.Common.Paths.{base}
use agentfile.Common.Texts.{Text, is_empty, mem}
use agentfile.Spec.Contexts.{upsert_context}
use agentfile.Spec.Instruction.{
  ContextInst, ConfigInst, BinInst, AddInst, EnvInst, Instruction, from, runtime, model, name,
  context, config, bin, add, exec, label, arg, env, capability,
}
use agentfile.Spec.Parse.Values.{parse_config_value}
use agentfile.Spec.Types.{str, Context, Config, Bin, Add, Env, Agent}

-- if p != nil { field = *p }
abbrev pub text_or_empty : Option Text → Text
text_or_empty none = []
text_or_empty (some s) = s

-- The content that is set only by a heredoc that is not empty is the heredoc.
unfoldable pub context_of : ContextInst → Text → Context
context_of i heredoc = record {
  name = i.name;
  description = text_or_empty i.desc;
  content = heredoc;
  file = text_or_empty i.file;
}

unfoldable pub config_of : (Text → Option ℕ) → ConfigInst → Config
unfolding parse_config_value
config_of parse_float i = record {
  key = i.key;
  value = elim i.quoted_value [
    | some q ↦ some (str q)
    | none ↦ elim i.value [ none ↦ none | some v ↦ some (parse_config_value parse_float v) ]
  ];
  description = text_or_empty i.desc;
  required = i.required;
}

unfoldable pub bin_of : BinInst → Text → Bin
bin_of i heredoc = record {
  name = i.name;
  image = i.image;
  description = text_or_empty i.desc;
  usage = heredoc;
}

unfoldable pub add_of : AddInst → Add
unfolding base
add_of i = record {
  src = i.src;
  name = elim i.name [ none ↦ base i.src | some n ↦ n ];
  description = text_or_empty i.desc;
  content = [];
}

unfoldable pub env_of : EnvInst → Env
env_of i = record { key = i.key; value = i.value; description = text_or_empty i.desc }

-- The loop over the names of one CAPABILITY line.
unfoldable pub add_capability : Text → List Text → List Text
add_capability n caps = if is_empty n then caps else if mem n caps then caps else caps ++ n ∷ []

unfoldable pub add_capabilities : List Text → List Text → List Text
unfolding add_capability
add_capabilities [] caps = caps
add_capabilities (n ∷ ns) caps = add_capabilities ns (add_capability n caps)

unfoldable pub apply_instruction : (Text → Option ℕ) → Agent → Instruction → Text → Agent
unfolding context_of config_of bin_of add_of env_of add_capabilities upsert_context insert
apply_instruction pf a (from r) heredoc = record a { from = r }
apply_instruction pf a (runtime r) heredoc = record a { runtime = r; configs = [] }
apply_instruction pf a (model m) heredoc = record a { model = m }
apply_instruction pf a (name n) heredoc = record a { name = n }
apply_instruction pf a (context i) heredoc = record a {
  contexts = upsert_context (context_of i heredoc) a.contexts;
}
apply_instruction pf a (config i) heredoc = record a { configs = a.configs ++ config_of pf i ∷ [] }
apply_instruction pf a (bin i) heredoc = record a { bins = a.bins ++ bin_of i heredoc ∷ [] }
apply_instruction pf a (add i) heredoc = record a { adds = a.adds ++ add_of i ∷ [] }
apply_instruction pf a (label i) heredoc = record a { labels = insert i.key i.value a.labels }
apply_instruction pf a (exec args) heredoc = record a { exec = args }
apply_instruction pf a (arg i) heredoc = elim i.value [
  | none ↦ a
  | some v ↦ record a { args = insert i.key v a.args }
]
apply_instruction pf a (env i) heredoc = record a { envs = a.envs ++ env_of i ∷ [] }
apply_instruction pf a (capability ns) heredoc = record a {
  capabilities = add_capabilities ns a.capabilities;
}

unfoldable pub new_agent : Agent
new_agent = record {
  from = [];
  runtime = [];
  model = [];
  name = [];
  contexts = [];
  configs = [];
  bins = [];
  adds = [];
  exec = [];
  labels = [];
  args = [];
  envs = [];
  capabilities = [];
  runtime_mounts = [];
}
