-- ===== src/Spec/Overrides.antt =====
-- spec/types.go: the overrides that are applied to a parsed Agentfile. An override that writes
-- through a nil agent panics, which is `none`.
pub mod Configs
pub mod Envs
use agentfile.Common.{false, Option, none, some, List, [], ◌∷◌, ◌++◌, map, if◌then◌else◌}
use agentfile.Common.Maps.{Assoc, lookup, delete, keys}
use agentfile.Common.Sets.{sort_strings}
use agentfile.Common.Texts.{Text, mem}
use agentfile.Spec.Types.{str, Config, Env, Mount, Agent, Agentfile}

abbrev pub Override : Type 0
Override = Agentfile → Option Agentfile

-- A write through `agentfile.Agent`, which panics on nil.
unfoldable pub on_agent : (Agent → Agent) → Override
on_agent f af = elim af.agent [ none ↦ none | some a ↦ some (record af { agent = some (f a) }) ]

-- The same behind a test for nil that returns.
unfoldable pub on_agent_if_any : (Agent → Agent) → Override
on_agent_if_any f af = elim af.agent [
  | none ↦ some af
  | some a ↦ some (record af { agent = some (f a) })
]

unfoldable pub with_runtime : Text → Override
unfolding on_agent
with_runtime runtime = on_agent (λ a. record a { runtime = runtime })

unfoldable pub with_model : Text → Override
unfolding on_agent
with_model model = on_agent (λ a. record a { model = model })

unfoldable pub with_mounts : List Mount → Override
unfolding on_agent_if_any
with_mounts mounts = on_agent_if_any (λ a. record a { runtime_mounts = mounts })

-- The entries whose key no incoming entry has.
unfoldable pub kept_envs : List Text → List Env → List Env
kept_envs incoming [] = []
kept_envs incoming (e ∷ es) =
    let rest = kept_envs incoming es in if mem e.key incoming then rest else e ∷ rest

unfoldable pub merge_envs : List Env → List Env → List Env
unfolding kept_envs
merge_envs baked envs = kept_envs (map (λ (e : Env). e.key) envs) baked ++ envs

unfoldable pub with_extra_envs : List Env → Override
unfolding on_agent merge_envs
with_extra_envs [] af = some af
with_extra_envs (e ∷ es) af = on_agent (λ a. record a { envs = merge_envs a.envs (e ∷ es) }) af

-- The loop over the declared entries: a value is used up by the first entry of its key.
unfoldable pub set_values : Assoc Text → List Config → List Config × Assoc Text
unfolding lookup delete
set_values remaining [] = ([], remaining)
set_values remaining (c ∷ cs) = elim (lookup c.key remaining) [
  | none ↦ let (cs', r) = set_values remaining cs in (c ∷ cs', r)
  | some v ↦
      let (cs', r) = set_values (delete c.key remaining) cs in
      (record c { value = some (str v) } ∷ cs', r)
]

-- &Config{Key: k, Value: remaining[k]}
unfoldable pub new_config : Assoc Text → Text → Config
unfolding lookup
new_config remaining k = record {
  key = k;
  value = elim (lookup k remaining) [ none ↦ some (str []) | some v ↦ some (str v) ];
  description = [];
  required = false;
}

unfoldable pub provide_configs : Assoc Text → List Config → List Config
unfolding set_values new_config keys sort_strings
provide_configs values configs =
    let (set, remaining) = set_values values configs in
    set ++ map (new_config remaining) (sort_strings (keys remaining))

unfoldable pub with_config : Assoc Text → Override
unfolding on_agent_if_any provide_configs
with_config [] af = some af
with_config (e ∷ values) af =
    on_agent_if_any (λ a. record a { configs = provide_configs (e ∷ values) a.configs }) af

unfoldable pub apply : List Override → Override
apply [] af = some af
apply (o ∷ os) af = elim (o af) [ none ↦ none | some af' ↦ apply os af' ]
