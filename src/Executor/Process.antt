-- ===== src/Executor/Process.antt =====
-- executor/system/process.go: the command line and the environment of the runtime's process.
pub mod Locked
use agentfile.Common.{ℕ, ◌+◌, none, some, List, [], ◌∷◌, ◌++◌, ltb, if◌then◌else◌}
use agentfile.Common.Lists.{take, drop}
use agentfile.Common.Paths.{join}
use agentfile.Common.Strings.{to_upper}
use agentfile.Common.Texts.{Text, codes, is_empty, index}
use agentfile.Executor.Runtime.{Runtime}
use agentfile.Executor.Env.{EnvOptions, entry, build_locked_env, append_config_env, append_user_env}

abbrev pub default_exec_verb : Text
default_exec_verb = codes "serve"

-- if value != "" { args = append(args, flag, value) }
unfoldable pub flag_if : Text → Text → List Text
flag_if flag value = if is_empty value then [] else flag ∷ value ∷ []

unfoldable pub exec_args : List Text → List Text
exec_args [] = default_exec_verb ∷ []
exec_args (a ∷ args) = a ∷ args

unfoldable pub build_cmd_args : Runtime → Text → List Text
unfolding exec_args flag_if
build_cmd_args rt root_dir =
    exec_args rt.exec
    ++ (codes "--root" ∷ root_dir ∷ [])
    ++ flag_if (codes "--model") rt.model
    ++ flag_if (codes "--addr") rt.addr

-- Provider and model.
unfoldable pub split_provider_prefix : Text → Text × Text
unfolding index
split_provider_prefix model = elim (index b'/' model) [
  | none ↦ ([], model)
  | some idx ↦ if ltb 0 idx then (take idx model, drop (idx + 1) model) else ([], model)
]

-- if value != "" { env = append(env, key+"="+value) }
unfoldable pub credential : Text → Text → List Text
credential key value = if is_empty value then [] else entry key value ∷ []

-- The credentials of a provider, if there is one.
unfoldable pub provider_credentials : (ℕ → ℕ) → Text → Text → Text → List Text
unfolding credential to_upper
provider_credentials upper provider api_key api_base =
    if is_empty provider
    then []
    else let prefix = to_upper upper provider in
      credential (prefix ++ codes "_API_KEY") api_key
      ++ credential (prefix ++ codes "_API_BASE") api_base

unfoldable pub credentials : (ℕ → ℕ) → Runtime → List Text
unfolding split_provider_prefix provider_credentials
credentials upper rt =
    provider_credentials upper (split_provider_prefix rt.model).0 rt.api_key rt.api_base

abbrev pub env_options : Text → Text → Text → EnvOptions
env_options root_dir daemon_url agent_token = record {
  agent_root = root_dir;
  bin_dirs = join root_dir (codes "usr/bin") ∷ [];
  daemon_url = daemon_url;
  agent_token = agent_token;
}

-- `upper` is the table of strings.ToUpper past ASCII.
unfoldable pub build_cmd_env : (ℕ → ℕ) → Runtime → Text → Text → Text → List Text
unfolding credentials build_locked_env append_config_env append_user_env
build_cmd_env upper rt root_dir daemon_url agent_token =
    let env = build_locked_env (env_options root_dir daemon_url agent_token) in
    let env' = append_config_env (env ++ credentials upper rt) rt.configs in
    (append_user_env env' rt.envs).0
