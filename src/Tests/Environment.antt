-- ===== src/Tests/Environment.antt =====
-- The environment of a spawned runtime.
use agentfile.Common.{◌≡◌, refl, Option, none, some, List, [], ◌∷◌, ◌++◌}
use agentfile.Common.Texts.{Text, codes, text_eq, contains, has_suffix}
use agentfile.Spec.Types.{Env}
use agentfile.Executor.Env.{
  EnvOptions, is_reserved_env_key, build_locked_env, append_config_env, append_user_env,
}
use agentfile.Executor.Env.Values.{env_value}
use agentfile.Executor.Env.Locked.{append_user_env-reserved, append_user_env_bypass}

abbrev options : EnvOptions
options = record {
  agent_root = codes "/a";
  bin_dirs = codes "/bin" ∷ codes "/opt" ∷ [];
  daemon_url = codes "http://d";
  agent_token = codes "t";
}

abbrev variable : Text → Text → Option Env
variable k v = some (record { key = k; value = v; description = [] })

locked_path : env_value (codes "PATH") (build_locked_env options) ≡ some (codes "/bin:/opt")
unfolding env_value build_locked_env
locked_path = refl

abbrev declared : List (Option Env)
declared = variable (codes "PATH") (codes "/evil") ∷ none ∷ variable (codes "TZ") (codes "UTC") ∷ []

user_path_skipped :
    append_user_env (codes "PATH=/bin" ∷ []) declared
    ≡ (codes "PATH=/bin" ∷ codes "TZ=UTC" ∷ [], codes "PATH" ∷ [])
unfolding append_user_env is_reserved_env_key text_eq
user_path_skipped = refl

append_user_env-reserved_example :
    env_value (codes "PATH") (append_user_env (build_locked_env options) declared).0
    ≡ env_value (codes "PATH") (build_locked_env options)
unfolding is_reserved_env_key text_eq contains
append_user_env-reserved_example =
    append_user_env-reserved (codes "PATH") (build_locked_env options) declared refl refl
      (refl, (refl, tt))

append_user_env_bypass_example :
    env_value
      (codes "PATH")
      (append_user_env
        (build_locked_env options)
        (variable (codes "PATH" ++ b'=' ∷ codes "/evil:") (codes "/bin") ∷ [])).0
    ≡ some (codes "/evil:" ++ b'=' ∷ codes "/bin")
unfolding has_suffix text_eq contains
append_user_env_bypass_example =
    append_user_env_bypass (codes "PATH") (codes "/evil:") (codes "/bin") []
      (build_locked_env options) refl refl refl

config_added :
    env_value
      (codes "RUNTIME_MAX_STEPS")
      (append_config_env [] ((codes "max-steps", codes "3") ∷ []))
    ≡ some (codes "3")
unfolding env_value append_config_env text_eq
config_added = refl
