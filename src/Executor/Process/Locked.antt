-- ===== src/Executor/Process/Locked.antt =====
-- executor/system/process.go: the locked-down entries in the environment of a process.
use agentfile.Common.{
  List, Option, ℕ, ◌≡◌, refl, ◌∙◌, Bool, true, false, not, ◌&&◌, none, [], ◌∷◌, ◌++◌, arith,
  Bool-cases, inl, inr,
}
use agentfile.Common.Lists.{all}
use agentfile.Common.Maps.{Assoc}
use agentfile.Spec.Types.{Env}
use agentfile.Executor.Runtime.{Runtime}
use agentfile.Common.Search.{contains-append}
use agentfile.Common.Strings.{to_upper}
use agentfile.Common.Texts.{
  Text, codes, text_eq_iff, text_eq_refl, is_empty, mem, contains, has_prefix, has_suffix,
}
use agentfile.Executor.Env.{
  append_config_env, append_user_env, build_locked_env, reserved_runtime_env_keys,
  is_reserved_env_key, append_config_env,
}
use agentfile.Executor.Env.Locked.{KeysPlain, append_user_env-reserved, append_config_env-other}
use agentfile.Executor.Env.Values.{env_value, env_value-append, strip_key-entry, mem-all}
use agentfile.Executor.Process.{
  Runtime, split_provider_prefix, credential, provider_credentials, credentials, env_options,
  build_cmd_env,
}

has_suffix-append : (s p : Text) → has_suffix (s ++ p) p ≡ true
unfolding has_suffix
has_suffix-append [] [] = refl
has_suffix-append [] (c ∷ p) = ground (arith, text_eq_refl (c ∷ p))
has_suffix-append (c ∷ s) p = ground (arith, has_suffix-append s p)

-- What the locked keys have in common.
abbrev is_locked_key : Text → Bool
is_locked_key k =
    not (has_prefix k (codes "RUNTIME_"))
    && (not (contains b'=' k)
        && (not (has_suffix k (codes "_API_KEY")) && not (has_suffix k (codes "_API_BASE"))))

all_locked : all is_locked_key reserved_runtime_env_keys ≡ true
unfolding has_prefix contains has_suffix
all_locked = refl

-- A credential is no entry of a key without its suffix.
credential-other :
    (k p suffix value : Text)
    → has_suffix k suffix ≡ false
    → contains b'=' k ≡ false
    → contains b'=' (p ++ suffix) ≡ false
    → env_value k (credential (p ++ suffix) value) ≡ none
unfolding credential env_value
credential-other k p suffix value h n m = elim (Bool-cases (is_empty value)) [
  | inl e ↦ rw (e, credential) refl
  | inr e ↦ ground (
    arith,
    strip_key-entry k (p ++ suffix) value n m,
    text_eq_iff (p ++ suffix) k,
    has_suffix-append p suffix,
  )
]

pub provider_credentials-other :
    (upper : ℕ → ℕ) (provider api_key api_base k : Text)
    → is_locked_key k ≡ true
    → contains b'=' (to_upper upper provider) ≡ false
    → env_value k (provider_credentials upper provider api_key api_base) ≡ none
unfolding provider_credentials env_value contains
provider_credentials-other upper provider api_key api_base k l h =
    let p = to_upper upper provider in
    let key = credential (p ++ codes "_API_KEY") api_key in
    let base = credential (p ++ codes "_API_BASE") api_base in
    ground (
      arith,
      env_value-append k key base,
      credential-other k p (codes "_API_KEY") api_key,
      credential-other k p (codes "_API_BASE") api_base,
      contains-append b'=' p (codes "_API_KEY"),
      contains-append b'=' p (codes "_API_BASE"),
    )

-- What is put behind a locked-down environment leaves the reserved keys alone.
pub extended-reserved :
    (upper : ℕ → ℕ) (env : List Text) (provider api_key api_base : Text) (configs : Assoc Text)
    (envs : List (Option Env)) (k : Text)
    → mem k reserved_runtime_env_keys ≡ true
    → KeysPlain envs
    → contains b'=' (to_upper upper provider) ≡ false
    → env_value k
        (append_user_env
          (append_config_env (env ++ provider_credentials upper provider api_key api_base) configs)
          envs).0
      ≡ env_value k env
unfolding is_reserved_env_key
extended-reserved upper env provider api_key api_base configs envs k m plain h =
    let l : is_locked_key k ≡ true =
      mem-all is_locked_key k reserved_runtime_env_keys all_locked m in
    let more = env ++ provider_credentials upper provider api_key api_base in
    append_user_env-reserved k (append_config_env more configs) envs (ground arith) (ground arith)
      plain
    ∙ append_config_env-other k more configs (ground arith) (ground arith)
    ∙ env_value-append k env (provider_credentials upper provider api_key api_base)
    ∙ rw (provider_credentials-other upper provider api_key api_base k l h) refl

-- Each of the reserved keys has in the environment of the process the value that the locked-down
-- environment gives it, as long as no user key and no provider in front of the model holds an equals
-- sign: neither credentials nor configs nor user entries reach it.
pub build_cmd_env-reserved :
    (upper : ℕ → ℕ) (rt : Runtime) (root_dir daemon_url agent_token k : Text)
    → mem k reserved_runtime_env_keys ≡ true
    → KeysPlain rt.envs
    → contains b'=' (to_upper upper (split_provider_prefix rt.model).0) ≡ false
    → env_value k (build_cmd_env upper rt root_dir daemon_url agent_token)
      ≡ env_value k (build_locked_env (env_options root_dir daemon_url agent_token))
unfolding build_cmd_env credentials
build_cmd_env-reserved upper rt root_dir daemon_url agent_token k m plain h =
    extended-reserved upper (build_locked_env (env_options root_dir daemon_url agent_token))
      (split_provider_prefix rt.model).0 rt.api_key rt.api_base rt.configs rt.envs k m plain h
