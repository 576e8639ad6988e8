-- ===== src/Executor/Env.antt =====
-- executor/env.go: the environment of a spawned runtime, entries `KEY=value`.
pub mod Values
pub mod Locked
pub mod Keys
use agentfile.Common.{
  ℕ, ◌+◌, ◌-◌, Bool, ◌||◌, Option, none, some, List, [], ◌∷◌, ◌++◌, map, if◌then◌else◌,
}
use agentfile.Common.Maps.{Assoc, lookup, keys}
use agentfile.Common.Paths.{join}
use agentfile.Common.Sets.{sort_strings}
use agentfile.Common.Texts.{Text, codes, is_empty, mem, has_suffix}
use agentfile.Spec.Names.{within}
use agentfile.Spec.Types.{Env}

-- One rune of a CONFIG key.
unfoldable pub env_char : ℕ → ℕ
env_char r =
    if within b'a' b'z' r
    then r - b'a' + b'A'
    else if within b'A' b'Z' r || within b'0' b'9' r
    then r
    else b'_'

unfoldable pub config_key_to_env : Text → Text
unfolding env_char
config_key_to_env key = codes "RUNTIME_" ++ map env_char key

pub record EnvOptions : Type 0 where
  pub agent_root : Text
  pub bin_dirs : List Text
  pub daemon_url : Text
  pub agent_token : Text

-- strings.Join(dirs, ":")
unfoldable pub join_colon : List Text → Text
join_colon [] = []
join_colon (d ∷ []) = d
join_colon (d ∷ e ∷ ds) = d ++ (b':' ∷ join_colon (e ∷ ds))

-- KEY=value
abbrev pub entry : Text → Text → Text
entry k v = k ++ (b'=' ∷ v)

unfoldable pub daemon_callback : EnvOptions → List Text
daemon_callback o =
    if is_empty o.daemon_url || is_empty o.agent_token
    then []
    else entry (codes "OTTERSD_URL") o.daemon_url
      ∷ entry (codes "OTTERS_AGENT_TOKEN") o.agent_token
      ∷ []

unfoldable pub build_locked_env : EnvOptions → List Text
unfolding join_colon daemon_callback join
build_locked_env o =
    let home = join o.agent_root (codes "home") in
    (entry (codes "PATH") (join_colon o.bin_dirs)
      ∷ entry (codes "HOME") home
      ∷ entry (codes "XDG_CONFIG_HOME") (join home (codes ".config"))
      ∷ entry (codes "XDG_CACHE_HOME") (join home (codes ".cache"))
      ∷ entry (codes "XDG_DATA_HOME") (join home (codes ".local/share"))
      ∷ entry (codes "TMPDIR") (join o.agent_root (codes "tmp"))
      ∷ entry (codes "LANG") (codes "C.UTF-8")
      ∷ entry (codes "OTTERS_AGENT_ROOT") o.agent_root
      ∷ [])
    ++ daemon_callback o

abbrev pub reserved_runtime_env_keys : List Text
reserved_runtime_env_keys =
    codes "PATH"
    ∷ codes "HOME"
    ∷ codes "XDG_CONFIG_HOME"
    ∷ codes "XDG_CACHE_HOME"
    ∷ codes "XDG_DATA_HOME"
    ∷ codes "TMPDIR"
    ∷ codes "LANG"
    ∷ codes "OTTERS_AGENT_ROOT"
    ∷ codes "OTTERSD_URL"
    ∷ codes "OTTERS_AGENT_TOKEN"
    ∷ []

unfoldable pub is_reserved_env_key : Text → Bool
unfolding has_suffix
is_reserved_env_key key =
    mem key reserved_runtime_env_keys
    || (has_suffix key (codes "_API_KEY") || has_suffix key (codes "_API_BASE"))

-- The keys that are not empty, as a range over the map meets them.
unfoldable pub nonempty : List Text → List Text
nonempty [] = []
nonempty ([] ∷ ks) = nonempty ks
nonempty ((c ∷ k) ∷ ks) = (c ∷ k) ∷ nonempty ks

-- configs[k]
abbrev pub value_at : Assoc Text → Text → Text
value_at configs k = elim (lookup k configs) [ none ↦ [] | some v ↦ v ]

unfoldable pub append_config_env : List Text → Assoc Text → List Text
unfolding nonempty sort_strings keys config_key_to_env lookup
append_config_env base [] = base
append_config_env base (e ∷ configs) =
    base
    ++ map (λ k. entry (config_key_to_env k) (value_at (e ∷ configs) k))
        (sort_strings (nonempty (keys (e ∷ configs))))

-- One user entry, over the environment and the skipped keys; `none` is a nil pointer.
unfoldable pub add_user_env : Option Env → List Text × List Text → List Text × List Text
add_user_env none (env, skipped) = (env, skipped)
add_user_env (some e) (env, skipped) =
    if is_empty e.key
    then (env, skipped)
    else if is_reserved_env_key e.key
    then (env, skipped ++ e.key ∷ [])
    else (env ++ entry e.key e.value ∷ [], skipped)

unfoldable pub add_user_envs : List (Option Env) → List Text × List Text → List Text × List Text
unfolding add_user_env
add_user_envs [] s = s
add_user_envs (e ∷ es) s = add_user_envs es (add_user_env e s)

unfoldable pub append_user_env : List Text → List (Option Env) → List Text × List Text
unfolding add_user_envs
append_user_env base user_envs = add_user_envs user_envs (base, [])
