-- ===== src/Executor/Env/Locked.antt =====
-- executor/env.go: the locked-down entries beside what the user declares.
use mathlib.Core.List.{append_assoc}
use agentfile.Common.{
  ℕ, ◌≡◌, refl, ◌∙◌, ap, ◌⊎◌, true, false, not, ◌||◌, Option, none, some, List, [], ◌∷◌, ◌++◌, map,
  arith, Bool-cases, inl, inr,
}
use agentfile.Common.Maps.{Assoc, keys}
use agentfile.Common.Search.{contains-append}
use agentfile.Common.Sets.{sort_strings}
use agentfile.Common.Texts.{
  Text, codes, text_eq, text_eq_iff, text_eq_refl, is_empty, contains, has_prefix, has_suffix, mem,
}
use agentfile.Spec.Types.{Env}
use agentfile.Executor.Env.{
  EnvOptions, entry, env_char, config_key_to_env, daemon_callback, build_locked_env,
  is_reserved_env_key, reserved_runtime_env_keys, nonempty, value_at, append_config_env,
  add_user_env, add_user_envs, append_user_env,
}
use agentfile.Executor.Env.Values.{
  env_value, env_value-append, env_value-other, strip_key-entry, mem-all,
}

-- The user entries that are there have no equals sign in the key.
abbrev pub KeysPlain : List (Option Env) → Type 0
KeysPlain [] = Unit
KeysPlain (none ∷ es) = KeysPlain es
KeysPlain (some e ∷ es) = (contains b'=' e.key ≡ false) × KeysPlain es

append_cons-is_empty : (k : Text) (c : ℕ) (x : Text) → is_empty (k ++ c ∷ x) ≡ false
append_cons-is_empty [] c x = refl
append_cons-is_empty (b ∷ k) c x = refl

add_user_env-reserved :
    (k : Text) (e : Env) (env skipped : List Text)
    → is_reserved_env_key k ≡ true
    → contains b'=' k ≡ false
    → contains b'=' e.key ≡ false
    → env_value k (add_user_env (some e) (env, skipped)).0 ≡ env_value k env
unfolding add_user_env
add_user_env-reserved k e env skipped r h p =
    ground (arith, env_value-other k e.key e.value env, text_eq_iff e.key k)

add_user_envs-reserved :
    (k : Text) (es : List (Option Env)) (s : List Text × List Text)
    → is_reserved_env_key k ≡ true
    → contains b'=' k ≡ false
    → KeysPlain es
    → env_value k (add_user_envs es s).0 ≡ env_value k s.0
unfolding add_user_envs
add_user_envs-reserved k [] s r h p = refl
add_user_envs-reserved k (none ∷ es) (env, skipped) r h p =
    unfold add_user_env in add_user_envs-reserved k es (env, skipped) r h p
add_user_envs-reserved k (some e ∷ es) (env, skipped) r h p =
    add_user_envs-reserved k es (add_user_env (some e) (env, skipped)) r h p.1
    ∙ add_user_env-reserved k e env skipped r h p.0

-- A reserved key, and a key with a credential suffix, has the value after the user entries that it had
-- before, as long as no user key holds an equals sign.
pub append_user_env-reserved :
    (k : Text) (base : List Text) (es : List (Option Env))
    → is_reserved_env_key k ≡ true
    → contains b'=' k ≡ false
    → KeysPlain es
    → env_value k (append_user_env base es).0 ≡ env_value k base
unfolding append_user_env
append_user_env-reserved k base es = add_user_envs-reserved k es (base, [])

-- No key that holds an equals sign is one of the reserved ones.
unreserved_with_equals :
    (key : Text) → contains b'=' key ≡ true → mem key reserved_runtime_env_keys ≡ false
unfolding contains
unreserved_with_equals key h = elim (Bool-cases (mem key reserved_runtime_env_keys)) [
  | inr m ↦ m
  | inl m ↦
      let plain = mem-all (λ s. not (contains b'=' s)) key reserved_runtime_env_keys refl m in
      absurd (ground (arith, plain, h))
]

-- The filter looks at whole keys: a user key that is a variable's name, an equals sign and more, as long as it ends
-- in neither "_API_KEY" nor "_API_BASE", gives that variable another value, also a variable that is reserved.
pub append_user_env_bypass :
    (k x v description : Text) (base : List Text)
    → contains b'=' k ≡ false
    → has_suffix (k ++ b'=' ∷ x) (codes "_API_KEY") ≡ false
    → has_suffix (k ++ b'=' ∷ x) (codes "_API_BASE") ≡ false
    → env_value k
        (append_user_env base
          (some (record { key = k ++ b'=' ∷ x; value = v; description = description }) ∷ [])).0
      ≡ some (x ++ b'=' ∷ v)
unfolding append_user_env env_value is_reserved_env_key contains
append_user_env_bypass k x v description base h no_key no_base =
    let holds : contains b'=' (k ++ b'=' ∷ x) ≡ true =
      contains-append b'=' k (b'=' ∷ x) ∙ ground (arith) in
    let r : is_reserved_env_key (k ++ b'=' ∷ x) ≡ false =
      rw (unreserved_with_equals (k ++ b'=' ∷ x) holds, no_key, no_base) refl in
    rw (r, append_cons-is_empty k b'=' x, append_assoc k (b'=' ∷ x) (b'=' ∷ v))
      (env_value-append k base ((k ++ b'=' ∷ (x ++ b'=' ∷ v)) ∷ [])
        ∙ rw (strip_key-entry k k (x ++ b'=' ∷ v) h h, text_eq_refl k) refl)

env_char-plain : (key : Text) → contains b'=' (map env_char key) ≡ false
unfolding contains env_char
env_char-plain [] = refl
env_char-plain (c ∷ key) = ground (arith, env_char-plain key)

pub config_key_to_env-plain : (key : Text) → contains b'=' (config_key_to_env key) ≡ false
unfolding config_key_to_env contains
config_key_to_env-plain key = env_char-plain key

config_key_to_env-other :
    (key k : Text)
    → has_prefix k (codes "RUNTIME_") ≡ false
    → text_eq (config_key_to_env key) k ≡ false
unfolding config_key_to_env has_prefix
config_key_to_env-other key k n = elim (Bool-cases (text_eq (config_key_to_env key) k)) [
  | inr e ↦ e
  | inl e ↦ absurd (
      ground (
        arith,
        ap (λ s. has_prefix s (codes "RUNTIME_")) ((text_eq_iff (config_key_to_env key) k).0 e),
      ))
]

-- The entries of the configs, with whatever values.
config_entries-other :
    (k : Text) (value : Text → Text) (ks : List Text)
    → has_prefix k (codes "RUNTIME_") ≡ false
    → contains b'=' k ≡ false
    → env_value k (map (λ j. entry (config_key_to_env j) (value j)) ks) ≡ none
unfolding env_value
config_entries-other k value [] n h = refl
config_entries-other k value (j ∷ ks) n h = rw (config_entries-other k value ks n h) (
    strip_key-entry k (config_key_to_env j) (value j) h (config_key_to_env-plain j)
    ∙ rw (config_key_to_env-other j k n) refl)

-- The configs only reach keys that begin with RUNTIME_.
pub append_config_env-other :
    (k : Text) (base : List Text) (configs : Assoc Text)
    → has_prefix k (codes "RUNTIME_") ≡ false
    → contains b'=' k ≡ false
    → env_value k (append_config_env base configs) ≡ env_value k base
unfolding append_config_env
append_config_env-other k base [] n h = refl
append_config_env-other k base (e ∷ configs) n h =
    let ks = sort_strings (nonempty (keys (e ∷ configs))) in
    let added = map (λ j. entry (config_key_to_env j) (value_at (e ∷ configs) j)) ks in
    env_value-append k base added ∙ rw (config_entries-other k (value_at (e ∷ configs)) ks n h) refl

-- The address and the token of the daemon are both there, with the values given, or neither is.
pub daemon_callback_lem :
    (o : EnvOptions)
    → ((env_value (codes "OTTERSD_URL") (build_locked_env o) ≡ none)
        × (env_value (codes "OTTERS_AGENT_TOKEN") (build_locked_env o) ≡ none))
      ⊎ ((env_value (codes "OTTERSD_URL") (build_locked_env o) ≡ some o.daemon_url)
          × (env_value (codes "OTTERS_AGENT_TOKEN") (build_locked_env o) ≡ some o.agent_token)
          × (is_empty o.daemon_url ≡ false)
          × (is_empty o.agent_token ≡ false))
unfolding build_locked_env env_value
daemon_callback_lem o = elim (Bool-cases (is_empty o.daemon_url || is_empty o.agent_token)) [
  | inl e ↦ inl (rw (e, daemon_callback) refl, rw (e, daemon_callback) refl)
  | inr e ↦
      inr (rw (e, daemon_callback) refl, rw (e, daemon_callback) refl, ground arith, ground arith)
]
