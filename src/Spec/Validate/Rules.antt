-- ===== src/Spec/Validate/Rules.antt =====
-- spec/parse.go, Validate: the rules as a predicate on an agent.
use agentfile.Common.{
  ◌≡◌, refl, ◌≢◌, ◌↔◌, ◌⊎◌, inl, inr, true, false, Option, none, some, [], ◌∷◌, arith,
  if◌then◌else◌, Option-cases,
}
use agentfile.Common.Lists.{All}
use agentfile.Common.Results.{ok, check_all_iff}
use agentfile.Common.Texts.{Text, is_empty, mem}
use agentfile.Spec.Names.{
  is_path_safe_name, is_dns1123_label, is_env_key, reserved_context_names, reserved_env_keys,
  is_credential_key,
}
use agentfile.Spec.Types.{Context, Config, Bin, Add, Env, Agent, Agentfile}
use agentfile.Spec.Validate.{
  Kind, name, bin, add, config, capability, validate_path_safe_name, validate_dns1123_label,
  validate_context, validate_config, validate_env_key, validate_agent, validate,
}

pub record ContextRule (c : Context) : Type 0 where
  pub safe : is_path_safe_name c.name ≡ true
  pub free : mem c.name reserved_context_names ≡ false

pub record ConfigRule (c : Config) : Type 0 where
  pub label : is_dns1123_label c.key ≡ true
  pub no_default : c.required ≡ true → c.value ≡ none

pub record EnvRule (e : Env) : Type 0 where
  pub shape : is_env_key e.key ≡ true
  pub free : mem e.key reserved_env_keys ≡ false
  pub no_credential : is_credential_key e.key ≡ false

-- The rules for an agent.
pub record Rules (a : Agent) : Type 0 where
  pub from : a.from ≢ []
  pub name : (a.name ≡ []) ⊎ (is_path_safe_name a.name ≡ true)
  pub contexts : All ContextRule a.contexts
  pub bins : All (λ (b : Bin). is_path_safe_name b.name ≡ true) a.bins
  pub adds : All (λ (d : Add). is_path_safe_name d.name ≡ true) a.adds
  pub configs : All ConfigRule a.configs
  pub capabilities : All (λ (n : Text). is_dns1123_label n ≡ true) a.capabilities
  pub envs : All EnvRule a.envs

validate_path_safe_name_iff :
    (k : Kind) (n : Text) → (validate_path_safe_name k n ≡ ok tt) ↔ (is_path_safe_name n ≡ true)
unfolding validate_path_safe_name
validate_path_safe_name_iff k [] = ground arith
validate_path_safe_name_iff k (c ∷ s) = ground arith

validate_dns1123_label_iff :
    (k : Kind) (n : Text) → (validate_dns1123_label k n ≡ ok tt) ↔ (is_dns1123_label n ≡ true)
unfolding validate_dns1123_label
validate_dns1123_label_iff k n = ground arith

validate_context_iff : (c : Context) → (validate_context c ≡ ok tt) ↔ ContextRule c
unfolding validate_context
validate_context_iff c = ground (arith, validate_path_safe_name_iff Kind.context c.name)

validate_config_iff : (c : Config) → (validate_config c ≡ ok tt) ↔ ConfigRule c
unfolding validate_config
validate_config_iff c = ground (arith, validate_dns1123_label_iff config c.key)

validate_env_key_iff : (e : Env) → (validate_env_key e.key ≡ ok tt) ↔ EnvRule e
unfolding validate_env_key
validate_env_key_iff e = ground arith

from_iff : (t : Text) → (is_empty t ≡ false) ↔ (t ≢ [])
from_iff [] = ground arith
from_iff (c ∷ t) = ground arith

name_iff :
    (t : Text)
    → ((if is_empty t then ok tt else validate_path_safe_name name t) ≡ ok tt)
      ↔ ((t ≡ []) ⊎ (is_path_safe_name t ≡ true))
name_iff [] = ground arith
name_iff (c ∷ t) = ground (arith, validate_path_safe_name_iff name (c ∷ t))

pub validate_agent_iff : (a : Agent) → (validate_agent a ≡ ok tt) ↔ Rules a
unfolding validate_agent
validate_agent_iff a = ground (
  arith,
  from_iff a.from,
  name_iff a.name,
  check_all_iff validate_context ContextRule a.contexts validate_context_iff,
  check_all_iff (λ (b : Bin). validate_path_safe_name bin b.name)
      (λ b. is_path_safe_name b.name ≡ true) a.bins (λ b. validate_path_safe_name_iff bin b.name),
  check_all_iff (λ (d : Add). validate_path_safe_name add d.name)
      (λ d. is_path_safe_name d.name ≡ true) a.adds (λ d. validate_path_safe_name_iff add d.name),
  check_all_iff validate_config ConfigRule a.configs validate_config_iff,
  check_all_iff (validate_dns1123_label capability) (λ n. is_dns1123_label n ≡ true) a.capabilities
      (validate_dns1123_label_iff capability),
  check_all_iff (λ (e : Env). validate_env_key e.key) EnvRule a.envs validate_env_key_iff,
)

-- `Validate` accepts exactly the agentfiles that are there, have an agent, and obey the rules.
pub validate_iff :
    (o : Option Agentfile)
    → (validate o ≡ ok tt)
      ↔ ((af : Agentfile) × (a : Agent) × (o ≡ some af) × (af.agent ≡ some a) × Rules a)
unfolding validate
validate_iff none = (λ h. cc, λ h. ground arith)
validate_iff (some af) = elim (Option-cases af.agent) [
  | inl e ↦ (λ h. absurd (ground arith), λ h. ground arith)
  | inr (a, e) ↦ (
    λ h. (af, a, refl, e, (validate_agent_iff a).0 (ground arith)),
    λ h. ground (arith, (validate_agent_iff h.1).1 h.4),
  )
]
