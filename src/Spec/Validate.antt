-- ===== src/Spec/Validate.antt =====
-- spec/parse.go: Validate and the checks that it makes, in its order. The first failure is returned.
pub mod Rules
use agentfile.Common.{Bool, true, false, not, ◌&&◌, Option, none, some, if◌then◌else◌}
use agentfile.Common.Results.{Result, ok, err, ◌>>=◌, ◌>>◌, reject_if, check_all}
use agentfile.Common.Texts.{Text, is_empty, mem}
use agentfile.Spec.Names.{
  is_path_safe_name, is_dns1123_label, is_env_key, reserved_context_names, reserved_env_keys,
  is_credential_key,
}
use agentfile.Spec.Types.{Context, Config, Agent, Agentfile}

-- The word that the messages put in front of a name.
pub data Kind : Type 0 where
  name context bin add config capability : Kind

pub data ValidateError : Type 0 where
  nil_agentfile nil_agent from_required : ValidateError
  empty_name : Kind → ValidateError
  bad_name : Kind → Text → ValidateError
  bad_label : Kind → Text → ValidateError
  reserved_context : Text → ValidateError
  required_with_default : Text → ValidateError
  empty_env_key : ValidateError
  bad_env_key : Text → ValidateError
  reserved_env_key : Text → ValidateError
  credential_env_key : Text → ValidateError

abbrev pub Check : Type 0
Check = Result ValidateError (Unit {0})

unfoldable pub validate_path_safe_name : Kind → Text → Check
unfolding is_path_safe_name
validate_path_safe_name kind n = do
  reject_if (is_empty n) (empty_name kind)
  reject_if (not (is_path_safe_name n)) (bad_name kind n)

unfoldable pub validate_dns1123_label : Kind → Text → Check
unfolding is_dns1123_label
validate_dns1123_label kind n = reject_if (not (is_dns1123_label n)) (bad_label kind n)

unfoldable pub validate_context : Context → Check
unfolding validate_path_safe_name
validate_context ctx = do
  reject_if (mem ctx.name reserved_context_names) (reserved_context ctx.name)
  validate_path_safe_name context ctx.name

abbrev has_value : Config → Bool
has_value c = elim c.value [ none ↦ false | some v ↦ true ]

unfoldable pub validate_config : Config → Check
unfolding validate_dns1123_label
validate_config cfg = do
  validate_dns1123_label config cfg.key
  reject_if (cfg.required && has_value cfg) (required_with_default cfg.key)

unfoldable pub validate_env_key : Text → Check
unfolding is_env_key is_credential_key
validate_env_key key = do
  reject_if (is_empty key) empty_env_key
  reject_if (not (is_env_key key)) (bad_env_key key)
  reject_if (mem key reserved_env_keys) (reserved_env_key key)
  reject_if (is_credential_key key) (credential_env_key key)

-- Validate behind the two tests for nil
unfoldable pub validate_agent : Agent → Check
unfolding validate_path_safe_name validate_dns1123_label validate_context validate_config
    validate_env_key check_all
validate_agent a = do
  reject_if (is_empty a.from) from_required
  if is_empty a.name then ok tt else validate_path_safe_name name a.name
  check_all validate_context a.contexts
  check_all (λ b. validate_path_safe_name bin b.name) a.bins
  check_all (λ d. validate_path_safe_name add d.name) a.adds
  check_all validate_config a.configs
  check_all (validate_dns1123_label capability) a.capabilities
  check_all (λ e. validate_env_key e.key) a.envs

unfoldable pub validate : Option Agentfile → Check
unfolding validate_agent
validate none = err nil_agentfile
validate (some af) = elim af.agent [ none ↦ err nil_agent | some a ↦ validate_agent a ]
