-- ===== src/Tests/Rules.antt =====
-- Names, Validate, and CONFIG entries.
use agentfile.Common.{◌≡◌, refl, ◌↔◌, false, Option, none, some, List, [], ◌∷◌}
use agentfile.Common.Maps.{Assoc, lookup}
use agentfile.Common.Results.{ok, err}
use agentfile.Common.Sets.{IsSorted}
use agentfile.Common.Texts.{Text, codes, text_eq, mem}
use agentfile.Spec.Types.{Agent, Agentfile, Config, str, Env}
use agentfile.Spec.Validate.{validate, reserved_context}
use agentfile.Spec.Validate.Rules.{Rules, validate_iff}
use agentfile.Spec.Configs.{effective, required_configs_provided}
use agentfile.Spec.Configs.Required.{
  entries, complaints, is_missing, required_configs_provided-missing,
}
use agentfile.Spec.Overrides.{provide_configs}
use agentfile.Spec.Overrides.Configs.{provide_configs-effective}
use agentfile.Tests.Samples.{child, file, text_context, required, setting}

accepts : validate (some (file child)) ≡ ok tt
unfolding validate
accepts = refl

rejects_reserved :
    validate (some (file (record child { contexts = text_context (codes "AGENT") [] ∷ [] })))
    ≡ err (reserved_context (codes "AGENT"))
unfolding validate
rejects_reserved = refl

validate_iff_example : (validate (some (file child)) ≡ ok tt) ↔ (
    (af : Agentfile) × (a : Agent) × (some (file child) ≡ some af) × (af.agent ≡ some a) × Rules a)
validate_iff_example = validate_iff (some (file child))

abbrev two_required : List (Option Config)
two_required =
    some (required (codes "url"))
    ∷ none
    ∷ some (required (codes "key"))
    ∷ some (setting (codes "key") [])
    ∷ []

names_missing : required_configs_provided two_required ≡ err (codes "url" ∷ [])
unfolding required_configs_provided text_eq
names_missing = refl

required_configs_provided-missing_example :
    ((k : Text)
      → mem k (complaints (required_configs_provided two_required))
        ≡ is_missing k (entries two_required))
    × IsSorted (complaints (required_configs_provided two_required))
    × ((required_configs_provided two_required ≡ ok tt)
        ↔ ((k : Text) → is_missing k (entries two_required) ≡ false))
required_configs_provided-missing_example = required_configs_provided-missing two_required

abbrev deployed : Assoc Text
deployed = (codes "url", codes "http://x") ∷ []

provide_configs-effective_example :
    effective (codes "url") (provide_configs deployed (required (codes "url") ∷ []))
    ≡ elim (lookup (codes "url") deployed) [
      | some v ↦ some (str v)
      | none ↦ effective (codes "url") (required (codes "url") ∷ [])
    ]
provide_configs-effective_example =
    provide_configs-effective (codes "url") deployed (required (codes "url") ∷ []) (refl, tt)

abbrev time_zone : Text → Env
time_zone v = record { key = codes "TZ"; value = v; description = [] }
