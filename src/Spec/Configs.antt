-- ===== src/Spec/Configs.antt =====
-- The flattened view of CONFIG entries, and spec/parse.go: RequiredConfigsProvided.
pub mod Required
use agentfile.Common.{
  ◌≡◌, Bool, true, false, ◌||◌, ◌&&◌, Option, none, some, List, [], ◌∷◌, ◌++◌, arith, if◌then◌else◌,
}
use agentfile.Common.Maps.{Assoc, lookup, insert}
use agentfile.Common.Results.{Result, ok, err}
use agentfile.Common.Sets.{sort_strings}
use agentfile.Common.Texts.{Text, text_eq, mem}
use agentfile.Spec.Types.{Config, ConfigValue}

-- The last entry of a key.
unfoldable pub last_config : Text → List Config → Option Config
last_config k [] = none
last_config k (c ∷ cs) = elim (last_config k cs) [
  | some d ↦ some d
  | none ↦ if text_eq c.key k then some c else none
]

-- The value of the last entry of a key; `none` for a nil value and for a key that is not there.
unfoldable pub effective : Text → List Config → Option ConfigValue
unfolding last_config
effective k cs = elim (last_config k cs) [ none ↦ none | some c ↦ c.value ]

-- Some entry of the key is marked.
unfoldable pub is_required : Text → List Config → Bool
is_required k [] = false
is_required k (c ∷ cs) = (text_eq c.key k && c.required) || is_required k cs

pub last_config-append :
    (k : Text) (xs ys : List Config)
    → last_config k (xs ++ ys)
      ≡ elim (last_config k ys) [ some d ↦ some d | none ↦ last_config k xs ]
unfolding last_config
last_config-append k [] ys = ground arith
last_config-append k (x ∷ xs) ys = ground (arith, last_config-append k xs ys)

-- if c.Required { required[c.Key] = struct{}{} }
unfoldable pub mark_required : Config → List Text → List Text
mark_required c required =
    if c.required then (if mem c.key required then required else c.key ∷ required) else required

-- The loop over the entries, a nil pointer among them skipped. `required` is the set of keys and
-- `value` the map; a value may be nil.
unfoldable pub scan_configs :
    List (Option Config)
    → List Text
    → Assoc (Option ConfigValue)
    → List Text × Assoc (Option ConfigValue)
unfolding insert mark_required
scan_configs [] required value = (required, value)
scan_configs (none ∷ cs) required value = scan_configs cs required value
scan_configs (some c ∷ cs) required value =
    scan_configs cs (mark_required c required) (insert c.key c.value value)

-- `value[key] == nil`, for a missing key too
unfoldable pub is_nil : Option (Option ConfigValue) → Bool
is_nil none = true
is_nil (some none) = true
is_nil (some (some v)) = false

unfoldable pub missing_keys : List Text → Assoc (Option ConfigValue) → List Text
unfolding is_nil lookup
missing_keys [] value = []
missing_keys (k ∷ ks) value =
    let rest = missing_keys ks value in if is_nil (lookup k value) then k ∷ rest else rest

-- The error names the keys in order.
unfoldable pub report_missing : List Text → Result (List Text) (Unit {0})
unfolding sort_strings
report_missing [] = ok tt
report_missing (k ∷ ks) = err (sort_strings (k ∷ ks))

unfoldable pub required_configs_provided : List (Option Config) → Result (List Text) (Unit {0})
unfolding scan_configs missing_keys report_missing
required_configs_provided configs =
    let (required, value) = scan_configs configs [] [] in
    report_missing (missing_keys required value)
