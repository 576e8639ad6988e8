-- ===== src/Spec/Configs/Required.antt =====
-- spec/parse.go, RequiredConfigsProvided: the keys that the error names.
use agentfile.Common.{
  ◌≡◌, refl, ◌∙◌, sym, ap, ◌↔◌, Bool, false, ◌||◌, ◌&&◌, Option, none, some, List, [], ◌∷◌, arith,
}
use agentfile.Common.Maps.{Assoc, lookup, insert, lookup-insert}
use agentfile.Common.Results.{Result, ok, err}
use agentfile.Common.Sets.{mem-sort_strings, IsSorted, sort_strings-IsSorted}
use agentfile.Common.Texts.{Text, text_eq, text_eq_iff, text_eq_refl, mem}
use agentfile.Spec.Types.{Config, ConfigValue}
use agentfile.Spec.Configs.{
  last_config, effective, is_required, mark_required, scan_configs, is_nil, missing_keys,
  report_missing, required_configs_provided,
}

-- The entries behind the pointers that are not nil.
abbrev pub entries : List (Option Config) → List Config
entries [] = []
entries (none ∷ cs) = entries cs
entries (some c ∷ cs) = c ∷ entries cs

mem-mark_required :
    (k : Text) (c : Config) (r : List Text)
    → mem k (mark_required c r) ≡ ((text_eq c.key k && c.required) || mem k r)
unfolding mark_required
mem-mark_required k c r = ground (arith, text_eq_iff c.key k, text_eq_iff k c.key)

scan-required :
    (k : Text) (cs : List (Option Config)) (r : List Text) (v : Assoc (Option ConfigValue))
    → mem k (scan_configs cs r v).0 ≡ (mem k r || is_required k (entries cs))
unfolding scan_configs is_required
scan-required k [] r v = ground arith
scan-required k (none ∷ cs) r v = scan-required k cs r v
scan-required k (some c ∷ cs) r v = ground (
  arith,
  scan-required k cs (mark_required c r) (insert c.key c.value v),
  mem-mark_required k c r,
)

scan-value :
    (k : Text) (cs : List (Option Config)) (r : List Text) (v : Assoc (Option ConfigValue))
    → lookup k (scan_configs cs r v).1
      ≡ elim (last_config k (entries cs)) [ some c ↦ some c.value | none ↦ lookup k v ]
unfolding scan_configs last_config
scan-value k [] r v = refl
scan-value k (none ∷ cs) r v = scan-value k cs r v
scan-value k (some c ∷ cs) r v = ground (
  arith,
  scan-value k cs (mark_required c r) (insert c.key c.value v),
  lookup-insert c.key k c.value v,
)

mem-missing_keys :
    (k : Text) (ks : List Text) (v : Assoc (Option ConfigValue))
    → mem k (missing_keys ks v) ≡ (mem k ks && is_nil (lookup k v))
unfolding missing_keys
mem-missing_keys k [] v = refl
mem-missing_keys k (j ∷ ks) v = ground (arith, mem-missing_keys k ks v, text_eq_iff k j)

-- A key that some entry marks as required and whose last entry has no value.
unfoldable pub is_missing : Text → List Config → Bool
unfolding is_required effective
is_missing k cs = is_required k cs && is_nil (some (effective k cs))

-- The keys that an outcome complains about.
abbrev pub complaints : Result (List Text) (Unit {0}) → List Text
complaints (ok u) = []
complaints (err ks) = ks

mem-complaints : (k : Text) (ks : List Text) → mem k (complaints (report_missing ks)) ≡ mem k ks
unfolding report_missing
mem-complaints k [] = refl
mem-complaints k (j ∷ ks) = mem-sort_strings k (j ∷ ks)

complaints-IsSorted : (ks : List Text) → IsSorted (complaints (report_missing ks))
unfolding report_missing
complaints-IsSorted [] = tt
complaints-IsSorted (j ∷ ks) = sort_strings-IsSorted (j ∷ ks)

report_missing-ok : (ks : List Text) → ((k : Text) → mem k ks ≡ false) → report_missing ks ≡ ok tt
unfolding report_missing
report_missing-ok [] h = refl
report_missing-ok (j ∷ ks) h = ground (arith, h j, text_eq_refl j)

mem-found :
    (k : Text) (cs : List (Option Config))
    → mem k (missing_keys (scan_configs cs [] []).0 (scan_configs cs [] []).1)
      ≡ is_missing k (entries cs)
unfolding is_missing is_nil lookup
mem-found k cs = ground (
  arith,
  mem-missing_keys k (scan_configs cs [] []).0 (scan_configs cs [] []).1,
  scan-required k cs [] [],
  scan-value k cs [] [],
)

ok-report_missing : (ks : List Text) → report_missing ks ≡ ok tt → ks ≡ []
unfolding report_missing
ok-report_missing [] h = refl
ok-report_missing (j ∷ ks) h = cc

-- The check complains about a key exactly when some entry requires the key and the last entry of the
-- key has no value; what it names is sorted; and it passes exactly when nothing is missing.
pub required_configs_provided-missing :
    (cs : List (Option Config))
    → ((k : Text) → mem k (complaints (required_configs_provided cs)) ≡ is_missing k (entries cs))
      × IsSorted (complaints (required_configs_provided cs))
      × ((required_configs_provided cs ≡ ok tt) ↔ ((k : Text) → is_missing k (entries cs) ≡ false))
unfolding required_configs_provided
required_configs_provided-missing cs =
    let found = missing_keys (scan_configs cs [] []).0 (scan_configs cs [] []).1 in
    (
      λ k. mem-complaints k found ∙ mem-found k cs,
      complaints-IsSorted found,
      (
        λ h k. sym (mem-found k cs) ∙ ap (mem k) (ok-report_missing found h),
        λ none_missing. report_missing-ok found (λ k. mem-found k cs ∙ none_missing k),
      ),
    )
