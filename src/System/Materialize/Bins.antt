-- ===== src/System/Materialize/Bins.antt =====
-- The names of an agent's tools, from validation through the overrides (spec/types.go).
use agentfile.Common.Texts.{Text}
use agentfile.Common.{
  ◌≡◌, refl, sym, ap, ◌∙◌, inl, inr, true, some, List, [], ◌∷◌, arith, Option-cases,
}
use mathlib.Core.Path.{subst}
use mathlib.Core.Option.{some-injective}
use agentfile.Common.Lists.{All}
use agentfile.Common.Results.{ok}
use agentfile.Spec.Types.{Bin, Env, Mount, Agent, Agentfile}
use agentfile.Spec.Names.{is_path_safe_name}
use agentfile.Common.Maps.{Assoc}
use agentfile.Spec.Overrides.{
  Override, apply, on_agent, on_agent_if_any, with_runtime, with_model, with_mounts,
  with_extra_envs, with_config,
}
use agentfile.Spec.Validate.{validate}
use agentfile.Spec.Validate.Rules.{validate_iff}

-- The names of the tools are file names.
abbrev pub SafeName : Bin → Type 0
SafeName b = is_path_safe_name b.name ≡ true

abbrev pub BinsSafe : Agent → Type 0
BinsSafe a = All SafeName a.bins

-- An override leaves the names of the tools file names.
abbrev pub KeepsBins : Override → Type 0
KeepsBins o =
    (af af' : Agentfile)
    → ((a : Agent) → af.agent ≡ some a → BinsSafe a)
    → o af ≡ some af'
    → (a : Agent) → af'.agent ≡ some a
    → BinsSafe a

pub apply-KeepsBins : (os : List Override) → All KeepsBins os → KeepsBins (apply os)
unfolding apply
apply-KeepsBins [] h af af' safe e a q = safe a (ap Agentfile.agent (some-injective af af' e) ∙ q)
apply-KeepsBins (o ∷ os) (now, later) af af' safe e a q = elim (Option-cases (o af)) [
  | inl n ↦ absurd (ground arith)
  | inr (mid, m) ↦ apply-KeepsBins os later mid af' (now af mid safe m) (ground arith) a q
]

pub validated :
    (af : Agentfile) → validate (some af) ≡ ok tt → (a : Agent) → af.agent ≡ some a → BinsSafe a
validated af h a e =
    let (af', a', same, e', rules) = (validate_iff (some af)).0 h in
    subst BinsSafe
      (some-injective a' a (sym e' ∙ ap Agentfile.agent (sym (some-injective af af' same)) ∙ e))
      rules.bins

on_agent-KeepsBins :
    (f : Agent → Agent) → ((a : Agent) → (f a).bins ≡ a.bins) → KeepsBins (on_agent f)
unfolding on_agent
on_agent-KeepsBins f same af af' safe e a q = elim (Option-cases af.agent) [
  | inl n ↦ absurd (ground arith)
  | inr (b, m) ↦
      let kept : f b ≡ a = ground arith in
      subst BinsSafe kept (subst (All SafeName) (sym (same b)) (safe b m))
]

on_agent_if_any-KeepsBins :
    (f : Agent → Agent) → ((a : Agent) → (f a).bins ≡ a.bins) → KeepsBins (on_agent_if_any f)
unfolding on_agent_if_any
on_agent_if_any-KeepsBins f same af af' safe e a q = elim (Option-cases af.agent) [
  | inl n ↦ absurd (ground arith)
  | inr (b, m) ↦
      let kept : f b ≡ a = ground arith in
      subst BinsSafe kept (subst (All SafeName) (sym (same b)) (safe b m))
]

-- The overrides that there are.
pub with_runtime-KeepsBins : (runtime : Text) → KeepsBins (with_runtime runtime)
unfolding with_runtime
with_runtime-KeepsBins runtime = on_agent-KeepsBins _ (λ a. refl)

pub with_model-KeepsBins : (model : Text) → KeepsBins (with_model model)
unfolding with_model
with_model-KeepsBins model = on_agent-KeepsBins _ (λ a. refl)

pub with_mounts-KeepsBins : (mounts : List Mount) → KeepsBins (with_mounts mounts)
unfolding with_mounts
with_mounts-KeepsBins mounts = on_agent_if_any-KeepsBins _ (λ a. refl)

unchanged-KeepsBins : (o : Override) → ((af : Agentfile) → o af ≡ some af) → KeepsBins o
unchanged-KeepsBins o same af af' safe e a q =
    let kept : af ≡ af' = some-injective af af' (sym (same af) ∙ e) in
    safe a (ap Agentfile.agent kept ∙ q)

pub with_extra_envs-KeepsBins : (envs : List Env) → KeepsBins (with_extra_envs envs)
unfolding with_extra_envs
with_extra_envs-KeepsBins [] = unchanged-KeepsBins (with_extra_envs []) (λ af. refl)
with_extra_envs-KeepsBins (e ∷ es) = on_agent-KeepsBins _ (λ a. refl)

pub with_config-KeepsBins : (values : Assoc Text) → KeepsBins (with_config values)
unfolding with_config
with_config-KeepsBins [] = unchanged-KeepsBins (with_config []) (λ af. refl)
with_config-KeepsBins (e ∷ es) = on_agent_if_any-KeepsBins _ (λ a. refl)
