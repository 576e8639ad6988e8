-- ===== src/Resolve/Merge/Rules.antt =====
-- resolve/resolve.go: merging, and the rules that Validate checks.
use agentfile.Common.{
  ℕ, zero, suc, ◌≡◌, inl, inr, true, List, [], ◌∷◌, arith, Option-cases, Bool-cases,
}
use agentfile.Common.Lists.{set, All, All-append}
use agentfile.Common.Maps.{lookup}
use agentfile.Common.Texts.{is_empty}
use agentfile.Spec.Types.{Context, Agent}
use agentfile.Spec.Names.{is_dns1123_label}
use agentfile.Spec.Validate.Rules.{Rules, ContextRule, ConfigRule, EnvRule}
use agentfile.Resolve.Merge.{
  Slots, append_context, append_contexts, place_context, place_contexts, merge_contexts,
  merge_agent,
}
use agentfile.Resolve.Merge.Capabilities.{merge_string_set-All}

module _ {κ} (P : Context → Type κ) where
  set-All : (cs : List Context) (i : ℕ) (c : Context) → All P cs → P c → All P (set cs i c)
  set-All [] i c h p = tt
  set-All (x ∷ cs) zero c h p = (p, h.1)
  set-All (x ∷ cs) (suc i) c h p = (h.0, set-All cs i c h.1 p)

  append_contexts-All :
      (cs : List Context) (s : Slots)
      → All P cs
      → All P s.result
      → All P (append_contexts cs s).result
  unfolding append_contexts append_context
  append_contexts-All [] s h k = k
  append_contexts-All (c ∷ cs) s h k =
      append_contexts-All cs (append_context c s) h.1 (All-append P s.result (c ∷ []) k (h.0, tt))

  place_context-All :
      (c : Context) (s : Slots) → P c → All P s.result → All P (place_context c s).result
  unfolding place_context append_context
  place_context-All c s p k = elim (Option-cases (lookup c.name s.by_name)) [
    | inl e ↦ rw (e, place_context) (All-append P s.result (c ∷ []) k (p, tt))
    | inr (i, e) ↦ rw (e, place_context) (set-All s.result i c k p)
  ]

  place_contexts-All :
      (cs : List Context) (s : Slots)
      → All P cs
      → All P s.result
      → All P (place_contexts cs s).result
  unfolding place_contexts
  place_contexts-All [] s h k = k
  place_contexts-All (c ∷ cs) s h k =
      place_contexts-All cs (place_context c s) h.1 (place_context-All c s h.0 k)

  merge_contexts-All :
      (parent child : List Context)
      → All P parent
      → All P child
      → All P (merge_contexts parent child)
  unfolding merge_contexts
  merge_contexts-All parent child h k =
      place_contexts-All child _ k
        (append_contexts-All parent (record { by_name = []; result = [] }) h tt)

-- A merge of two agents that obey the rules obeys the rules.
pub merge_agent-Rules : (p c : Agent) → Rules p → Rules c → Rules (merge_agent p c)
unfolding merge_agent
merge_agent-Rules p c rp rc = record {
  from = rc.from;
  name = ground (arith, rp.name, rc.name);
  contexts = merge_contexts-All ContextRule p.contexts c.contexts rp.contexts rc.contexts;
  bins = All-append _ p.bins c.bins rp.bins rc.bins;
  adds = All-append _ p.adds c.adds rp.adds rc.adds;
  configs = elim (Bool-cases (is_empty c.runtime)) [
    | inl e ↦ rw e (All-append ConfigRule p.configs c.configs rp.configs rc.configs)
    | inr e ↦ rw e rc.configs
  ];
  capabilities =
      merge_string_set-All (λ n. is_dns1123_label n ≡ true) p.capabilities c.capabilities
        rp.capabilities rc.capabilities;
  envs = All-append EnvRule p.envs c.envs rp.envs rc.envs;
}
