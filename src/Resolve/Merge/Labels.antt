-- ===== src/Resolve/Merge/Labels.antt =====
-- resolve/resolve.go, mergeAgent: labels, build arguments and configs.
use agentfile.Common.{◌≡◌, Option, none, some, [], arith, if◌then◌else◌, Bool-cases, inl, inr}
use agentfile.Common.Maps.{Assoc, lookup, insert_all, lookup-insert_all}
use agentfile.Common.Texts.{Text, is_empty}
use agentfile.Spec.Configs.{last_config, last_config-append}
use agentfile.Spec.Types.{Agent}
use agentfile.Resolve.Merge.{merge_agent}

-- What a map shows that lies over another.
abbrev pub over {ℓ} : {A : Type ℓ} → Option A → Option A → Option A
over (some x) y = some x
over none y = y

lookup-over :
    (k : Text) (parent child : Assoc Text)
    → lookup k (insert_all child (insert_all parent [])) ≡ over (lookup k child) (lookup k parent)
unfolding lookup
lookup-over k parent child =
    ground (arith, lookup-insert_all k child (insert_all parent []), lookup-insert_all k parent [])

-- A label or argument of the merge is the child's if the child has it, and otherwise the parent's.
pub merge_agent-lookup :
    (k : Text) (parent child : Agent)
    → (lookup k (merge_agent parent child).labels
        ≡ over (lookup k child.labels) (lookup k parent.labels))
      × (lookup k (merge_agent parent child).args
          ≡ over (lookup k child.args) (lookup k parent.args))
unfolding merge_agent
merge_agent-lookup k parent child =
    (lookup-over k parent.labels child.labels, lookup-over k parent.args child.args)

-- The last entry of a config key in the merge is the child's last one if the child has the key. Otherwise it
-- is the parent's, unless the child names a runtime, which drops the configs of the parent.
merge_agent-last_config :
    (k : Text) (parent child : Agent)
    → last_config k (merge_agent parent child).configs
      ≡ over
          (last_config k child.configs)
          (if is_empty child.runtime then last_config k parent.configs else none)
unfolding merge_agent
merge_agent-last_config k parent child = elim (Bool-cases (is_empty child.runtime)) [
  | inl e ↦ ground (arith, last_config-append k parent.configs child.configs)
  | inr e ↦ ground arith
]
