-- ===== src/Tests/Resolution.antt =====
-- FROM inheritance.
use agentfile.Common.{◌≤◌, ◌≡◌, refl, ◌↔◌, none, some, List, [], ◌∷◌, arith}
use agentfile.Common.Lists.{length}
use agentfile.Common.Results.{ok, err}
use agentfile.Common.Sets.{Distinct}
use agentfile.Common.Texts.{codes, text_eq}
use agentfile.Spec.Contexts.{find_context, names_of}
use agentfile.Spec.Reference.{parse_reference, to_string}
use agentfile.Spec.Types.{Agent, Agentfile}
use agentfile.Spec.Validate.{validate_agent}
use agentfile.Spec.Validate.Rules.{Rules, validate_agent_iff}
use agentfile.Resolve.{cycle, Fetcher, resolve}
use agentfile.Resolve.Lineage.{Lineage, flatten, resolve_iff}
use agentfile.Resolve.Merge.{merge_contexts, merge_agent}
use agentfile.Resolve.Merge.Contexts.{find-merge_contexts}
use agentfile.Resolve.Safety.{IsSound, FetchesSound, resolve-IsSound}
use agentfile.Tests.Samples.{text_context, parent, child, file, setting}

-- Everything is the parent, which has none itself.
abbrev one_parent : Fetcher
one_parent ref = ok (file parent)

-- The child is its own parent.
abbrev itself : Fetcher
itself ref = ok (file child)

abbrev both : Agent
both = merge_agent parent child

resolves : resolve (file child) one_parent ≡ ok (file both)
unfolding resolve text_eq
resolves = refl

refuses_cycle :
    resolve (file child) itself ≡ err (cycle (codes "base:latest" ∷ codes "base:latest" ∷ []))
unfolding resolve text_eq to_string parse_reference
refuses_cycle = refl

resolve_iff_example : (resolve (file child) one_parent ≡ ok (file both)) ↔ (
    (ancestors : List Agentfile) × Lineage one_parent [] (file child) ancestors
    × (length ancestors ≤ 10)
    × (flatten (file child) ancestors ≡ some (file both)))
resolve_iff_example = resolve_iff one_parent (file child) (file both)

parent-Rules : Rules parent
unfolding validate_agent
parent-Rules = (validate_agent_iff parent).0 refl

child-Rules : Rules child
unfolding validate_agent
child-Rules = (validate_agent_iff child).0 refl

parent-FetchesSound : FetchesSound one_parent
parent-FetchesSound ref p h = (parent, ground arith, parent-Rules)

resolve-IsSound_example : IsSound (file both)
resolve-IsSound_example =
    resolve-IsSound one_parent parent-FetchesSound (file child) (file both)
      (child, refl, child-Rules) resolves

find-merge_contexts_example :
    (find_context (codes "SOUL") (merge_contexts parent.contexts child.contexts)
      ≡ elim (find_context (codes "SOUL") child.contexts) [
        | some c ↦ some c
        | none ↦ find_context (codes "SOUL") parent.contexts
      ])
    × Distinct (names_of (merge_contexts parent.contexts child.contexts))
unfolding text_eq
find-merge_contexts_example =
    find-merge_contexts (codes "SOUL") parent.contexts child.contexts (refl, (refl, tt)) (refl, tt)

merged_in_place :
    merge_contexts parent.contexts child.contexts
    ≡ text_context (codes "SOUL") (codes "new") ∷ text_context (codes "TASK") (codes "t") ∷ []
unfolding merge_contexts text_eq
merged_in_place = refl

-- A child that names a runtime of its own, with a config and a label.
abbrev renamed : Agent
renamed = record child {
  runtime = codes "ghcr.io/r:2";
  configs = setting (codes "steps") (codes "3") ∷ [];
  labels = (codes "team", codes "a") ∷ [];
}
