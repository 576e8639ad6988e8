-- ===== src/Resolve/Merge.antt =====
-- resolve/resolve.go: merge, mergeAgent and the merges of the parts.
pub mod Contexts
pub mod Capabilities
pub mod Rules
pub mod Labels
use agentfile.Common.{ℕ, Option, none, some, List, [], ◌∷◌, ◌++◌, if◌then◌else◌}
use agentfile.Common.Lists.{length, set}
use agentfile.Common.Maps.{Assoc, lookup, insert, insert_all}
use agentfile.Common.Texts.{Text, is_empty, mem}
use agentfile.Spec.Types.{Context, Agent, Agentfile}

-- `byName` and `result`
pub record Slots : Type 0 where
  pub by_name : Assoc ℕ
  pub result : List Context

-- byName[c.Name] = len(result); result = append(result, c)
unfoldable pub append_context : Context → Slots → Slots
unfolding insert
append_context c s = record {
  by_name = insert c.name (length s.result) s.by_name;
  result = s.result ++ c ∷ [];
}

unfoldable pub append_contexts : List Context → Slots → Slots
unfolding append_context
append_contexts [] s = s
append_contexts (c ∷ cs) s = append_contexts cs (append_context c s)

unfoldable pub place_context : Context → Slots → Slots
unfolding append_context lookup
place_context c s = elim (lookup c.name s.by_name) [
  | some idx ↦ record s { result = set s.result idx c }
  | none ↦ append_context c s
]

unfoldable pub place_contexts : List Context → Slots → Slots
unfolding place_context
place_contexts [] s = s
place_contexts (c ∷ cs) s = place_contexts cs (place_context c s)

unfoldable pub merge_contexts : List Context → List Context → List Context
unfolding append_contexts place_contexts
merge_contexts parent child =
    (place_contexts child (append_contexts parent (record { by_name = []; result = [] }))).result

-- The body of the loops of mergeStringSet, over the set `seen` and the list `out`.
unfoldable pub add_one : Text → List Text × List Text → List Text × List Text
add_one x (seen, out) = if mem x seen then (seen, out) else (x ∷ seen, out ++ x ∷ [])

unfoldable pub add_unseen : List Text → List Text × List Text → List Text × List Text
unfolding add_one
add_unseen [] s = s
add_unseen (x ∷ xs) s = add_unseen xs (add_one x s)

unfoldable pub merge_string_set : List Text → List Text → List Text
unfolding add_unseen
merge_string_set parent child = (add_unseen child (add_unseen parent ([], []))).1

-- if child.F != "" { merged.F = child.F }
abbrev pub override : Text → Text → Text
override parent child = if is_empty child then parent else child

abbrev pub override_list {ℓ} : {A : Type ℓ} → List A → List A → List A
override_list parent [] = parent
override_list parent (x ∷ xs) = x ∷ xs

unfoldable pub merge_agent : Agent → Agent → Agent
unfolding merge_contexts merge_string_set insert_all
merge_agent parent child = record {
  from = child.from;
  runtime = override parent.runtime child.runtime;
  model = override parent.model child.model;
  name = override parent.name child.name;
  contexts = merge_contexts parent.contexts child.contexts;
  configs = if is_empty child.runtime then parent.configs ++ child.configs else child.configs;
  bins = parent.bins ++ child.bins;
  adds = parent.adds ++ child.adds;
  exec = override_list parent.exec child.exec;
  labels = insert_all child.labels (insert_all parent.labels []);
  args = insert_all child.args (insert_all parent.args []);
  envs = parent.envs ++ child.envs;
  capabilities = merge_string_set parent.capabilities child.capabilities;
  runtime_mounts = [];
}

-- `none` where mergeAgent reads through a nil agent.
unfoldable pub merge : Agentfile → Agentfile → Option Agentfile
unfolding merge_agent
merge parent child = elim parent.agent [
  | none ↦ none
  | some p ↦ elim child.agent [
    | none ↦ none
    | some c ↦
        some
          (record { syntax = override parent.syntax child.syntax; agent = some (merge_agent p c) })
  ]
]
