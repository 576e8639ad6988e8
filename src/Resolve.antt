-- ===== src/Resolve.antt =====
-- resolve/resolve.go: FROM inheritance. A nil agent, which panics in Go, is the error `nil_agent`.
pub mod Merge
pub mod Lineage
pub mod Safety
use agentfile.Common.{
  false, ℕ, zero, suc, ◌+◌, Bool, ◌||◌, none, some, List, [], ◌∷◌, ◌++◌, ltb, if◌then◌else◌,
}
use agentfile.Common.Results.{Result, ok, err}
use agentfile.Common.Texts.{Text, codes, text_eq, is_empty, mem}
use agentfile.Spec.Types.{Agent, Agentfile}
use agentfile.Spec.Reference.{Reference, parse_reference, to_string}
use agentfile.Resolve.Merge.{merge}

abbrev pub max_depth : ℕ
max_depth = 10

pub data ResolveError : Type 0 where
  depth_exceeded nil_agent out_of_fuel : ResolveError
  cycle : List Text → ResolveError
  pulling : Text → Text → ResolveError

-- What pulls a parent, by its reference; the failure is a message.
abbrev pub Fetcher : Type 0
Fetcher = Reference → Result Text Agentfile

-- af.Agent.From == "" || af.Agent.From == "scratch"
unfoldable pub is_root : Agent → Bool
unfolding text_eq
is_root a = is_empty a.from || text_eq a.from (codes "scratch")

-- return merge(parent, af), nil
unfoldable pub merge_onto :
    Agentfile → Result ResolveError Agentfile → Result ResolveError Agentfile
unfolding merge
merge_onto af (err e) = err e
merge_onto af (ok parent) = elim (merge parent af) [ none ↦ err nil_agent | some m ↦ ok m ]

unfoldable pub resolve_depth :
    ℕ → Fetcher → Agentfile → ℕ → List Text → Result ResolveError Agentfile
unfolding is_root merge_onto
resolve_depth zero fetch af depth chain = err out_of_fuel
resolve_depth (suc fuel) fetch af depth chain =
    if ltb max_depth depth then err depth_exceeded else elim af.agent [
      | none ↦ err nil_agent
      | some a ↦
          if is_root a
          then ok af
          else let ref = parse_reference a.from in
            let normalized = to_string ref in
            if mem normalized chain
            then err (cycle (chain ++ normalized ∷ []))
            else elim (fetch ref) [
              | err why ↦ err (pulling a.from why)
              | ok parent ↦
                  merge_onto af
                    (resolve_depth fuel fetch parent (depth + 1) (chain ++ normalized ∷ []))
            ]
    ]

-- Twelve levels: one for each depth from 0 to 11, where the last one refuses.
unfoldable pub resolve : Agentfile → Fetcher → Result ResolveError Agentfile
unfolding resolve_depth
resolve af fetch = resolve_depth 12 fetch af 0 []
