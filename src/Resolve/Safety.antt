-- ===== src/Resolve/Safety.antt =====
-- resolve/resolve.go: resolution, and what Validate checks.
use agentfile.Common.{◌≡◌, some, List, arith, Option-cases, inl, inr}
use agentfile.Common.Results.{ok}
use agentfile.Common.Texts.{Text}
use agentfile.Spec.Types.{Agent, Agentfile}
use agentfile.Spec.Reference.{Reference, parse_reference}
use agentfile.Spec.Validate.Rules.{Rules}
use agentfile.Resolve.Merge.{merge, merge_agent}
use agentfile.Resolve.Merge.Rules.{merge_agent-Rules}
use agentfile.Resolve.{Fetcher, resolve}
use agentfile.Resolve.Lineage.{Lineage, root, step, flatten, resolve_iff}

-- A file whose agent is there and obeys the rules.
abbrev pub IsSound : Agentfile → Type 0
IsSound af = (a : Agent) × (af.agent ≡ some a) × Rules a

merge-IsSound : (p c r : Agentfile) → IsSound p → IsSound c → merge p c ≡ some r → IsSound r
unfolding merge
merge-IsSound p c r (a, ea, ra) (b, eb, rb) h =
    (merge_agent a b, ground arith, merge_agent-Rules a b ra rb)

-- Every file that is fetched is sound.
abbrev pub FetchesSound : Fetcher → Type 0
FetchesSound fetch = (ref : Reference) (p : Agentfile) → fetch ref ≡ ok p → IsSound p

module _ (fetch : Fetcher) (sound : FetchesSound fetch) where
  flatten-IsSound :
      {chain : List Text} {af : Agentfile} {ancestors : List Agentfile} (r : Agentfile)
      → Lineage fetch chain af ancestors
      → IsSound af
      → flatten af ancestors ≡ some r
      → IsSound r
  unfolding flatten
  flatten-IsSound {af = af} r (root a e t) s h = ground arith
  flatten-IsSound {af = af} r (step a p ps e t m f l) s h = elim (Option-cases (flatten p ps)) [
    | inl none_left ↦ absurd (ground arith)
    | inr (q, fl) ↦
        merge-IsSound q af r (flatten-IsSound q l (sound (parse_reference a.from) p f) fl) s
          (ground arith)
  ]

-- If every file that is fetched has an agent that obeys the rules of Validate, and so has the file
-- itself, then so has what it resolves to.
pub resolve-IsSound :
    (fetch : Fetcher)
    → FetchesSound fetch
    → (af r : Agentfile) → IsSound af
    → resolve af fetch ≡ ok r
    → IsSound r
resolve-IsSound fetch sound af r s h =
    let (ps, l, len, fl) = (resolve_iff fetch af r).0 h in flatten-IsSound fetch sound r l s fl
