-- ===== src/Resolve/Lineage.antt =====
-- resolve/resolve.go: the chain of ancestors behind a resolution.
use agentfile.Common.{
  ℕ, zero, suc, ◌+◌, ◌≤◌, ◌≡◌, refl, ◌≢◌, ◌↔◌, inl, inr, true, false, Option, none, some, List, [],
  ◌∷◌, ◌++◌, arith, ltb, Bool-cases, Option-cases,
}
use agentfile.Common.Lists.{length}
use agentfile.Common.Results.{Result, ok, err, Result-cases}
use agentfile.Common.Texts.{Text, mem}
use agentfile.Spec.Types.{Agent, Agentfile}
use agentfile.Spec.Reference.{parse_reference, to_string}
use agentfile.Resolve.Merge.{override, merge_agent, merge}
use agentfile.Resolve.{
  ResolveError, out_of_fuel, Fetcher, max_depth, is_root, merge_onto, resolve_depth, resolve,
}

-- The form in which an agent's parent is compared.
abbrev pub parent_key : Agent → Text
parent_key a = to_string (parse_reference a.from)

-- `ancestors` is the chain of parents of a file, the nearest first, each fetched by the reference
-- of the one before; the keys in `chain` and those of the chain itself do not repeat.
pub data Lineage (fetch : Fetcher) : List Text → Agentfile → List Agentfile → Type 0 where
  root :
      {chain : List Text} {af : Agentfile} (a : Agent)
      → af.agent ≡ some a
      → is_root a ≡ true
      → Lineage fetch chain af []
  step :
      {chain : List Text} {af : Agentfile} (a : Agent) (parent : Agentfile)
      (ancestors : List Agentfile)
      → af.agent ≡ some a
      → is_root a ≡ false
      → mem (parent_key a) chain ≡ false
      → fetch (parse_reference a.from) ≡ ok parent
      → Lineage fetch (chain ++ parent_key a ∷ []) parent ancestors
      → Lineage fetch chain af (parent ∷ ancestors)

-- The merge of a file onto its ancestors; `none` if one of them has no agent.
unfoldable pub flatten : Agentfile → List Agentfile → Option Agentfile
unfolding merge
flatten af [] = some af
flatten af (p ∷ ps) = elim (flatten p ps) [ none ↦ none | some q ↦ merge q af ]

merge_onto-ok :
    (af : Agentfile) (m : Result ResolveError Agentfile) (r : Agentfile)
    → merge_onto af m ≡ ok r
    → (q : Agentfile) × (m ≡ ok q) × (merge q af ≡ some r)
unfolding merge_onto
merge_onto-ok af (err e) r h = cc
merge_onto-ok af (ok q) r h = (q, refl, ground arith)

merge_onto-ne :
    (af : Agentfile) (m : Result ResolveError Agentfile)
    → m ≢ err out_of_fuel
    → merge_onto af m ≢ err out_of_fuel
unfolding merge_onto
merge_onto-ne af (err e) n h = n h
merge_onto-ne af (ok q) n h = ground arith

module _ (fetch : Fetcher) where
  -- What a chain of ancestors says of the outcome at a depth: it is there if the chain ends by
  -- depth 10, and then it is the merge.
  lineage-resolve_depth :
      (fuel depth : ℕ) {chain : List Text} {af : Agentfile} {ancestors : List Agentfile}
      → Lineage fetch chain af ancestors
      → depth + length ancestors ≤ 10
      → length ancestors + 1 ≤ fuel
      → (r : Agentfile) × (a : Agent) × (flatten af ancestors ≡ some r)
        × (r.agent ≡ some a)
        × (resolve_depth fuel fetch af depth chain ≡ ok r)
  unfolding resolve_depth flatten merge
  lineage-resolve_depth zero depth l h k = absurd (omega arith)
  lineage-resolve_depth (suc fuel) depth {af = af} (root a e r) h k = (af, a, refl, e, ground arith)
  lineage-resolve_depth (suc fuel) depth {af = af} (step a p ps e r m f l) h k =
      let (q, b, fl, qb, rs) =
        lineage-resolve_depth fuel (depth + 1) l (omega arith) (omega arith) in
      (
        record { syntax = override q.syntax af.syntax; agent = some (merge_agent b a) },
        merge_agent b a,
        ground arith,
        refl,
        ground arith,
      )

  -- Whatever is resolved comes from such a chain.
  resolve_depth-lineage :
      (fuel depth : ℕ) (chain : List Text) (af r : Agentfile)
      → resolve_depth fuel fetch af depth chain ≡ ok r
      → (ancestors : List Agentfile) × Lineage fetch chain af ancestors
        × (depth + length ancestors ≤ 10)
        × (flatten af ancestors ≡ some r)
  unfolding resolve_depth flatten
  resolve_depth-lineage zero depth chain af r h = cc
  resolve_depth-lineage (suc fuel) depth chain af r h = elim (Bool-cases (ltb max_depth depth)) [
    | inl over ↦ absurd (ground arith)
    | inr below ↦ elim (Option-cases af.agent) [
      | inl e ↦ absurd (ground arith)
      | inr (a, e) ↦ elim (Bool-cases (is_root a)) [
        | inl top ↦ ([], root a e top, ground arith, ground arith)
        | inr up ↦ elim (Bool-cases (mem (parent_key a) chain)) [
          | inl seen ↦ absurd (ground arith)
          | inr new ↦ elim (Result-cases (fetch (parse_reference a.from))) [
            | inr (why, f) ↦ absurd (ground arith)
            | inl (p, f) ↦
                let chain' = chain ++ parent_key a ∷ [] in
                let rest = resolve_depth fuel fetch p (depth + 1) chain' in
                let (q, rq, mg) = merge_onto-ok af rest r (ground arith) in
                let (ps, l, len, fl) = resolve_depth-lineage fuel (depth + 1) chain' p q rq in
                (p ∷ ps, step a p ps e up new f l, omega arith, ground arith)
          ]
        ]
      ]
    ]
  ]

  -- From depth 0 the fuel suffices.
  resolve_depth-fuel :
      (fuel depth : ℕ) (chain : List Text) (af : Agentfile)
      → depth ≤ 11
      → 12 ≤ depth + fuel
      → resolve_depth fuel fetch af depth chain ≢ err out_of_fuel
  unfolding resolve_depth
  resolve_depth-fuel zero depth chain af h k = absurd (omega arith)
  resolve_depth-fuel (suc fuel) depth chain af h k = elim (Bool-cases (ltb max_depth depth)) [
    | inl over ↦ λ x. ground arith
    | inr below ↦ elim (Option-cases af.agent) [
      | inl e ↦ λ x. ground arith
      | inr (a, e) ↦
          let chain' = chain ++ parent_key a ∷ [] in
          elim (Result-cases (fetch (parse_reference a.from))) [
            | inr (why, f) ↦ λ x. ground arith
            | inl (p, f) ↦ λ x. ground (
              arith,
              resolve_depth-fuel fuel (depth + 1) chain' p,
              merge_onto-ne af (resolve_depth fuel fetch p (depth + 1) chain'),
            )
          ]
    ]
  ]

-- A resolution succeeds with `r` exactly if there is a chain of at most ten ancestors with no repeated
-- reference, ending at a file without a parent, whose merge onto the file is `r`.
pub resolve_iff :
    (fetch : Fetcher) (af r : Agentfile)
    → (resolve af fetch ≡ ok r) ↔ (
        (ancestors : List Agentfile) × Lineage fetch [] af ancestors
        × (length ancestors ≤ 10)
        × (flatten af ancestors ≡ some r))
unfolding resolve
resolve_iff fetch af r = (
  λ h.
      let (ps, l, len, fl) = resolve_depth-lineage fetch 12 0 [] af r h in (ps, l, omega arith, fl),
  λ h.
      let (q, b, fl, qb, rs) =
        lineage-resolve_depth fetch 12 0 h.1 (omega (arith, h.2)) (omega (arith, h.2)) in
      ground (arith, h.3),
)

-- The resolver never runs out of its twelve levels, whatever is fetched.
resolve-ne-out_of_fuel : (fetch : Fetcher) (af : Agentfile) → resolve af fetch ≢ err out_of_fuel
unfolding resolve
resolve-ne-out_of_fuel fetch af = resolve_depth-fuel fetch 12 0 [] af (omega arith) (omega arith)
