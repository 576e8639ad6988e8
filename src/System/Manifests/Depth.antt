-- ===== src/System/Manifests/Depth.antt =====
-- executor/system/registry.go: how deep fetchManifestInfo goes. It goes through the indexes that an index
-- lists, and has no bound of its own.
use mathlib.Core.Path.{subst}
use agentfile.Common.{
  ℕ, zero, suc, ◌+◌, ◌-◌, ◌<◌, ◌≡◌, refl, inl, inr, Option, none, some, List, [], ◌∷◌, arith,
  Option-cases,
}
use agentfile.Common.Lists.{All, All-map, length}
use agentfile.Common.Results.{Result, ok, err, Result-cases}
use agentfile.Common.Texts.{Text}
use agentfile.System.Manifests

-- Each entry has a result.
abbrev Answered :
    (Text → Option (Result Manifests.HttpError Manifests.ManifestInfo))
    → List Manifests.Sized
    → Type 0
Answered info manifests =
    All (λ m. (r : Result Manifests.HttpError Manifests.ManifestInfo) × (info m.digest ≡ some r))
      manifests

add_manifests-ends :
    (info : Text → Option (Result Manifests.HttpError Manifests.ManifestInfo)) (total : ℕ)
    (manifests : List Manifests.Sized)
    → Answered info manifests
    → (n : ℕ) × (Manifests.add_manifests info total manifests ≡ some n)
unfolding Manifests.add_manifests
add_manifests-ends info total [] h = (total, refl)
add_manifests-ends info total (m ∷ ms) ((r, e), h) =
    let (n, rest) = add_manifests-ends info (Manifests.add64 total (Manifests.counted m r)) ms h in
    (n, rw (Manifests.add_manifests, e) rest)

module _ (server : Manifests.Server) (addr repo : Text) where
  -- What is read at a reference when it is an index.
  abbrev pub IsIndex : Text → Manifests.Index → Type 0
  IsIndex tag index =
      (body : Text) × (dgst : Text) × (Manifests.fetch_manifest_raw server addr repo tag
        ≡ ok (body, dgst))
      × (Manifests.multi_arch server addr body ≡ some index)

  -- The entries of an index are below it.
  abbrev pub IsRank : (Text → ℕ) → Type 0
  IsRank rank =
      (tag : Text) (index : Manifests.Index)
      → IsIndex tag index
      → All (λ m. rank m.digest < rank tag) index.manifests

  abbrev info : ℕ → Text → Option (Result Manifests.HttpError Manifests.ManifestInfo)
  info fuel tag = Manifests.fetch_manifest_info server addr fuel repo tag

  -- An index whose entries have results has one.
  index-ends :
      (fuel : ℕ) (tag : Text)
      → ((index : Manifests.Index) → IsIndex tag index → Answered (info fuel) index.manifests)
      → (r : Result Manifests.HttpError Manifests.ManifestInfo) × (info (suc fuel) tag ≡ some r)
  unfolding Manifests.fetch_manifest_info
  index-ends fuel tag h = elim (Result-cases (Manifests.fetch_manifest_raw server addr repo tag)) [
    | inr (e, f) ↦ (err e, rw (Manifests.fetch_manifest_info, f) refl)
    | inl ((body, dgst), f) ↦ elim (Option-cases (Manifests.multi_arch server addr body)) [
      | inl g ↦ (
        Manifests.plain_info server addr body dgst,
        rw (Manifests.fetch_manifest_info, f, g) refl,
      )
      | inr (index, g) ↦
          let (n, total) =
            add_manifests-ends (info fuel) (length body) index.manifests
              (h index (body, dgst, f, g)) in
          (
            ok (Manifests.index_info server addr dgst index n),
            rw (Manifests.fetch_manifest_info, f, g, total) refl,
          )
    ]
  ]

  -- A result is the same with more fuel.
  add_manifests-more :
      (f g : Text → Option (Result Manifests.HttpError Manifests.ManifestInfo)) (total : ℕ)
      (manifests : List Manifests.Sized) (n : ℕ)
      → ((d : Text) (r : Result Manifests.HttpError Manifests.ManifestInfo)
          → f d ≡ some r
          → g d ≡ some r)
      → Manifests.add_manifests f total manifests ≡ some n
      → Manifests.add_manifests g total manifests ≡ some n
  unfolding Manifests.add_manifests
  add_manifests-more f g total [] n h e = e
  add_manifests-more f g total (m ∷ ms) n h e = elim (Option-cases (f m.digest)) [
    | inl none_f ↦
        let bad : Path (Option ℕ) none (some n) = rw (Manifests.add_manifests, none_f) at e in cc
    | inr (r, some_f) ↦
        rw (Manifests.add_manifests, h m.digest r some_f)
          (add_manifests-more f g (Manifests.add64 total (Manifests.counted m r)) ms n h
            (rw (Manifests.add_manifests, some_f) at e))
  ]

  fetch_manifest_info-more :
      (fuel : ℕ) (tag : Text) (r : Result Manifests.HttpError Manifests.ManifestInfo)
      → info fuel tag ≡ some r
      → info (suc fuel) tag ≡ some r
  unfolding Manifests.fetch_manifest_info
  fetch_manifest_info-more zero tag r e =
      let bad : Path (Option (Result Manifests.HttpError Manifests.ManifestInfo)) none (some r) =
        e in
      cc
  fetch_manifest_info-more (suc fuel) tag r e =
      elim (Result-cases (Manifests.fetch_manifest_raw server addr repo tag)) [
        | inr (why, f) ↦
            rw (Manifests.fetch_manifest_info, f) (rw (Manifests.fetch_manifest_info, f) at e)
        | inl ((body, dgst), f) ↦ elim (Option-cases (Manifests.multi_arch server addr body)) [
          | inl g ↦
              rw (Manifests.fetch_manifest_info, f, g)
                (rw (Manifests.fetch_manifest_info, f, g) at e)
          | inr (index, g) ↦
              elim (Option-cases
                (Manifests.add_manifests (info fuel) (length body) index.manifests)) [
                  | inl t ↦
                      let bad : Path (Option (Result Manifests.HttpError Manifests.ManifestInfo))
                          none (some r) =
                        rw (Manifests.fetch_manifest_info, f, g, t) at e in
                      cc
                  | inr (total, t) ↦
                      rw
                        (
                          Manifests.fetch_manifest_info,
                          f,
                          g,
                          add_manifests-more (info fuel) (info (suc fuel)) (length body)
                              index.manifests total (fetch_manifest_info-more fuel) t,
                        )
                        (rw (Manifests.fetch_manifest_info, f, g, t) at e)
                ]
        ]
      ]

  -- An index whose first entry is the reference at which it is served has no result, whatever the fuel.
  pub fetch_manifest_info-cycle :
      (fuel : ℕ) (tag : Text) (index : Manifests.Index) (m : Manifests.Sized)
      (ms : List Manifests.Sized)
      → IsIndex tag index
      → index.manifests ≡ m ∷ ms
      → m.digest ≡ tag
      → info fuel tag ≡ none
  unfolding Manifests.fetch_manifest_info Manifests.add_manifests
  fetch_manifest_info-cycle zero tag index m ms i listed e = refl
  fetch_manifest_info-cycle (suc fuel) tag index m ms (body, dgst, f, g) listed e =
      let deeper = fetch_manifest_info-cycle fuel tag index m ms (body, dgst, f, g) listed e in
      rw (Manifests.fetch_manifest_info, f, g, listed, e, deeper) refl

  more_by :
      (k fuel : ℕ) (tag : Text) (r : Result Manifests.HttpError Manifests.ManifestInfo)
      → info fuel tag ≡ some r
      → info (k + fuel) tag ≡ some r
  more_by zero fuel tag r e = let step : 0 + fuel ≡ fuel = omega arith in rw step e
  more_by (suc k) fuel tag r e =
      let step : suc k + fuel ≡ suc (k + fuel) = omega arith in
      rw step (fetch_manifest_info-more (k + fuel) tag r (more_by k fuel tag r e))

  ends_at :
      (rank : Text → ℕ) (fuel : ℕ) (tag : Text)
      → IsRank rank
      → rank tag < fuel
      → (r : Result Manifests.HttpError Manifests.ManifestInfo) × (info fuel tag ≡ some r)
  ends_at rank zero tag ranked lt = absurd (omega (arith, lt))
  ends_at rank (suc fuel) tag ranked lt = index-ends fuel tag (λ index i.
      All-map (λ m. rank m.digest < rank tag)
        (λ m.
          (r : Result Manifests.HttpError Manifests.ManifestInfo) × (info fuel m.digest ≡ some r))
        index.manifests (λ m below. ends_at rank fuel m.digest ranked (omega (arith, lt, below)))
        (ranked tag index i))

  -- Where the indexes of a repository have ranks, such that the entries of an index rank below it, the walk
  -- from a reference has with any fuel above its rank a result, an error perhaps, and the same with all of it.
  pub fetch_manifest_info-ends :
      (rank : Text → ℕ) (tag : Text) (fuel : ℕ)
      → IsRank rank
      → rank tag < fuel
      → (r : Result Manifests.HttpError Manifests.ManifestInfo) × (Manifests.fetch_manifest_info
            server addr fuel repo tag
          ≡ some r)
        × (Manifests.fetch_manifest_info server addr (suc (rank tag)) repo tag ≡ some r)
  fetch_manifest_info-ends rank tag fuel ranked lt =
      let (r, e) = ends_at rank (suc (rank tag)) tag ranked (omega arith) in
      (
        r,
        subst (λ n. info n tag ≡ some r) (omega (arith, lt))
            (more_by (fuel - suc (rank tag)) (suc (rank tag)) tag r e),
        e,
      )
