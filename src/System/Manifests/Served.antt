-- ===== src/System/Manifests/Served.antt =====
-- executor/system/registry.go: how the manifest that fetchManifestInfo finds is served.
use agentfile.Common.{
  ℕ, zero, suc, ◌≡◌, ◌≢◌, ◌⊎◌, List, [], ◌∷◌, arith, refl, ◌∙◌, sym, ap, inl, inr, Option, none,
  some, Option-cases,
}
use agentfile.Common.Lists.{length}
use agentfile.Common.Maps.{Assoc}
use agentfile.Common.Results.{Result, ok, err, Result-cases}
use agentfile.Common.Texts.{Text}
use agentfile.System.Manifests

List-cases :
    (ms : List Manifests.Sized)
    → (ms ≡ []) ⊎ ((m : Manifests.Sized) × (rest : List Manifests.Sized) × (ms ≡ m ∷ rest))
List-cases [] = inl refl
List-cases (m ∷ rest) = inr (m, rest, refl)

module _ (server : Manifests.Server) (addr : Text) where
  -- The body is that of an index with entries.
  abbrev pub IsIndex : Text → Manifests.Index → Type 0
  IsIndex body index = (server.read_index body ≡ some index) × (index.manifests ≢ [])

  -- The annotations of an index with entries, or else of a manifest.
  abbrev pub IsAnnotated : Text → Assoc Text → Type 0
  IsAnnotated body annotations =
      ((index : Manifests.Index) × IsIndex body index × (annotations ≡ index.annotations))
      ⊎ ((¬ ((index : Manifests.Index) × IsIndex body index))
          × ((m : Manifests.SizedManifest) × (server.read_manifest body ≡ some m)
              × (annotations ≡ m.annotations)))

  multi_arch-IsIndex :
      (body : Text) (index : Manifests.Index)
      → Manifests.multi_arch server addr body ≡ some index
      → IsIndex body index
  unfolding Manifests.multi_arch
  multi_arch-IsIndex body index h = elim (Option-cases (server.read_index body)) [
    | inl r ↦ absurd (ground (arith, h))
    | inr (found, r) ↦ elim (List-cases found.manifests) [
      | inl e ↦
          let bad : Path (Option Manifests.Index) none (some index) =
            rw (Manifests.multi_arch, r, e) at h in
          cc
      | inr (m, ms, e) ↦
          let got : Path (Option Manifests.Index) (some found) (some index) =
            rw (Manifests.multi_arch, r, e) at h in
          let same : found ≡ index = cc in
          (
            r ∙ ap some same,
            λ (none_there : index.manifests ≡ []).
                let bad : m ∷ ms ≡ [] =
                  sym e ∙ ap (λ (x : Manifests.Index). x.manifests) same ∙ none_there in
                cc,
          )
    ]
  ]

  multi_arch-none :
      (body : Text)
      → Manifests.multi_arch server addr body ≡ none
      → ¬ ((index : Manifests.Index) × IsIndex body index)
  unfolding Manifests.multi_arch
  multi_arch-none body h (index, (r, ne)) = elim (List-cases index.manifests) [
    | inl e ↦ ne e
    | inr (m, ms, e) ↦
        let bad : Path (Option Manifests.Index) (some index) none =
          rw (Manifests.multi_arch, r, e) at h in
        cc
  ]

  plain_info-served :
      (body dgst : Text) (mi : Manifests.ManifestInfo)
      → Path
          (Option (Result Manifests.HttpError Manifests.ManifestInfo))
          (some (Manifests.plain_info server addr body dgst))
          (some (ok mi))
      → (dgst ≡ mi.digest)
        × ((m : Manifests.SizedManifest) × (server.read_manifest body ≡ some m)
            × (mi.annotations ≡ m.annotations))
  unfolding Manifests.plain_info
  plain_info-served body dgst mi h = elim (Option-cases (server.read_manifest body)) [
    | inl e ↦
        let bad : Path (Option (Result Manifests.HttpError Manifests.ManifestInfo))
            (some (err Manifests.no_json)) (some (ok mi)) =
          rw (Manifests.plain_info, e) at h in
        cc
    | inr (m, e) ↦
        let built : Manifests.ManifestInfo = record {
          digest = dgst;
          artifact_type = m.artifact_type;
          size = Manifests.add_sizes (Manifests.add64 (length body) m.config.size) m.layers;
          annotations = m.annotations;
        } in
        let got : Path (Option (Result Manifests.HttpError Manifests.ManifestInfo))
            (some (ok built)) (some (ok mi)) =
          rw (Manifests.plain_info, e) at h in
        let info : built ≡ mi = cc in
        (
          ap (λ (x : Manifests.ManifestInfo). x.digest) info,
          (m, e, sym (ap (λ (x : Manifests.ManifestInfo). x.annotations) info)),
        )
  ]

  -- A manifest that is found has the digest with which it is served, and the annotations of what is served.
  pub fetch_manifest_info-served :
      (fuel : ℕ) (repo tag : Text) (mi : Manifests.ManifestInfo)
      → Manifests.fetch_manifest_info server addr fuel repo tag ≡ some (ok mi)
      → (body : Text) × (Manifests.fetch_manifest_raw server addr repo tag ≡ ok (body, mi.digest))
        × IsAnnotated body mi.annotations
  unfolding Manifests.fetch_manifest_info Manifests.index_info
  fetch_manifest_info-served zero repo tag mi h =
      let bad : Path (Option (Result Manifests.HttpError Manifests.ManifestInfo)) none
          (some (ok mi)) =
        h in
      cc
  fetch_manifest_info-served (suc fuel) repo tag mi h =
      elim (Result-cases (Manifests.fetch_manifest_raw server addr repo tag)) [
        | inr (e, f) ↦
            let bad : Path (Option (Result Manifests.HttpError Manifests.ManifestInfo))
                (some (err e)) (some (ok mi)) =
              rw (Manifests.fetch_manifest_info, f) at h in
            cc
        | inl ((body, dgst), f) ↦ elim (Option-cases (Manifests.multi_arch server addr body)) [
          | inl g ↦
              let (same, plain) =
                plain_info-served body dgst mi (rw (Manifests.fetch_manifest_info, f, g) at h) in
              (body, f ∙ ap (λ (d : Text). ok (body, d)) same, inr (multi_arch-none body g, plain))
          | inr (index, g) ↦
              elim (Option-cases (
                Manifests.add_manifests (λ d. Manifests.fetch_manifest_info server addr fuel repo d)
                  (length body) index.manifests)) [
                    | inl t ↦
                        let bad : Path (Option (Result Manifests.HttpError Manifests.ManifestInfo))
                            none (some (ok mi)) =
                          rw (Manifests.fetch_manifest_info, f, g, t) at h in
                        cc
                    | inr (total, t) ↦
                        let got : Path (Option (Result Manifests.HttpError Manifests.ManifestInfo))
                            (some (ok (Manifests.index_info server addr dgst index total)))
                            (some (ok mi)) =
                          rw (Manifests.fetch_manifest_info, f, g, t) at h in
                        let info : Manifests.index_info server addr dgst index total ≡ mi = cc in
                        (
                          body,
                          f ∙ ap (λ (x : Manifests.ManifestInfo). ok (body, x.digest)) info,
                          inl (
                            index,
                            multi_arch-IsIndex body index g,
                            sym (ap (λ (x : Manifests.ManifestInfo). x.annotations) info),
                          ),
                        )
                  ]
        ]
      ]
