-- ===== src/Oci/Chosen.antt =====
-- oci/manifest.go: the manifest of an image for a platform.
use agentfile.Common.{
  ℕ, zero, suc, ◌≡◌, ◌≢◌, ◌↔◌, refl, sym, ◌∙◌, ap, inl, inr, ◌⊎◌, true, Option, none, some, List,
  [], ◌∷◌, ◌++◌, arith, Bool-cases, Option-cases,
}
use agentfile.Common.Lists.{All}
use agentfile.Common.Results.{Result, ok, err, Result-cases}
use agentfile.Common.Texts.{Text, text_eq_iff, text_eq_refl}
use agentfile.Oci
use agentfile.Store.{Descriptor}

-- The first entry for the platform.
abbrev pub IsFirst : Oci.Platform → List Oci.Entry → Descriptor → Type 0
IsFirst platform manifests d =
    (before : List Oci.Entry) × (e : Oci.Entry) × (after : List Oci.Entry) × (manifests
      ≡ before ++ e ∷ after)
    × All (λ x. x.platform ≢ some platform) before
    × (e.platform ≡ some platform)
    × (e.desc ≡ d)

-- No index, or an index without entries.
abbrev pub IsPlain : Oci.Repository → Text → Type 0
IsPlain repo body = (repo.read_index body ≡ none) ⊎ (repo.read_index body ≡ some [])

-- The manifest that a descriptor stands for on a platform.
pub data Chosen (repo : Oci.Repository) (platform : Oci.Platform)
    : Descriptor → Oci.ImageManifest → Type 0 where
  plain :
      {desc : Descriptor} {body : Text} {m : Oci.ImageManifest}
      → repo.fetch desc ≡ some body
      → IsPlain repo body
      → repo.read_manifest body ≡ some m
      → Chosen repo platform desc m
  through :
      {desc d : Descriptor} {body : Text} {manifests : List Oci.Entry} {m : Oci.ImageManifest}
      → repo.fetch desc ≡ some body
      → repo.read_index body ≡ some manifests
      → IsFirst platform manifests d
      → Chosen repo platform d m
      → Chosen repo platform desc m

same_platform-eq : (p q : Oci.Platform) → Oci.same_platform p q ≡ true → p ≡ q
unfolding Oci.same_platform
same_platform-eq p q h =
    let os : p.os ≡ q.os = (text_eq_iff p.os q.os).0 (ground arith) in
    let architecture : p.architecture ≡ q.architecture =
      (text_eq_iff p.architecture q.architecture).0 (ground arith) in
    λ i. record { os = os i; architecture = architecture i }

same_platform_refl : (p : Oci.Platform) → Oci.same_platform p p ≡ true
unfolding Oci.same_platform
same_platform_refl p = rw (text_eq_refl p.os, text_eq_refl p.architecture) refl

-- An entry is taken, or passed over.
entry-cases :
    (platform : Oci.Platform) (m : Oci.Entry) (ms : List Oci.Entry)
    → ((m.platform ≡ some platform) × (Oci.pick platform (m ∷ ms) ≡ some m.desc))
      ⊎ ((m.platform ≢ some platform) × (Oci.pick platform (m ∷ ms) ≡ Oci.pick platform ms))
unfolding Oci.pick
entry-cases platform m ms = elim (Option-cases m.platform) [
  | inl n ↦ inr ((λ q. cc), rw (Oci.pick, n) refl)
  | inr (p, s) ↦ elim (Bool-cases (Oci.same_platform p platform)) [
    | inl e ↦ inl (s ∙ ap some (same_platform-eq p platform e), rw (Oci.pick, s, e) refl)
    | inr e ↦ inr (
      (λ q.
          let same : p ≡ platform = cc in
          let yes : Oci.same_platform p platform ≡ true = rw same (same_platform_refl platform) in
          cc),
      rw (Oci.pick, s, e) refl,
    )
  ]
]

pick-IsFirst :
    (platform : Oci.Platform) (manifests : List Oci.Entry) (d : Descriptor)
    → Oci.pick platform manifests ≡ some d
    → IsFirst platform manifests d
unfolding Oci.pick
pick-IsFirst platform [] d h = let bad : Path (Option Descriptor) none (some d) = h in cc
pick-IsFirst platform (m ∷ ms) d h = elim (entry-cases platform m ms) [
  | inl (p, e) ↦ ([], m, ms, refl, tt, p, let got : some m.desc ≡ some d = sym e ∙ h in cc)
  | inr (ne, e) ↦
      let (before, x, after, split, none_before, p, same) =
        pick-IsFirst platform ms d (sym e ∙ h) in
      (m ∷ before, x, after, ap (λ (l : List Oci.Entry). m ∷ l) split, (ne, none_before), p, same)
]

IsFirst-pick :
    (platform : Oci.Platform) (before : List Oci.Entry) (e : Oci.Entry) (after : List Oci.Entry)
    → All (λ x. x.platform ≢ some platform) before
    → e.platform ≡ some platform
    → Oci.pick platform (before ++ e ∷ after) ≡ some e.desc
IsFirst-pick platform [] e after h p = elim (entry-cases platform e after) [
  | inl (q, s) ↦ s
  | inr (ne, s) ↦ absurd (ne p)
]
IsFirst-pick platform (b ∷ before) e after (ne, h) p =
    elim (entry-cases platform b (before ++ e ∷ after)) [
      | inl (q, s) ↦ absurd (ne q)
      | inr (n, s) ↦ s ∙ IsFirst-pick platform before e after h p
    ]

module _ (repo : Oci.Repository) (platform : Oci.Platform) where
  listed-IsPlain :
      (body : Text) (manifests : List Oci.Entry)
      → repo.read_index body ≡ some manifests
      → Oci.resolve_index repo platform body ≡ ok none
      → IsPlain repo body
  unfolding Oci.resolve_index
  listed-IsPlain body [] e h = inr e
  listed-IsPlain body (m ∷ ms) e h = elim (Option-cases (Oci.pick platform (m ∷ ms))) [
    | inl k ↦
        let bad : Path (Result Oci.OciError (Option Descriptor)) (err Oci.no_platform) (ok none) =
          rw (Oci.resolve_index, e, k) at h in
        cc
    | inr (d, k) ↦
        let bad : Path (Result Oci.OciError (Option Descriptor)) (ok (some d)) (ok none) =
          rw (Oci.resolve_index, e, k) at h in
        cc
  ]

  resolve_index-IsPlain :
      (body : Text) → Oci.resolve_index repo platform body ≡ ok none → IsPlain repo body
  resolve_index-IsPlain body h = elim (Option-cases (repo.read_index body)) [
    | inl e ↦ inl e
    | inr (manifests, e) ↦ listed-IsPlain body manifests e h
  ]

  IsPlain-resolve_index :
      (body : Text) → IsPlain repo body → Oci.resolve_index repo platform body ≡ ok none
  unfolding Oci.resolve_index
  IsPlain-resolve_index body (inl e) = rw (Oci.resolve_index, e) refl
  IsPlain-resolve_index body (inr e) = rw (Oci.resolve_index, e) refl

  pick-resolve_index :
      (body : Text) (manifests : List Oci.Entry) (d : Descriptor)
      → repo.read_index body ≡ some manifests
      → Oci.pick platform manifests ≡ some d
      → Oci.resolve_index repo platform body ≡ ok (some d)
  unfolding Oci.resolve_index Oci.pick
  pick-resolve_index body [] d e k = let bad : Path (Option Descriptor) none (some d) = k in cc
  pick-resolve_index body (m ∷ ms) d e k = rw (Oci.resolve_index, e, k) refl

  listed-pick :
      (body : Text) (manifests : List Oci.Entry) (d : Descriptor)
      → repo.read_index body ≡ some manifests
      → Oci.resolve_index repo platform body ≡ ok (some d)
      → Oci.pick platform manifests ≡ some d
  unfolding Oci.resolve_index
  listed-pick body [] d e h =
      let bad : Path (Result Oci.OciError (Option Descriptor)) (ok none) (ok (some d)) =
        rw (Oci.resolve_index, e) at h in
      cc
  listed-pick body (m ∷ ms) d e h = elim (Option-cases (Oci.pick platform (m ∷ ms))) [
    | inl k ↦
        let bad : Path (Result Oci.OciError (Option Descriptor)) (err Oci.no_platform)
            (ok (some d)) =
          rw (Oci.resolve_index, e, k) at h in
        cc
    | inr (x, k) ↦
        let got : Path (Result Oci.OciError (Option Descriptor)) (ok (some x)) (ok (some d)) =
          rw (Oci.resolve_index, e, k) at h in
        let same : x ≡ d = cc in k ∙ ap some same
  ]

  resolve_index-some :
      (body : Text) (d : Descriptor)
      → Oci.resolve_index repo platform body ≡ ok (some d)
      → (manifests : List Oci.Entry) × (repo.read_index body ≡ some manifests)
        × (Oci.pick platform manifests ≡ some d)
  unfolding Oci.resolve_index
  resolve_index-some body d h = elim (Option-cases (repo.read_index body)) [
    | inl e ↦
        let bad : Path (Result Oci.OciError (Option Descriptor)) (ok none) (ok (some d)) =
          rw (Oci.resolve_index, e) at h in
        cc
    | inr (manifests, e) ↦ (manifests, e, listed-pick body manifests d e h)
  ]

  abbrev Found : ℕ → Descriptor → Oci.ImageManifest → Type 0
  Found fuel desc m = Oci.resolve_manifest repo platform fuel desc ≡ some (ok m)

  resolve_plain :
      (fuel : ℕ) (desc : Descriptor) (body : Text) (m : Oci.ImageManifest)
      → repo.fetch desc ≡ some body
      → Oci.resolve_index repo platform body ≡ ok none
      → Found (suc fuel) desc m
      → repo.read_manifest body ≡ some m
  unfolding Oci.resolve_manifest
  resolve_plain fuel desc body m f i h = elim (Option-cases (repo.read_manifest body)) [
    | inl r ↦
        let bad : Path (Option (Result Oci.OciError Oci.ImageManifest)) (some (err Oci.not_parsed))
            (some (ok m)) =
          rw (Oci.resolve_manifest, f, i, r) at h in
        cc
    | inr (x, r) ↦
        let got : Path (Option (Result Oci.OciError Oci.ImageManifest)) (some (ok x))
            (some (ok m)) =
          rw (Oci.resolve_manifest, f, i, r) at h in
        let same : x ≡ m = cc in r ∙ ap some same
  ]

  Found-Chosen :
      (fuel : ℕ) (desc : Descriptor) (m : Oci.ImageManifest)
      → Found fuel desc m
      → Chosen repo platform desc m
  unfolding Oci.resolve_manifest
  Found-Chosen zero desc m h =
      let bad : Path (Option (Result Oci.OciError Oci.ImageManifest)) none (some (ok m)) = h in cc
  Found-Chosen (suc fuel) desc m h = elim (Option-cases (repo.fetch desc)) [
    | inl f ↦
        let bad : Path (Option (Result Oci.OciError Oci.ImageManifest)) (some (err Oci.not_fetched))
            (some (ok m)) =
          rw (Oci.resolve_manifest, f) at h in
        cc
    | inr (body, f) ↦ elim (Result-cases (Oci.resolve_index repo platform body)) [
      | inr (e, i) ↦
          let bad : Path (Option (Result Oci.OciError Oci.ImageManifest)) (some (err e))
              (some (ok m)) =
            rw (Oci.resolve_manifest, f, i) at h in
          cc
      | inl (none, i) ↦
          plain f (resolve_index-IsPlain body i) (resolve_plain fuel desc body m f i h)
      | inl (some d, i) ↦
          let (manifests, listed, picked) = resolve_index-some body d i in
          through f listed (pick-IsFirst platform manifests d picked)
            (Found-Chosen fuel d m (rw (Oci.resolve_manifest, f, i) at h))
    ]
  ]

  Chosen-Found :
      {desc : Descriptor} {m : Oci.ImageManifest}
      → Chosen repo platform desc m
      → (fuel : ℕ) × Found fuel desc m
  unfolding Oci.resolve_manifest
  Chosen-Found (plain {body} f p r) =
      (1, rw (Oci.resolve_manifest, f, IsPlain-resolve_index body p, r) refl)
  Chosen-Found (through {d} {body} {manifests} f i (before, e, after, split, ne, p, same) c) =
      let (fuel, more) = Chosen-Found c in
      let picked : Oci.pick platform manifests ≡ some d =
        ap (Oci.pick platform) split ∙ IsFirst-pick platform before e after ne p ∙ ap some same in
      (suc fuel, rw (Oci.resolve_manifest, f, pick-resolve_index body manifests d i picked) more)

  -- An image resolves to a manifest, with some fuel, exactly if the manifest is reached from its descriptor by
  -- going, at each index, to the first entry whose platform is the one that is asked for, up to what is no index
  -- or has no entries.
  pub resolve_manifest_iff :
      (desc : Descriptor) (m : Oci.ImageManifest)
      → ((fuel : ℕ) × (Oci.resolve_manifest repo platform fuel desc ≡ some (ok m)))
        ↔ Chosen repo platform desc m
  resolve_manifest_iff desc m = ((λ (fuel, h). Found-Chosen fuel desc m h), (λ c. Chosen-Found c))
