-- ===== src/System/Registry/Refs.antt =====
-- executor/system/registry.go: the references that List gives, read by Inspect and Remove.
use agentfile.Common.{
  ℕ, suc, ◌<◌, ◌≡◌, ◌↔◌, refl, ◌∙◌, ap, inl, inr, false, Option, none, some, List, [], ◌∷◌, ◌++◌,
  arith, if◌then◌else◌, Option-cases,
}
use agentfile.Common.Lists.{length, take_at, drop_past}
use agentfile.Common.Maps.{Assoc, lookup}
use agentfile.Common.Results.{Result, ok, err}
use agentfile.Common.Search.{contains-append, last_index_absent, last_index-append}
use agentfile.Common.Texts.{Text, codes, is_empty, contains}
use agentfile.System.Manifests
use agentfile.System.Manifests.Served.{IsAnnotated, fetch_manifest_info-served}
use agentfile.System.Registry

-- A repository and a tag as OCI has them.
abbrev pub IsRepo : Text → Type 0
IsRepo repo = (is_empty repo ≡ false) × (contains b'@' repo ≡ false)

abbrev pub IsTag : Text → Type 0
IsTag tag = (contains b'@' tag ≡ false) × (contains b':' tag ≡ false) × (contains b'/' tag ≡ false)

tagged-ne-nil : (repo tag : Text) → is_empty (repo ++ b':' ∷ tag) ≡ false
tagged-ne-nil [] tag = refl
tagged-ne-nil (c ∷ repo) tag = refl

split_colon-tagged :
    (repo tag : Text)
    → contains b':' tag ≡ false
    → contains b'/' tag ≡ false
    → Registry.split_colon (repo ++ b':' ∷ tag) ≡ (repo, tag)
unfolding Registry.split_colon
split_colon-tagged repo tag c s =
    rw
      (
        Registry.split_colon,
        last_index-append b':' repo tag c,
        drop_past (suc (length repo)) repo b':' tag (omega arith),
        s,
      )
      (ap (λ (n : Text). (n, tag)) (take_at (length repo) repo (b':' ∷ tag) refl))

split_ref-tagged :
    (repo tag : Text)
    → contains b'@' repo ≡ false
    → IsTag tag
    → Registry.split_ref (repo ++ b':' ∷ tag) ≡ (repo, tag)
unfolding Registry.split_ref contains
split_ref-tagged repo tag r (a, c, s) =
    let absent : contains b'@' (repo ++ b':' ∷ tag) ≡ false =
      rw (contains-append b'@' repo (b':' ∷ tag), r, a) refl in
    rw
      (
        Registry.split_ref,
        tagged-ne-nil repo tag,
        last_index_absent b'@' (repo ++ b':' ∷ tag) absent,
      )
      (split_colon-tagged repo tag c s)

-- An annotation, the empty text if it is missing, and the first of two that is not empty.
abbrev pub annotated : Assoc Text → Text → Text
annotated m k = elim (lookup k m) [ none ↦ [] | some v ↦ v ]

abbrev pub first_of : Text → Text → Text
first_of x y = if is_empty x then y else x

-- The answer to a deletion that was made.
abbrev pub IsDeleted : Option ℕ → Type 0
IsDeleted answer = (status : ℕ) × (answer ≡ some status) × (status < 400)

if_empty : (w : Text) → (if is_empty w then [] else w) ≡ w
if_empty [] = refl
if_empty (c ∷ w) = refl

pick_annotation-step :
    (m : Assoc Text) (j : Text) (ks : List Text)
    → Registry.pick_annotation m (j ∷ ks) ≡ first_of (annotated m j) (Registry.pick_annotation m ks)
unfolding Registry.pick_annotation
pick_annotation-step m j ks = elim (Option-cases (lookup j m)) [
  | inl e ↦ rw (Registry.pick_annotation, annotated, e) refl
  | inr (v, e) ↦ rw (Registry.pick_annotation, annotated, e) refl
]

pick_annotation-one :
    (m : Assoc Text) (k : Text) → Registry.pick_annotation m (k ∷ []) ≡ annotated m k
unfolding Registry.pick_annotation
pick_annotation-one m k = pick_annotation-step m k [] ∙ if_empty (annotated m k)

pick_annotation-first :
    (m : Assoc Text) (j k : Text)
    → Registry.pick_annotation m (j ∷ k ∷ []) ≡ first_of (annotated m j) (annotated m k)
pick_annotation-first m j k =
    pick_annotation-step m j (k ∷ [])
    ∙ ap (λ (t : Text). first_of (annotated m j) t) (pick_annotation-one m k)

module _ (r : Registry.Registry) (has_addr : is_empty r.addr ≡ false) where
  abbrev pub deletion_url : Text → Text → Text
  deletion_url repo digest =
      codes "http://" ++ r.addr ++ codes "/v2/" ++ repo ++ codes "/manifests/" ++ digest

  -- What Inspect says of a manifest.
  abbrev pub IsShown : Text → Text → Manifests.ManifestInfo → Registry.ImageInfo → Type 0
  IsShown repo tag mi info =
      (info.ref ≡ repo ++ b':' ∷ tag)
      × (info.digest ≡ mi.digest)
      × (info.size ≡ mi.size)
      × (info.annotations ≡ mi.annotations)
      × (info.created_unix ≡ (elim r.created_at [ none ↦ 0 | some f ↦ f repo tag ]))
      × (info.description
          ≡ first_of (annotated mi.annotations (codes "org.opencontainers.image.description"))
              (annotated mi.annotations (codes "description")))
      × (info.source
          ≡ first_of (annotated mi.annotations (codes "org.opencontainers.image.source"))
              (annotated mi.annotations (codes "source")))

  deletion_iff : (answer : Option ℕ) → (Registry.deletion r answer ≡ ok tt) ↔ IsDeleted answer
  unfolding Registry.deletion
  deletion_iff none = (
    (λ h.
        let bad : Path (Result Registry.RegistryError (Unit {0}))
            (err (Registry.failed Manifests.no_answer)) (ok tt) =
          h in
        cc),
    (λ (status, e, low). cc),
  )
  deletion_iff (some status) =
      ((λ h. (status, refl, ground (arith, h))), (λ (s, e, low). ground (arith, e, low)))

  manifest_at-tagged :
      (fuel : ℕ) (repo tag : Text) (mi : Manifests.ManifestInfo)
      → IsRepo repo
      → IsTag tag
      → Manifests.fetch_manifest_info r.server r.addr fuel repo tag ≡ some (ok mi)
      → Registry.manifest_at r fuel (repo ++ b':' ∷ tag) ≡ some (ok mi)
  unfolding Registry.manifest_at Registry.at_registry
  manifest_at-tagged fuel repo tag mi (ne, a) t found =
      rw (has_addr, split_ref-tagged repo tag a t, ne, found) refl

  -- At a registry with an address, for `repo:tag`, where the repository is not empty and has no "@", and the tag no
  -- "@", ":" and "/", if the server has a manifest at that repository and that tag: Inspect shows the digest with
  -- which it is served, its size, the annotations of the index, if what is served is one with entries, and else of
  -- the manifest, the time of the repository and tag, and as description and source the annotations by their OCI
  -- keys or else by their short ones; and Remove asks for the deletion of just that digest in that repository, and
  -- succeeds exactly if the answer has a status below 400.
  pub inspect-remove :
      (fuel : ℕ) (repo tag : Text) (mi : Manifests.ManifestInfo)
      → IsRepo repo
      → IsTag tag
      → Manifests.fetch_manifest_info r.server r.addr fuel repo tag ≡ some (ok mi)
      → (body : Text) × (info : Registry.ImageInfo) × (done : Result Registry.RegistryError
          (Unit {0}))
        × (Registry.inspect r fuel (repo ++ b':' ∷ tag) ≡ some (ok info))
        × (Registry.remove r fuel (repo ++ b':' ∷ tag)
            ≡ some (some (deletion_url repo info.digest), done))
        × (Manifests.fetch_manifest_raw r.server r.addr repo tag ≡ ok (body, info.digest))
        × IsAnnotated r.server r.addr body info.annotations
        × IsShown repo tag mi info
        × ((done ≡ ok tt) ↔ IsDeleted (r.server.delete (deletion_url repo info.digest)))
  unfolding Registry.inspect Registry.remove Registry.image_info Registry.created
      Manifests.manifest_url
  inspect-remove fuel repo tag mi (ne, a) t found =
      let at = manifest_at-tagged fuel repo tag mi (ne, a) t found in
      let parts = split_ref-tagged repo tag a t in
      let (body, served, annotations) =
        fetch_manifest_info-served r.server r.addr fuel repo tag mi found in
      let url = deletion_url repo mi.digest in
      (
        body,
        Registry.image_info r (repo ++ b':' ∷ tag) repo tag mi,
        Registry.deletion r (r.server.delete url),
        rw (Registry.inspect, at, parts) refl,
        rw (Registry.remove, at, parts) refl,
        served,
        annotations,
        (
          refl,
          refl,
          refl,
          refl,
          refl,
          pick_annotation-first mi.annotations (codes "org.opencontainers.image.description")
              (codes "description"),
          pick_annotation-first mi.annotations (codes "org.opencontainers.image.source")
              (codes "source"),
        ),
        deletion_iff (r.server.delete url),
      )
