-- ===== src/System/Registry.antt =====
-- executor/system/registry.go: the registry over the manifests that its server has.
pub mod Refs
use agentfile.Common.{ℕ, suc, Option, none, some, List, [], ◌∷◌, ◌++◌, leb, if◌then◌else◌, map}
use agentfile.Common.Lists.{take, drop}
use agentfile.Common.Maps.{Assoc, lookup}
use agentfile.Common.Results.{Result, ok, err, ◌>>=◌}
use agentfile.Common.Texts.{Text, codes, is_empty, contains, last_index}
use agentfile.System.Manifests.{
  Server, HttpError, ManifestInfo, manifest_url, fetch_json, fetch_manifest_info, no_answer,
  http_status,
}

abbrev pub default_ref_tag : Text
default_ref_tag = codes "latest"

pub data RegistryError : Type 0 where
  not_implemented invalid_ref : RegistryError
  failed : HttpError → RegistryError

-- executor.ImageInfo
pub record ImageInfo : Type 0 where
  pub ref : Text
  pub digest : Text
  pub size : ℕ
  pub created_unix : ℕ
  pub description : Text
  pub source : Text
  pub annotations : Assoc Text

-- pickAnnotation
unfoldable pub pick_annotation : Assoc Text → List Text → Text
unfolding lookup
pick_annotation m [] = []
pick_annotation m (k ∷ keys) = elim (lookup k m) [
  | none ↦ pick_annotation m keys
  | some v ↦ if is_empty v then pick_annotation m keys else v
]

-- splitRef
unfoldable pub split_colon : Text → Text × Text
unfolding last_index contains
split_colon ref = elim (last_index b':' ref) [
  | none ↦ (ref, default_ref_tag)
  | some i ↦
      if contains b'/' (drop (suc i) ref)
      then (ref, default_ref_tag)
      else (take i ref, drop (suc i) ref)
]

unfoldable pub split_ref : Text → Text × Text
unfolding split_colon last_index
split_ref ref = if is_empty ref then ([], []) else elim (last_index b'@' ref) [
  | some i ↦ (take i ref, drop (suc i) ref)
  | none ↦ split_colon ref
]

-- A registry whose address may be missing.
pub record Registry : Type 0 where
  pub server : Server
  pub addr : Text
  pub created_at : Option (Text → Text → ℕ)

unfoldable pub at_registry : {A : Type 0} → Result HttpError A → Result RegistryError A
at_registry (ok x) = ok x
at_registry (err e) = err (failed e)

module _ (r : Registry) where
  -- The tags of a repository, an error passed over.
  unfoldable pub tagged_refs : Text → List Text
  unfolding fetch_json
  tagged_refs repo =
      elim (fetch_json r.server r.addr r.server.read_tags
        (codes "http://" ++ r.addr ++ codes "/v2/" ++ repo ++ codes "/tags/list")) [
          | err e ↦ []
          | ok tags ↦ map (λ tag. repo ++ b':' ∷ tag) tags
        ]

  unfoldable pub tagged_all : List Text → List Text
  unfolding tagged_refs
  tagged_all [] = []
  tagged_all (repo ∷ repos) = tagged_refs repo ++ tagged_all repos

  unfoldable pub list : Result RegistryError (List Text)
  unfolding fetch_json tagged_all at_registry
  list =
      if is_empty r.addr
      then err not_implemented
      else at_registry (
          fetch_json r.server r.addr r.server.read_repositories
            (codes "http://" ++ r.addr ++ codes "/v2/_catalog"))
        >>= λ repos. ok (tagged_all repos)

  unfoldable pub created : Text → Text → ℕ
  created repo tag = elim r.created_at [ none ↦ 0 | some f ↦ f repo tag ]

  unfoldable pub image_info : Text → Text → Text → ManifestInfo → ImageInfo
  unfolding created pick_annotation
  image_info ref repo tag mi = record {
    ref = ref;
    digest = mi.digest;
    size = mi.size;
    created_unix = created repo tag;
    description =
        pick_annotation mi.annotations
          (codes "org.opencontainers.image.description" ∷ codes "description" ∷ []);
    source =
        pick_annotation mi.annotations
          (codes "org.opencontainers.image.source" ∷ codes "source" ∷ []);
    annotations = mi.annotations;
  }

  -- The start that Inspect, ManifestKind and Remove share.
  unfoldable pub manifest_at : (fuel : ℕ) → Text → Option (Result RegistryError ManifestInfo)
  unfolding split_ref fetch_manifest_info at_registry
  manifest_at fuel ref =
      let at = split_ref ref in
      if is_empty r.addr
      then some (err not_implemented)
      else if is_empty at.0
      then some (err invalid_ref)
      else elim (fetch_manifest_info r.server r.addr fuel at.0 at.1) [
        | none ↦ none
        | some found ↦ some (at_registry found)
      ]

  unfoldable pub inspect : (fuel : ℕ) → Text → Option (Result RegistryError ImageInfo)
  unfolding manifest_at image_info split_ref
  inspect fuel ref = elim (manifest_at fuel ref) [
    | none ↦ none
    | some found ↦ some (found >>= λ mi. ok (image_info ref (split_ref ref).0 (split_ref ref).1 mi))
  ]

  unfoldable pub manifest_kind : (fuel : ℕ) → Text → Option (Result RegistryError Text)
  unfolding manifest_at
  manifest_kind fuel ref = elim (manifest_at fuel ref) [
    | none ↦ none
    | some found ↦ some (found >>= λ mi. ok mi.artifact_type)
  ]

  -- The loop of ListEntries.
  unfoldable pub inspect_all : (fuel : ℕ) → List Text → Option (List ImageInfo)
  unfolding inspect
  inspect_all fuel [] = some []
  inspect_all fuel (ref ∷ refs) = elim (inspect fuel ref) [
    | none ↦ none
    | some found ↦ elim (inspect_all fuel refs) [
      | none ↦ none
      | some rest ↦ some (elim found [ err e ↦ rest | ok info ↦ info ∷ rest ])
    ]
  ]

  unfoldable pub list_entries : (fuel : ℕ) → Option (Result RegistryError (List ImageInfo))
  unfolding list inspect_all
  list_entries fuel = elim list [
    | err e ↦ some (err e)
    | ok refs ↦ elim (inspect_all fuel refs) [ none ↦ none | some infos ↦ some (ok infos) ]
  ]

  unfoldable pub deletion : Option ℕ → Result RegistryError (Unit {0})
  deletion none = err (failed no_answer)
  deletion (some status) = if leb 400 status then err (failed (http_status status)) else ok tt

  -- Remove: what is deleted, if it comes to that, and the result.
  unfoldable pub remove : (fuel : ℕ) → Text → Option (Option Text × Result RegistryError (Unit {0}))
  unfolding manifest_at manifest_url deletion split_ref
  remove fuel ref = elim (manifest_at fuel ref) [
    | none ↦ none
    | some found ↦ some (elim found [
      | err e ↦ (none, err e)
      | ok mi ↦
          let url = manifest_url r.addr (split_ref ref).0 mi.digest in
          (some url, deletion (r.server.delete url))
    ])
  ]
