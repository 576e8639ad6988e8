-- ===== src/System/Manifests.antt =====
-- executor/system/registry.go: the manifests of an OCI registry that is asked over HTTP. What the server answers,
-- what reads JSON and the hash are third-party code, and arguments here. A size is an int64, held modulo 2 ^ 64.
pub mod Sizes
pub mod Served
pub mod Depth
use agentfile.Common.{
  ℕ, zero, suc, ◌+◌, ◌*◌, ◌%◌, ◌^◌, Option, none, some, List, [], ◌∷◌, ◌++◌, leb, ltb,
  if◌then◌else◌,
}
use agentfile.Common.Lists.{length, take}
use agentfile.Common.Maps.{Assoc}
use agentfile.Common.Results.{Result, ok, err, ◌>>=◌}
use agentfile.Common.Texts.{Text, codes, is_empty}

unfoldable pub max_registry_read_bytes : ℕ
max_registry_read_bytes = 100 * 1024 * 1024

-- An answer of the server: `body` is `none` when it cannot be read, `digest` is the header
-- Docker-Content-Digest.
pub record Response : Type 0 where
  pub status : ℕ
  pub body : Option Text
  pub digest : Text

-- v1.Descriptor, v1.Index and v1.Manifest in the fields that are read
pub record Sized : Type 0 where
  pub digest : Text
  pub size : ℕ

pub record Index : Type 0 where
  pub artifact_type : Text
  pub manifests : List Sized
  pub annotations : Assoc Text

pub record SizedManifest : Type 0 where
  pub artifact_type : Text
  pub config : Sized
  pub layers : List Sized
  pub annotations : Assoc Text

-- net/http, encoding/json and go-digest; `none` is an error.
pub record Server : Type 0 where
  pub get : Text → Option Response
  pub delete : Text → Option ℕ
  pub read_index : Text → Option Index
  pub read_manifest : Text → Option SizedManifest
  pub read_repositories : Text → Option (List Text)
  pub read_tags : Text → Option (List Text)
  pub digest_of : Text → Text

pub data HttpError : Type 0 where
  no_answer unreadable too_large no_json : HttpError
  http_status : ℕ → HttpError

pub record ManifestInfo : Type 0 where
  pub digest : Text
  pub artifact_type : Text
  pub size : ℕ
  pub annotations : Assoc Text

-- What the file reads of an answer: an error for a status from 400, for a body that cannot be read and for one
-- beyond the cap.
unfoldable pub read_capped : Option Response → Result HttpError (Text × Text)
unfolding max_registry_read_bytes
read_capped none = err no_answer
read_capped (some r) = if leb 400 r.status then err (http_status r.status) else elim r.body [
  | none ↦ err unreadable
  | some sent ↦
      let body = take (suc max_registry_read_bytes) sent in
      if ltb max_registry_read_bytes (length body) then err too_large else ok (body, r.digest)
]

unfoldable pub manifest_url : Text → Text → Text → Text
manifest_url addr repo tag =
    codes "http://" ++ addr ++ codes "/v2/" ++ repo ++ codes "/manifests/" ++ tag

unfoldable pub add64 : ℕ → ℕ → ℕ
add64 m n = (m + n) % 2 ^ 64

-- The sum over the layers.
unfoldable pub add_sizes : ℕ → List Sized → ℕ
unfolding add64
add_sizes total [] = total
add_sizes total (l ∷ layers) = add_sizes (add64 total l.size) layers

-- What one entry of an index adds: the size that it has, or the one that the index says.
unfoldable pub counted : Sized → Result HttpError ManifestInfo → ℕ
counted m (ok sub) = sub.size
counted m (err e) = m.size

-- The loop over an index, with what the function returns for an entry; `none` is a call without end.
unfoldable pub add_manifests :
    (Text → Option (Result HttpError ManifestInfo)) → ℕ → List Sized → Option ℕ
unfolding add64 counted
add_manifests info total [] = some total
add_manifests info total (m ∷ manifests) = elim (info m.digest) [
  | none ↦ none
  | some sub ↦ add_manifests info (add64 total (counted m sub)) manifests
]

module _ (server : Server) (addr : Text) where
  unfoldable pub fetch_manifest_raw : Text → Text → Result HttpError (Text × Text)
  unfolding read_capped manifest_url
  fetch_manifest_raw repo tag = read_capped (server.get (manifest_url addr repo tag)) >>= λ read.
      ok (read.0, if is_empty read.1 then server.digest_of read.0 else read.1)

  -- fetchJSON, with what reads the body
  unfoldable pub fetch_json : {A : Type 0} → (Text → Option A) → Text → Result HttpError A
  unfolding read_capped
  fetch_json parse url = read_capped (server.get url) >>= λ read. elim (parse read.0) [
    | none ↦ err no_json
    | some x ↦ ok x
  ]

  -- An index that has entries.
  unfoldable pub multi_arch : Text → Option Index
  multi_arch body = elim (server.read_index body) [
    | none ↦ none
    | some index ↦ elim index.manifests [ [] ↦ none | m ∷ ms ↦ some index ]
  ]

  unfoldable pub plain_info : Text → Text → Result HttpError ManifestInfo
  unfolding add_sizes add64
  plain_info body dgst = elim (server.read_manifest body) [
    | none ↦ err no_json
    | some manifest ↦ ok (record {
      digest = dgst;
      artifact_type = manifest.artifact_type;
      size = add_sizes (add64 (length body) manifest.config.size) manifest.layers;
      annotations = manifest.annotations;
    })
  ]

  unfoldable pub index_info : Text → Index → ℕ → ManifestInfo
  index_info dgst index total = record {
    digest = dgst;
    artifact_type = index.artifact_type;
    size = total;
    annotations = index.annotations;
  }

  -- fetchManifestInfo. The fuel bounds how deep an index holds indexes, which the code does not: `none` is when
  -- it is used up.
  unfoldable pub fetch_manifest_info :
      (fuel : ℕ) → Text → Text → Option (Result HttpError ManifestInfo)
  unfolding fetch_manifest_raw multi_arch plain_info index_info add_manifests
  fetch_manifest_info zero repo tag = none
  fetch_manifest_info (suc fuel) repo tag = elim (fetch_manifest_raw repo tag) [
    | err e ↦ some (err e)
    | ok read ↦ elim (multi_arch read.0) [
      | none ↦ some (plain_info read.0 read.1)
      | some index ↦
          elim (add_manifests (λ d. fetch_manifest_info fuel repo d) (length read.0)
            index.manifests) [
              | none ↦ none
              | some total ↦ some (ok (index_info read.1 index total))
            ]
    ]
  ]
