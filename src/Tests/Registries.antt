-- ===== src/Tests/Registries.antt =====
-- A registry that serves an image for two platforms, one of which it has lost, and one that serves an index of
-- itself.
use mathlib.Core.Path.{subst}
use agentfile.Common.{
  ℕ, suc, ◌%◌, ◌^◌, ◌<◌, ◌≡◌, ◌↔◌, refl, inl, inr, Option, none, some, [], ◌∷◌, ◌++◌, arith,
  if◌then◌else◌, Bool-cases,
}
use agentfile.Common.Lists.{All}
use agentfile.Common.Results.{Result, ok, err}
use agentfile.Common.Texts.{Text, codes, text_eq, contains}
use agentfile.System.Manifests
use agentfile.System.Registry
use agentfile.System.Manifests.Depth.{IsRank, fetch_manifest_info-ends, fetch_manifest_info-cycle}
use agentfile.System.Manifests.Served.{IsAnnotated}
use agentfile.System.Registry.Refs.{IsDeleted, IsShown, deletion_url, inspect-remove}
use agentfile.System.Manifests.Sizes.{Weighs, fetch_manifest_info-size}

abbrev sized : Text → ℕ → Manifests.Sized
sized digest size = record { digest = digest; size = size }

abbrev platforms : Manifests.Index
platforms = record {
  artifact_type = codes "agent";
  manifests = sized (codes "sha256:a") 700 ∷ sized (codes "sha256:b") 800 ∷ [];
  annotations = (codes "description", codes "tells the weather") ∷ [];
}

abbrev itself : Manifests.Index
itself = record platforms { manifests = sized (codes "loop") 1 ∷ [] }

abbrev answer : Text → Option Manifests.Response
answer body = some (record { status = 200; body = some body; digest = [] })

abbrev url : Text → Text
url tag = Manifests.manifest_url (codes "h") (codes "meteo") tag

abbrev server : Manifests.Server
server = record {
  get = λ u.
      if text_eq u (url (codes "1"))
      then answer (codes "index")
      else if text_eq u (url (codes "sha256:a"))
      then answer (codes "manifest")
      else if text_eq u (url (codes "loop"))
      then answer (codes "itself")
      else none;
  delete = λ u. some 202;
  read_index = λ body.
      if text_eq body (codes "index")
      then some platforms
      else if text_eq body (codes "itself")
      then some itself
      else none;
  read_manifest = λ body. some (record {
    artifact_type = codes "agent";
    config = sized (codes "sha256:c") 10;
    layers = sized (codes "sha256:d") 20 ∷ [];
    annotations = [];
  });
  read_repositories = λ body. some (codes "meteo" ∷ []);
  read_tags = λ body. some (codes "1" ∷ []);
  digest_of = λ body. codes "sha256:" ++ body;
}

-- The same without the index of itself.
abbrev sound : Manifests.Server
sound = record server {
  read_index = λ body. if text_eq body (codes "index") then some platforms else none;
}

abbrev rank : Text → ℕ
rank tag = elim (Manifests.fetch_manifest_raw sound (codes "h") (codes "meteo") tag) [
  | err e ↦ 0
  | ok read ↦ if text_eq read.0 (codes "index") then 1 else 0
]

rank-IsRank : IsRank sound (codes "h") (codes "meteo") rank
unfolding Manifests.fetch_manifest_raw Manifests.multi_arch text_eq Manifests.read_capped
    Manifests.manifest_url
rank-IsRank tag index (body, dgst, f, g) = elim (Bool-cases (text_eq body (codes "index"))) [
  | inl e ↦
      let got : some platforms ≡ some index = rw (Manifests.multi_arch, e) at g in
      let same : platforms ≡ index = cc in
      let one : rank tag ≡ 1 = rw (f, e) refl in
      subst (λ (i : Manifests.Index). All (λ m. rank m.digest < rank tag) i.manifests) same
        (rw one (omega arith, (omega arith, tt)))
  | inr e ↦
      let bad : Path (Option Manifests.Index) none (some index) =
        rw (Manifests.multi_arch, e) at g in
      cc
]

fetch_manifest_info-ends_example :
    (r : Result Manifests.HttpError Manifests.ManifestInfo) × (Manifests.fetch_manifest_info sound
        (codes "h")
        9
        (codes "meteo")
        (codes "1")
      ≡ some r)
    × (Manifests.fetch_manifest_info sound
          (codes "h")
          (suc (rank (codes "1")))
          (codes "meteo")
          (codes "1")
        ≡ some r)
unfolding Manifests.fetch_manifest_raw Manifests.read_capped Manifests.manifest_url text_eq
    Manifests.max_registry_read_bytes
fetch_manifest_info-ends_example =
    fetch_manifest_info-ends sound (codes "h") (codes "meteo") rank (codes "1") 9 rank-IsRank
      (omega arith)

fetch_manifest_info-cycle_example :
    Manifests.fetch_manifest_info server (codes "h") 9 (codes "meteo") (codes "loop") ≡ none
unfolding Manifests.fetch_manifest_raw Manifests.multi_arch text_eq Manifests.manifest_url
    Manifests.read_capped Manifests.max_registry_read_bytes
fetch_manifest_info-cycle_example =
    fetch_manifest_info-cycle server (codes "h") (codes "meteo") 9 (codes "loop") itself
      (sized (codes "loop") 1) [] (codes "itself", codes "sha256:itself", refl, refl) refl refl

abbrev found : Manifests.ManifestInfo
found = record {
  digest = codes "sha256:index";
  artifact_type = codes "agent";
  size = 843;
  annotations = (codes "description", codes "tells the weather") ∷ [];
}

-- 5 for the index, 8 + 10 + 20 for the platform that is there, 800 for the other.
has_platforms :
    Manifests.fetch_manifest_info server (codes "h") 2 (codes "meteo") (codes "1") ≡ some (ok found)
unfolding Manifests.fetch_manifest_info text_eq Manifests.manifest_url
    Manifests.max_registry_read_bytes
has_platforms = refl

fetch_manifest_info-size_example :
    (n : ℕ) × Weighs server (codes "h") (codes "meteo") (codes "1") n × (843 ≡ n % 2 ^ 64)
fetch_manifest_info-size_example =
    fetch_manifest_info-size server (codes "h") (codes "meteo") 2 (codes "1") found has_platforms

abbrev registry : Registry.Registry
registry = record { server = server; addr = codes "h"; created_at = none }

inspect-remove_example :
    (body : Text) × (info : Registry.ImageInfo) × (done : Result Registry.RegistryError (Unit {0}))
    × (Registry.inspect registry 2 (codes "meteo:1") ≡ some (ok info))
    × (Registry.remove registry 2 (codes "meteo:1")
        ≡ some (some (deletion_url registry refl (codes "meteo") info.digest), done))
    × (Manifests.fetch_manifest_raw server (codes "h") (codes "meteo") (codes "1")
        ≡ ok (body, info.digest))
    × IsAnnotated server (codes "h") body info.annotations
    × IsShown registry refl (codes "meteo") (codes "1") found info
    × ((done ≡ ok tt)
        ↔ IsDeleted (server.delete (deletion_url registry refl (codes "meteo") info.digest)))
unfolding contains
inspect-remove_example =
    inspect-remove registry refl 2 (codes "meteo") (codes "1") found (refl, refl) (refl, refl, refl)
      has_platforms
