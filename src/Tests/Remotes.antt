-- ===== src/Tests/Remotes.antt =====
-- An image for two platforms, and a push that succeeds at its third attempt.
use agentfile.Common.{
  ℕ, zero, suc, ◌↔◌, ◌≡◌, refl, ◌⊎◌, true, false, Option, none, some, [], ◌∷◌, if◌then◌else◌,
}
use agentfile.Common.Lists.{All}
use agentfile.Common.Maps.{lookup}
use agentfile.Common.Paths.{join, base}
use agentfile.Common.Results.{ok, err}
use agentfile.Common.Strings.{contains_text}
use agentfile.Common.Texts.{Text, codes, text_eq}
use agentfile.Oci
use agentfile.Oci.Chosen.{Chosen, resolve_manifest_iff}
use agentfile.Oci.Binary
use agentfile.Oci.Binary.Files.{path_in}
use agentfile.Oci.Binary.Origin.{IsPassed, InTars, InLayers, extract_bin-Origin}
use agentfile.Store.{Descriptor}

abbrev blob : Text → Descriptor
blob digest = record { digest = digest; media_type = []; title = [] }

abbrev linux : Text → Oci.Platform
linux architecture = record { os = codes "linux"; architecture = architecture }

abbrev tool : Oci.ImageManifest
tool = record { annotations = []; layers = blob (codes "jq") ∷ [] }

abbrev repository : Oci.Repository
repository = record {
  fetch = λ d. some d.digest;
  read_index = λ body.
      if text_eq body (codes "index")
      then some (
          record { desc = blob (codes "arm"); platform = some (linux (codes "arm64")) }
          ∷ record { desc = blob (codes "amd"); platform = some (linux (codes "amd64")) }
          ∷ [])
      else none;
  read_manifest = λ body. if text_eq body (codes "amd") then some tool else none;
}

resolve_manifest_iff_example :
    ((fuel : ℕ) × (Oci.resolve_manifest repository
          (linux (codes "amd64"))
          fuel
          (blob (codes "index"))
        ≡ some (ok tool)))
    ↔ Chosen repository (linux (codes "amd64")) (blob (codes "index")) tool
resolve_manifest_iff_example =
    resolve_manifest_iff repository (linux (codes "amd64")) (blob (codes "index")) tool

chooses :
    (Oci.resolve_manifest repository (linux (codes "amd64")) 2 (blob (codes "index"))
      ≡ some (ok tool))
    × (Oci.resolve_manifest repository (linux (codes "riscv64")) 2 (blob (codes "index"))
        ≡ some (err Oci.no_platform))
unfolding Oci.resolve_manifest text_eq
chooses = (refl, refl)

abbrev put : Oci.Request
put = record { body = some (codes "layer"); get_body = some (λ n. some (codes "layer")) }

-- A status 500, a transport error, and then 201.
abbrev answers : ℕ → Option Text → Option ℕ
answers zero body = some 500
answers (suc zero) body = none
answers (suc (suc n)) body = some 201

retries : Oci.round_trip put answers 4 ≡ record {
  sent = some (codes "layer") ∷ some (codes "layer") ∷ some (codes "layer") ∷ [];
  response = some 201;
  error = none;
}
unfolding Oci.round_trip
retries = refl

-- The same without a way to have the body again.
surfaces : Oci.round_trip (record put { get_body = none }) answers 4 ≡ record {
  sent = some (codes "layer") ∷ [];
  response = some 500;
  error = some (Oci.server_error 500);
}
unfolding Oci.round_trip
surfaces = refl

abbrev layer : Text → Descriptor
layer digest = record { digest = digest; media_type = codes "application/tar"; title = [] }

-- An image in which the binary is a file of the second layer.
abbrev rooted : Oci.ImageManifest
rooted = record {
  annotations =
      (codes "io.openotters.bin.name", codes "jq")
      ∷ (codes "io.openotters.bin.path", codes "/usr/bin")
      ∷ [];
  layers = layer (codes "empty") ∷ layer (codes "full") ∷ [];
}

abbrev untar : Text → Binary.Archive
untar body = record {
  files =
      if text_eq body (codes "full")
      then record { name = codes "usr/bin/jq"; regular = true; content = some (codes "ELF") } ∷ []
      else [];
  broken = false;
}

extracts : Binary.extract_bin repository (λ body. some body) untar rooted ≡ ok (codes "ELF")
unfolding Binary.extract_bin text_eq contains_text lookup join base
extracts = refl

extract_bin-Origin_example :
    InTars repository (λ body. some body) untar (path_in rooted) rooted.layers (codes "ELF")
    ⊎ (All (IsPassed repository (λ body. some body) untar (path_in rooted)) rooted.layers
        × InLayers repository (λ body. some body) untar rooted rooted.layers (codes "ELF"))
extract_bin-Origin_example =
    extract_bin-Origin repository (λ body. some body) untar rooted (codes "ELF") extracts
