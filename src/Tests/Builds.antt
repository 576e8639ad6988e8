-- ===== src/Tests/Builds.antt =====
-- A small agent, built into the store over Docker's images and loaded again.
use agentfile.Common.{◌≡◌, refl, true, some, none, [], ◌∷◌, ◌++◌, if◌then◌else◌, map}
use agentfile.Common.Results.{Result, ok, err}
use agentfile.Common.Texts.{Text, codes, text_eq}
use agentfile.Spec.Types.{Agent}
use agentfile.Build
use agentfile.Build.RoundTrip.{delivered}
use agentfile.Docker.Store.{Store, new_store, tag}
use agentfile.Docker.Store.Target.{docker_target, docker_target-IsLawful}
use agentfile.Docker.Client.{Client}
use agentfile.Tests.Encodings.{write_manifest, read_manifest}
use agentfile.Tests.Samples.{text_context, empty_agent, file}

-- The content itself stands for its hash.
abbrev digest_of : Text → Text
digest_of content = codes "sha256:" ++ content

abbrev agent : Agent
agent = record empty_agent {
  from = codes "scratch";
  name = codes "meteo";
  contexts =
      record { name = codes "SOUL"; description = []; content = []; file = codes "soul.md" }
      ∷ text_context (codes "TASK") (codes "tell")
      ∷ [];
  adds = record { src = codes "map.bin"; name = codes "map"; description = []; content = [] } ∷ [];
}

abbrev json : Build.Json
json = record {
  write_agentfile = λ af. ok (codes "config");
  write_manifest = write_manifest;
  read_agentfile = λ content. ok (file agent);
  read_manifest = read_manifest;
}

abbrev directory : Build.Files
directory =
    some (λ path. if text_eq path (codes "soul.md") then ok (codes "calm") else ok (codes "xyz"))

abbrev daemon : Client
daemon = record {
  image_list = some [];
  image_save = λ id. none;
  image_load = λ files. true;
  read_index = λ content. none;
  write_index = λ manifests. codes "index";
}

abbrev built : Result Build.BuildError (Build.ReferenceWithDigest × Store)
built =
    Build.build (docker_target daemon) digest_of json (codes "now") (file agent)
      (codes "FROM scratch") directory new_store

-- What a build leaves.
abbrev outcome :
    Result Build.BuildError (Build.ReferenceWithDigest × Store) → Build.ReferenceWithDigest × Store
outcome (ok p) = p
outcome (err e) = (record { reference = record { name = []; tag = [] }; digest = [] }, new_store)

-- What is delivered.
delivers :
    map (delivered directory) agent.contexts
    ≡ text_context (codes "SOUL") (codes "calm") ∷ text_context (codes "TASK") (codes "tell") ∷ []
unfolding Build.resolve_context_content text_eq
delivers = refl

docker_target-IsLawful_example : Build.IsLawful (docker_target daemon)
docker_target-IsLawful_example = docker_target-IsLawful daemon
