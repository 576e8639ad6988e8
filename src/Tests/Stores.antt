-- ===== src/Tests/Stores.antt =====
-- Loading an agentfile with its contents.
use agentfile.Common.{◌≡◌, refl, some, [], ◌∷◌, map, if◌then◌else◌}
use agentfile.Common.Results.{ok, err}
use agentfile.Common.Texts.{Text, codes, text_eq}
use agentfile.Spec.Reference.{Reference}
use agentfile.Spec.Types.{Context, Agent, Agentfile}
use agentfile.Spec.Validate.{validate_agent}
use agentfile.Spec.Validate.Rules.{Rules, validate_agent_iff}
use agentfile.Store.{
  Descriptor, Manifest, Source, context_media_type, wrap, load_config, load, hydrate, load_hydrated,
}
use agentfile.Store.Hydration.{filled, context_body, load_hydrated-filled}
use agentfile.Tests.Samples.{text_context, empty_agent, file}

abbrev layer : Text → Text → Descriptor
layer digest title = record { digest = digest; media_type = context_media_type; title = title }

-- Two layers of one context, the second of which cannot be fetched.
abbrev manifest : Manifest
manifest = record {
  config = layer (codes "c") [];
  layers = layer (codes "1") (codes "SOUL.md") ∷ layer (codes "gone") (codes "SOUL.md") ∷ [];
}

abbrev stored : Agent
stored = record empty_agent {
  from = codes "scratch";
  contexts = text_context (codes "SOUL") [] ∷ text_context (codes "TASK") (codes "t") ∷ [];
}

abbrev source : Source
source = record {
  find = λ n. ok (layer (codes "m") []);
  fetch = λ (l : Descriptor).
      if text_eq l.digest (codes "gone") then err (codes "no blob") else ok (codes "hello");
  read_manifest = λ s. ok manifest;
  read_agentfile = λ s. ok (file stored);
}

abbrev agents : Reference
agents = record { name = codes "agents"; tag = codes "v1" }

loads : load source agents ≡ ok (manifest, file stored)
unfolding load load_config wrap text_eq
loads = refl

hydrates :
    load_hydrated source agents
    ≡ ok (
        file (record stored {
          contexts =
              text_context (codes "SOUL") (codes "hello")
              ∷ text_context (codes "TASK") (codes "t")
              ∷ [];
        }))
unfolding load_hydrated load load_config wrap hydrate text_eq
hydrates = refl

load_hydrated-filled_example :
    (r : Agentfile) × (b : Agent) × (load_hydrated source agents ≡ ok r)
    × (r.agent ≡ some b)
    × (b.contexts
        ≡ map
            (λ (c : Context). filled (context_body source c.name manifest.layers) c)
            stored.contexts)
load_hydrated-filled_example =
    load_hydrated-filled source agents manifest (file stored) stored loads refl

stored-Rules : Rules stored
unfolding validate_agent
stored-Rules = (validate_agent_iff stored).0 refl
