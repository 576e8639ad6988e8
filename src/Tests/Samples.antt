-- ===== src/Tests/Samples.antt =====
-- Data that the tests share.
use agentfile.Common.{true, false, none, some, [], ◌∷◌}
use agentfile.Common.Texts.{Text, codes}
use agentfile.Executor.Runtime.{Runtime}
use agentfile.Spec.Types.{str, Context, Config, Agent, Agentfile}

abbrev pub text_context : Text → Text → Context
text_context n c = record { name = n; description = []; content = c; file = [] }

abbrev pub empty_agent : Agent
empty_agent = record {
  from = [];
  runtime = [];
  model = [];
  name = [];
  contexts = [];
  configs = [];
  bins = [];
  adds = [];
  exec = [];
  labels = [];
  args = [];
  envs = [];
  capabilities = [];
  runtime_mounts = [];
}

abbrev pub parent : Agent
parent = record empty_agent {
  from = codes "scratch";
  runtime = codes "ghcr.io/r:1";
  name = codes "base";
  contexts =
      text_context (codes "SOUL") (codes "old") ∷ text_context (codes "TASK") (codes "t") ∷ [];
  capabilities = codes "note-save" ∷ [];
}

abbrev pub child : Agent
child = record empty_agent {
  from = codes "base";
  contexts = text_context (codes "SOUL") (codes "new") ∷ [];
  capabilities = codes "job-wait" ∷ codes "note-save" ∷ [];
  envs = record { key = codes "TZ"; value = codes "UTC"; description = [] } ∷ [];
}

abbrev pub file : Agent → Agentfile
file a = record { syntax = codes "openotters/agentfile:1"; agent = some a }

abbrev pub required : Text → Config
required k = record { key = k; value = none; description = []; required = true }

abbrev pub setting : Text → Text → Config
setting k v = record { key = k; value = some (str v); description = []; required = false }

abbrev pub empty_runtime : Runtime
empty_runtime = record {
  source = none;
  id = [];
  name = [];
  model = [];
  workspace = codes "/workspace";
  image = none;
  runtime = none;
  configs = [];
  capabilities = [];
  envs = [];
  mounts = [];
  context = [];
  tools = [];
  exec = [];
  addr = [];
  api_base = [];
  api_key = [];
}
