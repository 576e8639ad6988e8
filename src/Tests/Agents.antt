-- ===== src/Tests/Agents.antt =====
-- The process of a runtime and the status of an agent.
use agentfile.Common.{◌≡◌, refl, ◌↔◌, ◌⊎◌, true, false, none, some, List, [], ◌∷◌}
use agentfile.Common.Strings.{to_upper}
use agentfile.Common.Texts.{codes, text_eq, contains}
use agentfile.Executor.Env.{build_locked_env, is_reserved_env_key}
use agentfile.Executor.Env.Values.{env_value}
use agentfile.Executor.Runtime.{Runtime}
use agentfile.Tests.Samples.{empty_runtime}
use agentfile.Executor.Process.{build_cmd_args, build_cmd_env, env_options, split_provider_prefix}
use agentfile.Executor.Process.Locked.{build_cmd_env-reserved}
use agentfile.Executor.Status.{
  pulling, starting, ready, failed, failure_none, failure_crashed, StatusTracker, Subscription,
  new_status_tracker, set_locked, set_failure, subscribe, matches,
}
use agentfile.Executor.Status.Runs.{
  Reaches, begin, fails, subscribes, IsSane, Reaches-IsSane, set_locked-total,
}
use agentfile.Executor.Status.Wait.{
  received, reached, wait_for_status, FirstTarget, wait_for_status_iff,
}

abbrev runtime : Runtime
runtime = record empty_runtime {
  model = codes "openai/gpt";
  api_key = codes "k";
  configs = (codes "max-steps", codes "3") ∷ [];
  envs = some (record { key = codes "PATH"; value = codes "/evil"; description = [] }) ∷ none ∷ [];
}

default_serve :
    build_cmd_args runtime (codes "/a")
    ≡ codes "serve" ∷ codes "--root" ∷ codes "/a" ∷ codes "--model" ∷ codes "openai/gpt" ∷ []
unfolding build_cmd_args
default_serve = refl

provider_key :
    env_value (codes "OPENAI_API_KEY") (build_cmd_env (λ c. c) runtime (codes "/a") [] [])
    ≡ some (codes "k")
unfolding env_value build_cmd_env is_reserved_env_key text_eq
provider_key = refl

build_cmd_env-reserved_example :
    env_value (codes "PATH") (build_cmd_env (λ c. c) runtime (codes "/a") [] [])
    ≡ env_value (codes "PATH") (build_locked_env (env_options (codes "/a") [] []))
unfolding contains text_eq split_provider_prefix to_upper
build_cmd_env-reserved_example =
    build_cmd_env-reserved (λ c. c) runtime (codes "/a") [] [] (codes "PATH") refl (refl, tt) refl

-- A subscriber, and then a failure.
abbrev watched : StatusTracker
watched = (subscribe new_status_tracker).1

abbrev handed : List Subscription
handed = (subscribe new_status_tracker).0 ∷ []

abbrev crashed : StatusTracker
crashed = record watched {
  status = failed;
  failure = failure_crashed;
  channels = record { buffer = failed ∷ []; closed = false } ∷ [];
}

crashes : set_failure failure_crashed watched ≡ some crashed
unfolding set_failure set_locked subscribe new_status_tracker
crashes = refl

crashed-Reaches : Reaches crashed handed
crashed-Reaches = fails failure_crashed (subscribes begin) crashes

Reaches-IsSane_example : IsSane crashed handed
Reaches-IsSane_example = Reaches-IsSane crashed-Reaches

set_locked-total_example :
    (u : StatusTracker) × (set_locked ready failure_none crashed ≡ some u) × (u.status ≡ ready)
set_locked-total_example = set_locked-total ready failure_none crashed-Reaches

wait_for_status_iff_example :
    (wait_for_status pulling (ready ∷ []) (received starting ∷ received ready ∷ []) ≡ reached ready)
    ↔ (((pulling ≡ ready) × (matches (ready ∷ []) pulling ≡ true))
        ⊎ ((matches (ready ∷ []) pulling ≡ false)
            × FirstTarget (ready ∷ []) ready (received starting ∷ received ready ∷ [])))
wait_for_status_iff_example =
    wait_for_status_iff pulling (ready ∷ []) (received starting ∷ received ready ∷ []) ready

waits :
    wait_for_status pulling (ready ∷ []) (received starting ∷ received ready ∷ []) ≡ reached ready
unfolding wait_for_status
waits = refl
