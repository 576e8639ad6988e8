-- ===== src/Executor/Status/Names.antt =====
-- executor/status.go: the names of statuses and failure reasons on the wire.
use agentfile.Common.{◌≡◌, refl, ◌∙◌, sym, ap, Option, none, some, List, [], ◌∷◌, if◌then◌else◌}
use agentfile.Common.Texts.{Text, codes, text_eq}
use agentfile.Executor.Status.{
  Status, pulling, starting, ready, working, stopped, failed, removing, removed, FailureReason,
  failure_none, failure_pull, failure_init, failure_config, failure_model,
  failure_readiness_timeout, failure_crashed,
}

-- Status.String
unfoldable pub status_string : Status → Text
status_string pulling = codes "pulling"
status_string starting = codes "starting"
status_string ready = codes "ready"
status_string working = codes "working"
status_string stopped = codes "stopped"
status_string failed = codes "failed"
status_string removing = codes "removing"
status_string removed = codes "removed"

-- FailureReason.String
unfoldable pub reason_string : FailureReason → Text
reason_string failure_none = []
reason_string failure_pull = codes "pull"
reason_string failure_init = codes "init"
reason_string failure_config = codes "config"
reason_string failure_model = codes "model"
reason_string failure_readiness_timeout = codes "readiness_timeout"
reason_string failure_crashed = codes "crashed"

-- The first of some values with a name.
unfoldable find_named : {A : Type 0} → (A → Text) → Text → List A → Option A
find_named name n [] = none
find_named name n (x ∷ xs) = if text_eq (name x) n then some x else find_named name n xs

abbrev statuses : List Status
statuses = pulling ∷ starting ∷ ready ∷ working ∷ stopped ∷ failed ∷ removing ∷ removed ∷ []

abbrev reasons : List FailureReason
reasons =
    failure_none ∷ failure_pull ∷ failure_init ∷ failure_config ∷ failure_model
    ∷ failure_readiness_timeout ∷ failure_crashed ∷ []

find-status : (s : Status) → find_named status_string (status_string s) statuses ≡ some s
unfolding find_named status_string text_eq
find-status pulling = refl
find-status starting = refl
find-status ready = refl
find-status working = refl
find-status stopped = refl
find-status failed = refl
find-status removing = refl
find-status removed = refl

find-reason : (r : FailureReason) → find_named reason_string (reason_string r) reasons ≡ some r
unfolding find_named reason_string text_eq
find-reason failure_none = refl
find-reason failure_pull = refl
find-reason failure_init = refl
find-reason failure_config = refl
find-reason failure_model = refl
find-reason failure_readiness_timeout = refl
find-reason failure_crashed = refl

some_injective : {A : Type 0} {x y : A} → some x ≡ some y → x ≡ y
some_injective e = cc

-- Two statuses with the same name are the same status.
pub status_string-injective : (s t : Status) → status_string s ≡ status_string t → s ≡ t
status_string-injective s t e =
    some_injective
      (sym (find-status s) ∙ ap (λ n. find_named status_string n statuses) e ∙ find-status t)

-- Two reasons with the same name are the same reason.
pub reason_string-injective : (s t : FailureReason) → reason_string s ≡ reason_string t → s ≡ t
reason_string-injective s t e =
    some_injective
      (sym (find-reason s) ∙ ap (λ n. find_named reason_string n reasons) e ∙ find-reason t)
