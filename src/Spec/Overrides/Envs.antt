-- ===== src/Spec/Overrides/Envs.antt =====
-- spec/types.go, WithExtraEnvs: the value that each key shows.
use agentfile.Common.{
  ◌≡◌, refl, false, not, ◌&&◌, Option, none, some, List, [], ◌∷◌, ◌++◌, map, arith, if◌then◌else◌,
}
use agentfile.Common.Texts.{Text, text_eq, text_eq_iff, mem}
use agentfile.Spec.Types.{Env}
use agentfile.Spec.Overrides.{kept_envs, merge_envs}

-- The value of the last entry of a key.
unfoldable pub last_env : Text → List Env → Option Text
last_env k [] = none
last_env k (e ∷ es) = elim (last_env k es) [
  | some v ↦ some v
  | none ↦ if text_eq e.key k then some e.value else none
]

abbrev pub env_keys : List Env → List Text
env_keys = map (λ (e : Env). e.key)

last_env-append :
    (k : Text) (xs ys : List Env)
    → last_env k (xs ++ ys) ≡ elim (last_env k ys) [ some v ↦ some v | none ↦ last_env k xs ]
unfolding last_env
last_env-append k [] ys = ground arith
last_env-append k (x ∷ xs) ys = ground (arith, last_env-append k xs ys)

last_env-kept :
    (k : Text) (incoming : List Text) (es : List Env)
    → mem k incoming ≡ false
    → last_env k (kept_envs incoming es) ≡ last_env k es
unfolding last_env kept_envs
last_env-kept k incoming [] h = refl
last_env-kept k incoming (e ∷ es) h =
    ground (arith, last_env-kept k incoming es, text_eq_iff e.key k)

last_env-mem : (k : Text) (es : List Env) → last_env k es ≡ none → mem k (env_keys es) ≡ false
unfolding last_env
last_env-mem k [] h = refl
last_env-mem k (e ∷ es) h =
    ground (arith, last_env-mem k es, text_eq_iff e.key k, text_eq_iff k e.key)

-- A key is left exactly if it stood there and is not incoming.
abbrev KeptKey : Text → List Text → List Env → Type 0
KeptKey k incoming es =
    mem k (env_keys (kept_envs incoming es)) ≡ (not (mem k incoming) && mem k (env_keys es))

mem-kept_envs : (k : Text) (incoming : List Text) (es : List Env) → KeptKey k incoming es
unfolding kept_envs
mem-kept_envs k incoming [] = ground arith
mem-kept_envs k incoming (e ∷ es) = ground (arith, mem-kept_envs k incoming es, text_eq_iff k e.key)

-- After the override a key shows the incoming value if there is one, and its old value otherwise;
-- and no replaced entry of an incoming key is left in front of the incoming entries.
merge_envs_lem :
    (k : Text) (baked envs : List Env)
    → (last_env k (merge_envs baked envs)
        ≡ elim (last_env k envs) [ some v ↦ some v | none ↦ last_env k baked ])
      × (mem k (env_keys (kept_envs (env_keys envs) baked))
          ≡ (not (mem k (env_keys envs)) && mem k (env_keys baked)))
unfolding merge_envs
merge_envs_lem k baked envs = (
  ground (
    arith,
    last_env-append k (kept_envs (env_keys envs) baked) envs,
    last_env-kept k (env_keys envs) baked,
    last_env-mem k envs,
  ),
  mem-kept_envs k (env_keys envs) baked,
)
