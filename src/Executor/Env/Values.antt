-- ===== src/Executor/Env/Values.antt =====
-- How a process reads its environment: of several entries of a key the last one counts (os/exec).
use agentfile.Common.{
  ◌≡◌, refl, Bool, true, false, Option, none, some, List, [], ◌∷◌, ◌++◌, arith, ◌==◌, if◌then◌else◌,
}
use agentfile.Common.Lists.{all}
use agentfile.Common.Texts.{Text, text_eq, text_eq_iff, mem, contains}
use agentfile.Executor.Env.{entry}

-- The value of an entry if the entry is of this key.
unfoldable pub strip_key : Text → Text → Option Text
strip_key [] [] = none
strip_key [] (c ∷ s) = if c == b'=' then some s else none
strip_key (a ∷ k) [] = none
strip_key (a ∷ k) (b ∷ s) = if a == b then strip_key k s else none

unfoldable pub env_value : Text → List Text → Option Text
unfolding strip_key
env_value k [] = none
env_value k (e ∷ es) = elim (env_value k es) [ some v ↦ some v | none ↦ strip_key k e ]

pub env_value-append :
    (k : Text) (xs ys : List Text)
    → env_value k (xs ++ ys) ≡ elim (env_value k ys) [ some v ↦ some v | none ↦ env_value k xs ]
unfolding env_value
env_value-append k [] ys = ground arith
env_value-append k (x ∷ xs) ys = ground (arith, env_value-append k xs ys)

-- Keys without an equals sign are told apart.
pub strip_key-entry :
    (k j v : Text)
    → contains b'=' k ≡ false
    → contains b'=' j ≡ false
    → strip_key k (entry j v) ≡ (if text_eq j k then some v else none)
unfolding strip_key text_eq contains
strip_key-entry [] [] v h g = refl
strip_key-entry [] (b ∷ j) v h g = ground arith
strip_key-entry (a ∷ k) [] v h g = ground arith
strip_key-entry (a ∷ k) (b ∷ j) v h g = ground (arith, strip_key-entry k j v)

-- An entry of another key, put behind, changes nothing.
pub env_value-other :
    (k j v : Text) (env : List Text)
    → contains b'=' k ≡ false
    → contains b'=' j ≡ false
    → text_eq j k ≡ false
    → env_value k (env ++ entry j v ∷ []) ≡ env_value k env
unfolding env_value
env_value-other k j v env h g ne =
    ground (arith, env_value-append k env (entry j v ∷ []), strip_key-entry k j v)

pub mem-all :
    (p : Text → Bool) (k : Text) (ks : List Text) → all p ks ≡ true → mem k ks ≡ true → p k ≡ true
mem-all p k [] h m = cc
mem-all p k (x ∷ ks) h m = ground (arith, mem-all p k ks, text_eq_iff k x)
