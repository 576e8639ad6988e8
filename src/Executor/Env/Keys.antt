-- ===== src/Executor/Env/Keys.antt =====
-- CONFIG keys as names of environment variables.
use agentfile.Common.{ℕ, ◌≡◌, refl, true, [], ◌∷◌, map, arith}
use agentfile.Common.Lists.{all}
use agentfile.Common.Texts.{Text}
use agentfile.Spec.Names.{is_label_char, is_dns1123_label, is_env_char, is_env_key}
use agentfile.Spec.Names.Shapes.{is_dns1123_label_iff}
use agentfile.Executor.Env.{env_char, config_key_to_env}

-- On the characters of labels the rewrite can be undone.
env_char-injective :
    (a b : ℕ) → is_label_char a ≡ true → is_label_char b ≡ true → env_char a ≡ env_char b → a ≡ b
unfolding is_label_char env_char
env_char-injective a b h k e = ground arith

map-injective :
    (s t : Text)
    → all is_label_char s ≡ true
    → all is_label_char t ≡ true
    → map env_char s ≡ map env_char t
    → s ≡ t
map-injective [] [] h k e = refl
map-injective [] (b ∷ t) h k e = cc
map-injective (a ∷ s) [] h k e = cc
map-injective (a ∷ s) (b ∷ t) h k e =
    let head : a ≡ b = env_char-injective a b (ground arith) (ground arith) (ground arith) in
    let tail : s ≡ t = map-injective s t (ground arith) (ground arith) (ground arith) in cc

-- Two labels that give the same variable are the same label.
pub config_key_to_env-injective :
    (j k : Text)
    → is_dns1123_label j ≡ true
    → is_dns1123_label k ≡ true
    → config_key_to_env j ≡ config_key_to_env k
    → j ≡ k
unfolding config_key_to_env
config_key_to_env-injective j k h g e =
    map-injective j k ((is_dns1123_label_iff j).0 h).label_chars
      ((is_dns1123_label_iff k).0 g).label_chars (ground arith)

env_char-env : (key : Text) → all is_env_char (map env_char key) ≡ true
unfolding env_char is_env_char
env_char-env [] = refl
env_char-env (c ∷ key) = ground (arith, env_char-env key)

-- The name is a legal name of a variable for every key, also for one that is not a label.
pub config_key_to_env-is_env_key : (key : Text) → is_env_key (config_key_to_env key) ≡ true
unfolding config_key_to_env is_env_key
config_key_to_env-is_env_key key = env_char-env key
