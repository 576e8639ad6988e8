-- ===== src/Spec/Names.antt =====
-- spec/parse.go: the shapes of names, and the reserved ones. A regular expression is the function
-- that matches it.
pub mod Shapes
use agentfile.Common.{ℕ, zero, suc, Bool, false, ◌&&◌, ◌||◌, List, [], ◌∷◌, leb, ◌==◌}
use agentfile.Common.Lists.{length, all}
use agentfile.Common.Texts.{Text, codes, has_suffix}

abbrev pub within : ℕ → ℕ → ℕ → Bool
within lo hi c = leb lo c && leb c hi

-- [A-Za-z0-9]
unfoldable pub is_alnum : ℕ → Bool
is_alnum c = within b'A' b'Z' c || (within b'a' b'z' c || within b'0' b'9' c)

-- [A-Za-z0-9._-]
unfoldable pub is_name_char : ℕ → Bool
unfolding is_alnum
is_name_char c = is_alnum c || (c == b'.' || (c == b'_' || c == b'-'))

-- ^[A-Za-z0-9][A-Za-z0-9._-]{0,62}$
unfoldable pub is_path_safe_name : Text → Bool
unfolding is_alnum is_name_char
is_path_safe_name [] = false
is_path_safe_name (c ∷ s) = is_alnum c && (all is_name_char s && leb (length s) 62)

-- [a-z0-9]
unfoldable pub is_lower_alnum : ℕ → Bool
is_lower_alnum c = within b'a' b'z' c || within b'0' b'9' c

-- [a-z0-9-]
unfoldable pub is_label_char : ℕ → Bool
unfolding is_lower_alnum
is_label_char c = is_lower_alnum c || c == b'-'

-- [a-z0-9-]{0,n}[a-z0-9]$
unfoldable pub ends_label : ℕ → Text → Bool
unfolding is_lower_alnum is_label_char
ends_label n [] = false
ends_label n (c ∷ []) = is_lower_alnum c
ends_label zero (c ∷ d ∷ s) = false
ends_label (suc n) (c ∷ d ∷ s) = is_label_char c && ends_label n (d ∷ s)

-- ^[a-z0-9]([a-z0-9-]{0,61}[a-z0-9])?$
unfoldable pub is_dns1123_label : Text → Bool
unfolding ends_label is_lower_alnum
is_dns1123_label [] = false
is_dns1123_label (c ∷ []) = is_lower_alnum c
is_dns1123_label (c ∷ d ∷ s) = is_lower_alnum c && ends_label 61 (d ∷ s)

-- [A-Z_]
unfoldable pub starts_env_key : ℕ → Bool
starts_env_key c = within b'A' b'Z' c || c == b'_'

-- [A-Z0-9_]
unfoldable pub is_env_char : ℕ → Bool
unfolding starts_env_key
is_env_char c = starts_env_key c || within b'0' b'9' c

-- ^[A-Z_][A-Z0-9_]*$
unfoldable pub is_env_key : Text → Bool
unfolding starts_env_key is_env_char
is_env_key [] = false
is_env_key (c ∷ s) = starts_env_key c && all is_env_char s

abbrev pub reserved_context_names : List Text
reserved_context_names = codes "AGENT" ∷ codes "WORKSPACE" ∷ codes "MOUNTS" ∷ []

abbrev pub reserved_env_keys : List Text
reserved_env_keys =
    codes "PATH"
    ∷ codes "HOME"
    ∷ codes "XDG_CONFIG_HOME"
    ∷ codes "XDG_CACHE_HOME"
    ∷ codes "XDG_DATA_HOME"
    ∷ codes "TMPDIR"
    ∷ codes "LANG"
    ∷ codes "OTTERS_AGENT_ROOT"
    ∷ codes "OTTERSD_URL"
    ∷ codes "OTTERS_AGENT_TOKEN"
    ∷ []

-- A suffix of provider credentials.
unfoldable pub is_credential_key : Text → Bool
unfolding has_suffix
is_credential_key key = has_suffix key (codes "_API_KEY") || has_suffix key (codes "_API_BASE")
