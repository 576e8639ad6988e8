-- ===== src/System/Materialize/Files.antt =====
-- executor/system/workspace.go: where the files of an agent are.
use agentfile.Common.{ℕ, ◌≡◌, refl, true, [], ◌∷◌, ◌++◌, arith}
use agentfile.Common.Paths.{join}
use agentfile.Common.Paths.Plain.{
  is_plain, is_plain_path, split_slash-one, is_plain_path-append, is_plain_path-join,
}
use agentfile.Common.Texts.{Text, codes, text_eq}
use agentfile.Spec.Names.{is_path_safe_name, is_alnum}
use agentfile.Spec.Names.Shapes.{is_path_safe_name-IsFileName}
use agentfile.System.Workspace.{data_dir, usage_file}

is_path_safe_name-is_plain : (s : Text) → is_path_safe_name s ≡ true → is_plain s ≡ true
unfolding is_path_safe_name is_plain text_eq is_alnum
is_path_safe_name-is_plain [] h = ground arith
is_path_safe_name-is_plain (c ∷ s) h = ground arith

pub is_path_safe_name-is_plain_path :
    (s : Text) → is_path_safe_name s ≡ true → is_plain_path s ≡ true
unfolding is_plain_path
is_path_safe_name-is_plain_path s h =
    let safe = is_path_safe_name-IsFileName s h in
    rw (split_slash-one s safe.no_slash, is_path_safe_name-is_plain s h) refl

-- A file directly in a directory.
pub is_plain_path-file :
    (c : ℕ) (dir s : Text)
    → is_plain_path (c ∷ dir) ≡ true
    → is_path_safe_name s ≡ true
    → is_plain_path (join (c ∷ dir) s) ≡ true
is_plain_path-file c dir s h k = is_plain_path-join c dir s h (is_path_safe_name-is_plain_path s k)

pub is_plain_path-usage_dir :
    (s : Text)
    → is_path_safe_name s ≡ true
    → is_plain_path (join data_dir (codes "bins/" ++ s)) ≡ true
unfolding is_plain_path is_plain
is_plain_path-usage_dir s h =
    is_plain_path-join b'e' (codes "tc/data") (codes "bins/" ++ s) refl
      (is_plain_path-append (codes "bins") s refl (is_path_safe_name-is_plain_path s h))

pub is_plain_path-usage_file :
    (s : Text) → is_path_safe_name s ≡ true → is_plain_path (usage_file s) ≡ true
unfolding is_plain_path is_plain
is_plain_path-usage_file s h =
    is_plain_path-join b'e' (codes "tc/data") (codes "bins/" ++ (s ++ codes "/USAGE.md")) refl (
      is_plain_path-append (codes "bins") (s ++ codes "/USAGE.md") refl
        (is_plain_path-append s (codes "USAGE.md") (is_path_safe_name-is_plain_path s h) refl))
