-- ===== src/System/Workspace/Mounts.antt =====
-- executor/system/workspace.go: the links for mounts and tools, with path/filepath's Rel and Dir.
pub mod Links
use agentfile.Common.{
  Bool, false, not, ◌||◌, Option, none, some, List, [], ◌∷◌, ◌==◌, if◌then◌else◌,
}
use mathlib.Core.List.{reverse, foldl}
use agentfile.Common.Paths.{join, split_slash, clean_step, join_slash}
use agentfile.Common.Texts.{Text, codes, text_eq, is_empty, has_prefix, trim_prefix}
use agentfile.System.Io.{
  Io, ◌>>=◌, ◌>>◌, raise, ignore, act, Effect, other, host_make_dir, host_remove, host_symlink,
}
use agentfile.Executor.Runtime.{HostMount}

abbrev pub is_rooted : Text → Bool
is_rooted [] = false
is_rooted (c ∷ p) = c == b'/'

-- The elements of a path once it is clean.
unfoldable pub segments : Text → List Text
unfolding split_slash clean_step
segments p = reverse (foldl (clean_step (is_rooted p)) [] (split_slash p))

-- One `..` for each element of the base that is left.
unfoldable pub climb : List Text → List Text → List Text
climb [] rest = rest
climb (s ∷ base) rest = codes ".." ∷ climb base rest

-- What is left of two paths when their common start is taken off.
unfoldable pub walk : List Text → List Text → Option (List Text)
unfolding text_eq climb
walk [] targ = some targ
walk (s ∷ base) [] = if text_eq s (codes "..") then none else some (climb (s ∷ base) [])
walk (s ∷ base) (t ∷ targ) =
    if text_eq s t
    then walk base targ
    else if text_eq s (codes "..")
    then none
    else some (climb (s ∷ base) (t ∷ targ))

unfoldable pub to_path : List Text → Text
unfolding join_slash
to_path [] = codes "."
to_path (s ∷ ss) = join_slash (s ∷ ss)

-- filepath.Rel, `none` for its error
unfoldable pub rel : Text → Text → Option Text
unfolding segments walk to_path
rel base targ =
    if (if is_rooted base then is_rooted targ else not (is_rooted targ))
    then elim (walk (segments base) (segments targ)) [ none ↦ none | some s ↦ some (to_path s) ]
    else none

-- The test of the relative path.
unfoldable pub escapes : Text → Bool
unfolding text_eq has_prefix
escapes within = text_eq within (codes "..") || has_prefix within (codes "../")

unfoldable pub mount_link_path : Text → Text → Option Text
unfolding trim_prefix join rel escapes
mount_link_path root target =
    if is_empty (trim_prefix target (codes "/"))
    then none
    else elim (rel root (join root (trim_prefix target (codes "/")))) [
      | none ↦ none
      | some within ↦
          if escapes within then none else some (join root (trim_prefix target (codes "/")))
    ]

unfoldable pub drop_last : List Text → List Text
drop_last [] = []
drop_last (s ∷ []) = []
drop_last (s ∷ t ∷ ts) = s ∷ drop_last (t ∷ ts)

-- filepath.Dir of a rooted path
unfoldable pub dir : Text → Text
unfolding segments drop_last join_slash
dir p = b'/' ∷ join_slash (drop_last (segments p))

module _ (fails : List Effect → Effect → Bool) where
  unfoldable pub link_mount : Text → HostMount → Io (Unit {0})
  unfolding mount_link_path dir act
  link_mount root m = elim (mount_link_path root m.target) [
    | none ↦ raise other
    | some link ↦ do
      act fails (host_make_dir (dir link))
      ignore (act fails (host_remove link))
      act fails (host_symlink m.host link)
  ]
