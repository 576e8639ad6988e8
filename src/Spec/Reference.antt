-- ===== src/Spec/Reference.antt =====
-- spec/reference.go: OCI references, `name` or `name:tag`.
pub mod RoundTrip
pub mod Qualify
use mathlib.Core.Option
use agentfile.Common.{ℕ, ◌+◌, Bool, ◌||◌, Option, none, some, ◌∷◌, ◌++◌, ltb, if◌then◌else◌}
use agentfile.Common.Lists.{take, drop}
use agentfile.Common.Texts.{Text, codes, text_eq, is_empty, contains, index, last_index}

abbrev pub default_tag : Text
default_tag = codes "latest"

pub record Reference : Type 0 where
  pub name : Text
  pub tag : Text

-- `tag_part` starts at `offset` in `s`; a colon at its first place separates nothing.
split_tag : Text → Text → ℕ → Reference
unfolding last_index
split_tag s tag_part offset = elim (last_index b':' tag_part) [
  | none ↦ record { name = s; tag = default_tag }
  | some idx ↦
      if ltb 0 idx
      then record { name = take (idx + offset) s; tag = drop (idx + offset + 1) s }
      else record { name = s; tag = default_tag }
]

unfoldable pub parse_reference : Text → Reference
unfolding split_tag last_index
parse_reference s = elim (last_index b'/' s) [
  | none ↦ split_tag s s 0
  | some last_slash ↦ split_tag s (drop last_slash s) last_slash
]

-- Reference.String
unfoldable pub to_string : Reference → Text
to_string r = r.name ++ (b':' ∷ (if is_empty r.tag then default_tag else r.tag))

-- `first` of IsQualified: the name up to its first slash
unfoldable pub first_segment : Text → Text
unfolding index
first_segment name = elim (index b'/' name) [ none ↦ name | some i ↦ take i name ]

unfoldable pub is_host : Text → Bool
unfolding contains text_eq
is_host first = text_eq first (codes "localhost") || (contains b'.' first || contains b':' first)

unfoldable pub is_qualified : Text → Bool
unfolding parse_reference first_segment is_host
is_qualified name = is_host (first_segment (parse_reference name).name)

unfoldable pub qualify_with_default : Reference → Text → Reference
unfolding is_qualified
qualify_with_default ref default_registry =
    if is_empty default_registry || is_qualified ref.name
    then ref
    else record { name = default_registry ++ (b'/' ∷ ref.name); tag = ref.tag }
