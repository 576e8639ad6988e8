-- ===== src/Spec/Parse/Lines.antt =====
-- spec/parse.go: what happens to a line before the grammar reads it: heredocs, `${VAR}`
-- substitution and the case of the keyword.
pub mod Heredocs
pub mod Keyword
use agentfile.Common.{
  ℕ, ◌+◌, Bool, false, not, ◌&&◌, ◌||◌, Option, none, some, List, [], ◌∷◌, ◌++◌, ◌==◌,
  if◌then◌else◌,
}
use agentfile.Common.Lists.{take}
use agentfile.Common.Maps.{Assoc}
use agentfile.Common.Strings.{
  trim_space, trim_right, to_upper, contains_text, last_index_of, replace_all,
}
use agentfile.Common.Texts.{Text, codes, text_eq, is_empty, has_prefix, trim_prefix}

abbrev pub is_blank : ℕ → Bool
is_blank c = c == b' ' || c == b'\t'

-- The state of the loop of splitQuoted.
pub record Splitter : Type 0 where
  pub parts : List Text
  pub current : Text
  pub in_quote : Bool

-- if current.Len() > 0 { parts = append(parts, current.String()); current.Reset() }
unfoldable pub flush : Splitter → Splitter
flush s =
    if is_empty s.current then s else record s { parts = s.parts ++ s.current ∷ []; current = [] }

unfoldable pub split_step : Splitter → ℕ → Splitter
unfolding flush
split_step s c =
    if c == b'"'
    then record s { in_quote = not s.in_quote; current = s.current ++ c ∷ [] }
    else if is_blank c && not s.in_quote
    then flush s
    else record s { current = s.current ++ c ∷ [] }

unfoldable pub split_loop : Splitter → Text → List Text
unfolding split_step flush
split_loop s [] = (flush s).parts
split_loop s (c ∷ t) = split_loop (split_step s c) t

unfoldable pub split_quoted : Text → List Text
unfolding split_loop
split_quoted = split_loop (record { parts = []; current = []; in_quote = false })

-- parts[len(parts)-1], with `none` for no parts
unfoldable pub last_part : List Text → Option Text
last_part [] = none
last_part (p ∷ []) = some p
last_part (p ∷ q ∷ ps) = last_part (q ∷ ps)

-- The marker that a line announces, and the part of the line that announces it.
unfoldable pub heredoc_marker : Text → Option (Text × Text)
unfolding split_quoted last_part has_prefix trim_prefix
heredoc_marker line = elim (last_part (split_quoted line)) [
  | none ↦ none
  | some last ↦
      if has_prefix last (codes "<<")
      then (let marker = trim_prefix last (codes "<<") in
          if is_empty marker then none else some (marker, last))
      else none
]

-- line[:idx] without spaces at its ends, idx being the last place of `last` in the line
unfoldable pub before_last : Text → Text → Text
unfolding last_index_of trim_space
before_last line last = elim (last_index_of line last) [
  | none ↦ []
  | some idx ↦ trim_space (take idx line)
]

pub record Heredoc : Type 0 where
  pub content : Text
  pub rest : List Text
  pub at : ℕ

-- The loop over the lines behind the announcement: `n` is the number of the line read last and `b`
-- what was read; `none` if the lines end before the marker.
unfoldable pub read_heredoc : Text → List Text → ℕ → Text → Option Heredoc
unfolding trim_space trim_right text_eq
read_heredoc marker [] n b = none
read_heredoc marker (text ∷ rest) n b =
    let later = read_heredoc marker rest (n + 1) (b ++ (text ++ (b'\n' ∷ []))) in
    if text_eq (trim_space text) marker
    then some (record { content = trim_right (λ c. c == b'\n') b; rest = rest; at = n + 1 })
    else later

-- strings.ReplaceAll(s, "${"+k+"}", v) for the entries in the order of the range
unfoldable pub substitute : Assoc Text → Text → Text
unfolding replace_all
substitute [] s = s
substitute ((k, v) ∷ args) s = substitute args (replace_all s (codes "${" ++ (k ++ codes "}")) v)

unfoldable pub expand_args : Assoc Text → Text → Text
unfolding substitute contains_text
expand_args args s = if contains_text s (codes "${") then substitute args s else s

-- line[:i] and line[i:] at the first blank, or the line and nothing
unfoldable pub keyword : Text → Text
keyword [] = []
keyword (c ∷ s) = let rest = keyword s in if is_blank c then [] else c ∷ rest

unfoldable pub from_blank : Text → Text
from_blank [] = []
from_blank (c ∷ s) = let rest = from_blank s in if is_blank c then c ∷ s else rest

-- The characters before the first blank in upper case; all of them if there is no blank.
unfoldable pub normalize_keyword : (ℕ → ℕ) → Text → Text
unfolding to_upper keyword from_blank
normalize_keyword upper line = to_upper upper (keyword line) ++ from_blank line
