-- ===== src/Common/Strings.antt =====
-- More of the package strings: trimming, upper case, and searches for a text in a text.
use Prim.Native.Nat.{ℕ, zero, suc, ◌-◌}
use mathlib.Core.Bool.{Bool, true, false, ◌&&◌, ◌||◌}
use mathlib.Core.Option.{Option, none, some}
use mathlib.Core.List.{[], ◌∷◌, ◌++◌, map}
use agentfile.Common.Tests.{leb, ltb, ◌==◌, if◌then◌else◌}
use agentfile.Common.Lists.{length}
use agentfile.Common.Texts.{Text, has_prefix}

-- unicode.IsSpace
unfoldable pub is_space : ℕ → Bool
is_space c =
    (leb 9 c && leb c 13)
    || c == 0x20
    || c == 0x85
    || c == 0xa0
    || c == 0x1680
    || (leb 0x2000 c && leb c 0x200a)
    || c == 0x2028
    || c == 0x2029
    || c == 0x202f
    || c == 0x205f
    || c == 0x3000

unfoldable pub trim_left : (ℕ → Bool) → Text → Text
trim_left p [] = []
trim_left p (c ∷ s) = let rest = trim_left p s in if p c then rest else c ∷ s

unfoldable pub trim_right : (ℕ → Bool) → Text → Text
trim_right p [] = []
trim_right p (c ∷ s) = elim (trim_right p s) [ [] ↦ if p c then [] else c ∷ [] | d ∷ t ↦ c ∷ d ∷ t ]

-- strings.TrimSpace
unfoldable pub trim_space : Text → Text
unfolding is_space trim_left trim_right
trim_space s = trim_right is_space (trim_left is_space s)

-- unicode.ToUpper, with its table past ASCII as an argument
unfoldable pub upper_char : (ℕ → ℕ) → ℕ → ℕ
upper_char unicode c =
    if ltb c 128 then (if leb b'a' c && leb c b'z' then c - 32 else c) else unicode c

-- strings.ToUpper
unfoldable pub to_upper : (ℕ → ℕ) → Text → Text
unfolding upper_char
to_upper unicode = map (upper_char unicode)

-- strings.Contains
unfoldable pub contains_text : Text → Text → Bool
unfolding has_prefix
contains_text [] p = has_prefix [] p
contains_text (c ∷ s) p = has_prefix (c ∷ s) p || contains_text s p

-- strings.LastIndex
unfoldable pub last_index_of : Text → Text → Option ℕ
unfolding has_prefix
last_index_of [] p = if has_prefix [] p then some 0 else none
last_index_of (c ∷ s) p = elim (last_index_of s p) [
  | some i ↦ some (suc i)
  | none ↦ if has_prefix (c ∷ s) p then some 0 else none
]

-- strings.ReplaceAll of a text that is not empty; `skip` characters belong to an occurrence that
-- has been replaced.
unfoldable pub replace_from : ℕ → Text → Text → Text → Text
unfolding has_prefix
replace_from skip [] old new = []
replace_from (suc skip) (c ∷ s) old new = replace_from skip s old new
replace_from zero (c ∷ s) old new = elim (has_prefix (c ∷ s) old) [
  | true ↦ new ++ replace_from (length old - 1) s old new
  | false ↦ c ∷ replace_from zero s old new
]

unfoldable pub replace_all : Text → Text → Text → Text
unfolding replace_from
replace_all = replace_from 0
