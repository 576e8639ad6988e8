-- ===== src/Spec/Parse/Values.antt =====
-- spec/parse.go: parseConfigValue, with strconv.ParseInt(s, 10, 64).
use agentfile.Common.{
  ℕ, ◌+◌, ◌-◌, ◌*◌, ◌^◌, true, false, Option, none, some, [], ◌∷◌, leb, ltb, ◌==◌, if◌then◌else◌,
}
use agentfile.Common.Int.{ℤ, pos, neg}
use agentfile.Common.Texts.{Text, codes, text_eq}
use agentfile.Spec.Names.{within}
use agentfile.Spec.Types.{ConfigValue, bool, int, float, str}

-- The number that digits stand for, read on from `acc`.
unfoldable pub digits_value : ℕ → Text → Option ℕ
digits_value acc [] = some acc
digits_value acc (c ∷ s) =
    let rest = digits_value (acc * 10 + (c - b'0')) s in if within b'0' b'9' c then rest else none

unfoldable pub unsigned_value : Text → Option ℕ
unfolding digits_value
unsigned_value [] = none
unsigned_value (c ∷ s) = digits_value 0 (c ∷ s)

-- The range of int64.
unfoldable pub positive : Option ℕ → Option ℤ
positive none = none
positive (some n) = if ltb n (2 ^ 63) then some (pos n) else none

unfoldable pub negative : Option ℕ → Option ℤ
unfolding neg
negative none = none
negative (some n) = if leb n (2 ^ 63) then some (neg n) else none

unfoldable pub parse_int : Text → Option ℤ
unfolding unsigned_value positive negative
parse_int [] = none
parse_int (c ∷ s) =
    if c == b'+'
    then positive (unsigned_value s)
    else if c == b'-'
    then negative (unsigned_value s)
    else positive (unsigned_value (c ∷ s))

unfoldable pub parse_config_value : (Text → Option ℕ) → Text → ConfigValue
unfolding parse_int text_eq
parse_config_value parse_float s =
    if text_eq s (codes "true")
    then bool true
    else if text_eq s (codes "false")
    then bool false
    else elim (parse_int s) [
      | some n ↦ int n
      | none ↦ elim (parse_float s) [ some f ↦ float f | none ↦ str s ]
    ]
