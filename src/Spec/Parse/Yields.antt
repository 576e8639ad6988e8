-- ===== src/Spec/Parse/Yields.antt =====
-- spec/parse.go: which instructions, with their heredocs, the lines of a file hold.
use agentfile.Common.{ℕ, ◌+◌, ◌≡◌, true, false, List, [], ◌∷◌}
use agentfile.Common.Results.{ok}
use agentfile.Common.Strings.{trim_space}
use agentfile.Common.Texts.{Text, codes, is_empty, has_prefix}
use agentfile.Spec.Instruction.{Instruction, Externals}
use agentfile.Spec.Parse.{Extracted, extract_heredoc}
use agentfile.Spec.Parse.Apply.{apply_instruction}
use agentfile.Spec.Parse.Lines.{expand_args, normalize_keyword}
use agentfile.Spec.Types.{Agent}

-- Behind `n` lines that have made the agent, the lines hold these instructions and no other: a blank line and a
-- comment hold none, and any other line is taken, with its heredoc off and the arguments so far put in, for what
-- the grammar makes of it.
pub data Yields (ext : Externals) : Agent → ℕ → List Text → List (Instruction × Text) → Type 0 where
  done : {a : Agent} {n : ℕ} → Yields ext a n [] []
  blank :
      {a : Agent} {n : ℕ} {text : Text} {rest : List Text} {es : List (Instruction × Text)}
      → is_empty (trim_space text) ≡ true
      → Yields ext a (n + 1) rest es
      → Yields ext a n (text ∷ rest) es
  remark :
      {a : Agent} {n : ℕ} {text : Text} {rest : List Text} {es : List (Instruction × Text)}
      → has_prefix (trim_space text) (codes "#") ≡ true
      → Yields ext a (n + 1) rest es
      → Yields ext a n (text ∷ rest) es
  instruction :
      {a : Agent} {n : ℕ} {text : Text} {rest : List Text} {es : List (Instruction × Text)}
      {x : Extracted} {i : Instruction}
      → is_empty (trim_space text) ≡ false
      → has_prefix (trim_space text) (codes "#") ≡ false
      → extract_heredoc (trim_space text) rest (n + 1) ≡ ok x
      → ext.parse_string (normalize_keyword ext.upper (expand_args (ext.range x.at a.args) x.line))
        ≡ ok i
      → Yields ext (apply_instruction ext.parse_float a i x.heredoc) x.at x.rest es
      → Yields ext a n (text ∷ rest) ((i, x.heredoc) ∷ es)
