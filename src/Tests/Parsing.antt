-- ===== src/Tests/Parsing.antt =====
-- The parser, over a grammar that knows FROM and RUNTIME lines and capabilities.
use agentfile.Common.{◌≡◌, refl, ◌⊎◌, ◌≢◌, true, false, none, some, List, [], ◌∷◌, if◌then◌else◌}
use agentfile.Common.Lists.{All}
use agentfile.Common.Results.{Result, ok, err}
use agentfile.Common.Strings.{trim_space}
use agentfile.Common.Texts.{Text, codes, text_eq, has_prefix, trim_prefix}
use agentfile.Spec.Instruction.{Instruction, instruction_type, from, runtime, capability, Externals}
use agentfile.Spec.Parse.Apply.{apply_instruction, new_agent}
use agentfile.Spec.Parse.Lines.{Heredoc, heredoc_marker, read_heredoc, normalize_keyword}
use agentfile.Spec.Parse.Lines.Heredocs.{IsHeredoc, closes, read_heredoc_lem}
use agentfile.Spec.Parse.Yields.{Yields}
use agentfile.Spec.Parse.Built.{Entry, apply_all, from_count}
use agentfile.Spec.Parse.Sequence.{parse-sequence}
use agentfile.Spec.Parse.Sound.{IsKeyed, parse_sound}
use agentfile.Spec.Parse.Total.{parse-ne-out_of_fuel}
use agentfile.Spec.Parse.{
  out_of_fuel, default_syntax, is_from, clash, accept, grammar_input, on_parsed, instruction_line,
  comment_step, instruction_step, step, extract_heredoc, handle_comment, parse_loop, finish, start,
  parse,
}
use agentfile.Spec.Types.{Agent, Agentfile}
use agentfile.Spec.Validate.{validate}
use agentfile.Spec.Validate.Rules.{Rules}
use agentfile.Tests.Samples.{empty_agent, file}

-- The grammar: each keyword with what it makes of the rest of the line.
unfoldable keyed : List (Text × (Text → Instruction)) → Text → Result Text Instruction
keyed [] s = err (codes "unknown instruction")
keyed ((k, f) ∷ ks) s = if has_prefix s k then ok (f (trim_prefix s k)) else keyed ks s

abbrev externals : Externals
unfolding keyed
externals = record {
  upper = λ c. c;
  parse_float = λ s. none;
  parse_string = keyed (
      (codes "FROM ", from)
      ∷ (codes "RUNTIME ", runtime)
      ∷ (codes "CAPABILITY ", λ n. capability (n ∷ []))
      ∷ []);
  range = λ n args. args;
}

abbrev lines : List Text
lines =
    codes "# syntax=openotters/agentfile:1"
    ∷ codes "from scratch"
    ∷ []
    ∷ codes "  CAPABILITY job-wait"
    ∷ codes "CAPABILITY job-wait"
    ∷ []

abbrev parsed : Agentfile
parsed = file (record empty_agent { from = codes "scratch"; capabilities = codes "job-wait" ∷ [] })

parses : parse externals lines false ≡ ok parsed
unfolding parse start step parse_loop finish comment_step handle_comment instruction_step
    extract_heredoc instruction_line on_parsed accept is_from clash apply_instruction has_prefix
    text_eq trim_space heredoc_marker grammar_input instruction_type validate trim_prefix keyed
    new_agent
parses = refl

parse-ne-out_of_fuel_example : parse externals lines true ≢ err out_of_fuel
parse-ne-out_of_fuel_example = parse-ne-out_of_fuel externals lines true

parse-sequence_example :
    (r : Text) × (h : Text) × (es : List Entry) × Yields externals new_agent 0 lines
      ((from r, h) ∷ es)
    × (parsed.agent ≡ some (apply_all externals new_agent ((from r, h) ∷ es)))
    × (from_count es ≡ 0)
    × All (λ (e : Entry). clash e.0 e.1 ≡ none) es
parse-sequence_example = parse-sequence externals lines false parsed parses

parse_sound_example :
    (a : Agent) × (parsed.agent ≡ some a)
    × Rules a
    × IsKeyed a
    × (parsed.syntax ≡ default_syntax)
    × (false ≡ false)
parse_sound_example = parse_sound externals lines false parsed parses

-- The lines of a heredoc, the marker's line and one more.
abbrev heredoc_lines : List Text
heredoc_lines = codes "  You are" ∷ [] ∷ codes "  EOF " ∷ codes "NAME x" ∷ []

read_heredoc_lem_example :
    ((h : Heredoc) × (read_heredoc (codes "EOF") heredoc_lines 3 [] ≡ some h)
      × IsHeredoc (codes "EOF") heredoc_lines 3 h)
    ⊎ ((read_heredoc (codes "EOF") heredoc_lines 3 [] ≡ none)
        × All (λ l. closes (codes "EOF") l ≡ false) heredoc_lines)
read_heredoc_lem_example = read_heredoc_lem (codes "EOF") heredoc_lines 3

reads_heredoc :
    read_heredoc (codes "EOF") heredoc_lines 3 []
    ≡ some (record { content = codes "  You are"; rest = codes "NAME x" ∷ []; at = 6 })
unfolding read_heredoc text_eq
reads_heredoc = refl

-- The argument of an EXEC without a blank changes case.
exec_upper : normalize_keyword (λ c. c) (codes "EXEC[\"serve\"]") ≡ codes "EXEC[\"SERVE\"]"
unfolding normalize_keyword
exec_upper = refl
