-- ===== src/Spec/Parse.antt =====
-- spec/parse.go: the parser of Agentfiles. The outcome of the bufio.Scanner, the lines that it
-- yields and whether it ended by an error, is the input.
pub mod Values
pub mod Apply
pub mod Lines
pub mod Advance
pub mod Yields
pub mod Total
pub mod Built
pub mod Sequence
pub mod Sound
use agentfile.Common.{
  ℕ, zero, suc, ◌+◌, Bool, true, false, not, ◌&&◌, ◌||◌, Option, none, some, List, [], ◌∷◌, ◌==◌,
  if◌then◌else◌,
}
use agentfile.Common.Lists.{length}
use agentfile.Common.Results.{Result, ok, err, ◌>>=◌, ◌>>◌, reject_if}
use agentfile.Common.Strings.{trim_space}
use agentfile.Common.Texts.{Text, codes, text_eq, is_empty, mem, has_prefix, trim_prefix}
use agentfile.Spec.Instruction.{Instruction, from, context, instruction_type, Externals}
use agentfile.Spec.Parse.Apply.{apply_instruction, new_agent}
use agentfile.Spec.Parse.Lines.{
  heredoc_marker, before_last, read_heredoc, expand_args, normalize_keyword,
}
use agentfile.Spec.Types.{Agent, Agentfile}
use agentfile.Spec.Validate.{ValidateError, validate}

abbrev pub default_syntax : Text
default_syntax = codes "openotters/agentfile:1"

abbrev pub supported_syntaxes : List Text
supported_syntaxes = default_syntax ∷ []

-- The number is that of the line in the message.
pub data ParseError : Type 0 where
  byte_order_mark out_of_fuel reading from_not_first : ParseError
  syntax_not_first duplicate_from : ℕ → ParseError
  unsupported_syntax unterminated_heredoc bad_instruction file_and_heredoc : ℕ → Text → ParseError
  invalid : ValidateError → ParseError

-- `parser` and the Agentfile under construction
pub record Parser : Type 0 where
  pub line : ℕ
  pub first_instruction : Text
  pub from_seen : Bool
  pub syntax : Text
  pub agent : Agent

-- An instruction line without its heredoc, what the heredoc holds (nothing if there is none), and
-- where reading goes on.
pub record Extracted : Type 0 where
  pub line : Text
  pub heredoc : Text
  pub rest : List Text
  pub at : ℕ

-- The error of the last line if the lines end first.
unfoldable pub extract_heredoc : Text → List Text → ℕ → Result ParseError Extracted
extract_heredoc line rest n = elim (heredoc_marker line) [
  | none ↦ ok (record { line = line; heredoc = []; rest = rest; at = n })
  | some (marker, last) ↦ elim (read_heredoc marker rest n []) [
    | none ↦ err (unterminated_heredoc (n + length rest) marker)
    | some h ↦
        ok (record { line = before_last line last; heredoc = h.content; rest = h.rest; at = h.at })
  ]
]

unfoldable pub handle_comment : Parser → Text → Result ParseError Parser
unfolding has_prefix trim_prefix text_eq
handle_comment p trimmed =
    if has_prefix trimmed (codes "# syntax=")
    then (if p.line == 1
        then (let syntax = trim_prefix trimmed (codes "# syntax=") in
            if mem syntax supported_syntaxes
            then ok (record p { syntax = syntax })
            else err (unsupported_syntax p.line syntax))
        else err (syntax_not_first p.line))
    else ok p

unfoldable pub is_from : Instruction → Bool
is_from (from r) = true
is_from _ = false

-- A CONTEXT with a file and a heredoc that is not empty, and its name.
unfoldable pub clash : Instruction → Text → Option Text
clash (context i) heredoc = elim i.file [
  | none ↦ none
  | some f ↦ if is_empty heredoc then none else some i.name
]
clash _ heredoc = none

-- What follows the grammar's parser in the loop.
unfoldable pub accept : Externals → Parser → Instruction → Text → Result ParseError Parser
accept ext p inst heredoc =
    if is_from inst && p.from_seen then err (duplicate_from p.line) else elim (clash inst heredoc) [
      | some n ↦ err (file_and_heredoc p.line n)
      | none ↦ ok (record p {
        first_instruction =
            if is_empty p.first_instruction then instruction_type inst else p.first_instruction;
        from_seen = p.from_seen || is_from inst;
        agent = apply_instruction ext.parse_float p.agent inst heredoc;
      })
    ]

-- The text that the grammar's parser gets.
unfoldable pub grammar_input : Externals → Parser → Extracted → Text
unfolding expand_args normalize_keyword
grammar_input ext p x =
    normalize_keyword ext.upper (expand_args (ext.range x.at p.agent.args) x.line)

unfoldable pub on_parsed :
    Externals → Parser → Extracted → Result Text Instruction → Result ParseError Parser
on_parsed ext p x (err why) = err (bad_instruction x.at why)
on_parsed ext p x (ok inst) = accept ext (record p { line = x.at }) inst x.heredoc

unfoldable pub instruction_line : Externals → Parser → Extracted → Result ParseError Parser
instruction_line ext p x = on_parsed ext p x (ext.parse_string (grammar_input ext p x))

unfoldable pub comment_step : Parser → Text → List Text → Result ParseError (Parser × List Text)
comment_step p trimmed rest = do q ← handle_comment p trimmed; ok (q, rest)

unfoldable pub instruction_step :
    Externals → Parser → Text → List Text → Result ParseError (Parser × List Text)
instruction_step ext p trimmed rest = do
  x ← extract_heredoc trimmed rest p.line
  q ← instruction_line ext p x
  ok (q, x.rest)

-- The body of the loop on a line that is read, before the lines behind it; `p` counts that line.
unfoldable pub step : Externals → Parser → Text → List Text → Result ParseError (Parser × List Text)
step ext p text rest =
    if p.line == 1 && has_prefix text (0xfeff ∷ [])
    then err byte_order_mark
    else let trimmed = trim_space text in
      if is_empty trimmed
      then ok (p, rest)
      else if has_prefix trimmed (codes "#")
      then comment_step p trimmed rest
      else instruction_step ext p trimmed rest

-- for p.scanner.Scan()
unfoldable pub parse_loop : Externals → ℕ → Parser → List Text → Result ParseError Parser
parse_loop ext zero p lines = err out_of_fuel
parse_loop ext (suc fuel) p [] = ok p
parse_loop ext (suc fuel) p (text ∷ rest) = do
  (q, later) ← step ext (record p { line = p.line + 1 }) text rest
  parse_loop ext fuel q later

-- What follows the loop.
unfoldable pub finish : Bool → Parser → Result ParseError Agentfile
finish failed p = do
  reject_if failed reading
  reject_if (not (is_empty p.first_instruction) && not (text_eq p.first_instruction (codes "FROM")))
      from_not_first
  let syntax = if is_empty p.syntax then default_syntax else p.syntax
  let af : Agentfile = record { syntax = syntax; agent = some p.agent }
  elim (validate (some af)) [ err e ↦ err (invalid e) | ok _ ↦ ok af ]

unfoldable pub start : Parser
unfolding new_agent
start = record {
  line = 0;
  first_instruction = [];
  from_seen = false;
  syntax = [];
  agent = new_agent;
}

-- One round for each line, and one to see the end.
unfoldable pub parse : Externals → List Text → Bool → Result ParseError Agentfile
parse ext lines failed = do p ← parse_loop ext (length lines + 1) start lines; finish failed p
