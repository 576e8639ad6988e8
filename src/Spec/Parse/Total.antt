-- ===== src/Spec/Parse/Total.antt =====
-- spec/parse.go: the rounds of the parser's loop.
use agentfile.Common.{
  ℕ, zero, suc, ◌+◌, ◌≤◌, ◌<◌, ◌≡◌, ◌≢◌, Bool, some, List, [], ◌∷◌, ◌++◌, arith, Option-cases, inl,
  inr,
}
use agentfile.Common.Lists.{length}
use agentfile.Common.Results.{Result, ok, err, ◌>>=◌, Result-cases, >>=-ne-err}
use agentfile.Common.Texts.{Text}
use agentfile.Spec.Instruction.{Instruction, Externals}
use agentfile.Spec.Parse.Lines.{Heredoc, read_heredoc, heredoc_marker}
use agentfile.Spec.Parse.Advance.{Advance, skip, comment, instruct, step-Advance}
use agentfile.Common.Strings.{trim_space}
use agentfile.Spec.Parse.{
  out_of_fuel, Parser, Extracted, extract_heredoc, handle_comment, accept, grammar_input, on_parsed,
  instruction_line, comment_step, instruction_step, step, parse_loop, start, finish, parse,
}

-- Lines are used up, never put back.
read_heredoc-rest :
    (marker : Text) (lines : List Text) (n : ℕ) (b : Text) (h : Heredoc)
    → read_heredoc marker lines n b ≡ some h
    → length h.rest ≤ length lines
unfolding read_heredoc
read_heredoc-rest marker [] n b h e = cc
read_heredoc-rest marker (t ∷ ts) n b h e =
    ground (arith, read_heredoc-rest marker ts (n + 1) (b ++ (t ++ (b'\n' ∷ []))) h)

extract_heredoc-rest :
    (line : Text) (rest : List Text) (n : ℕ) (x : Extracted)
    → extract_heredoc line rest n ≡ ok x
    → length x.rest ≤ length rest
unfolding extract_heredoc
extract_heredoc-rest line rest n x e = elim (Option-cases (heredoc_marker line)) [
  | inl f ↦ ground arith
  | inr ((marker, last), f) ↦ elim (Option-cases (read_heredoc marker rest n [])) [
    | inl g ↦ absurd (ground arith)
    | inr (h, g) ↦ ground (arith, read_heredoc-rest marker rest n [] h)
  ]
]

step-rest :
    (ext : Externals) (p : Parser) (text : Text) (rest : List Text) (q : Parser) (later : List Text)
    → Advance ext p text rest q later
    → length later ≤ length rest
step-rest ext p text rest q later (skip e f b) = rw f (omega arith)
step-rest ext p text rest q later (comment t e f b) = rw f (omega arith)
step-rest ext p text rest q later (instruct x inst e a f b c d) =
    rw f (extract_heredoc-rest (trim_space text) rest p.line x e)

-- No check of a round gives the error that the fuel gives.
handle_comment-ne : (p : Parser) (t : Text) → handle_comment p t ≢ err out_of_fuel
unfolding handle_comment
handle_comment-ne p t e = ground arith

accept-ne :
    (ext : Externals) (p : Parser) (inst : Instruction) (h : Text)
    → accept ext p inst h ≢ err out_of_fuel
unfolding accept
accept-ne ext p inst h e = ground arith

on_parsed-ne :
    (ext : Externals) (p : Parser) (x : Extracted) (r : Result Text Instruction)
    → on_parsed ext p x r ≢ err out_of_fuel
unfolding on_parsed
on_parsed-ne ext p x (err why) e = ground arith
on_parsed-ne ext p x (ok inst) e = accept-ne ext (record p { line = x.at }) inst x.heredoc e

extract_heredoc-ne :
    (line : Text) (rest : List Text) (n : ℕ) → extract_heredoc line rest n ≢ err out_of_fuel
unfolding extract_heredoc
extract_heredoc-ne line rest n e = ground arith

comment_step-ne :
    (p : Parser) (t : Text) (rest : List Text) → comment_step p t rest ≢ err out_of_fuel
unfolding comment_step
comment_step-ne p t rest =
    >>=-ne-err (handle_comment p t) (λ q. ok (q, rest)) (handle_comment-ne p t)
      (λ q e. ground arith)

instruction_step-ne :
    (ext : Externals) (p : Parser) (t : Text) (rest : List Text)
    → instruction_step ext p t rest ≢ err out_of_fuel
unfolding instruction_step instruction_line
instruction_step-ne ext p t rest =
    >>=-ne-err (extract_heredoc t rest p.line)
      (λ x. instruction_line ext p x >>= λ q. ok (q, x.rest)) (extract_heredoc-ne t rest p.line)
      λ x.
        >>=-ne-err (instruction_line ext p x) (λ q. ok (q, x.rest))
          (on_parsed-ne ext p x (ext.parse_string (grammar_input ext p x))) (λ q e. ground arith)

step-ne :
    (ext : Externals) (p : Parser) (text : Text) (rest : List Text)
    → step ext p text rest ≢ err out_of_fuel
unfolding step
step-ne ext p text rest e = ground (
  arith,
  comment_step-ne p (trim_space text) rest,
  instruction_step-ne ext p (trim_space text) rest,
)

parse_loop-ne :
    (ext : Externals) (fuel : ℕ) (p : Parser) (lines : List Text)
    → length lines < fuel
    → parse_loop ext fuel p lines ≢ err out_of_fuel
unfolding parse_loop
parse_loop-ne ext zero p lines h = absurd (omega arith)
parse_loop-ne ext (suc fuel) p [] h = λ e. ground arith
parse_loop-ne ext (suc fuel) p (text ∷ rest) h =
    elim (Result-cases (step ext (record p { line = p.line + 1 }) text rest)) [
      | inr (c, e) ↦
          rw (e, parse_loop)
            (λ x. step-ne ext (record p { line = p.line + 1 }) text rest (ground arith))
      | inl ((q, later), e) ↦
          let shorter : length later ≤ length rest =
            step-rest ext (record p { line = p.line + 1 }) text rest q later
              (step-Advance ext (record p { line = p.line + 1 }) text rest q later e) in
          rw (e, parse_loop) (parse_loop-ne ext fuel q later (omega arith))
    ]

finish-ne : (failed : Bool) (p : Parser) → finish failed p ≢ err out_of_fuel
unfolding finish
finish-ne failed p e = ground arith

-- The parser ends on every input, whatever the grammar's parser answers: the rounds that it is given,
-- one more than there are lines, are enough.
pub parse-ne-out_of_fuel :
    (ext : Externals) (lines : List Text) (failed : Bool) → parse ext lines failed ≢ err out_of_fuel
unfolding parse
parse-ne-out_of_fuel ext lines failed =
    >>=-ne-err (parse_loop ext (length lines + 1) start lines) (finish failed)
      (parse_loop-ne ext (length lines + 1) start lines (omega arith)) (finish-ne failed)
