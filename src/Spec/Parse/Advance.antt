-- ===== src/Spec/Parse/Advance.antt =====
-- What one round of the parser's loop did, if it went through.
use agentfile.Common.{
  ℕ, zero, suc, ◌+◌, ◌≡◌, refl, true, false, ◌&&◌, List, [], ◌∷◌, arith, ◌==◌, Bool-cases, inl, inr,
}
use agentfile.Common.Results.{Result, ok, err, ◌>>=◌, >>=-eq-ok}
use agentfile.Common.Strings.{trim_space}
use agentfile.Common.Texts.{Text, codes, is_empty, has_prefix}
use agentfile.Spec.Instruction.{Instruction, Externals}
use agentfile.Spec.Parse.{
  Parser, Extracted, extract_heredoc, handle_comment, accept, grammar_input, on_parsed,
  instruction_line, comment_step, instruction_step, step, parse_loop,
}

pub data Advance (ext : Externals) (p : Parser) (text : Text) (rest : List Text) (q : Parser)
    (later : List Text) : Type 0 where
  skip : q ≡ p → later ≡ rest → is_empty (trim_space text) ≡ true → Advance ext p text rest q later
  comment :
      (t : Text)
      → handle_comment p t ≡ ok q
      → later ≡ rest
      → has_prefix (trim_space text) (codes "#") ≡ true
      → Advance ext p text rest q later
  instruct :
      (x : Extracted) (inst : Instruction)
      → extract_heredoc (trim_space text) rest p.line ≡ ok x
      → accept ext (record p { line = x.at }) inst x.heredoc ≡ ok q
      → later ≡ x.rest
      → is_empty (trim_space text) ≡ false
      → has_prefix (trim_space text) (codes "#") ≡ false
      → ext.parse_string (grammar_input ext p x) ≡ ok inst
      → Advance ext p text rest q later

instruction_line-ok :
    (ext : Externals) (p : Parser) (x : Extracted) (q : Parser) (r : Result Text Instruction)
    → on_parsed ext p x r ≡ ok q
    → (inst : Instruction) × (accept ext (record p { line = x.at }) inst x.heredoc ≡ ok q)
      × (r ≡ ok inst)
unfolding on_parsed
instruction_line-ok ext p x q (ok inst) e = (inst, e, refl)
instruction_line-ok ext p x q (err why) e = cc

comment-Advance :
    (ext : Externals) (p : Parser) (text t : Text) (rest : List Text) (q : Parser)
    (later : List Text)
    → has_prefix (trim_space text) (codes "#") ≡ true
    → comment_step p t rest ≡ ok (q, later)
    → Advance ext p text rest q later
unfolding comment_step
comment-Advance ext p text t rest q later hash e =
    let (r, h, f) = >>=-eq-ok (handle_comment p t) (λ r. ok (r, rest)) e in
    comment t (ground arith) (ground arith) hash

instruction-Advance :
    (ext : Externals) (p : Parser) (text : Text) (rest : List Text) (q : Parser) (later : List Text)
    → is_empty (trim_space text) ≡ false
    → has_prefix (trim_space text) (codes "#") ≡ false
    → instruction_step ext p (trim_space text) rest ≡ ok (q, later)
    → Advance ext p text rest q later
unfolding instruction_step instruction_line
instruction-Advance ext p text rest q later full no_hash e =
    let (x, hx, f) =
      >>=-eq-ok (extract_heredoc (trim_space text) rest p.line)
        (λ x. instruction_line ext p x >>= λ r. ok (r, x.rest)) e in
    let (r, hr, g) = >>=-eq-ok (instruction_line ext p x) (λ r. ok (r, x.rest)) f in
    let (inst, a, parsed) =
      instruction_line-ok ext p x r (ext.parse_string (grammar_input ext p x)) hr in
    instruct x inst hx (ground arith) (ground arith) full no_hash parsed

pub step-Advance :
    (ext : Externals) (p : Parser) (text : Text) (rest : List Text) (q : Parser) (later : List Text)
    → step ext p text rest ≡ ok (q, later)
    → Advance ext p text rest q later
unfolding step
step-Advance ext p text rest q later e =
    elim (Bool-cases (p.line == 1 && has_prefix text (0xfeff ∷ []))) [
      | inl bom ↦ absurd (ground arith)
      | inr fine ↦ elim (Bool-cases (is_empty (trim_space text))) [
        | inl empty ↦ skip (ground arith) (ground arith) empty
        | inr full ↦ elim (Bool-cases (has_prefix (trim_space text) (codes "#"))) [
          | inl hash ↦ comment-Advance ext p text (trim_space text) rest q later hash (ground arith)
          | inr no_hash ↦ instruction-Advance ext p text rest q later full no_hash (ground arith)
        ]
      ]
    ]

-- An invariant of the parser's state holds behind the loop if counting lines, a comment and an
-- accepted instruction keep it.
module _ (ext : Externals) (P : Parser → Type 0)
    (at_line : (p : Parser) (n : ℕ) → P p → P (record p { line = n }))
    (at_comment : (p q : Parser) (t : Text) → handle_comment p t ≡ ok q → P p → P q)
    (at_accept : (p q : Parser) (inst : Instruction) (h : Text)
      → accept ext p inst h ≡ ok q
      → P p
      → P q) where
  round_keeps :
      (p : Parser) (text : Text) (rest : List Text) (q : Parser) (later : List Text)
      → Advance ext p text rest q later
      → P p
      → P q
  round_keeps p text rest q later (skip e f b) h = rw e h
  round_keeps p text rest q later (comment t e f b) h = at_comment p q t e h
  round_keeps p text rest q later (instruct x inst e a f b c d) h =
      at_accept (record p { line = x.at }) q inst x.heredoc a (at_line p x.at h)

  pub loop_keeps :
      (fuel : ℕ) (p : Parser) (lines : List Text) (q : Parser)
      → parse_loop ext fuel p lines ≡ ok q
      → P p
      → P q
  unfolding parse_loop
  loop_keeps zero p lines q e h = cc
  loop_keeps (suc fuel) p [] q e h = let same : p ≡ q = ground arith in rw (← same) h
  loop_keeps (suc fuel) p (text ∷ rest) q e h =
      let p' : Parser = record p { line = p.line + 1 } in
      let ((r, later), s, f) =
        >>=-eq-ok (step ext p' text rest) (λ m. parse_loop ext fuel m.0 m.1) e in
      loop_keeps fuel r later q f (
        round_keeps p' text rest r later (step-Advance ext p' text rest r later s)
          (at_line p (p.line + 1) h))
