-- ===== src/Spec/Parse/Sequence.antt =====
-- spec/parse.go: the sequence of instructions that a parsed file consists of.
use mathlib.Core.Path.{subst}
use mathlib.Core.List.{append_assoc, append-nil}
use agentfile.Common.{
  ℕ, zero, suc, ◌+◌, ◌≡◌, ◌∙◌, sym, ap, Bool, none, some, List, [], ◌∷◌, ◌++◌, arith,
}
use agentfile.Common.Lists.{length, All}
use agentfile.Common.Results.{ok, >>=-eq-ok}
use agentfile.Common.Texts.{Text}
use agentfile.Spec.Instruction.{from, Externals}
use agentfile.Spec.Types.{Agent, Agentfile}
use agentfile.Spec.Parse.Apply.{apply_instruction, new_agent}
use agentfile.Spec.Parse.Advance.{Advance, skip, comment, instruct, step-Advance}
use agentfile.Spec.Parse.Yields.{Yields, done, blank, remark, instruction}
use agentfile.Spec.Parse.{
  Parser, grammar_input, handle_comment, clash, finish, start, step, parse, parse_loop,
}
use agentfile.Spec.Parse.Built.{
  Entry, apply_all, from_count, Built, accept-ok, accepted-Built, comment-ok, start-Built,
  finish-ok, from_first,
}

module _ (ext : Externals) where
  abbrev line_at : Parser → ℕ → Parser
  line_at p n = record p { line = n }

  line-Built : (p : Parser) (n : ℕ) (es : List Entry) → Built ext p es → Built ext (line_at p n) es
  line-Built p n es b = record {
    agent = b.agent;
    seen = b.seen;
    first = b.first;
    once = b.once;
    no_clash = b.no_clash;
  }

  comment-Built :
      (p q : Parser) (t : Text) (es : List Entry)
      → handle_comment p t ≡ ok q
      → Built ext p es
      → Built ext q es
  comment-Built p q t es e b =
      let (agent, line, seen, first) = comment-ok p q t e in
      record {
        agent = agent ∙ b.agent;
        seen = seen ∙ b.seen;
        first = first ∙ b.first;
        once = b.once;
        no_clash = b.no_clash;
      }

  -- What the loop reads, and the state behind it.
  abbrev Reads : Parser → List Text → List Entry → Parser → Type 0
  Reads p lines prior q =
      (es : List Entry) × Yields ext p.agent p.line lines es × Built ext q (prior ++ es)

  round-Reads :
      (p r q : Parser) (text : Text) (rest later : List Text) (prior : List Entry)
      → Advance ext (line_at p (p.line + 1)) text rest r later
      → Built ext p prior
      → ((next : List Entry) → Built ext r next → Reads r later next q)
      → Reads p (text ∷ rest) prior q
  unfolding grammar_input
  round-Reads p r q text rest later prior (skip e f empty) b more =
      let (es, y, built) = more prior (rw e (line-Built p (p.line + 1) prior b)) in
      (
        es,
        blank empty (
            subst (λ (l : List Text). Yields ext p.agent (p.line + 1) l es) f
              (subst (λ (k : Parser). Yields ext k.agent k.line later es) e y)),
        built,
      )
  round-Reads p r q text rest later prior (comment t e f hash) b more =
      let p' = line_at p (p.line + 1) in
      let (agent, line, seen, first) = comment-ok p' r t e in
      let (es, y, built) =
        more prior (comment-Built p' r t prior e (line-Built p (p.line + 1) prior b)) in
      (
        es,
        remark hash (
            subst (λ (l : List Text). Yields ext p.agent (p.line + 1) l es) f
              (subst (λ (n : ℕ). Yields ext p.agent n later es) line
                (subst (λ (k : Agent). Yields ext k r.line later es) agent y))),
        built,
      )
  round-Reads p r q text rest later prior (instruct x i e a f full no_hash parsed) b more =
      let p' = line_at p x.at in
      let (once, c, g) = accept-ok ext p' r i x.heredoc a in
      let next = prior ++ (i, x.heredoc) ∷ [] in
      let (es, y, built) =
        more next
          (rw g (accepted-Built ext p' i x.heredoc prior once c (line-Built p x.at prior b))) in
      (
        (i, x.heredoc) ∷ es,
        instruction full no_hash e parsed (
            subst
              (λ (l : List Text).
                Yields ext (apply_instruction ext.parse_float p.agent i x.heredoc) x.at l es)
              f (subst (λ (k : Parser). Yields ext k.agent k.line later es) g y)),
        subst (Built ext q) (append_assoc prior ((i, x.heredoc) ∷ []) es) built,
      )

  loop-Reads :
      (fuel : ℕ) (p : Parser) (lines : List Text) (q : Parser) (prior : List Entry)
      → parse_loop ext fuel p lines ≡ ok q
      → Built ext p prior
      → Reads p lines prior q
  unfolding parse_loop
  loop-Reads zero p lines q prior e b = cc
  loop-Reads (suc fuel) p [] q prior e b =
      let same : p ≡ q = ground arith in
      ([], done, subst (Built ext q) (sym (append-nil prior)) (rw (← same) b))
  loop-Reads (suc fuel) p (text ∷ rest) q prior e b =
      let ((r, later), s, f) =
        >>=-eq-ok (step ext (line_at p (p.line + 1)) text rest) (λ m. parse_loop ext fuel m.0 m.1)
          e in
      round-Reads p r q text rest later prior
        (step-Advance ext (line_at p (p.line + 1)) text rest r later s) b
        (λ next k. loop-Reads fuel r later q next f k)

-- An agentfile that parses is what the instructions that its lines hold, each as the grammar reads it at its line and
-- with its heredoc, in their order and none left out, make of an empty agent one after the other; the first of them is
-- FROM and no other is; no CONTEXT among them has both a file and a heredoc that is not empty.
pub parse-sequence :
    (ext : Externals) (lines : List Text) (failed : Bool) (af : Agentfile)
    → parse ext lines failed ≡ ok af
    → (r : Text) × (h : Text) × (es : List Entry) × Yields ext new_agent 0 lines ((from r, h) ∷ es)
      × (af.agent ≡ some (apply_all ext new_agent ((from r, h) ∷ es)))
      × (from_count es ≡ 0)
      × All (λ (e : Entry). clash e.0 e.1 ≡ none) es
unfolding parse start
parse-sequence ext lines failed af e =
    let (p, l, f) = >>=-eq-ok (parse_loop ext (length lines + 1) start lines) (finish failed) e in
    let (es, y, b) = loop-Reads ext (length lines + 1) start lines p [] l (start-Built ext) in
    let (fine, a, s, first, rules) = finish-ok failed p af f in
    let (r, h, fs, split, none_later) = from_first ext p es b first rules.from in
    (
      r,
      h,
      fs,
      subst (Yields ext new_agent 0 lines) split y,
      a ∙ ap some (b.agent ∙ ap (apply_all ext new_agent) split),
      none_later,
      (subst (λ xs. All (λ (e : Entry). clash e.0 e.1 ≡ none) xs) split b.no_clash).1,
    )
