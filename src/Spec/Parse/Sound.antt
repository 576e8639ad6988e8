-- ===== src/Spec/Parse/Sound.antt =====
-- spec/parse.go: what a parsed agentfile satisfies.
use agentfile.Common.{
  ℕ, ◌+◌, ◌≡◌, refl, ◌∙◌, ◌⊎◌, inl, inr, Bool, false, Option, some, List, [], ◌∷◌, arith,
  if◌then◌else◌, Bool-cases,
}
use agentfile.Common.Lists.{length}
use agentfile.Common.Results.{ok, >>=-eq-ok}
use agentfile.Common.Sets.{Distinct, Distinct-concat}
use agentfile.Common.Texts.{Text, codes, is_empty, mem, text_eq_iff, trim_prefix}
use agentfile.Spec.Contexts.{names_of, upsert_context-Distinct}
use agentfile.Spec.Instruction.{Instruction, arg, capability, context, Externals}
use agentfile.Spec.Types.{Agent, Agentfile}
use agentfile.Spec.Validate.Rules.{Rules}
use agentfile.Spec.Parse.Apply.{add_capability, add_capabilities, apply_instruction}
use agentfile.Spec.Parse.Advance.{loop_keeps}
use agentfile.Spec.Parse.Built.{accept-ok, finish-ok}
use agentfile.Spec.Parse.{
  Parser, handle_comment, accept, finish, start, parse, parse_loop, default_syntax,
  supported_syntaxes,
}

-- What merging by key gives an agent: no context name and no capability twice.
pub record IsKeyed (a : Agent) : Type 0 where
  pub contexts : Distinct (names_of a.contexts)
  pub capabilities : Distinct a.capabilities

add_capability-Distinct :
    (n : Text) (caps : List Text) → Distinct caps → Distinct (add_capability n caps)
unfolding add_capability
add_capability-Distinct n caps d = ground (arith, Distinct-concat caps n)

add_capabilities-Distinct :
    (ns caps : List Text) → Distinct caps → Distinct (add_capabilities ns caps)
unfolding add_capabilities
add_capabilities-Distinct [] caps d = d
add_capabilities-Distinct (n ∷ ns) caps d =
    add_capabilities-Distinct ns (add_capability n caps) (add_capability-Distinct n caps d)

-- Every instruction keeps the keys apart.
apply_instruction-IsKeyed :
    (pf : Text → Option ℕ) (a : Agent) (i : Instruction) (h : Text)
    → IsKeyed a
    → IsKeyed (apply_instruction pf a i h)
unfolding apply_instruction
apply_instruction-IsKeyed pf a (context c) h k = record {
  contexts = upsert_context-Distinct _ a.contexts k.contexts;
  capabilities = k.capabilities;
}
apply_instruction-IsKeyed pf a (capability ns) h k = record {
  contexts = k.contexts;
  capabilities = add_capabilities-Distinct ns a.capabilities k.capabilities;
}
apply_instruction-IsKeyed pf a (arg i) h k = ground arith
apply_instruction-IsKeyed pf a _ h k = record {
  contexts = k.contexts;
  capabilities = k.capabilities;
}

-- The invariant of the loop.
record Inv (p : Parser) : Type 0 where
  keyed : IsKeyed p.agent
  syntax : (p.syntax ≡ []) ⊎ (p.syntax ≡ default_syntax)

comment-Inv : (p q : Parser) (t : Text) → handle_comment p t ≡ ok q → Inv p → Inv q
unfolding handle_comment
comment-Inv p q t e v =
    let chosen = trim_prefix t (codes "# syntax=") in
    elim (Bool-cases (mem chosen supported_syntaxes)) [
      | inr other ↦ let same : p ≡ q = ground arith in rw (← same) v
      | inl known ↦ record {
        keyed = let same : p.agent ≡ q.agent = ground arith in rw (← same) v.keyed;
        syntax = ground (arith, text_eq_iff chosen default_syntax, v.syntax);
      }
    ]

accept-Inv :
    (ext : Externals) (p q : Parser) (i : Instruction) (h : Text)
    → accept ext p i h ≡ ok q
    → Inv p
    → Inv q
accept-Inv ext p q i h e v =
    let (once, c, f) = accept-ok ext p q i h e in
    rw f (record {
      keyed = apply_instruction-IsKeyed ext.parse_float p.agent i h v.keyed;
      syntax = v.syntax;
    })

line-Inv : (p : Parser) (n : ℕ) → Inv p → Inv (record p { line = n })
line-Inv p n v = record { keyed = v.keyed; syntax = v.syntax }

start-Inv : Inv start
unfolding start
start-Inv = record { keyed = record { contexts = tt; capabilities = tt }; syntax = inl refl }

supported :
    (s : Text)
    → (s ≡ []) ⊎ (s ≡ default_syntax)
    → (if is_empty s then default_syntax else s) ≡ default_syntax
supported [] h = refl
supported (c ∷ s) (inl e) = absurd (ground arith)
supported (c ∷ s) (inr e) = e

-- A parsed agentfile has an agent that obeys the rules of Validate, in which no context name and no
-- capability stands twice; its syntax is the one that is supported; and the input was read to its end
-- without an error.
pub parse_sound :
    (ext : Externals) (lines : List Text) (failed : Bool) (af : Agentfile)
    → parse ext lines failed ≡ ok af
    → (a : Agent) × (af.agent ≡ some a)
      × Rules a
      × IsKeyed a
      × (af.syntax ≡ default_syntax)
      × (failed ≡ false)
unfolding parse
parse_sound ext lines failed af e =
    let (p, l, f) = >>=-eq-ok (parse_loop ext (length lines + 1) start lines) (finish failed) e in
    let v =
      loop_keeps ext Inv line-Inv comment-Inv (accept-Inv ext) (length lines + 1) start lines p l
        start-Inv in
    let (fine, a, s, first, rules) = finish-ok failed p af f in
    (p.agent, a, rules, v.keyed, s ∙ supported p.syntax v.syntax, fine)
