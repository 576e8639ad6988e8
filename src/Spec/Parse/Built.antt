-- ===== src/Spec/Parse/Built.antt =====
-- spec/parse.go: the state of the parser behind the instructions that it took.
use agentfile.Common.{
  ℕ, ◌+◌, ◌≤◌, ◌≡◌, refl, ◌∙◌, sym, ap, ◌≢◌, Bool, false, not, ◌&&◌, ◌||◌, none, some, List, [],
  ◌∷◌, ◌++◌, arith, ltb, if◌then◌else◌, Bool-cases, Option-cases, inl, inr, ◌⊎◌,
}
use agentfile.Common.Lists.{All, All-append}
use agentfile.Common.Results.{ok, Result-cases}
use agentfile.Common.Texts.{Text, codes, text_eq, text_eq_iff, is_empty}
use agentfile.Spec.Instruction.{Instruction, from, instruction_type, Externals}
use agentfile.Spec.Types.{Agent, Agentfile}
use agentfile.Spec.Validate.{validate_agent, validate}
use agentfile.Spec.Validate.Rules.{Rules, validate_agent_iff}
use agentfile.Spec.Parse.Apply.{apply_instruction, new_agent}
use agentfile.Spec.Parse.{
  Parser, handle_comment, is_from, clash, accept, finish, start, default_syntax,
}

-- An instruction with its heredoc.
abbrev pub Entry : Type 0
Entry = Instruction × Text

-- The instructions, applied one after the other.
unfoldable pub apply_all : Externals → Agent → List Entry → Agent
unfolding apply_instruction
apply_all ext a [] = a
apply_all ext a ((i, h) ∷ es) = apply_all ext (apply_instruction ext.parse_float a i h) es

unfoldable pub from_count : List Entry → ℕ
unfolding is_from
from_count [] = 0
from_count ((i, h) ∷ es) = (if is_from i then 1 else 0) + from_count es

unfoldable pub first_type : List Entry → Text
unfolding instruction_type
first_type [] = []
first_type ((i, h) ∷ es) = instruction_type i

apply_all-append :
    (ext : Externals) (a : Agent) (es fs : List Entry)
    → apply_all ext a (es ++ fs) ≡ apply_all ext (apply_all ext a es) fs
unfolding apply_all
apply_all-append ext a [] fs = refl
apply_all-append ext a ((i, h) ∷ es) fs =
    apply_all-append ext (apply_instruction ext.parse_float a i h) es fs

from_count-concat :
    (es : List Entry) (i : Instruction) (h : Text)
    → from_count (es ++ (i, h) ∷ []) ≡ from_count es + (if is_from i then 1 else 0)
unfolding from_count
from_count-concat [] i h = ground arith
from_count-concat ((j, g) ∷ es) i h = ground (arith, from_count-concat es i h)

instruction_type-nonempty : (i : Instruction) → is_empty (instruction_type i) ≡ false
unfolding instruction_type
instruction_type-nonempty (from r) = refl
instruction_type-nonempty _ = refl

first_type-concat :
    (es : List Entry) (i : Instruction) (h : Text)
    → first_type (es ++ (i, h) ∷ [])
      ≡ (if is_empty (first_type es) then instruction_type i else first_type es)
unfolding first_type
first_type-concat [] i h = refl
first_type-concat ((j, g) ∷ es) i h = rw (instruction_type-nonempty j) refl

-- The state of the parser behind these instructions.
pub record Built (ext : Externals) (p : Parser) (es : List Entry) : Type 0 where
  pub agent : p.agent ≡ apply_all ext new_agent es
  pub seen : p.from_seen ≡ ltb 0 (from_count es)
  pub first : p.first_instruction ≡ first_type es
  pub once : from_count es ≤ 1
  pub no_clash : All (λ (e : Entry). clash e.0 e.1 ≡ none) es

-- The state behind an accepted instruction.
abbrev pub accepted : Externals → Parser → Instruction → Text → Parser
accepted ext p i h = record p {
  first_instruction =
      if is_empty p.first_instruction then instruction_type i else p.first_instruction;
  from_seen = p.from_seen || is_from i;
  agent = apply_instruction ext.parse_float p.agent i h;
}

pub accept-ok :
    (ext : Externals) (p q : Parser) (i : Instruction) (h : Text)
    → accept ext p i h ≡ ok q
    → ((is_from i && p.from_seen) ≡ false) × (clash i h ≡ none) × (q ≡ accepted ext p i h)
unfolding accept
accept-ok ext p q i h e = elim (Bool-cases (is_from i && p.from_seen)) [
  | inl again ↦ absurd (ground arith)
  | inr once ↦ elim (Option-cases (clash i h)) [
    | inr (n, c) ↦ absurd (ground arith)
    | inl c ↦ (once, c, ground arith)
  ]
]

pub accepted-Built :
    (ext : Externals) (p : Parser) (i : Instruction) (h : Text) (es : List Entry)
    → (is_from i && p.from_seen) ≡ false
    → clash i h ≡ none
    → Built ext p es
    → Built ext (accepted ext p i h) (es ++ (i, h) ∷ [])
accepted-Built ext p i h es once c b = record {
  agent =
      ap (λ a. apply_instruction ext.parse_float a i h) b.agent
      ∙ sym (unfold apply_all in apply_all-append ext new_agent es ((i, h) ∷ []));
  seen = ground (arith, from_count-concat es i h, b.seen);
  first = ground (arith, first_type-concat es i h, b.first);
  once = ground (arith, from_count-concat es i h, b.seen, b.once);
  no_clash = All-append _ es ((i, h) ∷ []) b.no_clash (c, tt);
}

pub comment-ok :
    (p q : Parser) (t : Text)
    → handle_comment p t ≡ ok q
    → (q.agent ≡ p.agent)
      × (q.line ≡ p.line)
      × (q.from_seen ≡ p.from_seen)
      × (q.first_instruction ≡ p.first_instruction)
unfolding handle_comment
comment-ok p q t e = (ground (arith, e), ground (arith, e), ground (arith, e), ground (arith, e))

pub start-Built : (ext : Externals) → Built ext start []
unfolding start apply_all from_count first_type
start-Built ext = record {
  agent = refl;
  seen = refl;
  first = refl;
  once = omega arith;
  no_clash = tt;
}

first_lem :
    (f : Text)
    → (not (is_empty f) && not (text_eq f (codes "FROM"))) ≡ false
    → (f ≡ []) ⊎ (f ≡ codes "FROM")
first_lem [] h = inl refl
first_lem (c ∷ f) h = inr ((text_eq_iff (c ∷ f) (codes "FROM")).0 (ground arith))

-- What `finish` lets through.
pub finish-ok :
    (failed : Bool) (p : Parser) (af : Agentfile)
    → finish failed p ≡ ok af
    → (failed ≡ false)
      × (af.agent ≡ some p.agent)
      × (af.syntax ≡ (if is_empty p.syntax then default_syntax else p.syntax))
      × ((p.first_instruction ≡ []) ⊎ (p.first_instruction ≡ codes "FROM"))
      × Rules p.agent
unfolding finish validate
finish-ok failed p af e =
    let f = p.first_instruction in
    let whole : Agentfile = record {
      syntax = if is_empty p.syntax then default_syntax else p.syntax;
      agent = some p.agent;
    } in
    elim (Bool-cases failed) [
      | inl yes_failed ↦ absurd (ground arith)
      | inr fine ↦ elim (Result-cases (validate_agent p.agent)) [
        | inr (c, v) ↦ absurd (ground arith)
        | inl (u, v) ↦ (
          fine,
          ground arith,
          ground arith,
          ground (arith, first_lem f),
          (validate_agent_iff p.agent).0 v,
        )
      ]
    ]

-- The first instruction, of a kind that `finish` lets through and with an agent that has a FROM.
pub from_first :
    (ext : Externals) (p : Parser) (es : List Entry)
    → Built ext p es
    → (p.first_instruction ≡ []) ⊎ (p.first_instruction ≡ codes "FROM")
    → p.agent.from ≢ []
    → (r : Text) × (h : Text) × (fs : List Entry) × (es ≡ (from r, h) ∷ fs) × (from_count fs ≡ 0)
unfolding apply_all new_agent from_count first_type
from_first ext p [] b f n = absurd (n (ap (λ (a : Agent). a.from) b.agent))
from_first ext p ((from r, h) ∷ fs) b f n = (r, h, fs, refl, omega (arith, b.once))
from_first ext p ((_, h) ∷ fs) b f n = absurd (ground (arith, b.first))
