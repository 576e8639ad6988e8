-- ===== src/Spec/Contexts.antt =====
-- The keyed merge of CONTEXT entries by name: replace the first entry of the name, or append.
use agentfile.Common.{
  ◌≡◌, refl, false, ◌||◌, Option, none, some, List, [], ◌∷◌, arith, if◌then◌else◌,
}
use agentfile.Common.Sets.{Distinct}
use agentfile.Common.Texts.{Text, text_eq, text_eq_iff, mem}
use agentfile.Spec.Types.{Context}

-- The loop of `case inst.Context != nil` in spec/parse.go, and the append behind it.
unfoldable pub upsert_context : Context → List Context → List Context
upsert_context ctx [] = ctx ∷ []
upsert_context ctx (c ∷ cs) =
    if text_eq c.name ctx.name then ctx ∷ cs else c ∷ upsert_context ctx cs

-- One after the other.
unfoldable pub upsert_contexts : List Context → List Context → List Context
unfolding upsert_context
upsert_contexts [] old = old
upsert_contexts (c ∷ cs) old = upsert_contexts cs (upsert_context c old)

abbrev pub names_of : List Context → List Text
names_of [] = []
names_of (c ∷ cs) = c.name ∷ names_of cs

-- The first entry of a name.
unfoldable pub find_context : Text → List Context → Option Context
find_context n [] = none
find_context n (c ∷ cs) = if text_eq c.name n then some c else find_context n cs

pub mem-upsert_context :
    (n : Text) (ctx : Context) (cs : List Context)
    → mem n (names_of (upsert_context ctx cs)) ≡ (text_eq n ctx.name || mem n (names_of cs))
unfolding upsert_context
mem-upsert_context n ctx [] = refl
mem-upsert_context n ctx (c ∷ cs) = ground (
  arith,
  mem-upsert_context n ctx cs,
  text_eq_iff c.name ctx.name,
  text_eq_iff n ctx.name,
  text_eq_iff n c.name,
)

pub upsert_context-Distinct :
    (ctx : Context) (cs : List Context)
    → Distinct (names_of cs)
    → Distinct (names_of (upsert_context ctx cs))
unfolding upsert_context
upsert_context-Distinct ctx [] d = (refl, tt)
upsert_context-Distinct ctx (c ∷ cs) d = ground (
  arith,
  upsert_context-Distinct ctx cs,
  mem-upsert_context c.name ctx cs,
  text_eq_iff c.name ctx.name,
)

pub find-upsert_context :
    (n : Text) (ctx : Context) (cs : List Context)
    → find_context n (upsert_context ctx cs)
      ≡ (if text_eq ctx.name n then some ctx else find_context n cs)
unfolding upsert_context find_context
find-upsert_context n ctx [] = refl
find-upsert_context n ctx (c ∷ cs) = ground (
  arith,
  find-upsert_context n ctx cs,
  text_eq_iff c.name ctx.name,
  text_eq_iff ctx.name n,
  text_eq_iff c.name n,
)

pub upsert_contexts-Distinct :
    (new old : List Context)
    → Distinct (names_of old)
    → Distinct (names_of (upsert_contexts new old))
unfolding upsert_contexts
upsert_contexts-Distinct [] old d = d
upsert_contexts-Distinct (c ∷ cs) old d =
    upsert_contexts-Distinct cs (upsert_context c old) (upsert_context-Distinct c old d)

pub find_context-absent :
    (n : Text) (cs : List Context) → mem n (names_of cs) ≡ false → find_context n cs ≡ none
unfolding find_context
find_context-absent n [] h = refl
find_context-absent n (c ∷ cs) h =
    ground (arith, find_context-absent n cs, text_eq_iff c.name n, text_eq_iff n c.name)

-- Of distinct new entries each is found by its name, and any other name finds what it did.
pub find-upsert_contexts :
    (n : Text) (new old : List Context)
    → Distinct (names_of new)
    → find_context n (upsert_contexts new old)
      ≡ elim (find_context n new) [ some c ↦ some c | none ↦ find_context n old ]
unfolding upsert_contexts find_context
find-upsert_contexts n [] old d = refl
find-upsert_contexts n (c ∷ cs) old d = ground (
  arith,
  find-upsert_contexts n cs (upsert_context c old),
  find-upsert_context n c old,
  find_context-absent n cs,
  text_eq_iff c.name n,
)
