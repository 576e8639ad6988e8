-- ===== src/Resolve/Merge/Contexts.antt =====
-- resolve/resolve.go, mergeContexts: the index of names, and the replacement by name.
use mathlib.Core.List.{append-nil, append_assoc}
use agentfile.Common.{
  ℕ, zero, suc, ◌≡◌, refl, ◌∙◌, ap, sym, true, Option, none, some, List, [], ◌∷◌, ◌++◌, arith,
  if◌then◌else◌, Option-cases, inl, inr,
}
use agentfile.Common.Lists.{length, set}
use agentfile.Common.Maps.{lookup, lookup-insert}
use agentfile.Common.Sets.{Distinct}
use agentfile.Common.Texts.{Text, text_eq, text_eq_iff, text_eq_refl, mem}
use agentfile.Spec.Types.{Context}
use agentfile.Spec.Contexts.{
  upsert_context, upsert_contexts, names_of, find_context, find-upsert_contexts,
  upsert_contexts-Distinct,
}
use agentfile.Resolve.Merge.{
  Slots, append_context, append_contexts, place_context, place_contexts, merge_contexts,
}

-- Where a name stands in a list.
unfoldable pub position : Text → List Context → Option ℕ
position n [] = none
position n (c ∷ cs) =
    if text_eq c.name n
    then some 0
    else (elim (position n cs) [ none ↦ none | some i ↦ some (suc i) ])

-- The index knows the place of every name.
abbrev IsIndex : Slots → Type 0
IsIndex s = (n : Text) → lookup n s.by_name ≡ position n s.result

position-concat :
    (n : Text) (cs : List Context) (c : Context)
    → position n (cs ++ c ∷ []) ≡ elim (position n cs) [
      | some i ↦ some i
      | none ↦ if text_eq c.name n then some (length cs) else none
    ]
unfolding position
position-concat n [] c = ground arith
position-concat n (x ∷ cs) c = ground (arith, position-concat n cs c)

-- With its position known, replacing by name is writing there, and without one it is appending.
upsert-position :
    (c : Context) (cs : List Context)
    → upsert_context c cs ≡ elim (position c.name cs) [ some i ↦ set cs i c | none ↦ cs ++ c ∷ [] ]
unfolding upsert_context position
upsert-position c [] = refl
upsert-position c (x ∷ cs) = ground (arith, upsert-position c cs)

-- Writing an entry of the same name moves no name.
position-set :
    (n : Text) (c : Context) (cs : List Context) (i : ℕ)
    → position c.name cs ≡ some i
    → position n (set cs i c) ≡ position n cs
unfolding position
position-set n c [] i h = cc
position-set n c (x ∷ cs) zero h = ground (arith, text_eq_iff x.name c.name)
position-set n c (x ∷ cs) (suc i) h = ground (arith, position-set n c cs i)

append_context-IsIndex :
    (c : Context) (s : Slots)
    → IsIndex s
    → position c.name s.result ≡ none
    → IsIndex (append_context c s)
unfolding append_context
append_context-IsIndex c s h new n = ground (
  arith,
  lookup-insert c.name n (length s.result) s.by_name,
  position-concat n s.result c,
  h n,
  text_eq_iff c.name n,
)

place_context-IsIndex : (c : Context) (s : Slots) → IsIndex s → IsIndex (place_context c s)
unfolding place_context
place_context-IsIndex c s h n = elim (Option-cases (lookup c.name s.by_name)) [
  | inl e ↦ rw (e, place_context) (append_context-IsIndex c s h (sym (h c.name) ∙ e) n)
  | inr (i, e) ↦
      rw (e, place_context) (h n ∙ sym (position-set n c s.result i (sym (h c.name) ∙ e)))
]

place_context-result :
    (c : Context) (s : Slots) → IsIndex s → (place_context c s).result ≡ upsert_context c s.result
unfolding place_context append_context
place_context-result c s h = ground (arith, upsert-position c s.result, h c.name)

place_contexts-result :
    (cs : List Context) (s : Slots)
    → IsIndex s
    → (place_contexts cs s).result ≡ upsert_contexts cs s.result
unfolding place_contexts upsert_contexts
place_contexts-result [] s h = refl
place_contexts-result (c ∷ cs) s h =
    place_contexts-result cs (place_context c s) (place_context-IsIndex c s h)
    ∙ ap (upsert_contexts cs) (place_context-result c s h)

-- None of the entries has a name that is in the list already.
abbrev AreNew : List Context → List Context → Type 0
AreNew cs old = (n : Text) → mem n (names_of cs) ≡ true → position n old ≡ none

AreNew-step :
    (c : Context) (cs old : List Context)
    → Distinct (names_of (c ∷ cs))
    → AreNew (c ∷ cs) old
    → AreNew cs (old ++ c ∷ [])
AreNew-step c cs old d new n m =
    ground (arith, position-concat n old c, new n, text_eq_iff c.name n)

append_contexts_lem :
    (cs : List Context) (s : Slots)
    → IsIndex s
    → Distinct (names_of cs)
    → AreNew cs s.result
    → IsIndex (append_contexts cs s) × ((append_contexts cs s).result ≡ s.result ++ cs)
unfolding append_contexts
append_contexts_lem [] s h d new = (h, sym (append-nil s.result))
append_contexts_lem (c ∷ cs) s h d new =
    let here : position c.name s.result ≡ none = new c.name (rw text_eq_refl refl) in
    let (idx, res) =
      append_contexts_lem cs (append_context c s) (append_context-IsIndex c s h here) d.1
        (unfold append_context in AreNew-step c cs s.result d new) in
    (idx, res ∙ unfold append_context in append_assoc s.result (c ∷ []) cs)

-- Over a parent with distinct names the resolver's merge by index is the replacement by name that the
-- parser makes for each entry of the child in turn.
merge_contexts-upsert_contexts :
    (parent child : List Context)
    → Distinct (names_of parent)
    → merge_contexts parent child ≡ upsert_contexts child parent
unfolding merge_contexts
merge_contexts-upsert_contexts parent child d =
    let start : Slots = record { by_name = []; result = [] } in
    let (idx, res) =
      append_contexts_lem parent start (unfold lookup position in λ n. refl) d
        (unfold position in λ n m. refl) in
    place_contexts-result child (append_contexts parent start) idx ∙ ap (upsert_contexts child) res

-- With distinct names on both sides every name finds the child's entry if the child has one and
-- otherwise the parent's, and the merged names are distinct.
pub find-merge_contexts :
    (n : Text) (parent child : List Context)
    → Distinct (names_of parent)
    → Distinct (names_of child)
    → (find_context n (merge_contexts parent child)
        ≡ elim (find_context n child) [ some c ↦ some c | none ↦ find_context n parent ])
      × Distinct (names_of (merge_contexts parent child))
find-merge_contexts n parent child dp dc =
    rw (merge_contexts-upsert_contexts parent child dp)
      (find-upsert_contexts n child parent dc, upsert_contexts-Distinct child parent dp)
