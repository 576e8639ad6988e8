-- ===== src/Resolve/Merge/Capabilities.antt =====
-- The union of capabilities.
use agentfile.Common.{◌≡◌, refl, ◌∙◌, sym, ap, ◌||◌, List, [], ◌∷◌, arith, Bool-cases, inl, inr}
use agentfile.Common.Lists.{All, All-append}
use agentfile.Common.Sets.{Distinct, Distinct-concat, mem-append}
use agentfile.Common.Texts.{Text, text_eq, text_eq_iff, mem}
use agentfile.Resolve.Merge.{add_one, add_unseen, merge_string_set}

-- The set and the list hold the same texts, and the list holds each once.
record Agree (s : List Text × List Text) : Type 0 where
  same : (k : Text) → mem k s.0 ≡ mem k s.1
  distinct : Distinct s.1

add_one-Agree : (x : Text) (s : List Text × List Text) → Agree s → Agree (add_one x s)
unfolding add_one
add_one-Agree x (seen, out) a = elim (Bool-cases (mem x seen)) [
  | inl old ↦ rw old a
  | inr new ↦ rw new (record {
    same = λ k. ground (arith, mem-append k out (x ∷ []), a.same k);
    distinct = Distinct-concat out x a.distinct (sym (a.same x) ∙ new);
  })
]

mem-add_one :
    (k x : Text) (s : List Text × List Text)
    → Agree s
    → mem k (add_one x s).1 ≡ (mem k s.1 || text_eq k x)
unfolding add_one
mem-add_one k x (seen, out) a =
    ground (arith, mem-append k out (x ∷ []), a.same x, a.same k, text_eq_iff k x)

add_unseen_lem :
    (k : Text) (xs : List Text) (s : List Text × List Text)
    → Agree s
    → Agree (add_unseen xs s) × (mem k (add_unseen xs s).1 ≡ (mem k s.1 || mem k xs))
unfolding add_unseen
add_unseen_lem k [] s a = (a, ground arith)
add_unseen_lem k (x ∷ xs) s a =
    let (b, m) = add_unseen_lem k xs (add_one x s) (add_one-Agree x s a) in
    (b, ground (arith, m, mem-add_one k x s a))

-- A capability is granted by the merge exactly if the parent or the child grants it, and stands there
-- once.
pub merge_string_set_lem :
    (parent child : List Text)
    → ((k : Text) → mem k (merge_string_set parent child) ≡ (mem k parent || mem k child))
      × Distinct (merge_string_set parent child)
unfolding merge_string_set
merge_string_set_lem parent child =
    let start : Agree ([], []) = record { same = λ k. refl; distinct = tt } in
    (
      λ k.
          let (a, m) = add_unseen_lem k parent ([], []) start in
          let (b, n) = add_unseen_lem k child (add_unseen parent ([], [])) a in
          n ∙ ap (λ b. b || mem k child) m,
      (add_unseen_lem [] child (add_unseen parent ([], []))
          (add_unseen_lem [] parent ([], []) start).0).0.distinct,
    )

module _ {κ} (P : Text → Type κ) where
  add_one-All : (x : Text) (s : List Text × List Text) → P x → All P s.1 → All P (add_one x s).1
  unfolding add_one
  add_one-All x (seen, out) p k = elim (Bool-cases (mem x seen)) [
    | inl old ↦ rw (old, add_one) k
    | inr new ↦ rw (new, add_one) (All-append P out (x ∷ []) k (p, tt))
  ]

  add_unseen-All :
      (xs : List Text) (s : List Text × List Text)
      → All P xs
      → All P s.1
      → All P (add_unseen xs s).1
  unfolding add_unseen
  add_unseen-All [] s h k = k
  add_unseen-All (x ∷ xs) s h k = add_unseen-All xs (add_one x s) h.1 (add_one-All x s h.0 k)

  pub merge_string_set-All :
      (parent child : List Text)
      → All P parent
      → All P child
      → All P (merge_string_set parent child)
  unfolding merge_string_set
  merge_string_set-All parent child h k =
      add_unseen-All child (add_unseen parent ([], [])) k (add_unseen-All parent ([], []) h tt)
