-- ===== src/Spec/Reference/Qualify.antt =====
-- Completing a reference with a default registry.
use agentfile.Common.{◌≡◌, refl, ◌∙◌, ap, sym, ◌⊎◌, inl, inr, true, false, [], ◌∷◌, ◌++◌, arith}
use mathlib.Core.List.{append_assoc}
use agentfile.Common.Lists.{length, take_at}
use agentfile.Common.Texts.{Text, is_empty, contains}
use agentfile.Common.Search.{contains-append, split_first, index_absent, index-append}
use agentfile.Spec.Reference.{
  Reference, parse_reference, first_segment, is_host, is_qualified, qualify_with_default,
}
use agentfile.Spec.Reference.RoundTrip.{parse-Parsed, parse_colon}

first_segment-split : (a b : Text) → contains b'/' a ≡ false → first_segment (a ++ b'/' ∷ b) ≡ a
unfolding first_segment
first_segment-split a b h =
    rw (index-append b'/' a b h, first_segment) (take_at (length a) a (b'/' ∷ b) refl)

-- What stands behind a slash does not change the first segment.
first_segment-append : (d n : Text) → first_segment (d ++ b'/' ∷ n) ≡ first_segment d
unfolding first_segment
first_segment-append d n = elim (split_first b'/' d) [
  | inl h ↦ first_segment-split d n h ∙ rw (index_absent b'/' d h, first_segment) refl
  | inr (a, b, e, h) ↦
      rw (e, append_assoc a (b'/' ∷ b) (b'/' ∷ n))
        (first_segment-split a (b ++ b'/' ∷ n) h ∙ sym (first_segment-split a b h))
]

-- A tag, which holds no slash, is cut off behind every slash.
slash_stays :
    (d n q t : Text)
    → d ++ b'/' ∷ n ≡ q ++ b':' ∷ t
    → contains b'/' t ≡ false
    → (m : Text) × (q ≡ d ++ b'/' ∷ m)
unfolding contains
slash_stays [] n [] t e h = absurd (ground arith)
slash_stays [] n (x ∷ q) t e h = (q, ground arith)
slash_stays (y ∷ d) n [] t e h = absurd (ground (arith, contains-append b'/' d (b'/' ∷ n)))
slash_stays (y ∷ d) n (x ∷ q) t e h =
    let (m, f) = slash_stays d n q t (ground arith) h in (m, ground arith)

name-prefix : (d n : Text) → (m : Text) × ((parse_reference (d ++ b'/' ∷ n)).name ≡ d ++ b'/' ∷ m)
name-prefix d n = elim (parse-Parsed (d ++ b'/' ∷ n)) [
  | inl (q, t, e, ne, it) ↦
      let (m, f) = slash_stays d n q t e it.0 in
      (
        m,
        ap (λ s. (parse_reference s).name) e
            ∙ ap (λ (r : Reference). r.name) (parse_colon q t ne it)
            ∙ f,
      )
  | inr e ↦ (n, ap (λ (r : Reference). r.name) e)
]

-- Behind a registry whose first segment names a host every name is qualified.
is_qualified-prefix :
    (d n : Text) → is_host (first_segment d) ≡ true → is_qualified (d ++ b'/' ∷ n) ≡ true
unfolding is_qualified
is_qualified-prefix d n h =
    let (m, e) = name-prefix d n in rw (e, is_qualified, first_segment-append d m) h

-- With a default registry that is not empty and whose first segment names a host (it is localhost, or it
-- holds a dot or a colon), every completed reference is qualified.
qualify_with_default-is_qualified :
    (r : Reference) (d : Text)
    → is_empty d ≡ false
    → is_host (first_segment d) ≡ true
    → is_qualified (qualify_with_default r d).name ≡ true
unfolding qualify_with_default
qualify_with_default-is_qualified r d ne h = ground (arith, is_qualified-prefix d r.name)

-- With such a registry, or with none, completing a reference twice is completing it once.
pub qualify_with_default-idempotent :
    (r : Reference) (d : Text)
    → (is_empty d ≡ true) ⊎ (is_host (first_segment d) ≡ true)
    → qualify_with_default (qualify_with_default r d) d ≡ qualify_with_default r d
unfolding qualify_with_default
qualify_with_default-idempotent r d h = ground (arith, is_qualified-prefix d r.name)
