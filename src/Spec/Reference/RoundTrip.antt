-- ===== src/Spec/Reference/RoundTrip.antt =====
-- Printing and parsing references.
use mathlib.Core.List.{append_assoc}
use agentfile.Common.{
  ℕ, suc, ◌+◌, ◌≡◌, refl, ◌∙◌, ap, sym, ◌≢◌, ◌⊎◌, inl, inr, false, [], ◌∷◌, ◌++◌, arith, ltb-pos,
  if◌then◌else◌,
}
use agentfile.Common.Lists.{length, length-append, take_at, drop_at, drop_past}
use agentfile.Common.Texts.{Text, is_empty, contains}
use agentfile.Common.Search.{contains-append, last_index_absent, last_index-append, split_last}
use agentfile.Spec.Reference.{Reference, default_tag, split_tag, parse_reference, to_string}

-- A tag as the parser finds it: no slash and no colon.
abbrev pub IsTag : Text → Type 0
IsTag t = (contains b'/' t ≡ false) × (contains b':' t ≡ false)

split_tag-colon :
    (before p t : Text) (s : Text) (i : ℕ)
    → p ≢ []
    → contains b':' t ≡ false
    → s ≡ (before ++ p) ++ b':' ∷ t
    → i ≡ length before
    → split_tag s (p ++ b':' ∷ t) i ≡ record { name = before ++ p; tag = t }
unfolding split_tag
split_tag-colon before [] t s i ne h e ei = absurd (ne refl)
split_tag-colon before (x ∷ p) t s i ne h e ei =
    let len : suc (length p) + i ≡ length (before ++ x ∷ p) =
      omega (arith, length-append {0} before (x ∷ p)) in
    rw (last_index-append b':' (x ∷ p) t h, ltb-pos (length p), e)
      (λ j. record {
        name = take_at (suc (length p) + i) (before ++ x ∷ p) (b':' ∷ t) len j;
        tag = drop_past (suc (length p) + i + 1) (before ++ x ∷ p) b':' t (omega arith) j;
      })

-- A text whose last segment holds no colon past its first place has the default tag.
split_tag-plain :
    (s tag_part : Text) (i : ℕ)
    → contains b':' tag_part ≡ false
    → split_tag s tag_part i ≡ record { name = s; tag = default_tag }
unfolding split_tag
split_tag-plain s p i h = rw (last_index_absent b':' p h, split_tag) refl

parse_plain : (s : Text) → contains b'/' s ≡ false → parse_reference s ≡ split_tag s s 0
unfolding parse_reference
parse_plain s h = rw (last_index_absent b'/' s h, parse_reference) refl

parse_path :
    (a p : Text)
    → contains b'/' p ≡ false
    → parse_reference (a ++ b'/' ∷ p) ≡ split_tag (a ++ b'/' ∷ p) (b'/' ∷ p) (length a)
unfolding parse_reference
parse_path a p h =
    rw (last_index-append b'/' a p h, drop_at (length a) a (b'/' ∷ p) refl, parse_reference) refl

no_slash :
    (n t : Text)
    → contains b'/' n ≡ false
    → contains b'/' t ≡ false
    → contains b'/' (n ++ b':' ∷ t) ≡ false
unfolding contains
no_slash n t h k = rw (contains-append b'/' n (b':' ∷ t), h, k) refl

-- Whatever the name, a colon behind it and a tag are taken apart again.
pub parse_colon :
    (n t : Text) → n ≢ [] → IsTag t → parse_reference (n ++ b':' ∷ t) ≡ record { name = n; tag = t }
parse_colon n t ne (s, c) = elim (split_last b'/' n) [
  | inl absent ↦
      parse_plain (n ++ b':' ∷ t) (no_slash n t absent s)
      ∙ split_tag-colon [] n t (n ++ b':' ∷ t) 0 ne c refl refl
  | inr (a, b, e, h) ↦
      let regroup : (a ++ b'/' ∷ b) ++ b':' ∷ t ≡ a ++ b'/' ∷ (b ++ b':' ∷ t) =
        append_assoc a (b'/' ∷ b) (b':' ∷ t) in
      rw (e, regroup)
        (parse_path a (b ++ b':' ∷ t) (no_slash b t h s)
          ∙ split_tag-colon a (b'/' ∷ b) t _ _ (λ q. cc) c (sym regroup) refl)
]

-- `is_empty r.tag` chooses the default.
abbrev pub shown_tag : Reference → Text
shown_tag r = if is_empty r.tag then default_tag else r.tag

shown_tag-eq : (n t : Text) → t ≢ [] → shown_tag (record { name = n; tag = t }) ≡ t
shown_tag-eq n [] ne = absurd (ne refl)
shown_tag-eq n (c ∷ t) ne = refl

shown_tag-IsTag : (n t : Text) → IsTag t → IsTag (shown_tag (record { name = n; tag = t }))
unfolding contains
shown_tag-IsTag n [] h = (refl, refl)
shown_tag-IsTag n (c ∷ t) h = h

-- A reference with a name, and with a tag that is not empty and holds no slash and no colon, is
-- read back from its text.
pub parse_reference-to_string :
    (r : Reference) → r.name ≢ [] → r.tag ≢ [] → IsTag r.tag → parse_reference (to_string r) ≡ r
unfolding to_string
parse_reference-to_string r ne nt h =
    parse_colon r.name (shown_tag r) ne (shown_tag-IsTag r.name r.tag h)
    ∙ ap (λ (t : Text). record { name = r.name; tag = t }) (shown_tag-eq r.name r.tag nt)

-- Where a text holds a tag, and what its parts are.
abbrev pub IsTagged : Text → Type 0
IsTagged s = (n : Text) × (t : Text) × (s ≡ n ++ b':' ∷ t) × (n ≢ []) × IsTag t

abbrev pub Parsed : Text → Type 0
Parsed s = IsTagged s ⊎ (parse_reference s ≡ record { name = s; tag = default_tag })

-- A colon at the first place of the only segment separates nothing.
parse_leading_colon :
    (b : Text)
    → IsTag b
    → parse_reference (b':' ∷ b) ≡ record { name = b':' ∷ b; tag = default_tag }
unfolding contains split_tag
parse_leading_colon b (s, c) =
    parse_plain (b':' ∷ b) s ∙ rw (last_index-append b':' [] b c, split_tag) refl

parse_absent : (s : Text) → contains b'/' s ≡ false → Parsed s
unfolding contains
parse_absent s h = elim (split_last b':' s) [
  | inl absent ↦ inr (parse_plain s h ∙ split_tag-plain s s 0 absent)
  | inr ([], b, e, c) ↦ inr (rw e (parse_leading_colon b (rw e at h, c)))
  | inr (x ∷ a, b, e, c) ↦ inl (x ∷ a, b, e, (λ q. cc), (tail a b x e, c))
]
  where
    tail : (a b : Text) (x : ℕ) → s ≡ (x ∷ a) ++ b':' ∷ b → contains b'/' b ≡ false
    tail a b x e = ground (arith, contains-append b'/' (x ∷ a) (b':' ∷ b))

append_cons-ne-nil : (a : Text) (c : ℕ) (b : Text) → a ++ c ∷ b ≢ []
append_cons-ne-nil [] c b = λ q. cc
append_cons-ne-nil (x ∷ a) c b = λ q. cc

parse_segments : (a b : Text) → contains b'/' b ≡ false → Parsed (a ++ b'/' ∷ b)
unfolding contains
parse_segments a b h = elim (split_last b':' b) [
  | inl absent ↦
      inr (parse_path a b h ∙ split_tag-plain (a ++ b'/' ∷ b) (b'/' ∷ b) (length a) absent)
  | inr (p, t, e, c) ↦ inl (
    a ++ b'/' ∷ p,
    t,
    rw e (sym (append_assoc a (b'/' ∷ p) (b':' ∷ t))),
    append_cons-ne-nil a b'/' p,
    (ground (arith, contains-append b'/' p (b':' ∷ t)), c),
  )
]

pub parse-Parsed : (s : Text) → Parsed s
parse-Parsed s = elim (split_last b'/' s) [
  | inl absent ↦ parse_absent s absent
  | inr (a, b, e, h) ↦ rw e (parse_segments a b h)
]

-- Whatever is parsed has a tag with no slash and no colon, and a name unless there was no text.
pub parse_reference-IsCanonical :
    (s : Text) → s ≢ [] → ((parse_reference s).name ≢ []) × IsTag (parse_reference s).tag
unfolding contains
parse_reference-IsCanonical s ne = elim (parse-Parsed s) [
  | inl (n, t, e, nn, it) ↦ rw (e, parse_colon n t nn it) (nn, it)
  | inr e ↦ rw e (ne, (refl, refl))
]

shown_tag-shown_tag :
    (n t : Text)
    → shown_tag (record { name = n; tag = shown_tag (record { name = n; tag = t }) })
      ≡ shown_tag (record { name = n; tag = t })
shown_tag-shown_tag n [] = refl
shown_tag-shown_tag n (c ∷ t) = refl

-- Printing what was read from a printed reference changes nothing.
to_string_stable :
    (r : Reference)
    → r.name ≢ []
    → IsTag r.tag
    → to_string (parse_reference (to_string r)) ≡ to_string r
unfolding to_string
to_string_stable r ne h =
    ap to_string (parse_colon r.name (shown_tag r) ne (shown_tag-IsTag r.name r.tag h))
    ∙ ap (λ (t : Text). r.name ++ b':' ∷ t) (shown_tag-shown_tag r.name r.tag)

-- `Reference.String` after `ParseReference`, the form in which references are compared.
unfoldable pub normalize : Text → Text
unfolding parse_reference to_string
normalize s = to_string (parse_reference s)

-- Normalising a text twice is normalising it once, unless the text is empty.
pub normalize-normalize : (s : Text) → s ≢ [] → normalize (normalize s) ≡ normalize s
unfolding normalize
normalize-normalize s ne =
    let (nn, it) = parse_reference-IsCanonical s ne in to_string_stable (parse_reference s) nn it
