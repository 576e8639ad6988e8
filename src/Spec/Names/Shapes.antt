-- ===== src/Spec/Names/Shapes.antt =====
-- spec/parse.go: the shapes of names, as descriptions.
use agentfile.Common.{
  ℕ, zero, suc, ◌≡◌, refl, ◌≢◌, ◌≤◌, ◌↔◌, Bool, true, false, [], ◌∷◌, arith, ◌==◌, &&-eq-true,
  ==_iff, Bool-cases, inl, inr, ap,
}
use agentfile.Common.Lists.{length, all}
use agentfile.Common.Texts.{Text, contains}
use agentfile.Spec.Names.{
  is_name_char, is_path_safe_name, is_lower_alnum, is_label_char, ends_label, is_dns1123_label,
}

-- A character outside a class is absent from a text in that class.
absent : (p : ℕ → Bool) (c : ℕ) (s : Text) → p c ≡ false → all p s ≡ true → contains c s ≡ false
unfolding contains
absent p c [] h k = refl
absent p c (x ∷ s) h k = elim (Bool-cases (x == c)) [
  | inl e ↦ let px : p x ≡ true = (&&-eq-true (p x) (all p s) k).0 in cc (ap p ((==_iff x c).0 e))
  | inr e ↦ rw e (absent p c s h (&&-eq-true (p x) (all p s) k).1)
]

-- What a path-safe name cannot be: it has 1 to 63 characters, no separator, and no dot in front.
pub record IsFileName (s : Text) : Type 0 where
  pub nonempty : 1 ≤ length s
  pub short : length s ≤ 63
  pub no_slash : contains b'/' s ≡ false
  pub no_backslash : contains b'\\' s ≡ false
  pub no_dot_first : (t : Text) → s ≢ b'.' ∷ t

pub is_path_safe_name-chars : (s : Text) → is_path_safe_name s ≡ true → all is_name_char s ≡ true
unfolding is_path_safe_name
is_path_safe_name-chars [] h = refl
is_path_safe_name-chars (c ∷ s) h = ground arith

pub is_path_safe_name-IsFileName : (s : Text) → is_path_safe_name s ≡ true → IsFileName s
unfolding is_path_safe_name
is_path_safe_name-IsFileName [] h = cc
is_path_safe_name-IsFileName (c ∷ s) h = record {
  nonempty = omega arith;
  short = ground arith;
  no_slash = absent is_name_char b'/' (c ∷ s) refl (is_path_safe_name-chars (c ∷ s) h);
  no_backslash = absent is_name_char b'\\' (c ∷ s) refl (is_path_safe_name-chars (c ∷ s) h);
  no_dot_first = λ t e. ground arith;
}

abbrev pub first_or : ℕ → Text → ℕ
first_or d [] = d
first_or d (c ∷ s) = c

abbrev pub last_or : ℕ → Text → ℕ
last_or d [] = d
last_or d (c ∷ s) = last_or c s

-- The rule for labels, in the words of its description: lowercase letters, digits and dashes,
-- beginning and ending with a letter or digit, at most 63 characters.
pub record IsLabel (s : Text) : Type 0 where
  pub label_chars : all is_label_char s ≡ true
  pub starts : is_lower_alnum (first_or 0 s) ≡ true
  pub ends : is_lower_alnum (last_or 0 s) ≡ true
  pub short : length s ≤ 63

record Ends (n : ℕ) (c : ℕ) (s : Text) : Type 0 where
  chars : all is_label_char (c ∷ s) ≡ true
  last : is_lower_alnum (last_or c s) ≡ true
  short : length s ≤ n

ends_label-Ends : (n c : ℕ) (s : Text) → ends_label n (c ∷ s) ≡ true → Ends n c s
unfolding ends_label is_label_char
ends_label-Ends n c [] h = ground arith
ends_label-Ends zero c (d ∷ s) h = ground arith
ends_label-Ends (suc n) c (d ∷ s) h = ground (arith, ends_label-Ends n d s)

Ends-ends_label : (n c : ℕ) (s : Text) → Ends n c s → ends_label n (c ∷ s) ≡ true
unfolding ends_label is_label_char
Ends-ends_label n c [] h = ground arith
Ends-ends_label zero c (d ∷ s) h = absurd (omega (arith, h.short))
Ends-ends_label (suc n) c (d ∷ s) h = ground (
  arith,
  Ends-ends_label n d s
      (record { chars = ground arith; last = h.last; short = omega (arith, h.short) }),
)

-- The matcher accepts exactly the labels of the description.
pub is_dns1123_label_iff : (s : Text) → (is_dns1123_label s ≡ true) ↔ IsLabel s
unfolding is_dns1123_label is_label_char
is_dns1123_label_iff [] = ground arith
is_dns1123_label_iff (c ∷ []) = ground arith
is_dns1123_label_iff (c ∷ d ∷ s) =
    (λ h. ground (arith, ends_label-Ends 61 d s), λ h. ground (arith, Ends-ends_label 61 d s))
