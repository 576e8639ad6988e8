-- ===== src/Spec/Parse/Lines/Keyword.antt =====
-- The case of the keyword.
use agentfile.Common.{ℕ, ◌≡◌, refl, true, false, [], ◌∷◌, ◌++◌, arith}
use mathlib.Core.List.{append-nil}
use agentfile.Common.Strings.{to_upper}
use agentfile.Common.Texts.{Text}
use agentfile.Spec.Parse.Lines.{is_blank, keyword, from_blank, normalize_keyword}

abbrev pub NoBlank : Text → Type 0
NoBlank [] = Unit
NoBlank (c ∷ s) = (is_blank c ≡ false) × NoBlank s

keyword-split : (w s : Text) (c : ℕ) → NoBlank w → is_blank c ≡ true → keyword (w ++ c ∷ s) ≡ w
unfolding keyword
keyword-split [] s c n h = ground arith
keyword-split (x ∷ w) s c n h = ground (arith, keyword-split w s c)

from_blank-split :
    (w s : Text) (c : ℕ) → NoBlank w → is_blank c ≡ true → from_blank (w ++ c ∷ s) ≡ c ∷ s
unfolding from_blank
from_blank-split [] s c n h = ground arith
from_blank-split (x ∷ w) s c n h = ground (arith, from_blank-split w s c)

keyword-all : (w : Text) → NoBlank w → keyword w ≡ w
unfolding keyword
keyword-all [] n = refl
keyword-all (x ∷ w) n = ground (arith, keyword-all w)

from_blank-all : (w : Text) → NoBlank w → from_blank w ≡ []
unfolding from_blank
from_blank-all [] n = refl
from_blank-all (x ∷ w) n = ground (arith, from_blank-all w)

-- Only the characters in front of the first space or tab change case; but a line with neither changes
-- as a whole, so that an `EXEC["serve"]` is read as `EXEC["SERVE"]`.
normalize_keyword_lem :
    (upper : ℕ → ℕ) (w : Text) (c : ℕ) (s : Text)
    → NoBlank w
    → is_blank c ≡ true
    → (normalize_keyword upper w ≡ to_upper upper w)
      × (normalize_keyword upper (w ++ c ∷ s) ≡ to_upper upper w ++ c ∷ s)
unfolding normalize_keyword
normalize_keyword_lem upper w c s n h = (
  rw (keyword-all w n, from_blank-all w n) (append-nil (to_upper upper w)),
  rw (keyword-split w s c n h, from_blank-split w s c n h) refl,
)
