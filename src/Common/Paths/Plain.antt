-- ===== src/Common/Paths/Plain.antt =====
-- Paths that are clean: no element is empty, a dot or two dots.
use Prim.Native.Nat.{ℕ}
use mathlib.Core.Path.{◌≡◌, refl, sym, ap, ◌∙◌, subst}
use mathlib.Core.Logic.{◌≢◌, inl, inr}
use mathlib.Core.Bool.{Bool, true, false, not, ◌&&◌, ◌||◌}
use mathlib.Core.List.{List, [], ◌∷◌, ◌++◌, reverse, reverse_aux, foldl, reverse-reverse}
use native.Mathlib.Omega.{arith}
use agentfile.Common.Tests.{◌==◌, ==_iff, if◌then◌else◌, Bool-cases, &&-eq-true}
use agentfile.Common.Lists.{all, all-append}
use agentfile.Common.Texts.{Text, codes, text_eq, is_empty, contains}
use agentfile.Common.Paths.{cons_head, split_slash, join_slash, clean_step, clean, join}

unfoldable pub is_plain : Text → Bool
unfolding text_eq
is_plain s = not (is_empty s || text_eq s (codes ".")) && not (text_eq s (codes ".."))

-- A relative path of plain elements.
unfoldable pub is_plain_path : Text → Bool
unfolding is_plain split_slash
is_plain_path p = all is_plain (split_slash p)

pub split_slash-cons :
    (a b : Text) → contains b'/' a ≡ false → split_slash (a ++ b'/' ∷ b) ≡ a ∷ split_slash b
unfolding contains split_slash cons_head
split_slash-cons [] b h = refl
split_slash-cons (c ∷ a) b h = ground (arith, split_slash-cons a b)

pub split_slash-one : (a : Text) → contains b'/' a ≡ false → split_slash a ≡ a ∷ []
unfolding contains split_slash cons_head
split_slash-one [] h = refl
split_slash-one (c ∷ a) h = ground (arith, split_slash-one a)

join_slash-cons_head : (c : ℕ) (xs : List Text) → join_slash (cons_head c xs) ≡ c ∷ join_slash xs
unfolding join_slash cons_head
join_slash-cons_head c [] = refl
join_slash-cons_head c (x ∷ []) = refl
join_slash-cons_head c (x ∷ y ∷ xs) = refl

cons_head-ne-nil : (c : ℕ) (xs : List Text) → cons_head c xs ≢ []
unfolding cons_head
cons_head-ne-nil c [] = cc
cons_head-ne-nil c (x ∷ xs) = cc

split_slash-ne-nil : (p : Text) → split_slash p ≢ []
unfolding split_slash
split_slash-ne-nil [] = cc
split_slash-ne-nil (c ∷ p) = elim (Bool-cases (c == b'/')) [
  | inl e ↦ rw e cc
  | inr e ↦ rw e (cons_head-ne-nil c (split_slash p))
]

join_slash-nil : (xs : List Text) → xs ≢ [] → join_slash ([] ∷ xs) ≡ b'/' ∷ join_slash xs
unfolding join_slash
join_slash-nil [] h = absurd (h refl)
join_slash-nil (x ∷ xs) h = refl

pub join_slash-split_slash : (p : Text) → join_slash (split_slash p) ≡ p
unfolding split_slash join_slash
join_slash-split_slash [] = refl
join_slash-split_slash (c ∷ p) = elim (Bool-cases (c == b'/')) [
  | inl e ↦ rw e (
      join_slash-nil (split_slash p) (split_slash-ne-nil p)
      ∙ ap (λ q. b'/' ∷ q) (join_slash-split_slash p)
      ∙ ap (λ d. d ∷ p) (sym ((==_iff c b'/').0 e)))
  | inr e ↦
      rw e (join_slash-cons_head c (split_slash p) ∙ ap (λ q. c ∷ q) (join_slash-split_slash p))
]

clean_step-plain :
    (rooted : Bool) (stack : List Text) (x : Text)
    → is_plain x ≡ true
    → clean_step rooted stack x ≡ x ∷ stack
unfolding is_plain clean_step
clean_step-plain rooted stack x h = ground arith

pub foldl-clean_step :
    (rooted : Bool) (stack xs : List Text)
    → all is_plain xs ≡ true
    → foldl (clean_step rooted) stack xs ≡ reverse_aux xs stack
foldl-clean_step rooted stack [] h = refl
foldl-clean_step rooted stack (x ∷ xs) h =
    let (now, later) = &&-eq-true (is_plain x) (all is_plain xs) h in
    rw (clean_step-plain rooted stack x now) (foldl-clean_step rooted (x ∷ stack) xs later)

clean-body :
    (rooted : Bool) (p : Text)
    → is_plain_path p ≡ true
    → join_slash (reverse (foldl (clean_step rooted) [] (split_slash p))) ≡ p
unfolding is_plain_path
clean-body rooted p h =
    ap join_slash
      (ap reverse (foldl-clean_step rooted [] (split_slash p) h) ∙ reverse-reverse (split_slash p))
    ∙ join_slash-split_slash p

is_plain_path-relative : (c : ℕ) (p : Text) → is_plain_path (c ∷ p) ≡ true → (c == b'/') ≡ false
unfolding is_plain_path is_plain split_slash
is_plain_path-relative c p h = ground arith

-- The last lines of `clean`.
abbrev finish : Bool → Text → Text
finish rooted body = if rooted then b'/' ∷ body else if is_empty body then codes "." else body

-- Such a path is clean already.
pub clean-plain : (c : ℕ) (p : Text) → is_plain_path (c ∷ p) ≡ true → clean (c ∷ p) ≡ c ∷ p
unfolding clean
clean-plain c p h =
    subst
      (λ r. finish r (join_slash (reverse (foldl (clean_step r) [] (split_slash (c ∷ p))))) ≡ c ∷ p)
      (sym (is_plain_path-relative c p h)) (ap (finish false) (clean-body false (c ∷ p) h))

cons_head-append :
    (c : ℕ) (xs ys : List Text) → xs ≢ [] → cons_head c (xs ++ ys) ≡ cons_head c xs ++ ys
unfolding cons_head
cons_head-append c [] ys h = absurd (h refl)
cons_head-append c (x ∷ xs) ys h = refl

split_slash-append : (a b : Text) → split_slash (a ++ b'/' ∷ b) ≡ split_slash a ++ split_slash b
unfolding split_slash
split_slash-append [] b = refl
split_slash-append (c ∷ a) b = elim (Bool-cases (c == b'/')) [
  | inl e ↦ rw e (ap (λ s. [] ∷ s) (split_slash-append a b))
  | inr e ↦ rw e (
      ap (cons_head c) (split_slash-append a b)
      ∙ cons_head-append c (split_slash a) (split_slash b) (split_slash-ne-nil a))
]

pub is_plain_path-append :
    (a b : Text)
    → is_plain_path a ≡ true
    → is_plain_path b ≡ true
    → is_plain_path (a ++ b'/' ∷ b) ≡ true
unfolding is_plain_path
is_plain_path-append a b h k =
    ap (all is_plain) (split_slash-append a b)
    ∙ all-append is_plain (split_slash a) (split_slash b)
    ∙ rw (h, k) refl

-- Joining two of them gives one.
pub is_plain_path-join :
    (c : ℕ) (a b : Text)
    → is_plain_path (c ∷ a) ≡ true
    → is_plain_path b ≡ true
    → is_plain_path (join (c ∷ a) b) ≡ true
unfolding join
is_plain_path-join c a b h k =
    let path = is_plain_path-append (c ∷ a) b h k in
    subst (λ p. is_plain_path p ≡ true) (sym (clean-plain c (a ++ b'/' ∷ b) path)) path
