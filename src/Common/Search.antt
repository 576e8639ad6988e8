-- ===== src/Common/Search.antt =====
-- Facts about the searches for one character, `contains`, `index` and `last_index`.
use agentfile.Common.{
  ℕ, ◌≡◌, refl, ◌⊎◌, inl, inr, false, ◌||◌, none, some, [], ◌∷◌, ◌++◌, arith, ◌==◌, ==_iff,
  Bool-cases,
}
use agentfile.Common.Lists.{length}
use agentfile.Common.Texts.{Text, contains, index, last_index}

pub contains-append : (c : ℕ) (s t : Text) → contains c (s ++ t) ≡ (contains c s || contains c t)
unfolding contains
contains-append c [] t = refl
contains-append c (x ∷ s) t = ground (arith, contains-append c s t)

pub last_index_absent : (c : ℕ) (s : Text) → contains c s ≡ false → last_index c s ≡ none
unfolding contains last_index
last_index_absent c [] h = refl
last_index_absent c (x ∷ s) h = ground (arith, last_index_absent c s)

-- A search that fails shows that the character is absent.
pub last_index-none : (c : ℕ) (s : Text) → last_index c s ≡ none → contains c s ≡ false
unfolding contains last_index
last_index-none c [] h = refl
last_index-none c (x ∷ s) h = ground (arith, last_index-none c s)

-- The last occurrence is the one with none behind it.
pub last_index-append :
    (c : ℕ) (s t : Text) → contains c t ≡ false → last_index c (s ++ c ∷ t) ≡ some (length s)
unfolding last_index
last_index-append c [] t h = ground (arith, last_index_absent c t h)
last_index-append c (x ∷ s) t h = rw (last_index-append c s t h) refl

-- A text without the character, or its split at the last occurrence.
abbrev pub LastSplit : ℕ → Text → Type 0
LastSplit c s = (a : Text) × (b : Text) × (s ≡ a ++ c ∷ b) × (contains c b ≡ false)

pub split_last : (c : ℕ) (s : Text) → (contains c s ≡ false) ⊎ LastSplit c s
unfolding contains
split_last c [] = inl refl
split_last c (x ∷ s) = elim (split_last c s) [
  | inr (a, b, e, h) ↦ inr (x ∷ a, b, rw e refl, h)
  | inl h ↦ elim (Bool-cases (x == c)) [
    | inl e ↦ inr ([], s, cc ((==_iff x c).0 e), h)
    | inr e ↦ inl (rw (e, h) refl)
  ]
]

-- The same for the first occurrence.
abbrev pub FirstSplit : ℕ → Text → Type 0
FirstSplit c s = (a : Text) × (b : Text) × (s ≡ a ++ c ∷ b) × (contains c a ≡ false)

pub split_first : (c : ℕ) (s : Text) → (contains c s ≡ false) ⊎ FirstSplit c s
unfolding contains
split_first c [] = inl refl
split_first c (x ∷ s) = elim (Bool-cases (x == c)) [
  | inl e ↦ inr ([], s, cc ((==_iff x c).0 e), refl)
  | inr e ↦ elim (split_first c s) [
    | inl h ↦ inl (rw (e, h) refl)
    | inr (a, b, f, h) ↦ inr (x ∷ a, b, rw f refl, rw (e, h) refl)
  ]
]

pub index_absent : (c : ℕ) (s : Text) → contains c s ≡ false → index c s ≡ none
unfolding contains index
index_absent c [] h = refl
index_absent c (x ∷ s) h = ground (arith, index_absent c s)

pub index-append :
    (c : ℕ) (s t : Text) → contains c s ≡ false → index c (s ++ c ∷ t) ≡ some (length s)
unfolding contains index
index-append c [] t h = ground arith
index-append c (x ∷ s) t h = ground (arith, index-append c s t)
