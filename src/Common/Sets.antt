-- ===== src/Common/Sets.antt =====
-- Lists of texts with no repetition, and their sorting.
use mathlib.Core.Path.{◌≡◌, refl}
use mathlib.Core.Bool.{Bool, true, false, ◌||◌, ◌&&◌}
use mathlib.Core.List.{List, [], ◌∷◌, ◌++◌}
use native.Mathlib.Omega.{arith}
use agentfile.Common.Tests.{ltb, ◌==◌, if◌then◌else◌}
use agentfile.Common.Texts.{Text, text_eq, text_eq_iff, mem}

abbrev pub Distinct : List Text → Type 0
Distinct [] = Unit
Distinct (x ∷ xs) = (mem x xs ≡ false) × Distinct xs

pub mem-append : (k : Text) (xs ys : List Text) → mem k (xs ++ ys) ≡ (mem k xs || mem k ys)
mem-append k [] ys = refl
mem-append k (x ∷ xs) ys = ground (arith, mem-append k xs ys)

-- An element that is new at the end keeps a list distinct.
pub Distinct-concat :
    (xs : List Text) (k : Text) → Distinct xs → mem k xs ≡ false → Distinct (xs ++ k ∷ [])
Distinct-concat [] k d h = (refl, tt)
Distinct-concat (x ∷ xs) k d h =
    ground (arith, mem-append x xs (k ∷ []), text_eq_iff k x, text_eq_iff x k, Distinct-concat xs k)

-- Go's < on strings: for valid UTF-8 the order of the bytes is that of the code points.
unfoldable pub text_lt : Text → Text → Bool
text_lt [] [] = false
text_lt [] (b ∷ t) = true
text_lt (a ∷ s) [] = false
text_lt (a ∷ s) (b ∷ t) = ltb a b || (a == b && text_lt s t)

unfoldable pub insert_sorted : Text → List Text → List Text
insert_sorted k [] = k ∷ []
insert_sorted k (x ∷ xs) = if text_lt x k then x ∷ insert_sorted k xs else k ∷ x ∷ xs

-- sort.Strings
unfoldable pub sort_strings : List Text → List Text
unfolding insert_sorted text_lt
sort_strings [] = []
sort_strings (x ∷ xs) = insert_sorted x (sort_strings xs)

mem-insert_sorted :
    (k x : Text) (xs : List Text) → mem k (insert_sorted x xs) ≡ (text_eq k x || mem k xs)
unfolding insert_sorted
mem-insert_sorted k x [] = refl
mem-insert_sorted k x (y ∷ ys) = ground (arith, mem-insert_sorted k x ys)

-- Sorting keeps the elements.
pub mem-sort_strings : (k : Text) (xs : List Text) → mem k (sort_strings xs) ≡ mem k xs
unfolding sort_strings
mem-sort_strings k [] = refl
mem-sort_strings k (x ∷ xs) =
    ground (arith, mem-insert_sorted k x (sort_strings xs), mem-sort_strings k xs)

-- Each element is not above the next.
abbrev pub IsSorted : List Text → Type 0
IsSorted [] = Unit
IsSorted (x ∷ []) = Unit
IsSorted (x ∷ y ∷ ys) = (text_lt y x ≡ false) × IsSorted (y ∷ ys)

text_lt_asymm : (s t : Text) → text_lt s t ≡ true → text_lt t s ≡ false
unfolding text_lt
text_lt_asymm [] t h = ground arith
text_lt_asymm (a ∷ s) [] h = ground arith
text_lt_asymm (a ∷ s) (b ∷ t) h = ground (arith, text_lt_asymm s t)

insert_sorted-IsSorted : (k : Text) (xs : List Text) → IsSorted xs → IsSorted (insert_sorted k xs)
unfolding insert_sorted
insert_sorted-IsSorted k [] h = tt
insert_sorted-IsSorted k (x ∷ []) h = ground (arith, text_lt_asymm x k)
insert_sorted-IsSorted k (x ∷ y ∷ ys) h =
    ground (arith, text_lt_asymm x k, insert_sorted-IsSorted k (y ∷ ys))

pub sort_strings-IsSorted : (xs : List Text) → IsSorted (sort_strings xs)
unfolding sort_strings
sort_strings-IsSorted [] = tt
sort_strings-IsSorted (x ∷ xs) =
    insert_sorted-IsSorted x (sort_strings xs) (sort_strings-IsSorted xs)
