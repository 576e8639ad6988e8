-- ===== src/Common/Maps.antt =====
-- A Go map with string keys, as the list of its entries. Where the program ranges over a map, the
-- order is an argument of the definition that does so.
use mathlib.Core.Path.{◌≡◌, refl}
use mathlib.Core.Bool.{true, false}
use mathlib.Core.Option.{Option, none, some}
use mathlib.Core.List.{List, [], ◌∷◌}
use native.Mathlib.Omega.{arith}
use agentfile.Common.Tests.{if◌then◌else◌}
use agentfile.Common.Texts.{Text, text_eq, text_eq_iff, mem}

abbrev pub Assoc {ℓ} : Type ℓ → Type ℓ
Assoc V = List (Text × V)

module _ {ℓ} {V : Type ℓ} where
  -- m[k], with `none` for a missing key
  unfoldable pub lookup : Text → Assoc V → Option V
  lookup k [] = none
  lookup k ((j, v) ∷ m) = if text_eq j k then some v else lookup k m

  -- m[k] = v
  unfoldable pub insert : Text → V → Assoc V → Assoc V
  insert k v [] = (k, v) ∷ []
  insert k v ((j, w) ∷ m) = if text_eq j k then (k, v) ∷ m else (j, w) ∷ insert k v m

  -- for k, v := range src { dst[k] = v }: the keys of a map are distinct, so that the order of the
  -- range does not matter.
  unfoldable pub insert_all : Assoc V → Assoc V → Assoc V
  unfolding insert
  insert_all [] dst = dst
  insert_all ((k, v) ∷ src) dst = insert k v (insert_all src dst)

  pub lookup-insert :
      (k j : Text) (v : V) (m : Assoc V)
      → lookup j (insert k v m) ≡ (if text_eq k j then some v else lookup j m)
  unfolding lookup insert
  lookup-insert k j v [] = refl
  lookup-insert k j v ((i, w) ∷ m) =
      ground (arith, text_eq_iff k j, text_eq_iff i k, text_eq_iff i j, lookup-insert k j v m)

  pub lookup-insert_all :
      (k : Text) (src dst : Assoc V)
      → lookup k (insert_all src dst)
        ≡ elim (lookup k src) [ some v ↦ some v | none ↦ lookup k dst ]
  unfolding lookup insert_all
  lookup-insert_all k [] dst = refl
  lookup-insert_all k ((j, v) ∷ src) dst =
      ground (arith, lookup-insert j k v (insert_all src dst), lookup-insert_all k src dst)

  -- delete(m, k)
  unfoldable pub delete : Text → Assoc V → Assoc V
  delete k [] = []
  delete k ((j, v) ∷ m) = let rest = delete k m in if text_eq j k then rest else (j, v) ∷ rest

  -- The keys that a range over the map visits.
  unfoldable pub keys : Assoc V → List Text
  keys [] = []
  keys ((j, v) ∷ m) = j ∷ keys m

  pub lookup-delete :
      (k j : Text) (m : Assoc V)
      → lookup j (delete k m) ≡ (if text_eq k j then none else lookup j m)
  unfolding lookup delete
  lookup-delete k j [] = ground arith
  lookup-delete k j ((i, v) ∷ m) =
      ground (arith, text_eq_iff k j, text_eq_iff i k, text_eq_iff i j, lookup-delete k j m)

  pub mem-keys : (k : Text) (m : Assoc V) → lookup k m ≡ none → mem k (keys m) ≡ false
  unfolding lookup keys
  mem-keys k [] h = refl
  mem-keys k ((j, v) ∷ m) h = ground (arith, text_eq_iff j k, text_eq_iff k j, mem-keys k m)

  pub keys-mem : (k : Text) {v : V} (m : Assoc V) → lookup k m ≡ some v → mem k (keys m) ≡ true
  unfolding lookup keys
  keys-mem k [] h = cc
  keys-mem k {v} ((j, w) ∷ m) h =
      ground (arith, text_eq_iff j k, text_eq_iff k j, keys-mem k {v = v} m)
