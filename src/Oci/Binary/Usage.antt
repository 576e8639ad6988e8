-- ===== src/Oci/Binary/Usage.antt =====
-- oci/usage.go: the usage of a binary.
use agentfile.Common.{
  ◌≡◌, ◌⊎◌, inl, inr, true, false, some, List, [], ◌∷◌, arith, Bool-cases, Option-cases,
}
use agentfile.Common.Results.{Result, ok}
use agentfile.Common.Texts.{Text}
use agentfile.Oci.{Repository}
use agentfile.Oci.Binary
use agentfile.Store.{Descriptor}

module _ (repo : Repository) where
  abbrev pub IsUsage : Text → List Descriptor → Text → Type 0
  IsUsage path [] text = text ≡ []
  IsUsage path (layer ∷ layers) text =
      ((Binary.is_usage path layer ≡ true) × (repo.fetch layer ≡ some text))
      ⊎ ((Binary.is_usage path layer ≡ false) × IsUsage path layers text)

  -- A usage that is found is the content of the first layer whose title is the path or has its last element, and
  -- is empty if there is none.
  find_usage-IsUsage :
      (path : Text) (layers : List Descriptor) (text : Text)
      → Binary.find_usage repo path layers ≡ ok text
      → IsUsage path layers text
  unfolding Binary.find_usage
  find_usage-IsUsage path [] text h =
      let got : Path (Result Binary.BinaryError Text) (ok []) (ok text) = h in cc
  find_usage-IsUsage path (layer ∷ layers) text h = elim (Bool-cases (Binary.is_usage path layer)) [
    | inr u ↦ inr (u, find_usage-IsUsage path layers text (ground (arith, h)))
    | inl u ↦ elim (Option-cases (repo.fetch layer)) [
      | inl f ↦ absurd (ground (arith, h))
      | inr (body, f) ↦ inl (u, ground (arith, h))
    ]
  ]
