-- ===== src/Oci/Binary/Origin.antt =====
-- oci/puller.go: where the binary of an image comes from.
use agentfile.Common.{
  ◌≡◌, ◌⊎◌, inl, inr, Bool, true, false, Option, none, some, List, [], ◌∷◌, arith, Bool-cases,
  Option-cases,
}
use agentfile.Common.Lists.{All}
use agentfile.Common.Results.{ok, Result-cases}
use agentfile.Common.Strings.{contains_text}
use agentfile.Common.Texts.{Text, codes}
use agentfile.Oci.{ImageManifest, Repository}
use agentfile.Oci.Binary
use agentfile.Store.{Descriptor}
use agentfile.Oci.Binary.Files.{
  IsBin, IsFirst, path_in, IsTitled, find_file-IsFirst, find_file-none, has_title_iff, not-IsTitled,
}

abbrev pub in_media_type : Descriptor → Text → Bool
in_media_type layer word = contains_text layer.media_type word

module _ (repo : Repository) (gunzip : Text → Option Text) (untar : Text → Binary.Archive) where
  -- What a layer holds, out of its gzip if its media type says so.
  abbrev pub IsOpened : Descriptor → Text → Type 0
  IsOpened layer body =
      (raw : Text) × (repo.fetch layer ≡ some raw)
      × (((in_media_type layer (codes "gzip") ≡ true) × (gunzip raw ≡ some body))
          ⊎ ((in_media_type layer (codes "gzip") ≡ false) × (raw ≡ body)))

  -- The layer is a tar, and the binary is in it; or it is none, or holds no binary.
  abbrev pub IsHere : Text → Descriptor → Text → Type 0
  IsHere path layer content =
      (in_media_type layer (codes "tar") ≡ true)
      × ((body : Text) × IsOpened layer body × IsFirst path (untar body).files content)

  abbrev pub IsPassed : Text → Descriptor → Type 0
  IsPassed path layer =
      (in_media_type layer (codes "tar") ≡ false)
      ⊎ ((body : Text) × IsOpened layer body × All (λ e. ¬ (IsBin path e)) (untar body).files)

  -- The first tar layer with the binary.
  abbrev pub InTars : Text → List Descriptor → Text → Type 0
  InTars path [] content = ⊥
  InTars path (layer ∷ layers) content =
      IsHere path layer content ⊎ (IsPassed path layer × InTars path layers content)

  -- The first layer with a title that is no tar.
  abbrev pub InLayers : ImageManifest → List Descriptor → Text → Type 0
  InLayers manifest [] content = ⊥
  InLayers manifest (layer ∷ layers) content =
      ((in_media_type layer (codes "tar") ≡ false)
        × IsTitled manifest layer
        × (repo.fetch layer ≡ some content))
      ⊎ (((in_media_type layer (codes "tar") ≡ true) ⊎ (¬ (IsTitled manifest layer)))
          × InLayers manifest layers content)

  open_layer-IsOpened :
      (layer : Descriptor) (body : Text)
      → Binary.open_layer repo gunzip untar layer ≡ ok body
      → IsOpened layer body
  unfolding Binary.open_layer
  open_layer-IsOpened layer body h = elim (Option-cases (repo.fetch layer)) [
    | inl f ↦ absurd (ground (arith, h))
    | inr (raw, f) ↦ elim (Bool-cases (in_media_type layer (codes "gzip"))) [
      | inr g ↦ (raw, f, inr (g, ground (arith, h)))
      | inl g ↦ elim (Option-cases (gunzip raw)) [
        | inl z ↦ absurd (ground (arith, h))
        | inr (plain, z) ↦ (raw, f, inl (g, ground (arith, h)))
      ]
    ]
  ]

  -- What was looked at of a tar layer.
  abbrev Seen : Text → Descriptor → Option Text → Type 0
  Seen path layer (some content) =
      (body : Text) × IsOpened layer body × IsFirst path (untar body).files content
  Seen path layer none =
      (body : Text) × IsOpened layer body × All (λ e. ¬ (IsBin path e)) (untar body).files

  found-Seen :
      (layer : Descriptor) (path body : Text) (found : Option Text)
      → IsOpened layer body
      → Binary.find_file path (untar body).broken (untar body).files ≡ ok found
      → Seen path layer found
  found-Seen layer path body none o h =
      (body, o, find_file-none path (untar body).broken (untar body).files h)
  found-Seen layer path body (some content) o h =
      (body, o, find_file-IsFirst path (untar body).broken (untar body).files content h)

  extract_bin_from_tar-Seen :
      (layer : Descriptor) (path : Text) (found : Option Text)
      → Binary.extract_bin_from_tar repo gunzip untar layer path ≡ ok found
      → Seen path layer found
  unfolding Binary.extract_bin_from_tar
  extract_bin_from_tar-Seen layer path found h =
      elim (Result-cases (Binary.open_layer repo gunzip untar layer)) [
        | inr (e, o) ↦ absurd (ground (arith, h, o))
        | inl (body, o) ↦
            found-Seen layer path body found (open_layer-IsOpened layer body o)
              (rw (Binary.extract_bin_from_tar, o) at h)
      ]

  in_tars-InTars :
      (path : Text) (layers : List Descriptor) (content : Text)
      → Binary.in_tars repo gunzip untar path layers ≡ ok (some content)
      → InTars path layers content
  unfolding Binary.in_tars Binary.is_tar
  in_tars-InTars path [] content h = absurd (ground (arith, h))
  in_tars-InTars path (layer ∷ layers) content h =
      elim (Bool-cases (in_media_type layer (codes "tar"))) [
        | inr t ↦ inr (inl t, in_tars-InTars path layers content (ground (arith, h)))
        | inl t ↦ elim (Result-cases (Binary.extract_bin_from_tar repo gunzip untar layer path)) [
          | inr (e, x) ↦ absurd (ground (arith, h, x))
          | inl (none, x) ↦ inr (
            inr (extract_bin_from_tar-Seen layer path none x),
            in_tars-InTars path layers content (rw (Binary.in_tars, t, x) at h),
          )
          | inl (some c, x) ↦
              inl (t, extract_bin_from_tar-Seen layer path (some content) (ground (arith, h, x)))
        ]
      ]

  in_tars-IsPassed :
      (path : Text) (layers : List Descriptor)
      → Binary.in_tars repo gunzip untar path layers ≡ ok none
      → All (IsPassed path) layers
  unfolding Binary.in_tars Binary.is_tar
  in_tars-IsPassed path [] h = tt
  in_tars-IsPassed path (layer ∷ layers) h = elim (Bool-cases (in_media_type layer (codes "tar"))) [
    | inr t ↦ (inl t, in_tars-IsPassed path layers (ground (arith, h)))
    | inl t ↦ elim (Result-cases (Binary.extract_bin_from_tar repo gunzip untar layer path)) [
      | inr (e, x) ↦ absurd (ground (arith, h, x))
      | inl (none, x) ↦ (
        inr (extract_bin_from_tar-Seen layer path none x),
        in_tars-IsPassed path layers (rw (Binary.in_tars, t, x) at h),
      )
      | inl (some c, x) ↦ absurd (ground (arith, h, x))
    ]
  ]

  in_layers-InLayers :
      (manifest : ImageManifest) (layers : List Descriptor) (content : Text)
      → Binary.in_layers repo gunzip untar manifest layers ≡ ok content
      → InLayers manifest layers content
  unfolding Binary.in_layers Binary.is_tar
  in_layers-InLayers manifest [] content h = absurd (ground (arith, h))
  in_layers-InLayers manifest (layer ∷ layers) content h =
      elim (Bool-cases (in_media_type layer (codes "tar"))) [
        | inl t ↦ inr (inl t, in_layers-InLayers manifest layers content (ground (arith, h)))
        | inr t ↦ elim (Bool-cases (Binary.has_title manifest layer)) [
          | inr n ↦ inr (
            inr (not-IsTitled manifest layer n),
            in_layers-InLayers manifest layers content (ground (arith, h)),
          )
          | inl n ↦ elim (Option-cases (repo.fetch layer)) [
            | inl f ↦ absurd (ground (arith, h))
            | inr (body, f) ↦ inl (t, (has_title_iff manifest layer).0 n, ground (arith, h))
          ]
        ]
      ]

  -- A binary that is extracted is the first regular file of a tar layer by the path that the annotations give or
  -- with its last element, and no tar layer before that one has such a file; or no tar layer has one, and it is the
  -- first layer that is no tar and whose title is the name or the path that the annotations give, or has the name
  -- as its last element. A layer counts as a tar, and as gzipped, if its media type says so.
  pub extract_bin-Origin :
      (manifest : ImageManifest) (content : Text)
      → Binary.extract_bin repo gunzip untar manifest ≡ ok content
      → InTars (path_in manifest) manifest.layers content
        ⊎ (All (IsPassed (path_in manifest)) manifest.layers
            × InLayers manifest manifest.layers content)
  unfolding Binary.extract_bin Binary.bin_path
  extract_bin-Origin manifest content h =
      elim (Result-cases (Binary.in_tars repo gunzip untar (path_in manifest) manifest.layers)) [
        | inr (e, x) ↦ absurd (ground (arith, h, x))
        | inl (none, x) ↦ inr (
          in_tars-IsPassed (path_in manifest) manifest.layers x,
          in_layers-InLayers manifest manifest.layers content (rw (Binary.extract_bin, x) at h),
        )
        | inl (some c, x) ↦
            inl (in_tars-InTars (path_in manifest) manifest.layers content (ground (arith, h, x)))
      ]
