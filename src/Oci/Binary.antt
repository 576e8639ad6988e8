-- ===== src/Oci/Binary.antt =====
-- oci/puller.go and usage.go: the binary in an image, in a tar layer or, in an older image, as a layer of its
-- own, and its usage. What gunzips and reads a tar archive is third-party code, and an argument.
pub mod Files
pub mod Origin
pub mod Usage
use agentfile.Common.{Bool, ◌&&◌, ◌||◌, Option, none, some, List, [], ◌∷◌, if◌then◌else◌}
use agentfile.Common.Maps.{lookup}
use agentfile.Common.Paths.{join, base}
use agentfile.Common.Results.{Result, ok, err}
use agentfile.Common.Strings.{contains_text}
use agentfile.Common.Texts.{Text, codes, text_eq, is_empty}
use agentfile.Oci.{ImageManifest, Repository}
use agentfile.Store.{Descriptor}

-- A file of an archive; `content` is `none` when it cannot be copied.
pub record TarEntry : Type 0 where
  pub name : Text
  pub regular : Bool
  pub content : Option Text

-- What is read of an archive, and whether that ends in an error.
pub record Archive : Type 0 where
  pub files : List TarEntry
  pub broken : Bool

pub data BinaryError : Type 0 where
  unfetched bad_gzip bad_tar not_copied no_binary : BinaryError

abbrev pub annotation_bin_name : Text
annotation_bin_name = codes "io.openotters.bin.name"

abbrev pub annotation_bin_path : Text
annotation_bin_path = codes "io.openotters.bin.path"

-- An annotation, the empty text if it is missing.
unfoldable pub annotation : Text → ImageManifest → Text
annotation k manifest = elim (lookup k manifest.annotations) [ none ↦ [] | some v ↦ v ]

unfoldable pub bin_name : ImageManifest → Text
unfolding annotation
bin_name manifest = annotation annotation_bin_name manifest

unfoldable pub bin_path : ImageManifest → Text
unfolding annotation bin_name
bin_path manifest =
    let path = annotation annotation_bin_path manifest in
    if is_empty path || is_empty (bin_name manifest) then path else join path (bin_name manifest)

unfoldable pub is_bin : Text → TarEntry → Bool
is_bin path e = (text_eq e.name path || text_eq (base e.name) (base path)) && e.regular

-- The loop of extractBinFromTar, which has no content if it finds none.
unfoldable pub find_file : Text → Bool → List TarEntry → Result BinaryError (Option Text)
unfolding is_bin
find_file path broken [] = if broken then err bad_tar else ok none
find_file path broken (e ∷ files) =
    let rest = find_file path broken files in
    let copied : Result BinaryError (Option Text) = elim e.content [
      | none ↦ err not_copied
      | some content ↦ ok (some content)
    ] in
    if is_bin path e then copied else rest

unfoldable pub is_tar : Descriptor → Bool
is_tar layer = contains_text layer.media_type (codes "tar")

unfoldable pub has_title : ImageManifest → Descriptor → Bool
unfolding bin_name bin_path
has_title manifest layer =
    text_eq layer.title (bin_name manifest)
    || (text_eq layer.title (bin_path manifest) || text_eq (base layer.title) (bin_name manifest))

module _ (repo : Repository) (gunzip : Text → Option Text) (untar : Text → Archive) where
  -- The reader of a layer.
  unfoldable pub open_layer : Descriptor → Result BinaryError Text
  open_layer layer = elim (repo.fetch layer) [
    | none ↦ err unfetched
    | some body ↦
        let opened : Result BinaryError Text = elim (gunzip body) [
          | none ↦ err bad_gzip
          | some plain ↦ ok plain
        ] in
        if contains_text layer.media_type (codes "gzip") then opened else ok body
  ]

  -- extractBinFromTar
  unfoldable pub extract_bin_from_tar : Descriptor → Text → Result BinaryError (Option Text)
  unfolding open_layer find_file
  extract_bin_from_tar layer path = elim (open_layer layer) [
    | err e ↦ err e
    | ok body ↦ find_file path (untar body).broken (untar body).files
  ]

  -- Pass 1
  unfoldable pub in_tars : Text → List Descriptor → Result BinaryError (Option Text)
  unfolding extract_bin_from_tar is_tar
  in_tars path [] = ok none
  in_tars path (layer ∷ layers) =
      let rest = in_tars path layers in
      let found : Result BinaryError (Option Text) = elim (extract_bin_from_tar layer path) [
        | err e ↦ err e
        | ok content ↦ elim content [ some c ↦ ok (some c) | none ↦ rest ]
      ] in
      if is_tar layer then found else rest

  -- Pass 2
  unfoldable pub in_layers : ImageManifest → List Descriptor → Result BinaryError Text
  unfolding is_tar has_title
  in_layers manifest [] = err no_binary
  in_layers manifest (layer ∷ layers) =
      let rest = in_layers manifest layers in
      let copied : Result BinaryError Text = elim (repo.fetch layer) [
        | none ↦ err unfetched
        | some body ↦ ok body
      ] in
      if is_tar layer then rest else if has_title manifest layer then copied else rest

  -- extractBin
  unfoldable pub extract_bin : ImageManifest → Result BinaryError Text
  unfolding in_tars in_layers bin_path
  extract_bin manifest = elim (in_tars (bin_path manifest) manifest.layers) [
    | err e ↦ err e
    | ok content ↦ elim content [ some c ↦ ok c | none ↦ in_layers manifest manifest.layers ]
  ]

-- oci/usage.go
abbrev pub annotation_bin_usage : Text
annotation_bin_usage = codes "io.openotters.bin.usage"

unfoldable pub is_usage : Text → Descriptor → Bool
is_usage path layer = text_eq layer.title path || text_eq (base layer.title) (base path)

module _ (repo : Repository) where
  -- The loop of extractUsage.
  unfoldable pub find_usage : Text → List Descriptor → Result BinaryError Text
  unfolding is_usage
  find_usage path [] = ok []
  find_usage path (layer ∷ layers) =
      let rest = find_usage path layers in
      let read : Result BinaryError Text = elim (repo.fetch layer) [
        | none ↦ err unfetched
        | some body ↦ ok body
      ] in
      if is_usage path layer then read else rest

  unfoldable pub extract_usage : ImageManifest → Result BinaryError Text
  unfolding annotation find_usage
  extract_usage manifest =
      let path = annotation annotation_bin_usage manifest in
      if is_empty path then ok [] else find_usage path manifest.layers
