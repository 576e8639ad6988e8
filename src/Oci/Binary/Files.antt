-- ===== src/Oci/Binary/Files.antt =====
-- oci/puller.go: which file of an archive is the binary, and which layer has its title.
use agentfile.Common.{
  ◌≡◌, ◌↔◌, refl, ◌⊎◌, inl, inr, Bool, true, false, ◌||◌, none, some, List, [], ◌∷◌, if◌then◌else◌,
  arith, Bool-cases, Option-cases,
}
use agentfile.Common.Lists.{All}
use agentfile.Common.Maps.{lookup}
use agentfile.Common.Paths.{join, base}
use agentfile.Common.Results.{ok}
use agentfile.Common.Texts.{Text, codes, text_eq, text_eq_iff, is_empty}
use agentfile.Oci.{ImageManifest}
use agentfile.Oci.Binary
use agentfile.Store.{Descriptor}

-- A regular file by the path, or with its last element.
abbrev pub IsBin : Text → Binary.TarEntry → Type 0
IsBin path e = (e.regular ≡ true) × ((e.name ≡ path) ⊎ (base e.name ≡ base path))

-- The first such file of an archive.
abbrev pub IsFirst : Text → List Binary.TarEntry → Text → Type 0
IsFirst path [] content = ⊥
IsFirst path (e ∷ files) content =
    (IsBin path e × (e.content ≡ some content)) ⊎ ((¬ (IsBin path e)) × IsFirst path files content)

pub is_bin_iff : (path : Text) (e : Binary.TarEntry) → (Binary.is_bin path e ≡ true) ↔ IsBin path e
unfolding Binary.is_bin
is_bin_iff path e = (
  (λ h. elim (Bool-cases (text_eq e.name path)) [
    | inl n ↦ (ground (arith, h), inl ((text_eq_iff e.name path).0 n))
    | inr n ↦
        (ground (arith, h), inr ((text_eq_iff (base e.name) (base path)).0 (ground (arith, h, n))))
  ]),
  (λ (r, m). elim m [
    | inl n ↦ let same = (text_eq_iff e.name path).1 n in rw (same, r) refl
    | inr n ↦
        let same = (text_eq_iff (base e.name) (base path)).1 n in
        elim (Bool-cases (text_eq e.name path)) [
          | inl q ↦ rw (q, r) refl
          | inr q ↦ rw (q, same, r) refl
        ]
  ]),
)

pub not-IsBin :
    (path : Text) (e : Binary.TarEntry) → Binary.is_bin path e ≡ false → ¬ (IsBin path e)
not-IsBin path e h b = let yes = (is_bin_iff path e).1 b in cc

pub find_file-IsFirst :
    (path : Text) (broken : Bool) (files : List Binary.TarEntry) (content : Text)
    → Binary.find_file path broken files ≡ ok (some content)
    → IsFirst path files content
unfolding Binary.find_file
find_file-IsFirst path broken [] content h = absurd (ground (arith, h))
find_file-IsFirst path broken (e ∷ files) content h = elim (Bool-cases (Binary.is_bin path e)) [
  | inl b ↦ elim (Option-cases e.content) [
    | inl c ↦ absurd (ground (arith, h))
    | inr (x, c) ↦ inl ((is_bin_iff path e).0 b, ground (arith, h))
  ]
  | inr b ↦
      inr (not-IsBin path e b, find_file-IsFirst path broken files content (ground (arith, h)))
]

pub find_file-none :
    (path : Text) (broken : Bool) (files : List Binary.TarEntry)
    → Binary.find_file path broken files ≡ ok none
    → All (λ e. ¬ (IsBin path e)) files
unfolding Binary.find_file
find_file-none path broken [] h = tt
find_file-none path broken (e ∷ files) h = elim (Bool-cases (Binary.is_bin path e)) [
  | inl b ↦ elim (Option-cases e.content) [
    | inl c ↦ absurd (ground (arith, h))
    | inr (x, c) ↦ absurd (ground (arith, h))
  ]
  | inr b ↦ (not-IsBin path e b, find_file-none path broken files (ground (arith, h)))
]

-- An annotation, the empty text if it is missing.
abbrev pub annotated : ImageManifest → Text → Text
annotated manifest k = elim (lookup k manifest.annotations) [ none ↦ [] | some v ↦ v ]

-- The name of the binary, and its path: the directory that is given and the name, if both are there.
abbrev pub name_in : ImageManifest → Text
name_in manifest = annotated manifest (codes "io.openotters.bin.name")

abbrev pub path_in : ImageManifest → Text
path_in manifest =
    let directory = annotated manifest (codes "io.openotters.bin.path") in
    if is_empty directory || is_empty (name_in manifest)
    then directory
    else join directory (name_in manifest)

-- The title is the name or the path, or has the name as its last element.
abbrev pub IsTitled : ImageManifest → Descriptor → Type 0
IsTitled manifest layer =
    (layer.title ≡ name_in manifest)
    ⊎ (layer.title ≡ path_in manifest)
    ⊎ (base layer.title ≡ name_in manifest)

one_of : (a b c : Bool) → (a || (b || c)) ≡ true → (a ≡ true) ⊎ (b ≡ true) ⊎ (c ≡ true)
one_of true b c h = inl refl
one_of false true c h = inr (inl refl)
one_of false false c h = inr (inr h)

or_second : (a b c : Bool) → b ≡ true → (a || (b || c)) ≡ true
or_second a b c h = ground arith

or_third : (a b c : Bool) → c ≡ true → (a || (b || c)) ≡ true
or_third a b c h = ground arith

pub has_title_iff :
    (manifest : ImageManifest) (layer : Descriptor)
    → (Binary.has_title manifest layer ≡ true) ↔ IsTitled manifest layer
unfolding Binary.has_title Binary.bin_name Binary.bin_path
has_title_iff manifest layer =
    let name = text_eq_iff layer.title (name_in manifest) in
    let path = text_eq_iff layer.title (path_in manifest) in
    let last = text_eq_iff (base layer.title) (name_in manifest) in
    (
      (λ h.
          elim (one_of (text_eq layer.title (name_in manifest))
            (text_eq layer.title (path_in manifest)) (text_eq (base layer.title) (name_in manifest))
            h) [
              | inl n ↦ inl (name.0 n)
              | inr (inl n) ↦ inr (inl (path.0 n))
              | inr (inr n) ↦ inr (inr (last.0 n))
            ]),
      (λ t. elim t [
        | inl n ↦ rw (name.1 n) refl
        | inr (inl n) ↦
            or_second (text_eq layer.title (name_in manifest))
              (text_eq layer.title (path_in manifest))
              (text_eq (base layer.title) (name_in manifest)) (path.1 n)
        | inr (inr n) ↦
            or_third (text_eq layer.title (name_in manifest))
              (text_eq layer.title (path_in manifest))
              (text_eq (base layer.title) (name_in manifest)) (last.1 n)
      ]),
    )

pub not-IsTitled :
    (manifest : ImageManifest) (layer : Descriptor)
    → Binary.has_title manifest layer ≡ false
    → ¬ (IsTitled manifest layer)
not-IsTitled manifest layer h t = let yes = (has_title_iff manifest layer).1 t in cc
