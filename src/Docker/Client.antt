-- ===== src/Docker/Client.antt =====
-- executor/docker/refresolve.go, and what executor/docker/store.go asks of the daemon. A digest is its text; a
-- tar archive is the list of its files.
use agentfile.Common.{ℕ, Bool, ◌&&◌, Option, none, some, List, [], ◌∷◌, ltb, if◌then◌else◌}
use agentfile.Common.Texts.{Text, codes, mem, has_prefix}
use agentfile.Common.Lists.{length}

-- ocispec.Descriptor, with the two annotations that the code reads; a missing one is empty.
pub record OciDescriptor : Type 0 where
  pub digest : Text
  pub media_type : Text
  pub size : ℕ
  pub ref_name : Text
  pub image_name : Text

pub record File : Type 0 where
  pub name : Text
  pub content : List ℕ

pub record Image : Type 0 where
  pub id : Text
  pub repo_tags : List Text

-- What the daemon answers, `none` for an error: its images, the archive of an image and whether it ends in
-- an error, and whether it takes an archive; with the JSON of an index.
pub record Client : Type 0 where
  pub image_list : Option (List Image)
  pub image_save : Text → Option (List File × Bool)
  pub image_load : List File → Bool
  pub read_index : List ℕ → Option (List OciDescriptor)
  pub write_index : List OciDescriptor → List ℕ

unfoldable pub is_likely_image_id : Text → Bool
unfolding has_prefix
is_likely_image_id ref = ltb 7 (length ref) && has_prefix ref (codes "sha256:")

-- The first image that has the tag.
unfoldable pub find_tag : Text → List Image → Text
find_tag ref [] = []
find_tag ref (i ∷ images) =
    let rest = find_tag ref images in if mem ref i.repo_tags then i.id else rest

-- The empty text where no image matches.
unfoldable pub resolve_image_id : Client → Text → Option Text
unfolding is_likely_image_id find_tag
resolve_image_id cli ref =
    if is_likely_image_id ref
    then some ref
    else elim cli.image_list [ none ↦ none | some images ↦ some (find_tag ref images) ]
