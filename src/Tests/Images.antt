-- ===== src/Tests/Images.antt =====
-- A manifest and a layer, tagged and resolved again.
use agentfile.Common.{◌≡◌, refl, true, false, some, none, [], ◌∷◌, if◌then◌else◌}
use agentfile.Common.Maps.{lookup, insert}
use agentfile.Common.Results.{ok}
use agentfile.Common.Texts.{Text, codes, text_eq, contains, has_prefix}
use agentfile.Docker.Client.{OciDescriptor, Client, find_tag}
use agentfile.Docker.Store.{
  Store, new_store, push, fill_descriptor, build_layout, is_internal, tag, resolve_tag,
}
use agentfile.Docker.Store.Blobs.{is_sha256, all_sha256}
use agentfile.Docker.Store.RoundTrip.{named, Restores, tag-resolve_tag}

abbrev manifest : OciDescriptor
manifest = record {
  digest = codes "sha256:a1";
  media_type = codes "application/json";
  size = 2;
  ref_name = [];
  image_name = [];
}

abbrev layer : OciDescriptor
layer = record {
  digest = codes "sha256:b2";
  media_type = codes "text/plain";
  size = 3;
  ref_name = [];
  image_name = [];
}

-- What a caller that knows the digest alone tags.
abbrev bare : OciDescriptor
bare = record manifest { media_type = []; size = 0 }

abbrev staged : Store
staged = push manifest (codes "{}") (push layer (codes "abc") new_store)

abbrev ref : Text
ref = codes "agent:latest"

abbrev found : OciDescriptor
found = named ref (fill_descriptor staged.descs bare)

abbrev builder : Client
builder = record {
  image_list = some [];
  image_save = λ id. none;
  image_load = λ files. true;
  read_index = λ content. none;
  write_index = λ manifests. codes "index";
}

abbrev daemon : Client
daemon = record builder {
  image_list = some (record { id = codes "sha256:c3"; repo_tags = ref ∷ [] } ∷ []);
  image_save =
      λ id. some (build_layout builder ref (fill_descriptor staged.descs bare) staged.blobs, false);
  read_index = λ content. if text_eq content (codes "index") then some (found ∷ []) else none;
}

tag-resolve_tag_example :
    ((tag builder bare ref staged).1
      ≡ ok (build_layout builder ref (fill_descriptor staged.descs bare) staged.blobs))
    × Restores found layer staged (resolve_tag daemon ref new_store)
unfolding push new_store insert lookup all_sha256 is_sha256 is_internal has_prefix contains find_tag
    text_eq
tag-resolve_tag_example =
    tag-resolve_tag builder daemon bare layer ref (codes "sha256:c3") ref
      (record { id = codes "sha256:c3"; repo_tags = ref ∷ [] } ∷ []) staged (codes "{}") refl refl
      refl refl refl refl refl refl refl
