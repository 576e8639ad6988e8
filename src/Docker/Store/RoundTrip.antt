-- ===== src/Docker/Store/RoundTrip.antt =====
-- executor/docker/store.go: a reference that was tagged, resolved through the daemon.
use agentfile.Common.{
  ℕ, ◌≡◌, refl, ap, ◌∙◌, inl, inr, true, false, none, some, List, [], ◌∷◌, map, arith, Option-cases,
  Bool-cases,
}
use agentfile.Common.Maps.{Assoc, lookup}
use agentfile.Common.Results.{Result, ok, err}
use agentfile.Common.Texts.{Text, text_eq, is_empty, has_prefix}
use agentfile.Docker.Client.{
  OciDescriptor, Image, Client, is_likely_image_id, find_tag, resolve_image_id,
}
use agentfile.Docker.Store.{
  Store, StoreError, new_store, fetch, has_ref, find_manifest, pick_manifest, Saved, read_file,
  read_files, keep_saved, keep_archive, hydrate_tag, resolve_tag, fill_descriptor, blob_file,
  build_layout, is_internal, tag,
}
use agentfile.Docker.Store.Blobs.{all_sha256, from_index, read_files-index, blobs-restored}

pub fill_descriptor-digest :
    (descs : Assoc OciDescriptor) (desc : OciDescriptor)
    → (fill_descriptor descs desc).digest ≡ desc.digest
unfolding fill_descriptor
fill_descriptor-digest descs desc = elim (Option-cases (lookup desc.digest descs)) [
  | inl e ↦ rw (fill_descriptor, e) refl
  | inr e ↦ let (x, found) = e in rw (fill_descriptor, found) refl
]

-- The descriptor under its reference, as it stands in an index.
abbrev pub named : Text → OciDescriptor → OciDescriptor
named ref m = record m { ref_name = ref; image_name = ref }

-- The result has found the descriptor, and what it leaves gives for another descriptor what the store gives.
abbrev pub Restores :
    OciDescriptor → OciDescriptor → Store → Result StoreError (OciDescriptor × Store) → Type 0
Restores m d s (err e) = ⊥
Restores m d s (ok (found, t)) = (found ≡ m) × (fetch d t ≡ fetch d s)

fetch-cong :
    (d : OciDescriptor) (s t : Store)
    → lookup d.digest s.blobs ≡ lookup d.digest t.blobs
    → fetch d s ≡ fetch d t
unfolding fetch
fetch-cong d s t h = rw (fetch, h) refl

tag-ok :
    (cli : Client) (desc : OciDescriptor) (ref : Text) (s : Store) (content : List ℕ)
    → is_internal ref ≡ false
    → lookup desc.digest s.blobs ≡ some content
    → cli.image_load (build_layout cli ref (fill_descriptor s.descs desc) s.blobs) ≡ true
    → (tag cli desc ref s).1 ≡ ok (build_layout cli ref (fill_descriptor s.descs desc) s.blobs)
unfolding tag
tag-ok cli desc ref s content external staged loads =
    let full = fill_descriptor s.descs desc in
    let there : lookup full.digest s.blobs ≡ some content =
      ap (λ x. lookup x s.blobs) (fill_descriptor-digest s.descs desc) ∙ staged in
    rw (external, there, loads) refl

read_files-layout :
    (cli : Client) (m : OciDescriptor) (ref : Text) (blobs : Assoc (List ℕ))
    → read_files (build_layout cli ref m blobs) (record { index_data = none; saved = [] })
      ≡ read_files (map blob_file blobs) (from_index (cli.write_index (named ref m ∷ [])))
unfolding read_files read_file build_layout text_eq has_prefix
read_files-layout cli m ref blobs = refl

-- The only manifest of an archive is taken, whatever its name.
keep_archive-one :
    (cli : Client) (m : OciDescriptor) (ref : Text) (read : Saved) (s : Store) (content : List ℕ)
    → read.index_data ≡ some content
    → cli.read_index content ≡ some (m ∷ [])
    → keep_archive cli ref read s ≡ ok (m, keep_saved m read.saved s)
unfolding keep_archive pick_manifest find_manifest
keep_archive-one cli m ref read s content h k = elim (Bool-cases (has_ref ref m)) [
  | inl e ↦ rw (keep_archive, h, k, pick_manifest, find_manifest, e) refl
  | inr e ↦ rw (keep_archive, h, k, pick_manifest, find_manifest, e) refl
]

resolve_tag-Restores :
    (cli later : Client) (m d : OciDescriptor) (ref id kept : Text) (images : List Image)
    (s : Store)
    → all_sha256 s.blobs ≡ true
    → is_internal ref ≡ false
    → later.image_list ≡ some images
    → find_tag ref images ≡ id
    → is_empty id ≡ false
    → later.image_save id ≡ some (build_layout cli ref m s.blobs, false)
    → later.read_index (cli.write_index (named ref m ∷ [])) ≡ some (named kept m ∷ [])
    → Restores (named kept m) d s (resolve_tag later ref new_store)
unfolding is_internal is_likely_image_id resolve_image_id hydrate_tag resolve_tag lookup new_store
    keep_saved fetch
resolve_tag-Restores cli later m d ref id kept images s digests external listed found filled saves
      reads =
    let not_id : is_likely_image_id ref ≡ false = ground arith in
    let image : resolve_image_id later ref ≡ some id = rw (not_id, listed, found) refl in
    let read =
      read_files (map blob_file s.blobs) (from_index (cli.write_index (named ref m ∷ []))) in
    let got : hydrate_tag later ref new_store
        ≡ ok (named kept m, keep_saved (named kept m) read.saved new_store) =
      rw (hydrate_tag, image, filled, saves)
        (ap (λ x. keep_archive later ref x new_store) (read_files-layout cli m ref s.blobs)
          ∙ keep_archive-one later (named kept m) ref read new_store
              (cli.write_index (named ref m ∷ []))
              (read_files-index s.blobs (from_index (cli.write_index (named ref m ∷ []))) digests)
              reads) in
    rw (resolve_tag, got)
      (
        refl,
        fetch-cong d (keep_saved (named kept m) read.saved new_store) s
            (blobs-restored d.digest s.blobs (cli.write_index (named ref m ∷ [])) digests),
      )

-- A ref that is external, which means that it has a colon and does not begin with "sha256:", is tagged with its
-- manifest staged and all blobs under distinct sha256 digests. If the daemon takes the archive, it is loaded
-- with the image layout of the store. If a daemon then lists the ref under an identifier, saves under it the
-- archive that was loaded, and its index is read as the one manifest that was written, with the name of the ref
-- or any other, or none, a new store over it resolves the ref to that manifest and fetches for each descriptor
-- what the tagging store fetches.
pub tag-resolve_tag :
    (cli later : Client) (desc d : OciDescriptor) (ref id kept : Text) (images : List Image)
    (s : Store) (content : List ℕ)
    → all_sha256 s.blobs ≡ true
    → is_internal ref ≡ false
    → lookup desc.digest s.blobs ≡ some content
    → cli.image_load (build_layout cli ref (fill_descriptor s.descs desc) s.blobs) ≡ true
    → later.image_list ≡ some images
    → find_tag ref images ≡ id
    → is_empty id ≡ false
    → later.image_save id
      ≡ some (build_layout cli ref (fill_descriptor s.descs desc) s.blobs, false)
    → later.read_index (cli.write_index (named ref (fill_descriptor s.descs desc) ∷ []))
      ≡ some (named kept (fill_descriptor s.descs desc) ∷ [])
    → ((tag cli desc ref s).1 ≡ ok (build_layout cli ref (fill_descriptor s.descs desc) s.blobs))
      × Restores (named kept (fill_descriptor s.descs desc)) d s (resolve_tag later ref new_store)
tag-resolve_tag cli later desc d ref id kept images s content digests external staged loads listed
      found filled saves reads =
    (
      tag-ok cli desc ref s content external staged loads,
      resolve_tag-Restores cli later (fill_descriptor s.descs desc) d ref id kept images s digests
          external listed found filled saves reads,
    )
