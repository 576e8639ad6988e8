-- ===== src/Docker/Store.antt =====
-- executor/docker/store.go: the store over Docker's images. A read of the bytes that are pushed does not fail;
-- the order of a map is that of its list.
pub mod Blobs
pub mod RoundTrip
pub mod Target
use agentfile.Common.{
  ℕ, ◌+◌, Bool, true, false, not, ◌||◌, Option, none, some, List, [], ◌∷◌, ◌++◌, map, ◌==◌,
  if◌then◌else◌,
}
use agentfile.Docker.Client.{OciDescriptor, File, Client, resolve_image_id}
use agentfile.Common.Maps.{Assoc, lookup, insert, insert_all}
use agentfile.Common.Paths.{base}
use agentfile.Common.Results.{Result, ok, err}
use agentfile.Common.Texts.{Text, codes, text_eq, is_empty, contains, index, has_prefix}
use agentfile.Common.Lists.{length, take, drop}

pub record Store : Type 0 where
  pub blobs : Assoc (List ℕ)
  pub descs : Assoc OciDescriptor
  pub loaded : Assoc OciDescriptor

pub data StoreError : Type 0 where
  not_found broken_archive no_index bad_index not_staged not_loaded : StoreError

-- NewStore
unfoldable pub new_store : Store
new_store = record { blobs = []; descs = []; loaded = [] }

unfoldable pub push : OciDescriptor → List ℕ → Store → Store
unfolding insert
push desc content s = record s {
  blobs = insert desc.digest content s.blobs;
  descs = insert desc.digest desc s.descs;
}

unfoldable pub fetch : OciDescriptor → Store → Result StoreError (List ℕ)
unfolding lookup
fetch desc s = elim (lookup desc.digest s.blobs) [
  | none ↦ err not_found
  | some content ↦ ok content
]

unfoldable pub exists : OciDescriptor → Store → Bool
unfolding lookup
exists desc s = elim (lookup desc.digest s.blobs) [ none ↦ false | some content ↦ true ]

unfoldable pub has_ref : Text → OciDescriptor → Bool
unfolding text_eq
has_ref ref m = text_eq m.ref_name ref || text_eq m.image_name ref

unfoldable pub find_manifest : List OciDescriptor → Text → Option OciDescriptor
unfolding has_ref
find_manifest [] ref = none
find_manifest (m ∷ ms) ref =
    let rest = find_manifest ms ref in if has_ref ref m then some m else rest

unfoldable pub pick_manifest : List OciDescriptor → Text → Option OciDescriptor
unfolding find_manifest
pick_manifest manifests ref = elim (find_manifest manifests ref) [
  | some m ↦ some m
  | none ↦ elim manifests [ [] ↦ none | m ∷ ms ↦ elim ms [ [] ↦ some m | n ∷ ns ↦ none ] ]
]

-- What the loop over an archive has read.
pub record Saved : Type 0 where
  pub index_data : Option (List ℕ)
  pub saved : Assoc (List ℕ)

unfoldable pub read_file : File → Saved → Saved
unfolding text_eq has_prefix base insert
read_file f s =
    if text_eq f.name (codes "index.json")
    then record s { index_data = some f.content }
    else if has_prefix f.name (codes "blobs/sha256/")
    then record s { saved = insert (codes "sha256:" ++ base f.name) f.content s.saved }
    else s

unfoldable pub read_files : List File → Saved → Saved
unfolding read_file
read_files [] s = s
read_files (f ∷ fs) s = read_files fs (read_file f s)

-- for d, data := range saved
unfoldable pub add_descs : Assoc (List ℕ) → Assoc OciDescriptor → Assoc OciDescriptor
unfolding insert
add_descs [] descs = descs
add_descs ((d, content) ∷ saved) descs = add_descs saved (
    insert d
      (record {
        digest = d;
        media_type = [];
        size = length content;
        ref_name = [];
        image_name = [];
      })
      descs)

unfoldable pub keep_saved : OciDescriptor → Assoc (List ℕ) → Store → Store
unfolding insert insert_all add_descs
keep_saved m saved s = record s {
  blobs = insert_all saved s.blobs;
  descs = insert m.digest m (add_descs saved s.descs);
}

-- The part of hydrate that follows the archive.
unfoldable pub keep_archive :
    Client → Text → Saved → Store → Result StoreError (OciDescriptor × Store)
unfolding pick_manifest keep_saved
keep_archive cli ref read s = elim read.index_data [
  | none ↦ err no_index
  | some index_data ↦ elim (cli.read_index index_data) [
    | none ↦ err bad_index
    | some manifests ↦ elim (pick_manifest manifests ref) [
      | none ↦ err not_found
      | some m ↦ ok (m, keep_saved m read.saved s)
    ]
  ]
]

unfoldable pub hydrate_tag : Client → Text → Store → Result StoreError (OciDescriptor × Store)
unfolding resolve_image_id read_files keep_archive
hydrate_tag cli ref s = elim (resolve_image_id cli ref) [
  | none ↦ err not_found
  | some id ↦ if is_empty id then err not_found else elim (cli.image_save id) [
    | none ↦ err not_found
    | some (files, broken) ↦
        if broken
        then err broken_archive
        else keep_archive cli ref (read_files files (record { index_data = none; saved = [] })) s
  ]
]

unfoldable pub resolve_tag : Client → Text → Store → Result StoreError (OciDescriptor × Store)
unfolding lookup hydrate_tag insert
resolve_tag cli ref s = elim (lookup ref s.loaded) [
  | some desc ↦ ok (desc, s)
  | none ↦ elim (hydrate_tag cli ref s) [
    | err e ↦ err e
    | ok (desc, t) ↦ ok (desc, record t { loaded = insert ref desc t.loaded })
  ]
]

-- A missing media type or size is that of the staged descriptor.
unfoldable pub fill_descriptor : Assoc OciDescriptor → OciDescriptor → OciDescriptor
unfolding lookup
fill_descriptor descs desc = elim (lookup desc.digest descs) [
  | none ↦ desc
  | some staged ↦ record desc {
    media_type = if is_empty desc.media_type then staged.media_type else desc.media_type;
    size = if desc.size == 0 then staged.size else desc.size;
  }
]

-- The algorithm and the hexadecimal part; the code panics at a digest without a colon.
unfoldable pub blob_file : Text × List ℕ → File
unfolding index
blob_file (d, content) = record {
  name = elim (index b':' d) [
    | none ↦ codes "blobs/" ++ d
    | some i ↦ codes "blobs/" ++ (take i d ++ (b'/' ∷ drop (i + 1) d))
  ];
  content = content;
}

-- buildOCILayoutTar
unfoldable pub build_layout : Client → Text → OciDescriptor → Assoc (List ℕ) → List File
unfolding blob_file
build_layout cli ref m blobs =
    record { name = codes "oci-layout"; content = codes "{\"imageLayoutVersion\":\"1.0.0\"}" }
    ∷ record {
      name = codes "index.json";
      content = cli.write_index (record m { ref_name = ref; image_name = ref } ∷ []);
    }
    ∷ map blob_file blobs

unfoldable pub is_internal : Text → Bool
unfolding has_prefix contains
is_internal ref = has_prefix ref (codes "sha256:") || not (contains b':' ref)

-- The store behind a tag, and the result: what was loaded into the daemon, if anything.
unfoldable pub tag : Client → OciDescriptor → Text → Store → Store × Result StoreError (List File)
unfolding fill_descriptor is_internal lookup insert build_layout
tag cli desc ref s =
    let full = fill_descriptor s.descs desc in
    let t = record s { loaded = insert ref full s.loaded } in
    let files = build_layout cli ref full s.blobs in
    (
      t,
      if is_internal ref then ok [] else elim (lookup full.digest s.blobs) [
        | none ↦ err not_staged
        | some content ↦ if cli.image_load files then ok files else err not_loaded
      ],
    )
