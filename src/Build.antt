-- ===== src/Build.antt =====
-- build/build.go: an agentfile pushed to an image store, one layer for its source, each context and each
-- file that it adds, and then the config, the manifest and the tags. The store is an oras.Target, a
-- third-party interface; so is what writes JSON. What a build that fails leaves in the store is not kept.
pub mod Bodies
pub mod Layers
pub mod Packing
pub mod RoundTrip
use agentfile.Common.{◌≡◌, Option, none, some, List, [], ◌∷◌, ◌++◌, if◌then◌else◌}
use agentfile.Common.Maps.{Assoc, lookup, insert, insert_all}
use agentfile.Common.Results.{Result, ok, err, ◌>>=◌}
use agentfile.Common.Texts.{Text, codes, text_eq, is_empty}
use agentfile.Spec.Reference.{Reference, default_tag, to_string}
use agentfile.Spec.Types.{Context, Add, Agent, Agentfile}
use agentfile.System.Materialize.{agentfile_media_type}
use agentfile.Store.{Descriptor, Manifest, Source, context_media_type, octet_stream}

-- The operations of a store that the code calls; a failure is its message.
pub record Target : Type 1 where
  pub State : Type 0
  pub push : Descriptor → Text → State → Result Text State
  pub tag : Descriptor → Text → State → Result Text State
  pub find : Text → State → Result Text Descriptor
  pub fetch : Descriptor → State → Result Text Text

-- v1.Manifest in the fields that differ between builds
pub record BuiltManifest : Type 0 where
  pub config : Descriptor
  pub layers : List Descriptor
  pub annotations : Assoc Text

-- encoding/json
pub record Json : Type 0 where
  pub write_agentfile : Agentfile → Result Text Text
  pub write_manifest : BuiltManifest → Result Text Text
  pub read_agentfile : Text → Result Text Agentfile
  pub read_manifest : Text → Result Text Manifest

pub data BuildError : Type 0 where
  pushing reading marshaling tagging : Text → BuildError
  panic : BuildError

-- spec.ReferenceWithDigest
pub record ReferenceWithDigest : Type 0 where
  pub reference : Reference
  pub digest : Text

-- spec/mediatype.go
abbrev pub agent_config_media_type : Text
agent_config_media_type = codes "application/vnd.openotters.agent.config.v1+json"

abbrev pub manifest_media_type : Text
manifest_media_type = codes "application/vnd.oci.image.manifest.v1+json"

abbrev pub annotation_title : Text
annotation_title = codes "org.opencontainers.image.title"

abbrev pub annotation_created : Text
annotation_created = codes "org.opencontainers.image.created"

-- return nil, fmt.Errorf(...)
unfoldable pub fail_as : {A : Type 0} → (Text → BuildError) → Result Text A → Result BuildError A
fail_as f (ok x) = ok x
fail_as f (err why) = err (f why)

-- The directory of the agentfile, `none` for a nil one: what a file holds.
abbrev pub Files : Type 0
Files = Option (Text → Result Text Text)

-- resolveContextContent
unfoldable pub resolve_context_content : Files → Context → Result BuildError Text
unfolding fail_as
resolve_context_content src c =
    if is_empty c.content
    then if is_empty c.file
      then ok []
      else elim src [ none ↦ ok [] | some read_file ↦ fail_as reading (read_file c.file) ]
    else ok c.content

-- The body of a file that the agentfile adds.
unfoldable pub add_content : Files → Add → Result BuildError Text
unfolding fail_as
add_content src a =
    if is_empty a.content
    then elim src [ none ↦ err panic | some read_file ↦ fail_as reading (read_file a.src) ]
    else ok a.content

-- The annotations of the manifest: the labels, the name, and a time of creation.
unfoldable pub manifest_annotations : Text → Agent → Assoc Text
unfolding lookup insert insert_all
manifest_annotations now a =
    let labels = insert_all a.labels [] in
    let titled = if is_empty a.name then labels else insert annotation_title a.name labels in
    elim (lookup annotation_created titled) [
      | some v ↦ titled
      | none ↦ insert annotation_created now titled
    ]

module _ (T : Target) (digest_of : Text → Text) where
  abbrev pub blob_descriptor : Text → Text → Text → Descriptor
  blob_descriptor media_type title content = record {
    digest = digest_of content;
    media_type = media_type;
    title = title;
  }

  unfoldable pub push_blob : Text → Text → Text → T.State → Result BuildError (Descriptor × T.State)
  unfolding fail_as
  push_blob media_type title content s =
      let desc = blob_descriptor media_type title content in
      do t ← fail_as pushing (T.push desc content s); ok (desc, t)

  unfoldable pub push_source : Text → T.State → Result BuildError (List Descriptor × T.State)
  unfolding push_blob
  push_source source s = if is_empty source then ok ([], s) else do
    (desc, t) ← push_blob agentfile_media_type (codes "Agentfile") source s
    ok (desc ∷ [], t)

  -- for _, c := range agent.Contexts
  unfoldable pub push_contexts :
      Files → List Context → T.State → Result BuildError (List Descriptor × T.State)
  unfolding resolve_context_content push_blob
  push_contexts src [] s = ok ([], s)
  push_contexts src (c ∷ cs) s = do
    content ← resolve_context_content src c
    (desc, t) ← push_blob context_media_type (c.name ++ codes ".md") content s
    (layers, u) ← push_contexts src cs t
    ok (desc ∷ layers, u)

  -- for _, a := range agent.Adds
  unfoldable pub push_adds :
      Files → List Add → T.State → Result BuildError (List Descriptor × T.State)
  unfolding add_content push_blob
  push_adds src [] s = ok ([], s)
  push_adds src (a ∷ adds) s = do
    content ← add_content src a
    (desc, t) ← push_blob octet_stream a.name content s
    (layers, u) ← push_adds src adds t
    ok (desc ∷ layers, u)

  -- The tag by the name, for an agent that has one.
  unfoldable pub tag_name : Text → Descriptor → T.State → Result BuildError T.State
  unfolding fail_as to_string
  tag_name name desc s =
      if is_empty name
      then ok s
      else fail_as tagging (T.tag desc (to_string (record { name = name; tag = default_tag })) s)

  unfoldable pub pack_manifest :
      Json
      → Text
      → Agentfile
      → Agent
      → List Descriptor
      → T.State
      → Result BuildError (ReferenceWithDigest × T.State)
  unfolding push_blob manifest_annotations fail_as tag_name
  pack_manifest j now af a layers s = do
    config_data ← fail_as marshaling (j.write_agentfile af)
    (config, t) ← push_blob agent_config_media_type [] config_data s
    manifest_data ← fail_as marshaling (
        j.write_manifest
          (record { config = config; layers = layers; annotations = manifest_annotations now a }))
    (desc, u) ← push_blob manifest_media_type [] manifest_data t
    v ← fail_as tagging (T.tag desc desc.digest u)
    w ← tag_name a.name desc v
    ok (record { reference = record { name = a.name; tag = default_tag }; digest = desc.digest }, w)

  -- What follows `agent := af.Agent`.
  unfoldable pub build_agent :
      Json
      → Text
      → Agentfile
      → Agent
      → Text
      → Files
      → T.State
      → Result BuildError (ReferenceWithDigest × T.State)
  unfolding push_source push_contexts push_adds pack_manifest
  build_agent j now af a source src s = do
    (first, t) ← push_source source s
    (contexts, u) ← push_contexts src a.contexts t
    (adds, v) ← push_adds src a.adds u
    pack_manifest j now af a (first ++ (contexts ++ adds)) v

  unfoldable pub build :
      Json
      → Text
      → Agentfile
      → Text
      → Files
      → T.State
      → Result BuildError (ReferenceWithDigest × T.State)
  unfolding build_agent
  build j now af source src s = elim af.agent [
    | none ↦ err panic
    | some a ↦ build_agent j now af a source src s
  ]

-- The store that is read, out of the one that was written.
abbrev pub source_of : (T : Target) → Json → T.State → Source
source_of T j s = record {
  find = λ n. T.find n s;
  fetch = λ d. T.fetch d s;
  read_manifest = j.read_manifest;
  read_agentfile = j.read_agentfile;
}

-- What the code relies on: a blob that was pushed is read back by its digest, tags leave the blobs, and a
-- tag is found under its name.
pub record IsLawful (T : Target) : Type 0 where
  pub push-fetch :
      (d e : Descriptor) (content : Text) (s t : T.State)
      → T.push d content s ≡ ok t
      → T.fetch e t ≡ (if text_eq e.digest d.digest then ok content else T.fetch e s)
  pub tag-fetch :
      (d e : Descriptor) (name : Text) (s t : T.State)
      → T.tag d name s ≡ ok t
      → T.fetch e t ≡ T.fetch e s
  pub tag-find :
      (d : Descriptor) (name : Text) (s t : T.State)
      → T.tag d name s ≡ ok t
      → (e : Descriptor) × (T.find name t ≡ ok e) × (e.digest ≡ d.digest)
