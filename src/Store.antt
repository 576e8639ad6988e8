-- ===== src/Store.antt =====
-- store/load.go: an agentfile out of an image store, with the contents of its layers. The store is a
-- third-party library, and so is what reads the JSON of the manifest and the agentfile.
pub mod Hydration
use agentfile.Common.{none, some, List, [], ◌∷◌, map, if◌then◌else◌}
use agentfile.Common.Maps.{Assoc, lookup, insert}
use agentfile.Common.Results.{Result, ok, err}
use agentfile.Common.Texts.{Text, codes, text_eq, is_empty, trim_suffix}
use agentfile.Spec.Reference.{Reference, to_string}
use agentfile.Spec.Types.{Context, Add, Agent, Agentfile}

-- What the code reads of a descriptor; a missing title annotation is the empty text.
pub record Descriptor : Type 0 where
  pub digest : Text
  pub media_type : Text
  pub title : Text

pub record Manifest : Type 0 where
  pub config : Descriptor
  pub layers : List Descriptor

-- The read side of a store, and the two readers of JSON; a failure is its message.
pub record Source : Type 0 where
  pub find : Text → Result Text Descriptor
  pub fetch : Descriptor → Result Text Text
  pub read_manifest : Text → Result Text Manifest
  pub read_agentfile : Text → Result Text Agentfile

pub data LoadError : Type 0 where
  resolving fetching_manifest parsing_manifest fetching_config parsing_agentfile : Text → LoadError

abbrev pub context_media_type : Text
context_media_type = codes "application/vnd.openotters.context.v1"

abbrev pub octet_stream : Text
octet_stream = codes "application/octet-stream"

-- return nil, fmt.Errorf(...)
unfoldable pub wrap : {A : Type 0} → (Text → LoadError) → Result Text A → Result LoadError A
wrap f (ok x) = ok x
wrap f (err why) = err (f why)

unfoldable pub load_config : Source → Manifest → Result LoadError (Manifest × Agentfile)
load_config s m = elim (wrap fetching_config (s.fetch m.config)) [
  | err e ↦ err e
  | ok body ↦ elim (wrap parsing_agentfile (s.read_agentfile body)) [
    | err e ↦ err e
    | ok af ↦ ok (m, af)
  ]
]

unfoldable pub load : Source → Reference → Result LoadError (Manifest × Agentfile)
load s ref = elim (wrap resolving (s.find (to_string ref))) [
  | err e ↦ err e
  | ok desc ↦ elim (wrap fetching_manifest (s.fetch desc)) [
    | err e ↦ err e
    | ok text ↦ elim (wrap parsing_manifest (s.read_manifest text)) [
      | err e ↦ err e
      | ok m ↦ load_config s m
    ]
  ]
]

-- `contextData` and `addData`
pub record Bodies : Type 0 where
  pub context_data : Assoc Text
  pub add_data : Assoc Text

-- The switch over the media type.
unfoldable pub store_body : Descriptor → Text → Bodies → Bodies
unfolding text_eq trim_suffix insert
store_body layer body b =
    if text_eq layer.media_type context_media_type
    then record b {
      context_data = insert (trim_suffix layer.title (codes ".md")) body b.context_data;
    }
    else if text_eq layer.media_type octet_stream
    then record b { add_data = insert layer.title body b.add_data }
    else b

-- One round of the loop: a layer without a title, or that cannot be fetched, is passed over.
unfoldable pub collect_layer : Source → Descriptor → Bodies → Bodies
unfolding store_body
collect_layer s layer b =
    if is_empty layer.title
    then b
    else elim (s.fetch layer) [ err why ↦ b | ok body ↦ store_body layer body b ]

unfoldable pub collect_layers : Source → List Descriptor → Bodies → Bodies
unfolding collect_layer
collect_layers s [] b = b
collect_layers s (l ∷ ls) b = collect_layers s ls (collect_layer s l b)

unfoldable pub hydrate_context : Assoc Text → Context → Context
unfolding lookup
hydrate_context context_data c =
    if is_empty c.content
    then elim (lookup c.name context_data) [
      | none ↦ c
      | some body ↦ record c { content = body; file = [] }
    ]
    else c

unfoldable pub hydrate_add : Assoc Text → Add → Add
unfolding lookup
hydrate_add add_data a = elim (lookup a.name add_data) [
  | none ↦ a
  | some body ↦ record a { content = body }
]

unfoldable pub hydrate_agent : Bodies → Agent → Agent
unfolding hydrate_context hydrate_add
hydrate_agent b a = record a {
  contexts = map (hydrate_context b.context_data) a.contexts;
  adds = map (hydrate_add b.add_data) a.adds;
}

unfoldable pub hydrate : Source → Manifest → Agentfile → Agentfile
unfolding collect_layers hydrate_agent
hydrate s m af = elim af.agent [
  | none ↦ af
  | some a ↦ record af {
    agent =
        some (
          hydrate_agent (collect_layers s m.layers (record { context_data = []; add_data = [] }))
            a);
  }
]

unfoldable pub load_hydrated : Source → Reference → Result LoadError Agentfile
unfolding load hydrate
load_hydrated s ref = elim (load s ref) [ err e ↦ err e | ok (m, af) ↦ ok (hydrate s m af) ]
