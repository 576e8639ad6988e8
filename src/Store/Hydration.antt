-- ===== src/Store/Hydration.antt =====
-- store/load.go: what hydration does to contexts, and to what Validate checks.
pub mod Adds
use agentfile.Common.{
  ◌≡◌, refl, Bool, true, ◌&&◌, Option, none, some, List, [], ◌∷◌, map, arith, if◌then◌else◌, inl,
  inr,
}
use agentfile.Common.Lists.{All}
use agentfile.Common.Maps.{Assoc, lookup, lookup-insert}
use agentfile.Common.Results.{ok, err, Result-cases}
use agentfile.Common.Texts.{Text, codes, text_eq, is_empty, trim_suffix}
use agentfile.Spec.Names.{is_path_safe_name}
use agentfile.Spec.Reference.{Reference}
use agentfile.Spec.Types.{Context, Add, Agent, Agentfile}
use agentfile.Spec.Validate.Rules.{ContextRule}
use agentfile.Resolve.Safety.{IsSound}
use agentfile.Store.{
  Descriptor, Manifest, Source, context_media_type, load, Bodies, store_body, collect_layer,
  collect_layers, hydrate_context, hydrate_add, hydrate_agent, hydrate, load_hydrated,
}

-- What a layer holds if it has a title and can be fetched.
unfoldable pub layer_body : Source → Descriptor → Option Text
layer_body s l =
    if is_empty l.title then none else elim (s.fetch l) [ err why ↦ none | ok body ↦ some body ]

abbrev pub is_context_of : Text → Descriptor → Bool
is_context_of n l =
    text_eq l.media_type context_media_type && text_eq (trim_suffix l.title (codes ".md")) n

-- The last layer that is a context of the name and holds something.
unfoldable pub context_body : Source → Text → List Descriptor → Option Text
unfolding layer_body
context_body s n [] = none
context_body s n (l ∷ ls) = elim (context_body s n ls) [
  | some body ↦ some body
  | none ↦ if is_context_of n l then layer_body s l else none
]

context-collect_layer :
    (s : Source) (n : Text) (l : Descriptor) (b : Bodies)
    → lookup n (collect_layer s l b).context_data
      ≡ elim (if is_context_of n l then layer_body s l else none) [
        | some body ↦ some body
        | none ↦ lookup n b.context_data
      ]
unfolding collect_layer store_body layer_body
context-collect_layer s n l b = elim (Result-cases (s.fetch l)) [
  | inr (why, e) ↦ ground arith
  | inl (body, e) ↦
      ground (arith, lookup-insert (trim_suffix l.title (codes ".md")) n body b.context_data)
]

context-collect_layers :
    (s : Source) (n : Text) (ls : List Descriptor) (b : Bodies)
    → lookup n (collect_layers s ls b).context_data
      ≡ elim (context_body s n ls) [ some body ↦ some body | none ↦ lookup n b.context_data ]
unfolding collect_layers context_body
context-collect_layers s n [] b = refl
context-collect_layers s n (l ∷ ls) b =
    ground
      (arith, context-collect_layers s n ls (collect_layer s l b), context-collect_layer s n l b)

-- A context as it is stored gets the body of its layer, unless it has a content.
abbrev pub filled : Option Text → Context → Context
filled none c = c
filled (some body) c = if is_empty c.content then record c { content = body; file = [] } else c

hydrate_context-filled :
    (s : Source) (ls : List Descriptor) (c : Context)
    → hydrate_context
        (collect_layers s ls (record { context_data = []; add_data = [] })).context_data
        c
      ≡ filled (context_body s c.name ls) c
unfolding hydrate_context lookup
hydrate_context-filled s ls c =
    ground (arith, context-collect_layers s c.name ls (record { context_data = []; add_data = [] }))

pub map-filled :
    (s : Source) (ls : List Descriptor) (cs : List Context)
    → map
        (hydrate_context
          (collect_layers s ls (record { context_data = []; add_data = [] })).context_data)
        cs
      ≡ map (λ (c : Context). filled (context_body s c.name ls) c) cs
map-filled s ls [] = refl
map-filled s ls (c ∷ cs) = rw (map-filled s ls cs, hydrate_context-filled s ls c) refl

-- A load that succeeds hydrates: the agent's contexts are those that were stored, in their order, each
-- without a content filled with the last layer that is a context of its name, has a title and can be
-- fetched, if there is one; a layer that cannot be fetched stops nothing.
pub load_hydrated-filled :
    (s : Source) (ref : Reference) (m : Manifest) (af : Agentfile) (a : Agent)
    → load s ref ≡ ok (m, af)
    → af.agent ≡ some a
    → (r : Agentfile) × (b : Agent) × (load_hydrated s ref ≡ ok r)
      × (r.agent ≡ some b)
      × (b.contexts ≡ map (λ (c : Context). filled (context_body s c.name m.layers) c) a.contexts)
unfolding load_hydrated hydrate hydrate_agent
load_hydrated-filled s ref m af a l e =
    let bodies = collect_layers s m.layers (record { context_data = []; add_data = [] }) in
    let b = hydrate_agent bodies a in
    (record af { agent = some b }, b, ground arith, refl, map-filled s m.layers a.contexts)

hydrate_context-name : (d : Assoc Text) (c : Context) → (hydrate_context d c).name ≡ c.name
unfolding hydrate_context
hydrate_context-name d c = ground arith

hydrate_add-name : (d : Assoc Text) (a : Add) → (hydrate_add d a).name ≡ a.name
unfolding hydrate_add
hydrate_add-name d a = ground arith

contexts_keep :
    (d : Assoc Text) (cs : List Context)
    → All ContextRule cs
    → All ContextRule (map (hydrate_context d) cs)
contexts_keep d [] h = tt
contexts_keep d (c ∷ cs) h = (
  record {
    safe = rw (hydrate_context-name d c) h.0.safe;
    free = rw (hydrate_context-name d c) h.0.free;
  },
  contexts_keep d cs h.1,
)

adds_keep :
    (d : Assoc Text) (adds : List Add)
    → All (λ (a : Add). is_path_safe_name a.name ≡ true) adds
    → All (λ (a : Add). is_path_safe_name a.name ≡ true) (map (hydrate_add d) adds)
adds_keep d [] h = tt
adds_keep d (a ∷ rest) h = (rw (hydrate_add-name d a) h.0, adds_keep d rest h.1)

hydrate-IsSound :
    (s : Source) (m : Manifest) (af : Agentfile) → IsSound af → IsSound (hydrate s m af)
unfolding hydrate hydrate_agent
hydrate-IsSound s m af (a, e, r) =
    let b = collect_layers s m.layers (record { context_data = []; add_data = [] }) in
    (
      hydrate_agent b a,
      ground arith,
      record {
        from = r.from;
        name = r.name;
        contexts = contexts_keep b.context_data a.contexts r.contexts;
        bins = r.bins;
        adds = adds_keep b.add_data a.adds r.adds;
        configs = r.configs;
        capabilities = r.capabilities;
        envs = r.envs;
      },
    )

-- If what is loaded has an agent that obeys the rules of Validate, then so has what is loaded with its
-- contents, and that load succeeds too.
load_hydrated-IsSound :
    (s : Source) (ref : Reference) (m : Manifest) (af : Agentfile)
    → load s ref ≡ ok (m, af)
    → IsSound af
    → (r : Agentfile) × (load_hydrated s ref ≡ ok r) × IsSound r
unfolding load_hydrated
load_hydrated-IsSound s ref m af l h = (hydrate s m af, ground arith, hydrate-IsSound s m af h)
