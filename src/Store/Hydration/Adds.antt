-- ===== src/Store/Hydration/Adds.antt =====
-- store/load.go: what hydration does to the files that an agentfile adds.
use agentfile.Common.{
  ◌≡◌, refl, Bool, ◌&&◌, Option, none, some, List, [], ◌∷◌, arith, if◌then◌else◌, inl, inr,
}
use agentfile.Common.Maps.{lookup, lookup-insert}
use agentfile.Common.Results.{Result-cases}
use agentfile.Common.Texts.{Text, text_eq, text_eq_iff}
use agentfile.Spec.Types.{Add}
use agentfile.Store.{
  Descriptor, Source, context_media_type, octet_stream, Bodies, store_body, collect_layer,
  collect_layers, hydrate_add,
}
use agentfile.Store.Hydration.{layer_body}

abbrev pub is_add_of : Text → Descriptor → Bool
is_add_of n l = text_eq l.media_type octet_stream && text_eq l.title n

-- The last layer that is a file of the name and holds something.
unfoldable pub add_body : Source → Text → List Descriptor → Option Text
unfolding layer_body
add_body s n [] = none
add_body s n (l ∷ ls) = elim (add_body s n ls) [
  | some body ↦ some body
  | none ↦ if is_add_of n l then layer_body s l else none
]

add-collect_layer :
    (s : Source) (n : Text) (l : Descriptor) (b : Bodies)
    → lookup n (collect_layer s l b).add_data
      ≡ elim (if is_add_of n l then layer_body s l else none) [
        | some body ↦ some body
        | none ↦ lookup n b.add_data
      ]
unfolding collect_layer store_body layer_body
add-collect_layer s n l b = elim (Result-cases (s.fetch l)) [
  | inr (why, e) ↦ ground arith
  | inl (body, e) ↦ ground (
    arith,
    lookup-insert l.title n body b.add_data,
    text_eq_iff l.media_type octet_stream,
    text_eq_iff l.media_type context_media_type,
  )
]

add-collect_layers :
    (s : Source) (n : Text) (ls : List Descriptor) (b : Bodies)
    → lookup n (collect_layers s ls b).add_data
      ≡ elim (add_body s n ls) [ some body ↦ some body | none ↦ lookup n b.add_data ]
unfolding collect_layers add_body
add-collect_layers s n [] b = refl
add-collect_layers s n (l ∷ ls) b =
    ground (arith, add-collect_layers s n ls (collect_layer s l b), add-collect_layer s n l b)

-- A file as it is stored gets the body of its layer.
pub hydrate_add_lem :
    (s : Source) (ls : List Descriptor) (a : Add)
    → hydrate_add (collect_layers s ls (record { context_data = []; add_data = [] })).add_data a
      ≡ elim (add_body s a.name ls) [ none ↦ a | some body ↦ record a { content = body } ]
unfolding hydrate_add lookup
hydrate_add_lem s ls a =
    ground (arith, add-collect_layers s a.name ls (record { context_data = []; add_data = [] }))
