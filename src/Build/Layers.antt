-- ===== src/Build/Layers.antt =====
-- build/build.go and store/load.go: what a reader makes of the layers of a build.
use mathlib.Core.Path.{subst}
use agentfile.Common.{
  ◌≡◌, refl, sym, ap, Bool, true, false, not, ◌&&◌, none, some, List, [], ◌∷◌, ◌++◌, map, arith,
  if◌then◌else◌,
}
use agentfile.Common.Lists.{All, All-map}
use agentfile.Common.Results.{ok}
use agentfile.Common.Sets.{Distinct}
use agentfile.Common.Texts.{
  Text, codes, text_eq, text_eq_iff, text_eq_refl, is_empty, mem, trim_suffix,
}
use agentfile.Spec.Types.{Context, Add}
use agentfile.Store.{Descriptor, Source, context_media_type, octet_stream}
use agentfile.Store.Hydration.{layer_body, is_context_of, context_body}
use agentfile.Store.Hydration.Adds.{is_add_of, add_body}
use agentfile.Build
use agentfile.Build.Bodies.{ContextsHeld, AddsHeld}

text_eq-md_nil : (s : Text) → text_eq (s ++ codes ".md") [] ≡ false
unfolding text_eq
text_eq-md_nil [] = refl
text_eq-md_nil (c ∷ s) = refl

text_eq-md_short : (s : Text) → text_eq (s ++ codes ".md") (codes "d") ≡ false
unfolding text_eq
text_eq-md_short [] = refl
text_eq-md_short (c ∷ s) = ground (arith, text_eq-md_nil s)

trim_suffix-md : (s : Text) → trim_suffix (s ++ codes ".md") (codes ".md") ≡ s
unfolding trim_suffix text_eq
trim_suffix-md [] = refl
trim_suffix-md (c ∷ []) = ground arith
trim_suffix-md (c ∷ d ∷ s) = ground (arith, text_eq-md_short s, trim_suffix-md (d ∷ s))

append-not_empty : (s : Text) → is_empty (s ++ codes ".md") ≡ false
append-not_empty [] = refl
append-not_empty (c ∷ s) = refl

-- Layers of which none is a context, and none is a file.
abbrev pub no_context : List Descriptor → Bool
no_context [] = true
no_context (l ∷ ls) = not (text_eq l.media_type context_media_type) && no_context ls

abbrev pub no_add : List Descriptor → Bool
no_add [] = true
no_add (l ∷ ls) = not (text_eq l.media_type octet_stream) && no_add ls

pub context_body-no_context :
    (s : Source) (n : Text) (ls : List Descriptor)
    → no_context ls ≡ true
    → context_body s n ls ≡ none
unfolding context_body
context_body-no_context s n [] h = refl
context_body-no_context s n (l ∷ ls) h = ground (arith, context_body-no_context s n ls)

pub add_body-no_add :
    (s : Source) (n : Text) (ls : List Descriptor) → no_add ls ≡ true → add_body s n ls ≡ none
unfolding add_body
add_body-no_add s n [] h = refl
add_body-no_add s n (l ∷ ls) h = ground (arith, add_body-no_add s n ls)

pub context_body-append :
    (s : Source) (n : Text) (xs ys : List Descriptor)
    → context_body s n (xs ++ ys)
      ≡ elim (context_body s n ys) [ some b ↦ some b | none ↦ context_body s n xs ]
unfolding context_body
context_body-append s n [] ys = ground arith
context_body-append s n (x ∷ xs) ys = ground (arith, context_body-append s n xs ys)

pub add_body-append :
    (s : Source) (n : Text) (xs ys : List Descriptor)
    → add_body s n (xs ++ ys) ≡ elim (add_body s n ys) [ some b ↦ some b | none ↦ add_body s n xs ]
unfolding add_body
add_body-append s n [] ys = ground arith
add_body-append s n (x ∷ xs) ys = ground (arith, add_body-append s n xs ys)

abbrev pub context_names : List Context → List Text
context_names = map (λ (c : Context). c.name)

abbrev pub add_names : List Add → List Text
add_names = map (λ (a : Add). a.name)

module _ (T : Build.Target) (lawful : Build.IsLawful T) (digest_of : Text → Text)
    (digest_injective : (x y : Text) → digest_of x ≡ digest_of y → x ≡ y) (j : Build.Json)
    (src : Build.Files) (s : T.State) where
  abbrev Contexts : List Context → List Descriptor → Type 0
  Contexts = ContextsHeld T lawful digest_of digest_injective src s

  abbrev Adds : List Add → List Descriptor → Type 0
  Adds = AddsHeld T lawful digest_of digest_injective src s

  -- What the layer of a context says to a reader that looks for a name.
  context-layer :
      (n : Text) (c : Context) (l : Descriptor) (content : Text)
      → l ≡ Build.blob_descriptor T digest_of context_media_type (c.name ++ codes ".md") content
      → T.fetch l s ≡ ok content
      → (if is_context_of n l then layer_body (Build.source_of T j s) l else none)
        ≡ (if text_eq c.name n then some content else none)
  unfolding layer_body text_eq
  context-layer n c l content e there =
      subst
        (λ (d : Descriptor).
          T.fetch d s ≡ ok content
          → (if is_context_of n d then layer_body (Build.source_of T j s) d else none)
            ≡ (if text_eq c.name n then some content else none))
        (sym e) (λ got. rw (trim_suffix-md c.name, append-not_empty c.name, got) refl) there

  add-layer :
      (n : Text) (a : Add) (l : Descriptor) (content : Text)
      → l ≡ Build.blob_descriptor T digest_of octet_stream a.name content
      → T.fetch l s ≡ ok content
      → is_empty a.name ≡ false
      → (if is_add_of n l then layer_body (Build.source_of T j s) l else none)
        ≡ (if text_eq a.name n then some content else none)
  unfolding layer_body text_eq
  add-layer n a l content e there named =
      subst
        (λ (d : Descriptor).
          T.fetch d s ≡ ok content
          → (if is_add_of n d then layer_body (Build.source_of T j s) d else none)
            ≡ (if text_eq a.name n then some content else none))
        (sym e) (λ got. rw (named, got) refl) there

  context_body-absent :
      (n : Text) (cs : List Context) (ls : List Descriptor)
      → Contexts cs ls
      → mem n (context_names cs) ≡ false
      → context_body (Build.source_of T j s) n ls ≡ none
  unfolding context_body
  context_body-absent n [] [] h k = refl
  context_body-absent n (c ∷ cs) (l ∷ ls) ((content, p, e, named, there), h) k = ground (
    arith,
    context-layer n c l content e there,
    context_body-absent n cs ls h,
    text_eq_iff c.name n,
    text_eq_iff n c.name,
  )
  context_body-absent n [] (l ∷ ls) h k = absurd h
  context_body-absent n (c ∷ cs) [] h k = absurd h

  -- A reader finds for a context the content that the build pushed.
  abbrev pub Found : List Descriptor → Context → Type 0
  Found ls c =
      (content : Text) × (Build.resolve_context_content src c ≡ ok content)
      × (context_body (Build.source_of T j s) c.name ls ≡ some content)

  pub ContextsHeld-Found :
      (cs : List Context) (ls : List Descriptor)
      → Contexts cs ls
      → Distinct (context_names cs)
      → All (Found ls) cs
  unfolding context_body
  ContextsHeld-Found [] [] h d = tt
  ContextsHeld-Found (c ∷ cs) (l ∷ ls) ((content, p, e, named, there), h) (fresh, d) = (
    (
      content,
      p,
      ground (
        arith,
        context_body-absent c.name cs ls h fresh,
        context-layer c.name c l content e there,
        text_eq_refl c.name,
      ),
    ),
    All-map (Found ls) (Found (l ∷ ls)) cs
        (λ c (found : Found ls c). (found.0, found.1, rw (context_body, found.2) refl))
        (ContextsHeld-Found cs ls h d),
  )
  ContextsHeld-Found [] (l ∷ ls) h d = absurd h
  ContextsHeld-Found (c ∷ cs) [] h d = absurd h

  -- The same for the files that are added, whose names are not empty.
  add_body-absent :
      (n : Text) (adds : List Add) (ls : List Descriptor)
      → Adds adds ls
      → All (λ (a : Add). is_empty a.name ≡ false) adds
      → mem n (add_names adds) ≡ false
      → add_body (Build.source_of T j s) n ls ≡ none
  unfolding add_body
  add_body-absent n [] [] h named k = refl
  add_body-absent n (a ∷ adds) (l ∷ ls) ((content, p, e, own, there), h) (one, rest) k = ground (
    arith,
    add-layer n a l content e there one,
    add_body-absent n adds ls h rest,
    text_eq_iff a.name n,
    text_eq_iff n a.name,
  )
  add_body-absent n [] (l ∷ ls) h named k = absurd h
  add_body-absent n (a ∷ adds) [] h named k = absurd h

  abbrev pub AddFound : List Descriptor → Add → Type 0
  AddFound ls a =
      (content : Text) × (Build.add_content src a ≡ ok content)
      × (add_body (Build.source_of T j s) a.name ls ≡ some content)

  pub AddsHeld-AddFound :
      (adds : List Add) (ls : List Descriptor)
      → Adds adds ls
      → All (λ (a : Add). is_empty a.name ≡ false) adds
      → Distinct (add_names adds)
      → All (AddFound ls) adds
  unfolding add_body
  AddsHeld-AddFound [] [] h named d = tt
  AddsHeld-AddFound (a ∷ adds) (l ∷ ls) ((content, p, e, own, there), h) (one, rest) (fresh, d) = (
    (
      content,
      p,
      ground (
        arith,
        add_body-absent a.name adds ls h rest fresh,
        add-layer a.name a l content e there one,
        text_eq_refl a.name,
      ),
    ),
    All-map (AddFound ls) (AddFound (l ∷ ls)) adds
        (λ a (found : AddFound ls a). (found.0, found.1, rw (add_body, found.2) refl))
        (AddsHeld-AddFound adds ls h rest d),
  )
  AddsHeld-AddFound [] (l ∷ ls) h named d = absurd h
  AddsHeld-AddFound (a ∷ adds) [] h named d = absurd h

  -- The media types of what was pushed.
  ContextsHeld-no_add :
      (cs : List Context) (ls : List Descriptor) → Contexts cs ls → no_add ls ≡ true
  unfolding text_eq
  ContextsHeld-no_add [] [] h = refl
  ContextsHeld-no_add (c ∷ cs) (l ∷ ls) ((content, p, e, named, there), h) =
      rw (ap (λ (d : Descriptor). d.media_type) e) (ContextsHeld-no_add cs ls h)
  ContextsHeld-no_add [] (l ∷ ls) h = absurd h
  ContextsHeld-no_add (c ∷ cs) [] h = absurd h

  pub AddsHeld-no_context :
      (adds : List Add) (ls : List Descriptor) → Adds adds ls → no_context ls ≡ true
  unfolding text_eq
  AddsHeld-no_context [] [] h = refl
  AddsHeld-no_context (a ∷ adds) (l ∷ ls) ((content, p, e, named, there), h) =
      rw (ap (λ (d : Descriptor). d.media_type) e) (AddsHeld-no_context adds ls h)
  AddsHeld-no_context [] (l ∷ ls) h = absurd h
  AddsHeld-no_context (a ∷ adds) [] h = absurd h
