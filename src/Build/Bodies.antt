-- ===== src/Build/Bodies.antt =====
-- build/build.go and store/load.go: the layers that a build pushes, as they are read back.
use mathlib.Core.Path.{subst}
use agentfile.Common.{◌≡◌, refl, sym, ap, ◌∙◌, List, [], ◌∷◌, ◌++◌, inl, inr, Bool-cases}
use agentfile.Common.Results.{Result, ok, err, >>=-eq-ok}
use agentfile.Common.Texts.{Text, codes, text_eq, text_eq_iff, text_eq_refl}
use agentfile.Spec.Types.{Context, Add}
use agentfile.Store.{Descriptor, context_media_type, octet_stream}
use agentfile.Build

pub fail_as-ok :
    {A : Type 0} (f : Text → Build.BuildError) (m : Result Text A) {x : A}
    → Build.fail_as f m ≡ ok x
    → m ≡ ok x
unfolding Build.fail_as
fail_as-ok f (ok y) h = cc
fail_as-ok f (err why) h = cc

module _ (T : Build.Target) (lawful : Build.IsLawful T) (digest_of : Text → Text)
    (digest_injective : (x y : Text) → digest_of x ≡ digest_of y → x ≡ y) where
  -- The descriptor is that of the content, which the store holds.
  abbrev pub Holds : Descriptor → Text → T.State → Type 0
  Holds d content s = (d.digest ≡ digest_of content) × (T.fetch d s ≡ ok content)

  pub Holds-push :
      (d e : Descriptor) (x y : Text) (s t : T.State)
      → d.digest ≡ digest_of x
      → T.push d x s ≡ ok t
      → Holds e y s
      → Holds e y t
  Holds-push d e x y s t own pushed (named, there) = (
    named,
    elim (Bool-cases (text_eq e.digest d.digest)) [
      | inl same ↦
          let eq : e.digest ≡ d.digest = (text_eq_iff e.digest d.digest).0 same in
          let xy : x ≡ y = digest_injective x y (sym own ∙ (sym eq ∙ named)) in
          rw (lawful.push-fetch d e x s t pushed, same) (ap ok xy)
      | inr other ↦ rw (lawful.push-fetch d e x s t pushed, other) there
    ],
  )

  pub Holds-pushed :
      (d : Descriptor) (x : Text) (s t : T.State)
      → d.digest ≡ digest_of x
      → T.push d x s ≡ ok t
      → Holds d x t
  Holds-pushed d x s t own pushed =
      (own, rw (lawful.push-fetch d d x s t pushed, text_eq_refl d.digest) refl)

  pub Holds-tag :
      (d e : Descriptor) (name y : Text) (s t : T.State)
      → T.tag d name s ≡ ok t
      → Holds e y s
      → Holds e y t
  Holds-tag d e name y s t tagged (named, there) =
      (named, lawful.tag-fetch d e name s t tagged ∙ there)

  pub push_blob-ok :
      (media_type title x : Text) (s t : T.State) (d : Descriptor)
      → Build.push_blob T digest_of media_type title x s ≡ ok (d, t)
      → (d ≡ Build.blob_descriptor T digest_of media_type title x) × (T.push d x s ≡ ok t)
  unfolding Build.push_blob
  push_blob-ok media_type title x s t d h =
      let desc = Build.blob_descriptor T digest_of media_type title x in
      let (u, p, q) = >>=-eq-ok (Build.fail_as Build.pushing (T.push desc x s)) _ h in
      (cc q, cc (fail_as-ok Build.pushing (T.push desc x s) p, q))

  -- What was held before the push of a blob is held after it.
  pub Holds-push_blob :
      (media_type title x : Text) (s t : T.State) (d e : Descriptor) (y : Text)
      → Build.push_blob T digest_of media_type title x s ≡ ok (d, t)
      → Holds e y s
      → Holds e y t
  Holds-push_blob media_type title x s t d e y h k =
      let (same, pushed) = push_blob-ok media_type title x s t d h in
      Holds-push d e x y s t (ap (λ (l : Descriptor). l.digest) same) pushed k

  pub push_blob-Holds :
      (media_type title x : Text) (s t : T.State) (d : Descriptor)
      → Build.push_blob T digest_of media_type title x s ≡ ok (d, t)
      → Holds d x t
  push_blob-Holds media_type title x s t d h =
      let (same, pushed) = push_blob-ok media_type title x s t d h in
      Holds-pushed d x s t (ap (λ (l : Descriptor). l.digest) same) pushed

  -- Each context has its layer, which is held.
  abbrev pub ContextsHeld : Build.Files → T.State → List Context → List Descriptor → Type 0
  ContextsHeld src s [] [] = Unit
  ContextsHeld src s (c ∷ cs) (l ∷ ls) =
      ((content : Text) × (Build.resolve_context_content src c ≡ ok content)
        × (l ≡ Build.blob_descriptor T digest_of context_media_type (c.name ++ codes ".md") content)
        × (l.digest ≡ digest_of content)
        × (T.fetch l s ≡ ok content))
      × ContextsHeld src s cs ls
  ContextsHeld src s _ _ = ⊥

  push_contexts-cons :
      (src : Build.Files) (c : Context) (cs : List Context) (s t : T.State) (ls : List Descriptor)
      → Build.push_contexts T digest_of src (c ∷ cs) s ≡ ok (ls, t)
      → (content : Text) × (d : Descriptor) × (u : T.State) × (rest : List Descriptor)
        × (Build.resolve_context_content src c ≡ ok content)
        × (Build.push_blob T digest_of context_media_type (c.name ++ codes ".md") content s
            ≡ ok (d, u))
        × (Build.push_contexts T digest_of src cs u ≡ ok (rest, t))
        × (ls ≡ d ∷ rest)
  unfolding Build.push_contexts
  push_contexts-cons src c cs s t ls h =
      let (content, p, q) = >>=-eq-ok (Build.resolve_context_content src c) _ h in
      let ((d, u), p', q') =
        >>=-eq-ok (Build.push_blob T digest_of context_media_type (c.name ++ codes ".md") content s)
          _ q in
      let ((rest, v), p'', q'') = >>=-eq-ok (Build.push_contexts T digest_of src cs u) _ q' in
      (content, d, u, rest, p, p', cc (p'', q''), cc q'')

  pub Holds-push_contexts :
      (src : Build.Files) (cs : List Context) (s t : T.State) (ls : List Descriptor)
      (e : Descriptor) (y : Text)
      → Build.push_contexts T digest_of src cs s ≡ ok (ls, t)
      → Holds e y s
      → Holds e y t
  unfolding Build.push_contexts
  Holds-push_contexts src [] s t ls e y h (named, there) =
      let same : s ≡ t = cc h in (named, ap (T.fetch e) (sym same) ∙ there)
  Holds-push_contexts src (c ∷ cs) s t ls e y h k =
      let (content, d, u, rest, p, q, r, e') = push_contexts-cons src c cs s t ls h in
      Holds-push_contexts src cs u t rest e y r
        (Holds-push_blob context_media_type (c.name ++ codes ".md") content s u d e y q k)

  pub push_contexts-ContextsHeld :
      (src : Build.Files) (cs : List Context) (s t : T.State) (ls : List Descriptor)
      → Build.push_contexts T digest_of src cs s ≡ ok (ls, t)
      → ContextsHeld src t cs ls
  unfolding Build.push_contexts
  push_contexts-ContextsHeld src [] s t ls h =
      let none_left : [] ≡ ls = cc h in subst (ContextsHeld src t []) none_left tt
  push_contexts-ContextsHeld src (c ∷ cs) s t ls h =
      let (content, d, u, rest, p, q, r, e) = push_contexts-cons src c cs s t ls h in
      let own = push_blob-ok context_media_type (c.name ++ codes ".md") content s u d q in
      let held =
        Holds-push_contexts src cs u t rest d content r
          (push_blob-Holds context_media_type (c.name ++ codes ".md") content s u d q) in
      subst (ContextsHeld src t (c ∷ cs)) (sym e)
        ((content, p, own.0, held.0, held.1), push_contexts-ContextsHeld src cs u t rest r)

  -- The same for the files that are added.
  abbrev pub AddsHeld : Build.Files → T.State → List Add → List Descriptor → Type 0
  AddsHeld src s [] [] = Unit
  AddsHeld src s (a ∷ adds) (l ∷ ls) =
      ((content : Text) × (Build.add_content src a ≡ ok content)
        × (l ≡ Build.blob_descriptor T digest_of octet_stream a.name content)
        × (l.digest ≡ digest_of content)
        × (T.fetch l s ≡ ok content))
      × AddsHeld src s adds ls
  AddsHeld src s _ _ = ⊥

  push_adds-cons :
      (src : Build.Files) (a : Add) (adds : List Add) (s t : T.State) (ls : List Descriptor)
      → Build.push_adds T digest_of src (a ∷ adds) s ≡ ok (ls, t)
      → (content : Text) × (d : Descriptor) × (u : T.State) × (rest : List Descriptor)
        × (Build.add_content src a ≡ ok content)
        × (Build.push_blob T digest_of octet_stream a.name content s ≡ ok (d, u))
        × (Build.push_adds T digest_of src adds u ≡ ok (rest, t))
        × (ls ≡ d ∷ rest)
  unfolding Build.push_adds
  push_adds-cons src a adds s t ls h =
      let (content, p, q) = >>=-eq-ok (Build.add_content src a) _ h in
      let ((d, u), p', q') =
        >>=-eq-ok (Build.push_blob T digest_of octet_stream a.name content s) _ q in
      let ((rest, v), p'', q'') = >>=-eq-ok (Build.push_adds T digest_of src adds u) _ q' in
      (content, d, u, rest, p, p', cc (p'', q''), cc q'')

  pub Holds-push_adds :
      (src : Build.Files) (adds : List Add) (s t : T.State) (ls : List Descriptor) (e : Descriptor)
      (y : Text)
      → Build.push_adds T digest_of src adds s ≡ ok (ls, t)
      → Holds e y s
      → Holds e y t
  unfolding Build.push_adds
  Holds-push_adds src [] s t ls e y h (named, there) =
      let same : s ≡ t = cc h in (named, ap (T.fetch e) (sym same) ∙ there)
  Holds-push_adds src (a ∷ adds) s t ls e y h k =
      let (content, d, u, rest, p, q, r, e') = push_adds-cons src a adds s t ls h in
      Holds-push_adds src adds u t rest e y r
        (Holds-push_blob octet_stream a.name content s u d e y q k)

  pub push_adds-AddsHeld :
      (src : Build.Files) (adds : List Add) (s t : T.State) (ls : List Descriptor)
      → Build.push_adds T digest_of src adds s ≡ ok (ls, t)
      → AddsHeld src t adds ls
  unfolding Build.push_adds
  push_adds-AddsHeld src [] s t ls h =
      let none_left : [] ≡ ls = cc h in subst (AddsHeld src t []) none_left tt
  push_adds-AddsHeld src (a ∷ adds) s t ls h =
      let (content, d, u, rest, p, q, r, e) = push_adds-cons src a adds s t ls h in
      let own = push_blob-ok octet_stream a.name content s u d q in
      let held =
        Holds-push_adds src adds u t rest d content r
          (push_blob-Holds octet_stream a.name content s u d q) in
      subst (AddsHeld src t (a ∷ adds)) (sym e)
        ((content, p, own.0, held.0, held.1), push_adds-AddsHeld src adds u t rest r)

  -- What is held stays held when a store keeps what it holds.
  pub ContextsHeld-keep :
      (src : Build.Files) (s t : T.State) (cs : List Context) (ls : List Descriptor)
      → ((e : Descriptor) (y : Text) → Holds e y s → Holds e y t)
      → ContextsHeld src s cs ls
      → ContextsHeld src t cs ls
  ContextsHeld-keep src s t [] [] keep h = tt
  ContextsHeld-keep src s t (c ∷ cs) (l ∷ ls) keep ((content, p, q, named, there), h) =
      let k = keep l content (named, there) in
      ((content, p, q, k.0, k.1), ContextsHeld-keep src s t cs ls keep h)
  ContextsHeld-keep src s t [] (l ∷ ls) keep h = absurd h
  ContextsHeld-keep src s t (c ∷ cs) [] keep h = absurd h

  pub AddsHeld-keep :
      (src : Build.Files) (s t : T.State) (adds : List Add) (ls : List Descriptor)
      → ((e : Descriptor) (y : Text) → Holds e y s → Holds e y t)
      → AddsHeld src s adds ls
      → AddsHeld src t adds ls
  AddsHeld-keep src s t [] [] keep h = tt
  AddsHeld-keep src s t (a ∷ adds) (l ∷ ls) keep ((content, p, q, named, there), h) =
      let k = keep l content (named, there) in
      ((content, p, q, k.0, k.1), AddsHeld-keep src s t adds ls keep h)
  AddsHeld-keep src s t [] (l ∷ ls) keep h = absurd h
  AddsHeld-keep src s t (a ∷ adds) [] keep h = absurd h
