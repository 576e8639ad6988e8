-- ===== src/Tests/Encodings.antt =====
-- An encoding of manifests that can be read back, for the examples.
use mathlib.Core.Path.{subst}
use agentfile.Common.{ℕ, zero, suc, ◌≡◌, refl, ap, ◌∙◌, List, [], ◌∷◌, ◌++◌}
use agentfile.Common.Lists.{length, take, drop, take-length, drop-length}
use agentfile.Common.Results.{Result, ok, err}
use agentfile.Common.Texts.{Text, codes}
use agentfile.Store.{Descriptor, Manifest}
use agentfile.Build.{BuiltManifest}

abbrev put_text : Text → Text → Text
put_text t rest = length t ∷ t ++ rest

abbrev put_descriptor : Descriptor → Text → Text
put_descriptor d rest = put_text d.digest (put_text d.media_type (put_text d.title rest))

unfoldable put_all : List Descriptor → Text
put_all [] = []
put_all (d ∷ ds) = put_descriptor d (put_all ds)

abbrev get_text : Text → Text × Text
get_text [] = ([], [])
get_text (n ∷ s) = (take n s, drop n s)

abbrev get_descriptor : Text → Descriptor × Text
get_descriptor s =
    let (digest, s') = get_text s in
    let (media_type, s'') = get_text s' in
    let (title, rest) = get_text s'' in
    (record { digest = digest; media_type = media_type; title = title }, rest)

unfoldable get_all : ℕ → Text → List Descriptor
get_all zero s = []
get_all (suc n) s = let (d, rest) = get_descriptor s in d ∷ get_all n rest

unfoldable pub write_manifest : BuiltManifest → Result Text Text
unfolding put_all
write_manifest m = ok (length m.layers ∷ put_descriptor m.config (put_all m.layers))

unfoldable pub read_manifest : Text → Result Text Manifest
unfolding get_all
read_manifest [] = err (codes "empty")
read_manifest (n ∷ s) =
    let (config, rest) = get_descriptor s in
    ok (record { config = config; layers = get_all n rest })

get_text-put : (t rest : Text) → get_text (put_text t rest) ≡ (t, rest)
get_text-put t rest = rw (take-length t rest, drop-length t rest) refl

get_descriptor-put :
    (d : Descriptor) (rest : Text) → get_descriptor (put_descriptor d rest) ≡ (d, rest)
get_descriptor-put d rest =
    rw
      (
        take-length d.digest (put_text d.media_type (put_text d.title rest)),
        drop-length d.digest (put_text d.media_type (put_text d.title rest)),
        take-length d.media_type (put_text d.title rest),
        drop-length d.media_type (put_text d.title rest),
        take-length d.title rest,
        drop-length d.title rest,
      )
      refl

get_all-put : (ds : List Descriptor) → get_all (length ds) (put_all ds) ≡ ds
unfolding get_all put_all
get_all-put [] = refl
get_all-put (d ∷ ds) =
    ap (λ (p : Descriptor × Text). p.0 ∷ get_all (length ds) p.1)
      (get_descriptor-put d (put_all ds))
    ∙ ap (λ (x : List Descriptor). d ∷ x) (get_all-put ds)

pub read-write :
    (m : BuiltManifest) (x : Text)
    → write_manifest m ≡ ok x
    → read_manifest x ≡ ok (record { config = m.config; layers = m.layers })
unfolding write_manifest read_manifest
read-write m x h =
    let written : length m.layers ∷ put_descriptor m.config (put_all m.layers) ≡ x = cc h in
    subst (λ (y : Text). read_manifest y ≡ ok (record { config = m.config; layers = m.layers }))
      written
      (ap
          (λ (p : Descriptor × Text).
            ok (record { config = p.0; layers = get_all (length m.layers) p.1 }))
          (get_descriptor-put m.config (put_all m.layers))
        ∙ ap (λ (ls : List Descriptor). ok (record { config = m.config; layers = ls }))
            (get_all-put m.layers))
