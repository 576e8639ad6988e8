-- ===== src/Build/Packing.antt =====
-- build/build.go: packManifest leaves a manifest and a config that are found and read.
use agentfile.Common.{◌≡◌, refl, ap, ◌∙◌, false, List, []}
use agentfile.Common.Results.{ok, >>=-eq-ok}
use agentfile.Common.Texts.{Text, text_eq_iff, is_empty}
use agentfile.Spec.Reference.{default_tag, to_string}
use agentfile.Spec.Types.{Agent, Agentfile}
use agentfile.Store.{Descriptor}
use agentfile.Build
use agentfile.Build.Bodies

module _ (T : Build.Target) (lawful : Build.IsLawful T) (digest_of : Text → Text)
    (digest_injective : (x y : Text) → digest_of x ≡ digest_of y → x ≡ y) (j : Build.Json) where
  abbrev pub Held : Descriptor → Text → T.State → Type 0
  Held = Bodies.Holds T lawful digest_of digest_injective

  fail_as-tag :
      (d : Descriptor) (name : Text) (s t : T.State)
      → Build.fail_as Build.tagging (T.tag d name s) ≡ ok t
      → T.tag d name s ≡ ok t
  fail_as-tag d name s t h = Bodies.fail_as-ok Build.tagging (T.tag d name s) h

  tag_name-ok :
      (name : Text) (d : Descriptor) (s t : T.State)
      → is_empty name ≡ false
      → Build.tag_name T digest_of name d s ≡ ok t
      → T.tag d (to_string (record { name = name; tag = default_tag })) s ≡ ok t
  unfolding Build.tag_name
  tag_name-ok name d s t named h =
      fail_as-tag d (to_string (record { name = name; tag = default_tag })) s t
        (rw (Build.tag_name, named) at h)

  -- What the end of a build leaves: the manifest and the config, found and held, and all that was held before.
  pub record Packed (a : Agent) (af : Agentfile) (layers : List Descriptor) (s t : T.State)
      : Type 0 where
    pub config_data : Text
    pub manifest_data : Text
    pub manifest : Build.BuiltManifest
    pub found : Descriptor
    pub wrote_agentfile : j.write_agentfile af ≡ ok config_data
    pub wrote_manifest : j.write_manifest manifest ≡ ok manifest_data
    pub same_layers : manifest.layers ≡ layers
    pub finds : T.find (to_string (record { name = a.name; tag = default_tag })) t ≡ ok found
    pub has_manifest : T.fetch found t ≡ ok manifest_data
    pub has_config : T.fetch manifest.config t ≡ ok config_data
    pub keep : (e : Descriptor) (y : Text) → Held e y s → Held e y t

  -- Its steps in their order.
  packed :
      (now : Text) (af : Agentfile) (a : Agent) (layers : List Descriptor) (s u v w t : T.State)
      (config desc : Descriptor) (config_data manifest_data : Text)
      → j.write_agentfile af ≡ ok config_data
      → Build.push_blob T digest_of Build.agent_config_media_type [] config_data s ≡ ok (config, u)
      → j.write_manifest (record {
        config = config;
        layers = layers;
        annotations = Build.manifest_annotations now a;
      })
        ≡ ok manifest_data
      → Build.push_blob T digest_of Build.manifest_media_type [] manifest_data u ≡ ok (desc, v)
      → T.tag desc desc.digest v ≡ ok w
      → T.tag desc (to_string (record { name = a.name; tag = default_tag })) w ≡ ok t
      → Packed a af layers s t
  packed now af a layers s u v w t config desc config_data manifest_data p q p' q' by_digest
        by_name =
      let name = to_string (record { name = a.name; tag = default_tag }) in
      let (found, finds, same) = lawful.tag-find desc name w t by_name in
      let (own, pushed) =
        Bodies.push_blob-ok T lawful digest_of digest_injective Build.manifest_media_type []
          manifest_data u v desc q' in
      let tags = λ (e : Descriptor) (y : Text) (k : Held e y v).
        Bodies.Holds-tag T lawful digest_of digest_injective desc e name y w t by_name (
          Bodies.Holds-tag T lawful digest_of digest_injective desc e desc.digest y v w by_digest
            k) in
      let push_manifest = λ (e : Descriptor) (y : Text) (k : Held e y u).
        Bodies.Holds-push_blob T lawful digest_of digest_injective Build.manifest_media_type []
          manifest_data u v desc e y q' k in
      let has_config = tags config config_data (
        push_manifest config config_data (
          Bodies.push_blob-Holds T lawful digest_of digest_injective Build.agent_config_media_type
            [] config_data s u config q)) in
      let has_manifest = tags found manifest_data (
        same ∙ ap (λ (d : Descriptor). d.digest) own,
        rw
            (
              lawful.push-fetch desc found manifest_data u v pushed,
              (text_eq_iff found.digest desc.digest).1 same,
            )
            refl,
      ) in
      record {
        config_data = config_data;
        manifest_data = manifest_data;
        manifest = record {
          config = config;
          layers = layers;
          annotations = Build.manifest_annotations now a;
        };
        found = found;
        wrote_agentfile = p;
        wrote_manifest = p';
        same_layers = refl;
        finds = finds;
        has_manifest = has_manifest.1;
        has_config = has_config.1;
        keep = λ e y k. tags e y (
            push_manifest e y (
              Bodies.Holds-push_blob T lawful digest_of digest_injective
                Build.agent_config_media_type [] config_data s u config e y q k));
      }

  pub pack_manifest-Packed :
      (now : Text) (af : Agentfile) (a : Agent) (layers : List Descriptor) (s t : T.State)
      (r : Build.ReferenceWithDigest)
      → is_empty a.name ≡ false
      → Build.pack_manifest T digest_of j now af a layers s ≡ ok (r, t)
      → Packed a af layers s t
  unfolding Build.pack_manifest
  pack_manifest-Packed now af a layers s t r named h =
      let (config_data, p, h1) =
        >>=-eq-ok (Build.fail_as Build.marshaling (j.write_agentfile af)) _ h in
      let ((config, u), q, h2) =
        >>=-eq-ok (Build.push_blob T digest_of Build.agent_config_media_type [] config_data s) _
          h1 in
      let m : Build.BuiltManifest = record {
        config = config;
        layers = layers;
        annotations = Build.manifest_annotations now a;
      } in
      let (manifest_data, p', h3) =
        >>=-eq-ok (Build.fail_as Build.marshaling (j.write_manifest m)) _ h2 in
      let ((desc, v), q', h4) =
        >>=-eq-ok (Build.push_blob T digest_of Build.manifest_media_type [] manifest_data u) _ h3 in
      let (w, q'', h5) = >>=-eq-ok (Build.fail_as Build.tagging (T.tag desc desc.digest v)) _ h4 in
      let (x, q3, h6) = >>=-eq-ok (Build.tag_name T digest_of a.name desc w) _ h5 in
      packed now af a layers s u v w t config desc config_data manifest_data
        (Bodies.fail_as-ok Build.marshaling (j.write_agentfile af) p) q
        (Bodies.fail_as-ok Build.marshaling (j.write_manifest m) p') q'
        (fail_as-tag desc desc.digest v w q'') (tag_name-ok a.name desc w t named (cc (q3, h6)))
