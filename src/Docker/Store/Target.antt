-- ===== src/Docker/Store/Target.antt =====
-- executor/docker/store.go: the store is an oras.Target, into which an agent can be built. Finding a name
-- also keeps what it reads from the daemon; that is left out here.
use mathlib.Core.Path.{subst}
use agentfile.Common.{
  ◌≡◌, refl, ap, ◌∙◌, sym, Option, none, some, [], arith, if◌then◌else◌, inl, inr,
}
use agentfile.Common.Lists.{length}
use agentfile.Common.Maps.{lookup, lookup-insert}
use agentfile.Common.Results.{Result, ok, err, Result-cases}
use agentfile.Common.Texts.{Text, codes, text_eq, text_eq_iff, text_eq_refl}
use agentfile.Build
use agentfile.Docker.Client.{OciDescriptor, Client}
use agentfile.Docker.Store
use agentfile.Docker.Store.RoundTrip.{fill_descriptor-digest}
use agentfile.Store.{Descriptor}

abbrev oci_descriptor : Descriptor → Text → OciDescriptor
oci_descriptor d content = record {
  digest = d.digest;
  media_type = d.media_type;
  size = length content;
  ref_name = [];
  image_name = [];
}

abbrev descriptor_of : OciDescriptor → Descriptor
descriptor_of d = record { digest = d.digest; media_type = d.media_type; title = [] }

abbrev from_store : Result Store.StoreError Text → Result Text Text
from_store (ok content) = ok content
from_store (err e) = err (codes "not found")

-- A tag is given the descriptor of a blob that was pushed, whose size is filled in.
abbrev pub docker_target : Client → Build.Target
docker_target cli = record {
  State = Store.Store;
  push = λ d content s. ok (Store.push (oci_descriptor d content) content s);
  tag = λ d name s. elim (Store.tag cli (oci_descriptor d []) name s).1 [
    | ok files ↦ ok (Store.tag cli (oci_descriptor d []) name s).0
    | err e ↦ err (codes "tag")
  ];
  find = λ name s. elim (Store.resolve_tag cli name s) [
    | ok (d, t) ↦ ok (descriptor_of d)
    | err e ↦ err (codes "not found")
  ];
  fetch = λ d s. from_store (Store.fetch (oci_descriptor d []) s);
}

tag_state :
    (cli : Client) (d : Descriptor) (name : Text) (s t : Store.Store)
    → (docker_target cli).tag d name s ≡ ok t
    → (Store.tag cli (oci_descriptor d []) name s).0 ≡ t
unfolding Store.tag
tag_state cli d name s t h = elim (Result-cases (Store.tag cli (oci_descriptor d []) name s).1) [
  | inl (files, e) ↦ cc (rw e at h)
  | inr (why, e) ↦ cc (rw e at h)
]

docker-tag-find :
    (cli : Client) (d : Descriptor) (name : Text) (s t : Store.Store)
    → (docker_target cli).tag d name s ≡ ok t
    → (e : Descriptor) × ((docker_target cli).find name t ≡ ok e) × (e.digest ≡ d.digest)
unfolding Store.tag Store.resolve_tag
docker-tag-find cli d name s t h =
    let full = Store.fill_descriptor s.descs (oci_descriptor d []) in
    (
      descriptor_of full,
      subst (λ (x : Store.Store). (docker_target cli).find name x ≡ ok (descriptor_of full))
          (tag_state cli d name s t h)
          (ground (arith, lookup-insert name name full s.loaded, text_eq_refl name)),
      fill_descriptor-digest s.descs (oci_descriptor d []),
    )

abbrev fetched : Option Text → Result Text Text
fetched none = err (codes "not found")
fetched (some content) = ok content

from_lookup :
    (o : Option Text)
    → from_store (elim o [ none ↦ err Store.not_found | some content ↦ ok content ]) ≡ fetched o
from_lookup none = refl
from_lookup (some content) = refl

fetch_lem :
    (cli : Client) (e : Descriptor) (s : Store.Store)
    → (docker_target cli).fetch e s ≡ fetched (lookup e.digest s.blobs)
unfolding Store.fetch
fetch_lem cli e s = from_lookup (lookup e.digest s.blobs)

fetched-insert :
    (k j : Text) (content : Text) (o : Option Text)
    → fetched (if text_eq k j then some content else o)
      ≡ (if text_eq j k then ok content else fetched o)
fetched-insert k j content o = ground (arith, text_eq_iff k j, text_eq_iff j k)

docker-push-fetch :
    (cli : Client) (d e : Descriptor) (content : Text) (s t : Store.Store)
    → (docker_target cli).push d content s ≡ ok t
    → (docker_target cli).fetch e t
      ≡ (if text_eq e.digest d.digest then ok content else (docker_target cli).fetch e s)
unfolding Store.push
docker-push-fetch cli d e content s t h =
    let now : Store.push (oci_descriptor d content) content s ≡ t = cc h in
    subst
      (λ (x : Store.Store).
        (docker_target cli).fetch e x
        ≡ (if text_eq e.digest d.digest then ok content else (docker_target cli).fetch e s))
      now
      (fetch_lem cli e (Store.push (oci_descriptor d content) content s)
        ∙ ap fetched (lookup-insert d.digest e.digest content s.blobs)
        ∙ fetched-insert d.digest e.digest content (lookup e.digest s.blobs)
        ∙ ap (λ (x : Result Text Text). if text_eq e.digest d.digest then ok content else x)
            (sym (fetch_lem cli e s)))

docker-tag-fetch :
    (cli : Client) (d e : Descriptor) (name : Text) (s t : Store.Store)
    → (docker_target cli).tag d name s ≡ ok t
    → (docker_target cli).fetch e t ≡ (docker_target cli).fetch e s
unfolding Store.tag Store.fetch
docker-tag-fetch cli d e name s t h =
    subst (λ (x : Store.Store). (docker_target cli).fetch e x ≡ (docker_target cli).fetch e s)
      (tag_state cli d name s t h) refl

-- The store keeps what the build relies on: a blob is read back by its digest, a tag leaves the blobs and
-- is found under its name.
pub docker_target-IsLawful : (cli : Client) → Build.IsLawful (docker_target cli)
docker_target-IsLawful cli = record {
  push-fetch = docker-push-fetch cli;
  tag-fetch = docker-tag-fetch cli;
  tag-find = docker-tag-find cli;
}
