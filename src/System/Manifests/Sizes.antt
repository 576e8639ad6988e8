-- ===== src/System/Manifests/Sizes.antt =====
-- executor/system/registry.go: the size of an image, as a sum without an end to its numbers.
use mathlib.Core.Path.{subst}
use agentfile.Common.{
  ℕ, zero, suc, ◌+◌, ◌*◌, ◌%◌, ◌^◌, ◌≤◌, ◌≡◌, refl, ◌⊎◌, inl, inr, Option, none, some, List, [],
  ◌∷◌, arith, leb, ltb, if◌then◌else◌, Bool-cases, Option-cases,
}
use agentfile.Common.Lists.{length, take}
use agentfile.Common.Results.{Result, ok, err, >>=-eq-ok, Result-cases}
use agentfile.Common.Texts.{Text, is_empty}
use agentfile.System.Manifests

-- A sum modulo 2 ^ 64 of which the first part was reduced before.
add64-mod : (a b : ℕ) → Manifests.add64 (a % 2 ^ 64) b ≡ (a + b) % 2 ^ 64
unfolding Manifests.add64
add64-mod a b = omega arith

add64-mods : (a b : ℕ) → Manifests.add64 (a % 2 ^ 64) (b % 2 ^ 64) ≡ (a + b) % 2 ^ 64
unfolding Manifests.add64
add64-mods a b = omega arith

capped-le :
    (body dgst : Text) (got : Text × Text)
    → (if ltb (100 * 1024 * 1024) (length body) then err Manifests.too_large else ok (body, dgst))
      ≡ ok got
    → length got.0 ≤ 100 * 1024 * 1024
capped-le body dgst got e = ground (arith, e)

-- What is read is within the cap.
read_capped-le :
    (answer : Option Manifests.Response) (got : Text × Text)
    → Manifests.read_capped answer ≡ ok got
    → length got.0 ≤ 100 * 1024 * 1024
unfolding Manifests.read_capped Manifests.max_registry_read_bytes
read_capped-le none got e =
    let bad : Path (Result Manifests.HttpError (Text × Text)) (err Manifests.no_answer) (ok got) =
      e in
    cc
read_capped-le (some r) got e = elim (Bool-cases (leb 400 r.status)) [
  | inl s ↦
      let bad : Path (Result Manifests.HttpError (Text × Text))
          (err (Manifests.http_status r.status)) (ok got) =
        rw (Manifests.read_capped, s) at e in
      cc
  | inr s ↦ elim (Option-cases r.body) [
    | inl b ↦
        let bad : Path (Result Manifests.HttpError (Text × Text)) (err Manifests.unreadable)
            (ok got) =
          rw (Manifests.read_capped, s, b) at e in
        cc
    | inr (sent, b) ↦
        capped-le (take (suc (100 * 1024 * 1024)) sent) r.digest got
          (rw (Manifests.read_capped, s, b) at e)
  ]
]

abbrev pub sum_of : List Manifests.Sized → ℕ
sum_of [] = 0
sum_of (l ∷ layers) = l.size + sum_of layers

add_sizes-sum :
    (total : ℕ) (layers : List Manifests.Sized)
    → Manifests.add_sizes (total % 2 ^ 64) layers ≡ (total + sum_of layers) % 2 ^ 64
unfolding Manifests.add_sizes
add_sizes-sum total [] = omega arith
add_sizes-sum total (l ∷ layers) =
    let regroup : (total + l.size) + sum_of layers ≡ total + (l.size + sum_of layers) =
      omega arith in
    rw (add64-mod total l.size, add_sizes-sum (total + l.size) layers, regroup) refl

module _ (server : Manifests.Server) (addr repo : Text) where
  abbrev WasRead : Text → Text → Text → Type 0
  WasRead tag body dgst = Manifests.fetch_manifest_raw server addr repo tag ≡ ok (body, dgst)

  -- What is served is no index, and no manifest either, or nothing is.
  abbrev pub IsUnread : Text → Type 0
  IsUnread tag =
      ((e : Manifests.HttpError) × (Manifests.fetch_manifest_raw server addr repo tag ≡ err e))
      ⊎ ((body : Text) × (dgst : Text) × WasRead tag body dgst
          × (Manifests.multi_arch server addr body ≡ none)
          × (server.read_manifest body ≡ none))

  abbrev pub IsPlain : Text → ℕ → Type 0
  IsPlain tag n =
      (body : Text) × (dgst : Text) × (m : Manifests.SizedManifest) × WasRead tag body dgst
      × (Manifests.multi_arch server addr body ≡ none)
      × (server.read_manifest body ≡ some m)
      × (n ≡ length body + (m.config.size + sum_of m.layers))

-- What an image weighs: its manifest, its config and its layers; an index weighs what it takes itself and what
-- its entries weigh, where an entry that cannot be read weighs what the index says.
mutual
  pub data Weighs (server : Manifests.Server) (addr repo : Text) : Text → ℕ → Type 0 where
    plain : {tag : Text} {n : ℕ} → IsPlain server addr repo tag n → Weighs server addr repo tag n
    index :
        {tag body dgst : Text} {i : Manifests.Index} {n : ℕ}
        → WasRead server addr repo tag body dgst
        → Manifests.multi_arch server addr body ≡ some i
        → Together server addr repo i.manifests n
        → Weighs server addr repo tag (length body + n)

  pub data Together (server : Manifests.Server) (addr repo : Text)
      : List Manifests.Sized → ℕ → Type 0 where
    nothing : Together server addr repo [] 0
    weighed :
        {m : Manifests.Sized} {ms : List Manifests.Sized} {k n : ℕ}
        → Weighs server addr repo m.digest k
        → Together server addr repo ms n
        → Together server addr repo (m ∷ ms) (k + n)
    as_listed :
        {m : Manifests.Sized} {ms : List Manifests.Sized} {n : ℕ}
        → IsUnread server addr repo m.digest
        → Together server addr repo ms n
        → Together server addr repo (m ∷ ms) (m.size + n)

module _ (server : Manifests.Server) (addr repo : Text) where
  abbrev info : ℕ → Text → Option (Result Manifests.HttpError Manifests.ManifestInfo)
  info fuel tag = Manifests.fetch_manifest_info server addr fuel repo tag

  -- What a result says.
  abbrev Says : Text → Result Manifests.HttpError Manifests.ManifestInfo → Type 0
  Says tag (err e) = IsUnread server addr repo tag
  Says tag (ok mi) = (n : ℕ) × Weighs server addr repo tag n × (mi.size ≡ n % 2 ^ 64)

  add_manifests-Together :
      (fuel total : ℕ) (ms : List Manifests.Sized) (s : ℕ)
      → ((tag : Text) (r : Result Manifests.HttpError Manifests.ManifestInfo)
          → info fuel tag ≡ some r
          → Says tag r)
      → Manifests.add_manifests (info fuel) (total % 2 ^ 64) ms ≡ some s
      → (n : ℕ) × Together server addr repo ms n × (s ≡ (total + n) % 2 ^ 64)
  unfolding Manifests.add_manifests Manifests.counted
  add_manifests-Together fuel total [] s h e =
      (0, nothing, let same : total % 2 ^ 64 ≡ s = cc in omega (arith, same))
  add_manifests-Together fuel total (m ∷ ms) s h e = elim (Option-cases (info fuel m.digest)) [
    | inl f ↦ let bad : Path (Option ℕ) none (some s) = rw (Manifests.add_manifests, f) at e in cc
    | inr (err why, f) ↦
        let (n, t, sum) =
          add_manifests-Together fuel (total + m.size) ms s h
            (rw (Manifests.add_manifests, f, add64-mod total m.size) at e) in
        (m.size + n, as_listed (h m.digest (err why) f) t, omega (arith, sum))
    | inr (ok mi, f) ↦
        let (k, w, size) = h m.digest (ok mi) f in
        let (n, t, sum) =
          add_manifests-Together fuel (total + k) ms s h
            (rw (Manifests.add_manifests, f, size, add64-mods total k) at e) in
        (k + n, weighed w t, omega (arith, sum))
  ]

  body-le :
      (tag body dgst : Text)
      → WasRead server addr repo tag body dgst
      → length body ≤ 100 * 1024 * 1024
  unfolding Manifests.fetch_manifest_raw
  body-le tag body dgst e =
      let (got, capped, same) =
        >>=-eq-ok (Manifests.read_capped (server.get (Manifests.manifest_url addr repo tag)))
          (λ got. ok (got.0, if is_empty got.1 then server.digest_of got.0 else got.1)) e in
      let first : got.0 ≡ body = cc in
      subst (λ (b : Text). length b ≤ 100 * 1024 * 1024) first
        (read_capped-le (server.get (Manifests.manifest_url addr repo tag)) got capped)

  plain_info-Says :
      (tag body dgst : Text)
      → WasRead server addr repo tag body dgst
      → Manifests.multi_arch server addr body ≡ none
      → Says tag (Manifests.plain_info server addr body dgst)
  unfolding Manifests.plain_info Manifests.add64
  plain_info-Says tag body dgst f g = elim (Option-cases (server.read_manifest body)) [
    | inl e ↦ rw (Manifests.plain_info, e) (inr (body, dgst, f, g, e))
    | inr (m, e) ↦
        rw (Manifests.plain_info, e)
          (
            length body + (m.config.size + sum_of m.layers),
            plain (body, dgst, m, f, g, e, refl),
            rw (add_sizes-sum (length body + m.config.size) m.layers) (omega arith),
          )
  ]

  fetch_manifest_info-Says :
      (fuel : ℕ) (tag : Text) (r : Result Manifests.HttpError Manifests.ManifestInfo)
      → info fuel tag ≡ some r
      → Says tag r
  unfolding Manifests.fetch_manifest_info Manifests.index_info
  fetch_manifest_info-Says zero tag r e =
      let bad : Path (Option (Result Manifests.HttpError Manifests.ManifestInfo)) none (some r) =
        e in
      cc
  fetch_manifest_info-Says (suc fuel) tag r e =
      elim (Result-cases (Manifests.fetch_manifest_raw server addr repo tag)) [
        | inr (why, f) ↦
            let same : some (err why) ≡ some r = rw (Manifests.fetch_manifest_info, f) at e in
            let eq : err why ≡ r = cc in subst (Says tag) eq (inl (why, f))
        | inl ((body, dgst), f) ↦ elim (Option-cases (Manifests.multi_arch server addr body)) [
          | inl g ↦
              let same : some (Manifests.plain_info server addr body dgst) ≡ some r =
                rw (Manifests.fetch_manifest_info, f, g) at e in
              let eq : Manifests.plain_info server addr body dgst ≡ r = cc in
              subst (Says tag) eq (plain_info-Says tag body dgst f g)
          | inr (i, g) ↦
              elim (Option-cases (Manifests.add_manifests (info fuel) (length body) i.manifests)) [
                | inl t ↦
                    let bad : Path (Option (Result Manifests.HttpError Manifests.ManifestInfo)) none
                        (some r) =
                      rw (Manifests.fetch_manifest_info, f, g, t) at e in
                    cc
                | inr (s, t) ↦
                    let same : some (ok (Manifests.index_info server addr dgst i s)) ≡ some r =
                      rw (Manifests.fetch_manifest_info, f, g, t) at e in
                    let small : length body ≡ length body % 2 ^ 64 =
                      omega (arith, body-le tag body dgst f) in
                    let (n, w, sum) =
                      add_manifests-Together fuel (length body) i.manifests s
                        (fetch_manifest_info-Says fuel)
                        (subst (λ k. Manifests.add_manifests (info fuel) k i.manifests ≡ some s)
                          small t) in
                    let eq : ok (Manifests.index_info server addr dgst i s) ≡ r = cc in
                    subst (Says tag) eq (length body + n, index f g w, sum)
              ]
        ]
      ]

  -- The size that is found for a reference is what its image weighs, modulo 2 ^ 64: its manifest, config and
  -- layers, or, for an index, the index and what its entries weigh, where one that cannot be read weighs what
  -- the index says.
  pub fetch_manifest_info-size :
      (fuel : ℕ) (tag : Text) (mi : Manifests.ManifestInfo)
      → Manifests.fetch_manifest_info server addr fuel repo tag ≡ some (ok mi)
      → (n : ℕ) × Weighs server addr repo tag n × (mi.size ≡ n % 2 ^ 64)
  fetch_manifest_info-size fuel tag mi e = fetch_manifest_info-Says fuel tag (ok mi) e
