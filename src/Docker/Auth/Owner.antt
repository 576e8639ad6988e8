-- ===== src/Docker/Auth/Owner.antt =====
-- executor/docker/auth.go: whose credentials go to which registry.
use agentfile.Common.{
  ◌≡◌, refl, sym, ◌⊎◌, inl, inr, true, some, List, [], ◌∷◌, arith, Bool-cases, Option-cases,
}
use mathlib.Core.Path.{subst}
use agentfile.Common.Maps.{Assoc, lookup}
use agentfile.Common.Texts.{Text, text_eq, text_eq_iff, mem, is_empty}
use agentfile.Docker.Auth.{
  docker_hub_short, docker_hub_aliases, registry_host, normalise_host, entry_of_host,
  entry_of_alias, entry_for, decode_basic_auth, Credentials, resolve_registry_auth,
}

-- The entry is in the configuration.
abbrev pub IsEntry : Text → Text → Assoc Text → Type 0
IsEntry k v [] = ⊥
IsEntry k v ((j, u) ∷ auths) = ((j ≡ k) × (u ≡ v)) ⊎ IsEntry k v auths

-- The key of an entry names the host: as it is, without scheme and path, or as an alias of Docker Hub.
abbrev pub Names : Text → Text → Type 0
Names k host =
    (k ≡ host)
    ⊎ ((normalise_host k ≡ host) ⊎ ((host ≡ docker_hub_short) × (mem k docker_hub_aliases ≡ true)))

lookup-IsEntry : (k v : Text) (auths : Assoc Text) → lookup k auths ≡ some v → IsEntry k v auths
unfolding lookup
lookup-IsEntry k v [] h = absurd (ground arith)
lookup-IsEntry k v ((j, u) ∷ auths) h = elim (Bool-cases (text_eq j k)) [
  | inl e ↦ let same : u ≡ v = ground arith in inl ((text_eq_iff j k).0 e, same)
  | inr e ↦ inr (lookup-IsEntry k v auths (ground arith))
]

entry_of_host-IsEntry :
    (host v : Text) (auths : Assoc Text)
    → entry_of_host host auths ≡ some v
    → (k : Text) × IsEntry k v auths × (normalise_host k ≡ host)
unfolding entry_of_host
entry_of_host-IsEntry host v [] h = absurd (ground arith)
entry_of_host-IsEntry host v ((k, u) ∷ auths) h =
    elim (Bool-cases (text_eq (normalise_host k) host)) [
      | inl e ↦
          let same : u ≡ v = ground arith in
          (k, inl (refl, same), (text_eq_iff (normalise_host k) host).0 e)
      | inr e ↦ let (j, i, n) = entry_of_host-IsEntry host v auths (ground arith) in (j, inr i, n)
    ]

entry_of_alias-IsEntry :
    (aliases : List Text) (v : Text) (auths : Assoc Text)
    → entry_of_alias aliases auths ≡ some v
    → (k : Text) × IsEntry k v auths × (mem k aliases ≡ true)
unfolding entry_of_alias
entry_of_alias-IsEntry [] v auths h = absurd (ground arith)
entry_of_alias-IsEntry (a ∷ aliases) v auths h = elim (Option-cases (lookup a auths)) [
  | inl e ↦
      let (k, i, m) = entry_of_alias-IsEntry aliases v auths (ground arith) in
      (k, i, ground (arith, m))
  | inr (u, e) ↦ (a, lookup-IsEntry a v auths (ground arith), ground (arith, text_eq_iff a a))
]

entry_for-Names :
    (auths : Assoc Text) (host v : Text)
    → entry_for auths host ≡ some v
    → (k : Text) × IsEntry k v auths × Names k host
unfolding entry_for
entry_for-Names auths host v h = elim (Option-cases (lookup host auths)) [
  | inr (u, e) ↦ (host, lookup-IsEntry host v auths (ground arith), inl refl)
  | inl e ↦ elim (Option-cases (entry_of_host host auths)) [
    | inr (u, q) ↦
        let (k, i, n) = entry_of_host-IsEntry host v auths (ground arith) in (k, i, inr (inl n))
    | inl q ↦ elim (Bool-cases (text_eq host docker_hub_short)) [
      | inl t ↦
          let (k, i, m) = entry_of_alias-IsEntry docker_hub_aliases v auths (ground arith) in
          (k, i, inr (inr ((text_eq_iff host docker_hub_short).0 t, m)))
      | inr t ↦ absurd (ground arith)
    ]
  ]
]

-- Credentials that are sent with a pull are those of one entry of the configuration whose key names
-- the registry of the ref, and they are addressed to that registry.
pub resolve_registry_auth-Names :
    (auths : Assoc Text) (ref : Text) (c : Credentials)
    → resolve_registry_auth auths ref ≡ some c
    → (c.server_address ≡ registry_host ref)
      × ((k : Text) × (v : Text) × IsEntry k v auths
          × Names k c.server_address
          × (decode_basic_auth v ≡ some (c.username, c.password)))
unfolding resolve_registry_auth
resolve_registry_auth-Names auths ref c h = elim (Bool-cases (is_empty (registry_host ref))) [
  | inl e ↦ absurd (ground arith)
  | inr e ↦ elim (Option-cases (entry_for auths (registry_host ref))) [
    | inl n ↦ absurd (ground arith)
    | inr (v, f) ↦ elim (Option-cases (decode_basic_auth v)) [
      | inl n ↦ absurd (ground arith)
      | inr ((user, pass), d) ↦
          let (k, i, n) = entry_for-Names auths (registry_host ref) v f in
          let same : registry_host ref ≡ c.server_address = ground arith in
          let names : Names k c.server_address = subst (Names k) same n in
          let sent : decode_basic_auth v ≡ some (c.username, c.password) = ground arith in
          (sym same, (k, v, i, names, sent))
    ]
  ]
]
