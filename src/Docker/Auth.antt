-- ===== src/Docker/Auth.antt =====
-- executor/docker/auth.go: the credentials for a registry. A ref is a text, and what base64 holds is a
-- list of bytes. The map of the configuration is the list of its entries, in the order in which Go ranges over it.
pub mod Owner
pub mod Host
use agentfile.Common.{
  ℕ, suc, ◌+◌, ◌-◌, ◌*◌, ◌%◌, ◌/◌, Bool, ◌&&◌, ◌||◌, Option, none, some, List, [], ◌∷◌, leb, ◌==◌,
  if◌then◌else◌,
}
use agentfile.Common.Lists.{take, drop}
use agentfile.Common.Maps.{Assoc, lookup}
use agentfile.Common.Texts.{
  Text, codes, text_eq, is_empty, contains, index, last_index, trim_prefix,
}

abbrev pub docker_hub_short : Text
docker_hub_short = codes "docker.io"

abbrev pub docker_hub_aliases : List Text
docker_hub_aliases = codes "https://index.docker.io/v1/" ∷ codes "index.docker.io" ∷ []

unfoldable pub is_host_like : Text → Bool
unfolding text_eq contains
is_host_like s = text_eq s (codes "localhost") || (contains b'.' s || contains b':' s)

-- What stands before the first of a character, or all.
unfoldable pub before : ℕ → Text → Text
unfolding index
before c s = elim (index c s) [ none ↦ s | some i ↦ take i s ]

-- The candidate for the host, if there is a slash.
unfoldable pub host_candidate : Text → Option Text
unfolding before last_index
host_candidate ref = elim (last_index b'/' ref) [
  | none ↦ none
  | some i ↦ some (before b'/' (take i ref))
]

unfoldable pub registry_host : Text → Text
unfolding before host_candidate is_host_like
registry_host ref = elim (host_candidate (before b'@' ref)) [
  | none ↦ docker_hub_short
  | some first ↦ if is_host_like first then first else docker_hub_short
]

unfoldable pub normalise_host : Text → Text
unfolding before trim_prefix
normalise_host s = before b'/' (trim_prefix (trim_prefix s (codes "https://")) (codes "http://"))

-- for k, v := range p.auths
unfoldable pub entry_of_host : Text → Assoc Text → Option Text
unfolding normalise_host text_eq
entry_of_host host [] = none
entry_of_host host ((k, v) ∷ auths) =
    let rest = entry_of_host host auths in if text_eq (normalise_host k) host then some v else rest

-- for _, alias := range dockerHubAliases
unfoldable pub entry_of_alias : List Text → Assoc Text → Option Text
unfolding lookup
entry_of_alias [] auths = none
entry_of_alias (alias ∷ aliases) auths = elim (lookup alias auths) [
  | some v ↦ some v
  | none ↦ entry_of_alias aliases auths
]

unfoldable pub entry_for : Assoc Text → Text → Option Text
unfolding lookup entry_of_host entry_of_alias text_eq
entry_for auths host = elim (lookup host auths) [
  | some v ↦ some v
  | none ↦ elim (entry_of_host host auths) [
    | some v ↦ some v
    | none ↦ if text_eq host docker_hub_short then entry_of_alias docker_hub_aliases auths else none
  ]
]

-- encoding/base64: the value of a character of the standard alphabet.
unfoldable pub sextet : ℕ → Option ℕ
sextet c =
    if leb b'A' c && leb c b'Z'
    then some (c - b'A')
    else if leb b'a' c && leb c b'z'
    then some (c - b'a' + 26)
    else if leb b'0' c && leb c b'9'
    then some (c - b'0' + 52)
    else if c == b'+'
    then some 62
    else if c == b'/'
    then some 63
    else none

-- The values of the characters before the padding; line ends are passed over.
unfoldable pub sextets : Text → Option (List ℕ × Text)
unfolding sextet
sextets [] = some ([], [])
sextets (c ∷ s) =
    let rest = sextets s in
    if c == b'=' then some ([], c ∷ s) else if c == 10 || c == 13 then rest else elim (sextet c) [
      | none ↦ none
      | some v ↦ elim rest [ none ↦ none | some (vs, pad) ↦ some (v ∷ vs, pad) ]
    ]

-- Four values give three bytes; two or three at the end, with their padding, give one or two.
unfoldable pub unpack : List ℕ → ℕ → Option (List ℕ)
unpack [] pad = if pad == 0 then some [] else none
unpack (a ∷ []) pad = none
unpack (a ∷ b ∷ []) pad = if pad == 2 then some ((a * 64 + b) / 16 ∷ []) else none
unpack (a ∷ b ∷ c ∷ []) pad =
    if pad == 1 then (let n = (a * 64 + b) * 64 + c in some (n / 1024 ∷ n / 4 % 256 ∷ [])) else none
unpack (a ∷ b ∷ c ∷ d ∷ vs) pad =
    let n = ((a * 64 + b) * 64 + c) * 64 + d in
    let rest = unpack vs pad in
    elim rest [ none ↦ none | some bytes ↦ some (n / 65536 ∷ n / 256 % 256 ∷ n % 256 ∷ bytes) ]

-- The number of padding characters, if there is nothing else but line ends.
unfoldable pub padding : Text → Option ℕ
padding [] = some 0
padding (c ∷ s) =
    let rest = padding s in
    if c == b'='
    then elim rest [ none ↦ none | some n ↦ some (suc n) ]
    else if c == 10 || c == 13
    then rest
    else none

-- base64.StdEncoding.DecodeString
unfoldable pub decode_string : Text → Option (List ℕ)
unfolding sextets padding unpack
decode_string s = elim (sextets s) [
  | none ↦ none
  | some (vs, pad) ↦ elim (padding pad) [ none ↦ none | some n ↦ unpack vs n ]
]

unfoldable pub decode_basic_auth : Text → Option (List ℕ × List ℕ)
unfolding decode_string index
decode_basic_auth b64 = if is_empty b64 then none else elim (decode_string b64) [
  | none ↦ none
  | some raw ↦ elim (index b':' raw) [
    | none ↦ none
    | some i ↦ if i == 0 then none else some (take i raw, drop (i + 1) raw)
  ]
]

-- The object of authBlobJSON.
pub record Credentials : Type 0 where
  pub username : List ℕ
  pub password : List ℕ
  pub server_address : Text

-- `none` is the empty text, which leaves the pull anonymous.
unfoldable pub resolve_registry_auth : Assoc Text → Text → Option Credentials
unfolding registry_host entry_for decode_basic_auth
resolve_registry_auth auths ref =
    if is_empty (registry_host ref) then none else elim (entry_for auths (registry_host ref)) [
      | none ↦ none
      | some auth ↦ elim (decode_basic_auth auth) [
        | none ↦ none
        | some (user, pass) ↦
            some (record { username = user; password = pass; server_address = registry_host ref })
      ]
    ]
