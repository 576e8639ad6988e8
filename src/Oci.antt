-- ===== src/Oci.antt =====
-- oci: the client of remote registries. What oras, the transport and the backoff do, and what reads JSON, is
-- third-party code, and arguments here.
pub mod Chosen
pub mod Attempts
pub mod Binary
use agentfile.Common.{
  ℕ, zero, suc, Bool, true, false, ◌&&◌, Option, none, some, List, [], ◌∷◌, leb, if◌then◌else◌,
}
use agentfile.Common.Maps.{Assoc}
use agentfile.Common.Results.{Result, ok, err}
use agentfile.Common.Texts.{Text, text_eq}
use agentfile.Store.{Descriptor}

-- v1.Platform
pub record Platform : Type 0 where
  pub os : Text
  pub architecture : Text

-- An entry of an index.
pub record Entry : Type 0 where
  pub desc : Descriptor
  pub platform : Option Platform

pub record ImageManifest : Type 0 where
  pub annotations : Assoc Text
  pub layers : List Descriptor

-- content.Fetcher and encoding/json; `none` is an error.
pub record Repository : Type 0 where
  pub fetch : Descriptor → Option Text
  pub read_index : Text → Option (List Entry)
  pub read_manifest : Text → Option ImageManifest

pub data OciError : Type 0 where
  not_fetched no_platform not_parsed : OciError

unfoldable pub same_platform : Platform → Platform → Bool
same_platform p q = text_eq p.os q.os && text_eq p.architecture q.architecture

-- The loop of resolveIndex.
unfoldable pub pick : Platform → List Entry → Option Descriptor
unfolding same_platform
pick platform [] = none
pick platform (m ∷ manifests) =
    let rest = pick platform manifests in
    elim m.platform [
      | none ↦ rest
      | some p ↦ if same_platform p platform then some m.desc else rest
    ]

module _ (repo : Repository) (platform : Platform) where
  -- resolveIndex, with no descriptor for what is not an index.
  unfoldable pub resolve_index : Text → Result OciError (Option Descriptor)
  unfolding pick
  resolve_index body = elim (repo.read_index body) [
    | none ↦ ok none
    | some manifests ↦
        let picked : Result OciError (Option Descriptor) = elim (pick platform manifests) [
          | none ↦ err no_platform
          | some d ↦ ok (some d)
        ] in
        elim manifests [ [] ↦ ok none | m ∷ ms ↦ picked ]
  ]

  -- ResolveManifest. The fuel bounds how deep an index holds indexes; `none` is when it is used up.
  unfoldable pub resolve_manifest : (fuel : ℕ) → Descriptor → Option (Result OciError ImageManifest)
  unfolding resolve_index
  resolve_manifest zero desc = none
  resolve_manifest (suc fuel) desc = elim (repo.fetch desc) [
    | none ↦ some (err not_fetched)
    | some body ↦ elim (resolve_index body) [
      | err e ↦ some (err e)
      | ok chosen ↦ elim chosen [
        | some d ↦ resolve_manifest fuel d
        | none ↦ elim (repo.read_manifest body) [
          | none ↦ some (err not_parsed)
          | some manifest ↦ some (ok manifest)
        ]
      ]
    ]
  ]

-- http.Request in its body and its GetBody, which is asked before each attempt.
pub record Request : Type 0 where
  pub body : Option Text
  pub get_body : Option (ℕ → Option Text)

pub data RetryError : Type 0 where
  not_rewound no_transport : RetryError
  server_error : ℕ → RetryError

-- What an attempt comes to: a response, an error that ends it, with the response if there is one, or an error
-- after which it is tried again.
pub data Attempt : Type 0 where
  answered : ℕ → Attempt
  permanent : Option ℕ → RetryError → Attempt
  again : RetryError → Attempt

unfoldable pub can_retry : Request → Bool
can_retry req = elim req.body [
  | none ↦ true
  | some b ↦ elim req.get_body [ none ↦ false | some f ↦ true ]
]

unfoldable pub rewind : ℕ → Request → Result RetryError (Option Text)
rewind n req = elim req.body [
  | none ↦ ok none
  | some b ↦ elim req.get_body [
    | none ↦ ok (some b)
    | some f ↦ elim (f n) [ none ↦ err not_rewound | some fresh ↦ ok (some fresh) ]
  ]
]

unfoldable pub retry_unless_sent : Request → Option ℕ → RetryError → Attempt
unfolding can_retry
retry_unless_sent req response e = if can_retry req then again e else permanent response e

-- What follows the inner round trip, `none` for a transport error and else the status.
unfoldable pub classify : Request → Option ℕ → Attempt
unfolding retry_unless_sent
classify req none = retry_unless_sent req none no_transport
classify req (some status) =
    if leb 500 status
    then retry_unless_sent req (some status) (server_error status)
    else answered status

-- The bodies that are sent, and what RoundTrip returns: a response and an error, which may both be there.
pub record Trip : Type 0 where
  pub sent : List (Option Text)
  pub response : Option ℕ
  pub error : Option RetryError

unfoldable pub add_sent : Option Text → Trip → Trip
add_sent body t = record t { sent = body ∷ t.sent }

-- backoff.Retry over the attempts of RoundTrip, as many as the elapsed time allows. It returns what the last
-- attempt did, the response with the error.
module _ (req : Request) (inner : ℕ → Option Text → Option ℕ) where
  unfoldable pub retry : (tries : ℕ) → ℕ → RetryError → Trip
  unfolding rewind classify add_sent
  retry zero n last = record { sent = []; response = none; error = some last }
  retry (suc tries) n last = elim (rewind n req) [
    | err e ↦ record { sent = []; response = none; error = some e }
    | ok body ↦ elim (classify req (inner n body)) [
      | answered status ↦ record { sent = body ∷ []; response = some status; error = none }
      | permanent response e ↦ record { sent = body ∷ []; response = response; error = some e }
      | again e ↦ add_sent body (retry tries (suc n) e)
    ]
  ]

  -- The first attempt is always made.
  unfoldable pub round_trip : (tries : ℕ) → Trip
  unfolding retry
  round_trip tries = retry (suc tries) 0 no_transport
