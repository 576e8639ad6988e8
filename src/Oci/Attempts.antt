-- ===== src/Oci/Attempts.antt =====
-- oci/retry.go: what is sent when a request is tried again.
use agentfile.Common.{ℕ, ◌<◌, ◌≤◌, ◌≡◌, ◌⊎◌, Option, none, some}
use agentfile.Common.Lists.{All, length}
use agentfile.Common.Texts.{Text}
use agentfile.Oci

-- GetBody as net/http sets it: the same body each time.
abbrev pub IsReplayed : Oci.Request → Type 0
IsReplayed req =
    (b : Text) (f : ℕ → Option Text)
    → req.body ≡ some b
    → req.get_body ≡ some f
    → (n : ℕ) → f n ≡ some b

-- A request that has a body and no way to have it again.
abbrev pub IsOneShot : Oci.Request → Type 0
IsOneShot req = (b : Text) × (req.body ≡ some b) × (req.get_body ≡ none)

-- A response and an error as they may come together: a response below 500 without an error, one from 500 only
-- with its own error and for a request that is sent once, and otherwise an error alone.
abbrev pub IsReply : Oci.Request → Option ℕ → Option Oci.RetryError → Type 0
IsReply req (some status) none = status < 500
IsReply req (some status) (some e) = (500 ≤ status) × (e ≡ Oci.server_error status) × IsOneShot req
IsReply req none (some e) = Unit
IsReply req none none = ⊥

-- What holds of the bodies sent and of the result: `sent` are whole bodies, at most one of a request that can
-- be sent once.
abbrev pub IsFaithful : Oci.Request → Oci.Trip → Type 0
IsFaithful req t =
    All (λ b. b ≡ req.body) t.sent
    × ((¬ (IsOneShot req)) ⊎ (length t.sent ≤ 1))
    × IsReply req t.response t.error
