-- ===== src/Executor/Status.antt =====
-- executor/status.go: the status of an agent and its broadcast to subscribers. Each operation holds
-- the tracker's lock from its start to its end and is one step. A send on a closed channel, which
-- panics in Go, is `none`.
pub mod Channels
pub mod Runs
pub mod Names
pub mod Wait
use agentfile.Common.{
  ℕ, zero, suc, ◌+◌, ◌%◌, ◌^◌, Bool, true, false, ◌||◌, Option, none, some, List, [], ◌∷◌, ◌++◌,
  ltb, if◌then◌else◌, ◌==◌,
}
use agentfile.Common.Lists.{length, drop}

pub data Status : Type 0 where
  pulling starting ready working stopped failed removing removed : Status

pub data FailureReason : Type 0 where
  failure_none failure_pull failure_init failure_config failure_model : FailureReason
  failure_readiness_timeout failure_crashed : FailureReason

abbrev pub status_chan_size : ℕ
status_chan_size = 16

-- The number of a status, by which Go compares it.
unfoldable pub ordinal : Status → ℕ
ordinal pulling = 0
ordinal starting = 1
ordinal ready = 2
ordinal working = 3
ordinal stopped = 4
ordinal failed = 5
ordinal removing = 6
ordinal removed = 7

abbrev pub is_status : Status → Status → Bool
is_status s t = ordinal s == ordinal t

-- A buffered channel of statuses.
pub record Channel : Type 0 where
  pub buffer : List Status
  pub closed : Bool

-- What Subscribe returns: the channel, and the id that `cancel` deletes.
pub record Subscription : Type 0 where
  pub id : ℕ
  pub ch : ℕ

-- `channels` are all channels that were made, and a channel is its place among them; `subs` maps
-- ids, which are 64 bits wide, to channels.
pub record StatusTracker : Type 0 where
  pub status : Status
  pub failure : FailureReason
  pub next_id : ℕ
  pub subs : List (ℕ × ℕ)
  pub channels : List Channel

unfoldable pub new_status_tracker : StatusTracker
new_status_tracker = record {
  status = pulling;
  failure = failure_none;
  next_id = 0;
  subs = [];
  channels = [];
}

-- select { case ch <- s: default: } on an open channel
unfoldable pub offer : Status → Channel → Channel
offer s c =
    if ltb (length c.buffer) status_chan_size then record c { buffer = c.buffer ++ s ∷ [] } else c

-- The same on the channel at a place, closed or open.
unfoldable pub send : Status → ℕ → List Channel → Option (List Channel)
unfolding offer
send s n [] = none
send s zero (c ∷ cs) = if c.closed then none else some (offer s c ∷ cs)
send s (suc n) (c ∷ cs) = elim (send s n cs) [ none ↦ none | some cs' ↦ some (c ∷ cs') ]

-- for _, ch := range t.subs
unfoldable pub broadcast : Status → List (ℕ × ℕ) → List Channel → Option (List Channel)
unfolding send
broadcast s [] cs = some cs
broadcast s ((id, ch) ∷ subs) cs = elim (send s ch cs) [
  | none ↦ none
  | some cs' ↦ broadcast s subs cs'
]

unfoldable pub set_locked : Status → FailureReason → StatusTracker → Option StatusTracker
unfolding broadcast ordinal
set_locked s reason t = elim (broadcast s t.subs t.channels) [
  | none ↦ none
  | some cs ↦ some (record t {
    status = s;
    failure = if is_status s failed then reason else failure_none;
    channels = cs;
  })
]

-- StatusTracker.Set
unfoldable pub set_status : Status → StatusTracker → Option StatusTracker
unfolding set_locked
set_status s t = set_locked s failure_none t

unfoldable pub set_failure : FailureReason → StatusTracker → Option StatusTracker
unfolding set_locked
set_failure reason t = set_locked failed reason t

unfoldable pub matches : List Status → Status → Bool
unfolding ordinal
matches [] s = false
matches (t ∷ target) s = is_status s t || matches target s

-- The status is set, with whether it was.
unfoldable pub set_unless : Status → List Status → StatusTracker → Option (StatusTracker × Bool)
unfolding set_locked matches
set_unless s guard t =
    if matches guard t.status
    then some (t, false)
    else elim (set_locked s failure_none t) [ none ↦ none | some t' ↦ some (t', true) ]

-- delete(subs, id)
unfoldable pub remove_sub : ℕ → List (ℕ × ℕ) → List (ℕ × ℕ)
remove_sub id [] = []
remove_sub id ((i, ch) ∷ subs) =
    let rest = remove_sub id subs in if i == id then rest else (i, ch) ∷ rest

unfoldable pub subscribe : StatusTracker → Subscription × StatusTracker
unfolding remove_sub
subscribe t =
    let ch = length t.channels in
    (
      record { id = t.next_id; ch = ch },
      record t {
        next_id = (t.next_id + 1) % 2 ^ 64;
        subs = remove_sub t.next_id t.subs ++ (t.next_id, ch) ∷ [];
        channels = t.channels ++ record { buffer = []; closed = false } ∷ [];
      },
    )

unfoldable pub is_open : ℕ → List Channel → Bool
is_open n [] = false
is_open zero (c ∷ cs) = if c.closed then false else true
is_open (suc n) (c ∷ cs) = is_open n cs

-- close(ch)
unfoldable pub close : ℕ → List Channel → List Channel
close n [] = []
close zero (c ∷ cs) = record c { closed = true } ∷ cs
close (suc n) (c ∷ cs) = c ∷ close n cs

-- The function `cancel` of a subscription. Only it closes the channel, so that its `once` has run
-- exactly if the channel is closed.
unfoldable pub cancel : Subscription → StatusTracker → StatusTracker
unfolding remove_sub is_open close
cancel sub t =
    if is_open sub.ch t.channels
    then record t { subs = remove_sub sub.id t.subs; channels = close sub.ch t.channels }
    else t

-- A receive by a subscriber takes the oldest status out of the buffer.
unfoldable pub receive : ℕ → List Channel → List Channel
receive n [] = []
receive zero (c ∷ cs) = record c { buffer = drop 1 c.buffer } ∷ cs
receive (suc n) (c ∷ cs) = c ∷ receive n cs
