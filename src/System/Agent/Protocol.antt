-- ===== src/System/Agent/Protocol.antt =====
-- executor/system/agent.go: the handshake of runs, as a protocol of its own. What a goroutine does to
-- it is one of four changes.
pub mod Keeps
use agentfile.Common.{
  ℕ, suc, ◌<◌, ◌≡◌, ◌⊎◌, Bool, true, false, Option, none, some, List, [], ◌∷◌, ◌==◌, if◌then◌else◌,
}
use agentfile.System.Agent.{has_run}

-- What the protocol is about: the flag, the two fields, the number of runs and the closed channels.
pub record Runs : Type 0 where
  pub running : Bool
  pub ran : Option ℕ
  pub cancel : Option ℕ
  pub next : ℕ
  pub closed : List ℕ

-- A goroutine is outside, is in a run until it releases it, has the channel of a run to close, or
-- waits for one if it waits at all.
pub data Role : Type 0 where
  outside : Role
  in_run leaving : ℕ → Role
  awaiting : Option ℕ → Role

unfoldable pub owner : Role → Option ℕ
owner outside = none
owner (in_run n) = some n
owner (leaving n) = some n
owner (awaiting o) = none

unfoldable pub awaits : Role → Option ℕ
awaits outside = none
awaits (in_run n) = none
awaits (leaving n) = none
awaits (awaiting o) = o

pub data Change : Runs → Role → Runs → Role → Type 0 where
  stays : {r : Runs} {a : Role} → Change r a r a
  waits : {r : Runs} → Change r outside r (awaiting r.ran)
  returns : {r : Runs} {o : Option ℕ} → Change r (awaiting o) r outside
  begins :
      {r : Runs}
      → r.running ≡ false
      → Change r outside
          (record r { running = true; cancel = some r.next; ran = some r.next; next = suc r.next })
          (in_run r.next)
  releases :
      {r : Runs} {n : ℕ}
      → Change r (in_run n) (record r { running = false; cancel = none; ran = none }) (leaving n)
  closes : {r : Runs} {n : ℕ} → Change r (leaving n) (record r { closed = n ∷ r.closed }) outside

unfoldable pub assign : ℕ → Role → (ℕ → Role) → ℕ → Role
assign i a roles j = if j == i then a else roles j

abbrev pub Once : List ℕ → Type 0
Once [] = Unit
Once (n ∷ ns) = (has_run n ns ≡ false) × Once ns

pub record Inv (r : Runs) (roles : ℕ → Role) : Type 0 where
  pub fresh : (i n : ℕ) → owner (roles i) ≡ some n → n < r.next
  pub unique : (i j n : ℕ) → owner (roles i) ≡ some n → owner (roles j) ≡ some n → i ≡ j
  pub is_open : (i n : ℕ) → owner (roles i) ≡ some n → has_run n r.closed ≡ false
  pub inside :
      (i n : ℕ) → roles i ≡ in_run n → (r.running ≡ true) × (r.ran ≡ some n) × (r.cancel ≡ some n)
  pub held : r.running ≡ true → (i : ℕ) × (n : ℕ) × (roles i ≡ in_run n)
  pub clear : r.running ≡ false → (r.ran ≡ none) × (r.cancel ≡ none)
  pub past : (n : ℕ) → has_run n r.closed ≡ true → n < r.next
  pub once : Once r.closed
  pub awaited :
      (i n : ℕ)
      → awaits (roles i) ≡ some n
      → ((j : ℕ) × (owner (roles j) ≡ some n)) ⊎ (has_run n r.closed ≡ true)
