-- ===== src/Executor/Status/Runs.antt =====
-- executor/status.go: the uses of a tracker, as sequences of steps.
use agentfile.Common.{
  ℕ, ◌%◌, ◌^◌, ◌≡◌, refl, ◌∙◌, sym, ap, Bool, false, some, List, [], ◌∷◌, ◌++◌, arith, ◌==◌,
  if◌then◌else◌, Bool-cases, inl, inr,
}
use mathlib.Core.Path.{subst}
use agentfile.Common.Lists.{length, length-append, All, All-append, append-All}
use agentfile.Executor.Status.{
  Status, failed, FailureReason, failure_none, Channel, Subscription, StatusTracker, is_status,
  new_status_tracker, set_locked, set_status, set_failure, matches, set_unless, remove_sub,
  subscribe, is_open, close, cancel, receive,
}
use agentfile.Executor.Status.Channels.{
  IsBounded, AllOpen, AllOpen-Agrees, broadcast-open, receive-Agrees, is_open-close, length-close,
  close-IsBounded, is_open-new, is_open-last,
}

-- A tracker that some use leads to, with the subscriptions that were handed out. The three setters are
-- those of the tracker; a receive is made by a subscriber.
pub data Reaches : StatusTracker → List Subscription → Type 0 where
  begin : Reaches new_status_tracker []
  sets :
      {t u : StatusTracker} {handed : List Subscription} (s : Status)
      → Reaches t handed
      → set_status s t ≡ some u
      → Reaches u handed
  fails :
      {t u : StatusTracker} {handed : List Subscription} (reason : FailureReason)
      → Reaches t handed
      → set_failure reason t ≡ some u
      → Reaches u handed
  sets_unless :
      {t u : StatusTracker} {handed : List Subscription} (s : Status) (guard : List Status)
      (did : Bool)
      → Reaches t handed
      → set_unless s guard t ≡ some (u, did)
      → Reaches u handed
  subscribes :
      {t : StatusTracker} {handed : List Subscription}
      → Reaches t handed
      → Reaches (subscribe t).1 ((subscribe t).0 ∷ handed)
  cancels :
      {t : StatusTracker} {handed : List Subscription} (before after : List Subscription)
      (sub : Subscription)
      → Reaches t handed
      → handed ≡ before ++ sub ∷ after
      → Reaches (cancel sub t) handed
  receives :
      {t : StatusTracker} {handed : List Subscription} (ch : ℕ)
      → Reaches t handed
      → Reaches (record t { channels = receive ch t.channels }) handed

abbrev pub id_of : ℕ → ℕ
id_of ch = ch % 2 ^ 64

abbrev pub IsEntry : ℕ × ℕ → Type 0
IsEntry e = e.0 ≡ id_of e.1

abbrev pub IsHanded : Subscription → Type 0
IsHanded sub = sub.id ≡ id_of sub.ch

-- Every channel that is subscribed is open, no buffer is over its size, and only a failed agent has a
-- reason.
pub record IsSane (t : StatusTracker) (handed : List Subscription) : Type 0 where
  pub all_open : AllOpen t.channels t.subs
  pub bounded : All IsBounded t.channels
  pub reason : is_status t.status failed ≡ false → t.failure ≡ failure_none
  pub next : t.next_id ≡ id_of (length t.channels)
  pub entries : All IsEntry t.subs
  pub handed_out : All IsHanded handed

-- A broadcast keeps it, and is not stopped.
set_locked-IsSane :
    (s : Status) (r : FailureReason) {t : StatusTracker} {handed : List Subscription}
    → IsSane t handed
    → (u : StatusTracker) × (set_locked s r t ≡ some u) × (u.status ≡ s) × IsSane u handed
unfolding set_locked
set_locked-IsSane s r {t = t} v =
    let (cs, e, a) = broadcast-open s t.subs t.channels v.all_open in
    let f = if is_status s failed then r else failure_none in
    (
      record t { status = s; failure = f; channels = cs },
      rw (e, set_locked) refl,
      refl,
      record {
        all_open = AllOpen-Agrees t.channels cs t.subs a v.all_open;
        bounded = a.bounded v.bounded;
        reason = λ h. rw h refl;
        next = v.next ∙ ap id_of (sym a.count);
        entries = v.entries;
        handed_out = v.handed_out;
      },
    )

set_unless-IsSane :
    (s : Status) (guard : List Status) {t u : StatusTracker} {handed : List Subscription}
    (did : Bool)
    → IsSane t handed
    → set_unless s guard t ≡ some (u, did)
    → IsSane u handed
unfolding set_unless
set_unless-IsSane s guard {t = t} {handed = handed} did v e =
    let (w, f, st, k) = set_locked-IsSane s failure_none v in
    elim (Bool-cases (matches guard t.status)) [
      | inl m ↦ subst (λ x. IsSane x handed) (ground arith) v
      | inr m ↦ subst (λ x. IsSane x handed) (ground arith) k
    ]

-- Without the entries of an id.
remove_sub-AllOpen :
    (id : ℕ) (cs : List Channel) (subs : List (ℕ × ℕ))
    → AllOpen cs subs
    → AllOpen cs (remove_sub id subs)
unfolding remove_sub
remove_sub-AllOpen id cs [] h = tt
remove_sub-AllOpen id cs ((i, ch) ∷ subs) h = ground (arith, remove_sub-AllOpen id cs subs)

remove_sub-entries :
    (id : ℕ) (subs : List (ℕ × ℕ)) → All IsEntry subs → All IsEntry (remove_sub id subs)
unfolding remove_sub
remove_sub-entries id [] h = tt
remove_sub-entries id ((i, ch) ∷ subs) h = elim (Bool-cases (i == id)) [
  | inl e ↦ rw (e, remove_sub) (remove_sub-entries id subs h.1)
  | inr e ↦ rw (e, remove_sub) (h.0, remove_sub-entries id subs h.1)
]

AllOpen-new :
    (c : Channel) (cs : List Channel) (subs : List (ℕ × ℕ))
    → AllOpen cs subs
    → AllOpen (cs ++ c ∷ []) subs
AllOpen-new c cs [] h = tt
AllOpen-new c cs ((id, ch) ∷ subs) h = (is_open-new ch c cs h.0, AllOpen-new c cs subs h.1)

AllOpen-append :
    (cs : List Channel) (xs ys : List (ℕ × ℕ))
    → AllOpen cs xs
    → AllOpen cs ys
    → AllOpen cs (xs ++ ys)
AllOpen-append cs [] ys h k = k
AllOpen-append cs ((id, ch) ∷ xs) ys h k = (h.0, AllOpen-append cs xs ys h.1 k)

subscribe-IsSane :
    (t : StatusTracker) (handed : List Subscription)
    → IsSane t handed
    → IsSane (subscribe t).1 ((subscribe t).0 ∷ handed)
unfolding subscribe
subscribe-IsSane t handed v =
    let new : Channel = record { buffer = []; closed = false } in
    let ch = length t.channels in
    record {
      all_open =
          AllOpen-append (t.channels ++ new ∷ []) (remove_sub t.next_id t.subs)
            ((t.next_id, ch) ∷ [])
            (AllOpen-new new t.channels (remove_sub t.next_id t.subs)
              (remove_sub-AllOpen t.next_id t.channels t.subs v.all_open))
            (is_open-last new t.channels refl, tt);
      bounded = All-append IsBounded t.channels (new ∷ []) v.bounded (omega arith, tt);
      reason = v.reason;
      next = omega (arith, v.next, length-append t.channels (new ∷ []));
      entries =
          All-append IsEntry (remove_sub t.next_id t.subs) ((t.next_id, ch) ∷ [])
            (remove_sub-entries t.next_id t.subs v.entries) (v.next, tt);
      handed_out = (v.next, v.handed_out);
    }

-- The entries of other ids are those of other channels.
close-AllOpen :
    (id at : ℕ) (cs : List Channel) (subs : List (ℕ × ℕ))
    → id ≡ id_of at
    → All IsEntry subs
    → AllOpen cs subs
    → AllOpen (close at cs) (remove_sub id subs)
unfolding remove_sub
close-AllOpen id at cs [] e h k = tt
close-AllOpen id at cs ((i, ch) ∷ subs) e h k = elim (Bool-cases (i == id)) [
  | inl q ↦ rw (q, remove_sub) (close-AllOpen id at cs subs e h.1 k.1)
  | inr q ↦
      rw (q, remove_sub)
        (
          is_open-close ch at cs (λ r. ground (arith, ap id_of r)) ∙ k.0,
          close-AllOpen id at cs subs e h.1 k.1,
        )
]

cancel-IsSane :
    (sub : Subscription) (t : StatusTracker) (handed : List Subscription)
    → IsHanded sub
    → IsSane t handed
    → IsSane (cancel sub t) handed
unfolding cancel
cancel-IsSane sub t handed g v = elim (Bool-cases (is_open sub.ch t.channels)) [
  | inr o ↦ rw (o, cancel) v
  | inl o ↦
      rw (o, cancel)
        (record {
          all_open = close-AllOpen sub.id sub.ch t.channels t.subs g v.entries v.all_open;
          bounded = close-IsBounded sub.ch t.channels v.bounded;
          reason = v.reason;
          next = v.next ∙ ap id_of (sym (length-close sub.ch t.channels));
          entries = remove_sub-entries sub.id t.subs v.entries;
          handed_out = v.handed_out;
        })
]

-- However a tracker is used, every channel that is subscribed is open, no buffer holds more than sixteen
-- statuses, and it has a failure reason only while the status is failed.
pub Reaches-IsSane :
    {t : StatusTracker} {handed : List Subscription} → Reaches t handed → IsSane t handed
unfolding set_status set_failure new_status_tracker
Reaches-IsSane begin = record {
  all_open = tt;
  bounded = tt;
  reason = λ h. refl;
  next = refl;
  entries = tt;
  handed_out = tt;
}
Reaches-IsSane {handed = handed} (sets s r e) =
    let (u, f, st, k) = set_locked-IsSane s failure_none (Reaches-IsSane r) in
    subst (λ x. IsSane x handed) (ground arith) k
Reaches-IsSane {handed = handed} (fails reason r e) =
    let (u, f, st, k) = set_locked-IsSane failed reason (Reaches-IsSane r) in
    subst (λ x. IsSane x handed) (ground arith) k
Reaches-IsSane (sets_unless s guard did r e) = set_unless-IsSane s guard did (Reaches-IsSane r) e
Reaches-IsSane (subscribes r) = subscribe-IsSane _ _ (Reaches-IsSane r)
Reaches-IsSane (cancels before after sub r e) =
    let v = Reaches-IsSane r in
    cancel-IsSane sub _ _
      (append-All IsHanded before (sub ∷ after) (subst (All IsHanded) e v.handed_out)).1.0 v
Reaches-IsSane (receives {t = t} ch r) =
    let v = Reaches-IsSane r in
    let a = receive-Agrees ch t.channels in
    record {
      all_open = AllOpen-Agrees t.channels (receive ch t.channels) t.subs a v.all_open;
      bounded = a.bounded v.bounded;
      reason = v.reason;
      next = v.next ∙ ap id_of (sym a.count);
      entries = v.entries;
      handed_out = v.handed_out;
    }

-- However a tracker was used, setting a status, with a reason or not, is never stopped by a send on a
-- closed channel, and ends in that status.
pub set_locked-total :
    (s : Status) (reason : FailureReason) {t : StatusTracker} {handed : List Subscription}
    → Reaches t handed
    → (u : StatusTracker) × (set_locked s reason t ≡ some u) × (u.status ≡ s)
set_locked-total s reason r =
    let (u, e, st, k) = set_locked-IsSane s reason (Reaches-IsSane r) in (u, e, st)
