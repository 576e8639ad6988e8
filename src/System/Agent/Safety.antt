-- ===== src/System/Agent/Safety.antt =====
-- executor/system/agent.go: the goroutines follow the protocol of runs.
use agentfile.Common.{
  ℕ, ◌≡◌, refl, sym, ap, ◌∙◌, ◌↔◌, ◌⊎◌, inl, inr, Bool, true, false, Option, some, List, [], ◌∷◌,
  arith, ◌==◌, if◌then◌else◌, Bool-cases, Option-cases,
}
use mathlib.Core.Path.{subst}
use agentfile.Executor.Status.{
  stopped, failed, removing, removed, StatusTracker, Status, set_status, set_failure, set_unless,
  set_locked, matches, broadcast,
}
use agentfile.System.Agent
use mathlib.Core.Path.{fun_ext}
use mathlib.Core.Option.{some-injective}
use agentfile.System.Agent.{
  World, AgentState, Pc, idle, start_checked, begun, preparing, starting_run, serving, ending,
  settling, closing, prepare_failed, failing, stop_read, stop_waiting, remove_stopped, deleting,
  has_run, begin_run, release, with_status, settle, put_status, put_failure, publish,
  set_credentials, after_stop, Move, update, Step, new_world, Reach,
}
use agentfile.System.Agent.Protocol
use agentfile.System.Agent.Protocol.Keeps.{Change-Inv}
use agentfile.System.Agent.Protocol.{
  Runs, Role, outside, in_run, leaving, awaiting, owner, awaits, Change, assign, Once, Inv,
}

unfoldable pub runs : World → Runs
runs w = record {
  running = w.agent.running;
  ran = w.agent.ran;
  cancel = w.agent.cancel;
  next = w.next;
  closed = w.closed;
}

unfoldable pub role : Pc → Role
role idle = outside
role start_checked = outside
role (begun n) = in_run n
role (preparing n) = in_run n
role (starting_run n) = in_run n
role (serving n) = in_run n
role (ending n) = in_run n
role (settling n) = leaving n
role (closing n) = leaving n
role (prepare_failed n e) = in_run n
role (failing n reason) = in_run n
role (stop_read cancel ran remove) = awaiting ran
role (stop_waiting ran remove) = awaiting ran
role remove_stopped = outside
role deleting = outside

put_status-runs : (s : _) (w v : World) → put_status s w ≡ some v → runs v ≡ runs w
unfolding put_status runs with_status
put_status-runs s w v h = elim (Option-cases (set_status s w.agent.status)) [
  | inl e ↦ absurd (ground arith)
  | inr (t, e) ↦ ground arith
]

put_failure-runs : (r : _) (w v : World) → put_failure r w ≡ some v → runs v ≡ runs w
unfolding put_failure runs with_status
put_failure-runs r w v h = elim (Option-cases (set_failure r w.agent.status)) [
  | inl e ↦ absurd (ground arith)
  | inr (t, e) ↦ ground arith
]

settle-runs : (w v : World) → settle w ≡ some v → runs v ≡ runs w
unfolding settle runs with_status
settle-runs w v h =
    elim (Option-cases (set_unless stopped (failed ∷ removing ∷ removed ∷ []) w.agent.status)) [
      | inl e ↦ absurd (ground arith)
      | inr (t, e) ↦ ground arith
    ]

same-Change : {r s : Runs} {a : Role} → s ≡ r → Change r a s a
same-Change {r = r} {a = a} e = subst (λ s. Change r a s a) (sym e) Change.stays

begin_run-Change :
    (w v : World) → begin_run w ≡ some v → Change (runs w) outside (runs v) (in_run w.next)
unfolding begin_run runs Agent.started
begin_run-Change w v h = elim (Bool-cases w.agent.running) [
  | inl up ↦ absurd (ground arith)
  | inr down ↦
      let same : Agent.started w ≡ v = ground arith in
      subst (λ x. Change (runs w) outside (runs x) (in_run w.next)) same
        (Change.begins {r = runs w} down)
]

after_stop-role : (remove : Bool) → role (after_stop remove) ≡ outside
unfolding after_stop role
after_stop-role true = refl
after_stop-role false = refl

publish-runs : (rt : _) (w : World) → runs (publish rt w) ≡ runs w
unfolding publish runs
publish-runs rt w = ground arith

return-Change :
    {r : Runs} {o : Option ℕ} (remove : Bool) → Change r (awaiting o) r (role (after_stop remove))
return-Change {r = r} {o = o} remove =
    subst (Change r (awaiting o) r) (sym (after_stop-role remove)) Change.returns

-- Every step of a goroutine is a change of the protocol.
pub Move-Change :
    {w v : World} {p q : Pc} → Move w p v q → Change (runs w) (role p) (runs v) (role q)
unfolding runs role release publish set_credentials Agent.set_agent_token Agent.close_ran
    Agent.cancel_run
Move-Change (Move.set_token token) = Change.stays
Move-Change (Move.run e) = begin_run-Change _ _ e
Move-Change (Move.run_refused e) = Change.stays
Move-Change (Move.start e) = Change.stays
Move-Change (Move.start_refused e) = Change.stays
Move-Change (Move.no_credentials e) = same-Change (put_failure-runs _ _ _ e)
Move-Change (Move.credentials api_base api_key) = Change.stays
Move-Change (Move.start_run e) = begin_run-Change _ _ e
Move-Change (Move.start_run_refused e) = Change.stays
Move-Change (Move.set_pulling e) = same-Change (put_status-runs _ _ _ e)
Move-Change (Move.prepared e) = Change.stays
Move-Change (Move.materialized {w = w} rt) = same-Change (publish-runs rt w)
Move-Change (Move.not_materialized e) = Change.stays
Move-Change (Move.was_cancelled e h) = Change.stays
Move-Change (Move.was_not_cancelled e h) = Change.stays
Move-Change (Move.fails e) = same-Change (put_failure-runs _ _ _ e)
Move-Change (Move.set_starting e) = same-Change (put_status-runs _ _ _ e)
Move-Change Move.exits = Change.stays
Move-Change Move.releases = Change.releases
Move-Change (Move.settles e) = same-Change (settle-runs _ _ e)
Move-Change Move.closes = Change.closes
Move-Change (Move.stop remove) = Change.waits
Move-Change Move.cancels = Change.stays
Move-Change Move.cancels_nothing = Change.stays
Move-Change (Move.not_running {remove = remove}) = return-Change remove
Move-Change (Move.woken {remove = remove} e) = return-Change remove
Move-Change Move.gives_up = Change.returns
Move-Change (Move.set_removing e) = same-Change (put_status-runs _ _ _ e)
Move-Change Move.not_deleted = Change.stays
Move-Change (Move.deleted e) = same-Change (put_status-runs _ _ _ e)

unfoldable pub roles : (ℕ → Pc) → ℕ → Role
roles pcs j = role (pcs j)

roles-update :
    (i : ℕ) (p : Pc) (pcs : ℕ → Pc) → roles (update i p pcs) ≡ assign i (role p) (roles pcs)
unfolding roles update assign
roles-update i p pcs =
    fun_ext
      (λ j. elim (Bool-cases (j == i)) [ inl e ↦ ground (arith, e) | inr e ↦ ground (arith, e) ])

new_world-Inv : (status : StatusTracker) → Inv (runs (new_world status)) (roles (λ i. idle))
unfolding new_world runs roles role owner awaits has_run
new_world-Inv status = record {
  fresh = λ i n h. absurd (ground arith);
  unique = λ i j n h k. absurd (ground arith);
  is_open = λ i n h. refl;
  inside = λ i n h. absurd (Protocol.Keeps.outside-ne-in_run n h);
  held = λ h. absurd (ground arith);
  clear = λ h. (refl, refl);
  past = λ n h. absurd (ground arith);
  once = tt;
  awaited = λ i n h. absurd (ground arith);
}

-- The handshake of the runs is as it should be in every state that steps lead to.
Reach-Inv : {w : World} {pcs : ℕ → Pc} → Reach w pcs → Inv (runs w) (roles pcs)
unfolding Agent.cancel_run runs roles role
Reach-Inv (Reach.begin status) = new_world-Inv status
Reach-Inv (Reach.later r (Step.moves {v = v} {pcs = pcs} {p = p} i m)) =
    subst (Inv (runs v)) (sym (roles-update i p pcs))
      (Change-Inv i (roles pcs) refl (Move-Change m) (Reach-Inv r))
Reach-Inv (Reach.later r (Step.context_ends n)) = Reach-Inv r
Reach-Inv (Reach.later {pcs = pcs} r (Step.supervised {w = w} {v = v} s e)) =
    subst (λ x. Inv x (roles pcs)) (sym (put_status-runs s w v e)) (Reach-Inv r)

-- Whatever the goroutines do and however their steps interleave, at most one of them is in a run;
-- the flag is set exactly while one is; and then `ran` and `cancel` are those of its run.
pub Reach-exclusive :
    {w : World} {pcs : ℕ → Pc}
    → Reach w pcs
    → ((i j n m : ℕ) → role (pcs i) ≡ in_run n → role (pcs j) ≡ in_run m → (i ≡ j) × (n ≡ m))
      × ((w.agent.running ≡ true) ↔ ((i : ℕ) × (n : ℕ) × (role (pcs i) ≡ in_run n)))
      × ((i n : ℕ) → role (pcs i) ≡ in_run n → (w.agent.ran ≡ some n) × (w.agent.cancel ≡ some n))
unfolding runs roles owner
Reach-exclusive r =
    let v = Reach-Inv r in
    (
      λ i j n m h k.
          let same : n ≡ m = some-injective n m (sym (v.inside i n h).1 ∙ (v.inside j m k).1) in
          (v.unique i j m (ap owner h ∙ ap some same) (ap owner k), same),
      (v.held, λ (i, n, h). (v.inside i n h).0),
      λ i n h. ((v.inside i n h).1, (v.inside i n h).2),
    )

-- However the steps interleave, no channel of a run is closed twice, and one that is about to be
-- closed is open.
pub Reach-Once :
    {w : World} {pcs : ℕ → Pc}
    → Reach w pcs
    → Once w.closed × ((i n : ℕ) → pcs i ≡ closing n → has_run n w.closed ≡ false)
unfolding runs roles role owner
Reach-Once r = let v = Reach-Inv r in (v.once, λ i n h. v.is_open i n (ap (λ p. owner (role p)) h))

-- However the steps interleave, a Stop or Remove that waits is never left behind: the channel that
-- it waits for is closed, or there is a goroutine that has yet to close it.
pub Reach-awaited :
    {w : World} {pcs : ℕ → Pc}
    → Reach w pcs
    → (i n : ℕ) (remove : Bool) → pcs i ≡ stop_waiting (some n) remove
    → ((j : ℕ) × (owner (role (pcs j)) ≡ some n)) ⊎ (has_run n w.closed ≡ true)
unfolding runs roles role awaits
Reach-awaited r i n remove h = (Reach-Inv r).awaited i n (ap (λ p. awaits (role p)) h)

set_unless-status :
    (s : Status) (guard : List Status) (t u : StatusTracker) (did : Bool)
    → set_unless s guard t ≡ some (u, did)
    → u.status ≡ (if matches guard t.status then t.status else s)
unfolding set_unless set_locked
set_unless-status s guard t u did h = elim (Bool-cases (matches guard t.status)) [
  | inl e ↦ ground arith
  | inr e ↦ elim (Option-cases (broadcast s t.subs t.channels)) [
    | inl q ↦ absurd (ground arith)
    | inr (cs, q) ↦ ground arith
  ]
]

-- The end of a run leaves a status of failed, removing or removed as it is, and makes any other one
-- stopped; nothing else of the agent changes but its failure reason and its subscribers' channels.
settle-status :
    (w v : World)
    → settle w ≡ some v
    → (v.agent.status.status ≡ (
        if matches (failed ∷ removing ∷ removed ∷ []) w.agent.status.status
        then w.agent.status.status
        else stopped))
      × (runs v ≡ runs w)
unfolding settle with_status
settle-status w v h =
    let guard : List Status = failed ∷ removing ∷ removed ∷ [] in
    elim (Option-cases (set_unless stopped guard w.agent.status)) [
      | inl e ↦ absurd (ground arith)
      | inr ((t, did), e) ↦
          let same : with_status w t ≡ v = ground arith in
          (
            ap (λ (x : World). x.agent.status.status) (sym same)
                ∙ set_unless-status stopped guard w.agent.status t did e,
            settle-runs w v h,
          )
    ]
