-- ===== src/System/Materialize/Confined.antt =====
-- executor/system/workspace.go: what the code touches as a whole.
use agentfile.Common.{◌≡◌, inl, inr, Bool, some, List, [], arith}
use mathlib.Core.Path.{subst}
use agentfile.Common.Lists.{All}
use agentfile.Common.Results.{Result, ok, err, Result-cases}
use agentfile.Common.Texts.{Text}
use agentfile.Spec.Types.{Agent, Agentfile}
use agentfile.Spec.Overrides.{apply}
use agentfile.Spec.Validate.{validate}
use agentfile.Store.{Manifest, load}
use agentfile.Executor.Runtime.{HostMount, Runtime}
use agentfile.System.Io.{
  Effect, Failure, pull, config, panic, State, Io, run, then_on, ◌>>=◌, pure, raise, View,
}
use agentfile.System.Workspace.{Workspace}
use agentfile.System.Materialize
use agentfile.System.Io.Keeps.{
  Keeps, kept, Keeps-after, Keeps->>=, Keeps->>, Keeps-pure, Keeps-raise, Keeps-join_error,
  Result-elim, Option-elim,
}
use agentfile.System.Materialize.Bins.{BinsSafe, KeepsBins, apply-KeepsBins, validated}
use agentfile.System.Materialize.Steps.{
  IsConfined, materialize_agent-Safe, install_runtime-Safe, install_tools-Safe,
}

module _ (fails : List Effect → Effect → Bool) (w : Workspace) (root : Text) where
  -- What is materialised has tools with file names, and what it does is confined.
  abbrev IsSound : Io (Runtime × Agent) → Type 0
  IsSound m =
      Keeps (IsConfined root) m
      × ((s : State) (rt : Runtime) (a : Agent) → (run m s).1 ≡ ok (rt, a) → BinsSafe a)

  raise-IsSound : (e : Failure) → IsSound (raise e)
  unfolding raise
  raise-IsSound e = (Keeps-raise e, λ s rt a h. absurd (ground arith))

  materialize_agent-IsSound :
      (manifest : Manifest) (af : Agentfile) (a : Agent) (id addr : Text)
      → BinsSafe a
      → IsSound
          (Materialize.materialize_agent fails w root manifest af a id addr >>= λ rt. pure (rt, a))
  unfolding ◌>>=◌ pure
  materialize_agent-IsSound manifest af a id addr h =
      let m = Materialize.materialize_agent fails w root manifest af a id addr in
      (
        Keeps->>= (materialize_agent-Safe fails w root manifest af a id addr h)
            (λ rt. Keeps-pure (rt, a)),
        λ s rt b e. elim (Result-cases (run m s).1) [
          | inl (x, q) ↦
              let k : Path (Result Failure (Runtime × Agent)) (ok (x, a)) (ok (rt, b)) =
                subst
                  (λ r.
                    (then_on {B = Runtime × Agent} (λ y. pure (y, a)) (run m s).0 r).1 ≡ ok (rt, b))
                  q e in
              let same : a ≡ b = ground arith in subst BinsSafe same h
          | inr (why, q) ↦
              let k : Path (Result Failure (Runtime × Agent)) (err why) (ok (rt, b)) =
                subst
                  (λ r.
                    (then_on {B = Runtime × Agent} (λ y. pure (y, a)) (run m s).0 r).1 ≡ ok (rt, b))
                  q e in
              absurd (ground arith)
        ],
      )

  materialize_content-IsSound :
      (id addr : Text)
      → All KeepsBins w.overrides
      → IsSound (Materialize.materialize_content fails w root id addr)
  unfolding Materialize.materialize_content
  materialize_content-IsSound id addr o =
      Result-elim IsSound (load w.store w.ref) (λ e. raise-IsSound pull)
        (λ (manifest, loaded) l.
          Result-elim IsSound (validate (some loaded)) (λ e. raise-IsSound config)
            (λ u v. Option-elim IsSound (apply w.overrides loaded) (raise-IsSound panic) (λ af p.
              Option-elim IsSound af.agent (raise-IsSound panic) (λ a q.
                materialize_agent-IsSound manifest af a id addr
                  (apply-KeepsBins w.overrides o loaded af (validated loaded v) p a q)))))

  -- Making the files of an agent.
  materialize-Safe :
      (id addr : Text)
      → All KeepsBins w.overrides
      → Keeps (IsConfined root) (Materialize.materialize fails w root id addr)
  unfolding Materialize.materialize
  materialize-Safe id addr o =
      let (safe, post) = materialize_content-IsSound id addr o in
      Keeps-after safe (λ s (rt, a) e.
        Keeps->> (Keeps-join_error pull (install_runtime-Safe fails w root a)) (
          Keeps->> (Keeps-join_error pull (install_tools-Safe fails w root a (post s rt a e)))
            (Keeps-pure rt)))

-- Every operation that materialising an agent makes is confined, whichever operations fail and
-- whatever the store holds: in the file system of the agent it is on a relative path whose elements
-- are none of empty, `.` and `..`, save the runtime's configuration, whose place is fixed; a link that it removes
-- or makes on the host is in the tree of the agent, or is a tool by a path-safe name right in its opt/bins; and a
-- directory that it makes on the host is the one that holds such a link in the tree, or is opt/bins; if the
-- overrides leave the names of the tools path-safe.
pub materialize-IsConfined :
    (fails : List Effect → Effect → Bool) (w : Workspace) (root id addr : Text)
    (mounts : List HostMount) (view : View)
    → All KeepsBins w.overrides
    → All
        (IsConfined root)
        (run
          (Materialize.materialize fails w root id addr)
          (record { done = []; mounts = mounts; view = view })).0.done
materialize-IsConfined fails w root id addr mounts view o =
    kept (materialize-Safe fails w root id addr o)
      (record { done = []; mounts = mounts; view = view }) tt
