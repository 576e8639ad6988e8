-- ===== src/System/Io.antt =====
-- What the code of executor/system does to file systems, as a monad: the operations that were made so
-- far, the part of the workspace that the code changes, and Go's error result.
pub mod Keeps
use agentfile.Common.{Bool, List, [], ◌∷◌, if◌then◌else◌}
use agentfile.Common.Results.{Result, ok, err}
use agentfile.Common.Texts.{Text}
use agentfile.Spec.Types.{Agentfile}
use agentfile.Spec.Reference.{Reference}
use agentfile.Executor.Runtime.{HostMount, Capability, Runtime}

-- executor.WorkspaceView (executor/workspace.go)
pub record View : Type 0 where
  pub root : Text
  pub workspace_dir : Text
  pub bin_dirs : List Text
  pub runtime_bin : Text
  pub isolated : Bool

-- An operation that can fail. The first five act on the file system of the agent, and a path there
-- is relative to its root; a `host_` operation acts on a path of the host. Pulling a binary opens
-- the file, calls the puller and closes it; copying one is the same with a file of the host.
pub data Effect : Type 0 where
  make_dir : (path : Text) → Effect
  write_file : (path content : Text) → Effect
  write_agent_md :
      (path : Text) (agentfile : Agentfile) (id : Text) (capabilities : List Capability) → Effect
  pull_bin : (ref : Reference) (dest : Text) → Effect
  copy_local : (src dest : Text) → Effect
  write_config : (runtime : Runtime) → Effect
  host_make_dir : (path : Text) → Effect
  host_remove : (link : Text) → Effect
  host_symlink : (target link : Text) → Effect

-- The errors that the caller tells apart by errors.Is: ErrPull, ErrModel, ErrConfig, any other. A nil
-- dereference is none of them.
pub data Failure : Type 0 where
  pull model config other panic : Failure

-- `done` are the operations that were made, the latest first; the rest are the two fields of the
-- workspace that it sets.
pub record State : Type 0 where
  pub done : List Effect
  pub mounts : List HostMount
  pub view : View

pub data Io (A : Type 0) : Type 0 where
  io : (State → State × Result Failure A) → Io A

abbrev pub run : {A : Type 0} → Io A → State → State × Result Failure A
run (io f) = f

-- The rest of a chain, on the result of its first part.
abbrev pub then_on :
    {A B : Type 0} → (A → Io B) → State → Result Failure A → State × Result Failure B
then_on f s r = elim r [ ok x ↦ run (f x) s | err e ↦ (s, err e) ]

infixl 5 ◌>>=◌ ◌>>◌
unfoldable pub ◌>>=◌ : {A B : Type 0} → Io A → (A → Io B) → Io B
m >>= f = io (λ s. then_on f (run m s).0 (run m s).1)

unfoldable pub ◌>>◌ : {B : Type 0} → Io (Unit {0}) → Io B → Io B
unfolding ◌>>=◌
m >> k = m >>= λ _. k

unfoldable pub give : {A : Type 0} → Result Failure A → Io A
give r = io (λ s. (s, r))

unfoldable pub pure : {A : Type 0} → A → Io A
pure x = io (λ s. (s, ok x))

unfoldable pub raise : {A : Type 0} → Failure → Io A
raise e = io (λ s. (s, err e))

unfoldable pub read : Io State
read = io (λ s. (s, ok s))

unfoldable pub set_mounts : List HostMount → Io (Unit {0})
set_mounts mounts = io (λ s. (record s { mounts = mounts }, ok tt))

unfoldable pub set_view : View → Io (Unit {0})
set_view view = io (λ s. (record s { view = view }, ok tt))

-- errors.Join(e, err)
unfoldable pub join_error : {A : Type 0} → Failure → Io A → Io A
join_error e m = io (λ s. ((run m s).0, elim (run m s).1 [ ok x ↦ ok x | err why ↦ err e ]))

-- `_ = f()`: an error is dropped.
unfoldable pub ignore : Io (Unit {0}) → Io (Unit {0})
ignore m = io (λ s. ((run m s).0, ok tt))

-- A loop over a list that returns at the first error.
unfoldable pub for_each : {A : Type 0} → (A → Io (Unit {0})) → List A → Io (Unit {0})
unfolding pure ◌>>◌
for_each f [] = pure tt
for_each f (x ∷ xs) = do f x; for_each f xs

-- Whether an operation fails is up to the world, which has seen those before.
module _ (fails : List Effect → Effect → Bool) where
  unfoldable pub act : Effect → Io (Unit {0})
  act e = io (λ s. (record s { done = e ∷ s.done }, if fails s.done e then err other else ok tt))
