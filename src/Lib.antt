-- ===== src/Lib.antt =====
-- A model of openotters/agentfile: Agentfiles, the declarations from which an agent is built, and what
-- is made of them.
--
-- The program's parts. spec/ holds the data of an Agentfile, the parser of its text, its structural
-- checks, the references to images and the overrides of a deployment. resolve/ completes an Agentfile
-- with its ancestors by FROM; build/ pushes one
-- with its contents to an image store, from which store/ loads it. executor/ materialises an agent and spawns
-- its runtime, with a locked-down environment, as a process or in a container. The parser ends by the checks;
-- the resolver fetches parents, which were parsed and checked before, and merges them; the executor applies
-- overrides, asks for the required configuration and builds the environment from what is left.
--
-- The files, and the code they follow:
-- Common: texts as lists of code points, lists, maps as association lists, results, and the
--   functions of Go's strings, sort and path/filepath that the program calls.
-- Spec/Types (spec/types.go): the records, a field for a field. Text that Go leaves empty is the empty
--   text, and a pointer that may be nil is an Option.
-- Spec/Names (spec/parse.go): the regular expressions as matchers and the reserved names;
--   Spec/Names/Shapes describes what they match.
-- Spec/Validate (Validate and its helpers in spec/parse.go): the errors are values in place of messages;
--   Spec/Validate/Rules is the declarative description.
-- Spec/Configs (RequiredConfigsProvided): a loop over a set and a map; Spec/Configs/Required.
-- Spec/Overrides (the overrides in spec/types.go): functions on an Agentfile, none for a panic on a
--   nil agent; Spec/Overrides/Configs and Spec/Overrides/Envs.
-- Spec/Reference (spec/reference.go); Spec/Reference/RoundTrip and Spec/Reference/Qualify.
-- Spec/Instruction (spec/grammar.go): what the grammar yields.
-- Spec/Parse (spec/parse.go): `parse_loop` is the loop over the scanner, `step` its body, `accept` what
--   follows the grammar, `finish` what follows the loop; Spec/Parse/Lines has heredocs, substitution and the
--   case of the keyword, Spec/Parse/Apply the function applyInstruction, Spec/Parse/Values
--   parseConfigValue. Parse/Yields says which instructions the lines hold; Advance, Total, Built,
--   Sequence and Sound hold proofs.
-- Resolve, Resolve/Merge (resolve/resolve.go): `resolve_depth` with the depth and the chain of
--   references; Lineage, Safety and the children of Merge hold proofs.
-- Store (store/load.go): `load` and `load_hydrated` over a `Source`; Store/Hydration holds proofs.
-- Build (build/build.go): `build` over a `Target`, the store of images as an interface with laws; what is pushed
--   and how the manifest is packed. Bodies, Layers and Packing hold what each part leaves in the store,
--   Build/RoundTrip the load of what was built.
-- Executor/Env (executor/env.go): BuildLockedEnv, AppendConfigEnv, AppendUserEnv; Values says how a
--   process reads the entries, Locked and Keys hold proofs.
-- Executor/Process (executor/system/process.go): the command line and the environment of a runtime;
--   Executor/Process/Locked holds proofs.
-- Executor/Status (executor/status.go): the tracker, an operation for each that holds its lock, with the
--   channels of its subscribers as places in a list; Channels and Runs hold proofs, Names has the two
--   String methods and Wait has WaitForStatus.
-- Executor/Runtime (executor/runtime.go, mount.go): the records of a materialised agent.
-- System (executor/system). System/Io has the operations on file systems, each of which may fail, as a monad
--   with the operations made so far, and View (executor/workspace_view.go). System/Workspace (workspace.go)
--   has `build_runtime` and what it is made of; Workspace/Mounts the links of mounts, with filepath's Rel and
--   Dir, and Workspace/Markdown the texts of WORKSPACE.md and MOUNTS.md. System/Materialize has the steps of
--   materialize and materializeContent in their order. System/Agent (agent.go) has the state of an agent and
--   the steps of goroutines in Run, Start, Stop and Remove; Agent/Protocol is the handshake of runs alone, and
--   Agent/Safety relates the two. System/Manifests (registry.go) reads the manifests of a registry over
--   HTTP, with what its server answers as an argument, and System/Registry (the same) is the registry;
--   Manifests/Depth, Manifests/Sizes, Manifests/Served and Registry/Refs hold proofs.
-- Docker (executor/docker). Docker/Container (container.go) has the spec of a container and what the Docker API
--   is given; Docker/Job (exec_async.go, and agent.go for what both share) the container of a job, and
--   Job/Frames the copy of its multiplexed output; Docker/Auth (auth.go) the credentials for a registry.
--   Docker/Client (refresolve.go) is what the daemon answers, and the lookup of an image; Docker/Store (store.go)
--   is the store over its images, Store/Blobs the blobs of an image layout, Store/RoundTrip a tag and its
--   resolution, Store/Target the store as one that is built into. Docker/Launch (agent.go) has the calls of the
--   Docker API that Run, Stop and Remove make, the latest first; Launch/Images, Launch/Supplied and Launch/Runs hold
--   proofs.
-- Oci (oci/manifest.go, oci/retry.go): the manifest of an image for a platform, and the retries of a request;
--   Oci/Chosen and Oci/Attempts hold proofs. Oci/Binary (oci/puller.go, usage.go) is the extraction of a binary;
--   Binary/Files says which file of an archive it is, Binary/Origin where it comes from, and Binary/Usage where
--   its usage does.
-- Tests: runs and examples.
--
-- Parameters, for code that is not in the repository: the grammar's parser, ParseFloat, upper case
-- beyond ASCII and the order in which Go ranges over a map (`Externals`), what pulls a parent
-- (`Fetcher`), the store of images with the readers and writers of JSON (`Source`, `Target`, `Json`), what the
-- Docker daemon answers (`Client` for images, `Daemon` for containers), and what a registry answers (`Server`, and
-- `Repository` with the transport, the backoff, gzip and tar for one that is remote). The input of the parser is
-- the lines that the scanner yields and whether it ended in an error.
-- Texts are valid UTF-8.
--
-- A list of pointers is a list of records: no entry is nil, except where the code gets entries from
-- elsewhere and looks for nil (RequiredConfigsProvided, AppendUserEnv).
--
-- Fuel: the parser's loop gets one round for each line and one to see the end, as every round takes a
-- line; the resolver gets twelve levels, as the depth limit stops it at depth eleven;
-- the copy of a job's output gets one round for each byte and one more, as every round takes a header;
-- the walk through an index of a registry and through one of an image has fuel for its depth, which the code does not bound.
--
-- Not modelled: the exact messages of errors, reading files, the rendering of AGENT.md, exporting
-- images and what is copied through oras, writing the store of oci layouts, the
-- providers and options of the executors, the registry of the docker executor, the commands that an agent runs,
-- and the locks of an agent of Docker.
pub mod Common
pub mod Store
pub mod Build
pub mod Oci
pub mod Docker
pub mod System
pub mod Spec
pub mod Resolve
pub mod Executor
mod Tests
