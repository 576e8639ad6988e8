-- ===== src/Executor/Runtime.antt =====
-- executor/runtime.go and executor/mount.go: the resolved runtime of an agent. An id is its text.
use agentfile.Common.{Bool, Option, List}
use agentfile.Common.Maps.{Assoc}
use agentfile.Common.Texts.{Text}
use agentfile.Spec.Types.{Mount, Env, Agentfile}

-- executor.Mount
pub record HostMount : Type 0 where
  pub host : Text
  pub target : Text
  pub description : Text
  pub read_only : Bool

pub record OciRef : Type 0 where
  pub ref : Text
  pub digest : Text

pub record RuntimeRef : Type 0 where
  pub ref : Text
  pub digest : Text
  pub binary : Text

pub record ContextEntry : Type 0 where
  pub name : Text
  pub file : Text
  pub description : Text

-- spec.Capability
pub record Capability : Type 0 where
  pub name : Text
  pub description : Text

pub record ResolvedTool : Type 0 where
  pub name : Text
  pub description : Text
  pub binary : Text
  pub ref : Text
  pub digest : Text
  pub usage : Text

pub record Runtime : Type 0 where
  pub source : Option Agentfile
  pub id : Text
  pub name : Text
  pub model : Text
  pub workspace : Text
  pub image : Option OciRef
  pub runtime : Option RuntimeRef
  pub configs : Assoc Text
  pub capabilities : List Capability
  pub envs : List (Option Env)
  pub mounts : List (Option Mount)
  pub context : List ContextEntry
  pub tools : List ResolvedTool
  pub exec : List Text
  pub addr : Text
  pub api_base : Text
  pub api_key : Text
