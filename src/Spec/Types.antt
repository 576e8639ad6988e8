-- ===== src/Spec/Types.antt =====
-- spec/types.go: the data of an Agentfile. A nil slice and an empty one are not told apart; the
-- elements of a slice of pointers are there. `Agent *Agent` may be nil.
use agentfile.Common.{ℕ, Bool, Option, List}
use agentfile.Common.Int.{ℤ}
use agentfile.Common.Texts.{Text}
use agentfile.Common.Maps.{Assoc}

pub record Mount : Type 0 where
  pub host : Text
  pub target : Text
  pub description : Text
  pub read_only : Bool

pub record Context : Type 0 where
  pub name : Text
  pub description : Text
  pub content : Text
  pub file : Text

-- The dynamic types that the program stores in `Config.Value`; a float64 is its 64 bits.
pub data ConfigValue : Type 0 where
  bool : Bool → ConfigValue
  int : ℤ → ConfigValue
  float : ℕ → ConfigValue
  str : Text → ConfigValue

-- `value` is `none` for a nil interface.
pub record Config : Type 0 where
  pub key : Text
  pub value : Option ConfigValue
  pub description : Text
  pub required : Bool

pub record Bin : Type 0 where
  pub name : Text
  pub image : Text
  pub description : Text
  pub usage : Text

pub record Env : Type 0 where
  pub key : Text
  pub value : Text
  pub description : Text

pub record Add : Type 0 where
  pub src : Text
  pub name : Text
  pub description : Text
  pub content : List ℕ

pub record Agent : Type 0 where
  pub from : Text
  pub runtime : Text
  pub model : Text
  pub name : Text
  pub contexts : List Context
  pub configs : List Config
  pub bins : List Bin
  pub adds : List Add
  pub exec : List Text
  pub labels : Assoc Text
  pub args : Assoc Text
  pub envs : List Env
  pub capabilities : List Text
  pub runtime_mounts : List Mount

pub record Agentfile : Type 0 where
  pub syntax : Text
  pub agent : Option Agent
