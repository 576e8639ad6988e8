-- ===== src/Spec/Instruction.antt =====
-- spec/grammar.go: an instruction as the grammar's parser returns it. Of the fields of the struct
-- `instruction` exactly one is set, which is the constructor. The engine that reads the grammar
-- (participle) is third-party code and is a parameter.
use agentfile.Common.{ℕ, Bool, Option, List}
use agentfile.Common.Maps.{Assoc}
use agentfile.Common.Results.{Result}
use agentfile.Common.Texts.{Text, codes}

pub record ContextInst : Type 0 where
  pub name : Text
  pub desc : Option Text
  pub file : Option Text

pub record ConfigInst : Type 0 where
  pub key : Text
  pub required : Bool
  pub value : Option Text
  pub quoted_value : Option Text
  pub desc : Option Text

pub record BinInst : Type 0 where
  pub name : Text
  pub image : Text
  pub desc : Option Text

pub record AddInst : Type 0 where
  pub src : Text
  pub name : Option Text
  pub desc : Option Text

pub record LabelInst : Type 0 where
  pub key : Text
  pub value : Text

pub record ArgInst : Type 0 where
  pub key : Text
  pub value : Option Text

pub record EnvInst : Type 0 where
  pub key : Text
  pub value : Text
  pub desc : Option Text

pub data Instruction : Type 0 where
  from runtime model name : Text → Instruction
  context : ContextInst → Instruction
  config : ConfigInst → Instruction
  bin : BinInst → Instruction
  add : AddInst → Instruction
  exec : List Text → Instruction
  label : LabelInst → Instruction
  arg : ArgInst → Instruction
  env : EnvInst → Instruction
  capability : List Text → Instruction

-- spec/parse.go: instructionType
unfoldable pub instruction_type : Instruction → Text
instruction_type (from _) = codes "FROM"
instruction_type (runtime _) = codes "RUNTIME"
instruction_type (model _) = codes "MODEL"
instruction_type (name _) = codes "NAME"
instruction_type (context _) = codes "CONTEXT"
instruction_type (config _) = codes "CONFIG"
instruction_type (bin _) = codes "BIN"
instruction_type (add _) = codes "ADD"
instruction_type (label _) = codes "LABEL"
instruction_type (exec _) = codes "EXEC"
instruction_type (arg _) = codes "ARG"
instruction_type (env _) = codes "ENV"
instruction_type (capability _) = codes "CAPABILITY"

-- What the parser calls and the repository does not hold.
pub record Externals : Type 0 where
  -- unicode.ToUpper past ASCII
  pub upper : ℕ → ℕ
  -- strconv.ParseFloat(s, 64), the value as its 64 bits
  pub parse_float : Text → Option ℕ
  -- instructionParser.ParseString, the failure as its message
  pub parse_string : Text → Result Text Instruction
  -- the entries of a map in the order of the range at a line
  pub range : ℕ → Assoc Text → Assoc Text
