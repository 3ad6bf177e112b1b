-- ===== src/Flow/Values.antt =====
-- The immutable values of flow/src/hedloom_flow/model.py, one record for each dataclass. `value_class` and
-- the `cardinality` of a binding are fixed by the class and have no field.
use hedloom.Base.{ℕ, String, Bool, ◌&&◌, Option, none, some, List, str_eq}
use hedloom.Json.{Json, end}

pub record ArtifactContract : Type 0 where
  pub kind : String

pub record ArtifactAddress : Type 0 where
  pub address_space : String
  pub locator : String

pub data Cardinality : Type 0 where
  scalar collection : Cardinality

pub record InputContract : Type 0 where
  pub name : String
  pub artifact : ArtifactContract
  pub required : Bool
  pub cardinality : Cardinality

-- `_PLAIN_CONFIG_TYPES`
pub data ConfigType : Type 0 where
  str_type int_type float_type bool_type list_type dict_type none_type : ConfigType

pub record ConfigContract : Type 0 where
  pub name : String
  pub value_type : ConfigType
  pub required : Bool

pub record OutputContract : Type 0 where
  pub name : String
  pub artifact : ArtifactContract
  pub binding : Option Json

pub record ResourceContract : Type 0 where
  pub name : String
  pub amount : Json
  pub unit : Option String

pub record Policy : Type 0 where
  pub name : String
  pub options : Json

pub record OperationIdentity : Type 0 where
  pub name : String
  pub version : String

pub record FlowIdentity : Type 0 where
  pub name : String
  pub version : String

pub record Implementation : Type 0 where
  pub entry_point : String
  pub fingerprint : String
  pub kind : String

pub data Execution : Type 0 where
  reuse each_submission : Execution

pub record OperationDefinition : Type 0 where
  pub identity : OperationIdentity
  pub inputs : List InputContract
  pub config : List ConfigContract
  pub outputs : List OutputContract
  pub resources : List ResourceContract
  pub default_policy : Option Policy
  pub implementation : Option Implementation
  pub execution : Execution

pub record FlowDefinition : Type 0 where
  pub identity : FlowIdentity

pub record ArtifactSource : Type 0 where
  pub id : String
  pub address : ArtifactAddress
  pub artifact : ArtifactContract

pub record OutputReference : Type 0 where
  pub invocation_id : String
  pub output_name : String

pub data ArtifactReference : Type 0 where
  source_reference : String → ArtifactReference
  output_reference : OutputReference → ArtifactReference

-- `InputBinding` and `CollectionInputBinding`
pub data Bound : Type 0 where
  one_reference : ArtifactReference → Bound
  members : List ArtifactReference → Bound

pub record ArtifactInputBinding : Type 0 where
  pub name : String
  pub bound : Bound

pub record ConfigBinding : Type 0 where
  pub name : String
  pub value : Json

pub record Invocation : Type 0 where
  pub id : String
  pub operation : OperationIdentity
  pub inputs : List ArtifactInputBinding
  pub config : List ConfigBinding
  pub policy : Policy
  pub boundary_id : Option String
  pub authored_key : Option String

pub record DependencyEdge : Type 0 where
  pub id : String
  pub source : ArtifactReference
  pub target_invocation_id : String
  pub target_input_name : String
  pub artifact_kind : String
  pub target_member_index : Option ℕ

pub record NamedOutput : Type 0 where
  pub name : String
  pub reference : OutputReference

pub record FlowBoundary : Type 0 where
  pub id : String
  pub flow : FlowIdentity
  pub parent_id : Option String
  pub outputs : List NamedOutput
  pub authored_key : Option String

pub record Plan : Type 0 where
  pub operations : List OperationDefinition
  pub flows : List FlowDefinition
  pub sources : List ArtifactSource
  pub invocations : List Invocation
  pub edges : List DependencyEdge
  pub boundaries : List FlowBoundary
  pub outputs : List NamedOutput
  pub schema_version : ℕ

-- The equality of identities, as dataclasses.
abbrev pub same_operation : OperationIdentity → OperationIdentity → Bool
same_operation a b = str_eq a.name b.name && str_eq a.version b.version

abbrev pub same_flow : FlowIdentity → FlowIdentity → Bool
same_flow a b = str_eq a.name b.name && str_eq a.version b.version

-- `local`
abbrev pub local : Json → Policy
local options = record { name = "local"; options = options }

-- `resolve_policy`: the call's, else the operation's, else the plan's, else a local one.
abbrev resolve_policy : Option Policy → Option Policy → Option Policy → Policy
resolve_policy (some p) operation_default plan_default = p
resolve_policy none (some p) plan_default = p
resolve_policy none none (some p) = p
resolve_policy none none none = local (Json.obj end)
