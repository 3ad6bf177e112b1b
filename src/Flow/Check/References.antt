-- ===== src/Flow/Check/References.antt =====
-- `_reference_kind` and `_matches_config_type` of flow/src/hedloom_flow/model.py.
use hedloom.Base.{String, Bool, true, false, Option, none, some, List, [], str_eq, find}
use hedloom.Json.{Json}
use hedloom.Flow.Values.{
  OutputContract, ConfigType, str_type, int_type, float_type, bool_type, list_type, dict_type,
  none_type, OperationDefinition, ArtifactSource, ArtifactReference, source_reference,
  output_reference, Invocation,
}
use hedloom.Flow.Check.{
  Issue, issue, Place, Index, Owners, owner_of, operation_of, source_of, invocation_of,
  unknown_artifact_source, unknown_output_invocation, unknown_output_operation,
  unknown_owned_output,
}

-- What `_reference_kind` reports, and the kind that it gives.
abbrev pub Kind : Type 0
Kind = List Issue × Option String

abbrev pub source_kind : Place → Option ArtifactSource → Kind
source_kind path none = (issue unknown_artifact_source path, none)
source_kind path (some source) = ([], some source.artifact.kind)

abbrev pub declared_kind : Place → Option OutputContract → Kind
declared_kind path none = (issue unknown_owned_output path, none)
declared_kind path (some output) = ([], some output.artifact.kind)

-- `next((value for value in operation.outputs if value.name == name), None)`
abbrev pub output_named : String → OperationDefinition → Option OutputContract
output_named name operation = find (λ o. str_eq o.name name) operation.outputs

abbrev pub owned_kind : Place → String → Option OperationDefinition → Kind
owned_kind path name none = (issue unknown_output_operation path, none)
owned_kind path name (some operation) = declared_kind path (output_named name operation)

-- `operation_for_invocation.get(invocation.id) or operations.get(invocation.operation)`
abbrev pub or_else :
    Option OperationDefinition → Option OperationDefinition → Option OperationDefinition
or_else none o = o
or_else (some a) o = some a

abbrev pub operation_for : Index → Owners → Invocation → Option OperationDefinition
operation_for index owners invocation =
    or_else (owner_of owners invocation.id) (operation_of index invocation.operation)

abbrev pub output_kind : Index → Owners → Place → String → Option Invocation → Kind
output_kind index owners path name none = (issue unknown_output_invocation path, none)
output_kind index owners path name (some invocation) =
    owned_kind path name (operation_for index owners invocation)

unfoldable pub reference_kind : Index → Owners → Place → ArtifactReference → Kind
reference_kind index owners path (source_reference id) = source_kind path (source_of index id)
reference_kind index owners path (output_reference r) =
    output_kind index owners path r.output_name (invocation_of index r.invocation_id)

-- `_matches_config_type`
abbrev pub matches_config_type : Json → ConfigType → Bool
matches_config_type (Json.arr xs) list_type = true
matches_config_type (Json.obj fs) dict_type = true
matches_config_type Json.null none_type = true
matches_config_type (Json.str s) str_type = true
matches_config_type (Json.nat n) int_type = true
matches_config_type (Json.neg n) int_type = true
matches_config_type (Json.real s) float_type = true
matches_config_type (Json.bool b) bool_type = true
matches_config_type _ _ = false
