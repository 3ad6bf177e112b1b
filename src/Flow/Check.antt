-- ===== src/Flow/Check.antt =====
-- What `Plan.validate` of flow/src/hedloom_flow/model.py reports, and its helpers on names and indexes. An
-- issue is its code and its path, the path as a value; the message is left out.
pub mod Keys
pub mod References
pub mod Boundaries
pub mod Operations
pub mod Invocations
pub mod Edges
use hedloom.Base.{
  ℕ, suc, String, Bool, true, false, Option, none, some, List, [], ◌∷◌, ◌++◌, str_eq, if◌then◌else◌,
  any, find, map,
}
use hedloom.Flow.Values.{
  OperationIdentity, OperationDefinition, FlowDefinition, ArtifactSource, Invocation, FlowBoundary,
  same_operation,
}

pub data Code : Type 0 where
  duplicate_operation duplicate_flow duplicate_source_id duplicate_invocation_id : Code
  duplicate_edge_id duplicate_boundary_id duplicate_plan_output : Code
  invalid_authored_key duplicate_authored_key keyed_invoke_id_mismatch keyed_flow_id_mismatch : Code
  duplicate_input_contract duplicate_config_contract duplicate_output_contract : Code
  duplicate_resource_contract binding_name_collision : Code
  unknown_flow unknown_parent_boundary boundary_cycle duplicate_boundary_output : Code
  unknown_operation unknown_invocation_boundary duplicate_input_binding duplicate_config_binding :
      Code
  missing_input missing_config unexpected_input input_cardinality_mismatch input_kind_mismatch :
      Code
  unexpected_config config_type_mismatch : Code
  duplicate_target_edge edge_without_output_binding edge_binding_mismatch unknown_edge_target : Code
  unknown_edge_input unexpected_edge_member_position missing_edge_member_position : Code
  invalid_edge_member_position edge_source_kind_mismatch edge_target_kind_mismatch : Code
  stable_edge_id_mismatch missing_dependency_edge dependency_cycle boundary_output_not_owned : Code
  invalid_source_address unknown_artifact_source unknown_output_invocation : Code
  unknown_output_operation unknown_owned_output : Code

-- `f"{p}.name"`, `f"{p}[i]"` and `f"{p}[name]"`
pub data Place : Type 0 where
  root : String → Place
  under : Place → String → Place
  nth : Place → ℕ → Place
  called : Place → String → Place

-- `ValidationIssue`
pub record Issue : Type 0 where
  pub code : Code
  pub path : Place

-- `issue(code, path, …)`
abbrev pub issue : Code → Place → List Issue
issue code path = record { code = code; path = path } ∷ []

-- `if wrong: issue(code, path, …)`
abbrev pub issue_if : Bool → Code → Place → List Issue
issue_if true code path = issue code path
issue_if false code path = []

module _ {ℓ} {A : Type ℓ} where
  -- `for index, value in enumerate(values): …`
  abbrev pub each_from : ℕ → (ℕ → A → List Issue) → List A → List Issue
  each_from i f [] = []
  each_from i f (x ∷ xs) = f i x ++ each_from (suc i) f xs

  abbrev pub each : (ℕ → A → List Issue) → List A → List Issue
  each = each_from 0

  -- The issues of `_unique_index` and of `_check_named_uniqueness`, on the keys; `seen` is a set, which a
  -- member that is added again does not change.
  abbrev pub repeated : (A → A → Bool) → Code → Place → ℕ → List A → List A → List Issue
  repeated same code path i seen [] = []
  repeated same code path i seen (k ∷ ks) =
      issue_if (any (same k) seen) code (nth path i)
      ++ repeated same code path (suc i) (k ∷ seen) ks

  abbrev pub unique : (A → A → Bool) → Code → Place → List A → List Issue
  unique same code path = repeated same code path 0 []

  -- The values of the dictionary that `_unique_index` gives, in its order: the first of each key.
  abbrev pub first_of_each : (A → A → Bool) → List A → List A → List A
  first_of_each same seen [] = []
  first_of_each same seen (x ∷ xs) =
      if any (same x) seen then first_of_each same seen xs else x ∷ first_of_each same (x ∷ seen) xs

  -- `{value.name: value for value in values}.get(name)`: the last one counts.
  abbrev pub find_last : (A → Bool) → List A → Option A
  find_last p [] = none
  find_last p (x ∷ xs) = elim (find_last p xs) [
    | none ↦ (if p x then some x else none)
    | some y ↦ some y
  ]

-- `_check_named_uniqueness`, on the names
abbrev pub unique_names : Code → Place → List String → List Issue
unique_names = unique str_eq

-- The dictionaries that `validate` makes with `_unique_index`.
pub record Index : Type 0 where
  pub operations : List OperationDefinition
  pub flows : List FlowDefinition
  pub sources : List ArtifactSource
  pub invocations : List Invocation
  pub boundaries : List FlowBoundary

-- `operations.get(identity)`
abbrev pub operation_of : Index → OperationIdentity → Option OperationDefinition
operation_of index identity = find (λ o. same_operation o.identity identity) index.operations

-- `sources.get(id)`
abbrev pub source_of : Index → String → Option ArtifactSource
source_of index id = find (λ s. str_eq s.id id) index.sources

-- `invocations.get(id)`
abbrev pub invocation_of : Index → String → Option Invocation
invocation_of index id = find (λ v. str_eq v.id id) index.invocations

-- `boundaries.get(id)`
abbrev pub boundary_of : Index → String → Option FlowBoundary
boundary_of index id = find (λ b. str_eq b.id id) index.boundaries

-- `operation_for_invocation`: the operation of each invocation that has been met with a known one.
abbrev pub Owners : Type 0
Owners = List (String × OperationDefinition)

abbrev pub owner_of : Owners → String → Option OperationDefinition
owner_of [] id = none
owner_of (p ∷ ps) id = if str_eq p.0 id then some p.1 else owner_of ps id

abbrev pub opt_eq : Option String → Option String → Bool
opt_eq none none = true
opt_eq (some a) (some b) = str_eq a b
opt_eq none (some b) = false
opt_eq (some a) none = false
