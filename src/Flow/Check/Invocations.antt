-- ===== src/Flow/Check/Invocations.antt =====
-- The loop over the invocations in `Plan.validate` of flow/src/hedloom_flow/model.py: what it reports, and
-- the two dictionaries that it fills.
use hedloom.Base.{
  ℕ, suc, String, Bool, true, false, not, ◌&&◌, ◌||◌, Option, none, some, List, [], ◌∷◌, ◌++◌, ◌==◌,
  str_eq, if◌then◌else◌, map, is_some,
}
use hedloom.Flow.Graph.{mem}
use hedloom.Flow.Values.{
  Cardinality, scalar, collection, InputContract, ConfigContract, OperationDefinition,
  ArtifactReference, source_reference, output_reference, Bound, one_reference, members,
  ArtifactInputBinding, ConfigBinding, Invocation,
}
use hedloom.Flow.Check.{
  Issue, issue, issue_if, each, Place, root, under, nth, unique_names, find_last, Index, Owners,
  owner_of, operation_of, boundary_of, unknown_operation, unknown_invocation_boundary,
  duplicate_input_binding, duplicate_config_binding, missing_input, missing_config,
  unexpected_input, input_cardinality_mismatch, input_kind_mismatch, unexpected_config,
  config_type_mismatch,
}
use hedloom.Flow.Check.References.{reference_kind, matches_config_type}

-- `(invocation id, input name, member index)`
pub record Target : Type 0 where
  pub invocation : String
  pub input : String
  pub member : Option ℕ

abbrev pub same_member : Option ℕ → Option ℕ → Bool
same_member none none = true
same_member (some i) (some j) = i == j
same_member none (some j) = false
same_member (some i) none = false

abbrev pub same_target : Target → Target → Bool
same_target a b =
    str_eq a.invocation b.invocation && (str_eq a.input b.input && same_member a.member b.member)

-- `expected_edges`
abbrev pub Expected : Type 0
Expected = List (Target × ArtifactReference)

abbrev pub expect : Target → ArtifactReference → Expected → Expected
expect t r [] = (t, r) ∷ []
expect t r (p ∷ ps) = if same_target p.0 t then (t, r) ∷ ps else p ∷ expect t r ps

abbrev pub expected_at : Expected → Target → Option ArtifactReference
expected_at [] t = none
expected_at (p ∷ ps) t = if same_target p.0 t then some p.1 else expected_at ps t

-- The two dictionaries.
pub record Known : Type 0 where
  pub owners : Owners
  pub expected : Expected

abbrev pub cardinality_of : Bound → Cardinality
cardinality_of (one_reference r) = scalar
cardinality_of (members rs) = collection

abbrev pub same_cardinality : Cardinality → Cardinality → Bool
same_cardinality scalar scalar = true
same_cardinality collection collection = true
same_cardinality scalar collection = false
same_cardinality collection scalar = false

abbrev pub numbered_from : ℕ → List ArtifactReference → List (Option ℕ × ArtifactReference)
numbered_from i [] = []
numbered_from i (r ∷ rs) = (some i, r) ∷ numbered_from (suc i) rs

-- `indexed_references`
abbrev pub indexed : Bound → List (Option ℕ × ArtifactReference)
indexed (one_reference r) = (none, r) ∷ []
indexed (members rs) = numbered_from 0 rs

abbrev pub is_output : ArtifactReference → Bool
is_output (source_reference id) = false
is_output (output_reference r) = true

-- `{contract.name: contract for contract in operation.inputs}.get(name)`
abbrev pub input_contract : OperationDefinition → String → Option InputContract
input_contract o name = find_last (λ c. str_eq c.name name) o.inputs

abbrev pub config_contract : OperationDefinition → String → Option ConfigContract
config_contract o name = find_last (λ c. str_eq c.name name) o.config

abbrev pub differs : Option String → String → Bool
differs none kind = false
differs (some k) kind = not (str_eq k kind)

abbrev pub member_place : Place → Option ℕ → Place
member_place path none = path
member_place path (some i) = nth (under path "references") i

abbrev pub reference_issues :
    Index → Owners → InputContract → Place → Option ℕ × ArtifactReference → List Issue
reference_issues index owners c path m =
    let place = member_place path m.0 in
    let kind = reference_kind index owners place m.1 in
    kind.0 ++ issue_if (differs kind.1 c.artifact.kind) input_kind_mismatch place

abbrev pub references_issues :
    Index → Owners → InputContract → Place → List (Option ℕ × ArtifactReference) → List Issue
references_issues index owners c path [] = []
references_issues index owners c path (m ∷ ms) =
    reference_issues index owners c path m ++ references_issues index owners c path ms

abbrev pub bound_issues : Index → Owners → Place → Bound → Option InputContract → List Issue
bound_issues index owners path b none = issue unexpected_input path
bound_issues index owners path b (some c) =
    issue_if (not (same_cardinality (cardinality_of b) c.cardinality)) input_cardinality_mismatch
      path
    ++ references_issues index owners c path (indexed b)

abbrev pub binding_issues :
    Index → Owners → OperationDefinition → Place → ℕ → ArtifactInputBinding → List Issue
binding_issues index owners o path i b =
    bound_issues index owners (nth (under path "inputs") i) b.bound (input_contract o b.name)

abbrev pub value_issues : Place → ConfigBinding → Option ConfigContract → List Issue
value_issues path b none = issue unexpected_config path
value_issues path b (some c) =
    issue_if (not (matches_config_type b.value c.value_type)) config_type_mismatch path

abbrev pub config_issues : OperationDefinition → Place → ℕ → ConfigBinding → List Issue
config_issues o path i b = value_issues (nth (under path "config") i) b (config_contract o b.name)

abbrev pub missing_inputs : Place → List String → List InputContract → List Issue
missing_inputs path bound [] = []
missing_inputs path bound (c ∷ cs) =
    issue_if (c.required && not (mem c.name bound)) missing_input (under path "inputs")
    ++ missing_inputs path bound cs

abbrev pub missing_configs : Place → List String → List ConfigContract → List Issue
missing_configs path bound [] = []
missing_configs path bound (c ∷ cs) =
    issue_if (c.required && not (mem c.name bound)) missing_config (under path "config")
    ++ missing_configs path bound cs

-- `invocation.boundary_id is not None and invocation.boundary_id not in boundaries`
abbrev pub is_outside : Index → Option String → Bool
is_outside index none = false
is_outside index (some id) = not (is_some (boundary_of index id))

-- The body of the loop after its `continue`.
abbrev pub known_issues : Index → Owners → Place → Invocation → OperationDefinition → List Issue
known_issues index owners path v o =
    let inputs = map ArtifactInputBinding.name v.inputs in
    let config = map ConfigBinding.name v.config in
    issue_if (is_outside index v.boundary_id) unknown_invocation_boundary (under path "boundary_id")
    ++ (unique_names duplicate_input_binding (under path "inputs") inputs
        ++ (unique_names duplicate_config_binding (under path "config") config
            ++ (missing_inputs path inputs o.inputs
                ++ (missing_configs path config o.config
                    ++ (each (binding_issues index owners o path) v.inputs
                        ++ each (config_issues o path) v.config)))))

abbrev pub invocation_issues :
    Index → Owners → Place → Invocation → Option OperationDefinition → List Issue
invocation_issues index owners path v none = issue unknown_operation (under path "operation")
invocation_issues index owners path v (some o) = known_issues index owners path v o

-- `operation_for_invocation.setdefault(id, operation)`
abbrev pub set_default : String → OperationDefinition → Owners → Owners
set_default id o owners = if is_some (owner_of owners id) then owners else (id, o) ∷ owners

abbrev pub expect_members :
    String → String → Bool → List (Option ℕ × ArtifactReference) → Expected → Expected
expect_members id name all [] e = e
expect_members id name all (m ∷ ms) e = expect_members id name all ms (
    if all || is_output m.1
    then expect (record { invocation = id; input = name; member = m.0 }) m.1 e
    else e)

abbrev pub expect_bound : String → String → Bound → Option InputContract → Expected → Expected
expect_bound id name b none e = e
expect_bound id name b (some c) e =
    expect_members id name (same_cardinality c.cardinality collection) (indexed b) e

abbrev pub expect_bindings :
    String → OperationDefinition → List ArtifactInputBinding → Expected → Expected
expect_bindings id o [] e = e
expect_bindings id o (b ∷ bs) e =
    expect_bindings id o bs (expect_bound id b.name b.bound (input_contract o b.name) e)

-- The dictionaries after one invocation.
abbrev pub know : Invocation → Option OperationDefinition → Known → Known
know v none k = k
know v (some o) k = record {
  owners = set_default v.id o k.owners;
  expected = expect_bindings v.id o v.inputs k.expected;
}

abbrev pub know_all : Index → List Invocation → Known → Known
know_all index [] k = k
know_all index (v ∷ vs) k = know_all index vs (know v (operation_of index v.operation) k)

abbrev pub invocations_issues : Index → ℕ → Known → List Invocation → List Issue
invocations_issues index i k [] = []
invocations_issues index i k (v ∷ vs) =
    let o = operation_of index v.operation in
    invocation_issues index ((know v o k).owners) (nth (root "invocations") i) v o
    ++ invocations_issues index (suc i) (know v o k) vs
