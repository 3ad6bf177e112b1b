-- ===== src/Flow/Check/Edges.antt =====
-- The loop over the edges in `Plan.validate` of flow/src/hedloom_flow/model.py, and the checks after it.
use hedloom.Base.{
  ℕ, suc, String, Bool, false, not, ◌&&◌, Option, none, some, List, [], ◌∷◌, ◌++◌, leb, str_eq,
  if◌then◌else◌, any, find, length, is_some,
}
use hedloom.Flow.Graph.{Pairs}
use hedloom.Flow.Values.{
  Cardinality, scalar, collection, InputContract, OperationDefinition, ArtifactReference,
  source_reference, output_reference, one_reference, members, ArtifactInputBinding, Invocation,
  DependencyEdge, NamedOutput, FlowBoundary,
}
use hedloom.Flow.Check.{
  Issue, issue, issue_if, each, Place, root, under, nth, called, Index, Owners, owner_of,
  invocation_of, duplicate_target_edge, edge_without_output_binding, edge_binding_mismatch,
  unknown_edge_target, unknown_edge_input, unexpected_edge_member_position,
  missing_edge_member_position, invalid_edge_member_position, edge_source_kind_mismatch,
  edge_target_kind_mismatch, stable_edge_id_mismatch, missing_dependency_edge,
  boundary_output_not_owned,
}
use hedloom.Flow.Check.Boundaries.{is_boundary_descendant}
use hedloom.Flow.Check.Invocations.{Target, same_target, Expected, expected_at, Known, differs}
use hedloom.Flow.Check.Keys.{stable_edge_id}
use hedloom.Flow.Check.References.{reference_kind}

abbrev pub same_reference : ArtifactReference → ArtifactReference → Bool
same_reference (source_reference a) (source_reference b) = str_eq a b
same_reference (output_reference a) (output_reference b) =
    str_eq a.invocation_id b.invocation_id && str_eq a.output_name b.output_name
same_reference (source_reference a) (output_reference b) = false
same_reference (output_reference a) (source_reference b) = false

abbrev pub target_of : DependencyEdge → Target
target_of e = record {
  invocation = e.target_invocation_id;
  input = e.target_input_name;
  member = e.target_member_index;
}

abbrev pub source_issue : Place → ArtifactReference → Option ArtifactReference → List Issue
source_issue path source none = issue edge_without_output_binding path
source_issue path source (some r) =
    issue_if (not (same_reference source r)) edge_binding_mismatch path

-- `target_contract`
abbrev pub target_contract : Option OperationDefinition → String → Option InputContract
target_contract none name = none
target_contract (some o) name = find (λ c. str_eq c.name name) o.inputs

-- `target_binding`
abbrev binding_in : Option Invocation → String → Option ArtifactInputBinding
binding_in none name = none
binding_in (some v) name = find (λ b. str_eq b.name name) v.inputs

abbrev target_binding :
    Index → Option OperationDefinition → String → String → Option ArtifactInputBinding
target_binding index none id name = none
target_binding index (some o) id name = binding_in (invocation_of index id) name

abbrev pub target_issue : Place → Option OperationDefinition → Option InputContract → List Issue
target_issue path none c = issue unknown_edge_target (under path "target_invocation_id")
target_issue path (some o) none = issue unknown_edge_input (under path "target_input_name")
target_issue path (some o) (some c) = []

-- `isinstance(target_binding, CollectionInputBinding) and index >= len(target_binding.references)`
abbrev is_past : ℕ → Option ArtifactInputBinding → Bool
is_past i none = false
is_past i (some b) = elim b.bound [ one_reference r ↦ false | members rs ↦ leb (length rs) i ]

abbrev pub position_issue :
    Place → Cardinality → Option ℕ → Option ArtifactInputBinding → List Issue
position_issue path scalar none b = []
position_issue path scalar (some i) b =
    issue unexpected_edge_member_position (under path "target_member_index")
position_issue path collection none b =
    issue missing_edge_member_position (under path "target_member_index")
position_issue path collection (some i) b =
    issue_if (is_past i b) invalid_edge_member_position (under path "target_member_index")

abbrev contract_position :
    Place → Option InputContract → Option ℕ → Option ArtifactInputBinding → List Issue
contract_position path none m b = []
contract_position path (some c) m b = position_issue path c.cardinality m b

abbrev contract_kind : Option InputContract → Option String
contract_kind none = none
contract_kind (some c) = some c.artifact.kind

abbrev is_keyed : Option Invocation → Bool
is_keyed none = false
is_keyed (some v) = is_some v.authored_key

-- The edge joins two invocations of the plan.
abbrev pub joins : Index → ArtifactReference → String → Bool
joins index (source_reference id) target = false
joins index (output_reference r) target =
    is_some (invocation_of index r.invocation_id) && is_some (invocation_of index target)

abbrev keyed_source : Index → ArtifactReference → Bool
keyed_source index (source_reference id) = false
keyed_source index (output_reference r) = is_keyed (invocation_of index r.invocation_id)

abbrev stable_issue : (String → String) → Index → Place → DependencyEdge → List Issue
stable_issue sha256 index path e =
    issue_if
      (joins index e.source e.target_invocation_id
        && (keyed_source index e.source
            && (is_keyed (invocation_of index e.target_invocation_id)
                && not (
                    str_eq e.id (
                      stable_edge_id sha256 e.source e.target_invocation_id e.target_input_name
                        e.target_member_index)))))
      stable_edge_id_mismatch (under path "id")

-- The body of the loop, for the edge at `path`; `seen` is `seen_edge_targets`.
abbrev pub edge_issues :
    (String → String) → Index → Known → List Target → Place → DependencyEdge → List Issue
edge_issues sha256 index k seen path e =
    let owner = owner_of k.owners e.target_invocation_id in
    let contract = target_contract owner e.target_input_name in
    let binding = target_binding index owner e.target_invocation_id e.target_input_name in
    let kind = reference_kind index k.owners (under path "source") e.source in
    issue_if (any (same_target (target_of e)) seen) duplicate_target_edge path
    ++ (source_issue path e.source (expected_at k.expected (target_of e))
        ++ (kind.0
            ++ (target_issue path owner contract
                ++ (contract_position path contract e.target_member_index binding
                    ++ (issue_if (differs kind.1 e.artifact_kind) edge_source_kind_mismatch
                          (under path "artifact_kind")
                        ++ (issue_if (differs (contract_kind contract) e.artifact_kind)
                              edge_target_kind_mismatch (under path "artifact_kind")
                            ++ stable_issue sha256 index path e))))))

abbrev pub edges_issues :
    (String → String) → Index → Known → ℕ → List Target → List DependencyEdge → List Issue
edges_issues sha256 index k i seen [] = []
edges_issues sha256 index k i seen (e ∷ es) =
    edge_issues sha256 index k seen (nth (root "edges") i) e
    ++ edges_issues sha256 index k (suc i) (target_of e ∷ seen) es

abbrev pub pair_of : DependencyEdge → ArtifactReference → Pairs
pair_of e (source_reference id) = []
pair_of e (output_reference r) = (r.invocation_id, e.target_invocation_id) ∷ []

-- `dependency_pairs`
abbrev pub dependency_pairs : Index → List DependencyEdge → Pairs
dependency_pairs index [] = []
dependency_pairs index (e ∷ es) =
    if joins index e.source e.target_invocation_id
    then pair_of e e.source ++ dependency_pairs index es
    else dependency_pairs index es

abbrev member_suffix : Place → Option ℕ → Place
member_suffix path none = path
member_suffix path (some i) = nth path i

-- The loop over `expected_edges`.
abbrev pub unmet_issues : List Target → Expected → List Issue
unmet_issues seen [] = []
unmet_issues seen (p ∷ ps) =
    issue_if (not (any (same_target p.0) seen)) missing_dependency_edge (
      member_suffix (called (under (called (root "invocations") p.0.invocation) "inputs") p.0.input)
        p.0.member)
    ++ unmet_issues seen ps

abbrev owned_issue : Index → Place → String → Option Invocation → List Issue
owned_issue index path id none = []
owned_issue index path id (some owner) =
    issue_if (not (is_boundary_descendant index owner.boundary_id id)) boundary_output_not_owned
      path

abbrev pub boundary_output_issues : Index → Owners → Place → String → ℕ → NamedOutput → List Issue
boundary_output_issues index owners path id i o =
    let place = nth (under path "outputs") i in
    (reference_kind index owners place (output_reference o.reference)).0
    ++ owned_issue index place id (invocation_of index o.reference.invocation_id)

abbrev pub boundary_outputs_issues : Index → Owners → ℕ → FlowBoundary → List Issue
boundary_outputs_issues index owners i b =
    each (boundary_output_issues index owners (nth (root "boundaries") i) b.id) b.outputs

abbrev pub output_issues : Index → Owners → ℕ → NamedOutput → List Issue
output_issues index owners i o =
    (reference_kind index owners (nth (root "outputs") i) (output_reference o.reference)).0
