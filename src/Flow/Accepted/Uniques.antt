-- ===== src/Flow/Accepted/Uniques.antt =====
-- In an accepted plan identities are unique.
use hedloom.Base.{◌≡◌, [], map}
use hedloom.Flow.Values.{
  Plan, OperationDefinition, FlowDefinition, ArtifactSource, Invocation, DependencyEdge,
  FlowBoundary, NamedOutput, same_operation, same_flow,
}
use hedloom.Flow.Check.{
  root, unique, unique_names, each, duplicate_operation, duplicate_flow, duplicate_source_id,
  duplicate_invocation_id, duplicate_edge_id, duplicate_boundary_id, duplicate_plan_output,
}
use hedloom.Flow.Check.Operations.{source_issues}
use hedloom.Flow.Validate.{unique_issues}
use hedloom.Flow.Accepted.{append-nil-inv}
use hedloom.Flow.Accepted.Distinct.{Distinct, unique_names-Distinct}

pub record Uniques (plan : Plan) : Type 0 where
  pub sources : Distinct (map ArtifactSource.id plan.sources)
  pub invocations : Distinct (map Invocation.id plan.invocations)
  pub edges : Distinct (map DependencyEdge.id plan.edges)
  pub boundaries : Distinct (map FlowBoundary.id plan.boundaries)
  pub outputs : Distinct (map NamedOutput.name plan.outputs)

pub unique_issues-Uniques : (plan : Plan) → unique_issues plan ≡ [] → Uniques plan
unfolding unique_issues
unique_issues-Uniques plan h =
    let a =
      append-nil-inv
        (unique same_operation duplicate_operation (root "operations")
          (map OperationDefinition.identity plan.operations))
        _ h in
    let b =
      append-nil-inv
        (unique same_flow duplicate_flow (root "flows") (map FlowDefinition.identity plan.flows)) _
        a.1 in
    let c =
      append-nil-inv
        (unique_names duplicate_source_id (root "sources") (map ArtifactSource.id plan.sources)) _
        b.1 in
    let d = append-nil-inv (each source_issues plan.sources) _ c.1 in
    let e =
      append-nil-inv
        (unique_names duplicate_invocation_id (root "invocations")
          (map Invocation.id plan.invocations))
        _ d.1 in
    let f =
      append-nil-inv
        (unique_names duplicate_edge_id (root "edges") (map DependencyEdge.id plan.edges)) _ e.1 in
    let g =
      append-nil-inv
        (unique_names duplicate_boundary_id (root "boundaries")
          (map FlowBoundary.id plan.boundaries))
        _ f.1 in
    record {
      sources = unique_names-Distinct duplicate_source_id (root "sources") _ c.0;
      invocations = unique_names-Distinct duplicate_invocation_id (root "invocations") _ e.0;
      edges = unique_names-Distinct duplicate_edge_id (root "edges") _ f.0;
      boundaries = unique_names-Distinct duplicate_boundary_id (root "boundaries") _ g.0;
      outputs = unique_names-Distinct duplicate_plan_output (root "outputs") _ g.1;
    }
