-- ===== src/Flow/Validate.antt =====
-- `Plan.validate` of flow/src/hedloom_flow/model.py: all its checks, in their order.
use hedloom.Base.{ℕ, String, List, [], ◌∷◌, ◌++◌, str_eq, map}
use hedloom.Flow.Graph.{has_dependency_cycle}
use hedloom.Flow.Values.{
  Plan, OperationDefinition, FlowDefinition, ArtifactSource, Invocation, DependencyEdge,
  FlowBoundary, NamedOutput, same_operation, same_flow,
}
use hedloom.Flow.Check.{
  Issue, issue_if, each, root, nth, unique, unique_names, first_of_each, Index, duplicate_operation,
  duplicate_flow, duplicate_source_id, duplicate_invocation_id, duplicate_edge_id,
  duplicate_boundary_id, duplicate_plan_output, dependency_cycle,
}
use hedloom.Flow.Check.Boundaries.{boundary_issues, cycle_issues}
use hedloom.Flow.Check.Edges.{
  target_of, edges_issues, dependency_pairs, unmet_issues, boundary_outputs_issues, output_issues,
}
use hedloom.Flow.Check.Invocations.{Known, know_all, invocations_issues}
use hedloom.Flow.Check.Keys.{invoke, flow, KeyUse, keys_issues}
use hedloom.Flow.Check.Operations.{operation_issues, source_issues}

-- The dictionaries of `_unique_index`.
unfoldable pub index_of : Plan → Index
index_of plan = record {
  operations = first_of_each (λ a b. same_operation a.identity b.identity) [] plan.operations;
  flows = first_of_each (λ a b. same_flow a.identity b.identity) [] plan.flows;
  sources = first_of_each (λ a b. str_eq a.id b.id) [] plan.sources;
  invocations = first_of_each (λ a b. str_eq a.id b.id) [] plan.invocations;
  boundaries = first_of_each (λ a b. str_eq a.id b.id) [] plan.boundaries;
}

unfoldable pub known_of : Plan → Known
known_of plan = know_all (index_of plan) plan.invocations (record { owners = []; expected = [] })

abbrev pub nodes : Plan → List String
nodes plan = map Invocation.id ((index_of plan).invocations)

abbrev pub links : Plan → List (String × String)
links plan = dependency_pairs (index_of plan) plan.edges

unfoldable pub unique_issues : Plan → List Issue
unique_issues plan =
    unique same_operation duplicate_operation (root "operations")
      (map OperationDefinition.identity plan.operations)
    ++ (unique same_flow duplicate_flow (root "flows") (map FlowDefinition.identity plan.flows)
        ++ (unique_names duplicate_source_id (root "sources") (map ArtifactSource.id plan.sources)
            ++ (each source_issues plan.sources
                ++ (unique_names duplicate_invocation_id (root "invocations")
                      (map Invocation.id plan.invocations)
                    ++ (unique_names duplicate_edge_id (root "edges")
                          (map DependencyEdge.id plan.edges)
                        ++ (unique_names duplicate_boundary_id (root "boundaries")
                              (map FlowBoundary.id plan.boundaries)
                            ++ unique_names duplicate_plan_output (root "outputs")
                                (map NamedOutput.name plan.outputs)))))))

abbrev pub invocation_keys : ℕ → List Invocation → List KeyUse
invocation_keys i [] = []
invocation_keys i (v ∷ vs) =
    record {
      kind = invoke;
      scope = v.boundary_id;
      key = v.authored_key;
      id = v.id;
      path = nth (root "invocations") i;
    }
    ∷ invocation_keys (ℕ.suc i) vs

abbrev pub boundary_keys : ℕ → List FlowBoundary → List KeyUse
boundary_keys i [] = []
boundary_keys i (b ∷ bs) =
    record {
      kind = flow;
      scope = b.parent_id;
      key = b.authored_key;
      id = b.id;
      path = nth (root "boundaries") i;
    }
    ∷ boundary_keys (ℕ.suc i) bs

abbrev pub key_uses : Plan → List KeyUse
key_uses plan = invocation_keys 0 plan.invocations ++ boundary_keys 0 plan.boundaries

-- The `issues` of `validate`.
unfoldable pub validation_issues : (String → String) → Plan → List Issue
validation_issues sha256 plan =
    let index = index_of plan in
    let known = known_of plan in
    unique_issues plan
    ++ (keys_issues sha256 [] (key_uses plan)
        ++ (each operation_issues plan.operations
            ++ (each (boundary_issues index) plan.boundaries
                ++ (cycle_issues index index.boundaries
                    ++ (invocations_issues index 0 (record { owners = []; expected = [] })
                          plan.invocations
                        ++ (edges_issues sha256 index known 0 [] plan.edges
                            ++ (unmet_issues (map target_of plan.edges) known.expected
                                ++ (issue_if (has_dependency_cycle (nodes plan) (links plan))
                                      dependency_cycle (root "edges")
                                    ++ (each (boundary_outputs_issues index known.owners)
                                          plan.boundaries
                                        ++ each (output_issues index known.owners)
                                            plan.outputs)))))))))

-- `validate` returns the plan or raises `PlanValidationError` with the issues.
pub data Validated : Type 0 where
  valid : Plan → Validated
  plan_validation_error : List Issue → Validated

abbrev pub answer : Plan → List Issue → Validated
answer plan [] = valid plan
answer plan (i ∷ is) = plan_validation_error (i ∷ is)

unfoldable pub validate : (String → String) → Plan → Validated
validate sha256 plan = answer plan (validation_issues sha256 plan)
