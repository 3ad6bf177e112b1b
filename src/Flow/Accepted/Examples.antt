-- ===== src/Flow/Accepted/Examples.antt =====
-- A plan of two invocations in one boundary, the second of which takes the output of the first.
use mathlib.Core.List.{Memᴰ}
use mathlib.Core.List.Memᴰ.{head, tail}
use hedloom.Base.{◌≢◌, String, true, ◌≡◌, refl, ◌↔◌, arith, none, some, List, [], ◌∷◌}
use hedloom.Flow.Check.Boundaries.{climb, is_boundary_descendant, descends}
use hedloom.Flow.Check.Edges.{target_of}
use hedloom.Flow.Check.Keys.{keyed_plan_id, KeyUse}
use hedloom.Flow.Check.References.{reference_kind}
use hedloom.Flow.Graph.{Pairs, exhausted, visit, visit_all, has_dependency_cycle}
use hedloom.Flow.Graph.Decides.{IsGraph, has_dependency_cycle_iff}
use hedloom.Flow.Graph.Walks.{Walk}
use hedloom.Flow.Text.{strip, valid_text, valid_id, matches_id}
use hedloom.Flow.Values
use hedloom.Flow.Validate.{
  index_of, known_of, unique_issues, validation_issues, valid, validate, key_uses,
}
use hedloom.Flow.Accepted.Expectations.Written.{place}
use hedloom.Flow.Accepted.Keyed.{Apart, valid_keys_are_derived}
use hedloom.Flow.Accepted.Order.{bound_references_have_edges}
use hedloom.Flow.Accepted.Order.Execution.{Executable, validate-Executable}
use hedloom.Flow.Accepted.Forest.{Rooted, valid_boundaries_are_rooted}
use hedloom.Flow.Accepted.Forest.Descent.{Inside, is_boundary_descendant_iff}
use hedloom.Flow.Accepted.Resolved.{Owned}
use hedloom.Flow.Accepted.Resolved.Bindings.{Resolved}
use hedloom.Flow.Accepted.Resolved.Plans.{validate-Resolved, validate-Owned}
use hedloom.Json.{Json, end}

abbrev sha : String → String
sha s = "abc"

abbrev text_kind : Values.ArtifactContract
text_kind = record { kind = "text" }

abbrev make : Values.OperationIdentity
make = record { name = "make"; version = "1" }

abbrev refine : Values.OperationIdentity
refine = record { name = "refine"; version = "1" }

abbrev made : Values.OutputContract
made = record { name = "made"; artifact = text_kind; binding = none }

abbrev make_operation : Values.OperationDefinition
make_operation = record {
  identity = make;
  inputs = [];
  config = [];
  outputs = made ∷ [];
  resources = [];
  default_policy = none;
  implementation = none;
  execution = Values.Execution.reuse;
}

abbrev refine_operation : Values.OperationDefinition
refine_operation = record {
  identity = refine;
  inputs =
      record {
        name = "raw";
        artifact = text_kind;
        required = true;
        cardinality = Values.Cardinality.scalar;
      }
      ∷ [];
  config = record { name = "level"; value_type = Values.ConfigType.int_type; required = true } ∷ [];
  outputs = made ∷ [];
  resources = [];
  default_policy = none;
  implementation = none;
  execution = Values.Execution.reuse;
}

abbrev from_first : Values.OutputReference
from_first = record { invocation_id = "invoke:key:abc"; output_name = "made" }

abbrev from_second : Values.OutputReference
from_second = record { invocation_id = "second"; output_name = "made" }

abbrev first : Values.Invocation
first = record {
  id = "invoke:key:abc";
  operation = make;
  inputs = [];
  config = [];
  policy = Values.local (Json.obj end);
  boundary_id = some "outer";
  authored_key = some "first";
}

abbrev raw_binding : Values.ArtifactInputBinding
raw_binding = record {
  name = "raw";
  bound = Values.Bound.one_reference (Values.ArtifactReference.output_reference from_first);
}

abbrev second : Values.Invocation
second = record {
  id = "second";
  operation = refine;
  inputs = raw_binding ∷ [];
  config = record { name = "level"; value = Json.nat 2 } ∷ [];
  policy = Values.local (Json.obj end);
  boundary_id = some "outer";
  authored_key = none;
}

abbrev edge : Values.DependencyEdge
edge = record {
  id = "edge";
  source = Values.ArtifactReference.output_reference from_first;
  target_invocation_id = "second";
  target_input_name = "raw";
  artifact_kind = "text";
  target_member_index = none;
}

abbrev study : Values.FlowIdentity
study = record { name = "study"; version = "1" }

abbrev outer : Values.FlowBoundary
outer = record {
  id = "outer";
  flow = study;
  parent_id = none;
  outputs = record { name = "result"; reference = from_second } ∷ [];
  authored_key = none;
}

abbrev result : Values.NamedOutput
result = record { name = "result"; reference = from_second }

abbrev sample : Values.Plan
sample = record {
  operations = make_operation ∷ refine_operation ∷ [];
  flows = record { identity = study } ∷ [];
  sources = [];
  invocations = first ∷ second ∷ [];
  edges = edge ∷ [];
  boundaries = outer ∷ [];
  outputs = result ∷ [];
  schema_version = 4;
}

sample-valid : validate sha sample ≡ valid sample
unfolding validate validation_issues unique_issues index_of known_of reference_kind keyed_plan_id
    matches_id valid_id valid_text climb is_boundary_descendant descends has_dependency_cycle
    visit_all visit strip
sample-valid = refl

validate-Executable_example : Executable sample
validate-Executable_example = validate-Executable sha sample sample sample-valid

bound_references_have_edges_example :
    (e : Values.DependencyEdge) × Memᴰ e sample.edges
    × (target_of e ≡ place "second" "raw" none)
    × (e.source ≡ Values.ArtifactReference.output_reference from_first)
bound_references_have_edges_example =
    bound_references_have_edges sha sample sample sample-valid second (tail (head refl)) raw_binding
      (head refl) (none, Values.ArtifactReference.output_reference from_first) (head refl) refl

validate-Resolved_example : Resolved sample second
validate-Resolved_example =
    validate-Resolved sha sample sample sample-valid second (tail (head refl))

validate-Owned_example : (kind : String) × Owned sample from_second kind
validate-Owned_example = validate-Owned sha sample sample sample-valid result (head refl)

valid_boundaries_are_rooted_example : Rooted (index_of sample) (some "outer")
valid_boundaries_are_rooted_example =
    valid_boundaries_are_rooted sha sample sample sample-valid outer (head refl)

valid_keys_are_derived_example :
    Apart (key_uses sample)
    × ((u : KeyUse)
        → Memᴰ u (key_uses sample)
        → (key : String) → u.key ≡ some key
        → u.id ≡ keyed_plan_id sha u.kind u.scope key)
valid_keys_are_derived_example = valid_keys_are_derived sha sample sample sample-valid

is_boundary_descendant_iff_example :
    (is_boundary_descendant (index_of sample) (some "outer") "outer" ≡ true)
    ↔ Inside (index_of sample) "outer" (some "outer")
is_boundary_descendant_iff_example =
    is_boundary_descendant_iff (index_of sample) (some "outer") "outer"

-- Three vertices, two of which form a cycle.
abbrev ring : Pairs
ring = ("a", "b") ∷ ("b", "c") ∷ ("c", "b") ∷ []

abbrev vertices : List String
vertices = "a" ∷ "b" ∷ "c" ∷ []

ring-cyclic : has_dependency_cycle vertices ring ≡ true
unfolding has_dependency_cycle visit_all visit
ring-cyclic = refl

ring-IsGraph : IsGraph vertices ring
ring-IsGraph x y e = (ground (arith, e), ground (arith, e))

has_dependency_cycle_iff_example :
    (visit_all ring vertices ≢ exhausted)
    × ((has_dependency_cycle vertices ring ≡ true) ↔ ((x : String) × Walk ring x x))
has_dependency_cycle_iff_example = has_dependency_cycle_iff vertices ring ring-IsGraph
