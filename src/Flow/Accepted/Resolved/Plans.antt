-- ===== src/Flow/Accepted/Resolved/Plans.antt =====
-- An accepted plan is resolved: each of its invocations, and each of its outputs.
use mathlib.Core.List.{Memᴰ}
use mathlib.Core.List.Memᴰ.{head, tail}
use hedloom.Base.{
  ℕ, suc, String, ◌≡◌, refl, sym, ap, subst, ◌∙◌, some, List, [], ◌∷◌, arith, map, Option-cases,
  inl, inr,
}
use hedloom.Flow.Values.{
  Plan, OperationDefinition, ArtifactInputBinding, ConfigBinding, Invocation, NamedOutput,
  output_reference,
}
use hedloom.Flow.Check.{
  Owners, operation_of, Place, root, under, nth, each, unknown_invocation_boundary,
  duplicate_input_binding,
}
use hedloom.Flow.Check.Edges.{output_issues}
use hedloom.Flow.Check.Invocations.{
  Known, know, binding_issues, config_issues, missing_inputs, missing_configs, known_issues,
  invocation_issues, invocations_issues,
}
use hedloom.Flow.Validate.{index_of, known_of, valid, validate}
use hedloom.Flow.Accepted.{append-nil-inv, issue_if-nil, each-nil, validate-Accepted}
use hedloom.Flow.Accepted.Distinct.{unique_names-Distinct}
use hedloom.Flow.Accepted.Resolved.{Owned, Owning, operation_of-Mem}
use hedloom.Flow.Accepted.Resolved.References.{
  reference_kind-Provides, know-Owning, known_of-Owning,
}
use hedloom.Flow.Accepted.Resolved.Bindings.{
  Resolved, binding-FilledInput, config-FilledConfig, missing_inputs-nil, missing_configs-nil,
}

known_issues-Resolved :
    (plan : Plan) (owners : Owners) (path : Place) (v : Invocation) (o : OperationDefinition)
    → Owning plan owners
    → operation_of (index_of plan) v.operation ≡ some o
    → Memᴰ o plan.operations
    → o.identity ≡ v.operation
    → known_issues (index_of plan) owners path v o ≡ []
    → Resolved plan v
known_issues-Resolved plan owners path v o own p m e h =
    let a = append-nil-inv _ _ h in
    let b = append-nil-inv _ _ a.1 in
    let c = append-nil-inv _ _ b.1 in
    let d =
      append-nil-inv (missing_inputs path (map ArtifactInputBinding.name v.inputs) o.inputs) _
        c.1 in
    let f =
      append-nil-inv (missing_configs path (map ConfigBinding.name v.config) o.config) _ d.1 in
    let g = append-nil-inv (each (binding_issues (index_of plan) owners o path) v.inputs) _ f.1 in
    record {
      operation = o;
      found = p;
      known = m;
      identity = e;
      distinct = unique_names-Distinct duplicate_input_binding (under path "inputs") _ b.0;
      required = missing_inputs-nil path (map ArtifactInputBinding.name v.inputs) o.inputs d.0;
      required_config = missing_configs-nil path (map ConfigBinding.name v.config) o.config f.0;
      filled = λ b n.
          let at = each-nil 0 (binding_issues (index_of plan) owners o path) v.inputs g.0 n in
          binding-FilledInput plan owners o path at.0 b own at.1;
      configured = λ b n.
          let at = each-nil 0 (config_issues o path) v.config g.1 n in
          config-FilledConfig o path at.0 b at.1;
      inside = issue_if-nil _ unknown_invocation_boundary (under path "boundary_id") a.0;
    }

invocation-Resolved :
    (plan : Plan) (owners : Owners) (path : Place) (v : Invocation)
    → Owning plan owners
    → invocation_issues (index_of plan) owners path v (operation_of (index_of plan) v.operation)
      ≡ []
    → Resolved plan v
invocation-Resolved plan owners path v own h =
    elim (Option-cases (operation_of (index_of plan) v.operation)) [
      | inl p ↦ absurd (ground (arith, p, h))
      | inr (o, p) ↦
          let found = operation_of-Mem plan v.operation p in
          known_issues-Resolved plan owners path v o own p found.0 found.1
            (sym (ap (invocation_issues (index_of plan) owners path v) p) ∙ h)
    ]

invocations-Resolved :
    (plan : Plan) (i : ℕ) (k : Known) (vs : List Invocation)
    → Owning plan k.owners
    → ((v : Invocation) → Memᴰ v vs → Memᴰ v plan.invocations)
    → invocations_issues (index_of plan) i k vs ≡ []
    → (v : Invocation) → Memᴰ v vs
    → Resolved plan v
invocations-Resolved plan i k [] own w h v m = elim m [ ]
invocations-Resolved plan i k (u ∷ us) own w h v m =
    let both =
      append-nil-inv
        (invocation_issues (index_of plan)
          (know u (operation_of (index_of plan) u.operation) k).owners (nth (root "invocations") i)
          u (operation_of (index_of plan) u.operation))
        _ h in
    let own' = know-Owning plan k u own (w u (head refl)) in
    elim m [
      | head e ↦
          subst (Resolved plan) (sym e)
            (invocation-Resolved plan _ (nth (root "invocations") i) u own' both.0)
      | tail n ↦ invocations-Resolved plan (suc i) _ us own' (λ x j. w x (tail j)) both.1 v n
    ]

-- In a plan that validates each invocation names a declared operation; its required inputs and settings
-- are bound; whatever it binds is declared, with the cardinality and the type that the contract states;
-- and each reference in its inputs leads to a declared source or to a declared output of an invocation of
-- the plan, of the kind that the contract states.
pub validate-Resolved :
    (sha256 : String → String) (plan result : Plan)
    → validate sha256 plan ≡ valid result
    → (v : Invocation) → Memᴰ v plan.invocations
    → Resolved plan v
validate-Resolved sha256 plan result h v m =
    invocations-Resolved plan 0 (record { owners = []; expected = [] }) plan.invocations
      (λ id o e. absurd (ground (arith, e))) (λ u n. n)
      (validate-Accepted sha256 plan result h).invocations v m

-- In a plan that validates each named output leads to an output that the operation of an invocation of the
-- plan declares.
pub validate-Owned :
    (sha256 : String → String) (plan result : Plan)
    → validate sha256 plan ≡ valid result
    → (o : NamedOutput) → Memᴰ o plan.outputs
    → (kind : String) × Owned plan o.reference kind
validate-Owned sha256 plan result h o m =
    let at =
      each-nil 0 (output_issues (index_of plan) (known_of plan).owners) plan.outputs
        (validate-Accepted sha256 plan result h).outputs m in
    let found =
      reference_kind-Provides plan (known_of plan).owners (nth (root "outputs") at.0)
        (output_reference o.reference) (known_of-Owning plan) at.1 in
    (found.0, found.2)
