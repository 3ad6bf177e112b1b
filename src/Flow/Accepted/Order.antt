-- ===== src/Flow/Accepted/Order.antt =====
-- The edges of an accepted plan are the references that its invocations bind.
pub mod Links
pub mod Execution
use mathlib.Core.List.{Memᴰ}
use mathlib.Core.List.Memᴰ.{head, tail}
use hedloom.Base.{
  ℕ, suc, String, Bool, true, false, not, ◌&&◌, ◌||◌, ◌≡◌, refl, sym, ap, subst, ◌∙◌, Option, none,
  some, List, [], ◌∷◌, arith, any, map, str_eq, eq_iff, Bool-cases, Option-cases, some_inj, inl,
  inr, if◌then◌else◌, is_some,
}
use hedloom.Flow.Values.{
  Plan, Bound, one_reference, members, Cardinality, collection, ArtifactReference, source_reference,
  output_reference, ArtifactInputBinding, Invocation, DependencyEdge,
}
use hedloom.Flow.Check.{
  Index, Issue, Place, root, nth, issue_if, duplicate_invocation_id, edge_binding_mismatch,
  missing_dependency_edge, duplicate_target_edge,
}
use hedloom.Flow.Check.Edges.{
  same_reference, target_of, source_issue, edge_issues, edges_issues, unmet_issues,
}
use hedloom.Flow.Check.Invocations.{
  Target, same_target, Expected, expected_at, Known, indexed, is_output, same_cardinality,
  cardinality_of,
}
use hedloom.Flow.Validate.{index_of, known_of, unique_issues, valid, validate}
use hedloom.Flow.Accepted.{append-nil-inv, issue_if-nil, not-false, Accepted, validate-Accepted}
use hedloom.Flow.Accepted.Uniques.{unique_issues-Uniques}
use hedloom.Flow.Accepted.Expectations.{same_target-eq}
use hedloom.Flow.Accepted.Expectations.Written.{place, know_all-present}
use hedloom.Flow.Accepted.Resolved.Bindings.{Resolved, FilledInput}
use hedloom.Flow.Accepted.Resolved.Plans.{validate-Resolved}

same_reference-eq : (a b : ArtifactReference) → same_reference a b ≡ true → a ≡ b
same_reference-eq (source_reference a) (source_reference b) h =
    ap source_reference ((eq_iff a b).0 h)
same_reference-eq (source_reference a) (output_reference b) h = absurd (ground (arith, h))
same_reference-eq (output_reference a) (source_reference b) h = absurd (ground (arith, h))
same_reference-eq (output_reference a) (output_reference b) h =
    elim (Bool-cases (str_eq a.invocation_id b.invocation_id)) [
      | inl p ↦
          let i = (eq_iff a.invocation_id b.invocation_id).0 p in
          let n = (eq_iff a.output_name b.output_name).0 (ground (arith, p, h)) in
          λ j. output_reference (record { invocation_id = i j; output_name = n j })
      | inr p ↦ absurd (ground (arith, p, h))
    ]

-- A place that an edge has to reach is reached by one.
unmet-nil :
    (seen : List Target) (e : Expected) (u : Target) {r : ArtifactReference}
    → unmet_issues seen e ≡ []
    → expected_at e u ≡ some r
    → any (same_target u) seen ≡ true
unmet-nil seen [] u h q = absurd (ground (arith, q))
unmet-nil seen (p ∷ ps) u {r} h q =
    let both =
      append-nil-inv (issue_if (not (any (same_target p.0) seen)) missing_dependency_edge _) _ h in
    elim (Bool-cases (same_target p.0 u)) [
      | inl s ↦
          ap (λ z. any (same_target z) seen) (sym (same_target-eq p.0 u s))
          ∙ not-false _ (issue_if-nil _ missing_dependency_edge _ both.0)
      | inr s ↦
          unmet-nil seen ps u {r = r} both.1
            (sym (ap (λ b. if b then some p.1 else expected_at ps u) s) ∙ q)
    ]

reached :
    (u : Target) (es : List DependencyEdge)
    → any (same_target u) (map target_of es) ≡ true
    → (e : DependencyEdge) × Memᴰ e es × (u ≡ target_of e)
reached u [] h = absurd (ground (arith, h))
reached u (e ∷ es) h = elim (Bool-cases (same_target u (target_of e))) [
  | inl p ↦ (e, head refl, same_target-eq u (target_of e) p)
  | inr p ↦
      let rest = reached u es (sym (ap (λ b. b || any (same_target u) (map target_of es)) p) ∙ h) in
      (rest.0, tail rest.1, rest.2)
]

-- Nothing was reported for an edge of the plan.
pub edges-nil :
    (sha256 : String → String) (index : Index) (k : Known) (i : ℕ) (seen : List Target)
    (es : List DependencyEdge)
    → edges_issues sha256 index k i seen es ≡ []
    → (e : DependencyEdge) → Memᴰ e es
    → (before : List Target) × (path : Place) × (edge_issues sha256 index k before path e ≡ [])
edges-nil sha256 index k i seen [] h e m = elim m [ ]
edges-nil sha256 index k i seen (f ∷ fs) h e (head q) = (
  seen,
  nth (root "edges") i,
  ap (edge_issues sha256 index k seen (nth (root "edges") i)) q
      ∙ (append-nil-inv (edge_issues sha256 index k seen (nth (root "edges") i) f) _ h).0,
)
edges-nil sha256 index k i seen (f ∷ fs) h e (tail m) =
    edges-nil sha256 index k (suc i) (target_of f ∷ seen) fs
      (append-nil-inv (edge_issues sha256 index k seen (nth (root "edges") i) f) _ h).1 e m

source_issue-nil :
    (path : Place) (source : ArtifactReference) (o : Option ArtifactReference)
    (r : ArtifactReference)
    → o ≡ some r
    → source_issue path source o ≡ []
    → source ≡ r
source_issue-nil path source o r p h = same_reference-eq source r (
    not-false _
      (issue_if-nil _ edge_binding_mismatch path (sym (ap (source_issue path source) p) ∙ h)))

-- An edge is expected of an output, and of each member where the contract is of a collection.
expected_binding :
    (bound : Bound) (p : Option ℕ × ArtifactReference) (c : Cardinality)
    → cardinality_of bound ≡ c
    → Memᴰ p (indexed bound)
    → (is_output p.1 || is_some p.0) ≡ true
    → (same_cardinality c collection || is_output p.1) ≡ true
expected_binding (members rs) p c e m h =
    subst (λ z. (same_cardinality z collection || is_output p.1) ≡ true) e refl
expected_binding (one_reference r) p c e (head q) h =
    let output = sym (ap (λ z. is_output z.1 || is_some z.0) q) ∙ h in
    let there : is_output p.1 ≡ true = ap (λ z. is_output z.1) q ∙ or_false (is_output r) output in
    ground (arith, there)
  where
    or_false : (a : Bool) → (a || false) ≡ true → a ≡ true
    or_false true k = refl
    or_false false k = k
expected_binding (one_reference r) p c e (tail m) h = elim m [ ]

-- In a plan that validates each reference that an invocation binds to another's output, or takes as a
-- member of a collection, has an edge: from that reference, to that invocation, input and position.
pub bound_references_have_edges :
    (sha256 : String → String) (plan result : Plan)
    → (h : validate sha256 plan ≡ valid result) → (v : Invocation) (m : Memᴰ v plan.invocations)
    → (b : ArtifactInputBinding) (n : Memᴰ b v.inputs) → (p : Option ℕ × ArtifactReference)
    → Memᴰ p (indexed b.bound)
    → (is_output p.1 || is_some p.0) ≡ true
    → (e : DependencyEdge) × Memᴰ e plan.edges
      × (target_of e ≡ place v.id b.name p.0)
      × (e.source ≡ p.1)
unfolding known_of
bound_references_have_edges sha256 plan result h v m b n p i o =
    let accepted = validate-Accepted sha256 plan result h in
    let resolved = validate-Resolved sha256 plan result h v m in
    let filled = resolved.filled b n in
    let expected =
      know_all-present (index_of plan) plan.invocations (record { owners = []; expected = [] })
        (unique_issues-Uniques plan accepted.uniques).invocations v m resolved.distinct
        resolved.operation resolved.found b n filled.contract filled.found p i
        (expected_binding b.bound p filled.contract.cardinality filled.cardinality i o) in
    let edge = reached (place v.id b.name p.0) plan.edges (
      unmet-nil (map target_of plan.edges) (known_of plan).expected (place v.id b.name p.0)
        {r = p.1} accepted.unmet expected) in
    let nothing =
      edges-nil sha256 (index_of plan) (known_of plan) 0 [] plan.edges accepted.edges edge.0
        edge.1 in
    let rest = append-nil-inv (issue_if _ duplicate_target_edge nothing.1) _ nothing.2 in
    let source = append-nil-inv _ _ rest.1 in
    (
      edge.0,
      edge.1,
      sym edge.2,
      source_issue-nil nothing.1 edge.0.source
          (expected_at (known_of plan).expected (target_of edge.0)) p.1
          (ap (expected_at (known_of plan).expected) (sym edge.2) ∙ expected) source.0,
    )
