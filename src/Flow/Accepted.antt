-- ===== src/Flow/Accepted.antt =====
-- A plan that `Plan.validate` of flow/src/hedloom_flow/model.py returns: each of its checks reported nothing.
pub mod Resolved
pub mod Distinct
pub mod Uniques
pub mod Expectations
pub mod Order
pub mod Forest
pub mod Keyed
pub mod Examples
use mathlib.Core.List.{Memᴰ}
use mathlib.Core.List.Memᴰ.{head, tail}
use hedloom.Base.{
  ℕ, suc, String, Bool, true, false, not, ◌≡◌, refl, ap, ◌∙◌, Option, none, some, List, [], ◌∷◌,
  ◌++◌, arith, any, find, str_eq, eq_iff, if◌then◌else◌, Bool-cases, inl, inr, map,
}
use hedloom.Flow.Graph.{has_dependency_cycle}
use hedloom.Flow.Values.{Plan}
use hedloom.Flow.Check.{
  Code, Issue, issue_if, Place, root, each, each_from, repeated, dependency_cycle,
}
use hedloom.Flow.Check.Boundaries.{boundary_issues, cycle_issues}
use hedloom.Flow.Check.Edges.{
  target_of, edges_issues, unmet_issues, boundary_outputs_issues, output_issues,
}
use hedloom.Flow.Check.Invocations.{invocations_issues}
use hedloom.Flow.Check.Keys.{keys_issues}
use hedloom.Flow.Check.Operations.{operation_issues}
use hedloom.Flow.Validate.{
  index_of, known_of, nodes, links, unique_issues, key_uses, validation_issues, answer, Validated,
  valid, plan_validation_error, validate,
}

pub append-nil-inv {ℓ} : {A : Type ℓ} (xs ys : List A) → xs ++ ys ≡ [] → (xs ≡ []) × (ys ≡ [])
append-nil-inv [] ys h = (refl, h)
append-nil-inv (x ∷ xs) ys h = absurd (ground (arith, h))

pub issue_if-nil : (b : Bool) (c : Code) (p : Place) → issue_if b c p ≡ [] → b ≡ false
issue_if-nil true c p h = absurd (ground (arith, h))
issue_if-nil false c p h = refl

pub not-false : (b : Bool) → not b ≡ false → b ≡ true
not-false true h = refl
not-false false h = cc

-- Nothing was reported for a member of the sequence, at whatever index it stands.
pub each-nil {ℓ} :
    {A : Type ℓ} (i : ℕ) (f : ℕ → A → List Issue) (xs : List A)
    → each_from i f xs ≡ []
    → {x : A} → Memᴰ x xs
    → (j : ℕ) × (f j x ≡ [])
each-nil i f [] h m = elim m [ ]
each-nil i f (x ∷ xs) h (head e) = (i, ap (f i) e ∙ (append-nil-inv (f i x) _ h).0)
each-nil i f (x ∷ xs) h (tail m) = each-nil (suc i) f xs ((append-nil-inv (f i x) _ h).1) m

-- What each check of `validate` has to say of the plan.
pub record Accepted (sha256 : String → String) (plan : Plan) : Type 0 where
  pub uniques : unique_issues plan ≡ []
  pub keys : keys_issues sha256 [] (key_uses plan) ≡ []
  pub operations : each operation_issues plan.operations ≡ []
  pub boundaries : each (boundary_issues (index_of plan)) plan.boundaries ≡ []
  pub chains : cycle_issues (index_of plan) (index_of plan).boundaries ≡ []
  pub invocations :
      invocations_issues (index_of plan) 0 (record { owners = []; expected = [] }) plan.invocations
      ≡ []
  pub edges : edges_issues sha256 (index_of plan) (known_of plan) 0 [] plan.edges ≡ []
  pub unmet : unmet_issues (map target_of plan.edges) (known_of plan).expected ≡ []
  pub acyclic : has_dependency_cycle (nodes plan) (links plan) ≡ false
  pub nested :
      each (boundary_outputs_issues (index_of plan) (known_of plan).owners) plan.boundaries ≡ []
  pub outputs : each (output_issues (index_of plan) (known_of plan).owners) plan.outputs ≡ []

answer-nil : (plan result : Plan) (is : List Issue) → answer plan is ≡ valid result → is ≡ []
answer-nil plan result [] h = refl
answer-nil plan result (i ∷ is) h = absurd (ground (arith, h))

validate-nil :
    (sha256 : String → String) (plan result : Plan)
    → validate sha256 plan ≡ valid result
    → validation_issues sha256 plan ≡ []
unfolding validate
validate-nil sha256 plan result h = answer-nil plan result (validation_issues sha256 plan) h

pub validate-Accepted :
    (sha256 : String → String) (plan result : Plan)
    → validate sha256 plan ≡ valid result
    → Accepted sha256 plan
unfolding validation_issues
validate-Accepted sha256 plan result h =
    let a = append-nil-inv _ _ (validate-nil sha256 plan result h) in
    let b = append-nil-inv _ _ a.1 in
    let c = append-nil-inv _ _ b.1 in
    let d = append-nil-inv _ _ c.1 in
    let e = append-nil-inv _ _ d.1 in
    let f = append-nil-inv _ _ e.1 in
    let g = append-nil-inv _ _ f.1 in
    let i = append-nil-inv _ _ g.1 in
    let j = append-nil-inv _ _ i.1 in
    let k = append-nil-inv _ _ j.1 in
    record {
      uniques = a.0;
      keys = b.0;
      operations = c.0;
      boundaries = d.0;
      chains = e.0;
      invocations = f.0;
      edges = g.0;
      unmet = i.0;
      acyclic = issue_if-nil _ dependency_cycle (root "edges") j.0;
      nested = k.0;
      outputs = k.1;
    }
