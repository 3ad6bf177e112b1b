-- ===== src/Flow/Accepted/Order/Execution.antt =====
-- An accepted plan can be executed: its invocations have an order in which each comes after all those whose
-- outputs it takes.
use mathlib.Core.List.{Memᴰ}
use hedloom.Base.{
  ◌||◌, ℕ, String, true, ◌≡◌, sym, ap, subst, ◌∙◌, ◌⊎◌, Option, List, [], ◌∷◌, arith, is_some, inl,
  inr,
}
use hedloom.Flow.Graph.{mem, Pairs}
use hedloom.Flow.Graph.Decides.{no_cycle_found}
use hedloom.Flow.Graph.Ranked.{Ranked}
use hedloom.Flow.Graph.Walks.{Edge, mem-cases}
use hedloom.Flow.Values.{
  Plan, ArtifactReference, output_reference, OutputReference, ArtifactInputBinding, Invocation,
}
use hedloom.Flow.Check.{invocation_of}
use hedloom.Flow.Check.Invocations.{Target, indexed, is_output}
use hedloom.Flow.Validate.{index_of, nodes, links, valid, validate}
use hedloom.Flow.Accepted.{validate-Accepted}
use hedloom.Flow.Accepted.Distinct.{Distinct}
use hedloom.Flow.Accepted.Order.{bound_references_have_edges}
use hedloom.Flow.Accepted.Order.Links.{listed-known, listed-node, links-IsGraph, linked, and_true}
use hedloom.Flow.Accepted.Resolved.{Provides}
use hedloom.Flow.Accepted.Resolved.Plans.{validate-Resolved}

-- `a` comes before `b`.
abbrev pub Before : String → String → List String → Type 0
Before a b [] = ⊥
Before a b (w ∷ ws) = ((w ≡ a) × (mem b ws ≡ true)) ⊎ Before a b ws

Ranked-Before :
    (ps : Pairs) (ws : List String) (a b : String)
    → Ranked ps ws
    → mem a ws ≡ true
    → Edge ps a b
    → Before a b ws
Ranked-Before ps [] a b r m e = absurd (ground (arith, m))
Ranked-Before ps (w ∷ ws) a b r m e = elim (mem-cases a w ws m) [
  | inl p ↦ inl (sym p, r.1 b (subst (λ z. Edge ps z b) p e))
  | inr n ↦ inr (Ranked-Before ps ws a b r.2 n e)
]

Ranked-Distinct : (ps : Pairs) (ws : List String) → Ranked ps ws → Distinct ws
Ranked-Distinct ps [] r = tt
Ranked-Distinct ps (w ∷ ws) r = (r.0, Ranked-Distinct ps ws r.2)

-- An order of execution: every invocation stands in it, once, and comes after all whose outputs it takes.
pub record Executable (plan : Plan) : Type 0 where
  pub order : List String
  pub distinct : Distinct order
  pub complete : (v : Invocation) → Memᴰ v plan.invocations → mem v.id order ≡ true
  pub respects :
      (v : Invocation)
      → Memᴰ v plan.invocations
      → (b : ArtifactInputBinding) → Memᴰ b v.inputs
      → (p : Option ℕ × ArtifactReference) → Memᴰ p (indexed b.bound)
      → (r : OutputReference) → p.1 ≡ output_reference r
      → Before r.invocation_id v.id order

dependency-Edge :
    (sha256 : String → String) (plan result : Plan)
    → validate sha256 plan ≡ valid result
    → (v : Invocation) (m : Memᴰ v plan.invocations)
    → (b : ArtifactInputBinding) (n : Memᴰ b v.inputs) → (p : Option ℕ × ArtifactReference)
    → Memᴰ p (indexed b.bound)
    → (r : OutputReference) → p.1 ≡ output_reference r
    → (mem r.invocation_id (nodes plan) ≡ true) × Edge (links plan) r.invocation_id v.id
dependency-Edge sha256 plan result h v m b n p i r q =
    let edge =
      bound_references_have_edges sha256 plan result h v m b n p i
        (ap (λ z. is_output z || is_some p.0) q) in
    let filled = (validate-Resolved sha256 plan result h v m).filled b n in
    let owned =
      subst (λ z. Provides plan z filled.contract.artifact.kind) q (filled.provided p i) in
    let source =
      ap (λ z. is_some (invocation_of (index_of plan) z)) (sym owned.named)
      ∙ listed-known plan owned.invocation owned.listed in
    let target = listed-known plan v m in
    let to_v = ap Target.invocation edge.2 in
    let joined =
      and_true source (ap (λ z. is_some (invocation_of (index_of plan) z)) to_v ∙ target) in
    let found =
      subst (Edge (links plan) r.invocation_id) to_v
        (linked (index_of plan) plan.edges edge.0 r edge.1 (edge.3 ∙ q) joined) in
    ((links-IsGraph plan r.invocation_id v.id found).0, found)

-- A plan that validates can be executed: its invocations have an order in which each stands once, and comes
-- after every invocation to whose outputs one of its inputs is bound.
pub validate-Executable :
    (sha256 : String → String) (plan result : Plan)
    → validate sha256 plan ≡ valid result
    → Executable plan
validate-Executable sha256 plan result h =
    let found =
      no_cycle_found (nodes plan) (links plan) (links-IsGraph plan)
        (validate-Accepted sha256 plan result h).acyclic in
    record {
      order = found.0;
      distinct = Ranked-Distinct (links plan) found.0 found.1.ranked;
      complete = λ v m. found.1.reached v.id (listed-node plan v m);
      respects = λ v m b n p i r q.
          let dependency = dependency-Edge sha256 plan result h v m b n p i r q in
          Ranked-Before (links plan) found.0 r.invocation_id v.id found.1.ranked
            (found.1.reached r.invocation_id dependency.0) dependency.1;
    }
