-- ===== src/Flow/Accepted/Resolved.antt =====
-- What the names and references of an accepted plan stand for.
pub mod References
pub mod Bindings
pub mod Plans
use mathlib.Core.List.{Memᴰ}
use mathlib.Core.List.Memᴰ.{head, tail}
use hedloom.Base.{
  ℕ, suc, String, Bool, true, false, not, ◌&&◌, ◌≡◌, refl, sym, ap, subst, ◌∙◌, Option, none, some,
  List, [], ◌∷◌, ◌++◌, arith, any, find, str_eq, eq_iff, if◌then◌else◌, Bool-cases, Option-cases,
  some_inj, inl, inr,
}
use hedloom.Flow.Values.{
  Plan, OperationIdentity, OperationDefinition, ArtifactSource, ArtifactReference, source_reference,
  output_reference, OutputReference, OutputContract, Invocation, FlowBoundary, same_operation,
}
use hedloom.Flow.Check.{
  Index, Owners, owner_of, operation_of, source_of, invocation_of, boundary_of, first_of_each,
  Issue, Place, find_last,
}
use hedloom.Flow.Check.References.{
  Kind, source_kind, declared_kind, owned_kind, output_kind, output_named, operation_for,
  reference_kind,
}
use hedloom.Flow.Check.Invocations.{Known, set_default, know, know_all}
use hedloom.Flow.Validate.{index_of, known_of}

pub find-Mem {ℓ} :
    {A : Type ℓ} (p : A → Bool) (xs : List A) {x : A}
    → find p xs ≡ some x
    → Memᴰ x xs × (p x ≡ true)
find-Mem p [] h = absurd (ground (arith, h))
find-Mem p (y ∷ ys) {x} h = elim (Bool-cases (p y)) [
  | inl q ↦
      let same : y ≡ x = some_inj (sym (ap (λ b. if b then some y else find p ys) q) ∙ h) in
      (head (sym same), subst (λ z. p z ≡ true) same q)
  | inr q ↦
      let rest = find-Mem p ys (sym (ap (λ b. if b then some y else find p ys) q) ∙ h) in
      (tail rest.0, rest.1)
]

pub first_of_each-Mem {ℓ} :
    {A : Type ℓ} (same : A → A → Bool) (seen xs : List A) {x : A}
    → Memᴰ x (first_of_each same seen xs)
    → Memᴰ x xs
first_of_each-Mem same seen [] m = m
first_of_each-Mem same seen (y ∷ ys) {x} m = elim (Bool-cases (any (same y) seen)) [
  | inl q ↦ tail (first_of_each-Mem same seen ys (subst (Memᴰ x) (step q) m))
  | inr q ↦ elim (subst (Memᴰ x) (step q) m) [
    | head e ↦ head e
    | tail n ↦ tail (first_of_each-Mem same (y ∷ seen) ys n)
  ]
]
  where
    step :
        {b : Bool}
        → any (same y) seen ≡ b
        → first_of_each same seen (y ∷ ys)
          ≡ (if b then first_of_each same seen ys else y ∷ first_of_each same (y ∷ seen) ys)
    step q =
        ap (λ b. if b then first_of_each same seen ys else y ∷ first_of_each same (y ∷ seen) ys) q

pub same_operation-eq : (a b : OperationIdentity) → same_operation a b ≡ true → a ≡ b
same_operation-eq a b h = elim (Bool-cases (str_eq a.name b.name)) [
  | inl p ↦
      let n = (eq_iff a.name b.name).0 p in
      let v = (eq_iff a.version b.version).0 (ground (arith, p, h)) in
      λ i. record { name = n i; version = v i }
  | inr p ↦ absurd (ground (arith, p, h))
]

-- Where a reference leads, and the kind of artifact that is there: a declared source, or an output that the
-- operation of an invocation of the plan declares.
pub record Owned (plan : Plan) (r : OutputReference) (kind : String) : Type 0 where
  pub invocation : Invocation
  pub listed : Memᴰ invocation plan.invocations
  pub named : invocation.id ≡ r.invocation_id
  pub operation : OperationDefinition
  pub known : Memᴰ operation plan.operations
  pub identity : operation.identity ≡ invocation.operation
  pub output : OutputContract
  pub declared : Memᴰ output operation.outputs
  pub output_name : output.name ≡ r.output_name
  pub output_kind : output.artifact.kind ≡ kind

abbrev pub Provides : Plan → ArtifactReference → String → Type 0
Provides plan (source_reference id) kind =
    (s : ArtifactSource) × Memᴰ s plan.sources × (s.id ≡ id) × (s.artifact.kind ≡ kind)
Provides plan (output_reference r) kind = Owned plan r kind

-- The operation that an owner stands for is the one that an invocation of that identity names.
abbrev pub Owning : Plan → Owners → Type 0
Owning plan owners =
    (id : String) (o : OperationDefinition)
    → owner_of owners id ≡ some o
    → (v : Invocation) × Memᴰ v plan.invocations
      × (v.id ≡ id)
      × Memᴰ o plan.operations
      × (o.identity ≡ v.operation)

pub operation_of-Mem :
    (plan : Plan) (identity : OperationIdentity) {o : OperationDefinition}
    → operation_of (index_of plan) identity ≡ some o
    → Memᴰ o plan.operations × (o.identity ≡ identity)
unfolding index_of
operation_of-Mem plan identity {o} h =
    let found = find-Mem _ _ h in
    (first_of_each-Mem _ [] plan.operations found.0, same_operation-eq o.identity identity found.1)

pub invocation_of-Mem :
    (plan : Plan) (id : String) {v : Invocation}
    → invocation_of (index_of plan) id ≡ some v
    → Memᴰ v plan.invocations × (v.id ≡ id)
unfolding index_of
invocation_of-Mem plan id {v} h =
    let found = find-Mem _ _ h in
    (first_of_each-Mem _ [] plan.invocations found.0, (eq_iff v.id id).0 found.1)

pub source_of-Mem :
    (plan : Plan) (id : String) {s : ArtifactSource}
    → source_of (index_of plan) id ≡ some s
    → Memᴰ s plan.sources × (s.id ≡ id)
unfolding index_of
source_of-Mem plan id {s} h =
    let found = find-Mem _ _ h in
    (first_of_each-Mem _ [] plan.sources found.0, (eq_iff s.id id).0 found.1)

set_default-Owning :
    (plan : Plan) (owners : Owners) (v : Invocation) (o : OperationDefinition)
    → Owning plan owners
    → Memᴰ v plan.invocations
    → Memᴰ o plan.operations
    → o.identity ≡ v.operation
    → Owning plan (set_default v.id o owners)
set_default-Owning plan owners v o h m n e id p q = elim (Option-cases (owner_of owners v.id)) [
  | inr (z, r) ↦ h id p (ground (arith, r, q))
  | inl r ↦ elim (Bool-cases (str_eq v.id id)) [
    | inl s ↦
        let same : o ≡ p = some_inj (ground (arith, r, s, q)) in
        (
          v,
          m,
          (eq_iff v.id id).0 s,
          subst (λ z. Memᴰ z plan.operations) same n,
          ap (λ z. z.identity) (sym same) ∙ e,
        )
    | inr s ↦ h id p (ground (arith, r, s, q))
  ]
]
