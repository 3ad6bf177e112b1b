-- ===== src/Flow/Accepted/Resolved/References.antt =====
-- A reference for which `_reference_kind` reports nothing leads to what it says, of the kind that is given.
use mathlib.Core.List.{Memᴰ}
use hedloom.Base.{
  String, ◌≡◌, refl, sym, ap, subst, ◌∙◌, some, List, [], ◌∷◌, arith, eq_iff, Option-cases, inl,
  inr,
}
use hedloom.Flow.Values.{
  Plan, OperationDefinition, ArtifactReference, source_reference, output_reference, OutputReference,
  Invocation,
}
use hedloom.Flow.Check.{Owners, owner_of, operation_of, source_of, invocation_of, Place}
use hedloom.Flow.Check.Invocations.{Known, know, know_all}
use hedloom.Flow.Check.References.{
  source_kind, declared_kind, owned_kind, output_kind, output_named, operation_for, or_else,
  reference_kind,
}
use hedloom.Flow.Validate.{index_of, known_of}
use hedloom.Flow.Accepted.Resolved.{
  find-Mem, Owned, Provides, Owning, operation_of-Mem, invocation_of-Mem, source_of-Mem,
  set_default-Owning,
}

-- The operation that `_reference_kind` takes for an invocation of the plan.
operation_for-Mem :
    (plan : Plan) (owners : Owners) (v : Invocation) {o : OperationDefinition}
    → Owning plan owners
    → Memᴰ v plan.invocations
    → operation_for (index_of plan) owners v ≡ some o
    → (w : Invocation) × Memᴰ w plan.invocations
      × (w.id ≡ v.id)
      × Memᴰ o plan.operations
      × (o.identity ≡ w.operation)
operation_for-Mem plan owners v {o} h m e = elim (Option-cases (owner_of owners v.id)) [
  | inl p ↦
      let found =
        operation_of-Mem plan v.operation
          (sym (ap (λ z. or_else z (operation_of (index_of plan) v.operation)) p) ∙ e) in
      (v, m, refl, found.0, found.1)
  | inr (z, p) ↦
      h v.id o (p ∙ (sym (ap (λ z. or_else z (operation_of (index_of plan) v.operation)) p) ∙ e))
]

source_kind-Provides :
    (plan : Plan) (path : Place) (id : String)
    → (source_kind path (source_of (index_of plan) id)).0 ≡ []
    → (kind : String) × ((source_kind path (source_of (index_of plan) id)).1 ≡ some kind)
      × Provides plan (source_reference id) kind
source_kind-Provides plan path id h = elim (Option-cases (source_of (index_of plan) id)) [
  | inl p ↦ absurd (ground (arith, p, h))
  | inr (s, p) ↦
      let found = source_of-Mem plan id p in
      (s.artifact.kind, ap (λ z. (source_kind path z).1) p, (s, found.0, found.1, refl))
]

owned_kind-Owned :
    (plan : Plan) (owners : Owners) (path : Place) (r : OutputReference) (v : Invocation)
    → Owning plan owners
    → invocation_of (index_of plan) r.invocation_id ≡ some v
    → (owned_kind path r.output_name (operation_for (index_of plan) owners v)).0 ≡ []
    → (kind : String) × ((owned_kind path r.output_name (operation_for (index_of plan) owners v)).1
        ≡ some kind)
      × Owned plan r kind
owned_kind-Owned plan owners path r v own e h =
    elim (Option-cases (operation_for (index_of plan) owners v)) [
      | inl p ↦ absurd (ground (arith, p, h))
      | inr (o, p) ↦ elim (Option-cases (output_named r.output_name o)) [
        | inl q ↦ absurd (ground (arith, p, q, h))
        | inr (out, q) ↦
            let at_id = invocation_of-Mem plan r.invocation_id e in
            let owner = operation_for-Mem plan owners v own at_id.0 p in
            let declared = find-Mem _ o.outputs q in
            (
              out.artifact.kind,
              ap (λ z. (owned_kind path r.output_name z).1) p
                  ∙ ap (λ z. (declared_kind path z).1) q,
              record {
                invocation = owner.0;
                listed = owner.1;
                named = owner.2 ∙ at_id.1;
                operation = o;
                known = owner.3;
                identity = owner.4;
                output = out;
                declared = declared.0;
                output_name = (eq_iff out.name r.output_name).0 declared.1;
                output_kind = refl;
              },
            )
      ]
    ]

pub reference_kind-Provides :
    (plan : Plan) (owners : Owners) (path : Place) (r : ArtifactReference)
    → Owning plan owners
    → (reference_kind (index_of plan) owners path r).0 ≡ []
    → (kind : String) × ((reference_kind (index_of plan) owners path r).1 ≡ some kind)
      × Provides plan r kind
unfolding reference_kind
reference_kind-Provides plan owners path (source_reference id) own h =
    source_kind-Provides plan path id h
reference_kind-Provides plan owners path (output_reference r) own h =
    elim (Option-cases (invocation_of (index_of plan) r.invocation_id)) [
      | inl p ↦ absurd (ground (arith, p, h))
      | inr (v, p) ↦
          let same = ap (output_kind (index_of plan) owners path r.output_name) p in
          let found = owned_kind-Owned plan owners path r v own p (sym (ap (λ z. z.0) same) ∙ h) in
          (found.0, ap (λ z. z.1) same ∙ found.1, found.2)
    ]

pub know-Owning :
    (plan : Plan) (k : Known) (v : Invocation)
    → Owning plan k.owners
    → Memᴰ v plan.invocations
    → Owning plan (know v (operation_of (index_of plan) v.operation) k).owners
know-Owning plan k v h m = elim (Option-cases (operation_of (index_of plan) v.operation)) [
  | inl p ↦ subst (λ z. Owning plan (know v z k).owners) (sym p) h
  | inr (o, p) ↦
      let found = operation_of-Mem plan v.operation p in
      subst (λ z. Owning plan (know v z k).owners) (sym p)
        (set_default-Owning plan k.owners v o h m found.0 found.1)
]

pub know_all-Owning :
    (plan : Plan) (vs : List Invocation) (k : Known)
    → Owning plan k.owners
    → ((v : Invocation) → Memᴰ v vs → Memᴰ v plan.invocations)
    → Owning plan (know_all (index_of plan) vs k).owners
know_all-Owning plan [] k h w = h
know_all-Owning plan (v ∷ vs) k h w =
    know_all-Owning plan vs _ (know-Owning plan k v h (w v (Memᴰ.head refl)))
      λ u m. w u (Memᴰ.tail m)

pub known_of-Owning : (plan : Plan) → Owning plan (known_of plan).owners
unfolding known_of
known_of-Owning plan =
    know_all-Owning plan plan.invocations _ (λ id o e. absurd (ground (arith, e))) λ v m. m
