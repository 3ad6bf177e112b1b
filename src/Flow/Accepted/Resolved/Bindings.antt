-- ===== src/Flow/Accepted/Resolved/Bindings.antt =====
-- In an accepted plan each invocation has its operation, its inputs and its settings.
use mathlib.Core.List.{Memᴰ}
use mathlib.Core.List.Memᴰ.{head, tail}
use hedloom.Base.{
  ℕ, String, Bool, true, false, not, ◌&&◌, ◌≡◌, refl, sym, ap, subst, ◌∙◌, Option, none, some, List,
  [], ◌∷◌, arith, map, eq_iff, Bool-cases, Option-cases, some_inj, inl, inr, if◌then◌else◌,
}
use hedloom.Flow.Graph.{mem}
use hedloom.Flow.Values.{
  Plan, Cardinality, scalar, collection, InputContract, ConfigContract, OperationDefinition,
  ArtifactReference, ArtifactInputBinding, ConfigBinding, Invocation,
}
use hedloom.Flow.Check.{
  Owners, operation_of, Place, under, nth, find_last, issue_if, input_cardinality_mismatch,
  input_kind_mismatch, config_type_mismatch, missing_input, missing_config,
}
use hedloom.Flow.Check.Invocations.{
  cardinality_of, same_cardinality, indexed, input_contract, config_contract, differs,
  reference_issues, references_issues, bound_issues, binding_issues, config_issues, value_issues,
  missing_inputs, missing_configs, is_outside, member_place,
}
use hedloom.Flow.Check.References.{matches_config_type}
use hedloom.Flow.Validate.{index_of}
use hedloom.Flow.Accepted.{append-nil-inv, issue_if-nil, not-false}
use hedloom.Flow.Accepted.Distinct.{Distinct}
use hedloom.Flow.Accepted.Resolved.{Provides, Owning}
use hedloom.Flow.Accepted.Resolved.References.{reference_kind-Provides}

-- The contract that an input binding fills, and what is bound there.
pub record FilledInput (plan : Plan) (o : OperationDefinition) (b : ArtifactInputBinding)
    : Type 0 where
  pub contract : InputContract
  pub found : input_contract o b.name ≡ some contract
  pub declared : Memᴰ contract o.inputs
  pub named : contract.name ≡ b.name
  pub cardinality : cardinality_of b.bound ≡ contract.cardinality
  pub provided :
      (m : Option ℕ × ArtifactReference)
      → Memᴰ m (indexed b.bound)
      → Provides plan m.1 contract.artifact.kind

pub record FilledConfig (o : OperationDefinition) (b : ConfigBinding) : Type 0 where
  pub contract : ConfigContract
  pub declared : Memᴰ contract o.config
  pub named : contract.name ≡ b.name
  pub typed : matches_config_type b.value contract.value_type ≡ true

-- An invocation with its operation, all that the operation requires, and nothing that it does not declare.
pub record Resolved (plan : Plan) (v : Invocation) : Type 0 where
  pub operation : OperationDefinition
  pub found : operation_of (index_of plan) v.operation ≡ some operation
  pub known : Memᴰ operation plan.operations
  pub identity : operation.identity ≡ v.operation
  pub distinct : Distinct (map ArtifactInputBinding.name v.inputs)
  pub required :
      (c : InputContract)
      → Memᴰ c operation.inputs
      → c.required ≡ true
      → mem c.name (map ArtifactInputBinding.name v.inputs) ≡ true
  pub required_config :
      (c : ConfigContract)
      → Memᴰ c operation.config
      → c.required ≡ true
      → mem c.name (map ConfigBinding.name v.config) ≡ true
  pub filled : (b : ArtifactInputBinding) → Memᴰ b v.inputs → FilledInput plan operation b
  pub configured : (b : ConfigBinding) → Memᴰ b v.config → FilledConfig operation b
  pub inside : is_outside (index_of plan) v.boundary_id ≡ false

find_last-Mem {ℓ} :
    {A : Type ℓ} (p : A → Bool) (xs : List A) {x : A}
    → find_last p xs ≡ some x
    → Memᴰ x xs × (p x ≡ true)
find_last-Mem p [] h = absurd (ground (arith, h))
find_last-Mem p (y ∷ ys) {x} h = elim (Option-cases (find_last p ys)) [
  | inr (z, q) ↦
      let rest = find_last-Mem p ys {x = x} (q ∙ (sym (step q) ∙ h)) in (tail rest.0, rest.1)
  | inl q ↦ elim (Bool-cases (p y)) [
    | inl r ↦
        let same : y ≡ x =
          some_inj (sym (ap (λ b. if b then some y else none) r) ∙ (sym (step q) ∙ h)) in
        (head (sym same), subst (λ z. p z ≡ true) same r)
    | inr r ↦ absurd (ground (arith, q, r, h))
  ]
]
  where
    step :
        {o : Option _}
        → find_last p ys ≡ o
        → find_last p (y ∷ ys) ≡ elim o [ none ↦ (if p y then some y else none) | some z ↦ some z ]
    step q = ap (λ o. elim o [ none ↦ (if p y then some y else none) | some z ↦ some z ]) q

same_cardinality-eq : (a b : Cardinality) → not (same_cardinality a b) ≡ false → a ≡ b
same_cardinality-eq scalar scalar h = refl
same_cardinality-eq collection collection h = refl
same_cardinality-eq scalar collection h = absurd (ground (arith, h))
same_cardinality-eq collection scalar h = absurd (ground (arith, h))

differs-eq : (o : Option String) (k kind : String) → o ≡ some k → differs o kind ≡ false → k ≡ kind
differs-eq o k kind e h = (eq_iff k kind).0 (not-false _ (sym (ap (λ z. differs z kind) e) ∙ h))

references-Provides :
    (plan : Plan) (owners : Owners) (c : InputContract) (path : Place)
    → Owning plan owners
    → (ms : List (Option ℕ × ArtifactReference))
    → references_issues (index_of plan) owners c path ms ≡ []
    → (m : Option ℕ × ArtifactReference) → Memᴰ m ms
    → Provides plan m.1 c.artifact.kind
references-Provides plan owners c path own [] h m i = elim i [ ]
references-Provides plan owners c path own (n ∷ ns) h m (tail i) =
    references-Provides plan owners c path own ns
      (append-nil-inv (reference_issues _ owners c path n) _ h).1 m i
references-Provides plan owners c path own (n ∷ ns) h m (head e) =
    let both =
      append-nil-inv _ _
        (append-nil-inv (reference_issues (index_of plan) owners c path n) _ h).0 in
    let found = reference_kind-Provides plan owners (member_place path n.0) n.1 own both.0 in
    subst (λ z. Provides plan z.1 c.artifact.kind) (sym e)
      (subst (Provides plan n.1)
        (differs-eq _ found.0 c.artifact.kind found.1 (issue_if-nil _ input_kind_mismatch _ both.1))
        found.2)

pub binding-FilledInput :
    (plan : Plan) (owners : Owners) (o : OperationDefinition) (path : Place) (i : ℕ)
    (b : ArtifactInputBinding)
    → Owning plan owners
    → binding_issues (index_of plan) owners o path i b ≡ []
    → FilledInput plan o b
binding-FilledInput plan owners o path i b own h = elim (Option-cases (input_contract o b.name)) [
  | inl p ↦ absurd (ground (arith, p, h))
  | inr (c, p) ↦
      let declared = find_last-Mem _ o.inputs p in
      let both = append-nil-inv _ _ (
        sym (ap (bound_issues (index_of plan) owners (nth (under path "inputs") i) b.bound) p)
        ∙ h) in
      record {
        contract = c;
        found = p;
        declared = declared.0;
        named = (eq_iff c.name b.name).0 declared.1;
        cardinality = same_cardinality-eq _ _ (issue_if-nil _ input_cardinality_mismatch _ both.0);
        provided = references-Provides plan owners c _ own (indexed b.bound) both.1;
      }
]

pub config-FilledConfig :
    (o : OperationDefinition) (path : Place) (i : ℕ) (b : ConfigBinding)
    → config_issues o path i b ≡ []
    → FilledConfig o b
config-FilledConfig o path i b h = elim (Option-cases (config_contract o b.name)) [
  | inl p ↦ absurd (ground (arith, p, h))
  | inr (c, p) ↦
      let declared = find_last-Mem _ o.config p in
      record {
        contract = c;
        declared = declared.0;
        named = (eq_iff c.name b.name).0 declared.1;
        typed = not-false _ (
            issue_if-nil _ config_type_mismatch (nth (under path "config") i)
              (sym (ap (value_issues (nth (under path "config") i) b) p) ∙ h));
      }
]

pub missing_inputs-nil :
    (path : Place) (bound : List String) (cs : List InputContract)
    → missing_inputs path bound cs ≡ []
    → (c : InputContract) → Memᴰ c cs
    → c.required ≡ true
    → mem c.name bound ≡ true
missing_inputs-nil path bound [] h c m r = elim m [ ]
missing_inputs-nil path bound (d ∷ ds) h c (tail m) r =
    missing_inputs-nil path bound ds (append-nil-inv (issue_if _ missing_input _) _ h).1 c m r
missing_inputs-nil path bound (d ∷ ds) h c (head e) r =
    let first =
      issue_if-nil _ missing_input (under path "inputs")
        (append-nil-inv (issue_if _ missing_input _) _ h).0 in
    not-false _ (
      sym (ap (λ b. b && not (mem c.name bound)) r)
      ∙ (ap (λ z. z.required && not (mem z.name bound)) e ∙ first))

pub missing_configs-nil :
    (path : Place) (bound : List String) (cs : List ConfigContract)
    → missing_configs path bound cs ≡ []
    → (c : ConfigContract) → Memᴰ c cs
    → c.required ≡ true
    → mem c.name bound ≡ true
missing_configs-nil path bound [] h c m r = elim m [ ]
missing_configs-nil path bound (d ∷ ds) h c (tail m) r =
    missing_configs-nil path bound ds (append-nil-inv (issue_if _ missing_config _) _ h).1 c m r
missing_configs-nil path bound (d ∷ ds) h c (head e) r =
    let first =
      issue_if-nil _ missing_config (under path "config")
        (append-nil-inv (issue_if _ missing_config _) _ h).0 in
    not-false _ (
      sym (ap (λ b. b && not (mem c.name bound)) r)
      ∙ (ap (λ z. z.required && not (mem z.name bound)) e ∙ first))
