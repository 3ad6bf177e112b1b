-- ===== src/Run/Binding/Identity.antt =====
-- What a run binds to an invocation leaves its identity alone.
use mathlib.Core.Option
use hedloom.Base.{
  String, ◌≡◌, refl, sym, ap, ◌∙◌, Option, none, some, arith, Option-cases, some_inj, inl, inr,
}
use hedloom.Json.{Json, Fields, lookup}
use hedloom.Reuse.{input_digest, digest_ignores_placement}
use hedloom.Run.Binding.{
  Planned, Produced, declared_outputs, with_outputs, with_handle, controlled, started,
  bound_or_key_error, build_bundle, run_bundle,
}

-- Outputs that a run declares for an operation, in place of the bundle's.
outputs-digest :
    (hash : Fields → String) (o : Option Json) (a b : Fields)
    → o ≡ none
    → input_digest hash a ≡ input_digest hash b
    → input_digest hash (with_outputs o a) ≡ input_digest hash b
outputs-digest hash o a b n h = ap (λ z. input_digest hash (with_outputs z a)) n ∙ h

handle-digest :
    (hash : Fields → String) (handle : Option Json) (bundle : Fields)
    → input_digest hash (with_handle handle bundle) ≡ input_digest hash bundle
handle-digest hash none bundle = refl
handle-digest hash (some h) bundle = digest_ignores_placement hash "_execution_handle" h bundle refl

bound-digest :
    (hash : Fields → String) (i : Planned) (produced : Produced) (placement transport : String)
    (outputs : Fields) {bundle : Fields}
    → build_bundle i produced placement transport outputs ≡ some bundle
    → declared_outputs outputs i.operation ≡ none
    → input_digest hash bundle ≡ input_digest hash i.bundle
unfolding build_bundle
bound-digest hash i produced placement transport outputs {bundle} h n =
    elim (Option-cases (lookup "inputs" i.bundle)) [
      | inl p ↦ absurd (ground (arith, p, h))
      | inr (inputs, p) ↦
          ap (input_digest hash) (
            sym (
              some_inj
                (sym (ap (bound_or_key_error i produced placement transport outputs) p) ∙ h)))
          ∙ outputs-digest hash (declared_outputs outputs i.operation) _ i.bundle n (
              digest_ignores_placement hash "input_evidence" _ _ refl
              ∙ (digest_ignores_placement hash "resolved_inputs" _ _ refl
                  ∙ digest_ignores_placement hash "placement" _ i.bundle refl))
    ]

started-digest :
    (hash : Fields → String) (i : Planned) (produced : Produced) (placement transport : String)
    (outputs : Fields) (r : Option Json) {bundle : Fields}
    → started i produced placement transport outputs r ≡ some bundle
    → declared_outputs outputs i.operation ≡ none
    → input_digest hash bundle ≡ input_digest hash i.bundle
started-digest hash i produced placement transport outputs none h n =
    bound-digest hash i produced placement transport outputs h n
started-digest hash i produced placement transport outputs (some r) h n =
    ap (input_digest hash) (sym (some_inj h))

-- The bundle that is executed for an invocation, with its placement, resolved inputs, evidence, priority and
-- handle, has the input digest of the planned bundle, where the run declares no outputs for the operation.
pub binding_keeps_identity :
    (hash : Fields → String) (i : Planned) (produced : Produced) (placement transport : String)
    (outputs : Fields) (priority : Json) (handle : Option Json) {bundle : Fields}
    → run_bundle i produced placement transport outputs priority handle ≡ some bundle
    → declared_outputs outputs i.operation ≡ none
    → input_digest hash bundle ≡ input_digest hash i.bundle
unfolding run_bundle
binding_keeps_identity hash i produced placement transport outputs priority handle {bundle} h n =
    let found =
      started i produced placement transport outputs (lookup "resolved_inputs" i.bundle) in
    elim (Option-cases found) [
      | inl p ↦ absurd (ground (arith, p, h))
      | inr (b, p) ↦
          ap (input_digest hash)
            (sym (some_inj (sym (ap (Option.map (controlled priority handle)) p) ∙ h)))
          ∙ (handle-digest hash handle _
              ∙ (digest_ignores_placement hash "scheduling" _ b refl
                  ∙ started-digest hash i produced placement transport outputs _ p n))
    ]
