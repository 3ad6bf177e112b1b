-- ===== src/Flow/Accepted/Expectations.antt =====
-- The dictionary `expected_edges` of `Plan.validate` in flow/src/hedloom_flow/model.py holds, under the place
-- where an invocation takes an output, the reference that is bound there.
pub mod Written
use mathlib.Core.List.{Memᴰ}
use mathlib.Core.List.Memᴰ.{head, tail}
use hedloom.Base.{
  ℕ, zero, suc, ◌<◌, ◌≤◌, String, Bool, true, false, ◌&&◌, ◌||◌, ◌≡◌, refl, sym, ap, subst, ◌∙◌,
  Option, none, some, List, [], ◌∷◌, arith, map, str_eq, eq_iff, eq_refl, ◌==◌, ==_iff, ==_refl,
  ==_lt, Bool-cases, Option-cases, inl, inr, if◌then◌else◌,
}
use hedloom.Flow.Graph.{mem}
use hedloom.Flow.Values.{
  Plan, collection, InputContract, OperationDefinition, ArtifactReference, Bound, one_reference,
  members, ArtifactInputBinding, Invocation,
}
use hedloom.Flow.Check.{Index, operation_of}
use hedloom.Flow.Check.Invocations.{
  Target, same_member, same_target, Expected, expect, expected_at, Known, same_cardinality,
  numbered_from, indexed, is_output, input_contract, expect_members, expect_bound, expect_bindings,
  know, know_all,
}
use hedloom.Flow.Accepted.Distinct.{Distinct, map-mem}

same_member_refl : (m : Option ℕ) → same_member m m ≡ true
same_member_refl none = refl
same_member_refl (some i) = ==_refl i

pub same_target_refl : (t : Target) → same_target t t ≡ true
same_target_refl t =
    ground
      (arith, eq_iff t.invocation t.invocation, eq_iff t.input t.input, same_member_refl t.member)

same_member-eq : (m n : Option ℕ) → same_member m n ≡ true → m ≡ n
same_member-eq none none h = refl
same_member-eq (some i) (some j) h = ap some ((==_iff i j).0 h)
same_member-eq none (some j) h = absurd (ground (arith, h))
same_member-eq (some i) none h = absurd (ground (arith, h))

pub same_target-eq : (s t : Target) → same_target s t ≡ true → s ≡ t
same_target-eq s t h = elim (Bool-cases (str_eq s.invocation t.invocation)) [
  | inr p ↦ absurd (ground (arith, p, h))
  | inl p ↦ elim (Bool-cases (str_eq s.input t.input)) [
    | inr q ↦ absurd (ground (arith, p, q, h))
    | inl q ↦
        let a = (eq_iff s.invocation t.invocation).0 p in
        let b = (eq_iff s.input t.input).0 q in
        let c = same_member-eq s.member t.member (ground (arith, p, q, h)) in
        λ i. record { invocation = a i; input = b i; member = c i }
  ]
]

pub true≢false : true ≡ false → ⊥
true≢false h = cc

-- Writing at one place and reading at another.
pub expected_at-expect :
    (t u : Target) (r : ArtifactReference) (e : Expected)
    → expected_at (expect t r e) u ≡ (if same_target t u then some r else expected_at e u)
expected_at-expect t u r [] = refl
expected_at-expect t u r (p ∷ ps) = elim (Bool-cases (same_target p.0 t)) [
  | inl q ↦
      let same = ap (λ z. same_target z u) (same_target-eq p.0 t q) in
      elim (Bool-cases (same_target t u)) [
        | inl a ↦ rw q (rw a refl)
        | inr a ↦ rw q (rw (same ∙ a) (rw a refl))
      ]
  | inr q ↦ elim (Bool-cases (same_target p.0 u)) [
    | inl a ↦
        let other = ap (λ z. same_target t z) (sym (same_target-eq p.0 u a)) ∙ turned p.0 t q in
        rw q (rw a (rw other refl))
    | inr a ↦ rw q (rw a (expected_at-expect t u r ps))
  ]
]
  where
    turned : (a b : Target) → same_target a b ≡ false → same_target b a ≡ false
    turned a b h = elim (Bool-cases (same_target b a)) [
      | inl c ↦ absurd (
          true≢false
            (sym (same_target_refl a) ∙ (ap (same_target a) (sym (same_target-eq b a c)) ∙ h)))
      | inr c ↦ c
    ]

-- Places of other inputs.
abbrev pub Elsewhere : String → String → Target → Type 0
Elsewhere id name u =
    (m : Option ℕ) → same_target (record { invocation = id; input = name; member = m }) u ≡ false

expect_members-Elsewhere :
    (id name : String) (every : Bool) (u : Target)
    → Elsewhere id name u
    → (ms : List (Option ℕ × ArtifactReference)) (e : Expected)
    → expected_at (expect_members id name every ms e) u ≡ expected_at e u
expect_members-Elsewhere id name every u h [] e = refl
expect_members-Elsewhere id name every u h (m ∷ ms) e = elim (Bool-cases (every || is_output m.1)) [
  | inl p ↦
      let t : Target = record { invocation = id; input = name; member = m.0 } in
      expect_members-Elsewhere id name every u h ms _
      ∙ (ap (λ b. expected_at (if b then expect t m.1 e else e) u) p
          ∙ (expected_at-expect t u m.1 e
              ∙ ap (λ b. if b then some m.1 else expected_at e u) (h m.0)))
  | inr p ↦
      let t : Target = record { invocation = id; input = name; member = m.0 } in
      expect_members-Elsewhere id name every u h ms _
      ∙ ap (λ b. expected_at (if b then expect t m.1 e else e) u) p
]

pub expect_bindings-Elsewhere :
    (id : String) (o : OperationDefinition) (u : Target) (bs : List ArtifactInputBinding)
    → ((name : String) → mem name (map ArtifactInputBinding.name bs) ≡ true → Elsewhere id name u)
    → (e : Expected) → expected_at (expect_bindings id o bs e) u ≡ expected_at e u
expect_bindings-Elsewhere id o u [] h e = refl
expect_bindings-Elsewhere id o u (b ∷ bs) h e =
    expect_bindings-Elsewhere id o u bs (λ name m. h name (ground (arith, m))) _
    ∙ elim (Option-cases (input_contract o b.name)) [
      | inl p ↦ ap (λ c. expected_at (expect_bound id b.name b.bound c e) u) p
      | inr (c, p) ↦
          ap (λ c. expected_at (expect_bound id b.name b.bound c e) u) p
          ∙ expect_members-Elsewhere id b.name (same_cardinality c.cardinality collection) u
              (h b.name (ground (arith, eq_iff b.name b.name))) (indexed b.bound) e
    ]

pub know_all-Elsewhere :
    (index : Index) (u : Target) (vs : List Invocation)
    → mem u.invocation (map Invocation.id vs) ≡ false
    → (k : Known) → expected_at (know_all index vs k).expected u ≡ expected_at k.expected u
know_all-Elsewhere index u [] h k = refl
know_all-Elsewhere index u (v ∷ vs) h k =
    know_all-Elsewhere index u vs (ground (arith, h)) _
    ∙ elim (Option-cases (operation_of index v.operation)) [
      | inl p ↦ ap (λ o. expected_at (know v o k).expected u) p
      | inr (o, p) ↦
          ap (λ o. expected_at (know v o k).expected u) p
          ∙ expect_bindings-Elsewhere v.id o u v.inputs (λ name n m. ground (arith, h)) k.expected
    ]
