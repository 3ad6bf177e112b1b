-- ===== src/Flow/Accepted/Expectations/Written.antt =====
-- The references of an accepted plan's invocations stand in `expected_edges`.
use mathlib.Core.List.{Memᴰ}
use mathlib.Core.List.Memᴰ.{head, tail}
use hedloom.Base.{
  ℕ, suc, ◌<◌, String, Bool, true, false, ◌||◌, ◌≡◌, refl, sym, ap, subst, ◌∙◌, Option, none, some,
  List, [], ◌∷◌, arith, map, str_eq, eq_iff, Bool-cases, inl, inr, if◌then◌else◌,
}
use hedloom.Flow.Graph.{mem}
use hedloom.Flow.Values.{
  collection, InputContract, OperationDefinition, ArtifactReference, Bound, one_reference, members,
  ArtifactInputBinding, Invocation,
}
use hedloom.Flow.Check.{Index, operation_of}
use hedloom.Flow.Check.Invocations.{
  Target, same_target, Expected, expect, expected_at, Known, same_cardinality, numbered_from,
  indexed, is_output, input_contract, expect_members, expect_bound, expect_bindings, know, know_all,
}
use hedloom.Flow.Accepted.Distinct.{Distinct}
use hedloom.Flow.Accepted.Expectations.{
  same_target_refl, expected_at-expect, Elsewhere, expect_bindings-Elsewhere, know_all-Elsewhere,
  true≢false,
}

abbrev pub place : String → String → Option ℕ → Target
place id name m = record { invocation = id; input = name; member = m }

-- One more reference of the same input.
expect_members-cons :
    (id name : String) (every : Bool) (m : Option ℕ × ArtifactReference) (e : Expected) (u : Target)
    → (every || is_output m.1) ≡ true
    → expected_at (if every || is_output m.1 then expect (place id name m.0) m.1 e else e) u
      ≡ (if same_target (place id name m.0) u then some m.1 else expected_at e u)
expect_members-cons id name every m e u h =
    ap (λ b. expected_at (if b then expect (place id name m.0) m.1 e else e) u) h
    ∙ expected_at-expect (place id name m.0) u m.1 e

other_index :
    (id name : String) (i j : ℕ)
    → j < i
    → same_target (place id name (some i)) (place id name (some j)) ≡ false
other_index id name i j h = ground (arith, eq_iff id id, eq_iff name name)

numbered-before :
    (id name : String) (every : Bool) (i j : ℕ) (rs : List ArtifactReference) (e : Expected)
    → j < i
    → expected_at (expect_members id name every (numbered_from i rs) e) (place id name (some j))
      ≡ expected_at e (place id name (some j))
numbered-before id name every i j [] e h = refl
numbered-before id name every i j (r ∷ rs) e h =
    numbered-before id name every (suc i) j rs _ (omega arith)
    ∙ elim (Bool-cases (every || is_output r)) [
      | inl p ↦
          expect_members-cons id name every (some i, r) e (place id name (some j)) p
          ∙ ap (λ b. if b then some r else expected_at e (place id name (some j)))
              (other_index id name i j h)
      | inr p ↦
          ap
            (λ b.
              expected_at (if b then expect (place id name (some i)) r e else e)
                (place id name (some j)))
            p
    ]

numbered-present :
    (id name : String) (every : Bool) (i : ℕ) (rs : List ArtifactReference) (e : Expected)
    → (m : Option ℕ × ArtifactReference) → Memᴰ m (numbered_from i rs)
    → (every || is_output m.1) ≡ true
    → expected_at (expect_members id name every (numbered_from i rs) e) (place id name m.0)
      ≡ some m.1
numbered-present id name every i [] e m n h = elim n [ ]
numbered-present id name every i (r ∷ rs) e m (tail n) h =
    numbered-present id name every (suc i) rs _ m n h
numbered-present id name every i (r ∷ rs) e m (head q) h =
    subst
      (λ z.
        expected_at (expect_members id name every (numbered_from i (r ∷ rs)) e) (place id name z.0)
        ≡ some z.1)
      (sym q)
      (numbered-before id name every (suc i) i rs _ (omega arith)
        ∙ (expect_members-cons id name every (some i, r) e (place id name (some i))
              (ap (λ z. every || is_output z.1) (sym q) ∙ h)
            ∙ ap (λ b. if b then some r else expected_at e (place id name (some i)))
                (same_target_refl (place id name (some i)))))

indexed-present :
    (id name : String) (every : Bool) (b : Bound) (e : Expected)
    → (m : Option ℕ × ArtifactReference) → Memᴰ m (indexed b)
    → (every || is_output m.1) ≡ true
    → expected_at (expect_members id name every (indexed b) e) (place id name m.0) ≡ some m.1
indexed-present id name every (members rs) e m n h = numbered-present id name every 0 rs e m n h
indexed-present id name every (one_reference r) e m (tail n) h = elim n [ ]
indexed-present id name every (one_reference r) e m (head q) h =
    subst
      (λ z.
        expected_at (expect_members id name every ((none, r) ∷ []) e) (place id name z.0)
        ≡ some z.1)
      (sym q)
      (expect_members-cons id name every (none, r) e (place id name none)
          (ap (λ z. every || is_output z.1) (sym q) ∙ h)
        ∙ ap (λ b. if b then some r else expected_at e (place id name none))
            (same_target_refl (place id name none)))

bindings-present :
    (id : String) (o : OperationDefinition) (bs : List ArtifactInputBinding) (e : Expected)
    → Distinct (map ArtifactInputBinding.name bs)
    → (b : ArtifactInputBinding) → Memᴰ b bs
    → (c : InputContract) → input_contract o b.name ≡ some c
    → (m : Option ℕ × ArtifactReference) → Memᴰ m (indexed b.bound)
    → (same_cardinality c.cardinality collection || is_output m.1) ≡ true
    → expected_at (expect_bindings id o bs e) (place id b.name m.0) ≡ some m.1
bindings-present id o [] e d b n c p m i h = elim n [ ]
bindings-present id o (a ∷ others) e d b (tail n) c p m i h =
    bindings-present id o others _ d.1 b n c p m i h
bindings-present id o (a ∷ others) e d b (head q) c p m i h =
    expect_bindings-Elsewhere id o (place id b.name m.0) others (λ name n k. other name n k) _
    ∙ (ap
          (λ z.
            expected_at (expect_bound id z.name z.bound (input_contract o z.name) e)
              (place id b.name m.0))
          (sym q)
        ∙ (ap (λ z. expected_at (expect_bound id b.name b.bound z e) (place id b.name m.0)) p
            ∙ indexed-present id b.name (same_cardinality c.cardinality collection) b.bound e m i
                h))
  where
    other :
        (name : String)
        → mem name (map ArtifactInputBinding.name others) ≡ true
        → Elsewhere id name (place id b.name m.0)
    other name n k = elim (Bool-cases (str_eq name b.name)) [
      | inl r ↦ absurd (
          true≢false (
            sym n
            ∙ (ap (λ z. mem z (map ArtifactInputBinding.name others))
                  ((eq_iff name b.name).0 r ∙ ap ArtifactInputBinding.name q)
                ∙ d.0)))
      | inr r ↦ ground (arith, r)
    ]

pub know_all-present :
    (index : Index) (vs : List Invocation) (k : Known)
    → Distinct (map Invocation.id vs)
    → (v : Invocation) → Memᴰ v vs
    → Distinct (map ArtifactInputBinding.name v.inputs)
    → (o : OperationDefinition) → operation_of index v.operation ≡ some o
    → (b : ArtifactInputBinding) → Memᴰ b v.inputs
    → (c : InputContract) → input_contract o b.name ≡ some c
    → (m : Option ℕ × ArtifactReference) → Memᴰ m (indexed b.bound)
    → (same_cardinality c.cardinality collection || is_output m.1) ≡ true
    → expected_at (know_all index vs k).expected (place v.id b.name m.0) ≡ some m.1
know_all-present index [] k d v n d' o p b j c q m i h = elim n [ ]
know_all-present index (u ∷ us) k d v (tail n) d' o p b j c q m i h =
    know_all-present index us _ d.1 v n d' o p b j c q m i h
know_all-present index (u ∷ us) k d v (head s) d' o p b j c q m i h =
    know_all-Elsewhere index (place v.id b.name m.0) us
      (ap (λ z. mem z.id (map Invocation.id us)) s ∙ d.0) _
    ∙ (ap
          (λ z.
            expected_at (know z (operation_of index z.operation) k).expected
              (place v.id b.name m.0))
          (sym s)
        ∙ (ap (λ z. expected_at (know v z k).expected (place v.id b.name m.0)) p
            ∙ bindings-present v.id o v.inputs k.expected d' b j c q m i h))
