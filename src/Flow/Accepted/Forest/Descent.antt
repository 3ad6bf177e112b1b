-- ===== src/Flow/Accepted/Forest/Descent.antt =====
-- `_is_boundary_descendant` of flow/src/hedloom_flow/model.py decides whether a boundary lies in another.
use hedloom.Base.{
  ℕ, zero, suc, ◌<◌, String, Bool, true, false, ◌≡◌, ◌≢◌, ◌↔◌, ◌⊎◌, refl, sym, ap, subst, ◌∙◌,
  Option, none, some, List, [], ◌∷◌, arith, map, length, length-map, str_eq, eq_iff, Bool-cases,
  Option-cases, some_inj, inl, inr,
}
use hedloom.Flow.Graph.{mem}
use hedloom.Flow.Graph.Decides.{room, room_le, room_less}
use hedloom.Flow.Graph.Walks.{mem_head, mem_tail, mem-cases}
use hedloom.Flow.Values.{FlowBoundary}
use hedloom.Flow.Check.{Index, boundary_of}
use hedloom.Flow.Check.Boundaries.{parent_of, descends, is_boundary_descendant}
use hedloom.Flow.Accepted.Forest.{boundary-named}

-- `cursor` is `ancestor`, or one of its parents is.
pub data Inside (index : Index) (ancestor : String) : Option String → Type 0 where
  here : Inside index ancestor (some ancestor)
  deeper :
      {id : String}
      → Inside index ancestor (parent_of (boundary_of index id))
      → Inside index ancestor (some id)

-- What the loop knows: nothing that it has visited is the ancestor, and the parent of each is the cursor or
-- was visited.
Searched : Index → String → List String → Option String → Type 0
Searched index ancestor visited cursor =
    (u : String)
    → mem u visited ≡ true
    → (str_eq u ancestor ≡ false)
      × ((parent_of (boundary_of index u) ≡ cursor)
          ⊎ ((w : String) × (parent_of (boundary_of index u) ≡ some w) × (mem w visited ≡ true)))

Searched-deeper :
    (index : Index) (ancestor : String) (visited : List String) (id : String)
    → Searched index ancestor visited (some id)
    → str_eq id ancestor ≡ false
    → Searched index ancestor (id ∷ visited) (parent_of (boundary_of index id))
unfolding Searched
Searched-deeper index ancestor visited id h e u m = elim (mem-cases u id visited m) [
  | inl p ↦ (ap (λ z. str_eq z ancestor) p ∙ e, inl (ap (λ z. parent_of (boundary_of index z)) p))
  | inr n ↦
      let known = h u n in
      (
        known.0,
        elim (known.1) [
          | inl p ↦ inr (id, p, mem_head id visited)
          | inr (w, p, q) ↦ inr (w, p, mem_tail w id visited q)
        ],
      )
]

-- What was visited is closed: the ancestor is not above it.
closed :
    (index : Index) (ancestor : String) (visited : List String) (id : String)
    → Searched index ancestor visited (some id)
    → mem id visited ≡ true
    → {c : Option String} → Inside index ancestor c
    → (u : String) → c ≡ some u
    → mem u visited ≡ true
    → ⊥
unfolding Searched
closed index ancestor visited id h m (Inside.here) u e n =
    absurd (ground (arith, eq_iff u ancestor, some_inj e, (h u n).0))
closed index ancestor visited id h m (Inside.deeper i) u e n = elim ((h u n).1) [
  | inl p ↦
      closed index ancestor visited id h m i id
        (ap (λ z. parent_of (boundary_of index z)) (some_inj e) ∙ p) m
  | inr (x, p, q) ↦
      closed index ancestor visited id h m i x
        (ap (λ z. parent_of (boundary_of index z)) (some_inj e) ∙ p) q
]

not-Inside-none : (index : Index) (ancestor : String) → ¬ Inside index ancestor none
not-Inside-none index ancestor i = elim i [ ]

descends_step :
    (k : ℕ) (index : Index) (visited : List String) (ancestor id : String)
    → mem id visited ≡ false
    → str_eq id ancestor ≡ false
    → descends (suc k) index visited ancestor (some id)
      ≡ descends k index (id ∷ visited) ancestor (parent_of (boundary_of index id))
unfolding descends
descends_step k index visited ancestor id p q = ground (arith, p, q)

not-Inside :
    (index : Index) (ancestor id : String)
    → str_eq id ancestor ≡ false
    → ¬ Inside index ancestor (parent_of (boundary_of index id))
    → {c : Option String} → Inside index ancestor c
    → c ≡ some id
    → ⊥
not-Inside index ancestor id e n (Inside.here) p =
    absurd (ground (arith, eq_iff id ancestor, some_inj p, e))
not-Inside index ancestor id e n (Inside.deeper i) p =
    n (subst (λ z. Inside index ancestor (parent_of (boundary_of index z))) (some_inj p) i)

descends_sound :
    (k : ℕ) (index : Index) (visited : List String) (ancestor : String) (cursor : Option String)
    → descends k index visited ancestor cursor ≡ some true
    → Inside index ancestor cursor
unfolding descends
descends_sound zero index visited ancestor cursor h = absurd (ground (arith, h))
descends_sound (suc k) index visited ancestor none h = absurd (ground (arith, h))
descends_sound (suc k) index visited ancestor (some id) h = elim (Bool-cases (mem id visited)) [
  | inl p ↦ absurd (ground (arith, p, h))
  | inr p ↦ elim (Bool-cases (str_eq id ancestor)) [
    | inl q ↦
        subst (λ z. Inside index ancestor (some z)) (sym ((eq_iff id ancestor).0 q)) Inside.here
    | inr q ↦ Inside.deeper (
        descends_sound k index (id ∷ visited) ancestor _
          (sym (descends_step k index visited ancestor id p q) ∙ h))
  ]
]

descends_complete :
    (k : ℕ) (index : Index) (visited : List String) (ancestor : String) (cursor : Option String)
    → Searched index ancestor visited cursor
    → descends k index visited ancestor cursor ≡ some false
    → ¬ Inside index ancestor cursor
unfolding descends
descends_complete zero index visited ancestor cursor s h i = absurd (ground (arith, h))
descends_complete (suc k) index visited ancestor none s h i = not-Inside-none index ancestor i
descends_complete (suc k) index visited ancestor (some id) s h i =
    elim (Bool-cases (mem id visited)) [
      | inl p ↦ closed index ancestor visited id s p i id refl p
      | inr p ↦ elim (Bool-cases (str_eq id ancestor)) [
        | inl q ↦ absurd (ground (arith, p, q, h))
        | inr q ↦
            not-Inside index ancestor id q
              (descends_complete k index (id ∷ visited) ancestor _
                (Searched-deeper index ancestor visited id s q)
                (sym (descends_step k index visited ancestor id p q) ∙ h))
              i refl
      ]
    ]

descends_top :
    (k : ℕ) (index : Index) (visited : List String) (ancestor : String)
    → 0 < k
    → descends k index visited ancestor none ≢ none
unfolding descends
descends_top zero index visited ancestor h e = absurd (omega arith)
descends_top (suc k) index visited ancestor h e = absurd (ground (arith, e))

descends-answers :
    (k : ℕ) (index : Index) (visited : List String) (ancestor : String) (cursor : Option String)
    → suc (room (map FlowBoundary.id index.boundaries) visited) < k
    → descends k index visited ancestor cursor ≢ none
unfolding descends
descends-answers zero index visited ancestor cursor h e = absurd (omega arith)
descends-answers (suc k) index visited ancestor none h e = absurd (ground (arith, e))
descends-answers (suc k) index visited ancestor (some id) h e = elim (Bool-cases (mem id visited)) [
  | inl p ↦ absurd (ground (arith, p, e))
  | inr p ↦ elim (Bool-cases (str_eq id ancestor)) [
    | inl q ↦ absurd (ground (arith, p, q, e))
    | inr q ↦ elim (Option-cases (boundary_of index id)) [
      | inl r ↦ descends_top k index (id ∷ visited) ancestor (omega (arith, h)) (
          ap (λ z. descends k index (id ∷ visited) ancestor (parent_of z)) (sym r)
          ∙ (sym (descends_step k index visited ancestor id p q) ∙ e))
      | inr (b, r) ↦
          descends-answers k index (id ∷ visited) ancestor _
            (omega (arith, h, room_less _ visited id (boundary-named index id r).1 p))
            (sym (descends_step k index visited ancestor id p q) ∙ e)
    ]
  ]
]

-- `_is_boundary_descendant` answers whether the candidate is the ancestor or lies, through its parents,
-- inside it, in any set of boundaries, cyclic ones included.
pub is_boundary_descendant_iff :
    (index : Index) (candidate : Option String) (ancestor : String)
    → (is_boundary_descendant index candidate ancestor ≡ true) ↔ Inside index ancestor candidate
unfolding is_boundary_descendant Searched
is_boundary_descendant_iff index candidate ancestor = (
  λ h. elim (Option-cases answer) [
    | inl p ↦ absurd (ground (arith, p, h))
    | inr (b, p) ↦
        descends_sound fuel index [] ancestor candidate
          (p ∙ ap some (sym (ap (λ z. elim z [ none ↦ false | some c ↦ c ]) p) ∙ h))
  ],
  λ i. elim (Option-cases answer) [
    | inl p ↦ absurd (
        descends-answers fuel index [] ancestor candidate
          (omega (
            arith,
            room_le (map FlowBoundary.id index.boundaries) [],
            length-map FlowBoundary.id index.boundaries,
          ))
          p)
    | inr (true, p) ↦ ap (λ z. elim z [ none ↦ false | some c ↦ c ]) p
    | inr (false, p) ↦
        absurd (
          descends_complete fuel index [] ancestor candidate (λ u m. absurd (ground (arith, m))) p
            i)
  ],
)
  where
    fuel : ℕ
    fuel = suc (suc (length index.boundaries))

    answer : Option Bool
    answer = descends fuel index [] ancestor candidate
