-- ===== src/Flow/Graph/Decides.antt =====
-- The search of `_has_dependency_cycle` always answers, and its answer is right.
use hedloom.Base.{
  ℕ, zero, suc, ◌≤◌, ◌<◌, String, true, false, ◌≡◌, ◌≢◌, ◌↔◌, List, [], ◌∷◌, inl, inr, not, arith,
  eq_iff, Bool-cases, count, length, refl, subst,
}
use hedloom.Flow.Graph.{
  mem, Pairs, targets, Visit, done, exhausted, visit_each, visit, visit_all, has_dependency_cycle,
}
use hedloom.Flow.Graph.Walks.{
  Edge, Walk, mem_head, mem_tail, mem-cases, Visit-cases, visit_all-cyclic,
}
use hedloom.Flow.Graph.Ranked.{Left, each-Leaves, visit-Leaves, Ranked-acyclic}

-- Every edge leads to a vertex, as every key of `adjacency` is one.
abbrev pub IsGraph : List String → Pairs → Type 0
IsGraph vs ps = (x y : String) → Edge ps x y → (mem x vs ≡ true) × (mem y vs ≡ true)

-- The vertices off the stack.
abbrev pub room : List String → List String → ℕ
room vs visiting = count (λ x. not (mem x visiting)) vs

pub room_le : (vs visiting : List String) → room vs visiting ≤ length vs
room_le [] visiting = omega arith
room_le (v ∷ vs) visiting = ground (arith, room_le vs visiting)

pub room_shrinks :
    (vs visiting : List String) (v : String) → room vs (v ∷ visiting) ≤ room vs visiting
room_shrinks [] visiting v = omega arith
room_shrinks (w ∷ vs) visiting v = ground (arith, room_shrinks vs visiting v, eq_iff v w)

pub room_less :
    (vs visiting : List String) (v : String)
    → mem v vs ≡ true
    → mem v visiting ≡ false
    → room vs (v ∷ visiting) < room vs visiting
room_less [] visiting v m n = absurd (ground (arith, m))
room_less (w ∷ vs) visiting v m n = elim (mem-cases v w vs m) [
  | inl p ↦
      subst (λ z. room (z ∷ vs) (v ∷ visiting) < room (z ∷ vs) visiting) p
        (ground (arith, room_shrinks vs visiting v, n, eq_iff v v))
  | inr m' ↦ ground (arith, room_less vs visiting v m' n, room_shrinks vs visiting v)
]

each-answers :
    (f : String → List String → Visit) (ts ws : List String)
    → ((t : String) (ws : List String) → mem t ts ≡ true → f t ws ≢ exhausted)
    → visit_each f ts ws ≢ exhausted
each-answers f [] ws h e = absurd (ground (arith, e))
each-answers f (t ∷ ts) ws h e = elim (Visit-cases (f t ws)) [
  | inl p ↦ absurd (ground (arith, p, e))
  | inr (inl (us, p)) ↦
      each-answers f ts us (λ u zs m. h u zs (mem_tail u t ts m)) (ground (arith, p, e))
  | inr (inr p) ↦ h t ws (mem_head t ts) p
]

visit-answers :
    (k : ℕ) (vs : List String) (ps : Pairs)
    → IsGraph vs ps
    → (visiting : List String) → room vs visiting < k
    → (v : String) (ws : List String) → mem v vs ≡ true
    → visit k ps visiting v ws ≢ exhausted
unfolding visit
visit-answers zero vs ps g visiting h v ws m e = absurd (omega arith)
visit-answers (suc k) vs ps g visiting h v ws m e = elim (Bool-cases (mem v visiting)) [
  | inl n ↦ absurd (ground (arith, n, e))
  | inr n ↦ elim (Bool-cases (mem v ws)) [
    | inl n' ↦ absurd (ground (arith, n, n', e))
    | inr n' ↦ elim (Visit-cases (visit_each (visit k ps (v ∷ visiting)) (targets ps v) ws)) [
      | inl p ↦ absurd (ground (arith, n, n', p, e))
      | inr (inl (us, p)) ↦ absurd (ground (arith, n, n', p, e))
      | inr (inr p) ↦
          each-answers (visit k ps (v ∷ visiting)) (targets ps v) ws
            (λ t zs m'.
              visit-answers k vs ps g (v ∷ visiting) (omega (arith, room_less vs visiting v m n)) t
                zs (g v t m').1)
            p
    ]
  ]
]

-- The search of a graph always answers: one more level than there are vertices is enough.
pub visit_all-answers :
    (vs : List String) (ps : Pairs) → IsGraph vs ps → visit_all ps vs ≢ exhausted
unfolding visit_all
visit_all-answers vs ps g =
    each-answers (visit (suc (length vs)) ps []) vs []
      λ t ws m. visit-answers (suc (length vs)) vs ps g [] (omega (arith, room_le vs [])) t ws m

-- What the search leaves for good when it finds no cycle.
pub visit_all-Left :
    (vs ws : List String) (ps : Pairs) → visit_all ps vs ≡ done ws → Left ps [] vs [] ws
unfolding visit_all
visit_all-Left vs ws ps h =
    each-Leaves ps [] (visit (suc (length vs)) ps []) (visit-Leaves (suc (length vs)) ps []) vs []
      ws tt (λ u m. refl) h

Walk-starts :
    (vs : List String) (ps : Pairs) → IsGraph vs ps → {x y : String} → Walk ps x y → mem x vs ≡ true
Walk-starts vs ps g (Walk.one {x} {y} e) = (g x y e).0
Walk-starts vs ps g (Walk.more {x} {y} e w) = (g x y e).0

pub cycle_found :
    (vs : List String) (ps : Pairs) → has_dependency_cycle vs ps ≡ true → (x : String) × Walk ps x x
unfolding has_dependency_cycle
cycle_found vs ps h = elim (Visit-cases (visit_all ps vs)) [
  | inl p ↦ visit_all-cyclic ps vs p
  | inr (inl (ws, p)) ↦ absurd (ground (arith, p, h))
  | inr (inr p) ↦ absurd (ground (arith, p, h))
]

pub no_cycle_found :
    (vs : List String) (ps : Pairs)
    → IsGraph vs ps
    → has_dependency_cycle vs ps ≡ false
    → (ws : List String) × Left ps [] vs [] ws
unfolding has_dependency_cycle
no_cycle_found vs ps g h = elim (Visit-cases (visit_all ps vs)) [
  | inl p ↦ absurd (ground (arith, p, h))
  | inr (inl (ws, p)) ↦ (ws, visit_all-Left vs ws ps p)
  | inr (inr p) ↦ absurd (visit_all-answers vs ps g p)
]

-- Where every edge joins two of the vertices, the search of `_has_dependency_cycle` ends, and it decides
-- whether some walk returns to its start. The interpreter's limit on recursion is left aside.
pub has_dependency_cycle_iff :
    (vs : List String) (ps : Pairs)
    → IsGraph vs ps
    → (visit_all ps vs ≢ exhausted)
      × ((has_dependency_cycle vs ps ≡ true) ↔ ((x : String) × Walk ps x x))
has_dependency_cycle_iff vs ps g = (
  visit_all-answers vs ps g,
  (
    cycle_found vs ps,
    λ w. elim (Bool-cases (has_dependency_cycle vs ps)) [
      | inl p ↦ p
      | inr p ↦
          let found = no_cycle_found vs ps g p in
          absurd (
            Ranked-acyclic ps found.0 found.1.ranked w.0
              (found.1.reached w.0 (Walk-starts vs ps g w.1)) w.1)
    ],
  ),
)
