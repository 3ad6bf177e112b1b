-- ===== src/Flow/Graph/Walks.antt =====
-- Walks in the graph that `_has_dependency_cycle` searches, and what `visit` answering "cyclic" means.
use hedloom.Base.{
  ℕ, zero, suc, String, true, ◌≡◌, refl, List, [], ◌∷◌, ◌⊎◌, inl, inr, arith, eq_iff, Bool-cases,
  length,
}
use hedloom.Flow.Graph.{
  mem, Pairs, targets, Visit, cyclic, done, exhausted, visit_each, visit, visit_all,
}

-- An edge of the graph.
abbrev pub Edge : Pairs → String → String → Type 0
Edge ps x y = mem y (targets ps x) ≡ true

-- A walk of at least one edge.
pub data Walk (ps : Pairs) : String → String → Type 0 where
  one : {x y : String} → Edge ps x y → Walk ps x y
  more : {x y z : String} → Edge ps x y → Walk ps y z → Walk ps x z

pub Walk-snoc : (ps : Pairs) {x y z : String} → Walk ps x y → Edge ps y z → Walk ps x z
Walk-snoc ps (Walk.one e) f = Walk.more e (Walk.one f)
Walk-snoc ps (Walk.more e w) f = Walk.more e (Walk-snoc ps w f)

pub mem_head : (x : String) (xs : List String) → mem x (x ∷ xs) ≡ true
mem_head x xs = ground (arith, eq_iff x x)

pub mem_tail : (x y : String) (xs : List String) → mem x xs ≡ true → mem x (y ∷ xs) ≡ true
mem_tail x y xs h = ground arith

pub mem-cases :
    (x y : String) (xs : List String) → mem x (y ∷ xs) ≡ true → (x ≡ y) ⊎ (mem x xs ≡ true)
mem-cases x y xs h = ground (arith, eq_iff y x)

-- From every vertex of the stack a walk leads to `v`.
abbrev Leads : Pairs → List String → String → Type 0
Leads ps visiting v = (u : String) → mem u visiting ≡ true → Walk ps u v

abbrev Closed : Pairs → Type 0
Closed ps = (x : String) × Walk ps x x

Leads-below :
    (ps : Pairs) (visiting : List String) (v t : String)
    → Leads ps visiting v
    → Edge ps v t
    → Leads ps (v ∷ visiting) t
Leads-below ps visiting v t h e u m = elim (mem-cases u v visiting m) [
  | inl p ↦ rw p (Walk.one e)
  | inr m' ↦ Walk-snoc ps (h u m') e
]

pub Visit-cases :
    (o : Visit) → (o ≡ cyclic) ⊎ ((((vs : List String) × (o ≡ done vs)) ⊎ (o ≡ exhausted)))
Visit-cases cyclic = inl refl
Visit-cases (done vs) = inr (inl (vs, refl))
Visit-cases exhausted = inr (inr refl)

each-cyclic :
    (ps : Pairs) (f : String → List String → Visit)
    → (P : String → Type 0) → ((t : String) (vs : List String) → P t → f t vs ≡ cyclic → Closed ps)
    → (ts : List String) → ((t : String) → mem t ts ≡ true → P t)
    → (vs : List String) → visit_each f ts vs ≡ cyclic
    → Closed ps
each-cyclic ps f P closes [] hp vs h = absurd (ground arith)
each-cyclic ps f P closes (t ∷ ts) hp vs h = elim (Visit-cases (f t vs)) [
  | inl p ↦ closes t vs (hp t (mem_head t ts)) p
  | inr (inl (ws, p)) ↦
      each-cyclic ps f P closes ts (λ u m. hp u (mem_tail u t ts m)) ws (ground (arith, p))
  | inr (inr p) ↦ absurd (ground (arith, p))
]

visit-cyclic :
    (k : ℕ) (ps : Pairs) (visiting : List String) (v : String) (vs : List String)
    → Leads ps visiting v
    → visit k ps visiting v vs ≡ cyclic
    → Closed ps
unfolding visit
visit-cyclic zero ps visiting v vs h e = absurd (ground arith)
visit-cyclic (suc k) ps visiting v vs h e = elim (Bool-cases (mem v visiting)) [
  | inl m ↦ (v, h v m)
  | inr m ↦ elim (Bool-cases (mem v vs)) [
    | inl m' ↦ absurd (ground (arith, m, m'))
    | inr m' ↦
        each-cyclic ps (visit k ps (v ∷ visiting)) (λ t. Leads ps (v ∷ visiting) t)
          (λ t ws l p. visit-cyclic k ps (v ∷ visiting) t ws l p) (targets ps v)
          (λ t e. Leads-below ps visiting v t h e) vs (ground (arith, m, m'))
  ]
]

no_stack : (ps : Pairs) (v : String) → Leads ps [] v
no_stack ps v u m = absurd (ground arith)

-- The search answers "cyclic" only where a walk returns to its start.
pub visit_all-cyclic :
    (ps : Pairs) (vs : List String) → visit_all ps vs ≡ cyclic → (x : String) × Walk ps x x
unfolding visit_all
visit_all-cyclic ps vs h =
    each-cyclic ps (visit (suc (length vs)) ps []) (λ t. Unit {0})
      (λ t ws l p. visit-cyclic (suc (length vs)) ps [] t ws (no_stack ps t) p) vs (λ t m. tt) [] h
