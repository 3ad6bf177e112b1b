-- ===== src/Flow/Graph/Ranked.antt =====
-- What `visit` leaves for good when it answers "no cycle": a list in which each vertex stands before all
-- its targets, once. From such a list no walk returns to its start.
use hedloom.Base.{
  ℕ, zero, suc, String, true, false, ◌≡◌, sym, subst, List, [], ◌∷◌, inl, inr, arith, str_eq,
  eq_iff, Bool-cases,
}
use hedloom.Flow.Graph.{mem, Pairs, targets, Visit, done, visit_each, visit}
use hedloom.Flow.Graph.Walks.{Edge, Walk, mem_head, mem_tail, mem-cases, Visit-cases}

-- Each vertex stands once, and all its targets after it.
abbrev pub Ranked : Pairs → List String → Type 0
Ranked ps [] = Unit
Ranked ps (v ∷ vs) =
    (mem v vs ≡ false) × ((y : String) → Edge ps v y → mem y vs ≡ true) × Ranked ps vs

-- Nothing of the stack was left for good.
abbrev pub Apart : List String → List String → Type 0
Apart visiting vs = (u : String) → mem u visiting ≡ true → mem u vs ≡ false

abbrev pub Within : List String → List String → Type 0
Within vs ws = (u : String) → mem u vs ≡ true → mem u ws ≡ true

-- What a search of the vertices `ts` that left `vs` before and `ws` after has done.
pub record Left (ps : Pairs) (visiting ts vs ws : List String) : Type 0 where
  pub ranked : Ranked ps ws
  pub apart : Apart visiting ws
  pub reached : Within ts ws
  pub kept : Within vs ws

abbrev pub Leaves : Pairs → List String → (String → List String → Visit) → Type 0
Leaves ps visiting f =
    (t : String) (vs ws : List String)
    → Ranked ps vs
    → Apart visiting vs
    → f t vs ≡ done ws
    → Left ps visiting (t ∷ []) vs ws

done_inj : {vs ws : List String} → done vs ≡ done ws → vs ≡ ws
done_inj h = cc

Apart-below :
    (visiting vs : List String) (v : String)
    → Apart visiting vs
    → mem v vs ≡ false
    → Apart (v ∷ visiting) vs
Apart-below visiting vs v h m u n = elim (mem-cases u v visiting n) [
  | inl p ↦ rw p m
  | inr n' ↦ h u n'
]

Apart-above :
    (visiting ws : List String) (v : String)
    → Apart (v ∷ visiting) ws
    → mem v visiting ≡ false
    → Apart visiting (v ∷ ws)
Apart-above visiting ws v h m u n = elim (Bool-cases (str_eq v u)) [
  | inl p ↦ absurd (grind (arith, eq_iff v u, p, m, n))
  | inr p ↦ ground (arith, p, h u (mem_tail u v visiting n))
]

pub each-Leaves :
    (ps : Pairs) (visiting : List String) (f : String → List String → Visit)
    → Leaves ps visiting f
    → (ts vs ws : List String) → Ranked ps vs
    → Apart visiting vs
    → visit_each f ts vs ≡ done ws
    → Left ps visiting ts vs ws
each-Leaves ps visiting f leaves [] vs ws r a h =
    rw (sym (done_inj h)) (record {
      ranked = r;
      apart = a;
      reached = λ u m. absurd (ground (arith, m));
      kept = λ u m. m;
    })
each-Leaves ps visiting f leaves (t ∷ ts) vs ws r a h = elim (Visit-cases (f t vs)) [
  | inl p ↦ absurd (ground (arith, p))
  | inr (inr p) ↦ absurd (ground (arith, p))
  | inr (inl (us, p)) ↦
      let first = leaves t vs us r a p in
      let rest =
        each-Leaves ps visiting f leaves ts us ws first.ranked first.apart (ground (arith, p)) in
      record {
        ranked = rest.ranked;
        apart = rest.apart;
        reached = λ u m. elim (mem-cases u t ts m) [
          | inl q ↦ rest.kept u (first.reached u (rw q (mem_head t [])))
          | inr m' ↦ rest.reached u m'
        ];
        kept = λ u m. rest.kept u (first.kept u m);
      }
]

-- A vertex whose targets were all left for good is left itself.
Left-leave :
    (ps : Pairs) (visiting : List String) (v : String) (vs us : List String)
    → mem v visiting ≡ false
    → Left ps (v ∷ visiting) (targets ps v) vs us
    → Left ps visiting (v ∷ []) vs (v ∷ us)
Left-leave ps visiting v vs us m l = record {
  ranked = (l.apart v (mem_head v visiting), l.reached, l.ranked);
  apart = Apart-above visiting us v l.apart m;
  reached = λ u n. elim (mem-cases u v [] n) [
    | inl p ↦ subst (λ z. mem z (v ∷ us) ≡ true) (sym p) (mem_head v us)
    | inr n' ↦ absurd (ground (arith, n'))
  ];
  kept = λ u n. mem_tail u v us (l.kept u n);
}

stays :
    (ps : Pairs) (visiting : List String) (v : String) (vs : List String)
    → Ranked ps vs
    → Apart visiting vs
    → mem v vs ≡ true
    → Left ps visiting (v ∷ []) vs vs
stays ps visiting v vs r a m = record {
  ranked = r;
  apart = a;
  reached =
      λ u n. elim (mem-cases u v [] n) [ inl p ↦ rw p m | inr n' ↦ absurd (ground (arith, n')) ];
  kept = λ u n. n;
}

pub visit-Leaves :
    (k : ℕ) (ps : Pairs) (visiting : List String) → Leaves ps visiting (visit k ps visiting)
unfolding visit
visit-Leaves zero ps visiting v vs ws r a h = absurd (ground (arith, h))
visit-Leaves (suc k) ps visiting v vs ws r a h = elim (Bool-cases (mem v visiting)) [
  | inl m ↦ absurd (ground (arith, m))
  | inr m ↦ elim (Bool-cases (mem v vs)) [
    | inl m' ↦
        subst (λ z. Left ps visiting (v ∷ []) vs z) (done_inj (ground (arith, m, m')))
          (stays ps visiting v vs r a m')
    | inr m' ↦ elim (Visit-cases (visit_each (visit k ps (v ∷ visiting)) (targets ps v) vs)) [
      | inl p ↦ absurd (ground (arith, m, m', p))
      | inr (inr p) ↦ absurd (ground (arith, m, m', p))
      | inr (inl (us, p)) ↦
          subst (λ z. Left ps visiting (v ∷ []) vs z)
            (done_inj {vs = v ∷ us} (ground (arith, m, m', p)))
            (Left-leave ps visiting v vs us m (
              each-Leaves ps (v ∷ visiting) (visit k ps (v ∷ visiting))
                (visit-Leaves k ps (v ∷ visiting)) (targets ps v) vs us r
                (Apart-below visiting vs v a m') p))
    ]
  ]
]

Ranked-Edge :
    (ps : Pairs) (ws : List String)
    → Ranked ps ws
    → (x y : String) → mem x ws ≡ true
    → Edge ps x y
    → mem y ws ≡ true
Ranked-Edge ps [] r x y m e = absurd (ground (arith, m))
Ranked-Edge ps (w ∷ ws) r x y m e = elim (mem-cases x w ws m) [
  | inl p ↦ mem_tail y w ws (r.1 y (subst (λ z. Edge ps z y) p e))
  | inr m' ↦ mem_tail y w ws (Ranked-Edge ps ws r.2 x y m' e)
]

Ranked-Walk :
    (ps : Pairs) (ws : List String)
    → Ranked ps ws
    → {x y : String} → Walk ps x y
    → mem x ws ≡ true
    → mem y ws ≡ true
Ranked-Walk ps ws r (Walk.one {x} {y} e) m = Ranked-Edge ps ws r x y m e
Ranked-Walk ps ws r (Walk.more {x} {y} e w) m = Ranked-Walk ps ws r w (Ranked-Edge ps ws r x y m e)

-- A walk from the first vertex ends after it.
Walk-leaves :
    (ps : Pairs) (w : String) (ws : List String)
    → Ranked ps (w ∷ ws)
    → {x y : String} → Walk ps x y
    → x ≡ w
    → mem y ws ≡ true
Walk-leaves ps w ws r (Walk.one {x} {y} e) p = r.1 y (subst (λ z. Edge ps z y) p e)
Walk-leaves ps w ws r (Walk.more {x} {y} e f) p =
    Ranked-Walk ps ws r.2 f (r.1 y (subst (λ z. Edge ps z y) p e))

pub Ranked-acyclic :
    (ps : Pairs) (ws : List String) → Ranked ps ws → (x : String) → mem x ws ≡ true → ¬ Walk ps x x
Ranked-acyclic ps [] r x m w = absurd (ground (arith, m))
Ranked-acyclic ps (v ∷ ws) r x m w = elim (mem-cases x v ws m) [
  | inl p ↦ absurd (grind (arith, Walk-leaves ps v ws r w p, r.0, p))
  | inr m' ↦ Ranked-acyclic ps ws r.2 x m' w
]
