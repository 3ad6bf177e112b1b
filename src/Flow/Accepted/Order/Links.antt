-- ===== src/Flow/Accepted/Order/Links.antt =====
-- The graph that `_has_dependency_cycle` of flow/src/hedloom_flow/model.py is asked about: its vertices are
-- invocations of the plan, and an edge from an output is in it.
use mathlib.Core.List.{Memᴰ}
use mathlib.Core.List.Memᴰ.{head, tail}
use hedloom.Base.{
  String, Bool, true, false, ◌&&◌, ◌≡◌, refl, sym, ap, subst, ◌∙◌, ◌⊎◌, some, List, [], ◌∷◌, ◌++◌,
  arith, any, find, map, str_eq, eq_iff, Bool-cases, Option-cases, is_some, inl, inr, if◌then◌else◌,
}
use hedloom.Flow.Graph.{mem, Pairs, targets}
use hedloom.Flow.Graph.Decides.{IsGraph}
use hedloom.Flow.Graph.Walks.{Edge, mem-cases}
use hedloom.Flow.Values.{
  Plan, ArtifactReference, source_reference, output_reference, OutputReference, Invocation,
  DependencyEdge,
}
use hedloom.Flow.Check.{Index, first_of_each, invocation_of}
use hedloom.Flow.Check.Edges.{joins, pair_of, dependency_pairs}
use hedloom.Flow.Validate.{index_of, nodes, links}
use hedloom.Flow.Accepted.Distinct.{map-mem}
use hedloom.Flow.Accepted.Resolved.{find-Mem}

-- A key that is met is a key of the dictionary of `_unique_index`.
pub first_of_each-find {ℓ} :
    {A : Type ℓ} (key : A → String) (seen xs : List A) (x : A)
    → Memᴰ x xs
    → (any (λ a. str_eq (key x) (key a)) seen ≡ true)
      ⊎ (is_some (
            find
              (λ a. str_eq (key a) (key x))
              (first_of_each (λ a b. str_eq (key a) (key b)) seen xs))
          ≡ true)
first_of_each-find key seen [] x m = elim m [ ]
first_of_each-find {A = A} key seen (y ∷ ys) x (head e) =
    elim (Bool-cases (any (λ a. str_eq (key y) (key a)) seen)) [
      | inl p ↦ inl (ap (λ z. any (λ a. str_eq (key z) (key a)) seen) e ∙ p)
      | inr p ↦ inr (ground (arith, p, eq_iff (key y) (key x), ap key e))
    ]
first_of_each-find {A = A} key seen (y ∷ ys) x (tail m) =
    elim (Bool-cases (any (λ a. str_eq (key y) (key a)) seen)) [
      | inl p ↦ elim (first_of_each-find key seen ys x m) [
        | inl q ↦ inl q
        | inr q ↦
            inr (ap (λ b. is_some (find hit (if b then rest seen else y ∷ rest (y ∷ seen)))) p ∙ q)
      ]
      | inr p ↦ elim (Bool-cases (str_eq (key y) (key x))) [
        | inl s ↦ inr (ground (arith, p, s))
        | inr s ↦ elim (first_of_each-find key (y ∷ seen) ys x m) [
          | inl q ↦ inl (ground (arith, q, s, eq_iff (key x) (key y), eq_iff (key y) (key x)))
          | inr q ↦ inr (
              ap (λ b. is_some (find hit (if b then rest seen else y ∷ rest (y ∷ seen)))) p
              ∙ (ap (λ b. is_some (if b then some y else find hit (rest (y ∷ seen)))) s ∙ q))
        ]
      ]
    ]
  where
    hit : A → Bool
    hit a = str_eq (key a) (key x)

    rest : List A → List A
    rest s = first_of_each (λ a b. str_eq (key a) (key b)) s ys

pub listed-known :
    (plan : Plan) (v : Invocation)
    → Memᴰ v plan.invocations
    → is_some (invocation_of (index_of plan) v.id) ≡ true
unfolding index_of
listed-known plan v m = elim (first_of_each-find Invocation.id [] plan.invocations v m) [
  | inl p ↦ absurd (ground (arith, p))
  | inr p ↦ p
]

known-node :
    (index : Index) (id : String)
    → is_some (invocation_of index id) ≡ true
    → mem id (map Invocation.id index.invocations) ≡ true
known-node index id h = elim (Option-cases (invocation_of index id)) [
  | inl p ↦ absurd (ground (arith, p, h))
  | inr (v, p) ↦
      let found = find-Mem _ index.invocations p in
      subst (λ z. mem z (map Invocation.id index.invocations) ≡ true) ((eq_iff v.id id).0 found.1)
        (map-mem Invocation.id index.invocations found.0)
]

and_left : (a b : Bool) → (a && b) ≡ true → a ≡ true
and_left true b h = refl
and_left false b h = h

and_right : (a b : Bool) → (a && b) ≡ true → b ≡ true
and_right true b h = h
and_right false b h = cc

step :
    (index : Index) (e : DependencyEdge) (es : List DependencyEdge) {b : Bool}
    → joins index e.source e.target_invocation_id ≡ b
    → dependency_pairs index (e ∷ es)
      ≡ (if b then pair_of e e.source ++ dependency_pairs index es else dependency_pairs index es)
step index e es q =
    ap
      (λ b.
        if b then pair_of e e.source ++ dependency_pairs index es else dependency_pairs index es)
      q

pub and_true : {a b : Bool} → a ≡ true → b ≡ true → (a && b) ≡ true
and_true {a} {b} p q = rw p (rw q refl)

pub listed-node :
    (plan : Plan) (v : Invocation) → Memᴰ v plan.invocations → mem v.id (nodes plan) ≡ true
listed-node plan v m = known-node (index_of plan) v.id (listed-known plan v m)

-- The two ends of a pair of `dependency_pairs`.
ends_known :
    (index : Index) (es : List DependencyEdge) (x y : String)
    → Edge (dependency_pairs index es) x y
    → (is_some (invocation_of index x) ≡ true) × (is_some (invocation_of index y) ≡ true)
ends_known index [] x y h = absurd (ground (arith, h))
ends_known index (e ∷ es) x y h = elim (Bool-cases (joins index e.source e.target_invocation_id)) [
  | inr p ↦ ends_known index es x y (subst (λ z. Edge z x y) (step index e es p) h)
  | inl p ↦
      from e.source p (subst (λ z. Edge z x y) (step index e es p) h) (ends_known index es x y)
]
  where
    from :
        (s : ArtifactReference)
        → joins index s e.target_invocation_id ≡ true
        → Edge (pair_of e s ++ dependency_pairs index es) x y
        → (Edge (dependency_pairs index es) x y
            → (is_some (invocation_of index x) ≡ true) × (is_some (invocation_of index y) ≡ true))
        → (is_some (invocation_of index x) ≡ true) × (is_some (invocation_of index y) ≡ true)
    from (source_reference id) p k f = f k
    from (output_reference r) p k f = elim (Bool-cases (str_eq r.invocation_id x)) [
      | inr q ↦ f (sym (cons_targets q) ∙ k)
      | inl q ↦
          elim (mem-cases y e.target_invocation_id (targets (dependency_pairs index es) x)
            (sym (cons_targets q) ∙ k)) [
              | inr m ↦ f m
              | inl z ↦ (
                ap (λ i. is_some (invocation_of index i)) (sym ((eq_iff r.invocation_id x).0 q))
                    ∙ and_left (is_some (invocation_of index r.invocation_id)) _ p,
                ap (λ i. is_some (invocation_of index i)) z
                    ∙ and_right (is_some (invocation_of index r.invocation_id)) _ p,
              )
            ]
    ]
      where
        cons_targets :
            {b : Bool}
            → str_eq r.invocation_id x ≡ b
            → mem y
                (targets ((r.invocation_id, e.target_invocation_id) ∷ dependency_pairs index es) x)
              ≡ mem y (
                  if b
                  then e.target_invocation_id ∷ targets (dependency_pairs index es) x
                  else targets (dependency_pairs index es) x)
        cons_targets q =
            ap
              (λ b. mem y (
                if b
                then e.target_invocation_id ∷ targets (dependency_pairs index es) x
                else targets (dependency_pairs index es) x))
              q

pub links-IsGraph : (plan : Plan) → IsGraph (nodes plan) (links plan)
unfolding index_of
links-IsGraph plan x y h =
    let known = ends_known (index_of plan) plan.edges x y h in
    (known-node (index_of plan) x known.0, known-node (index_of plan) y known.1)

targets-append :
    (ps qs : Pairs) (x y : String)
    → mem y (targets qs x) ≡ true
    → mem y (targets (ps ++ qs) x) ≡ true
targets-append [] qs x y h = h
targets-append (p ∷ ps) qs x y h = ground (arith, targets-append ps qs x y h)

-- An edge that joins two invocations is searched.
pub linked :
    (index : Index) (es : List DependencyEdge) (e : DependencyEdge) (r : OutputReference)
    → Memᴰ e es
    → e.source ≡ output_reference r
    → joins index (output_reference r) e.target_invocation_id ≡ true
    → Edge (dependency_pairs index es) r.invocation_id e.target_invocation_id
linked index [] e r m s j = elim m [ ]
linked index (f ∷ fs) e r (head q) s j =
    subst (λ z. Edge (dependency_pairs index (z ∷ fs)) r.invocation_id e.target_invocation_id) q
      (ap
          (λ b. mem e.target_invocation_id (
            targets
              (if b
                then pair_of e e.source ++ dependency_pairs index fs
                else dependency_pairs index fs)
              r.invocation_id))
          (ap (λ z. joins index z e.target_invocation_id) s ∙ j)
        ∙ (ap
              (λ z.
                mem e.target_invocation_id
                  (targets (pair_of e z ++ dependency_pairs index fs) r.invocation_id))
              s
            ∙ ground (
              arith,
              eq_iff r.invocation_id r.invocation_id,
              eq_iff e.target_invocation_id e.target_invocation_id,
            )))
linked index (f ∷ fs) e r (tail m) s j =
    elim (Bool-cases (joins index f.source f.target_invocation_id)) [
      | inl p ↦
          subst (λ z. Edge z r.invocation_id e.target_invocation_id) (sym (step index f fs p))
            (targets-append (pair_of f f.source) (dependency_pairs index fs) _ _
              (linked index fs e r m s j))
      | inr p ↦
          subst (λ z. Edge z r.invocation_id e.target_invocation_id) (sym (step index f fs p))
            (linked index fs e r m s j)
    ]
