-- ===== src/Flow/Accepted/Forest.antt =====
-- Flow boundaries: `_check_boundary_cycles` and `_is_boundary_descendant` of flow/src/hedloom_flow/model.py
-- follow the parents of a boundary to their end.
pub mod Descent
use mathlib.Core.List.{Memᴰ}
use mathlib.Core.List.Memᴰ.{head, tail}
use hedloom.Base.{
  ℕ, zero, suc, ◌<◌, String, Bool, true, false, not, ◌≡◌, ◌≢◌, ◌⊎◌, refl, sym, ap, subst, ◌∙◌,
  Option, none, some, List, [], ◌∷◌, arith, map, length, find, str_eq, eq_iff, Bool-cases,
  Option-cases, is_some, inl, inr, any, length-map,
}
use hedloom.Flow.Graph.{mem}
use hedloom.Flow.Graph.Decides.{room, room_le, room_less}
use hedloom.Flow.Values.{Plan, FlowBoundary, same_flow}
use hedloom.Flow.Check.{
  Index, boundary_of, issue_if, root, under, called, nth, boundary_cycle, unknown_flow,
  unknown_parent_boundary,
}
use hedloom.Flow.Check.Boundaries.{
  Climb, ends, loops, exhausted, climb, climb_from, is_loop, cycle_issues, boundary_issues, is_lost,
}
use hedloom.Flow.Validate.{index_of, valid, validate}
use hedloom.Flow.Accepted.{append-nil-inv, issue_if-nil, each-nil, Accepted, validate-Accepted}
use hedloom.Flow.Accepted.Distinct.{map-mem}
use hedloom.Flow.Accepted.Order.Links.{first_of_each-find}
use hedloom.Flow.Accepted.Resolved.{find-Mem, first_of_each-Mem}

-- The parents of a boundary, up to one that has none.
pub data Rooted (index : Index) : Option String → Type 0 where
  top : Rooted index none
  up :
      {id : String} {b : FlowBoundary}
      → boundary_of index id ≡ some b
      → Rooted index b.parent_id
      → Rooted index (some id)

Climb-cases : (c : Climb) → (c ≡ ends) ⊎ ((c ≡ loops) ⊎ (c ≡ exhausted))
Climb-cases ends = inl refl
Climb-cases loops = inr (inl refl)
Climb-cases exhausted = inr (inr refl)

pub boundary-named :
    (index : Index) (id : String) {b : FlowBoundary}
    → boundary_of index id ≡ some b
    → Memᴰ b index.boundaries × (mem id (map FlowBoundary.id index.boundaries) ≡ true)
boundary-named index id {b} h =
    let found = find-Mem _ index.boundaries h in
    (
      found.0,
      subst (λ z. mem z (map FlowBoundary.id index.boundaries) ≡ true) ((eq_iff b.id id).0 found.1)
          (map-mem FlowBoundary.id index.boundaries found.0),
    )

-- One turn of the loop.
climb_step :
    (k : ℕ) (index : Index) (visited : List String) (id : String) {b : FlowBoundary}
    → boundary_of index id ≡ some b
    → mem id visited ≡ false
    → climb (suc k) index visited (some id) ≡ climb k index (id ∷ visited) b.parent_id
unfolding climb
climb_step k index visited id p q = ground (arith, p, q)

-- The loop always ends: there are no more turns than boundaries.
climb-answers :
    (k : ℕ) (index : Index) (visited : List String) (cursor : Option String)
    → room (map FlowBoundary.id index.boundaries) visited < k
    → climb k index visited cursor ≢ exhausted
unfolding climb
climb-answers zero index visited cursor h e = absurd (omega arith)
climb-answers (suc k) index visited none h e = absurd (ground (arith, e))
climb-answers (suc k) index visited (some id) h e = elim (Option-cases (boundary_of index id)) [
  | inl p ↦ absurd (ground (arith, p, e))
  | inr (b, p) ↦ elim (Bool-cases (mem id visited)) [
    | inl q ↦ absurd (ground (arith, p, q, e))
    | inr q ↦
        let known = (boundary-named index id p).1 in
        climb-answers k index (id ∷ visited) b.parent_id
          (omega (arith, room_less _ visited id known q))
          (sym (climb_step k index visited id p q) ∙ e)
  ]
]

-- No parent is missing.
Complete : Index → Type 0
Complete index = (b : FlowBoundary) → Memᴰ b index.boundaries → is_lost index b.parent_id ≡ false

climb-ends :
    (k : ℕ) (index : Index) (visited : List String) (cursor : Option String)
    → Complete index
    → is_lost index cursor ≡ false
    → climb k index visited cursor ≡ ends
    → Rooted index cursor
unfolding climb Complete
climb-ends zero index visited cursor c h e = absurd (ground (arith, e))
climb-ends (suc k) index visited none c h e = Rooted.top
climb-ends (suc k) index visited (some id) c h e = elim (Option-cases (boundary_of index id)) [
  | inl p ↦ absurd (ground (arith, p, h))
  | inr (b, p) ↦ elim (Bool-cases (mem id visited)) [
    | inl q ↦ absurd (ground (arith, p, q, e))
    | inr q ↦ Rooted.up p (
        climb-ends k index (id ∷ visited) b.parent_id c (c b (boundary-named index id p).0)
          (sym (climb_step k index visited id p q) ∙ e))
  ]
]

cycle_issues-nil :
    (index : Index) (bs : List FlowBoundary)
    → cycle_issues index bs ≡ []
    → (b : FlowBoundary) → Memᴰ b bs
    → is_loop (climb_from index b.id) ≡ false
unfolding climb
cycle_issues-nil index [] h b m = elim m [ ]
cycle_issues-nil index (c ∷ cs) h b (head q) =
    ap (λ z. is_loop (climb_from index z.id)) q
    ∙ issue_if-nil _ boundary_cycle (called (root "boundaries") c.id)
        (append-nil-inv
          (issue_if (is_loop (climb_from index c.id)) boundary_cycle
            (called (root "boundaries") c.id))
          _ h).0
cycle_issues-nil index (c ∷ cs) h b (tail m) =
    cycle_issues-nil index cs
      (append-nil-inv
        (issue_if (is_loop (climb_from index c.id)) boundary_cycle
          (called (root "boundaries") c.id))
        _ h).1
      b m

index_of-listed :
    (plan : Plan) (b : FlowBoundary) → Memᴰ b (index_of plan).boundaries → Memᴰ b plan.boundaries
unfolding index_of
index_of-listed plan b m = first_of_each-Mem _ [] plan.boundaries m

Accepted-Complete :
    (sha256 : String → String) (plan : Plan) → Accepted sha256 plan → Complete (index_of plan)
unfolding Complete
Accepted-Complete sha256 plan a b m =
    let at =
      each-nil 0 (boundary_issues (index_of plan)) plan.boundaries a.boundaries
        (index_of-listed plan b m) in
    let path = nth (root "boundaries") at.0 in
    let flow =
      append-nil-inv
        (issue_if (not (any (λ f. same_flow f.identity b.flow) (index_of plan).flows)) unknown_flow
          (under path "flow"))
        _ at.1 in
    let parent =
      append-nil-inv
        (issue_if (is_lost (index_of plan) b.parent_id) unknown_parent_boundary
          (under path "parent_id"))
        _ flow.1 in
    issue_if-nil _ unknown_parent_boundary (under path "parent_id") parent.0

index_of-boundary :
    (plan : Plan) (b : FlowBoundary)
    → Memᴰ b plan.boundaries
    → is_some (boundary_of (index_of plan) b.id) ≡ true
unfolding index_of
index_of-boundary plan b m = elim (first_of_each-find FlowBoundary.id [] plan.boundaries b m) [
  | inl p ↦ absurd (ground (arith, p))
  | inr p ↦ p
]

-- In a plan that validates the chain of the parents of each boundary ends at a boundary without a parent.
pub valid_boundaries_are_rooted :
    (sha256 : String → String) (plan result : Plan)
    → validate sha256 plan ≡ valid result
    → (b : FlowBoundary) → Memᴰ b plan.boundaries
    → Rooted (index_of plan) (some b.id)
unfolding Complete
valid_boundaries_are_rooted sha256 plan result h b m =
    let a = validate-Accepted sha256 plan result h in
    let index = index_of plan in
    elim (Option-cases (boundary_of index b.id)) [
      | inl p ↦ absurd (ground (arith, p, index_of-boundary plan b m))
      | inr (c, p) ↦
          let found = find-Mem _ index.boundaries p in
          let same = (eq_iff c.id b.id).0 found.1 in
          let fine = cycle_issues-nil index index.boundaries a.chains c found.0 in
          elim (Climb-cases (climb_from index c.id)) [
            | inr (inl q) ↦ absurd (ground (arith, q, fine))
            | inr (inr q) ↦ absurd (
                climb-answers (suc (length index.boundaries)) index [] (some c.id)
                  (omega (
                    arith,
                    room_le (map FlowBoundary.id index.boundaries) [],
                    length-map FlowBoundary.id index.boundaries,
                  ))
                  q)
            | inl q ↦
                subst (λ z. Rooted index (some z)) same
                  (climb-ends (suc (length index.boundaries)) index [] (some c.id)
                    (Accepted-Complete sha256 plan a)
                    (ap (λ z. not (is_some (boundary_of index z))) same
                      ∙ ap (λ z. not (is_some z)) p)
                    q)
          ]
    ]
