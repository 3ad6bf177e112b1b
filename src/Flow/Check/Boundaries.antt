-- ===== src/Flow/Check/Boundaries.antt =====
-- The checks of flow boundaries in flow/src/hedloom_flow/model.py, `_check_boundary_cycles` and
-- `_is_boundary_descendant`. Each turn of a `while` loop adds a boundary to `visited`, so that the number of
-- boundaries bounds the turns.
use hedloom.Base.{
  ℕ, zero, suc, String, Bool, true, false, not, Option, none, some, List, [], ◌∷◌, ◌++◌, str_eq,
  any, map, length, is_some,
}
use hedloom.Flow.Graph.{mem}
use hedloom.Flow.Values.{FlowBoundary, NamedOutput, same_flow}
use hedloom.Flow.Check.{
  Issue, issue_if, root, under, nth, called, Index, boundary_of, unique_names, opt_eq, unknown_flow,
  unknown_parent_boundary, boundary_cycle, duplicate_boundary_output,
}

-- `boundary.parent_id is not None and boundary.parent_id not in boundaries`
abbrev pub is_lost : Index → Option String → Bool
is_lost index none = false
is_lost index (some id) = not (is_some (boundary_of index id))

abbrev pub boundary_issues : Index → ℕ → FlowBoundary → List Issue
boundary_issues index i b =
    let path = nth (root "boundaries") i in
    issue_if (not (any (λ f. same_flow f.identity b.flow) index.flows)) unknown_flow
      (under path "flow")
    ++ (issue_if (is_lost index b.parent_id) unknown_parent_boundary (under path "parent_id")
        ++ (issue_if (opt_eq b.parent_id (some b.id)) boundary_cycle (under path "parent_id")
            ++ unique_names duplicate_boundary_output (under path "outputs")
                (map NamedOutput.name b.outputs)))

-- How the loop of `_check_boundary_cycles` ends, or that the fuel was too small.
pub data Climb : Type 0 where
  ends loops exhausted : Climb

unfoldable pub climb : ℕ → Index → List String → Option String → Climb
climb zero index visited cursor = exhausted
climb (suc k) index visited none = ends
climb (suc k) index visited (some id) = elim (boundary_of index id) [
  | none ↦ ends
  | some b ↦ elim (mem id visited) [
    | true ↦ loops
    | false ↦ climb k index (id ∷ visited) b.parent_id
  ]
]

abbrev pub is_loop : Climb → Bool
is_loop loops = true
is_loop _ = false

abbrev pub climb_from : Index → String → Climb
climb_from index id = climb (suc (length index.boundaries)) index [] (some id)

-- `_check_boundary_cycles`
abbrev pub cycle_issues : Index → List FlowBoundary → List Issue
cycle_issues index [] = []
cycle_issues index (b ∷ bs) =
    issue_if (is_loop (climb_from index b.id)) boundary_cycle (called (root "boundaries") b.id)
    ++ cycle_issues index bs

abbrev pub parent_of : Option FlowBoundary → Option String
parent_of none = none
parent_of (some b) = b.parent_id

-- The loop of `_is_boundary_descendant`; `none` is fuel that was too small.
unfoldable pub descends : ℕ → Index → List String → String → Option String → Option Bool
descends zero index visited ancestor cursor = none
descends (suc k) index visited ancestor none = some false
descends (suc k) index visited ancestor (some id) = elim (mem id visited) [
  | true ↦ some false
  | false ↦ elim (str_eq id ancestor) [
    | true ↦ some true
    | false ↦ descends k index (id ∷ visited) ancestor (parent_of (boundary_of index id))
  ]
]

-- `_is_boundary_descendant`
unfoldable pub is_boundary_descendant : Index → Option String → String → Bool
is_boundary_descendant index candidate ancestor =
    elim (descends (suc (suc (length index.boundaries))) index [] ancestor candidate) [
      | none ↦ false
      | some b ↦ b
    ]
