-- ===== src/Flow/Graph.antt =====
-- `_has_dependency_cycle` of flow/src/hedloom_flow/model.py: a search in depth first over the vertices.
-- `visiting` is the stack of the calls of `visit` and `visited` what has been left for good; both are
-- read by membership only.
pub mod Walks
pub mod Ranked
pub mod Decides
use hedloom.Base.{
  ℕ, zero, suc, String, Bool, true, false, List, [], ◌∷◌, str_eq, if◌then◌else◌, any, length,
}

-- `x in xs`
abbrev pub mem : String → List String → Bool
mem x xs = any (λ y. str_eq y x) xs

-- `(source, target)` of an edge
abbrev pub Pairs : Type 0
Pairs = List (String × String)

-- `adjacency[v]`
abbrev pub targets : Pairs → String → List String
targets [] v = []
targets (p ∷ ps) v = if str_eq p.0 v then p.1 ∷ targets ps v else targets ps v

-- What a call of `visit` did: it met a vertex of the stack, or left the vertices it lists for good.
-- `exhausted` is no answer of the code: the fuel was too small.
pub data Visit : Type 0 where
  cyclic : Visit
  done : List String → Visit
  exhausted : Visit

abbrev leave : String → Visit → Visit
leave v cyclic = cyclic
leave v (done visited) = done (v ∷ visited)
leave v exhausted = exhausted

abbrev pub after : Visit → (List String → Visit) → Visit
after cyclic f = cyclic
after (done visited) f = f visited
after exhausted f = exhausted

-- `any(visit(target) for target in vs)`
abbrev pub visit_each : (String → List String → Visit) → List String → List String → Visit
visit_each visit [] visited = done visited
visit_each visit (v ∷ vs) visited = after (visit v visited) (visit_each visit vs)

unfoldable pub visit : ℕ → Pairs → List String → String → List String → Visit
visit zero ps visiting v visited = exhausted
visit (suc k) ps visiting v visited =
    let below = visit_each (visit k ps (v ∷ visiting)) (targets ps v) visited in
    if mem v visiting then cyclic else if mem v visited then done visited else leave v below

-- The loop over the vertices, the stack empty.
unfoldable pub visit_all : Pairs → List String → Visit
visit_all ps vs = visit_each (visit (suc (length vs)) ps []) vs []

-- `visit_all` is never exhausted where each edge joins two of the vertices, as in a plan.
unfoldable pub has_dependency_cycle : List String → Pairs → Bool
has_dependency_cycle vs ps = elim (visit_all ps vs) [ cyclic ↦ true | _ ↦ false ]
