-- ===== src/Flow/Contracts/Paths.antt =====
-- Where the path of an accepted output leads.
use hedloom.Base.{
  String, Bool, true, false, ◌≡◌, refl, sym, ap, ◌∙◌, some, List, [], ◌∷◌, ◌++◌, append_assoc,
  arith, str_eq, not, ◌&&◌, if◌then◌else◌, Bool-cases, inl, inr,
}
use hedloom.Flow.Contracts.{
  Checked, accepted, require, hashable, path_check, stays_inside, check_binding,
}
use hedloom.Flow.Graph.{mem}
use hedloom.Flow.Text.{names, with_root, is_absolute, parts}
use hedloom.Json.{Json, str, Fields, lookup, get_or}

-- Where a path leads from a directory, both as their names from the innermost outwards; `..` leaves a
-- directory.
abbrev up : List String → List String
up [] = []
up (d ∷ ds) = ds

abbrev pub follow : List String → List String → List String
follow ds [] = ds
follow ds (p ∷ ps) = if str_eq p ".." then follow (up ds) ps else follow (p ∷ ds) ps

follow-below :
    (ds ps : List String)
    → mem ".." ps ≡ false
    → (below : List String) × (follow ds ps ≡ below ++ ds)
follow-below ds [] h = ([], refl)
follow-below ds (p ∷ ps) h = elim (Bool-cases (str_eq p "..")) [
  | inl q ↦ absurd (ground (arith, q, h))
  | inr q ↦
      let rest = follow-below (p ∷ ds) ps (ground (arith, q, h)) in
      (
        rest.0 ++ (p ∷ []),
        ap (λ b. if b then follow (up ds) ps else follow (p ∷ ds) ps) q
            ∙ (rest.1 ∙ sym (append_assoc rest.0 (p ∷ []) ds)),
      )
]

require-accepted :
    (b : Bool) (m : String) (rest : Checked)
    → require b m rest ≡ accepted
    → (b ≡ true) × (rest ≡ accepted)
unfolding require
require-accepted true m rest h = (refl, h)
require-accepted false m rest h = absurd (ground (arith, h))

hashable-accepted : (j : Json) (rest : Checked) → hashable j rest ≡ accepted → rest ≡ accepted
hashable-accepted (Json.arr xs) rest h = absurd (ground (arith, h))
hashable-accepted (Json.obj fs) rest h = absurd (ground (arith, h))
hashable-accepted Json.null rest h = h
hashable-accepted (Json.bool b) rest h = h
hashable-accepted (Json.nat n) rest h = h
hashable-accepted (Json.neg n) rest h = h
hashable-accepted (Json.real s) rest h = h
hashable-accepted (Json.str s) rest h = h

binding-stays :
    (binding : Fields) (path : Json)
    → check_binding binding ≡ accepted
    → lookup "path" binding ≡ some path
    → stays_inside path ≡ true
unfolding check_binding
binding-stays binding path h e =
    let a = hashable-accepted (get_or "identity" (str "producer") binding) _ h in
    let b = require-accepted _ _ _ a in
    let c = require-accepted _ _ _ b.1 in
    let d = require-accepted _ _ _ c.1 in
    let f = require-accepted _ _ _ d.1 in
    let g = require-accepted _ _ _ f.1 in
    let i = hashable-accepted (get_or "filesystem_kind" (str "file") binding) _ g.1 in
    let j = require-accepted _ _ _ i in
    (require-accepted (stays_inside path) "output path must stay inside its workspace" accepted
      (sym (ap path_check e) ∙ j.1)).0

-- Where a path leads from a directory: an absolute one starts at the root.
abbrev pub destination : List String → String → List String
destination ds path = follow (if is_absolute path then [] else ds) (names path)

relative-below :
    (ds : List String) (path : String) (b : Bool)
    → b ≡ false
    → mem ".." (with_root b path) ≡ false
    → (below : List String) × (follow (if b then [] else ds) (names path) ≡ below ++ ds)
relative-below ds path true e h = absurd (ground (arith, e))
relative-below ds path false e h = follow-below ds (names path) h

-- The path of an output whose binding is accepted leads, from whatever workspace, to a place in it.
pub accepted_path_stays_inside :
    (binding : Fields) (path : String) (workspace : List String)
    → check_binding binding ≡ accepted
    → lookup "path" binding ≡ some (str path)
    → (below : List String) × (destination workspace path ≡ below ++ workspace)
unfolding stays_inside parts
accepted_path_stays_inside binding path workspace h e =
    let stays = binding-stays binding (str path) h e in
    relative-below workspace path (is_absolute path) (first _ _ (second _ _ stays))
      (flip _ (second _ _ (second _ _ stays)))
  where
    second : (a b : Bool) → (a && b) ≡ true → b ≡ true
    second true b k = k
    second false b k = absurd (ground (arith, k))

    first : (a b : Bool) → (not a && b) ≡ true → a ≡ false
    first true b k = absurd (ground (arith, k))
    first false b k = refl

    flip : (a : Bool) → not a ≡ true → a ≡ false
    flip true k = absurd (ground (arith, k))
    flip false k = refl
