-- ===== src/Flow/Contracts/Examples.antt =====
-- The binding of one file.
use hedloom.Base.{String, ◌≡◌, refl, List, [], ◌∷◌, ◌++◌}
use hedloom.Flow.Contracts.{require, stays_inside, check_binding}
use hedloom.Flow.Contracts.Paths.{destination, accepted_path_stays_inside}
use hedloom.Flow.Text.{names, parts}
use hedloom.Json.{str, Fields, field, end}

abbrev binding : Fields
binding = field "path" (str "out/./a.csv") end

accepted_path_stays_inside_example :
    (below : List String) × (destination ("work" ∷ []) "out/./a.csv" ≡ below ++ ("work" ∷ []))
unfolding check_binding require stays_inside parts names
accepted_path_stays_inside_example =
    accepted_path_stays_inside binding "out/./a.csv" ("work" ∷ []) refl refl
