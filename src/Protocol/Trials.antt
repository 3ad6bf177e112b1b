-- ===== src/Protocol/Trials.antt =====
-- An ephemeral execution, and a first launch over a substrate that accepts it.
use hedloom.Base.{◌≡◌, refl, String, none, [], ◌∷◌}
use hedloom.Json.{nat, Fields, field, end}
use hedloom.Result.{ok}
use hedloom.Transport.InProcess.{Results, forget, result_of}
use hedloom.Attempt.Launch.{LaunchResult, launch_or_attach}
use hedloom.Durability.{execute_ephemeral}
use hedloom.Durability.Ephemeral.{in_this_process, ephemeral_leaves_nothing}
use hedloom.Protocol.{untouched}
use hedloom.Protocol.Progress.{accepting, first_launch_claims}
use hedloom.Protocol.Examples.{doubling, local, request}

ephemeral_leaves_nothing_example :
    result_of "key"
      (execute_ephemeral
        (in_this_process local doubling (λ s. s) "key" request)
        forget
        "key"
        request
        []).1
    ≡ none
ephemeral_leaves_nothing_example =
    ephemeral_leaves_nothing local doubling (λ s. s) "key" request [] refl

abbrev receipt : String → Fields → Results → Fields
receipt name bundle rs = field "job_id" (nat 7) end

abbrev unchanged : String → Fields → Results → Results
unchanged name bundle rs = rs

first_launch_claims_example :
    (r : LaunchResult) × ((launch_or_attach
        (accepting local receipt unchanged)
        request
        none
        (untouched [])).0
      ≡ ok r)
    × (r.disposition ≡ "claimed")
    × ((launch_or_attach
          (accepting local receipt unchanged)
          request
          none
          (untouched [])).1.submissions
        ≡ 0 ∷ [])
first_launch_claims_example = first_launch_claims local receipt unchanged request none [] refl
