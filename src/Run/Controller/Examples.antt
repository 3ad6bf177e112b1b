-- ===== src/Run/Controller/Examples.antt =====
-- A run of two invocations of which one depends on the other: the first succeeds, and the second is stopped.
use hedloom.Base.{true, ◌≡◌, refl, List, [], ◌∷◌, some, map}
use hedloom.Run.Binding.{Planned}
use hedloom.Run.Binding.Examples.{planned}
use hedloom.Run.Worker.{Outcome, blocked}
use hedloom.Run.Controller.{
  Progress, submitted, Event, turned, settled, passed, advance, Life, begun, advanced, report,
}
use hedloom.Run.Controller.Reports.{report_is_complete}
use hedloom.Run.Controller.Dependencies.{are_fed, dependencies_come_first}

abbrev maker : Planned
maker = record planned { invocation_id = "invoke:1"; operation = "make"; depends_on = [] }

abbrev success : Outcome
success = record (blocked maker).outcome { disposition = "claimed"; outcome = "succeeded" }

abbrev failure : Outcome
failure = record (blocked planned).outcome { disposition = "claimed"; outcome = "failed" }

-- The run after these events, the last one first.
progress : List Event → Progress
progress [] = submitted (maker ∷ planned ∷ [])
progress (e ∷ es) = let run = progress es in advance true e run

lives : (es : List Event) → Life true (maker ∷ planned ∷ []) (progress es)
unfolding progress
lives [] = begun
lives (e ∷ es) = advanced (lives es) e

abbrev started : List Event
started = turned ∷ settled "invoke:1" success passed ∷ turned ∷ []

abbrev ended : List Event
ended = turned ∷ settled "invoke:2" failure passed ∷ started

started-in_flight : (progress started).in_flight ≡ planned ∷ []
unfolding progress advance
started-in_flight = refl

ended-remaining : (progress ended).remaining ≡ []
unfolding progress advance
ended-remaining = refl

ended-in_flight : (progress ended).in_flight ≡ []
unfolding progress advance
ended-in_flight = refl

ended-stopped : (progress ended).stopped ≡ true
unfolding progress advance
ended-stopped = refl

report_is_complete_example :
    (os : List Outcome) × (report (progress ended) (maker ∷ planned ∷ []) ≡ some os)
    × (map (λ o. o.invocation_id) os ≡ map (λ i. i.invocation_id) (maker ∷ planned ∷ []))
report_is_complete_example = report_is_complete (lives ended) ended-remaining ended-in_flight

dependencies_come_first_example :
    are_fed (progress started).completed (progress started).in_flight ≡ true
dependencies_come_first_example = dependencies_come_first (lives started)
