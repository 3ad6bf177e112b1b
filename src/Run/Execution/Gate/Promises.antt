-- ===== src/Run/Execution/Gate/Promises.antt =====
-- What the gate of run/src/hedloom_run/execution.py promises in any life of a dispatch reference.
use hedloom.Base.{◌≤◌, String, true, false, ◌≡◌, sym, ◌∙◌, List, arith, count, any}
use hedloom.Run.Execution.{Directory, Admission, ready, entered, cancelled, finished}
use hedloom.Run.Execution.Gate.{Life, created, called, Event, admits, confirms, Told, Truthful}
use hedloom.Run.Execution.Gate.Kept.{perform-Truthful, created-Truthful}

Life-Truthful :
    {identifier : String} {d : Directory} {es : List Event} → Life identifier d es → Truthful d es
Life-Truthful {identifier} created = created-Truthful identifier
Life-Truthful {identifier} (called {d} {es} l c heard) =
    perform-Truthful identifier c heard d es (Life-Truthful l)

Told-once : (a : Admission) (es : List Event) → Told a es → count admits es ≤ 1
Told-once ready es t = omega (arith, t.0)
Told-once cancelled es t = omega (arith, t)
Told-once entered es t = t.0
Told-once finished es t = t.0

false≢true : false ≡ true → ⊥
false≢true e = cc

Told-either :
    (a : Admission) (es : List Event) → Told a es → any confirms es ≡ true → count admits es ≡ 0
Told-either ready es t h = t.0
Told-either cancelled es t h = t
Told-either entered es t h = absurd (false≢true (sym t.1 ∙ h))
Told-either finished es t h = absurd (false≢true (sym t.1 ∙ h))

-- In any life of a dispatch reference, whoever calls its methods and in whatever order, killed callers
-- included, `enter` tells at most one caller to execute.
pub enters_at_most_once :
    {identifier : String} {d : Directory} {es : List Event}
    → Life identifier d es
    → count admits es ≤ 1
enters_at_most_once {es} l = let k = Life-Truthful l in Told-once k.admission es k.told

-- In the same lives, where `cancel_before_start` has confirmed to some caller, `enter` has told none to
-- execute, before or after.
pub cancelled_never_enters :
    {identifier : String} {d : Directory} {es : List Event}
    → Life identifier d es
    → any confirms es ≡ true
    → count admits es ≡ 0
cancelled_never_enters {es} l h = let k = Life-Truthful l in Told-either k.admission es k.told h
