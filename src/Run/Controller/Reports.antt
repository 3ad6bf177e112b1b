-- ===== src/Run/Controller/Reports.antt =====
-- A run accounts for each of its invocations.
use mathlib.Core.Option
use hedloom.Base.{
  ℕ, ◌≤◌, String, Bool, true, false, ◌≡◌, refl, ap, ◌∙◌, Option, none, some, List, [], ◌∷◌, str_eq,
  if◌then◌else◌, count, map, all, arith, Bool-cases, inl, inr, eq_iff,
}
use hedloom.Run.Binding.{Planned}
use hedloom.Run.Worker.{Outcome, blocked}
use hedloom.Run.Controller.{
  Progress, take_ready, outcome_at, Delivery, passed, saved, save, block_remaining, skipped, admit,
  turn, settle, turned, stopping, settled, advance, Life, begun, advanced, report, and_report,
  has_succeeded, named_for,
}
use hedloom.Run.Controller.Places.{placed-Life}

-- Each outcome bears the identity of the invocation that it is kept for.
abbrev Named : List (Planned × Outcome) → Type 0
Named [] = Unit
Named (c ∷ cs) = (c.1.invocation_id ≡ c.0.invocation_id) × Named cs

saved-Named :
    (stop : Bool) (i : Planned) (o : Outcome) (e : Option String) (run : Progress)
    → o.invocation_id ≡ i.invocation_id
    → Named run.completed
    → Named (saved stop i o e run).completed
saved-Named stop i o none run h k = (h, k)
saved-Named stop i o (some e) run h k = (h, k)

save-Named :
    (stop : Bool) (i : Planned) (o : Outcome) (delivery : Delivery) (run : Progress)
    → Named run.completed
    → Named (save stop i o delivery run).completed
save-Named stop i o delivery run k = saved-Named stop i (named_for i o) _ run refl k

block_remaining-Named :
    (stop : Bool) (is : List Planned) (run : Progress)
    → Named run.completed
    → Named (block_remaining stop is run).completed
block_remaining-Named stop [] run k = k
block_remaining-Named stop (i ∷ is) run k =
    block_remaining-Named stop is _ (save-Named stop i (blocked i).outcome passed run k)

admit-Named :
    (stop : Bool) (run : Progress) (r : Option (Planned × List Planned))
    → Named run.completed
    → Named (admit stop run r).completed
admit-Named stop run none k = k
admit-Named stop run (some (i, rest)) k = admitting (all (has_succeeded run.completed) i.depends_on)
  where
    admitting :
        (b : Bool)
        → Named
            (if b
              then record run { remaining = rest; in_flight = i ∷ run.in_flight }
              else save stop i (skipped i) passed (record run { remaining = rest })).completed
    admitting true = k
    admitting false = save-Named stop i (skipped i) passed (record run { remaining = rest }) k

turn-Named : (stop : Bool) (run : Progress) → Named run.completed → Named (turn stop run).completed
turn-Named stop run k = turning run.stopped
  where
    turning :
        (b : Bool)
        → Named
            (if b
              then block_remaining stop run.remaining (record run { remaining = [] })
              else admit stop run (take_ready run)).completed
    turning true = block_remaining-Named stop run.remaining (record run { remaining = [] }) k
    turning false = admit-Named stop run (take_ready run) k

settle-Named :
    (stop : Bool) (o : Outcome) (delivery : Delivery) (run : Progress)
    (r : Option (Planned × List Planned))
    → Named run.completed
    → Named (settle stop o delivery run r).completed
settle-Named stop o delivery run none k = k
settle-Named stop o delivery run (some (i, rest)) k =
    save-Named stop i o delivery (record run { in_flight = rest }) k

Life-Named :
    {stop : Bool} {items : List Planned} {run : Progress}
    → Life stop items run
    → Named run.completed
unfolding advance
Life-Named begun = tt
Life-Named {stop} (advanced {run} l turned) = turn-Named stop run (Life-Named l)
Life-Named (advanced l stopping) = Life-Named l
Life-Named {stop} (advanced {run} l (settled v o delivery)) =
    settle-Named stop o delivery run _ (Life-Named l)

-- Where an invocation with this identity is kept, its outcome is found, under that identity.
kept_outcome :
    (v : String) (cs : List (Planned × Outcome))
    → Named cs
    → 1 ≤ count (λ c. str_eq c.0.invocation_id v) cs
    → (o : Outcome) × (outcome_at v cs ≡ some o) × (o.invocation_id ≡ v)
kept_outcome v [] k h = absurd (omega (arith, h))
kept_outcome v (c ∷ cs) k h = elim (Bool-cases (str_eq c.0.invocation_id v)) [
  | inl e ↦ (
    c.1,
    ap (λ b. if b then some c.1 else outcome_at v cs) e,
    k.0 ∙ (eq_iff c.0.invocation_id v).0 e,
  )
  | inr e ↦
      let r = kept_outcome v cs k.1 (ground (arith, e, h)) in
      (r.0, ap (λ b. if b then some c.1 else outcome_at v cs) e ∙ r.1, r.2)
]

reported :
    (is : List Planned) (run : Progress)
    → Named run.completed
    → ((p : Planned → Bool) → count p is ≤ count (λ c. p c.0) run.completed)
    → (os : List Outcome) × (report run is ≡ some os)
      × (map (λ o. o.invocation_id) os ≡ map (λ i. i.invocation_id) is)
reported [] run k h = ([], refl, refl)
reported (i ∷ is) run k h =
    let o =
      kept_outcome i.invocation_id run.completed k
        (first (h (λ j. str_eq j.invocation_id i.invocation_id))) in
    let os = reported is run k (λ p. less p (h p)) in
    (
      o.0 ∷ os.0,
      ap (λ z. and_report z (report run is)) o.1 ∙ ap (λ z. Option.map (λ y. o.0 ∷ y) z) os.1,
      ap (λ z. z ∷ map (λ y. y.invocation_id) os.0) o.2 ∙ ap (λ z. i.invocation_id ∷ z) os.2,
    )
  where
    first : {n : ℕ} → count (λ j. str_eq j.invocation_id i.invocation_id) (i ∷ is) ≤ n → 1 ≤ n
    first g = ground (arith, eq_iff i.invocation_id i.invocation_id, g)

    less : (p : Planned → Bool) {n : ℕ} → count p (i ∷ is) ≤ n → count p is ≤ n
    less p g = ground (arith, g)

-- When nothing remains and nothing is in flight, whatever ended how and whoever stopped the run, the report
-- has one outcome for each invocation that was submitted, in their order, and under its identity.
pub report_is_complete :
    {stop_on_failure : Bool} {items : List Planned} {run : Progress}
    → Life stop_on_failure items run
    → run.remaining ≡ []
    → run.in_flight ≡ []
    → (os : List Outcome) × (report run items ≡ some os)
      × (map (λ o. o.invocation_id) os ≡ map (λ i. i.invocation_id) items)
report_is_complete {items} {run} l r f =
    reported items run (Life-Named l)
      (λ p. omega (arith, placed-Life p l, ap (count p) r, ap (count p) f))
