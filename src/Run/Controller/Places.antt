-- ===== src/Run/Controller/Places.antt =====
-- No invocation of a run is lost or counted twice.
use mathlib.Core.Option
use hedloom.Base.{
  ℕ, ◌+◌, String, Bool, true, false, ◌≡◌, refl, subst, ◌∙◌, Option, none, some, List, [], ◌∷◌,
  str_eq, if◌then◌else◌, count, all, arith, some_inj,
}
use hedloom.Run.Binding.{Planned}
use hedloom.Run.Worker.{Outcome, blocked}
use hedloom.Run.Controller.{
  Progress, take_first, take_ready, Delivery, passed, saved, save, block_remaining, skipped, admit,
  turn, settle, Event, turned, stopping, settled, advance, Life, begun, advanced, has_succeeded,
  is_ready, named_for,
}

-- How many of the invocations that the test accepts a run knows.
abbrev pub placed : (Planned → Bool) → Progress → ℕ
placed p run = count p run.remaining + (count p run.in_flight + count (λ c. p c.0) run.completed)

one : Bool → ℕ
one b = if b then 1 else 0

-- The number of the one that is taken, and of the others.
parted : (Planned → Bool) → Planned × List Planned → ℕ
parted p z = one (p z.0) + count p z.1

count-take_first :
    (p f : Planned → Bool) (is : List Planned) {z : Planned × List Planned}
    → take_first f is ≡ some z
    → count p is ≡ parted p z
unfolding one parted
count-take_first p f [] h = absurd (ground (arith, h))
count-take_first p f (i ∷ is) {z} h =
    taken (f i) (take_first f is) (λ w k. count-take_first p f is k) h
  where
    taken :
        (b : Bool) (later : Option (Planned × List Planned))
        → ((w : Planned × List Planned) → later ≡ some w → count p is ≡ parted p w)
        → (if b then some (i, is) else Option.map (λ w. (w.0, i ∷ w.1)) later) ≡ some z
        → count p (i ∷ is) ≡ parted p z
    taken true later k e = subst (λ w. count p (i ∷ is) ≡ parted p w) (some_inj e) (ground arith)
    taken false none k e = absurd (ground (arith, e))
    taken false (some w) k e =
        subst (λ w. count p (i ∷ is) ≡ parted p w) (some_inj e) (ground (arith, k w refl))

placed-saved :
    (p : Planned → Bool) (stop : Bool) (i : Planned) (o : Outcome) (e : Option String)
    (run : Progress)
    → placed p (saved stop i o e run) ≡ one (p i) + placed p run
unfolding one
placed-saved p stop i o none run = ground arith
placed-saved p stop i o (some e) run = ground arith

placed-save :
    (p : Planned → Bool) (stop : Bool) (i : Planned) (o : Outcome) (delivery : Delivery)
    (run : Progress)
    → placed p (save stop i o delivery run) ≡ one (p i) + placed p run
placed-save p stop i o delivery run = placed-saved p stop i (named_for i o) _ run

placed-block_remaining :
    (p : Planned → Bool) (stop : Bool) (is : List Planned) (run : Progress)
    → placed p (block_remaining stop is run) ≡ count p is + placed p run
unfolding one
placed-block_remaining p stop [] run = omega arith
placed-block_remaining p stop (i ∷ is) run =
    placed-block_remaining p stop is _
    ∙ ground (arith, placed-save p stop i (blocked i).outcome passed run)

placed-admit :
    (p : Planned → Bool) (stop : Bool) (run : Progress) (r : Option (Planned × List Planned))
    → take_ready run ≡ r
    → placed p (admit stop run r) ≡ placed p run
unfolding parted one
placed-admit p stop run none h = refl
placed-admit p stop run (some (i, rest)) h =
    admitting (all (has_succeeded run.completed) i.depends_on)
  where
    part : count p run.remaining ≡ one (p i) + count p rest
    part = count-take_first p (is_ready run.delivered) run.remaining h

    admitting :
        (b : Bool)
        → placed p (
            if b
            then record run { remaining = rest; in_flight = i ∷ run.in_flight }
            else save stop i (skipped i) passed (record run { remaining = rest }))
          ≡ placed p run
    admitting true = ground (arith, part)
    admitting false =
        placed-save p stop i (skipped i) passed (record run { remaining = rest })
        ∙ omega (arith, part)

placed-settle :
    (p f : Planned → Bool) (stop : Bool) (o : Outcome) (delivery : Delivery) (run : Progress)
    (r : Option (Planned × List Planned))
    → take_first f run.in_flight ≡ r
    → placed p (settle stop o delivery run r) ≡ placed p run
unfolding parted one
placed-settle p f stop o delivery run none h = refl
placed-settle p f stop o delivery run (some (i, rest)) h =
    placed-save p stop i o delivery (record run { in_flight = rest })
    ∙ ground (arith, count-take_first p f run.in_flight h)

placed-turn :
    (p : Planned → Bool) (stop : Bool) (run : Progress) → placed p (turn stop run) ≡ placed p run
placed-turn p stop run = turning run.stopped
  where
    turning :
        (b : Bool)
        → placed p (
            if b
            then block_remaining stop run.remaining (record run { remaining = [] })
            else admit stop run (take_ready run))
          ≡ placed p run
    turning true =
        placed-block_remaining p stop run.remaining (record run { remaining = [] }) ∙ omega arith
    turning false = placed-admit p stop run (take_ready run) refl

placed-advance :
    (p : Planned → Bool) (stop : Bool) (e : Event) (run : Progress)
    → placed p (advance stop e run) ≡ placed p run
unfolding advance
placed-advance p stop turned run = placed-turn p stop run
placed-advance p stop stopping run = refl
placed-advance p stop (settled v o delivery) run =
    placed-settle p (λ i. str_eq i.invocation_id v) stop o delivery run _ refl

pub placed-Life :
    (p : Planned → Bool) {stop : Bool} {items : List Planned} {run : Progress}
    → Life stop items run
    → placed p run ≡ count p items
placed-Life p begun = omega arith
placed-Life p {stop} (advanced {run} l e) = placed-advance p stop e run ∙ placed-Life p l
