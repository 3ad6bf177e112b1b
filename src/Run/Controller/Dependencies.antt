-- ===== src/Run/Controller/Dependencies.antt =====
-- A run starts an invocation after what it depends on.
use mathlib.Core.Option
use hedloom.Base.{
  String, Bool, true, false, ◌&&◌, ◌≡◌, refl, subst, Option, none, some, List, [], ◌∷◌, str_eq,
  if◌then◌else◌, all, any, arith, some_inj, Bool-cases, inl, inr,
}
use hedloom.Run.Binding.{Planned}
use hedloom.Run.Worker.{Outcome, blocked}
use hedloom.Run.Controller.{
  Progress, take_first, take_ready, Delivery, passed, saved, save, is_success, block_remaining,
  skipped, admit, turn, settle, turned, stopping, settled, advance, Life, begun, advanced,
  has_succeeded, named_for,
}

-- Some outcome that is kept says that this invocation succeeded.
abbrev pub is_kept_success : List (Planned × Outcome) → String → Bool
is_kept_success cs d = any (λ c. str_eq c.0.invocation_id d && is_success c.1) cs

-- All dependencies of these invocations succeeded.
abbrev pub are_fed : List (Planned × Outcome) → List Planned → Bool
are_fed cs is = all (λ i. all (is_kept_success cs) i.depends_on) is

found_success :
    (cs : List (Planned × Outcome)) (d : String)
    → has_succeeded cs d ≡ true
    → is_kept_success cs d ≡ true
found_success [] d h = ground (arith, h)
found_success (c ∷ cs) d h = elim (Bool-cases (str_eq c.0.invocation_id d)) [
  | inl e ↦ ground (arith, e, h)
  | inr e ↦ let r = found_success cs d (ground (arith, e, h)) in ground (arith, e, r)
]

all_weaken {ℓ} :
    {A : Type ℓ} (p q : A → Bool)
    → ((x : A) → p x ≡ true → q x ≡ true)
    → (xs : List A) → all p xs ≡ true
    → all q xs ≡ true
all_weaken p q k [] h = refl
all_weaken p q k (x ∷ xs) h =
    let here = k x (ground (arith, h)) in
    let there = all_weaken p q k xs (ground (arith, h)) in ground (arith, here, there)

are_fed-saved :
    (stop : Bool) (i : Planned) (o : Outcome) (e : Option String) (run : Progress)
    (is : List Planned)
    → are_fed run.completed is ≡ true
    → are_fed (saved stop i o e run).completed is ≡ true
are_fed-saved stop i o e run is =
    all_weaken (λ j. all (is_kept_success run.completed) j.depends_on) _
      (λ j. all_weaken (is_kept_success run.completed) _ (kept e) j.depends_on) is
  where
    kept :
        (e : Option String) (d : String)
        → is_kept_success run.completed d ≡ true
        → is_kept_success (saved stop i o e run).completed d ≡ true
    kept none d h = ground (arith, h)
    kept (some t) d h = ground (arith, h)

all-take_first :
    (q f : Planned → Bool) (is : List Planned) {z : Planned × List Planned}
    → take_first f is ≡ some z
    → all q is ≡ true
    → all q z.1 ≡ true
all-take_first q f [] h g = absurd (ground (arith, h))
all-take_first q f (i ∷ is) {z} h g =
    taken (f i) (take_first f is) (λ w k. all-take_first q f is k (ground (arith, g))) h
  where
    taken :
        (b : Bool) (later : Option (Planned × List Planned))
        → ((w : Planned × List Planned) → later ≡ some w → all q w.1 ≡ true)
        → (if b then some (i, is) else Option.map (λ w. (w.0, i ∷ w.1)) later) ≡ some z
        → all q z.1 ≡ true
    taken true later k e = subst (λ w. all q w.1 ≡ true) (some_inj e) (ground (arith, g))
    taken false none k e = absurd (ground (arith, e))
    taken false (some w) k e =
        let rest = k w refl in subst (λ w. all q w.1 ≡ true) (some_inj e) (ground (arith, g, rest))

-- What is in flight is fed.
abbrev pub IsFed : Progress → Type 0
IsFed run = are_fed run.completed run.in_flight ≡ true

save-IsFed :
    (stop : Bool) (i : Planned) (o : Outcome) (delivery : Delivery) (run : Progress)
    → IsFed run
    → IsFed (save stop i o delivery run)
save-IsFed stop i o delivery run h = saving _
  where
    saving : (e : Option String) → IsFed (saved stop i (named_for i o) e run)
    saving none = are_fed-saved stop i (named_for i o) none run run.in_flight h
    saving (some e) = are_fed-saved stop i (named_for i o) (some e) run run.in_flight h

block_remaining-IsFed :
    (stop : Bool) (is : List Planned) (run : Progress)
    → IsFed run
    → IsFed (block_remaining stop is run)
block_remaining-IsFed stop [] run h = h
block_remaining-IsFed stop (i ∷ is) run h =
    block_remaining-IsFed stop is _ (save-IsFed stop i (blocked i).outcome passed run h)

admit-IsFed :
    (stop : Bool) (run : Progress) (r : Option (Planned × List Planned))
    → IsFed run
    → IsFed (admit stop run r)
admit-IsFed stop run none h = h
admit-IsFed stop run (some (i, rest)) h =
    admitting (all (has_succeeded run.completed) i.depends_on) refl
  where
    admitting :
        (b : Bool)
        → all (has_succeeded run.completed) i.depends_on ≡ b
        → IsFed (
            if b
            then record run { remaining = rest; in_flight = i ∷ run.in_flight }
            else save stop i (skipped i) passed (record run { remaining = rest }))
    admitting true e =
        let fed = all_weaken _ _ (found_success run.completed) i.depends_on e in
        ground (arith, fed, h)
    admitting false e = save-IsFed stop i (skipped i) passed (record run { remaining = rest }) h

turn-IsFed : (stop : Bool) (run : Progress) → IsFed run → IsFed (turn stop run)
turn-IsFed stop run h = turning run.stopped
  where
    turning :
        (b : Bool)
        → IsFed (
            if b
            then block_remaining stop run.remaining (record run { remaining = [] })
            else admit stop run (take_ready run))
    turning true = block_remaining-IsFed stop run.remaining (record run { remaining = [] }) h
    turning false = admit-IsFed stop run (take_ready run) h

settle-IsFed :
    (stop : Bool) (f : Planned → Bool) (o : Outcome) (delivery : Delivery) (run : Progress)
    (r : Option (Planned × List Planned))
    → take_first f run.in_flight ≡ r
    → IsFed run
    → IsFed (settle stop o delivery run r)
settle-IsFed stop f o delivery run none e h = h
settle-IsFed stop f o delivery run (some (i, rest)) e h =
    save-IsFed stop i o delivery (record run { in_flight = rest })
      (all-take_first (λ j. all (is_kept_success run.completed) j.depends_on) f run.in_flight e h)

-- Whatever a run has in flight, all that it depends on has ended in this run, as succeeded.
pub dependencies_come_first :
    {stop_on_failure : Bool} {items : List Planned} {run : Progress}
    → Life stop_on_failure items run
    → are_fed run.completed run.in_flight ≡ true
unfolding advance
dependencies_come_first begun = refl
dependencies_come_first {stop_on_failure} (advanced {run} l turned) =
    turn-IsFed stop_on_failure run (dependencies_come_first l)
dependencies_come_first (advanced l stopping) = dependencies_come_first l
dependencies_come_first {stop_on_failure} (advanced {run} l (settled v o delivery)) =
    settle-IsFed stop_on_failure (λ i. str_eq i.invocation_id v) o delivery run _ refl
      (dependencies_come_first l)
