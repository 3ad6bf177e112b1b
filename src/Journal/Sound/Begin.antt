-- ===== src/Journal/Sound/Begin.antt =====
-- `begin_try` keeps a record sound and leaves a newest try that was not submitted.
use hedloom.Base.{
  ℕ, ◌+◌, ◌≤◌, ◌≡◌, refl, sym, subst, true, Option, none, some, List, [], ◌∷◌, length, All, arith,
  Option-cases, inl, inr,
}
use hedloom.Json.{end}
use hedloom.Result.{guard, claim_not_held}
use hedloom.Journal.Types.{
  EventName, Phase, unsubmitted, intended, submitted, TryState, AttemptState, current, is_terminal,
  try_at,
}
use hedloom.Journal.Fold.{started}
use hedloom.Journal.Fold.Loop.{fold_event-start}
use hedloom.Journal.World.{Disk, pure, ◌>>◌}
use hedloom.Journal.Disk.{try_only}
use hedloom.Journal.Store.{append, begin_try, resume_or_allocate}
use hedloom.Journal.Hoare.{Triple, Triple-bind, Triple-pure, Triple-ask, Triple-from}
use hedloom.Journal.Ledger.{Numbered, Settled}
use hedloom.Journal.Ledger.Steps.{Ledger-start}
use hedloom.Journal.Sound.{Intact}
use hedloom.Journal.Sound.Append.{On, Intact-append, Intact-exists, written, Triple-append}
use hedloom.Journal.Sound.Phases.{At}
use hedloom.Journal.Sound.Seen.{Seen, Newest, Triple-fold, Seen-none, Seen-head, Seen-some}

-- A phase from which a new launch may start.
abbrev pub Idle : Phase → Type 0
Idle unsubmitted = Unit
Idle Phase.terminal = Unit
Idle _ = ⊥

abbrev AllIdle : List TryState → Type 0
AllIdle [] = Unit
AllIdle (t ∷ ts) = Idle t.phase

pub record Startable (d : Disk) (next : Option ℕ) (subs : List ℕ) : Type 0 where
  pub sound : Intact d next subs
  pub idle : AllIdle sound.view.tries

-- All `n` tries have ended.
record Ended (n : ℕ) (d : Disk) (next : Option ℕ) (subs : List ℕ) : Type 0 where
  sound : Intact d next subs
  size : n ≡ length sound.view.tries
  over : All (λ u. is_terminal u ≡ true) sound.view.tries

try_at-fresh : (n : ℕ) (ts : List TryState) → Numbered ts → length ts ≤ n → try_at n ts ≡ none
try_at-fresh n [] h fresh = refl
try_at-fresh n (t ∷ ts) h fresh = ground (arith, try_at-fresh n ts h.1)

module _ {S : Type 0} where
  start-At :
      (n : ℕ)
      → Triple {S = S}
          (On (Ended n))
          (append EventName.try_started (try_only n))
          (On Intact)
          (λ _. On (At n unsubmitted))
  unfolding Intact-exists
  start-At n =
      Triple-append EventName.try_started (try_only n) (Ended n) (At n unsubmitted) refl refl
        (λ d next subs p. p.sound)
        λ d next subs p seq at numbered.
          let s = p.sound in
          let e = written EventName.try_started (try_only n) seq at in
          let t = started n at in
          record {
            sound =
                Intact-append (Intact-exists s) e
                  (record { tries = t ∷ s.view.tries; pins = s.view.pins }) numbered refl
                  (fold_event-start s.view.pins s.view.tries e n refl refl
                    (try_at-fresh n s.view.tries s.ledger.numbered (omega (arith, p.size))))
                  (Ledger-start t s.view.tries e s.ledger p.over p.size
                    (record { evidence = λ h. cc; outcome = refl }) refl refl);
            newest = t;
            older = s.view.tries;
            head = unfold Intact-append in refl;
            number = refl;
            phase = refl;
          }

  -- The number of the new try is that of no try before it.
  allocated-At :
      (n : ℕ)
      → Triple {S = S}
          (On (Ended n))
          (append EventName.try_started (try_only n) >> pure n)
          (On Intact)
          (λ m. On (At m unsubmitted))
  allocated-At n = Triple-bind (start-At n) (λ _. Triple-pure n (λ w p. p))

-- The state that `begin_try` folds, its newest try idle.
record Resting (st : AttemptState) (d : Disk) (next : Option ℕ) (subs : List ℕ) : Type 0 where
  seen : Seen st d next subs
  idle : AllIdle seen.sound.view.tries

module _ (st : AttemptState) (d : Disk) (next : Option ℕ) (subs : List ℕ)
    (r : Resting st d next subs) where
  Ended-none : current st ≡ none → Ended 0 d next subs
  Ended-none h =
      let e = Seen-none r.seen h in
      record {
        sound = r.seen.sound;
        size = rw e;
        over = subst (All (λ u. is_terminal u ≡ true)) (sym e) tt;
      }

  Idle-head : (t : TryState) → current st ≡ some t → Idle t.phase
  Idle-head t h = let (us, e) = Seen-head r.seen t h in subst AllIdle e r.idle

module _ (t : TryState) (d : Disk) (next : Option ℕ) (subs : List ℕ) where
  At-idle : Newest t d next subs → t.phase ≡ unsubmitted → At t.number unsubmitted d next subs
  At-idle n e = record {
    sound = n.sound;
    newest = t;
    older = n.older;
    head = n.head;
    number = refl;
    phase = e;
  }

  Ended-head : Newest t d next subs → t.phase ≡ Phase.terminal → Ended (t.number + 1) d next subs
  Ended-head n e =
      let l =
        subst (λ ts. Numbered ts × Settled ts) n.head
          (n.sound.ledger.numbered, n.sound.ledger.settled) in
      record {
        sound = n.sound;
        size = rw n.head (omega (arith, l.0.0));
        over = subst (All (λ u. is_terminal u ≡ true)) (sym n.head) (rw e, l.1);
      }

module _ {S : Type 0} where
  resumed-At :
      (t : TryState) (p : Phase)
      → t.phase ≡ p
      → Idle p
      → Triple {S = S}
          (On (Newest t))
          (resume_or_allocate (some t) end)
          (On Intact)
          (λ n. On (At n unsubmitted))
  resumed-At t unsubmitted e i =
      simp e (Triple-pure t.number (λ w n. At-idle t w.disk w.next_seq w.submissions n e))
  resumed-At t Phase.terminal e i = simp e (
      Triple-from (λ w n. Ended-head t w.disk w.next_seq w.submissions n e)
        (allocated-At (t.number + 1)))
  resumed-At t intended e i = absurd i
  resumed-At t submitted e i = absurd i

  resume_or_allocate-At :
      (st : AttemptState)
      → Triple {S = S}
          (On (Resting st))
          (resume_or_allocate (current st) end)
          (On Intact)
          (λ n. On (At n unsubmitted))
  resume_or_allocate-At st = elim (Option-cases (current st)) [
    | inl e ↦
        simp e
          (Triple-from (λ w r. Ended-none st w.disk w.next_seq w.submissions r e) (allocated-At 0))
    | inr (t, e) ↦ simp e (record {
      run = λ w r.
          (resumed-At t t.phase refl (Idle-head st w.disk w.next_seq w.submissions r t e)).run w
            (Seen-some r.seen t e);
    })
  ]

  -- From an intact record with no try under way, `begin_try` leaves a newest try that was never
  -- submitted, whether it resumes one or allocates the next.
  pub Triple-begin_try :
      Triple {S = S} (On Startable) (begin_try end) (On Intact) (λ n. On (At n unsubmitted))
  unfolding begin_try
  Triple-begin_try =
      Triple-bind
        (Triple-ask (λ w. guard w.claim_held claim_not_held) (λ w p. p.sound) (λ u w e p. p))
        λ u.
          Triple-bind
            (Triple-fold Startable Resting (λ d next subs p. p.sound)
              (λ st d next subs p e. record {
                seen = record { sound = p.sound; folded = e };
                idle = p.idle;
              }))
            resume_or_allocate-At
