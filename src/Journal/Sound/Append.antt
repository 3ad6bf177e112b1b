-- ===== src/Journal/Sound/Append.antt =====
-- An append keeps a record sound: what the log folds to afterwards, and the contract of `append`.
use hedloom.Base.{
  ℕ, zero, suc, ◌+◌, ◌≡◌, refl, true, Option, none, some, List, [], ◌∷◌, ◌++◌, length,
  length-append, All-append, String, arith,
}
use hedloom.Json.{Fields, natural, get}
use hedloom.Result.{ok}
use hedloom.Journal.Types.{EventName, JournalEvent, is_known}
use hedloom.Journal.Fold.{Folding, nothing_folded, fold_event}
use hedloom.Journal.Fold.Loop.{fold_loop-snoc}
use hedloom.Journal.World.{Disk, World, lift, modify, now, durable, burn, ◌>>=◌}
use hedloom.Journal.Disk.{layout_check, append_line, sequence}
use hedloom.Journal.Store.{append, appended}
use hedloom.Journal.Hoare.{Triple, Ends}
use hedloom.Journal.Ledger.{Ledger}
use hedloom.Journal.Sound.{Intact, Sequential-snoc, map-snoc, layout_check-Intact, sequence-Intact}

module _ {d : Disk} {next : Option ℕ} {subs : List ℕ} (s : Intact d next subs) where
  -- Any event whose fold and whose ledger are known keeps the record intact.
  unfoldable pub Intact-append :
      (e : JournalEvent) (v : Folding)
      → e.seq ≡ length s.log
      → is_known e.event ≡ true
      → fold_event s.view e ≡ ok v
      → Ledger d.manifest d.standing v.tries (s.log ++ e ∷ []) subs
      → Intact (append_line e d) (some (e.seq + 1)) subs
  unfolding append_line
  Intact-append e v numbered known step ledger = record {
    log = s.log ++ e ∷ [];
    view = v;
    folds = fold_loop-snoc nothing_folded s.log e s.view v s.folds step;
    lines = rw (s.whole, s.lines) (map-snoc s.log e);
    whole = refl;
    made = s.made;
    laid = s.laid;
    cached = omega (arith, length-append s.log (e ∷ []));
    sequential = Sequential-snoc 0 s.log e s.sequential (omega arith);
    familiar = All-append (λ x. is_known x.event ≡ true) s.log (e ∷ []) s.familiar (known, tt);
    ledger = ledger;
  }

  unfoldable pub Intact-exists : Intact (record d { exists = true }) next subs
  Intact-exists = record {
    log = s.log;
    view = s.view;
    folds = s.folds;
    lines = s.lines;
    whole = s.whole;
    made = refl;
    laid = s.laid;
    cached = s.cached;
    sequential = s.sequential;
    familiar = s.familiar;
    ledger = s.ledger;
  }

-- What a directory, its instance and its submissions may satisfy, as a condition on a state.
abbrev pub Condition : Type 1
Condition = Disk → Option ℕ → List ℕ → Type 0

abbrev pub On : {S : Type 0} → Condition → World S → Type 0
On c w = c w.disk w.next_seq w.submissions

module _ {S : Type 0} (I Q : Condition) (f : World S → World S) where
  -- A durable step is done, or the process is killed before it.
  pub burn-ends :
      (fuse : Option ℕ) (w : World S)
      → On I w
      → On Q (f w)
      → Ends {A = Unit {0}} (On I) (λ _. On Q) (burn fuse f w)
  burn-ends none w i q = q
  burn-ends (some zero) w i q = i
  burn-ends (some (suc k)) w i q = q

-- The event that `append` writes, by its number and its time.
abbrev pub written : EventName → Fields → ℕ → String → JournalEvent
written name args seq at = record { seq = seq; at = at; event = name; args = args }

module _ {S : Type 0} (name : EventName) (args : Fields) where
  abbrev ready : World S → World S
  ready w = record w { disk = record w.disk { exists = true }; ticks = w.ticks + 1 }

  append-run :
      {n : ℕ} (w : World S)
      → is_known name ≡ true
      → natural (get "try" args) ≡ some n
      → layout_check (record w.disk { exists = true }) ≡ ok tt
      → append name args w ≡ burn w.fuse (appended name args (w.clock w.ticks)) (ready w)
  unfolding append ◌>>=◌ lift append_line modify now durable
  append-run w known names laid = rw (known, names, laid)

  -- `append` from an intact record: the caller says what the event makes of the condition.
  pub Triple-append :
      {n : ℕ} (P Q : Condition)
      → is_known name ≡ true
      → natural (get "try" args) ≡ some n
      → (sound : (d : Disk) (next : Option ℕ) (subs : List ℕ) → P d next subs → Intact d next subs)
      → ((d : Disk) (next : Option ℕ) (subs : List ℕ) (p : P d next subs) (seq : ℕ) (at : String)
          → seq ≡ length (sound d next subs p).log
          → Q
              (append_line (written name args seq at) (record d { exists = true }))
              (some (seq + 1))
              subs)
      → Triple {S = S} (On P) (append name args) (On Intact) (λ _. On Q)
  unfolding Intact-exists
  Triple-append P Q known names sound step = record {
    run = λ w p.
        let s = sound w.disk w.next_seq w.submissions p in
        let s' = Intact-exists s in
        rw (append-run w known names (layout_check-Intact s')) (
          burn-ends Intact Q (appended name args (w.clock w.ticks)) w.fuse (ready w) s' (
            step w.disk w.next_seq w.submissions p
              (sequence w.next_seq (record w.disk { exists = true })) (w.clock w.ticks)
              (sequence-Intact s')));
  }
