-- ===== src/Protocol/History.antt =====
-- The history of a record: no operation of attempt.py or durability.py, in any process, takes back an
-- event that was recorded or a manifest that was published.
use hedloom.Base.{ℕ, String, ◌≡◌, refl, sym, ap, ◌∙◌, Option, none, some, List, [], ◌∷◌, ◌++◌, map}
use hedloom.Json.{Fields}
use hedloom.Result.{ok}
use hedloom.Journal.Types.{JournalEvent}
use hedloom.Journal.World.{Line, event_line, Document, document, World}
use hedloom.Journal.Disk.{events_of, manifest_of, read_document}
use hedloom.Journal.Extends.{Extends, Extends-refl, Extends-trans, Adds, adds_rules}
use hedloom.Journal.Extends.Store.{Adds-claim, Adds-read_manifest}
use hedloom.Journal.Sound.Append.{On}
use hedloom.Journal.Sound.Claim.{Healthy}
use hedloom.Attempt.Env.{Env}
use hedloom.Attempt.Launch.{LaunchResult}
use hedloom.Attempt.Additions.{Adds-launch_locked, Adds-launch_or_attach}
use hedloom.Attempt.Additions.Reconciling.{
  Adds-reconcile_locked, Adds-reconcile, Adds-request_cancel, Adds-accept_for_reuse,
}
use hedloom.Durability.{published_of, finish, execute_recorded}
use hedloom.Protocol.{
  Step, Reach, launch, execute, reconciling, cancel, accept, restart, here, next, untouched,
}
use hedloom.Protocol.Healthy.{Reach-Healthy, untouched-Healthy}
use hedloom.Protocol.Shown.{Shown, Healthy-Shown}

ok-injective : {A : Type 0} (a b : A) → ok a ≡ ok b → a ≡ b
ok-injective a b h = cc

prefix :
    (log more : List JournalEvent) (ls : List Line)
    → map event_line more ≡ map event_line log ++ ls
    → (es : List JournalEvent) × (more ≡ log ++ es)
prefix [] more ls h = (more, refl)
prefix (e ∷ log) [] ls h = cc
prefix (e ∷ log) (f ∷ more) ls h =
    let (es, same) = prefix log more ls (tails h) in
    (es, ap (λ x. x ∷ more) (heads h) ∙ ap (λ l. e ∷ l) same)
  where
    tails :
        event_line f ∷ map event_line more ≡ event_line e ∷ (map event_line log ++ ls)
        → map event_line more ≡ map event_line log ++ ls
    tails h = cc

    heads : event_line f ∷ map event_line more ≡ event_line e ∷ (map event_line log ++ ls) → f ≡ e
    heads h = cc

module _ {S : Type 0} (env : Env S) where
  Adds-published_of : (o : Option ℕ) → Adds (published_of env o)
  Adds-published_of none = search adds_rules
  Adds-published_of (some n) = Adds-read_manifest n

  Adds-execute :
      (bundle : Fields) (work_dir : Option String) → Adds (execute_recorded env bundle work_dir)
  unfolding execute_recorded
  Adds-execute bundle work_dir =
      Adds-claim _ (search (adds_rules, finished, Adds-launch_locked env bundle work_dir) depth 12)
    where
      finished : (l : LaunchResult) → Adds (finish env bundle l)
      finished l = search (adds_rules, Adds-reconcile_locked, Adds-published_of) depth 12

module _ {S : Type 0} {env : Env S} where
  Step-Extends : {w v : World S} → Step env w v → Extends w.disk v.disk
  Step-Extends {w} (launch bundle work_dir placed) =
      (Adds-launch_or_attach env bundle work_dir).run w
  Step-Extends {w} (execute bundle work_dir placed) = (Adds-execute env bundle work_dir).run w
  Step-Extends {w} (reconciling outputs) = (Adds-reconcile env outputs).run w
  Step-Extends {w} (cancel reason) = (Adds-request_cancel env reason).run w
  Step-Extends {w} (accept reason) = (Adds-accept_for_reuse env reason).run w
  Step-Extends {w} (restart lock_free clock fuse outside) = Extends-refl w.disk

  Reach-Extends : {w v : World S} → Reach env w v → Extends w.disk v.disk
  Reach-Extends {w} here = Extends-refl w.disk
  Reach-Extends (next r s) = Extends-trans (Reach-Extends r) (Step-Extends s)

  module _ {s : S} {w v : World S} (life : Reach env (untouched s) w) (later : Reach env w v) where
    shown_now : Shown w.disk w.submissions
    shown_now =
        Healthy-Shown w.disk w.next_seq w.submissions (Reach-Healthy env (untouched-Healthy s) life)

    healthy_later : On Healthy v
    healthy_later = Reach-Healthy env (Reach-Healthy env (untouched-Healthy s) life) later

    shown_later : Shown v.disk v.submissions
    shown_later = Healthy-Shown v.disk v.next_seq v.submissions healthy_later

    -- A manifest that a record has shown once it shows for ever, whatever operations, crashes and
    -- restarts follow.
    pub manifests_are_immutable :
        (n : ℕ) (doc : Fields)
        → manifest_of n w.disk ≡ ok (some doc)
        → manifest_of n v.disk ≡ ok (some doc)
    unfolding manifest_of
    manifests_are_immutable n doc read =
        rw
          (
            (shown_later).laid,
            (Reach-Extends later).manifests n (document doc)
                (stored (w.disk.manifest n) (rw (shown_now).laid at read)),
          )
          refl
      where
        stored : (o : Option Document) → read_document o ≡ ok (some doc) → o ≡ some (document doc)
        stored none h = cc
        stored (some Document.unreadable_text) h = cc
        stored (some (document fs)) h = cc

    -- The events of a record at one time stay the first events of it for ever.
    pub events_are_append_only :
        (log : List JournalEvent)
        → events_of w.disk ≡ ok log
        → (more : List JournalEvent) × (events_of v.disk ≡ ok (log ++ more))
    events_are_append_only log read =
        let a = shown_now in
        let b = shown_later in
        let grown = Reach-Extends later in
        let (es, more) =
          prefix a.log b.log grown.more
            (sym b.lines ∙ grown.lines ∙ ap (λ ls. ls ++ grown.more) a.lines) in
        (es, b.read ∙ ap ok (more ∙ ap (λ l. l ++ es) (ok-injective a.log log (sym a.read ∙ read))))
