-- ===== src/Samples.antt =====
-- The transport and the pins on small inputs.
use hedloom.Base.{ℕ, ◌≡◌, refl, String, Bool, true, false, none, some, [], ◌∷◌}
use hedloom.Json.{null, str, nat, obj, nil, Fields, end, field, get}
use hedloom.Result.{Result, ok, err}
use hedloom.Journal.Types.{EventName}
use hedloom.Journal.World.{
  World, LayoutFile, Line, event_line, empty_disk, ◌>>=◌, gets, write, modify, lift, durable, now,
  pure, raise,
}
use hedloom.Journal.Fold.{
  fold_events, fold_loop, fold_finish, sort_tries, fold_event, fold_known, fold_numbered,
  insert_try, touch, update_try, fold_pinned,
}
use hedloom.Journal.Disk.{
  events_of, layout_check, parse_lines, raw_lines, fold_disk, append_line, created_record,
}
use hedloom.Journal.Store.{claim, release, require_layout, create_record, append, fold}
use hedloom.Transport.{accepted}
use hedloom.Transport.InProcess.{Implementations, Results, returned, submit}
use hedloom.Transport.InProcess.Recall.{Held, submit-Held}
use hedloom.Pins.{PinSite, pin, pin_under_claim, promise, pinnable, is_pinned, pins_of}
use hedloom.Protocol.{untouched}

abbrev echo : Implementations
echo operation = some (λ args. returned (get "x" args))

abbrev same_text : String → String
same_text s = s

abbrev work : Fields
work = field "operation" (str "echo") (field "arguments" (obj (field "x" (nat 3) end)) end)

abbrev handle : Fields
handle =
    field "transport" (str "in-process") (field "identity" (str "r-0") (field "workdir" null end))

abbrev results : Results
results = (submit echo same_text "r-0" work []).1

submitted : submit echo same_text "r-0" work [] ≡ (accepted handle, results)
unfolding submit
submitted = refl

submit-Held_example : Held echo same_text "r-0" handle results
submit-Held_example = submit-Held echo same_text "r-0" work [] results handle submitted

abbrev desk : PinSite Results
desk = record {
  user = "ada";
  blank = λ s. false;
  path = λ n. "/work/r-0";
  there = λ p s. true;
  inventory = λ p s. nil;
  modes = λ p s. end;
  freeze = λ p m s. (true, s);
  thaw = λ p m s. (true, s);
  fresh_id = λ s. "pin-0";
}

abbrev event : ℕ → EventName → Line
event seq name = event_line (record {
  seq = seq;
  at = "t";
  event = name;
  args = field "try" (nat 0) (field "outcome" (str "failed") end);
})

-- A record whose try has failed.
abbrev failed : World Results
failed = record (untouched []) {
  disk = record empty_disk {
    exists = true;
    layout = LayoutFile.version 1;
    lines = event 0 EventName.try_started ∷ event 1 EventName.terminal ∷ [];
  };
}

abbrev has_returned : {A : Type 0} → Result A → Bool
has_returned (ok a) = true
has_returned (err e) = false

pin_returns : has_returned (pin desk 0 "keep" none true failed).0 ≡ true
unfolding pin pin_under_claim promise pinnable is_pinned pins_of claim release require_layout
    create_record append fold fold_disk events_of layout_check parse_lines raw_lines fold_events
    fold_loop fold_finish sort_tries fold_event fold_known fold_numbered insert_try touch update_try
    fold_pinned ◌>>=◌ gets write modify lift durable now pure raise append_line created_record
pin_returns = refl
