-- ===== src/Result.antt =====
-- The exceptions of exec/src/hedloom_exec as values, one constructor for each place that raises, and
-- methods that change the durable record and may raise: what was written before a raise stays.
use hedloom.Base.{◌≡◌, refl, Bool, true, false, Option, none, some}

pub data Error : Type 0 where
  -- JournalError
  no_layout unreadable_layout unsupported_layout : Error
  malformed_line invalid_line sequence_gap : Error
  no_valid_try started_twice before_start invalid_pin unknown_pin unknown_outcome : Error
  unknown_event bad_try_number manifest_exists no_manifest unreadable_manifest : Error
  -- JournalError raised when the lock is held elsewhere, and when it is not held here
  concurrent_claim claim_not_held : Error
  -- AttemptError and its subclasses
  no_terminal_try no_published_result no_try_to_cancel : Error
  unknown_standing non_reusable_standing terminal_without_manifest : Error
  no_allocated_try not_reconcilable borrowed_changed : Error
  attempt_cancelled unrecoverable stale_identity : Error
  -- TransportError: a refusal, or an indeterminate failure
  submission_refused submission_failed transport_failed : Error
  -- MissingOutput, OutputDeclarationError, OSError
  missing_output : Error
  -- TypeError: a mapping whose keys are not a dataclass's fields
  bad_fields : Error
  -- PinError
  pin_reason pin_actor not_terminal already_pinned workspace_was_removed no_workspace : Error
  no_active_pin thaw_incomplete : Error
  -- IdentityError
  bad_identity bad_try_name : Error
  -- StopIteration and AssertionError
  no_such_try assertion_failed : Error
  -- RetentionError, OSError, OverflowError
  retention_error os_error overflow : Error
  -- FileNotFoundError
  no_log_file : Error
  -- the process was killed
  killed : Error

pub data Result {ℓ} (A : Type ℓ) : Type ℓ where
  ok : A → Result A
  err : Error → Result A

infixl 5 ◌>>=?◌
-- A pure chain of fallible steps.
abbrev pub ◌>>=?◌ {ℓ κ} : {A : Type ℓ} {B : Type κ} → Result A → (A → Result B) → Result B
ok a >>=? f = f a
err e >>=? f = err e

abbrev pub guard : Bool → Error → Result (Unit {0})
guard true e = ok tt
guard false e = err e

abbrev pub or_raise {ℓ} : {A : Type ℓ} → Option A → Error → Result A
or_raise none e = err e
or_raise (some a) e = ok a

pub >>=?-eq-ok {ℓ κ} :
    {A : Type ℓ} {B : Type κ} (m : Result A) (f : A → Result B) {b : B}
    → (m >>=? f) ≡ ok b
    → (a : A) × (m ≡ ok a) × (f a ≡ ok b)
>>=?-eq-ok (ok a) f h = (a, refl, h)
>>=?-eq-ok (err e) f h = cc
