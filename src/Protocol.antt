-- ===== src/Protocol.antt =====
-- The whole protocol of one record: every operation, by any process, with restarts and crashes in
-- between, and what the outside world does meanwhile.
pub mod Healthy
pub mod Shown
pub mod Promises
pub mod History
pub mod Progress
mod Examples
mod Trials
use hedloom.Base.{ℕ, String, Bool, false, Option, none, List, []}
use hedloom.Json.{Json, Fields}
use hedloom.Journal.World.{Disk, World}
use hedloom.Journal.World.{empty_disk}
use hedloom.Attempt.Env.{Env}
use hedloom.Attempt.Launch.{launch_or_attach}
use hedloom.Attempt.Launch.Begin.{IsPlaced}
use hedloom.Attempt.Reconcile.{reconcile, request_cancel, accept_for_reuse}
use hedloom.Durability.{execute_recorded}

module _ {S : Type 0} (env : Env S) where
  -- One step of a record's life. A bundle's placement has no key `try`. `restart` is another process,
  -- or another instance, with its own clock and its own time to live, that finds the outside world in
  -- any state.
  pub data Step (w : World S) : World S → Type 0 where
    launch :
        (bundle : Fields) (work_dir : Option String)
        → IsPlaced bundle
        → Step w (launch_or_attach env bundle work_dir w).1
    execute :
        (bundle : Fields) (work_dir : Option String)
        → IsPlaced bundle
        → Step w (execute_recorded env bundle work_dir w).1
    reconciling : (outputs : Json) → Step w (reconcile env outputs w).1
    cancel : (reason : String) → Step w (request_cancel env reason w).1
    accept : (reason : String) → Step w (accept_for_reuse env reason w).1
    restart :
        (lock_free : Bool) (clock : ℕ → String) (fuse : Option ℕ) (outside : S)
        → Step w (record w {
          lock_free = lock_free;
          claim_held = false;
          next_seq = none;
          clock = clock;
          ticks = 0;
          fuse = fuse;
          outside = outside;
        })

  pub data Reach (w : World S) : World S → Type 0 where
    here : Reach w w
    next : {u v : World S} → Reach w u → Step u v → Reach w v

-- A record that nothing has touched.
abbrev pub untouched : {S : Type 0} → S → World S
untouched s = record {
  disk = empty_disk;
  lock_free = Bool.true;
  claim_held = false;
  next_seq = none;
  clock = λ n. "";
  ticks = 0;
  fuse = none;
  outside = s;
  submissions = [];
  selection = none;
  publication_errors = [];
}
