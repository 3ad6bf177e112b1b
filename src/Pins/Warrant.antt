-- ===== src/Pins/Warrant.antt =====
-- What a pin of pins.py rests on.
use hedloom.Base.{ℕ, ◌≡◌, true, false, List, any}
use mathlib.Core.List.{Memᴰ}
use hedloom.Result.{Result, ok, err}
use hedloom.Journal.Types.{Pin, AttemptState, try_at}
use hedloom.Journal.World.{Disk, World}
use hedloom.Journal.Disk.{fold_disk}
use hedloom.Journal.Claimed.{IsSeen}
use hedloom.Pins.{PinSite, is_pinned, ended, removes}

-- A record whose try may be pinned: the try has ended, no active pin holds it, and no removal of its
-- workspace is recorded.
pub record IsPinnable (st : AttemptState) (n : ℕ) : Type 0 where
  pub over : ended (try_at n st.tries) ≡ true
  pub unpinned : is_pinned st n ≡ false
  pub not_removed : any (removes n) st.events ≡ false

module _ {S : Type 0} (site : PinSite S) (n : ℕ) (before : World S) where
  -- The promise is in the record, under a new identifier, and was made of a try with its workspace that may
  -- be pinned.
  pub record Warranted (p : Pin) (after : Disk) : Type 0 where
    pub seen : Disk
    pub found : IsSeen before.disk seen
    pub st : AttemptState
    pub folded : fold_disk seen ≡ ok st
    pub was_pinnable : IsPinnable st n
    pub was_there : site.there (site.path n) before.outside ≡ true
    pub now : AttemptState
    pub reads : fold_disk after ≡ ok now
    pub listed : Memᴰ p now.pins

  abbrev Kept : Pin → World S → Type 0
  Kept p w = Warranted p w.disk

  abbrev Any : World S → Type 0
  Any w = Unit

  record Before : Type 0 where
    seen : Disk
    found : IsSeen before.disk seen
    st : AttemptState
    folded : fold_disk seen ≡ ok st
    was_pinnable : IsPinnable st n
    was_there : site.there (site.path n) before.outside ≡ true

  -- How `pin` ends: with a warranted promise, or it raises or is killed.
  abbrev pub Ended : Result Pin × World S → Type 0
  Ended (ok p, w) = Warranted p w.disk
  Ended (err e, w) = Unit
