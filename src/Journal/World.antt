-- ===== src/Journal/World.antt =====
-- The durable directory of one record, the journal instance that works on it, and methods that may
-- raise, or be cut short when the process is killed.
use hedloom.Base.{ℕ, zero, suc, ◌+◌, String, Bool, false, Option, none, some, List, []}
use hedloom.Json.{Json, Fields}
use hedloom.Result.{Error, Result, ok, err, killed}
use hedloom.Journal.Types.{JournalEvent}

-- The file `layout`: the number it holds, or what is wrong with it.
pub data LayoutFile : Type 0 where
  absent unreadable : LayoutFile
  version : ℕ → LayoutFile

-- A line of `events.jsonl`: blank, no JSON, no object with the keys of an event, or an event.
pub data Line : Type 0 where
  blank garbage shapeless : Line
  event_line : JournalEvent → Line

-- A manifest file: an object, or text that is no JSON.
pub data Document : Type 0 where
  unreadable_text : Document
  document : Fields → Document

-- `tail` is a last line that no line feed ends.
pub record Disk : Type 0 where
  pub exists : Bool
  pub layout : LayoutFile
  pub lines : List Line
  pub tail : Option Line
  pub manifest : ℕ → Option Document
  pub standing : Option Document

abbrev pub empty_disk : Disk
empty_disk = record {
  exists = false;
  layout = absent;
  lines = [];
  tail = none;
  manifest = λ n. none;
  standing = none;
}

-- An actually selected try.
pub record Selection : Type 0 where
  pub try_number : ℕ
  pub disposition : String
  pub workspace_known : Bool
  pub workspace : Json

-- `fuse` counts the durable steps left before the process is killed; `none` is a process that lives
-- on. `submissions` is a history variable: the try numbers for which `transport.submit` was called.
pub record World (S : Type 0) : Type 0 where
  pub disk : Disk
  pub lock_free : Bool
  pub claim_held : Bool
  pub next_seq : Option ℕ
  pub clock : ℕ → String
  pub ticks : ℕ
  pub fuse : Option ℕ
  pub outside : S
  pub submissions : List ℕ
  pub selection : Option Selection
  pub publication_errors : List String

abbrev pub Exec : Type 0 → Type 0 → Type 0
Exec S A = World S → Result A × World S

module _ {S A : Type 0} where
  unfoldable pub pure : A → Exec S A
  pure a w = (ok a, w)

  unfoldable pub raise : Error → Exec S A
  raise e w = (err e, w)

  unfoldable pub lift : Result A → Exec S A
  lift r w = (r, w)

  unfoldable pub gets : (World S → A) → Exec S A
  gets f w = (ok (f w), w)

module _ {S A B : Type 0} where
  abbrev pub resume : (A → Exec S B) → Result A → World S → Result B × World S
  resume f (ok a) w = f a w
  resume f (err e) w = (err e, w)

  infixl 5 ◌>>=◌ ◌>>◌
  unfoldable pub ◌>>=◌ : Exec S A → (A → Exec S B) → Exec S B
  ◌>>=◌ m f w = let (r, w') = m w in resume f r w'

  abbrev pub ◌>>◌ : Exec S A → Exec S B → Exec S B
  m >> n = m >>= λ _. n

module _ {S : Type 0} where
  unfoldable pub modify : (World S → World S) → Exec S (Unit {0})
  modify f w = (ok tt, f w)

  abbrev pub burn : Option ℕ → (World S → World S) → World S → Result (Unit {0}) × World S
  burn none f w = (ok tt, f w)
  burn (some zero) f w = (err killed, w)
  burn (some (suc k)) f w = (ok tt, record (f w) { fuse = some k })

  -- One step that is atomic and durable: a flushed append, a rename, a call of the substrate.
  unfoldable pub durable : (World S → World S) → Exec S (Unit {0})
  durable f w = burn w.fuse f w

  unfoldable pub write : (Disk → Disk) → Exec S (Unit {0})
  unfolding durable
  write f = durable (λ w. record w { disk = f w.disk })

  -- `_now()`
  unfoldable pub now : Exec S String
  now w = (ok (w.clock w.ticks), record w { ticks = w.ticks + 1 })
