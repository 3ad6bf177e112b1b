-- ===== src/Run/Execution.antt =====
-- run/src/hedloom_run/execution.py: a dispatch reference is a directory whose gate admits work to Exec at
-- most once. Each method makes its changes under the gate's lock and by one rename or link, so that a method
-- is one step of the directory.
pub mod Selections
pub mod Gate
pub mod Evidence
pub mod Examples
use Prim.Native.String.{◌++◌}
use hedloom.Base.{
  ℕ, zero, suc, String, Bool, true, false, not, ◌&&◌, ◌||◌, Option, none, some, ◌==◌, str_eq,
  if◌then◌else◌, decimal, is_some,
}
use hedloom.Json.{
  Json, Fields, null, bool, nat, neg, real, str, arr, obj, end, field, lookup, get, without,
}

-- A file of the directory: there is none, it is no JSON, or it holds a value.
pub data File : Type 0 where
  absent unreadable : File
  holds : Json → File

-- The directory of a handle.
pub record Directory : Type 0 where
  pub execution : File
  pub state : File
  pub interrupt : File
  pub selection : File
  pub workspace : File

-- What a method does: it returns, or raises `ExecutionError` or `TypeError`.
pub data Reply {ℓ} (A : Type ℓ) : Type ℓ where
  returns : A → Reply A
  execution_error : Reply A
  type_error : Reply A

abbrev is_version_1 : Json → Bool
is_version_1 (nat n) = n == 1
is_version_1 _ = false

abbrev readable : Json → Reply Fields
readable (obj fs) = if is_version_1 (get "schema_version" fs) then returns fs else execution_error
readable _ = execution_error

abbrev pub read_document : File → Reply Fields
read_document absent = execution_error
read_document unreadable = execution_error
read_document (holds v) = readable v

abbrev truth : Bool → ℕ
truth true = 1
truth false = 0

-- `a == b`, where `b` is a value of a document that is written here: a text, a number, a truth value or `None`.
abbrev equal_value : Json → Json → Bool
equal_value null null = true
equal_value (str s) (str t) = str_eq s t
equal_value (nat m) (nat n) = m == n
equal_value (bool b) (nat n) = truth b == n
equal_value (nat n) (bool b) = n == truth b
equal_value (bool b) (bool c) = truth b == truth c
equal_value (real s) (nat n) = str_eq s (decimal n ++ ".0")
equal_value (real s) (bool b) = str_eq s (decimal (truth b) ++ ".0")
equal_value _ _ = false

abbrev equal_found : Option Json → Json → Bool
equal_found none v = false
equal_found (some w) v = equal_value w v

-- Each entry of `new` is in `old`.
abbrev holds_all : Fields → Fields → Bool
holds_all old end = true
holds_all old (field k v fs) = equal_found (lookup k old) v && holds_all old fs

-- Each key of `old` is in `new`.
abbrev keys_within : Fields → Fields → Bool
keys_within end new = true
keys_within (field k v fs) new = is_some (lookup k new) && keys_within fs new

-- The comparison of two documents but for the key `at`.
abbrev pub same_document : Fields → Fields → Bool
same_document old new =
    let old' = without "at" old in
    let new' = without "at" new in holds_all old' new' && keys_within old' new'

-- `{'schema_version': 1, **data}`
abbrev pub document : Fields → Fields
document data_ = field "schema_version" (nat 1) data_

-- A write: the file afterwards, and how the method ends.
abbrev pub Write : Type 0
Write = File × Reply (Unit {0})

-- `write_document`
abbrev pub replace : File → Fields → Write
replace file data_ = (holds (obj (document data_)), returns tt)

abbrev against : File → Fields → Reply Fields → Write
against file new (returns old) =
    if same_document old new then (file, returns tt) else (file, execution_error)
against file new execution_error = (file, execution_error)
against file new type_error = (file, type_error)

-- `write_document(…, immutable=True)`: an existing file stays, and is compared.
abbrev pub link : File → Fields → Write
link absent data_ = (holds (obj (document data_)), returns tt)
link unreadable data_ = against unreadable (document data_) (read_document unreadable)
link (holds v) data_ = against (holds v) (document data_) (read_document (holds v))

pub data Admission : Type 0 where
  ready entered cancelled finished : Admission

abbrev pub admission_text : Admission → String
admission_text ready = "ready"
admission_text entered = "entered"
admission_text cancelled = "cancelled"
admission_text finished = "finished"

abbrev admission : Json → Reply Admission
admission (str s) =
    if str_eq s "ready"
    then returns ready
    else if str_eq s "entered"
    then returns entered
    else if str_eq s "cancelled"
    then returns cancelled
    else if str_eq s "finished"
    then returns finished
    else execution_error
admission (arr xs) = type_error
admission (obj fs) = type_error
admission _ = execution_error

abbrev pub admission_in : Reply Fields → Reply Admission
admission_in (returns fs) = admission (get "state" fs)
admission_in execution_error = execution_error
admission_in type_error = type_error

-- `ExecutionHandle.state`
unfoldable pub state : Directory → Reply Admission
state d = admission_in (read_document d.state)

abbrev pub write_state : Admission → Directory → Directory
write_state a d = record d {
  state = (replace d.state (field "state" (str (admission_text a)) end)).0;
}

-- `ExecutionHandle.create`, of the identifier that `uuid4` gives
unfoldable pub create : String → Directory
create identifier = record {
  execution = (link absent (field "execution_id" (str identifier) end)).0;
  state = holds (obj (document (field "state" (str (admission_text ready)) end)));
  interrupt = absent;
  selection = absent;
  workspace = absent;
}

-- A method: the directory afterwards, and how it ends.
abbrev pub Method {ℓ} : Type ℓ → Type ℓ
Method A = Directory → Directory × Reply A

abbrev pub entering : Directory → Reply Admission → Directory × Reply Bool
entering d (returns ready) = (write_state entered d, returns true)
entering d (returns cancelled) = (d, returns false)
entering d (returns entered) = (d, execution_error)
entering d (returns finished) = (d, execution_error)
entering d execution_error = (d, execution_error)
entering d type_error = (d, type_error)

-- `ExecutionHandle.enter`
unfoldable pub enter : Method Bool
enter d = entering d (state d)

abbrev pub cancelling : Directory → Reply Admission → Directory × Reply Bool
cancelling d (returns ready) = (write_state cancelled d, returns true)
cancelling d (returns cancelled) = (d, returns true)
cancelling d (returns entered) = (d, returns false)
cancelling d (returns finished) = (d, returns false)
cancelling d execution_error = (d, execution_error)
cancelling d type_error = (d, type_error)

-- `ExecutionHandle.cancel_before_start`
unfoldable pub cancel_before_start : Method Bool
cancel_before_start d = cancelling d (state d)

abbrev pub finishing : Directory → Reply Admission → Directory × Reply (Unit {0})
finishing d (returns entered) = (write_state finished d, returns tt)
finishing d (returns ready) = (d, returns tt)
finishing d (returns cancelled) = (d, returns tt)
finishing d (returns finished) = (d, returns tt)
finishing d execution_error = (d, execution_error)
finishing d type_error = (d, type_error)

-- `ExecutionHandle.finish`
unfoldable pub finish : Method (Unit {0})
finish d = finishing d (state d)

abbrev pub said {ℓ} : {A : Type ℓ} → A → Reply (Unit {0}) → Reply A
said a (returns u) = returns a
said a execution_error = execution_error
said a type_error = type_error

abbrev pub interrupting : Directory → Reply Admission → Directory × Reply Bool
interrupting d (returns entered) =
    let written = link d.interrupt (field "requested" (bool true) end) in
    (record d { interrupt = written.0 }, said true written.1)
interrupting d (returns ready) = (d, returns false)
interrupting d (returns cancelled) = (d, returns false)
interrupting d (returns finished) = (d, returns false)
interrupting d execution_error = (d, execution_error)
interrupting d type_error = (d, type_error)

-- `ExecutionHandle.request_interrupt`
unfoldable pub request_interrupt : Method Bool
request_interrupt d = interrupting d (state d)

abbrev is_requested : Reply Fields → Reply Bool
is_requested (returns fs) = returns (elim (get "requested" fs) [ bool b ↦ b | _ ↦ false ])
is_requested execution_error = execution_error
is_requested type_error = type_error

-- `ExecutionHandle.interrupt_requested`
unfoldable pub interrupt_requested : Directory → Reply Bool
interrupt_requested d = elim d.interrupt [
  | absent ↦ returns false
  | unreadable ↦ execution_error
  | holds v ↦ is_requested (readable v)
]
