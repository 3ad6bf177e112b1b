-- ===== src/Run/Placement.antt =====
-- `select_transport` of run/src/hedloom_run/binding.py, and the helpers of run/src/hedloom_run/graph.py that
-- read one invocation. A policy's name is a text.
use Prim.Native.String.{◌++◌}
use hedloom.Base.{ℕ, zero, suc, String, Option, none, some, List, [], ◌∷◌, str_eq, if◌then◌else◌}
use hedloom.Json.{str, get}
use hedloom.Run.Binding.{Planned}

-- `_placement_of`
abbrev pub placement_of : Planned → String
placement_of i = elim (get "name" i.policy) [
  | str s ↦ (if str_eq s "" then "local" else s)
  | _ ↦ "local"
]

-- The substrates that a run offers: by name, or one for every name (`AnyPlacement`).
pub data Offered {ℓ} (T : Type ℓ) : Type ℓ where
  by_name : List (String × T) → Offered T
  any_placement : T → Offered T

abbrev transport_at {ℓ} : {T : Type ℓ} → List (String × T) → String → Option T
transport_at [] n = none
transport_at (p ∷ ps) n = if str_eq p.0 n then some p.1 else transport_at ps n

abbrev pub offered_at {ℓ} : {T : Type ℓ} → Offered T → String → Option T
offered_at (by_name ts) n = transport_at ts n
offered_at (any_placement t) n = some t

abbrev pub chosen {ℓ} : {T : Type ℓ} → String → Option T → Option (String × T)
chosen name none = none
chosen name (some t) = some (name, t)

-- `select_transport`; `none` is `UnsupportedPlacement`.
unfoldable pub select_transport {ℓ} : {T : Type ℓ} → Planned → Offered T → Option (String × T)
select_transport i offered = chosen (placement_of i) (offered_at offered (placement_of i))

-- `PLACEMENT_RESOURCE` of run/src/hedloom_run/site.py
abbrev pub placement_resource : String
placement_resource = "placement:"

-- `_admission`: the placements that a task takes a unit of.
unfoldable pub admission {ℓ} : {T : Type ℓ} → Planned → Offered T → List (String × ℕ)
admission i offered = elim (offered_at offered (placement_of i)) [
  | none ↦ []
  | some t ↦ (placement_resource ++ placement_of i, 1) ∷ []
]

abbrev first_chars : ℕ → String → String
first_chars zero s = ""
first_chars (suc n) String.[] = ""
first_chars (suc n) (String.◌∷◌ c s) = String.◌∷◌ c (first_chars n s)

abbrev name_of : Planned → String
name_of i = elim i.authored_key [
  | none ↦ i.invocation_id
  | some k ↦ (if str_eq k "" then i.invocation_id else k)
]

-- `_task_key`
abbrev pub task_key : Planned → String
task_key i = i.operation ++ ("-" ++ (name_of i ++ ("-" ++ first_chars 8 i.input_digest)))
