-- ===== src/Transport/InProcess.antt =====
-- `InProcessTransport` and `placement_options` of transport.py: work runs in the calling process.
pub mod Recall
use hedloom.Base.{
  ℕ, String, Bool, true, false, not, ◌&&◌, Option, none, some, List, [], ◌∷◌, str_eq, if◌then◌else◌,
}
use hedloom.Json.{Json, str, obj, Fields, end, field, get, get_or, merge, fields_of, truthy}
use hedloom.Result.{Result, ok, err, ◌>>=?◌, submission_refused}
use hedloom.Transport.{
  Observed, absent, succeeded, failed, Observation, Submission, accepted, refused, Discovery, found,
  not_found, Transport,
}

abbrev is_object : Json → Bool
is_object (obj fs) = true
is_object _ = false

-- `value or {}`, which must be a mapping
abbrev mapping : Json → Result Fields
mapping (obj fs) = ok fs
mapping j = if truthy j then err submission_refused else ok end

-- `placement_options`
unfoldable pub placement_options : Fields → Result Fields
placement_options bundle = mapping (get "placement" bundle) >>=? λ placement.
    mapping (get "requested" placement) >>=? λ requested. mapping (get "options" requested)

-- How a bound implementation ends: a value, or an error with its traceback.
pub data Ending : Type 0 where
  returned : Json → Ending
  threw : String → String → Ending

abbrev pub Implementations : Type 0
Implementations = Json → Option (Fields → Ending)

-- `_results`, the newest first
abbrev pub Results : Type 0
Results = List (String × Observation)

abbrev pub result_of : String → Results → Option Observation
result_of identity [] = none
result_of identity (r ∷ rs) = if str_eq r.0 identity then some r.1 else result_of identity rs

-- `formatted[-RECORDED_TEXT_LIMIT:]` is `tail_of`
abbrev pub observation_of : (String → String) → Ending → Observation
observation_of tail_of (returned value) = record {
  state = succeeded;
  detail = field "value" value end;
}
observation_of tail_of (threw error formatted) = record {
  state = failed;
  detail = field "error" (str error) (field "traceback" (str (tail_of formatted)) end);
}

-- `forget`
unfoldable pub forget : String → Results → Results
forget identity [] = []
forget identity (r ∷ rs) =
    if str_eq r.0 identity then forget identity rs else r ∷ forget identity rs

module _ (implementations : Implementations) (tail_of : String → String) where
  abbrev pub arguments_of : Fields → Fields
  arguments_of bundle =
      merge (fields_of (get "arguments" bundle)) (fields_of (get "resolved_inputs" bundle))

  abbrev pub run : String → Fields → Option (Fields → Ending) → Results → Submission × Results
  run identity bundle none rs = (refused "no implementation is bound for the operation", rs)
  run identity bundle (some f) rs = (
    accepted (
        field "transport" (str "in-process")
          (field "identity" (str identity) (field "workdir" (get "workdir" bundle) end))),
    (identity, observation_of tail_of (f (arguments_of bundle))) ∷ rs,
  )

  -- `submit`
  unfoldable pub submit : String → Fields → Results → Submission × Results
  submit identity bundle rs = run identity bundle (implementations (get "operation" bundle)) rs

  abbrev held_handle : String → Option Observation → Discovery
  held_handle identity none = not_found
  held_handle identity (some o) =
      found (field "transport" (str "in-process") (field "identity" (str identity) end))

  -- `discover`
  unfoldable pub discover : String → Results → Discovery × Results
  discover identity rs = (held_handle identity (result_of identity rs), rs)

  abbrev nothing : Observation
  nothing = record { state = absent; detail = end }

  abbrev or_absent : Option Observation → Observation
  or_absent none = nothing
  or_absent (some o) = o

  abbrev polled_identity : Json → Results → Option Observation
  polled_identity (str identity) rs = result_of identity rs
  polled_identity j rs = none

  -- `poll`
  unfoldable pub poll : Json → Results → Option Observation × Results
  poll handle rs = (some (or_absent (polled_identity (get "identity" (fields_of handle)) rs)), rs)

  -- The class as a transport of the protocol.
  unfoldable pub in_process : Transport Results
  unfolding submit discover poll
  in_process = record {
    name = "in-process";
    substrate = "";
    discovery_is_authoritative = true;
    submit = submit;
    discover = discover;
    poll = poll;
    cancel = λ handle rs. (true, rs);
  }
