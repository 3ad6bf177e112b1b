-- ===== src/Run/Binding.antt =====
-- run/src/hedloom_run/binding.py, what a run binds to an invocation, and what `_run_one_here` of
-- run/src/hedloom_run/graph.py makes of it.
pub mod Identity
pub mod Examples
use mathlib.Core.Option
use hedloom.Base.{
  ℕ, zero, suc, String, Bool, true, false, ◌&&◌, Option, none, some, List, [], ◌∷◌, str_eq,
  if◌then◌else◌,
}
use hedloom.Json.{
  Json, Items, Fields, null, bool, nat, neg, real, str, arr, obj, nil, item, end, field, lookup,
  get, get_or, put,
}

-- A symbolic reference of a bundle's `input_references`: a source's name, the port of an invocation, or a
-- list. The values of `inputs`, which stand in for them, may be anything else.
mutual
  pub data Reference : Type 0 where
    source : String → Reference
    port : String → String → Reference
    several : References → Reference
    other : Json → Reference

  pub data References : Type 0 where
    none_left : References
    also : Reference → References → References

-- `PlannedInvocation`; `references` is the bundle's `input_references`, where it has them.
pub record Planned : Type 0 where
  pub invocation_id : String
  pub authored_key : Option String
  pub operation : String
  pub depends_on : List String
  pub input_digest : String
  pub bundle : Fields
  pub references : Option (List (String × Reference))
  pub output_names : List String
  pub policy : Fields

-- `produced`: the sources by their names, the outputs by invocation and port.
pub record Produced : Type 0 where
  pub sources : List (String × Json)
  pub ports : List ((String × String) × Json)

abbrev source_value : List (String × Json) → String → Option Json
source_value [] s = none
source_value (p ∷ ps) s = if str_eq p.0 s then some p.1 else source_value ps s

abbrev port_value : List ((String × String) × Json) → String → String → Option Json
port_value [] v n = none
port_value (p ∷ ps) v n = if str_eq p.0.0 v && str_eq p.0.1 n then some p.1 else port_value ps v n

-- `produced.get(reference)`
abbrev produced_at : Produced → Reference → Option Json
produced_at produced (source s) = source_value produced.sources s
produced_at produced (port v n) = port_value produced.ports v n
produced_at produced (several rs) = none
produced_at produced (other v) = none

-- An entry with its identity is read by its value.
abbrev entry_value : Option Json → Json
entry_value none = null
entry_value (some (obj fs)) = elim (lookup "identity" fs) [
  | none ↦ obj fs
  | some i ↦ get "value" fs
]
entry_value (some v) = v

abbrev mutual
  pub resolve : Produced → Reference → Json
  resolve produced (source s) = entry_value (source_value produced.sources s)
  resolve produced (port v n) = entry_value (port_value produced.ports v n)
  resolve produced (several rs) = arr (resolve_all produced rs)
  resolve produced (other v) = null

  resolve_all : Produced → References → Items
  resolve_all produced none_left = nil
  resolve_all produced (also r rs) = item (resolve produced r) (resolve_all produced rs)

abbrev reference_json : Reference → Json
reference_json (source s) = str s
reference_json (port v n) = arr (item (str v) (item (str n) nil))
reference_json (several rs) = null
reference_json (other v) = v

-- `item.bundle.get("source_declarations", {}).get(reference)`
abbrev declaration : Fields → Reference → Json
declaration bundle (source s) = elim (get_or "source_declarations" (obj end) bundle) [
  | obj fs ↦ get s fs
  | _ ↦ null
]
declaration bundle _ = null

abbrev undocumented : Fields → Reference → Option Json → Json
undocumented bundle r entry = obj (
    field "identity" (reference_json r) (
      field "value" (elim entry [ none ↦ null | some v ↦ v ])
        (field "source" (declaration bundle r) end)))

abbrev documented : Fields → Reference → Option Json → Json
documented bundle r (some (obj fs)) = elim (lookup "identity" fs) [
  | none ↦ undocumented bundle r (some (obj fs))
  | some i ↦ obj fs
]
documented bundle r entry = undocumented bundle r entry

abbrev mutual
  pub evidence : Fields → Produced → Reference → Json
  evidence bundle produced (several rs) = arr (evidence_all bundle produced rs)
  evidence bundle produced (source s) =
      documented bundle (source s) (produced_at produced (source s))
  evidence bundle produced (port v n) =
      documented bundle (port v n) (produced_at produced (port v n))
  evidence bundle produced (other v) = documented bundle (other v) none

  evidence_all : Fields → Produced → References → Items
  evidence_all bundle produced none_left = nil
  evidence_all bundle produced (also r rs) =
      item (evidence bundle produced r) (evidence_all bundle produced rs)

abbrev mutual
  reference_of : Json → Reference
  reference_of (str s) = source s
  reference_of (arr xs) = several (references_of xs)
  reference_of v = other v

  references_of : Items → References
  references_of nil = none_left
  references_of (item x xs) = also (reference_of x) (references_of xs)

abbrev each_input : (Reference → Json) → List (String × Reference) → Fields
each_input f [] = end
each_input f (p ∷ ps) = field p.0 (f p.1) (each_input f ps)

abbrev each_value : (Reference → Json) → Fields → Fields
each_value f end = end
each_value f (field k v fs) = field k (f (reference_of v)) (each_value f fs)

-- `resolved_inputs`, given what `bundle["inputs"]` is
abbrev pub resolved : Produced → Option (List (String × Reference)) → Fields → Fields
resolved produced (some rs) inputs = each_input (resolve produced) rs
resolved produced none inputs = each_value (resolve produced) inputs

abbrev pub evident : Fields → Produced → Option (List (String × Reference)) → Fields
evident bundle produced none = end
evident bundle produced (some rs) = each_input (evidence bundle produced) rs

-- `(outputs or {}).get(item.operation)`, where it is not empty
abbrev pub declared_outputs : Fields → String → Option Json
declared_outputs outputs operation = elim (lookup operation outputs) [
  | some (obj (field k v fs)) ↦ some (obj (field k v fs))
  | _ ↦ none
]

abbrev pub with_outputs : Option Json → Fields → Fields
with_outputs none bundle = bundle
with_outputs (some o) bundle = put "outputs" o bundle

abbrev pub placement_entry : Fields → String → String → Json
placement_entry policy placement transport = obj (
    field "requested" (obj policy) (
      field "resolved"
        (obj (field "placement" (str placement) (field "transport" (str transport) end))) end))

-- The `inputs` of a planned bundle is an object.
abbrev pub input_fields : Json → Fields
input_fields (obj fs) = fs
input_fields _ = end

-- The bundle, given what `bundle["inputs"]` is.
abbrev pub bound_bundle : Planned → Produced → String → String → Fields → Json → Fields
bound_bundle i produced placement transport outputs inputs =
    with_outputs (declared_outputs outputs i.operation) (
      put "input_evidence" (obj (evident i.bundle produced i.references)) (
        put "resolved_inputs" (obj (resolved produced i.references (input_fields inputs)))
          (put "placement" (placement_entry i.policy placement transport) i.bundle)))

abbrev pub bound_or_key_error :
    Planned → Produced → String → String → Fields → Option Json → Option Fields
bound_or_key_error i produced placement transport outputs none = none
bound_or_key_error i produced placement transport outputs (some inputs) =
    some (bound_bundle i produced placement transport outputs inputs)

-- `build_bundle`; `none` is the `KeyError` of a bundle without `inputs`.
unfoldable pub build_bundle : Planned → Produced → String → String → Fields → Option Fields
build_bundle i produced placement transport outputs =
    bound_or_key_error i produced placement transport outputs (lookup "inputs" i.bundle)

-- What `_run_one_here` adds before it executes: the priority, and the handle's address where there is one.
abbrev pub with_handle : Option Json → Fields → Fields
with_handle none bundle = bundle
with_handle (some h) bundle = put "_execution_handle" h bundle

abbrev pub controlled : Json → Option Json → Fields → Fields
controlled priority handle bundle =
    with_handle handle (put "scheduling" (obj (field "priority" priority end)) bundle)

-- A bundle whose inputs are resolved is taken as it is.
abbrev pub started : Planned → Produced → String → String → Fields → Option Json → Option Fields
started i produced placement transport outputs none =
    build_bundle i produced placement transport outputs
started i produced placement transport outputs (some inputs) = some i.bundle

-- The bundle that `_run_one_here` executes.
unfoldable pub run_bundle :
    Planned → Produced → String → String → Fields → Json → Option Json → Option Fields
run_bundle i produced placement transport outputs priority handle =
    Option.map (controlled priority handle)
      (started i produced placement transport outputs (lookup "resolved_inputs" i.bundle))
