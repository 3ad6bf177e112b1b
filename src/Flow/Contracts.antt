-- ===== src/Flow/Contracts.antt =====
-- The `__post_init__` methods of flow/src/hedloom_flow/model.py: what each value requires of its fields,
-- in the order of the checks. `is_identifier` is Python's `str.isidentifier`. The types of the fields are
-- those of `Flow.Values`; a check that only a value of another type fails has no counterpart.
pub mod Paths
pub mod Examples
use hedloom.Base.{
  ℕ, zero, suc, String, Bool, true, false, not, ◌&&◌, ◌||◌, Option, none, some, List, [], ◌∷◌,
  str_eq, any, if◌then◌else◌, is_some, ◌==◌,
}
use hedloom.Flow.Graph.{mem}
use hedloom.Flow.Text.{valid_text, valid_id, matches_id, parts, is_absolute}
use hedloom.Flow.Values.{
  ArtifactContract, ArtifactAddress, InputContract, ConfigContract, OutputContract,
  ResourceContract, Policy, OperationIdentity, FlowIdentity, Implementation, ArtifactSource,
  OutputReference, ArtifactInputBinding, ConfigBinding, Bound, one_reference, members, Invocation,
  DependencyEdge, NamedOutput, FlowBoundary, Plan,
}
use hedloom.Json.{
  Json, Items, Fields, null, bool, nat, neg, real, str, arr, obj, nil, item, end, field, lookup,
  get_or,
}

-- What a constructor does: it makes the value, or raises `ContractError` or `TypeError`.
pub data Checked : Type 0 where
  accepted : Checked
  contract_error : String → Checked
  type_error : Checked

unfoldable pub require : Bool → String → Checked → Checked
require true message rest = rest
require false message rest = contract_error message

-- `if p in xs` raises `TypeError` where `p` cannot be hashed.
abbrev pub hashable : Json → Checked → Checked
hashable (arr xs) rest = type_error
hashable (obj fs) rest = type_error
hashable _ rest = rest

abbrev is_finite : String → Bool
is_finite s = not (str_eq s "nan" || str_eq s "inf" || str_eq s "-inf")

-- `freeze_data` accepts the value.
abbrev mutual
  pub freezable : Json → Bool
  freezable (real s) = is_finite s
  freezable (arr xs) = freezable_items xs
  freezable (obj fs) = freezable_fields fs
  freezable _ = true

  freezable_items : Items → Bool
  freezable_items nil = true
  freezable_items (item x xs) = freezable x && freezable_items xs

  freezable_fields : Fields → Bool
  freezable_fields end = true
  freezable_fields (field k v fs) = freezable v && freezable_fields fs

abbrev require_text : String → Checked → Checked
require_text s = require (valid_text s) "must be a non-empty, trimmed string"

abbrev require_id : String → Checked → Checked
require_id s rest =
    require_text s (require (matches_id s) "must contain only letters, digits and marks" rest)

abbrev is_text : String → Json → Bool
is_text t (str s) = str_eq s t
is_text t _ = false

abbrev is_truth : Json → Bool
is_truth (bool b) = true
is_truth _ = false

abbrev is_true : Json → Bool
is_true (bool b) = b
is_true _ = false

-- A workspace path: relative, and without `..`.
unfoldable pub stays_inside : Json → Bool
stays_inside (str path) =
    not (str_eq path "") && (not (is_absolute path) && not (mem ".." (parts path)))
stays_inside _ = false

abbrev pub path_check : Option Json → Checked
path_check none = accepted
path_check (some path) =
    require (stays_inside path) "output path must stay inside its workspace" accepted

-- The checks of an output's binding, on its fields.
unfoldable pub check_binding : Fields → Checked
check_binding binding =
    let mode = get_or "identity" (str "producer") binding in
    let external = get_or "external" (bool false) binding in
    let shape = get_or "filesystem_kind" (str "file") binding in
    let has_path = is_some (lookup "path" binding) in
    let content = is_text "content" mode in
    let declared = is_text "declared" mode in
    let is_external = is_true external in
    hashable mode (
      require (is_text "producer" mode || content || declared) "unknown output identity" (
        require (is_truth external) "output external must be bool" (
          require (not (is_external && (not (declared || content) || has_path)))
            "external outputs require declared or content identity and no workspace path"
            (require
              (not (content && (not (is_text "file" shape) || (not is_external && not has_path))))
              "content identity requires a file"
              (require (not (declared && (not is_external && not has_path)))
                "declared identity requires a filesystem output"
                (hashable shape (
                  require (is_text "file" shape || is_text "directory" shape)
                    "unknown output filesystem shape" (path_check (lookup "path" binding)))))))))

module _ (is_identifier : String → Bool) where
  abbrev require_name : String → Checked → Checked
  require_name s rest =
      require_text s (require (is_identifier s) "must be a Python identifier" rest)

  abbrev check_artifact_contract : ArtifactContract → Checked
  check_artifact_contract c = require_text c.kind accepted

  abbrev check_address : ArtifactAddress → Checked
  check_address a = require_id a.address_space (require_text a.locator accepted)

  abbrev check_input_contract : InputContract → Checked
  check_input_contract c = require_name c.name accepted

  abbrev check_config_contract : ConfigContract → Checked
  check_config_contract c = require_name c.name accepted

  abbrev check_output_binding : Option Json → Checked
  check_output_binding none = accepted
  check_output_binding (some (obj fs)) =
      require (freezable (obj fs)) "must not contain NaN or infinity" (check_binding fs)
  check_output_binding (some v) =
      require (freezable v) "must not contain NaN or infinity"
        (contract_error "output binding must be a mapping")

  abbrev check_output_contract : OutputContract → Checked
  check_output_contract c = require_name c.name (check_output_binding c.binding)

  -- `amount` is numeric, finite and positive; a float's text is positive where it is not zero and has no sign.
  abbrev is_amount : (String → Bool) → Json → Bool
  is_amount positive (nat n) = not (n == 0)
  is_amount positive (real s) = is_finite s && positive s
  is_amount positive _ = false

  abbrev unit_check : Option String → Checked
  unit_check none = accepted
  unit_check (some u) = require_text u accepted

  -- `positive` is `float(s) > 0`.
  abbrev check_resource_contract : (String → Bool) → ResourceContract → Checked
  check_resource_contract positive c = require_name c.name (
      require (is_amount positive c.amount) "resource amount must be finite and positive"
        (unit_check c.unit))

  abbrev is_mapping : Json → Bool
  is_mapping (obj fs) = true
  is_mapping _ = false

  abbrev check_policy : Policy → Checked
  check_policy p = require_id p.name (
      require (freezable p.options) "must not contain NaN or infinity"
        (require (is_mapping p.options) "policy options must be a mapping" accepted))

  abbrev check_operation_identity : OperationIdentity → Checked
  check_operation_identity i = require_text i.name (require_text i.version accepted)

  abbrev check_flow_identity : FlowIdentity → Checked
  check_flow_identity i = require_text i.name (require_text i.version accepted)

  abbrev check_implementation : Implementation → Checked
  check_implementation i =
      require_text i.entry_point (require_text i.fingerprint (require_text i.kind accepted))

  abbrev check_source : ArtifactSource → Checked
  check_source s = require_id s.id accepted

  abbrev check_output_reference : OutputReference → Checked
  check_output_reference r = require_id r.invocation_id (require_name r.output_name accepted)

  abbrev is_filled : Bound → Bool
  is_filled (members []) = false
  is_filled _ = true

  abbrev check_input_binding : ArtifactInputBinding → Checked
  check_input_binding b =
      require_name b.name
        (require (is_filled b.bound) "collection input binding must not be empty" accepted)

  abbrev check_config_binding : ConfigBinding → Checked
  check_config_binding b =
      require_name b.name (require (freezable b.value) "must not contain NaN or infinity" accepted)

  abbrev id_check : Option String → Checked → Checked
  id_check none rest = rest
  id_check (some s) rest = require_id s rest

  -- `normalize_authored_key`
  abbrev key_check : Option String → Checked
  key_check none = accepted
  key_check (some s) =
      require (matches_id s) "authored key must start with a letter or digit" accepted

  abbrev check_invocation : Invocation → Checked
  check_invocation v = require_id v.id (id_check v.boundary_id (key_check v.authored_key))

  abbrev check_edge : DependencyEdge → Checked
  check_edge e = require_id e.id (
      require_id e.target_invocation_id
        (require_name e.target_input_name (require_text e.artifact_kind accepted)))

  abbrev check_named_output : NamedOutput → Checked
  check_named_output o = require_name o.name accepted

  abbrev check_boundary : FlowBoundary → Checked
  check_boundary b = require_id b.id (id_check b.parent_id (key_check b.authored_key))

  abbrev check_plan : Plan → Checked
  check_plan p = require (p.schema_version == 4) "plan schema_version must be 4" accepted
