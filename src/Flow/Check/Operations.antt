-- ===== src/Flow/Check/Operations.antt =====
-- The checks of operations and of source declarations in flow/src/hedloom_flow/model.py.
use hedloom.Base.{ℕ, String, not, ◌&&◌, List, [], ◌∷◌, ◌++◌, map, if◌then◌else◌}
use hedloom.Flow.Graph.{mem}
use hedloom.Flow.Text.{valid_id, valid_text}
use hedloom.Flow.Values.{
  InputContract, ConfigContract, OutputContract, ResourceContract, OperationDefinition,
  ArtifactSource,
}
use hedloom.Flow.Check.{
  Issue, issue, issue_if, Place, root, under, nth, unique_names, duplicate_input_contract,
  duplicate_config_contract, duplicate_output_contract, duplicate_resource_contract,
  binding_name_collision, invalid_source_address,
}

-- The members of `input_names & config_names`, as often as a set holds them.
abbrev collisions : List String → List String → List String
collisions [] config = []
collisions (n ∷ ns) config =
    if mem n config && not (mem n ns) then n ∷ collisions ns config else collisions ns config

abbrev collision_issues : Place → List String → List Issue
collision_issues path [] = []
collision_issues path (n ∷ ns) = issue binding_name_collision path ++ collision_issues path ns

abbrev pub operation_issues : ℕ → OperationDefinition → List Issue
operation_issues i o =
    let path = nth (root "operations") i in
    let inputs = map InputContract.name o.inputs in
    let config = map ConfigContract.name o.config in
    unique_names duplicate_input_contract (under path "inputs") inputs
    ++ (unique_names duplicate_config_contract (under path "config") config
        ++ (unique_names duplicate_output_contract (under path "outputs")
              (map OutputContract.name o.outputs)
            ++ (unique_names duplicate_resource_contract (under path "resources")
                  (map ResourceContract.name o.resources)
                ++ collision_issues path (collisions inputs config))))

-- `_validate_source_declaration`, of a declaration of the right types
abbrev pub source_issues : ℕ → ArtifactSource → List Issue
source_issues i s =
    let path = nth (root "sources") i in
    issue_if (not (valid_id s.address.address_space)) invalid_source_address
      (under (under path "address") "address_space")
    ++ issue_if (not (valid_text s.address.locator)) invalid_source_address
        (under (under path "address") "locator")
