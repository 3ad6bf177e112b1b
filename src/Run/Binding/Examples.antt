-- ===== src/Run/Binding/Examples.antt =====
-- One invocation that takes the output of another.
use Prim.Native.String.{◌++◌}
use hedloom.Base.{String, ◌≡◌, refl, some, [], ◌∷◌}
use hedloom.Json.{Fields, field, end, str, nat, obj}
use hedloom.Reuse.{input_digest}
use hedloom.Run.Binding.{Planned, Reference, Produced, build_bundle, run_bundle}
use hedloom.Run.Binding.Identity.{binding_keeps_identity}
use hedloom.Run.Placement.{
  Offered, by_name, select_transport, placement_resource, admission, task_key,
}

abbrev pub planned : Planned
planned = record {
  invocation_id = "invoke:2";
  authored_key = some "fine";
  operation = "refine";
  depends_on = "invoke:1" ∷ [];
  input_digest = "0123456789";
  bundle =
      field "operation" (str "refine") (field "inputs" (obj (field "raw" (str "digest") end)) end);
  references = some (("raw", Reference.port "invoke:1" "made") ∷ []);
  output_names = [];
  policy = field "name" (str "farm") end;
}

abbrev produced : Produced
produced = record {
  sources = [];
  ports =
      (("invoke:1", "made"), obj (field "identity" (str "i") (field "value" (str "/out/a") end)))
      ∷ [];
}

abbrev digest_text : Fields → String
digest_text fs = "digest"

abbrev bound : Fields
bound = field "operation" (str "refine") (
    field "inputs" (obj (field "raw" (str "digest") end)) (
      field "placement"
        (obj (
          field "requested" (obj (field "name" (str "farm") end)) (
            field "resolved"
              (obj (field "placement" (str "farm") (field "transport" (str "t") end))) end)))
        (field "resolved_inputs" (obj (field "raw" (str "/out/a") end)) (
          field "input_evidence"
            (obj (
              field "raw" (obj (field "identity" (str "i") (field "value" (str "/out/a") end)))
                end))
            (field "scheduling" (obj (field "priority" (nat 3) end))
              (field "_execution_handle" (str "/h") end))))))

bound-planned : run_bundle planned produced "farm" "t" end (nat 3) (some (str "/h")) ≡ some bound
unfolding run_bundle build_bundle
bound-planned = refl

binding_keeps_identity_example :
    input_digest digest_text bound ≡ input_digest digest_text planned.bundle
binding_keeps_identity_example =
    binding_keeps_identity digest_text planned produced "farm" "t" end (nat 3) (some (str "/h"))
      bound-planned refl

abbrev farm : Offered String
farm = by_name (("farm", "lsf") ∷ [])

selected : select_transport planned farm ≡ some ("farm", "lsf")
unfolding select_transport
selected = refl

admitted : admission planned farm ≡ (placement_resource ++ "farm", 1) ∷ []
unfolding admission
admitted = refl

task : task_key planned ≡ "refine-fine-01234567"
task = refl
