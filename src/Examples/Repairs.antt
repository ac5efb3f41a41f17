-- ===== src/Examples/Repairs.antt =====
-- A repair that goes on in the session of the run's completed attempt.
use ai_smart_flow.Shared.{◌≡◌, refl, Option, none, some, String}
use ai_smart_flow.Errors.{ok}
use ai_smart_flow.Protocol.Json.{Json, Fields, field_get}
use ai_smart_flow.Protocol.Phase.{RunPhase}
use ai_smart_flow.Protocol.Records.{ArtifactRef}
use ai_smart_flow.State.Records.{RunRecord}
use ai_smart_flow.Cancel.Manager.{object_of}
use ai_smart_flow.Repair.Continuation.{
  ResolvedRepairContinuation, read_continuation, resolve_fields, stored_continuation,
  resolve_repair_continuation,
}
use ai_smart_flow.Repair.Source.{HasSource, resolve-HasSource}
use ai_smart_flow.Examples.Samples.{ref, run_in}

abbrev ref_value : String → Json
ref_value name = Json.obj (
    Fields.field "relativePath" (Json.str name)
      (Fields.field "sha256" (Json.str name) (object_of "size" (Json.num 1))))

abbrev made : Option Json → Option Json → Option Json → Option ArtifactRef
made (some (Json.str path)) (some (Json.str sha)) (some (Json.num size)) =
    some (record { relative_path = path; sha256 = sha; size = size })
made _ _ _ = none

-- The references that are read here: the formats of the texts are not tested.
abbrev parsed : Option Json → Option ArtifactRef
parsed (some (Json.obj fields)) =
    made (field_get fields "relativePath") (field_get fields "sha256") (field_get fields "size")
parsed _ = none

abbrev continuation : Fields
continuation = Fields.field "kind" (Json.str "PI_SESSION_REPAIR") (
    Fields.field "jobId" (Json.str "job") (
      Fields.field "sourceAttemptId" (Json.str "a0") (
        Fields.field "sourceGeneration" (Json.num 0) (
          Fields.field "prompt" (Json.str "repair") (
            Fields.field "expectedPiSessionId" (Json.str "pi") (
              Fields.field "providerRuntimeConfigHash" (Json.str "cfg") (
                Fields.field "workspaceSeedSnapshot" (ref_value "seed")
                  (object_of "sessionArtifact" (ref_value "session")))))))))

abbrev repairing : RunRecord
repairing = record (run_in RunPhase.preparing) {
  recovery = some (
      Fields.field "repairContinuation" (Json.obj continuation)
        (Fields.field "repairRound" (Json.num 1) Fields.end));
}

abbrev resolved : ResolvedRepairContinuation
resolved = record {
  source_attempt_id = "a0";
  prompt = "repair";
  workspace_seed_snapshot = ref "seed";
  expected_pi_session_id = "pi";
  session_artifact = ref "session";
}

resolved_lem : resolve_repair_continuation parsed repairing ≡ ok (some resolved)
unfolding field_get read_continuation resolve_fields resolve_repair_continuation
resolved_lem = refl

resolve-HasSource_example :
    (fields : Fields) × (stored_continuation repairing.recovery ≡ some (Json.obj fields))
    × HasSource parsed repairing fields resolved
resolve-HasSource_example = resolve-HasSource parsed repairing resolved resolved_lem
