-- ===== src/Repair/Continuation.antt =====
-- apps/daemon/src/repair/repair-continuation.ts: the continuation of a worker's session that is stored
-- for a repair. `parse_ref` is `artifactRefSchema.safeParse`, which the schema library carries out:
-- the reference that is read, or none where the value is refused.
use Prim.Native.String.{[] as end_of_text, ◌∷◌ as char_then}
use ai_smart_flow.Shared.{
  ℕ, Bool, false, String, Option, none, some, ◌&&◌, ◌==◌, text_eq, nat_eq, if◌then◌else◌, find,
}
use ai_smart_flow.Errors.{Result, ok, err, ◌>>=◌, ◌>>◌, ensure, thrown}
use ai_smart_flow.Protocol.Json.{Json, Fields, field_get, field_delete, no_fields}
use ai_smart_flow.Protocol.Phase.{is_completed}
use ai_smart_flow.Protocol.Records.{ArtifactRef, artifact_refs_equal, WorkerAttempt}
use ai_smart_flow.Protocol.Refine.{is_some}
use ai_smart_flow.State.Records.{RunRecord}

pub record ResolvedRepairContinuation : Type 0 where
  pub source_attempt_id : String
  pub prompt : String
  pub workspace_seed_snapshot : ArtifactRef
  pub expected_pi_session_id : String
  pub session_artifact : ArtifactRef

-- A text that is there and not empty.
abbrev pub text_of : Option Json → Option String
text_of (some (Json.str end_of_text)) = none
text_of (some (Json.str (char_then c cs))) = some (char_then c cs)
text_of _ = none

-- `value === text`
abbrev pub is_text : String → Option Json → Bool
is_text text (some (Json.str s)) = s == text
is_text text _ = false

abbrev pub number_of : Option Json → Option ℕ
number_of (some (Json.num n)) = some n
number_of _ = none

-- The fields of a continuation that passes the first test.
pub record Continuation : Type 0 where
  pub source_attempt_id : String
  pub source_generation : ℕ
  pub prompt : String
  pub expected_pi_session_id : String
  pub provider_runtime_config_hash : String
  pub workspace_seed_snapshot : ArtifactRef
  pub session_artifact : ArtifactRef

-- `REPAIR_CONTINUATION_INVALID`
abbrev pub required {ℓ} : {A : Type ℓ} → Option A → Result A
required none = err (thrown "REPAIR_CONTINUATION_INVALID")
required (some a) = ok a

abbrev has_round : Option Fields → Bool
has_round none = false
has_round (some recovery) = is_some (field_get recovery "repairRound")

-- The tests are all made before the error is thrown; each gives the same error.
unfoldable pub read_continuation :
    (Option Json → Option ArtifactRef) → RunRecord → Fields → Result Continuation
read_continuation parse_ref run fields = do
  ensure (is_text "PI_SESSION_REPAIR" (field_get fields "kind"))
      (thrown "REPAIR_CONTINUATION_INVALID")
  ensure (is_text run.job_id (field_get fields "jobId")) (thrown "REPAIR_CONTINUATION_INVALID")
  attempt ← required (text_of (field_get fields "sourceAttemptId"))
  generation ← required (number_of (field_get fields "sourceGeneration"))
  prompt ← required (text_of (field_get fields "prompt"))
  session ← required (text_of (field_get fields "expectedPiSessionId"))
  config ← required (text_of (field_get fields "providerRuntimeConfigHash"))
  seed ← required (parse_ref (field_get fields "workspaceSeedSnapshot"))
  artifact ← required (parse_ref (field_get fields "sessionArtifact"))
  ensure (has_round run.recovery) (thrown "REPAIR_CONTINUATION_INVALID")
  ok (record {
    source_attempt_id = attempt;
    source_generation = generation;
    prompt = prompt;
    expected_pi_session_id = session;
    provider_runtime_config_hash = config;
    workspace_seed_snapshot = seed;
    session_artifact = artifact;
  })

-- The tests on the attempt's status, generation and provider.
abbrev pub is_source : Continuation → WorkerAttempt → Bool
is_source c a =
    is_completed a.status
    && a.generation == c.source_generation
    && a.provider_runtime_config_hash == c.provider_runtime_config_hash

-- The tests on its session, which must be there.
abbrev pub resolved_from :
    Continuation
    → WorkerAttempt
    → Option String
    → Option ArtifactRef
    → Result ResolvedRepairContinuation
resolved_from c a (some session) (some artifact) =
    if is_source c a
      && session == c.expected_pi_session_id
      && artifact_refs_equal artifact c.session_artifact
    then ok (record {
      source_attempt_id = a.attempt_id;
      prompt = c.prompt;
      workspace_seed_snapshot = c.workspace_seed_snapshot;
      expected_pi_session_id = session;
      session_artifact = artifact;
    })
    else err (thrown "REPAIR_CONTINUATION_SOURCE_INVALID")
resolved_from c a _ _ = err (thrown "REPAIR_CONTINUATION_SOURCE_INVALID")

abbrev pub from_source : Continuation → Option WorkerAttempt → Result ResolvedRepairContinuation
from_source c none = err (thrown "REPAIR_CONTINUATION_SOURCE_INVALID")
from_source c (some a) = resolved_from c a a.pi_session_id a.session_artifact

-- The rest of `resolveRepairContinuation`, for a continuation that is an object.
unfoldable pub resolve_fields :
    (Option Json → Option ArtifactRef) → RunRecord → Fields → Result ResolvedRepairContinuation
resolve_fields parse_ref run fields = do
  c ← read_continuation parse_ref run fields
  from_source c
      (find (λ (a : WorkerAttempt). a.attempt_id == c.source_attempt_id) run.worker_attempts)

abbrev pub stored_continuation : Option Fields → Option Json
stored_continuation none = none
stored_continuation (some recovery) = field_get recovery "repairContinuation"

abbrev pub resolve_value :
    (Option Json → Option ArtifactRef)
    → RunRecord
    → Option Json
    → Result (Option ResolvedRepairContinuation)
resolve_value parse_ref run none = ok none
resolve_value parse_ref run (some (Json.obj fields)) = do
  resolved ← resolve_fields parse_ref run fields
  ok (some resolved)
resolve_value parse_ref run (some _) = err (thrown "REPAIR_CONTINUATION_INVALID")

-- `resolveRepairContinuation`
unfoldable pub resolve_repair_continuation :
    (Option Json → Option ArtifactRef) → RunRecord → Result (Option ResolvedRepairContinuation)
resolve_repair_continuation parse_ref run =
    resolve_value parse_ref run (stored_continuation run.recovery)

abbrev pub kept_fields : Fields → Option Fields
kept_fields remaining = if no_fields remaining then none else some remaining

-- `clearRepairContinuation`
unfoldable pub clear_repair_continuation : Option Fields → Option Fields
clear_repair_continuation none = none
clear_repair_continuation (some recovery) =
    if is_some (field_get recovery "repairContinuation")
    then kept_fields (field_delete recovery "repairContinuation")
    else some recovery
