-- ===== src/Repair/Reading.antt =====
-- apps/daemon/src/repair/repair-continuation.ts: what a continuation that passes the first test holds.
use Prim.Native.String.{[] as end_of_text, ◌∷◌ as char_then}
use ai_smart_flow.Shared.{
  ◌≡◌, ap, subst, ℕ, true, String, Option, none, some, text_eq, eq_iff, some-injective, arith,
}
use ai_smart_flow.Errors.{ok, ok-injective, >>=-eq-ok, ensure-true}
use ai_smart_flow.Protocol.Json.{Json, Fields, field_get}
use ai_smart_flow.Protocol.Records.{ArtifactRef}
use ai_smart_flow.State.Records.{RunRecord}
use ai_smart_flow.Repair.Continuation.{
  Continuation, text_of, number_of, is_text, required, read_continuation,
}

-- The stored fields that a continuation was read from.
pub record IsRead (parse_ref : Option Json → Option ArtifactRef) (run : RunRecord) (fields : Fields)
    (c : Continuation) : Type 0 where
  pub job : field_get fields "jobId" ≡ some (Json.str run.job_id)
  pub attempt : field_get fields "sourceAttemptId" ≡ some (Json.str c.source_attempt_id)
  pub generation : field_get fields "sourceGeneration" ≡ some (Json.num c.source_generation)
  pub prompt : field_get fields "prompt" ≡ some (Json.str c.prompt)
  pub session : field_get fields "expectedPiSessionId" ≡ some (Json.str c.expected_pi_session_id)
  pub config :
      field_get fields "providerRuntimeConfigHash" ≡ some (Json.str c.provider_runtime_config_hash)
  pub seed : parse_ref (field_get fields "workspaceSeedSnapshot") ≡ some c.workspace_seed_snapshot
  pub artifact : parse_ref (field_get fields "sessionArtifact") ≡ some c.session_artifact

required-some {ℓ} : {A : Type ℓ} (o : Option A) (a : A) → required o ≡ ok a → o ≡ some a
required-some none a h = absurd (ground arith)
required-some (some b) a h = ap some (ok-injective _ _ h)

text_of-some : (o : Option Json) (t : String) → text_of o ≡ some t → o ≡ some (Json.str t)
text_of-some none t h = absurd (ground arith)
text_of-some (some (Json.str end_of_text)) t h = absurd (ground arith)
text_of-some (some (Json.str (char_then c cs))) t h =
    ap (λ x. some (Json.str x)) (some-injective _ _ h)
text_of-some (some Json.null) t h = absurd (ground arith)
text_of-some (some (Json.bool b)) t h = absurd (ground arith)
text_of-some (some (Json.num n)) t h = absurd (ground arith)
text_of-some (some (Json.arr items)) t h = absurd (ground arith)
text_of-some (some (Json.obj fields)) t h = absurd (ground arith)

number_of-some : (o : Option Json) (n : ℕ) → number_of o ≡ some n → o ≡ some (Json.num n)
number_of-some none t h = absurd (ground arith)
number_of-some (some (Json.num n)) t h = ap (λ x. some (Json.num x)) (some-injective _ _ h)
number_of-some (some Json.null) t h = absurd (ground arith)
number_of-some (some (Json.bool b)) t h = absurd (ground arith)
number_of-some (some (Json.str s)) t h = absurd (ground arith)
number_of-some (some (Json.arr items)) t h = absurd (ground arith)
number_of-some (some (Json.obj fields)) t h = absurd (ground arith)

is_text-some : (text : String) (o : Option Json) → is_text text o ≡ true → o ≡ some (Json.str text)
is_text-some text none h = absurd (ground arith)
is_text-some text (some (Json.str s)) h = ap (λ x. some (Json.str x)) ((eq_iff s text).0 h)
is_text-some text (some Json.null) h = absurd (ground arith)
is_text-some text (some (Json.bool b)) h = absurd (ground arith)
is_text-some text (some (Json.num n)) h = absurd (ground arith)
is_text-some text (some (Json.arr items)) h = absurd (ground arith)
is_text-some text (some (Json.obj fields)) h = absurd (ground arith)

required_text : (o : Option Json) (t : String) → required (text_of o) ≡ ok t → o ≡ some (Json.str t)
required_text o t h = text_of-some o t (required-some (text_of o) t h)

pub read_continuation-IsRead :
    (parse_ref : Option Json → Option ArtifactRef) (run : RunRecord) (fields : Fields)
    (c : Continuation)
    → read_continuation parse_ref run fields ≡ ok c
    → IsRead parse_ref run fields c
unfolding read_continuation
read_continuation-IsRead parse_ref run fields c h =
    let (_, h1) = ensure-true _ _ _ h in
    let (job, h2) = ensure-true _ _ _ h1 in
    let (attempt, e3, h3) =
      >>=-eq-ok (required (text_of (field_get fields "sourceAttemptId"))) _ h2 in
    let (generation, e4, h4) =
      >>=-eq-ok (required (number_of (field_get fields "sourceGeneration"))) _ h3 in
    let (prompt, e5, h5) = >>=-eq-ok (required (text_of (field_get fields "prompt"))) _ h4 in
    let (session, e6, h6) =
      >>=-eq-ok (required (text_of (field_get fields "expectedPiSessionId"))) _ h5 in
    let (config, e7, h7) =
      >>=-eq-ok (required (text_of (field_get fields "providerRuntimeConfigHash"))) _ h6 in
    let (seed, e8, h8) =
      >>=-eq-ok (required (parse_ref (field_get fields "workspaceSeedSnapshot"))) _ h7 in
    let (artifact, e9, h9) =
      >>=-eq-ok (required (parse_ref (field_get fields "sessionArtifact"))) _ h8 in
    let (_, h10) = ensure-true _ _ _ h9 in
    subst (IsRead parse_ref run fields) (ok-injective _ _ h10) (record {
      job = is_text-some run.job_id (field_get fields "jobId") job;
      attempt = required_text _ attempt e3;
      generation = number_of-some _ generation (required-some _ generation e4);
      prompt = required_text _ prompt e5;
      session = required_text _ session e6;
      config = required_text _ config e7;
      seed = required-some _ seed e8;
      artifact = required-some _ artifact e9;
    })
