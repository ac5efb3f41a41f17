-- ===== src/Repair/Source.antt =====
-- apps/daemon/src/repair/repair-continuation.ts: where a resolved continuation comes from.
use ai_smart_flow.Shared.{
  ◌≡◌, refl, ◌∙◌, ap, sym, subst, eq_iff, Option-cases, some-injective, true, inl, inr, String,
  Option, none, some, ◌&&◌, ◌==◌, text_eq, nat_eq, find, find-any, &&-left, &&-right, Eq,
  Bool-cases, arith,
}
use ai_smart_flow.Errors.{ok, ok-injective, >>=-eq-ok}
use ai_smart_flow.Protocol.Json.{Json, Fields, field_get, field_delete, field_get-delete}
use ai_smart_flow.Protocol.Phase.{is_completed}
use ai_smart_flow.Protocol.Records.{ArtifactRef, artifact_refs_equal, WorkerAttempt}
use ai_smart_flow.State.Records.{RunRecord}
use ai_smart_flow.Repair.Reading.{IsRead, read_continuation-IsRead}
use ai_smart_flow.Repair.Continuation.{
  ResolvedRepairContinuation, Continuation, read_continuation, is_source, resolved_from,
  from_source, resolve_fields, resolve_value, stored_continuation, resolve_repair_continuation,
  kept_fields, clear_repair_continuation,
}

-- The attempt that a resolved continuation goes on with, as the stored fields name it.
pub record HasSource (parse_ref : Option Json → Option ArtifactRef) (run : RunRecord)
    (fields : Fields) (r : ResolvedRepairContinuation) : Type 0 where
  pub source : WorkerAttempt
  pub found :
      find (λ (a : WorkerAttempt). a.attempt_id == r.source_attempt_id) run.worker_attempts
      ≡ some source
  pub completed : is_completed source.status ≡ true
  pub job : field_get fields "jobId" ≡ some (Json.str run.job_id)
  pub named : field_get fields "sourceAttemptId" ≡ some (Json.str r.source_attempt_id)
  pub generation : field_get fields "sourceGeneration" ≡ some (Json.num source.generation)
  pub config :
      field_get fields "providerRuntimeConfigHash"
      ≡ some (Json.str source.provider_runtime_config_hash)
  pub session : source.pi_session_id ≡ some r.expected_pi_session_id
  pub session_named :
      field_get fields "expectedPiSessionId" ≡ some (Json.str r.expected_pi_session_id)
  pub artifact : source.session_artifact ≡ some r.session_artifact
  pub artifact_named : parse_ref (field_get fields "sessionArtifact") ≡ some r.session_artifact
  pub seed : parse_ref (field_get fields "workspaceSeedSnapshot") ≡ some r.workspace_seed_snapshot
  pub prompt : field_get fields "prompt" ≡ some (Json.str r.prompt)

beq→eq {ℓ} : {A : Type ℓ} ⦃e : Eq A⦄ {a b : A} → (a == b) ≡ true → a ≡ b
beq→eq ⦃e⦄ {a} {b} h = (e.beq_iff a b).0 h

refs_equal→eq : (a b : ArtifactRef) → artifact_refs_equal a b ≡ true → a ≡ b
refs_equal→eq a b h =
    let path : a.relative_path ≡ b.relative_path = beq→eq (&&-left _ _ (&&-left _ _ h)) in
    let sha : a.sha256 ≡ b.sha256 = beq→eq (&&-right _ _ (&&-left _ _ h)) in
    let size : a.size ≡ b.size = beq→eq (&&-right _ _ h) in
    λ i. record { relative_path = path i; sha256 = sha i; size = size i }

module _ (parse_ref : Option Json → Option ArtifactRef) (run : RunRecord) (fields : Fields)
    (c : Continuation) (read : IsRead parse_ref run fields c) (a : WorkerAttempt)
    (found : find (λ (x : WorkerAttempt). x.attempt_id == c.source_attempt_id) run.worker_attempts
      ≡ some a) where
  same_id : a.attempt_id ≡ c.source_attempt_id
  same_id = (eq_iff a.attempt_id c.source_attempt_id).0 (
      find-any (λ (x : WorkerAttempt). x.attempt_id == c.source_attempt_id) run.worker_attempts a
        found)

  by_its_id :
      find (λ (x : WorkerAttempt). x.attempt_id == a.attempt_id) run.worker_attempts ≡ some a
  by_its_id =
      subst (λ id. find (λ (x : WorkerAttempt). x.attempt_id == id) run.worker_attempts ≡ some a)
        (sym same_id) found

  resolved-source :
      (session : Option String) (artifact : Option ArtifactRef) (r : ResolvedRepairContinuation)
      → a.pi_session_id ≡ session
      → a.session_artifact ≡ artifact
      → resolved_from c a session artifact ≡ ok r
      → HasSource parse_ref run fields r
  resolved-source (some session) (some artifact) r s t h =
      elim (Bool-cases (
        is_source c a
        && session == c.expected_pi_session_id
        && artifact_refs_equal artifact c.session_artifact)) [
          | inl holds ↦
              let source = &&-left _ _ (&&-left _ _ holds) in
              let same_session : session ≡ c.expected_pi_session_id =
                beq→eq (&&-right _ _ (&&-left _ _ holds)) in
              let same_artifact = refs_equal→eq artifact c.session_artifact (&&-right _ _ holds) in
              let same_generation : a.generation ≡ c.source_generation =
                beq→eq (&&-right _ _ (&&-left _ _ source)) in
              let same_config : a.provider_runtime_config_hash ≡ c.provider_runtime_config_hash =
                beq→eq (&&-right _ _ source) in
              subst (HasSource parse_ref run fields) (ok-injective _ _ (rw holds at h)) (record {
                source = a;
                found = by_its_id;
                completed = &&-left _ _ (&&-left _ _ source);
                job = read.job;
                named = read.attempt ∙ ap (λ x. some (Json.str x)) (sym same_id);
                generation = read.generation ∙ ap (λ x. some (Json.num x)) (sym same_generation);
                config = read.config ∙ ap (λ x. some (Json.str x)) (sym same_config);
                session = s;
                session_named = read.session ∙ ap (λ x. some (Json.str x)) (sym same_session);
                artifact = t;
                artifact_named = read.artifact ∙ ap some (sym same_artifact);
                seed = read.seed;
                prompt = read.prompt;
              })
          | inr fails ↦ absurd (ground (arith, fails, h))
        ]
  resolved-source none artifact r s t h = absurd (ground arith)
  resolved-source (some session) none r s t h = absurd (ground arith)

module _ (parse_ref : Option Json → Option ArtifactRef) (run : RunRecord) where
  found-source :
      (fields : Fields) (c : Continuation) (r : ResolvedRepairContinuation)
      → IsRead parse_ref run fields c
      → from_source c
          (find (λ (a : WorkerAttempt). a.attempt_id == c.source_attempt_id) run.worker_attempts)
        ≡ ok r
      → HasSource parse_ref run fields r
  found-source fields c r read h =
      elim (Option-cases
        (find (λ (a : WorkerAttempt). a.attempt_id == c.source_attempt_id) run.worker_attempts)) [
          | inl missing ↦ absurd (ground (arith, missing, h))
          | inr (a, found) ↦
              resolved-source parse_ref run fields c read a found a.pi_session_id a.session_artifact
                r refl refl (rw found at h)
        ]

  fields-source :
      (fields : Fields) (r : ResolvedRepairContinuation)
      → resolve_fields parse_ref run fields ≡ ok r
      → HasSource parse_ref run fields r
  unfolding resolve_fields
  fields-source fields r h =
      let (c, e, k) =
        >>=-eq-ok (read_continuation parse_ref run fields)
          (λ c.
            from_source c (
              find (λ (a : WorkerAttempt). a.attempt_id == c.source_attempt_id)
                run.worker_attempts))
          h in
      found-source fields c r (read_continuation-IsRead parse_ref run fields c e) k

  value-source :
      (value : Option Json) (r : ResolvedRepairContinuation)
      → resolve_value parse_ref run value ≡ ok (some r)
      → (fields : Fields) × (value ≡ some (Json.obj fields)) × HasSource parse_ref run fields r
  value-source none r h = absurd (ground arith)
  value-source (some (Json.obj fields)) r h =
      let (q, k, e) = >>=-eq-ok (resolve_fields parse_ref run fields) (λ q. ok (some q)) h in
      (fields, refl, fields-source fields r (k ∙ ap ok (some-injective _ _ (ok-injective _ _ e))))
  value-source (some Json.null) r h = absurd (ground arith)
  value-source (some (Json.bool b)) r h = absurd (ground arith)
  value-source (some (Json.num n)) r h = absurd (ground arith)
  value-source (some (Json.str t)) r h = absurd (ground arith)
  value-source (some (Json.arr items)) r h = absurd (ground arith)

  -- A continuation that is resolved was stored as an object, which names the run's job. Its attempt
  -- is the first one of the run with the id that is stored there; it has COMPLETED, and has the
  -- generation, the provider's configuration hash, the session and the session artifact that are
  -- stored. The answer has that session and artifact, and the stored prompt and seed.
  pub resolve-HasSource :
      (r : ResolvedRepairContinuation)
      → resolve_repair_continuation parse_ref run ≡ ok (some r)
      → (fields : Fields) × (stored_continuation run.recovery ≡ some (Json.obj fields))
        × HasSource parse_ref run fields r
  unfolding resolve_repair_continuation
  resolve-HasSource r h = value-source (stored_continuation run.recovery) r h

kept-stored :
    (rest : Fields)
    → field_get rest "repairContinuation" ≡ none
    → stored_continuation (kept_fields rest) ≡ none
kept-stored Fields.end h = refl
kept-stored (Fields.field k v rest) h = h

cleared-stored :
    (recovery : Option Fields) → stored_continuation (clear_repair_continuation recovery) ≡ none
unfolding clear_repair_continuation
cleared-stored none = refl
cleared-stored (some recovery) = elim (Option-cases (field_get recovery "repairContinuation")) [
  | inl missing ↦ rw missing missing
  | inr (value, there) ↦ rw there (
      kept-stored (field_delete recovery "repairContinuation")
        (field_get-delete recovery "repairContinuation" "repairContinuation"))
]

-- A run whose continuation is cleared starts afresh: there is nothing to resolve.
pub resolve-clear :
    (parse_ref : Option Json → Option ArtifactRef) (run : RunRecord)
    → resolve_repair_continuation parse_ref
        (record run { recovery = clear_repair_continuation run.recovery })
      ≡ ok none
unfolding resolve_repair_continuation
resolve-clear parse_ref run =
    ap (resolve_value parse_ref (record run { recovery = clear_repair_continuation run.recovery }))
      (cleared-stored run.recovery)
