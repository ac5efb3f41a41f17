-- ===== src/Examples/Publishing.antt =====
-- A publication of one new file by the filesystem adapter, and the service's answer.
use ai_smart_flow.Shared.{
  ℕ, ◌≡◌, refl, Bool, true, false, String, none, some, List, [], ◌∷◌, ◌==◌, nat_eq, text_eq, get,
  put, All, if◌then◌else◌, length,
}
use ai_smart_flow.Errors.{ok}
use ai_smart_flow.Protocol.Records.{PublishStatus}
use ai_smart_flow.Publish.Operations.{
  FilePath, path_eq, resolved, ApplyOperation, OperationType, OldKind, canonical_operations,
  path_safe, operation_valid,
}
use ai_smart_flow.Publish.Target.{
  Tree, file, directory, place, path_contains_symlink, observed_file, preflight_reason,
  preflight_operations,
}
use ai_smart_flow.Publish.Results.{
  ApplyResult, observed_status, path_result, observe, conflict_result,
}
use ai_smart_flow.Publish.Staging.{Disk, stage, commit_all}
use ai_smart_flow.Publish.Adapter.{Target, apply}
use ai_smart_flow.Publish.Applied.{apply_committed, apply-again}
use ai_smart_flow.Publish.Outcome.{IsApplied}
use ai_smart_flow.Publish.Preflight.{IsExpected, preflight_clean}
use ai_smart_flow.Publish.Reconcile.{reconcile}
use ai_smart_flow.Publish.Confirmed.{IsConfirmed}
use ai_smart_flow.Publish.Service.{
  AttemptStore, ApplyAdapter, unknown_result, observe_recovery, recover, finish,
}
use ai_smart_flow.Publish.Publication.{publish}
use ai_smart_flow.Publish.Reported.{publish-IsConfirmed}

unfoldable pub publications : Unit {0}
unfolding resolved canonical_operations path_safe operation_valid path_contains_symlink
    observed_file preflight_reason preflight_operations observed_status path_result observe
    conflict_result stage commit_all apply get put reconcile observe_recovery recover finish publish
publications = tt

abbrev pub digest : List ℕ → String
digest bytes = if length bytes == 2 then "h2" else "other"

abbrev pub addition : ApplyOperation
addition = record {
  path = "src" ∷ "a.ts" ∷ [];
  type = OperationType.add;
  expected_old_kind = OldKind.absent;
  expected_old_hash = none;
  expected_old_mode = none;
  new_hash = some "h2";
  new_mode = some 420;
  blob_ref = some (record { relative_path = "blobs/h2"; sha256 = "sha256:h2"; size = 2 });
}

abbrev pub disk : Disk
disk = record {
  read_blob = λ r. some (7 ∷ 7 ∷ []);
  stage_fails = λ p. false;
  commit_fails = λ p. false;
  during_staging = λ tree. tree;
  before_commit = λ tree. tree;
  conflict_write_fails = false;
  result_write_fails = false;
  entry_of = λ tree path. path;
  target_of = λ tree path. path;
}

abbrev pub never_before : FilePath → FilePath → Bool
never_before p q = false

abbrev pub hash_all : List ApplyOperation → String
hash_all os = "ops"

-- A directory that holds README, and one that holds `src/a.ts` besides.
abbrev pub readme : Tree
readme path = if path == ("README" ∷ []) then some (file (1 ∷ []) 420) else none

abbrev pub populated : Tree
populated = place readme ("src" ∷ "a.ts" ∷ []) (some (file (7 ∷ []) 420))

abbrev pub before : Target
before = record { tree = readme; results = [] }

abbrev pub tree_after : Tree
tree_after =
    place (place readme ("src" ∷ []) (some directory)) ("src" ∷ "a.ts" ∷ [])
      (some (file (7 ∷ 7 ∷ []) 420))

abbrev pub answer : ApplyResult
answer = observe digest "op" "ops" (addition ∷ []) tree_after

abbrev pub after : Target
after = record { tree = tree_after; results = ("op", answer) ∷ [] }

apply_runs :
    apply digest disk never_before hash_all "op" "ops" (addition ∷ []) before ≡ (ok answer, after)
unfolding publications
apply_runs = refl

answer_committed : answer.status ≡ PublishStatus.committed
unfolding publications
answer_committed = refl

abbrev pub readme_path : FilePath
readme_path = "README" ∷ []

apply_committed_example :
    (os : List ApplyOperation) × (canonical_operations never_before (addition ∷ []) ≡ ok os)
    × All (IsApplied digest after.tree) os
    × (get after.results "op" ≡ some answer)
apply_committed_example =
    apply_committed digest disk never_before hash_all "op" "ops" (addition ∷ []) before answer after
      apply_runs (unfold publications in refl) answer_committed

abbrev broken_disk : Disk
broken_disk = record disk { stage_fails = λ p. true; commit_fails = λ p. true }

apply-again_example :
    apply digest broken_disk never_before hash_all "op" "ops"
      (addition ∷ [])
      (record after { tree = readme })
    ≡ (ok answer, record after { tree = readme })
apply-again_example =
    apply-again digest disk broken_disk never_before hash_all "op" "ops" (addition ∷ []) before
      after answer readme apply_runs

preflight_clean_example :
    (os : List ApplyOperation) × (canonical_operations never_before (addition ∷ []) ≡ ok os)
    × All (IsExpected digest readme) os
preflight_clean_example =
    preflight_clean digest never_before readme (addition ∷ []) (unfold publications in refl)

-- A store that keeps nothing, and the adapter above; the world is the adapter's target.
abbrev pub sample_store : AttemptStore Target
sample_store = record {
  acquire_lease = none;
  release_lease = none;
  get_attempt = λ id t. (ok none, t);
  prepare = λ attempt t. (ok tt, t);
  begin_recovery = λ attempt t. (ok tt, t);
  mark_submitted_and_apply = λ id call t. call t;
  complete = λ id status result t. (ok tt, t);
}

abbrev pub sample_adapter : ApplyAdapter Target
sample_adapter = record {
  probe = λ t. (
    ok (record {
      expected_old_hash_cas = true;
      atomic_batch_cas = false;
      preflight_batch_write = true;
      stable_operation_id = true;
      query_result = true;
      adapter_id = "filesystem";
    }),
    t,
  );
  apply = λ id hash os t. apply digest disk never_before hash_all id hash os t;
  get_result = λ id t. (ok unknown_result, t);
}

publish-IsConfirmed_example : IsConfirmed "op" "ops" (addition ∷ []) answer
publish-IsConfirmed_example =
    publish-IsConfirmed (λ os. ok "ops") (λ hash. "op")
      (λ os (t : Target). (preflight_operations digest never_before t.tree os, t))
      (λ text. text == "") sample_store (λ t. (ok tt, t)) (λ result t. (ok tt, t)) (addition ∷ [])
      sample_adapter before after "ops" "op" answer refl (unfold publications in refl)
