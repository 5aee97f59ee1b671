-- ===== src/Adapter/Registry/Operations.antt =====
-- packages/openclaw-adapter/src/jobs: create-job.ts, read-job.ts and cancel-job.ts over the map of
-- job-store.ts. What the runtime answers to a request is an argument of the call; a call says which
-- requests it sent. A call is written from its start to its end, as it runs when nothing overlaps it
-- while it waits for the runtime; Overlap has the calls that do. Checks that a value of the declared type cannot fail (an unknown purpose, a list
-- of permissions that is none) are left out.
use lanxin_claw.Shared.{
  String, Bool, true, false, not, ◌||◌, List, [], ◌∷◌, Option, none, some, if◌then◌else◌, ◌==◌, any,
  truthy, is_blank, lookup, insert,
}
use lanxin_claw.States.Job.{JobStatus, can_transition_job_status}
use lanxin_claw.Store.Types.{Purpose, EvidenceQuality}
use lanxin_claw.Permissions.Policy.{is_known_permission_id}
use lanxin_claw.Adapter.Snapshot.{
  RunStatus, AdapterJob, JobDecision, RunSnapshot, is_job_terminal, apply_run_snapshot_to_job,
}
use lanxin_claw.Adapter.Registry.Keys.{
  to_gateway_session_key, to_job_idempotency_key, key_of, validate_run_snapshot_identity,
}
use lanxin_claw.Adapter.Registry.Errors.{Thrown, runtime_error_result}

pub record CreateInput : Type 0 where
  pub job_id : String
  pub affair_id : String
  pub goal : String
  pub purpose : Option Purpose
  pub workspace_hint : Option String
  pub allowed_permissions : List String

-- A request to the runtime.
pub data Request : Type 0 where
  create_run : CreateInput → (message idempotency_key session_key : String) → Request
  get_run : (run_id job_id affair_id session_key : String) → Request
  cancel_run : (run_id job_id affair_id session_key : String) → Request

pub data Answer : Type 0 where
  threw : Thrown → Answer
  answered : RunSnapshot → Answer

pub data JobResult : Type 0 where
  done : AdapterJob → JobResult
  refused : (code : String) → (retryable : Bool) → JobResult

abbrev pub Registry : Type 0
Registry = List (String × AdapterJob)

-- What a call answers, the register after it, and what it asked the runtime.
pub record Reply : Type 0 where
  pub result : JobResult
  pub registry : Registry
  pub asked : List Request

abbrev is_empty : List String → Bool
is_empty [] = true
is_empty (permission ∷ rest) = false

-- `validateCreateInput`: the code of what is wrong.
unfoldable pub validate_create_input : CreateInput → Option String
validate_create_input input =
    if is_blank input.job_id
    then some "invalid_job_id"
    else if is_blank input.affair_id
    then some "invalid_affair_id"
    else if is_blank input.goal
    then some "invalid_goal"
    else if is_empty input.allowed_permissions
    then some "invalid_permissions"
    else if any is_blank input.allowed_permissions
    then some "invalid_permissions"
    else if any (λ permission. not (is_known_permission_id permission)) input.allowed_permissions
    then some "invalid_permissions"
    else none

-- `purpose ?? "execution"`.
abbrev pub purpose_of : Option Purpose → Purpose
purpose_of none = Purpose.execution
purpose_of (some purpose) = purpose

abbrev pub same_purpose : Purpose → Purpose → Bool
same_purpose Purpose.execution Purpose.execution = true
same_purpose Purpose.exploration Purpose.exploration = true
same_purpose _ _ = false

unfoldable pub idempotent_reuse : AdapterJob → CreateInput → JobResult
idempotent_reuse existing input =
    if not (existing.affair_id == input.affair_id)
      || not (existing.goal == input.goal)
      || not (same_purpose (purpose_of existing.purpose) (purpose_of input.purpose))
    then JobResult.refused "job_id_conflict" false
    else JobResult.done existing

abbrev pub base_job : String → CreateInput → AdapterJob
base_job now input = record {
  job_id = input.job_id;
  affair_id = input.affair_id;
  status = JobStatus.queued;
  goal = input.goal;
  purpose = some (purpose_of input.purpose);
  workspace_hint = input.workspace_hint;
  allowed_permissions = input.allowed_permissions;
  openclaw_run_id = none;
  openclaw_session_key = some (to_gateway_session_key input.job_id);
  progress_summary = "";
  recent_steps = [];
  result_digest = none;
  evidence_quality = EvidenceQuality.missing;
  blocked_reason = none;
  resume_condition = none;
  last_run_status = none;
  status_reason_code = none;
  status_observed_at = none;
  last_evidence_kind = none;
  last_evidence_strength = none;
  created_at = some now;
  updated_at = some now;
}

-- The job of a cancellation before its run has started.
abbrev pub canceled_before_run : String → AdapterJob → AdapterJob
canceled_before_run now job = record job {
  status = JobStatus.canceled;
  progress_summary =
      if job.progress_summary == "" then "canceled_before_run" else job.progress_summary;
  last_run_status = some RunStatus.cancelled;
  status_reason_code = some "openclaw.cancel_before_run";
  status_observed_at = some now;
  last_evidence_kind = some "local.cancel_ack";
  last_evidence_strength = some "strong";
  updated_at = some now;
}

-- An answer without a change and without a request.
abbrev pub answer_only : JobResult → Registry → Reply
answer_only result registry = record { result = result; registry = registry; asked = [] }

abbrev pub run_id_of : AdapterJob → String
run_id_of job = elim job.openclaw_run_id [ none ↦ "" | some run_id ↦ run_id ]

module _ (is_low_signal_text : Option String → Bool)
    (decide : AdapterJob → RunSnapshot → JobDecision)
    (wrap_browser_first_run_input : String → String) where
  -- The common end of the three operations: the snapshot is checked, merged and stored.
  unfoldable pub settle :
      (now fallback_code : String) → AdapterJob → Registry → Request → Answer → Reply
  settle now fallback_code job registry request (Answer.threw thrown) =
      let error = runtime_error_result thrown fallback_code in
      record {
        result = JobResult.refused error.code error.retryable;
        registry = registry;
        asked = request ∷ [];
      }
  settle now fallback_code job registry request (Answer.answered snapshot) =
      let later = apply_run_snapshot_to_job is_low_signal_text decide now job snapshot in
      if validate_run_snapshot_identity job snapshot
      then record {
        result = JobResult.done later;
        registry = insert later.job_id later registry;
        asked = request ∷ [];
      }
      else record {
        result = JobResult.refused "runtime_evidence_mismatch" false;
        registry = registry;
        asked = request ∷ [];
      }

  unfoldable pub create_adapter_job :
      (now : String) → (Request → Answer) → CreateInput → Registry → Reply
  create_adapter_job now runtime input registry =
      let request =
        Request.create_run input (wrap_browser_first_run_input input.goal)
          (to_job_idempotency_key input.job_id) (to_gateway_session_key input.job_id) in
      elim (validate_create_input input) [
        | some code ↦ answer_only (JobResult.refused code false) registry
        | none ↦ elim (lookup input.job_id registry) [
          | some existing ↦ answer_only (idempotent_reuse existing input) registry
          | none ↦
              settle now "runtime_create_failed" (base_job now input) registry request
                (runtime request)
        ]
      ]

  unfoldable pub read_adapter_job :
      (now : String) → (Request → Answer) → (job_id : String) → (refresh : Bool) → Registry → Reply
  read_adapter_job now runtime job_id refresh registry = elim (lookup job_id registry) [
    | none ↦ answer_only (JobResult.refused "job_not_found" false) registry
    | some existing ↦
        let key = key_of existing.openclaw_session_key existing.job_id in
        let request = Request.get_run (run_id_of existing) existing.job_id existing.affair_id key in
        if not refresh || not (truthy existing.openclaw_run_id)
        then answer_only (JobResult.done existing) registry
        else settle now "runtime_read_failed" existing registry request (runtime request)
  ]

  unfoldable pub cancel_adapter_job :
      (now : String) → (Request → Answer) → (job_id : String) → Registry → Reply
  cancel_adapter_job now runtime job_id registry = elim (lookup job_id registry) [
    | none ↦ answer_only (JobResult.refused "job_not_found" false) registry
    | some existing ↦
        let key = key_of existing.openclaw_session_key existing.job_id in
        let request =
          Request.cancel_run (run_id_of existing) existing.job_id existing.affair_id key in
        let job = canceled_before_run now existing in
        if is_job_terminal existing.status
        then answer_only (JobResult.done existing) registry
        else if not (truthy existing.openclaw_run_id)
        then (if can_transition_job_status existing.status JobStatus.canceled
            then record {
              result = JobResult.done job;
              registry = insert job.job_id job registry;
              asked = [];
            }
            else answer_only (JobResult.refused "cancel_not_allowed" false) registry)
        else settle now "runtime_cancel_failed" existing registry request (runtime request)
  ]
