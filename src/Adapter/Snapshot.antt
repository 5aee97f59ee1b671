-- ===== src/Adapter/Snapshot.antt =====
-- packages/openclaw-adapter/src/mapping/apply-run-snapshot.ts and map-run-status.ts: a snapshot of a
-- run is merged into the adapter's record of the job. The decision that the evidence leads to
-- (`decideJobFromEvidence`, in Adapter/Decision, on the evidence of the snapshot) and
-- `isLowSignalText`, a table of text patterns, are parameters.
use lanxin_claw.Shared.{
  String, Bool, true, false, not, ◌&&◌, ◌||◌, List, [], ◌∷◌, Option, none, some, if◌then◌else◌,
  ◌==◌, or_else, same, includes, search_from,
}
use lanxin_claw.States.Job.{JobStatus, job_statuses, job_status_enum, can_transition_job_status}
use lanxin_claw.Store.Types.{Purpose, RecentStep, EvidenceQuality}

pub data RunStatus : Type 0 where
  accepted running waiting_approval blocked completed failed cancelled timed_out : RunStatus

unfoldable pub map_openclaw_run_status_to_job_status : RunStatus → JobStatus
map_openclaw_run_status_to_job_status RunStatus.accepted = JobStatus.running
map_openclaw_run_status_to_job_status RunStatus.running = JobStatus.running
map_openclaw_run_status_to_job_status RunStatus.waiting_approval = JobStatus.needs_permission
map_openclaw_run_status_to_job_status RunStatus.blocked = JobStatus.blocked
map_openclaw_run_status_to_job_status RunStatus.completed = JobStatus.completed
map_openclaw_run_status_to_job_status RunStatus.failed = JobStatus.failed
map_openclaw_run_status_to_job_status RunStatus.timed_out = JobStatus.failed
map_openclaw_run_status_to_job_status RunStatus.cancelled = JobStatus.canceled

pub record AdapterJob : Type 0 where
  pub job_id : String
  pub affair_id : String
  pub status : JobStatus
  pub goal : String
  pub purpose : Option Purpose
  pub workspace_hint : Option String
  pub allowed_permissions : List String
  pub openclaw_run_id : Option String
  pub openclaw_session_key : Option String
  pub progress_summary : String
  pub recent_steps : List RecentStep
  pub result_digest : Option String
  pub evidence_quality : EvidenceQuality
  pub blocked_reason : Option String
  pub resume_condition : Option String
  pub last_run_status : Option RunStatus
  pub status_reason_code : Option String
  pub status_observed_at : Option String
  pub last_evidence_kind : Option String
  pub last_evidence_strength : Option String
  pub created_at : Option String
  pub updated_at : Option String

pub record JobDecision : Type 0 where
  pub status : JobStatus
  pub progress_summary : String
  pub blocked_reason : Option String
  pub resume_condition : Option String
  pub status_reason_code : String
  pub status_observed_at : String
  pub evidence_kind : String
  pub evidence_strength : String
  pub raw_run_status : Option RunStatus
  pub recent_steps : List RecentStep
  pub result_digest : Option String
  pub evidence_quality : EvidenceQuality

-- The ids of a snapshot's evidence.
pub record EvidenceIds : Type 0 where
  pub run_id : String
  pub job_id : Option String
  pub affair_id : Option String
  pub session_key : Option String

-- `OpenClawRunSnapshot`, less the summary and the rest of the evidence, which only the decision
-- reads.
pub record RunSnapshot : Type 0 where
  pub run_id : String
  pub status : RunStatus
  pub blocked_reason : Option String
  pub resume_condition : Option String
  pub evidence_ids : Option EvidenceIds

-- `JOB_TERMINAL`.
abbrev pub is_job_terminal : JobStatus → Bool
is_job_terminal JobStatus.completed = true
is_job_terminal JobStatus.failed = true
is_job_terminal JobStatus.canceled = true
is_job_terminal _ = false

abbrev pub is_passed : JobStatus → JobStatus → List JobStatus → Bool
is_passed cur next seen = same next cur || includes next seen

-- The search of `resolveNextJobStatus`: whether it meets the target. It puts every status into the
-- queue at most once: as much fuel as there are statuses.
abbrev pub search_job_status : JobStatus → JobStatus → Option Bool
search_job_status from to =
    search_from is_passed can_transition_job_status to job_statuses 7 (from ∷ []) (from ∷ [])

unfoldable pub resolve_next_job_status : JobStatus → JobStatus → JobStatus
resolve_next_job_status from to =
    if same from to || can_transition_job_status from to
    then to
    else elim (search_job_status from to) [ some true ↦ to | _ ↦ from ]

abbrev pub is_present : EvidenceQuality → Bool
is_present EvidenceQuality.present = true
is_present _ = false

module _ (is_low_signal_text : Option String → Bool) where
  abbrev pub is_low_signal_progress : AdapterJob → Bool
  is_low_signal_progress job =
      is_low_signal_text (some job.progress_summary) && is_low_signal_text job.result_digest

  unfoldable pub is_hollow_completed_repair : AdapterJob → JobDecision → Bool
  is_hollow_completed_repair job decided =
      same job.status JobStatus.completed
      && (not (is_present job.evidence_quality) || is_low_signal_progress job)
      && same decided.status JobStatus.blocked
      && decided.status_reason_code == "openclaw.terminal_without_result"

unfoldable pub resolve_applied_status : AdapterJob → JobDecision → Bool → JobStatus
resolve_applied_status job decided hollow_repair =
    if hollow_repair
    then decided.status
    else resolve_next_job_status job.status (
        if is_job_terminal job.status && not (is_job_terminal decided.status)
        then job.status
        else decided.status)

unfoldable pub project_decided_job :
    (now : String) → AdapterJob → RunSnapshot → JobDecision → JobStatus → AdapterJob
project_decided_job now job snapshot decided next_status = record job {
  status = next_status;
  openclaw_run_id = some snapshot.run_id;
  progress_summary = decided.progress_summary;
  recent_steps = decided.recent_steps;
  result_digest = decided.result_digest;
  evidence_quality = decided.evidence_quality;
  blocked_reason =
      if same next_status JobStatus.blocked || same next_status JobStatus.failed
      then or_else decided.blocked_reason (or_else snapshot.blocked_reason job.blocked_reason)
      else none;
  resume_condition =
      if same next_status JobStatus.blocked || same next_status JobStatus.needs_permission
      then or_else decided.resume_condition (or_else snapshot.resume_condition job.resume_condition)
      else none;
  last_run_status = some snapshot.status;
  status_reason_code = some decided.status_reason_code;
  status_observed_at = some decided.status_observed_at;
  last_evidence_kind = some decided.evidence_kind;
  last_evidence_strength = some decided.evidence_strength;
  updated_at = some now;
}

unfoldable pub apply_run_snapshot_to_job :
    (Option String → Bool)
    → (AdapterJob → RunSnapshot → JobDecision)
    → (now : String) → AdapterJob
    → RunSnapshot
    → AdapterJob
apply_run_snapshot_to_job is_low_signal_text decide now job snapshot =
    let decided = decide job snapshot in
    let hollow_repair = is_hollow_completed_repair is_low_signal_text job decided in
    if is_job_terminal job.status && not (same decided.status job.status) && not hollow_repair
    then job
    else project_decided_job now job snapshot decided
        (resolve_applied_status job decided hollow_repair)
