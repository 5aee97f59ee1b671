-- ===== src/Adapter/Tests.antt =====
-- A running job whose run has completed, and the theorems at it.
use lanxin_claw.Shared.{String, ◌≡◌, ◌⊎◌, Bool, false, [], Option, none, some, Reach}
use lanxin_claw.States.Job.{JobStatus, can_transition_job_status}
use lanxin_claw.Store.Types.{EvidenceQuality}
use lanxin_claw.Adapter.Snapshot.{
  RunStatus, AdapterJob, JobDecision, RunSnapshot, is_job_terminal,
  map_openclaw_run_status_to_job_status, apply_run_snapshot_to_job,
}
use lanxin_claw.Adapter.Moves.{IsHollow, apply_run-moves}

abbrev job : AdapterJob
job = record {
  job_id = "j1";
  affair_id = "a1";
  status = JobStatus.running;
  goal = "build";
  purpose = none;
  workspace_hint = none;
  allowed_permissions = [];
  openclaw_run_id = some "r1";
  openclaw_session_key = none;
  progress_summary = "started";
  recent_steps = [];
  result_digest = none;
  evidence_quality = EvidenceQuality.missing;
  blocked_reason = none;
  resume_condition = none;
  last_run_status = none;
  status_reason_code = none;
  status_observed_at = none;
  last_evidence_kind = none;
  last_evidence_strength = none;
  created_at = none;
  updated_at = none;
}

abbrev snapshot : RunSnapshot
snapshot = record {
  run_id = "r1";
  status = RunStatus.completed;
  blocked_reason = none;
  resume_condition = none;
  evidence_ids = none;
}

-- No text is of low signal.
abbrev low_signal : Option String → Bool
low_signal text = false

-- The status of the run decides.
abbrev decide_by_status : AdapterJob → RunSnapshot → JobDecision
decide_by_status _ run = record {
  status = map_openclaw_run_status_to_job_status run.status;
  progress_summary = "done";
  blocked_reason = none;
  resume_condition = none;
  status_reason_code = "openclaw.completed";
  status_observed_at = "t1";
  evidence_kind = "run";
  evidence_strength = "strong";
  raw_run_status = none;
  recent_steps = [];
  result_digest = some "built";
  evidence_quality = EvidenceQuality.present;
}

abbrev later : AdapterJob
later = apply_run_snapshot_to_job low_signal decide_by_status "t2" job snapshot

apply_run-moves_example :
    Reach can_transition_job_status job.status later.status
    × ((is_job_terminal job.status ≡ false)
        ⊎ (later.status ≡ job.status)
        ⊎ (IsHollow low_signal decide_by_status "t2" job × (later.status ≡ JobStatus.blocked)))
apply_run-moves_example = apply_run-moves low_signal decide_by_status "t2" job snapshot
