-- ===== src/Closing/Fixtures.antt =====
-- An affair with its finished job and the commands on it, for the tests.
use lanxin_claw.Shared.{[], ◌∷◌, none, some}
use lanxin_claw.States.Affair.{AffairStatus}
use lanxin_claw.States.Job.{JobStatus}
use lanxin_claw.Store.Types.{
  Affair, Job, Purpose, EvidenceQuality, State, create_companion_backend_state,
}
use lanxin_claw.Closing.Precheck.{CloseStatus, AffairClose}

abbrev pub affair : Affair
affair = record {
  affair_id = "a1";
  title = "build";
  status = AffairStatus.waiting_acceptance;
  context = [];
  acceptance_criteria = [];
  blocked_reason = none;
  resume_condition = none;
  current_job_id = some "j1";
}

abbrev pub job : Job
job = record {
  job_id = "j1";
  affair_id = "a1";
  status = JobStatus.completed;
  purpose = some Purpose.execution;
  goal = "build";
  workspace_hint = none;
  allowed_permissions = [];
  progress_summary = none;
  recent_steps = none;
  result_digest = some " built";
  evidence_quality = some EvidenceQuality.present;
  blocked_reason = none;
  resume_condition = none;
  permission_request_id = none;
  task_intent_id = none;
  status_reason_code = none;
  status_observed_at = none;
}

abbrev pub state : State
state = record (create_companion_backend_state 0 "t0") {
  affairs = ("a1", affair) ∷ [];
  jobs = ("j1", job) ∷ [];
}

abbrev pub command : CloseStatus → AffairClose
command status = record {
  affair_id = "a1";
  status = status;
  expected_current_job_id = some "j1";
  acceptance_summary = some "looks right";
  close_reason = none;
}
