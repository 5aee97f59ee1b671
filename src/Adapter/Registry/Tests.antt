-- ===== src/Adapter/Registry/Tests.antt =====
-- A job that is created, read and created again, and the theorems at it.
use lanxin_claw.Shared.{
  Memᴰ, String, ◌≡◌, refl, Bool, true, false, List, [], ◌∷◌, Option, none, some, arith, trim,
  lookup, insert,
}
use lanxin_claw.States.Job.{JobStatus, can_transition_job_status}
use lanxin_claw.Store.Types.{Purpose, EvidenceQuality}
use lanxin_claw.Adapter.Snapshot.{
  RunStatus, AdapterJob, JobDecision, RunSnapshot, apply_run_snapshot_to_job, project_decided_job,
  resolve_applied_status, is_hollow_completed_repair, resolve_next_job_status,
  map_openclaw_run_status_to_job_status,
}
use lanxin_claw.Adapter.Registry.Errors.{
  runtime_error_result, safe_error_code, is_retryable_gateway_code,
}
use lanxin_claw.Adapter.Registry.Keys.{validate_run_snapshot_identity}
use lanxin_claw.Adapter.Decision.Texts.{begins}
use lanxin_claw.Adapter.Registry.Operations.{
  CreateInput, Request, Answer, JobResult, Registry, Reply, create_adapter_job, read_adapter_job,
  cancel_adapter_job, validate_create_input, settle,
}
use lanxin_claw.Adapter.Registry.Steps.{Call, perform}
use lanxin_claw.Adapter.Registry.Kept.{IsKeyed, IsStored, perform_all, perform_all-IsKeyed}
use lanxin_claw.Adapter.Registry.Overlap.{Moment, Step, Steps, steps-IsStored}
use lanxin_claw.Adapter.Registry.Origins.{IsFrom, registered-IsFrom}
use lanxin_claw.Adapter.Registry.Again.{IsReused, create_once}
use lanxin_claw.Adapter.Registry.Refused.{refused_unchanged}

-- No text is of low signal, the status of the run decides, and a goal is sent as it is.
abbrev low_signal : Option String → Bool
low_signal text = false

abbrev same_goal : String → String
same_goal goal = goal

abbrev decide_by_status : AdapterJob → RunSnapshot → JobDecision
decide_by_status _ run = record {
  status = map_openclaw_run_status_to_job_status run.status;
  progress_summary = "at work";
  blocked_reason = none;
  resume_condition = none;
  status_reason_code = "openclaw.running";
  status_observed_at = "t1";
  evidence_kind = "run";
  evidence_strength = "strong";
  raw_run_status = none;
  recent_steps = [];
  result_digest = none;
  evidence_quality = EvidenceQuality.missing;
}

abbrev input : CreateInput
input = record {
  job_id = "j1";
  affair_id = "a1";
  goal = "build";
  purpose = none;
  workspace_hint = none;
  allowed_permissions = "workspace.read" ∷ [];
}

abbrev working : RunSnapshot
working = record {
  run_id = "r1";
  status = RunStatus.running;
  blocked_reason = none;
  resume_condition = none;
  evidence_ids = none;
}

abbrev runtime : Request → Answer
runtime request = Answer.answered working

abbrev gone : Request → Answer
gone request =
    Answer.threw (record { code = some "gateway_run_not_found"; retryable = none; message = none })

abbrev created : Reply
created = perform low_signal decide_by_status same_goal (Call.create "t1" runtime input) []

abbrev job : AdapterJob
job = record {
  job_id = "j1";
  affair_id = "a1";
  status = JobStatus.running;
  goal = "build";
  purpose = some Purpose.execution;
  workspace_hint = none;
  allowed_permissions = "workspace.read" ∷ [];
  openclaw_run_id = some "r1";
  openclaw_session_key = some "agent:main:lanxing-job:j1";
  progress_summary = "at work";
  recent_steps = [];
  result_digest = none;
  evidence_quality = EvidenceQuality.missing;
  blocked_reason = none;
  resume_condition = none;
  last_run_status = some RunStatus.running;
  status_reason_code = some "openclaw.running";
  status_observed_at = some "t1";
  last_evidence_kind = some "run";
  last_evidence_strength = some "strong";
  created_at = some "t1";
  updated_at = some "t1";
}

created_job : created.result ≡ JobResult.done job
unfolding perform perform_all create_adapter_job validate_create_input lookup insert settle
    validate_run_snapshot_identity apply_run_snapshot_to_job project_decided_job
    resolve_applied_status trim is_hollow_completed_repair resolve_next_job_status
    map_openclaw_run_status_to_job_status can_transition_job_status
created_job = refl

abbrev creation : List Call
creation = Call.create "t1" runtime input ∷ []

abbrev filled : Registry
filled = perform_all low_signal decide_by_status same_goal creation []

filled_found : lookup "j1" filled ≡ some job
unfolding perform perform_all create_adapter_job validate_create_input lookup insert settle
    validate_run_snapshot_identity apply_run_snapshot_to_job project_decided_job
    resolve_applied_status trim is_hollow_completed_repair resolve_next_job_status
    map_openclaw_run_status_to_job_status can_transition_job_status
filled_found = refl

nothing-IsKeyed : IsKeyed []
unfolding lookup
nothing-IsKeyed id own h = ground arith

-- A read is under way while the job is canceled, and stores its late answer.
abbrev canceled_run : Request → Answer
canceled_run request = Answer.answered (record working { status = RunStatus.cancelled })

abbrev before : Moment
before = record { registry = filled; taken = [] }

abbrev reading : Moment
reading = record { registry = filled; taken = job ∷ [] }

abbrev after_cancel : Moment
after_cancel = record {
  registry =
      (perform low_signal decide_by_status same_goal (Call.cancel "t2" canceled_run "j1")
        filled).registry;
  taken = job ∷ [];
}

abbrev asked : Request
asked = Request.get_run "r1" "j1" "a1" "agent:main:lanxing-job:j1"

abbrev late : Moment
late = record {
  registry =
      (settle low_signal decide_by_status same_goal "t3" "runtime_read_failed" job
        after_cancel.registry asked (runtime asked)).registry;
  taken = job ∷ [];
}

status_in : Registry → Option JobStatus
status_in registry = elim (lookup "j1" registry) [ none ↦ none | some own ↦ some own.status ]

after_cancel_status : status_in after_cancel.registry ≡ some JobStatus.canceled
unfolding status_in cancel_adapter_job perform perform_all create_adapter_job validate_create_input
    lookup insert settle validate_run_snapshot_identity apply_run_snapshot_to_job
    project_decided_job resolve_applied_status trim is_hollow_completed_repair
    resolve_next_job_status map_openclaw_run_status_to_job_status can_transition_job_status
after_cancel_status = refl

-- The late answer is stored over the cancellation.
late_status : status_in late.registry ≡ some JobStatus.running
unfolding status_in cancel_adapter_job perform perform_all create_adapter_job validate_create_input
    lookup insert settle validate_run_snapshot_identity apply_run_snapshot_to_job
    project_decided_job resolve_applied_status trim is_hollow_completed_repair
    resolve_next_job_status map_openclaw_run_status_to_job_status can_transition_job_status
late_status = refl

abbrev steps : Steps low_signal decide_by_status same_goal before late
steps =
    Steps.then
      (Steps.then (Steps.then Steps.start (Step.takes "j1" job filled_found refl))
        (Step.calls (Call.cancel "t2" canceled_run "j1")))
      (Step.stores "t3" "runtime_read_failed" job asked (runtime asked) (Memᴰ.head refl))

filled-IsKeyed : IsKeyed filled
filled-IsKeyed =
    perform_all-IsKeyed low_signal decide_by_status same_goal creation [] nothing-IsKeyed

steps-IsStored_example : IsStored "j1" job late.registry
steps-IsStored_example =
    steps-IsStored low_signal decide_by_status same_goal before late "j1" job filled-IsKeyed
      filled_found tt steps

registered-IsFrom_example : IsFrom creation job
registered-IsFrom_example =
    registered-IsFrom low_signal decide_by_status same_goal creation "j1" job filled_found

abbrev empty : Moment
empty = record { registry = []; taken = [] }

abbrev just_created : Moment
just_created = record { registry = created.registry; taken = [] }

abbrev then_canceled : Moment
then_canceled = record {
  registry =
      (perform low_signal decide_by_status same_goal (Call.cancel "t2" canceled_run "j1")
        created.registry).registry;
  taken = [];
}

create_once_example :
    IsReused
      (perform low_signal decide_by_status same_goal
        (Call.create "t4" gone input)
        then_canceled.registry)
      job
      then_canceled.registry
create_once_example =
    create_once low_signal decide_by_status same_goal "t1" "t4" runtime gone input empty
      then_canceled job nothing-IsKeyed tt created_job
      (Steps.then Steps.start (Step.calls (Call.cancel "t2" canceled_run "j1")))

abbrev stored : Registry
stored = ("j1", job) ∷ []

abbrev lost : Reply
lost = perform low_signal decide_by_status same_goal (Call.read "t3" gone "j1" true) stored

lost_refused : lost.result ≡ JobResult.refused "gateway_run_not_found" false
unfolding perform read_adapter_job lookup settle runtime_error_result safe_error_code trim begins
    is_retryable_gateway_code
lost_refused = refl

refused_unchanged_example : lost.registry ≡ stored
refused_unchanged_example =
    refused_unchanged low_signal decide_by_status same_goal (Call.read "t3" gone "j1" true) stored
      "gateway_run_not_found" false lost_refused
