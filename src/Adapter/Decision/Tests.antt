-- ===== src/Adapter/Decision/Tests.antt =====
-- A run that has ended with a result, and the theorems at it.
use lanxin_claw.Shared.{
  String, ◌≡◌, refl, ◌⊎◌, Bool, true, false, [], ◌∷◌, Option, none, some, or_else, truthy, trim,
  if◌then◌else◌,
}
use lanxin_claw.States.Job.{JobStatus, can_transition_job_status}
use lanxin_claw.Store.Types.{EvidenceQuality}
use lanxin_claw.Adapter.Snapshot.{
  RunStatus, AdapterJob, JobDecision, RunSnapshot, apply_run_snapshot_to_job, project_decided_job,
  resolve_applied_status, is_hollow_completed_repair, resolve_next_job_status,
}
use lanxin_claw.Adapter.Decision.Evidence.{
  ToolStatus, ToolFinding, Confidence, Evidence, normalize_evidence_run_status,
  normalize_run_status, status_of_label, has_terminal_lifecycle,
}
use lanxin_claw.Adapter.Decision.Texts.{occurs, begins, contains_blocking_text}
use lanxin_claw.Adapter.Decision.Findings.{
  has_cancelled_finding, first_blocking_finding, is_soft_web_search_finding,
  first_actionable_failed_finding, has_negative_final_reply, has_negative_tool_finding,
  classify_task, is_wait_error, is_lifecycle_error, is_terminal_timeout,
  is_wait_ok_with_terminal_evidence,
}
use lanxin_claw.Adapter.Decision.Completion.{
  has_business_completion_evidence, is_terminal_without_business_result,
}
use lanxin_claw.Adapter.Decision.Result.{Signals, decide}
use lanxin_claw.Adapter.Decision.Rules.{
  terminal_job_rule, cancellation_rule, blocking_finding_rule, waiting_approval_rule,
  negative_final_reply_rule, failed_finding_rule, soft_web_search_terminal_rule, task_blocked_rule,
  task_failed_rule,
}
use lanxin_claw.Adapter.Decision.Decide.{
  context_of, decide_job_from_evidence, decide_in, first_rule_decision, run_failed_rule,
  lifecycle_failed_rule, terminal_timeout_rule, has_terminal_success_signal,
  terminal_without_result_rule, completed_rule,
}
use lanxin_claw.Adapter.Decision.Completed.{IsProven}
use lanxin_claw.Adapter.Decision.Applied.{completed-IsProven}

abbrev reply_text : Evidence → Option String
reply_text e = elim e.final_reply [ none ↦ none | some reply ↦ some reply.text ]

abbrev quality_of : Option String → EvidenceQuality
quality_of text = if truthy text then EvidenceQuality.present else EvidenceQuality.missing

-- Every text counts as a result.
abbrev signals : Signals
signals = record {
  lower = λ text. text;
  safe_text = λ text. text;
  cut_step = λ text. text;
  is_low_signal_text = λ text. false;
  classify_business_evidence =
      λ e goal fallback. record { text = reply_text e; quality = quality_of (reply_text e) };
  classify_text_business_signal = λ text goal. quality_of text;
  pick_meaningful_business_text = λ e fallback goal. or_else (reply_text e) fallback;
  is_web_goal = λ goal. false;
}

abbrev job : AdapterJob
job = record {
  job_id = "j1";
  affair_id = "a1";
  status = JobStatus.running;
  goal = "build";
  purpose = none;
  workspace_hint = none;
  allowed_permissions = "workspace.write" ∷ [];
  openclaw_run_id = some "r1";
  openclaw_session_key = none;
  progress_summary = "started";
  recent_steps = [];
  result_digest = none;
  evidence_quality = EvidenceQuality.missing;
  blocked_reason = none;
  resume_condition = none;
  last_run_status = none;
  status_reason_code = none;
  status_observed_at = none;
  last_evidence_kind = none;
  last_evidence_strength = none;
  created_at = none;
  updated_at = none;
}

abbrev built : ToolFinding
built = record {
  tool_call_id = some "t1";
  tool_name = some "exec";
  status = ToolStatus.succeeded;
  error_code = none;
  summary = some "tests pass";
}

abbrev evidence : Evidence
evidence = record {
  observed_at = "t2";
  wait = some (record {
    status = " completed ";
    ended_at = some "t2";
    stop_reason = none;
    timeout_phase = none;
    error = none;
  });
  lifecycle = none;
  tool_findings = built ∷ [];
  task = none;
  final_reply = some (record { text = "the build is in out/"; confidence = Confidence.medium });
  local_cancel_ack = false;
  source_statuses = [];
}

abbrev status_after : Evidence → JobStatus
status_after e = (decide_job_from_evidence signals job e).status

decided_completed : status_after evidence ≡ JobStatus.completed
unfolding normalize_evidence_run_status normalize_run_status status_of_label has_terminal_lifecycle
    occurs begins contains_blocking_text has_cancelled_finding first_blocking_finding
    is_soft_web_search_finding first_actionable_failed_finding has_negative_final_reply
    has_negative_tool_finding classify_task is_wait_error is_lifecycle_error is_terminal_timeout
    is_wait_ok_with_terminal_evidence has_business_completion_evidence
    is_terminal_without_business_result terminal_job_rule cancellation_rule blocking_finding_rule
    waiting_approval_rule negative_final_reply_rule failed_finding_rule
    soft_web_search_terminal_rule task_blocked_rule task_failed_rule decide_in first_rule_decision
    run_failed_rule lifecycle_failed_rule terminal_timeout_rule has_terminal_success_signal
    terminal_without_result_rule completed_rule decide_job_from_evidence decide trim
decided_completed = refl

abbrev snapshot : RunSnapshot
snapshot = record {
  run_id = "r1";
  status = RunStatus.completed;
  blocked_reason = none;
  resume_condition = none;
  evidence_ids = none;
}

abbrev later : AdapterJob
later =
    apply_run_snapshot_to_job signals.is_low_signal_text
      (λ j s. decide_job_from_evidence signals j evidence) "t3" job snapshot

running_completed :
    resolve_next_job_status JobStatus.running JobStatus.completed ≡ JobStatus.completed
unfolding resolve_next_job_status can_transition_job_status
running_completed = refl

-- A running job takes the status of a decision for completed.
taken :
    (decided : JobDecision) (hollow : Bool)
    → decided.status ≡ JobStatus.completed
    → resolve_applied_status job decided hollow ≡ JobStatus.completed
unfolding resolve_applied_status
taken decided true h = h
taken decided false h = rw h running_completed

later_completed : later.status ≡ JobStatus.completed
unfolding apply_run_snapshot_to_job project_decided_job
later_completed =
    let decided = decide_job_from_evidence signals job evidence in
    taken decided (is_hollow_completed_repair signals.is_low_signal_text job decided)
      decided_completed

completed-IsProven_example :
    (job.status ≡ JobStatus.completed) ⊎ IsProven signals (context_of signals job evidence)
completed-IsProven_example =
    completed-IsProven signals (λ j s. evidence) "t3" job snapshot later_completed
