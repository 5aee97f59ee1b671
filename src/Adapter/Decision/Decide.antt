-- ===== src/Adapter/Decision/Decide.antt =====
-- packages/openclaw-adapter/src/mapping/decide-job-from-evidence.ts: the rules about the end of a run,
-- the order of all rules, and the decision.
use lanxin_claw.Shared.{
  String, Bool, not, ◌&&◌, ◌||◌, List, [], ◌∷◌, Option, none, some, if◌then◌else◌, or_else,
}
use lanxin_claw.States.Job.{JobStatus}
use lanxin_claw.Adapter.Snapshot.{RunStatus, AdapterJob, JobDecision}
use lanxin_claw.Adapter.Decision.Evidence.{
  Evidence, wait_field, lifecycle_field, is_run, normalize_evidence_run_status,
}
use lanxin_claw.Adapter.Decision.Texts.{contains_blocking_text}
use lanxin_claw.Adapter.Decision.Findings.{
  TaskOutcome, is_outcome, text_of, has_negative_final_reply, has_negative_tool_finding,
  classify_task, is_wait_ok_with_terminal_evidence, is_wait_error, is_lifecycle_error,
  is_terminal_timeout, is_wait_only_timeout,
}
use lanxin_claw.Adapter.Decision.Result.{Signals, DecisionContext, decide}
use lanxin_claw.Adapter.Decision.Completion.{
  has_business_completion_evidence, has_meaningful_task_completion,
  is_terminal_without_business_result,
}
use lanxin_claw.Adapter.Decision.Rules.{
  rule_input, limits, summary_from_evidence, terminal_job_rule, cancellation_rule,
  blocking_finding_rule, waiting_approval_rule, negative_final_reply_rule, failed_finding_rule,
  soft_web_search_terminal_rule, task_blocked_rule, task_failed_rule,
}

module _ (t : Signals) where
  -- A failure that names an obstacle blocks the job, any other one fails it.
  abbrev pub failed_or_blocked :
      DecisionContext → Bool → (kind blocked_code failed_code reason : String) → JobDecision
  failed_or_blocked context is_blocked kind blocked_code failed_code reason =
      decide t context (if is_blocked then JobStatus.blocked else JobStatus.failed) (
        rule_input kind "medium" (if is_blocked then blocked_code else failed_code) reason
          (some reason) (if is_blocked then some limits else none))

  unfoldable pub run_failed_rule : DecisionContext → Option JobDecision
  run_failed_rule context =
      let e = context.evidence in
      let reason = summary_from_evidence t e "OpenClaw run 执行失败" in
      if not (is_run context.raw_run_status RunStatus.failed) && not (is_wait_error t.lower e)
      then none
      else some (
          failed_or_blocked context
            (contains_blocking_text (some reason)
              || contains_blocking_text (wait_field (λ w. w.error) e))
            "wait.failed" "openclaw.run_blocked" "openclaw.run_failed" reason)

  unfoldable pub lifecycle_failed_rule : DecisionContext → Option JobDecision
  lifecycle_failed_rule context =
      let e = context.evidence in
      let reason = summary_from_evidence t e "OpenClaw lifecycle 显示执行失败" in
      if not (is_lifecycle_error t.lower e)
      then none
      else some (
          failed_or_blocked context
            (contains_blocking_text (some reason)
              || contains_blocking_text (lifecycle_field (λ l. l.terminal_reason) e))
            "audit.failed" "openclaw.lifecycle_blocked" "openclaw.lifecycle_failed" reason)

  unfoldable pub terminal_timeout_rule : DecisionContext → Option JobDecision
  terminal_timeout_rule context =
      let e = context.evidence in
      let reason = summary_from_evidence t e "OpenClaw run 已终止于超时" in
      if not (is_run context.raw_run_status RunStatus.timed_out)
        && not (is_terminal_timeout t.lower e)
      then none
      else some (
          decide t context JobStatus.failed (
            rule_input "wait.timeout" "medium" "openclaw.run_terminal_timeout" reason (some reason)
              none))

  unfoldable pub has_terminal_success_signal : DecisionContext → Bool
  has_terminal_success_signal context =
      is_run context.raw_run_status RunStatus.completed
      || is_wait_ok_with_terminal_evidence t.lower context.evidence
      || is_outcome context.task_outcome TaskOutcome.completed

  unfoldable pub terminal_without_result_rule : DecisionContext → Option JobDecision
  terminal_without_result_rule context =
      let reason : String = "OpenClaw 已结束，但没有返回可验收的任务结果；需要张老板复验或换一种执行方式" in
      if not (has_terminal_success_signal context)
        || not (is_terminal_without_business_result t context)
      then none
      else some (
          decide t context JobStatus.blocked (
            rule_input "wait.ended_without_result" "medium" "openclaw.terminal_without_result"
              reason (some reason) (some "需要张老板向用户说明执行结果缺失，并确认是否重试或换方案")))

  abbrev completed_summary : DecisionContext → String
  completed_summary context =
      let e = context.evidence in
      let goal = context.job.goal in
      text_of (
        or_else (t.classify_business_evidence e (some goal) none).text (
          or_else (t.pick_meaningful_business_text e none (some goal))
            (some (summary_from_evidence t e "OpenClaw 已返回可验收结果"))))

  unfoldable pub completed_rule : DecisionContext → Option JobDecision
  completed_rule context =
      let e = context.evidence in
      if not (has_terminal_success_signal context)
      then none
      else if has_negative_tool_finding e || has_negative_final_reply e
      then none
      else if not (has_business_completion_evidence t context)
      then none
      else some (
          decide t context JobStatus.completed (
            rule_input
              (if has_meaningful_task_completion t e then "task.completed" else "wait.completed")
              "medium" "openclaw.run_completed" (completed_summary context) none none))

  abbrev running_input : DecisionContext → (kind code fallback : String) → JobDecision
  running_input context kind code fallback =
      decide t context JobStatus.running (
        rule_input kind "medium" code (summary_from_evidence t context.evidence fallback) none none)

  unfoldable pub accepted_rule : DecisionContext → Option JobDecision
  accepted_rule context =
      if not (is_run context.raw_run_status RunStatus.accepted)
      then none
      else some (running_input context "create.accepted" "openclaw.accepted" "OpenClaw 已接收任务")

  unfoldable pub wait_only_timeout_rule : DecisionContext → Option JobDecision
  wait_only_timeout_rule context =
      if not (is_wait_only_timeout t.lower context.evidence)
      then none
      else some (
          running_input context "wait.timeout" "openclaw.wait_timeout_observing"
            "OpenClaw 仍在执行，继续观察")

  unfoldable pub running_decision : DecisionContext → JobDecision
  running_decision context =
      running_input context "wait.running"
        (if is_run context.raw_run_status RunStatus.running
          then "openclaw.running"
          else "openclaw.insufficient_evidence")
        "OpenClaw 正在执行"

  -- `DECISION_RULES`.
  abbrev pub decision_rules : List (DecisionContext → Option JobDecision)
  decision_rules =
      terminal_job_rule t
      ∷ cancellation_rule t
      ∷ blocking_finding_rule t
      ∷ waiting_approval_rule t
      ∷ negative_final_reply_rule t
      ∷ failed_finding_rule t
      ∷ soft_web_search_terminal_rule t
      ∷ task_blocked_rule t
      ∷ task_failed_rule t
      ∷ run_failed_rule
      ∷ lifecycle_failed_rule
      ∷ terminal_timeout_rule
      ∷ terminal_without_result_rule
      ∷ completed_rule
      ∷ accepted_rule
      ∷ wait_only_timeout_rule
      ∷ []

  abbrev pub first_answer :
      List (DecisionContext → Option JobDecision) → DecisionContext → Option JobDecision
  first_answer [] context = none
  first_answer (rule ∷ rest) context = or_else (rule context) (first_answer rest context)

  unfoldable pub first_rule_decision : DecisionContext → Option JobDecision
  first_rule_decision context = first_answer decision_rules context

  abbrev pub context_of : AdapterJob → Evidence → DecisionContext
  context_of job e = record {
    job = job;
    evidence = e;
    raw_run_status = normalize_evidence_run_status t.lower e;
    task_outcome = classify_task t.lower e;
  }

  unfoldable pub decide_in : DecisionContext → JobDecision
  decide_in context = elim (first_rule_decision context) [
    | some decision ↦ decision
    | none ↦ running_decision context
  ]

  unfoldable pub decide_job_from_evidence : AdapterJob → Evidence → JobDecision
  decide_job_from_evidence job e = decide_in (context_of job e)
