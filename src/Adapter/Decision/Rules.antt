-- ===== src/Adapter/Decision/Rules.antt =====
-- packages/openclaw-adapter/src/mapping/decide-job-from-evidence.ts, decision/rules/terminal.ts and
-- decision/web-research-rules.ts: the rules, the first of which to answer decides.
use lanxin_claw.Shared.{
  String, Bool, true, false, not, ◌&&◌, ◌||◌, List, [], ◌∷◌, Option, none, some, if◌then◌else◌,
  ◌==◌, any, all, filter, or_else, truthy, same,
}
use lanxin_claw.States.Job.{JobStatus, job_status_enum}
use lanxin_claw.Adapter.Snapshot.{RunStatus, AdapterJob, JobDecision, is_job_terminal, is_present}
use lanxin_claw.Adapter.Decision.Evidence.{
  ToolStatus, ToolFinding, Confidence, FinalReply, Evidence, tool_status_enum, wait_field,
  lifecycle_field, is_run, has_terminal_lifecycle,
}
use lanxin_claw.Adapter.Decision.Texts.{mentions}
use lanxin_claw.Adapter.Decision.Findings.{
  TaskOutcome, is_outcome, text_of, has_negative_final_reply, tool_name_of, has_cancelled_finding,
  is_soft_web_search_finding, first_blocking_finding, first_actionable_failed_finding,
}
use lanxin_claw.Adapter.Decision.Result.{Signals, DecisionContext, RuleInput, decide}

abbrev pub rule_input :
    (kind strength reason_code summary : String)
    → (blocked_reason resume_condition : Option String) → RuleInput
rule_input kind strength reason_code summary blocked_reason resume_condition = record {
  kind = kind;
  strength = strength;
  reason_code = reason_code;
  summary = summary;
  blocked_reason = blocked_reason;
  resume_condition = resume_condition;
}

abbrev pub limits : String
limits = "需要用户确认限制、补充权限或调整执行方式"

abbrev medium_or_weak : Option FinalReply → String
medium_or_weak none = "weak"
medium_or_weak (some reply) = elim reply.confidence [
  | Confidence.medium ↦ "medium"
  | Confidence.weak ↦ "weak"
]

-- `blockingFindingKind` and `failedFindingKind`.
abbrev finding_kind : String → ToolFinding → String
finding_kind audit finding =
    if truthy finding.tool_name || truthy finding.tool_call_id then audit else "wait.failed"

module _ (t : Signals) where
  unfoldable pub summary_from_evidence : Evidence → String → String
  summary_from_evidence e fallback = elim (t.pick_meaningful_business_text e none none) [
    | some picked ↦
        if picked == ""
        then (if not (t.safe_text fallback == "")
              && not (t.is_low_signal_text (some (t.safe_text fallback)))
            then t.safe_text fallback
            else "OpenClaw 正在执行")
        else picked
    | none ↦
        if not (t.safe_text fallback == "")
          && not (t.is_low_signal_text (some (t.safe_text fallback)))
        then t.safe_text fallback
        else "OpenClaw 正在执行"
  ]

  unfoldable pub resume_condition_from_evidence : Evidence → String → String
  resume_condition_from_evidence e fallback = t.safe_text (
      text_of (
        or_else (wait_field (λ w. w.stop_reason) e)
          (or_else (lifecycle_field (λ l. l.terminal_reason) e) (some fallback))))

  abbrev finding_reason : DecisionContext → ToolFinding → String → String
  finding_reason context finding fallback = t.safe_text (
      text_of (
        or_else finding.summary
          (or_else finding.error_code (some (summary_from_evidence context.evidence fallback)))))

  unfoldable pub is_hollow_completed_job : AdapterJob → Bool
  is_hollow_completed_job job =
      same job.status JobStatus.completed
      && (not (is_present job.evidence_quality)
          || (t.is_low_signal_text (some job.progress_summary)
              && t.is_low_signal_text job.result_digest))

  unfoldable pub terminal_job_rule : DecisionContext → Option JobDecision
  terminal_job_rule context =
      let job = context.job in
      if not (is_job_terminal job.status) || is_hollow_completed_job job
      then none
      else some (
          decide t context job.status (
            rule_input "lanxin.terminal_latch" "strong" "lanxin.terminal_latch"
              (if job.progress_summary == ""
                then summary_from_evidence context.evidence "job 已在终态，拒绝迟到覆盖"
                else job.progress_summary)
              job.blocked_reason job.resume_condition))

  unfoldable pub cancellation_rule : DecisionContext → Option JobDecision
  cancellation_rule context =
      let e = context.evidence in
      if not e.local_cancel_ack
        && not (is_run context.raw_run_status RunStatus.cancelled)
        && not (has_cancelled_finding t.lower e)
      then none
      else some (
          decide t context JobStatus.canceled (
            rule_input "local.cancel_ack" "strong" "openclaw.cancel_ack"
              (summary_from_evidence e "OpenClaw 已确认取消") none none))

  unfoldable pub blocking_finding_rule : DecisionContext → Option JobDecision
  blocking_finding_rule context = elim (first_blocking_finding t.lower context.evidence) [
    | none ↦ none
    | some finding ↦
        let reason = finding_reason context finding "OpenClaw 执行被阻塞" in
        some (
          decide t context JobStatus.blocked (
            rule_input (finding_kind "audit.blocked" finding) "strong"
              "openclaw.blocked_by_tool_or_policy" reason (some reason)
              (some (resume_condition_from_evidence context.evidence limits))))
  ]

  unfoldable pub waiting_approval_rule : DecisionContext → Option JobDecision
  waiting_approval_rule context =
      if not (is_run context.raw_run_status RunStatus.waiting_approval)
      then none
      else some (
          decide t context JobStatus.needs_permission (
            rule_input "wait.waiting_approval" "medium" "openclaw.waiting_approval"
              (summary_from_evidence context.evidence "OpenClaw 正在等待授权") none
              (some (resume_condition_from_evidence context.evidence "需要用户完成授权后继续"))))

  unfoldable pub negative_final_reply_rule : DecisionContext → Option JobDecision
  negative_final_reply_rule context =
      let e = context.evidence in
      if not (has_terminal_lifecycle t.lower e) || not (has_negative_final_reply e)
      then none
      else let reason =
          t.safe_text
            (elim e.final_reply [ none ↦ "OpenClaw 结束但最终回复显示目标未完成" | some reply ↦ reply.text ]) in
        some (
          decide t context JobStatus.blocked (
            rule_input "history.negative_final_reply" (medium_or_weak e.final_reply)
              "openclaw.final_reply_negative" reason (some reason)
              (some "需要张老板向用户说明限制，并确认下一步处理方式")))

  abbrev failed_reason_code : ToolFinding → String
  failed_reason_code finding =
      if same finding.status ToolStatus.timed_out
      then "openclaw.tool_timed_out"
      else if mentions "web_fetch" (tool_name_of t.lower finding)
      then "openclaw.web_fetch_failed"
      else "openclaw.tool_failed"

  unfoldable pub failed_finding_rule : DecisionContext → Option JobDecision
  failed_finding_rule context =
      elim (first_actionable_failed_finding t.lower context.evidence context.raw_run_status) [
        | none ↦ none
        | some finding ↦
            let reason = finding_reason context finding "OpenClaw 工具执行失败" in
            some (
              decide t context JobStatus.failed (
                rule_input (finding_kind "audit.failed" finding) "strong"
                  (failed_reason_code finding) reason (some reason) none))
      ]

  abbrev is_bad_finding : ToolFinding → Bool
  is_bad_finding finding =
      same finding.status ToolStatus.failed
      || same finding.status ToolStatus.blocked
      || same finding.status ToolStatus.timed_out

  abbrev first_summary_of : List ToolFinding → String → String
  first_summary_of [] fallback = fallback
  first_summary_of (finding ∷ rest) fallback = text_of (or_else finding.summary (some fallback))

  abbrev is_empty : List ToolFinding → Bool
  is_empty [] = true
  is_empty (finding ∷ rest) = false

  unfoldable pub soft_web_search_terminal_rule : DecisionContext → Option JobDecision
  soft_web_search_terminal_rule context =
      let e = context.evidence in
      let soft_only = filter is_bad_finding e.tool_findings in
      if not (has_terminal_lifecycle t.lower e)
        && not (is_run context.raw_run_status RunStatus.completed)
      then none
      else if is_empty soft_only || not (all (is_soft_web_search_finding t.lower) soft_only)
      then none
      else if any (λ finding. same finding.status ToolStatus.succeeded) e.tool_findings
      then none
      else let reason = t.safe_text (first_summary_of soft_only "web_search 未启用；请改用托管浏览器完成查资料") in
        some (
          decide t context JobStatus.blocked (
            rule_input "audit.blocked" "medium" "openclaw.web_search_disabled" reason (some reason)
              (some "需要改用托管浏览器（desktop.control）或确认其他执行方式")))

  unfoldable pub task_blocked_rule : DecisionContext → Option JobDecision
  task_blocked_rule context =
      if not (is_outcome context.task_outcome TaskOutcome.blocked)
      then none
      else let reason = summary_from_evidence context.evidence "OpenClaw task ledger 显示任务被阻塞" in
        some (
          decide t context JobStatus.blocked (
            rule_input "task.blocked" "medium" "openclaw.task_blocked" reason (some reason)
              (some (resume_condition_from_evidence context.evidence "需要用户确认后继续"))))

  unfoldable pub task_failed_rule : DecisionContext → Option JobDecision
  task_failed_rule context =
      if not (is_outcome context.task_outcome TaskOutcome.failed)
      then none
      else let reason = summary_from_evidence context.evidence "OpenClaw task ledger 显示任务失败" in
        some (
          decide t context JobStatus.failed
            (rule_input "task.failed" "medium" "openclaw.task_failed" reason (some reason) none))
