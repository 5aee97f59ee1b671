-- ===== src/Adapter/Decision/Completion.antt =====
-- packages/openclaw-adapter/src/mapping/decision/completion-gate.ts: whether the evidence of an ended
-- run is enough to call the job completed. The pattern of goals on the web is a signal.
use lanxin_claw.Shared.{
  String, Bool, true, false, not, ◌&&◌, ◌||◌, Option, none, some, if◌then◌else◌, ◌==◌, any, append,
  same,
}
use lanxin_claw.Store.Types.{EvidenceQuality}
use lanxin_claw.Adapter.Snapshot.{AdapterJob, is_present}
use lanxin_claw.Adapter.Decision.Evidence.{
  ToolStatus, ToolFinding, Evidence, tool_status_enum, task_field,
}
use lanxin_claw.Adapter.Decision.Findings.{
  TaskOutcome, is_outcome, text_of, has_negative_final_reply, has_negative_tool_finding,
}
use lanxin_claw.Adapter.Decision.Result.{Signals, DecisionContext}

abbrev is_weak : EvidenceQuality → Bool
is_weak EvidenceQuality.weak = true
is_weak _ = false

abbrev has_permission : String → AdapterJob → Bool
has_permission id job = any (λ other. other == id) job.allowed_permissions

module _ (t : Signals) where
  unfoldable pub requires_structured_completion_evidence : AdapterJob → Bool
  requires_structured_completion_evidence job =
      has_permission "workspace.write" job
      || has_permission "command.run" job
      || has_permission "network.access" job
      || has_permission "desktop.control" job
      || has_permission "git.write" job
      || t.is_web_goal job.goal

  abbrev is_present_text : Option String → Option String → Bool
  is_present_text text goal = is_present (t.classify_text_business_signal text goal)

  unfoldable pub has_meaningful_task_result : Evidence → Option String → Bool
  has_meaningful_task_result e goal =
      is_present_text (task_field (λ k. k.terminal_summary) e) goal
      || is_present_text (task_field (λ k. k.progress_summary) e) goal

  unfoldable pub is_process_only_tool_summary : String → Option String → Bool
  is_process_only_tool_summary summary tool_name =
      let text = t.safe_text (append (text_of tool_name) (append " " summary)) in
      if text == "" || t.is_low_signal_text (some summary)
      then true
      else not (is_present_text (some text) none)

  abbrev is_tool_result : String → ToolFinding → Bool
  is_tool_result goal finding =
      let summary = t.safe_text (text_of finding.summary) in
      same finding.status ToolStatus.succeeded
      && is_present_text (some summary) (some goal)
      && not (is_process_only_tool_summary summary finding.tool_name)

  unfoldable pub has_meaningful_tool_completion_evidence : Evidence → String → Bool
  has_meaningful_tool_completion_evidence e goal = any (is_tool_result goal) e.tool_findings

  unfoldable pub has_business_completion_evidence : DecisionContext → Bool
  has_business_completion_evidence context =
      let goal = context.job.goal in
      let quality = (t.classify_business_evidence context.evidence (some goal) none).quality in
      is_present quality
      || (is_weak quality && not (requires_structured_completion_evidence context.job))
      || (is_outcome context.task_outcome TaskOutcome.completed
          && has_meaningful_task_result context.evidence (some goal))
      || has_meaningful_tool_completion_evidence context.evidence goal

  unfoldable pub has_meaningful_task_completion : Evidence → Bool
  has_meaningful_task_completion e = has_meaningful_task_result e none

  unfoldable pub is_terminal_without_business_result : DecisionContext → Bool
  is_terminal_without_business_result context =
      if has_negative_final_reply context.evidence || has_negative_tool_finding context.evidence
      then false
      else not (has_business_completion_evidence context)
