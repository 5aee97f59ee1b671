-- ===== src/Adapter/Decision/Findings.antt =====
-- packages/openclaw-adapter/src/mapping/decision/evidence-helpers.ts: what the evidence shows.
use lanxin_claw.Shared.{
  String, Bool, true, false, not, ◌&&◌, ◌||◌, List, [], ◌∷◌, Option, none, some, if◌then◌else◌,
  ◌==◌, any, find, is_blank, join, append, same,
}
use lanxin_claw.Adapter.Snapshot.{RunStatus}
use lanxin_claw.Adapter.Decision.Evidence.{
  ToolStatus, ToolFinding, Evidence, tool_status_enum, wait_field, lifecycle_field, task_field,
  is_run, is_label, has_terminal_lifecycle,
}
use lanxin_claw.Adapter.Decision.Texts.{
  mentions, mentions_one, speaks_of, negative_words, contains_blocking_text,
}

pub data TaskOutcome : Type 0 where
  running blocked failed completed : TaskOutcome

abbrev pub is_outcome : Option TaskOutcome → TaskOutcome → Bool
is_outcome (Option.some TaskOutcome.running) TaskOutcome.running = true
is_outcome (Option.some TaskOutcome.blocked) TaskOutcome.blocked = true
is_outcome (Option.some TaskOutcome.failed) TaskOutcome.failed = true
is_outcome (Option.some TaskOutcome.completed) TaskOutcome.completed = true
is_outcome _ _ = false

abbrev pub text_of : Option String → String
text_of none = ""
text_of (some text) = text

-- `[...].filter(Boolean)`.
abbrev pub given : List (Option String) → List String
given [] = []
given (none ∷ rest) = given rest
given (some text ∷ rest) = let others = given rest in if text == "" then others else text ∷ others

unfoldable pub has_negative_final_reply : Evidence → Bool
has_negative_final_reply e = elim e.final_reply [
  | none ↦ false
  | some reply ↦ speaks_of negative_words reply.text
]

unfoldable pub has_negative_tool_finding : Evidence → Bool
has_negative_tool_finding e =
    any
      (λ finding.
        same finding.status ToolStatus.failed
        || same finding.status ToolStatus.blocked
        || same finding.status ToolStatus.timed_out
        || same finding.status ToolStatus.cancelled)
      e.tool_findings

module _ (lower : String → String) where
  abbrev pub tool_name_of : ToolFinding → String
  tool_name_of finding = lower (text_of finding.tool_name)

  unfoldable pub has_cancelled_finding : Evidence → Bool
  has_cancelled_finding e =
      any (λ finding. same finding.status ToolStatus.cancelled) e.tool_findings
      || mentions_one ("cancelled" ∷ "canceled" ∷ "aborted" ∷ []) (
          lower (
            append (text_of (task_field (λ t. t.status) e))
              (append " " (text_of (task_field (λ t. t.terminal_outcome) e)))))

  unfoldable pub is_soft_web_search_finding : ToolFinding → Bool
  is_soft_web_search_finding finding =
      let text = append (text_of finding.summary) (append " " (text_of finding.error_code)) in
      if not (mentions "web_search" (tool_name_of finding))
      then false
      else if not (same finding.status ToolStatus.failed)
          && not (same finding.status ToolStatus.blocked)
          && not (same finding.status ToolStatus.unknown)
      then false
      else speaks_of
          ("disabled" ∷ "no provider" ∷ "not configured" ∷ "unavailable" ∷ "未启用" ∷ "不可用" ∷ "未配置"
            ∷ [])
          text
        || is_blank text

  abbrev pub is_blocking_finding : ToolFinding → Bool
  is_blocking_finding finding =
      not (is_soft_web_search_finding finding)
      && (same finding.status ToolStatus.blocked
          || ((same finding.status ToolStatus.failed || same finding.status ToolStatus.unknown)
              && (contains_blocking_text finding.error_code
                  || contains_blocking_text finding.summary)))

  unfoldable pub first_blocking_finding : Evidence → Option ToolFinding
  first_blocking_finding e = find is_blocking_finding e.tool_findings

  unfoldable pub has_browser_tool_finding : Evidence → Bool
  has_browser_tool_finding e =
      any (λ finding. mentions "browser" (tool_name_of finding)) e.tool_findings

  unfoldable pub is_premature_web_fetch_failure : ToolFinding → Evidence → Option RunStatus → Bool
  is_premature_web_fetch_failure finding e raw =
      if not (mentions "web_fetch" (tool_name_of finding))
      then false
      else if not (same finding.status ToolStatus.failed)
      then false
      else if has_browser_tool_finding e
      then false
      else if has_terminal_lifecycle lower e
      then false
      else not (is_run raw RunStatus.completed)
        && not (is_run raw RunStatus.failed)
        && not (is_run raw RunStatus.cancelled)
        && not (is_run raw RunStatus.timed_out)

  abbrev pub is_actionable_failure : Evidence → Option RunStatus → ToolFinding → Bool
  is_actionable_failure e raw finding =
      (same finding.status ToolStatus.failed || same finding.status ToolStatus.timed_out)
      && not (is_soft_web_search_finding finding)
      && not (is_premature_web_fetch_failure finding e raw)

  unfoldable pub first_actionable_failed_finding : Evidence → Option RunStatus → Option ToolFinding
  first_actionable_failed_finding e raw = find (is_actionable_failure e raw) e.tool_findings

  abbrev pub outcome_of_text : String → Option TaskOutcome
  outcome_of_text text =
      if is_blank (lower text)
      then none
      else if contains_blocking_text (some text)
      then some TaskOutcome.blocked
      else if mentions_one ("timed_out" ∷ "timeout" ∷ "failed" ∷ "failure" ∷ "error" ∷ [])
          (lower text)
      then some TaskOutcome.failed
      else if mentions_one ("complete" ∷ "done" ∷ "success" ∷ "succeeded" ∷ "ok" ∷ []) (lower text)
      then some TaskOutcome.completed
      else if mentions_one ("running" ∷ "pending" ∷ "queued" ∷ "active" ∷ "in_progress" ∷ [])
          (lower text)
      then some TaskOutcome.running
      else none

  unfoldable pub classify_task : Evidence → Option TaskOutcome
  classify_task e = outcome_of_text (
      join " " (
        given (
          task_field (λ t. t.status) e
          ∷ task_field (λ t. t.terminal_outcome) e
          ∷ task_field (λ t. t.error) e
          ∷ task_field (λ t. t.terminal_summary) e
          ∷ [])))

  unfoldable pub is_wait_ok_with_terminal_evidence : Evidence → Bool
  is_wait_ok_with_terminal_evidence e =
      let status = wait_field (λ w. some w.status) e in
      (is_label lower status "ok"
        || is_label lower status "completed"
        || is_label lower status "complete")
      && has_terminal_lifecycle lower e

  unfoldable pub is_wait_error : Evidence → Bool
  is_wait_error e =
      let status = wait_field (λ w. some w.status) e in
      is_label lower status "error"
      || is_label lower status "failed"
      || is_label lower status "failure"

  unfoldable pub is_lifecycle_error : Evidence → Bool
  is_lifecycle_error e =
      let phase = lifecycle_field (λ l. l.terminal_phase) e in
      is_label lower phase "error"
      || is_label lower phase "failed"
      || is_label lower phase "failure"

  unfoldable pub is_terminal_timeout : Evidence → Bool
  is_terminal_timeout e =
      is_label lower (wait_field (λ w. w.timeout_phase) e) "terminal"
      || is_label lower (lifecycle_field (λ l. l.terminal_phase) e) "timeout"
      || is_label lower (lifecycle_field (λ l. l.terminal_reason) e) "timeout"
      || is_label lower (task_field (λ t. t.terminal_outcome) e) "timeout"

  unfoldable pub is_wait_only_timeout : Evidence → Bool
  is_wait_only_timeout e =
      is_label lower (wait_field (λ w. some w.status) e) "timeout"
      && not (has_terminal_lifecycle lower e)
      && not (is_terminal_timeout e)
