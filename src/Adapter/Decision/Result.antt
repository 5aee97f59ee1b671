-- ===== src/Adapter/Decision/Result.antt =====
-- packages/openclaw-adapter/src/mapping/decision/result.ts and supervise-projection.ts: the rule that
-- answered is written out as a decision. The reading of business texts (business/) is the record
-- `Signals`, of which nothing is assumed.
use lanxin_claw.Shared.{
  ℕ, String, Bool, true, false, not, ◌&&◌, ◌||◌, List, [], ◌∷◌, ◌++◌, Option, none, some,
  if◌then◌else◌, ◌==◌, length, leb, or_else, truthy, append,
}
use lanxin_claw.States.Job.{JobStatus}
use lanxin_claw.Store.Types.{StepKind, RecentStep, EvidenceQuality}
use lanxin_claw.Adapter.Snapshot.{RunStatus, AdapterJob, JobDecision, is_present}
use lanxin_claw.Adapter.Decision.Evidence.{
  ToolFinding, Evidence, lifecycle_field, task_field, normalize_evidence_run_status,
}
use lanxin_claw.Adapter.Decision.Texts.{mentions}
use lanxin_claw.Adapter.Decision.Findings.{TaskOutcome, text_of}

-- `BusinessEvidenceClassification`, less its kind.
pub record Classification : Type 0 where
  pub text : Option String
  pub quality : EvidenceQuality

-- The text heuristics, `toLowerCase`, and the cut of a step's text to its greatest length.
pub record Signals : Type 0 where
  pub lower : String → String
  pub safe_text : String → String
  pub cut_step : String → String
  pub is_low_signal_text : Option String → Bool
  pub classify_business_evidence : Evidence → (goal fallback : Option String) → Classification
  pub classify_text_business_signal : (text goal : Option String) → EvidenceQuality
  pub pick_meaningful_business_text : Evidence → (fallback goal : Option String) → Option String
  pub is_web_goal : String → Bool

pub record DecisionContext : Type 0 where
  pub job : AdapterJob
  pub evidence : Evidence
  pub raw_run_status : Option RunStatus
  pub task_outcome : Option TaskOutcome

-- What a rule gives to `decide`.
pub record RuleInput : Type 0 where
  pub kind : String
  pub strength : String
  pub reason_code : String
  pub summary : String
  pub blocked_reason : Option String
  pub resume_condition : Option String

unfoldable pub human_progress_fallback : JobStatus → String
human_progress_fallback JobStatus.completed = "OpenClaw 已返回可验收结果"
human_progress_fallback JobStatus.blocked = "OpenClaw 执行被阻塞"
human_progress_fallback JobStatus.failed = "OpenClaw 执行失败"
human_progress_fallback JobStatus.canceled = "OpenClaw 已确认取消"
human_progress_fallback JobStatus.needs_permission = "OpenClaw 正在等待授权"
human_progress_fallback JobStatus.queued = "OpenClaw 已接收任务"
human_progress_fallback _ = "OpenClaw 正在执行"

pub record Projection : Type 0 where
  pub recent_steps : List RecentStep
  pub result_digest : Option String
  pub evidence_quality : EvidenceQuality

abbrev has_text : Option String → Bool
has_text text = truthy text

abbrev is_missing_quality : EvidenceQuality → Bool
is_missing_quality EvidenceQuality.missing = true
is_missing_quality _ = false

-- `steps.slice(-8)`.
abbrev pub drop_first : ℕ → List RecentStep → List RecentStep
drop_first n [] = []
drop_first n (step ∷ rest) =
    let fewer = drop_first n rest in if leb (length (step ∷ rest)) n then step ∷ rest else fewer

module _ (t : Signals) where
  abbrev pub tool_step_text : ToolFinding → String
  tool_step_text finding =
      let raw =
        t.safe_text (text_of (or_else finding.summary (or_else finding.error_code (some "")))) in
      if truthy finding.tool_name
      then t.safe_text (
          if t.is_low_signal_text (some raw) || raw == ""
          then text_of finding.tool_name
          else append (text_of finding.tool_name) (append ": " raw))
      else raw

  abbrev pub tool_steps : String → List ToolFinding → List RecentStep
  tool_steps at [] = []
  tool_steps at (finding ∷ rest) =
      let others = tool_steps at rest in
      if tool_step_text finding == ""
      then others
      else record { at = at; kind = StepKind.tool; text = t.cut_step (tool_step_text finding) }
        ∷ others

  abbrev pub meaningful_step : String → StepKind → Option String → List RecentStep
  meaningful_step at kind value =
      let text = t.safe_text (text_of value) in
      if text == "" || t.is_low_signal_text (some text)
      then []
      else record { at = at; kind = kind; text = t.cut_step text } ∷ []

  unfoldable pub collect_recent_steps : Evidence → List RecentStep
  collect_recent_steps e = drop_first 8 (
      tool_steps e.observed_at e.tool_findings
      ++ (meaningful_step e.observed_at StepKind.lifecycle (
            or_else (lifecycle_field (λ l. l.terminal_reason) e)
              (lifecycle_field (λ l. l.terminal_phase) e))
          ++ (meaningful_step e.observed_at StepKind.task (
                or_else (task_field (λ k. k.progress_summary) e)
                  (task_field (λ k. k.terminal_summary) e))
              ++ meaningful_step e.observed_at StepKind.reply
                  (elim e.final_reply [ none ↦ none | some reply ↦ some reply.text ]))))

  abbrev pub projection : List RecentStep → Option String → EvidenceQuality → Projection
  projection steps digest quality = record {
    recent_steps = steps;
    result_digest = digest;
    evidence_quality = quality;
  }

  -- A missing text, or one of missing quality, leaves the given quality.
  abbrev pub ended_projection : List RecentStep → Classification → EvidenceQuality → Projection
  ended_projection steps c otherwise =
      if not (has_text c.text) || is_missing_quality c.quality
      then projection steps none otherwise
      else projection steps c.text c.quality

  abbrev pub open_projection : List RecentStep → Classification → Projection
  open_projection steps c = projection steps none (
      if has_text c.text || leb 1 (length steps)
      then EvidenceQuality.weak
      else EvidenceQuality.missing)

  abbrev pub projection_for : JobStatus → List RecentStep → Classification → Projection
  projection_for JobStatus.canceled steps c =
      if is_present c.quality
      then projection steps c.text EvidenceQuality.present
      else projection steps none EvidenceQuality.weak
  projection_for JobStatus.completed steps c = ended_projection steps c EvidenceQuality.missing
  projection_for JobStatus.blocked steps c = ended_projection steps c EvidenceQuality.weak
  projection_for JobStatus.failed steps c = ended_projection steps c EvidenceQuality.weak
  projection_for _ steps c = open_projection steps c

  unfoldable pub build_supervise_projection :
      Evidence → JobStatus → (progress_summary goal : String) → Projection
  build_supervise_projection e status progress_summary goal =
      projection_for status (collect_recent_steps e)
        (t.classify_business_evidence e (some goal) (some progress_summary))

  abbrev no_result_words : String → Bool
  no_result_words text = mentions "没有返回可验收" text

  unfoldable pub first_summary : DecisionContext → JobStatus → String → String
  first_summary context status summary =
      let text = t.safe_text summary in
      if t.is_low_signal_text (some text)
      then text_of (
          or_else (t.pick_meaningful_business_text context.evidence none (some context.job.goal))
            (some (human_progress_fallback status)))
      else text

  unfoldable pub decide : DecisionContext → JobStatus → RuleInput → JobDecision
  decide context status input =
      let e = context.evidence in
      let goal = context.job.goal in
      let first = first_summary context status input.summary in
      let c = t.classify_business_evidence e (some goal) (some first) in
      let present = is_present c.quality in
      let progress =
        if present && has_text c.text && no_result_words first then text_of c.text else first in
      let blocked : Option String = elim input.blocked_reason [
        | none ↦ none
        | some reason ↦
            if present && no_result_words (t.safe_text reason)
            then none
            else some (t.safe_text reason)
      ] in
      let p = build_supervise_projection e status progress goal in
      record {
        status = status;
        progress_summary = progress;
        blocked_reason = blocked;
        resume_condition = elim input.resume_condition [
          | none ↦ none
          | some text ↦ some (t.safe_text text)
        ];
        status_reason_code =
            if present && input.reason_code == "openclaw.terminal_without_result"
            then "openclaw.run_completed"
            else input.reason_code;
        status_observed_at = e.observed_at;
        evidence_kind = input.kind;
        evidence_strength = input.strength;
        raw_run_status = or_else context.raw_run_status (normalize_evidence_run_status t.lower e);
        recent_steps = p.recent_steps;
        result_digest = p.result_digest;
        evidence_quality = p.evidence_quality;
      }
