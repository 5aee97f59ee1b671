-- ===== src/Adapter/Decision/Evidence.antt =====
-- packages/openclaw-adapter/src/evidence/openclaw-execution-evidence.ts and
-- mapping/decision/status/run.ts: the evidence of a run and the status that it reports. A time is a
-- text; 0 is the empty text. The ids that only connect records are left out. `lower` is
-- `toLowerCase`.
use lanxin_claw.Shared.{
  ℕ, ◌≡◌, String, Bool, false, ◌||◌, List, [], ◌∷◌, Option, none, some, arith, if◌then◌else◌, ◌==◌,
  any, or_else, truthy, trim, Enum, same,
}
use lanxin_claw.Adapter.Snapshot.{RunStatus}

pub data ToolStatus : Type 0 where
  succeeded failed blocked timed_out cancelled unknown : ToolStatus

pub record WaitEvidence : Type 0 where
  pub status : String
  pub ended_at : Option String
  pub stop_reason : Option String
  pub timeout_phase : Option String
  pub error : Option String

pub record LifecycleEvidence : Type 0 where
  pub ended_at : Option String
  pub terminal_phase : Option String
  pub terminal_reason : Option String

pub record ToolFinding : Type 0 where
  pub tool_call_id : Option String
  pub tool_name : Option String
  pub status : ToolStatus
  pub error_code : Option String
  pub summary : Option String

pub record TaskEvidence : Type 0 where
  pub status : Option String
  pub terminal_outcome : Option String
  pub progress_summary : Option String
  pub terminal_summary : Option String
  pub error : Option String

pub data Confidence : Type 0 where
  weak medium : Confidence

pub record FinalReply : Type 0 where
  pub text : String
  pub confidence : Confidence

pub record Evidence : Type 0 where
  pub observed_at : String
  pub wait : Option WaitEvidence
  pub lifecycle : Option LifecycleEvidence
  pub tool_findings : List ToolFinding
  pub task : Option TaskEvidence
  pub final_reply : Option FinalReply
  pub local_cancel_ack : Bool
  pub source_statuses : List String

abbrev tool_status_code : ToolStatus → ℕ
tool_status_code ToolStatus.succeeded = 0
tool_status_code ToolStatus.failed = 1
tool_status_code ToolStatus.blocked = 2
tool_status_code ToolStatus.timed_out = 3
tool_status_code ToolStatus.cancelled = 4
tool_status_code ToolStatus.unknown = 5

pub tool_status_code_injective :
    (a b : ToolStatus) → tool_status_code a ≡ tool_status_code b → a ≡ b
tool_status_code_injective a b h = ground arith

instance abbrev pub tool_status_enum : Enum ToolStatus
tool_status_enum = record { code = tool_status_code; code_injective = tool_status_code_injective }

abbrev run_status_code : RunStatus → ℕ
run_status_code RunStatus.accepted = 0
run_status_code RunStatus.running = 1
run_status_code RunStatus.waiting_approval = 2
run_status_code RunStatus.blocked = 3
run_status_code RunStatus.completed = 4
run_status_code RunStatus.failed = 5
run_status_code RunStatus.cancelled = 6
run_status_code RunStatus.timed_out = 7

pub run_status_code_injective : (a b : RunStatus) → run_status_code a ≡ run_status_code b → a ≡ b
run_status_code_injective a b h = ground arith

instance abbrev pub run_status_enum : Enum RunStatus
run_status_enum = record { code = run_status_code; code_injective = run_status_code_injective }

-- `raw === status` where the left side may be `null`.
abbrev pub is_run : Option RunStatus → RunStatus → Bool
is_run none status = false
is_run (some own) status = same own status

-- A field of a part that may be missing.
abbrev pub wait_field : (WaitEvidence → Option String) → Evidence → Option String
wait_field field e = elim e.wait [ none ↦ none | some w ↦ field w ]

abbrev pub lifecycle_field : (LifecycleEvidence → Option String) → Evidence → Option String
lifecycle_field field e = elim e.lifecycle [ none ↦ none | some l ↦ field l ]

abbrev pub task_field : (TaskEvidence → Option String) → Evidence → Option String
task_field field e = elim e.task [ none ↦ none | some t ↦ field t ]

abbrev pub is_one_of : String → List String → Bool
is_one_of text texts = any (λ other. text == other) texts

-- `normalizeRunStatus` on the trimmed lower-case text.
unfoldable pub status_of_label : String → Option RunStatus
status_of_label label =
    if label == ""
    then none
    else if is_one_of label ("accepted" ∷ "queued" ∷ "created" ∷ "pending" ∷ "in_flight" ∷ [])
    then some RunStatus.accepted
    else if is_one_of label ("running" ∷ "in_progress" ∷ "active" ∷ "working" ∷ [])
    then some RunStatus.running
    else if is_one_of label
        ("approval_required" ∷ "approval.request" ∷ "waiting_approval" ∷ "needs_permission" ∷ [])
    then some RunStatus.waiting_approval
    else if is_one_of label ("blocked" ∷ "requires_user" ∷ "need_user" ∷ "requires_input" ∷ [])
    then some RunStatus.blocked
    else if is_one_of label ("completed" ∷ "complete" ∷ "done" ∷ "success" ∷ "succeeded" ∷ [])
    then some RunStatus.completed
    else if is_one_of label ("failed" ∷ "failure" ∷ "error" ∷ "errored" ∷ [])
    then some RunStatus.failed
    else if is_one_of label ("cancelled" ∷ "canceled" ∷ "aborted" ∷ "abort" ∷ [])
    then some RunStatus.cancelled
    else if is_one_of label ("timed_out" ∷ "terminal_timeout" ∷ [])
    then some RunStatus.timed_out
    else none

module _ (lower : String → String) where
  -- `value?.trim().toLowerCase()`.
  abbrev pub label_of : Option String → Option String
  label_of none = none
  label_of (some text) = some (lower (trim text))

  abbrev pub is_label : Option String → String → Bool
  is_label value label = elim (label_of value) [ none ↦ false | some own ↦ own == label ]

  unfoldable pub normalize_run_status : Option String → Option RunStatus
  normalize_run_status value = elim (label_of value) [
    | none ↦ none
    | some label ↦ status_of_label label
  ]

  abbrev pub some_all : List String → List (Option String)
  some_all [] = []
  some_all (text ∷ rest) = some text ∷ some_all rest

  abbrev pub first_status : List (Option String) → Option RunStatus
  first_status [] = none
  first_status (value ∷ rest) = or_else (normalize_run_status value) (first_status rest)

  unfoldable pub normalize_evidence_run_status : Evidence → Option RunStatus
  normalize_evidence_run_status e = first_status (
      wait_field (λ w. some w.status) e
      ∷ task_field (λ t. t.terminal_outcome) e
      ∷ task_field (λ t. t.status) e
      ∷ some_all e.source_statuses)

  unfoldable pub has_terminal_lifecycle : Evidence → Bool
  has_terminal_lifecycle e =
      let status = normalize_evidence_run_status e in
      truthy (lifecycle_field (λ l. l.ended_at) e)
      || truthy (lifecycle_field (λ l. l.terminal_phase) e)
      || truthy (wait_field (λ w. w.ended_at) e)
      || is_run status RunStatus.completed
      || is_run status RunStatus.failed
      || is_run status RunStatus.timed_out
      || is_run status RunStatus.cancelled
