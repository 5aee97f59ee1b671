-- ===== src/Store/Apply.antt =====
-- apps/companion/src/state/store.ts, terminal-job-guard.ts and chat-events.ts: a protocol message
-- is applied to the state. `validate_message` is the protocol's validator, by its answer alone.
use lanxin_claw.Shared.{
  String, Bool, true, false, not, ◌&&◌, ◌||◌, [], ◌∷◌, ◌++◌, Option, none, some, if◌then◌else◌,
  ◌==◌, lookup, insert, has, or_else, truthy, same_text, same, find,
}
use lanxin_claw.States.Affair.{AffairStatus, can_transition_affair_status, affair_status_enum}
use lanxin_claw.States.Job.{JobStatus, can_transition_job_status, job_status_enum}
use lanxin_claw.Store.Types.{
  Affair, Job, Purpose, ChatMessage, ContextAttach, JobMessage, Body, Envelope, Connection, State,
  ApplyResult,
}
use lanxin_claw.Store.Projection.{affair_status_for_job, project_affair_with_job, is_execution}

unfoldable pub fail_with_ids :
    String → String → Option String → Option String → State → State × ApplyResult
fail_with_ids code now affair_id job_id state = (
  record state {
    last_error =
        some (record { code = code; occurred_at = now; affair_id = affair_id; job_id = job_id });
  },
  ApplyResult.failed code,
)

abbrev pub fail : String → String → State → State × ApplyResult
fail code now state = fail_with_ids code now none none state

abbrev pub is_terminal_affair_status : AffairStatus → Bool
is_terminal_affair_status status =
    same status AffairStatus.closed || same status AffairStatus.canceled

abbrev pub is_canceled_message : JobMessage → Bool
is_canceled_message JobMessage.canceled = true
is_canceled_message _ = false

abbrev same_event : Option Job → Job → Bool
same_event none payload = false
same_event (some existing) payload =
    existing.affair_id == payload.affair_id
    && same existing.status payload.status
    && existing.goal == payload.goal

abbrev pub is_allowed_job_event_for_terminal_affair : JobMessage → Option Job → Job → Bool
is_allowed_job_event_for_terminal_affair kind existing payload =
    if same payload.status JobStatus.canceled || is_canceled_message kind
    then true
    else same_event existing payload

pub data TerminalDecision : Type 0 where
  allow : TerminalDecision
  ignore_duplicate : TerminalDecision
  reject : (affair_id job_id : String) → TerminalDecision

unfoldable pub decide_terminal_affair_job_event :
    Option Affair → JobMessage → Option Job → Job → TerminalDecision
decide_terminal_affair_job_event none kind existing payload = TerminalDecision.allow
decide_terminal_affair_job_event (some affair) kind existing payload =
    if not (is_terminal_affair_status affair.status)
    then TerminalDecision.allow
    else if not (is_allowed_job_event_for_terminal_affair kind existing payload)
    then TerminalDecision.reject affair.affair_id payload.job_id
    else if is_canceled_message kind || same payload.status JobStatus.canceled
    then TerminalDecision.allow
    else TerminalDecision.ignore_duplicate

unfoldable pub apply_affair : String → Affair → State → State × ApplyResult
apply_affair now payload state =
    let stored : State × ApplyResult = (
      record state { affairs = insert payload.affair_id payload state.affairs },
      ApplyResult.done false,
    ) in
    elim (lookup payload.affair_id state.affairs) [
      | none ↦ stored
      | some existing ↦
          if not (can_transition_affair_status existing.status payload.status)
          then fail "affair_illegal_transition" now state
          else stored
    ]

-- Whether the affair is at work on another job.
abbrev pub is_other_job : Option String → String → Bool
is_other_job none job_id = false
is_other_job (some current) job_id = truthy (some current) && not (current == job_id)

unfoldable pub update_affair_from_job : Affair → Job → State → State
update_affair_from_job affair job state =
    if not (is_execution job)
    then state
    else if is_other_job affair.current_job_id job.job_id
    then state
    else elim (affair_status_for_job job) [
      | none ↦ state
      | some next_status ↦
          let next_affair = project_affair_with_job affair job next_status in
          if not (can_transition_affair_status affair.status next_affair.status)
          then state
          else record state { affairs = insert affair.affair_id next_affair state.affairs }
    ]

-- An update keeps what the stored job says of purpose, permission request and intent.
unfoldable pub merge_job : Option Job → Job → Job
merge_job none incoming = incoming
merge_job (some existing) incoming = record incoming {
  purpose = or_else incoming.purpose (or_else existing.purpose (some Purpose.execution));
  permission_request_id = or_else incoming.permission_request_id existing.permission_request_id;
  task_intent_id = or_else incoming.task_intent_id existing.task_intent_id;
}

abbrev pub is_illegal_job_move : Option Job → Job → Bool
is_illegal_job_move none payload = false
is_illegal_job_move (some existing) payload =
    not (can_transition_job_status existing.status payload.status)

abbrev pub store_job : Option Affair → Job → State → State
store_job affair payload state =
    let state' = record state { jobs = insert payload.job_id payload state.jobs } in
    elim affair [ none ↦ state' | some a ↦ update_affair_from_job a payload state' ]

-- The rest of `applyJob`, once the guard of a finished affair has answered.
abbrev pub finish_job :
    String → Option Affair → Option Job → Job → State → TerminalDecision → State × ApplyResult
finish_job now affair existing payload state (TerminalDecision.reject affair_id job_id) =
    fail_with_ids "affair_terminal_for_job" now (some affair_id) (some job_id) state
finish_job now affair existing payload state TerminalDecision.ignore_duplicate =
    (state, ApplyResult.done true)
finish_job now affair existing payload state TerminalDecision.allow =
    if is_illegal_job_move existing payload
    then fail "job_illegal_transition" now state
    else (store_job affair payload state, ApplyResult.done false)

-- `applyJob` on a message other than `job.cancel`.
unfoldable pub apply_job_event : String → JobMessage → Job → State → State × ApplyResult
apply_job_event now kind incoming state =
    let existing = lookup incoming.job_id state.jobs in
    let payload = merge_job existing incoming in
    let affair = lookup payload.affair_id state.affairs in
    finish_job now affair existing payload state
      (decide_terminal_affair_job_event affair kind existing payload)

unfoldable pub apply_job : String → JobMessage → Job → State → State × ApplyResult
apply_job now JobMessage.cancel incoming state = fail "job_cancel_executor_required" now state
apply_job now kind incoming state = apply_job_event now kind incoming state

abbrev pub duplicate_result : String → Option String → String → Option String → ApplyResult
duplicate_result old_text old_affair text affair =
    if not (old_text == text) || not (same_text old_affair affair)
    then ApplyResult.failed "message_id_content_conflict"
    else ApplyResult.done true

unfoldable pub apply_chat_message : ChatMessage → State → State × ApplyResult
apply_chat_message payload state =
    elim (find (λ item. item.chat_message_id == payload.chat_message_id) state.chat_messages) [
      | some old ↦ (state, duplicate_result old.text old.affair_id payload.text payload.affair_id)
      | none ↦ (
        record state { chat_messages = state.chat_messages ++ payload ∷ [] },
        ApplyResult.done false,
      )
    ]

unfoldable pub apply_context_attach : ContextAttach → State → State × ApplyResult
apply_context_attach payload state =
    elim (find (λ item. item.attach_id == payload.attach_id) state.context_attachments) [
      | some old ↦ (state, duplicate_result old.text old.affair_id payload.text payload.affair_id)
      | none ↦ (
        record state { context_attachments = state.context_attachments ++ payload ∷ [] },
        ApplyResult.done false,
      )
    ]

abbrev pub with_connection : Connection → State → State × ApplyResult
with_connection connection state =
    (record state { connection = connection }, ApplyResult.done false)

unfoldable pub apply_validated_envelope : String → Body → State → State × ApplyResult
apply_validated_envelope now (Body.pairing_request pairing_id phone name) state =
    with_connection
      (record {
        phone_device_id = some phone;
        phone_display_name = some name;
        pairing_id = some pairing_id;
        session_id = none;
        last_seen_at = some now;
        session_authenticated = false;
      })
      state
apply_validated_envelope now (Body.session_open session_id phone) state =
    with_connection
      (record state.connection {
        session_id = some session_id;
        phone_device_id = some phone;
        session_authenticated = true;
        last_seen_at = some now;
      })
      state
apply_validated_envelope now Body.session_heartbeat state =
    with_connection (record state.connection { last_seen_at = some now }) state
apply_validated_envelope now Body.session_closed state =
    with_connection
      (record state.connection { session_authenticated = false; last_seen_at = some now }) state
apply_validated_envelope now (Body.affair kind payload) state = apply_affair now payload state
apply_validated_envelope now (Body.job kind payload) state = apply_job now kind payload state
apply_validated_envelope now (Body.chat_message payload) state = apply_chat_message payload state
apply_validated_envelope now (Body.chat_context_attach payload) state =
    apply_context_attach payload state
apply_validated_envelope now Body.chat_read_receipt state =
    (state, ApplyResult.failed "receipt_commit_required")
apply_validated_envelope now (Body.other type) state = (state, ApplyResult.done false)

abbrev pub mark_seen : String → String → State × ApplyResult → State × ApplyResult
mark_seen now id (state, ApplyResult.failed code) = (state, ApplyResult.failed code)
mark_seen now id (state, ApplyResult.done duplicate) = (
  record state { seen_messages = insert id now state.seen_messages; updated_at = now },
  ApplyResult.done duplicate,
)

unfoldable pub apply_protocol_envelope_to_state :
    (Envelope → Bool) → String → Envelope → State → State × ApplyResult
apply_protocol_envelope_to_state validate_message now envelope state =
    if not (validate_message envelope)
    then fail "protocol_invalid" now state
    else if has envelope.message_id state.seen_messages
    then (state, ApplyResult.done true)
    else mark_seen now envelope.message_id (apply_validated_envelope now envelope.body state)
