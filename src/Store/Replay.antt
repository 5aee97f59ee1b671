-- ===== src/Store/Replay.antt =====
-- Messages that arrive again, and messages that are refused.
use lanxin_claw.Shared.{
  String, ◌≡◌, refl, Bool, true, List, [], ◌∷◌, Option, none, some, arith, has, lookup, insert,
  lookup-insert, lookup-insert_self,
}
use lanxin_claw.Store.Types.{Affair, Job, JobMessage, Body, Envelope, State, ApplyResult}
use lanxin_claw.Store.Apply.{
  apply_affair, update_affair_from_job, apply_job_event, apply_job, apply_chat_message, finish_job,
  store_job, apply_context_attach, apply_validated_envelope, apply_protocol_envelope_to_state,
  mark_seen, fail_with_ids, decide_terminal_affair_job_event, TerminalDecision, merge_job,
}
use lanxin_claw.Store.Affairs.{apply_all}

-- A refusal changes nothing but the last error.
abbrev pub IsHarmless : State → State × ApplyResult → Type 0
IsHarmless state outcome =
    (code : String)
    → outcome.1 ≡ ApplyResult.failed code
    → outcome.0 ≡ record state { last_error = outcome.0.last_error }

module _ (now : String) (state : State) where
  apply_affair-IsHarmless : (payload : Affair) → IsHarmless state (apply_affair now payload state)
  unfolding apply_affair fail_with_ids
  apply_affair-IsHarmless payload code e = ground arith

  finish_job-IsHarmless :
      (affair : Option Affair) (existing : Option Job) (payload : Job) (decision : TerminalDecision)
      → IsHarmless state (finish_job now affair existing payload state decision)
  unfolding fail_with_ids
  finish_job-IsHarmless affair existing payload decision code e = ground arith

  apply_job-IsHarmless :
      (kind : JobMessage) (incoming : Job) → IsHarmless state (apply_job now kind incoming state)
  unfolding apply_job apply_job_event fail_with_ids
  apply_job-IsHarmless kind incoming =
      let existing = lookup incoming.job_id state.jobs in
      let payload = merge_job existing incoming in
      let affair = lookup payload.affair_id state.affairs in
      elim kind as (λ k. IsHarmless state (apply_job now k incoming state)) [
        | JobMessage.cancel ↦ λ code e. refl
        | k ↦
            finish_job-IsHarmless affair existing payload
              (decide_terminal_affair_job_event affair k existing payload)
      ]

  apply_validated-IsHarmless :
      (body : Body) → IsHarmless state (apply_validated_envelope now body state)
  unfolding apply_validated_envelope apply_chat_message apply_context_attach
  apply_validated-IsHarmless (Body.affair kind payload) code e =
      apply_affair-IsHarmless payload code e
  apply_validated-IsHarmless (Body.job kind payload) code e =
      apply_job-IsHarmless kind payload code e
  apply_validated-IsHarmless (Body.chat_message payload) code e = ground arith
  apply_validated-IsHarmless (Body.chat_context_attach payload) code e = ground arith
  apply_validated-IsHarmless Body.chat_read_receipt code e = refl
  apply_validated-IsHarmless (Body.pairing_request p d n) code e = ground arith
  apply_validated-IsHarmless (Body.session_open s d) code e = ground arith
  apply_validated-IsHarmless Body.session_heartbeat code e = ground arith
  apply_validated-IsHarmless Body.session_closed code e = ground arith
  apply_validated-IsHarmless (Body.other type) code e = refl

  update_affair-seen :
      (affair : Affair) (job : Job)
      → (update_affair_from_job affair job state).seen_messages ≡ state.seen_messages
  unfolding update_affair_from_job
  update_affair-seen affair job = ground arith

store_job-seen :
    (affair : Option Affair) (payload : Job) (state : State)
    → (store_job affair payload state).seen_messages ≡ state.seen_messages
store_job-seen none payload state = refl
store_job-seen (some affair) payload state =
    update_affair-seen "" (record state { jobs = insert payload.job_id payload state.jobs }) affair
      payload

apply_validated-seen :
    (now : String) (body : Body) (state : State)
    → (apply_validated_envelope now body state).0.seen_messages ≡ state.seen_messages
unfolding apply_validated_envelope apply_chat_message apply_context_attach apply_job apply_job_event
    apply_affair fail_with_ids
apply_validated-seen now (Body.affair kind payload) state = ground arith
apply_validated-seen now (Body.job JobMessage.cancel payload) state = refl
apply_validated-seen now (Body.job kind incoming) state =
    let existing = lookup incoming.job_id state.jobs in
    let payload = merge_job existing incoming in
    let affair = lookup payload.affair_id state.affairs in
    ground (arith, store_job-seen affair payload state)
apply_validated-seen now (Body.chat_message payload) state = ground arith
apply_validated-seen now (Body.chat_context_attach payload) state = ground arith
apply_validated-seen now Body.chat_read_receipt state = refl
apply_validated-seen now (Body.pairing_request p d n) state = refl
apply_validated-seen now (Body.session_open s d) state = refl
apply_validated-seen now Body.session_heartbeat state = refl
apply_validated-seen now Body.session_closed state = refl
apply_validated-seen now (Body.other type) state = refl

module _ (validate_message : Envelope → Bool) where
  -- A message that is refused, for whatever reason, changes nothing of the state but the record of
  -- the last error.
  pub apply_protocol-failed :
      (now : String) (envelope : Envelope) (state : State) (code : String)
      → (apply_protocol_envelope_to_state validate_message now envelope state).1
        ≡ ApplyResult.failed code
      → let later = (apply_protocol_envelope_to_state validate_message now envelope state).0 in
        later ≡ record state { last_error = later.last_error }
  unfolding apply_protocol_envelope_to_state fail_with_ids
  apply_protocol-failed now envelope state code e =
      ground (arith, apply_validated-IsHarmless now state envelope.body code)

  mark_seen-keeps :
      (now id key : String) (state : State) (outcome : State × ApplyResult)
      → outcome.0.seen_messages ≡ state.seen_messages
      → has key state.seen_messages ≡ true
      → has key (mark_seen now id outcome).0.seen_messages ≡ true
  mark_seen-keeps now id key state (state', ApplyResult.failed code) e h = rw e h
  mark_seen-keeps now id key state (state', ApplyResult.done duplicate) e h =
      ground (arith, lookup-insert id key now state.seen_messages)

  apply_protocol-seen :
      (now : String) (envelope : Envelope) (state : State) (id : String)
      → has id state.seen_messages ≡ true
      → has id
          (apply_protocol_envelope_to_state validate_message now envelope state).0.seen_messages
        ≡ true
  unfolding apply_protocol_envelope_to_state fail_with_ids
  apply_protocol-seen now envelope state id h =
      let applied = apply_validated_envelope now envelope.body state in
      ground (
        arith,
        mark_seen-keeps now envelope.message_id id state applied
            (apply_validated-seen now envelope.body state),
      )

  apply_all-seen :
      (messages : List (String × Envelope)) (state : State) (id : String)
      → has id state.seen_messages ≡ true
      → has id (apply_all validate_message messages state).seen_messages ≡ true
  unfolding apply_all
  apply_all-seen [] state id h = h
  apply_all-seen ((now, envelope) ∷ rest) state id h =
      apply_all-seen rest _ id (apply_protocol-seen now envelope state id h)

  mark_seen-marks :
      (now id : String) (outcome : State × ApplyResult) (duplicate : Bool)
      → (mark_seen now id outcome).1 ≡ ApplyResult.done duplicate
      → has id (mark_seen now id outcome).0.seen_messages ≡ true
  mark_seen-marks now id (state, ApplyResult.failed code) duplicate e = ground arith
  mark_seen-marks now id (state, ApplyResult.done d) duplicate e =
      ground (arith, lookup-insert_self id now state.seen_messages)

  apply_protocol-marks :
      (now : String) (envelope : Envelope) (state : State) (duplicate : Bool)
      → (apply_protocol_envelope_to_state validate_message now envelope state).1
        ≡ ApplyResult.done duplicate
      → (validate_message envelope ≡ true)
        × (has envelope.message_id
              (apply_protocol_envelope_to_state validate_message now envelope state).0.seen_messages
            ≡ true)
  unfolding apply_protocol_envelope_to_state fail_with_ids
  apply_protocol-marks now envelope state duplicate e = ground (
    arith,
    mark_seen-marks now envelope.message_id (apply_validated_envelope now envelope.body state)
        duplicate,
  )

  again :
      (now : String) (envelope : Envelope) (state : State)
      → validate_message envelope ≡ true
      → has envelope.message_id state.seen_messages ≡ true
      → apply_protocol_envelope_to_state validate_message now envelope state
        ≡ (state, ApplyResult.done true)
  unfolding apply_protocol_envelope_to_state
  again now envelope state valid seen = ground arith

  -- A message that was applied once is a duplicate ever after: when it arrives again, after any
  -- other messages, it is acknowledged as a duplicate and changes nothing.
  pub apply_protocol-replay :
      (now later : String) (envelope : Envelope) (state : State) (duplicate : Bool)
      (between : List (String × Envelope))
      → (apply_protocol_envelope_to_state validate_message now envelope state).1
        ≡ ApplyResult.done duplicate
      → let mid =
          apply_all validate_message between
            (apply_protocol_envelope_to_state validate_message now envelope state).0 in
        apply_protocol_envelope_to_state validate_message later envelope mid
        ≡ (mid, ApplyResult.done true)
  apply_protocol-replay now later envelope state duplicate between e =
      let (valid, seen) = apply_protocol-marks now envelope state duplicate e in
      again later envelope _ valid (
        apply_all-seen between
          (apply_protocol_envelope_to_state validate_message now envelope state).0
          envelope.message_id seen)
