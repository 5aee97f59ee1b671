-- ===== src/Closing/Execute.antt =====
-- apps/companion/src/affairs/actions/coordinator.ts: the life of one request, from its arrival
-- (`execute` up to the queue) over the operation that the queue runs to its answer.
use lanxin_claw.Shared.{
  String, Bool, true, false, not, List, [], ◌∷◌, ◌++◌, Option, none, some, if◌then◌else◌, ◌==◌,
  lookup, filter, any,
}
use lanxin_claw.Store.Types.{Affair, Job}
use lanxin_claw.Closing.Precheck.{CloseStatus, AffairClose, wanted, precheck_affair_close}
use lanxin_claw.Closing.Coordinator.{
  ActionResult, ActionOutcome, Phase, ActionRequest, ActionRecord, Mirror, World,
  validate_affair_close_payload, same_fingerprint, is_pending, is_closing, jobs_of, set_affair,
  set_action, persist, cancel_children,
}

-- What the synchronous part of `execute` answers.
pub data Submitted : Type 0 where
  answered : ActionOutcome → Submitted
  joined : (key : String) → Submitted
  queued : ActionRecord → Submitted

abbrev pub is_running : String → List String → Bool
is_running key keys = any (λ other. other == key) keys

abbrev pub new_record : String → ActionRequest → ActionRecord
new_record key request = record {
  request_id = request.request_id;
  actor_id = request.actor_id;
  command = request.command;
  key = key;
  phase = Phase.pending;
  outcome = none;
}

abbrev pub repeated : ActionOutcome → ActionOutcome
repeated (ActionOutcome.ok result duplicate) = ActionOutcome.ok result true
repeated (ActionOutcome.err code) = ActionOutcome.err code

-- The stored outcome of a record that is not pending.
abbrev pub settled : ActionRecord → Option ActionOutcome
settled action = if is_pending action.phase then none else action.outcome

abbrev pub drop_new : String → Bool → World → World
drop_new key existed w = if existed then w else record w {
  mirror = record w.mirror { actions = filter (λ entry. not (entry.0 == key)) w.mirror.actions };
}

module _ (can_write : Mirror → Bool) where
  -- The request is saved before anything is done for it.
  unfoldable pub admit : ActionRecord → Bool → World → Submitted × World
  admit action existed w =
      let (w', saved) = persist can_write (set_action action w) in
      if saved
      then (Submitted.queued action, record w' { running = action.key ∷ w'.running })
      else (
        Submitted.answered (ActionOutcome.err "affair_action_persist_failed"),
        drop_new action.key existed w',
      )

  unfoldable pub submit_new : String → ActionRequest → World → Submitted × World
  submit_new key request w =
      if is_running key w.running
      then (Submitted.joined key, w)
      else if is_closing request.command.affair_id w.mirror.actions
      then (Submitted.answered (ActionOutcome.err "affair_action_pending"), w)
      else admit (new_record key request) false w

  unfoldable pub submit_known : String → ActionRecord → ActionRequest → World → Submitted × World
  submit_known key existing request w =
      if not (same_fingerprint existing.command request.command)
      then (Submitted.answered (ActionOutcome.err "affair_action_id_conflict"), w)
      else elim (settled existing) [
        | some outcome ↦ (Submitted.answered (repeated outcome), w)
        | none ↦
            if is_running key w.running then (Submitted.joined key, w) else admit existing true w
      ]

  unfoldable pub submit : (String → String → String) → ActionRequest → World → Submitted × World
  submit key_of request w =
      let key = key_of request.actor_id request.request_id in
      if not (validate_affair_close_payload request.command)
      then (Submitted.answered (ActionOutcome.err "validation_failed"), w)
      else elim (lookup key w.mirror.actions) [
        | none ↦ submit_new key request w
        | some existing ↦ submit_known key existing request w
      ]

  -- `finishRejected`: a failure to save it puts the record back and throws.
  unfoldable pub finish_rejected : ActionRecord → String → World → ActionOutcome × World
  finish_rejected action code w =
      let outcome = ActionOutcome.err code in
      let rejected : ActionRecord = record action {
        phase = Phase.rejected;
        outcome = some outcome;
      } in
      let (w', saved) = persist can_write (set_action rejected w) in
      if saved
      then (outcome, w')
      else (ActionOutcome.err "affair_action_unconfirmed", set_action action w')

  abbrev pub closed_affair : Affair → AffairClose → Affair
  closed_affair previous command = record previous {
    status = wanted command.status;
    blocked_reason = none;
    resume_condition = none;
  }

  abbrev pub result_of : Affair → ActionRecord → World → ActionResult
  result_of previous action w = record {
    affair = closed_affair previous action.command;
    jobs = jobs_of previous.affair_id w.mirror.store.jobs;
  }

  abbrev pub committed_of : ActionRecord → ActionResult → ActionRecord
  committed_of action result = record action {
    phase = Phase.committed;
    outcome = some (ActionOutcome.ok result false);
  }

  -- `commit`, and the message to the phone when it succeeded.
  unfoldable pub commit : ActionRecord → World → ActionOutcome × World
  commit action w = elim (lookup action.command.affair_id w.mirror.store.affairs) [
    | none ↦ (ActionOutcome.err "affair_action_unconfirmed", w)
    | some previous ↦
        let result = result_of previous action w in
        let (w', saved) =
          persist can_write
            (set_action (committed_of action result) (set_affair result.affair w)) in
        if saved
        then (ActionOutcome.ok result false, record w' { sent = w'.sent ++ result ∷ [] })
        else (
          ActionOutcome.err "affair_action_unconfirmed",
          set_action action (set_affair previous w'),
        )
  ]

  module _ (cancel_job : Option (Job → World → Option World)) where
    abbrev pub prepare : ActionRecord → World → World × Bool
    prepare action w = elim action.command.status [
      | CloseStatus.closed ↦ (w, true)
      | CloseStatus.canceled ↦ cancel_children can_write cancel_job action w
    ]

    abbrev pub checked_commit : ActionRecord → World → ActionOutcome × World
    checked_commit action w = elim (precheck_affair_close w.mirror.store action.command) [
      | some code ↦ finish_rejected action code w
      | none ↦ commit action w
    ]

    unfoldable pub run : ActionRecord → World → ActionOutcome × World
    run action w = elim (precheck_affair_close w.mirror.store action.command) [
      | some code ↦ finish_rejected action code w
      | none ↦
          let (w', stopped) = prepare action w in
          if stopped
          then checked_commit action w'
          else (ActionOutcome.err "affair_action_unconfirmed", w')
    ]

    abbrev pub leave : String → World → World
    leave key w = record w { running = filter (λ other. not (other == key)) w.running }

    abbrev pub complete : Submitted × World → Option ActionOutcome × World
    complete (Submitted.answered outcome, w) = (some outcome, w)
    complete (Submitted.joined key, w) = (none, w)
    complete (Submitted.queued action, w) =
        let (outcome, w') = run action w in (some outcome, leave action.key w')

    -- A request whose operation comes to its turn at once. A joined request has no answer of its
    -- own: it waits for that of the operation it joins.
    unfoldable pub execute :
        (String → String → String) → ActionRequest → World → Option ActionOutcome × World
    execute key_of request w = complete (submit key_of request w)

    -- `recoverPending`, in the order of the map: the pending requests are executed again.
    unfoldable pub recover_loop :
        (String → String → String)
        → List (String × ActionRecord)
        → World
        → List (Option ActionOutcome) × World
    recover_loop key_of [] w = ([], w)
    recover_loop key_of ((key, action) ∷ rest) w =
        let request : ActionRequest = record {
          request_id = action.request_id;
          actor_id = action.actor_id;
          command = action.command;
        } in
        let (outcome, w') = execute key_of request w in
        let (outcomes, w'') = recover_loop key_of rest w' in (outcome ∷ outcomes, w'')

    unfoldable pub recover_pending :
        (String → String → String) → World → List (Option ActionOutcome) × World
    recover_pending key_of w =
        recover_loop key_of (filter (λ entry. is_pending (entry.1).phase) w.mirror.actions) w
