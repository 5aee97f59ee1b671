-- ===== src/Supervision/Apply.antt =====
-- apps/companion/src/supervision/apply-actions.ts and apps/companion/src/backend/supervision/
-- observe.ts with runSupervisionPass of backend/runtime.ts: what is proposed is written to the store.
-- `on_protocol_broadcast` is the callback that the shell may give; the notices on the desktop are
-- left out. The pass takes the affairs in the order of the map, by their ids.
use lanxin_claw.Shared.{
  String, Bool, not, ◌&&◌, ◌||◌, List, [], ◌∷◌, Option, none, some, if◌then◌else◌, lookup, or_else,
  truthy, same, same_text,
}
use lanxin_claw.States.Affair.{AffairStatus, affair_status_enum, can_transition_affair_status}
use lanxin_claw.Store.Types.{Affair, Job, Purpose, AffairMessage, Body, Envelope, State}
use lanxin_claw.Store.Apply.{apply_protocol_envelope_to_state}
use lanxin_claw.Closing.Precheck.{job_of}
use lanxin_claw.Supervision.Types.{Snapshot, Action, Memory}
use lanxin_claw.Supervision.Tick.{text_or, run_supervision_tick, remember_all}

unfoldable pub build_snapshot : Affair → Option Job → Snapshot
build_snapshot affair job = record {
  affair_id = affair.affair_id;
  affair_title = affair.title;
  affair_status = affair.status;
  job_id = elim job [ none ↦ affair.current_job_id | some j ↦ some j.job_id ];
  job_status = elim job [ none ↦ none | some j ↦ some j.status ];
  job_purpose = elim job [
    | none ↦ some Purpose.execution
    | some j ↦ or_else j.purpose (some Purpose.execution)
  ];
  progress_summary = elim job [ none ↦ "" | some j ↦ text_or j.progress_summary "" ];
  attempted_steps = [];
  blocked_reason =
      or_else affair.blocked_reason (elim job [ none ↦ none | some j ↦ j.blocked_reason ]);
  resume_condition =
      or_else affair.resume_condition (elim job [ none ↦ none | some j ↦ j.resume_condition ]);
}

-- The two changes of `applySupervisionActions`.
unfoldable pub mark_accepting : String → Affair → Affair
mark_accepting job_id affair =
    if not (can_transition_affair_status affair.status AffairStatus.waiting_acceptance)
    then affair
    else record affair { status = AffairStatus.waiting_acceptance; current_job_id = some job_id }

unfoldable pub mark_stuck : String → String → String → Affair → Affair
mark_stuck job_id blocked_reason resume_condition affair =
    if not (can_transition_affair_status affair.status AffairStatus.blocked)
    then affair
    else record affair {
      status = AffairStatus.blocked;
      current_job_id = some job_id;
      blocked_reason = some blocked_reason;
      resume_condition = some resume_condition;
    }

-- The patch is not worth a message.
abbrev pub is_unchanged : Affair → Affair → Bool
is_unchanged affair next =
    same next.status AffairStatus.closed
    || (same next.status affair.status
        && same_text next.blocked_reason affair.blocked_reason
        && same_text next.resume_condition affair.resume_condition
        && same_text next.current_job_id affair.current_job_id)

module _ (validate_message : Envelope → Bool) (new_id : State → String) (now : String)
    (on_protocol_broadcast : Option (Envelope → State → State)) where
  abbrev pub apply_only : Envelope → State → State
  apply_only envelope state =
      (apply_protocol_envelope_to_state validate_message now envelope state).0

  abbrev pub broadcast : Envelope → State → State
  broadcast envelope state = elim on_protocol_broadcast [
    | none ↦ apply_only envelope state
    | some send ↦ send envelope state
  ]

  abbrev pub update_envelope : Affair → State → Envelope
  update_envelope next state = record {
    message_id = new_id state;
    body = Body.affair AffairMessage.update next;
  }

  abbrev pub emit : Affair → State → State
  emit next state =
      if truthy state.connection.phone_device_id
      then broadcast (update_envelope next state) state
      else apply_only (update_envelope next state) state

  unfoldable pub patch_affair : String → (Affair → Affair) → State → State
  patch_affair affair_id mutate state = elim (lookup affair_id state.affairs) [
    | none ↦ state
    | some affair ↦
        if is_unchanged affair (mutate affair) then state else emit (mutate affair) state
  ]

  unfoldable pub apply_action : Action → State → State
  apply_action (Action.mark_waiting_acceptance affair_id job_id) state =
      patch_affair affair_id (mark_accepting job_id) state
  apply_action (Action.mark_blocked affair_id job_id blocked_reason resume_condition) state =
      patch_affair affair_id (mark_stuck job_id blocked_reason resume_condition) state
  apply_action (Action.notify_blocked _ _ _ _) state = state
  apply_action (Action.continue_watch _) state = state
  apply_action (Action.stop_watch _) state = state

  unfoldable pub apply_supervision_actions : List Action → State → State
  apply_supervision_actions [] state = state
  apply_supervision_actions (action ∷ rest) state =
      apply_supervision_actions rest (apply_action action state)

  unfoldable pub supervise_backend_affair : Affair → State × Memory → State × Memory
  supervise_backend_affair affair (state, memory) =
      let actions = run_supervision_tick (build_snapshot affair (job_of affair state)) memory in
      (apply_supervision_actions actions state, remember_all actions memory)

  abbrev pub supervise_id : String → State × Memory → State × Memory
  supervise_id id (state, memory) = elim (lookup id state.affairs) [
    | none ↦ (state, memory)
    | some affair ↦ supervise_backend_affair affair (state, memory)
  ]

  unfoldable pub run_supervision_pass : List String → State × Memory → State × Memory
  run_supervision_pass [] world = world
  run_supervision_pass (id ∷ rest) world = run_supervision_pass rest (supervise_id id world)
