-- ===== src/Supervision/Tests.antt =====
-- Snapshots and a store under supervision, and the theorems at them.
use mathlib.Core.Option.{map as map_option}
use lanxin_claw.Shared.{
  String, ◌≢◌, arith, eq_iff, Bool, ◌≤◌, ◌≡◌, refl, inl, true, [], ◌∷◌, none, some, lookup, insert,
  trim,
}
use lanxin_claw.States.Affair.{AffairStatus, can_transition_affair_status, affair_transitions}
use lanxin_claw.States.Job.{JobStatus}
use lanxin_claw.Store.Types.{Affair, Purpose, Envelope, State, create_companion_backend_state}
use lanxin_claw.Store.Apply.{
  apply_affair, apply_validated_envelope, apply_protocol_envelope_to_state,
}
use lanxin_claw.Supervision.Types.{Snapshot}
use lanxin_claw.Supervision.Tick.{
  idle_actions, waiting_acceptance_actions, is_blocked, blocked_actions, should_notify_blocked,
  blocked_notify_fingerprint, build_blocked_notify_copy, run_supervision_tick, fingerprint_of,
  remember_blocked_notify, remember_all,
}
use lanxin_claw.Supervision.Apply.{
  build_snapshot, mark_stuck, patch_affair, apply_action, apply_supervision_actions,
  supervise_backend_affair, run_supervision_pass,
}
use lanxin_claw.Supervision.Quiet.{loop_notices, loop_notices-le_one}
use lanxin_claw.Supervision.Safety.{supervision_pass-final}

abbrev stuck : Snapshot
stuck = record {
  affair_id = "a1";
  affair_title = "build";
  affair_status = AffairStatus.running;
  job_id = some "j1";
  job_status = some JobStatus.blocked;
  job_purpose = some Purpose.execution;
  progress_summary = "";
  attempted_steps = [];
  blocked_reason = some " no disk ";
  resume_condition = some "free space";
}

abbrev still_stuck : Snapshot
still_stuck = record stuck { affair_status = AffairStatus.blocked; progress_summary = "waiting" }

fingerprint_trimmed : fingerprint_of stuck ≡ "a1|free space|no disk"
unfolding blocked_notify_fingerprint trim
fingerprint_trimmed = refl

-- Another affair is stuck too.
abbrev other_stuck : Snapshot
other_stuck = record stuck { affair_id = "a2"; blocked_reason = some "no key" }

other_id : ◌≢◌ {A = String} "a2" "a1"
other_id e = ground (arith, eq_iff "a2" "a1")

told_once : loop_notices "a1" (stuck ∷ other_stuck ∷ still_stuck ∷ []) [] ≡ 1
unfolding loop_notices run_supervision_tick idle_actions waiting_acceptance_actions is_blocked
    blocked_actions should_notify_blocked blocked_notify_fingerprint build_blocked_notify_copy
    remember_blocked_notify remember_all lookup insert trim
told_once = refl

loop_notices-le_one_example : loop_notices "a1" (stuck ∷ other_stuck ∷ still_stuck ∷ []) [] ≤ 1
loop_notices-le_one_example =
    loop_notices-le_one "a1" (fingerprint_of stuck) (stuck ∷ other_stuck ∷ still_stuck ∷ []) []
      ((λ e. refl), ((λ e. absurd (other_id e)), ((λ e. refl), tt)))

abbrev finished : Affair
finished = record {
  affair_id = "a0";
  title = "plan";
  status = AffairStatus.closed;
  context = [];
  acceptance_criteria = [];
  blocked_reason = none;
  resume_condition = none;
  current_job_id = none;
}

abbrev working : Affair
working = record finished {
  affair_id = "a1";
  status = AffairStatus.running;
  blocked_reason = some "no disk";
  current_job_id = some "j1";
}

abbrev store : State
store = record (create_companion_backend_state 0 "t0") {
  affairs = ("a0", finished) ∷ ("a1", working) ∷ [];
}

abbrev accepts : Envelope → Bool
accepts envelope = true

abbrev watched : State
watched = (run_supervision_pass accepts (λ s. "m1") "t1" none ("a0" ∷ "a1" ∷ []) (store, [])).0

-- The pass marks the affair at work as blocked, by a message to the store.
marked_blocked :
    map_option (λ (a : Affair). a.status) (lookup "a1" watched.affairs) ≡ some AffairStatus.blocked
unfolding run_supervision_pass supervise_backend_affair apply_supervision_actions apply_action
    patch_affair mark_stuck build_snapshot run_supervision_tick idle_actions
    waiting_acceptance_actions is_blocked blocked_actions should_notify_blocked
    blocked_notify_fingerprint build_blocked_notify_copy remember_all remember_blocked_notify
    apply_protocol_envelope_to_state apply_validated_envelope apply_affair
    can_transition_affair_status affair_transitions lookup insert trim
marked_blocked = refl

still_closed : lookup "a0" watched.affairs ≡ some finished
unfolding run_supervision_pass supervise_backend_affair apply_supervision_actions apply_action
    patch_affair mark_stuck build_snapshot run_supervision_tick idle_actions
    waiting_acceptance_actions is_blocked blocked_actions should_notify_blocked
    blocked_notify_fingerprint build_blocked_notify_copy remember_all remember_blocked_notify
    apply_protocol_envelope_to_state apply_validated_envelope apply_affair
    can_transition_affair_status affair_transitions lookup insert trim
still_closed = refl

supervision_pass-final_example : lookup "a0" store.affairs ≡ some finished
supervision_pass-final_example =
    supervision_pass-final accepts (λ s. "m1") "t1" none tt ("a0" ∷ "a1" ∷ []) store [] "a0"
      finished still_closed (inl refl)
