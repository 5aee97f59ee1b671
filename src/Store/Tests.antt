-- ===== src/Store/Tests.antt =====
-- An affair with a running job, and the theorems at messages about them.
use lanxin_claw.Shared.{
  String, ◌≡◌, refl, ◌⊎◌, inl, ◌↔◌, Bool, true, false, List, [], ◌∷◌, none, some, lookup, insert,
  eq_iff, arith, Reach,
}
use lanxin_claw.States.Affair.{AffairStatus, can_transition_affair_status}
use lanxin_claw.States.Job.{JobStatus, can_transition_job_status}
use lanxin_claw.Store.Types.{
  Affair, Job, Purpose, JobMessage, Body, Envelope, State, ApplyResult,
  create_companion_backend_state,
}
use lanxin_claw.Store.Projection.{can_reach_affair_status, reconcile_affairs_from_jobs}
use lanxin_claw.Store.Apply.{
  apply_job, apply_job_event, apply_protocol_envelope_to_state, decide_terminal_affair_job_event,
  merge_job, update_affair_from_job, apply_validated_envelope, fail_with_ids,
}
use lanxin_claw.Store.Legal.{IsKeyed}
use lanxin_claw.Store.Affairs.{apply_all, apply_all-Reach, apply_all-final, apply_job-final}
use lanxin_claw.Store.Jobs.{apply_job-moves, apply_job-terminal}
use lanxin_claw.Store.Replay.{apply_protocol-replay, apply_protocol-failed}
use lanxin_claw.Store.Reconcile.{affair_search-Reach}
use lanxin_claw.Store.Repair.{IsRepair, IsTable, reconcile-IsRepaired}

abbrev affair : AffairStatus → Affair
affair status = record {
  affair_id = "a1";
  title = "build";
  status = status;
  context = [];
  acceptance_criteria = [];
  blocked_reason = none;
  resume_condition = none;
  current_job_id = some "j1";
}

abbrev job : JobStatus → Job
job status = record {
  job_id = "j1";
  affair_id = "a1";
  status = status;
  purpose = some Purpose.execution;
  goal = "build";
  workspace_hint = none;
  allowed_permissions = [];
  progress_summary = none;
  recent_steps = none;
  result_digest = none;
  evidence_quality = none;
  blocked_reason = none;
  resume_condition = none;
  permission_request_id = some "p1";
  task_intent_id = none;
  status_reason_code = none;
  status_observed_at = none;
}

abbrev state : AffairStatus → JobStatus → State
state a j = record (create_companion_backend_state 0 "t0") {
  affairs = ("a1", affair a) ∷ [];
  jobs = ("j1", job j) ∷ [];
}

abbrev done_message : Envelope
done_message = record {
  message_id = "m1";
  body = Body.job JobMessage.completed (job JobStatus.completed);
}

abbrev cancel_message : Envelope
cancel_message = record {
  message_id = "m2";
  body = Body.job JobMessage.cancel (job JobStatus.running);
}

abbrev messages : List (String × Envelope)
messages = ("t1", done_message) ∷ ("t2", cancel_message) ∷ []

abbrev valid : Envelope → Bool
valid envelope = true

keyed : (a : AffairStatus) → IsKeyed (("a1", affair a) ∷ [])
unfolding lookup
keyed a id found e = ground (arith, eq_iff "a1" id)

there : (a : AffairStatus) → lookup "a1" (("a1", affair a) ∷ []) ≡ some (affair a)
unfolding lookup
there a = refl

job_there : (j : JobStatus) → lookup "j1" (("j1", job j) ∷ []) ≡ some (job j)
unfolding lookup
job_there j = refl

apply_all-Reach_example :
    (later : Affair) × (lookup "a1"
        (apply_all valid messages (state AffairStatus.running JobStatus.running)).affairs
      ≡ some later)
    × (later.affair_id ≡ "a1")
    × Reach can_transition_affair_status AffairStatus.running later.status
apply_all-Reach_example =
    apply_all-Reach valid messages (state AffairStatus.running JobStatus.running)
      (keyed AffairStatus.running) "a1" (affair AffairStatus.running) (there AffairStatus.running)

apply_all-final_example :
    (later : Affair) × (lookup "a1"
        (apply_all valid messages (state AffairStatus.closed JobStatus.running)).affairs
      ≡ some later)
    × (later.status ≡ AffairStatus.closed)
apply_all-final_example =
    apply_all-final valid messages (state AffairStatus.closed JobStatus.running)
      (keyed AffairStatus.closed) "a1" (affair AffairStatus.closed) (there AffairStatus.closed)
      (inl refl)

kept_closed :
    lookup "a1"
      (apply_job "t1" JobMessage.completed
        (job JobStatus.completed)
        (state AffairStatus.closed JobStatus.running)).0.affairs
    ≡ some (affair AffairStatus.closed)
unfolding apply_job apply_job_event decide_terminal_affair_job_event merge_job fail_with_ids lookup
    insert
kept_closed = refl

apply_job-final_example :
    lookup "a1" (state AffairStatus.closed JobStatus.running).affairs
    ≡ some (affair AffairStatus.closed)
apply_job-final_example =
    apply_job-final "t1" JobMessage.completed (job JobStatus.completed)
      (state AffairStatus.closed JobStatus.running) (keyed AffairStatus.closed) "a1"
      (affair AffairStatus.closed) kept_closed (inl refl)

apply_job-moves_example :
    (later : Job) × (lookup "j1"
        (apply_job "t1" JobMessage.completed
          (job JobStatus.completed)
          (state AffairStatus.running JobStatus.running)).0.jobs
      ≡ some later)
    × ((later ≡ job JobStatus.running)
        ⊎ (((job JobStatus.completed).job_id ≡ "j1")
            × (later.status ≡ JobStatus.completed)
            × (can_transition_job_status JobStatus.running later.status ≡ true)
            × (later.permission_request_id ≡ some "p1")
            × (later.task_intent_id ≡ none)))
apply_job-moves_example =
    apply_job-moves "t1" JobMessage.completed (job JobStatus.completed)
      (state AffairStatus.running JobStatus.running) "j1" (job JobStatus.running)
      (job_there JobStatus.running)

apply_job-terminal_example :
    ((apply_job "t1" JobMessage.completed
        (job JobStatus.completed)
        (state AffairStatus.closed JobStatus.running)).0.jobs
      ≡ (state AffairStatus.closed JobStatus.running).jobs)
    ⊎ (JobStatus.completed ≡ JobStatus.canceled)
    ⊎ (JobMessage.completed ≡ JobMessage.canceled)
apply_job-terminal_example =
    apply_job-terminal "t1" JobMessage.completed (job JobStatus.completed)
      (state AffairStatus.closed JobStatus.running) (affair AffairStatus.closed)
      (there AffairStatus.closed) (inl refl)

applied :
    (apply_protocol_envelope_to_state valid "t1" done_message
      (state AffairStatus.running JobStatus.running)).1
    ≡ ApplyResult.done false
unfolding apply_protocol_envelope_to_state apply_validated_envelope apply_job apply_job_event
    decide_terminal_affair_job_event merge_job fail_with_ids lookup insert can_transition_job_status
    update_affair_from_job
applied = refl

abbrev after_done : State
after_done =
    (apply_protocol_envelope_to_state valid "t1" done_message
      (state AffairStatus.running JobStatus.running)).0

apply_protocol-replay_example :
    apply_protocol_envelope_to_state valid "t3" done_message (apply_all valid messages after_done)
    ≡ (apply_all valid messages after_done, ApplyResult.done true)
apply_protocol-replay_example =
    apply_protocol-replay valid "t1" "t3" done_message
      (state AffairStatus.running JobStatus.running) false messages applied

refused :
    (apply_protocol_envelope_to_state valid "t1" cancel_message
      (state AffairStatus.running JobStatus.running)).1
    ≡ ApplyResult.failed "job_cancel_executor_required"
unfolding apply_protocol_envelope_to_state apply_validated_envelope apply_job fail_with_ids lookup
refused = refl

abbrev after_refusal : State
after_refusal =
    (apply_protocol_envelope_to_state valid "t1" cancel_message
      (state AffairStatus.running JobStatus.running)).0

apply_protocol-failed_example :
    after_refusal ≡ record (state AffairStatus.running JobStatus.running) {
      last_error = after_refusal.last_error;
    }
apply_protocol-failed_example =
    apply_protocol-failed valid "t1" cancel_message (state AffairStatus.running JobStatus.running)
      "job_cancel_executor_required" refused

affair_search-Reach_example :
    ((b : Bool) × (can_reach_affair_status AffairStatus.ready AffairStatus.waiting_acceptance
        ≡ some b))
    × ((can_reach_affair_status AffairStatus.ready AffairStatus.waiting_acceptance ≡ some true)
        ↔ Reach can_transition_affair_status AffairStatus.ready AffairStatus.waiting_acceptance)
affair_search-Reach_example = affair_search-Reach AffairStatus.ready AffairStatus.waiting_acceptance

table : IsTable (("a1", affair AffairStatus.delegated) ∷ [])
unfolding lookup
table = (refl, refl, tt)

reconcile-IsRepaired_example :
    (later : Affair) × (lookup "a1"
        (reconcile_affairs_from_jobs "t9"
          (state AffairStatus.delegated JobStatus.completed)).0.affairs
      ≡ some later)
    × ((later ≡ affair AffairStatus.delegated) ⊎ IsRepair (affair AffairStatus.delegated) later)
reconcile-IsRepaired_example =
    reconcile-IsRepaired "t9" (state AffairStatus.delegated JobStatus.completed) table "a1"
      (affair AffairStatus.delegated) (there AffairStatus.delegated)
