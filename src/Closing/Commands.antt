-- ===== src/Closing/Commands.antt =====
-- Requests to close and to cancel that are executed, and the theorems at them.
use mathlib.Core.Path.{subst}
use lanxin_claw.Shared.{
  ap, String, ◌≡◌, refl, Bool, true, false, [], ◌∷◌, Option, none, some, lookup, insert, append,
  arith, eq_iff,
}
use lanxin_claw.States.Affair.{AffairStatus, can_transition_affair_status, affair_transitions}
use lanxin_claw.States.Job.{JobStatus}
use lanxin_claw.Store.Types.{Affair, Job, State}
use lanxin_claw.Store.Legal.{IsKeyed}
use lanxin_claw.Permissions.Gate.{new_gate, revoke_for_job}
use lanxin_claw.Closing.Precheck.{
  CloseStatus, has_acceptance_evidence, precheck_acceptance, precheck_affair_close,
}
use lanxin_claw.Closing.Accepted.{IsAcceptable}
use lanxin_claw.Closing.Coordinator.{
  jobs_of, set_job, ActionResult, ActionOutcome, ActionRequest, ActionRecord, Mirror, World,
  validate_affair_close_payload, is_closing, can_close_ended_blocked_job, canceled_by_close,
  cancel_current, cancel_child, cancel_loop, cancel_children,
}
use lanxin_claw.Closing.Execute.{
  new_record, admit, submit_new, submit, result_of, commit, run, execute,
}
use lanxin_claw.Closing.Committed.{IsActionKeyed, run_closed-IsAcceptable, run_closed_answers}
use lanxin_claw.Closing.Answers.{execute-again}
use lanxin_claw.Closing.Stopped.{IsJobKeyed, set_job-IsJobKeyed}
use lanxin_claw.Closing.Children.{KeysJobs, IsConfirmed, run_canceled-IsConfirmed}
use lanxin_claw.Closing.Fixtures.{affair, job, state, command}

abbrev writes : Mirror → Bool
writes mirror = true

abbrev key_of : String → String → String
key_of actor request = append actor (append "/" request)

-- A second job of the affair that ended without a result.
abbrev hollow : Job
hollow = record job {
  job_id = "j2";
  status = JobStatus.blocked;
  status_reason_code = some "openclaw.terminal_without_result";
}

abbrev world : State → World
world store = record {
  mirror = record { store = store; actions = [] };
  disk = record { store = store; actions = [] };
  gate = new_gate;
  running = [];
  sent = [];
}

abbrev start : World
start = world state

abbrev request : CloseStatus → ActionRequest
request status = record { request_id = "r1"; actor_id = "p1"; command = command status }

abbrev action : CloseStatus → ActionRecord
action status = new_record "p1/r1" (request status)

abbrev closing : ActionOutcome × World
closing = run writes none (action CloseStatus.closed) start

abbrev closed_result : ActionResult
closed_result = result_of writes affair (action CloseStatus.closed) start

closed_answer : closing ≡ (ActionOutcome.ok closed_result false, closing.1)
unfolding run commit precheck_affair_close precheck_acceptance has_acceptance_evidence
    can_transition_affair_status affair_transitions lookup insert
closed_answer = refl

state-IsKeyed : IsKeyed state.affairs
unfolding lookup
state-IsKeyed id a e = ground (arith, eq_iff "a1" id)

run_closed-IsAcceptable_example :
    IsAcceptable state (command CloseStatus.closed)
    × (lookup "a1" (closing.1).mirror.store.affairs ≡ some closed_result.affair)
    × (closed_result.affair.status ≡ AffairStatus.closed)
    × ((closing.1).mirror.store.jobs ≡ state.jobs)
    × ((closing.1).disk ≡ (closing.1).mirror)
run_closed-IsAcceptable_example =
    run_closed-IsAcceptable writes none (action CloseStatus.closed) start closed_result false
      closing.1 refl state-IsKeyed closed_answer

checks_pass : precheck_affair_close state (command CloseStatus.closed) ≡ none
unfolding precheck_affair_close precheck_acceptance has_acceptance_evidence
    can_transition_affair_status lookup
checks_pass = refl

run_closed_answers_example :
    (previous : Affair) × (lookup "a1" state.affairs ≡ some previous)
    × (closing.0
        ≡ ActionOutcome.ok
            (record {
              affair = record previous {
                status = AffairStatus.closed;
                blocked_reason = none;
                resume_condition = none;
              };
              jobs = jobs_of previous.affair_id state.jobs;
            })
            false)
run_closed_answers_example =
    run_closed_answers writes none (action CloseStatus.closed) start (λ mirror. refl) refl
      checks_pass

abbrev executed : Option ActionOutcome × World
executed = execute writes none key_of (request CloseStatus.closed) start

executed_answer : executed ≡ (some (ActionOutcome.ok closed_result false), executed.1)
unfolding execute submit submit_new admit validate_affair_close_payload is_closing run commit
    precheck_affair_close precheck_acceptance has_acceptance_evidence can_transition_affair_status
    affair_transitions lookup insert
executed_answer = refl

start-IsActionKeyed : IsActionKeyed writes []
unfolding lookup
start-IsActionKeyed key a e = ground arith

execute-again_example :
    execute writes none key_of (request CloseStatus.closed) executed.1
    ≡ (some (ActionOutcome.ok closed_result true), executed.1)
execute-again_example =
    execute-again writes none key_of (request CloseStatus.closed) start closed_result false
      executed.1 start-IsActionKeyed executed_answer

-- A third job is at work, and the executor stops what it is asked to.
abbrev at_work : Job
at_work = record job { job_id = "j3"; status = JobStatus.running }

abbrev with_work : World
with_work = world (record state { jobs = ("j1", job) ∷ ("j2", hollow) ∷ ("j3", at_work) ∷ [] })

abbrev stop : Job → World → Option World
stop own w = some (set_job (record own { status = JobStatus.canceled }) w)

stop-KeysJobs : KeysJobs writes (some stop) (some stop)
stop-KeysJobs own w w' e keyed =
    let stopped : Job = record own { status = JobStatus.canceled } in
    subst IsJobKeyed (ap (λ o. elim o [ none ↦ w | some x ↦ x ]) e)
      (set_job-IsJobKeyed stopped w keyed)

abbrev canceling : ActionOutcome × World
canceling = run writes (some stop) (action CloseStatus.canceled) with_work

abbrev canceled_result : ActionResult
canceled_result = record {
  affair = record affair { status = AffairStatus.canceled };
  jobs = job ∷ canceled_by_close hollow ∷ record at_work { status = JobStatus.canceled } ∷ [];
}

-- The job that ended without a result is canceled with its affair, and the one at work is stopped.
canceled_answer : canceling ≡ (ActionOutcome.ok canceled_result false, canceling.1)
unfolding run commit cancel_children cancel_loop cancel_child cancel_current
    can_close_ended_blocked_job canceled_by_close revoke_for_job precheck_affair_close
    can_transition_affair_status affair_transitions lookup insert
canceled_answer = refl

work-IsJobKeyed : IsJobKeyed with_work
unfolding lookup
work-IsJobKeyed id j e = ground (arith, eq_iff "j1" id, eq_iff "j2" id, eq_iff "j3" id)

run_canceled-IsConfirmed_example :
    (canceled_result.affair.status ≡ AffairStatus.canceled)
    × ((canceling.1).disk ≡ (canceling.1).mirror)
    × (lookup "a1" (canceling.1).mirror.store.affairs ≡ some canceled_result.affair)
    × ((first : World) × (last : World) × (first.mirror.store.jobs ≡ with_work.mirror.store.jobs)
        × IsConfirmed writes (some stop) last (jobs_of "a1" with_work.mirror.store.jobs) first
        × ((canceling.1).mirror.store.jobs ≡ last.mirror.store.jobs))
run_canceled-IsConfirmed_example =
    run_canceled-IsConfirmed writes (some stop) (action CloseStatus.canceled) with_work
      canceled_result false canceling.1 stop-KeysJobs work-IsJobKeyed refl canceled_answer
