-- ===== src/Closing/Precheck.antt =====
-- apps/companion/src/affairs/actions/guards/precheck.ts: the checks of a close command against the
-- stored state. A refusal is kept by its code.
use lanxin_claw.Shared.{
  String, Bool, true, false, not, ◌&&◌, ◌||◌, Option, none, some, if◌then◌else◌, ◌==◌, lookup, any,
  truthy, same, same_text, is_missing,
}
use lanxin_claw.States.Affair.{AffairStatus, affair_status_enum, can_transition_affair_status}
use lanxin_claw.States.Job.{JobStatus, job_status_enum}
use lanxin_claw.Store.Types.{Affair, Job, Purpose, EvidenceQuality, State}

-- The statuses that a command may ask for.
pub data CloseStatus : Type 0 where
  closed canceled : CloseStatus

-- `AffairClosePayload`.
pub record AffairClose : Type 0 where
  pub affair_id : String
  pub status : CloseStatus
  pub expected_current_job_id : Option String
  pub acceptance_summary : Option String
  pub close_reason : Option String

abbrev pub wanted : CloseStatus → AffairStatus
wanted CloseStatus.closed = AffairStatus.closed
wanted CloseStatus.canceled = AffairStatus.canceled

abbrev pub is_terminal_job : JobStatus → Bool
is_terminal_job JobStatus.completed = true
is_terminal_job JobStatus.failed = true
is_terminal_job JobStatus.canceled = true
is_terminal_job _ = false

abbrev is_exploration : Option Purpose → Bool
is_exploration (Option.some Purpose.exploration) = true
is_exploration _ = false

abbrev is_present : Option EvidenceQuality → Bool
is_present (Option.some EvidenceQuality.present) = true
is_present _ = false

unfoldable pub has_acceptance_evidence : Option Job → String → Bool
has_acceptance_evidence none affair_id = false
has_acceptance_evidence (some job) affair_id =
    if not (job.affair_id == affair_id)
    then false
    else same job.status JobStatus.completed
      && not (is_exploration job.purpose)
      && is_present job.evidence_quality
      && not (is_missing job.result_digest)

-- `affair.currentJobId ? state.jobs.get(affair.currentJobId) : null`.
abbrev pub job_of : Affair → State → Option Job
job_of affair state = elim affair.current_job_id [
  | none ↦ none
  | some id ↦ if truthy (some id) then lookup id state.jobs else none
]

abbrev pub is_active_job_of : String → String × Job → Bool
is_active_job_of affair_id (id, job) =
    job.affair_id == affair_id && not (is_terminal_job job.status)

unfoldable pub precheck_acceptance : State → Affair → AffairClose → Option String
precheck_acceptance state affair command =
    if not (same affair.status AffairStatus.waiting_acceptance)
      || is_missing command.acceptance_summary
      || not (has_acceptance_evidence (job_of affair state) affair.affair_id)
    then some "affair_acceptance_evidence_missing"
    else if any (is_active_job_of affair.affair_id) state.jobs
    then some "affair_jobs_still_active"
    else none

abbrev pub precheck_found : State → Affair → AffairClose → Option String
precheck_found state affair command =
    if not (same_text affair.current_job_id command.expected_current_job_id)
    then some "affair_current_job_changed"
    else if same affair.status AffairStatus.closed
        || same affair.status AffairStatus.canceled
        || not (can_transition_affair_status affair.status (wanted command.status))
    then some "affair_close_rejected"
    else elim command.status [
      | CloseStatus.canceled ↦ none
      | CloseStatus.closed ↦ precheck_acceptance state affair command
    ]

unfoldable pub precheck_affair_close : State → AffairClose → Option String
precheck_affair_close state command = elim (lookup command.affair_id state.affairs) [
  | none ↦ some "affair_not_found"
  | some affair ↦ precheck_found state affair command
]
