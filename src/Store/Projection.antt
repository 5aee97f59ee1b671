-- ===== src/Store/Projection.antt =====
-- apps/companion/src/state/affair-job-projection.ts: what a job's status says of its affair.
use lanxin_claw.Shared.{
  ℕ, zero, suc, ◌+◌, String, Bool, true, false, not, ◌&&◌, ◌||◌, List, [], ◌∷◌, Option, none, some,
  if◌then◌else◌, ◌==◌, lookup, insert, or_else, truthy, same_text, same, includes, search_from,
}
use lanxin_claw.States.Affair.{
  AffairStatus, affair_statuses, can_transition_affair_status, affair_status_enum,
}
use lanxin_claw.States.Job.{JobStatus, job_status_enum}
use lanxin_claw.Store.Types.{Affair, Job, Purpose, State}

-- `JOB_TO_AFFAIR_STATUS` and `affairStatusForJob`: every status has an entry.
abbrev pub affair_status_for_job : Job → Option AffairStatus
affair_status_for_job job = elim job.status [
  | JobStatus.needs_permission ↦ some AffairStatus.delegated
  | JobStatus.queued ↦ some AffairStatus.delegated
  | JobStatus.running ↦ some AffairStatus.running
  | JobStatus.blocked ↦ some AffairStatus.blocked
  | JobStatus.failed ↦ some AffairStatus.blocked
  | JobStatus.completed ↦ some AffairStatus.waiting_acceptance
  | JobStatus.canceled ↦ some AffairStatus.blocked
]

abbrev blocked_reason_of : Job → Option String
blocked_reason_of job = or_else job.blocked_reason (
    if same job.status JobStatus.canceled
    then some "last_execution_canceled"
    else some "OpenClaw job failed")

abbrev resume_condition_of : Job → Option String
resume_condition_of job = or_else job.resume_condition (
    if same job.status JobStatus.canceled
    then some "需要用户或张老板决定是否重新委派或取消事务"
    else if same job.status JobStatus.failed
    then some "需要用户或张老板决定是否重试"
    else none)

unfoldable pub project_affair_with_job : Affair → Job → AffairStatus → Affair
project_affair_with_job affair job status =
    let is_blocked = same status AffairStatus.blocked in
    record affair {
      status = status;
      current_job_id = some job.job_id;
      blocked_reason = if is_blocked then blocked_reason_of job else none;
      resume_condition = if is_blocked then resume_condition_of job else none;
    }

abbrev pub is_seen : AffairStatus → AffairStatus → List AffairStatus → Bool
is_seen cur next seen = includes next seen

-- The search puts every status into the queue at most once: as much fuel as there are statuses.
unfoldable pub can_reach_affair_status : AffairStatus → AffairStatus → Option Bool
can_reach_affair_status from to =
    if same from to || can_transition_affair_status from to
    then some true
    else search_from is_seen can_transition_affair_status to affair_statuses 9 (from ∷ [])
        (from ∷ [])

abbrev pub affair_needs_repair : Affair → Affair → Bool
affair_needs_repair left right =
    not (same left.status right.status)
    || not (same_text left.current_job_id right.current_job_id)
    || not (same_text left.blocked_reason right.blocked_reason)
    || not (same_text left.resume_condition right.resume_condition)

-- `(job.purpose ?? "execution") !== "exploration"`.
abbrev pub is_execution : Job → Bool
is_execution job = elim job.purpose [ some Purpose.exploration ↦ false | _ ↦ true ]

-- The last job of the affair that is not an exploration.
abbrev pub last_job_of : String → List (String × Job) → Option Job → Option Job
last_job_of affair_id [] fallback = fallback
last_job_of affair_id ((id, job) ∷ rest) fallback =
    last_job_of affair_id rest
      (if job.affair_id == affair_id && is_execution job then some job else fallback)

abbrev pub current_job : List (String × Job) → Option String → Option Job
current_job jobs none = none
current_job jobs (some id) = if truthy (some id) then lookup id jobs else none

unfoldable pub select_reconciliation_job : List (String × Job) → Affair → Option Job
select_reconciliation_job jobs affair =
    let fallback =
      if truthy affair.current_job_id then none else last_job_of affair.affair_id jobs none in
    elim (current_job jobs affair.current_job_id) [
      | none ↦ fallback
      | some job ↦ if is_execution job then some job else fallback
    ]

abbrev pub repair_with : Affair → Job → AffairStatus → Option Affair
repair_with affair job target =
    let next = project_affair_with_job affair job target in
    if same affair.status AffairStatus.closed || same affair.status AffairStatus.canceled
    then none
    else elim (can_reach_affair_status affair.status next.status) [
      | some true ↦ if affair_needs_repair affair next then some next else none
      | _ ↦ none
    ]

-- One turn of the loop: the affair to write, if any.
unfoldable pub repair_affair : List (String × Job) → Affair → Option Affair
repair_affair jobs affair = elim (select_reconciliation_job jobs affair) [
  | none ↦ none
  | some job ↦ elim (affair_status_for_job job) [
    | none ↦ none
    | some target ↦ repair_with affair job target
  ]
]

-- The loop over the affairs: the new map and the number of repairs. A turn sets the affair's own
-- key, so it does not change the entries that are still to come.
abbrev pub repair_loop :
    List (String × Job)
    → List (String × Affair)
    → List (String × Affair)
    → ℕ
    → List (String × Affair) × ℕ
repair_loop jobs [] affairs changed = (affairs, changed)
repair_loop jobs ((key, affair) ∷ rest) affairs changed = elim (repair_affair jobs affair) [
  | none ↦ repair_loop jobs rest affairs changed
  | some next ↦ repair_loop jobs rest (insert affair.affair_id next affairs) (changed + 1)
]

unfoldable pub reconcile_affairs_from_jobs : String → State → State × ℕ
reconcile_affairs_from_jobs now state =
    let (affairs, changed) = repair_loop state.jobs state.affairs state.affairs 0 in
    let state' = record state { affairs = affairs } in
    (elim changed [ zero ↦ state' | suc _ ↦ record state' { updated_at = now } ], changed)
