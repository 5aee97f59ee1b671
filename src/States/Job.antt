-- ===== src/States/Job.antt =====
-- packages/protocol/src/states/job-status.ts: the life of a job.
use lanxin_claw.Shared.{
  ℕ, ◌≡◌, Bool, true, List, [], ◌∷◌, arith, if◌then◌else◌, Enum, same, includes,
}

pub data JobStatus : Type 0 where
  queued running needs_permission blocked completed failed canceled : JobStatus

abbrev job_status_code : JobStatus → ℕ
job_status_code JobStatus.queued = 0
job_status_code JobStatus.running = 1
job_status_code JobStatus.needs_permission = 2
job_status_code JobStatus.blocked = 3
job_status_code JobStatus.completed = 4
job_status_code JobStatus.failed = 5
job_status_code JobStatus.canceled = 6

pub job_status_code_injective : (a b : JobStatus) → job_status_code a ≡ job_status_code b → a ≡ b
job_status_code_injective a b h = ground arith

instance abbrev pub job_status_enum : Enum JobStatus
job_status_enum = record { code = job_status_code; code_injective = job_status_code_injective }

abbrev pub job_statuses : List JobStatus
job_statuses =
    JobStatus.queued ∷ JobStatus.running ∷ JobStatus.needs_permission ∷ JobStatus.blocked
    ∷ JobStatus.completed ∷ JobStatus.failed ∷ JobStatus.canceled ∷ []

-- `JOB_TRANSITIONS`.
unfoldable pub job_transitions : JobStatus → List JobStatus
job_transitions JobStatus.queued =
    JobStatus.running ∷ JobStatus.needs_permission ∷ JobStatus.completed ∷ JobStatus.failed
    ∷ JobStatus.canceled ∷ []
job_transitions JobStatus.running =
    JobStatus.needs_permission ∷ JobStatus.blocked ∷ JobStatus.completed ∷ JobStatus.failed
    ∷ JobStatus.canceled ∷ []
job_transitions JobStatus.needs_permission =
    JobStatus.running ∷ JobStatus.blocked ∷ JobStatus.failed ∷ JobStatus.canceled ∷ []
job_transitions JobStatus.blocked = JobStatus.running ∷ JobStatus.failed ∷ JobStatus.canceled ∷ []
job_transitions JobStatus.completed = JobStatus.blocked ∷ []
job_transitions JobStatus.failed = []
job_transitions JobStatus.canceled = []

unfoldable pub can_transition_job_status : JobStatus → JobStatus → Bool
unfolding job_transitions
can_transition_job_status from to =
    if same from to then true else includes to (job_transitions from)
