-- ===== src/Closing/Stopped.antt =====
-- Jobs that have stopped, under the keys of the store.
use lanxin_claw.Shared.{String, ◌≡◌, refl, true, some, arith, eq_iff, lookup, lookup-insert}
use lanxin_claw.Store.Types.{Job}
use lanxin_claw.Closing.Precheck.{is_terminal_job}
use lanxin_claw.Closing.Coordinator.{World, set_job, canceled_by_close}

-- No job that can still run is stored under the id.
abbrev pub IsStopped : String → World → Type 0
IsStopped id w =
    (job : Job) → lookup id w.mirror.store.jobs ≡ some job → is_terminal_job job.status ≡ true

-- Every job is stored under its own id.
abbrev pub IsJobKeyed : World → Type 0
IsJobKeyed w =
    (id : String) (job : Job) → lookup id w.mirror.store.jobs ≡ some job → job.job_id ≡ id

pub set_job-IsJobKeyed : (job : Job) (w : World) → IsJobKeyed w → IsJobKeyed (set_job job w)
set_job-IsJobKeyed job w k id other e =
    ground
      (arith, k id other, lookup-insert job.job_id id job w.mirror.store.jobs, eq_iff job.job_id id)

pub set_job-IsStopped :
    (job : Job) (w : World)
    → is_terminal_job job.status ≡ true
    → IsStopped job.job_id (set_job job w)
set_job-IsStopped job w ended other e = ground (
  arith,
  lookup-insert job.job_id job.job_id job w.mirror.store.jobs,
  eq_iff job.job_id job.job_id,
)

pub canceled-ends : (job : Job) → is_terminal_job (canceled_by_close job).status ≡ true
unfolding canceled_by_close
canceled-ends job = refl
