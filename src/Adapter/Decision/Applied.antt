-- ===== src/Adapter/Decision/Applied.antt =====
-- A snapshot whose decision comes from its evidence, merged into the job.
use lanxin_claw.Shared.{
  String, ◌≡◌, refl, sym, ◌∙◌, ◌⊎◌, inl, inr, Bool, Option, none, some, arith, true, false, ◌||◌,
  same, Bool-cases,
}
use lanxin_claw.States.Job.{JobStatus, job_status_enum, can_transition_job_status}
use lanxin_claw.Adapter.Snapshot.{
  AdapterJob, JobDecision, RunSnapshot, search_job_status, resolve_next_job_status,
  is_hollow_completed_repair, resolve_applied_status, project_decided_job,
  apply_run_snapshot_to_job,
}
use lanxin_claw.Adapter.Decision.Evidence.{Evidence}
use lanxin_claw.Adapter.Decision.Result.{Signals}
use lanxin_claw.Adapter.Decision.Decide.{context_of, decide_job_from_evidence}
use lanxin_claw.Adapter.Decision.Completed.{IsProven, decide_completed}

met-choice :
    (met : Option Bool) (from to : JobStatus)
    → (elim met [ some true ↦ to | _ ↦ from ] ≡ to)
      ⊎ (elim met [ some true ↦ to | _ ↦ from ] ≡ from)
met-choice none from to = inr refl
met-choice (some true) from to = inl refl
met-choice (some false) from to = inr refl

resolve_next-choice :
    (from to : JobStatus)
    → (resolve_next_job_status from to ≡ to) ⊎ (resolve_next_job_status from to ≡ from)
unfolding resolve_next_job_status
resolve_next-choice from to =
    elim (Bool-cases (same from to || can_transition_job_status from to)) [
      | inl direct ↦ inl (rw (resolve_next_job_status, direct) refl)
      | inr indirect ↦
          rw (resolve_next_job_status, indirect) (met-choice (search_job_status from to) from to)
    ]

resolve_applied-choice :
    (job : AdapterJob) (decided : JobDecision) (hollow : Bool)
    → (resolve_applied_status job decided hollow ≡ decided.status)
      ⊎ (resolve_applied_status job decided hollow ≡ job.status)
unfolding resolve_applied_status
resolve_applied-choice job decided hollow = ground (
  arith,
  resolve_next-choice job.status decided.status,
  resolve_next-choice job.status job.status,
)

module _ (is_low_signal_text : Option String → Bool)
    (decide : AdapterJob → RunSnapshot → JobDecision) (now : String) where
  applied-choice :
      (job : AdapterJob) (snapshot : RunSnapshot)
      → let later = apply_run_snapshot_to_job is_low_signal_text decide now job snapshot in
        (later.status ≡ (decide job snapshot).status) ⊎ (later.status ≡ job.status)
  unfolding apply_run_snapshot_to_job project_decided_job
  applied-choice job snapshot =
      let decided = decide job snapshot in
      let hollow = is_hollow_completed_repair is_low_signal_text job decided in
      ground (arith, resolve_applied-choice job decided hollow)

-- A snapshot turns a job into a completed one only with proof: whatever its evidence is, a job that
-- is completed after the merge was completed before it, or the run has ended well with business
-- evidence of a result, without a failed tool and without a reply that says otherwise.
pub completed-IsProven :
    (t : Signals) (evidence_for : AdapterJob → RunSnapshot → Evidence) (now : String)
    (job : AdapterJob) (snapshot : RunSnapshot)
    → let decide =
        λ (j : AdapterJob) (s : RunSnapshot). decide_job_from_evidence t j (evidence_for j s) in
      (apply_run_snapshot_to_job t.is_low_signal_text decide now job snapshot).status
        ≡ JobStatus.completed
      → (job.status ≡ JobStatus.completed)
        ⊎ IsProven t (context_of t job (evidence_for job snapshot))
completed-IsProven t evidence_for now job snapshot h =
    let decide =
      λ (j : AdapterJob) (s : RunSnapshot). decide_job_from_evidence t j (evidence_for j s) in
    elim (applied-choice t.is_low_signal_text decide now job snapshot) [
      | inr kept ↦ inl (sym kept ∙ h)
      | inl decided ↦ elim (decide_completed t job (evidence_for job snapshot) (sym decided ∙ h)) [
        | inl was ↦ inl (was.0)
        | inr proven ↦ inr proven
      ]
    ]
