-- ===== src/Adapter/Moves.antt =====
-- Which statuses a snapshot can give a job.
use mathlib.Core.Path.{subst}
use lanxin_claw.Shared.{
  String, ◌≡◌, refl, ◌⊎◌, ◌↔◌, inl, inr, Bool, true, false, not, ◌||◌, [], ◌∷◌, Option, arith,
  if◌then◌else◌, Bool-cases, Option-cases, same, same_refl, eq_of_same, Reach, here, next,
  Reach_induction, search_from-Reach,
}
use lanxin_claw.States.Job.{JobStatus, job_statuses, job_status_enum, can_transition_job_status}
use lanxin_claw.Adapter.Snapshot.{
  AdapterJob, JobDecision, RunSnapshot, is_job_terminal, is_passed, search_job_status,
  resolve_next_job_status, is_hollow_completed_repair, resolve_applied_status, project_decided_job,
  apply_run_snapshot_to_job, is_present, is_low_signal_progress,
}

-- The search meets its target, or the target is not reachable: no status is met twice.
abbrev reachable : JobStatus → JobStatus → Bool
reachable JobStatus.failed to = same JobStatus.failed to
reachable JobStatus.canceled to = same JobStatus.canceled to
reachable JobStatus.queued to = true
reachable _ to = not (same JobStatus.queued to)

by_status :
    (P : JobStatus → Type 0)
    → P JobStatus.queued
    → P JobStatus.running
    → P JobStatus.needs_permission
    → P JobStatus.blocked
    → P JobStatus.completed
    → P JobStatus.failed
    → P JobStatus.canceled
    → (s : JobStatus) → P s
by_status P a b c d e f g JobStatus.queued = a
by_status P a b c d e f g JobStatus.running = b
by_status P a b c d e f g JobStatus.needs_permission = c
by_status P a b c d e f g JobStatus.blocked = d
by_status P a b c d e f g JobStatus.completed = e
by_status P a b c d e f g JobStatus.failed = f
by_status P a b c d e f g JobStatus.canceled = g

abbrev IsResolved : JobStatus → JobStatus → Type 0
IsResolved from to = resolve_next_job_status from to ≡ (if reachable from to then to else from)

resolve-reachable : (from to : JobStatus) → IsResolved from to
unfolding resolve_next_job_status can_transition_job_status
resolve-reachable JobStatus.queued =
    by_status (IsResolved JobStatus.queued) refl refl refl refl refl refl refl
resolve-reachable JobStatus.running =
    by_status (IsResolved JobStatus.running) refl refl refl refl refl refl refl
resolve-reachable JobStatus.needs_permission =
    by_status (IsResolved JobStatus.needs_permission) refl refl refl refl refl refl refl
resolve-reachable JobStatus.blocked =
    by_status (IsResolved JobStatus.blocked) refl refl refl refl refl refl refl
resolve-reachable JobStatus.completed =
    by_status (IsResolved JobStatus.completed) refl refl refl refl refl refl refl
resolve-reachable JobStatus.failed =
    by_status (IsResolved JobStatus.failed) refl refl refl refl refl refl refl
resolve-reachable JobStatus.canceled =
    by_status (IsResolved JobStatus.canceled) refl refl refl refl refl refl refl

reachable-step :
    (from b c : JobStatus)
    → reachable from b ≡ true
    → can_transition_job_status b c ≡ true
    → reachable from c ≡ true
unfolding can_transition_job_status
reachable-step from b c h s = ground arith

Reach-reachable :
    (from to : JobStatus) → Reach can_transition_job_status from to → reachable from to ≡ true
Reach-reachable from to path =
    Reach_induction (λ s. reachable from s ≡ true) (reachable-step from) path
      (ground (arith, same_refl from))

resolve-Reach :
    (from to : JobStatus) → Reach can_transition_job_status from (resolve_next_job_status from to)
unfolding resolve_next_job_status
resolve-Reach from to = elim (Bool-cases (same from to || can_transition_job_status from to)) [
  | inl direct ↦ elim (Bool-cases (same from to)) [
    | inl equal ↦ rw (resolve_next_job_status, direct) (rw (← eq_of_same from to equal) here)
    | inr other ↦ rw (resolve_next_job_status, direct) (next here (ground arith))
  ]
  | inr far ↦ elim (Option-cases (search_job_status from to)) [
    | inl spent ↦ rw (resolve_next_job_status, far, spent) here
    | inr (false, missed) ↦ rw (resolve_next_job_status, far, missed) here
    | inr (true, met) ↦
        rw (resolve_next_job_status, far, met)
          (search_from-Reach is_passed can_transition_job_status from to job_statuses 7 (from ∷ [])
            (from ∷ []) (here, tt) met)
  ]
]

-- The next status of a job is the wanted one just where the table of job transitions leads to it,
-- over any number of statuses in between. Where it does not, the job keeps its status.
pub resolve_next-Reach :
    (from to : JobStatus)
    → ((resolve_next_job_status from to ≡ to) ⊎ (resolve_next_job_status from to ≡ from))
      × ((resolve_next_job_status from to ≡ to) ↔ Reach can_transition_job_status from to)
resolve_next-Reach from to = (
  ground (arith, resolve-reachable from to),
  (
    (λ e. subst (Reach can_transition_job_status from) e (resolve-Reach from to)),
    λ path. ground (arith, resolve-reachable from to, Reach-reachable from to path),
  ),
)

resolve_same : (s : JobStatus) → resolve_next_job_status s s ≡ s
unfolding resolve_next_job_status
resolve_same s = ground (arith, same_refl s)

completed_blocked : can_transition_job_status JobStatus.completed JobStatus.blocked ≡ true
unfolding can_transition_job_status
completed_blocked = refl

module _ (is_low_signal_text : Option String → Bool)
    (decide : AdapterJob → RunSnapshot → JobDecision) (now : String) where
  -- A hollow completion: done without a result to show.
  abbrev pub IsHollow : AdapterJob → Type 0
  IsHollow job =
      (job.status ≡ JobStatus.completed)
      × ((is_present job.evidence_quality ≡ false)
          ⊎ (is_low_signal_progress is_low_signal_text job ≡ true))

  repair-IsHollow :
      (job : AdapterJob) (decided : JobDecision)
      → is_hollow_completed_repair is_low_signal_text job decided ≡ true
      → IsHollow job × (decided.status ≡ JobStatus.blocked)
  unfolding is_hollow_completed_repair
  repair-IsHollow job decided h = (
    (eq_of_same job.status JobStatus.completed (ground arith), ground arith),
    eq_of_same decided.status JobStatus.blocked (ground arith),
  )

  whole_status :
      (job : AdapterJob) (snapshot : RunSnapshot)
      → is_hollow_completed_repair is_low_signal_text job (decide job snapshot) ≡ false
      → let later = apply_run_snapshot_to_job is_low_signal_text decide now job snapshot in
        (later.status ≡ job.status)
        ⊎ ((is_job_terminal job.status ≡ false)
            × (later.status ≡ resolve_next_job_status job.status (decide job snapshot).status))
  unfolding apply_run_snapshot_to_job project_decided_job resolve_applied_status
  whole_status job snapshot whole =
      let decided = decide job snapshot in
      elim (Bool-cases (is_job_terminal job.status)) [
        | inr alive ↦ inr (alive, ground arith)
        | inl terminal ↦ elim (Bool-cases (same decided.status job.status)) [
          | inr differs ↦ inl (ground arith)
          | inl equal ↦
              let status = eq_of_same decided.status job.status equal in
              inl (ground (arith, status, resolve_same job.status))
        ]
      ]

  -- Whatever the runtime reports and whatever is decided of it, the job's new status follows from
  -- the old one along the table of job transitions. A job that is completed, failed or canceled
  -- keeps its status, unless it was completed without a result to show: then it may be blocked.
  pub apply_run-moves :
      (job : AdapterJob) (snapshot : RunSnapshot)
      → let later = apply_run_snapshot_to_job is_low_signal_text decide now job snapshot in
        Reach can_transition_job_status job.status later.status
        × ((is_job_terminal job.status ≡ false)
            ⊎ (later.status ≡ job.status)
            ⊎ (IsHollow job × (later.status ≡ JobStatus.blocked)))
  unfolding apply_run_snapshot_to_job project_decided_job resolve_applied_status
  apply_run-moves job snapshot =
      let decided = decide job snapshot in
      elim (Bool-cases (is_hollow_completed_repair is_low_signal_text job decided)) [
        | inl hollow ↦
            let (why, blocked) = repair-IsHollow job decided hollow in
            let status : (apply_run_snapshot_to_job is_low_signal_text decide now job
                  snapshot).status
                ≡ JobStatus.blocked =
              ground arith in
            (rw (status, why.0) (next here completed_blocked), inr (inr (why, status)))
        | inr whole ↦ elim (whole_status job snapshot whole) [
          | inl kept ↦ (rw kept here, inr (inl kept))
          | inr (alive, moved) ↦ (rw moved (resolve-Reach job.status decided.status), inl alive)
        ]
      ]
