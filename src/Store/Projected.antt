-- ===== src/Store/Projected.antt =====
-- What a job message of apps/companion/src/state writes to the affairs.
use lanxin_claw.Shared.{
  String, ◌≡◌, refl, ◌⊎◌, inl, inr, true, List, Option, none, some, arith, lookup, insert,
  Bool-cases, Option-cases,
}
use lanxin_claw.States.Affair.{AffairStatus, can_transition_affair_status, affair_status_enum}
use lanxin_claw.States.Laws.{IsFinalAffair}
use lanxin_claw.Store.Types.{Affair, Job, JobMessage, State}
use lanxin_claw.Store.Projection.{affair_status_for_job, project_affair_with_job, is_execution}
use lanxin_claw.Store.Apply.{
  update_affair_from_job, apply_job_event, apply_job, fail_with_ids, finish_job, TerminalDecision,
  merge_job, store_job, is_other_job, is_illegal_job_move,
}
use lanxin_claw.Store.Legal.{IsKeyed, IsLegal, IsLegal-refl, IsLegal-insert}

-- What a job event may do to the affairs: nothing, or one projection that the table allows.
abbrev pub Projects : Option Affair → List (String × Affair) → List (String × Affair) → Type 0
Projects affair before after =
    (after ≡ before)
    ⊎ ((a : Affair) × (job : Job) × (status : AffairStatus) × (affair ≡ some a)
        × (affair_status_for_job job ≡ some status)
        × (can_transition_affair_status a.status status ≡ true)
        × (after ≡ insert a.affair_id (project_affair_with_job a job status) before))

pub project-status :
    (affair : Affair) (job : Job) (status : AffairStatus)
    → ((project_affair_with_job affair job status).status ≡ status)
      × ((project_affair_with_job affair job status).affair_id ≡ affair.affair_id)
unfolding project_affair_with_job
project-status affair job status = (refl, refl)

update-Projects :
    (affair : Affair) (job : Job) (state : State)
    → Projects (some affair) state.affairs (update_affair_from_job affair job state).affairs
unfolding update_affair_from_job
update-Projects affair job state = elim (Bool-cases (is_execution job)) [
  | inr exploration ↦ inl (ground arith)
  | inl execution ↦ elim (Bool-cases (is_other_job affair.current_job_id job.job_id)) [
    | inl busy ↦ inl (ground arith)
    | inr free ↦ elim (Option-cases (affair_status_for_job job)) [
      | inl silent ↦ inl (ground arith)
      | inr (status, e) ↦ elim (Bool-cases (can_transition_affair_status affair.status status)) [
        | inr illegal ↦ inl (ground (arith, (project-status affair job status).0))
        | inl legal ↦ inr (
          affair,
          job,
          status,
          refl,
          e,
          legal,
          ground (arith, (project-status affair job status).0),
        )
      ]
    ]
  ]
]

store_job-Projects :
    (affair : Option Affair) (payload : Job) (state : State)
    → Projects affair state.affairs (store_job affair payload state).affairs
store_job-Projects none payload state = inl refl
store_job-Projects (some affair) payload state =
    update-Projects affair payload
      (record state { jobs = insert payload.job_id payload state.jobs })

finish_job-Projects :
    (now : String) (affair : Option Affair) (existing : Option Job) (payload : Job) (state : State)
    (decision : TerminalDecision)
    → Projects affair state.affairs
        (finish_job now affair existing payload state decision).0.affairs
unfolding fail_with_ids
finish_job-Projects now affair existing payload state (TerminalDecision.reject a j) = inl refl
finish_job-Projects now affair existing payload state TerminalDecision.ignore_duplicate = inl refl
finish_job-Projects now affair existing payload state TerminalDecision.allow =
    elim (Bool-cases (is_illegal_job_move existing payload)) [
      | inl illegal ↦ rw illegal (inl refl)
      | inr legal ↦ rw legal (store_job-Projects affair payload state)
    ]

pub apply_job-Projects :
    (now : String) (kind : JobMessage) (incoming : Job) (state : State)
    → (affair_id : String) × Projects
        (lookup affair_id state.affairs)
        state.affairs
        (apply_job now kind incoming state).0.affairs
unfolding apply_job apply_job_event fail_with_ids
apply_job-Projects now kind incoming state =
    let payload = merge_job (lookup incoming.job_id state.jobs) incoming in
    let finished =
      finish_job-Projects now (lookup payload.affair_id state.affairs)
        (lookup incoming.job_id state.jobs) payload state in
    (
      payload.affair_id,
      elim kind
          as (λ k.
            Projects (lookup payload.affair_id state.affairs) state.affairs
              (apply_job now k incoming state).0.affairs) [
                | JobMessage.cancel ↦ inl refl
                | _ ↦ finished _
              ],
    )

pub Projects-IsLegal :
    (affair_id : String) (before after : List (String × Affair))
    → IsKeyed before
    → Projects (lookup affair_id before) before after
    → IsLegal before after
unfolding project_affair_with_job
Projects-IsLegal affair_id before after k (inl kept) = rw kept (IsLegal-refl k)
Projects-IsLegal affair_id before after k (inr (a, job, status, found, target, legal, written)) =
    rw written (
      IsLegal-insert (project_affair_with_job a job status) before k
        (λ old e. ground (arith, k affair_id a found)))

pub projected_not_final :
    (job : Job) (status : AffairStatus)
    → affair_status_for_job job ≡ some status
    → ¬ IsFinalAffair status
projected_not_final job status e (inl closed) = ground arith
projected_not_final job status e (inr canceled) = ground arith
