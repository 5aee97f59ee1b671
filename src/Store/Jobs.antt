-- ===== src/Store/Jobs.antt =====
-- What a job message does to the stored job: legal moves, the guard of a finished affair, and the
-- fields that stay.
use lanxin_claw.Shared.{
  String, ◌≡◌, refl, sym, ap, ◌∙◌, ◌⊎◌, inl, inr, true, false, List, Option, none, some, arith,
  ◌==◌, eq_iff, lookup, insert, lookup-insert, Bool-cases, or_else,
}
use lanxin_claw.States.Affair.{affair_status_enum}
use lanxin_claw.States.Job.{JobStatus, can_transition_job_status, job_status_enum}
use lanxin_claw.States.Laws.{IsFinalAffair}
use lanxin_claw.Store.Types.{Affair, Job, JobMessage, State}
use lanxin_claw.Store.Apply.{
  apply_job_event, apply_job, finish_job, fail_with_ids, decide_terminal_affair_job_event,
  TerminalDecision, merge_job, store_job, update_affair_from_job, is_illegal_job_move,
}

-- What the stored jobs may become: the same, or one job more, by a move that the table allows and
-- that the guard of the affair lets pass.
abbrev Stores :
    Option Affair
    → JobMessage
    → Option Job
    → Job
    → List (String × Job)
    → List (String × Job)
    → Type 0
Stores affair kind existing payload before after =
    (after ≡ before)
    ⊎ ((after ≡ insert payload.job_id payload before)
        × (is_illegal_job_move existing payload ≡ false)
        × (decide_terminal_affair_job_event affair kind existing payload ≡ TerminalDecision.allow))

update_affair-jobs :
    (affair : Affair) (job : Job) (state : State)
    → (update_affair_from_job affair job state).jobs ≡ state.jobs
unfolding update_affair_from_job
update_affair-jobs affair job state = ground arith

store_job-jobs :
    (affair : Option Affair) (payload : Job) (state : State)
    → (store_job affair payload state).jobs ≡ insert payload.job_id payload state.jobs
store_job-jobs none payload state = refl
store_job-jobs (some affair) payload state =
    update_affair-jobs affair payload
      (record state { jobs = insert payload.job_id payload state.jobs })

finish_job-jobs :
    (now : String) (affair : Option Affair) (existing : Option Job) (payload : Job) (state : State)
    (decision : TerminalDecision)
    → ((finish_job now affair existing payload state decision).0.jobs ≡ state.jobs)
      ⊎ (((finish_job now affair existing payload state decision).0.jobs
            ≡ insert payload.job_id payload state.jobs)
          × (is_illegal_job_move existing payload ≡ false)
          × (decision ≡ TerminalDecision.allow))
unfolding fail_with_ids
finish_job-jobs now affair existing payload state (TerminalDecision.reject a j) = inl refl
finish_job-jobs now affair existing payload state TerminalDecision.ignore_duplicate = inl refl
finish_job-jobs now affair existing payload state TerminalDecision.allow =
    elim (Bool-cases (is_illegal_job_move existing payload)) [
      | inl illegal ↦ rw illegal (inl refl)
      | inr legal ↦ inr (ground (arith, store_job-jobs affair payload state), legal, refl)
    ]

abbrev merged : Job → State → Job
merged incoming state = merge_job (lookup incoming.job_id state.jobs) incoming

apply_job-Stores :
    (now : String) (kind : JobMessage) (incoming : Job) (state : State)
    → Stores
        (lookup (merged incoming state).affair_id state.affairs)
        kind
        (lookup incoming.job_id state.jobs)
        (merged incoming state)
        state.jobs
        (apply_job now kind incoming state).0.jobs
unfolding apply_job apply_job_event fail_with_ids
apply_job-Stores now kind incoming state =
    let existing = lookup incoming.job_id state.jobs in
    let payload = merged incoming state in
    let affair = lookup payload.affair_id state.affairs in
    let finished = finish_job-jobs now affair existing payload state in
    elim kind
      as (λ k.
        Stores affair k existing payload state.jobs (apply_job now k incoming state).0.jobs) [
          | JobMessage.cancel ↦ inl refl
          | k ↦ finished (decide_terminal_affair_job_event affair k existing payload)
        ]

merge_job-id :
    (existing : Option Job) (incoming : Job)
    → ((merge_job existing incoming).job_id ≡ incoming.job_id)
      × ((merge_job existing incoming).status ≡ incoming.status)
      × ((merge_job existing incoming).affair_id ≡ incoming.affair_id)
unfolding merge_job
merge_job-id none incoming = (refl, refl, refl)
merge_job-id (some existing) incoming = (refl, refl, refl)

-- After a job message every stored job is still stored. If it is not the same, then the message
-- was about this job, its status moved along the table of job transitions to the status of the
-- message, and it keeps its permission request and its task intent where the message brings none.
pub apply_job-moves :
    (now : String) (kind : JobMessage) (incoming : Job) (state : State) (id : String) (job : Job)
    → lookup id state.jobs ≡ some job
    → (later : Job) × (lookup id (apply_job now kind incoming state).0.jobs ≡ some later)
      × ((later ≡ job)
          ⊎ ((incoming.job_id ≡ id)
              × (later.status ≡ incoming.status)
              × (can_transition_job_status job.status later.status ≡ true)
              × (later.permission_request_id
                  ≡ or_else incoming.permission_request_id job.permission_request_id)
              × (later.task_intent_id ≡ or_else incoming.task_intent_id job.task_intent_id)))
unfolding merge_job
apply_job-moves now kind incoming state id job e = elim (apply_job-Stores now kind incoming state) [
  | inl kept ↦ (job, rw kept e, inl refl)
  | inr (written, legal, allowed) ↦ elim (Bool-cases (incoming.job_id == id)) [
    | inr miss ↦ (
      job,
      ground (
        arith,
        (merge_job-id (lookup incoming.job_id state.jobs) incoming).0,
        lookup-insert (merged incoming state).job_id id (merged incoming state) state.jobs,
      ),
      inl refl,
    )
    | inl hit ↦
        let name : incoming.job_id ≡ id = ground (arith, eq_iff incoming.job_id id) in
        let there : lookup incoming.job_id state.jobs ≡ some job = rw name e in
        let later = merge_job (some job) incoming in
        let is_later : merged incoming state ≡ later = ap (λ o. merge_job o incoming) there in
        (
          later,
          ground (arith, lookup-insert incoming.job_id id later state.jobs),
          inr (name, refl, ground arith, refl, refl),
        )
  ]
]

allowed_terminal :
    (affair : Affair) (kind : JobMessage) (existing : Option Job) (payload : Job)
    → IsFinalAffair affair.status
    → decide_terminal_affair_job_event (some affair) kind existing payload ≡ TerminalDecision.allow
    → (payload.status ≡ JobStatus.canceled) ⊎ (kind ≡ JobMessage.canceled)
unfolding decide_terminal_affair_job_event
allowed_terminal affair kind existing payload (inl closed) e = ground arith
allowed_terminal affair kind existing payload (inr canceled) e = ground arith

-- While the affair that a job message names is closed or canceled, the message changes the stored
-- jobs only if it is a cancellation: its type is `job.canceled` or the status it brings is
-- `canceled`. The affair that a stored job had before is not looked at.
pub apply_job-terminal :
    (now : String) (kind : JobMessage) (incoming : Job) (state : State) (affair : Affair)
    → lookup incoming.affair_id state.affairs ≡ some affair
    → IsFinalAffair affair.status
    → ((apply_job now kind incoming state).0.jobs ≡ state.jobs)
      ⊎ (incoming.status ≡ JobStatus.canceled)
      ⊎ (kind ≡ JobMessage.canceled)
apply_job-terminal now kind incoming state affair found final =
    elim (apply_job-Stores now kind incoming state) [
      | inl kept ↦ inl kept
      | inr (written, legal, allowed) ↦
          let (id, status, name) = merge_job-id (lookup incoming.job_id state.jobs) incoming in
          let there : lookup (merged incoming state).affair_id state.affairs ≡ some affair =
            rw name found in
          elim (allowed_terminal affair kind (lookup incoming.job_id state.jobs)
            (merged incoming state) final (rw there at allowed)) [
              | inl canceled ↦ inr (inl (sym status ∙ canceled))
              | inr canceled ↦ inr (inr canceled)
            ]
    ]
