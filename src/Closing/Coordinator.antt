-- ===== src/Closing/Coordinator.antt =====
-- apps/companion/src/affairs/actions/coordinator.ts and types.ts, with validateAffairClosePayload of
-- packages/protocol/src/validators: a command to close an affair is saved, checked, executed and
-- committed. `disk` is the mirror as it was last saved; `can_write` says when saving it succeeds.
-- The text of a JSON list is injective, so fingerprints are compared as lists; `key_of` is the text
-- of the list of the actor and the request. `cancel_job` is the executor with all that happens to
-- the program while it is awaited; it throws by `none`. What is published to screens is left out.
use lanxin_claw.Shared.{
  String, Bool, true, false, not, ◌&&◌, ◌||◌, List, [], ◌∷◌, Option, none, some, if◌then◌else◌,
  ◌==◌, lookup, insert, any, same, same_text, is_missing, is_blank,
}
use lanxin_claw.States.Job.{JobStatus, job_status_enum}
use lanxin_claw.Store.Types.{Affair, Job, State}
use lanxin_claw.Permissions.Gate.{Gate, revoke_for_job}
use lanxin_claw.Closing.Precheck.{CloseStatus, AffairClose, is_terminal_job}

-- `AffairActionResult`.
pub record ActionResult : Type 0 where
  pub affair : Affair
  pub jobs : List Job

-- `AffairActionOutcome`; an error is kept by its code.
pub data ActionOutcome : Type 0 where
  ok : (result : ActionResult) (duplicate : Bool) → ActionOutcome
  err : (code : String) → ActionOutcome

pub data Phase : Type 0 where
  pending committed rejected : Phase

pub record ActionRequest : Type 0 where
  pub request_id : String
  pub actor_id : String
  pub command : AffairClose

pub record ActionRecord : Type 0 where
  pub request_id : String
  pub actor_id : String
  pub command : AffairClose
  pub key : String
  pub phase : Phase
  pub outcome : Option ActionOutcome

pub record Mirror : Type 0 where
  pub store : State
  pub actions : List (String × ActionRecord)

-- `running` are the keys of operations that have not ended, `sent` what the phone was told.
pub record World : Type 0 where
  pub mirror : Mirror
  pub disk : Mirror
  pub gate : Gate
  pub running : List String
  pub sent : List ActionResult

-- A text that is given is not blank.
abbrev pub is_given : Option String → Bool
is_given none = true
is_given (some text) = not (is_blank text)

-- `validateAffairClosePayload` on a command of the declared type: a missing summary or reason is
-- `none`, an expected job that is `null` is `none`. What it refuses of the raw value (other fields, a
-- summary or a reason that is `null`, no expected job) has no such type.
unfoldable pub validate_affair_close_payload : AffairClose → Bool
validate_affair_close_payload command =
    not (is_blank command.affair_id)
    && is_given command.expected_current_job_id
    && is_given command.acceptance_summary
    && is_given command.close_reason
    && elim command.status [
      | CloseStatus.closed ↦ not (is_missing command.acceptance_summary)
      | CloseStatus.canceled ↦ true
    ]

abbrev same_close_status : CloseStatus → CloseStatus → Bool
same_close_status CloseStatus.closed CloseStatus.closed = true
same_close_status CloseStatus.canceled CloseStatus.canceled = true
same_close_status _ _ = false

-- The comparison of two fingerprints.
unfoldable pub same_fingerprint : AffairClose → AffairClose → Bool
same_fingerprint a b =
    a.affair_id == b.affair_id
    && same_close_status a.status b.status
    && same_text a.expected_current_job_id b.expected_current_job_id
    && same_text a.acceptance_summary b.acceptance_summary
    && same_text a.close_reason b.close_reason

abbrev pub is_pending : Phase → Bool
is_pending Phase.pending = true
is_pending _ = false

abbrev pub is_pending_for : String → String × ActionRecord → Bool
is_pending_for affair_id (key, record_) =
    record_.command.affair_id == affair_id && is_pending record_.phase

unfoldable pub is_closing : String → List (String × ActionRecord) → Bool
is_closing affair_id actions = any (is_pending_for affair_id) actions

abbrev pub jobs_of : String → List (String × Job) → List Job
jobs_of affair_id [] = []
jobs_of affair_id ((id, job) ∷ rest) =
    let others = jobs_of affair_id rest in
    if job.affair_id == affair_id then job ∷ others else others

unfoldable pub can_close_ended_blocked_job : Job → Bool
can_close_ended_blocked_job job =
    same job.status JobStatus.blocked
    && (same_text job.status_reason_code (some "openclaw.terminal_without_result")
        || same_text job.status_reason_code (some "openclaw.final_reply_negative")
        || same_text job.status_reason_code (some "openclaw.web_search_disabled"))

abbrev pub set_job : Job → World → World
set_job job w =
    let store : State = record w.mirror.store {
      jobs = insert job.job_id job w.mirror.store.jobs;
    } in
    record w { mirror = record w.mirror { store = store } }

abbrev pub set_affair : Affair → World → World
set_affair affair w =
    let store : State = record w.mirror.store {
      affairs = insert affair.affair_id affair w.mirror.store.affairs;
    } in
    record w { mirror = record w.mirror { store = store } }

abbrev pub set_action : ActionRecord → World → World
set_action action w = record w {
  mirror = record w.mirror { actions = insert action.key action w.mirror.actions };
}

-- The job as `markJobCanceledByAffairClose` stores it.
unfoldable pub canceled_by_close : Job → Job
canceled_by_close job = record job {
  status = JobStatus.canceled;
  progress_summary = elim job.progress_summary [
    | none ↦ some "用户已取消事务"
    | some text ↦ if text == "" then some "用户已取消事务" else some text
  ];
  blocked_reason = none;
  resume_condition = none;
  status_reason_code = some "lanxin.cancel_after_ended_blocked_job";
}

abbrev pub revoke_jobs : List Job → Gate → Gate
revoke_jobs [] gate = gate
revoke_jobs (job ∷ rest) gate = revoke_jobs rest (revoke_for_job job.job_id gate)

-- `isTerminalJob(state.jobs.get(id)?.status ?? "")`.
abbrev pub has_stopped : String → World → Bool
has_stopped id w = elim (lookup id w.mirror.store.jobs) [
  | none ↦ false
  | some job ↦ is_terminal_job job.status
]

module _ (can_write : Mirror → Bool) where
  -- The world after the attempt, and whether it succeeded.
  abbrev pub persist : World → World × Bool
  persist w = if can_write w.mirror then (record w { disk = w.mirror }, true) else (w, false)

  -- The executor is asked to cancel the job, and the job must have stopped then.
  abbrev pub ask_executor : Option (Job → World → Option World) → Job → World → World × Bool
  ask_executor none job w = (w, false)
  ask_executor (some cancel) job w = elim (cancel job w) [
    | none ↦ (w, false)
    | some w' ↦ if has_stopped job.job_id w' then persist w' else (w', false)
  ]

  module _ (cancel_job : Option (Job → World → Option World)) where
    -- A round of the loop of `cancelChildren` on the job as it is now; the Boolean says that nothing
    -- was thrown.
    unfoldable pub cancel_current : Job → Job → World → World × Bool
    cancel_current current job w =
        if is_terminal_job current.status
        then (w, true)
        else if can_close_ended_blocked_job current
        then persist (set_job (canceled_by_close current) w)
        else ask_executor cancel_job job w

    unfoldable pub cancel_child : Job → World → World × Bool
    cancel_child job w = elim (lookup job.job_id w.mirror.store.jobs) [
      | none ↦ cancel_current job job w
      | some current ↦ cancel_current current job w
    ]

    unfoldable pub cancel_loop : List Job → World → World × Bool
    cancel_loop [] w = (w, true)
    cancel_loop (job ∷ rest) w =
        let (w', done) = cancel_child job w in
        let others = cancel_loop rest w' in if done then others else (w', false)

    unfoldable pub cancel_children : ActionRecord → World → World × Bool
    cancel_children action w =
        let children = jobs_of action.command.affair_id w.mirror.store.jobs in
        let (w', saved) = persist (record w { gate = revoke_jobs children w.gate }) in
        if saved then cancel_loop children w' else (w', false)
