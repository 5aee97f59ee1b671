-- ===== src/Closing/Children.antt =====
-- The jobs of an affair that is canceled.
use lanxin_claw.Shared.{
  String, ◌≡◌, refl, ap, inl, inr, Bool, true, List, [], ◌∷◌, Option, none, some, arith, lookup,
  lookup-insert_self, Bool-cases, Option-cases,
}
use lanxin_claw.States.Affair.{AffairStatus}
use lanxin_claw.Store.Types.{Job}
use lanxin_claw.Closing.Precheck.{CloseStatus, is_terminal_job}
use lanxin_claw.Closing.Coordinator.{
  ActionResult, ActionOutcome, ActionRecord, Mirror, World, jobs_of, can_close_ended_blocked_job,
  set_job, canceled_by_close, revoke_jobs, has_stopped, persist, ask_executor, cancel_current,
  cancel_child, cancel_loop, cancel_children,
}
use lanxin_claw.Closing.Execute.{prepare, run}
use lanxin_claw.Closing.Committed.{run_ok}
use lanxin_claw.Closing.Stopped.{
  IsStopped, IsJobKeyed, set_job-IsJobKeyed, set_job-IsStopped, canceled-ends,
}

-- The jobs are unchanged from one world to the other.
SameJobs : World → World → Type 0
SameJobs w w' = w'.mirror.store.jobs ≡ w.mirror.store.jobs

same-IsStopped : (id : String) (w w' : World) → SameJobs w w' → IsStopped id w → IsStopped id w'
unfolding SameJobs
same-IsStopped id w w' e s = rw e s

same-IsJobKeyed : (w w' : World) → SameJobs w w' → IsJobKeyed w → IsJobKeyed w'
unfolding SameJobs
same-IsJobKeyed w w' e k = rw e k

module _ (can_write : Mirror → Bool) where
  persist-SameJobs :
      (w w' : World) (saved : Bool) → persist can_write w ≡ (w', saved) → SameJobs w w'
  unfolding SameJobs
  persist-SameJobs w w' saved h = ground arith

  module _ (cancel_job : Option (Job → World → Option World)) where
    -- The executor, with all that happens while it is awaited, stores jobs under their own ids.
    abbrev pub KeysJobs : Option (Job → World → Option World) → Type 0
    KeysJobs none = Unit
    KeysJobs (some cancel) =
        (job : Job) (w w' : World) → cancel job w ≡ some w' → IsJobKeyed w → IsJobKeyed w'

    -- The jobs had their turns one after the other, and at the end of its turn each had stopped or
    -- was gone.
    pub data IsConfirmed (w' : World) : List Job → World → Type 0 where
      all_done : IsConfirmed w' [] w'
      next :
          (job : Job) (rest : List Job) (w w₁ : World)
          → cancel_child can_write cancel_job job w ≡ (w₁, true)
          → IsStopped job.job_id w₁
          → IsConfirmed w' rest w₁
          → IsConfirmed w' (job ∷ rest) w

    -- What a turn that threw nothing leaves behind.
    abbrev Turn : Job → World → Type 0
    Turn job w' = IsJobKeyed w' × IsStopped job.job_id w'

    has_stopped-IsStopped : (id : String) (w : World) → has_stopped id w ≡ true → IsStopped id w
    has_stopped-IsStopped id w h job e = ground arith

    -- The job as it is now is the only one under the id, if there is any.
    abbrev IsCurrent : Job → String → World → Type 0
    IsCurrent current id w =
        (current.job_id ≡ id)
        × ((job : Job) → lookup id w.mirror.store.jobs ≡ some job → job ≡ current)

    executor-Turn :
        (executor : Option (Job → World → Option World)) (job : Job) (w w' : World)
        → KeysJobs executor
        → IsJobKeyed w
        → ask_executor can_write executor job w ≡ (w', true)
        → Turn job w'
    executor-Turn none job w w' c keyed h = ground arith
    executor-Turn (some cancel) job w w' c keyed h = elim (Option-cases (cancel job w)) [
      | inl thrown ↦ let no = rw (ask_executor, thrown) at h in ground arith
      | inr (w₁, ran) ↦ elim (Bool-cases (has_stopped job.job_id w₁)) [
        | inr going ↦ let no = rw (ask_executor, ran, going) at h in ground arith
        | inl stopped ↦
            let saved : persist can_write w₁ ≡ (w', true) = rw (ask_executor, ran, stopped) at h in
            let same = persist-SameJobs w₁ w' true saved in
            (
              same-IsJobKeyed w₁ w' same (c job w w₁ ran keyed),
              same-IsStopped job.job_id w₁ w' same (has_stopped-IsStopped job.job_id w₁ stopped),
            )
      ]
    ]

    current-Turn :
        (current job : Job) (w w' : World)
        → KeysJobs cancel_job
        → IsJobKeyed w
        → IsCurrent current job.job_id w
        → cancel_current can_write cancel_job current job w ≡ (w', true)
        → Turn job w'
    unfolding cancel_current canceled_by_close
    current-Turn current job w w' c keyed (named, only) h =
        elim (Bool-cases (is_terminal_job current.status)) [
          | inl ended ↦
              let same : w ≡ w' = ground arith in
              rw (← same) (keyed, λ other e. rw (only other e) ended)
          | inr going ↦ elim (Bool-cases (can_close_ended_blocked_job current)) [
            | inr active ↦
                executor-Turn cancel_job job w w' c keyed (rw (cancel_current, going, active) at h)
            | inl closable ↦
                let next = canceled_by_close current in
                let saved : persist can_write (set_job next w) ≡ (w', true) =
                  rw (cancel_current, going, closable) at h in
                let same = persist-SameJobs (set_job next w) w' true saved in
                (
                  same-IsJobKeyed (set_job next w) w' same (set_job-IsJobKeyed next w keyed),
                  same-IsStopped job.job_id (set_job next w) w' same
                      (rw (← named) (set_job-IsStopped next w (canceled-ends current))),
                )
          ]
        ]

    child-Turn :
        (job : Job) (w w' : World)
        → KeysJobs cancel_job
        → IsJobKeyed w
        → cancel_child can_write cancel_job job w ≡ (w', true)
        → Turn job w'
    unfolding cancel_child
    child-Turn job w w' c keyed h = elim (Option-cases (lookup job.job_id w.mirror.store.jobs)) [
      | inl gone ↦
          current-Turn job job w w' c keyed (refl, λ other e. ground arith)
            (rw (cancel_child, gone) at h)
      | inr (current, found) ↦
          current-Turn current job w w' c keyed
            (keyed job.job_id current found, λ other e. ground arith)
            (rw (cancel_child, found) at h)
    ]

    loop-IsConfirmed :
        (jobs : List Job) (w w' : World)
        → KeysJobs cancel_job
        → IsJobKeyed w
        → cancel_loop can_write cancel_job jobs w ≡ (w', true)
        → IsConfirmed w' jobs w
    unfolding cancel_loop
    loop-IsConfirmed [] w w' c keyed h =
        rw (← ap (λ (r : World × Bool). r.0) h) IsConfirmed.all_done
    loop-IsConfirmed (job ∷ rest) w w' c keyed h =
        let w₁ = (cancel_child can_write cancel_job job w).0 in
        let done : (cancel_child can_write cancel_job job w).1 ≡ true = ground arith in
        let turn : cancel_child can_write cancel_job job w ≡ (w₁, true) = ground arith in
        let (still, stopped) = child-Turn job w w₁ c keyed turn in
        IsConfirmed.next job rest w w₁ turn stopped
          (loop-IsConfirmed rest w₁ w' c still (ground arith))

    -- If the coordinator answers a command to cancel an affair with a result, then the jobs that the
    -- affair had when the command came up had their turns one after the other, each had stopped or was
    -- gone at the end of its turn, and nothing happened to the jobs after the last turn; the affair is
    -- stored as canceled, and all is saved. It is supposed that the executor, with all that happens
    -- while it is awaited, stores jobs under their own ids. A job that is added or takes up its work
    -- again during a later turn is not meant.
    pub run_canceled-IsConfirmed :
        (action : ActionRecord) (w : World) (result : ActionResult) (duplicate : Bool) (w' : World)
        → KeysJobs cancel_job
        → IsJobKeyed w
        → action.command.status ≡ CloseStatus.canceled
        → run can_write cancel_job action w ≡ (ActionOutcome.ok result duplicate, w')
        → (result.affair.status ≡ AffairStatus.canceled)
          × (w'.disk ≡ w'.mirror)
          × (lookup result.affair.affair_id w'.mirror.store.affairs ≡ some result.affair)
          × ((first : World) × (last : World) × (first.mirror.store.jobs ≡ w.mirror.store.jobs)
              × IsConfirmed last (jobs_of action.command.affair_id w.mirror.store.jobs) first
              × (w'.mirror.store.jobs ≡ last.mirror.store.jobs))
    unfolding cancel_children SameJobs
    run_canceled-IsConfirmed action w result duplicate w' c keyed canceling h =
        let (stopped, _, done) = run_ok can_write cancel_job action w result duplicate w' h in
        let last = (prepare can_write cancel_job action w).0 in
        let canceled : cancel_children can_write cancel_job action w ≡ (last, true) =
          ground arith in
        let affairs = ap (λ (m : Mirror). m.store.affairs) (done.written) in
        let jobs = ap (λ (m : Mirror). m.store.jobs) (done.written) in
        let children = jobs_of action.command.affair_id w.mirror.store.jobs in
        let revoked : World = record w { gate = revoke_jobs children w.gate } in
        let first = (persist can_write revoked).0 in
        let same : SameJobs revoked first =
          persist-SameJobs revoked first (persist can_write revoked).1 refl in
        let looped : cancel_loop can_write cancel_job children first ≡ (last, true) =
          ground arith in
        (
          rw (done.answer, canceling) refl,
          done.saved,
          rw affairs
              (lookup-insert_self result.affair.affair_id result.affair last.mirror.store.affairs),
          (
            first,
            last,
            same,
            loop-IsConfirmed children first last c (same-IsJobKeyed revoked first same keyed)
                looped,
            jobs,
          ),
        )
