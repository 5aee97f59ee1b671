-- ===== src/Adapter/Registry/Steps.antt =====
-- What one call does to the register.
use lanxin_claw.Shared.{
  String, ◌≡◌, refl, sym, ap, Bool, true, false, not, ◌||◌, inl, inr, Option, none, some, arith,
  eq_iff, truthy, lookup, insert, Bool-cases, Option-cases, Reach, here, next,
}
use lanxin_claw.States.Job.{JobStatus, can_transition_job_status}
use lanxin_claw.Adapter.Snapshot.{
  AdapterJob, JobDecision, RunSnapshot, is_job_terminal, project_decided_job,
  apply_run_snapshot_to_job,
}
use lanxin_claw.Adapter.Moves.{apply_run-moves}
use lanxin_claw.Adapter.Registry.Keys.{differs, validate_run_snapshot_identity}
use lanxin_claw.Adapter.Registry.Operations.{
  CreateInput, Request, Answer, Registry, Reply, validate_create_input, base_job,
  canceled_before_run, settle, create_adapter_job, read_adapter_job, cancel_adapter_job,
}

-- What no call changes of a job: what it is for, what it may use, and its run once it has one. Its
-- status moves along the table.
pub record IsKept (old later : AdapterJob) : Type 0 where
  pub job_id : later.job_id ≡ old.job_id
  pub affair_id : later.affair_id ≡ old.affair_id
  pub goal : later.goal ≡ old.goal
  pub purpose : later.purpose ≡ old.purpose
  pub permissions : later.allowed_permissions ≡ old.allowed_permissions
  pub status : Reach can_transition_job_status old.status later.status
  pub run_id : truthy old.openclaw_run_id ≡ true → later.openclaw_run_id ≡ old.openclaw_run_id

same_run :
    (own : Option String) (run : String)
    → differs own run ≡ false
    → truthy own ≡ true
    → some run ≡ own
same_run none run same given = ground arith
same_run (some id) run same given = ap (λ x. some x) (sym ((eq_iff id run).0 (ground arith)))

module _ (is_low_signal_text : Option String → Bool)
    (decide : AdapterJob → RunSnapshot → JobDecision) where
  pub apply-IsKept :
      (now : String) (job : AdapterJob) (snapshot : RunSnapshot)
      → validate_run_snapshot_identity job snapshot ≡ true
      → IsKept job (apply_run_snapshot_to_job is_low_signal_text decide now job snapshot)
  unfolding apply_run_snapshot_to_job project_decided_job validate_run_snapshot_identity
  apply-IsKept now job snapshot valid = record {
    job_id = ground arith;
    affair_id = ground arith;
    goal = ground arith;
    purpose = ground arith;
    permissions = ground arith;
    status = (apply_run-moves is_low_signal_text decide now job snapshot).0;
    run_id = λ given. ground (arith, same_run job.openclaw_run_id snapshot.run_id);
  }

canceled-IsKept :
    (now : String) (job : AdapterJob)
    → can_transition_job_status job.status JobStatus.canceled ≡ true
    → IsKept job (canceled_before_run now job)
canceled-IsKept now job can = record {
  job_id = refl;
  affair_id = refl;
  goal = refl;
  purpose = refl;
  permissions = refl;
  status = next here can;
  run_id = λ given. refl;
}

-- The three calls, with the time and the answers of the runtime.
pub data Call : Type 0 where
  create : (now : String) (runtime : Request → Answer) → CreateInput → Call
  read : (now : String) (runtime : Request → Answer) (job_id : String) (refresh : Bool) → Call
  cancel : (now : String) (runtime : Request → Answer) (job_id : String) → Call

abbrev pub IsCreation : Call → CreateInput → Type 0
IsCreation (Call.create now runtime own) input = own ≡ input
IsCreation _ input = ⊥

-- A stored job is changed, or the job of a valid creation is added.
pub data Effect (call : Call) (registry : Registry) : Registry → Type 0 where
  stays : Effect call registry registry
  changes :
      (key : String) (old later : AdapterJob)
      → lookup key registry ≡ some old
      → IsKept old later
      → Effect call registry (insert later.job_id later registry)
  creates :
      (now : String) (input : CreateInput) (later : AdapterJob)
      → IsCreation call input
      → validate_create_input input ≡ none
      → lookup input.job_id registry ≡ none
      → IsKept (base_job now input) later
      → Effect call registry (insert later.job_id later registry)

module _ (is_low_signal_text : Option String → Bool)
    (decide : AdapterJob → RunSnapshot → JobDecision)
    (wrap_browser_first_run_input : String → String) where
  unfoldable pub perform : Call → Registry → Reply
  perform (Call.create now runtime input) registry =
      create_adapter_job is_low_signal_text decide wrap_browser_first_run_input now runtime input
        registry
  perform (Call.read now runtime job_id refresh) registry =
      read_adapter_job is_low_signal_text decide wrap_browser_first_run_input now runtime job_id
        refresh registry
  perform (Call.cancel now runtime job_id) registry =
      cancel_adapter_job is_low_signal_text decide wrap_browser_first_run_input now runtime job_id
        registry

  settle-changes :
      (call : Call) (now code key : String) (job : AdapterJob) (registry : Registry)
      (request : Request) (answer : Answer)
      → lookup key registry ≡ some job
      → Effect call registry
          (settle is_low_signal_text decide wrap_browser_first_run_input now code job registry
            request answer).registry
  unfolding settle
  settle-changes call now code key job registry request (Answer.threw thrown) found = Effect.stays
  settle-changes call now code key job registry request (Answer.answered snapshot) found =
      elim (Bool-cases (validate_run_snapshot_identity job snapshot)) [
        | inl valid ↦
            rw (settle, valid)
              (Effect.changes key job _ found
                (apply-IsKept is_low_signal_text decide now job snapshot valid))
        | inr foreign ↦ rw (settle, foreign) Effect.stays
      ]

  settle-creates :
      (call : Call) (now code : String) (input : CreateInput) (registry : Registry)
      (request : Request) (answer : Answer)
      → IsCreation call input
      → validate_create_input input ≡ none
      → lookup input.job_id registry ≡ none
      → Effect call registry
          (settle is_low_signal_text decide wrap_browser_first_run_input now code
            (base_job now input)
            registry
            request
            answer).registry
  unfolding settle
  settle-creates call now code input registry request (Answer.threw thrown) made valid free =
      Effect.stays
  settle-creates call now code input registry request (Answer.answered snapshot) made valid free =
      let job = base_job now input in
      elim (Bool-cases (validate_run_snapshot_identity job snapshot)) [
        | inl own ↦
            rw (settle, own)
              (Effect.creates now input _ made valid free
                (apply-IsKept is_low_signal_text decide now job snapshot own))
        | inr foreign ↦ rw (settle, foreign) Effect.stays
      ]

  pub perform-Effect :
      (call : Call) (registry : Registry) → Effect call registry (perform call registry).registry
  unfolding perform create_adapter_job read_adapter_job cancel_adapter_job
  perform-Effect (Call.create now runtime input) registry =
      let call = Call.create now runtime input in
      elim (Option-cases (validate_create_input input)) [
        | inr (code, invalid) ↦ rw (perform, create_adapter_job, invalid) Effect.stays
        | inl valid ↦ elim (Option-cases (lookup input.job_id registry)) [
          | inr (old, found) ↦ rw (perform, create_adapter_job, valid, found) Effect.stays
          | inl free ↦
              rw (perform, create_adapter_job, valid, free)
                (settle-creates call now _ input registry _ _ refl valid free)
        ]
      ]
  perform-Effect (Call.read now runtime job_id refresh) registry =
      let call = Call.read now runtime job_id refresh in
      elim (Option-cases (lookup job_id registry)) [
        | inl missing ↦ rw (perform, read_adapter_job, missing) Effect.stays
        | inr (old, found) ↦ elim (Bool-cases (not refresh || not (truthy old.openclaw_run_id))) [
          | inl quiet ↦ rw (perform, read_adapter_job, found, quiet) Effect.stays
          | inr asks ↦
              rw (perform, read_adapter_job, found, asks)
                (settle-changes call now _ job_id old registry _ _ found)
        ]
      ]
  perform-Effect (Call.cancel now runtime job_id) registry =
      let call = Call.cancel now runtime job_id in
      elim (Option-cases (lookup job_id registry)) [
        | inl missing ↦ rw (perform, cancel_adapter_job, missing) Effect.stays
        | inr (old, found) ↦ elim (Bool-cases (is_job_terminal old.status)) [
          | inl ended ↦ rw (perform, cancel_adapter_job, found, ended) Effect.stays
          | inr going ↦ elim (Bool-cases (truthy old.openclaw_run_id)) [
            | inl runs ↦
                rw (perform, cancel_adapter_job, found, going, runs)
                  (settle-changes call now _ job_id old registry _ _ found)
            | inr waits ↦
                elim (Bool-cases (can_transition_job_status old.status JobStatus.canceled)) [
                  | inl can ↦
                      rw (perform, cancel_adapter_job, found, going, waits, can)
                        (Effect.changes job_id old _ found (canceled-IsKept now old can))
                  | inr cannot ↦
                      rw (perform, cancel_adapter_job, found, going, waits, cannot) Effect.stays
                ]
          ]
        ]
      ]
