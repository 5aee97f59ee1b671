-- ===== src/Adapter/Registry/Refused.antt =====
-- What a refusal leaves.
use lanxin_claw.Shared.{
  String, ◌≡◌, refl, inl, inr, Bool, not, ◌||◌, Option, arith, truthy, lookup, Bool-cases,
  Option-cases,
}
use lanxin_claw.Adapter.Snapshot.{AdapterJob, JobDecision, RunSnapshot, is_job_terminal}
use lanxin_claw.Adapter.Registry.Operations.{
  CreateInput, Request, Answer, JobResult, Registry, Reply, base_job, validate_create_input, settle,
  create_adapter_job, read_adapter_job, cancel_adapter_job,
}
use lanxin_claw.Adapter.Registry.Steps.{Call, perform}

-- A refusal leaves the register as it was.
abbrev IsUnchanged : Registry → Reply → Type 0
IsUnchanged registry outcome =
    (code : String) (retryable : Bool)
    → outcome.result ≡ JobResult.refused code retryable
    → outcome.registry ≡ registry

module _ (is_low_signal_text : Option String → Bool)
    (decide : AdapterJob → RunSnapshot → JobDecision)
    (wrap_browser_first_run_input : String → String) where
  settle-IsUnchanged :
      (now fallback : String) (job : AdapterJob) (registry : Registry) (request : Request)
      (answer : Answer)
      → IsUnchanged registry (
          settle is_low_signal_text decide wrap_browser_first_run_input now fallback job registry
            request answer)
  unfolding settle
  settle-IsUnchanged now fallback job registry request (Answer.threw thrown) code retryable h = refl
  settle-IsUnchanged now fallback job registry request (Answer.answered snapshot) code retryable h =
      ground arith

  create-IsUnchanged :
      (now : String) (runtime : Request → Answer) (input : CreateInput) (registry : Registry)
      → IsUnchanged registry (
          create_adapter_job is_low_signal_text decide wrap_browser_first_run_input now runtime
            input registry)
  unfolding create_adapter_job
  create-IsUnchanged now runtime input registry =
      elim (Option-cases (validate_create_input input)) [
        | inr (wrong, invalid) ↦ rw (create_adapter_job, invalid) (λ code retryable h. refl)
        | inl valid ↦ elim (Option-cases (lookup input.job_id registry)) [
          | inr (old, found) ↦ rw (create_adapter_job, valid, found) (λ code retryable h. refl)
          | inl free ↦
              rw (create_adapter_job, valid, free)
                (settle-IsUnchanged now _ (base_job now input) registry _ _)
        ]
      ]

  read-IsUnchanged :
      (now : String) (runtime : Request → Answer) (id : String) (refresh : Bool)
      (registry : Registry)
      → IsUnchanged registry (
          read_adapter_job is_low_signal_text decide wrap_browser_first_run_input now runtime id
            refresh registry)
  unfolding read_adapter_job
  read-IsUnchanged now runtime id refresh registry = elim (Option-cases (lookup id registry)) [
    | inl missing ↦ rw (read_adapter_job, missing) (λ code retryable h. refl)
    | inr (old, found) ↦ elim (Bool-cases (not refresh || not (truthy old.openclaw_run_id))) [
      | inl quiet ↦ rw (read_adapter_job, found, quiet) (λ code retryable h. refl)
      | inr asks ↦ rw (read_adapter_job, found, asks) (settle-IsUnchanged now _ old registry _ _)
    ]
  ]

  cancel-IsUnchanged :
      (now : String) (runtime : Request → Answer) (id : String) (registry : Registry)
      → IsUnchanged registry (
          cancel_adapter_job is_low_signal_text decide wrap_browser_first_run_input now runtime id
            registry)
  unfolding cancel_adapter_job
  cancel-IsUnchanged now runtime id registry = elim (Option-cases (lookup id registry)) [
    | inl missing ↦ rw (cancel_adapter_job, missing) (λ code retryable h. refl)
    | inr (old, found) ↦ elim (Bool-cases (is_job_terminal old.status)) [
      | inl ended ↦ rw (cancel_adapter_job, found, ended) (λ code retryable h. refl)
      | inr going ↦ elim (Bool-cases (truthy old.openclaw_run_id)) [
        | inl runs ↦
            rw (cancel_adapter_job, found, going, runs) (settle-IsUnchanged now _ old registry _ _)
        | inr waits ↦
            rw (cancel_adapter_job, found, going, waits) (λ code retryable h. ground arith)
      ]
    ]
  ]

  -- A refused call changes nothing: whichever of the three operations it was, and whatever the
  -- reason of the refusal, a check of its own, an error of the runtime or a snapshot that belongs to
  -- another job, the register is what it was before.
  pub refused_unchanged :
      (call : Call) (registry : Registry) (code : String) (retryable : Bool)
      → let outcome =
          perform is_low_signal_text decide wrap_browser_first_run_input call registry in
        outcome.result ≡ JobResult.refused code retryable → outcome.registry ≡ registry
  unfolding perform
  refused_unchanged (Call.create now runtime input) registry =
      create-IsUnchanged now runtime input registry
  refused_unchanged (Call.read now runtime id refresh) registry =
      read-IsUnchanged now runtime id refresh registry
  refused_unchanged (Call.cancel now runtime id) registry =
      cancel-IsUnchanged now runtime id registry
