-- ===== src/Adapter/Registry/Again.antt =====
-- What a second creation does.
use mathlib.Core.Path.{subst}
use lanxin_claw.Shared.{
  String, ◌≡◌, refl, ap, ◌∙◌, inl, inr, Bool, true, not, ◌||◌, [], Option, none, some, arith, ◌==◌,
  eq_refl, lookup, insert, lookup-insert_self, Bool-cases, Option-cases,
}
use lanxin_claw.Store.Types.{Purpose}
use lanxin_claw.Adapter.Snapshot.{AdapterJob, JobDecision, RunSnapshot, apply_run_snapshot_to_job}
use lanxin_claw.Adapter.Registry.Keys.{validate_run_snapshot_identity}
use lanxin_claw.Adapter.Registry.Operations.{
  CreateInput, Request, Answer, JobResult, Registry, Reply, base_job, validate_create_input,
  purpose_of, same_purpose, idempotent_reuse, settle, create_adapter_job,
}
use lanxin_claw.Adapter.Registry.Steps.{IsKept, Call, perform, perform-Effect, apply-IsKept}
use lanxin_claw.Adapter.Registry.Overlap.{Moment, IsUntaken, Steps, steps-IsStored}
use lanxin_claw.Adapter.Registry.Kept.{IsKeyed, effect-IsKeyed}

same_purpose_refl : (p : Purpose) → same_purpose p p ≡ true
same_purpose_refl Purpose.execution = refl
same_purpose_refl Purpose.exploration = refl

-- The job is one that the input may be answered with.
abbrev IsReusable : CreateInput → AdapterJob → Type 0
IsReusable input job = idempotent_reuse job input ≡ JobResult.done job

kept-IsReusable :
    (now : String) (input : CreateInput) (job : AdapterJob)
    → IsKept (base_job now input) job
    → IsReusable input job
unfolding idempotent_reuse
kept-IsReusable now input job kept =
    rw
      (
        kept.affair_id,
        kept.goal,
        kept.purpose,
        eq_refl input.affair_id,
        eq_refl input.goal,
        same_purpose_refl (purpose_of input.purpose),
      )
      refl

later-IsReusable :
    (input : CreateInput) (job later : AdapterJob)
    → IsReusable input job
    → IsKept job later
    → IsReusable input later
unfolding idempotent_reuse
later-IsReusable input job later reusable kept =
    ground (arith, kept.affair_id, kept.goal, kept.purpose)

-- What a creation that was answered with a job leaves behind.
record IsCreated (input : CreateInput) (job : AdapterJob) (registry : Registry) : Type 0 where
  valid : validate_create_input input ≡ none
  found : lookup input.job_id registry ≡ some job
  reusable : IsReusable input job

done_job : (otherwise : AdapterJob) → JobResult → AdapterJob
done_job otherwise (JobResult.done job) = job
done_job otherwise _ = otherwise

done_injective : (a b : AdapterJob) → JobResult.done a ≡ JobResult.done b → a ≡ b
unfolding done_job
done_injective a b h = ap (done_job a) h

reuse-same :
    (old : AdapterJob) (input : CreateInput) (job : AdapterJob)
    → idempotent_reuse old input ≡ JobResult.done job
    → old ≡ job
unfolding idempotent_reuse
reuse-same old input job h =
    elim (Bool-cases (
      not (old.affair_id == input.affair_id)
      || not (old.goal == input.goal)
      || not (same_purpose (purpose_of old.purpose) (purpose_of input.purpose)))) [
        | inl conflict ↦ ground arith
        | inr agrees ↦
            let same : JobResult.done old ≡ JobResult.done job =
              rw (idempotent_reuse, agrees) at (h) in
            done_injective old job same
      ]

-- The answer to a creation that is sent again.
pub record IsReused (outcome : Reply) (job : AdapterJob) (registry : Registry) : Type 0 where
  pub own : AdapterJob
  pub kept : IsKept job own
  pub result : outcome.result ≡ JobResult.done own
  pub unchanged : outcome.registry ≡ registry
  pub asked : outcome.asked ≡ []

module _ (is_low_signal_text : Option String → Bool)
    (decide : AdapterJob → RunSnapshot → JobDecision)
    (wrap_browser_first_run_input : String → String) where
  settle-IsCreated :
      (now code : String) (input : CreateInput) (registry : Registry) (request : Request)
      (answer : Answer) (job : AdapterJob)
      → validate_create_input input ≡ none
      → let outcome =
          settle is_low_signal_text decide wrap_browser_first_run_input now code
            (base_job now input)
            registry
            request
            answer in
        outcome.result ≡ JobResult.done job → IsCreated input job outcome.registry
  unfolding settle
  settle-IsCreated now code input registry request (Answer.threw thrown) job valid h = ground arith
  settle-IsCreated now code input registry request (Answer.answered snapshot) job valid h =
      let base = base_job now input in
      elim (Bool-cases (validate_run_snapshot_identity base snapshot)) [
        | inr foreign ↦ ground arith
        | inl own ↦
            let later = apply_run_snapshot_to_job is_low_signal_text decide now base snapshot in
            let kept = apply-IsKept is_low_signal_text decide now base snapshot own in
            let same : JobResult.done later ≡ JobResult.done job = rw (settle, own) at (h) in
            rw (settle, own)
              (subst (λ j. IsCreated input j (insert later.job_id later registry))
                (done_injective later job same)
                (record {
                  valid = valid;
                  found =
                      subst (λ k. lookup k (insert later.job_id later registry) ≡ some later)
                        kept.job_id (lookup-insert_self later.job_id later registry);
                  reusable = kept-IsReusable now input later kept;
                }))
      ]

  create-IsCreated :
      (now : String) (runtime : Request → Answer) (input : CreateInput) (registry : Registry)
      (job : AdapterJob)
      → let outcome =
          create_adapter_job is_low_signal_text decide wrap_browser_first_run_input now runtime
            input registry in
        outcome.result ≡ JobResult.done job → IsCreated input job outcome.registry
  unfolding create_adapter_job
  create-IsCreated now runtime input registry job h =
      elim (Option-cases (validate_create_input input)) [
        | inr (wrong, invalid) ↦ ground arith
        | inl valid ↦ elim (Option-cases (lookup input.job_id registry)) [
          | inl free ↦
              let settled = rw (create_adapter_job, valid, free) at (h) in
              rw (create_adapter_job, valid, free)
                (settle-IsCreated now _ input registry _ _ job valid settled)
          | inr (old, found) ↦
              let reused : idempotent_reuse old input ≡ JobResult.done job =
                rw (create_adapter_job, valid, found) at (h) in
              let same = reuse-same old input job reused in
              rw (create_adapter_job, valid, found)
                (record {
                  valid = valid;
                  found = found ∙ ap (λ j. some j) same;
                  reusable = subst (λ j. idempotent_reuse j input ≡ JobResult.done job) same reused;
                })
        ]
      ]

  again-IsReused :
      (now : String) (runtime : Request → Answer) (input : CreateInput) (registry : Registry)
      (job own : AdapterJob)
      → IsKept job own
      → IsCreated input own registry
      → IsReused
          (create_adapter_job is_low_signal_text decide wrap_browser_first_run_input now runtime
            input registry)
          job
          registry
  unfolding create_adapter_job
  again-IsReused now runtime input registry job own kept created =
      rw (create_adapter_job, created.valid, created.found)
        (record {
          own = own;
          kept = kept;
          result = created.reusable;
          unchanged = refl;
          asked = refl;
        })

  -- After a creation was answered with a job, the same creation is answered with that job, moved on,
  -- whatever calls came between, overlapping reads and cancellations too, if no call about the job was
  -- under way at the first creation: the register stays as it is and the runtime is not asked.
  pub create_once :
      (now later_now : String) (runtime later_runtime : Request → Answer) (input : CreateInput)
      (m m' : Moment) (job : AdapterJob)
      → IsKeyed m.registry
      → IsUntaken input.job_id m
      → let first =
          perform is_low_signal_text decide wrap_browser_first_run_input
            (Call.create now runtime input)
            m.registry in
        first.result ≡ JobResult.done job
        → Steps is_low_signal_text decide wrap_browser_first_run_input
            (record m { registry = first.registry })
            m'
        → IsReused
            (perform is_low_signal_text decide wrap_browser_first_run_input
              (Call.create later_now later_runtime input)
              m'.registry)
            job
            m'.registry
  unfolding perform
  create_once now later_now runtime later_runtime input m m' job keyed untaken h steps =
      let call = Call.create now runtime input in
      let created = create-IsCreated now runtime input m.registry job h in
      let effect =
        perform-Effect is_low_signal_text decide wrap_browser_first_run_input call m.registry in
      let stored =
        steps-IsStored is_low_signal_text decide wrap_browser_first_run_input _ m' input.job_id job
          (effect-IsKeyed call m.registry _ effect keyed) created.found untaken steps in
      again-IsReused later_now later_runtime input _ job stored.job stored.kept (record {
        valid = created.valid;
        found = stored.found;
        reusable = later-IsReusable input job stored.job created.reusable stored.kept;
      })
