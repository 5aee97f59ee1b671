-- ===== src/Adapter/Registry/Origins.antt =====
-- Where a registered job comes from.
use mathlib.Core.Path.{subst}
use lanxin_claw.Shared.{
  String, ◌≡◌, sym, ap, ◌∙◌, ◌⊎◌, inl, inr, Bool, List, [], ◌∷◌, Option, none, some, arith, ◌==◌,
  lookup, insert, Bool-cases, Reach,
}
use lanxin_claw.States.Job.{JobStatus, can_transition_job_status}
use lanxin_claw.Adapter.Snapshot.{AdapterJob, JobDecision, RunSnapshot}
use lanxin_claw.Adapter.Registry.Operations.{CreateInput, Registry, base_job, validate_create_input}
use lanxin_claw.Adapter.Registry.Steps.{IsKept, Call, IsCreation, Effect, perform-Effect}
use lanxin_claw.Adapter.Registry.Kept.{IsKept-trans, hit, missed, perform_all}

-- One of the calls creates from this input.
abbrev pub IsCreatedBy : List Call → CreateInput → Type 0
IsCreatedBy [] input = ⊥
IsCreatedBy (call ∷ rest) input = IsCreation call input ⊎ IsCreatedBy rest input

-- A job that a valid input was accepted for, as it was stored and moved on.
record Origin (Accepted : CreateInput → Type 0) (job : AdapterJob) : Type 0 where
  input : CreateInput
  now : String
  accepted : Accepted input
  valid : validate_create_input input ≡ none
  kept : IsKept (base_job now input) job

abbrev HasOrigins : (CreateInput → Type 0) → Registry → Type 0
HasOrigins Accepted registry =
    (id : String) (job : AdapterJob) → lookup id registry ≡ some job → Origin Accepted job

weaken :
    {P Q : CreateInput → Type 0} (job : AdapterJob)
    → ((input : CreateInput) → P input → Q input)
    → Origin P job
    → Origin Q job
weaken job up o = record {
  input = o.input;
  now = o.now;
  accepted = up o.input o.accepted;
  valid = o.valid;
  kept = o.kept;
}

stored :
    (P : AdapterJob → Type 0) (registry : Registry) (later : AdapterJob)
    → ((id : String) (job : AdapterJob) → lookup id registry ≡ some job → P job)
    → P later
    → (id : String) (job : AdapterJob) → lookup id (insert later.job_id later registry) ≡ some job
    → P job
stored P registry later old new id job h = elim (Bool-cases (later.job_id == id)) [
  | inl same ↦
      subst P
        (ap (λ o. elim o [ none ↦ later | some x ↦ x ]) (sym (hit later id registry same) ∙ h)) new
  | inr other ↦ old id job (sym (missed later id registry other) ∙ h)
]

effect-HasOrigins :
    (P : CreateInput → Type 0) (call : Call) (registry later : Registry)
    → Effect call registry later
    → HasOrigins P registry
    → HasOrigins (λ input. IsCreation call input ⊎ P input) later
effect-HasOrigins P call registry later Effect.stays origins =
    λ id job h. weaken job (λ input p. inr p) (origins id job h)
effect-HasOrigins P call registry later (Effect.changes key old new found kept) origins =
    let o = origins key old found in
    stored (Origin (λ input. IsCreation call input ⊎ P input)) registry new
      (λ id job h. weaken job (λ input p. inr p) (origins id job h))
      (record {
        input = o.input;
        now = o.now;
        accepted = inr o.accepted;
        valid = o.valid;
        kept = IsKept-trans _ old new o.kept kept;
      })
effect-HasOrigins P call registry later (Effect.creates now input new made valid free kept)
      origins =
    stored (Origin (λ input. IsCreation call input ⊎ P input)) registry new
      (λ id job h. weaken job (λ input p. inr p) (origins id job h))
      (record { input = input; now = now; accepted = inl made; valid = valid; kept = kept })

nothing : HasOrigins (λ input. ⊥) []
unfolding lookup
nothing id job h = ground arith

-- A job with what one of the calls has asked for.
pub record IsFrom (calls : List Call) (job : AdapterJob) : Type 0 where
  pub input : CreateInput
  pub created : IsCreatedBy calls input
  pub valid : validate_create_input input ≡ none
  pub job_id : job.job_id ≡ input.job_id
  pub affair_id : job.affair_id ≡ input.affair_id
  pub goal : job.goal ≡ input.goal
  pub permissions : job.allowed_permissions ≡ input.allowed_permissions
  pub status : Reach can_transition_job_status JobStatus.queued job.status

module _ (is_low_signal_text : Option String → Bool)
    (decide : AdapterJob → RunSnapshot → JobDecision)
    (wrap_browser_first_run_input : String → String) where
  perform_all-HasOrigins :
      (P : CreateInput → Type 0) (calls : List Call) (registry : Registry)
      → HasOrigins P registry
      → HasOrigins
          (λ input. IsCreatedBy calls input ⊎ P input)
          (perform_all is_low_signal_text decide wrap_browser_first_run_input calls registry)
  unfolding perform_all
  perform_all-HasOrigins P [] registry origins id job h =
      weaken job (λ input p. inr p) (origins id job h)
  perform_all-HasOrigins P (call ∷ rest) registry origins id job h =
      weaken job
        (λ input p. elim p [
          | inl later ↦ inl (inr later)
          | inr (inl made) ↦ inl (inl made)
          | inr (inr old) ↦ inr old
        ])
        (perform_all-HasOrigins (λ input. IsCreation call input ⊎ P input) rest _
          (effect-HasOrigins P call registry _
            (perform-Effect is_low_signal_text decide wrap_browser_first_run_input call registry)
            origins)
          id job h)

  -- No call widens what a job may do: in a register that any calls have filled one after the other, every job comes from
  -- a valid creation among them, and has the id, the affair, the goal and exactly the permissions
  -- that were given there, and a status that follows from queued along the table.
  pub registered-IsFrom :
      (calls : List Call) (id : String) (job : AdapterJob)
      → lookup id (perform_all is_low_signal_text decide wrap_browser_first_run_input calls [])
        ≡ some job
      → IsFrom calls job
  registered-IsFrom calls id job h =
      let o = perform_all-HasOrigins (λ input. ⊥) calls [] nothing id job h in
      record {
        input = o.input;
        created = elim o.accepted [ inl made ↦ made | inr never ↦ absurd never ];
        valid = o.valid;
        job_id = o.kept.job_id;
        affair_id = o.kept.affair_id;
        goal = o.kept.goal;
        permissions = o.kept.permissions;
        status = o.kept.status;
      }
