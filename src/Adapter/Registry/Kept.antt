-- ===== src/Adapter/Registry/Kept.antt =====
-- What sequences of calls leave as it is.
use mathlib.Core.Path.{subst}
use lanxin_claw.Shared.{
  String, ◌≡◌, refl, sym, ap, ◌∙◌, inl, inr, Bool, true, false, List, [], ◌∷◌, Option, none, some,
  arith, ◌==◌, eq_iff, truthy, lookup, insert, lookup-insert, Bool-cases, Reach, here, next,
  Reach_induction,
}
use lanxin_claw.States.Job.{can_transition_job_status}
use lanxin_claw.Adapter.Snapshot.{AdapterJob, JobDecision, RunSnapshot}
use lanxin_claw.Adapter.Registry.Operations.{Registry}
use lanxin_claw.Adapter.Registry.Steps.{IsKept, Call, Effect, perform, perform-Effect}

pub IsKept-refl : (job : AdapterJob) → IsKept job job
IsKept-refl job = record {
  job_id = refl;
  affair_id = refl;
  goal = refl;
  purpose = refl;
  permissions = refl;
  status = here;
  run_id = λ given. refl;
}

pub IsKept-trans : (a b c : AdapterJob) → IsKept a b → IsKept b c → IsKept a c
IsKept-trans a b c h k = record {
  job_id = k.job_id ∙ h.job_id;
  affair_id = k.affair_id ∙ h.affair_id;
  goal = k.goal ∙ h.goal;
  purpose = k.purpose ∙ h.purpose;
  permissions = k.permissions ∙ h.permissions;
  status =
      Reach_induction (Reach can_transition_job_status a.status) (λ x y r s. next r s) k.status
        h.status;
  run_id = λ given. let run = h.run_id given in k.run_id (ap truthy run ∙ given) ∙ run;
}

-- Every job stands under its own id.
abbrev pub IsKeyed : Registry → Type 0
IsKeyed registry =
    (id : String) (job : AdapterJob) → lookup id registry ≡ some job → job.job_id ≡ id

-- The register has a job under the id that is the old one, moved on.
pub record IsStored (id : String) (old : AdapterJob) (registry : Registry) : Type 0 where
  pub job : AdapterJob
  pub found : lookup id registry ≡ some job
  pub kept : IsKept old job

pub hit :
    (later : AdapterJob) (id : String) (registry : Registry)
    → (later.job_id == id) ≡ true
    → lookup id (insert later.job_id later registry) ≡ some later
hit later id registry h = ground (arith, lookup-insert later.job_id id later registry)

pub missed :
    (later : AdapterJob) (id : String) (registry : Registry)
    → (later.job_id == id) ≡ false
    → lookup id (insert later.job_id later registry) ≡ lookup id registry
missed later id registry h = ground (arith, lookup-insert later.job_id id later registry)

-- Storing a job under its own id keeps the keys.
pub insert-IsKeyed :
    (registry : Registry) (later : AdapterJob)
    → IsKeyed registry
    → IsKeyed (insert later.job_id later registry)
insert-IsKeyed registry later keyed id job h = elim (Bool-cases (later.job_id == id)) [
  | inl same ↦ ground (arith, hit later id registry same, eq_iff later.job_id id)
  | inr other ↦ keyed id job (sym (missed later id registry other) ∙ h)
]

pub effect-IsKeyed :
    (call : Call) (registry later : Registry)
    → Effect call registry later
    → IsKeyed registry
    → IsKeyed later
effect-IsKeyed call registry later Effect.stays keyed = keyed
effect-IsKeyed call registry later (Effect.changes key old job found kept) keyed =
    insert-IsKeyed registry job keyed
effect-IsKeyed call registry later (Effect.creates now input job made valid free kept) keyed =
    insert-IsKeyed registry job keyed

pub effect-IsStored :
    (call : Call) (registry later : Registry) (id : String) (job : AdapterJob)
    → Effect call registry later
    → IsKeyed registry
    → lookup id registry ≡ some job
    → IsStored id job later
effect-IsStored call registry later id job Effect.stays keyed h = record {
  job = job;
  found = h;
  kept = IsKept-refl job;
}
effect-IsStored call registry later id job (Effect.changes key old new found kept) keyed h =
    elim (Bool-cases (new.job_id == id)) [
      | inr other ↦ record {
        job = job;
        found = missed new id registry other ∙ h;
        kept = IsKept-refl job;
      }
      | inl same ↦
          let named = (eq_iff new.job_id id).0 same in
          let at_key = sym (keyed key old found) ∙ sym kept.job_id ∙ named in
          let equal : old ≡ job =
            ap (λ o. elim o [ none ↦ old | some x ↦ x ])
              (sym found ∙ ap (λ k. lookup k registry) at_key ∙ h) in
          record {
            job = new;
            found = hit new id registry same;
            kept = subst (λ x. IsKept x new) equal kept;
          }
    ]
effect-IsStored call registry later id job (Effect.creates now input new made valid free kept) keyed
      h =
    elim (Bool-cases (new.job_id == id)) [
      | inr other ↦ record {
        job = job;
        found = missed new id registry other ∙ h;
        kept = IsKept-refl job;
      }
      | inl same ↦
          let named = sym kept.job_id ∙ (eq_iff new.job_id id).0 same in
          let free_id : lookup id registry ≡ none = rw named at free in ground arith
    ]

module _ (is_low_signal_text : Option String → Bool)
    (decide : AdapterJob → RunSnapshot → JobDecision)
    (wrap_browser_first_run_input : String → String) where
  -- The register after the calls, one after the other.
  unfoldable pub perform_all : List Call → Registry → Registry
  perform_all [] registry = registry
  perform_all (call ∷ rest) registry =
      perform_all rest
        (perform is_low_signal_text decide wrap_browser_first_run_input call registry).registry

  pub perform_all-IsKeyed :
      (calls : List Call) (registry : Registry)
      → IsKeyed registry
      → IsKeyed (perform_all calls registry)
  unfolding perform_all
  perform_all-IsKeyed [] registry keyed = keyed
  perform_all-IsKeyed (call ∷ rest) registry keyed = perform_all-IsKeyed rest _ (
      effect-IsKeyed call registry _
        (perform-Effect is_low_signal_text decide wrap_browser_first_run_input call registry) keyed)
