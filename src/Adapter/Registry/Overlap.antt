-- ===== src/Adapter/Registry/Overlap.antt =====
-- Calls of read-job.ts and cancel-job.ts that overlap: such a call takes the job from the register,
-- waits for the runtime, and then stores what it makes of the job that it took, whatever the register
-- holds by then.
use mathlib.Core.Path.{subst}
use lanxin_claw.Shared.{
  String, ◌≡◌, ◌≢◌, refl, sym, ap, ◌∙◌, ◌⊎◌, inl, inr, Bool, true, List, [], ◌∷◌, Option, none,
  some, arith, ◌==◌, eq_iff, truthy, lookup, insert, All, All-map, Memᴰ, Bool-cases,
}
use lanxin_claw.Adapter.Snapshot.{AdapterJob, JobDecision, RunSnapshot, apply_run_snapshot_to_job}
use lanxin_claw.Adapter.Registry.Keys.{validate_run_snapshot_identity}
use lanxin_claw.Adapter.Registry.Operations.{Request, Answer, Registry, settle}
use lanxin_claw.Adapter.Registry.Steps.{IsKept, Call, perform, perform-Effect, apply-IsKept}
use lanxin_claw.Adapter.Registry.Kept.{
  IsKept-refl, IsKept-trans, IsKeyed, IsStored, hit, missed, insert-IsKeyed, effect-IsKeyed,
  effect-IsStored,
}

-- The register, and the jobs that the calls under way have taken from it.
pub record Moment : Type 0 where
  pub registry : Registry
  pub taken : List AdapterJob

-- No call about the job is under way.
abbrev pub IsUntaken : String → Moment → Type 0
IsUntaken id m = All (λ job. job.job_id ≢ id) m.taken

-- The job under the id is one, moved on, and every call about it has taken it so.
record IsHeld (id : String) (old : AdapterJob) (m : Moment) : Type 0 where
  keyed : IsKeyed m.registry
  stored : IsStored id old m.registry
  taken : All (λ job. job.job_id ≡ id → IsKept old job) m.taken

All-found :
    (P : AdapterJob → Type 0) (jobs : List AdapterJob) (job : AdapterJob)
    → All P jobs
    → Memᴰ job jobs
    → P job
All-found P [] job all m = elim m [ ]
All-found P (first ∷ rest) job all (Memᴰ.head e) = subst P (sym e) all.0
All-found P (first ∷ rest) job all (Memᴰ.tail m) = All-found P rest job all.1 m

module _ (is_low_signal_text : Option String → Bool)
    (decide : AdapterJob → RunSnapshot → JobDecision)
    (wrap_browser_first_run_input : String → String) where
  -- What happens next: a call that nothing overlaps, the first half of a read or a cancellation of a
  -- job with a run, or the second half of one that is under way.
  pub data Step (m : Moment) : Moment → Type 0 where
    calls :
        (call : Call)
        → Step m (record m {
          registry =
              (perform is_low_signal_text decide wrap_browser_first_run_input call
                m.registry).registry;
        })
    takes :
        (key : String) (job : AdapterJob)
        → lookup key m.registry ≡ some job
        → truthy job.openclaw_run_id ≡ true
        → Step m (record m { taken = job ∷ m.taken })
    stores :
        (now code : String) (job : AdapterJob) (request : Request) (answer : Answer)
        → Memᴰ job m.taken
        → Step m (record m {
          registry =
              (settle is_low_signal_text decide wrap_browser_first_run_input now code job m.registry
                request answer).registry;
        })

  pub data Steps (m : Moment) : Moment → Type 0 where
    start : Steps m m
    then : {m₁ m₂ : Moment} → Steps m m₁ → Step m₁ m₂ → Steps m m₂

  -- Half a call stores nothing, or the job that it took, moved on.
  settle-stores :
      (now code : String) (job : AdapterJob) (registry : Registry) (request : Request)
      (answer : Answer)
      → let later =
          (settle is_low_signal_text decide wrap_browser_first_run_input now code job registry
            request answer).registry in
        (later ≡ registry)
        ⊎ ((next : AdapterJob) × (later ≡ insert next.job_id next registry) × IsKept job next)
  unfolding settle
  settle-stores now code job registry request (Answer.threw thrown) = inl refl
  settle-stores now code job registry request (Answer.answered snapshot) =
      elim (Bool-cases (validate_run_snapshot_identity job snapshot)) [
        | inr foreign ↦ inl (ground arith)
        | inl valid ↦ inr (
          apply_run_snapshot_to_job is_low_signal_text decide now job snapshot,
          ground arith,
          apply-IsKept is_low_signal_text decide now job snapshot valid,
        )
      ]

  insert-IsStored :
      (id : String) (old next : AdapterJob) (registry : Registry)
      → (next.job_id ≡ id → IsKept old next)
      → IsStored id old registry
      → IsStored id old (insert next.job_id next registry)
  insert-IsStored id old next registry kept stored = elim (Bool-cases (next.job_id == id)) [
    | inl same ↦ record {
      job = next;
      found = hit next id registry same;
      kept = kept ((eq_iff next.job_id id).0 same);
    }
    | inr other ↦ record {
      job = stored.job;
      found = missed next id registry other ∙ stored.found;
      kept = stored.kept;
    }
  ]

  step-IsHeld :
      (id : String) (old : AdapterJob) (m m' : Moment)
      → Step m m'
      → IsHeld id old m
      → IsHeld id old m'
  step-IsHeld id old m m' (Step.calls call) h =
      let effect =
        perform-Effect is_low_signal_text decide wrap_browser_first_run_input call m.registry in
      let next = effect-IsStored call m.registry _ id h.stored.job effect h.keyed h.stored.found in
      record {
        keyed = effect-IsKeyed call m.registry _ effect h.keyed;
        stored = record {
          job = next.job;
          found = next.found;
          kept = IsKept-trans old h.stored.job next.job h.stored.kept next.kept;
        };
        taken = h.taken;
      }
  step-IsHeld id old m m' (Step.takes key job found runs) h = record {
    keyed = h.keyed;
    stored = h.stored;
    taken = (
      (λ named.
          let at_id : lookup id m.registry ≡ some job =
            subst (λ k. lookup k m.registry ≡ some job) (sym (h.keyed key job found) ∙ named)
              found in
          let same : h.stored.job ≡ job =
            ap (λ o. elim o [ none ↦ job | some x ↦ x ]) (sym h.stored.found ∙ at_id) in
          subst (λ j. IsKept old j) same h.stored.kept),
      h.taken,
    );
  }
  step-IsHeld id old m m' (Step.stores now code job request answer under_way) h =
      let own = All-found (λ j. j.job_id ≡ id → IsKept old j) m.taken job h.taken under_way in
      elim (settle-stores now code job m.registry request answer) [
        | inl kept ↦ record { keyed = rw kept h.keyed; stored = rw kept h.stored; taken = h.taken }
        | inr (next, written, kept) ↦ record {
          keyed = rw written (insert-IsKeyed m.registry next h.keyed);
          stored = rw written (
              insert-IsStored id old next m.registry
                (λ named. IsKept-trans old job next (own (sym kept.job_id ∙ named)) kept) h.stored);
          taken = h.taken;
        }
      ]

  steps-IsHeld :
      (id : String) (old : AdapterJob) (m m' : Moment)
      → Steps m m'
      → IsHeld id old m
      → IsHeld id old m'
  steps-IsHeld id old m m' Steps.start h = h
  steps-IsHeld id old m m' (Steps.then {m₁} {m₂} steps step) h =
      step-IsHeld id old m₁ m' step (steps-IsHeld id old m m₁ steps h)

  -- A registered job about which no call is under way stays registered, whatever is created, read
  -- and canceled from then on, whatever the runtime answers, and also where reads and cancellations
  -- overlap: with its affair, its goal, its purpose and exactly its permissions, with its run once it
  -- has one, and with a status that follows along the table from the one it had at the start.
  -- Creations are not overlapped.
  pub steps-IsStored :
      (m m' : Moment) (id : String) (job : AdapterJob)
      → IsKeyed m.registry
      → lookup id m.registry ≡ some job
      → IsUntaken id m
      → Steps m m'
      → IsStored id job m'.registry
  steps-IsStored m m' id job keyed found untaken steps =
      (steps-IsHeld id job m m' steps (record {
        keyed = keyed;
        stored = record { job = job; found = found; kept = IsKept-refl job };
        taken =
            All-map (λ j. j.job_id ≢ id) (λ j. j.job_id ≡ id → IsKept job j) m.taken
              (λ j other named. absurd (other named)) untaken;
      })).stored
