-- ===== src/Closing/Accepted.antt =====
-- What an accepted close command has behind it.
use lanxin_claw.Shared.{
  is_missing, String, ◌≡◌, ◌≢◌, refl, ap, ◌⊎◌, inl, inr, true, false, not, ◌||◌, List, [], ◌∷◌,
  Option, none, some, arith, if◌then◌else◌, ◌==◌, eq_iff, lookup, any, same, eq_of_same, same_text,
  All, Option-cases, Bool-cases,
}
use lanxin_claw.States.Affair.{AffairStatus, affair_status_enum, can_transition_affair_status}
use lanxin_claw.States.Job.{JobStatus, job_status_enum}
use lanxin_claw.Store.Types.{Affair, Job, Purpose, EvidenceQuality, State}
use lanxin_claw.Closing.Precheck.{
  CloseStatus, AffairClose, is_terminal_job, has_acceptance_evidence, job_of, is_active_job_of,
  precheck_acceptance, precheck_found, precheck_affair_close,
}

-- A job of the affair that is done and has a result to show.
pub record IsEvidence (affair : Affair) (job : Job) : Type 0 where
  pub ours : job.affair_id ≡ affair.affair_id
  pub done : job.status ≡ JobStatus.completed
  pub executed : job.purpose ≢ some Purpose.exploration
  pub shown : job.evidence_quality ≡ some EvidenceQuality.present
  pub digest : is_missing job.result_digest ≡ false

has_acceptance-IsEvidence :
    (affair : Affair) (job : Job)
    → has_acceptance_evidence (some job) affair.affair_id ≡ true
    → IsEvidence affair job
unfolding has_acceptance_evidence
has_acceptance-IsEvidence affair job h = record {
  ours = ground (arith, eq_iff job.affair_id affair.affair_id);
  done = eq_of_same job.status JobStatus.completed (ground arith);
  executed = λ e. ground arith;
  shown = ground arith;
  digest = ground arith;
}

-- Every job of the affair has come to an end.
abbrev pub HasEnded : String → String × Job → Type 0
HasEnded affair_id (id, job) = (job.affair_id ≢ affair_id) ⊎ (is_terminal_job job.status ≡ true)

any-HasEnded :
    (affair_id : String) (jobs : List (String × Job))
    → any (is_active_job_of affair_id) jobs ≡ false
    → All (HasEnded affair_id) jobs
any-HasEnded affair_id [] h = tt
any-HasEnded affair_id ((id, job) ∷ rest) h = (
  elim (Bool-cases (job.affair_id == affair_id)) [
    | inl ours ↦ inr (ground arith)
    | inr other ↦ inl (λ e. ground (arith, eq_iff job.affair_id affair_id))
  ],
  any-HasEnded affair_id rest (ground arith),
)

-- What stands behind an accepted command to close.
pub record IsAcceptable (state : State) (command : AffairClose) : Type 0 where
  pub affair : Affair
  pub job : Job
  pub found : lookup command.affair_id state.affairs ≡ some affair
  pub waiting : affair.status ≡ AffairStatus.waiting_acceptance
  pub current : affair.current_job_id ≡ command.expected_current_job_id
  pub summary : is_missing command.acceptance_summary ≡ false
  pub job_found : job_of affair state ≡ some job
  pub evidence : IsEvidence affair job
  pub ended : All (HasEnded affair.affair_id) state.jobs

same_text-eq : (a b : Option String) → same_text a b ≡ true → a ≡ b
same_text-eq none none h = refl
same_text-eq (some a) (some b) h = ap some ((eq_iff a b).0 h)
same_text-eq none (some b) h = ground arith
same_text-eq (some a) none h = ground arith

precheck_found-acceptance :
    (state : State) (affair : Affair) (command : AffairClose)
    → command.status ≡ CloseStatus.closed
    → precheck_found state affair command ≡ none
    → (same_text affair.current_job_id command.expected_current_job_id ≡ true)
      × (precheck_acceptance state affair command ≡ none)
precheck_found-acceptance state affair command closing h = ground arith

acceptance_parts :
    (state : State) (affair : Affair) (command : AffairClose)
    → precheck_acceptance state affair command ≡ none
    → (same affair.status AffairStatus.waiting_acceptance ≡ true)
      × (is_missing command.acceptance_summary ≡ false)
      × (has_acceptance_evidence (job_of affair state) affair.affair_id ≡ true)
      × (any (is_active_job_of affair.affair_id) state.jobs ≡ false)
unfolding precheck_acceptance
acceptance_parts state affair command h = ground arith

no_evidence : (affair_id : String) → has_acceptance_evidence none affair_id ≡ false
unfolding has_acceptance_evidence
no_evidence affair_id = refl

-- A command to close an affair passes the checks only if the affair waits for acceptance, its
-- current job is the one the command expects, the command says why the result is accepted, the
-- current job is done with a result to show, and no job of the affair can still run.
pub precheck_close-IsAcceptable :
    (state : State) (command : AffairClose)
    → command.status ≡ CloseStatus.closed
    → precheck_affair_close state command ≡ none
    → IsAcceptable state command
unfolding precheck_affair_close
precheck_close-IsAcceptable state command closing h =
    elim (Option-cases (lookup command.affair_id state.affairs)) [
      | inl missing ↦ ground arith
      | inr (affair, found) ↦
          let (current, accepted) =
            precheck_found-acceptance state affair command closing (ground (arith, found)) in
          let (waiting, summary, evidence, ended) =
            acceptance_parts state affair command accepted in
          elim (Option-cases (job_of affair state)) [
            | inl absent ↦ ground (arith, no_evidence affair.affair_id)
            | inr (job, there) ↦ record {
              affair = affair;
              job = job;
              found = found;
              waiting = eq_of_same affair.status AffairStatus.waiting_acceptance waiting;
              current = same_text-eq affair.current_job_id command.expected_current_job_id current;
              summary = summary;
              job_found = there;
              evidence = has_acceptance-IsEvidence affair job (rw there at evidence);
              ended = any-HasEnded affair.affair_id state.jobs ended;
            }
          ]
    ]

-- A command to cancel an affair that is found passes just where its current job is the expected one
-- and it is neither closed nor canceled: the table lets every other status be canceled.
pub precheck_cancel_branches :
    (state : State) (command : AffairClose) (affair : Affair)
    → command.status ≡ CloseStatus.canceled
    → lookup command.affair_id state.affairs ≡ some affair
    → precheck_affair_close state command ≡ (
        if not (same_text affair.current_job_id command.expected_current_job_id)
        then some "affair_current_job_changed"
        else if same affair.status AffairStatus.closed || same affair.status AffairStatus.canceled
        then some "affair_close_rejected"
        else none)
unfolding precheck_affair_close can_transition_affair_status
precheck_cancel_branches state command affair canceling found = ground arith
