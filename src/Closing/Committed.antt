-- ===== src/Closing/Committed.antt =====
-- What an answer of the coordinator says of the saved state.
use lanxin_claw.Shared.{
  String, ◌≡◌, ◌≢◌, refl, ap, ◌∙◌, inl, inr, Bool, true, false, List, Option, none, some, arith,
  eq_refl, lookup, lookup-insert_self, Bool-cases, Option-cases, same_text_refl,
}
use lanxin_claw.States.Affair.{AffairStatus}
use lanxin_claw.Store.Types.{Affair, Job}
use lanxin_claw.Store.Legal.{IsKeyed}
use lanxin_claw.Closing.Precheck.{CloseStatus, AffairClose, precheck_affair_close}
use lanxin_claw.Closing.Accepted.{IsAcceptable, precheck_close-IsAcceptable}
use lanxin_claw.Closing.Coordinator.{
  jobs_of, ActionResult, ActionOutcome, ActionRecord, Mirror, World, same_fingerprint, set_affair,
  set_action,
}
use lanxin_claw.Closing.Execute.{
  settled, finish_rejected, result_of, committed_of, commit, checked_commit, prepare, run,
}

module _ (can_write : Mirror → Bool) where
  -- What stands behind a positive answer: the affair that was found, changed as the command says,
  -- and the record of the answer, in the state and on the disk.
  pub record IsCommitted (action : ActionRecord) (w : World) (result : ActionResult) (w' : World)
      : Type 0 where
    pub previous : Affair
    pub found : lookup action.command.affair_id w.mirror.store.affairs ≡ some previous
    pub answer : result ≡ result_of can_write previous action w
    pub written :
        w'.mirror
        ≡ (set_action (committed_of can_write action result) (set_affair result.affair w)).mirror
    pub saved : w'.disk ≡ w'.mirror

  commit_ok :
      (action : ActionRecord) (w : World) (result : ActionResult) (duplicate : Bool) (w' : World)
      → commit can_write action w ≡ (ActionOutcome.ok result duplicate, w')
      → IsCommitted action w result w'
  unfolding commit
  commit_ok action w result duplicate w' h =
      elim (Option-cases (lookup action.command.affair_id w.mirror.store.affairs)) [
        | inl missing ↦ ground arith
        | inr (previous, found) ↦ record {
          previous = previous;
          found = found;
          answer = ground arith;
          written = ground arith;
          saved = ground arith;
        }
      ]

  -- The command's affair is the one of the answer.
  committed-affair :
      (action : ActionRecord) (w : World) (result : ActionResult) (w' : World)
      → IsKeyed w.mirror.store.affairs
      → IsCommitted action w result w'
      → lookup action.command.affair_id w'.mirror.store.affairs ≡ some result.affair
  committed-affair action w result w' keyed c =
      let affairs = ap (λ (m : Mirror). m.store.affairs) c.written in
      let name : result.affair.affair_id ≡ action.command.affair_id =
        rw c.answer (keyed action.command.affair_id c.previous c.found) in
      let there = lookup-insert_self result.affair.affair_id result.affair w.mirror.store.affairs in
      cc

  commit_answers :
      (action : ActionRecord) (w : World) (previous : Affair)
      → ((mirror : Mirror) → can_write mirror ≡ true)
      → lookup action.command.affair_id w.mirror.store.affairs ≡ some previous
      → (commit can_write action w).0
        ≡ ActionOutcome.ok (result_of can_write previous action w) false
  unfolding commit
  commit_answers action w previous writes found =
      let result = result_of can_write previous action w in
      let saved =
        writes
          (set_action (committed_of can_write action result) (set_affair result.affair w)).mirror in
      ground arith

  rejected_not_ok :
      (action : ActionRecord) (code : String) (w : World) (result : ActionResult) (duplicate : Bool)
      (w' : World)
      → finish_rejected can_write action code w ≢ (ActionOutcome.ok result duplicate, w')
  unfolding finish_rejected
  rejected_not_ok action code w result duplicate w' h = ground arith

  checked_commit_ok :
      (cancel_job : Option (Job → World → Option World)) (action : ActionRecord) (w : World)
      (result : ActionResult) (duplicate : Bool) (w' : World)
      → checked_commit can_write cancel_job action w ≡ (ActionOutcome.ok result duplicate, w')
      → (precheck_affair_close w.mirror.store action.command ≡ none)
        × IsCommitted action w result w'
  checked_commit_ok cancel_job action w result duplicate w' h =
      elim (Option-cases (precheck_affair_close w.mirror.store action.command)) [
        | inl passed ↦
            (passed, commit_ok action w result duplicate w' (rw (checked_commit, passed) at h))
        | inr (code, refused) ↦
            absurd (
              rejected_not_ok action code w result duplicate w' (rw (checked_commit, refused) at h))
      ]

  module _ (cancel_job : Option (Job → World → Option World)) where
    -- An operation answers with a result only after the precheck passed in the state that it
    -- commits to, at the end of its preparation, and the result is saved.
    pub run_ok :
        (action : ActionRecord) (w : World) (result : ActionResult) (duplicate : Bool) (w' : World)
        → run can_write cancel_job action w ≡ (ActionOutcome.ok result duplicate, w')
        → ((prepare can_write cancel_job action w).1 ≡ true)
          × (precheck_affair_close
                (prepare can_write cancel_job action w).0.mirror.store
                action.command
              ≡ none)
          × IsCommitted action (prepare can_write cancel_job action w).0 result w'
    unfolding run
    run_ok action w result duplicate w' h =
        elim (Option-cases (precheck_affair_close w.mirror.store action.command)) [
          | inr (code, refused) ↦
              absurd (rejected_not_ok action code w result duplicate w' (rw (run, refused) at h))
          | inl passed ↦ elim (Bool-cases (prepare can_write cancel_job action w).1) [
            | inr thrown ↦ ground arith
            | inl stopped ↦
                let ended : checked_commit can_write cancel_job action
                      (prepare can_write cancel_job action w).0
                    ≡ (ActionOutcome.ok result duplicate, w') =
                  ground arith in
                let (checked, c) =
                  checked_commit_ok cancel_job action (prepare can_write cancel_job action w).0
                    result duplicate w' ended in
                (stopped, checked, c)
          ]
        ]

    -- If the coordinator answers a command to close with a result, then the affair was waiting for
    -- acceptance with all the evidence that the checks ask for, the affair is now stored as closed,
    -- the jobs are as they were, and the saved mirror is the state.
    pub run_closed-IsAcceptable :
        (action : ActionRecord) (w : World) (result : ActionResult) (duplicate : Bool) (w' : World)
        → action.command.status ≡ CloseStatus.closed
        → IsKeyed w.mirror.store.affairs
        → run can_write cancel_job action w ≡ (ActionOutcome.ok result duplicate, w')
        → IsAcceptable w.mirror.store action.command
          × (lookup action.command.affair_id w'.mirror.store.affairs ≡ some result.affair)
          × (result.affair.status ≡ AffairStatus.closed)
          × (w'.mirror.store.jobs ≡ w.mirror.store.jobs)
          × (w'.disk ≡ w'.mirror)
    run_closed-IsAcceptable action w result duplicate w' closing keyed h =
        let (_, passed, c) = run_ok action w result duplicate w' h in
        let same_world : (prepare can_write cancel_job action w).0 ≡ w = rw closing refl in
        (
          precheck_close-IsAcceptable w.mirror.store action.command closing
              (rw same_world at passed),
          committed-affair action (prepare can_write cancel_job action w).0 result w'
              (rw same_world keyed) c,
          rw (c.answer, closing) refl,
          ap (λ (m : Mirror). m.store.jobs) c.written
              ∙ ap (λ (v : World). v.mirror.store.jobs) same_world,
          c.saved,
        )

    -- Where the mirror can be saved, a command to close that passes the checks is answered with the
    -- stored affair, closed and otherwise as it was but for what it was blocked on, and with the jobs
    -- of the affair.
    pub run_closed_answers :
        (action : ActionRecord) (w : World)
        → ((mirror : Mirror) → can_write mirror ≡ true)
        → action.command.status ≡ CloseStatus.closed
        → precheck_affair_close w.mirror.store action.command ≡ none
        → (previous : Affair) × (lookup action.command.affair_id w.mirror.store.affairs
            ≡ some previous)
          × ((run can_write cancel_job action w).0
              ≡ ActionOutcome.ok
                  (record {
                    affair = record previous {
                      status = AffairStatus.closed;
                      blocked_reason = none;
                      resume_condition = none;
                    };
                    jobs = jobs_of previous.affair_id w.mirror.store.jobs;
                  })
                  false)
    unfolding run
    run_closed_answers action w writes closing passed =
        let found =
          (precheck_close-IsAcceptable w.mirror.store action.command closing passed).found in
        let previous =
          (precheck_close-IsAcceptable w.mirror.store action.command closing passed).affair in
        let committed = commit_answers action w previous writes found in
        (previous, found, ground (arith, closing))

  -- The records of the map stand under their own keys.
  abbrev pub IsActionKeyed : List (String × ActionRecord) → Type 0
  IsActionKeyed actions =
      (key : String) (action : ActionRecord) → lookup key actions ≡ some action → action.key ≡ key

  -- The answer that the state holds for a request.
  abbrev pub Remembers : String → AffairClose → ActionResult → World → Type 0
  Remembers key command result w =
      (action : ActionRecord) × (lookup key w.mirror.actions ≡ some action)
      × (same_fingerprint action.command command ≡ true)
      × ((duplicate : Bool) × (settled action ≡ some (ActionOutcome.ok result duplicate)))

  pub run-Remembers :
      (cancel_job : Option (Job → World → Option World)) (action : ActionRecord)
      (command : AffairClose) (w : World) (result : ActionResult) (duplicate : Bool) (w' : World)
      → same_fingerprint action.command command ≡ true
      → run can_write cancel_job action w ≡ (ActionOutcome.ok result duplicate, w')
      → Remembers action.key command result w'
  run-Remembers cancel_job action command w result duplicate w' same h =
      let (_, _, c) = run_ok cancel_job action w result duplicate w' h in
      let prepared = (prepare can_write cancel_job action w).0 in
      let actions = ap (λ (m : Mirror). m.actions) c.written in
      let there =
        lookup-insert_self action.key (committed_of can_write action result)
          prepared.mirror.actions in
      (committed_of can_write action result, rw actions there, same, (false, refl))

  pub same_fingerprint_refl : (c : AffairClose) → same_fingerprint c c ≡ true
  unfolding same_fingerprint
  same_fingerprint_refl c = ground (
    arith,
    eq_refl c.affair_id,
    same_text_refl c.expected_current_job_id,
    same_text_refl c.acceptance_summary,
    same_text_refl c.close_reason,
  )
