-- ===== src/Closing/Answers.antt =====
-- A request that is sent again to the coordinator.
use lanxin_claw.Shared.{
  String, ◌≡◌, refl, ap, inl, inr, Bool, true, false, ◌∷◌, Option, some, arith, lookup, Bool-cases,
  Option-cases,
}
use lanxin_claw.Store.Types.{Job}
use lanxin_claw.Closing.Coordinator.{
  ActionResult, ActionOutcome, ActionRequest, ActionRecord, Mirror, World, same_fingerprint,
  set_action, persist, validate_affair_close_payload, is_closing,
}
use lanxin_claw.Closing.Execute.{
  Submitted, is_running, settled, new_record, admit, submit_new, submit_known, submit, run,
  complete, execute,
}
use lanxin_claw.Closing.Committed.{IsActionKeyed, Remembers, run-Remembers, same_fingerprint_refl}

module _ (can_write : Mirror → Bool) (cancel_job : Option (Job → World → Option World))
    (key_of : String → String → String) (request : ActionRequest) where
  abbrev key : String
  key = key_of request.actor_id request.request_id

  -- What the state remembers is answered, and nothing else happens.
  Remembers-execute :
      (w : World) (result : ActionResult)
      → validate_affair_close_payload request.command ≡ true
      → Remembers can_write key request.command result w
      → execute can_write cancel_job key_of request w ≡ (some (ActionOutcome.ok result true), w)
  unfolding execute submit submit_known
  Remembers-execute w result valid (action, found, same, (duplicate, answer)) =
      rw (valid, found, same, answer) refl

  -- An admitted request that is answered with a result is remembered.
  admit-Remembers :
      (action : ActionRecord) (existed : Bool) (w : World) (result : ActionResult)
      (duplicate : Bool) (w' : World)
      → action.key ≡ key
      → same_fingerprint action.command request.command ≡ true
      → complete can_write cancel_job (admit can_write action existed w)
        ≡ (some (ActionOutcome.ok result duplicate), w')
      → Remembers can_write key request.command result w'
  unfolding admit
  admit-Remembers action existed w result duplicate w' named same h =
      elim (Bool-cases (can_write (set_action action w).mirror)) [
        | inr refused ↦ ground arith
        | inl writes ↦
            let saved = set_action action w in
            let w₁ : World = record saved {
              disk = saved.mirror;
              running = action.key ∷ saved.running;
            } in
            let (outcome, w₂) = run can_write cancel_job action w₁ in
            let ended : complete can_write cancel_job (Submitted.queued action, w₁)
                ≡ (some (ActionOutcome.ok result duplicate), w') =
              rw (admit, persist, writes) at h in
            let ran : run can_write cancel_job action w₁ ≡ (ActionOutcome.ok result duplicate, w₂) =
              ground arith in
            let left : w₂.mirror ≡ w'.mirror =
              ap (λ (r : Option ActionOutcome × World). r.1.mirror) ended in
            rw (← left, ← named)
              (run-Remembers can_write cancel_job action request.command w₁ result duplicate w₂ same
                ran)
      ]

  new-Remembers :
      (w : World) (result : ActionResult) (duplicate : Bool) (w' : World)
      → complete can_write cancel_job (submit_new can_write key request w)
        ≡ (some (ActionOutcome.ok result duplicate), w')
      → Remembers can_write key request.command result w'
  unfolding submit_new
  new-Remembers w result duplicate w' h = elim (Bool-cases (is_running key w.running)) [
    | inl running ↦ ground arith
    | inr idle ↦ elim (Bool-cases (is_closing request.command.affair_id w.mirror.actions)) [
      | inl closing ↦ ground arith
      | inr free ↦
          admit-Remembers (new_record key request) false w result duplicate w' refl
            (same_fingerprint_refl can_write request.command) (rw (submit_new, idle, free) at h)
    ]
  ]

  known-Remembers :
      (existing : ActionRecord) (w : World) (result : ActionResult) (duplicate : Bool) (w' : World)
      → lookup key w.mirror.actions ≡ some existing
      → existing.key ≡ key
      → complete can_write cancel_job (submit_known can_write key existing request w)
        ≡ (some (ActionOutcome.ok result duplicate), w')
      → Remembers can_write key request.command result w'
  unfolding submit_known
  known-Remembers existing w result duplicate w' found named h =
      elim (Bool-cases (same_fingerprint existing.command request.command)) [
        | inr other ↦ ground arith
        | inl same ↦ elim (Option-cases (settled existing)) [
          | inl pending ↦ elim (Bool-cases (is_running key w.running)) [
            | inl running ↦ ground arith
            | inr idle ↦
                admit-Remembers existing true w result duplicate w' named same
                  (rw (submit_known, same, pending, idle) at h)
          ]
          | inr (ActionOutcome.err code, answer) ↦ ground arith
          | inr (ActionOutcome.ok stored again, answer) ↦
              let kept : w ≡ w' = ground arith in
              let told : stored ≡ result = ground arith in
              rw (← kept, ← told) (existing, found, same, (again, answer))
        ]
      ]

  answered-Remembers :
      (w : World) (result : ActionResult) (duplicate : Bool) (w' : World)
      → IsActionKeyed can_write w.mirror.actions
      → execute can_write cancel_job key_of request w
        ≡ (some (ActionOutcome.ok result duplicate), w')
      → (validate_affair_close_payload request.command ≡ true)
        × Remembers can_write key request.command result w'
  unfolding execute submit
  answered-Remembers w result duplicate w' keyed h =
      elim (Bool-cases (validate_affair_close_payload request.command)) [
        | inr invalid ↦ ground arith
        | inl valid ↦ elim (Option-cases (lookup key w.mirror.actions)) [
          | inl new ↦
              (valid, new-Remembers w result duplicate w' (rw (execute, submit, valid, new) at h))
          | inr (existing, found) ↦ (
            valid,
            known-Remembers existing w result duplicate w' found (keyed key existing found)
                (rw (execute, submit, valid, found) at h),
          )
        ]
      ]

  -- A request that was answered with a result is answered with the same result when it is sent
  -- again, marked as a duplicate, and nothing is done for it a second time.
  pub execute-again :
      (w : World) (result : ActionResult) (duplicate : Bool) (w' : World)
      → IsActionKeyed can_write w.mirror.actions
      → execute can_write cancel_job key_of request w
        ≡ (some (ActionOutcome.ok result duplicate), w')
      → execute can_write cancel_job key_of request w' ≡ (some (ActionOutcome.ok result true), w')
  execute-again w result duplicate w' keyed h =
      let (valid, remembered) = answered-Remembers w result duplicate w' keyed h in
      Remembers-execute w' result valid remembered
