-- ===== src/Supervision/Safety.antt =====
-- What the supervision may write to the affairs of the store.
use lanxin_claw.Shared.{
  String, ◌≡◌, refl, ◌⊎◌, inl, inr, Bool, true, false, List, [], ◌∷◌, Option, none, some, arith,
  eq_iff, lookup, lookup-insert, Bool-cases, Option-cases, same_text_refl, same_refl,
}
use lanxin_claw.States.Affair.{affair_status_enum}
use lanxin_claw.States.Laws.{IsFinalAffair}
use lanxin_claw.Store.Types.{Affair, AffairMessage, Body, Envelope, State, ApplyResult}
use lanxin_claw.Store.Apply.{
  fail_with_ids, mark_seen, apply_affair, apply_validated_envelope,
  apply_protocol_envelope_to_state,
}
use lanxin_claw.Supervision.Types.{Action, Memory}
use lanxin_claw.Supervision.Tick.{run_supervision_tick}
use lanxin_claw.Closing.Precheck.{job_of}
use lanxin_claw.Supervision.Apply.{
  build_snapshot, mark_accepting, mark_stuck, is_unchanged, apply_only, broadcast, emit,
  patch_affair, apply_action, apply_supervision_actions, supervise_backend_affair, supervise_id,
  run_supervision_pass,
}

-- Whatever is closed or canceled after a change of the store was so before it, as a whole.
abbrev pub KeepsFinal : State → State → Type 0
KeepsFinal state state' =
    (id : String) (later : Affair)
    → lookup id state'.affairs ≡ some later
    → IsFinalAffair later.status
    → lookup id state.affairs ≡ some later

KeepsFinal-trans : (a b c : State) → KeepsFinal a b → KeepsFinal b c → KeepsFinal a c
KeepsFinal-trans a b c f g id later e final = f id later (g id later e final) final

-- An update that is not final is written, or nothing is.
apply_affair-KeepsFinal :
    (now : String) (next : Affair) (state : State)
    → ¬ IsFinalAffair next.status
    → KeepsFinal state (apply_affair now next state).0
unfolding apply_affair fail_with_ids
apply_affair-KeepsFinal now next state unfinished id later e final = ground (
  arith,
  lookup-insert next.affair_id id next state.affairs,
  eq_iff next.affair_id id,
  unfinished,
)

unchanged_self : (affair : Affair) → is_unchanged affair affair ≡ true
unchanged_self affair = ground (
  arith,
  same_refl affair.status,
  same_text_refl affair.blocked_reason,
  same_text_refl affair.resume_condition,
  same_text_refl affair.current_job_id,
)

-- A change that supervision makes: none at all, or to a status that is not final.
abbrev IsMark : (Affair → Affair) → Type 0
IsMark mutate =
    (affair : Affair) → (mutate affair ≡ affair) ⊎ (¬ IsFinalAffair (mutate affair).status)

mark_accepting-IsMark : (job_id : String) → IsMark (mark_accepting job_id)
unfolding mark_accepting
mark_accepting-IsMark job_id affair = ground arith

mark_stuck-IsMark : (job_id reason resume : String) → IsMark (mark_stuck job_id reason resume)
unfolding mark_stuck
mark_stuck-IsMark job_id reason resume affair = ground arith

KeepsFinal-refl : (state : State) → KeepsFinal state state
KeepsFinal-refl state id later e final = e

mark_seen-affairs :
    (now id : String) (r : State × ApplyResult) → (mark_seen now id r).0.affairs ≡ r.0.affairs
mark_seen-affairs now id (state, ApplyResult.done duplicate) = refl
mark_seen-affairs now id (state, ApplyResult.failed code) = refl

module _ (validate_message : Envelope → Bool) (new_id : State → String) (now : String)
    (on_protocol_broadcast : Option (Envelope → State → State)) where
  apply_only-KeepsFinal :
      (id : String) (next : Affair) (state : State)
      → ¬ IsFinalAffair next.status
      → KeepsFinal state (
          apply_only validate_message new_id now on_protocol_broadcast
            (record { message_id = id; body = Body.affair AffairMessage.update next })
            state)
  unfolding apply_protocol_envelope_to_state apply_validated_envelope fail_with_ids
  apply_only-KeepsFinal id next state unfinished key later e final = ground (
    arith,
    mark_seen-affairs now id (apply_affair now next state),
    apply_affair-KeepsFinal now next state unfinished key later,
  )

  -- What the shell's callback does with a message: it leaves the affairs, or applies the message.
  abbrev pub Sends : Option (Envelope → State → State) → Type 0
  Sends none = Unit
  Sends (some send) =
      (envelope : Envelope) (state : State)
      → ((send envelope state).affairs ≡ state.affairs)
        ⊎ ((send envelope state).affairs
            ≡ (apply_protocol_envelope_to_state validate_message now envelope state).0.affairs)

  broadcast-KeepsFinal :
      (callback : Option (Envelope → State → State))
      → Sends callback
      → (id : String) (next : Affair) (state : State) → ¬ IsFinalAffair next.status
      → KeepsFinal state (
          broadcast validate_message new_id now callback
            (record { message_id = id; body = Body.affair AffairMessage.update next })
            state)
  broadcast-KeepsFinal none sends id next state unfinished key later e final =
      apply_only-KeepsFinal id next state unfinished key later e final
  broadcast-KeepsFinal (some send) sends id next state unfinished key later e final =
      let envelope : Envelope = record {
        message_id = id;
        body = Body.affair AffairMessage.update next;
      } in
      elim (sends envelope state) [
        | inl kept ↦ rw kept at e
        | inr applied ↦
            apply_only-KeepsFinal id next state unfinished key later (rw applied at e) final
      ]

  module _ (sends : Sends on_protocol_broadcast) where
    emit-KeepsFinal :
        (next : Affair) (state : State)
        → ¬ IsFinalAffair next.status
        → KeepsFinal state (emit validate_message new_id now on_protocol_broadcast next state)
    emit-KeepsFinal next state unfinished key later e final = ground (
      arith,
      apply_only-KeepsFinal (new_id state) next state unfinished key later,
      broadcast-KeepsFinal on_protocol_broadcast sends (new_id state) next state unfinished key
          later,
    )

    patch-KeepsFinal :
        (affair_id : String) (mutate : Affair → Affair) (state : State)
        → IsMark mutate
        → KeepsFinal state
            (patch_affair validate_message new_id now on_protocol_broadcast affair_id mutate state)
    unfolding patch_affair
    patch-KeepsFinal affair_id mutate state mark =
        elim (Option-cases (lookup affair_id state.affairs)) [
          | inl gone ↦ rw (patch_affair, gone) (KeepsFinal-refl state)
          | inr (affair, found) ↦ elim (Bool-cases (is_unchanged affair (mutate affair))) [
            | inl same ↦ rw (patch_affair, found, same) (KeepsFinal-refl state)
            | inr changed ↦ elim (mark affair) [
              | inl self ↦
                  let same = unchanged_self affair in
                  let changed' : is_unchanged affair affair ≡ false = rw self at changed in cc
              | inr unfinished ↦
                  rw (patch_affair, found, changed)
                    (emit-KeepsFinal (mutate affair) state unfinished)
            ]
          ]
        ]

    action-KeepsFinal :
        (action : Action) (state : State)
        → KeepsFinal state
            (apply_action validate_message new_id now on_protocol_broadcast action state)
    unfolding apply_action
    action-KeepsFinal (Action.mark_waiting_acceptance affair_id job_id) state =
        patch-KeepsFinal affair_id (mark_accepting job_id) state (mark_accepting-IsMark job_id)
    action-KeepsFinal (Action.mark_blocked affair_id job_id reason resume) state =
        patch-KeepsFinal affair_id (mark_stuck job_id reason resume) state
          (mark_stuck-IsMark job_id reason resume)
    action-KeepsFinal (Action.notify_blocked _ _ _ _) state = KeepsFinal-refl state
    action-KeepsFinal (Action.continue_watch _) state = KeepsFinal-refl state
    action-KeepsFinal (Action.stop_watch _) state = KeepsFinal-refl state

    actions-KeepsFinal :
        (actions : List Action) (state : State)
        → KeepsFinal state (
            apply_supervision_actions validate_message new_id now on_protocol_broadcast actions
              state)
    unfolding apply_supervision_actions
    actions-KeepsFinal [] state = KeepsFinal-refl state
    actions-KeepsFinal (action ∷ rest) state =
        let state' = apply_action validate_message new_id now on_protocol_broadcast action state in
        KeepsFinal-trans state state'
          (apply_supervision_actions validate_message new_id now on_protocol_broadcast rest state')
          (action-KeepsFinal action state) (actions-KeepsFinal rest state')

    supervise_id-KeepsFinal :
        (id : String) (state : State) (memory : Memory)
        → KeepsFinal state
            (supervise_id validate_message new_id now on_protocol_broadcast id (state, memory)).0
    unfolding supervise_backend_affair
    supervise_id-KeepsFinal id state memory = elim (Option-cases (lookup id state.affairs)) [
      | inl gone ↦ rw (supervise_id, gone) (KeepsFinal-refl state)
      | inr (affair, found) ↦
          rw (supervise_id, found)
            (actions-KeepsFinal
              (run_supervision_tick (build_snapshot affair (job_of affair state)) memory) state)
    ]

    -- Supervision never closes or cancels an affair. If a broadcast callback of the shell only
    -- applies messages, then an affair that is closed or canceled after a pass over any affairs was
    -- stored just so before it.
    pub supervision_pass-final :
        (ids : List String) (state : State) (memory : Memory) (id : String) (later : Affair)
        → lookup id
            (run_supervision_pass validate_message new_id now on_protocol_broadcast ids
              (state, memory)).0.affairs
          ≡ some later
        → IsFinalAffair later.status
        → lookup id state.affairs ≡ some later
    unfolding run_supervision_pass
    supervision_pass-final [] state memory id later e final = e
    supervision_pass-final (first ∷ rest) state memory id later e final =
        let (state', memory') =
          supervise_id validate_message new_id now on_protocol_broadcast first (state, memory) in
        supervise_id-KeepsFinal first state memory id later
          (supervision_pass-final rest state' memory' id later e final) final
