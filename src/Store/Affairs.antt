-- ===== src/Store/Affairs.antt =====
-- How the status of an affair moves when messages are applied.
use lanxin_claw.Shared.{
  String, ◌≡◌, refl, inl, inr, Bool, List, [], ◌∷◌, some, arith, eq_iff, has, lookup, lookup-insert,
  Bool-cases, Reach, Reach-cons, here,
}
use lanxin_claw.States.Affair.{can_transition_affair_status, affair_status_enum}
use lanxin_claw.States.Laws.{IsFinalAffair, affair_final_absorbs}
use lanxin_claw.Store.Types.{
  Affair, Job, ChatMessage, ContextAttach, JobMessage, Body, Envelope, State, ApplyResult,
}
use lanxin_claw.Store.Projection.{project_affair_with_job}
use lanxin_claw.Store.Apply.{
  apply_job, apply_chat_message, apply_context_attach, apply_validated_envelope,
  apply_protocol_envelope_to_state, mark_seen, fail_with_ids,
}
use lanxin_claw.Store.Legal.{IsKeyed, IsLegal, IsLegal-refl, apply_affair-IsLegal}
use lanxin_claw.Store.Projected.{
  project-status, apply_job-Projects, Projects-IsLegal, projected_not_final,
}

apply_chat_message-affairs :
    (payload : ChatMessage) (state : State)
    → (apply_chat_message payload state).0.affairs ≡ state.affairs
unfolding apply_chat_message
apply_chat_message-affairs payload state = ground arith

apply_context_attach-affairs :
    (payload : ContextAttach) (state : State)
    → (apply_context_attach payload state).0.affairs ≡ state.affairs
unfolding apply_context_attach
apply_context_attach-affairs payload state = ground arith

module _ (now : String) (state : State) (keyed : IsKeyed state.affairs) where
  apply_validated-IsLegal :
      (body : Body) → IsLegal state.affairs (apply_validated_envelope now body state).0.affairs
  unfolding apply_validated_envelope
  apply_validated-IsLegal (Body.pairing_request pairing_id phone name) = IsLegal-refl keyed
  apply_validated-IsLegal (Body.session_open session_id phone) = IsLegal-refl keyed
  apply_validated-IsLegal Body.session_heartbeat = IsLegal-refl keyed
  apply_validated-IsLegal Body.session_closed = IsLegal-refl keyed
  apply_validated-IsLegal (Body.affair kind payload) = apply_affair-IsLegal now state keyed payload
  apply_validated-IsLegal (Body.job kind payload) =
      let (affair_id, effect) = apply_job-Projects now kind payload state in
      Projects-IsLegal affair_id _ _ keyed effect
  apply_validated-IsLegal (Body.chat_message payload) =
      rw (apply_chat_message-affairs payload state) (IsLegal-refl keyed)
  apply_validated-IsLegal (Body.chat_context_attach payload) =
      rw (apply_context_attach-affairs payload state) (IsLegal-refl keyed)
  apply_validated-IsLegal Body.chat_read_receipt = IsLegal-refl keyed
  apply_validated-IsLegal (Body.other type) = IsLegal-refl keyed

mark_seen-affairs :
    (now id : String) (outcome : State × ApplyResult)
    → (mark_seen now id outcome).0.affairs ≡ outcome.0.affairs
mark_seen-affairs now id (state, ApplyResult.done duplicate) = refl
mark_seen-affairs now id (state, ApplyResult.failed code) = refl

module _ (validate_message : Envelope → Bool) where
  apply_protocol-IsLegal :
      (now : String) (envelope : Envelope) (state : State)
      → IsKeyed state.affairs
      → IsLegal state.affairs
          (apply_protocol_envelope_to_state validate_message now envelope state).0.affairs
  unfolding apply_protocol_envelope_to_state fail_with_ids
  apply_protocol-IsLegal now envelope state k = elim (Bool-cases (validate_message envelope)) [
    | inr invalid ↦ rw (apply_protocol_envelope_to_state, invalid) (IsLegal-refl k)
    | inl valid ↦ elim (Bool-cases (has envelope.message_id state.seen_messages)) [
      | inl seen ↦ rw (apply_protocol_envelope_to_state, valid, seen) (IsLegal-refl k)
      | inr new ↦
          rw
            (
              apply_protocol_envelope_to_state,
              valid,
              new,
              mark_seen-affairs now envelope.message_id
                  (apply_validated_envelope now envelope.body state),
            )
            (apply_validated-IsLegal now state k envelope.body)
    ]
  ]

  -- Messages with the times of their arrival, the first one first.
  unfoldable pub apply_all : List (String × Envelope) → State → State
  apply_all [] state = state
  apply_all ((now, envelope) ∷ rest) state =
      apply_all rest (apply_protocol_envelope_to_state validate_message now envelope state).0

  -- Whatever messages arrive, an affair of the store stays there under its own id, and its status
  -- moves along the table of affair transitions.
  pub apply_all-Reach :
      (messages : List (String × Envelope)) (state : State)
      → IsKeyed state.affairs
      → (id : String) (affair : Affair) → lookup id state.affairs ≡ some affair
      → (later : Affair) × (lookup id (apply_all messages state).affairs ≡ some later)
        × (later.affair_id ≡ id)
        × Reach can_transition_affair_status affair.status later.status
  unfolding apply_all
  apply_all-Reach [] state k id affair e = (affair, e, k id affair e, here)
  apply_all-Reach ((now, envelope) ∷ rest) state k id affair e =
      let legal = apply_protocol-IsLegal now envelope state k in
      let (mid, found, step) = legal.moves id affair e in
      let (later, f, name, path) =
        apply_all-Reach rest
          (apply_protocol_envelope_to_state validate_message now envelope state).0 legal.keyed id
          mid found in
      (later, f, name, Reach-cons step path)

  -- A closed or canceled affair of the store keeps its status, whatever messages arrive.
  pub apply_all-final :
      (messages : List (String × Envelope)) (state : State)
      → IsKeyed state.affairs
      → (id : String) (affair : Affair) → lookup id state.affairs ≡ some affair
      → IsFinalAffair affair.status
      → (later : Affair) × (lookup id (apply_all messages state).affairs ≡ some later)
        × (later.status ≡ affair.status)
  apply_all-final messages state k id affair e final =
      let (later, found, name, path) = apply_all-Reach messages state k id affair e in
      (later, found, affair_final_absorbs final path)

-- A job message never closes or cancels an affair: an affair that is closed or canceled after it
-- was so before it, under the same id. The completion of a job leaves the affair to be accepted.
pub apply_job-final :
    (now : String) (kind : JobMessage) (incoming : Job) (state : State)
    → IsKeyed state.affairs
    → (id : String) (later : Affair)
    → lookup id (apply_job now kind incoming state).0.affairs ≡ some later
    → IsFinalAffair later.status
    → lookup id state.affairs ≡ some later
apply_job-final now kind incoming state k id later e final =
    elim (apply_job-Projects now kind incoming state).1 [
      | inl kept ↦ ground arith
      | inr (a, job, status, found, target, legal, written) ↦
          let there =
            lookup-insert a.affair_id id (project_affair_with_job a job status) state.affairs in
          let to = (project-status a job status).0 in
          ground (arith, projected_not_final job status target, there, to, eq_iff a.affair_id id)
    ]
