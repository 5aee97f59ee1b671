-- ===== src/Store/Types.antt =====
-- apps/companion/src/state/types.ts, with the payloads of
-- packages/protocol/src/messages/payloads/core.ts and session.ts that the store keeps.
-- A field that may be `null` or left out is an `Option`. The parts of the state that the modelled
-- operations neither read nor write (audit, receipts, affair actions, deliveries) are left out, and
-- so is the human text of an error. `validateMessage` checks that a payload fits its message type,
-- so a message is its type together with its payload.
use lanxin_claw.Shared.{ℕ, String, Bool, List, [], Option, none, false}
use lanxin_claw.States.Affair.{AffairStatus}
use lanxin_claw.States.Job.{JobStatus}

pub record Affair : Type 0 where
  pub affair_id : String
  pub title : String
  pub status : AffairStatus
  pub context : List String
  pub acceptance_criteria : List String
  pub blocked_reason : Option String
  pub resume_condition : Option String
  pub current_job_id : Option String

pub data Purpose : Type 0 where
  execution exploration : Purpose

pub data StepKind : Type 0 where
  tool lifecycle reply task : StepKind

pub record RecentStep : Type 0 where
  pub at : String
  pub kind : StepKind
  pub text : String

pub data EvidenceQuality : Type 0 where
  missing weak present : EvidenceQuality

pub record Job : Type 0 where
  pub job_id : String
  pub affair_id : String
  pub status : JobStatus
  pub purpose : Option Purpose
  pub goal : String
  pub workspace_hint : Option String
  pub allowed_permissions : List String
  pub progress_summary : Option String
  pub recent_steps : Option (List RecentStep)
  pub result_digest : Option String
  pub evidence_quality : Option EvidenceQuality
  pub blocked_reason : Option String
  pub resume_condition : Option String
  pub permission_request_id : Option String
  pub task_intent_id : Option String
  pub status_reason_code : Option String
  pub status_observed_at : Option String

pub data AuthorKind : Type 0 where
  user zhang_boss companion : AuthorKind

pub record ChatMessage : Type 0 where
  pub chat_message_id : String
  pub text : String
  pub affair_id : Option String
  pub author_kind : AuthorKind
  pub sent_at : String

pub data AttachTarget : Type 0 where
  active_call affair : AttachTarget

pub data ContentKind : Type 0 where
  path log url note : ContentKind

pub record ContextAttach : Type 0 where
  pub attach_id : String
  pub text : String
  pub target : AttachTarget
  pub affair_id : Option String
  pub content_kind : ContentKind
  pub sent_at : String

-- `affair.close` is not among them: its payload is a command or a result, no affair, and the runtime
-- hands it to the coordinator of Closing before the store is asked (backend/runtime.ts).
pub data AffairMessage : Type 0 where
  create update resume : AffairMessage

pub data JobMessage : Type 0 where
  create accepted progress needs_permission blocked completed failed cancel canceled : JobMessage

-- The message type and its payload, as far as the store reads it.
pub data Body : Type 0 where
  pairing_request : (pairing_id phone_device_id phone_display_name : String) → Body
  session_open : (session_id phone_device_id : String) → Body
  session_heartbeat : Body
  session_closed : Body
  affair : AffairMessage → Affair → Body
  job : JobMessage → Job → Body
  chat_message : ChatMessage → Body
  chat_context_attach : ContextAttach → Body
  chat_read_receipt : Body
  other : String → Body

pub record Envelope : Type 0 where
  pub message_id : String
  pub body : Body

pub record Connection : Type 0 where
  pub phone_device_id : Option String
  pub phone_display_name : Option String
  pub pairing_id : Option String
  pub session_id : Option String
  pub last_seen_at : Option String
  pub session_authenticated : Bool

pub record LastError : Type 0 where
  pub code : String
  pub occurred_at : String
  pub affair_id : Option String
  pub job_id : Option String

pub record State : Type 0 where
  pub started_at_ms : ℕ
  pub updated_at : String
  pub connection : Connection
  pub affairs : List (String × Affair)
  pub jobs : List (String × Job)
  pub chat_messages : List ChatMessage
  pub context_attachments : List ContextAttach
  pub last_error : Option LastError
  pub seen_messages : List (String × String)

-- `ApplyProtocolResult`, less the envelope that is passed back.
pub data ApplyResult : Type 0 where
  done : (duplicate : Bool) → ApplyResult
  failed : (code : String) → ApplyResult

-- `createCompanionBackendState`; `now` is the text of the start time.
abbrev pub create_companion_backend_state : ℕ → String → State
create_companion_backend_state started_at_ms now = record {
  started_at_ms = started_at_ms;
  updated_at = now;
  connection = record {
    phone_device_id = none;
    phone_display_name = none;
    pairing_id = none;
    session_id = none;
    last_seen_at = none;
    session_authenticated = false;
  };
  affairs = [];
  jobs = [];
  chat_messages = [];
  context_attachments = [];
  last_error = none;
  seen_messages = [];
}
