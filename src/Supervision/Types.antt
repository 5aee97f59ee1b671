-- ===== src/Supervision/Types.antt =====
-- apps/companion/src/supervision/types.ts: what a tick sees and what it proposes. The statuses are
-- those of the protocol, which the caller hands on by a cast.
use lanxin_claw.Shared.{String, List, Option}
use lanxin_claw.States.Affair.{AffairStatus}
use lanxin_claw.States.Job.{JobStatus}
use lanxin_claw.Store.Types.{Purpose}

pub record Snapshot : Type 0 where
  pub affair_id : String
  pub affair_title : String
  pub affair_status : AffairStatus
  pub job_id : Option String
  pub job_status : Option JobStatus
  pub job_purpose : Option Purpose
  pub progress_summary : String
  pub attempted_steps : List String
  pub blocked_reason : Option String
  pub resume_condition : Option String

pub data Action : Type 0 where
  mark_waiting_acceptance : (affair_id job_id : String) → Action
  mark_blocked : (affair_id job_id blocked_reason resume_condition : String) → Action
  notify_blocked : (affair_id title body fingerprint : String) → Action
  continue_watch : (affair_id : String) → Action
  stop_watch : (affair_id : String) → Action

-- The fingerprint of the last notification of an affair.
abbrev pub Memory : Type 0
Memory = List (String × String)
