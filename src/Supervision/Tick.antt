-- ===== src/Supervision/Tick.antt =====
-- apps/companion/src/supervision/tick.ts with policy/acceptance.ts and policy/blocked-copy.ts: what
-- one look at an affair proposes. The notes of an action that nobody reads are left out.
use lanxin_claw.Shared.{
  String, Bool, true, false, not, ◌||◌, List, [], ◌∷◌, Option, none, some, if◌then◌else◌, ◌==◌,
  lookup, insert, or_else, truthy, same, same_text, trim, join, append,
}
use lanxin_claw.States.Affair.{AffairStatus, affair_status_enum}
use lanxin_claw.States.Job.{JobStatus, job_status_enum}
use lanxin_claw.Store.Types.{Purpose}
use lanxin_claw.Supervision.Types.{Snapshot, Action, Memory}

abbrev is_terminal_affair : AffairStatus → Bool
is_terminal_affair status = same status AffairStatus.closed || same status AffairStatus.canceled

unfoldable pub idle_actions : Snapshot → Option (List Action)
idle_actions snapshot =
    if is_terminal_affair snapshot.affair_status
    then some (Action.stop_watch snapshot.affair_id ∷ [])
    else if same snapshot.affair_status AffairStatus.waiting_acceptance
    then some (Action.continue_watch snapshot.affair_id ∷ [])
    else if same snapshot.affair_status AffairStatus.paused
    then some (Action.continue_watch snapshot.affair_id ∷ [])
    else none

abbrev pub affair_status_after_job_terminal : JobStatus → Option AffairStatus
affair_status_after_job_terminal status =
    if same status JobStatus.completed then some AffairStatus.waiting_acceptance else none

abbrev is_exploration : Option Purpose → Bool
is_exploration (Option.some Purpose.exploration) = true
is_exploration _ = false

abbrev is_status : Option JobStatus → JobStatus → Bool
is_status none status = false
is_status (some own) status = same own status

-- `o || d` on texts.
abbrev pub text_or : Option String → String → String
text_or none other = other
text_or (some text) other = if text == "" then other else text

abbrev pub mark_done : Snapshot → String → Option (List Action)
mark_done snapshot job_id =
    if is_exploration snapshot.job_purpose
    then some (Action.continue_watch snapshot.affair_id ∷ [])
    else elim (affair_status_after_job_terminal JobStatus.completed) [
      | some AffairStatus.waiting_acceptance ↦
          if same snapshot.affair_status AffairStatus.waiting_acceptance
          then none
          else some (Action.mark_waiting_acceptance snapshot.affair_id job_id ∷ [])
      | _ ↦ none
    ]

unfoldable pub waiting_acceptance_actions : Snapshot → Option (List Action)
waiting_acceptance_actions snapshot =
    if not (truthy snapshot.job_id) || not (is_status snapshot.job_status JobStatus.completed)
    then none
    else mark_done snapshot (text_or snapshot.job_id "")

unfoldable pub blocked_notify_fingerprint : String → String → String → String
blocked_notify_fingerprint affair_id blocked_reason resume_condition =
    append affair_id (append "|" (append resume_condition (append "|" blocked_reason)))

-- The body of `buildBlockedNotifyCopy`; its title is a constant.
unfoldable pub build_blocked_notify_copy : String → String → List String → String → String
build_blocked_notify_copy affair_title blocked_reason attempted_steps resume_condition =
    let steps : String = elim attempted_steps [
      | [] ↦ "（尚无步骤摘要）"
      | step ∷ rest ↦ join "；" (step ∷ rest)
    ] in
    join "\n" (
      append "我这边让 Claw 推进「" (append affair_title "」时停住了。")
      ∷ append "原因：" blocked_reason
      ∷ append "已尝试：" steps
      ∷ append "恢复条件：" resume_condition
      ∷ "你处理好后告诉我，或在控制面板点「恢复」。"
      ∷ [])

unfoldable pub should_notify_blocked : Memory → String → String → Bool
should_notify_blocked memory affair_id fingerprint =
    not (same_text (lookup affair_id memory) (some fingerprint))

abbrev pub reason_of : Snapshot → String
reason_of snapshot = text_or (some (trim (text_or snapshot.blocked_reason ""))) "执行受阻（原因未详述）"

abbrev pub resume_of : Snapshot → String
resume_of snapshot =
    text_or (some (trim (text_or snapshot.resume_condition ""))) "用户解除阻塞后由张老板/控制面板 resume"

abbrev pub fingerprint_of : Snapshot → String
fingerprint_of snapshot =
    blocked_notify_fingerprint snapshot.affair_id (reason_of snapshot) (resume_of snapshot)

unfoldable pub is_blocked : Snapshot → Bool
is_blocked snapshot =
    is_status snapshot.job_status JobStatus.blocked
    || same snapshot.affair_status AffairStatus.blocked
    || truthy snapshot.blocked_reason

unfoldable pub blocked_actions : Snapshot → Memory → Option (List Action)
blocked_actions snapshot memory =
    if not (is_blocked snapshot) || not (truthy snapshot.job_id)
    then none
    else some (
        Action.mark_blocked snapshot.affair_id (text_or snapshot.job_id "") (reason_of snapshot)
          (resume_of snapshot)
        ∷ (if should_notify_blocked memory snapshot.affair_id (fingerprint_of snapshot)
            then Action.notify_blocked snapshot.affair_id "事务卡住了，需要你看一下"
                (build_blocked_notify_copy snapshot.affair_title (reason_of snapshot)
                  snapshot.attempted_steps (resume_of snapshot))
                (fingerprint_of snapshot)
              ∷ []
            else []))

unfoldable pub run_supervision_tick : Snapshot → Memory → List Action
run_supervision_tick snapshot memory =
    elim (or_else (idle_actions snapshot)
      (or_else (waiting_acceptance_actions snapshot) (blocked_actions snapshot memory))) [
        | some actions ↦ actions
        | none ↦ Action.continue_watch snapshot.affair_id ∷ []
      ]

unfoldable pub remember_blocked_notify : Memory → String → String → Memory
remember_blocked_notify memory affair_id fingerprint = insert affair_id fingerprint memory

-- The loop of `superviseBackendAffair` over the actions of a tick.
unfoldable pub remember_all : List Action → Memory → Memory
remember_all [] memory = memory
remember_all (Action.notify_blocked affair_id title body fingerprint ∷ rest) memory =
    remember_all rest (remember_blocked_notify memory affair_id fingerprint)
remember_all (Action.mark_waiting_acceptance _ _ ∷ rest) memory = remember_all rest memory
remember_all (Action.mark_blocked _ _ _ _ ∷ rest) memory = remember_all rest memory
remember_all (Action.continue_watch _ ∷ rest) memory = remember_all rest memory
remember_all (Action.stop_watch _ ∷ rest) memory = remember_all rest memory
