-- ===== src/Permissions/Gate/Tests.antt =====
-- Runs of the gate on one request, and the theorems at this request.
use lanxin_claw.Shared.{
  IsDistinct, ◌⊎◌, ℕ, String, ◌≡◌, refl, true, false, List, [], ◌∷◌, none, some, lookup, insert,
}
use lanxin_claw.States.Decision.{parse_permission_decision}
use lanxin_claw.Permissions.Policy.{is_allowed_by_default}
use lanxin_claw.Permissions.Types.{QueueStatus, GrantScope, PermissionRequest, Requester, Risk}
use lanxin_claw.Permissions.Gate.{
  Gate, new_gate, enqueue, decide, apply_permission_decision, normalize_decision, has_grant,
  revoke_for_job,
}
use lanxin_claw.Permissions.Gate.Grants.{allow_once_budget, checks}
use lanxin_claw.Permissions.Gate.Calls.{GateCall, after, perform, performed}
use lanxin_claw.Permissions.Gate.Approval.{IsApproved, IsInherited}
use lanxin_claw.Permissions.Gate.Traces.{has_grant-IsApproved}
use lanxin_claw.Permissions.Gate.Snapshot.{hydrate, dump, whole}
use lanxin_claw.Permissions.Gate.Storable.{after-hydrate-dump}
use lanxin_claw.Permissions.Gate.Queue.{revoke_for_job-has_grant, revoke_for_job-others}

abbrev random : ℕ → String
random n = "x"

abbrev request : PermissionRequest
request = record {
  permission_request_id = "p1";
  job_id = "job1";
  affair_id = some "affair1";
  requester = Requester.zhang_boss;
  requested_permissions = "command.run" ∷ "git.read" ∷ [];
  reason = "build";
  risk = Risk.low;
  proposed_scope = record { workspace_root = none; commands = none; network_hosts = none };
  deny_consequence = "no build";
  requested_at = "t0";
  expires_at = none;
}

abbrev waiting : Gate
waiting = record new_gate {
  requests = ("p1", request) ∷ [];
  queue_status = ("p1", QueueStatus.pending) ∷ [];
}

-- A gate with one grant for one use.
abbrev granted : Gate
granted = record waiting {
  queue_status = ("p1", QueueStatus.decided) ∷ [];
  grants =
      record {
        grant_id = record { seq = 1; random = "x" };
        permission_request_id = "p1";
        job_id = "job1";
        permission_id = "command.run";
        scope = GrantScope.once;
        active = true;
        granted_at = "t1";
      }
      ∷ [];
  grant_seq = 1;
}

abbrev calls : List GateCall
calls = GateCall.answer "p1" "allow_for_job" "t1" ∷ GateCall.put request ∷ []

asks : is_allowed_by_default "command.run" ≡ false
unfolding is_allowed_by_default
asks = refl

granted_after : has_grant "job1" "command.run" (after random calls) ≡ true
unfolding has_grant after perform enqueue decide apply_permission_decision normalize_decision lookup
    insert is_allowed_by_default parse_permission_decision
granted_after = refl

has_grant-IsApproved_example :
    IsApproved calls "job1" "command.run" ⊎ IsInherited calls "job1" "command.run"
has_grant-IsApproved_example =
    has_grant-IsApproved random calls "job1" "command.run" asks granted_after

stored : lookup "p1" waiting.requests ≡ some request
unfolding lookup
stored = refl

listed : lookup "p1" waiting.queue_status ≡ some QueueStatus.pending
unfolding lookup
listed = refl

allow_once_budget_example :
    checks "job1" "command.run" 3 (decide random "p1" "allow_once" "t1" waiting).0 ≡ 1
allow_once_budget_example =
    allow_once_budget random "p1" "t1" request waiting stored refl listed 3 "command.run" asks refl

-- A check and the end of another job come between.
abbrev between : List GateCall
between = GateCall.check "job1" "command.run" ∷ GateCall.revoke_job "job2" ∷ []

abbrev denied : Gate
denied = performed random between (decide random "p1" "deny" "t1" waiting).0

revoke_for_job-has_grant_example :
    has_grant "job1" "command.run" (revoke_for_job "job1" granted) ≡ false
revoke_for_job-has_grant_example = revoke_for_job-has_grant "job1" "command.run" granted asks

waiting-IsDistinct : IsDistinct waiting.requests
unfolding lookup
waiting-IsDistinct = (refl, tt)

revoke_for_job-others_example :
    let g' = revoke_for_job "job2" waiting in
    (has_grant "job1" "command.run" g' ≡ has_grant "job1" "command.run" waiting)
    × (g'.requests ≡ waiting.requests)
    × (lookup "p1" g'.queue_status ≡ lookup "p1" waiting.queue_status)
revoke_for_job-others_example =
    revoke_for_job-others "job2" "job1" "command.run" "p1" request waiting waiting-IsDistinct refl
      stored refl

after-hydrate-dump_example :
    hydrate (whole (dump (after random calls))) granted
    ≡ record (after random calls) { on_change = false; changes = 0 }
after-hydrate-dump_example = after-hydrate-dump random calls granted
