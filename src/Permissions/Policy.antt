-- ===== src/Permissions/Policy.antt =====
-- apps/companion/src/permissions/gate/policy/default-policy.ts, and `PERMISSION_IDS` of
-- packages/protocol/src/messages/payloads/core.ts.
pub mod Default
mod Tests
use lanxin_claw.Shared.{String, Bool, true, false, List, [], ◌∷◌, ◌==◌, any, if◌then◌else◌}

pub data PolicyBucket : Type 0 where
  default_allow needs_confirm default_deny : PolicyBucket

abbrev pub permission_ids : List String
permission_ids =
    "workspace.read" ∷ "workspace.write" ∷ "command.run" ∷ "network.access" ∷ "git.read"
    ∷ "git.write" ∷ "secrets.read" ∷ "desktop.control" ∷ []

-- `xs.includes(s)`, also for the sets of the file.
abbrev pub includes_text : String → List String → Bool
includes_text s xs = any (λ x. x == s) xs

abbrev pub meta_allow_labels : List String
meta_allow_labels = "connection.status" ∷ "companion.capability_summary" ∷ []

abbrev pub denied_by_default : List String
denied_by_default = "secrets.read" ∷ []

abbrev pub is_known_permission_id : String → Bool
is_known_permission_id value = includes_text value permission_ids

pub classify_permission_policy : String → PolicyBucket
classify_permission_policy permission_id =
    if includes_text permission_id meta_allow_labels
    then PolicyBucket.default_allow
    else if (if is_known_permission_id permission_id then false else true)
    then PolicyBucket.default_deny
    else if includes_text permission_id denied_by_default
    then PolicyBucket.default_deny
    else PolicyBucket.needs_confirm

unfoldable pub is_allowed_by_default : String → Bool
unfolding classify_permission_policy
is_allowed_by_default permission_id = elim (classify_permission_policy permission_id) [
  | PolicyBucket.default_allow ↦ true
  | _ ↦ false
]
