-- ===== src/Adapter/Registry/Keys.antt =====
-- packages/openclaw-adapter/src/client/gateway/session-key.ts, for the agent `main`, and
-- evidence/snapshot-identity.ts: whether a snapshot of the runtime is about the job.
use lanxin_claw.Shared.{
  String, Bool, true, false, not, ◌&&◌, Option, none, some, if◌then◌else◌, ◌==◌, append, trim,
  or_else, truthy,
}
use lanxin_claw.Adapter.Snapshot.{AdapterJob, EvidenceIds, RunSnapshot}
use lanxin_claw.Adapter.Decision.Texts.{begins}

-- `text.startsWith(word)`.
abbrev pub starts_with : String → String → Bool
starts_with word text = begins (λ c. c) word text

abbrev pub to_gateway_session_key : String → String
to_gateway_session_key job_id = append "agent:main:lanxing-job:" (trim job_id)

abbrev trimmed : Option String → String
trimmed none = ""
trimmed (some text) = trim text

unfoldable pub canonicalize_gateway_session_key : Option String → String → Option String
canonicalize_gateway_session_key raw job_id =
    let key = trimmed raw in
    if starts_with "agent:" key
    then some key
    else if starts_with "lanxing-job:" key
    then some (append "agent:main:" key)
    else if not (trim job_id == "")
    then some (to_gateway_session_key (trim job_id))
    else if not (key == "")
    then some (append "agent:main:" key)
    else none

-- The key of a stored job: `canonicalize... ?? toGatewaySessionKey(jobId)`.
abbrev pub key_of : Option String → String → String
key_of raw job_id = elim (canonicalize_gateway_session_key raw job_id) [
  | some key ↦ key
  | none ↦ to_gateway_session_key job_id
]

abbrev is_same_key : Option String → String → Bool
is_same_key none key = false
is_same_key (some other) key = key == other

unfoldable pub session_keys_equivalent : (expected actual : Option String) → String → Bool
session_keys_equivalent expected actual job_id =
    if truthy actual
    then is_same_key (canonicalize_gateway_session_key actual job_id) (key_of expected job_id)
    else true

abbrev pub to_job_idempotency_key : String → String
to_job_idempotency_key job_id = append "lanxing-job:" (trim job_id)

-- `actual && actual !== expected`.
abbrev pub differs : Option String → String → Bool
differs none expected = false
differs (some actual) expected = not (actual == "") && not (actual == expected)

abbrev evidence_belongs : AdapterJob → String → EvidenceIds → Bool
evidence_belongs job run_id ids =
    let expected = or_else job.openclaw_session_key (some (to_gateway_session_key job.job_id)) in
    ids.run_id == run_id
    && not (differs ids.job_id job.job_id)
    && not (differs ids.affair_id job.affair_id)
    && session_keys_equivalent expected ids.session_key job.job_id

-- `validateRunSnapshotIdentity(job, snapshot).ok`.
unfoldable pub validate_run_snapshot_identity : AdapterJob → RunSnapshot → Bool
validate_run_snapshot_identity job snapshot =
    if differs job.openclaw_run_id snapshot.run_id then false else elim snapshot.evidence_ids [
      | none ↦ true
      | some ids ↦ evidence_belongs job snapshot.run_id ids
    ]
