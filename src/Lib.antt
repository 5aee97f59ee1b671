-- ===== src/Lib.antt =====
-- Verification of the LanxinClaw desktop companion.
--
-- The companion runs on the user's desktop. A phone pairs with it, opens sessions, and sends it
-- affairs and jobs; an adapter runs the jobs on the OpenClaw runtime; the companion asks the user
-- before a job may use a permission. This library models the parts that decide and that keep
-- state, and proves what they promise.
--
-- The parts and their files:
--
--   Shared        lists, maps in the order of insertion, literal unions and the breadth-first
--                 search that the store and the adapter both run, paths along a table.
--   States        packages/protocol/src/states: AFFAIR_TRANSITIONS, JOB_TRANSITIONS and
--                 PAIRING_TRANSITIONS with canTransition...Status, and the permission decisions.
--   Permissions   apps/companion/src/permissions/gate. Policy is default-policy.ts. Gate is the
--                 state of a PermissionGate and its methods (enqueue, decide, isGranted, hasGrant,
--                 the expirations and revocations). Grants counts the uses of a grant, Queue and Decided
--                 are the life of a request, Calls, Approval and Traces run any sequence of calls,
--                 Snapshot is persistence/snapshot.ts with projection/cards.ts, Storable shows that
--                 the snapshot restores the gate.
--   Store         apps/companion/src/state. Types are the payloads and the state, Apply is
--                 applyProtocolEnvelopeToState with all it calls, Projection is what a job says of
--                 its affair and the repair at start-up. Legal, Projected, Affairs, Jobs,
--                 Replay, Reconcile and Repair prove what they promise.
--   Pairing       apps/companion/src/pairing. Session and Lifecycle are the four operations on a
--                 pairing; Safety and Refusals have their branches, Traces any sequence of them.
--   Adapter       packages/openclaw-adapter/src. Snapshot is applyRunSnapshotToJob of
--                 mapping/apply-run-snapshot.ts, Moves the statuses it can give a job. Decision is decideJobFromEvidence: Evidence and
--                 Findings what a run shows (decision/evidence-helpers.ts, decision/status/run.ts),
--                 Texts its patterns, Completion decision/completion-gate.ts, Result decision/result.ts
--                 with decision/supervise-projection.ts, Rules and Decide the rules in their order;
--                 Completed and Applied what stands behind a completed job. Registry is jobs/ with
--                 client/gateway/session-key.ts, client/runtime-error-result.ts and
--                 evidence/snapshot-identity.ts: Operations are createAdapterJob, readAdapterJob and
--                 cancelAdapterJob, each from its start to its end, Steps what one call does, Overlap
--                 the reads and cancellations that wait for the runtime at the same time, Kept,
--                 Origins, Again and Refused what sequences of calls do.
--   Credentials   apps/companion/src/credentials. Store is createDeviceIdentityStore and the proof
--                 of a session, Key its key, Safety who is let in.
--   Guards        apps/companion/src/protocol-server/guards. Inbound are the guards of a socket,
--                 Session what passes them without a session.
--   Closing       apps/companion/src/affairs/actions. Precheck (guards/precheck.ts) are the checks of
--                 a command to close or cancel an affair, Accepted what stands behind a close.
--                 Coordinator and Execute are AffairActionCoordinator (coordinator.ts), Committed,
--                 Stopped, Children and Answers what its answers say.
--   Supervision   apps/companion/src/supervision and backend/supervision/observe.ts. Tick is
--                 runSupervisionTick, Apply what a pass writes to the store, Quiet how often the user
--                 is told, Safety what may be written.
--   Messages      apps/companion/src/chat/channel, protocol-server/message-outbox.ts and
--                 backend/chat/message-receipts.ts. Pending is PendingContextQueue, Outbox and
--                 Receipts the way of a message, Kept and Again what sequences of events do to it.
--
-- How they interact: the guards stand before the store, which applies a message to its mirror of
-- affairs and jobs by the tables of States; a job's new status is projected on its affair. The
-- adapter's records feed the same job statuses. A pairing that completes hands its secret to
-- Credentials, which lets sessions in; the gate is asked by the code that runs jobs. Supervision
-- writes to the store by messages like those of the phone, and only the coordinator of Closing
-- closes an affair. A message to the phone waits in Messages until its receipt.
--
-- How the code is read: an operation that changes an object in place is a function that returns
-- the new state and the result. A JavaScript Map with text keys is the list of its entries in the
-- order of their first insertion. `null` and a missing field are one `none`. A time is a text, or
-- a number of milliseconds where the code compares it. Random texts, the clock, the keyed hash and
-- the adapter's reading of business texts (the record Signals) and the answers of the OpenClaw
-- runtime are arguments. A message carries its payload with its type, as the validator leaves it. Human texts of errors are left out, their codes are kept.
--
-- Fuel: the two searches run on as much fuel as there are statuses, since a status is queued at
-- most once.
--
-- Not modelled: transport, files, processes, the desktop shell and its screens, the validators of
-- JSON values, the regular expressions that grade a business text. The coordinator's queue is not
-- modelled as such: an operation is one step, and all that happens while the executor is awaited is
-- part of the executor, which is an argument. Of the adapter's calls, reads and cancellations that
-- overlap are modelled (Registry/Overlap), creations that overlap are not. Saving the mirror is a test
-- of the mirror that says whether it succeeds.
pub mod Shared
pub mod States
pub mod Permissions
pub mod Store
pub mod Pairing
pub mod Adapter
pub mod Credentials
pub mod Guards
pub mod Closing
pub mod Supervision
pub mod Messages
