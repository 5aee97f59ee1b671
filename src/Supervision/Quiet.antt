-- ===== src/Supervision/Quiet.antt =====
-- How often the user is told of one obstacle.
use lanxin_claw.Shared.{
  ℕ, suc, ◌+◌, ◌≤◌, String, ◌≡◌, refl, ◌⊎◌, inl, inr, true, false, List, [], ◌∷◌, Option, none,
  some, arith, ◌==◌, ◌∙◌, eq_iff, eq_refl, if◌then◌else◌, lookup, insert, lookup-insert,
  lookup-insert_self, All, or_else, Bool-cases,
}
use lanxin_claw.Supervision.Types.{Snapshot, Action, Memory}
use lanxin_claw.Supervision.Tick.{
  idle_actions, waiting_acceptance_actions, should_notify_blocked, fingerprint_of, blocked_actions,
  run_supervision_tick, remember_blocked_notify, remember_all,
}

-- The notices that tell of an obstacle of the affair.
abbrev pub notices : String → List Action → ℕ
notices id [] = 0
notices id (Action.notify_blocked affair_id _ _ _ ∷ rest) =
    let later = notices id rest in if affair_id == id then suc later else later
notices id (Action.mark_waiting_acceptance _ _ ∷ rest) = notices id rest
notices id (Action.mark_blocked _ _ _ _ ∷ rest) = notices id rest
notices id (Action.continue_watch _ ∷ rest) = notices id rest
notices id (Action.stop_watch _ ∷ rest) = notices id rest

-- The notices about the affair in a loop over what is seen, one tick after the other.
unfoldable pub loop_notices : String → List Snapshot → Memory → ℕ
loop_notices id [] memory = 0
loop_notices id (snapshot ∷ rest) memory =
    let actions = run_supervision_tick snapshot memory in
    notices id actions + loop_notices id rest (remember_all actions memory)

-- A tick is silent and leaves the memory, or tells of an obstacle of its affair that is not the last
-- one.
abbrev TickOutcome : String → Snapshot → Memory → List Action → Type 0
TickOutcome id snapshot memory actions =
    ((notices id actions ≡ 0) × (remember_all actions memory ≡ memory))
    ⊎ ((notices id actions ≡ (if snapshot.affair_id == id then 1 else 0))
        × (remember_all actions memory ≡ insert snapshot.affair_id (fingerprint_of snapshot) memory)
        × (should_notify_blocked memory snapshot.affair_id (fingerprint_of snapshot) ≡ true))

abbrev Outcomes : String → Snapshot → Memory → Option (List Action) → Type 0
Outcomes id snapshot memory none = Unit
Outcomes id snapshot memory (some actions) = TickOutcome id snapshot memory actions

idle-Outcomes : (id : String) (s : Snapshot) (m : Memory) → Outcomes id s m (idle_actions s)
unfolding idle_actions remember_all
idle-Outcomes id s m = ground arith

waiting-Outcomes :
    (id : String) (s : Snapshot) (m : Memory) → Outcomes id s m (waiting_acceptance_actions s)
unfolding waiting_acceptance_actions remember_all
waiting-Outcomes id s m = ground arith

blocked-Outcomes : (id : String) (s : Snapshot) (m : Memory) → Outcomes id s m (blocked_actions s m)
unfolding blocked_actions remember_all remember_blocked_notify
blocked-Outcomes id s m = ground arith

first-TickOutcome :
    (id : String) (s : Snapshot) (m : Memory) (a b c : Option (List Action))
    → Outcomes id s m a
    → Outcomes id s m b
    → Outcomes id s m c
    → TickOutcome id s m (elim (or_else a (or_else b c)) [
      | some actions ↦ actions
      | none ↦ Action.continue_watch s.affair_id ∷ []
    ])
unfolding remember_all
first-TickOutcome id s m (some actions) b c x y z = x
first-TickOutcome id s m none (some actions) c x y z = y
first-TickOutcome id s m none none (some actions) x y z = z
first-TickOutcome id s m none none none x y z = inl (refl, refl)

tick-TickOutcome :
    (id : String) (s : Snapshot) (m : Memory) → TickOutcome id s m (run_supervision_tick s m)
unfolding run_supervision_tick
tick-TickOutcome id s m =
    first-TickOutcome id s m (idle_actions s) (waiting_acceptance_actions s) (blocked_actions s m)
      (idle-Outcomes id s m) (waiting-Outcomes id s m) (blocked-Outcomes id s m)

module _ (id fingerprint : String) where
  -- What is shown of the affair is this obstacle; all else may change, and other affairs may be seen.
  abbrev pub ShowsObstacle : Snapshot → Type 0
  ShowsObstacle s = s.affair_id ≡ id → fingerprint_of s ≡ fingerprint

  known :
      (m : Memory) → lookup id m ≡ some fingerprint → should_notify_blocked m id fingerprint ≡ false
  unfolding should_notify_blocked
  known m e = rw e (ground (arith, eq_refl fingerprint))

  -- A notice about another affair keeps what is remembered of this one.
  other_notice :
      (s : Snapshot) (m : Memory)
      → (s.affair_id == id) ≡ false
      → lookup id (insert s.affair_id (fingerprint_of s) m) ≡ lookup id m
  other_notice s m other = ground (arith, lookup-insert s.affair_id id (fingerprint_of s) m)

  known-loop_notices :
      (snapshots : List Snapshot) (m : Memory)
      → All ShowsObstacle snapshots
      → lookup id m ≡ some fingerprint
      → loop_notices id snapshots m ≡ 0
  unfolding loop_notices
  known-loop_notices [] m shows e = refl
  known-loop_notices (s ∷ rest) m shows e = elim (tick-TickOutcome id s m) [
    | inl (silent, kept) ↦
        let later = known-loop_notices rest m shows.1 e in rw (silent, kept, later) refl
    | inr (told, kept, new) ↦ elim (Bool-cases (s.affair_id == id)) [
      | inl same ↦
          let named = (eq_iff s.affair_id id).0 same in
          let shown = shows.0 named in
          let old = known m e in let new' : should_notify_blocked m id fingerprint ≡ true = cc in cc
      | inr other ↦
          let later =
            known-loop_notices rest (insert s.affair_id (fingerprint_of s) m) shows.1
              (other_notice s m other ∙ e) in
          rw (told, kept, other, later) refl
    ]
  ]

  -- If all snapshots of an affair show the same obstacle (the same reason and condition to resume),
  -- the user is told of the affair at most once, however many ticks look at it, whatever else they
  -- see of it, and whatever obstacles of other affairs come between.
  pub loop_notices-le_one :
      (snapshots : List Snapshot) (m : Memory)
      → All ShowsObstacle snapshots
      → loop_notices id snapshots m ≤ 1
  unfolding loop_notices
  loop_notices-le_one [] m shows = omega arith
  loop_notices-le_one (s ∷ rest) m shows = elim (tick-TickOutcome id s m) [
    | inl (silent, kept) ↦ rw (silent, kept) (omega (arith, loop_notices-le_one rest m shows.1))
    | inr (told, kept, new) ↦
        let m' = insert s.affair_id (fingerprint_of s) m in
        elim (Bool-cases (s.affair_id == id)) [
          | inr other ↦ rw (told, kept, other) (omega (arith, loop_notices-le_one rest m' shows.1))
          | inl same ↦
              let named = (eq_iff s.affair_id id).0 same in
              let shown = shows.0 named in
              let there : lookup id m' ≡ some fingerprint =
                rw (← named, ← shown) (lookup-insert_self s.affair_id (fingerprint_of s) m) in
              let later = known-loop_notices rest m' shows.1 there in
              rw (told, kept, same, later) (omega arith)
        ]
  ]
