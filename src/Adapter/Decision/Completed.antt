-- ===== src/Adapter/Decision/Completed.antt =====
-- What stands behind a job that is decided to be completed.
use lanxin_claw.Shared.{
  ◌≡◌, ◌≢◌, refl, ◌⊎◌, inl, inr, true, false, ◌||◌, List, [], ◌∷◌, Option, none, some, arith, All,
  Bool-cases, Option-cases,
}
use lanxin_claw.States.Job.{JobStatus, job_status_enum}
use lanxin_claw.Adapter.Snapshot.{AdapterJob, JobDecision, is_job_terminal}
use lanxin_claw.Adapter.Decision.Evidence.{Evidence}
use lanxin_claw.Adapter.Decision.Findings.{has_negative_final_reply, has_negative_tool_finding}
use lanxin_claw.Adapter.Decision.Result.{Signals, DecisionContext, RuleInput, decide}
use lanxin_claw.Adapter.Decision.Completion.{has_business_completion_evidence}
use lanxin_claw.Adapter.Decision.Rules.{
  is_hollow_completed_job, terminal_job_rule, cancellation_rule, blocking_finding_rule,
  waiting_approval_rule, negative_final_reply_rule, failed_finding_rule,
  soft_web_search_terminal_rule, task_blocked_rule, task_failed_rule,
}
use lanxin_claw.Adapter.Decision.Decide.{
  run_failed_rule, lifecycle_failed_rule, terminal_timeout_rule, has_terminal_success_signal,
  terminal_without_result_rule, completed_rule, accepted_rule, wait_only_timeout_rule,
  running_decision, decision_rules, decide_in, first_answer, first_rule_decision, context_of,
  decide_job_from_evidence,
}

module _ (t : Signals) where
  decide-status :
      (context : DecisionContext) (status : JobStatus) (input : RuleInput)
      → (decide t context status input).status ≡ status
  unfolding decide
  decide-status context status input = refl

  -- A completion that is decided now.
  pub record IsProven (context : DecisionContext) : Type 0 where
    pub ended : has_terminal_success_signal t context ≡ true
    pub tools : has_negative_tool_finding context.evidence ≡ false
    pub reply : has_negative_final_reply context.evidence ≡ false
    pub result : has_business_completion_evidence t context ≡ true

  -- A completion that is kept.
  abbrev pub IsKept : DecisionContext → Type 0
  IsKept context =
      (context.job.status ≡ JobStatus.completed) × (is_hollow_completed_job t context.job ≡ false)

  abbrev Explains : DecisionContext → JobDecision → Type 0
  Explains context d = d.status ≡ JobStatus.completed → IsKept context ⊎ IsProven context

  abbrev Explained : DecisionContext → Option JobDecision → Type 0
  Explained context none = Unit
  Explained context (some d) = Explains context d

  decide-Explains :
      (context : DecisionContext) (status : JobStatus) (input : RuleInput)
      → status ≢ JobStatus.completed
      → Explains context (decide t context status input)
  unfolding decide
  decide-Explains context status input other h = absurd (other h)

  terminal-Explained : (c : DecisionContext) → Explained c (terminal_job_rule t c)
  unfolding terminal_job_rule decide
  terminal-Explained c = ground arith

  completed-Explained : (c : DecisionContext) → Explained c (completed_rule t c)
  unfolding completed_rule
  completed-Explained c = elim (Bool-cases (has_terminal_success_signal t c)) [
    | inr going ↦ rw (completed_rule, going) tt
    | inl ended ↦
        elim (Bool-cases
          (has_negative_tool_finding c.evidence || has_negative_final_reply c.evidence)) [
            | inl negative ↦ rw (completed_rule, ended, negative) tt
            | inr clean ↦ elim (Bool-cases (has_business_completion_evidence t c)) [
              | inr missing ↦ rw (completed_rule, ended, clean, missing) tt
              | inl result ↦
                  rw (completed_rule, ended, clean, result)
                    (λ h. inr (record {
                      ended = ended;
                      tools = ground arith;
                      reply = ground arith;
                      result = result;
                    }))
            ]
          ]
  ]

  cancellation-Explained : (c : DecisionContext) → Explained c (cancellation_rule t c)
  unfolding cancellation_rule decide
  cancellation-Explained c = ground arith

  blocking-Explained : (c : DecisionContext) → Explained c (blocking_finding_rule t c)
  unfolding blocking_finding_rule decide
  blocking-Explained c = ground arith

  waiting-Explained : (c : DecisionContext) → Explained c (waiting_approval_rule t c)
  unfolding waiting_approval_rule decide
  waiting-Explained c = ground arith

  negative-Explained : (c : DecisionContext) → Explained c (negative_final_reply_rule t c)
  unfolding negative_final_reply_rule decide
  negative-Explained c = ground arith

  failed-Explained : (c : DecisionContext) → Explained c (failed_finding_rule t c)
  unfolding failed_finding_rule decide
  failed-Explained c = ground arith

  soft-Explained : (c : DecisionContext) → Explained c (soft_web_search_terminal_rule t c)
  unfolding soft_web_search_terminal_rule decide
  soft-Explained c = ground arith

  task_blocked-Explained : (c : DecisionContext) → Explained c (task_blocked_rule t c)
  unfolding task_blocked_rule decide
  task_blocked-Explained c = ground arith

  task_failed-Explained : (c : DecisionContext) → Explained c (task_failed_rule t c)
  unfolding task_failed_rule decide
  task_failed-Explained c = ground arith

  run_failed-Explained : (c : DecisionContext) → Explained c (run_failed_rule t c)
  unfolding run_failed_rule decide
  run_failed-Explained c = ground arith

  lifecycle-Explained : (c : DecisionContext) → Explained c (lifecycle_failed_rule t c)
  unfolding lifecycle_failed_rule decide
  lifecycle-Explained c = ground arith

  timeout-Explained : (c : DecisionContext) → Explained c (terminal_timeout_rule t c)
  unfolding terminal_timeout_rule decide
  timeout-Explained c = ground arith

  hollow-Explained : (c : DecisionContext) → Explained c (terminal_without_result_rule t c)
  unfolding terminal_without_result_rule decide
  hollow-Explained c = ground arith

  accepted-Explained : (c : DecisionContext) → Explained c (accepted_rule t c)
  unfolding accepted_rule decide
  accepted-Explained c = ground arith

  wait_only-Explained : (c : DecisionContext) → Explained c (wait_only_timeout_rule t c)
  unfolding wait_only_timeout_rule decide
  wait_only-Explained c = ground arith

  running-Explains : (c : DecisionContext) → Explains c (running_decision t c)
  unfolding running_decision decide
  running-Explains c = ground arith

  first-Explained :
      (c : DecisionContext) (rules : List (DecisionContext → Option JobDecision))
      → All (λ rule. Explained c (rule c)) rules
      → Explained c (first_answer t rules c)
  first-Explained c [] h = tt
  first-Explained c (rule ∷ rest) h = elim (Option-cases (rule c)) [
    | inl silent ↦ rw (first_answer, silent) (first-Explained c rest h.1)
    | inr (d, answer) ↦
        let explained : Explains c d = rw answer at (h.0) in rw (first_answer, answer) explained
  ]

  decide_in-Explains : (c : DecisionContext) → Explains c (decide_in t c)
  unfolding first_rule_decision decide_in
  decide_in-Explains c =
      let all_rules : All (λ rule. Explained c (rule c)) (decision_rules t) = (
        terminal-Explained c,
        (
          cancellation-Explained c,
          (
            blocking-Explained c,
            (
              waiting-Explained c,
              (
                negative-Explained c,
                (
                  failed-Explained c,
                  (
                    soft-Explained c,
                    (
                      task_blocked-Explained c,
                      (
                        task_failed-Explained c,
                        (
                          run_failed-Explained c,
                          (
                            lifecycle-Explained c,
                            (
                              timeout-Explained c,
                              (
                                hollow-Explained c,
                                (
                                  completed-Explained c,
                                  (accepted-Explained c, (wait_only-Explained c, tt)),
                                ),
                              ),
                            ),
                          ),
                        ),
                      ),
                    ),
                  ),
                ),
              ),
            ),
          ),
        ),
      ) in
      let first : Explained c (first_rule_decision t c) =
        first-Explained c (decision_rules t) all_rules in
      elim (Option-cases (first_rule_decision t c)) [
        | inl silent ↦ rw (decide_in, silent) (running-Explains c)
        | inr (d, answer) ↦
            let explained : Explains c d = rw answer at (first) in rw (decide_in, answer) explained
      ]

  -- A job is decided to be completed only if it was completed before with a result to show, or if
  -- the run has ended well, no tool failed or was stopped, the last reply does not say that the goal
  -- was missed, and there is business evidence of a result.
  pub decide_completed :
      (job : AdapterJob) (e : Evidence)
      → (decide_job_from_evidence t job e).status ≡ JobStatus.completed
      → IsKept (context_of t job e) ⊎ IsProven (context_of t job e)
  unfolding decide_job_from_evidence
  decide_completed job e = decide_in-Explains (context_of t job e)

  decide_in_latched :
      (c : DecisionContext)
      → is_job_terminal c.job.status ≡ true
      → is_hollow_completed_job t c.job ≡ false
      → (decide_in t c).status ≡ c.job.status
  unfolding decide_in first_rule_decision terminal_job_rule decide
  decide_in_latched c ended full = ground arith

  decide_in_canceled :
      (c : DecisionContext)
      → is_job_terminal c.job.status ≡ false
      → c.evidence.local_cancel_ack ≡ true
      → (decide_in t c).status ≡ JobStatus.canceled
  unfolding decide_in first_rule_decision terminal_job_rule cancellation_rule decide
  decide_in_canceled c going acknowledged = ground arith

  -- What has ended stays ended: a job that is completed, failed or canceled keeps its status whatever
  -- evidence comes in, unless it was completed without a result to show.
  pub decide_latched :
      (job : AdapterJob) (e : Evidence)
      → is_job_terminal job.status ≡ true
      → is_hollow_completed_job t job ≡ false
      → (decide_job_from_evidence t job e).status ≡ job.status
  unfolding decide_job_from_evidence
  decide_latched job e = decide_in_latched (context_of t job e)

  -- A cancellation comes first: a job that has not ended is canceled once the runtime has
  -- acknowledged its cancellation, whatever else the evidence shows.
  pub decide_canceled :
      (job : AdapterJob) (e : Evidence)
      → is_job_terminal job.status ≡ false
      → e.local_cancel_ack ≡ true
      → (decide_job_from_evidence t job e).status ≡ JobStatus.canceled
  unfolding decide_job_from_evidence
  decide_canceled job e = decide_in_canceled (context_of t job e)
