-- ===== src/Pipeline/Response/Guards.antt =====
-- The safety rules of `Enforce` (pkg/pipeline/response.go).
use container_runtime_securi.Prelude.{
  ℕ, nat_comparable, string_comparable, bytes_comparable, ◌==◌, ==_iff, String, ◌<>◌, ◌<◌, ◌≡◌, sym,
  ap, ◌∙◌, ◌≢◌, ◌↔◌, ◌⊎◌, inl, inr, true, false, not, ◌||◌, ◌∷◌, arith, Bool-cases, Option-cases,
  length,
}
use container_runtime_securi.Pipeline.Event.{EnrichedEvent, RuleMatch, action_enforce}
use container_runtime_securi.Pipeline.RateLimiter.{RateLimiter, allow}
use container_runtime_securi.Pipeline.AuditLog.{EnforcementResult}
use container_runtime_securi.Pipeline.Response.{
  Os, ResponseActor, enforce_mode_graceful, enforce_sigkill, finish, make_result, is_protected,
  kill, send_sigkill, send_sigterm, execute_immediate_kill, execute_graceful_kill, execute, enforce,
}

-- The seven rules of the safety protocol.
pub record IsClear (r : ResponseActor) (event : EnrichedEvent) (now : ℕ) : Type 0 where
  pub attributed : event.container_attributed ≡ true
  pub identified : event.container_id ≢ ""
  pub live : r.mode ≢ "simulate"
  pub unprotected : is_protected r.config event.namespace ≡ false
  pub not_idle : event.raw_event.pid ≢ 0
  pub not_init : event.raw_event.pid ≢ 1
  pub not_agent : event.raw_event.pid ≢ r.agent_pid
  pub not_child : event.raw_event.ppid ≢ r.agent_pid
  pub in_budget : (allow r.rate_limiter (event.namespace <> "/" <> event.pod_name) now).1 ≡ true
  pub scoped : event.namespace ≢ ""

-- The actor when the rate limiter has answered.
abbrev pub asked : ResponseActor → EnrichedEvent → ℕ → ResponseActor
asked r event now = record r {
  rate_limiter = (allow r.rate_limiter (event.namespace <> "/" <> event.pod_name) now).0;
}

-- A refusal: only the rate limiter may have changed, and the reason goes to the log.
abbrev pub refused :
    ResponseActor
    → EnrichedEvent
    → RuleMatch
    → ℕ
    → RateLimiter
    → String
    → ResponseActor × EnforcementResult
refused r event rule start limiter reason =
    finish (record r { rate_limiter = limiter })
      (record (make_result event rule start enforce_sigkill "") { reason = reason })

module _ (os : Os) where
  pub enforce-cases :
      (r : ResponseActor) (event : EnrichedEvent) (rule : RuleMatch) (start now : ℕ)
      → (IsClear r event now
          × (enforce os r event rule start now
              ≡ finish
                  (execute os (asked r event now) event rule start).0
                  (execute os (asked r event now) event rule start).1))
        ⊎ ((limiter : RateLimiter) × (reason : String) × (enforce os r event rule start now
              ≡ refused r event rule start limiter reason))
  unfolding enforce finish
  enforce-cases r event rule start now =
      elim (Bool-cases (not event.container_attributed || event.container_id == "")) [
        | inl c ↦ inr (r.rate_limiter, "no_container_id", rw c)
        | inr c0 ↦ elim (Bool-cases (r.mode == "simulate")) [
          | inl c ↦ inr (r.rate_limiter, "simulate_mode", rw (c0, c))
          | inr c1 ↦ elim (Bool-cases (is_protected r.config event.namespace)) [
            | inl c ↦ inr (r.rate_limiter, "protected_namespace", rw (c0, c1, c))
            | inr c2 ↦ elim (Bool-cases (event.raw_event.pid == 0 || event.raw_event.pid == 1)) [
              | inl c ↦ inr (r.rate_limiter, "init_process", rw (c0, c1, c2, c))
              | inr c3 ↦
                  elim (Bool-cases
                    (event.raw_event.pid == r.agent_pid || event.raw_event.ppid == r.agent_pid)) [
                      | inl c ↦ inr (r.rate_limiter, "self_preservation", rw (c0, c1, c2, c3, c))
                      | inr c4 ↦
                          elim (Bool-cases (
                            not
                              (allow r.rate_limiter (event.namespace <> "/" <> event.pod_name)
                                now).1)) [
                                  | inl c ↦ inr (
                                    (asked r event now).rate_limiter,
                                    "rate_limited",
                                    rw (c0, c1, c2, c3, c4, c),
                                  )
                                  | inr c5 ↦ elim (Bool-cases (event.namespace == "")) [
                                    | inl c ↦ inr (
                                      (asked r event now).rate_limiter,
                                      "no_namespace_scope",
                                      rw (c0, c1, c2, c3, c4, c5, c),
                                    )
                                    | inr c6 ↦ inl (
                                      ground (
                                        arith,
                                        ==_iff event.container_id "",
                                        ==_iff r.mode "simulate",
                                        ==_iff event.namespace "",
                                      ),
                                      rw (c0, c1, c2, c3, c4, c5, c6),
                                    )
                                  ]
                                ]
                    ]
            ]
          ]
        ]
      ]

  -- An event that passes the seven rules is acted on.
  enforce-clear :
      (r : ResponseActor) (event : EnrichedEvent) (rule : RuleMatch) (start now : ℕ)
      → IsClear r event now
      → enforce os r event rule start now
        ≡ finish
            (execute os (asked r event now) event rule start).0
            (execute os (asked r event now) event rule start).1
  unfolding enforce
  enforce-clear r event rule start now clear =
      let id = ==_iff event.container_id "" in
      let c0 : not event.container_attributed || event.container_id == "" ≡ false =
        ground (arith, clear.attributed, clear.identified, id) in
      let c1 : r.mode == "simulate" ≡ false =
        ground (arith, clear.live, ==_iff r.mode "simulate") in
      let c3 : event.raw_event.pid == 0 || event.raw_event.pid == 1 ≡ false =
        ground (arith, clear.not_idle, clear.not_init) in
      let c4 : event.raw_event.pid == r.agent_pid || event.raw_event.ppid == r.agent_pid ≡ false =
        ground (arith, clear.not_agent, clear.not_child) in
      let c6 : event.namespace == "" ≡ false =
        ground (arith, clear.scoped, ==_iff event.namespace "") in
      rw (c0, c1, clear.unprotected, c3, c4, clear.in_budget, c6)

  send_sigkill-calls :
      (r : ResponseActor) (pid : ℕ) → length r.calls < length ((send_sigkill os r pid).0.calls)
  unfolding send_sigkill kill
  send_sigkill-calls r pid = elim (Option-cases (os.kill_error r.calls pid 9)) [
    | inl e ↦ rw e (omega arith)
    | inr (err, e) ↦ rw e (omega arith)
  ]

  execute_immediate_kill-calls :
      (r : ResponseActor) (event : EnrichedEvent) (rule : RuleMatch) (start : ℕ)
      → length r.calls < length ((execute_immediate_kill os r event rule start).0.calls)
  unfolding execute_immediate_kill
  execute_immediate_kill-calls r event rule start = send_sigkill-calls r event.raw_event.pid

  execute_graceful_kill-calls :
      (r : ResponseActor) (event : EnrichedEvent) (rule : RuleMatch) (start : ℕ)
      → length r.calls < length ((execute_graceful_kill os r event rule start).0.calls)
  unfolding execute_graceful_kill send_sigterm kill
  execute_graceful_kill-calls r event rule start =
      let r' : ResponseActor = record r { calls = (event.raw_event.pid, 15) ∷ r.calls } in
      let more : length r.calls < length ((execute_immediate_kill os r' event rule start).0.calls) =
        omega (arith, execute_immediate_kill-calls r' event rule start) in
      elim (Option-cases (os.kill_error r.calls event.raw_event.pid 15)) [
        | inl e ↦ rw e (omega arith)
        | inr (err, e) ↦ rw e more
      ]

  execute-calls :
      (r : ResponseActor) (event : EnrichedEvent) (rule : RuleMatch) (start : ℕ)
      → rule.action ≡ action_enforce
      → length r.calls < length ((execute os r event rule start).0.calls)
  unfolding execute
  execute-calls r event rule start h =
      let wanted : rule.action == action_enforce ≡ true = (==_iff rule.action action_enforce).1 h in
      elim (Bool-cases (r.config.mode == enforce_mode_graceful)) [
        | inl graceful ↦ rw (wanted, graceful) (execute_graceful_kill-calls r event rule start)
        | inr immediate ↦ rw (wanted, immediate) (execute_immediate_kill-calls r event rule start)
      ]

  execute-idle :
      (r : ResponseActor) (event : EnrichedEvent) (rule : RuleMatch) (start : ℕ)
      → (rule.action == action_enforce) ≡ false
      → (execute os r event rule start).0 ≡ r
  unfolding execute
  execute-idle r event rule start h = rw h

  -- `Enforce` makes a system call exactly when all seven safety rules let the event through and
  -- the action of the rule is enforce: the calls made change if and only if these hold.
  pub enforce_calls_iff :
      (r : ResponseActor) (event : EnrichedEvent) (rule : RuleMatch) (start now : ℕ)
      → ((enforce os r event rule start now).0.calls ≢ r.calls)
        ↔ (IsClear r event now × (rule.action ≡ action_enforce))
  unfolding finish
  enforce_calls_iff r event rule start now = (
    λ changed. elim (enforce-cases r event rule start now) [
      | inl (clear, e) ↦ elim (Bool-cases (rule.action == action_enforce)) [
        | inl wanted ↦ (clear, (==_iff rule.action action_enforce).0 wanted)
        | inr other ↦ absurd (
            changed (
              ap (λ p. p.0.calls) e
              ∙ ap (λ q. q.calls) (execute-idle (asked r event now) event rule start other)))
      ]
      | inr (limiter, reason, e) ↦ absurd (changed (ap (λ p. p.0.calls) e))
    ],
    λ h same.
        let grew = execute-calls (asked r event now) event rule start h.1 in
        let all : (enforce os r event rule start now).0.calls
            ≡ (execute os (asked r event now) event rule start).0.calls =
          ap (λ p. p.0.calls) (enforce-clear r event rule start now h.0) in
        let size : length r.calls
            ≡ length ((execute os (asked r event now) event rule start).0.calls) =
          ap length (sym same ∙ all) in
        absurd (omega arith),
  )
