-- ===== src/Pipeline/Response/Effects.antt =====
-- What the parts of `Enforce` that reach the operating system keep: a property of the actor's state
-- that survives any call on the target survives them.
use container_runtime_securi.Prelude.{
  ℕ, nat_comparable, string_comparable, bytes_comparable, ◌==◌, inl, inr, [], ◌∷◌, ◌++◌, Bool-cases,
  Option-cases,
}
use container_runtime_securi.Pipeline.Event.{EnrichedEvent, RuleMatch, action_enforce}
use container_runtime_securi.Pipeline.Response.{
  Os, ResponseActor, enforce_mode_graceful, kill, send_sigkill, send_sigterm,
  execute_immediate_kill, grace_period_of, execute_graceful_kill, execute,
}

module _ (os : Os) (P : ResponseActor → Type 0) (event : EnrichedEvent)
    (called : (r : ResponseActor) (sig : ℕ)
      → P r
      → P (record r { calls = (event.raw_event.pid, sig) ∷ r.calls })) where
  pub send_sigkill-keeps : (r : ResponseActor) → P r → P ((send_sigkill os r event.raw_event.pid).0)
  unfolding send_sigkill kill
  send_sigkill-keeps r h = elim (Option-cases (os.kill_error r.calls event.raw_event.pid 9)) [
    | inl e ↦
        rw e (called (record r { calls = (event.raw_event.pid, 9) ∷ r.calls }) 0 (called r 9 h))
    | inr (err, e) ↦ rw e (called r 9 h)
  ]

  pub execute_immediate_kill-keeps :
      (r : ResponseActor) (rule : RuleMatch) (start : ℕ)
      → P r
      → P ((execute_immediate_kill os r event rule start).0)
  unfolding execute_immediate_kill
  execute_immediate_kill-keeps r rule start h = send_sigkill-keeps r h

  module _
      (waits : (r : ResponseActor) (rule : RuleMatch) (grace : ℕ)
        → P r
        → P (record r {
          pending = r.pending ++ (record { event = event; rule = rule; grace_period = grace } ∷ []);
        })) where
    pub execute_graceful_kill-keeps :
        (r : ResponseActor) (rule : RuleMatch) (start : ℕ)
        → P r
        → P ((execute_graceful_kill os r event rule start).0)
    unfolding execute_graceful_kill send_sigterm kill
    execute_graceful_kill-keeps r rule start h =
        elim (Option-cases (os.kill_error r.calls event.raw_event.pid 15)) [
          | inl e ↦ rw e (
              waits (record r { calls = (event.raw_event.pid, 15) ∷ r.calls }) rule
                (grace_period_of r.config) (called r 15 h))
          | inr (err, e) ↦ rw e (
              execute_immediate_kill-keeps
                (record r { calls = (event.raw_event.pid, 15) ∷ r.calls }) rule start
                (called r 15 h))
        ]

    pub execute-keeps :
        (r : ResponseActor) (rule : RuleMatch) (start : ℕ)
        → P r
        → P ((execute os r event rule start).0)
    unfolding execute
    execute-keeps r rule start h = elim (Bool-cases (rule.action == action_enforce)) [
      | inl wanted ↦ elim (Bool-cases (r.config.mode == enforce_mode_graceful)) [
        | inl graceful ↦ rw (wanted, graceful) (execute_graceful_kill-keeps r rule start h)
        | inr immediate ↦ rw (wanted, immediate) (execute_immediate_kill-keeps r rule start h)
      ]
      | inr other ↦ rw other h
    ]
