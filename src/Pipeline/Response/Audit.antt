-- ===== src/Pipeline/Response/Audit.antt =====
-- The log entries of `Enforce` and the protected namespaces (pkg/pipeline/response.go).
use container_runtime_securi.Prelude.{
  ℕ, nat_comparable, string_comparable, bytes_comparable, ◌==◌, ==_iff, String, ◌≡◌, refl, ap, ◌↔◌,
  ◌⊎◌, inl, inr, Bool, true, some, List, [], ◌∷◌, arith, Bool-cases, Option-cases,
}
use container_runtime_securi.Prelude.GoMap
use container_runtime_securi.Prelude.GoMap.{GoMap, get-put}
use container_runtime_securi.Pipeline.Event.{EnrichedEvent, RuleMatch, action_enforce}
use container_runtime_securi.Pipeline.AuditLog.{EnforcementResult, record_result}
use container_runtime_securi.Pipeline.Response.{
  Os, ResponseActorConfig, ResponseActor, enforce_mode_graceful, finish, make_result, protect,
  is_protected, kill, send_sigkill, send_sigterm, execute_immediate_kill, execute_graceful_kill,
  execute, enforce,
}
use container_runtime_securi.Pipeline.Response.Effects.{execute-keeps}
use container_runtime_securi.Pipeline.Response.Guards.{asked, enforce-cases}

-- What a result says of the event and the rule that it is about.
pub record IsAbout (event : EnrichedEvent) (rule : RuleMatch) (start : ℕ) (x : EnforcementResult)
    : Type 0 where
  pub target_pid : x.target_pid ≡ event.raw_event.pid
  pub rule_id : x.rule_id ≡ rule.rule_id
  pub container : x.container ≡ event.container_name
  pub namespace : x.namespace ≡ event.namespace
  pub timestamp : x.timestamp ≡ start

module _ (os : Os) (event : EnrichedEvent) (rule : RuleMatch) where
  execute_immediate_kill-IsAbout :
      (r : ResponseActor) (start : ℕ)
      → IsAbout event rule start ((execute_immediate_kill os r event rule start).1)
  unfolding execute_immediate_kill make_result send_sigkill kill
  execute_immediate_kill-IsAbout r start =
      elim (Option-cases ((send_sigkill os r event.raw_event.pid).1)) [
        | inl e ↦ rw e (record {
          target_pid = refl;
          rule_id = refl;
          container = refl;
          namespace = refl;
          timestamp = refl;
        })
        | inr (err, e) ↦ rw e (record {
          target_pid = refl;
          rule_id = refl;
          container = refl;
          namespace = refl;
          timestamp = refl;
        })
      ]

  execute_graceful_kill-IsAbout :
      (r : ResponseActor) (start : ℕ)
      → IsAbout event rule start ((execute_graceful_kill os r event rule start).1)
  unfolding execute_graceful_kill make_result send_sigterm kill
  execute_graceful_kill-IsAbout r start =
      elim (Option-cases ((send_sigterm os r event.raw_event.pid).1)) [
        | inl e ↦ rw e (record {
          target_pid = refl;
          rule_id = refl;
          container = refl;
          namespace = refl;
          timestamp = refl;
        })
        | inr (err, e) ↦
            rw e (execute_immediate_kill-IsAbout (send_sigterm os r event.raw_event.pid).0 start)
      ]

  execute-IsAbout :
      (r : ResponseActor) (start : ℕ) → IsAbout event rule start ((execute os r event rule start).1)
  unfolding execute make_result
  execute-IsAbout r start = elim (Bool-cases (rule.action == action_enforce)) [
    | inl wanted ↦ elim (Bool-cases (r.config.mode == enforce_mode_graceful)) [
      | inl graceful ↦ rw (wanted, graceful) (execute_graceful_kill-IsAbout r start)
      | inr immediate ↦ rw (wanted, immediate) (execute_immediate_kill-IsAbout r start)
    ]
    | inr other ↦ rw other (record {
      target_pid = refl;
      rule_id = refl;
      container = refl;
      namespace = refl;
      timestamp = refl;
    })
  ]

  execute-audit_log :
      (r : ResponseActor) (start : ℕ) → (execute os r event rule start).0.audit_log ≡ r.audit_log
  execute-audit_log r start =
      execute-keeps os (λ q. q.audit_log ≡ r.audit_log) event (λ q sig h. h) (λ q rule' grace h. h)
        r rule start refl

  -- Whatever `Enforce` decides, it appends exactly one entry to the audit log, the result that it
  -- returns, and this names the event's process, container and namespace, the rule and the start time.
  pub enforce_recorded :
      (r : ResponseActor) (start now : ℕ)
      → ((enforce os r event rule start now).0.audit_log
          ≡ record_result r.audit_log (enforce os r event rule start now).1)
        × IsAbout event rule start ((enforce os r event rule start now).1)
  unfolding finish make_result
  enforce_recorded r start now = elim (enforce-cases os r event rule start now) [
    | inl (clear, e) ↦ rw e (
      ap (λ l. record_result l (execute os (asked r event now) event rule start).1)
          (execute-audit_log (asked r event now) start),
      execute-IsAbout (asked r event now) start,
    )
    | inr (limiter, reason, e) ↦ rw e (
      refl,
      record {
        target_pid = refl;
        rule_id = refl;
        container = refl;
        namespace = refl;
        timestamp = refl;
      },
    )
  ]

-- The list holds the name.
abbrev pub Listed : String → List String → Type 0
Listed ns [] = ⊥
Listed ns (x ∷ xs) = (x ≡ ns) ⊎ Listed ns xs

protect_lem :
    (m : GoMap String Bool) (xs : List String) (ns : String)
    → (GoMap.get (protect m xs) ns ≡ some true) ↔ ((GoMap.get m ns ≡ some true) ⊎ Listed ns xs)
unfolding protect
protect_lem m [] ns = (λ h. inl h, λ h. elim h [ inl e ↦ e | inr e ↦ absurd e ])
protect_lem m (x ∷ xs) ns =
    let rest = protect_lem (GoMap.put m x true) xs ns in
    let first : (GoMap.get (GoMap.put m x true) ns ≡ some true)
        ↔ ((x ≡ ns) ⊎ (GoMap.get m ns ≡ some true)) =
      ground (arith, get-put m x ns true, ==_iff x ns) in
    (
      λ h. elim (rest.0 h) [
        | inl e ↦ elim (first.0 e) [ inl same ↦ inr (inl same) | inr old ↦ inl old ]
        | inr later ↦ inr (inr later)
      ],
      λ h. rest.1 (elim h [
        | inl old ↦ inl (first.1 (inr old))
        | inr (inl same) ↦ inl (first.1 (inl same))
        | inr (inr later) ↦ inr later
      ]),
    )

empty_map : (ns : String) → GoMap.get {V = Bool} [] ns ≡ some true → ⊥
unfolding GoMap.get
empty_map ns e = cc

-- A namespace is protected exactly when the configuration lists it.
pub is_protected_iff :
    (cfg : ResponseActorConfig) (ns : String)
    → (is_protected cfg ns ≡ true) ↔ Listed ns cfg.protected_namespaces
unfolding is_protected
is_protected_iff cfg ns =
    let table = protect_lem [] cfg.protected_namespaces ns in
    let there : (is_protected cfg ns ≡ true)
        ↔ (GoMap.get (protect [] cfg.protected_namespaces) ns ≡ some true) =
      ground arith in
    (
      λ h. elim (table.0 (there.0 h)) [ inl e ↦ absurd (empty_map ns e) | inr listed ↦ listed ],
      λ listed. there.1 (table.1 (inr listed)),
    )
