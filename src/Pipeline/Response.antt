-- ===== src/Pipeline/Response.antt =====
-- `ResponseActor` of pkg/pipeline/response.go. `syscall.Kill`, the clock behind `time.Since` and the
-- decimal printing of `fmt` are parameters: a call may look at every call made before it. The
-- escalation goroutine of a graceful kill is a pending entry, which `escalate` runs at any later time.
pub mod Effects
pub mod Guards
pub mod Reachable
pub mod Audit
use container_runtime_securi.Prelude.{
  ℕ, zero, suc, nat_comparable, string_comparable, bytes_comparable, Comparable, ◌==◌, ==_iff,
  ==_refl, bytes_beq, bytes_beq_iff, String, ◌<>◌, ◌+◌, ◌-◌, ◌*◌, ◌/◌, ◌%◌, ◌^◌, ◌≤◌, ◌<◌, ◌≡◌,
  refl, sym, ap, ◌∙◌, ◌≢◌, ◌↔◌, ◌⊎◌, inl, inr, Bool, true, false, not, ◌&&◌, ◌||◌, Option, none,
  some, List, [], ◌∷◌, ◌++◌, map, arith, ltb, leb, if◌then◌else◌, Bool-cases, Option-cases, length,
  get_elem?, take, drop, replicate, keep_if, length-append, take-append-drop, length-take,
  length-drop, take_append_left, drop_append_left, length-keep_if-le, drop_behind, get_elem?_behind,
}
use container_runtime_securi.Prelude.GoMap
use container_runtime_securi.Prelude.GoMap.{GoMap}
use container_runtime_securi.Ebpf.Event.{ScarletEvent}
use container_runtime_securi.Pipeline.Event.{EnrichedEvent, RuleMatch, action_enforce}
use container_runtime_securi.Pipeline.RateLimiter.{RateLimiter, new_rate_limiter, allow}
use container_runtime_securi.Pipeline.AuditLog.{
  EnforcementResult, EnforcementAuditLog, new_audit_log, record_result,
}

-- A process id and a signal number; signal 0 only asks whether the process exists.
abbrev pub Call : Type 0
Call = ℕ × ℕ

-- The operating system, seen from the calls made so far, the newest first.
pub record Os : Type 0 where
  pub kill_error : List Call → ℕ → ℕ → Option String
  pub elapsed_us : List Call → ℕ
  pub decimal : ℕ → String

pub record ResponseActorConfig : Type 0 where
  pub mode : String
  pub grace_period_seconds : ℕ
  pub max_kills_per_pod : ℕ
  pub window_seconds : ℕ
  pub protected_namespaces : List String

abbrev pub enforce_sigterm : String
enforce_sigterm = "sigterm"

abbrev pub enforce_sigkill : String
enforce_sigkill = "sigkill"

abbrev pub enforce_mode_graceful : String
enforce_mode_graceful = "graceful"

abbrev pub enforce_mode_immediate : String
enforce_mode_immediate = "immediate"

unfoldable pub default_response_actor_config : ResponseActorConfig
default_response_actor_config = record {
  mode = enforce_mode_immediate;
  grace_period_seconds = 5;
  max_kills_per_pod = 10;
  window_seconds = 60;
  protected_namespaces = "kube-system" ∷ "kube-public" ∷ [];
}

abbrev pub second : ℕ
second = 1000000000

-- A goroutine that sleeps before it escalates a graceful kill.
pub record Escalation : Type 0 where
  pub event : EnrichedEvent
  pub rule : RuleMatch
  pub grace_period : ℕ

pub record ResponseActor : Type 0 where
  pub config : ResponseActorConfig
  pub mode : String
  pub rate_limiter : RateLimiter
  pub agent_pid : ℕ
  pub audit_log : EnforcementAuditLog
  pub pending : List Escalation
  pub calls : List Call

unfoldable pub new_response_actor : String → ResponseActorConfig → ℕ → ResponseActor
new_response_actor mode cfg agent_pid =
    let window =
      if leb (cfg.window_seconds * second) 0 then 60 * second else cfg.window_seconds * second in
    let max_kills = if leb cfg.max_kills_per_pod 0 then 10 else cfg.max_kills_per_pod in
    record {
      config = cfg;
      mode = mode;
      rate_limiter = new_rate_limiter max_kills window;
      agent_pid = agent_pid;
      audit_log = new_audit_log;
      pending = [];
      calls = [];
    }

unfoldable pub set_mode : ResponseActor → String → ResponseActor
set_mode r mode = record r { mode = mode }

-- `r.auditLog.Record(result); return result`
unfoldable pub finish : ResponseActor → EnforcementResult → ResponseActor × EnforcementResult
finish r result = (record r { audit_log = record_result r.audit_log result }, result)

unfoldable pub make_result : EnrichedEvent → RuleMatch → ℕ → String → String → EnforcementResult
make_result event rule start action signal = record {
  action = action;
  signal = signal;
  target_pid = event.raw_event.pid;
  success = false;
  reason = "";
  rule_id = rule.rule_id;
  container = event.container_name;
  namespace = event.namespace;
  timestamp = start;
  latency_us = 0;
}

unfoldable pub protect : GoMap String Bool → List String → GoMap String Bool
protect m [] = m
protect m (ns ∷ rest) = protect (GoMap.put m ns true) rest

-- `protectedNS[event.Namespace]`
unfoldable pub is_protected : ResponseActorConfig → String → Bool
is_protected cfg ns = elim (GoMap.get (protect [] cfg.protected_namespaces) ns) [
  | none ↦ false
  | some b ↦ b
]

unfoldable pub grace_period_of : ResponseActorConfig → ℕ
grace_period_of cfg =
    if leb (cfg.grace_period_seconds * second) 0
    then 5 * second
    else cfg.grace_period_seconds * second

module _ (os : Os) where
  -- `syscall.Kill(pid, sig)`
  unfoldable pub kill : ResponseActor → ℕ → ℕ → ResponseActor × Option String
  kill r pid sig = (record r { calls = (pid, sig) ∷ r.calls }, os.kill_error r.calls pid sig)

  unfoldable pub send_sigkill : ResponseActor → ℕ → ResponseActor × Option String
  send_sigkill r pid =
      let sent = kill r pid 9 in
      let probed = kill sent.0 pid 0 in
      elim sent.1 [
        | some err ↦ (sent.0, some ("kill(" <> os.decimal pid <> ", SIGKILL): " <> err))
        | none ↦ (
          probed.0,
          elim probed.1 [
            | none ↦ some (
                "pid "
                <> os.decimal pid
                <> " still alive after SIGKILL (zombie or insufficient privilege)")
            | some err ↦ none
          ],
        )
      ]

  unfoldable pub send_sigterm : ResponseActor → ℕ → ResponseActor × Option String
  send_sigterm r pid =
      let sent = kill r pid 15 in
      (
        sent.0,
        elim sent.1 [
          | some err ↦ some ("kill(" <> os.decimal pid <> ", SIGTERM): " <> err)
          | none ↦ none
        ],
      )

  unfoldable pub execute_immediate_kill :
      ResponseActor → EnrichedEvent → RuleMatch → ℕ → ResponseActor × EnforcementResult
  execute_immediate_kill r event rule start =
      let sent = send_sigkill r event.raw_event.pid in
      let result = record (make_result event rule start enforce_sigkill "SIGKILL") {
        latency_us = os.elapsed_us sent.0.calls;
      } in
      (
        sent.0,
        elim sent.1 [
          | some err ↦ record result { success = false; reason = "kill_failed: " <> err }
          | none ↦ record result { success = true; reason = "killed" }
        ],
      )

  unfoldable pub execute_graceful_kill :
      ResponseActor → EnrichedEvent → RuleMatch → ℕ → ResponseActor × EnforcementResult
  execute_graceful_kill r event rule start =
      let sent = send_sigterm r event.raw_event.pid in
      let result = record (make_result event rule start enforce_sigterm "SIGTERM") {
        latency_us = os.elapsed_us sent.0.calls;
      } in
      let waiting : Escalation = record {
        event = event;
        rule = rule;
        grace_period = grace_period_of r.config;
      } in
      elim sent.1 [
        | some err ↦ execute_immediate_kill sent.0 event rule start
        | none ↦ (
          record (sent.0) { pending = sent.0.pending ++ (waiting ∷ []) },
          record result { success = true; reason = "sigterm_delivered" },
        )
      ]

  unfoldable pub execute :
      ResponseActor → EnrichedEvent → RuleMatch → ℕ → ResponseActor × EnforcementResult
  execute r event rule start =
      if rule.action == action_enforce
      then if r.config.mode == enforce_mode_graceful
        then execute_graceful_kill r event rule start
        else execute_immediate_kill r event rule start
      else (
        r,
        record (make_result event rule start rule.action "") { reason = "non_enforce_action" },
      )

  -- `Enforce`, which reads the clock at its `start` and again, at `now`, in the rate limiter.
  unfoldable pub enforce :
      ResponseActor → EnrichedEvent → RuleMatch → ℕ → ℕ → ResponseActor × EnforcementResult
  enforce r event rule start now =
      let result = make_result event rule start enforce_sigkill "" in
      let pod_key = event.namespace <> "/" <> event.pod_name in
      let limited = allow r.rate_limiter pod_key now in
      let r' = record r { rate_limiter = limited.0 } in
      let done = execute r' event rule start in
      if not event.container_attributed || event.container_id == ""
      then finish r (record result { reason = "no_container_id" })
      else if r.mode == "simulate"
      then finish r (record result { reason = "simulate_mode" })
      else if is_protected r.config event.namespace
      then finish r (record result { reason = "protected_namespace" })
      else if event.raw_event.pid == 0 || event.raw_event.pid == 1
      then finish r (record result { reason = "init_process" })
      else if event.raw_event.pid == r.agent_pid || event.raw_event.ppid == r.agent_pid
      then finish r (record result { reason = "self_preservation" })
      else if not limited.1
      then finish r' (record result { reason = "rate_limited" })
      else if event.namespace == ""
      then finish r' (record result { reason = "no_namespace_scope" })
      else finish done.0 done.1

  -- The body of the goroutine of `executeGracefulKill` after its sleep, at the time `now`.
  unfoldable pub escalate : ResponseActor → Escalation → ℕ → ResponseActor
  escalate r waiting now =
      let pid = waiting.event.raw_event.pid in
      let probed = kill r pid 0 in
      let killed = send_sigkill probed.0 pid in
      let esc = record (make_result waiting.event waiting.rule now enforce_sigkill "SIGKILL") {
        latency_us = waiting.grace_period / 1000;
      } in
      elim probed.1 [
        | some err ↦ probed.0
        | none ↦ elim killed.1 [
          | some err ↦
              (finish killed.0
                (record esc { success = false; reason = "kill_failed_after_grace: " <> err })).0
          | none ↦
              (finish killed.0 (record esc { success = true; reason = "killed_after_grace" })).0
        ]
      ]
