-- ===== src/Pipeline/Route.antt =====
-- `routeDecision`, its emitters and `handleNetworkBlock` of pkg/pipeline/pipeline.go. The network
-- enforcer's calls are recorded, `net.ParseIP` and the AI trier are parameters; logs and metrics are left
-- out, and so are the fields of an alert that only describe the event.
pub mod Safety
use container_runtime_securi.Prelude.{
  ℕ, zero, suc, nat_comparable, string_comparable, bytes_comparable, Comparable, ◌==◌, ==_iff,
  ==_refl, bytes_beq, bytes_beq_iff, String, ◌<>◌, ◌+◌, ◌-◌, ◌*◌, ◌/◌, ◌%◌, ◌^◌, ◌≤◌, ◌<◌, ◌≡◌,
  refl, sym, ap, ◌∙◌, ◌≢◌, ◌↔◌, ◌⊎◌, inl, inr, Bool, true, false, not, ◌&&◌, ◌||◌, Option, none,
  some, List, [], ◌∷◌, ◌++◌, map, arith, ltb, leb, if◌then◌else◌, Bool-cases, Option-cases, length,
  get_elem?, take, drop, replicate, keep_if, length-append, take-append-drop, length-take,
  length-drop, take_append_left, drop_append_left, length-keep_if-le, drop_behind, get_elem?_behind,
}
use container_runtime_securi.Prelude.GoMap
use container_runtime_securi.Prelude.GoMap.{GoMap}
use container_runtime_securi.Prelude.Slices.{Bytes}
use container_runtime_securi.Prelude.Float.{Float64}
use container_runtime_securi.Ebpf.Fields.{null_terminated, remote_ip}
use container_runtime_securi.Pipeline.Event.{
  EnrichedEvent, RuleMatch, action_alert, action_enforce, action_simulated, action_suppress,
}
use container_runtime_securi.Pipeline.AuditLog.{EnforcementResult}
use container_runtime_securi.Pipeline.Response.{Os, ResponseActor, enforce}
use container_runtime_securi.Pipeline.Coalescer.{Alert, EnforcementResultAlert, Coalescer, add}

-- A call of the network enforcer.
pub data BlockCall : Type 0 where
  block_mining_pool : Bytes → ℕ → BlockCall
  block_c2_port : Bytes → ℕ → BlockCall
  block_cloud_metadata : BlockCall

abbrev pub network_blocking_rule_ids : GoMap String String
network_blocking_rule_ids =
    ("R009", "mining_pool_connection")
    ∷ ("R027", "c2_port_connection")
    ∷ ("R019", "cloud_metadata_ssrf")
    ∷ []

unfoldable pub build_alert : EnrichedEvent → RuleMatch → String → Alert
build_alert event rule action = record {
  rule_id = rule.rule_id;
  rule_name = rule.rule_name;
  priority = rule.priority;
  action = action;
  output = rule.output;
  process_name = null_terminated event.raw_event.comm;
  pid = event.raw_event.pid;
  ppid = event.raw_event.ppid;
  uid = event.raw_event.uid;
  gid = event.raw_event.gid;
  container_id = event.container_id;
  container_name = event.container_name;
  container_image = event.container_image;
  pod_name = event.pod_name;
  namespace = event.namespace;
  service_account = event.service_account;
  node_name = event.node_name;
  tags = rule.tags;
  simulated = false;
  enforcement_result = none;
  event_count = 0;
  coalesced = false;
}

-- The action after the attribution guard and the operating mode.
unfoldable pub mode_action : String → EnrichedEvent → RuleMatch → String
mode_action mode event rule =
    let action =
      if not event.container_attributed && rule.action == action_enforce
      then action_alert
      else rule.action in
    if mode == "audit"
    then if action == action_enforce then action_alert else action
    else if mode == "simulate"
    then if action == action_enforce then action_simulated else action
    else action

module _ (float : Float64) where
  open float use {F, le}

  pub record AiTriage : Type 0 where
    -- Rule, priority, namespace and container name to the score and the recommended priority.
    pub triage_alert : String → String → String → String → F × String
    pub suppress_threshold : F
    pub downgrade_threshold : F
    pub adjust_threshold : F

  pub record Pipeline : Type 0 where
    pub mode : String
    pub has_net_enforcer : Bool
    pub has_alert_emitter : Bool
    pub ai_trier : Option AiTriage
    pub response : ResponseActor
    pub coalescer : Coalescer
    -- What the pipeline has handed to its network enforcer and its alert emitter, the oldest first.
    pub blocks : List BlockCall
    pub emitted : List Alert
    pub alerts_emitted : ℕ
    pub enforcements_exec : ℕ

  unfoldable pub emit : Pipeline → Alert → Pipeline
  emit p alert = record p {
    emitted = if p.has_alert_emitter then p.emitted ++ (alert ∷ []) else p.emitted;
    alerts_emitted = (p.alerts_emitted + 1) % 2 ^ 64;
  }

  unfoldable pub emit_alert : Pipeline → EnrichedEvent → RuleMatch → ℕ → Pipeline
  emit_alert p event rule now =
      let alert = build_alert event rule action_alert in
      let added = add p.coalescer alert now in
      let p' : Pipeline = record p { coalescer = added.0 } in if added.1 then p' else emit p' alert

  unfoldable pub emit_simulated : Pipeline → EnrichedEvent → RuleMatch → Pipeline
  emit_simulated p event rule =
      emit p (record (build_alert event rule action_simulated) { simulated = true })

  unfoldable pub execute_enforcement : Os → Pipeline → EnrichedEvent → RuleMatch → ℕ → ℕ → Pipeline
  execute_enforcement os p event rule start now =
      let answer = enforce os p.response event rule start now in
      let result = answer.1 in
      let shown : EnforcementResultAlert = record {
        action = result.action;
        signal = result.signal;
        target_pid = result.target_pid;
        success = result.success;
        reason = result.reason;
        latency_us = result.latency_us;
        rule_id = result.rule_id;
      } in
      let p' : Pipeline = record p {
        response = answer.0;
        enforcements_exec = (p.enforcements_exec + 1) % 2 ^ 64;
      } in
      emit p' (record (build_alert event rule action_enforce) { enforcement_result = some shown })

  -- The AI triage: the action, and the match with its priority adjusted.
  unfoldable pub triage : Option AiTriage → EnrichedEvent → RuleMatch → String → String × RuleMatch
  triage none event rule action = (action, rule)
  triage (some ai) event rule action =
      let answer =
        ai.triage_alert rule.rule_id rule.priority event.namespace event.container_name in
      let adjusted : RuleMatch = record rule { priority = answer.1 } in
      if le ai.suppress_threshold answer.0
      then (action_suppress, rule)
      else if le ai.downgrade_threshold answer.0 && not (action == action_enforce)
      then (action, adjusted)
      else if le ai.adjust_threshold answer.0
      then if not (answer.1 == "") && not (answer.1 == rule.priority)
        then (action, adjusted)
        else (action, rule)
      else (action, rule)

  unfoldable pub execute_action :
      Os → Pipeline → EnrichedEvent → RuleMatch → String → ℕ → ℕ → Pipeline
  execute_action os p event rule action start now =
      if action == action_alert
      then emit_alert p event rule now
      else if action == action_enforce
      then execute_enforcement os p event rule start now
      else if action == action_simulated
      then emit_simulated p event rule
      else p

  module _ (parse_ip : Bytes → Option Bytes) where
    -- The block of one destination, which R009 and R027 share but for the call.
    unfoldable pub block_destination :
        Pipeline → EnrichedEvent → String → (Bytes → ℕ → BlockCall) → Pipeline
    block_destination p event mode call =
        let port = event.raw_event.payload.network.remote_port in
        elim (parse_ip (remote_ip event.raw_event)) [
          | none ↦ p
          | some ip ↦
              if ltb 0 port
              then if mode == "simulate"
                then p
                else record p { blocks = p.blocks ++ (call ip port ∷ []) }
              else p
        ]

    unfoldable pub handle_network_block : Pipeline → EnrichedEvent → RuleMatch → String → Pipeline
    handle_network_block p event rule mode =
        elim (GoMap.get network_blocking_rule_ids rule.rule_id) [
          | none ↦ p
          | some reason ↦
              if not p.has_net_enforcer
              then p
              else if rule.rule_id == "R009"
              then block_destination p event mode block_mining_pool
              else if rule.rule_id == "R027"
              then block_destination p event mode block_c2_port
              else if rule.rule_id == "R019"
              then if mode == "simulate"
                then p
                else record p { blocks = p.blocks ++ (block_cloud_metadata ∷ []) }
              else p
        ]

    unfoldable pub route_decision : Os → Pipeline → EnrichedEvent → RuleMatch → ℕ → ℕ → Pipeline
    route_decision os p event rule start now =
        let blocked =
          if p.has_net_enforcer && not (p.mode == "audit")
          then handle_network_block p event rule p.mode
          else p in
        let decided = triage p.ai_trier event rule (mode_action p.mode event rule) in
        execute_action os blocked event decided.1 decided.0 start now
