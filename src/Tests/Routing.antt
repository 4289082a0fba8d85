-- ===== src/Tests/Routing.antt =====
-- Tests of the routing of decisions and of the coalescer.
use container_runtime_securi.Prelude.{
  ℕ, nat_comparable, string_comparable, bytes_comparable, ◌+◌, ◌≡◌, refl, ◌≢◌, ◌⊎◌, true, false,
  Option, none, some, List, [], ◌∷◌, arith, length,
}
use container_runtime_securi.Prelude.{pair_comparable}
use container_runtime_securi.Prelude.GoMap
use container_runtime_securi.Prelude.Slices.{Bytes}
use container_runtime_securi.Pipeline.Event.{action_enforce}
use container_runtime_securi.Pipeline.RateLimiter.{new_rate_limiter, restart, allow}
use container_runtime_securi.Pipeline.AuditLog.{record_result}
use container_runtime_securi.Pipeline.Response.{
  default_response_actor_config, new_response_actor, enforce, execute, execute_immediate_kill,
  send_sigkill, kill, finish, make_result, protect, is_protected,
}
use container_runtime_securi.Pipeline.Response.Guards.{IsClear}
use container_runtime_securi.Pipeline.Coalescer.{Alert, new_coalescer, flush}
use container_runtime_securi.Pipeline.Coalescer.Conservation.{
  add_all, total_weight, flush-add_all, length-add_all,
}
use container_runtime_securi.Ebpf.Fields.{null_terminated, byte_at, remote_ip, dotted_quad}
use container_runtime_securi.Prelude.Text.{decimal}
use container_runtime_securi.Pipeline.Route.{
  Pipeline, block_mining_pool, build_alert, emit, execute_enforcement, block_destination,
  handle_network_block, mode_action, triage, execute_action, route_decision,
}
use container_runtime_securi.Pipeline.Route.Safety.{route_decision-IsClear, route_decision-blocks}
use container_runtime_securi.Tests.{naturals, os, event, rule, actor}

abbrev parse_ip : Bytes → Option Bytes
parse_ip s = some (10 ∷ 0 ∷ 0 ∷ 7 ∷ [])

abbrev pipeline : Pipeline naturals
pipeline = record {
  mode = "enforce";
  has_net_enforcer = true;
  has_alert_emitter = true;
  ai_trier = none;
  response = actor;
  coalescer = record { window = 5; entries = [] };
  blocks = [];
  emitted = [];
  alerts_emitted = 0;
  enforcements_exec = 0;
}

abbrev routed : Pipeline naturals
routed = route_decision naturals parse_ip os pipeline event rule 10 11

routed_kills : routed.response.calls ≡ (4242, 0) ∷ (4242, 9) ∷ []
unfolding route_decision execute_action triage mode_action handle_network_block block_destination
    remote_ip dotted_quad byte_at decimal execute_enforcement emit build_alert null_terminated
    enforce execute execute_immediate_kill send_sigkill kill finish make_result protect is_protected
    new_response_actor default_response_actor_config new_rate_limiter restart allow record_result
    GoMap.get GoMap.put
routed_kills = refl

actor_idle : actor.calls ≡ []
unfolding new_response_actor
actor_idle = refl

routed_changed : routed.response.calls ≢ pipeline.response.calls
routed_changed e = cc (e, routed_kills, actor_idle)

route_decision-IsClear_example :
    (event.container_attributed ≡ true)
    × ((rule.action ≡ action_enforce)
        × ((pipeline.mode ≢ "audit") × ((pipeline.mode ≢ "simulate") × IsClear actor event 11)))
route_decision-IsClear_example =
    route_decision-IsClear naturals parse_ip os pipeline event rule 10 11 routed_changed

routed_blocks : routed.blocks ≡ block_mining_pool (10 ∷ 0 ∷ 0 ∷ 7 ∷ []) 3333 ∷ []
unfolding route_decision execute_action triage mode_action handle_network_block block_destination
    remote_ip dotted_quad byte_at decimal execute_enforcement emit build_alert null_terminated
    GoMap.get
routed_blocks = refl

blocks_changed : routed.blocks ≢ pipeline.blocks
blocks_changed e = cc (e, routed_blocks)

route_decision-blocks_example :
    (pipeline.has_net_enforcer ≡ true)
    × ((pipeline.mode ≢ "audit")
        × ((pipeline.mode ≢ "simulate")
            × ((rule.rule_id ≡ "R009") ⊎ ((rule.rule_id ≡ "R027") ⊎ (rule.rule_id ≡ "R019")))))
route_decision-blocks_example =
    route_decision-blocks naturals parse_ip os pipeline event rule 10 11 blocks_changed

abbrev alert : Alert
alert = record {
  rule_id = "R001";
  rule_name = "";
  priority = "INFO";
  action = "alert";
  output = [];
  process_name = [];
  pid = 7;
  ppid = 1;
  uid = 0;
  gid = 0;
  container_id = "c1";
  container_name = "";
  container_image = "";
  pod_name = "";
  namespace = "";
  service_account = "";
  node_name = "";
  tags = [];
  simulated = false;
  enforcement_result = none;
  event_count = 0;
  coalesced = false;
}

abbrev three_alerts : List (Alert × ℕ)
three_alerts = (alert, 1) ∷ (alert, 2) ∷ (record alert { rule_id = "R002" }, 3) ∷ []

flush-add_all_example : total_weight (flush ((add_all (new_coalescer 5) three_alerts).0) true).1 ≡ 3
flush-add_all_example = flush-add_all 5 three_alerts (omega arith) (refl, (refl, (refl, tt)))

length-add_all_example :
    length ((add_all (new_coalescer 5) three_alerts).0.entries)
    ≡ length ((new_coalescer 5).entries) + length (add_all (new_coalescer 5) three_alerts).1
length-add_all_example = length-add_all (new_coalescer 5) three_alerts
