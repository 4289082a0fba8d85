-- ===== src/Pipeline/Event.antt =====
-- `EnrichedEvent` of pkg/pipeline/pipeline.go and `RuleMatch` of pkg/rules/types.go. The anomaly score,
-- a floating-point number that no decision modelled here reads, is left out.
use container_runtime_securi.Prelude.{
  nat_comparable, string_comparable, bytes_comparable, String, Bool, List,
}
use container_runtime_securi.Prelude.GoMap.{GoMap}
use container_runtime_securi.Prelude.Slices.{Bytes}
use container_runtime_securi.Ebpf.Event.{ScarletEvent}

pub record EnrichedEvent : Type 0 where
  pub raw_event : ScarletEvent
  pub container_id : String
  pub container_name : String
  pub container_image : String
  pub container_attributed : Bool
  pub pod_name : String
  pub namespace : String
  pub service_account : String
  pub pod_labels : GoMap String String
  pub privileged : Bool
  pub node_name : String

pub record RuleMatch : Type 0 where
  pub rule_id : String
  pub rule_name : String
  pub priority : String
  pub action : String
  pub output : Bytes
  pub tags : List String

abbrev pub action_alert : String
action_alert = "alert"

abbrev pub action_enforce : String
action_enforce = "enforce"

abbrev pub action_simulated : String
action_simulated = "simulate"

abbrev pub action_suppress : String
action_suppress = "suppress"
