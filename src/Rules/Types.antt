-- ===== src/Rules/Types.antt =====
-- The compiled rules, their exceptions and the event that they look at, of pkg/rules/engine.go.
use container_runtime_securi.Prelude.{ℕ, String, Bool, Option, List}
use container_runtime_securi.Prelude.GoMap.{GoMap}
use container_runtime_securi.Prelude.Slices.{Bytes}
use container_runtime_securi.Ebpf.Event.{ScarletEvent}

pub record EnrichedEventForRule : Type 0 where
  pub raw : ScarletEvent
  pub container_id : Bytes
  pub container_name : Bytes
  pub container_image : Bytes
  pub container_attributed : Bool
  pub pod_name : Bytes
  pub namespace : Bytes
  pub service_account : Bytes
  pub pod_labels : GoMap Bytes Bytes
  pub privileged : Bool
  pub node_name : Bytes

pub record CorrelationSpec : Type 0 where
  pub window : ℕ
  pub signals : List String
  pub logic : String
  pub group_by : List String

-- `Exception`
pub record RuleException : Type 0 where
  pub name : String
  pub fields : List String
  pub comps : List String
  pub values : List (List Bytes)

pub record CompiledRule : Type 0 where
  pub id : String
  pub name : String
  pub description : String
  pub priority : String
  pub action : String
  pub output : Bytes
  pub tags : List String
  pub category : ℕ
  pub event_types : List ℕ
  pub condition : EnrichedEventForRule → Bool
  pub correlate : Option CorrelationSpec
  pub exceptions : List RuleException
