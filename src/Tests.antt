-- ===== src/Tests.antt =====
-- Concrete inputs for the tests of the modules below.
mod Decoding
mod Filtering
mod Response
mod Routing
mod Logging
mod Correlating
mod Blocking
mod Ranking
mod Ruling
mod Names
mod Enriching
use container_runtime_securi.Prelude.{
  ℕ, zero, suc, nat_comparable, string_comparable, bytes_comparable, Comparable, ◌==◌, ==_iff,
  ==_refl, bytes_beq, bytes_beq_iff, String, ◌<>◌, ◌+◌, ◌-◌, ◌*◌, ◌/◌, ◌%◌, ◌^◌, ◌≤◌, ◌<◌, ◌≡◌,
  refl, sym, ap, ◌∙◌, ◌≢◌, ◌↔◌, ◌⊎◌, inl, inr, Bool, true, false, not, ◌&&◌, ◌||◌, Option, none,
  some, List, [], ◌∷◌, ◌++◌, map, arith, ltb, leb, if◌then◌else◌, Bool-cases, Option-cases, length,
  get_elem?, take, drop, replicate, keep_if, length-append, take-append-drop, length-take,
  length-drop, take_append_left, drop_append_left, length-keep_if-le, drop_behind, get_elem?_behind,
  AllOf, append-AllOf, split-AllOf,
}
use container_runtime_securi.Prelude.Float.{Float64}
use container_runtime_securi.Ebpf.Event.{EventPayload, ScarletEvent}
use container_runtime_securi.Pipeline.Event.{EnrichedEvent, RuleMatch, action_enforce}
use container_runtime_securi.Pipeline.Response.{
  Os, ResponseActor, default_response_actor_config, new_response_actor,
}

-- A float64 that only has natural values.
abbrev pub naturals : Float64
naturals = record {
  F = ℕ;
  zero_f = 0;
  one_f = 1;
  lt = ltb;
  le = leb;
  lt-zero-zero = refl;
  lt-one-zero = refl;
  lt-zero-one = refl;
  lt-one-one = refl;
}

-- A kernel where a process dies of the first signal that it gets.
abbrev pub os : Os
os = record {
  kill_error =
      λ calls pid sig. if sig == 0 && ltb 0 (length calls) then some "no such process" else none;
  elapsed_us = λ calls. 7;
  decimal = λ n. if n == 0 then "0" else "n";
}

abbrev pub payload : EventPayload
payload = record {
  process = record { filename = []; args = [] };
  file = record { path = []; flags = 0; mode = 0 };
  network = record {
    local_addr = replicate 4 0;
    remote_addr = 10 ∷ 0 ∷ 0 ∷ 7 ∷ [];
    local_port = 0;
    remote_port = 3333;
    protocol = 6;
    family = 2;
  };
  escape = record { ns_type = 0; target_ns = []; ns_count = 0 };
  privilege = record { old_uid = 0; new_uid = 0; capability = 0; mode_flags = 0 };
}

abbrev pub raw_event : ScarletEvent
raw_event = record {
  timestamp_ns = 5;
  pid = 4242;
  tgid = 4242;
  ppid = 4000;
  uid = 0;
  gid = 0;
  cgroup_id = 99;
  pid_ns_level = 1;
  category = 6;
  event_type = 1;
  syscall_nr = 59;
  comm = replicate 16 0;
  payload = payload;
}

abbrev pub event : EnrichedEvent
event = record {
  raw_event = raw_event;
  container_id = "c1";
  container_name = "web";
  container_image = "nginx";
  container_attributed = true;
  pod_name = "web-0";
  namespace = "prod";
  service_account = "";
  pod_labels = [];
  privileged = false;
  node_name = "n1";
}

abbrev pub rule : RuleMatch
rule = record {
  rule_id = "R009";
  rule_name = "Mining Pool Connection";
  priority = "CRITICAL";
  action = action_enforce;
  output = [];
  tags = [];
}

abbrev pub actor : ResponseActor
actor = new_response_actor "enforce" default_response_actor_config 100
