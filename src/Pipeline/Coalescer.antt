-- ===== src/Pipeline/Coalescer.antt =====
-- `Coalescer` of pkg/pipeline/coalescer.go and the `Alert` of pkg/output/alert.go, without the fields
-- that only describe the event. Go strings that come from the kernel's byte arrays stay byte strings.
pub mod Conservation
use container_runtime_securi.Prelude.{
  ℕ, zero, suc, nat_comparable, string_comparable, bytes_comparable, Comparable, ◌==◌, ==_iff,
  ==_refl, bytes_beq, bytes_beq_iff, String, ◌<>◌, ◌+◌, ◌-◌, ◌*◌, ◌/◌, ◌%◌, ◌^◌, ◌≤◌, ◌<◌, ◌≡◌,
  refl, sym, ap, ◌∙◌, ◌≢◌, ◌↔◌, ◌⊎◌, inl, inr, Bool, true, false, not, ◌&&◌, ◌||◌, Option, none,
  some, List, [], ◌∷◌, ◌++◌, map, arith, ltb, leb, if◌then◌else◌, Bool-cases, Option-cases, length,
  get_elem?, take, drop, replicate, keep_if, length-append, take-append-drop, length-take,
  length-drop, take_append_left, drop_append_left, length-keep_if-le, drop_behind, get_elem?_behind,
}
use container_runtime_securi.Prelude.{pair_comparable}
use container_runtime_securi.Prelude.GoMap
use container_runtime_securi.Prelude.GoMap.{GoMap}
use container_runtime_securi.Prelude.Slices.{Bytes}

pub record EnforcementResultAlert : Type 0 where
  pub action : String
  pub signal : String
  pub target_pid : ℕ
  pub success : Bool
  pub reason : String
  pub latency_us : ℕ
  pub rule_id : String

pub record Alert : Type 0 where
  pub rule_id : String
  pub rule_name : String
  pub priority : String
  pub action : String
  pub output : Bytes
  pub process_name : Bytes
  pub pid : ℕ
  pub ppid : ℕ
  pub uid : ℕ
  pub gid : ℕ
  pub container_id : String
  pub container_name : String
  pub container_image : String
  pub pod_name : String
  pub namespace : String
  pub service_account : String
  pub node_name : String
  pub tags : List String
  pub simulated : Bool
  pub enforcement_result : Option EnforcementResultAlert
  pub event_count : ℕ
  pub coalesced : Bool

-- Rule id, container id and process name.
abbrev pub CoalesceKey : Type 0
CoalesceKey = String × (String × Bytes)

pub record CoalesceEntry : Type 0 where
  pub first : Alert
  pub count : ℕ
  pub last_seen : ℕ

pub record Coalescer : Type 0 where
  pub window : ℕ
  pub entries : GoMap CoalesceKey CoalesceEntry

unfoldable pub new_coalescer : ℕ → Coalescer
new_coalescer window = record { window = window; entries = [] }

unfoldable pub key_of : Alert → CoalesceKey
key_of alert = (alert.rule_id, (alert.container_id, alert.process_name))

-- The two branches of `Add`: the first alert of a group opens it, a further one is counted. A `uint64`
-- count wraps around.
unfoldable pub add_found : Coalescer → Alert → ℕ → Option CoalesceEntry → Coalescer × Bool
add_found c alert now (some entry) = (
  record c {
    entries =
        GoMap.put c.entries (key_of alert)
          (record entry { count = (entry.count + 1) % 2 ^ 64; last_seen = now });
  },
  true,
)
add_found c alert now none = (
  record c {
    entries =
        GoMap.put c.entries (key_of alert) (record { first = alert; count = 1; last_seen = now });
  },
  false,
)

-- `Add` at the time `now`.
unfoldable pub add : Coalescer → Alert → ℕ → Coalescer × Bool
add c alert now = add_found c alert now (GoMap.get c.entries (key_of alert))

-- What `Flush` emits for one group.
unfoldable pub flushed_alert : CoalesceEntry → Alert
flushed_alert entry =
    if ltb 1 entry.count
    then record (entry.first) { event_count = entry.count; coalesced = true }
    else entry.first

-- `Flush`: the coalescer after it, and the alerts emitted if there is an emitter.
unfoldable pub flush : Coalescer → Bool → Coalescer × List Alert
flush c has_emitter =
    (record c { entries = [] }, if has_emitter then map (λ e. flushed_alert e.1) c.entries else [])

unfoldable pub count : Coalescer → ℕ
count c = length c.entries
