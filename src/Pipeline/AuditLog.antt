-- ===== src/Pipeline/AuditLog.antt =====
-- `EnforcementAuditLog` of pkg/pipeline/enforcement_log.go, with `EnforcementResult` of
-- pkg/pipeline/response.go. Entries stand oldest first, as in the Go slice.
pub mod History
use container_runtime_securi.Prelude.{
  ℕ, zero, suc, nat_comparable, string_comparable, bytes_comparable, Comparable, ◌==◌, ==_iff,
  ==_refl, bytes_beq, bytes_beq_iff, String, ◌+◌, ◌-◌, ◌*◌, ◌/◌, ◌%◌, ◌^◌, ◌≤◌, ◌<◌, ◌≡◌, refl, sym,
  ap, ◌∙◌, ◌≢◌, ◌↔◌, ◌⊎◌, inl, inr, Bool, true, false, not, ◌&&◌, ◌||◌, Option, none, some, List,
  [], ◌∷◌, ◌++◌, map, arith, ltb, leb, if◌then◌else◌, Bool-cases, Option-cases, length, get_elem?,
  take, drop, replicate, keep_if, length-append, take-append-drop, length-take, length-drop,
  take_append_left, drop_append_left, length-keep_if-le, drop_behind, get_elem?_behind,
}
use container_runtime_securi.Prelude.GoMap
use container_runtime_securi.Prelude.GoMap.{GoMap}

pub record EnforcementResult : Type 0 where
  pub action : String
  pub signal : String
  pub target_pid : ℕ
  pub success : Bool
  pub reason : String
  pub rule_id : String
  pub container : String
  pub namespace : String
  pub timestamp : ℕ
  pub latency_us : ℕ

pub record EnforcementAuditLog : Type 0 where
  pub entries : List EnforcementResult
  pub max_size : ℕ

unfoldable pub new_audit_log : EnforcementAuditLog
new_audit_log = record { entries = []; max_size = 10000 }

-- `Record`: evict the oldest entry at capacity, then append.
unfoldable pub record_result : EnforcementAuditLog → EnforcementResult → EnforcementAuditLog
record_result l result =
    let kept = if leb l.max_size (length l.entries) then drop 1 l.entries else l.entries in
    record l { entries = kept ++ (result ∷ []) }

-- `Recent(n)`; the Go `int` n is a natural number here, and 0 stands for every n ≤ 0.
unfoldable pub recent : EnforcementAuditLog → ℕ → List EnforcementResult
recent l n =
    let n' = if ltb (length l.entries) n then length l.entries else n in
    if leb n' 0 then [] else drop (length l.entries - n') l.entries

unfoldable pub count_entries : EnforcementAuditLog → ℕ
count_entries l = length l.entries

-- `counts[key]++` on a `map[string]int`
unfoldable pub increment : GoMap String ℕ → String → GoMap String ℕ
increment m key = elim (GoMap.get m key) [
  | none ↦ GoMap.put m key 1
  | some n ↦ GoMap.put m key (n + 1)
]

unfoldable pub count_reasons : GoMap String ℕ → List EnforcementResult → GoMap String ℕ
count_reasons m [] = m
count_reasons m (x ∷ xs) = count_reasons (increment m x.reason) xs

unfoldable pub count_by_reason : EnforcementAuditLog → GoMap String ℕ
count_by_reason l = count_reasons [] l.entries

unfoldable pub count_rules : GoMap String ℕ → List EnforcementResult → GoMap String ℕ
count_rules m [] = m
count_rules m (x ∷ xs) = count_rules (if x.rule_id == "" then m else increment m x.rule_id) xs

unfoldable pub count_by_rule : EnforcementAuditLog → GoMap String ℕ
count_by_rule l = count_rules [] l.entries

unfoldable pub is_kill : EnforcementResult → Bool
is_kill x = x.success && (x.action == "sigkill" || x.action == "sigterm")

unfoldable pub successful_kills : EnforcementAuditLog → ℕ
successful_kills l = length (keep_if is_kill l.entries)

unfoldable pub skipped_enforcements : EnforcementAuditLog → ℕ
skipped_enforcements l = length (keep_if (λ x. not x.success) l.entries)

pub record EnforcementSummary : Type 0 where
  pub total_decisions : ℕ
  pub successful_kills : ℕ
  pub skipped_enforcements : ℕ
  pub by_reason : GoMap String ℕ
  pub by_rule : GoMap String ℕ

-- The body of the loop of `Summary`, which updates four counters in one pass.
unfoldable pub summarise_entry : EnforcementSummary → EnforcementResult → EnforcementSummary
summarise_entry s x = record s {
  successful_kills = if is_kill x then s.successful_kills + 1 else s.successful_kills;
  skipped_enforcements =
      if not x.success then s.skipped_enforcements + 1 else s.skipped_enforcements;
  by_reason = increment s.by_reason x.reason;
  by_rule = if x.rule_id == "" then s.by_rule else increment s.by_rule x.rule_id;
}

unfoldable pub summarise : EnforcementSummary → List EnforcementResult → EnforcementSummary
summarise s [] = s
summarise s (x ∷ xs) = summarise (summarise_entry s x) xs

unfoldable pub summary : EnforcementAuditLog → EnforcementSummary
summary l =
    summarise
      (record {
        total_decisions = length l.entries;
        successful_kills = 0;
        skipped_enforcements = 0;
        by_reason = [];
        by_rule = [];
      })
      l.entries
