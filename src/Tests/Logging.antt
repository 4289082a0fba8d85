-- ===== src/Tests/Logging.antt =====
-- Tests of the audit log.
use container_runtime_securi.Prelude.{
  ℕ, nat_comparable, string_comparable, bytes_comparable, ◌≡◌, refl, true, List, [], ◌∷◌, arith,
}
use container_runtime_securi.Pipeline.AuditLog.{
  EnforcementResult, EnforcementAuditLog, recent, count_entries, count_by_reason, count_by_rule,
  successful_kills, skipped_enforcements, summary,
}
use container_runtime_securi.Pipeline.AuditLog.History.{
  record_all, counted, recent-record_all, count_entries-record_all, counted-count_by_reason,
  summary_lem,
}

abbrev entry : ℕ → EnforcementResult
entry pid = record {
  action = "sigkill";
  signal = "SIGKILL";
  target_pid = pid;
  success = true;
  reason = "killed";
  rule_id = "R009";
  container = "web";
  namespace = "prod";
  timestamp = 1;
  latency_us = 7;
}

abbrev small_log : EnforcementAuditLog
small_log = record { entries = []; max_size = 2 }

abbrev history : List EnforcementResult
history = entry 3 ∷ entry 4 ∷ entry 5 ∷ []

recent-record_all_example : recent (record_all small_log history) 1 ≡ entry 5 ∷ []
recent-record_all_example = recent-record_all small_log history 1 (omega arith) refl

count_entries-record_all_example : count_entries (record_all small_log history) ≡ 2
count_entries-record_all_example = count_entries-record_all small_log history (omega arith) refl

abbrev full_log : EnforcementAuditLog
full_log = record { entries = history; max_size = 2 }

counted-count_by_reason_example : counted (count_by_reason full_log) "killed" ≡ 3
counted-count_by_reason_example = counted-count_by_reason full_log "killed"

summary_lem_example : summary full_log ≡ record {
  total_decisions = count_entries full_log;
  successful_kills = successful_kills full_log;
  skipped_enforcements = skipped_enforcements full_log;
  by_reason = count_by_reason full_log;
  by_rule = count_by_rule full_log;
}
summary_lem_example = summary_lem full_log
