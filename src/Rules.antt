-- ===== src/Rules.antt =====
-- The severity order of rule matches of pkg/rules/types.go.
pub mod Severity
pub mod Types
pub mod Exceptions
pub mod Engine
pub mod Checks
pub mod Inference
use container_runtime_securi.Prelude.{
  ℕ, String, Bool, not, ◌&&◌, Option, none, some, List, [], ◌∷◌, ltb, if◌then◌else◌, ◌==◌,
  nat_comparable, string_comparable,
}
use container_runtime_securi.Prelude.GoMap
use container_runtime_securi.Prelude.GoMap.{GoMap}
use container_runtime_securi.Pipeline.Event.{RuleMatch, action_enforce}

abbrev pub priority_order : GoMap String ℕ
priority_order =
    ("DEBUG", 0)
    ∷ ("INFO", 1)
    ∷ ("NOTICE", 2)
    ∷ ("WARNING", 3)
    ∷ ("ERROR", 4)
    ∷ ("CRITICAL", 5)
    ∷ ("ALERT", 6)
    ∷ ("EMERGENCY", 7)
    ∷ []

-- `PriorityOrder[priority]`, which is 0 for a priority that is not there.
unfoldable pub rank : String → ℕ
rank priority = elim (GoMap.get priority_order priority) [ none ↦ 0 | some n ↦ n ]

unfoldable pub is_more_severe : RuleMatch → RuleMatch → Bool
is_more_severe m other =
    if not (rank m.priority == rank other.priority)
    then ltb (rank other.priority) (rank m.priority)
    else m.action == action_enforce && not (other.action == action_enforce)
