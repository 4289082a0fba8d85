-- ===== src/Tests/Ranking.antt =====
-- Tests of the severity order.
use container_runtime_securi.Prelude.{◌≡◌, refl, true, false}
use container_runtime_securi.Prelude.GoMap
use container_runtime_securi.Pipeline.Event.{RuleMatch, action_alert}
use container_runtime_securi.Rules.{rank, is_more_severe}
use container_runtime_securi.Rules.Severity.{is_more_severe_order}
use container_runtime_securi.Tests.{rule}

abbrev notice : RuleMatch
notice = record rule { priority = "NOTICE"; action = action_alert }

abbrev alerting : RuleMatch
alerting = record rule { action = action_alert }

enforce_first : is_more_severe rule alerting ≡ true
unfolding is_more_severe rank GoMap.get
enforce_first = refl

is_more_severe_order_example :
    (is_more_severe rule rule ≡ false)
    × ((is_more_severe rule alerting ≡ true
          → is_more_severe alerting notice ≡ true
          → is_more_severe rule notice ≡ true)
        × (is_more_severe rule notice ≡ true
            → is_more_severe rule alerting ≡ false
            → is_more_severe alerting notice ≡ true))
is_more_severe_order_example = is_more_severe_order rule alerting notice
