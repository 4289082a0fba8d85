-- ===== src/Tests/Response.antt =====
-- Tests of the response actor and its rate limiter.
use container_runtime_securi.Prelude.{
  nat_comparable, string_comparable, bytes_comparable, ◌*◌, ◌≤◌, ◌≡◌, refl, ◌≢◌, ◌↔◌, List, [], ◌∷◌,
  arith,
}
use container_runtime_securi.Prelude.GoMap
use container_runtime_securi.Pipeline.Event.{action_enforce}
use container_runtime_securi.Pipeline.RateLimiter.{RateLimiter, new_rate_limiter, restart, allow}
use container_runtime_securi.Pipeline.RateLimiter.Budget.{
  Use, ask, grants, after, granted, granted-le,
}
use container_runtime_securi.Pipeline.AuditLog.{record_result}
use container_runtime_securi.Pipeline.Response.{
  default_response_actor_config, new_response_actor, enforce, execute, execute_immediate_kill,
  send_sigkill, kill, finish, make_result, protect, is_protected,
}
use container_runtime_securi.Pipeline.Response.Guards.{IsClear, enforce_calls_iff}
use container_runtime_securi.Pipeline.Response.Audit.{IsAbout, enforce_recorded}
use container_runtime_securi.Pipeline.Response.Reachable.{
  decide, done, also, IsSafe, reachable-IsSafe,
}
use container_runtime_securi.Tests.{os, event, rule, actor}

kills : (enforce os actor event rule 10 11).0.calls ≡ (4242, 0) ∷ (4242, 9) ∷ []
unfolding enforce execute execute_immediate_kill send_sigkill kill finish make_result protect
    is_protected new_response_actor default_response_actor_config new_rate_limiter restart allow
    record_result GoMap.get GoMap.put
kills = refl

enforce_calls_iff_example :
    ((enforce os actor event rule 10 11).0.calls ≢ actor.calls)
    ↔ (IsClear actor event 11 × (rule.action ≡ action_enforce))
enforce_calls_iff_example = enforce_calls_iff os actor event rule 10 11

enforce_recorded_example :
    ((enforce os actor event rule 10 11).0.audit_log
      ≡ record_result actor.audit_log (enforce os actor event rule 10 11).1)
    × IsAbout event rule 10 ((enforce os actor event rule 10 11).1)
enforce_recorded_example = enforce_recorded os event rule actor 10 11

reachable-IsSafe_example :
    IsSafe default_response_actor_config 100 ((enforce os actor event rule 10 11).0)
reachable-IsSafe_example =
    reachable-IsSafe os default_response_actor_config 100 "enforce"
      (enforce os actor event rule 10 11).0
      (also actor actor (enforce os actor event rule 10 11).0 (done actor)
        (decide actor event rule 10 11))

abbrev three_asks : List Use
three_asks = ask "prod/web-0" 5 ∷ ask "prod/web-0" 6 ∷ ask "prod/web-0" 7 ∷ []

abbrev one_kill : RateLimiter
one_kill = record { max_per_window = 1; window = 60; counters = [] }

one_granted : granted "prod/web-0" one_kill three_asks ≡ 1
unfolding granted grants after allow restart GoMap.get GoMap.put
one_granted = refl

granted-le_example : granted "prod/web-0" one_kill three_asks ≤ 2 * 1
granted-le_example =
    granted-le "prod/web-0" 5 one_kill three_asks (omega arith) tt
      (omega arith, omega arith, (omega arith, omega arith, (omega arith, omega arith, tt)))
