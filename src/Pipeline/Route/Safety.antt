-- ===== src/Pipeline/Route/Safety.antt =====
-- The effects of a routed decision (pkg/pipeline/pipeline.go).
use container_runtime_securi.Prelude.{
  ℕ, nat_comparable, string_comparable, bytes_comparable, ◌==◌, ==_iff, String, ◌≡◌, refl, ap, ◌∙◌,
  ◌≢◌, ◌↔◌, ◌⊎◌, inl, inr, true, false, not, ◌&&◌, Option, none, some, arith, if◌then◌else◌,
  Bool-cases, Option-cases,
}
use container_runtime_securi.Prelude.GoMap
use container_runtime_securi.Prelude.Slices.{Bytes}
use container_runtime_securi.Prelude.Float.{Float64}
use container_runtime_securi.Pipeline.Event.{
  EnrichedEvent, RuleMatch, action_alert, action_enforce, action_simulated, action_suppress,
}
use container_runtime_securi.Pipeline.Response.{Os, enforce}
use container_runtime_securi.Pipeline.Response.Guards.{IsClear, enforce_calls_iff}
use container_runtime_securi.Ebpf.Fields.{remote_ip}
use container_runtime_securi.Pipeline.Route.{
  BlockCall, block_mining_pool, block_c2_port, network_blocking_rule_ids, AiTriage, Pipeline, emit,
  emit_alert, emit_simulated, execute_enforcement, block_destination, handle_network_block,
  mode_action, triage, execute_action, route_decision,
}

distinct : (a b : String) → (a == b) ≡ false → a ≢ b
distinct a b h e = ground (arith, ==_iff a b)

alert_enforce : action_alert ≢ action_enforce
alert_enforce = distinct action_alert action_enforce refl

simulated_enforce : action_simulated ≢ action_enforce
simulated_enforce = distinct action_simulated action_enforce refl

suppress_enforce : action_suppress ≢ action_enforce
suppress_enforce = distinct action_suppress action_enforce refl

-- The mode leaves an enforcement only for an attributed event, a rule that asks for it, and a mode
-- other than audit and simulate.
mode_action-enforce :
    (mode : String) (event : EnrichedEvent) (rule : RuleMatch)
    → (mode_action mode event rule ≡ action_enforce) ↔ (
        (event.container_attributed ≡ true)
        × ((rule.action ≡ action_enforce) × ((mode ≢ "audit") × (mode ≢ "simulate"))))
unfolding mode_action
mode_action-enforce mode event rule = ground (
  arith,
  ==_iff mode "audit",
  ==_iff mode "simulate",
  ==_iff rule.action action_enforce,
  ==_iff action_alert action_enforce,
  alert_enforce,
  simulated_enforce,
)

network_rule :
    (id reason : String)
    → GoMap.get network_blocking_rule_ids id ≡ some reason
    → (id ≡ "R009") ⊎ ((id ≡ "R027") ⊎ (id ≡ "R019"))
unfolding GoMap.get
network_rule id reason e = ground (arith, ==_iff "R009" id, ==_iff "R027" id, ==_iff "R019" id)

module _ (float : Float64) where
  triage-enforce :
      (ai : Option (AiTriage float)) (event : EnrichedEvent) (rule : RuleMatch) (action : String)
      → (triage float ai event rule action).0 ≡ action_enforce
      → action ≡ action_enforce
  unfolding triage
  triage-enforce none event rule action h = h
  triage-enforce (some ai) event rule action h = ground (arith, suppress_enforce)

  triage-action :
      (ai : Option (AiTriage float)) (event : EnrichedEvent) (rule : RuleMatch) (action : String)
      → (triage float ai event rule action).1.action ≡ rule.action
  unfolding triage
  triage-action none event rule action = refl
  triage-action (some ai) event rule action = ground arith

  module _ (parse_ip : Bytes → Option Bytes) where
    block_destination-response :
        (p : Pipeline float) (event : EnrichedEvent) (mode : String) (call : Bytes → ℕ → BlockCall)
        → (block_destination float parse_ip p event mode call).response ≡ p.response
    unfolding block_destination
    block_destination-response p event mode call =
        elim (Option-cases (parse_ip (remote_ip event.raw_event))) [
          | inl e ↦ ground arith
          | inr (ip, e) ↦ ground arith
        ]

    handle_network_block-response :
        (p : Pipeline float) (event : EnrichedEvent) (rule : RuleMatch) (mode : String)
        → (handle_network_block float parse_ip p event rule mode).response ≡ p.response
    unfolding handle_network_block
    handle_network_block-response p event rule mode =
        elim (Option-cases (GoMap.get network_blocking_rule_ids rule.rule_id)) [
          | inl e ↦ ground arith
          | inr (reason, e) ↦ ground (
            arith,
            block_destination-response p event mode block_mining_pool,
            block_destination-response p event mode block_c2_port,
          )
        ]

    execute_action-response :
        (os : Os) (p : Pipeline float) (event : EnrichedEvent) (rule : RuleMatch) (action : String)
        (start now : ℕ)
        → (execute_action float os p event rule action start now).response ≡ (
            if action == action_enforce
            then (enforce os p.response event rule start now).0
            else p.response)
    unfolding execute_action emit_alert emit_simulated execute_enforcement emit
    execute_action-response os p event rule action start now =
        elim (Bool-cases (action == action_enforce)) [
          | inl acts ↦
              ground
                (arith, ==_iff action action_enforce, ==_iff action action_alert, alert_enforce)
          | inr other ↦ ground arith
        ]

    -- Routing a decision makes a system call only if the event is attributed to a container, the rule's own
    -- action is enforce, the mode of the pipeline is neither audit nor simulate, and the event passes the
    -- response actor's seven safety rules: neither the AI triage nor the network rules can add one.
    pub route_decision-IsClear :
        (os : Os) (p : Pipeline float) (event : EnrichedEvent) (rule : RuleMatch) (start now : ℕ)
        → (route_decision float parse_ip os p event rule start now).response.calls
          ≢ p.response.calls
        → (event.container_attributed ≡ true)
          × ((rule.action ≡ action_enforce)
              × ((p.mode ≢ "audit") × ((p.mode ≢ "simulate") × IsClear p.response event now)))
    unfolding route_decision
    route_decision-IsClear os p event rule start now changed =
        let action = mode_action p.mode event rule in
        let decided = triage float p.ai_trier event rule action in
        let blocked =
          if p.has_net_enforcer && not (p.mode == "audit")
          then handle_network_block float parse_ip p event rule p.mode
          else p in
        let same : blocked.response ≡ p.response =
          elim (Bool-cases (p.has_net_enforcer && not (p.mode == "audit"))) [
            | inl c ↦ rw c (handle_network_block-response p event rule p.mode)
            | inr c ↦ rw c
          ] in
        let after : (route_decision float parse_ip os p event rule start now).response ≡ (
            if decided.0 == action_enforce
            then (enforce os p.response event decided.1 start now).0
            else p.response) =
          execute_action-response os blocked event decided.1 decided.0 start now
          ∙ ap
              (λ q.
                if decided.0 == action_enforce
                then (enforce os q event decided.1 start now).0
                else q)
              same in
        elim (Bool-cases (decided.0 == action_enforce)) [
          | inl acts ↦
              let kept = (mode_action-enforce p.mode event rule).0 (
                triage-enforce p.ai_trier event rule action
                  ((==_iff decided.0 action_enforce).0 acts)) in
              let enforced : (route_decision float parse_ip os p event rule start now).response
                  ≡ (enforce os p.response event decided.1 start now).0 =
                after
                ∙ ap
                    (λ b.
                      if b then (enforce os p.response event decided.1 start now).0 else p.response)
                    acts in
              let clear =
                (enforce_calls_iff os p.response event decided.1 start now).0
                  (λ e. changed (ap (λ q. q.calls) enforced ∙ e)) in
              (kept.0, (kept.1.0, (kept.1.1.0, (kept.1.1.1, clear.0))))
          | inr other ↦ absurd (
              changed (
                ap (λ q. q.calls)
                  (after
                    ∙ ap
                        (λ b.
                          if b
                          then (enforce os p.response event decided.1 start now).0
                          else p.response)
                        other)))
        ]

    block_destination-live :
        (p : Pipeline float) (event : EnrichedEvent) (mode : String) (call : Bytes → ℕ → BlockCall)
        → mode ≡ "simulate"
        → (block_destination float parse_ip p event mode call).blocks ≡ p.blocks
    unfolding block_destination
    block_destination-live p event mode call h =
        let simulated = (==_iff mode "simulate").1 h in
        elim (Option-cases (parse_ip (remote_ip event.raw_event))) [
          | inl e ↦ ground arith
          | inr (ip, e) ↦ ground arith
        ]

    handle_network_block-blocks :
        (p : Pipeline float) (event : EnrichedEvent) (rule : RuleMatch) (mode : String)
        → (mode ≡ "simulate") ⊎ (GoMap.get network_blocking_rule_ids rule.rule_id ≡ none)
        → (handle_network_block float parse_ip p event rule mode).blocks ≡ p.blocks
    unfolding handle_network_block
    handle_network_block-blocks p event rule mode (inl h) =
        let simulated = (==_iff mode "simulate").1 h in
        elim (Option-cases (GoMap.get network_blocking_rule_ids rule.rule_id)) [
          | inl e ↦ ground arith
          | inr (reason, e) ↦ ground (
            arith,
            block_destination-live p event mode block_mining_pool,
            block_destination-live p event mode block_c2_port,
          )
        ]
    handle_network_block-blocks p event rule mode (inr h) = ground arith

    execute_action-blocks :
        (os : Os) (p : Pipeline float) (event : EnrichedEvent) (rule : RuleMatch) (action : String)
        (start now : ℕ)
        → (execute_action float os p event rule action start now).blocks ≡ p.blocks
    unfolding execute_action emit_alert emit_simulated execute_enforcement emit
    execute_action-blocks os p event rule action start now = ground arith

    -- Routing a decision calls the network enforcer only if there is one, the mode is neither audit nor
    -- simulate, and the rule is one of the network rules R009, R027 and R019.
    pub route_decision-blocks :
        (os : Os) (p : Pipeline float) (event : EnrichedEvent) (rule : RuleMatch) (start now : ℕ)
        → (route_decision float parse_ip os p event rule start now).blocks ≢ p.blocks
        → (p.has_net_enforcer ≡ true)
          × ((p.mode ≢ "audit")
              × ((p.mode ≢ "simulate")
                  × ((rule.rule_id ≡ "R009")
                      ⊎ ((rule.rule_id ≡ "R027") ⊎ (rule.rule_id ≡ "R019")))))
    unfolding route_decision
    route_decision-blocks os p event rule start now changed =
        let decided = triage float p.ai_trier event rule (mode_action p.mode event rule) in
        let blocked =
          if p.has_net_enforcer && not (p.mode == "audit")
          then handle_network_block float parse_ip p event rule p.mode
          else p in
        let same = execute_action-blocks os blocked event decided.1 decided.0 start now in
        elim (Bool-cases (p.has_net_enforcer && not (p.mode == "audit"))) [
          | inl c ↦
              let guards : (p.has_net_enforcer ≡ true) × (p.mode ≢ "audit") =
                ground (arith, ==_iff p.mode "audit") in
              let all : (route_decision float parse_ip os p event rule start now).blocks
                  ≡ (handle_network_block float parse_ip p event rule p.mode).blocks =
                same
                ∙ ap
                    (λ b.
                      (if b
                        then handle_network_block float parse_ip p event rule p.mode
                        else p).blocks)
                    c in
              (
                guards.0,
                (
                  guards.1,
                  (
                    λ simulate.
                        changed
                          (all ∙ handle_network_block-blocks p event rule p.mode (inl simulate)),
                    elim (Option-cases (GoMap.get network_blocking_rule_ids rule.rule_id)) [
                      | inl e ↦
                          absurd (
                            changed (all ∙ handle_network_block-blocks p event rule p.mode (inr e)))
                      | inr (reason, e) ↦ network_rule rule.rule_id reason e
                    ],
                  ),
                ),
              )
          | inr c ↦ absurd (
              changed (
                same
                ∙ ap
                    (λ b.
                      (if b
                        then handle_network_block float parse_ip p event rule p.mode
                        else p).blocks)
                    c))
        ]
