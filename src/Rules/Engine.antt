-- ===== src/Rules/Engine.antt =====
-- `Engine` of pkg/rules/engine.go: the buckets of compiled rules, and the evaluation of an event. The rules
-- that a reload reads and the order in which Go walks the map of replacements are arguments.
pub mod Candidates
pub mod Best
pub mod Catalog
use container_runtime_securi.Prelude.{
  ℕ, zero, suc, nat_comparable, string_comparable, bytes_comparable, Comparable, ◌==◌, ==_iff,
  ==_refl, bytes_beq, bytes_beq_iff, String, ◌<>◌, ◌+◌, ◌-◌, ◌*◌, ◌/◌, ◌%◌, ◌^◌, ◌≤◌, ◌<◌, ◌≡◌,
  refl, sym, ap, ◌∙◌, ◌≢◌, ◌↔◌, ◌⊎◌, inl, inr, Bool, true, false, not, ◌&&◌, ◌||◌, Option, none,
  some, List, [], ◌∷◌, ◌++◌, map, arith, ltb, leb, if◌then◌else◌, Bool-cases, Option-cases, length,
  get_elem?, take, drop, replicate, keep_if, length-append, take-append-drop, length-take,
  length-drop, take_append_left, drop_append_left, length-keep_if-le, drop_behind, get_elem?_behind,
  AllOf, append-AllOf, split-AllOf,
}
use container_runtime_securi.Prelude.GoMap
use container_runtime_securi.Prelude.GoMap.{GoMap}
use container_runtime_securi.Prelude.Members.{is_member}
use container_runtime_securi.Prelude.Slices.{Bytes}
use container_runtime_securi.Prelude.Text.{codes, replace_all, decimal}
use container_runtime_securi.Ebpf.Fields.{
  comm_string, filename, args, file_path, remote_ip, remote_port, event_type_string,
}
use container_runtime_securi.Pipeline.Event.{RuleMatch, action_enforce, action_alert}
use container_runtime_securi.Rules.{is_more_severe}
use container_runtime_securi.Rules.Types.{EnrichedEventForRule, CompiledRule}
use container_runtime_securi.Rules.Exceptions.{match_exception}

pub record Engine : Type 0 where
  pub buckets : GoMap ℕ (List CompiledRule)
  pub rules : GoMap String CompiledRule
  pub rule_count : ℕ
  pub enforce_count : ℕ
  pub alert_count : ℕ
  pub eval_count : ℕ

-- `e.buckets[key]`, which is empty for a missing key.
unfoldable pub bucket : GoMap ℕ (List CompiledRule) → ℕ → List CompiledRule
bucket buckets key = elim (GoMap.get buckets key) [ none ↦ [] | some rules ↦ rules ]

unfoldable pub file_rule :
    GoMap ℕ (List CompiledRule) → CompiledRule → List ℕ → GoMap ℕ (List CompiledRule)
file_rule buckets rule [] = buckets
file_rule buckets rule (t ∷ ts) =
    file_rule (GoMap.put buckets t (bucket buckets t ++ (rule ∷ []))) rule ts

unfoldable pub add_compiled_rule : Engine → CompiledRule → Engine
add_compiled_rule e rule = record {
  buckets = file_rule e.buckets rule rule.event_types;
  rules = GoMap.put e.rules rule.id rule;
  rule_count = e.rule_count + 1;
  enforce_count = if rule.action == action_enforce then e.enforce_count + 1 else e.enforce_count;
  alert_count =
      if rule.action == action_enforce
      then e.alert_count
      else if rule.action == action_alert
      then e.alert_count + 1
      else e.alert_count;
  eval_count = e.eval_count;
}

unfoldable pub add_compiled_rules : Engine → List CompiledRule → Engine
add_compiled_rules e [] = e
add_compiled_rules e (rule ∷ rules) = add_compiled_rules (add_compiled_rule e rule) rules

-- The tables of a new engine, before the rules are loaded.
unfoldable pub empty_engine : Engine
empty_engine = record {
  buckets = [];
  rules = [];
  rule_count = 0;
  enforce_count = 0;
  alert_count = 0;
  eval_count = 0;
}

-- `Reload`, with the compiled rules that it reads.
unfoldable pub reload : Engine → List CompiledRule → Engine
reload e rules =
    let cleared : Engine = record empty_engine { eval_count = e.eval_count } in
    add_compiled_rules cleared rules

unfoldable pub all_rules : Engine → List CompiledRule
all_rules e = map (λ entry. entry.1) e.rules

unfoldable pub correlation_rules : Engine → List CompiledRule
correlation_rules e =
    keep_if (λ rule. elim rule.correlate [ none ↦ false | some spec ↦ true ]) (all_rules e)

-- The loop body of the merges: a rule whose id is new goes behind the candidates.
unfoldable pub append_if_unseen :
    List CompiledRule → List String → CompiledRule → List CompiledRule × List String
append_if_unseen candidates seen rule =
    if is_member seen rule.id
    then (candidates, seen)
    else (candidates ++ (rule ∷ []), rule.id ∷ seen)

unfoldable pub append_unseen :
    List CompiledRule → List String → List CompiledRule → List CompiledRule × List String
append_unseen candidates seen [] = (candidates, seen)
append_unseen candidates seen (rule ∷ rules) =
    let grown = append_if_unseen candidates seen rule in append_unseen grown.0 grown.1 rules

unfoldable pub candidates : Engine → EnrichedEventForRule → List CompiledRule
candidates e event =
    let first = bucket e.buckets event.raw.event_type in
    let by_category =
      append_unseen first (map (λ rule. rule.id) first) (bucket e.buckets event.raw.category) in
    (append_unseen by_category.0 by_category.1 (bucket e.buckets 0)).0

unfoldable pub replacements : EnrichedEventForRule → GoMap Bytes Bytes
replacements event =
    (codes "%proc.name", comm_string event.raw)
    ∷ (codes "%proc.pid", decimal event.raw.pid)
    ∷ (codes "%proc.cmdline", args event.raw)
    ∷ (codes "%proc.exe", filename event.raw)
    ∷ (codes "%user.name", codes "uid=" ++ decimal event.raw.uid)
    ∷ (codes "%container.id", event.container_id)
    ∷ (codes "%container.name", event.container_name)
    ∷ (codes "%container.image.repository", event.container_image)
    ∷ (codes "%fd.name", file_path event.raw)
    ∷ (codes "%fd.rip", remote_ip event.raw)
    ∷ (codes "%fd.rport", decimal (remote_port event.raw))
    ∷ (codes "%evt.type", event_type_string event.raw)
    ∷ (codes "%evt.arg.nstype", decimal event.raw.payload.escape.ns_type)
    ∷ []

unfoldable pub replace_each : List (Bytes × Bytes) → Bytes → Bytes
replace_each [] out = out
replace_each ((key, val) ∷ pairs) out = replace_each pairs (replace_all out key val)

unfoldable pub keep_severest : Option RuleMatch → RuleMatch → Option RuleMatch
keep_severest none m = some m
keep_severest (some best) m = if is_more_severe m best then some m else some best

module _ (walk : GoMap Bytes Bytes → List (Bytes × Bytes)) where
  unfoldable pub format_output : Bytes → EnrichedEventForRule → Bytes
  format_output template event = replace_each (walk (replacements event)) template

  unfoldable pub rule_match : CompiledRule → EnrichedEventForRule → RuleMatch
  rule_match rule event = record {
    rule_id = rule.id;
    rule_name = rule.name;
    priority = rule.priority;
    action = rule.action;
    output = format_output rule.output event;
    tags = rule.tags;
  }

  unfoldable pub evaluate_rule :
      Option RuleMatch → CompiledRule → EnrichedEventForRule → Option RuleMatch
  evaluate_rule best rule event =
      if not (rule.category == 0) && not (rule.category == event.raw.category)
      then best
      else if not (rule.condition event)
      then best
      else if match_exception rule event
      then best
      else keep_severest best (rule_match rule event)

  unfoldable pub evaluate_rules :
      Option RuleMatch → List CompiledRule → EnrichedEventForRule → Option RuleMatch
  evaluate_rules best [] event = best
  evaluate_rules best (rule ∷ rules) event =
      evaluate_rules (evaluate_rule best rule event) rules event

  unfoldable pub evaluate : Engine → EnrichedEventForRule → Engine × Option RuleMatch
  evaluate e event =
      (record e { eval_count = e.eval_count + 1 }, evaluate_rules none (candidates e event) event)
