-- ===== src/Pipeline/Exceptions.antt =====
-- `ExceptionEvaluator` and `OPAEvaluator` of pkg/pipeline/exceptions.go. The walk over the rows of an exception
-- is the same code as in pkg/rules/engine.go and is taken from there.
pub mod Agreement
use container_runtime_securi.Prelude.{
  ℕ, zero, suc, nat_comparable, string_comparable, bytes_comparable, Comparable, ◌==◌, ==_iff,
  ==_refl, bytes_beq, bytes_beq_iff, String, ◌<>◌, ◌+◌, ◌-◌, ◌*◌, ◌/◌, ◌%◌, ◌^◌, ◌≤◌, ◌<◌, ◌≡◌,
  refl, sym, ap, ◌∙◌, ◌≢◌, ◌↔◌, ◌⊎◌, inl, inr, Bool, true, false, not, ◌&&◌, ◌||◌, Option, none,
  some, List, [], ◌∷◌, ◌++◌, map, arith, ltb, leb, if◌then◌else◌, Bool-cases, Option-cases, length,
  get_elem?, take, drop, replicate, keep_if, length-append, take-append-drop, length-take,
  length-drop, take_append_left, drop_append_left, length-keep_if-le, drop_behind, get_elem?_behind,
  AllOf, append-AllOf, split-AllOf,
}
use container_runtime_securi.Prelude.GoMap
use container_runtime_securi.Prelude.GoMap.{GoMap}
use container_runtime_securi.Prelude.Slices.{Bytes}
use container_runtime_securi.Rules.Types.{EnrichedEventForRule, RuleException, CompiledRule}
use container_runtime_securi.Rules.Exceptions.{match_any_row}

-- The loop of `listContains` from an item's start, at a position with the bytes that are left.
unfoldable pub list_contains_from : Bytes → Bytes → ℕ → ℕ → Bytes → Bool
list_contains_from list value start i [] = take (i - start) (drop start list) == value
list_contains_from list value start i (b ∷ rest) =
    let next_item = list_contains_from list value (i + 1) (i + 1) rest in
    let same_item = list_contains_from list value start (i + 1) rest in
    if b == b','
    then if take (i - start) (drop start list) == value then true else next_item
    else same_item

unfoldable pub list_contains : Bytes → Bytes → Bool
list_contains list value = list_contains_from list value 0 0 list

-- `containsSubstring`, by the bytes from the loop's position on.
unfoldable pub contains_substring : Bytes → Bytes → Bool
contains_substring [] substr = leb (length substr) 0 && [] == substr
contains_substring (c ∷ value) substr =
    let rest = contains_substring value substr in
    if not (leb (length substr) (length (c ∷ value)))
    then false
    else if take (length substr) (c ∷ value) == substr
    then true
    else rest

unfoldable pub match_field : String → Bytes → Bytes → Bool
match_field comp event_value expected_value =
    if comp == "=" || comp == "equals"
    then event_value == expected_value
    else if comp == "!=" || comp == "not_equals"
    then not (event_value == expected_value)
    else if comp == "in"
    then list_contains expected_value event_value
    else if comp == "contains"
    then contains_substring event_value expected_value
    else if comp == "startswith"
    then leb (length expected_value) (length event_value)
      && take (length expected_value) event_value == expected_value
    else if comp == "endswith"
    then leb (length expected_value) (length event_value)
      && drop (length event_value - length expected_value) event_value == expected_value
    else event_value == expected_value

unfoldable pub match_exception : RuleException → EnrichedEventForRule → Bool
match_exception exc event = match_any_row match_field exc.fields exc.comps exc.values event

pub record OpaEvaluator : Type 0 where
  pub policies : GoMap String String
  pub enabled : Bool

unfoldable pub new_opa_evaluator : OpaEvaluator
new_opa_evaluator = record { policies = []; enabled = true }

unfoldable pub add_policy : OpaEvaluator → String → String → OpaEvaluator
add_policy o rule_id rego_query = record o { policies = GoMap.put o.policies rule_id rego_query }

unfoldable pub remove_policy : OpaEvaluator → String → OpaEvaluator
remove_policy o rule_id = record o { policies = GoMap.delete o.policies rule_id }

unfoldable pub has_policy : OpaEvaluator → String → Bool
has_policy o rule_id = elim (GoMap.get o.policies rule_id) [ none ↦ false | some query ↦ true ]

unfoldable pub policy_count : OpaEvaluator → ℕ
policy_count o = length o.policies

unfoldable pub evaluate_policy : OpaEvaluator → String → EnrichedEventForRule → Bool
evaluate_policy o rule_id event =
    if not o.enabled then false else if not (has_policy o rule_id) then false else false

pub record ExceptionEvaluator : Type 0 where
  pub opa : Option OpaEvaluator

unfoldable pub new_exception_evaluator : ExceptionEvaluator
new_exception_evaluator = record { opa = none }

unfoldable pub set_opa_evaluator : ExceptionEvaluator → Option OpaEvaluator → ExceptionEvaluator
set_opa_evaluator e opa = record e { opa = opa }

unfoldable pub match_exceptions : List RuleException → EnrichedEventForRule → Bool
match_exceptions [] event = false
match_exceptions (exc ∷ excs) event = match_exception exc event || match_exceptions excs event

unfoldable pub evaluate_exception : ExceptionEvaluator → CompiledRule → EnrichedEventForRule → Bool
evaluate_exception e rule event =
    if match_exceptions rule.exceptions event
    then true
    else elim e.opa [ none ↦ false | some opa ↦ evaluate_policy opa rule.id event ]
