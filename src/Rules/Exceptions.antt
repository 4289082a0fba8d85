-- ===== src/Rules/Exceptions.antt =====
-- The exceptions of a rule: `matchException`, `evaluateException`, `matchValueRow`, `resolveEventField` and
-- `matchField` of pkg/rules/engine.go. The walk over the rows takes the comparison as an argument, because
-- the evaluator of pkg/pipeline/exceptions.go has the same walk with another one.
pub mod Rows
use container_runtime_securi.Prelude.{
  ℕ, zero, suc, nat_comparable, string_comparable, bytes_comparable, Comparable, ◌==◌, ==_iff,
  ==_refl, bytes_beq, bytes_beq_iff, String, ◌<>◌, ◌+◌, ◌-◌, ◌*◌, ◌/◌, ◌%◌, ◌^◌, ◌≤◌, ◌<◌, ◌≡◌,
  refl, sym, ap, ◌∙◌, ◌≢◌, ◌↔◌, ◌⊎◌, inl, inr, Bool, true, false, not, ◌&&◌, ◌||◌, Option, none,
  some, List, [], ◌∷◌, ◌++◌, map, arith, ltb, leb, if◌then◌else◌, Bool-cases, Option-cases, length,
  get_elem?, take, drop, replicate, keep_if, length-append, take-append-drop, length-take,
  length-drop, take_append_left, drop_append_left, length-keep_if-le, drop_behind, get_elem?_behind,
  AllOf, append-AllOf, split-AllOf,
}
use container_runtime_securi.Prelude.Slices.{Bytes}
use container_runtime_securi.Prelude.Text.{codes, has_prefix, contains, split, trim_space, decimal}
use container_runtime_securi.Ebpf.Fields.{
  comm_string, filename, args, file_path, remote_ip, remote_port,
}
use container_runtime_securi.Rules.Types.{EnrichedEventForRule, RuleException, CompiledRule}

unfoldable pub resolve_event_field : String → EnrichedEventForRule → Bytes
resolve_event_field field event =
    if field == "container.image.repository" || field == "container.image"
    then event.container_image
    else if field == "container.name"
    then event.container_name
    else if field == "container.id"
    then event.container_id
    else if field == "proc.name"
    then comm_string event.raw
    else if field == "proc.cmdline"
    then args event.raw
    else if field == "proc.exe"
    then filename event.raw
    else if field == "namespace"
    then event.namespace
    else if field == "pod.name"
    then event.pod_name
    else if field == "serviceaccount" || field == "sa"
    then event.service_account
    else if field == "fd.name"
    then file_path event.raw
    else if field == "fd.rip"
    then remote_ip event.raw
    else if field == "fd.rport"
    then decimal (remote_port event.raw)
    else []

-- `engineListContains`
abbrev pub any_trimmed : List Bytes → Bytes → Bool
any_trimmed [] value = false
any_trimmed (item ∷ items) value = trim_space item == value || any_trimmed items value

unfoldable pub engine_list_contains : Bytes → Bytes → Bool
engine_list_contains list value = any_trimmed (split list b',') value

unfoldable pub match_field : String → Bytes → Bytes → Bool
match_field comp event_value expected_value =
    if comp == "=" || comp == "equals"
    then event_value == expected_value
    else if comp == "!=" || comp == "not_equals"
    then not (event_value == expected_value)
    else if comp == "in"
    then engine_list_contains expected_value event_value
    else if comp == "contains"
    then contains event_value expected_value
    else if comp == "startswith"
    then has_prefix event_value expected_value
    else event_value == expected_value

-- The comparator at the front of the list, `=` where there is none.
unfoldable pub first_comp : List String → String
first_comp [] = "="
first_comp (comp ∷ comps) = if comp == "" then "=" else comp

module _ (compare : String → Bytes → Bytes → Bool) where
  unfoldable pub match_value_row :
      List String → List String → List Bytes → EnrichedEventForRule → Bool
  match_value_row [] comps values event = true
  match_value_row (field ∷ fields) comps [] event = false
  match_value_row (field ∷ fields) comps (value ∷ values) event =
      let rest = match_value_row fields (drop 1 comps) values event in
      if not (compare (first_comp comps) (resolve_event_field field event) value)
      then false
      else rest

  unfoldable pub match_any_row :
      List String → List String → List (List Bytes) → EnrichedEventForRule → Bool
  match_any_row fields comps [] event = false
  match_any_row fields comps (row ∷ rows) event =
      match_value_row fields comps row event || match_any_row fields comps rows event

unfoldable pub evaluate_exception : RuleException → EnrichedEventForRule → Bool
evaluate_exception exc event = match_any_row match_field exc.fields exc.comps exc.values event

unfoldable pub match_any_exception : List RuleException → EnrichedEventForRule → Bool
match_any_exception [] event = false
match_any_exception (exc ∷ excs) event =
    evaluate_exception exc event || match_any_exception excs event

unfoldable pub match_exception : CompiledRule → EnrichedEventForRule → Bool
match_exception rule event = match_any_exception rule.exceptions event
