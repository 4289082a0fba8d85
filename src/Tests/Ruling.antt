-- ===== src/Tests/Ruling.antt =====
-- Tests of the rule engine and of the exceptions.
use container_runtime_securi.Prelude.{
  nat_comparable, string_comparable, bytes_comparable, ==_iff, String, ◌≡◌, refl, sym, ap, ◌∙◌, ◌≢◌,
  ◌↔◌, true, false, not, ◌&&◌, none, List, [], ◌∷◌, arith,
}
use mathlib.Core.List.{Memᴰ}
use container_runtime_securi.Prelude.GoMap
use container_runtime_securi.Prelude.GoMap.{GoMap}
use container_runtime_securi.Prelude.Members.{is_member}
use container_runtime_securi.Prelude.Slices.{Bytes}
use container_runtime_securi.Prelude.Text.{codes, split, trim_space}
use container_runtime_securi.Pipeline.Event.{action_alert, action_enforce}
use container_runtime_securi.Pipeline.Exceptions
use container_runtime_securi.Pipeline.Exceptions.Agreement.{match_field-agree}
use container_runtime_securi.Rules.Types.{EnrichedEventForRule, RuleException, CompiledRule}
use container_runtime_securi.Rules.Exceptions.{
  match_field, match_exception, match_any_exception, evaluate_exception, match_any_row,
  match_value_row, first_comp, resolve_event_field,
}
use container_runtime_securi.Rules.Exceptions.Rows.{Excepts, match_exception_iff}
use container_runtime_securi.Rules.Engine.{
  empty_engine, reload, candidates, evaluate, bucket, add_compiled_rules, add_compiled_rule,
  file_rule, append_unseen, append_if_unseen,
}
use container_runtime_securi.Rules.Engine.Catalog.{
  AreDistinct, Concerns, IsAnswer, candidates-reload, evaluate-IsAnswer,
}
use container_runtime_securi.Rules.Engine.Best.{applies}
use container_runtime_securi.Rules.Inference.{
  RuleDef, compile_rule, mentioned_types, infer_event_types,
}
use container_runtime_securi.Rules.Inference.Wildcard.{compile_rule-wildcard}
use container_runtime_securi.Prelude.Text.{to_lower, contains, has_prefix}
use container_runtime_securi.Tests.{raw_event}

abbrev seen_event : EnrichedEventForRule
seen_event = record {
  raw = raw_event;
  container_id = codes "c1";
  container_name = codes "web";
  container_image = codes "nginx";
  container_attributed = true;
  pod_name = codes "web-0";
  namespace = codes "prod";
  service_account = [];
  pod_labels = [];
  privileged = false;
  node_name = codes "n1";
}

abbrev in_prod : RuleException
in_prod = record {
  name = "prod web";
  fields = "namespace" ∷ "container.name" ∷ [];
  comps = "=" ∷ "startswith" ∷ [];
  values = (codes "test" ∷ codes "web" ∷ []) ∷ (codes "prod" ∷ codes "we" ∷ []) ∷ [];
}

abbrev shell_rule : CompiledRule
shell_rule = record {
  id = "R014";
  name = "Shell";
  description = "";
  priority = "WARNING";
  action = action_alert;
  output = [];
  tags = [];
  category = 0;
  event_types = 1 ∷ [];
  condition = λ event. event.container_attributed;
  correlate = none;
  exceptions = [];
}

abbrev miner_rule : CompiledRule
miner_rule = record shell_rule {
  id = "R001";
  name = "Miner";
  priority = "CRITICAL";
  action = action_enforce;
  event_types = 1 ∷ 20 ∷ [];
}

abbrev excepted_rule : CompiledRule
excepted_rule = record miner_rule { exceptions = in_prod ∷ [] }

abbrev catalog : List CompiledRule
catalog = shell_rule ∷ miner_rule ∷ []

ids_differ : ◌≢◌ {A = String} "R014" "R001"
ids_differ = ground (arith, ==_iff {A = String} "R014" "R001")

catalog-AreDistinct : AreDistinct catalog
catalog-AreDistinct r s (Memᴰ.head p) (Memᴰ.head q) h = p ∙ sym q
catalog-AreDistinct r s (Memᴰ.head p) (Memᴰ.tail (Memᴰ.head q)) h =
    absurd (ids_differ (sym (ap (λ x. x.id) p) ∙ (h ∙ ap (λ x. x.id) q)))
catalog-AreDistinct r s (Memᴰ.tail (Memᴰ.head p)) (Memᴰ.head q) h =
    absurd (ids_differ (sym (ap (λ x. x.id) q) ∙ (sym h ∙ ap (λ x. x.id) p)))
catalog-AreDistinct r s (Memᴰ.tail (Memᴰ.head p)) (Memᴰ.tail (Memᴰ.head q)) h = p ∙ sym q
catalog-AreDistinct r s (Memᴰ.tail (Memᴰ.tail m)) n h = elim m [ ]
catalog-AreDistinct r s (Memᴰ.head p) (Memᴰ.tail (Memᴰ.tail n)) h = elim n [ ]
catalog-AreDistinct r s (Memᴰ.tail (Memᴰ.head p)) (Memᴰ.tail (Memᴰ.tail n)) h = elim n [ ]

abbrev as_listed : GoMap Bytes Bytes → List (Bytes × Bytes)
as_listed pairs = pairs

evaluate-IsAnswer_example :
    IsAnswer as_listed catalog seen_event
      (evaluate as_listed (reload empty_engine catalog) seen_event).1
evaluate-IsAnswer_example =
    evaluate-IsAnswer as_listed empty_engine catalog seen_event catalog-AreDistinct

candidates-reload_example :
    Memᴰ miner_rule (candidates (reload empty_engine catalog) seen_event)
    ↔ (Memᴰ miner_rule catalog × Concerns miner_rule seen_event)
candidates-reload_example =
    candidates-reload empty_engine catalog seen_event catalog-AreDistinct miner_rule

two_candidates : candidates (reload empty_engine catalog) seen_event ≡ catalog
unfolding candidates reload add_compiled_rules add_compiled_rule file_rule bucket GoMap.get
    GoMap.put empty_engine append_unseen append_if_unseen is_member
two_candidates = refl

match_exception_iff_example : (match_exception excepted_rule seen_event ≡ true) ↔ (
    (exc : RuleException) × Memᴰ exc excepted_rule.exceptions × Excepts match_field exc seen_event)
match_exception_iff_example = match_exception_iff excepted_rule seen_event

-- An enforce rule is suppressed.
enforce_suppressed : match_exception excepted_rule seen_event ≡ true
unfolding match_exception match_any_exception evaluate_exception match_any_row match_value_row
    match_field first_comp resolve_event_field has_prefix
enforce_suppressed = refl

match_field-agree_example :
    Exceptions.match_field "in" (codes "b") (codes "a,b")
    ≡ match_field "in" (codes "b") (codes "a,b")
unfolding split trim_space
match_field-agree_example =
    match_field-agree "in" (codes "b") (codes "a,b")
      (ground (arith, ==_iff {A = String} "in" "endswith")) (λ h. refl)

abbrev named_def : RuleDef
named_def = record {
  id = "R002";
  name = "Named";
  desc = "";
  condition = codes "proc.name in (xmrig)";
  priority = "WARNING";
  action = action_alert;
  output = [];
  tags = [];
  correlate = none;
  exceptions = [];
}

abbrev named_rule : CompiledRule
named_rule = compile_rule named_def (λ event. event.container_attributed)

named-AreDistinct : AreDistinct (named_rule ∷ [])
named-AreDistinct r s (Memᴰ.head p) (Memᴰ.head q) h = p ∙ sym q
named-AreDistinct r s (Memᴰ.tail m) n h = elim m [ ]
named-AreDistinct r s (Memᴰ.head p) (Memᴰ.tail n) h = elim n [ ]

no_known_word : mentioned_types (to_lower named_def.condition) ≡ []
unfolding mentioned_types to_lower contains has_prefix
no_known_word = refl

compile_rule-wildcard_example :
    Memᴰ named_rule (candidates (reload empty_engine (named_rule ∷ [])) seen_event)
    × (applies named_rule seen_event ≡ (true && not (match_exception named_rule seen_event)))
compile_rule-wildcard_example =
    compile_rule-wildcard empty_engine (named_rule ∷ []) seen_event named_def
      (λ event. event.container_attributed) named-AreDistinct (Memᴰ.head refl) no_known_word

-- Only one of the two calls is inferred, so events of the other are not offered to the rule.
sendto_missed : infer_event_types (codes "evt.type in (openat, sendto)") ≡ 10 ∷ []
unfolding infer_event_types mentioned_types to_lower contains has_prefix
sendto_missed = refl
