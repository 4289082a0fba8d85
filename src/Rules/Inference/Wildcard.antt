-- ===== src/Rules/Inference/Wildcard.antt =====
-- Rules whose condition names no known word, in the engine of pkg/rules/engine.go.
use container_runtime_securi.Prelude.{
  nat_comparable, string_comparable, bytes_comparable, ◌≡◌, refl, ap, inr, Bool, not, ◌&&◌, List,
  [], ◌∷◌,
}
use mathlib.Core.List.{Memᴰ}
use container_runtime_securi.Prelude.Members.{is_member}
use container_runtime_securi.Prelude.Slices.{Bytes}
use container_runtime_securi.Prelude.Text.{to_lower}
use container_runtime_securi.Rules.Types.{EnrichedEventForRule, CompiledRule}
use container_runtime_securi.Rules.Exceptions.{match_exception}
use container_runtime_securi.Rules.Engine.{Engine, candidates, reload}
use container_runtime_securi.Rules.Engine.Best.{applies}
use container_runtime_securi.Rules.Engine.Catalog.{AreDistinct, candidates-reload}
use container_runtime_securi.Rules.Inference.{
  RuleDef, mentioned_types, infer_event_types, rule_category, compile_rule,
}

wildcard_types :
    (condition : Bytes)
    → mentioned_types (to_lower condition) ≡ []
    → infer_event_types condition ≡ 0 ∷ []
unfolding infer_event_types
wildcard_types condition h = ap (λ types. elim types [ [] ↦ 0 ∷ [] | t ∷ ts ↦ t ∷ ts ]) h

-- A loaded rule that is compiled from a condition without a known word is a candidate for every event, if the loaded
-- rules have distinct ids, and, whatever its action is, it applies exactly if its condition holds and no exception
-- does.
pub compile_rule-wildcard :
    (e : Engine) (rules : List CompiledRule) (event : EnrichedEventForRule) (def : RuleDef)
    (condition : EnrichedEventForRule → Bool)
    → AreDistinct rules
    → Memᴰ (compile_rule def condition) rules
    → mentioned_types (to_lower def.condition) ≡ []
    → Memᴰ (compile_rule def condition) (candidates (reload e rules) event)
      × (applies (compile_rule def condition) event
          ≡ (condition event && not (match_exception (compile_rule def condition) event)))
unfolding compile_rule rule_category is_member
compile_rule-wildcard e rules event def condition distinct loaded h =
    let types = wildcard_types def.condition h in
    (
      (candidates-reload e rules event distinct (compile_rule def condition)).1
          (loaded, inr (inr (rw types (Memᴰ.head refl)))),
      rw types refl,
    )
