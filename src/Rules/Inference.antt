-- ===== src/Rules/Inference.antt =====
-- `compileRule` of pkg/rules/engine.go and the event types and the category that it infers from the text of a
-- condition. The compiled condition is an argument, and so is the parsed window of a correlation.
pub mod Wildcard
use container_runtime_securi.Prelude.{
  ℕ, zero, suc, nat_comparable, string_comparable, bytes_comparable, Comparable, ◌==◌, ==_iff,
  ==_refl, bytes_beq, bytes_beq_iff, String, ◌<>◌, ◌+◌, ◌-◌, ◌*◌, ◌/◌, ◌%◌, ◌^◌, ◌≤◌, ◌<◌, ◌≡◌,
  refl, sym, ap, ◌∙◌, ◌≢◌, ◌↔◌, ◌⊎◌, inl, inr, Bool, true, false, not, ◌&&◌, ◌||◌, Option, none,
  some, List, [], ◌∷◌, ◌++◌, map, arith, ltb, leb, if◌then◌else◌, Bool-cases, Option-cases, length,
  get_elem?, take, drop, replicate, keep_if, length-append, take-append-drop, length-take,
  length-drop, take_append_left, drop_append_left, length-keep_if-le, drop_behind, get_elem?_behind,
  AllOf, append-AllOf, split-AllOf,
}
use container_runtime_securi.Prelude.Members.{is_member}
use container_runtime_securi.Prelude.Slices.{Bytes}
use container_runtime_securi.Prelude.Text.{codes, contains, to_lower}
use container_runtime_securi.Ebpf.Event.{
  cat_file, cat_network, cat_escape, cat_privilege, cat_credential,
}
use container_runtime_securi.Ebpf.Fields.{
  evt_exec, evt_fork, evt_file_open, evt_file_unlink, evt_file_memfd, evt_net_connect, evt_net_udp,
  evt_net_listen, evt_setns, evt_unshare, evt_mount, evt_ptrace, evt_bpf_load, evt_setuid,
  evt_capset, evt_chmod,
}
use container_runtime_securi.Rules.Types.{
  EnrichedEventForRule, CorrelationSpec, RuleException, CompiledRule,
}

-- `strings.Contains(cond, a) || strings.Contains(cond, b) || ...`
abbrev pub mentions : Bytes → List Bytes → Bool
mentions cond [] = false
mentions cond (word ∷ words) = contains cond word || mentions cond words

abbrev pub types_if : Bool → List ℕ → List ℕ
types_if true types = types
types_if false types = []

unfoldable pub mentioned_types : Bytes → List ℕ
mentioned_types cond =
    types_if (mentions cond (codes "execve" ∷ codes "spawned_process" ∷ [])) (evt_exec ∷ [])
    ++ (types_if (mentions cond (codes "fork" ∷ codes "clone" ∷ [])) (evt_fork ∷ [])
        ++ (types_if (mentions cond (codes "open" ∷ codes "file_open" ∷ [])) (evt_file_open ∷ [])
            ++ (types_if (contains cond (codes "unlink")) (evt_file_unlink ∷ [])
                ++ (types_if (contains cond (codes "memfd")) (evt_file_memfd ∷ [])
                    ++ (types_if (mentions cond (codes "connect" ∷ codes "net_outbound" ∷ []))
                          (evt_net_connect ∷ evt_net_udp ∷ [])
                        ++ (types_if (contains cond (codes "listen")) (evt_net_listen ∷ [])
                            ++ (types_if (contains cond (codes "setns")) (evt_setns ∷ [])
                                ++ (types_if (contains cond (codes "unshare")) (evt_unshare ∷ [])
                                    ++ (types_if (contains cond (codes "mount")) (evt_mount ∷ [])
                                        ++ (types_if (contains cond (codes "ptrace"))
                                              (evt_ptrace ∷ [])
                                            ++ (types_if
                                                  (contains cond (codes "bpf")
                                                    && not (contains cond (codes "ebpf")))
                                                  (evt_bpf_load ∷ [])
                                                ++ (types_if (contains cond (codes "setuid"))
                                                      (evt_setuid ∷ [])
                                                    ++ (types_if (contains cond (codes "capset"))
                                                          (evt_capset ∷ [])
                                                        ++ (types_if
                                                            (mentions cond (
                                                            codes "chmod"
                                                            ∷ codes "suid"
                                                            ∷ codes "sgid"
                                                            ∷ []))
                                                            (evt_chmod ∷ [])
                                                            ++ types_if
                                                            (contains cond (codes "dup"))
                                                            (evt_exec ∷ evt_net_connect
                                                            ∷ [])))))))))))))))

unfoldable pub infer_event_types : Bytes → List ℕ
infer_event_types condition = elim (mentioned_types (to_lower condition)) [
  | [] ↦ 0 ∷ []
  | t ∷ types ↦ t ∷ types
]

unfoldable pub infer_category : Bytes → ℕ
infer_category condition =
    let cond = to_lower condition in
    if mentions cond
      (codes "escape" ∷ codes "setns" ∷ codes "unshare" ∷ codes "mount" ∷ codes "docker.sock" ∷ [])
    then cat_escape
    else if mentions cond
        (codes "network" ∷ codes "connect" ∷ codes "outbound" ∷ codes "listen" ∷ [])
    then cat_network
    else if mentions cond (codes "file" ∷ codes "open" ∷ codes "sensitive" ∷ codes "drift" ∷ [])
    then cat_file
    else if mentions cond (codes "privilege" ∷ codes "setuid" ∷ codes "chmod" ∷ codes "capset" ∷ [])
    then cat_privilege
    else if mentions cond (codes "credential" ∷ codes "shadow" ∷ codes "metadata" ∷ [])
    then cat_credential
    else 0

-- `RuleDef`, with the parsed window of its correlation.
pub record RuleDef : Type 0 where
  pub id : String
  pub name : String
  pub desc : String
  pub condition : Bytes
  pub priority : String
  pub action : String
  pub output : Bytes
  pub tags : List String
  pub correlate : Option CorrelationSpec
  pub exceptions : List RuleException

-- The category, which is the wildcard where the event types hold the wildcard.
unfoldable pub rule_category : Bytes → ℕ
rule_category condition =
    if is_member (infer_event_types condition) 0 then 0 else infer_category condition

unfoldable pub compile_rule : RuleDef → (EnrichedEventForRule → Bool) → CompiledRule
compile_rule def condition = record {
  id = def.id;
  name = def.name;
  description = def.desc;
  priority = def.priority;
  action = def.action;
  output = def.output;
  tags = def.tags;
  category = rule_category def.condition;
  event_types = infer_event_types def.condition;
  condition = condition;
  correlate = def.correlate;
  exceptions = def.exceptions;
}
