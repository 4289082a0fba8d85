-- ===== src/Pipeline/Response/Reachable.antt =====
-- Runs of the response actor of pkg/pipeline/response.go as sequences of steps.
use container_runtime_securi.Prelude.{
  ℕ, nat_comparable, string_comparable, bytes_comparable, String, ◌≡◌, refl, sym, ap, ◌∙◌, ◌≢◌, inl,
  inr, true, false, List, [], ◌∷◌, ◌++◌, Option-cases, AllOf, append-AllOf, split-AllOf,
}
use mathlib.Core.Path.{subst}
use container_runtime_securi.Pipeline.Event.{EnrichedEvent, RuleMatch}
use container_runtime_securi.Pipeline.RateLimiter.{cleanup_tick}
use container_runtime_securi.Pipeline.Response.{
  Os, ResponseActorConfig, ResponseActor, Escalation, set_mode, new_response_actor, finish,
  is_protected, kill, send_sigkill, enforce, escalate,
}
use container_runtime_securi.Pipeline.Response.Effects.{send_sigkill-keeps, execute-keeps}
use container_runtime_securi.Pipeline.Response.Guards.{IsClear, asked, enforce-cases}

-- One step of the running actor: a decision, a change of mode, a tick of the limiter's cleanup, or a
-- waiting escalation that wakes. Steps of several goroutines interleave as a sequence.
pub data Step (os : Os) : ResponseActor → ResponseActor → Type 0 where
  decide :
      (r : ResponseActor) (event : EnrichedEvent) (rule : RuleMatch) (start now : ℕ)
      → Step os r (enforce os r event rule start now).0
  change_mode : (r : ResponseActor) (mode : String) → Step os r (set_mode r mode)
  tick :
      (r : ResponseActor) (now : ℕ)
      → Step os r (record r { rate_limiter = cleanup_tick r.rate_limiter now })
  wake :
      (r : ResponseActor) (before after : List Escalation) (waiting : Escalation) (now : ℕ)
      → r.pending ≡ before ++ (waiting ∷ after)
      → Step os r (escalate os (record r { pending = before ++ after }) waiting now)

pub data Steps (os : Os) : ResponseActor → ResponseActor → Type 0 where
  done : (r : ResponseActor) → Steps os r r
  also : (r s t : ResponseActor) → Steps os r s → Step os s t → Steps os r t

-- A process that may get a signal: not process 0, not process 1 and not the agent.
pub record IsTarget (agent_pid pid : ℕ) : Type 0 where
  pub not_idle : pid ≢ 0
  pub not_init : pid ≢ 1
  pub not_agent : pid ≢ agent_pid

-- An event whose process may be killed, now or after its grace period.
pub record IsCleared (config : ResponseActorConfig) (agent_pid : ℕ) (event : EnrichedEvent)
    : Type 0 where
  pub target : IsTarget agent_pid event.raw_event.pid
  pub attributed : event.container_attributed ≡ true
  pub identified : event.container_id ≢ ""
  pub unprotected : is_protected config event.namespace ≡ false
  pub scoped : event.namespace ≢ ""

-- Every call made so far went to a permitted process, and every waiting escalation is about a
-- cleared event.
pub record IsSafe (config : ResponseActorConfig) (agent_pid : ℕ) (r : ResponseActor) : Type 0 where
  pub same_config : r.config ≡ config
  pub same_agent : r.agent_pid ≡ agent_pid
  pub calls : AllOf (λ c. IsTarget agent_pid c.0) r.calls
  pub pending : AllOf (λ w. IsCleared config agent_pid w.event) r.pending

module _ (os : Os) (config : ResponseActorConfig) (agent_pid : ℕ) where
  called-IsSafe :
      (pid : ℕ)
      → IsTarget agent_pid pid
      → (r : ResponseActor) (sig : ℕ) → IsSafe config agent_pid r
      → IsSafe config agent_pid (record r { calls = (pid, sig) ∷ r.calls })
  called-IsSafe pid t r sig h = record {
    same_config = h.same_config;
    same_agent = h.same_agent;
    calls = (t, h.calls);
    pending = h.pending;
  }

  waits-IsSafe :
      (event : EnrichedEvent)
      → IsCleared config agent_pid event
      → (r : ResponseActor) (rule : RuleMatch) (grace : ℕ) → IsSafe config agent_pid r
      → IsSafe config agent_pid (record r {
        pending = r.pending ++ (record { event = event; rule = rule; grace_period = grace } ∷ []);
      })
  waits-IsSafe event c r rule grace h = record {
    same_config = h.same_config;
    same_agent = h.same_agent;
    calls = h.calls;
    pending =
        append-AllOf (λ w. IsCleared config agent_pid w.event) r.pending
          (record { event = event; rule = rule; grace_period = grace } ∷ []) h.pending (c, tt);
  }

  IsClear-IsCleared :
      (r : ResponseActor) (event : EnrichedEvent) (now : ℕ)
      → IsSafe config agent_pid r
      → IsClear r event now
      → IsCleared config agent_pid event
  IsClear-IsCleared r event now h c = record {
    target = record {
      not_idle = c.not_idle;
      not_init = c.not_init;
      not_agent = λ e. c.not_agent (e ∙ sym h.same_agent);
    };
    attributed = c.attributed;
    identified = c.identified;
    unprotected = ap (λ cfg. is_protected cfg event.namespace) (sym h.same_config) ∙ c.unprotected;
    scoped = c.scoped;
  }

  decide-IsSafe :
      (r : ResponseActor) (event : EnrichedEvent) (rule : RuleMatch) (start now : ℕ)
      → IsSafe config agent_pid r
      → IsSafe config agent_pid (enforce os r event rule start now).0
  unfolding finish
  decide-IsSafe r event rule start now h = elim (enforce-cases os r event rule start now) [
    | inl (clear, e) ↦
        let ok = IsClear-IsCleared r event now h clear in
        let acted =
          execute-keeps os (IsSafe config agent_pid) event
            (called-IsSafe event.raw_event.pid ok.target) (waits-IsSafe event ok)
            (asked r event now) rule start
            (record {
              same_config = h.same_config;
              same_agent = h.same_agent;
              calls = h.calls;
              pending = h.pending;
            }) in
        subst (IsSafe config agent_pid) (sym (ap (λ p. p.0) e)) (record {
          same_config = acted.same_config;
          same_agent = acted.same_agent;
          calls = acted.calls;
          pending = acted.pending;
        })
    | inr (limiter, reason, e) ↦ subst (IsSafe config agent_pid) (sym (ap (λ p. p.0) e)) (record {
      same_config = h.same_config;
      same_agent = h.same_agent;
      calls = h.calls;
      pending = h.pending;
    })
  ]

  escalate-IsSafe :
      (r : ResponseActor) (waiting : Escalation) (now : ℕ)
      → IsCleared config agent_pid waiting.event
      → IsSafe config agent_pid r
      → IsSafe config agent_pid (escalate os r waiting now)
  unfolding escalate finish kill
  escalate-IsSafe r waiting now c h =
      let pid = waiting.event.raw_event.pid in
      let probed = kill os r pid 0 in
      let h' = called-IsSafe pid c.target r 0 h in
      let k =
        send_sigkill-keeps os (IsSafe config agent_pid) waiting.event (called-IsSafe pid c.target)
          (record r { calls = (pid, 0) ∷ r.calls }) h' in
      elim (Option-cases (os.kill_error r.calls pid 0)) [
        | inr (err, e) ↦ rw e h'
        | inl e ↦
            elim (Option-cases
              ((send_sigkill os (record r { calls = (pid, 0) ∷ r.calls }) pid).1)) [
                | inr (err, f) ↦
                    rw (e, f)
                      (record {
                        same_config = k.same_config;
                        same_agent = k.same_agent;
                        calls = k.calls;
                        pending = k.pending;
                      })
                | inl f ↦
                    rw (e, f)
                      (record {
                        same_config = k.same_config;
                        same_agent = k.same_agent;
                        calls = k.calls;
                        pending = k.pending;
                      })
              ]
      ]

  Step-IsSafe :
      (r s : ResponseActor) → Step os r s → IsSafe config agent_pid r → IsSafe config agent_pid s
  unfolding set_mode
  Step-IsSafe r s (decide _ event rule start now) h = decide-IsSafe r event rule start now h
  Step-IsSafe r s (change_mode _ mode) h = record {
    same_config = h.same_config;
    same_agent = h.same_agent;
    calls = h.calls;
    pending = h.pending;
  }
  Step-IsSafe r s (tick _ now) h = record {
    same_config = h.same_config;
    same_agent = h.same_agent;
    calls = h.calls;
    pending = h.pending;
  }
  Step-IsSafe r s (wake _ before after waiting now e) h =
      let parts =
        split-AllOf (λ w. IsCleared config agent_pid w.event) before waiting after
          (subst (AllOf (λ w. IsCleared config agent_pid w.event)) e h.pending) in
      escalate-IsSafe (record r { pending = before ++ after }) waiting now parts.0
        (record {
          same_config = h.same_config;
          same_agent = h.same_agent;
          calls = h.calls;
          pending = parts.1;
        })

  Steps-IsSafe :
      (r s : ResponseActor) → Steps os r s → IsSafe config agent_pid r → IsSafe config agent_pid s
  Steps-IsSafe r s (done _) h = h
  Steps-IsSafe r s (also _ t _ before last) h = Step-IsSafe t s last (Steps-IsSafe r t before h)

  -- In every state that a new actor reaches, whatever the kernel answers and however decisions,
  -- mode changes, cleanups and escalations interleave, all calls of `kill` went to a process other than
  -- 0, 1 and the agent itself, and every waiting escalation is about such a process, in an attributed
  -- container with an id and in a non-empty namespace outside the protected ones.
  pub reachable-IsSafe :
      (mode : String) (s : ResponseActor)
      → Steps os (new_response_actor mode config agent_pid) s
      → IsSafe config agent_pid s
  unfolding new_response_actor
  reachable-IsSafe mode s steps =
      Steps-IsSafe (new_response_actor mode config agent_pid) s steps
        (record { same_config = refl; same_agent = refl; calls = tt; pending = tt })
