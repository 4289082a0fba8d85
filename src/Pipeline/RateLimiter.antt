-- ===== src/Pipeline/RateLimiter.antt =====
-- `RateLimiter` of pkg/pipeline/response.go: kills per pod in a fixed window. `time.Now()` is an
-- argument, in nanoseconds.
pub mod Budget
use container_runtime_securi.Prelude.{
  ℕ, zero, suc, nat_comparable, string_comparable, bytes_comparable, Comparable, ◌==◌, ==_iff,
  ==_refl, bytes_beq, bytes_beq_iff, String, ◌+◌, ◌-◌, ◌*◌, ◌/◌, ◌%◌, ◌^◌, ◌≤◌, ◌<◌, ◌≡◌, refl, sym,
  ap, ◌∙◌, ◌≢◌, ◌↔◌, ◌⊎◌, inl, inr, Bool, true, false, not, ◌&&◌, ◌||◌, Option, none, some, List,
  [], ◌∷◌, ◌++◌, map, arith, ltb, leb, if◌then◌else◌, Bool-cases, Option-cases, length, get_elem?,
  take, drop, replicate, keep_if, length-append, take-append-drop, length-take, length-drop,
  take_append_left, drop_append_left, length-keep_if-le, drop_behind, get_elem?_behind,
}
use container_runtime_securi.Prelude.GoMap
use container_runtime_securi.Prelude.GoMap.{GoMap}

pub record RateCounter : Type 0 where
  pub count : ℕ
  pub reset_at : ℕ

pub record RateLimiter : Type 0 where
  pub max_per_window : ℕ
  pub window : ℕ
  pub counters : GoMap String RateCounter

unfoldable pub new_rate_limiter : ℕ → ℕ → RateLimiter
new_rate_limiter max' window = record { max_per_window = max'; window = window; counters = [] }

-- The counter of a key in a new window.
unfoldable pub restart : RateLimiter → String → ℕ → RateLimiter × Bool
restart rl key now = (
  record rl {
    counters = GoMap.put rl.counters key (record { count = 1; reset_at = now + rl.window });
  },
  true,
)

unfoldable pub allow : RateLimiter → String → ℕ → RateLimiter × Bool
unfolding restart
allow rl key now = elim (GoMap.get rl.counters key) [
  | none ↦ restart rl key now
  | some counter ↦
      if ltb counter.reset_at now
      then restart rl key now
      else if leb rl.max_per_window counter.count
      then (rl, false)
      else (
        record rl {
          counters = GoMap.put rl.counters key (record counter { count = counter.count + 1 });
        },
        true,
      )
]

-- One tick of the `cleanup` goroutine.
unfoldable pub cleanup_tick : RateLimiter → ℕ → RateLimiter
cleanup_tick rl now = record rl {
  counters = GoMap.delete_if (λ key counter. ltb counter.reset_at now) rl.counters;
}
