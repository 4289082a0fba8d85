-- ===== src/Pipeline/RateLimiter/Budget.antt =====
-- How many kills the limiter grants a pod in a stretch of time.
use container_runtime_securi.Prelude.{
  ℕ, nat_comparable, string_comparable, bytes_comparable, ◌==◌, ==_iff, String, ◌+◌, ◌-◌, ◌*◌, ◌≤◌,
  ◌≡◌, refl, ◌⊎◌, inl, inr, ◌&&◌, Option, none, some, List, [], ◌∷◌, arith, ltb, leb, if◌then◌else◌,
  Bool-cases, Option-cases,
}
use container_runtime_securi.Prelude.GoMap
use container_runtime_securi.Prelude.GoMap.{
  GoMap, IsMap, get-put, get-delete_if, put-IsMap, delete_if-IsMap,
}
use container_runtime_securi.Pipeline.RateLimiter.{RateCounter, RateLimiter, allow, cleanup_tick}

-- A call of `Allow`, for any pod, or a tick of the cleanup goroutine.
pub data Use : Type 0 where
  ask : String → ℕ → Use
  tick : ℕ → Use

abbrev pub time_of : Use → ℕ
time_of (ask key now) = now
time_of (tick now) = now

unfoldable pub after : RateLimiter → Use → RateLimiter
after rl (ask key now) = (allow rl key now).0
after rl (tick now) = cleanup_tick rl now

-- Whether a call grants a kill to the pod `k`.
unfoldable pub grants : String → RateLimiter → Use → ℕ
grants k rl (ask key now) = if key == k && (allow rl key now).1 then 1 else 0
grants k rl (tick now) = 0

-- How often the calls of a session grant a kill to the pod `k`.
unfoldable pub granted : String → RateLimiter → List Use → ℕ
granted k rl [] = 0
granted k rl (u ∷ us) = grants k rl u + granted k (after rl u) us

-- Every use falls between two times.
abbrev pub Within : ℕ → ℕ → List Use → Type 0
Within a b [] = Unit
Within a b (u ∷ us) = (a ≤ time_of u) × (time_of u ≤ b) × Within a b us

-- A call of `Allow` writes at most the counter of its key.
pub allow_writes :
    (rl : RateLimiter) (key : String) (now : ℕ)
    → ((allow rl key now).0 ≡ rl)
      ⊎ ((c : RateCounter) × ((allow rl key now).0
            ≡ record rl { counters = GoMap.put rl.counters key c }))
unfolding allow
allow_writes rl key now = elim (Option-cases (GoMap.get rl.counters key)) [
  | inl new ↦ inr (record { count = 1; reset_at = now + rl.window }, ground arith)
  | inr (c, old) ↦ elim (Bool-cases (ltb c.reset_at now)) [
    | inl over ↦ inr (record { count = 1; reset_at = now + rl.window }, ground arith)
    | inr running ↦ elim (Bool-cases (leb rl.max_per_window c.count)) [
      | inl full ↦ inl (ground arith)
      | inr room ↦ inr (record c { count = c.count + 1 }, ground arith)
    ]
  ]
]

module _ (k : String) (a : ℕ) where
  -- What the limiter can still grant to `k` before `a + window`: the rest of the running window,
  -- and a whole one more if that window ends earlier.
  budget_of : RateLimiter → Option RateCounter → ℕ
  budget_of rl none = rl.max_per_window
  budget_of rl (some c) =
      (rl.max_per_window - c.count)
      + (if leb (a + rl.window) c.reset_at then 0 else rl.max_per_window)

  budget : RateLimiter → ℕ
  budget rl = budget_of rl (GoMap.get rl.counters k)

  module _ (rl : RateLimiter) (pos : 1 ≤ rl.max_per_window) (im : IsMap rl.counters) where
    ask_budget :
        (key : String) (now : ℕ)
        → a ≤ now
        → now ≤ a + rl.window
        → grants k rl (ask key now) + budget (after rl (ask key now)) ≤ budget rl
    unfolding grants after budget budget_of allow
    ask_budget key now lo hi = elim (Option-cases (GoMap.get rl.counters key)) [
      | inl new ↦ ground (
        arith,
        new,
        ==_iff key k,
        get-put rl.counters key k (record { count = 1; reset_at = now + rl.window }),
      )
      | inr (c, old) ↦ ground (
        arith,
        old,
        ==_iff key k,
        get-put rl.counters key k (record { count = 1; reset_at = now + rl.window }),
        get-put rl.counters key k (record c { count = c.count + 1 }),
      )
    ]

    step_budget :
        (u : Use)
        → a ≤ time_of u
        → time_of u ≤ a + rl.window
        → grants k rl u + budget (after rl u) ≤ budget rl
    step_budget (ask key now) lo hi = ask_budget key now lo hi
    step_budget (tick now) lo hi =
        unfold grants after budget budget_of cleanup_tick in
        ground (arith, get-delete_if (λ key (c : RateCounter). ltb c.reset_at now) rl.counters k im)

    -- A call keeps the configuration and the map.
    after_keeps :
        (u : Use)
        → ((after rl u).max_per_window ≡ rl.max_per_window)
          × ((after rl u).window ≡ rl.window)
          × IsMap (after rl u).counters
    unfolding after cleanup_tick
    after_keeps (ask key now) = elim (allow_writes rl key now) [
      | inl e ↦ rw e (refl, refl, im)
      | inr (c, e) ↦ rw e (refl, refl, put-IsMap rl.counters key c im)
    ]
    after_keeps (tick now) = (refl, refl, delete_if-IsMap _ rl.counters im)

  granted-budget :
      (rl : RateLimiter) (us : List Use)
      → 1 ≤ rl.max_per_window
      → IsMap rl.counters
      → Within a (a + rl.window) us
      → granted k rl us ≤ budget rl
  unfolding granted
  granted-budget rl [] pos im w = omega arith
  granted-budget rl (u ∷ us) pos im (lo, hi, w) =
      let (same_max, same_window, im') = after_keeps rl pos im u in
      omega (
        arith,
        step_budget rl pos im u lo hi,
        granted-budget (after rl u) us (omega arith) im' (rw same_window w),
      )

-- If the limit is at least 1 and the counters hold each key once: whatever calls of `Allow` and cleanup ticks
-- fall into a stretch of time as long as the window, in any order, a pod is granted at most twice the limit.
pub granted-le :
    (k : String) (a : ℕ) (rl : RateLimiter) (us : List Use)
    → 1 ≤ rl.max_per_window
    → IsMap rl.counters
    → Within a (a + rl.window) us
    → granted k rl us ≤ 2 * rl.max_per_window
granted-le k a rl us pos im w = omega (arith, granted-budget k a rl us pos im w, budget-le)
  where
    budget-le : budget k a rl ≤ 2 * rl.max_per_window
    budget-le = unfold budget budget_of in ground arith
