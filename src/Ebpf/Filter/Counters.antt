-- ===== src/Ebpf/Filter/Counters.antt =====
-- Sessions with the filter: any sequence of its operations.
use container_runtime_securi.Prelude.{
  ℕ, nat_comparable, string_comparable, bytes_comparable, ◌==◌, ◌+◌, ◌%◌, ◌^◌, ◌≡◌, refl, ap, ◌∙◌,
  ◌⊎◌, inl, inr, true, false, none, some, List, [], ◌∷◌, arith, ltb, if◌then◌else◌, Bool-cases,
  length,
}
use container_runtime_securi.Prelude.GoMap
use container_runtime_securi.Prelude.GoMap.{GoMap, get-put}
use container_runtime_securi.Prelude.Float.{Float64}
use container_runtime_securi.Ebpf.Event.{ScarletEvent}
use container_runtime_securi.Ebpf.Filter.{
  CategoryStats, KeySet, has, RingBufferFilter, new_filter, set_category_filter, add_category,
  remove_category, set_pid_filter, add_pid, add_pid_blacklist, set_cgroup_filter, add_cgroup,
  remove_cgroup, set_syscall_filter, set_drop_probability, stats_of, count_seen, drop_event,
  pass_event, should_pass, reset_categories, reset_stats, is_active,
}
use container_runtime_securi.Ebpf.Filter.Verdict.{should_pass_iff}

stats_of-put :
    (m : GoMap ℕ CategoryStats) (c cat : ℕ) (s : CategoryStats)
    → stats_of (GoMap.put m c s) cat ≡ (if c == cat then s else stats_of m cat)
unfolding stats_of
stats_of-put m c cat s = ground (arith, get-put m c cat s)

module _ (float : Float64) where
  open float use {F, zero_f, one_f, lt}

  -- The calls of the filter's exported methods.
  pub data Op : Type 0 where
    set_categories : List ℕ → Op
    allow_category : ℕ → Op
    forbid_category : ℕ → Op
    set_pids : List ℕ → Op
    allow_pid : ℕ → Op
    blacklist_pid : ℕ → Op
    set_cgroups : List ℕ → Op
    allow_cgroup : ℕ → Op
    forbid_cgroup : ℕ → Op
    set_syscalls : List ℕ → Op
    set_drop : F → Op
    offer : ScarletEvent → F → Op
    reset : Op

  unfoldable pub apply : RingBufferFilter float → Op → RingBufferFilter float
  apply f (set_categories ks) = set_category_filter float f ks
  apply f (allow_category k) = add_category float f k
  apply f (forbid_category k) = remove_category float f k
  apply f (set_pids ks) = set_pid_filter float f ks
  apply f (allow_pid k) = add_pid float f k
  apply f (blacklist_pid k) = add_pid_blacklist float f k
  apply f (set_cgroups ks) = set_cgroup_filter float f ks
  apply f (allow_cgroup k) = add_cgroup float f k
  apply f (forbid_cgroup k) = remove_cgroup float f k
  apply f (set_syscalls ks) = set_syscall_filter float f ks
  apply f (set_drop p) = set_drop_probability float f p
  apply f (offer event sample) = (should_pass float f event sample).0
  apply f reset = reset_stats float f

  unfoldable pub run : RingBufferFilter float → List Op → RingBufferFilter float
  run f [] = f
  run f (op ∷ ops) = run (apply f op) ops

  -- Every event that was seen was either passed or dropped, in total and in each category.
  pub record IsCounted (f : RingBufferFilter float) : Type 0 where
    pub total : f.events_seen ≡ (f.events_passed + f.events_dropped) % 2 ^ 64
    pub by_category :
        (cat : ℕ)
        → (stats_of f.events_by_category cat).seen
          ≡ ((stats_of f.events_by_category cat).passed
              + (stats_of f.events_by_category cat).dropped)
            % 2 ^ 64

  module _ (f : RingBufferFilter float) (c : ℕ) (h : IsCounted f) where
    drop_event-IsCounted : IsCounted (drop_event float (count_seen float f c) c).0
    unfolding drop_event count_seen
    drop_event-IsCounted = record {
      total = omega (arith, h.total);
      by_category = λ cat. simp stats_of-put (ground (arith, h.by_category cat, h.by_category c));
    }

    pass_event-IsCounted : IsCounted (pass_event float (count_seen float f c) c).0
    unfolding pass_event count_seen
    pass_event-IsCounted = record {
      total = omega (arith, h.total);
      by_category = λ cat. simp stats_of-put (ground (arith, h.by_category cat, h.by_category c));
    }

  should_pass-cases :
      (f : RingBufferFilter float) (event : ScarletEvent) (sample : F)
      → let c = event.category in
        (should_pass float f event sample ≡ drop_event float (count_seen float f c) c)
        ⊎ (should_pass float f event sample ≡ pass_event float (count_seen float f c) c)
  unfolding should_pass
  should_pass-cases f event sample = ground arith

  should_pass-IsCounted :
      (f : RingBufferFilter float) (event : ScarletEvent) (sample : F)
      → IsCounted f
      → IsCounted (should_pass float f event sample).0
  should_pass-IsCounted f event sample h = elim (should_pass-cases f event sample) [
    | inl e ↦ rw e (drop_event-IsCounted f event.category h)
    | inr e ↦ rw e (pass_event-IsCounted f event.category h)
  ]

  get-reset_categories :
      (m : GoMap ℕ CategoryStats) (cat : ℕ)
      → (GoMap.get (reset_categories float m) cat ≡ none)
        ⊎ (GoMap.get (reset_categories float m) cat
            ≡ some (record { seen = 0; passed = 0; dropped = 0 }))
  unfolding reset_categories GoMap.get
  get-reset_categories [] cat = inl refl
  get-reset_categories ((k, s) ∷ m) cat = ground (arith, get-reset_categories m cat)

  reset_stats-IsCounted : (f : RingBufferFilter float) → IsCounted (reset_stats float f)
  unfolding reset_stats
  reset_stats-IsCounted f = record {
    total = omega arith;
    by_category =
        λ cat. unfold stats_of in ground (arith, get-reset_categories f.events_by_category cat);
  }

  apply-IsCounted : (f : RingBufferFilter float) (op : Op) → IsCounted f → IsCounted (apply f op)
  unfolding apply
  apply-IsCounted f (offer event sample) h = should_pass-IsCounted f event sample h
  apply-IsCounted f reset h = reset_stats-IsCounted f
  apply-IsCounted f _ h =
      unfold set_category_filter add_category remove_category set_pid_filter add_pid
        add_pid_blacklist set_cgroup_filter add_cgroup remove_cgroup set_syscall_filter
        set_drop_probability in
      record { total = h.total; by_category = h.by_category }

  new_filter-IsCounted : IsCounted (new_filter float)
  unfolding new_filter stats_of GoMap.get
  new_filter-IsCounted = record { total = refl; by_category = λ cat. refl }

  -- From the new filter, whatever is configured, offered and reset, the events seen are those passed
  -- and those dropped, in total and for each category (modulo the counters' width).
  pub run-IsCounted : (ops : List Op) → IsCounted (run (new_filter float) ops)
  unfolding run
  run-IsCounted ops = go ops (new_filter float) new_filter-IsCounted
    where
      go : (ops : List Op) (f : RingBufferFilter float) → IsCounted f → IsCounted (run f ops)
      go [] f h = h
      go (op ∷ ops) f h = go ops (apply f op) (apply-IsCounted f op h)

  pid_blacklist-should_pass :
      (f : RingBufferFilter float) (event : ScarletEvent) (sample : F)
      → (should_pass float f event sample).0.pid_blacklist ≡ f.pid_blacklist
  unfolding drop_event pass_event count_seen
  pid_blacklist-should_pass f event sample = elim (should_pass-cases f event sample) [
    | inl e ↦ ap (λ r. r.0.pid_blacklist) e
    | inr e ↦ ap (λ r. r.0.pid_blacklist) e
  ]

  apply_keeps_blacklist :
      (f : RingBufferFilter float) (op : Op) (pid : ℕ)
      → has f.pid_blacklist pid ≡ true
      → has (apply f op).pid_blacklist pid ≡ true
  unfolding apply
  apply_keeps_blacklist f (blacklist_pid k) pid h =
      unfold add_pid_blacklist in ground (arith, get-put f.pid_blacklist k pid true)
  apply_keeps_blacklist f (offer event sample) pid h =
      ap (λ m. has m pid) (pid_blacklist-should_pass f event sample) ∙ h
  apply_keeps_blacklist f reset pid h = unfold reset_stats in h
  apply_keeps_blacklist f _ pid h =
      unfold set_category_filter add_category remove_category set_pid_filter add_pid
        set_cgroup_filter add_cgroup remove_cgroup set_syscall_filter set_drop_probability in
      h

  run_keeps_blacklist :
      (f : RingBufferFilter float) (ops : List Op) (pid : ℕ)
      → has f.pid_blacklist pid ≡ true
      → has (run f ops).pid_blacklist pid ≡ true
  unfolding run
  run_keeps_blacklist f [] pid h = h
  run_keeps_blacklist f (op ∷ ops) pid h =
      run_keeps_blacklist (apply f op) ops pid (apply_keeps_blacklist f op pid h)

  -- Once a PID is blacklisted, `ShouldPass` refuses its events, whatever is configured, whitelisted,
  -- sampled or reset afterwards.
  pub blacklist_permanent :
      (f : RingBufferFilter float) (ops : List Op) (event : ScarletEvent) (sample : F)
      → (should_pass float (run (add_pid_blacklist float f event.pid) ops) event sample).1 ≡ false
  blacklist_permanent f ops event sample =
      let g = run (add_pid_blacklist float f event.pid) ops in
      let listed : has g.pid_blacklist event.pid ≡ true =
        run_keeps_blacklist (add_pid_blacklist float f event.pid) ops event.pid (
          unfold add_pid_blacklist in
          ground (arith, get-put f.pid_blacklist event.pid event.pid true)) in
      elim (Bool-cases ((should_pass float g event sample).1)) [
        | inl passed ↦
            let w = (should_pass_iff float g event sample).0 passed in
            cc (w.not_blacklisted, listed)
        | inr dropped ↦ dropped
      ]

  empty_of_length : (m : KeySet) → ltb 0 (length m) ≡ false → m ≡ []
  empty_of_length [] h = refl
  empty_of_length (x ∷ m) h = ground arith

  -- A filter that `IsActive` reports as inactive passes every event, whatever the random sample.
  pub should_pass_inactive :
      (f : RingBufferFilter float) (event : ScarletEvent) (sample : F)
      → is_active float f ≡ false
      → (should_pass float f event sample).1 ≡ true
  unfolding is_active
  should_pass_inactive f event sample h =
      let no_pids : f.pid_blacklist ≡ [] = empty_of_length f.pid_blacklist (ground arith) in
      (should_pass_iff float f event sample).1 (record {
        not_blacklisted = unfold GoMap.get in rw no_pids;
        pid = inl (empty_of_length f.pid_filter (ground arith));
        category = inl (empty_of_length f.category_filter (ground arith));
        cgroup = inl (empty_of_length f.cgroup_filter (ground arith));
        syscall = inl (empty_of_length f.syscall_filter (ground arith));
        kept = ground arith;
      })

  -- `SetDropProbability` leaves a probability that is neither below 0 nor above 1, for every
  -- `float64`, NaN included.
  pub set_drop_probability_range :
      (f : RingBufferFilter float) (p : F)
      → (lt (set_drop_probability float f p).drop_probability zero_f ≡ false)
        × (lt one_f (set_drop_probability float f p).drop_probability ≡ false)
  unfolding set_drop_probability
  set_drop_probability_range f p =
      ground (arith, float.lt-zero-zero, float.lt-one-zero, float.lt-zero-one, float.lt-one-one)
