-- ===== src/Ebpf/Filter/Verdict.antt =====
-- Which events the filter lets through.
use container_runtime_securi.Prelude.{
  ℕ, nat_comparable, string_comparable, bytes_comparable, ◌≡◌, refl, ◌↔◌, ◌⊎◌, inl, Bool, true,
  false, not, ◌&&◌, [], ◌∷◌, arith, ltb, if◌then◌else◌, length,
}
use container_runtime_securi.Prelude.GoMap
use container_runtime_securi.Prelude.GoMap.{GoMap, get-put}
use container_runtime_securi.Prelude.Float.{Float64}
use container_runtime_securi.Ebpf.Event.{ScarletEvent}
use container_runtime_securi.Ebpf.Filter.{
  KeySet, has, RingBufferFilter, misses, drop_event, pass_event, should_pass,
}

module _ (float : Float64) where
  open float use {F, zero_f, one_f, lt}

  -- An empty list admits every key, any other only the keys in it.
  abbrev pub Admits : KeySet → ℕ → Type 0
  Admits m k = (m ≡ []) ⊎ (has m k ≡ true)

  -- What the documentation of `ShouldPass` promises, in terms of the configuration alone.
  pub record IsWanted (f : RingBufferFilter float) (event : ScarletEvent) (sample : F)
      : Type 0 where
    pub not_blacklisted : has f.pid_blacklist event.pid ≡ false
    pub pid : Admits f.pid_filter event.pid
    pub category : Admits f.category_filter event.category
    pub cgroup : Admits f.cgroup_filter event.cgroup_id
    pub syscall : Admits f.syscall_filter event.syscall_nr
    pub kept : (lt zero_f f.drop_probability && lt sample f.drop_probability) ≡ false

  misses_iff : (m : KeySet) (k : ℕ) → (misses m k ≡ false) ↔ Admits m k
  misses_iff [] k = (λ _. inl refl, λ _. refl)
  misses_iff (x ∷ m) k = ground arith

  guarded_has : (m : KeySet) (k : ℕ) → (if ltb 0 (length m) then has m k else false) ≡ has m k
  unfolding GoMap.get
  guarded_has [] k = refl
  guarded_has (x ∷ m) k = ground arith

  -- The verdict as one conjunction of tests.
  verdict : RingBufferFilter float → ScarletEvent → F → Bool
  verdict f event sample =
      not (has f.pid_blacklist event.pid)
      && not (misses f.pid_filter event.pid)
      && not (misses f.category_filter event.category)
      && not (misses f.cgroup_filter event.cgroup_id)
      && not (misses f.syscall_filter event.syscall_nr)
      && not (lt zero_f f.drop_probability && lt sample f.drop_probability)

  should_pass-verdict :
      (f : RingBufferFilter float) (event : ScarletEvent) (sample : F)
      → (should_pass float f event sample).1 ≡ verdict f event sample
  unfolding should_pass verdict drop_event pass_event
  should_pass-verdict f event sample = rw (guarded_has f.pid_blacklist event.pid) (ground arith)

  -- The verdict is `true` exactly for the events that the lists and the sampling admit.
  pub should_pass_iff :
      (f : RingBufferFilter float) (event : ScarletEvent) (sample : F)
      → ((should_pass float f event sample).1 ≡ true) ↔ IsWanted f event sample
  unfolding verdict
  should_pass_iff f event sample = rw (should_pass-verdict f event sample) (
    λ v. record {
      not_blacklisted = ground arith;
      pid = (misses_iff f.pid_filter event.pid).0 (ground arith);
      category = (misses_iff f.category_filter event.category).0 (ground arith);
      cgroup = (misses_iff f.cgroup_filter event.cgroup_id).0 (ground arith);
      syscall = (misses_iff f.syscall_filter event.syscall_nr).0 (ground arith);
      kept = ground arith;
    },
    λ w.
        let pid = (misses_iff f.pid_filter event.pid).1 w.pid in
        let category = (misses_iff f.category_filter event.category).1 w.category in
        let cgroup = (misses_iff f.cgroup_filter event.cgroup_id).1 w.cgroup in
        let syscall = (misses_iff f.syscall_filter event.syscall_nr).1 w.syscall in
        cc (w.not_blacklisted, pid, category, cgroup, syscall, w.kept),
  )
