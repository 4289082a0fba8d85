-- ===== src/Ebpf/Filter.antt =====
-- `RingBufferFilter` of pkg/ebpf/filter.go. The counters are `atomic.Uint64`, which wrap; the maps
-- from keys to `true` are Go maps. `rand.Float64()` is the argument `sample` of a call.
pub mod Verdict
pub mod Counters
use container_runtime_securi.Prelude.{
  ℕ, zero, suc, nat_comparable, string_comparable, bytes_comparable, Comparable, ◌==◌, ==_iff,
  ==_refl, bytes_beq, bytes_beq_iff, String, ◌+◌, ◌-◌, ◌*◌, ◌/◌, ◌%◌, ◌^◌, ◌≤◌, ◌<◌, ◌≡◌, refl, sym,
  ap, ◌∙◌, ◌≢◌, ◌↔◌, ◌⊎◌, inl, inr, Bool, true, false, not, ◌&&◌, ◌||◌, Option, none, some, List,
  [], ◌∷◌, ◌++◌, map, arith, ltb, leb, if◌then◌else◌, Bool-cases, Option-cases, length, get_elem?,
  take, drop, replicate, keep_if, length-append, take-append-drop, length-take, length-drop,
  take_append_left, drop_append_left, length-keep_if-le, drop_behind, get_elem?_behind,
}
use container_runtime_securi.Prelude.GoMap
use container_runtime_securi.Prelude.GoMap.{GoMap}
use container_runtime_securi.Prelude.Float.{Float64}
use container_runtime_securi.Ebpf.Event.{ScarletEvent}

-- `atomic.Uint64.Add(1)`
abbrev pub add_one_u64 : ℕ → ℕ
add_one_u64 n = (n + 1) % 2 ^ 64

pub record CategoryStats : Type 0 where
  pub seen : ℕ
  pub passed : ℕ
  pub dropped : ℕ

abbrev pub KeySet : Type 0
KeySet = GoMap ℕ Bool

-- `m[k]` of a `map[K]bool`: `false` for a missing key.
abbrev pub has : KeySet → ℕ → Bool
has m k = elim (GoMap.get m k) [ none ↦ false | some b ↦ b ]

-- `for _, k := range keys { m[k] = true }`
unfoldable pub add_all : KeySet → List ℕ → KeySet
add_all m [] = m
add_all m (k ∷ ks) = add_all (GoMap.put m k true) ks

-- `stats, ok := eventsByCategory[cat]`, created at zero when missing.
unfoldable pub stats_of : GoMap ℕ CategoryStats → ℕ → CategoryStats
stats_of m cat = elim (GoMap.get m cat) [
  | none ↦ record { seen = 0; passed = 0; dropped = 0 }
  | some s ↦ s
]

-- `len(m) > 0 && !m[k]`, written as two nested tests in the source
abbrev pub misses : KeySet → ℕ → Bool
misses m k = if ltb 0 (length m) then not (has m k) else false

module _ (float : Float64) where
  open float use {F, zero_f, one_f, lt}

  pub record RingBufferFilter : Type 0 where
    pub category_filter : KeySet
    pub pid_filter : KeySet
    pub pid_blacklist : KeySet
    pub cgroup_filter : KeySet
    pub syscall_filter : KeySet
    pub drop_probability : F
    pub events_seen : ℕ
    pub events_passed : ℕ
    pub events_dropped : ℕ
    pub events_by_category : GoMap ℕ CategoryStats

  unfoldable pub new_filter : RingBufferFilter
  new_filter = record {
    category_filter = [];
    pid_filter = [];
    pid_blacklist = [];
    cgroup_filter = [];
    syscall_filter = [];
    drop_probability = zero_f;
    events_seen = 0;
    events_passed = 0;
    events_dropped = 0;
    events_by_category = [];
  }

  unfoldable pub set_category_filter : RingBufferFilter → List ℕ → RingBufferFilter
  set_category_filter f categories = record f { category_filter = add_all [] categories }

  unfoldable pub add_category : RingBufferFilter → ℕ → RingBufferFilter
  add_category f cat = record f { category_filter = GoMap.put f.category_filter cat true }

  unfoldable pub remove_category : RingBufferFilter → ℕ → RingBufferFilter
  remove_category f cat = record f { category_filter = GoMap.delete f.category_filter cat }

  unfoldable pub set_pid_filter : RingBufferFilter → List ℕ → RingBufferFilter
  set_pid_filter f pids = record f { pid_filter = add_all [] pids }

  unfoldable pub add_pid : RingBufferFilter → ℕ → RingBufferFilter
  add_pid f pid = record f { pid_filter = GoMap.put f.pid_filter pid true }

  unfoldable pub add_pid_blacklist : RingBufferFilter → ℕ → RingBufferFilter
  add_pid_blacklist f pid = record f { pid_blacklist = GoMap.put f.pid_blacklist pid true }

  unfoldable pub set_cgroup_filter : RingBufferFilter → List ℕ → RingBufferFilter
  set_cgroup_filter f ids = record f { cgroup_filter = add_all [] ids }

  unfoldable pub add_cgroup : RingBufferFilter → ℕ → RingBufferFilter
  add_cgroup f id = record f { cgroup_filter = GoMap.put f.cgroup_filter id true }

  unfoldable pub remove_cgroup : RingBufferFilter → ℕ → RingBufferFilter
  remove_cgroup f id = record f { cgroup_filter = GoMap.delete f.cgroup_filter id }

  unfoldable pub set_syscall_filter : RingBufferFilter → List ℕ → RingBufferFilter
  set_syscall_filter f syscalls = record f { syscall_filter = add_all [] syscalls }

  unfoldable pub set_drop_probability : RingBufferFilter → F → RingBufferFilter
  set_drop_probability f p =
      let floor = if lt p zero_f then zero_f else p in
      record f { drop_probability = if lt one_f floor then one_f else floor }

  -- `eventsSeen.Add(1)` and `stats.seen.Add(1)`
  unfoldable pub count_seen : RingBufferFilter → ℕ → RingBufferFilter
  count_seen f cat =
      let s = stats_of f.events_by_category cat in
      record f {
        events_seen = add_one_u64 f.events_seen;
        events_by_category =
            GoMap.put f.events_by_category cat (record s { seen = add_one_u64 s.seen });
      }

  -- `eventsDropped.Add(1); stats.dropped.Add(1); return false`
  unfoldable pub drop_event : RingBufferFilter → ℕ → RingBufferFilter × Bool
  drop_event f cat =
      let s = stats_of f.events_by_category cat in
      (
        record f {
          events_dropped = add_one_u64 f.events_dropped;
          events_by_category =
              GoMap.put f.events_by_category cat (record s { dropped = add_one_u64 s.dropped });
        },
        false,
      )

  -- `eventsPassed.Add(1); stats.passed.Add(1); return true`
  unfoldable pub pass_event : RingBufferFilter → ℕ → RingBufferFilter × Bool
  pass_event f cat =
      let s = stats_of f.events_by_category cat in
      (
        record f {
          events_passed = add_one_u64 f.events_passed;
          events_by_category =
              GoMap.put f.events_by_category cat (record s { passed = add_one_u64 s.passed });
        },
        true,
      )

  unfoldable pub should_pass : RingBufferFilter → ScarletEvent → F → RingBufferFilter × Bool
  should_pass f event sample =
      let counted = count_seen f event.category in
      let drop' = drop_event counted event.category in
      if (if ltb 0 (length f.pid_blacklist) then has f.pid_blacklist event.pid else false)
      then drop'
      else if misses f.pid_filter event.pid
      then drop'
      else if misses f.category_filter event.category
      then drop'
      else if misses f.cgroup_filter event.cgroup_id
      then drop'
      else if misses f.syscall_filter event.syscall_nr
      then drop'
      else if lt zero_f f.drop_probability && lt sample f.drop_probability
      then drop'
      else pass_event counted event.category

  -- The loop of `ResetStats` over the category map.
  unfoldable pub reset_categories : GoMap ℕ CategoryStats → GoMap ℕ CategoryStats
  reset_categories [] = []
  reset_categories ((cat, s) ∷ m) =
      (cat, record { seen = 0; passed = 0; dropped = 0 }) ∷ reset_categories m

  unfoldable pub reset_stats : RingBufferFilter → RingBufferFilter
  unfolding reset_categories
  reset_stats f = record f {
    events_seen = 0;
    events_passed = 0;
    events_dropped = 0;
    events_by_category = reset_categories f.events_by_category;
  }

  unfoldable pub is_active : RingBufferFilter → Bool
  is_active f =
      ltb 0 (length f.category_filter)
      || ltb 0 (length f.pid_filter)
      || ltb 0 (length f.pid_blacklist)
      || ltb 0 (length f.cgroup_filter)
      || ltb 0 (length f.syscall_filter)
      || lt zero_f f.drop_probability
