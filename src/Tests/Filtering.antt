-- ===== src/Tests/Filtering.antt =====
-- Tests of the ring-buffer filter.
use container_runtime_securi.Prelude.{
  nat_comparable, string_comparable, bytes_comparable, ◌≡◌, ◌↔◌, true, false, List, [], ◌∷◌,
}
use container_runtime_securi.Ebpf.Filter.{
  RingBufferFilter, new_filter, add_pid_blacklist, should_pass,
}
use container_runtime_securi.Ebpf.Filter.Verdict.{IsWanted, should_pass_iff}
use container_runtime_securi.Ebpf.Filter.Counters.{
  Op, allow_pid, set_categories, offer, run, IsCounted, run-IsCounted, blacklist_permanent,
}
use container_runtime_securi.Tests.{naturals, raw_event}

abbrev fresh : RingBufferFilter naturals
fresh = new_filter naturals

abbrev ops : List (Op naturals)
ops = allow_pid 4242 ∷ set_categories (6 ∷ []) ∷ offer raw_event 0 ∷ []

should_pass_iff_example :
    ((should_pass naturals fresh raw_event 0).1 ≡ true) ↔ IsWanted naturals fresh raw_event 0
should_pass_iff_example = should_pass_iff naturals fresh raw_event 0

run-IsCounted_example : IsCounted naturals (run naturals fresh ops)
run-IsCounted_example = run-IsCounted naturals ops

blacklist_permanent_example :
    (should_pass naturals
      (run naturals (add_pid_blacklist naturals fresh raw_event.pid) ops)
      raw_event
      0).1
    ≡ false
blacklist_permanent_example = blacklist_permanent naturals fresh ops raw_event 0
