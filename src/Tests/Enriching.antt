-- ===== src/Tests/Enriching.antt =====
-- Tests of the container metadata.
use container_runtime_securi.Prelude.{
  ℕ, nat_comparable, string_comparable, bytes_comparable, ◌≡◌, ◌==◌, ◌||◌, not, false, refl, Option,
  none, some, List, [], ◌∷◌, arith, if◌then◌else◌,
}
use container_runtime_securi.Prelude.GoMap
use container_runtime_securi.Prelude.Slices.{Bytes}
use container_runtime_securi.Prelude.Text.{codes, split, join, has_prefix, trim_space}
use container_runtime_securi.Enrichment.Lru.{
  new_pid_cache, get_pid, set_pid, store, store_found, add_to_front, get_found,
}
use container_runtime_securi.Enrichment.Lru.Bounds.{
  PidCall, get_call, set_call, reap_call, after_calls, IsBounded, after_calls-IsBounded,
}
use container_runtime_securi.Enrichment.Cgroup.{
  extract_container_id, first_line_id, line_id, cgroup_path, last_segment_id, segment_id,
  is_hex_string,
}
use container_runtime_securi.Enrichment.Cgroup.Hex.{
  IsContainerId, extract_container_id-IsContainerId,
}
use container_runtime_securi.Enrichment.Manager.{
  ContainerInfo, Manager, new_cri_cache, set_container, is_known, unregister_container, reap_tick,
  resolve_container_id, resolve_uncached, resolve_found,
}
use container_runtime_securi.Enrichment.Manager.Resolving.{resolve_container_id-kept}
use container_runtime_securi.Enrichment.Manager.Unregistering.{
  is_cgroup_of, unregister_container-reap_tick,
}

abbrev calls : List PidCall
calls = set_call 7 (codes "a") 1 ∷ set_call 8 (codes "b") 2 ∷ get_call 7 3 ∷ reap_call 500 ∷ []

after_calls-IsBounded_example : IsBounded 1 (after_calls (new_pid_cache 1 100) calls)
after_calls-IsBounded_example = after_calls-IsBounded 1 100 calls (omega arith)

abbrev docker_line : Bytes
docker_line = codes "0::/docker/0123456789ab"

extract_container_id-IsContainerId_example : IsContainerId (extract_container_id docker_line)
extract_container_id-IsContainerId_example = extract_container_id-IsContainerId docker_line

-- The last segment of a CRI-O path is no hexadecimal number.
crio_missed : extract_container_id (codes "0::/crio-0123456789ab") ≡ []
unfolding extract_container_id first_line_id line_id cgroup_path last_segment_id segment_id split
    join is_hex_string has_prefix trim_space
crio_missed = refl

abbrev manager : Manager
manager = record {
  pid_cache = new_pid_cache 10 100;
  cri_cache = new_cri_cache 0;
  cgroup_map = (99, codes "c1") ∷ [];
}

abbrev no_proc : ℕ → Option Bytes
no_proc pid = none

found_by_cgroup : (resolve_container_id no_proc manager 99 7 1).1 ≡ codes "c1"
unfolding resolve_container_id resolve_uncached resolve_found get_pid get_found new_pid_cache
    GoMap.get
found_by_cgroup = refl

-- The first resolution, and the manager after more calls of its PID cache.
abbrev resolved : Manager
resolved = (resolve_container_id no_proc manager 99 7 1).0

abbrev later_calls : List PidCall
later_calls = set_call 8 (codes "b") 2 ∷ get_call 7 3 ∷ reap_call 50 ∷ []

abbrev used : Manager
used = record resolved { pid_cache = after_calls resolved.pid_cache later_calls; cgroup_map = [] }

resolve_container_id-kept_example :
    (resolve_container_id no_proc used 5 7 60).1 ≡ (resolve_container_id no_proc manager 99 7 1).1
unfolding resolve_container_id resolve_uncached resolve_found get_pid set_pid store store_found
    add_to_front get_found new_pid_cache GoMap.get GoMap.put
resolve_container_id-kept_example =
    resolve_container_id-kept no_proc manager used 99 5 7 1 60 later_calls (omega arith)
      (after_calls-IsBounded 10 100 [] (omega arith)) refl (λ h. absurd (cc h))
      ((λ h. absurd (omega arith)), (tt, (omega arith, tt))) (omega arith) refl (omega arith)

abbrev container : ContainerInfo
container = record {
  id = codes "c1";
  name = [];
  image = [];
  image_digest = [];
  pod_name = [];
  namespace = [];
  service_account = [];
  labels = [];
  started_at = 0;
  privileged = false;
  capabilities = [];
  cgroup_id = 99;
}

abbrev registered : Manager
registered = record manager { cri_cache = set_container manager.cri_cache (codes "c1") container 1 }

unregister_container-reap_tick_example :
    GoMap.get (reap_tick (unregister_container registered (codes "c1") 2) 3).cgroup_map 99
    ≡ elim (GoMap.get registered.cgroup_map 99) [
      | none ↦ none
      | some other ↦
          if is_cgroup_of registered (codes "c1") 99
            || (codes "c1" == other || not (is_known registered.cri_cache other))
          then none
          else some other
    ]
unfolding GoMap.get
unregister_container-reap_tick_example =
    unregister_container-reap_tick registered (codes "c1") 2 3 99 (refl, tt)
