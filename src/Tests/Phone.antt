-- ===== src/Tests/Phone.antt =====
-- The start of the program: clusters, kinds of cores, and the watch on the configuration.
use aether_opt_ext.Base.{ℕ, ◌≡◌, some, List, [], ◌∷◌, All, any, arith, if◌then◌else◌}
use aether_opt_ext.Base.Text.{codes, text_eq, ends_with}
use aether_opt_ext.CpuSet.{is_set}
use aether_opt_ext.CpuRange.{from_range}
use aether_opt_ext.Os.{Os}
use aether_opt_ext.Topology.Detect.{detect_core_types}
use aether_opt_ext.Topology.Detect.Groups.{has_cpu}
use aether_opt_ext.Topology.Detect.Kinds.{KindsOf}
use aether_opt_ext.Topology.Detect.Policies.{all_policies, detect_core_types-KindsOf}
use aether_opt_ext.Clusters.{fmt_cpus}
use aether_opt_ext.Clusters.Format.{from_range-fmt_cpus}
use aether_opt_ext.Inotify.{Seen, read_events}
use aether_opt_ext.Inotify.Walk.{
  InotifyEvent, IsEvent, events_bytes, is_change, is_gone, read_events-ends,
  read_events-events_bytes,
}
use aether_opt_ext.Tests.Sample.{machine_with, no_maps}
use aether_opt_ext.Tests.Maps.{plain_os}

-- Two policies: the CPUs 0 to 3, and the faster CPUs 4 to 7.
abbrev two_policies : Os (Unit {0})
two_policies = record (plain_os 0) {
  read_dir = λ path w. (some (codes "policy4" ∷ codes "policy0" ∷ []), w);
  read_file = λ path w. (
    some (
        if text_eq path (codes "/sys/devices/system/cpu/cpufreq/policy0/cpuinfo_max_freq")
        then codes "1800000"
        else if ends_with path (codes "cpuinfo_max_freq")
        then codes "2400000"
        else if text_eq path (codes "/sys/devices/system/cpu/cpufreq/policy0/related_cpus")
        then codes "0 1 2 3"
        else if ends_with path (codes "related_cpus")
        then codes "4 5 6 7"
        else codes "0-7"),
    w,
  );
}

detect_core_types-KindsOf_example :
    KindsOf
      (all_policies two_policies (machine_with no_maps))
      (detect_core_types two_policies (machine_with no_maps)).0
      5
detect_core_types-KindsOf_example = detect_core_types-KindsOf two_policies (machine_with no_maps) 5

abbrev fast : List ℕ
fast = 4 ∷ 5 ∷ 6 ∷ 9 ∷ []

from_range-fmt_cpus_example : is_set (from_range (fmt_cpus fast)) 5 ≡ has_cpu 5 fast
from_range-fmt_cpus_example = from_range-fmt_cpus fast 5 (omega arith) (omega arith)

-- The file is written, and then moved away.
abbrev written : InotifyEvent
written = record { wd = 1; mask = 8; cookie = 0; name = [] }

abbrev moved : InotifyEvent
moved = record { wd = 1; mask = 0x800; cookie = 0; name = codes "a" }

abbrev both : List InotifyEvent
both = written ∷ moved ∷ []

both-IsEvent : All IsEvent both
both-IsEvent = (
  record { mask_lt = omega arith; len_lt = omega arith },
  (record { mask_lt = omega arith; len_lt = omega arith }, tt),
)

read_events-ends_example : (r : Seen) × (read_events (events_bytes both) ≡ some r)
read_events-ends_example = read_events-ends (events_bytes both)

read_events-events_bytes_example :
    read_events (events_bytes both)
    ≡ some (record { reload = any is_change both; rewatch = any is_gone both })
read_events-events_bytes_example = read_events-events_bytes both both-IsEvent
