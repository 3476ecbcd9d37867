-- ===== src/Tests/CpuSets.antt =====
-- CPU sets and their texts, at concrete sets.
use aether_opt_ext.Base.{◌≡◌, refl, ◌&&◌, some, arith, ltb, any}
use aether_opt_ext.Base.Text.{codes, split, to_string}
use aether_opt_ext.CpuSet.{IsCpuSet, is_set, count, cpu_setsize}
use aether_opt_ext.CpuSet.Count.{tally, count-tally}
use aether_opt_ext.CpuRange.{to_range_string, from_range, parse_cpu_ranges, allowed}
use aether_opt_ext.CpuRange.Parse.{part_covers, is_set-parse_cpu_ranges}
use aether_opt_ext.CpuRange.RoundTrip.{from_range-to_range_string}
use aether_opt_ext.Tests.Sample.{cpus_of}

small_IsCpuSet : IsCpuSet (cpus_of 143)
small_IsCpuSet = record { size = refl; words = omega arith }

fast_IsCpuSet : IsCpuSet (cpus_of 112)
fast_IsCpuSet = record { size = refl; words = omega arith }

printed : to_range_string (cpus_of 143) ≡ codes "0-3,7"
unfolding to_range_string to_string
printed = refl

from_range-to_range_string_example : from_range (to_range_string (cpus_of 143)) ≡ cpus_of 143
from_range-to_range_string_example = from_range-to_range_string (cpus_of 143) small_IsCpuSet

is_set-parse_cpu_ranges_example :
    is_set (parse_cpu_ranges (codes "0-3, 9") (some (cpus_of 143))) 2 ≡ (
      ltb 2 cpu_setsize
      && allowed (some (cpus_of 143)) 2
      && any (part_covers 2) (split b',' (codes "0-3, 9")))
is_set-parse_cpu_ranges_example = is_set-parse_cpu_ranges (codes "0-3, 9") (some (cpus_of 143)) 2

count-tally_example : count (cpus_of 143) ≡ tally (is_set (cpus_of 143)) 0 cpu_setsize
count-tally_example = count-tally (cpus_of 143) small_IsCpuSet
